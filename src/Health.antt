-- ===== src/Health.antt =====
-- The healthcheck: healthAddr of internal/engine/engine.go, the address that the engine serves
-- /status on, internal/health/health.go, the server, and cmd/healthcheck/main.go, the probe that asks
-- for it. The HTTP server is seen through its answers.
pub mod Meeting
pub mod Probing
use goxo.Base.{ℕ, ◌||◌, List, [], ◌∷◌, ◌++◌, Result, ok, err, nat_eq, if◌then◌else◌, ◌==◌}
use goxo.Base.Text.{Str, str_Eq, bytes}
use goxo.Go.Decimal.{itoa}
use goxo.Go.Address.{join_host_port}
use goxo.Settings.{Settings}

unfoldable pub health_addr : Settings → Str
health_addr s =
    join_host_port (if s.healthcheck_host == [] then bytes "0.0.0.0" else s.healthcheck_host)
      (itoa (if nat_eq s.healthcheck_port 0 then 5000 else s.healthcheck_port))

-- os.Getenv is a function.
unfoldable pub port : (Str → Str) → Str
port env =
    if env (bytes "HEALTHCHECK_PORT") == [] then bytes "5000" else env (bytes "HEALTHCHECK_PORT")

-- The address that main probes.
unfoldable pub probe_addr : (Str → Str) → Str
unfolding port
probe_addr env = join_host_port (bytes "127.0.0.1") (port env)

-- probe: the exit code. `get` answers with the status of the response, or an error.
unfoldable pub probe : (Str → Result Str ℕ) → Str → ℕ
probe get addr = elim (get (bytes "http://" ++ (addr ++ bytes "/status"))) [
  | err _ ↦ 1
  | ok status ↦ if nat_eq status 200 then 0 else 1
]

pub record Server : Type 0 where
  pub addr : Str  -- Addr: the address that the listener is bound to

pub data ServeError : Type 0 where
  listening : (addr : Str) (e : Str) → ServeError

-- Serve: `listen` is net.Listen, which answers with the bound address.
unfoldable pub serve : (Str → Result Str Str) → Str → Result ServeError Server
serve listen addr = elim (listen addr) [
  | err e ↦ err (listening addr e)
  | ok bound ↦ ok (record { addr = bound })
]

pub record Response : Type 0 where
  pub status : ℕ
  pub body : Str

-- The function that Serve registers.
abbrev pub status_handler : Response
status_handler = record { status = 200; body = bytes "OK" }

-- What the server answers: its mux has the one pattern "GET /status". (A pattern with GET is for HEAD
-- as well; of another method the mux says 405, and of another path 404.)
unfoldable pub respond : (method path : Str) → Response
respond method path =
    if path == bytes "/status"
    then (if method == bytes "GET" || method == bytes "HEAD"
        then status_handler
        else record { status = 405; body = bytes "Method Not Allowed\n" })
    else record { status = 404; body = bytes "404 page not found\n" }
