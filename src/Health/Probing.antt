-- ===== src/Health/Probing.antt =====
-- The probe against the server.
use goxo.Base.{
  ℕ, ◌^◌, ◌<◌, ◌≡◌, ◌≢◌, refl, ap, ◌∙◌, ◌⊎◌, ◌↔◌, inl, inr, arith, [], ◌++◌, Result, ok, err,
  nat_eq, Bool-cases,
}
use goxo.Base.Text.{Str, bytes}
use goxo.Settings.{Settings}
use goxo.Go.Address.{join_host_port}
use goxo.Health.{health_addr, port, probe_addr, probe, respond}
use goxo.Health.Meeting.{port_of, Names, served_port, probe_addr-health_addr}

-- A host whose listener takes connections to 127.0.0.1: none, which stands for all, all, or just it.
abbrev pub Loopback : Str → Type 0
Loopback host = (host ≡ []) ⊎ (host ≡ bytes "0.0.0.0") ⊎ (host ≡ bytes "127.0.0.1")

abbrev pub local_url : Str → Str
local_url p = bytes "http://" ++ (join_host_port (bytes "127.0.0.1") p ++ bytes "/status")

-- The machine of the engine and the probe, on which nobody else listens: where the engine's listener
-- takes connections to 127.0.0.1, a GET of /status there, at the port that it is bound to, gets its
-- answer; at any other port nobody answers.
pub record Hosts (get : Str → Result Str ℕ) (s : Settings) : Type 0 where
  pub here :
      (p : Str)
      → Loopback s.healthcheck_host
      → port_of (join_host_port (bytes "127.0.0.1") p) ≡ port_of (health_addr s)
      → get (local_url p) ≡ ok (respond (bytes "GET") (bytes "/status")).status
  pub elsewhere :
      (p : Str)
      → port_of (join_host_port (bytes "127.0.0.1") p) ≢ port_of (health_addr s)
      → (e : Str) × (get (local_url p) ≡ err e)

-- On a machine where only the engine listens, and its listener takes connections to 127.0.0.1 (the
-- settings' host is empty, 0.0.0.0 or 127.0.0.1), the probe exits with 0 exactly where its variable
-- names the port of the settings, 5000 being the default on both sides. (The port of an address is
-- what stands behind its last colon.)
pub probe_iff :
    (env : Str → Str) (s : Settings) (n : ℕ) (get : Str → Result Str ℕ)
    → n < 2 ^ 63
    → s.healthcheck_port < 2 ^ 32
    → Names env n
    → Loopback s.healthcheck_host
    → Hosts get s
    → (probe get (probe_addr env) ≡ 0) ↔ (n ≡ served_port s)
unfolding probe probe_addr
probe_iff env s n get small small' named local host =
    let meets = probe_addr-health_addr env s n small small' named in
    (
      λ h. elim (Bool-cases (nat_eq n (served_port s))) [
        | inl e ↦ ground (arith, e)
        | inr e ↦
            let apart : port_of (join_host_port (bytes "127.0.0.1") (port env))
                ≢ port_of (health_addr s) =
              λ q. ground (arith, e, meets.0 q) in
            let (x, failed) = host.elsewhere (port env) apart in absurd (ground (arith, h, failed))
      ],
      λ e.
          let answered = host.here (port env) local (meets.1 e) in
          let fine : (respond (bytes "GET") (bytes "/status")).status ≡ 200 =
            unfold respond in refl in
          ground (arith, answered ∙ ap ok fine),
    )
