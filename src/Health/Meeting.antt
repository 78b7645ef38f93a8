-- ===== src/Health/Meeting.antt =====
-- Whether the probe asks at the port that the engine serves on.
use goxo.Base.{
  ℕ, zero, suc, ◌+◌, ◌/◌, ◌%◌, ◌^◌, ◌<◌, ◌≡◌, ◌≢◌, refl, ap, sym, ◌∙◌, ◌⊎◌, ◌↔◌, inl, inr, arith,
  false, none, some, [], ◌∷◌, ◌++◌, Bool-cases, nat_eq, if◌then◌else◌, ◌==◌, ==_iff,
}
use mathlib.Core.List.{append_assoc}
use goxo.Base.Int.{pos}
use goxo.Base.Text.{Str, str_Eq, bytes}
use goxo.Go.Decimal.{digits, itoa, atoi, atoi-itoa}
use goxo.Go.Address.{has_byte, join_host_port}
use goxo.Settings.{Settings}
use goxo.Health.{health_addr, port, probe_addr}

-- What stands behind the last colon of an address.
abbrev pub after_colon : Str → Str → Str
after_colon found [] = found
after_colon found (c ∷ s) = after_colon (if nat_eq c b':' then s else found) s

abbrev pub port_of : Str → Str
port_of addr = after_colon [] addr

after_colon-none : (found s : Str) → has_byte b':' s ≡ false → after_colon found s ≡ found
unfolding has_byte
after_colon-none found [] h = refl
after_colon-none found (c ∷ s) h = ground (arith, after_colon-none found s)

after_colon-append :
    (found s p : Str) → has_byte b':' p ≡ false → after_colon found (s ++ (b':' ∷ p)) ≡ p
after_colon-append found [] p h = after_colon-none p p h
after_colon-append found (c ∷ s) p h =
    after_colon-append (if nat_eq c b':' then s ++ (b':' ∷ p) else found) s p h

-- The port of a joined address.
port_of-join_host_port :
    (host p : Str) → has_byte b':' p ≡ false → port_of (join_host_port host p) ≡ p
unfolding join_host_port
port_of-join_host_port host p h = elim (Bool-cases (has_byte b':' host)) [
  | inl e ↦
      rw (e, join_host_port)
        (ap (after_colon []) (sym (append_assoc host (b']' ∷ []) (b':' ∷ p)))
          ∙ after_colon-append [] (host ++ (b']' ∷ [])) p h)
  | inr e ↦ rw (e, join_host_port) (after_colon-append [] host p h)
]

has_byte-digits : (f n : ℕ) (out : Str) → n < f → has_byte b':' (digits f n out) ≡ has_byte b':' out
unfolding has_byte digits
has_byte-digits zero n out h = absurd (omega arith)
has_byte-digits (suc f) n out h = ground (arith, has_byte-digits f (n / 10) ((b'0' + n % 10) ∷ out))

has_byte-itoa : (n : ℕ) → has_byte b':' (itoa n) ≡ false
unfolding itoa has_byte
has_byte-itoa n = has_byte-digits (suc n) n [] (omega arith)

itoa_injective : (n m : ℕ) → n < 2 ^ 63 → m < 2 ^ 63 → itoa n ≡ itoa m → n ≡ m
itoa_injective n m hn hm e =
    let same : some (pos n) ≡ some (pos m) = sym (atoi-itoa n hn) ∙ ap atoi e ∙ atoi-itoa m hm in
    ground (arith, same)

itoa-ne-nil : (n : ℕ) → n < 2 ^ 63 → itoa n ≢ []
unfolding atoi
itoa-ne-nil n h e = let same : some (pos n) ≡ none = sym (atoi-itoa n h) ∙ ap atoi e in cc same

-- The port that the probe's variable names: a decimal number, or 5000 where it is not set.
abbrev pub Names : (Str → Str) → ℕ → Type 0
Names env n =
    ((env (bytes "HEALTHCHECK_PORT") ≡ []) × (n ≡ 5000)) ⊎ (env (bytes "HEALTHCHECK_PORT") ≡ itoa n)

port-Names : (env : Str → Str) (n : ℕ) → n < 2 ^ 63 → Names env n → port env ≡ itoa n
unfolding port
port-Names env n small (inl (unset, e)) = rw (unset, e) (unfold itoa in refl)
port-Names env n small (inr e) =
    ground (arith, e, itoa-ne-nil n small, ==_iff (env (bytes "HEALTHCHECK_PORT")) [])

-- The port that the settings name; 0 stands for 5000.
abbrev pub served_port : Settings → ℕ
served_port s = if nat_eq s.healthcheck_port 0 then 5000 else s.healthcheck_port

-- The probe asks at the port that the engine serves on exactly where its variable names the port of
-- the settings, 5000 being the default on both sides. (The port of an address is what stands behind
-- its last colon.)
pub probe_addr-health_addr :
    (env : Str → Str) (s : Settings) (n : ℕ)
    → n < 2 ^ 63
    → s.healthcheck_port < 2 ^ 32
    → Names env n
    → (port_of (probe_addr env) ≡ port_of (health_addr s)) ↔ (n ≡ served_port s)
unfolding probe_addr health_addr
probe_addr-health_addr env s n small small' named =
    let asked : port_of (probe_addr env) ≡ itoa n =
      ap (λ p. port_of (join_host_port (bytes "127.0.0.1") p)) (port-Names env n small named)
      ∙ port_of-join_host_port (bytes "127.0.0.1") (itoa n) (has_byte-itoa n) in
    let served : port_of (health_addr s) ≡ itoa (served_port s) =
      port_of-join_host_port
        (if s.healthcheck_host == [] then bytes "0.0.0.0" else s.healthcheck_host)
        (itoa (served_port s)) (has_byte-itoa (served_port s)) in
    (
      λ e. itoa_injective n (served_port s) small (ground arith) (sym asked ∙ e ∙ served),
      λ e. asked ∙ ap itoa e ∙ sym served,
    )
