-- ===== src/Go/Address.antt =====
-- net.JoinHostPort.
use goxo.Base.{ℕ, Bool, true, false, [], ◌∷◌, ◌++◌, nat_eq, if◌then◌else◌}
use goxo.Base.Text.{Str}

unfoldable pub has_byte : ℕ → Str → Bool
has_byte c [] = false
has_byte c (x ∷ s) = if nat_eq x c then true else has_byte c s

-- A host with a colon is an IPv6 address and is put in brackets.
unfoldable pub join_host_port : Str → Str → Str
unfolding has_byte
join_host_port host port =
    if has_byte b':' host then b'[' ∷ (host ++ (b']' ∷ b':' ∷ port)) else host ++ (b':' ∷ port)
