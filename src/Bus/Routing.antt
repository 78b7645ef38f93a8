-- ===== src/Bus/Routing.antt =====
-- internal/bus/control.go: routing keys, and the ids that end them.
use Prim.Native.Nat.{bit_and, bit_or}
use goxo.Base.{
  ℕ, zero, suc, ◌+◌, ◌-◌, ◌/◌, ◌%◌, Option, none, some, [], ◌∷◌, ◌++◌, take, drop, nat_eq, ltb,
  if◌then◌else◌, Result, ok, err,
}
use goxo.Base.Text.{Str}

-- strings.LastIndex(s, sep) for a separator of one byte; `none` is -1.
unfoldable pub last_index : Str → ℕ → Option ℕ
last_index [] c = none
last_index (x ∷ s) c = elim (last_index s c) [
  | some i ↦ some (suc i)
  | none ↦ if nat_eq x c then some 0 else none
]

abbrev pub dot : ℕ
dot = b'.'

unfoldable pub selector_from_routing_key : Str → Str
selector_from_routing_key key = elim (last_index key dot) [ none ↦ key | some i ↦ take i key ]

unfoldable pub message_id_from_routing_key : Str → Str
message_id_from_routing_key key = elim (last_index key dot) [
  | none ↦ []
  | some i ↦ drop (suc i) key
]

-- %x of a byte slice
abbrev pub hex_digit : ℕ → ℕ
hex_digit d = if ltb d 10 then b'0' + d else b'a' + (d - 10)

unfoldable pub hex : Str → Str
hex [] = []
hex (b ∷ s) = hex_digit (b / 16) ∷ hex_digit (b % 16) ∷ hex s

-- `b[i] = (b[i] & mask) | mark`
unfoldable pub mark : ℕ → ℕ → ℕ → Str → Str
mark i m v [] = []
mark zero m v (b ∷ s) = bit_or (bit_and b m) v ∷ s
mark (suc i) m v (b ∷ s) = b ∷ mark i m v s

unfoldable pub stamped : Str → Str
unfolding mark
stamped b = mark 8 0x3f 0x80 (mark 6 0x0f 0x40 b)

unfoldable pub uuid : Str → Str
unfolding hex
uuid b =
    hex (take 4 b)
    ++ (b'-'
        ∷ (hex (take 2 (drop 4 b))
            ++ (b'-'
                ∷ (hex (take 2 (drop 6 b))
                    ++ (b'-' ∷ (hex (take 2 (drop 8 b)) ++ (b'-' ∷ hex (take 6 (drop 10 b)))))))))

-- newID; `random` is what rand.Read filled the 16 bytes with, or its error.
unfoldable pub new_id : Result Str Str → Result Str Str
unfolding stamped uuid
new_id (err e) = err e
new_id (ok b) = ok (uuid (stamped b))
