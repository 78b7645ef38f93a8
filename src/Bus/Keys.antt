-- ===== src/Bus/Keys.antt =====
-- Routing keys are taken apart where they were put together, and ids are well formed.
use goxo.Base.{
  ℕ, suc, ◌+◌, ◌/◌, ◌%◌, ◌≤◌, ◌<◌, ◌≡◌, refl, ap, subst, ◌≢◌, ◌⊎◌, inl, inr, arith, none, some, [],
  ◌∷◌, ◌++◌, length, take, drop, take-length-append, nat_eq, Result, ok, err, All, All-append,
  passes_below, passes_below_lem, true, nat_eq_iff, get_elem?, ltb, ◌&&◌,
}
use Prim.Native.Nat.{bit_and, bit_or}
use goxo.Base.Text.{Str}
use goxo.Bus.Routing.{
  last_index, dot, selector_from_routing_key, message_id_from_routing_key, hex, hex_digit, new_id,
  uuid, stamped, mark,
}

abbrev pub DotFree : Str → Type 0
DotFree = All (λ (c : ℕ). c ≢ dot)

last_index-DotFree : (s : Str) → DotFree s → last_index s dot ≡ none
unfolding last_index
last_index-DotFree [] h = refl
last_index-DotFree (x ∷ s) (hx, h) = ground (arith, last_index-DotFree s h)

last_index-append : (s id : Str) → DotFree id → last_index (s ++ (dot ∷ id)) dot ≡ some (length s)
unfolding last_index
last_index-append [] id h = rw (last_index-DotFree id h)
last_index-append (x ∷ s) id h = rw (last_index-append s id h) refl

drop-past : (s : Str) (c : ℕ) (t : Str) → drop (suc (length s)) (s ++ (c ∷ t)) ≡ t
drop-past [] c t = refl
drop-past (x ∷ s) c t = drop-past s c t

-- A routing key "<selector>.<id>", where the id has no dot, gives back its selector and its id.
pub routing_key_parts :
    (selector id : Str)
    → DotFree id
    → (selector_from_routing_key (selector ++ (dot ∷ id)) ≡ selector)
      × (message_id_from_routing_key (selector ++ (dot ∷ id)) ≡ id)
unfolding selector_from_routing_key message_id_from_routing_key
routing_key_parts selector id h =
    let found = last_index-append selector id h in
    (
      rw (found, selector_from_routing_key) (take-length-append selector (dot ∷ id)),
      rw (found, message_id_from_routing_key) (drop-past selector dot id),
    )

last_index-cases :
    (s : Str)
    → ((last_index s dot ≡ none) × DotFree s)
      ⊎ ((i : ℕ) × (last_index s dot ≡ some i)
          × (s ≡ take i s ++ (dot ∷ drop (suc i) s))
          × DotFree (drop (suc i) s))
unfolding last_index
last_index-cases [] = inl (refl, tt)
last_index-cases (x ∷ s) = elim (last_index-cases s) [
  | inr (i, e, split, free) ↦ inr (suc i, rw (e, last_index), ap (◌∷◌ x) split, free)
  | inl (e, free) ↦ ground arith
]

-- No key is lost or made up: a key with a dot is its selector, a dot and its id, which has no dot;
-- a key with no dot is its own selector and has the empty id.
pub routing_key_whole :
    (key : Str)
    → (DotFree key × (selector_from_routing_key key ≡ key) × (message_id_from_routing_key key ≡ []))
      ⊎ ((key ≡ selector_from_routing_key key ++ (dot ∷ message_id_from_routing_key key))
          × DotFree (message_id_from_routing_key key))
unfolding selector_from_routing_key message_id_from_routing_key
routing_key_whole key = elim (last_index-cases key) [
  | inl (e, free) ↦
      inl (free, rw (e, selector_from_routing_key), rw (e, message_id_from_routing_key))
  | inr (i, e, split, free) ↦ inr (
    rw (e, selector_from_routing_key) (rw (e, message_id_from_routing_key) split),
    rw (e, message_id_from_routing_key) free,
  )
]

abbrev pub IsByte : ℕ → Type 0
IsByte b = b < 256

hex_digit_ne_dot : (d : ℕ) → hex_digit d ≢ dot
hex_digit_ne_dot d = ground arith

hex-DotFree : (s : Str) → DotFree (hex s)
unfolding hex
hex-DotFree [] = tt
hex-DotFree (b ∷ s) = (hex_digit_ne_dot (b / 16), (hex_digit_ne_dot (b % 16), hex-DotFree s))

length-hex : (s : Str) → length (hex s) ≡ length s + length s
unfolding hex
length-hex [] = refl
length-hex (b ∷ s) = omega (arith, length-hex s)

dashed : (s t : Str) → DotFree s → DotFree t → DotFree (s ++ (b'-' ∷ t))
dashed s t hs ht = All-append (λ (c : ℕ). c ≢ dot) s (b'-' ∷ t) hs ((λ e. omega arith), ht)

uuid-DotFree : (b : Str) → DotFree (uuid b)
unfolding uuid
uuid-DotFree b = dashed _ _ (hex-DotFree _) (
    dashed _ _ (hex-DotFree _)
      (dashed _ _ (hex-DotFree _) (dashed _ _ (hex-DotFree _) (hex-DotFree _))))

-- newID never puts a dot into an id, whatever the random bytes are.
pub new_id-DotFree : (random : Result Str Str) (id : Str) → new_id random ≡ ok id → DotFree id
unfolding new_id
new_id-DotFree (err e) id h = cc
new_id-DotFree (ok b) id h = subst DotFree (cc) (uuid-DotFree (stamped b))

version_table : passes_below (λ b. nat_eq (bit_or (bit_and b 0x0f) 0x40 / 16) 4) 256 ≡ true
unfolding passes_below
version_table = refl

variant_table :
    passes_below (λ b. nat_eq (bit_or (bit_and b 0x3f) 0x80 / 16) (8 + b / 16 % 4)) 256 ≡ true
unfolding passes_below
variant_table = refl

abbrev pub IsHex : ℕ → Type 0
IsHex c = ((b'0' ≤ c) × (c ≤ b'9')) ⊎ ((b'a' ≤ c) × (c ≤ b'f'))

hex_digit-IsHex : (d : ℕ) → d < 16 → IsHex (hex_digit d)
hex_digit-IsHex d h = ground (arith, h)

hex-IsHex : (s : Str) → All IsByte s → All IsHex (hex s)
unfolding hex
hex-IsHex [] h = tt
hex-IsHex (b ∷ s) (small, h) = (
  hex_digit-IsHex (b / 16) (omega (arith, small)),
  (hex_digit-IsHex (b % 16) (omega arith), hex-IsHex s h),
)

stamp_table :
    passes_below
      (λ b. ltb (bit_or (bit_and b 0x0f) 0x40) 256 && ltb (bit_or (bit_and b 0x3f) 0x80) 256)
      256
    ≡ true
unfolding passes_below
stamp_table = refl

-- A group of an id: so many hexadecimal digits.
pub record Group (n : ℕ) (g : Str) : Type 0 where
  pub long : length g ≡ n
  pub digits : All IsHex g

-- Whatever the 16 random bytes are, the id is a UUID of version 4: groups of 8, 4, 4, 4 and 12
-- lower-case hexadecimal digits, joined by dashes; the third group begins with `4`, the fourth with
-- `8`, `9`, `a` or `b`.
pub new_id_shape :
    (b0 b1 b2 b3 b4 b5 b6 b7 b8 b9 b10 b11 b12 b13 b14 b15 : ℕ)
    → All IsByte
        (b0 ∷ b1 ∷ b2 ∷ b3 ∷ b4 ∷ b5 ∷ b6 ∷ b7 ∷ b8 ∷ b9 ∷ b10 ∷ b11 ∷ b12 ∷ b13 ∷ b14 ∷ b15 ∷ [])
    → (g1 : Str) × (g2 : Str) × (g3 : Str) × (g4 : Str) × (g5 : Str) × (new_id (
          ok (
            b0 ∷ b1 ∷ b2 ∷ b3 ∷ b4 ∷ b5 ∷ b6 ∷ b7 ∷ b8 ∷ b9 ∷ b10 ∷ b11 ∷ b12 ∷ b13 ∷ b14 ∷ b15
            ∷ []))
        ≡ ok (g1 ++ (b'-' ∷ (g2 ++ (b'-' ∷ (g3 ++ (b'-' ∷ (g4 ++ (b'-' ∷ g5)))))))))
      × Group 8 g1
      × Group 4 g2
      × Group 4 g3
      × Group 4 g4
      × Group 12 g5
      × (get_elem? g3 0 ≡ some b'4')
      × (get_elem? g4 0 ≡ some (hex_digit (8 + b8 / 16 % 4)))
unfolding new_id mark
new_id_shape b0 b1 b2 b3 b4 b5 b6 b7 b8 b9 b10 b11 b12 b13 b14 b15 h =
    let (h0, (h1, (h2, (h3, (h4, (h5, (h6, (h7, (h8, (h9, later)))))))))) = h in
    let (h10, (h11, (h12, (h13, (h14, (h15, _)))))) = later in
    let four = passes_below_lem _ 256 b6 h6 version_table in
    let variant = passes_below_lem _ 256 b8 h8 variant_table in
    let byte6 : bit_or (bit_and b6 0x0f) 0x40 < 256 =
      ground (arith, passes_below_lem _ 256 b6 h6 stamp_table) in
    let byte8 : bit_or (bit_and b8 0x3f) 0x80 < 256 =
      ground (arith, passes_below_lem _ 256 b8 h8 stamp_table) in
    (
      _,
      _,
      _,
      _,
      _,
      refl,
      group (b0 ∷ b1 ∷ b2 ∷ b3 ∷ []) (h0, (h1, (h2, (h3, tt)))),
      group (b4 ∷ b5 ∷ []) (h4, (h5, tt)),
      group (_ ∷ b7 ∷ []) (byte6, (h7, tt)),
      group (_ ∷ b9 ∷ []) (byte8, (h9, tt)),
      group (b10 ∷ b11 ∷ b12 ∷ b13 ∷ b14 ∷ b15 ∷ []) (h10, (h11, (h12, (h13, (h14, (h15, tt)))))),
      unfold hex in ap (λ d. some (hex_digit d)) ((nat_eq_iff _ 4).0 four),
      unfold hex in ap (λ d. some (hex_digit d)) ((nat_eq_iff _ _).0 variant),
    )
  where
    group : (s : Str) → All IsByte s → Group (length s + length s) (hex s)
    group s h = record { long = length-hex s; digits = hex-IsHex s h }
