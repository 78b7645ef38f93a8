-- ===== src/Go/Decimal.antt =====
-- strconv.Itoa of a number that is not negative, and strconv.Atoi.
use goxo.Base.{
  ℕ, zero, suc, ◌+◌, ◌-◌, ◌*◌, ◌/◌, ◌%◌, ◌^◌, ◌<◌, ◌≡◌, arith, Bool, true, false, ◌&&◌, Option,
  none, some, [], ◌∷◌, leb, ltb, nat_eq, if◌then◌else◌, inl, inr, Bool-cases,
}
use goxo.Base.Int.{ℤ, pos, negsuc}
use goxo.Base.Text.{Str}

-- The digits of `n` before `out`; the fuel is above `n`.
unfoldable pub digits : ℕ → ℕ → Str → Str
digits zero n out = out
digits (suc f) n out = elim (leb 10 n) [
  | true ↦ digits f (n / 10) ((b'0' + n % 10) ∷ out)
  | false ↦ (b'0' + n) ∷ out
]

unfoldable pub itoa : ℕ → Str
unfolding digits
itoa n = digits (suc n) n []

abbrev pub is_digit : ℕ → Bool
is_digit c = leb b'0' c && leb c b'9'

-- The number that digits spell behind `n`; `none` at any other byte.
unfoldable pub number : ℕ → Str → Option ℕ
number n [] = some n
number n (c ∷ s) = if is_digit c then number (n * 10 + (c - b'0')) s else none

-- At least one digit.
unfoldable pub unsigned : Str → Option ℕ
unfolding number
unsigned [] = none
unsigned (c ∷ s) = number 0 (c ∷ s)

-- In the range of an `int`, with its sign.
abbrev positive : Option ℕ → Option ℤ
positive none = none
positive (some n) = if ltb n (2 ^ 63) then some (pos n) else none

abbrev negative : Option ℕ → Option ℤ
negative none = none
negative (some zero) = some (pos 0)
negative (some (suc n)) = if ltb n (2 ^ 63) then some (negsuc n) else none

-- `none` stands for the error, whose kind the program does not look at.
unfoldable pub atoi : Str → Option ℤ
unfolding unsigned
atoi [] = none
atoi (c ∷ s) =
    if nat_eq c b'-'
    then negative (unsigned s)
    else if nat_eq c b'+'
    then positive (unsigned s)
    else positive (unsigned (c ∷ s))

-- A number that is printed behind others is read as their continuation.
number-digits : (f n : ℕ) (out : Str) → n < f → number 0 (digits f n out) ≡ number n out
unfolding digits number
number-digits zero n out h = absurd (omega arith)
number-digits (suc f) n out h = ground (arith, number-digits f (n / 10) ((b'0' + n % 10) ∷ out))

-- It begins with a digit, so with no sign.
digits_head :
    (f n : ℕ) (out : Str)
    → n < f
    → (c : ℕ) × (s : Str) × (digits f n out ≡ c ∷ s) × (is_digit c ≡ true)
unfolding digits
digits_head zero n out h = absurd (omega arith)
digits_head (suc f) n out h = elim (Bool-cases (leb 10 n)) [
  | inl more ↦ rw (more, digits) (digits_head f (n / 10) ((b'0' + n % 10) ∷ out) (ground arith))
  | inr last ↦ (b'0' + n, out, rw (last, digits), ground arith)
]

-- What Itoa prints of an `int` that is not negative, Atoi reads back.
pub atoi-itoa : (n : ℕ) → n < 2 ^ 63 → atoi (itoa n) ≡ some (pos n)
unfolding atoi itoa
atoi-itoa n h =
    let (c, s, e, digit) = digits_head (suc n) n [] (omega arith) in
    rw (e, atoi) (ground (arith, number-digits (suc n) n [], e))
