-- ===== src/Go/Fields.antt =====
-- strings.Fields: the words of a string, split at Unicode white space. A white space character is found
-- by its UTF-8 bytes: none of them is a part of another character's encoding.
use goxo.Base.{
  ℕ, zero, suc, ◌≡◌, ◌≢◌, refl, ◌∙◌, ap, arith, Bool, false, ◌&&◌, ◌||◌, List, [], ◌∷◌, ◌++◌, leb,
  nat_eq, if◌then◌else◌, All,
}
use mathlib.Core.List.{append_assoc, append-nil}
use goxo.Base.Text.{Str}

-- U+0085 and U+00A0
abbrev in_c2 : Str → Bool
in_c2 (b ∷ _) = nat_eq b 0x85 || nat_eq b 0xa0
in_c2 [] = false

-- U+1680; U+2000 to U+200A, U+2028, U+2029, U+202F and U+205F; U+3000
abbrev three_bytes : ℕ → Str → Bool
three_bytes a (b ∷ c ∷ _) =
    (nat_eq a 0xe1 && (nat_eq b 0x9a && nat_eq c 0x80))
    || ((nat_eq a 0xe2
          && ((nat_eq b 0x80
                && ((leb 0x80 c && leb c 0x8a)
                    || (nat_eq c 0xa8 || (nat_eq c 0xa9 || nat_eq c 0xaf))))
              || (nat_eq b 0x81 && nat_eq c 0x9f)))
        || (nat_eq a 0xe3 && (nat_eq b 0x80 && nat_eq c 0x80)))
three_bytes a _ = false

abbrev ascii_space : ℕ → Bool
ascii_space a = (leb 9 a && leb a 13) || nat_eq a 32

-- How many bytes the white space takes that `a ∷ s` begins with; 0 if it begins with none.
unfoldable pub space_width : ℕ → Str → ℕ
space_width a s =
    if ascii_space a
    then 1
    else if nat_eq a 0xc2 && in_c2 s
    then 2
    else if three_bytes a s
    then 3
    else 0

-- A word that has ended, if it is not empty.
abbrev pub flush : Str → List Str → List Str
flush [] words = words
flush (b ∷ w) words = (b ∷ w) ∷ words

-- `skip` bytes of white space are still to pass; `word` is the word so far.
unfoldable pub fields_from : ℕ → Str → Str → List Str
unfolding space_width
fields_from skip word [] = flush word []
fields_from (suc skip) word (b ∷ s) = fields_from skip word s
fields_from zero word (b ∷ s) = elim (space_width b s) [
  | zero ↦ fields_from zero (word ++ (b ∷ [])) s
  | suc more ↦ flush word (fields_from more [] s)
]

unfoldable pub fields : Str → List Str
unfolding fields_from
fields s = fields_from 0 [] s

-- No white space begins anywhere in the word.
abbrev pub Solid : Str → Type 0
Solid [] = Unit
Solid (b ∷ s) = (space_width b s ≡ 0) × Solid s

abbrev pub joined : List Str → Str
joined [] = []
joined (w ∷ []) = w
joined (w ∷ w' ∷ ws) = w ++ (b' ' ∷ joined (w' ∷ ws))

-- A blank behind a word completes no white space that the word does not have.
space_width-append : (b : ℕ) (s t : Str) → space_width b s ≡ 0 → space_width b (s ++ (b' ' ∷ t)) ≡ 0
unfolding space_width
space_width-append b [] [] h = ground arith
space_width-append b [] (d ∷ t) h = ground arith
space_width-append b (c ∷ []) t h = ground arith
space_width-append b (c ∷ d ∷ s) t h = h

fields_from-word :
    (word w t : Str)
    → Solid w
    → fields_from 0 word (w ++ (b' ' ∷ t)) ≡ flush (word ++ w) (fields_from 0 [] t)
unfolding fields_from
fields_from-word word [] t _ = unfold space_width in rw append-nil refl
fields_from-word word (b ∷ w) t (h, hs) =
    rw (space_width-append b w t h, fields_from)
      (fields_from-word (word ++ (b ∷ [])) w t hs ∙ rw append_assoc)

fields_from-last : (word w : Str) → Solid w → fields_from 0 word w ≡ flush (word ++ w) []
unfolding fields_from
fields_from-last word [] _ = rw append-nil
fields_from-last word (b ∷ w) (h, hs) =
    rw (h, fields_from) (fields_from-last (word ++ (b ∷ [])) w hs ∙ rw append_assoc)

flush-word : (w : Str) (words : List Str) → w ≢ [] → flush w words ≡ w ∷ words
flush-word [] words h = absurd (h refl)
flush-word (b ∷ w) words h = refl

-- Words that are not empty and hold no white space, joined by single blanks, come out of Fields as
-- they are.
pub fields-joined : (ws : List Str) → All (λ w. (w ≢ []) × Solid w) ws → fields (joined ws) ≡ ws
unfolding fields
fields-joined [] _ = refl
fields-joined (w ∷ []) ((some_byte, solid), _) =
    fields_from-last [] w solid ∙ flush-word w [] some_byte
fields-joined (w ∷ w' ∷ ws) ((some_byte, solid), rest) =
    fields_from-word [] w (joined (w' ∷ ws)) solid
    ∙ flush-word w _ some_byte
    ∙ ap (◌∷◌ w) (fields-joined (w' ∷ ws) rest)
