-- ===== src/Engine/Arguments.antt =====
-- mergeArgs: which value the handler gets for a name, and when the merge fails.
use goxo.Base.{
  ◌≡◌, refl, ap, ◌⊎◌, inl, inr, arith, Option, none, some, List, [], ◌∷◌, ◌++◌, Result, ok, err,
  Result-cases, if◌then◌else◌, ◌==◌, All, >>=-eq-ok,
}
use goxo.Base.Dict.{Dict, lookup, insert, lookup-insert}
use goxo.Base.Text.{Str, str_Eq}
use goxo.Json.{Value}
use goxo.Settings
use goxo.Settings.{decode_arg}
use goxo.Manifest
use goxo.Engine.Assembly.{decode_failed, put_defaults, put_settings, merge_args}

abbrev pub or_else {ℓ} : {A : Type ℓ} → Option A → Option A → Option A
or_else (some a) o = some a
or_else none o = o

-- The last default for a name.
abbrev pub last_default : Str → List Manifest.Arg → Option Value
last_default j [] = none
last_default j (d ∷ defs) =
    or_else (last_default j defs) (if d.name == j then some d.value else none)

abbrev pub value_of : Result Str Value → Option Value
value_of (ok v) = some v
value_of (err e) = none

-- The last value of a name in the settings.
abbrev pub last_setting : (Str → Result Str Value) → Str → List Settings.Arg → Option Value
last_setting u j [] = none
last_setting u j (a ∷ over) =
    or_else (last_setting u j over) (if a.name == j then value_of (decode_arg u a) else none)

lookup-put_defaults :
    (j : Str) (defs : List Manifest.Arg) (out : Dict Str Value)
    → lookup j (put_defaults defs out) ≡ or_else (last_default j defs) (lookup j out)
unfolding put_defaults
lookup-put_defaults j [] out = refl
lookup-put_defaults j (d ∷ defs) out = ground (
  arith,
  lookup-put_defaults j defs (insert d.name d.value out),
  lookup-insert j d.name d.value out,
)

module _ (u : Str → Result Str Value) where
  lookup-put_settings :
      (j : Str) (over : List Settings.Arg) (out m : Dict Str Value)
      → put_settings u over out ≡ ok m
      → lookup j m ≡ or_else (last_setting u j over) (lookup j out)
  unfolding put_settings
  lookup-put_settings j [] out m h = ground arith
  lookup-put_settings j (a ∷ over) out m h = elim (Result-cases (decode_arg u a)) [
    | inr (e, q) ↦ ground arith
    | inl (v, q) ↦
        ground
          (arith, lookup-put_settings j over (insert a.name v out) m, lookup-insert j a.name v out)
  ]

  -- In the merged arguments a name has the value of its last settings argument, decoded, or else its
  -- last default, or else it is absent.
  pub lookup-merge_args :
      (j : Str) (defs : List Manifest.Arg) (over : List Settings.Arg) (m : Dict Str Value)
      → merge_args u defs over ≡ ok (some m)
      → lookup j m ≡ or_else (last_setting u j over) (last_default j defs)
  unfolding merge_args lookup
  lookup-merge_args j [] [] m h = ground arith
  lookup-merge_args j (d ∷ defs) over m h =
      let (out, e, same) = >>=-eq-ok (put_settings u over (put_defaults (d ∷ defs) [])) _ h in
      ground (
        arith,
        e,
        same,
        lookup-put_settings j over (put_defaults (d ∷ defs) []) out,
        lookup-put_defaults j (d ∷ defs) [],
      )
  lookup-merge_args j [] (a ∷ over) m h =
      let (out, e, same) = >>=-eq-ok (put_settings u (a ∷ over) []) _ h in
      ground (arith, e, same, lookup-put_settings j (a ∷ over) [] out)

  put_settings_cases :
      (over : List Settings.Arg) (out : Dict Str Value)
      → ((m : Dict Str Value) × (put_settings u over out ≡ ok m)
          × All (λ a. (v : Value) × (decode_arg u a ≡ ok v)) over)
        ⊎ ((front : List Settings.Arg) × (a : Settings.Arg) × (back : List Settings.Arg) × (x : Str)
            × (over ≡ front ++ (a ∷ back))
            × All (λ b. (v : Value) × (decode_arg u b ≡ ok v)) front
            × (decode_arg u a ≡ err x)
            × (put_settings u over out ≡ err (decode_failed a.name x)))
  unfolding put_settings
  put_settings_cases [] out = inl (out, refl, tt)
  put_settings_cases (b ∷ over) out = elim (Result-cases (decode_arg u b)) [
    | inr (x, q) ↦ inr ([], b, over, x, refl, tt, q, rw (q, put_settings))
    | inl (v, q) ↦ elim (put_settings_cases over (insert b.name v out)) [
      | inl (m, e, all) ↦ inl (m, rw (q, put_settings) e, ((v, q), all))
      | inr (front, a, back, x, split, all, bad, e) ↦
          inr (b ∷ front, a, back, x, ap (◌∷◌ b) split, ((v, q), all), bad, rw (q, put_settings) e)
    ]
  ]

  -- The merge fails exactly where a settings argument does not decode: then it reports the first such
  -- argument by its name, with the decoder's error.
  pub merge_args_cases :
      (defs : List Manifest.Arg) (over : List Settings.Arg)
      → ((m : Option (Dict Str Value)) × (merge_args u defs over ≡ ok m)
          × All (λ a. (v : Value) × (decode_arg u a ≡ ok v)) over)
        ⊎ ((front : List Settings.Arg) × (a : Settings.Arg) × (back : List Settings.Arg) × (x : Str)
            × (over ≡ front ++ (a ∷ back))
            × All (λ b. (v : Value) × (decode_arg u b ≡ ok v)) front
            × (decode_arg u a ≡ err x)
            × (merge_args u defs over ≡ err (decode_failed a.name x)))
  unfolding merge_args
  merge_args_cases [] [] = inl (none, refl, tt)
  merge_args_cases (d ∷ defs) over = elim (put_settings_cases over (put_defaults (d ∷ defs) [])) [
    | inl (m, e, all) ↦ inl (some m, rw e, all)
    | inr (front, a, back, x, split, all, bad, e) ↦ inr (front, a, back, x, split, all, bad, rw e)
  ]
  merge_args_cases [] (b ∷ over) = elim (put_settings_cases (b ∷ over) []) [
    | inl (m, e, all) ↦ inl (some m, rw e, all)
    | inr (front, a, back, x, split, all, bad, e) ↦ inr (front, a, back, x, split, all, bad, rw e)
  ]
