-- ===== src/Tests/Admission.antt =====
-- internal/engine at work: the limits on a chain, and the arguments of a handler.
use goxo.Base.{
  ℕ, ◌≤◌, ◌≡◌, refl, ◌⊎◌, ◌↔◌, arith, Option, some, List, [], ◌∷◌, ◌++◌, length, if◌then◌else◌,
  Result, ok, err, ◌==◌, nat_Eq, All,
}
use goxo.Base.Dict.{Dict, lookup, insert}
use goxo.Base.Text.{Str, bytes, str_Eq}
use goxo.Json.{Value, str}
use goxo.Settings
use goxo.Settings.{decode_arg}
use goxo.Manifest
use goxo.Engine.Admit.{accept, admit}
use goxo.Engine.Limits.{occurrences, WithinLimits, admit_iff, admitted_chain_bounded}
use goxo.Engine.Assembly.{decode_failed, merge_args}
use goxo.Engine.Arguments.{or_else, last_default, last_setting, lookup-merge_args, merge_args_cases}

abbrev chain : List Str
chain = bytes "b" ∷ bytes "a" ∷ bytes "b" ∷ []

abbrev known : List Str
known = bytes "c" ∷ bytes "b" ∷ []

admit_iff_example :
    (admit chain (bytes "a") 2 4 known ≡ accept) ↔ WithinLimits chain (bytes "a") 2 4 known
admit_iff_example = admit_iff chain (bytes "a") 2 4 known (omega arith)

chain_admitted : admit chain (bytes "a") 2 4 known ≡ accept
unfolding admit
chain_admitted = refl

admitted_chain_bounded_example :
    ((◌≡◌ {A = ℕ} 4 0) ⊎ (length (chain ++ (bytes "a" ∷ [])) ≤ 4))
    × ((◌≡◌ {A = ℕ} 2 0) ⊎ (occurrences (chain ++ (bytes "a" ∷ [])) (bytes "a") ≤ 2))
admitted_chain_bounded_example =
    admitted_chain_bounded chain (bytes "a") 2 4 known (omega arith) chain_admitted

-- json.Unmarshal of a quoted text.
abbrev sample_unmarshal : Str → Result Str Value
sample_unmarshal (b ∷ s) = if b == b'"' then ok (str s) else err (bytes "not a string")
sample_unmarshal [] = err (bytes "no text")

abbrev defaults : List Manifest.Arg
defaults =
    record { name = bytes "x"; value = str (bytes "1") }
    ∷ record { name = bytes "y"; value = str (bytes "2") }
    ∷ []

abbrev over : List Settings.Arg
over = record { name = bytes "y"; type = bytes "string"; value = b'"' ∷ bytes "3" } ∷ []

abbrev merged : Dict Str Value
merged = (bytes "x", str (bytes "1")) ∷ (bytes "y", str (b'3' ∷ [])) ∷ []

merged_lem : merge_args sample_unmarshal defaults over ≡ ok (some merged)
unfolding merge_args decode_arg insert
merged_lem = refl

lookup-merge_args_example :
    lookup (bytes "y") merged
    ≡ or_else (last_setting sample_unmarshal (bytes "y") over) (last_default (bytes "y") defaults)
lookup-merge_args_example =
    lookup-merge_args sample_unmarshal (bytes "y") defaults over merged merged_lem

merge_args_cases_example :
    ((m : Option (Dict Str Value)) × (merge_args sample_unmarshal defaults over ≡ ok m)
      × All (λ a. (v : Value) × (decode_arg sample_unmarshal a ≡ ok v)) over)
    ⊎ ((front : List Settings.Arg) × (a : Settings.Arg) × (back : List Settings.Arg) × (x : Str)
        × (over ≡ front ++ (a ∷ back))
        × All (λ b. (v : Value) × (decode_arg sample_unmarshal b ≡ ok v)) front
        × (decode_arg sample_unmarshal a ≡ err x)
        × (merge_args sample_unmarshal defaults over ≡ err (decode_failed a.name x)))
merge_args_cases_example = merge_args_cases sample_unmarshal defaults over
