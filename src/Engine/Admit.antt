-- ===== src/Engine/Admit.antt =====
-- internal/engine/admit.go: flow-control admission.
use goxo.Base.{
  ℕ, ◌+◌, ◌%◌, ◌^◌, Bool, true, false, not, ◌&&◌, Option, none, some, List, [], ◌∷◌, length, leb,
  nat_eq, if◌then◌else◌, ◌==◌,
}
use goxo.Base.Text.{Str, str_Eq}

-- The reason that goes with a rejection, with the values that its text shows.
pub data Reason : Type 0 where
  cyclic_limit : (limit : ℕ) (agent : Str) → Reason
  depth_limit : (limit depth : ℕ) → Reason
  not_accepted : (sender : Str) → Reason

pub data Verdict : Type 0 where
  accept : Verdict
  reject : Reason → Verdict

unfoldable pub count_from : ℕ → List Str → Str → ℕ
count_from n [] v = n
count_from n (x ∷ s) v = count_from (if x == v then n + 1 else n) s v

unfoldable pub count : List Str → Str → ℕ
unfolding count_from
count s v = count_from 0 s v

unfoldable pub contains : List Str → Str → Bool
contains [] v = false
contains (x ∷ s) v = if x == v then true else contains s v

-- chain[len(chain)-1], if there is one
unfoldable pub sender_of : List Str → Option Str
sender_of [] = none
sender_of (x ∷ []) = some x
sender_of (x ∷ y ∷ s) = sender_of (y ∷ s)

abbrev uint32 : ℕ → ℕ
uint32 n = n % 2 ^ 32

-- The third check: a chain that is not empty, against accepted agents that are not empty.
unfoldable pub admit_sender : Option Str → List Str → Verdict
unfolding contains
admit_sender none accepted = accept
admit_sender (some sender) [] = accept
admit_sender (some sender) (a ∷ accepted) =
    if contains (a ∷ accepted) sender then accept else reject (not_accepted sender)

unfoldable pub admit : List Str → Str → ℕ → ℕ → List Str → Verdict
unfolding admit_sender sender_of count
admit chain agent cyclic depth accepted =
    if not (nat_eq cyclic 0) && leb cyclic (uint32 (count chain agent))
    then reject (cyclic_limit cyclic agent)
    else (if not (nat_eq depth 0) && leb depth (uint32 (length chain))
        then reject (depth_limit depth (length chain))
        else admit_sender (sender_of chain) accepted)
