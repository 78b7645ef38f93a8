-- ===== src/Engine/Limits.antt =====
-- When a message is admitted, and what the limits mean for the chains that result.
use goxo.Base.{
  ℕ, ◌+◌, ◌^◌, ◌≤◌, ◌<◌, ◌≡◌, refl, sym, ap, ◌∙◌, ◌⊎◌, ◌↔◌, inl, inr, arith, true, some, List, [],
  ◌∷◌, ◌++◌, length, length-append, if◌then◌else◌, ◌==◌, ==_refl,
}
use goxo.Base.Text.{Str, str_Eq}
use goxo.Engine.Admit.{accept, count, count_from, contains, sender_of, admit_sender, admit}

-- How often a value stands in a list.
abbrev pub occurrences : List Str → Str → ℕ
occurrences [] v = 0
occurrences (x ∷ s) v = (if x == v then 1 else 0) + occurrences s v

count_from-occurrences : (n : ℕ) (s : List Str) (v : Str) → count_from n s v ≡ n + occurrences s v
unfolding count_from
count_from-occurrences n [] v = omega arith
count_from-occurrences n (x ∷ s) v =
    ground (arith, count_from-occurrences n s v, count_from-occurrences (n + 1) s v)

-- The counting loop counts.
pub count-occurrences : (s : List Str) (v : Str) → count s v ≡ occurrences s v
unfolding count
count-occurrences s v = omega (arith, count_from-occurrences 0 s v)

occurrences-append :
    (s t : List Str) (v : Str) → occurrences (s ++ t) v ≡ occurrences s v + occurrences t v
occurrences-append [] t v = omega arith
occurrences-append (x ∷ s) t v = omega (arith, occurrences-append s t v)

occurrences-le : (s : List Str) (v : Str) → occurrences s v ≤ length s
occurrences-le [] v = omega arith
occurrences-le (x ∷ s) v = ground (arith, occurrences-le s v)

-- `contains` finds just the values that occur.
pub contains_iff : (s : List Str) (v : Str) → (contains s v ≡ true) ↔ (0 < occurrences s v)
unfolding contains
contains_iff [] v = ground arith
contains_iff (x ∷ s) v = ground (arith, contains_iff s v)

sender_of-append : (front : List Str) (x : Str) → sender_of (front ++ (x ∷ [])) ≡ some x
unfolding sender_of
sender_of-append [] x = refl
sender_of-append (y ∷ []) x = refl
sender_of-append (y ∷ z ∷ front) x = sender_of-append (z ∷ front) x

-- A chain is empty, or its last entry is the sender.
last_cases :
    (chain : List Str)
    → (chain ≡ []) ⊎ ((front : List Str) × (x : Str) × (chain ≡ front ++ (x ∷ [])))
last_cases [] = inl refl
last_cases (x ∷ s) = elim (last_cases s) [
  | inl e ↦ inr ([], x, ap (◌∷◌ x) e)
  | inr (front, y, e) ↦ inr (x ∷ front, y, ap (◌∷◌ x) e)
]

admit_sender-some_iff :
    (sender : Str) (accepted : List Str)
    → (admit_sender (some sender) accepted ≡ accept)
      ↔ ((accepted ≡ []) ⊎ (0 < occurrences accepted sender))
unfolding admit_sender
admit_sender-some_iff sender [] = ground arith
admit_sender-some_iff sender (a ∷ accepted) = ground (arith, contains_iff (a ∷ accepted) sender)

-- The sender of a chain is known to the agent, or the check does not apply.
abbrev pub SenderOk : List Str → List Str → Type 0
SenderOk chain accepted =
    (accepted ≡ [])
    ⊎ ((chain ≡ [])
        ⊎ ((front : List Str) × (sender : Str) × (chain ≡ front ++ (sender ∷ []))
            × (0 < occurrences accepted sender)))

sender_accepted :
    (chain accepted : List Str)
    → admit_sender (sender_of chain) accepted ≡ accept
    → SenderOk chain accepted
sender_accepted chain accepted h = elim (last_cases chain) [
  | inl e ↦ inr (inl e)
  | inr (front, x, e) ↦
      let h' : admit_sender (some x) accepted ≡ accept =
        ap (λ o. admit_sender o accepted) (sym (ap sender_of e ∙ sender_of-append front x)) ∙ h in
      elim ((admit_sender-some_iff x accepted).0 h') [
        | inl empty ↦ inl empty
        | inr known ↦ inr (inr (front, x, e, known))
      ]
]

accepted_sender :
    (chain accepted : List Str)
    → SenderOk chain accepted
    → admit_sender (sender_of chain) accepted ≡ accept
accepted_sender chain accepted (inl e) = elim (last_cases chain) [
  | inl c ↦ rw c (unfold sender_of admit_sender in refl)
  | inr (front, x, c) ↦
      rw (c, sender_of-append front x) ((admit_sender-some_iff x accepted).1 (inl e))
]
accepted_sender chain accepted (inr (inl c)) = rw c (unfold sender_of admit_sender in refl)
accepted_sender chain accepted (inr (inr (front, x, c, known))) =
    rw (c, sender_of-append front x) ((admit_sender-some_iff x accepted).1 (inr known))

-- A message is within the limits.
pub record WithinLimits (chain : List Str) (agent : Str) (cyclic depth : ℕ) (accepted : List Str)
    : Type 0 where
  pub not_cyclic : (cyclic ≡ 0) ⊎ (occurrences chain agent < cyclic)
  pub not_deep : (depth ≡ 0) ⊎ (length chain < depth)
  pub known_sender : SenderOk chain accepted

-- A message is admitted exactly when it is within the limits: a limit of 0 checks nothing, the agent
-- stands in the chain less often than the cyclic limit, the chain is shorter than the depth limit,
-- and its last agent is accepted, if there is one and the list of accepted agents is not empty. (The
-- lengths are compared as uint32, so the chain is shorter than 2 ^ 32.)
pub admit_iff :
    (chain : List Str) (agent : Str) (cyclic depth : ℕ) (accepted : List Str)
    → length chain < 2 ^ 32
    → (admit chain agent cyclic depth accepted ≡ accept)
      ↔ WithinLimits chain agent cyclic depth accepted
unfolding admit
admit_iff chain agent cyclic depth accepted small =
    let counted = count-occurrences chain agent in
    let few = occurrences-le chain agent in
    (
      λ h. record {
        not_cyclic = ground (arith, counted, few);
        not_deep = ground arith;
        known_sender = sender_accepted chain accepted (ground arith);
      },
      λ w. ground (arith, counted, few, accepted_sender chain accepted w.known_sender),
    )

-- What is published for an admitted message keeps to each limit that is set: with this agent
-- appended, the chain is no longer than the depth limit, unless that is 0, and the agent stands in it
-- no more often than the cyclic limit, unless that is 0. (The lengths are compared as uint32, so the
-- chain is shorter than 2 ^ 32.)
pub admitted_chain_bounded :
    (chain : List Str) (agent : Str) (cyclic depth : ℕ) (accepted : List Str)
    → length chain < 2 ^ 32
    → admit chain agent cyclic depth accepted ≡ accept
    → ((depth ≡ 0) ⊎ (length (chain ++ (agent ∷ [])) ≤ depth))
      × ((cyclic ≡ 0) ⊎ (occurrences (chain ++ (agent ∷ [])) agent ≤ cyclic))
admitted_chain_bounded chain agent cyclic depth accepted small h =
    let w = (admit_iff chain agent cyclic depth accepted small).0 h in
    (
      ground (arith, w.not_deep, length-append chain (agent ∷ [])),
      ground (arith, w.not_cyclic, occurrences-append chain (agent ∷ []) agent, ==_refl agent),
    )
