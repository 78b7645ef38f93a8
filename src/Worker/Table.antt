-- ===== src/Worker/Table.antt =====
-- The in-flight map as a table: keys stand once, and sums over the entries follow each operation.
use goxo.Base.{ℕ, ◌+◌, ◌≤◌, ◌<◌, ◌≡◌, refl, arith, none, some, [], ◌∷◌, length, nat_Eq}
use goxo.Base.Dict.{Dict, lookup, insert, delete, lookup-insert, lookup-delete}

module _ {V : Type 0} where
  -- Each key stands once.
  abbrev pub IsUnique : Dict ℕ V → Type 0
  IsUnique [] = Unit
  IsUnique ((k, v) ∷ m) = (lookup k m ≡ none) × IsUnique m

  -- Each key is below `n`.
  abbrev pub KeysBelow : ℕ → Dict ℕ V → Type 0
  KeysBelow n [] = Unit
  KeysBelow n ((k, v) ∷ m) = (k < n) × KeysBelow n m

  pub lookup_above : (n k : ℕ) (m : Dict ℕ V) → KeysBelow n m → n ≤ k → lookup k m ≡ none
  unfolding lookup
  lookup_above n k [] b h = refl
  lookup_above n k ((j, v) ∷ m) (lt, b) h = ground (arith, lookup_above n k m b h)

  pub lookup_below : (n k : ℕ) (v : V) (m : Dict ℕ V) → KeysBelow n m → lookup k m ≡ some v → k < n
  unfolding lookup
  lookup_below n k v [] b h = cc
  lookup_below n k v ((j, u) ∷ m) (lt, b) h = ground (arith, lookup_below n k v m b)

  pub KeysBelow-mono : (n n' : ℕ) (m : Dict ℕ V) → n ≤ n' → KeysBelow n m → KeysBelow n' m
  KeysBelow-mono n n' [] h b = tt
  KeysBelow-mono n n' ((k, v) ∷ m) h (lt, b) = (omega arith, KeysBelow-mono n n' m h b)

  pub KeysBelow-insert :
      (n k : ℕ) (v : V) (m : Dict ℕ V) → k < n → KeysBelow n m → KeysBelow n (insert k v m)
  unfolding insert
  KeysBelow-insert n k v [] h b = (h, tt)
  KeysBelow-insert n k v ((j, u) ∷ m) h (lt, b) = ground (arith, KeysBelow-insert n k v m h b)

  pub KeysBelow-delete : (n k : ℕ) (m : Dict ℕ V) → KeysBelow n m → KeysBelow n (delete k m)
  unfolding delete
  KeysBelow-delete n k [] b = tt
  KeysBelow-delete n k ((j, u) ∷ m) (lt, b) = ground (arith, KeysBelow-delete n k m b)

  pub IsUnique-insert : (k : ℕ) (v : V) (m : Dict ℕ V) → IsUnique m → IsUnique (insert k v m)
  unfolding insert lookup
  IsUnique-insert k v [] u = (refl, tt)
  IsUnique-insert k v ((j, w) ∷ m) (new, u) =
      ground (arith, IsUnique-insert k v m u, lookup-insert j k v m)

  pub IsUnique-delete : (k : ℕ) (m : Dict ℕ V) → IsUnique m → IsUnique (delete k m)
  unfolding delete lookup
  IsUnique-delete k [] u = tt
  IsUnique-delete k ((j, w) ∷ m) (new, u) =
      ground (arith, IsUnique-delete k m u, lookup-delete j k m)

  pub delete_missing : (k : ℕ) (m : Dict ℕ V) → lookup k m ≡ none → delete k m ≡ m
  unfolding delete lookup
  delete_missing k [] h = refl
  delete_missing k ((j, w) ∷ m) h = ground (arith, delete_missing k m)

  module _ (weight : V → ℕ) where
    unfoldable pub total : Dict ℕ V → ℕ
    total [] = 0
    total ((k, v) ∷ m) = weight v + total m

    pub total-nil : total [] ≡ 0
    unfolding total
    total-nil = refl

    pub total-insert_new :
        (k : ℕ) (v : V) (m : Dict ℕ V)
        → lookup k m ≡ none
        → total (insert k v m) ≡ total m + weight v
    unfolding total insert lookup
    total-insert_new k v [] h = omega arith
    total-insert_new k v ((j, w) ∷ m) h = ground (arith, total-insert_new k v m)

    pub total-insert_old :
        (k : ℕ) (v u : V) (m : Dict ℕ V)
        → lookup k m ≡ some u
        → total (insert k v m) + weight u ≡ total m + weight v
    unfolding total insert lookup
    total-insert_old k v u [] h = cc
    total-insert_old k v u ((j, w) ∷ m) h = ground (arith, total-insert_old k v u m)

    pub total-delete :
        (k : ℕ) (u : V) (m : Dict ℕ V)
        → IsUnique m
        → lookup k m ≡ some u
        → total (delete k m) + weight u ≡ total m
    unfolding total delete lookup
    total-delete k u [] q h = cc
    total-delete k u ((j, w) ∷ m) (new, q) h =
        ground (arith, delete_missing k m, total-delete k u m q)

  pub length-total : (m : Dict ℕ V) → length m ≡ total (λ _. 1) m
  unfolding total
  length-total [] = refl
  length-total ((k, v) ∷ m) = omega (arith, length-total m)
