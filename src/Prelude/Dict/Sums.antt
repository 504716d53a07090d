-- ===== src/Prelude/Dict/Sums.antt =====
-- Sums over the values of a dictionary whose keys are distinct.
use mathlib.Core.Path.{◌≡◌, refl}
use mathlib.Core.List.{[], ◌∷◌}
use mathlib.Core.Option.{none, some}
use native.Mathlib.Omega.{arith}
use Prim.Native.Nat.{ℕ, ◌+◌, ◌≤◌}
use back_channel.Prelude.Equality.{Eq}
use back_channel.Prelude.Dict.{Dict, lookup, insert, erase, lookup-erase, lookup-insert}

module _ {ℓ} {K V : Type ℓ} ⦃e : Eq K⦄ where
  -- No key stands twice.
  abbrev pub Distinct : Dict K V → Type ℓ
  Distinct [] = Unit
  Distinct ((k, v) ∷ d) = (lookup k d ≡ none) × Distinct d

  unfoldable pub sum_by : (V → ℕ) → Dict K V → ℕ
  sum_by w [] = 0
  sum_by w ((k, v) ∷ d) = w v + sum_by w d

  erase_absent : (k : K) (d : Dict K V) → lookup k d ≡ none → erase k d ≡ d
  unfolding lookup erase
  erase_absent k [] h = refl
  erase_absent k ((j, v) ∷ d) h = ground (arith, erase_absent k d)

  pub erase-Distinct : (k : K) (d : Dict K V) → Distinct d → Distinct (erase k d)
  unfolding erase
  erase-Distinct k [] h = h
  erase-Distinct k ((j, v) ∷ d) h = ground (arith, erase-Distinct k d h.1, lookup-erase k j d)

  pub insert-Distinct : (k : K) (v : V) (d : Dict K V) → Distinct d → Distinct (insert k v d)
  unfolding insert
  insert-Distinct k v [] h = unfold lookup in (refl, tt)
  insert-Distinct k v ((j, w) ∷ d) h =
      ground
        (arith, insert-Distinct k v d h.1, lookup-insert k j v d, e.same_iff j k, e.same_iff k j)

  pub sum_by-erase :
      (w : V → ℕ) (k : K) (v : V) (d : Dict K V)
      → Distinct d
      → lookup k d ≡ some v
      → sum_by w (erase k d) + w v ≡ sum_by w d
  unfolding sum_by lookup erase
  sum_by-erase w k v [] h p = cc
  sum_by-erase w k v ((j, x) ∷ d) h p =
      ground (arith, sum_by-erase w k v d h.1, erase_absent k d, e.same_iff j k)

  pub sum_by-insert :
      (w : V → ℕ) (k : K) (v : V) (d : Dict K V)
      → lookup k d ≡ none
      → sum_by w (insert k v d) ≡ sum_by w d + w v
  unfolding sum_by lookup insert
  sum_by-insert w k v [] p = omega arith
  sum_by-insert w k v ((j, x) ∷ d) p = ground (arith, sum_by-insert w k v d)

  -- A value that takes the place of another.
  pub sum_by-replace :
      (w : V → ℕ) (k : K) (v x : V) (d : Dict K V)
      → lookup k d ≡ some x
      → sum_by w (insert k v d) + w x ≡ sum_by w d + w v
  unfolding sum_by lookup insert
  sum_by-replace w k v x [] p = ground arith
  sum_by-replace w k v x ((j, y) ∷ d) p = ground (arith, sum_by-replace w k v x d)

  -- A value counts in the sum.
  pub sum_by-lookup :
      (w : V → ℕ) (k : K) (x : V) (d : Dict K V) → lookup k d ≡ some x → w x ≤ sum_by w d
  unfolding sum_by lookup
  sum_by-lookup w k x [] p = ground arith
  sum_by-lookup w k x ((j, y) ∷ d) p = ground (arith, sum_by-lookup w k x d)
