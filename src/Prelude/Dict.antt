-- ===== src/Prelude/Dict.antt =====
-- Go maps as association lists over any type of keys with an equality test.
pub mod Sums
use mathlib.Core.Path.{◌≡◌, refl}
use mathlib.Core.List.{List, [], ◌∷◌}
use mathlib.Core.Option
use mathlib.Core.Option.{Option, none, some}
use native.Mathlib.Omega.{arith}
use back_channel.Prelude.Tests.{if◌then◌else◌}
use back_channel.Prelude.Equality.{Eq, ◌==◌}

abbrev pub Dict {ℓ} : Type ℓ → Type ℓ → Type ℓ
Dict K V = List (K × V)

module _ {ℓ} {K V : Type ℓ} ⦃e : Eq K⦄ where
  unfoldable pub lookup : K → Dict K V → Option V
  lookup k [] = none
  lookup k ((j, v) ∷ d) = if j == k then some v else lookup k d

  -- `d[k] = v`
  unfoldable pub insert : K → V → Dict K V → Dict K V
  insert k v [] = (k, v) ∷ []
  insert k v ((j, w) ∷ d) = if j == k then (k, v) ∷ d else (j, w) ∷ insert k v d

  -- `delete(d, k)`
  unfoldable pub erase : K → Dict K V → Dict K V
  erase k [] = []
  erase k ((j, w) ∷ d) = let rest = erase k d in if j == k then rest else (j, w) ∷ rest

  pub lookup-insert :
      (k j : K) (v : V) (d : Dict K V)
      → lookup j (insert k v d) ≡ (if k == j then some v else lookup j d)
  unfolding lookup insert
  lookup-insert k j v [] = refl
  lookup-insert k j v ((i, w) ∷ d) =
      ground (arith, e.same_iff k j, e.same_iff i k, e.same_iff i j, lookup-insert k j v d)

  pub lookup-erase :
      (k j : K) (d : Dict K V) → lookup j (erase k d) ≡ (if k == j then none else lookup j d)
  unfolding lookup erase
  lookup-erase k j [] = ground arith
  lookup-erase k j ((i, w) ∷ d) =
      ground (arith, e.same_iff k j, e.same_iff i k, e.same_iff i j, lookup-erase k j d)

  -- The value at a key changed in place; a missing key stays missing.
  unfoldable pub update : K → (V → V) → Dict K V → Dict K V
  update k f [] = []
  update k f ((j, v) ∷ d) = if j == k then (j, f v) ∷ d else (j, v) ∷ update k f d

  -- Every value changed in place.
  unfoldable pub map_entries : (K → V → V) → Dict K V → Dict K V
  map_entries f [] = []
  map_entries f ((j, v) ∷ d) = (j, f j v) ∷ map_entries f d

  pub lookup-update :
      (k j : K) (f : V → V) (d : Dict K V)
      → lookup j (update k f d) ≡ (if k == j then Option.map f (lookup j d) else lookup j d)
  unfolding lookup update
  lookup-update k j f [] = ground arith
  lookup-update k j f ((i, w) ∷ d) =
      ground (arith, e.same_iff k j, e.same_iff i k, e.same_iff i j, lookup-update k j f d)

  pub lookup-map_entries :
      (f : K → V → V) (j : K) (d : Dict K V)
      → lookup j (map_entries f d) ≡ Option.map (f j) (lookup j d)
  unfolding lookup map_entries
  lookup-map_entries f j [] = refl
  lookup-map_entries f j ((i, w) ∷ d) = ground (arith, e.same_iff i j, lookup-map_entries f j d)

pub ruleset dict_laws = (lookup-insert, lookup-erase, lookup-update, lookup-map_entries)
