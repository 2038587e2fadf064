-- ===== src/Python/Dict.antt =====
-- Python's `dict`, as the list of its items in insertion order, each key once.
use whitebox_tempest_plugin.Prelude.{
  ◌≡◌, refl, List, [], ◌∷◌, Option, none, some, arith, map, if◌then◌else◌,
}
use whitebox_tempest_plugin.Python.Equality.{Eq, ◌==◌}

abbrev pub Dict {ℓ κ} : Type ℓ → Type κ → Type (ℓ ⊔ κ)
Dict K V = List (K × V)

module _ {ℓ κ} {K : Type ℓ} {V : Type κ} ⦃e : Eq K⦄ where
  -- `d.get(k)`, and `d[k]` with `none` for a KeyError
  unfoldable pub lookup : K → Dict K V → Option V
  lookup k [] = none
  lookup k ((j, v) ∷ d) = if k == j then some v else lookup k d

  -- `d[k] = v`
  unfoldable pub insert : K → V → Dict K V → Dict K V
  insert k v [] = (k, v) ∷ []
  insert k v ((j, w) ∷ d) = if k == j then (j, v) ∷ d else (j, w) ∷ insert k v d

  pub lookup-insert :
      (k j : K) (v : V) (d : Dict K V)
      → lookup j (insert k v d) ≡ (if j == k then some v else lookup j d)
  unfolding lookup insert
  lookup-insert k j v [] = refl
  lookup-insert k j v ((i, w) ∷ d) =
      ground (
        arith,
        e.same_iff k j,
        e.same_iff j k,
        e.same_iff k i,
        e.same_iff j i,
        lookup-insert k j v d,
      )

module _ {ℓ κ} {K : Type ℓ} {V : Type κ} where
  abbrev pub keys : Dict K V → List K
  keys = map (λ (k, _). k)

  abbrev pub values : Dict K V → List V
  values = map (λ (_, v). v)
