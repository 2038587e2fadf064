-- ===== src/Python/Set.antt =====
-- Python's `set`, as a list of its elements with no duplicates. Order is not observed: the laws
-- speak of `contains`, and `set_eq` is the `==` of two sets.
use whitebox_tempest_plugin.Prelude.{
  ◌≡◌, refl, Bool, true, false, not, ◌&&◌, ◌||◌, List, [], ◌∷◌, ◌++◌, arith, all, if◌then◌else◌,
  Bool-cases, inl, inr,
}
use whitebox_tempest_plugin.Python.Equality.{Eq, ◌==◌}

module _ {ℓ} {A : Type ℓ} ⦃e : Eq A⦄ where
  -- `x in s`
  unfoldable pub contains : List A → A → Bool
  contains [] x = false
  contains (y ∷ s) x = x == y || contains s x

  -- No element is listed twice.
  unfoldable pub distinct : List A → Bool
  distinct [] = true
  distinct (x ∷ s) = not (contains s x) && distinct s

  -- `s.add(x)`
  unfoldable pub add : List A → A → List A
  add s x = if contains s x then s else x ∷ s

  -- `s | t`, and `set(t)` for the empty `s`
  unfoldable pub union : List A → List A → List A
  unfolding add contains
  union s [] = s
  union s (x ∷ t) = union (add s x) t

  -- `s - t`
  unfoldable pub difference : List A → List A → List A
  difference [] t = []
  difference (x ∷ s) t = let rest = difference s t in if contains t x then rest else x ∷ rest

  -- `s & t`
  unfoldable pub intersection : List A → List A → List A
  intersection [] t = []
  intersection (x ∷ s) t = let rest = intersection s t in if contains t x then x ∷ rest else rest

  -- `s.issubset(t)`
  abbrev pub issubset : List A → List A → Bool
  issubset s t = all (contains t) s

  -- `s.isdisjoint(t)`
  abbrev pub isdisjoint : List A → List A → Bool
  isdisjoint s t = all (λ x. not (contains t x)) s

  -- `s == t`
  abbrev pub set_eq : List A → List A → Bool
  set_eq s t = issubset s t && issubset t s

module _ {ℓ} {A : Type ℓ} ⦃e : Eq A⦄ where
  contains-add : (s : List A) (a x : A) → contains (add s a) x ≡ (x == a || contains s x)
  unfolding contains add
  contains-add s a x = elim (Bool-cases (x == a)) [
    | inl same ↦ rw ((e.same_iff x a).0 same) (ground (arith, e.same_iff a a))
    | inr other ↦ ground arith
  ]

  pub contains-union :
      (s t : List A) (x : A) → contains (union s t) x ≡ (contains s x || contains t x)
  unfolding union
  contains-union s [] x = ground arith
  contains-union s (a ∷ t) x = ground (arith, contains-union (add s a) t x, contains-add s a x)

  pub contains-difference :
      (s t : List A) (x : A) → contains (difference s t) x ≡ (contains s x && not (contains t x))
  unfolding contains difference
  contains-difference [] t x = refl
  contains-difference (a ∷ s) t x = elim (Bool-cases (x == a)) [
    | inl same ↦ rw ((e.same_iff x a).0 same) (ground (arith, contains-difference s t a))
    | inr other ↦ ground (arith, contains-difference s t x)
  ]

  pub contains-intersection :
      (s t : List A) (x : A) → contains (intersection s t) x ≡ (contains s x && contains t x)
  unfolding contains intersection
  contains-intersection [] t x = refl
  contains-intersection (a ∷ s) t x = elim (Bool-cases (x == a)) [
    | inl same ↦ rw ((e.same_iff x a).0 same) (ground (arith, contains-intersection s t a))
    | inr other ↦ ground (arith, contains-intersection s t x)
  ]

  pub contains-append :
      (s t : List A) (x : A) → contains (s ++ t) x ≡ (contains s x || contains t x)
  unfolding contains
  contains-append [] t x = refl
  contains-append (a ∷ s) t x = ground (arith, contains-append s t x)

  distinct-add : (s : List A) (a : A) → distinct s ≡ true → distinct (add s a) ≡ true
  unfolding distinct add
  distinct-add s a h = ground arith

  pub distinct-union : (s t : List A) → distinct s ≡ true → distinct (union s t) ≡ true
  unfolding union
  distinct-union s [] h = h
  distinct-union s (a ∷ t) h = distinct-union (add s a) t (distinct-add s a h)

  pub distinct-difference : (s t : List A) → distinct s ≡ true → distinct (difference s t) ≡ true
  unfolding distinct difference
  distinct-difference [] t h = refl
  distinct-difference (a ∷ s) t h =
      ground (arith, distinct-difference s t, contains-difference s t a)
