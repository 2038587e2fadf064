-- ===== src/Exceptions/Action.antt =====
-- Code that acts on a state and may raise. What was done before an exception stays done, so the
-- state comes back beside the exception too.
use whitebox_tempest_plugin.Prelude.{◌≡◌, refl, Bool, true, false}
use whitebox_tempest_plugin.Exceptions.{Error, Result, ok, err, assertion_error}

abbrev pub Action {ℓ} : Type ℓ → Type ℓ → Type ℓ
Action S A = S → Result A × S

module _ {ℓ} {S A : Type ℓ} where
  abbrev pub pure : A → Action S A
  pure a s = (ok a, s)

  abbrev pub raise : Error → Action S A
  raise e s = (err e, s)

  abbrev pub from_result : Result A → Action S A
  from_result r s = (r, s)

-- The assertions of unittest.
abbrev pub assert_that : {S : Type 0} → Bool → Action S Unit
assert_that true s = (ok tt, s)
assert_that false s = (err assertion_error, s)

module _ {ℓ} {S A B : Type ℓ} where
  abbrev pub resume : Result A → (A → Action S B) → Action S B
  resume (ok a) f s = f a s
  resume (err e) f s = (err e, s)

  infixl 5 ◌>>=◌ ◌>>◌
  abbrev pub ◌>>=◌ : Action S A → (A → Action S B) → Action S B
  ◌>>=◌ m f s = resume (m s).0 f (m s).1

  abbrev pub ◌>>◌ : Action S A → Action S B → Action S B
  m >> n = m >>= λ _. n

  -- What an action that returned has been through.
  pub resume_returned :
      (r : Result A) (f : A → Action S B) (s : S) {b : B}
      → (resume r f s).0 ≡ ok b
      → (a : A) × (r ≡ ok a) × ((f a s).0 ≡ ok b)
  resume_returned (ok a) f s h = (a, refl, h)
  resume_returned (err e) f s h = cc

module _ {S A B : Type 0} where
  -- An action that returned, at the state where its last part began.
  pub returned_through :
      (r : Result A) (f : A → Action S B) (s : S) (b : B) (t : S)
      → resume r f s ≡ (ok b, t)
      → (a : A) × (r ≡ ok a) × (f a s ≡ (ok b, t))
  returned_through (ok a) f s b t h = (a, refl, h)
  returned_through (err e) f s b t h = cc

-- An exception of the clean-up replaces the result of the body.
abbrev pub after_cleanup {ℓ} : {A U : Type ℓ} → Result U → Result A → Result A
after_cleanup (ok _) r = r
after_cleanup (err e) r = err e

-- `try: body finally: cleanup`
abbrev pub try_finally {ℓ} : {S A U : Type ℓ} → Action S A → Action S U → Action S A
try_finally body cleanup s =
    (after_cleanup (cleanup (body s).1).0 (body s).0, (cleanup (body s).1).1)
