-- ===== src/Python/Text/Laws.antt =====
-- Laws of the methods of `str`.
use whitebox_tempest_plugin.Prelude.{
  ℕ, ◌≡◌, ◌≢◌, refl, ◌↔◌, Bool, true, not, List, [], ◌∷◌, ◌++◌, none, some, arith, eqb, all,
}
use whitebox_tempest_plugin.Python.Text.{
  Text, text_eq, is_space, lstrip, rstrip, strip, split, split_once, join,
}

pub text_eq→≡ : (s t : Text) → text_eq s t ≡ true → s ≡ t
unfolding text_eq
text_eq→≡ [] [] h = refl
text_eq→≡ [] (d ∷ t) h = cc
text_eq→≡ (c ∷ s) [] h = cc
text_eq→≡ (c ∷ s) (d ∷ t) h = ground (arith, text_eq→≡ s t)

pub text_eq_refl : (s : Text) → text_eq s s ≡ true
unfolding text_eq
text_eq_refl [] = refl
text_eq_refl (c ∷ s) = ground (arith, text_eq_refl s)

pub text_eq_iff : (s t : Text) → (text_eq s t ≡ true) ↔ (s ≡ t)
text_eq_iff s t = (text_eq→≡ s t, λ e. rw (← e) (text_eq_refl s))

-- No character of the text is white space.
abbrev pub no_space : Text → Bool
no_space = all (λ c. not (is_space c))

-- The character does not occur in the text.
abbrev pub lacks : ℕ → Text → Bool
lacks sep = all (λ c. not (eqb c sep))

lstrip_of_no_space : (s : Text) → no_space s ≡ true → lstrip s ≡ s
unfolding lstrip
lstrip_of_no_space [] h = refl
lstrip_of_no_space (c ∷ s) h = ground arith

rstrip_of_no_space : (s : Text) → no_space s ≡ true → rstrip s ≡ s
unfolding rstrip
rstrip_of_no_space [] h = refl
rstrip_of_no_space (c ∷ []) h = ground arith
rstrip_of_no_space (c ∷ d ∷ s) h = rw (rstrip_of_no_space (d ∷ s) (ground arith), rstrip) refl

pub strip_of_no_space : (s : Text) → no_space s ≡ true → strip s ≡ s
unfolding strip
strip_of_no_space s h = rw (lstrip_of_no_space s h) (rstrip_of_no_space s h)

-- What holds of all characters of a text holds of all characters of the stripped text.
module _ (p : ℕ → Bool) where
  all-lstrip : (s : Text) → all p s ≡ true → all p (lstrip s) ≡ true
  unfolding lstrip
  all-lstrip [] h = refl
  all-lstrip (c ∷ s) h = ground (arith, all-lstrip s)

  all-rstrip : (s : Text) → all p s ≡ true → all p (rstrip s) ≡ true
  unfolding rstrip
  all-rstrip [] h = refl
  all-rstrip (c ∷ s) h = ground (arith, all-rstrip s)

  pub all-strip : (s : Text) → all p s ≡ true → all p (strip s) ≡ true
  unfolding strip
  all-strip s h = all-rstrip (lstrip s) (all-lstrip s h)

module _ (sep : ℕ) where
  pub split_of_lacks : (p : Text) → lacks sep p ≡ true → split sep p ≡ p ∷ []
  unfolding split
  split_of_lacks [] h = refl
  split_of_lacks (c ∷ p) h = ground (arith, split_of_lacks p)

  pub split-append :
      (p rest : Text) → lacks sep p ≡ true → split sep (p ++ (sep ∷ rest)) ≡ p ∷ split sep rest
  unfolding split
  split-append [] rest h = ground arith
  split-append (c ∷ p) rest h = ground (arith, split-append p rest)

  pub split_once_of_lacks : (p : Text) → lacks sep p ≡ true → split_once sep p ≡ none
  unfolding split_once
  split_once_of_lacks [] h = refl
  split_once_of_lacks (c ∷ p) h = ground (arith, split_once_of_lacks p)

  pub split_once-append :
      (p rest : Text) → lacks sep p ≡ true → split_once sep (p ++ (sep ∷ rest)) ≡ some (p, rest)
  unfolding split_once
  split_once-append [] rest h = ground arith
  split_once-append (c ∷ p) rest h = ground (arith, split_once-append p rest)

  -- The first part holds no separator, and a text with no separator has one part.
  pub split_once-lacks : (s p q : Text) → split_once sep s ≡ some (p, q) → lacks sep p ≡ true
  unfolding split_once
  split_once-lacks [] p q h = cc
  split_once-lacks (c ∷ s) [] q h = refl
  split_once-lacks (c ∷ s) (d ∷ p) q h = ground (arith, split_once-lacks s p q)

  pub lacks_of_split_once : (s : Text) → split_once sep s ≡ none → lacks sep s ≡ true
  unfolding split_once
  lacks_of_split_once [] h = refl
  lacks_of_split_once (c ∷ s) h = ground (arith, lacks_of_split_once s)

  -- Splitting a join gives the parts back, if there is a part and none holds the separator.
  pub split-join :
      (p : Text) (ps : List Text)
      → all (lacks sep) (p ∷ ps) ≡ true
      → split sep (join (sep ∷ []) (p ∷ ps)) ≡ p ∷ ps
  unfolding join
  split-join p [] h = split_of_lacks p (ground arith)
  split-join p (q ∷ ps) h =
      rw (split-append p _ (ground arith), split-join q ps (ground arith)) refl

  split-ne-nil : (s : Text) → split sep s ≢ []
  unfolding split
  split-ne-nil [] h = cc
  split-ne-nil (c ∷ s) h = ground (arith, split-ne-nil s)

  -- A separator between two texts keeps the parts of both.
  pub split_at_sep : (s t : Text) → split sep (s ++ (sep ∷ t)) ≡ split sep s ++ split sep t
  unfolding split
  split_at_sep [] t = ground arith
  split_at_sep (c ∷ s) t = ground (arith, split_at_sep s t, split-ne-nil s)

pub lacks-strip : (sep : ℕ) (s : Text) → lacks sep s ≡ true → lacks sep (strip s) ≡ true
lacks-strip sep s = all-strip (λ c. not (eqb c sep)) s
