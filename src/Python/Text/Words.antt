-- ===== src/Python/Text/Words.antt =====
-- Laws of `s.split()` and of `part in s`.
use whitebox_tempest_plugin.Prelude.{◌≡◌, refl, Bool, true, false, List, [], ◌∷◌, ◌++◌, arith, all}
use whitebox_tempest_plugin.Python.Text.{Text, pieces, split_space, has_part, join}
use whitebox_tempest_plugin.Python.Text.Laws.{no_space}

pieces-append : (p rest : Text) → no_space p ≡ true → pieces (p ++ (b' ' ∷ rest)) ≡ p ∷ pieces rest
unfolding pieces
pieces-append [] rest h = refl
pieces-append (c ∷ p) rest h = ground (arith, pieces-append p rest)

pieces_of_no_space : (p : Text) → no_space p ≡ true → pieces p ≡ p ∷ []
unfolding pieces
pieces_of_no_space [] h = refl
pieces_of_no_space (c ∷ p) h = ground (arith, pieces_of_no_space p)

-- A word is not empty and has no white space.
abbrev pub is_item : Text → Bool
is_item [] = false
is_item (c ∷ s) = no_space (c ∷ s)

pub split_space-append :
    (p rest : Text) → is_item p ≡ true → split_space (p ++ (b' ' ∷ rest)) ≡ p ∷ split_space rest
unfolding split_space
split_space-append [] rest h = cc
split_space-append (c ∷ p) rest h = rw (pieces-append (c ∷ p) rest h) refl

pub split_space-skip : (rest : Text) → split_space (b' ' ∷ rest) ≡ split_space rest
unfolding split_space pieces
split_space-skip rest = refl

pub split_space-join :
    (ps : List Text) → all is_item ps ≡ true → split_space (join (b' ' ∷ []) ps) ≡ ps
unfolding join
split_space-join [] h = unfold split_space pieces in refl
split_space-join ([] ∷ ps) h = ground arith
split_space-join ((c ∷ p) ∷ []) h =
    unfold split_space in rw (pieces_of_no_space (c ∷ p) (ground arith)) refl
split_space-join ((c ∷ p) ∷ q ∷ ps) h =
    rw (split_space-append (c ∷ p) _ (ground arith), split_space-join (q ∷ ps) (ground arith)) refl

pub has_part-append : (s t part : Text) → has_part t part ≡ true → has_part (s ++ t) part ≡ true
unfolding has_part
has_part-append [] t part h = h
has_part-append (c ∷ s) t part h = ground (arith, has_part-append s t part)
