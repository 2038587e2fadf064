-- ===== src/Python/Range.antt =====
-- `range(start, stop)` over Python's integers.
use whitebox_tempest_plugin.Prelude.{ℕ, zero, suc, ◌≡◌, refl, ◌&&◌, List, [], ◌∷◌, arith}
use whitebox_tempest_plugin.Prelude.Int.{ℤ, next, gap, leb_ℤ, ltb_ℤ, eqb_ℤ_iff}
use whitebox_tempest_plugin.Python.Equality.{int_eq}
use whitebox_tempest_plugin.Python.Set.{contains}

count_up : ℤ → ℕ → List ℤ
count_up a zero = []
count_up a (suc n) = a ∷ count_up (next a) n

unfoldable pub range : ℤ → ℤ → List ℤ
unfolding count_up
range start stop = count_up start (gap start stop)

contains-count_up :
    (n : ℕ) (a b x : ℤ) → gap a b ≡ n → contains (count_up a n) x ≡ (leb_ℤ a x && ltb_ℤ x b)
unfolding contains count_up
contains-count_up zero a b x h = ground arith
contains-count_up (suc n) a b x h = ground (arith, contains-count_up n (next a) b x, eqb_ℤ_iff x a)

-- The members of a range lie from its start to below its stop.
pub contains-range :
    (start stop x : ℤ) → contains (range start stop) x ≡ (leb_ℤ start x && ltb_ℤ x stop)
unfolding range
contains-range start stop x = contains-count_up (gap start stop) start stop x refl
