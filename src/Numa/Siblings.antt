-- ===== src/Numa/Siblings.antt =====
-- `get_siblings_list` of whitebox_tempest_plugin/api/compute/test_cpu_pinning.py: the CPUs in a list of
-- siblings, as `virsh capabilities` prints it.
pub mod Agreement
use whitebox_tempest_plugin.Prelude.{List, [], ◌∷◌, ◌++◌, Option, none, some}
use whitebox_tempest_plugin.Prelude.Int.{ℤ, next}
use whitebox_tempest_plugin.Exceptions.{Result, ok, err, value_error, ◌>>=◌}
use whitebox_tempest_plugin.Python.Range.{range}
use whitebox_tempest_plugin.Python.Text.{Text, split}
use whitebox_tempest_plugin.Python.Text.Number.{int}

-- `int(text)`
unfoldable pub to_number : Text → Result ℤ
to_number s = elim (int s) [ none ↦ err value_error | some n ↦ ok n ]

-- What a part of the list adds, by its own parts at the dashes: it has no dash if there is one part, and
-- only two can be unpacked into start_sib and end_sib.
unfoldable pub sub_siblings : List Text → Result (List ℤ)
unfolding to_number
sub_siblings (sub_sib ∷ []) = do n ← to_number sub_sib; ok (n ∷ [])
sub_siblings (start_sib ∷ end_sib ∷ []) = do
  start ← to_number start_sib
  end ← to_number end_sib
  ok (range start (next end))
sub_siblings _ = err value_error

-- The loop, with the siblings that it has so far.
unfoldable pub add_siblings : List ℤ → List Text → Result (List ℤ)
unfolding sub_siblings
add_siblings siblings [] = ok siblings
add_siblings siblings (sub_sib ∷ sub_sibs) = do
  more ← sub_siblings (split b'-' sub_sib)
  add_siblings (siblings ++ more) sub_sibs

unfoldable pub get_siblings_list : Text → Result (List ℤ)
unfolding add_siblings
get_siblings_list sib = add_siblings [] (split b',' sib)
