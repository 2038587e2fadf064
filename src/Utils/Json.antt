-- ===== src/Utils/Json.antt =====
-- `normalize_json` of utils.py. The oslo.serialization round trip that sorts the keys of its dicts is a
-- parameter.
pub mod Order
pub mod Dicts
use whitebox_tempest_plugin.Prelude.{
  ℕ, Bool, true, false, ◌&&◌, List, [], ◌∷◌, ltb, eqb, if◌then◌else◌,
}
use whitebox_tempest_plugin.Exceptions.{Result, ok, err, type_error, attribute_error, ◌>>=◌}
use whitebox_tempest_plugin.Python.Json.{
  Json, null, boolean, number, string, array, object, Items, no_items, item, Fields, no_fields,
  field, text_ltb, json_eq, less,
}

-- A value of a list, and what the code makes of it behind the sort.
abbrev pub Entry : Type 0
Entry = Json × Result Json

-- `v.sort()`, which is stable. Which pairs of values are compared, and so whether a sort of lists
-- with incomparable values in them raises, is left to Python; this sort compares as it inserts.
unfoldable pub insert_entry : Entry → List Entry → Result (List Entry)
insert_entry x [] = ok (x ∷ [])
insert_entry x (y ∷ ys) =
    let further = insert_entry x ys in
    less y.0 x.0 >>= λ before. if before then (further >>= λ zs. ok (y ∷ zs)) else ok (x ∷ y ∷ ys)

unfoldable pub sort_entries : List Entry → Result (List Entry)
unfolding insert_entry
sort_entries [] = ok []
sort_entries (x ∷ xs) = sort_entries xs >>= insert_entry x

-- The values of a sorted list, each dict among them with its own lists sorted.
unfoldable pub collect : List Entry → Result Items
collect [] = ok no_items
collect ((x, sorted) ∷ xs) = sorted >>= λ y. collect xs >>= λ ys. ok (item y ys)

-- The inner `sort_list_values` on the fields of a dict. What it makes of the dicts of a list is computed
-- beside them, and counts only behind the sort.
unfoldable mutual
  unfolding sort_entries collect

  pub sort_fields : Fields → Result Fields
  sort_fields no_fields = ok no_fields
  sort_fields (field k v fields) =
      sort_value v >>= λ w. sort_fields fields >>= λ rest. ok (field k w rest)

  pub sort_value : Json → Result Json
  sort_value (array items) =
      sort_entries (entries items) >>= λ sorted. collect sorted >>= λ ys. ok (array ys)
  sort_value (object fields) = sort_fields fields >>= λ sorted. ok (object sorted)
  sort_value v = ok v

  pub entries : Items → List Entry
  entries no_items = []
  entries (item x xs) = (x, sort_element x) ∷ entries xs

  pub sort_element : Json → Result Json
  sort_element (object fields) = sort_fields fields >>= λ sorted. ok (object sorted)
  sort_element x = ok x

unfoldable pub sort_list_values : Json → Result Json
unfolding sort_fields
sort_list_values (object fields) = sort_fields fields >>= λ sorted. ok (object sorted)
sort_list_values json = err attribute_error

unfoldable pub normalize_json : (Json → Json) → Json → Result Json
unfolding sort_list_values
normalize_json reload json = sort_list_values (reload json)
