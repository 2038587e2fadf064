-- ===== src/Tests/Json.antt =====
-- Two JSON dicts that differ in the order of a list, and one with a list of dicts.
use whitebox_tempest_plugin.Prelude.{◌≡◌, refl, [], ◌∷◌}
use mathlib.Core.List.{Permᴰ}
use whitebox_tempest_plugin.Exceptions.{Error, ok, err}
use whitebox_tempest_plugin.Python.Text.{codes}
use whitebox_tempest_plugin.Python.Json.{
  Json, null, array, object, Items, no_items, item, Fields, no_fields, field, less, text_ltb,
}
use whitebox_tempest_plugin.Utils.Json.{
  normalize_json, sort_list_values, sort_fields, sort_entries, insert_entry, collect,
}
use whitebox_tempest_plugin.Utils.Json.Order.{
  texts, alike_end, alike_value, alike_texts, alike_dict, normalize_json-Alike,
}
use whitebox_tempest_plugin.Utils.Json.Dicts.{here, inside, normalize_json_raises}

abbrev as_is : Json → Json
as_is json = json

abbrev with_traits : Items → Fields
with_traits items =
    field (codes "provider") (object (field (codes "traits") (array items) no_fields))
      (field (codes "id") null no_fields)

abbrev one_way : Fields
one_way = with_traits (texts (codes "HW" ∷ codes "CUSTOM" ∷ []))

abbrev other_way : Fields
other_way = with_traits (texts (codes "CUSTOM" ∷ codes "HW" ∷ []))

sorted_run : normalize_json as_is (object one_way) ≡ ok (object other_way)
unfolding normalize_json sort_list_values sort_fields sort_entries insert_entry collect less
    text_ltb
sorted_run = refl

normalize_json-Alike_example :
    normalize_json as_is (object one_way) ≡ normalize_json as_is (object other_way)
normalize_json-Alike_example =
    normalize_json-Alike as_is (object one_way) (object other_way) one_way other_way refl refl (
      alike_dict (codes "provider")
        (alike_texts (codes "traits") (codes "HW" ∷ codes "CUSTOM" ∷ [])
          (codes "CUSTOM" ∷ codes "HW" ∷ []) (Permᴰ.swap refl refl) alike_end)
        (alike_value (codes "id") null alike_end))

abbrev two_dicts : Fields
two_dicts = with_traits (item (object no_fields) (item (object no_fields) no_items))

normalize_json_raises_example : (e : Error) × (normalize_json as_is (object two_dicts) ≡ err e)
normalize_json_raises_example =
    normalize_json_raises as_is (object two_dicts) two_dicts refl
      (inside (codes "provider") (here (codes "traits") no_fields (object no_fields) no_items))
