-- ===== src/Utils/Json/Dicts.antt =====
-- Lists of dicts, which cannot be sorted.
use whitebox_tempest_plugin.Prelude.{◌≡◌, refl, Bool, true, false, List, [], ◌∷◌, if◌then◌else◌}
use whitebox_tempest_plugin.Exceptions.{Error, Result, ok, err, type_error, ◌>>=◌}
use whitebox_tempest_plugin.Python.Text.{Text}
use whitebox_tempest_plugin.Python.Json.{
  Json, null, boolean, number, string, object, array, Items, item, Fields, field, less,
}
use whitebox_tempest_plugin.Utils.Json.{
  Entry, insert_entry, sort_entries, sort_fields, sort_value, sort_element, entries,
  sort_list_values, normalize_json,
}

abbrev Raises : {A : Type 0} → Result A → Type 0
Raises r = (e : Error) × (r ≡ err e)

Raises-first : {A B : Type 0} (r : Result A) (f : A → Result B) → Raises r → Raises (r >>= f)
Raises-first r f (e, h) = (e, rw h refl)

Raises-then :
    {A B : Type 0} (r : Result A) (f : A → Result B)
    → ((a : A) → r ≡ ok a → Raises (f a))
    → Raises (r >>= f)
Raises-then (ok a) f h = h a refl
Raises-then (err e) f h = (e, refl)

less_object : (x : Json) (d : Fields) → less x (object d) ≡ err type_error
unfolding less
less_object null d = refl
less_object (boolean b) d = refl
less_object (number n) d = refl
less_object (string s) d = refl
less_object (array l) d = refl
less_object (object f) d = refl

abbrev Nonempty : List Entry → Type 0
Nonempty [] = ⊥
Nonempty (x ∷ l) = Unit

-- A list that is returned is not empty.
abbrev Fills : Result (List Entry) → Type 0
Fills (ok l) = Nonempty l
Fills (err e) = Unit

insert_dict :
    (d : Fields) (r : Result Json) (l : List Entry)
    → Nonempty l
    → Raises (insert_entry (object d, r) l)
unfolding insert_entry
insert_dict d r [] n = absurd n
insert_dict d r (y ∷ ys) n = (type_error, rw (less_object y.0 d) refl)

step-Fills :
    (before : Result Bool) (further : Result (List Entry)) (x y : Entry) (ys : List Entry)
    → Fills (before >>= λ b. if b then (further >>= λ zs. ok (y ∷ zs)) else ok (x ∷ y ∷ ys))
step-Fills (err e) further x y ys = tt
step-Fills (ok true) (ok zs) x y ys = tt
step-Fills (ok true) (err e) x y ys = tt
step-Fills (ok false) further x y ys = tt

insert_entry-Fills : (x : Entry) (l : List Entry) → Fills (insert_entry x l)
unfolding insert_entry
insert_entry-Fills x [] = tt
insert_entry-Fills x (y ∷ ys) = step-Fills (less y.0 x.0) (insert_entry x ys) x y ys

bind-Fills :
    (r : Result (List Entry)) (f : List Entry → Result (List Entry))
    → ((l : List Entry) → Fills (f l))
    → Fills (r >>= f)
bind-Fills (ok l) f h = h l
bind-Fills (err e) f h = tt

sort_entries-Fills : (x : Entry) (l : List Entry) → Fills (sort_entries (x ∷ l))
unfolding sort_entries
sort_entries-Fills x l = bind-Fills (sort_entries l) (insert_entry x) (insert_entry-Fills x)

Raises-over :
    (d : Fields) (r : Result Json) (s : Result (List Entry))
    → Fills s
    → Raises (s >>= insert_entry (object d, r))
Raises-over d r (ok l) f = insert_dict d r l f
Raises-over d r (err e) f = (e, refl)

-- A list whose first value is a dict, with another value behind it.
sort_value-Raises :
    (d : Fields) (x : Json) (items : Items)
    → Raises (sort_value (array (item (object d) (item x items))))
unfolding sort_value sort_entries
sort_value-Raises d x items =
    Raises-first (sort_entries (entries (item (object d) (item x items)))) _ (
      Raises-over d (sort_element (object d)) (sort_entries (entries (item x items)))
        (sort_entries-Fills (x, sort_element x) (entries items)))

-- Such a list is a value of the dict, or of a dict in it.
pub data HasDicts : Fields → Type 0 where
  here :
      {fields : Fields} (k : Text) (d : Fields) (x : Json) (items : Items)
      → HasDicts (field k (array (item (object d) (item x items))) fields)
  behind : {fields : Fields} (k : Text) (v : Json) → HasDicts fields → HasDicts (field k v fields)
  inside :
      {inner fields : Fields} (k : Text) → HasDicts inner → HasDicts (field k (object inner) fields)

sort_fields-Raises : {fields : Fields} → HasDicts fields → Raises (sort_fields fields)
unfolding sort_fields
sort_fields-Raises (here k d x items) =
    Raises-first (sort_value (array (item (object d) (item x items)))) _
      (sort_value-Raises d x items)
sort_fields-Raises (behind {fields = others} k v h) =
    Raises-then (sort_value v) _ λ w e. Raises-first (sort_fields others) _ (sort_fields-Raises h)
sort_fields-Raises (inside {inner} k h) =
    Raises-first (sort_value (object inner)) _
      (Raises-first (sort_fields inner) _ (sort_fields-Raises h))

-- A dict that has, in itself or in a dict of its values at any depth, a list that begins with a dict
-- and has another value is not normalized: an exception is raised.
pub normalize_json_raises :
    (reload : Json → Json) (json : Json) (fields : Fields)
    → reload json ≡ object fields
    → HasDicts fields
    → (e : Error) × (normalize_json reload json ≡ err e)
unfolding normalize_json sort_list_values
normalize_json_raises reload json fields h d =
    rw h (Raises-first (sort_fields fields) _ (sort_fields-Raises d))
