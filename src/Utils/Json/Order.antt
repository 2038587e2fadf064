-- ===== src/Utils/Json/Order.antt =====
-- Sorting lists of texts, and lists with dicts in them.
use whitebox_tempest_plugin.Prelude.{
  ◌≡◌, refl, ap, sym, ◌∙◌, Bool, true, false, List, [], ◌∷◌, map, arith, if◌then◌else◌, Bool-cases,
  inl, inr,
}
use mathlib.Core.List.{Permᴰ}
use whitebox_tempest_plugin.Exceptions.{ok}
use whitebox_tempest_plugin.Python.Text.{Text}
use whitebox_tempest_plugin.Python.Json.{
  Json, string, object, array, Items, no_items, item, Fields, no_fields, field, text_ltb, less,
}
use whitebox_tempest_plugin.Utils.Json.{
  Entry, insert_entry, sort_entries, collect, sort_fields, sort_value, entries, sort_list_values,
  normalize_json,
}

insert_text : Text → List Text → List Text
insert_text s [] = s ∷ []
insert_text s (t ∷ ts) =
    let rest = insert_text s ts in if text_ltb t s then t ∷ rest else s ∷ t ∷ ts

text_ltb_asym : (s t : Text) → text_ltb s t ≡ true → text_ltb t s ≡ false
unfolding text_ltb
text_ltb_asym s [] h = cc
text_ltb_asym [] (d ∷ t) h = refl
text_ltb_asym (c ∷ s) (d ∷ t) h = ground (arith, text_ltb_asym s t)

text_ltb_total : (s t : Text) → text_ltb s t ≡ false → text_ltb t s ≡ false → s ≡ t
unfolding text_ltb
text_ltb_total [] [] h k = refl
text_ltb_total [] (d ∷ t) h k = cc
text_ltb_total (c ∷ s) [] h k = cc
text_ltb_total (c ∷ s) (d ∷ t) h k = ground (arith, text_ltb_total s t)

text_ltb_trans : (s t u : Text) → text_ltb s t ≡ true → text_ltb t u ≡ true → text_ltb s u ≡ true
unfolding text_ltb
text_ltb_trans s t [] h k = cc
text_ltb_trans s [] (e ∷ u) h k = cc
text_ltb_trans [] (d ∷ t) (e ∷ u) h k = refl
text_ltb_trans (c ∷ s) (d ∷ t) (e ∷ u) h k = ground (arith, text_ltb_trans s t u)

insert_text_below :
    (a b : Text) (ts : List Text)
    → text_ltb a b ≡ true
    → insert_text a (insert_text b ts) ≡ insert_text b (insert_text a ts)
unfolding insert_text
insert_text_below a b [] h = ground (arith, text_ltb_asym a b)
insert_text_below a b (t ∷ ts) h = ground (
  arith,
  insert_text_below a b ts h,
  text_ltb_asym a b h,
  text_ltb_trans t a b,
  text_ltb_asym t a,
  text_ltb_asym t b,
)

insert_text_comm :
    (a b : Text) (ts : List Text)
    → insert_text a (insert_text b ts) ≡ insert_text b (insert_text a ts)
unfolding insert_text
insert_text_comm a b ts = elim (Bool-cases (text_ltb a b)) [
  | inl below ↦ insert_text_below a b ts below
  | inr above ↦ elim (Bool-cases (text_ltb b a)) [
    | inl below ↦ sym (insert_text_below b a ts below)
    | inr level ↦ rw (text_ltb_total a b above level) refl
  ]
]

sort_texts : List Text → List Text
sort_texts [] = []
sort_texts (s ∷ ts) = insert_text s (sort_texts ts)

sort_texts-Permᴰ : {ts us : List Text} → Permᴰ ts us → sort_texts ts ≡ sort_texts us
unfolding sort_texts
sort_texts-Permᴰ Permᴰ.nil = refl
sort_texts-Permᴰ (Permᴰ.cons e d) = rw (e, sort_texts-Permᴰ d) refl
sort_texts-Permᴰ (Permᴰ.swap {a = a} {b = b} {l = l} e f) =
    rw (← e, ← f) (insert_text_comm a b (sort_texts l))
sort_texts-Permᴰ (Permᴰ.trans c d) = sort_texts-Permᴰ c ∙ sort_texts-Permᴰ d

-- The items of a list of strings.
abbrev pub texts : List Text → Items
texts [] = no_items
texts (s ∷ ts) = item (string s) (texts ts)

abbrev entry : Text → Entry
entry s = (string s, ok (string s))

entries-texts : (ts : List Text) → entries (texts ts) ≡ map entry ts
unfolding entries
entries-texts [] = refl
entries-texts (s ∷ ts) = ap (λ l. entry s ∷ l) (entries-texts ts)

push_entry :
    (b : Bool) (s t : Text) (ts us : List Text)
    → (if b then ok (map entry (t ∷ us)) else ok (map entry (s ∷ t ∷ ts)))
      ≡ ok (map entry (if b then t ∷ us else s ∷ t ∷ ts))
push_entry true s t ts us = refl
push_entry false s t ts us = refl

insert_entry-entry :
    (s : Text) (ts : List Text)
    → insert_entry (entry s) (map entry ts) ≡ ok (map entry (insert_text s ts))
unfolding insert_entry insert_text less
insert_entry-entry s [] = refl
insert_entry-entry s (t ∷ ts) =
    rw (insert_entry-entry s ts) (push_entry (text_ltb t s) s t ts (insert_text s ts))

sort_entries-entry : (ts : List Text) → sort_entries (map entry ts) ≡ ok (map entry (sort_texts ts))
unfolding sort_entries sort_texts
sort_entries-entry [] = refl
sort_entries-entry (s ∷ ts) = rw (sort_entries-entry ts) (insert_entry-entry s (sort_texts ts))

collect-entry : (ts : List Text) → collect (map entry ts) ≡ ok (texts ts)
unfolding collect
collect-entry [] = refl
collect-entry (s ∷ ts) = rw (collect-entry ts) refl

sort_value-texts :
    (ts : List Text) → sort_value (array (texts ts)) ≡ ok (array (texts (sort_texts ts)))
unfolding sort_value
sort_value-texts ts =
    rw (entries-texts ts, sort_entries-entry ts, collect-entry (sort_texts ts)) refl

-- Two dicts that differ in the order of lists of strings, at any depth of dicts.
pub data Alike : Fields → Fields → Type 0 where
  alike_end : Alike no_fields no_fields
  alike_value : {f g : Fields} (k : Text) (v : Json) → Alike f g → Alike (field k v f) (field k v g)
  alike_texts :
      {f g : Fields} (k : Text) (ts us : List Text)
      → Permᴰ ts us
      → Alike f g
      → Alike (field k (array (texts ts)) f) (field k (array (texts us)) g)
  alike_dict :
      {a b f g : Fields} (k : Text)
      → Alike a b
      → Alike f g
      → Alike (field k (object a) f) (field k (object b) g)

sort_fields-Alike : {f g : Fields} → Alike f g → sort_fields f ≡ sort_fields g
unfolding sort_fields
sort_fields-Alike alike_end = refl
sort_fields-Alike (alike_value k v h) = rw (sort_fields-Alike h) refl
sort_fields-Alike (alike_texts k ts us p h) =
    rw (sort_value-texts ts, sort_value-texts us, sort_texts-Permᴰ p, sort_fields-Alike h) refl
sort_fields-Alike (alike_dict k d h) = rw (sort_fields-Alike d, sort_fields-Alike h) refl

-- Dicts that, once reloaded, differ only in the order of lists of strings, in themselves or in the
-- dicts of their values at any depth, have the same normal form, or raise the same exception.
pub normalize_json-Alike :
    (reload : Json → Json) (a b : Json) (f g : Fields)
    → reload a ≡ object f
    → reload b ≡ object g
    → Alike f g
    → normalize_json reload a ≡ normalize_json reload b
unfolding normalize_json sort_list_values
normalize_json-Alike reload a b f g p q h = rw (p, q, sort_fields-Alike h) refl
