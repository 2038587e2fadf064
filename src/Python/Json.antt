-- ===== src/Python/Json.antt =====
-- JSON values, as Python has them, with `==` and `<`. Numbers are integers.
use whitebox_tempest_plugin.Prelude.{Bool, true, false, ◌&&◌, [], ◌∷◌, ltb, eqb, if◌then◌else◌}
use whitebox_tempest_plugin.Prelude.Int.{ℤ, pos, eqb_ℤ, ltb_ℤ}
use whitebox_tempest_plugin.Exceptions.{Result, ok, err, type_error}
use whitebox_tempest_plugin.Python.Text.{Text, text_eq}

mutual
  pub data Json : Type 0 where
    null : Json
    boolean : Bool → Json
    number : ℤ → Json
    string : Text → Json
    array : Items → Json
    object : Fields → Json

  pub data Items : Type 0 where
    no_items : Items
    item : Json → Items → Items

  pub data Fields : Type 0 where
    no_fields : Fields
    field : Text → Json → Fields → Fields

-- `s < t` of texts.
unfoldable pub text_ltb : Text → Text → Bool
text_ltb s [] = false
text_ltb [] (d ∷ t) = true
text_ltb (c ∷ s) (d ∷ t) = if eqb c d then text_ltb s t else ltb c d

abbrev as_int : Bool → ℤ
as_int true = pos 1
as_int false = pos 0

-- `==`: True is 1 and False is 0. The keys of both sides are sorted.
unfoldable mutual
  pub json_eq : Json → Json → Bool
  json_eq null null = true
  json_eq (boolean a) (boolean b) = eqb_ℤ (as_int a) (as_int b)
  json_eq (boolean a) (number b) = eqb_ℤ (as_int a) b
  json_eq (number a) (boolean b) = eqb_ℤ a (as_int b)
  json_eq (number a) (number b) = eqb_ℤ a b
  json_eq (string s) (string t) = text_eq s t
  json_eq (array xs) (array ys) = items_eq xs ys
  json_eq (object xs) (object ys) = fields_eq xs ys
  json_eq _ _ = false

  items_eq : Items → Items → Bool
  items_eq no_items no_items = true
  items_eq (item x xs) (item y ys) = json_eq x y && items_eq xs ys
  items_eq _ _ = false

  fields_eq : Fields → Fields → Bool
  fields_eq no_fields no_fields = true
  fields_eq (field k x xs) (field l y ys) = text_eq k l && (json_eq x y && fields_eq xs ys)
  fields_eq _ _ = false

-- `<`, which raises for two dicts, two nulls, and values of different kinds. Lists compare by the
-- first items that differ.
unfoldable mutual
  pub less : Json → Json → Result Bool
  less (boolean a) (boolean b) = ok (ltb_ℤ (as_int a) (as_int b))
  less (boolean a) (number b) = ok (ltb_ℤ (as_int a) b)
  less (number a) (boolean b) = ok (ltb_ℤ a (as_int b))
  less (number a) (number b) = ok (ltb_ℤ a b)
  less (string s) (string t) = ok (text_ltb s t)
  less (array xs) (array ys) = less_items xs ys
  less _ _ = err type_error

  less_items : Items → Items → Result Bool
  less_items _ no_items = ok false
  less_items no_items (item y ys) = ok true
  less_items (item x xs) (item y ys) =
      let first = less x y in let others = less_items xs ys in if json_eq x y then others else first
