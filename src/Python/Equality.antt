-- ===== src/Python/Equality.antt =====
-- `==` on the types whose values are set elements and dictionary keys.
use whitebox_tempest_plugin.Prelude.{◌≡◌, ◌↔◌, Bool, true}
use whitebox_tempest_plugin.Prelude.Int.{ℤ, eqb_ℤ, eqb_ℤ_iff}
use whitebox_tempest_plugin.Python.Text.{Text, text_eq}
use whitebox_tempest_plugin.Python.Text.Laws.{text_eq_iff}

-- `same` is `__eq__`, and it decides the equality of values.
pub record Eq {ℓ} (T : Type ℓ) : Type ℓ where
  pub same : T → T → Bool
  pub same_iff : (x y : T) → (same x y ≡ true) ↔ (x ≡ y)

infix 50 ◌==◌
abbrev pub ◌==◌ {ℓ} : {T : Type ℓ} ⦃eq : Eq T⦄ → T → T → Bool
◌==◌ ⦃eq⦄ = eq.same

instance abbrev pub int_eq : Eq ℤ
int_eq = record { same = eqb_ℤ; same_iff = eqb_ℤ_iff }

instance abbrev pub text_instance : Eq Text
text_instance = record { same = text_eq; same_iff = text_eq_iff }
