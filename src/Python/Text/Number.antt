-- ===== src/Python/Text/Number.antt =====
-- `int(text)`, and `str(n)` and '%d' % n for an integer.
use whitebox_tempest_plugin.Prelude.{
  ℕ, zero, suc, ◌+◌, ◌-◌, ◌*◌, ◌/◌, ◌%◌, ◌<◌, ◌≡◌, refl, Bool, true, false, not, ◌&&◌, [], ◌∷◌,
  ◌++◌, Option, none, some, arith, leb, ltb, eqb, all, all-append, if◌then◌else◌, append_assoc,
  append-nil, ◌∙◌, ◌≢◌, Bool-cases, inl, inr,
}
use whitebox_tempest_plugin.Prelude.Int.{ℤ, pos, negsuc}
use whitebox_tempest_plugin.Python.Text.{Text, strip}
use whitebox_tempest_plugin.Python.Text.Laws.{no_space, lacks, strip_of_no_space, lacks-strip}

abbrev pub is_digit : ℕ → Bool
is_digit c = leb b'0' c && leb c b'9'

-- The digits of a number, with single underscores between them. The flag is set at the start and
-- behind an underscore, where a digit has to follow.
scan : Bool → ℕ → Text → Option ℕ
scan true n [] = none
scan false n [] = some n
scan bar n (c ∷ s) = elim (is_digit c) [
  | true ↦ scan false (n * 10 + (c - b'0')) s
  | false ↦ elim (eqb c b'_' && not bar) [ true ↦ scan true n s | false ↦ none ]
]

abbrev minus : ℕ → ℤ
minus zero = pos 0
minus (suc n) = negsuc n

abbrev signed : (ℕ → ℤ) → Option ℕ → Option ℤ
signed f none = none
signed f (some n) = some (f n)

read_signed : Text → Option ℤ
unfolding scan
read_signed [] = none
read_signed (c ∷ s) =
    if eqb c b'-'
    then signed minus (scan true 0 s)
    else if eqb c b'+'
    then signed pos (scan true 0 s)
    else signed pos (scan true 0 (c ∷ s))

-- `int(text)`; `none` is a ValueError.
unfoldable pub int : Text → Option ℤ
unfolding read_signed strip
int s = read_signed (strip s)

-- The decimal digits of `n`, with fuel above `n`.
digits : ℕ → ℕ → Text
digits zero n = []
digits (suc f) n =
    let front = digits f (n / 10) in (if ltb n 10 then [] else front) ++ ((b'0' + n % 10) ∷ [])

-- `str(n)` for a number that is not negative.
unfoldable pub str_nat : ℕ → Text
unfolding digits
str_nat n = digits (suc n) n

-- `str(n)`
unfoldable pub str_int : ℤ → Text
unfolding str_nat
str_int (pos n) = str_nat n
str_int (negsuc n) = b'-' ∷ str_nat (suc n)

all-digits : (f n : ℕ) → all is_digit (digits f n) ≡ true
unfolding digits
all-digits zero n = refl
all-digits (suc f) n = elim (Bool-cases (ltb n 10)) [
  | inl small ↦ rw small (ground arith)
  | inr large ↦
      rw large (all-append is_digit (digits f (n / 10)) _ (all-digits f (n / 10)) (ground arith))
]

-- Reading the digits of `n` in front of a text leaves the scanner at `n` behind them.
scan-digits :
    (f n : ℕ) (bar : Bool) (rest : Text)
    → n < f
    → scan bar 0 (digits f n ++ rest) ≡ scan false n rest
unfolding scan digits
scan-digits zero n bar rest h = absurd (omega arith)
scan-digits (suc f) n bar rest h = elim (Bool-cases (ltb n 10)) [
  | inl small ↦ rw small (ground arith)
  | inr large ↦ rw (large, append_assoc, scan-digits f (n / 10) bar _ (ground arith)) (ground arith)
]

digit-no_space : (s : Text) → all is_digit s ≡ true → no_space s ≡ true
digit-no_space [] h = refl
digit-no_space (c ∷ s) h = ground (arith, digit-no_space s)

pub str_nat-digits : (n : ℕ) → all is_digit (str_nat n) ≡ true
unfolding str_nat
str_nat-digits n = all-digits (suc n) n

pub str_nat-no_space : (n : ℕ) → no_space (str_nat n) ≡ true
str_nat-no_space n = digit-no_space (str_nat n) (str_nat-digits n)

-- A character that is no digit does not occur in the print of a number.
digit-lacks :
    (sep : ℕ) (s : Text) → is_digit sep ≡ false → all is_digit s ≡ true → lacks sep s ≡ true
digit-lacks sep [] e h = refl
digit-lacks sep (c ∷ s) e h = ground (arith, digit-lacks sep s)

pub str_nat-lacks : (sep n : ℕ) → is_digit sep ≡ false → lacks sep (str_nat n) ≡ true
str_nat-lacks sep n e = digit-lacks sep (str_nat n) e (str_nat-digits n)

scan-str_nat : (n : ℕ) → scan true 0 (str_nat n) ≡ some n
unfolding str_nat
scan-str_nat n =
    (rw append-nil at (scan-digits (suc n) n true [] (omega arith))) ∙ unfold scan in refl

read_signed_of_digits :
    (s : Text) {n : ℕ}
    → all is_digit s ≡ true
    → scan true 0 s ≡ some n
    → read_signed s ≡ some (pos n)
unfolding read_signed
read_signed_of_digits [] d h = cc
read_signed_of_digits (c ∷ s) d h = ground arith

-- `int` reads back the print of every number that is not negative.
pub int-str_nat : (n : ℕ) → int (str_nat n) ≡ some (pos n)
unfolding int
int-str_nat n =
    rw (strip_of_no_space (str_nat n) (str_nat-no_space n))
      (read_signed_of_digits (str_nat n) (str_nat-digits n) (scan-str_nat n))

-- `int` reads back the print of every integer.
pub int-str_int : (a : ℤ) → int (str_int a) ≡ some a
unfolding int str_int
int-str_int (pos n) = int-str_nat n
int-str_int (negsuc n) =
    rw
      (
        strip_of_no_space (b'-' ∷ str_nat (suc n)) (str_nat-no_space (suc n)),
        scan-str_nat (suc n),
        read_signed,
      )
      refl

read_signed_nonneg : (s : Text) (n : ℕ) → lacks b'-' s ≡ true → read_signed s ≢ some (negsuc n)
unfolding read_signed
read_signed_nonneg [] n h e = cc
read_signed_nonneg (c ∷ s) n h e = ground arith

-- `int` of a text with no minus sign is not negative.
pub int-nonneg : (s : Text) (n : ℕ) → lacks b'-' s ≡ true → int s ≢ some (negsuc n)
unfolding int
int-nonneg s n h = read_signed_nonneg (strip s) n (lacks-strip b'-' s h)
