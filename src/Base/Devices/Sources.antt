-- ===== src/Base/Devices/Sources.antt =====
-- Reading the table of `virsh domblklist`.
use whitebox_tempest_plugin.Prelude.{
  ℕ, zero, suc, ◌≡◌, refl, ap, ◌∙◌, Bool, true, false, not, ◌&&◌, List, [], ◌∷◌, ◌++◌, append-nil,
  Option, some, all, map, arith, if◌then◌else◌, both_left, both_right,
}
use whitebox_tempest_plugin.Exceptions.{ok}
use whitebox_tempest_plugin.Python.Text.{Text, has_part, split_space, join, pieces}
use whitebox_tempest_plugin.Python.Text.Words.{
  is_item, split_space-append, split_space-skip, split_space-join,
}
use whitebox_tempest_plugin.Base.Devices.{next_source, read_sources}

-- A line of the output: a row of the table, with its blanks before, between and behind its columns; or
-- any other line, such as the header, the line of dashes and empty lines.
pub data Line : Type 0 where
  row : (indent gap behind : ℕ) (target source : Text) → Line
  other : Text → Line

abbrev pub blanks : ℕ → Text
blanks zero = []
blanks (suc n) = b' ' ∷ blanks n

abbrev pub line_text : Line → Text
line_text (row indent gap behind target source) =
    blanks indent ++ (target ++ (b' ' ∷ (blanks gap ++ (source ++ blanks behind))))
line_text (other text) = text

-- The columns are words without white space, and no other line has the name of the device in it.
abbrev pub is_table : Text → Line → Bool
is_table device_name (row indent gap behind target source) = is_item target && is_item source
is_table device_name (other text) = not (has_part text device_name)

-- The source of the last row in which the name stands.
abbrev pub last_source : Text → Option Text → List Line → Option Text
last_source device_name source [] = source
last_source device_name source (row indent gap behind target s ∷ lines) =
    last_source device_name
      (if has_part (line_text (row indent gap behind target s)) device_name then some s else source)
      lines
last_source device_name source (other text ∷ lines) = last_source device_name source lines

split_space-blanks : (n : ℕ) (s : Text) → split_space (blanks n ++ s) ≡ split_space s
split_space-blanks zero s = refl
split_space-blanks (suc n) s = split_space-skip (blanks n ++ s) ∙ split_space-blanks n s

split_space-trailing : (n : ℕ) → split_space (blanks n) ≡ []
split_space-trailing zero = unfold split_space pieces in refl
split_space-trailing (suc n) = split_space-skip (blanks n) ∙ split_space-trailing n

split_space-one : (s : Text) → is_item s ≡ true → split_space s ≡ s ∷ []
split_space-one s h = (unfold join in split_space-join (s ∷ []) (ground (arith, h)))

not-true : {b : Bool} → not b ≡ true → b ≡ false
not-true h = ground (arith, h)

split_space-last : (s : Text) (n : ℕ) → is_item s ≡ true → split_space (s ++ blanks n) ≡ s ∷ []
split_space-last s zero h = rw (append-nil s) (split_space-one s h)
split_space-last s (suc n) h =
    split_space-append s (blanks n) h ∙ ap (λ l. s ∷ l) (split_space-trailing n)

split_space-row :
    (indent gap behind : ℕ) (target source : Text)
    → is_item target ≡ true
    → is_item source ≡ true
    → split_space (line_text (row indent gap behind target source)) ≡ target ∷ source ∷ []
split_space-row indent gap behind target source h k =
    split_space-blanks indent _
    ∙ split_space-append target _ h
    ∙ ap (λ l. target ∷ l)
        (split_space-blanks gap (source ++ blanks behind) ∙ split_space-last source behind k)

next_source_row :
    (b : Bool) (target source' : Text) (source : Option Text)
    → next_source b (target ∷ source' ∷ []) source ≡ ok (if b then some source' else source)
next_source_row true target source' source = refl
next_source_row false target source' source = refl

read_sources-line :
    (device_name : Text) (source : Option Text) (line target source' : Text) (lines : List Text)
    → split_space line ≡ target ∷ source' ∷ []
    → read_sources device_name source (line ∷ lines)
      ≡ read_sources device_name (if has_part line device_name then some source' else source) lines
unfolding read_sources
read_sources-line device_name source line target source' lines h =
    rw (read_sources, h, next_source_row (has_part line device_name) target source' source) refl

read_sources-skip :
    (device_name : Text) (source : Option Text) (line : Text) (lines : List Text)
    → has_part line device_name ≡ false
    → read_sources device_name source (line ∷ lines) ≡ read_sources device_name source lines
unfolding read_sources
read_sources-skip device_name source line lines h = rw (read_sources, h) refl

-- At an output whose rows have a target and a source without white space in them, with any blanks
-- round them, and whose other lines do not have the name of the device in them, the loop finds the
-- source of the last row in which the name stands, and none where it stands in no row.
pub read_sources-last_source :
    (device_name : Text) (source : Option Text) (lines : List Line)
    → all (is_table device_name) lines ≡ true
    → read_sources device_name source (map line_text lines)
      ≡ ok (last_source device_name source lines)
read_sources-last_source device_name source [] h = unfold read_sources in refl
read_sources-last_source device_name source (row indent gap behind target s ∷ lines) h =
    let line = line_text (row indent gap behind target s) in
    let words = both_left _ _ h in
    read_sources-line device_name source line target s (map line_text lines)
      (split_space-row indent gap behind target s (both_left _ _ words) (both_right _ _ words))
    ∙ read_sources-last_source device_name (if has_part line device_name then some s else source)
        lines (both_right _ _ h)
read_sources-last_source device_name source (other text ∷ lines) h =
    read_sources-skip device_name source text (map line_text lines) (not-true (both_left _ _ h))
    ∙ read_sources-last_source device_name source lines (both_right _ _ h)
