-- ===== src/Clients/SysFs/Lines/Values.antt =====
-- The values that are read from lines of the form path:value.
use whitebox_tempest_plugin.Prelude.{
  ◌≡◌, refl, ap, ◌∙◌, Bool, true, false, ◌&&◌, not, List, [], ◌∷◌, ◌++◌, Option, some, map, arith,
  all, if◌then◌else◌, Bool-cases, inl, inr,
}
use whitebox_tempest_plugin.Exceptions.{ok, err, extra_value_found}
use whitebox_tempest_plugin.Python.Dict.{Dict, lookup, insert, keys, lookup-insert}
use whitebox_tempest_plugin.Python.Equality.{text_instance, ◌==◌}
use whitebox_tempest_plugin.Python.Set.{contains}
use whitebox_tempest_plugin.Python.Text.{Text, codes, text_eq, split_once, strip, starts_with}
use whitebox_tempest_plugin.Python.Text.Laws.{lacks, text_eq_iff, split_once-append}
use whitebox_tempest_plugin.Clients.SysFs.Lines.{sys_path, read_lines}

-- A path relative to /sys, and what its file holds.
abbrev pub Entry : Type 0
Entry = Text × Text

-- The line that grep prints for an entry.
abbrev pub line : Entry → Text
line (path, value) = sys_path path ++ (b':' ∷ value)

abbrev pub starts_with_sys : Text → Bool
starts_with_sys path = starts_with path (codes "/sys/")

-- A path that was asked for, has no colon in it, and does not start with /sys/ itself.
abbrev pub is_plain : List Text → Entry → Bool
is_plain paths (path, _) =
    contains paths (sys_path path) && (lacks b':' path && not (starts_with_sys path))

-- The value of the last entry for a path, without the white space round it.
abbrev pub last_value : Text → List Entry → Option Text → Option Text
last_value path [] before = before
last_value path ((p, v) ∷ entries) before =
    last_value path entries (if path == p then some (strip v) else before)

abbrev pub stored : List Entry → Dict Text Text → Dict Text Text
stored [] results = results
stored ((p, v) ∷ entries) results = stored entries (insert p (strip v) results)

pub lookup-stored :
    (entries : List Entry) (results : Dict Text Text) (path : Text)
    → lookup path (stored entries results) ≡ last_value path entries (lookup path results)
lookup-stored [] results path = refl
lookup-stored ((p, v) ∷ entries) results path =
    lookup-stored entries (insert p (strip v) results) path
    ∙ ap (last_value path entries) (lookup-insert p path (strip v) results)

abbrev plain_keys : Dict Text Text → Bool
plain_keys results = all (λ k. not (starts_with_sys k)) (keys results)

plain_keys-insert :
    (k v : Text) (results : Dict Text Text)
    → plain_keys results ≡ true
    → starts_with_sys k ≡ false
    → plain_keys (insert k v results) ≡ true
unfolding insert
plain_keys-insert k v [] h n = ground arith
plain_keys-insert k v ((j, w) ∷ results) h n = ground (arith, plain_keys-insert k v results)

-- A key that does not start with /sys/ is not a full path.
full_path_is_new :
    (ks : List Text) (path : Text)
    → all (λ k. not (starts_with_sys k)) ks ≡ true
    → contains ks (sys_path path) ≡ false
unfolding contains
full_path_is_new [] path h = refl
full_path_is_new (k ∷ ks) path h =
    let starts : starts_with_sys (sys_path path) ≡ true = unfold starts_with in refl in
    elim (Bool-cases (text_eq (sys_path path) k)) [
      | inl same ↦
          let e : sys_path path ≡ k = (text_eq_iff (sys_path path) k).0 same in
          absurd (ground (arith, ap starts_with_sys e))
      | inr other ↦ ground (arith, full_path_is_new ks path)
    ]

split-line :
    (path value : Text)
    → lacks b':' path ≡ true
    → split_once b':' (line (path, value)) ≡ some (sys_path path, value)
split-line path value h = split_once-append b':' (sys_path path) value h

pub read_lines_lem :
    (paths : List Text) (entries : List Entry) (results : Dict Text Text)
    → all (is_plain paths) entries ≡ true
    → plain_keys results ≡ true
    → read_lines paths (map line entries) results ≡ ok (stored entries results)
unfolding read_lines
read_lines_lem paths [] results h n = refl
read_lines_lem paths ((p, v) ∷ entries) results h n =
    let new = full_path_is_new (keys results) p n in
    rw (split-line p v (ground arith)) (
      ground (
        arith,
        new,
        read_lines_lem paths entries (insert p (strip v) results) (ground arith)
            (plain_keys-insert p (strip v) results n (ground arith)),
      ))

pub read_lines_extra :
    (paths : List Text) (entries : List Entry) (extra : Entry) (rest : List Text)
    (results : Dict Text Text)
    → all (is_plain paths) entries ≡ true
    → plain_keys results ≡ true
    → lacks b':' extra.0 ≡ true
    → contains paths (sys_path extra.0) ≡ false
    → read_lines paths (map line entries ++ (line extra ∷ rest)) results
      ≡ err (extra_value_found (sys_path extra.0))
unfolding read_lines
read_lines_extra paths [] (q, v) rest results h n c a = rw (split-line q v c) (ground arith)
read_lines_extra paths ((p, v) ∷ entries) extra rest results h n c a =
    let new = full_path_is_new (keys results) p n in
    rw (split-line p v (ground arith)) (
      ground (
        arith,
        new,
        read_lines_extra paths entries extra rest (insert p (strip v) results) (ground arith)
            (plain_keys-insert p (strip v) results n (ground arith)),
      ))
