-- ===== src/Clients/ServiceManager/View.antt =====
-- A configuration file as what its readers see, and what writing a list of options makes of it.
use whitebox_tempest_plugin.Prelude.{
  ℕ, ltb, eqb, all, ◌≡◌, refl, ap, ◌∙◌, Bool, true, false, not, ◌&&◌, ◌||◌, List, [], ◌∷◌, ◌++◌,
  Option, none, some, arith, Bool-cases, inl, inr, if◌then◌else◌,
}
use whitebox_tempest_plugin.Python.Text.{Text, codes, text_eq}
use whitebox_tempest_plugin.Python.Text.Laws.{text_eq_refl, text_eq→≡}
use whitebox_tempest_plugin.Clients.ServiceManager.{ConfOpt}

-- The value at a section and an option, or `none`.
abbrev pub View : Type 0
View = Text → Text → Option Text

abbrev pub at_key : ConfOpt → Text → Text → Bool
at_key o section option = text_eq section o.section && text_eq option o.option

abbrev pub write : View → ConfOpt → View
write view o section option = if at_key o section option then o.value else view section option

abbrev pub write_all : View → List ConfOpt → View
write_all view [] = view
write_all view (o ∷ opts) = write_all (write view o) opts

-- The values that the options have, each before it and those behind it are written.
abbrev pub snapshot : View → List ConfOpt → List ConfOpt
snapshot view [] = []
snapshot view (o ∷ opts) =
    record { section = o.section; option = o.option; value = view o.section o.option }
    ∷ snapshot (write view o) opts

abbrev pub in_keys : Text → Text → List ConfOpt → Bool
in_keys section option [] = false
in_keys section option (o ∷ opts) = at_key o section option || in_keys section option opts

-- No option is listed twice.
abbrev pub distinct_keys : List ConfOpt → Bool
distinct_keys [] = true
distinct_keys (o ∷ opts) = not (in_keys o.section o.option opts) && distinct_keys opts

abbrev has_code : ℕ → Text → Bool
has_code c [] = false
has_code c (d ∷ t) = eqb c d || has_code c t

-- A character that the shell passes on as it is: no white space, quote, backslash or control
-- character, and none of the characters of expansions, redirections and operators.
abbrev pub is_plain : ℕ → Bool
is_plain c = ltb 32 c && not (has_code c (codes "!\"#$&'()*;<>?[\\]`{|}~")) && not (eqb c 127)

-- A text that the shell passes on as one word: it is not empty, all its characters are plain, and
-- it does not look like an option of a command.
abbrev pub is_word : Text → Bool
is_word [] = false
is_word (c ∷ t) = not (eqb c b'-') && all is_plain (c ∷ t)

abbrev pub is_word_or_none : Option Text → Bool
is_word_or_none none = true
is_word_or_none (some t) = is_word t

abbrev pub is_sendable : ConfOpt → Bool
is_sendable o = is_word o.section && is_word o.option && is_word_or_none o.value

-- Writing a snapshot back restores the options of the list, and leaves the others as they are.
pub write_all-snapshot :
    (opts : List ConfOpt) (before now : View) (section option : Text)
    → distinct_keys opts ≡ true
    → write_all now (snapshot before opts) section option
      ≡ (if in_keys section option opts then before section option else now section option)
write_all-snapshot [] before now section option d = refl
write_all-snapshot (o ∷ opts) before now section option d =
    elim (Bool-cases (at_key o section option)) [
      | inl here ↦
          let e : section ≡ o.section = text_eq→≡ section o.section (ground arith) in
          let f : option ≡ o.option = text_eq→≡ option o.option (ground arith) in
          rw (e, f)
            (ground (
              arith,
              write_all-snapshot opts (write before o)
                  (write now (record o { value = before o.section o.option })) o.section o.option,
              text_eq_refl o.section,
              text_eq_refl o.option,
            ))
      | inr other ↦ ground (
        arith,
        write_all-snapshot opts (write before o)
            (write now (record o { value = before o.section o.option })) section option,
      )
    ]

write_all_of_absent :
    (opts : List ConfOpt) (view : View) (section option : Text)
    → in_keys section option opts ≡ false
    → write_all view opts section option ≡ view section option
write_all_of_absent [] view section option h = refl
write_all_of_absent (o ∷ opts) view section option h =
    ground (arith, write_all_of_absent opts (write view o) section option)

-- The last write of an option is the one that is seen.
pub write_all-append :
    (before : List ConfOpt) (o : ConfOpt) (behind : List ConfOpt) (view : View)
    → in_keys o.section o.option behind ≡ false
    → write_all view (before ++ (o ∷ behind)) o.section o.option ≡ o.value
write_all-append [] o behind view h = ground (
  arith,
  write_all_of_absent behind (write view o) o.section o.option,
  text_eq_refl o.section,
  text_eq_refl o.option,
)
write_all-append (a ∷ before) o behind view h = write_all-append before o behind (write view a) h

in_keys-snapshot :
    (section option : Text) (opts : List ConfOpt) (view : View)
    → in_keys section option (snapshot view opts) ≡ in_keys section option opts
in_keys-snapshot section option [] view = refl
in_keys-snapshot section option (o ∷ opts) view =
    ap (λ b. at_key o section option || b) (in_keys-snapshot section option opts (write view o))

write_other :
    (view : View) (o : ConfOpt) (section option : Text)
    → at_key o section option ≡ false
    → write view o section option ≡ view section option
write_other view o section option h = rw h refl

write_here :
    (view : View) (o : ConfOpt) (section option : Text)
    → at_key o section option ≡ true
    → write view o section option ≡ o.value
write_here view o section option h = rw h refl

-- The value that a snapshot has for an option is the one before its last entry.
last_snapshot :
    (between : List ConfOpt) (again : ConfOpt) (behind : List ConfOpt) (before now : View)
    → in_keys again.section again.option between ≡ false
    → in_keys again.section again.option behind ≡ false
    → write_all now (snapshot before (between ++ (again ∷ behind))) again.section again.option
      ≡ before again.section again.option
last_snapshot [] again behind before now h k =
    write_all_of_absent (snapshot (write before again) behind) _ again.section again.option
      (in_keys-snapshot again.section again.option behind (write before again) ∙ k)
    ∙ write_here now (record again { value = before again.section again.option }) again.section
        again.option (ground (arith, text_eq_refl again.section, text_eq_refl again.option))
last_snapshot (b ∷ between) again behind before now h k =
    last_snapshot between again behind (write before b)
      (write now (record b { value = before b.section b.option })) (ground arith) k
    ∙ write_other before b again.section again.option (ground arith)

-- Where an option is listed more than once, its snapshot written back leaves the value of its last
-- entry but one.
pub write_all-snapshot_repeated :
    (first : List ConfOpt) (o : ConfOpt) (between : List ConfOpt) (again : ConfOpt)
    (behind : List ConfOpt) (before now : View)
    → o.section ≡ again.section
    → o.option ≡ again.option
    → in_keys again.section again.option between ≡ false
    → in_keys again.section again.option behind ≡ false
    → write_all now
        (snapshot before (first ++ (o ∷ (between ++ (again ∷ behind)))))
        again.section
        again.option
      ≡ o.value
write_all-snapshot_repeated [] o between again behind before now p q h k =
    last_snapshot between again behind (write before o)
      (write now (record o { value = before o.section o.option })) h k
    ∙ write_here before o again.section again.option
        (rw (p, q) (ground (arith, text_eq_refl again.section, text_eq_refl again.option)))
write_all-snapshot_repeated (f ∷ first) o between again behind before now p q h k =
    write_all-snapshot_repeated first o between again behind (write before f)
      (write now (record f { value = before f.section f.option })) p q h k
