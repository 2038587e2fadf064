-- ===== src/Tests/Files.antt =====
-- The host of the tests keeps the laws of `crudini`.
use whitebox_tempest_plugin.Prelude.{
  ℕ, ltb, all, ◌&&◌, both_right, ◌≡◌, refl, ap, ◌∙◌, Bool, true, false, List, [], ◌∷◌, ◌++◌, Option,
  none, some, arith, if◌then◌else◌,
}
use mathlib.Core.Path.{fun_ext}
use mathlib.Core.Option
use whitebox_tempest_plugin.Python.Text.{Text, codes, is_space, text_eq, split, strip, has_part}
use whitebox_tempest_plugin.Python.Text.Laws.{
  lacks, no_space, strip_of_no_space, split-append, split_of_lacks,
}
use whitebox_tempest_plugin.Clients.Ssh.{execute}
use whitebox_tempest_plugin.Clients.ServiceManager.{
  ServiceManager, service_manager, run, crudini_get, crudini_set, crudini_del,
}
use whitebox_tempest_plugin.Clients.ServiceManager.Lifecycle.{IsHarmless, restart-KeepsFile}
use whitebox_tempest_plugin.Clients.ServiceManager.Options.{KeepsFile}
use whitebox_tempest_plugin.Clients.ServiceManager.File.{IsCrudini, Answers}
use whitebox_tempest_plugin.Clients.ServiceManager.View.{View, is_plain, is_word, write}
use whitebox_tempest_plugin.Tests.Host.{Box, reply, host, conf, answer_get, at_place}

abbrev pub manager : ServiceManager
manager = record {
  ssh = record {
    ssh_key = codes "id_rsa";
    ssh_user = codes "stack";
    host_parameters = none;
    ctlplane_address = codes "compute1";
  };
  kind = service_manager;
  service = codes "nova-compute";
  config_path = some (codes "nova.conf");
  start_command = some (codes "start");
  stop_command = some (codes "stop");
  mask_command = none;
  unmask_command = none;
}

-- What the file holds, without the white space round a value.
abbrev pub seen : Box → View
seen box section option = Option.map strip (box.file section option)

plain_char : (c : ℕ) (x y : Bool) → (ltb 32 c && (x && y)) ≡ true → is_space c ≡ false
plain_char c x y h = ground arith

plain_no_space : (t : Text) → all is_plain t ≡ true → no_space t ≡ true
plain_no_space [] h = refl
plain_no_space (c ∷ t) h = ground (arith, plain_no_space t, plain_char c)

word_no_space : (t : Text) → is_word t ≡ true → no_space t ≡ true
word_no_space [] h = cc
word_no_space (c ∷ t) h = plain_no_space (c ∷ t) (both_right _ _ h)

word_lacks : (t : Text) → is_word t ≡ true → lacks b' ' t ≡ true
word_lacks [] h = cc
word_lacks (c ∷ t) h = go (c ∷ t) (word_no_space (c ∷ t) h)
  where
    go : (s : Text) → no_space s ≡ true → lacks b' ' s ≡ true
    go [] h = refl
    go (c ∷ s) h = ground (arith, go s)

strip_word : (t : Text) → is_word t ≡ true → strip t ≡ t
strip_word [] h = cc
strip_word (c ∷ t) h = strip_of_no_space (c ∷ t) (word_no_space (c ∷ t) h)

module _ (section option : Text) (h : is_word section ≡ true) (k : is_word option ≡ true) where
  abbrev words : Text → List Text → List Text
  words flag rest =
      codes "sudo" ∷ codes "crudini" ∷ flag ∷ codes "nova.conf" ∷ section ∷ option ∷ rest

  words_get :
      (s : Box)
      → run host conf manager (crudini_get host conf manager section option) s
        ≡ reply (words (codes "--get") []) s
  unfolding execute crudini_get split
  words_get s =
      rw
        (
          split-append b' ' section option (word_lacks section h),
          split_of_lacks b' ' option (word_lacks option k),
        )
        refl

  words_del :
      (s : Box)
      → run host conf manager (crudini_del host conf manager section option) s
        ≡ reply (words (codes "--del") []) s
  unfolding execute crudini_del split
  words_del s =
      rw
        (
          split-append b' ' section option (word_lacks section h),
          split_of_lacks b' ' option (word_lacks option k),
        )
        refl

  words_set :
      (value : Text)
      → is_word value ≡ true
      → (s : Box)
      → run host conf manager (crudini_set host conf manager section option value) s
        ≡ reply (words (codes "--set") (value ∷ [])) s
  unfolding execute crudini_set split
  words_set value v s =
      rw
        (
          split-append b' ' section (option ++ (b' ' ∷ value)) (word_lacks section h),
          split-append b' ' option value (word_lacks option k),
          split_of_lacks b' ' value (word_lacks value v),
        )
        refl

  answers : (s : Box) → Answers (seen s section option) (reply (words (codes "--get") []) s).0
  unfolding reply text_eq has_part
  answers s = go (s.file section option)
    where
      go : (v : Option Text) → Answers (Option.map strip v) (answer_get v s).0
      go none = (codes "Parameter not found", refl, refl)
      go (some v) = (v, refl, refl)

  map_if :
      (c : Bool) (u v : Option Text)
      → Option.map strip (if c then u else v)
        ≡ (if c then Option.map strip u else Option.map strip v)
  map_if true u v = refl
  map_if false u v = refl

  view-set :
      (value : Text)
      → is_word value ≡ true
      → (s : Box)
      → seen (reply (words (codes "--set") (value ∷ [])) s).1
        ≡ write (seen s) (record { section = section; option = option; value = some value })
  unfolding reply text_eq
  view-set value v s = fun_ext (λ a. fun_ext (λ b.
      map_if (at_place section option a b) (some value) (s.file a b)
      ∙ ap (λ u. if at_place section option a b then some u else Option.map strip (s.file a b))
          (strip_word value v)))

  view-del :
      (s : Box)
      → seen (reply (words (codes "--del") []) s).1
        ≡ write (seen s) (record { section = section; option = option; value = none })
  unfolding reply text_eq
  view-del s = fun_ext (λ a. fun_ext (λ b. map_if (at_place section option a b) none (s.file a b)))

  view-get : (s : Box) → seen (reply (words (codes "--get") []) s).1 ≡ seen s
  unfolding reply text_eq
  view-get s = go (s.file section option)
    where
      go : (v : Option Text) → seen (answer_get v s).1 ≡ seen s
      go none = refl
      go (some v) = refl

pub host-IsCrudini : IsCrudini host conf manager seen
host-IsCrudini = record {
  get_answers =
      λ section option s h k. rw (words_get section option h k s) (answers section option h k s);
  view-get =
      λ section option s h k. rw (words_get section option h k s) (view-get section option h k s);
  set_returns = λ section option value s h.
      rw (words_set section option (ground arith) (ground arith) value (ground arith) s)
        ([], unfold reply text_eq in refl);
  view-set = λ section option value s h.
      rw (words_set section option (ground arith) (ground arith) value (ground arith) s)
        (view-set section option (ground arith) (ground arith) value (ground arith) s);
  del_returns = λ section option s h.
      rw (words_del section option (ground arith) (ground arith) s)
        ([], unfold reply text_eq in refl);
  view-del = λ section option s h.
      rw (words_del section option (ground arith) (ground arith) s)
        (view-del section option (ground arith) (ground arith) s);
}

pub start-IsHarmless : IsHarmless host conf manager seen (some (codes "start"))
start-IsHarmless = record {
  returns = λ s. ([], unfold execute split reply text_eq in refl);
  keeps = λ s. unfold execute split reply text_eq in refl;
}

pub stop-IsHarmless : IsHarmless host conf manager seen (some (codes "stop"))
stop-IsHarmless = record {
  returns = λ s. ([], unfold execute split reply text_eq in refl);
  keeps = λ s. unfold execute split reply text_eq in refl;
}

pub none-IsHarmless : IsHarmless host conf manager seen none
none-IsHarmless = record {
  returns = λ s. ([], unfold execute split reply text_eq in refl);
  keeps = λ s. unfold execute split reply text_eq in refl;
}

pub host-KeepsFile : KeepsFile host conf manager seen
host-KeepsFile =
    restart-KeepsFile host conf manager seen refl start-IsHarmless stop-IsHarmless none-IsHarmless
      none-IsHarmless
