-- ===== src/Clients/ServiceManager/Scripts.antt =====
-- Code that edits the configuration file of a service, at the host and on the abstract file.
use whitebox_tempest_plugin.Prelude.{
  ◌≡◌, refl, ap, ◌∙◌, Bool, true, ◌&&◌, List, [], ◌∷◌, all, arith, Bool-cases, inl, inr,
}
use whitebox_tempest_plugin.Config.{Conf}
use whitebox_tempest_plugin.Exceptions.{Error, Result, ok, err}
use whitebox_tempest_plugin.Exceptions.Action.{Action, pure, raise, resume, ◌>>◌}
use whitebox_tempest_plugin.Python.Text.{Text}
use whitebox_tempest_plugin.Clients.ServiceManager.{
  ServiceManager, ConfOpt, set_conf_opt, enter_options, config_options,
}
use whitebox_tempest_plugin.Clients.ServiceManager.File.{
  IsCrudini, set_conf_opt-Returns, view-set_conf_opt,
}
use whitebox_tempest_plugin.Clients.ServiceManager.Options.{
  KeepsFile, enter_options_lem, config_options_lem,
}
use whitebox_tempest_plugin.Clients.ServiceManager.View.{
  View, at_key, write, write_all, snapshot, is_word_or_none, is_sendable,
}
use whitebox_tempest_plugin.World.{World}

-- What a test does with the file: it sets options, runs code under options, and may raise.
pub data Script : Type 0 where
  set : ConfOpt → Script
  fail : Error → Script
  in_turn : Script → Script → Script
  under : List ConfOpt → Script → Script

abbrev pub has_words : Script → Bool
has_words (set o) = is_sendable o
has_words (fail e) = true
has_words (in_turn a b) = has_words a && has_words b
has_words (under opts a) = all is_sendable opts && has_words a

-- At the host.
unfoldable pub perform :
    (W : World) (conf : Conf) (m : ServiceManager) → Script → Action W.State Unit
perform W conf m (set o) = do set_conf_opt W conf m o.section o.option o.value; pure tt
perform W conf m (fail e) = raise e
perform W conf m (in_turn a b) = perform W conf m a >> perform W conf m b
perform W conf m (under opts a) = config_options W conf m opts (λ u. perform W conf m a)

-- On the abstract file: options are written over it, and behind the code the values from before are
-- written back, whether the code returned or raised.
unfoldable pub carry_out : Script → Action View Unit
carry_out (set o) v = (ok tt, write v o)
carry_out (fail e) v = (err e, v)
carry_out (in_turn a b) v = (carry_out a >> carry_out b) v
carry_out (under opts a) v = (
  (carry_out a (write_all v opts)).0,
  write_all (carry_out a (write_all v opts)).1 (snapshot v opts),
)

-- All values in the file are single words.
abbrev pub HasWords : View → Type 0
HasWords v = (section option : Text) → is_word_or_none (v section option) ≡ true

write-HasWords : (v : View) (o : ConfOpt) → is_sendable o ≡ true → HasWords v → HasWords (write v o)
write-HasWords v o h w section option = elim (Bool-cases (at_key o section option)) [
  | inl here ↦ rw here (ground arith)
  | inr other ↦ rw other (w section option)
]

write_all-HasWords :
    (opts : List ConfOpt) (v : View)
    → all is_sendable opts ≡ true
    → HasWords v
    → HasWords (write_all v opts)
write_all-HasWords [] v h w = w
write_all-HasWords (o ∷ opts) v h w =
    write_all-HasWords opts (write v o) (ground arith) (write-HasWords v o (ground arith) w)

is_sendable-snapshot :
    (opts : List ConfOpt) (v : View)
    → all is_sendable opts ≡ true
    → HasWords v
    → all is_sendable (snapshot v opts) ≡ true
is_sendable-snapshot [] v h w = refl
is_sendable-snapshot (o ∷ opts) v h w =
    ground (arith, is_sendable-snapshot opts (write v o), write-HasWords v o, w o.section o.option)

resume-HasWords :
    (r : Result (Unit {0})) (v : View) (next : Action View Unit)
    → HasWords v
    → HasWords (next v).1
    → HasWords (resume r (λ u. next) v).1
resume-HasWords (ok u) v next w k = k
resume-HasWords (err e) v next w k = w

carry_out-HasWords :
    (a : Script) (v : View) → has_words a ≡ true → HasWords v → HasWords (carry_out a v).1
unfolding carry_out
carry_out-HasWords (set o) v h w = write-HasWords v o h w
carry_out-HasWords (fail e) v h w = w
carry_out-HasWords (in_turn a b) v h w =
    let first = carry_out-HasWords a v (ground arith) w in
    resume-HasWords (carry_out a v).0 (carry_out a v).1 (carry_out b) first
      (carry_out-HasWords b (carry_out a v).1 (ground arith) first)
carry_out-HasWords (under opts a) v h w =
    let sent : all is_sendable opts ≡ true = ground arith in
    let entered = write_all-HasWords opts v sent w in
    write_all-HasWords (snapshot v opts) (carry_out a (write_all v opts)).1
      (is_sendable-snapshot opts v sent w)
      (carry_out-HasWords a (write_all v opts) (ground arith) entered)

-- An outcome at the host shows an outcome on the abstract file.
abbrev pub Shows :
    {S : Type 0} → (S → View) → Result (Unit {0}) × S → Result (Unit {0}) × View → Type 0
Shows view (r, s) (q, v) = (r ≡ q) × (view s ≡ v)

module _ {S : Type 0} (view : S → View) where
  resume-Shows :
      (r : Result (Unit {0})) (s : S) (q : Result (Unit {0})) (v : View) (next : Action S Unit)
      (after : Action View Unit)
      → Shows view (r, s) (q, v)
      → Shows view (next s) (after (view s))
      → Shows view (resume r (λ u. next) s) (resume q (λ u. after) v)
  resume-Shows (ok u) s q v next after (e, f) h = rw (← e, ← f) h
  resume-Shows (err x) s q v next after (e, f) h = rw (← e, ← f) (refl, refl)

module _ (W : World) (conf : Conf) (m : ServiceManager) (view : W.State → View)
    (C : IsCrudini W conf m view) (K : KeepsFile W conf m view) where
  -- Where crudini edits the file, and every restart returns and leaves it alone, code that sets options, nests
  -- config_options in each other or in sequence, and may raise in between, does to the file what it does
  -- to the abstract file, and returns or raises the same; all values are single words.
  pub perform-Shows :
      (a : Script) (s : W.State)
      → has_words a ≡ true
      → HasWords (view s)
      → Shows view (perform W conf m a s) (carry_out a (view s))
  unfolding perform carry_out
  perform-Shows (set o) s h w =
      let (out, e) = set_conf_opt-Returns W conf m view C o s h in
      rw e (refl, view-set_conf_opt W conf m view C o s h)
  perform-Shows (fail e) s h w = (refl, refl)
  perform-Shows (in_turn a b) s h w =
      let first = perform-Shows a s (ground arith) w in
      let s' = (perform W conf m a s).1 in
      let words : HasWords (view s') =
        rw first.1 (carry_out-HasWords a (view s) (ground arith) w) in
      resume-Shows view (perform W conf m a s).0 s' (carry_out a (view s)).0
        (carry_out a (view s)).1 (perform W conf m b) (carry_out b) first
        (perform-Shows b s' (ground arith) words)
  perform-Shows (under opts a) s h w =
      let sent : all is_sendable opts ≡ true = ground arith in
      let (e, v) =
        config_options_lem W conf m view C K opts (λ u. perform W conf m a) s sent
          (is_sendable-snapshot opts (view s) sent w) in
      let entered = (enter_options W conf m opts s).1 in
      let shown = (enter_options_lem W conf m view C K opts s sent).1 in
      let words : HasWords (view entered) = rw shown (write_all-HasWords opts (view s) sent w) in
      let inner = perform-Shows a entered (ground arith) words in
      (
        e ∙ inner.0 ∙ ap (λ x. (carry_out a x).0) shown,
        v
            ∙ ap (λ x. write_all x (snapshot (view s) opts))
                (inner.1 ∙ ap (λ x. (carry_out a x).1) shown),
      )
