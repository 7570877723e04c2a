-- ===== src/Capture/Monitor/Private.antt =====
-- The monitor loop with the gate over a blocklist that is reloaded while the loop runs.
use digital_ghost.Prelude.{
  ◌≡◌, ◌≢◌, sym, ap, ◌∙◌, inl, inr, false≢true, Text, Bool, false, List, Option, All, All-mono,
  All-Any, lit, ℤ, Bool-cases,
}
use mathlib.Core.Path.{subst}
use digital_ghost.Prelude.Result.{Result, ok, Returns, ok-injective}
use digital_ghost.Filter.Blocklist.{
  Libs, BlocklistConfig, CompiledBlocklist, Blocklist, check_compiled,
}
use digital_ghost.Filter.Blocklist
use digital_ghost.Filter.Blocklist.Defaults.{hardcoded_defaults}
use digital_ghost.Filter.Blocklist.Reload.{FileEvent, run}
use digital_ghost.Filter.Blocklist.Reload.Safety.{Guards, run-Guards}
use digital_ghost.Capture.Gate.{Gate, WindowMetadata, to_context, check}
use digital_ghost.Capture.Gate.Safety.{check_pass_iff, check-window_ctx}
use digital_ghost.Capture.Downscale.{ScaleMath}
use digital_ghost.Capture.Monitor.{Hashing, Frame, MonitorLoop, TickEnv, run_ticks}
use digital_ghost.Capture.Monitor.Frames.{IsFrom, run_ticks-Sent}

module _ (L : Libs) (yaml_unmarshal : Text → Option BlocklistConfig) (path : Text)
    (content : Option Text) (watcher_ok : Bool) where
  -- The answer of the gate in a tick is that of a check under the blocklist as it is after some
  -- events of its file, whether the user has paused or not.
  pub record IsGated (env : TickEnv) : Type 0 where
    pub events : List FileEvent
    pub blocklist : Blocklist
    pub loaded : run L yaml_unmarshal path content watcher_ok events ≡ ok blocklist
    pub paused : Bool
    pub metadata : Result Text WindowMetadata
    pub background : List Text
    pub answer :
        env.gate ≡ check L (record { blocklist = blocklist; paused = paused }) metadata background

-- The defaults do not block the window of a frame, and no password field had the focus.
pub record IsPrivate {H : Type 0} (L : Libs) (d : CompiledBlocklist) (f : Frame H) : Type 0 where
  pub passes : (check_compiled L d f.window_ctx).blocked ≡ false
  pub no_password : f.window_ctx.focused_input_role ≢ lit "password"

module _ (L : Libs) (yaml_unmarshal : Text → Option BlocklistConfig) {d : CompiledBlocklist}
    (valid : hardcoded_defaults L ≡ ok d) where
  loaded-Guards :
      (path : Text) (content : Option Text) (watcher_ok : Bool) (events : List FileEvent)
      (bl : Blocklist)
      → run L yaml_unmarshal path content watcher_ok events ≡ ok bl
      → Guards L yaml_unmarshal valid bl
  loaded-Guards path content watcher_ok events bl e =
      subst (λ r. Returns (Guards L yaml_unmarshal valid) r) e
        (run-Guards L yaml_unmarshal valid path content watcher_ok events)

  passes-check :
      (bl : Blocklist) (m : WindowMetadata)
      → Guards L yaml_unmarshal valid bl
      → (Blocklist.check L bl (to_context m)).blocked ≡ false
      → (check_compiled L d (to_context m)).blocked ≡ false
  passes-check bl m g pass = elim (Bool-cases (check_compiled L d (to_context m)).blocked) [
    | inr e ↦ e
    | inl e ↦ absurd (false≢true (sym pass ∙ g (to_context m) e))
  ]

  module _ {F H : Type 0} (S : ScaleMath F) (hashing : Hashing H) (path : Text)
      (content : Option Text) (watcher_ok : Bool) where
    IsFrom-IsPrivate :
        (f : Frame H) (env : TickEnv)
        → IsGated L yaml_unmarshal path content watcher_ok env
        → IsFrom S hashing f env
        → IsPrivate L d f
    unfolding to_context
    IsFrom-IsPrivate f env g (passed, window, time) =
        let gate : Gate = record { blocklist = g.blocklist; paused = g.paused } in
        let let_through = sym (ap (λ r. r.blocked) g.answer) ∙ passed in
        let (m, q, allowed) = (check_pass_iff L gate g.metadata g.background).0 let_through in
        let (n, p, ctx) = (check-window_ctx L gate g.metadata g.background).1 let_through in
        let same = ok-injective n m p q in
        let shown : f.window_ctx ≡ to_context m =
          window ∙ ap (λ r. r.window_ctx) g.answer ∙ ctx ∙ ap to_context same in
        record {
          passes =
              ap (λ w. (check_compiled L d w).blocked) shown
              ∙ passes-check g.blocklist m
                  (loaded-Guards path content watcher_ok g.events g.blocklist g.loaded)
                  allowed.foreground;
          no_password = λ e. allowed.no_password (sym (ap (λ w. w.focused_input_role) shown) ∙ e);
        }

    -- If the hardcoded patterns compile, and in each tick of a monitor loop the gate answers by a
    -- check under the blocklist as it is after some events of its file, whatever that file holds,
    -- then in each frame that the loop sends the hardcoded defaults do not block the window and
    -- no password field has the focus, as the gate was told of them.
    pub run_ticks-IsPrivate :
        (threshold idle_sec : ℤ) (es : List TickEnv) (m : MonitorLoop H)
        → All (IsGated L yaml_unmarshal path content watcher_ok) es
        → All (IsPrivate L d) (run_ticks S hashing threshold idle_sec es m).1
    run_ticks-IsPrivate threshold idle_sec es m gated =
        All-mono _ (λ f from. All-Any es (λ env g h. IsFrom-IsPrivate f env g h) gated from)
          (run_ticks-Sent S hashing threshold idle_sec es m).1
