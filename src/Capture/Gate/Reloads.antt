-- ===== src/Capture/Gate/Reloads.antt =====
-- The gate of internal/capture/privacy.go over a blocklist that is reloaded while it runs.
use digital_ghost.Prelude.{
  Text, Bool, true, false, List, ◌≡◌, sym, ◌∙◌, false≢true, ◌⊎◌, inl, inr, Option, Any, All-Any,
  Bool-cases,
}
use mathlib.Core.Path.{subst}
use digital_ghost.Prelude.Result.{ok, Returns, Returns-map}
use digital_ghost.Filter.Blocklist.{
  Libs, BlocklistConfig, CompiledBlocklist, WindowContext, Blocklist, check_compiled,
}
use digital_ghost.Filter.Blocklist
use digital_ghost.Filter.Blocklist.Defaults.{hardcoded_defaults}
use digital_ghost.Filter.Blocklist.Reload.{FileEvent, run}
use digital_ghost.Filter.Blocklist.Reload.Safety.{Guards, run-Guards}
use digital_ghost.Capture.Gate.{Gate, WindowMetadata, to_context, process_only, check}
use digital_ghost.Capture.Gate.Safety.{IsAllowed, check_pass_iff}

module _ (L : Libs) (yaml_unmarshal : Text → Option BlocklistConfig) {d : CompiledBlocklist}
    (valid : hardcoded_defaults L ≡ ok d) where
  -- The gate refuses a capture where the defaults block the window, or a process behind it.
  abbrev pub Refuses : Blocklist → Type 0
  Refuses bl =
      (paused : Bool) (m : WindowMetadata) (background : List Text)
      → ((check_compiled L d (to_context m)).blocked ≡ true)
        ⊎ Any (λ p. (check_compiled L d (process_only p)).blocked ≡ true) background
      → (check L (record { blocklist = bl; paused = paused }) (ok m) background).blocked ≡ true

  clash :
      (bl : Blocklist) (w : WindowContext)
      → Guards L yaml_unmarshal valid bl
      → (Blocklist.check L bl w).blocked ≡ false
      → (check_compiled L d w).blocked ≡ true
      → ⊥
  clash bl w g pass h = false≢true (sym pass ∙ g w h)

  not_allowed :
      (g : Gate) (m : WindowMetadata) (background : List Text)
      → Guards L yaml_unmarshal valid g.blocklist
      → ((check_compiled L d (to_context m)).blocked ≡ true)
        ⊎ Any (λ p. (check_compiled L d (process_only p)).blocked ≡ true) background
      → IsAllowed L g m background
      → ⊥
  not_allowed g m background k (inl h) a = clash g.blocklist (to_context m) k a.foreground h
  not_allowed g m background k (inr h) a =
      All-Any background (λ p. clash g.blocklist (process_only p) k) a.behind h

  refuse : (bl : Blocklist) → Guards L yaml_unmarshal valid bl → Refuses bl
  refuse bl k paused m background h = elim (Bool-cases (check L g (ok m) background).blocked) [
    | inl e ↦ e
    | inr e ↦
        let (n, same, a) = (check_pass_iff L g (ok m) background).0 e in
        let it : n ≡ m = cc same in
        absurd (not_allowed g m background k h (subst (λ w. IsAllowed L g w background) it a))
  ]
    where
      g : Gate
      g = record { blocklist = bl; paused = paused }

  -- If the hardcoded patterns compile, then whatever the blocklist file held at the start and at
  -- each later event, the blocklist keeps running, and the gate refuses a capture if the
  -- hardcoded defaults block the window in front or the name of a process behind it.
  pub gate-Refuses :
      (path : Text) (content : Option Text) (watcher_ok : Bool) (events : List FileEvent)
      → Returns Refuses (run L yaml_unmarshal path content watcher_ok events)
  gate-Refuses path content watcher_ok events =
      Returns-map _ (run-Guards L yaml_unmarshal valid path content watcher_ok events) refuse
