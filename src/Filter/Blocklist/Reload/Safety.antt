-- ===== src/Filter/Blocklist/Reload/Safety.antt =====
-- Reloads of internal/filter/blocklist.go against the hardcoded defaults.
use digital_ghost.Prelude.{
  Text, Bool, true, false, ◌||◌, List, [], ◌∷◌, ◌≡◌, ◌≢◌, refl, ap, ◌∙◌, ◌⊎◌, inl, inr, Option,
  none, some, arith, is_empty, Bool-cases, Option-cases,
}
use digital_ghost.Prelude.Result.{ok, Returns, Returns-bind, Returns-map, Result-cases}
use digital_ghost.Filter.Blocklist.{
  Libs, BlocklistConfig, CompiledBlocklist, WindowContext, Blocklist, compile, check,
  check_compiled, merge_with_defaults,
}
use digital_ghost.Filter.Blocklist.Defaults.{hardcoded_defaults}
use digital_ghost.Filter.Blocklist.Merge.{merge-blocked}
use digital_ghost.Filter.Blocklist.Reload.{
  Loaded, FileEvent, load_data, load_from_file, on_event, watch, new_blocklist, run, blocks,
}

pub data Outcome (L : Libs) (yaml_unmarshal : Text → Option BlocklistConfig) (d : CompiledBlocklist)
    (content : Option Text) (bl : Blocklist) (r : Loaded) : Type 0 where
  kept : r.error ≢ none → r.blocklist ≡ bl → Outcome L yaml_unmarshal d content bl r
  merged :
      (s : Text) (cfg : BlocklistConfig) (c : CompiledBlocklist)
      → content ≡ some s
      → yaml_unmarshal s ≡ some cfg
      → compile L cfg ≡ ok c
      → r.error ≡ none
      → r.blocklist.current ≡ some (merge_with_defaults c d)
      → Outcome L yaml_unmarshal d content bl r

module _ (L : Libs) (yaml_unmarshal : Text → Option BlocklistConfig) {d : CompiledBlocklist}
    (valid : hardcoded_defaults L ≡ ok d) where
  load_data_lem :
      (s : Text) (bl : Blocklist)
      → Returns (Outcome L yaml_unmarshal d (some s) bl) (load_data L yaml_unmarshal s bl)
  unfolding load_data
  load_data_lem s bl = elim (Option-cases (yaml_unmarshal s)) [
    | inl e ↦ rw (e, load_data) (kept (λ h. cc) refl)
    | inr (cfg, e) ↦ elim (Result-cases (compile L cfg)) [
      | inl (c, q) ↦
          rw (e, load_data)
            (rw (q, load_data) (rw (valid, load_data) (merged s cfg c refl e q refl refl)))
      | inr (x, q) ↦ rw (e, load_data) (rw (q, load_data) (kept (λ h. cc) refl))
    ]
  ]

  -- If the hardcoded patterns compile, a load of the blocklist file either returns an error and
  -- leaves the blocklist as it was, or the file reads, parses and compiles and its entries are
  -- merged with the defaults.
  load_from_file_lem :
      (content : Option Text) (bl : Blocklist)
      → Returns (Outcome L yaml_unmarshal d content bl) (load_from_file L yaml_unmarshal content bl)
  unfolding load_from_file
  load_from_file_lem none bl = kept (λ h. cc) refl
  load_from_file_lem (some s) bl = load_data_lem s bl

  -- What the hardcoded defaults block is blocked.
  abbrev pub Guards : Blocklist → Type 0
  Guards bl =
      (w : WindowContext)
      → (check_compiled L d w).blocked ≡ true
      → blocks L yaml_unmarshal bl w ≡ true

  Outcome-Guards :
      (content : Option Text) (bl : Blocklist) (r : Loaded)
      → Guards bl
      → Outcome L yaml_unmarshal d content bl r
      → Guards r.blocklist
  unfolding check
  Outcome-Guards content bl r g (kept failed same) w h = rw same (g w h)
  Outcome-Guards content bl r g (merged s cfg c e1 e2 e3 e4 now) w h =
      ground (arith, merge-blocked L c d w)

  on_event-Guards :
      (e : FileEvent) (bl : Blocklist) → Guards bl → Returns Guards (on_event L yaml_unmarshal e bl)
  unfolding on_event
  on_event-Guards e bl g = elim (Bool-cases (e.has_write || e.has_create)) [
    | inl q ↦ rw q (
        Returns-bind (Outcome L yaml_unmarshal d e.content bl) Guards _ _
          (load_from_file_lem e.content bl) (λ r o. Outcome-Guards e.content bl r g o))
    | inr q ↦ rw q g
  ]

  watch-Guards :
      (es : List FileEvent) (bl : Blocklist)
      → Guards bl
      → Returns Guards (watch L yaml_unmarshal es bl)
  unfolding watch
  watch-Guards [] bl g = g
  watch-Guards (e ∷ es) bl g =
      Returns-bind Guards Guards _ _ (on_event-Guards e bl g) (watch-Guards es)

  new_blocklist-Guards :
      (path : Text) (content : Option Text) (watcher_ok : Bool)
      → Returns Guards (new_blocklist L yaml_unmarshal path content watcher_ok)
  unfolding new_blocklist check
  new_blocklist-Guards path content watcher_ok = elim (Bool-cases (is_empty path)) [
    | inl e ↦ rw (valid, new_blocklist) (rw e (λ w h. h))
    | inr e ↦
        rw (valid, new_blocklist)
          (rw e (Returns-bind (λ (r : Loaded). Guards r.blocklist) Guards _ _ from_file (λ r g. g)))
  ]
    where
      first : Blocklist
      first = record { current = some d; healthy = true; watching = false }

      from_file : Returns (λ r. Guards r.blocklist) (load_from_file L yaml_unmarshal content first)
      from_file =
          Returns-map _ (load_from_file_lem content first)
            (λ r o. Outcome-Guards content first r (λ w h. h) o)

  -- Whatever the file holds at the start and at each later event, the process goes on, and a window
  -- that the hardcoded defaults block is blocked.
  pub run-Guards :
      (path : Text) (content : Option Text) (watcher_ok : Bool) (events : List FileEvent)
      → Returns Guards (run L yaml_unmarshal path content watcher_ok events)
  unfolding run
  run-Guards path content watcher_ok events =
      Returns-bind Guards Guards _ _ (new_blocklist-Guards path content watcher_ok)
        (watch-Guards events)

  load_unread :
      (content : Option Text) (bl : Blocklist)
      → (content ≡ none) ⊎ ((s : Text) × (content ≡ some s) × (yaml_unmarshal s ≡ none))
      → Returns (λ r. r.blocklist ≡ bl) (load_from_file L yaml_unmarshal content bl)
  unfolding load_from_file load_data
  load_unread none bl h = refl
  load_unread (some s) bl (inl e) = cc
  load_unread (some s) bl (inr (t, e, q)) = rw (unread, load_data) refl
    where
      unread : yaml_unmarshal s ≡ none
      unread = let same : s ≡ t = cc in ap yaml_unmarshal same ∙ q

  -- If the hardcoded patterns compile and the blocklist file cannot be read or does not parse at
  -- the start, the new blocklist blocks a window exactly if the hardcoded defaults do: the other
  -- windows pass.
  new_blocklist_fallback :
      (path : Text) (content : Option Text) (watcher_ok : Bool) (w : WindowContext)
      → (content ≡ none) ⊎ ((s : Text) × (content ≡ some s) × (yaml_unmarshal s ≡ none))
      → Returns
          (λ bl. blocks L yaml_unmarshal bl w ≡ (check_compiled L d w).blocked)
          (new_blocklist L yaml_unmarshal path content watcher_ok)
  unfolding check new_blocklist
  new_blocklist_fallback path content watcher_ok w h = elim (Bool-cases (is_empty path)) [
    | inl e ↦ rw (valid, new_blocklist) (rw e refl)
    | inr e ↦
        rw (valid, new_blocklist)
          (rw e (
            Returns-bind (λ (r : Loaded). r.blocklist ≡ first) _ _ _ (load_unread content first h)
              (λ r same. rw same refl)))
  ]
    where
      first : Blocklist
      first = record { current = some d; healthy = true; watching = false }
