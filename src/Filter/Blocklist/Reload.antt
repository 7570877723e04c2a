-- ===== src/Filter/Blocklist/Reload.antt =====
-- Loading and hot-reloading of the blocklist in internal/filter/blocklist.go. A read of the file is
-- an argument, `none` where os.ReadFile fails. A value `err` of the outer result is the exit of
-- the process by `log.Fatalf`, where a hardcoded pattern does not compile.
pub mod Safety
use digital_ghost.Prelude.{
  Text, Bool, true, false, ◌&&◌, ◌||◌, List, [], ◌∷◌, ◌≡◌, ◌≢◌, refl, ap, ◌⊎◌, inl, inr, Option,
  none, some, arith, is_empty, Bool-cases, Option-cases, if◌then◌else◌,
}
use digital_ghost.Prelude.Result.{Result, ok, err, ◌>>=◌}
use digital_ghost.Filter.Blocklist.{
  Libs, BlocklistConfig, CompiledBlocklist, WindowContext, Blocklist, CompileError, compile, check,
  check_compiled, merge_with_defaults,
}
use digital_ghost.Filter.Blocklist.Defaults.{hardcoded_defaults}

pub data LoadError : Type 0 where
  reading parsing : LoadError
  compiling : CompileError → LoadError

-- `nil`, or an error that leaves the receiver as it was.
pub record Loaded : Type 0 where
  pub blocklist : Blocklist
  pub error : Option LoadError

-- An event of the file watcher: the operations that it has, and what a read of the file gives.
pub record FileEvent : Type 0 where
  pub has_write : Bool
  pub has_create : Bool
  pub content : Option Text

module _ (L : Libs) (yaml_unmarshal : Text → Option BlocklistConfig) where
  -- The steps of `loadFromFile` that follow the read.
  unfoldable pub load_data : Text → Blocklist → Result CompileError Loaded
  load_data content bl = elim (yaml_unmarshal content) [
    | none ↦ ok (record { blocklist = bl; error = some parsing })
    | some cfg ↦ elim (compile L cfg) [
      | err e ↦ ok (record { blocklist = bl; error = some (compiling e) })
      | ok c ↦ hardcoded_defaults L >>= λ d. ok (record {
        blocklist = record bl { current = some (merge_with_defaults c d); healthy = true };
        error = none;
      })
    ]
  ]

  unfoldable pub load_from_file : Option Text → Blocklist → Result CompileError Loaded
  load_from_file content bl = elim content [
    | none ↦ ok (record { blocklist = bl; error = some reading })
    | some s ↦ load_data s bl
  ]

  -- The goroutine of `watchFile` at one event.
  unfoldable pub on_event : FileEvent → Blocklist → Result CompileError Blocklist
  on_event e bl =
      if e.has_write || e.has_create
      then (load_from_file e.content bl >>= λ r. ok r.blocklist)
      else ok bl

  unfoldable pub watch : List FileEvent → Blocklist → Result CompileError Blocklist
  watch [] bl = ok bl
  watch (e ∷ es) bl = on_event e bl >>= λ bl'. watch es bl'

  -- `watcher_ok` is whether the file watcher could be started.
  unfoldable pub new_blocklist : Text → Option Text → Bool → Result CompileError Blocklist
  new_blocklist path content watcher_ok = hardcoded_defaults L >>= λ d.
      let bl : Blocklist = record { current = some d; healthy = true; watching = false } in
      if is_empty path
      then ok bl
      else (load_from_file content bl >>= λ r. ok (record r.blocklist { watching = watcher_ok }))

  -- The life of a blocklist: its creation, then the events of its watcher in order.
  unfoldable pub run : Text → Option Text → Bool → List FileEvent → Result CompileError Blocklist
  run path content watcher_ok events = new_blocklist path content watcher_ok >>= watch events

  -- What `Check` answers for a window under a blocklist.
  abbrev pub blocks : Blocklist → WindowContext → Bool
  blocks bl w = (check L bl w).blocked
