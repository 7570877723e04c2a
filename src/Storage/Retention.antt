-- ===== src/Storage/Retention.antt =====
-- internal/storage/retention.go: the sweep of old nodes, the wipe, the time of the next sweep, and the
-- overwriting of a file before it is removed.
pub mod Sweep
pub mod Schedule
pub mod Wipe
pub mod Overwrite
pub mod Tests
use digital_ghost.Prelude.{
  ℕ, suc, ◌+◌, ◌-◌, ◌*◌, ◌/◌, ◌%◌, min, ltb, leb, Text, Bool, true, false, List, [], ◌∷◌, ◌++◌,
  Option, none, some, not, is_empty, is_some, length, lit, replicate, if◌then◌else◌, ◌&&◌, drop,
  text_eq, map, select,
}
use digital_ghost.Prelude.Result.{Result, ok, err}
use digital_ghost.Storage.Time.{Time}
use digital_ghost.Storage.Hex.{NodeId}
use digital_ghost.Storage.Encrypt.{Crypto}
use digital_ghost.Storage.JsonStore.{IndexCodec, RemoveEnv, StoreError}
use digital_ghost.Storage.JsonStore.Records.{list_older_than}
use digital_ghost.Storage.VectorStore.{Store, delete_all, close_store}
use digital_ghost.Storage.Keychain.{Keychain, KeyManager, KeyError, delete_key}

abbrev pub hour : ℕ
hour = 3600 * 1000000000

abbrev pub day : ℕ
day = 24 * hour

-- now.AddDate(0, 0, -days), where the local clock is not changed in between.
abbrev pub cutoff : Time → ℕ → Time
cutoff now days = now - days * day

pub data SweepError : Type 0 where
  list_failed : StoreError → SweepError
  -- how many of how many deletions failed
  deletions_failed : ℕ → ℕ → SweepError

abbrev pub sweep_result : {F : Type 0} → ℕ → Store F × ℕ → Store F × Option SweepError
sweep_result total (s, failed) =
    (s, if ltb 0 failed then some (deletions_failed failed total) else none)

module _ {F : Type 0} (C : Crypto) (K : IndexCodec) where
  unfoldable pub sweep :
      (ℕ → RemoveEnv) → Time → (retention_days : ℕ) → Store F → Store F × Option SweepError
  sweep envs now retention_days s =
      elim (list_older_than C K s.encryptor (cutoff now retention_days) s.disk) [
        | err x ↦ (s, some (list_failed x))
        | ok ids ↦ sweep_result (length ids) (delete_all C K envs 0 ids 0 s)
      ]

  -- The sweeps at some times, whose errors are only logged.
  unfoldable pub sweep_all :
      List (Time × (ℕ → RemoveEnv)) → (retention_days : ℕ) → Store F → Store F
  unfolding sweep
  sweep_all [] retention_days s = s
  sweep_all ((now, envs) ∷ rounds) retention_days s =
      sweep_all rounds retention_days (sweep envs now retention_days s).0

  -- RunScheduled: a sweep at the start, and one each time that the timer fires before the stop.
  unfoldable pub run_scheduled :
      (start : Time × (ℕ → RemoveEnv))
      → (fired : List (Time × (ℕ → RemoveEnv))) → (retention_days : ℕ) → Store F
      → Store F
  unfolding sweep_all
  run_scheduled start fired retention_days s = sweep_all (start ∷ fired) retention_days s

-- The next 2 AM, where the local clock is not changed before it: `zone` is the
-- offset of the zone modulo a day.
unfoldable pub next_sweep_time : (zone : ℕ) → Time → Time
next_sweep_time zone now =
    let midnight = (now + zone) / day * day in
    let next = midnight + 2 * hour in (if ltb next (now + zone) then next + day else next) - zone

-- The data directory by the names in it, the keychain, and the manager of the key.
pub record Machine (F : Type 0) : Type 0 where
  pub store : Store F
  pub dir : List Text
  pub keychain : Keychain
  pub key_manager : KeyManager

-- What the system does in a wipe: whether the directory can be read (one that is not there is empty),
-- which of its entries can be removed, securely or at all, whether the removal of the consent record
-- works, and whether the keychain removes the key.
pub record WipeEnv : Type 0 where
  pub readable : Bool
  pub secure : Text → Bool
  pub removable : Text → Bool
  pub consent_removed : Bool
  pub key_deleted : Bool

pub data WipeError : Type 0 where
  dir_not_read : WipeError
  key_not_deleted : KeyError → WipeError

-- A secure deletion that fails falls back to a regular one.
abbrev pub entry_removed : WipeEnv → (secure_delete : Bool) → Text → Bool
entry_removed env true name = if env.secure name then true else env.removable name
entry_removed env false name = env.removable name

abbrev pub wiped :
    {F : Type 0}
    → Store F
    → List Text
    → Keychain × KeyManager × Option KeyError
    → Machine F × Option WipeError
wiped s dir (k, km, none) = (record { store = s; dir = dir; keychain = k; key_manager = km }, none)
wiped s dir (k, km, some x) =
    (record { store = s; dir = dir; keychain = k; key_manager = km }, some (key_not_deleted x))

-- os.Remove of the consent record, which the loop over the entries may have left.
abbrev pub remove_consent : WipeEnv → List Text → List Text
remove_consent env dir =
    select (λ name. not (env.consent_removed && text_eq name (lit "consent.json"))) dir

unfoldable pub wipe_all :
    {F : Type 0} → WipeEnv → (secure_delete : Bool) → Machine F → Machine F × Option WipeError
wipe_all env secure_delete m =
    let s = close_store m.store in
    if not env.readable
    then (
      record { store = s; dir = m.dir; keychain = m.keychain; key_manager = m.key_manager },
      some dir_not_read,
    )
    else wiped s
        (remove_consent env (select (λ name. not (entry_removed env secure_delete name)) m.dir))
        (delete_key env.key_deleted m.keychain m.key_manager)
