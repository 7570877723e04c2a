-- ===== src/Storage/Retention/Wipe.antt =====
-- What is left after a wipe, and when the next sweep is due.
use digital_ghost.Prelude.{
  ℕ, ◌+◌, ◌*◌, ◌%◌, ◌≤◌, ◌<◌, ◌≡◌, ◌≢◌, ◌⊎◌, Text, Bool, true, false, Option, none, some, arith,
  All, select, not, ◌&&◌, text_eq, lit,
}
use digital_ghost.Storage.Time.{Time}
use digital_ghost.Storage.Keychain.{Keychain, locked, no_entry, delete_failed}
use digital_ghost.Storage.Retention.{
  Machine, WipeEnv, WipeError, dir_not_read, key_not_deleted, next_sweep_time, hour, day,
}

-- Whether a name is still in the directory after a wipe that could read it: it was removed neither by
-- the overwriting, where that is on, nor by the regular removal, nor as the consent record.
abbrev pub stays : WipeEnv → (secure_delete : Bool) → Text → Bool
stays env secure_delete name =
    not (secure_delete && env.secure name)
    && not (env.removable name)
    && not (env.consent_removed && text_eq name (lit "consent.json"))

-- The entry of the keychain is gone, and there is no error; or it could not be removed, which is the
-- error.
abbrev pub KeyOutcome : {F : Type 0} → WipeEnv → Machine F → Machine F × Option WipeError → Type 0
KeyOutcome env m r =
    (m.keychain ≢ locked)
      × ((m.keychain ≡ no_entry) ⊎ (env.key_deleted ≡ true))
      × (r.0.keychain ≡ no_entry)
      × (r.1 ≡ none)
    ⊎ ((m.keychain ≢ no_entry)
        × ((m.keychain ≡ locked) ⊎ (env.key_deleted ≡ false))
        × (r.0.keychain ≡ m.keychain)
        × (r.1 ≡ some (key_not_deleted delete_failed)))

-- The wipe went on to its end, whether or not the entry of the keychain could be removed.
pub record Removed {F : Type 0} (env : WipeEnv) (secure_delete : Bool) (m : Machine F)
    (r : Machine F × Option WipeError) : Type 0 where
  pub readable : env.readable ≡ true
  pub dir : r.0.dir ≡ select (stays env secure_delete) m.dir
  pub manager_key : All (λ b. b ≡ 0) r.0.key_manager.key
  pub key : KeyOutcome env m r

-- The wipe stopped at the directory.
pub record Unread {F : Type 0} (env : WipeEnv) (m : Machine F) (r : Machine F × Option WipeError)
    : Type 0 where
  pub unreadable : env.readable ≡ false
  pub error : r.1 ≡ some dir_not_read
  pub dir : r.0.dir ≡ m.dir
  pub keychain : r.0.keychain ≡ m.keychain
  pub manager : r.0.key_manager ≡ m.key_manager

abbrev pub Wiped : {F : Type 0} → WipeEnv → Bool → Machine F → Machine F × Option WipeError → Type 0
Wiped env secure_delete m r =
    All (λ b. b ≡ 0) r.0.store.encryptor.key × (Removed env secure_delete m r ⊎ Unread env m r)

-- The time is the first 2 AM of the zone that is not in the past.
pub record IsNextSweep (zone : ℕ) (now next : Time) : Type 0 where
  pub not_past : now ≤ next
  pub first : next < now + day
  pub two_am : (next + zone) % day ≡ 2 * hour

-- The next sweep is at 2 AM of the zone, not in the past, and less than a day ahead.
next_sweep_time_lem :
    (zone : ℕ) (now : Time) → zone ≤ now → IsNextSweep zone now (next_sweep_time zone now)
unfolding next_sweep_time
next_sweep_time_lem zone now h = record {
  not_past = ground arith;
  first = ground arith;
  two_am = ground arith;
}
