-- ===== src/Api/Deletion.antt =====
-- handleDelete of internal/api/server.go.
pub mod Cleared
use digital_ghost.Prelude.{
  ℕ, ◌+◌, ◌-◌, ◌*◌, Text, Bool, not, text_eq, Option, none, some, lit, if◌then◌else◌,
}
use digital_ghost.Prelude.Result.{Result, ok, err}
use digital_ghost.Storage.Time.{Time}
use digital_ghost.Storage.Encrypt.{Crypto}
use digital_ghost.Storage.JsonStore.{IndexCodec, RemoveEnv, StoreError}
use digital_ghost.Storage.VectorStore.{Store, delete_range}
use digital_ghost.Storage.Retention.{day}
use digital_ghost.Api.Types.{Request, Body, error_message, deleted, Response, json}

-- time.Now, the start of the local day, and what the system does in each removal.
pub record DeleteEnv : Type 0 where
  pub now : Time
  pub midnight : Time
  pub removes : ℕ → RemoveEnv

abbrev pub second : ℕ
second = 1000000000

-- The start of the range, where the local clock is not changed in between; 0 is the zero time.
unfoldable pub range_start : DeleteEnv → Text → Option Time
unfolding lit text_eq
range_start env range =
    if text_eq range (lit "today")
    then some env.midnight
    else if text_eq range (lit "week")
    then some (env.now - 7 * day)
    else if text_eq range (lit "month")
    then some (env.now - 30 * day)
    else if text_eq range (lit "all")
    then some 0
    else none

-- The store and the number of deleted nodes: an error is only logged.
abbrev pub deletion : {F : Type 0} → Store F → Result StoreError (Store F × ℕ × Bool) → Store F × ℕ
deletion s (err e) = (s, 0)
deletion s (ok (s', n, some_failed)) = (s', n)

abbrev pub delete_reply : {F : Type 0} → Text → Store F × ℕ → Store F × Response F
delete_reply range (s, n) = (s, json 200 (deleted n range))

abbrev pub refuse : {F : Type 0} → ℕ → Text → Store F → Store F × Response F
refuse code why s = (s, json code (error_message why))

module _ {F : Type 0} (C : Crypto) (K : IndexCodec) where
  unfoldable pub handle_delete :
      (csrf_token : Text) → DeleteEnv → Request → Store F → Store F × Response F
  unfolding range_start lit text_eq
  handle_delete csrf_token env r s =
      if not (text_eq r.method (lit "POST"))
      then refuse 405 (lit "use POST") s
      else if not (text_eq r.csrf_header csrf_token)
      then refuse 403 (lit "invalid or missing CSRF token") s
      else elim (range_start env r.range) [
        | none ↦ refuse 400 (lit "range must be one of: today, week, month, all") s
        | some after ↦
            delete_reply r.range
              (deletion s (delete_range C K env.removes after (env.now + second) s))
      ]
