-- ===== src/Storage/Retention/Schedule.antt =====
-- What the sweeps of a running daemon leave in the index.
use digital_ghost.Prelude.{
  ℕ, ◌≡◌, refl, sym, ap, Bool, false, ◌||◌, not, List, [], ◌∷◌, All, any, select, arith, inl, inr,
  text_eq, Bool-cases,
}
use mathlib.Core.Path.{subst}
use digital_ghost.Storage.Time.{Time}
use digital_ghost.Storage.Encrypt.{Crypto, IsCrypto}
use digital_ghost.Storage.JsonStore.{IndexEntry, IndexCodec, RemoveEnv}
use digital_ghost.Storage.JsonStore.Index.Laws.{IsCodec, Holds}
use digital_ghost.Storage.VectorStore.{Store}
use digital_ghost.Storage.Retention.{sweep, sweep_all, run_scheduled}
use digital_ghost.Storage.Retention.Sweep.{Removes, IsUnique, is_expired, sweep-Swept}

any-select :
    (f p : IndexEntry → Bool) (es : List IndexEntry)
    → any f es ≡ false
    → any f (select p es) ≡ false
any-select f p [] h = refl
any-select f p (e ∷ es) h = ground (arith, any-select f p es)

select-IsUnique :
    (p : IndexEntry → Bool) (es : List IndexEntry) → IsUnique es → IsUnique (select p es)
select-IsUnique p [] u = tt
select-IsUnique p (e ∷ es) (h, u) = elim (Bool-cases (p e)) [
  | inl q ↦ rw q (any-select (λ x. text_eq e.id x.id) p es h, select-IsUnique p es u)
  | inr q ↦ rw q (select-IsUnique p es u)
]

select-select :
    (a b : IndexEntry → Bool) (es : List IndexEntry)
    → select (λ e. not (b e)) (select (λ e. not (a e)) es) ≡ select (λ e. not (a e || b e)) es
select-select a b [] = refl
select-select a b (e ∷ es) = elim (Bool-cases (a e)) [
  | inl q ↦ rw q (select-select a b es)
  | inr q ↦ elim (Bool-cases (b e)) [
    | inl r ↦ rw (q, r) (select-select a b es)
    | inr r ↦ rw (q, r) (ap (λ xs. e ∷ xs) (select-select a b es))
  ]
]

select-all : (es : List IndexEntry) → select (λ e. not false) es ≡ es
select-all [] = refl
select-all (e ∷ es) = ap (λ xs. e ∷ xs) (select-all es)

-- An entry that is older than the retention period at one of the sweeps.
abbrev pub is_swept : List (Time × (ℕ → RemoveEnv)) → (days : ℕ) → IndexEntry → Bool
is_swept [] days e = false
is_swept ((now, envs) ∷ rounds) days e = is_expired now days e || is_swept rounds days e

-- All removals and saves of a sweep work.
abbrev pub Works : Time × (ℕ → RemoveEnv) → Type 0
Works (now, envs) = (k : ℕ) → Removes (envs k)

module _ {F : Type 0} (C : Crypto) (K : IndexCodec) (crypto : IsCrypto C) (codec : IsCodec K) where
  sweep_all-Holds :
      (rounds : List (Time × (ℕ → RemoveEnv))) (days : ℕ) (es : List IndexEntry) (s : Store F)
      → All Works rounds
      → Holds C K crypto codec s.encryptor es s.disk
      → IsUnique es
      → Holds C K crypto codec s.encryptor
          (select (λ e. not (is_swept rounds days e)) es)
          (sweep_all C K rounds days s).disk
  unfolding sweep_all
  sweep_all-Holds [] days es s w h u =
      subst (λ xs. Holds C K crypto codec s.encryptor xs s.disk) (sym (select-all es)) h
  sweep_all-Holds ((now, envs) ∷ rounds) days es s (w, ws) h u =
      let swept = sweep-Swept C K crypto codec envs now days es s w h u in
      let s' = (sweep C K envs now days s).0 in
      let kept = select (λ e. not (is_expired now days e)) es in
      let later =
        sweep_all-Holds rounds days kept s' ws
          (subst (λ k. Holds C K crypto codec k kept s'.disk) (sym swept.encryptor) swept.holds)
          (select-IsUnique _ es u) in
      subst (λ xs. Holds C K crypto codec s.encryptor xs (sweep_all C K rounds days s').disk)
        (select-select (is_expired now days) (is_swept rounds days) es)
        (subst
          (λ k.
            Holds C K crypto codec k (select (λ e. not (is_swept rounds days e)) kept)
              (sweep_all C K rounds days s').disk)
          swept.encryptor later)

  -- If HMAC, AES-GCM and the index codec behave as documented, the index loads with valid entries
  -- of different nodes, and all removals and saves work, then after the sweep at the start and
  -- any later ones the index holds exactly the entries that were older than the retention period
  -- at none of the sweeps, in order.
  pub run_scheduled-Holds :
      (start : Time × (ℕ → RemoveEnv)) (fired : List (Time × (ℕ → RemoveEnv))) (days : ℕ)
      (es : List IndexEntry) (s : Store F)
      → All Works (start ∷ fired)
      → Holds C K crypto codec s.encryptor es s.disk
      → IsUnique es
      → Holds C K crypto codec s.encryptor
          (select (λ e. not (is_swept (start ∷ fired) days e)) es)
          (run_scheduled C K start fired days s).disk
  unfolding run_scheduled
  run_scheduled-Holds start fired days es s w h u = sweep_all-Holds (start ∷ fired) days es s w h u
