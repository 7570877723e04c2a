-- ===== src/Inference/Client/Laws.antt =====
-- Which models the program trusts, and how often it asks one.
use digital_ghost.Prelude.{
  ℕ, zero, suc, ◌+◌, ◌≤◌, ◌==◌, ==_iff, ◌≡◌, ◌≢◌, refl, sym, ap, ◌∙◌, ◌↔◌, pos, ◌⊎◌, inl, inr, Text,
  Bool, true, false, List, [], ◌∷◌, ◌++◌, All, none, some, is_empty, not, ◌&&◌, text_eq,
  text_eq_iff, arith, Bool-cases, Option-cases,
}
use digital_ghost.Prelude.Result.{ok, err, ok-injective}
use digital_ghost.Inference.Client.{
  ModelEntry, TagsAnswer, no_response, response, ModelError, actual_digest, check_digest,
  verify_model, Attempts, attempt_from, infer,
}

not_ok : {A : Type 0} {x : ModelError} {a : A} → ¬ (err x ≡ ok a)
not_ok h = cc

is_nil : (s : Text) → (is_empty s ≡ true) ↔ (s ≡ [])
is_nil [] = (λ h. refl, λ h. refl)
is_nil (c ∷ s) = (λ h. absurd cc, λ h. absurd cc)

-- The list has an entry with the name and the digest, and no entry with the name before it.
pub record IsListed (model digest : Text) (models : List ModelEntry) : Type 0 where
  pub before : List ModelEntry
  pub after : List ModelEntry
  pub entry : ModelEntry
  pub split : models ≡ before ++ entry ∷ after
  pub earlier : All (λ e. e.name ≢ model) before
  pub name : entry.name ≡ model
  pub found : entry.digest ≡ digest

-- The server lists the model, first, with this digest, and a pinned digest is the same.
pub record IsVerified (model pinned digest : Text) (answer : TagsAnswer) : Type 0 where
  pub models : List ModelEntry
  pub answered : answer ≡ response 200 (some models)
  pub listed : IsListed model digest models
  pub there : digest ≢ []
  pub same : (pinned ≡ []) ⊎ (digest ≡ pinned)

skip-IsListed :
    (model digest : Text) (m : ModelEntry) (ms : List ModelEntry)
    → m.name ≢ model
    → IsListed model digest ms
    → IsListed model digest (m ∷ ms)
skip-IsListed model digest m ms n l = record {
  before = m ∷ l.before;
  after = l.after;
  entry = l.entry;
  split = ap (λ x. m ∷ x) l.split;
  earlier = (n, l.earlier);
  name = l.name;
  found = l.found;
}

actual_digest-IsListed :
    (model digest : Text) (models : List ModelEntry)
    → actual_digest model models ≡ digest
    → digest ≢ []
    → IsListed model digest models
unfolding actual_digest
actual_digest-IsListed model digest [] h n = absurd (n (sym h))
actual_digest-IsListed model digest (m ∷ ms) h n = elim (Bool-cases (text_eq m.name model)) [
  | inl e ↦ record {
    before = [];
    after = ms;
    entry = m;
    split = refl;
    earlier = tt;
    name = (text_eq_iff m.name model).0 e;
    found = rw (actual_digest, e) at h;
  }
  | inr e ↦
      skip-IsListed model digest m ms (λ q. absurd (ground (arith, (text_eq_iff m.name model).1 q)))
        (actual_digest-IsListed model digest ms (rw (actual_digest, e) at h) n)
]

IsListed-actual_digest :
    (model digest : Text) (before : List ModelEntry) (entry : ModelEntry) (after : List ModelEntry)
    → All (λ e. e.name ≢ model) before
    → entry.name ≡ model
    → entry.digest ≡ digest
    → actual_digest model (before ++ entry ∷ after) ≡ digest
unfolding actual_digest
IsListed-actual_digest model digest [] entry after tt n d =
    rw (actual_digest, (text_eq_iff entry.name model).1 n) d
IsListed-actual_digest model digest (m ∷ ms) entry after (q, qs) n d =
    elim (Bool-cases (text_eq m.name model)) [
      | inl e ↦ absurd (q ((text_eq_iff m.name model).0 e))
      | inr e ↦ rw (actual_digest, e) (IsListed-actual_digest model digest ms entry after qs n d)
    ]

pin_bits : (p s : Bool) → ((not p && not s) ≡ false) ↔ ((p ≡ true) ⊎ (s ≡ true))
pin_bits p s = ground arith

some_nil : (c : ℕ) (s : Text) → ¬ (c ∷ s ≡ [])
some_nil c s h = cc

check_digest_iff :
    (pinned actual digest : Text)
    → (check_digest pinned actual ≡ ok digest)
      ↔ ((actual ≡ digest) × (digest ≢ []) × ((pinned ≡ []) ⊎ (digest ≡ pinned)))
unfolding check_digest
check_digest_iff pinned [] digest = (λ h. absurd (not_ok h), λ (e, n, p). absurd (n (sym e)))
check_digest_iff pinned (c ∷ s) digest =
    let (to, from) = pin_bits (is_empty pinned) (text_eq (c ∷ s) pinned) in
    let (n_to, n_from) = is_nil pinned in
    let (t_to, t_from) = text_eq_iff (c ∷ s) pinned in
    (
      λ h. elim (Bool-cases (not (is_empty pinned) && not (text_eq (c ∷ s) pinned))) [
        | inl q ↦ absurd (not_ok (rw (check_digest, q) at h))
        | inr q ↦
            let e = ok-injective (c ∷ s) digest refl (rw (check_digest, q) at h) in
            (
              e,
              λ z. some_nil c s (e ∙ z),
              elim (to q) [ inl p ↦ inl (n_to p) | inr t ↦ inr (sym e ∙ t_to t) ],
            )
      ],
      λ (e, n, p).
          let q = from (elim p [ inl z ↦ inl (n_from z) | inr z ↦ inr (t_from (e ∙ z)) ]) in
          rw (check_digest, q) (ap (λ d. ok d) e),
    )

verified :
    (model pinned digest : Text) (answer : TagsAnswer)
    → verify_model model pinned answer ≡ ok digest
    → IsVerified model pinned digest answer
unfolding verify_model
verified model pinned digest no_response h = absurd (not_ok h)
verified model pinned digest (response status none) h = elim (Bool-cases (status == 200)) [
  | inl q ↦ absurd (not_ok (rw (verify_model, q) at h))
  | inr q ↦ absurd (not_ok (rw (verify_model, q) at h))
]
verified model pinned digest (response status (some models)) h = elim (Bool-cases (status == 200)) [
  | inl q ↦
      let (l, n, p) =
        (check_digest_iff pinned (actual_digest model models) digest).0
          (rw (verify_model, q) at h) in
      record {
        models = models;
        answered = ap (λ k. response k (some models)) ((==_iff status 200).0 q);
        listed = actual_digest-IsListed model digest models l n;
        there = n;
        same = p;
      }
  | inr q ↦ absurd (not_ok (rw (verify_model, q) at h))
]

-- VerifyModel returns a digest exactly if the server answers 200 with a list in which an entry
-- has the configured name and that digest, no entry before it has the name, the digest is not
-- empty, and a pinned digest is the same.
pub verify_model_iff :
    (model pinned digest : Text) (answer : TagsAnswer)
    → (verify_model model pinned answer ≡ ok digest) ↔ IsVerified model pinned digest answer
unfolding verify_model
verify_model_iff model pinned digest answer = (
  verified model pinned digest answer,
  λ h.
      ap (verify_model model pinned) h.answered
      ∙ (check_digest_iff pinned (actual_digest model h.models) digest).1 (
        ap (actual_digest model) h.listed.split
            ∙ IsListed-actual_digest model digest h.listed.before h.listed.entry h.listed.after
                h.listed.earlier h.listed.name h.listed.found,
        h.there,
        h.same,
      ),
)

attempt_from-bounds :
    {A : Type 0} (w : Attempts A) (k n : ℕ)
    → (n ≤ (attempt_from w k n).1) × ((attempt_from w k n).1 ≤ n + k)
unfolding attempt_from
attempt_from-bounds w zero n = (omega arith, omega arith)
attempt_from-bounds w (suc k) n =
    let (low, high) = attempt_from-bounds w k (suc n) in
    elim (Bool-cases (not (n == 0) && w.cancelled n)) [
      | inl q ↦ rw (attempt_from, q) (omega arith, omega arith)
      | inr q ↦ elim (Option-cases (w.answer n)) [
        | inl p ↦ rw (attempt_from, q, p) (omega (arith, low), omega (arith, high))
        | inr (a, p) ↦ rw (attempt_from, q, p) (omega arith, omega arith)
      ]
    ]

-- An inference makes at least one attempt and no more than one and the retries, where the number of
-- retries is not negative.
pub infer-bounds :
    {A : Type 0} (w : Attempts A) (retries : ℕ)
    → (1 ≤ (infer (pos retries) w).1) × ((infer (pos retries) w).1 ≤ retries + 1)
unfolding infer attempt_from
infer-bounds w retries = elim (Option-cases (w.answer 0)) [
  | inl q ↦
      let (low, high) = attempt_from-bounds w retries 1 in
      rw (infer, attempt_from, q) (low, omega (arith, high))
  | inr (a, q) ↦ rw (infer, attempt_from, q) (omega arith, omega arith)
]
