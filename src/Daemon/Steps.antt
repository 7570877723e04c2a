-- ===== src/Daemon/Steps.antt =====
-- What the first steps of a start, the consent and the check of the model give.
use digital_ghost.Prelude.{
  ◌==◌, ◌≡◌, refl, sym, ap, ◌∙◌, ◌⊎◌, inl, inr, Text, true, false, none, some, arith, [], ◌∷◌,
  Bool-cases, Option-cases,
}
use digital_ghost.Prelude.Result.{Result, ok, err, Result-cases}
use digital_ghost.Config.{Config, InferenceConfig}
use digital_ghost.Storage.Encrypt.{new_encryptor}
use digital_ghost.Storage.Keychain.{Keychain, KeyError, KeyManager, new_key_manager}
use digital_ghost.Tray.Consent.{
  Packages, Manager, ConsentFile, present, RequestEnv, Answer, dialog_error, no, yes,
  with_signature, show_consent_dialog, sign_record, new_record, signed, commit, request_consent,
}
use digital_ghost.Inference.Client.{ModelError}
use digital_ghost.Inference.Client.Laws.{IsVerified, verify_model_iff}
use digital_ghost.Inference.Requests.{RequestError, ping}
use digital_ghost.Daemon.{
  StartEnv, Keyed, model_error, check_model, first_steps, with_encryptor, prepare,
}

model_error-none :
    (pinned : Text) (r : Result ModelError Text)
    → model_error pinned r ≡ none
    → (pinned ≡ []) ⊎ ((digest : Text) × (r ≡ ok digest))
model_error-none pinned (ok digest) h = inr (digest, refl)
model_error-none [] (err e) h = inl refl
model_error-none (c ∷ s) (err e) h = absurd cc

-- Consent was given now: by the variable for a headless start or by the answer in the dialog, and the
-- signed record of it is what the file holds afterwards.
pub record IsGiven (P : Packages) (m : Manager) (key : Text) (env : RequestEnv)
    (after : ConsentFile) : Type 0 where
  pub answered : (env.headless ≡ true) ⊎ (env.answer ≡ yes)
  pub signature : Text
  pub text : Text
  pub is_signed : sign_record P key (new_record P m env) ≡ some signature
  pub printed : P.marshal_indent (with_signature signature (new_record P m env)) ≡ some text
  pub stored : after ≡ present text

commit-IsGiven :
    (P : Packages) (m : Manager) (key : Text) (env : RequestEnv) (f : ConsentFile)
    → m.key ≡ some key
    → (env.headless ≡ true) ⊎ (env.answer ≡ yes)
    → (commit P env.written (signed P m.key (new_record P m env)) f).1 ≡ none
    → IsGiven P m key env (commit P env.written (signed P m.key (new_record P m env)) f).0
unfolding commit signed
commit-IsGiven P m key env f k a h = elim (Option-cases (sign_record P key (new_record P m env))) [
  | inl s ↦ absurd (ground arith)
  | inr (sig, s) ↦
      elim (Option-cases (P.marshal_indent (with_signature sig (new_record P m env)))) [
        | inl i ↦ absurd (ground arith)
        | inr (text, i) ↦ record {
          answered = a;
          signature = sig;
          text = text;
          is_signed = s;
          printed = i;
          stored = ground arith;
        }
      ]
]

dialog-answer :
    (env : RequestEnv) → show_consent_dialog env ≡ yes → (env.headless ≡ true) ⊎ (env.answer ≡ yes)
dialog-answer env h = elim (Bool-cases env.headless) [ inl e ↦ inl e | inr e ↦ inr (rw e at h) ]

pub request_consent-IsGiven :
    (P : Packages) (m : Manager) (key : Text) (env : RequestEnv) (f : ConsentFile)
    → m.key ≡ some key
    → (request_consent P m env f).1 ≡ none
    → IsGiven P m key env (request_consent P m env f).0
unfolding request_consent
request_consent-IsGiven P m key env f k h = elim (Bool-cases env.dir_made) [
  | inr d ↦ absurd (ground arith)
  | inl d ↦ by_answer d (show_consent_dialog env) refl
]
  where
    by_answer :
        env.dir_made ≡ true
        → (a : Answer) → show_consent_dialog env ≡ a
        → IsGiven P m key env (request_consent P m env f).0
    by_answer d no e = absurd (ground arith)
    by_answer d dialog_error e = absurd (ground arith)
    by_answer d yes e =
        let run : request_consent P m env f
            ≡ commit P env.written (signed P m.key (new_record P m env)) f =
          simp (request_consent, d, e) refl in
        rw run (commit-IsGiven P m key env f k (dialog-answer env e) (rw run at h))

module _ {F : Type 0} where
  -- A model that was verified, where a digest is pinned and Ollama answers.
  abbrev pub IsModelChecked : InferenceConfig → StartEnv F → Type 0
  IsModelChecked cfg env =
      (cfg.model_digest ≡ [])
      ⊎ ((e : RequestError) × (ping env.pinged ≡ err e))
      ⊎ ((digest : Text) × IsVerified cfg.model cfg.model_digest digest env.tags)

  pub check_model-IsModelChecked :
      (cfg : InferenceConfig) (env : StartEnv F)
      → check_model cfg env ≡ none
      → IsModelChecked cfg env
  unfolding check_model
  check_model-IsModelChecked cfg env h = elim (Result-cases (ping env.pinged)) [
    | inr (e, q) ↦ inr (inl (e, q))
    | inl (u, q) ↦ elim (model_error-none cfg.model_digest _ (rw (check_model, q) at h)) [
      | inl p ↦ inl p
      | inr (digest, v) ↦
          inr (inr (digest, (verify_model_iff cfg.model cfg.model_digest digest env.tags).0 v))
    ]
  ]

  -- What the steps up to the encryption give.
  pub record IsPrepared (pbkdf2 : Text → Text → Text) (env : StartEnv F) (k : Keychain)
      (x : Keyed F) : Type 0 where
    pub user : (env.uid == 0) ≡ false
    pub config : env.config ≡ ok x.config
    pub key : (new_key_manager pbkdf2 env.key_env k).1 ≡ ok x.key_manager

  first_steps-ok :
      (env : StartEnv F) (c : Config F)
      → first_steps env ≡ ok c
      → ((env.uid == 0) ≡ false) × (env.config ≡ ok c)
  first_steps-ok env c h = elim (Bool-cases (env.uid == 0)) [
    | inl u ↦ absurd (ground arith)
    | inr u ↦ elim (Result-cases env.config) [
      | inr (e, q) ↦ absurd (ground arith)
      | inl (d, q) ↦ ground arith
    ]
  ]

  with_encryptor-ok :
      (c : Config F) (r : Keychain × Result KeyError KeyManager) (x : Keyed F)
      → (with_encryptor c r).1 ≡ ok x
      → (x.config ≡ c) × (r.1 ≡ ok x.key_manager)
  with_encryptor-ok c (k, err e) x h = absurd cc
  with_encryptor-ok c (k, ok km) x h = elim (Result-cases (new_encryptor km.key)) [
    | inr (e, q) ↦ absurd (ground arith)
    | inl (enc, q) ↦ ground arith
  ]

  pub prepare-IsPrepared :
      (pbkdf2 : Text → Text → Text) (env : StartEnv F) (k : Keychain) (x : Keyed F)
      → (prepare pbkdf2 env k).1 ≡ ok x
      → IsPrepared pbkdf2 env k x
  unfolding prepare
  prepare-IsPrepared pbkdf2 env k x h = elim (Result-cases (first_steps env)) [
    | inr (e, q) ↦ absurd (ground arith)
    | inl (c, q) ↦
        let (user, config) = first_steps-ok env c q in
        let (same, key) =
          with_encryptor-ok c (new_key_manager pbkdf2 env.key_env k) x (rw (prepare, q) at h) in
        record { user = user; config = config ∙ ap (λ z. ok z) (sym same); key = key }
  ]
