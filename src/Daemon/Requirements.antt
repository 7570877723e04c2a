-- ===== src/Daemon/Requirements.antt =====
-- What must have happened before the daemon runs.
use mathlib.Core.Path.{subst}
use digital_ghost.Prelude.{
  ◌==◌, ◌≡◌, refl, sym, ap, ◌∙◌, ◌⊎◌, inl, inr, Text, Bool, true, false, Option, none, some, arith,
  not, Bool-cases, Option-cases,
}
use digital_ghost.Prelude.Result.{Result, ok, err, Result-cases}
use digital_ghost.Storage.Keychain.{Keychain, new_key_manager}
use digital_ghost.Tray.Consent.{
  Packages, Manager, ConsentFile, ConsentError, is_consent_granted, request_consent,
}
use digital_ghost.Tray.Consent.Laws.{HasConsent, is_consent_granted_iff}
use digital_ghost.Inference.Throttle.{Start, panics, blocks, running, new_governor}
use digital_ghost.Filter.Blocklist.{Libs, BlocklistConfig, Blocklist}
use digital_ghost.Filter.Blocklist.Reload.{new_blocklist}
use digital_ghost.Capture.Gate.{new_gate}
use digital_ghost.Daemon.{
  Flags, StartEnv, Stored, StartError, Keyed, Daemon, Outcome, started, manager,
  ensure_default_blocklist, check_model, prepare, unless_granted, consent, with_governor,
  components, after_consent, dispatch, with_keychain, prepared, start,
}
use digital_ghost.Daemon.Steps.{
  IsModelChecked, IsGiven, request_consent-IsGiven, check_model-IsModelChecked, prepare-IsPrepared,
}

module _ {F : Type 0} where
  module _ (P : Packages) (L : Libs) (yaml_unmarshal : Text → Option BlocklistConfig) where
    -- The file held a consent, or consent was given and is in the file afterwards.
    abbrev pub HasConsented :
        Manager → (key : Text) → StartEnv F → (before after : ConsentFile) → Type 0
    HasConsented m key env before after =
        HasConsent P key before ⊎ IsGiven P m key env.request after

    -- Where a daemon that runs comes from.
    pub record IsStarted (pbkdf2 : Text → Text → Text) (flags : Flags) (env : StartEnv F)
        (s : Stored) (d : Daemon F) : Type 0 where
      pub user : (env.uid == 0) ≡ false
      pub no_command : (flags.wipe ≡ false) × (flags.status ≡ false)
      pub config : env.config ≡ ok d.keyed.config
      pub key : (new_key_manager pbkdf2 env.key_env s.keychain).1 ≡ ok d.keyed.key_manager
      pub consented :
          HasConsented
            (manager env.version d.keyed.key_manager)
            d.keyed.key_manager.key
            env
            s.consent
            (start P L yaml_unmarshal pbkdf2 flags env s).0.consent
      pub tray : env.tray_icon ≡ true
      pub model : IsModelChecked d.keyed.config.inference env
      pub gate :
          (bl : Blocklist) × (new_blocklist L yaml_unmarshal env.blocklist_path
              (ensure_default_blocklist env.default_written env.default_blocklist
                env.blocklist_file)
              env.watcher_ok
            ≡ ok bl)
          × (d.gate ≡ new_gate bl)
      pub governor : new_governor d.keyed.config.resource_budget ≡ running d.governor

    record IsBuilt (k : Keyed F) (env : StartEnv F) (d : Daemon F) : Type 0 where
      keyed : d.keyed ≡ k
      gate :
          (bl : Blocklist) × (new_blocklist L yaml_unmarshal env.blocklist_path
              (ensure_default_blocklist env.default_written env.default_blocklist
                env.blocklist_file)
              env.watcher_ok
            ≡ ok bl)
          × (d.gate ≡ new_gate bl)
      governor : new_governor k.config.resource_budget ≡ running d.governor

    with_governor-started :
        (k : Keyed F) (bl : Blocklist) (env : StartEnv F) (g : Start) (d : Daemon F)
        → with_governor P L yaml_unmarshal k bl env g ≡ started d
        → (d.keyed ≡ k) × (d.gate ≡ new_gate bl) × (g ≡ running d.governor)
    with_governor-started k bl env panics d h = absurd cc
    with_governor-started k bl env blocks d h = absurd cc
    with_governor-started k bl env (running g) d h = elim (Bool-cases (not env.store_opened)) [
      | inl o ↦ absurd (ground arith)
      | inr o ↦ elim (Option-cases env.api_token) [
        | inl q ↦ absurd (ground arith)
        | inr (t, q) ↦ ground arith
      ]
    ]

    components-IsBuilt :
        (k : Keyed F) (env : StartEnv F) (d : Daemon F)
        → components P L yaml_unmarshal k env ≡ started d
        → IsBuilt k env d
    unfolding components
    components-IsBuilt k env d h = elim (Bool-cases (not env.has_home)) [
      | inl o ↦ absurd (ground arith)
      | inr o ↦
          elim (Result-cases (
            new_blocklist L yaml_unmarshal env.blocklist_path
              (ensure_default_blocklist env.default_written env.default_blocklist
                env.blocklist_file)
              env.watcher_ok)) [
                | inr (e, q) ↦ absurd (ground arith)
                | inl (bl, q) ↦
                    let (keyed, gate, governor) =
                      with_governor-started k bl env (new_governor k.config.resource_budget) d
                        (rw (components, o, q) at h) in
                    record { keyed = keyed; gate = (bl, q, gate); governor = governor }
              ]
    ]

    consent-HasConsented :
        (m : Manager) (key : Text) (env : StartEnv F) (f : ConsentFile)
        → m.key ≡ some key
        → (consent P L yaml_unmarshal m env f).1 ≡ none
        → HasConsented m key env f (consent P L yaml_unmarshal m env f).0
    unfolding consent
    consent-HasConsented m key env f k h = by_record (is_consent_granted P m env.upgraded f).1 refl
      where
        by_record :
            (b : Bool)
            → (is_consent_granted P m env.upgraded f).1 ≡ b
            → HasConsented m key env f (consent P L yaml_unmarshal m env f).0
        by_record true e = inl ((is_consent_granted_iff P m key env.upgraded f k).0 e)
        by_record false e =
            let f' = (is_consent_granted P m env.upgraded f).0 in
            let asked : consent P L yaml_unmarshal m env f ≡ request_consent P m env.request f' =
              ap (λ b. unless_granted P L yaml_unmarshal m env (f', b)) e in
            inr (
              subst (λ r. IsGiven P m key env.request r.0) (sym asked)
                (request_consent-IsGiven P m key env.request f' k (sym (ap (λ r. r.1) asked) ∙ h)))

    after_consent-kept :
        (k : Keyed F) (env : StartEnv F) (r : ConsentFile × Option ConsentError)
        → (after_consent P L yaml_unmarshal k env r).0 ≡ r.0
    after_consent-kept k env (f, some e) = refl
    after_consent-kept k env (f, none) = elim (Bool-cases (not env.tray_icon)) [
      | inl o ↦ rw o refl
      | inr o ↦ elim (Option-cases (check_model k.config.inference env)) [
        | inr (e, q) ↦ rw (o, q) refl
        | inl q ↦ rw (o, q) refl
      ]
    ]

    record IsReached (k : Keyed F) (env : StartEnv F) (d : Daemon F)
        (r : ConsentFile × Option ConsentError) : Type 0 where
      agreed : r.1 ≡ none
      tray : env.tray_icon ≡ true
      model : IsModelChecked k.config.inference env
      built : IsBuilt k env d

    after_consent-IsReached :
        (k : Keyed F) (env : StartEnv F) (d : Daemon F) (r : ConsentFile × Option ConsentError)
        → (after_consent P L yaml_unmarshal k env r).1 ≡ started d
        → IsReached k env d r
    after_consent-IsReached k env d (f, some e) h = absurd cc
    after_consent-IsReached k env d (f, none) h = elim (Bool-cases (not env.tray_icon)) [
      | inl o ↦ absurd (ground arith)
      | inr o ↦ elim (Option-cases (check_model k.config.inference env)) [
        | inr (e, q) ↦ absurd (ground arith)
        | inl q ↦ record {
          agreed = refl;
          tray = ground arith;
          model = check_model-IsModelChecked k.config.inference env q;
          built = components-IsBuilt k env d (rw (o, q) at h);
        }
      ]
    ]

    dispatch-IsReached :
        (flags : Flags) (k : Keyed F) (env : StartEnv F) (d : Daemon F) (f : ConsentFile)
        → (dispatch P L yaml_unmarshal flags env k f).1 ≡ started d
        → (flags.wipe ≡ false)
          × (flags.status ≡ false)
          × ((dispatch P L yaml_unmarshal flags env k f).0
              ≡ (consent P L yaml_unmarshal (manager env.version k.key_manager) env f).0)
          × IsReached k env d (consent P L yaml_unmarshal (manager env.version k.key_manager) env f)
    unfolding dispatch
    dispatch-IsReached flags k env d f h = elim (Bool-cases flags.wipe) [
      | inl w ↦ absurd (ground arith)
      | inr w ↦ elim (Bool-cases flags.status) [
        | inl s ↦ absurd (ground arith)
        | inr s ↦ (
          w,
          s,
          rw (dispatch, w, s) (after_consent-kept k env _),
          after_consent-IsReached k env d _ (rw (dispatch, w, s) at h),
        )
      ]
    ]

    with_keychain-outcome :
        (k : Keychain) (r : ConsentFile × Outcome F)
        → (with_keychain P L yaml_unmarshal k r).1 ≡ r.1
    with_keychain-outcome k (f, o) = refl

    with_keychain-consent :
        (k : Keychain) (r : ConsentFile × Outcome F)
        → (with_keychain P L yaml_unmarshal k r).0.consent ≡ r.0
    with_keychain-consent k (f, o) = refl

    -- If a start gets as far as the goroutines, then the user is not root, no command was given,
    -- the configuration loaded, and the key is the one that the keychain gave. The consent file
    -- held an explicit record under the present dialog without a signature or with its own under
    -- the key, or DG_HEADLESS_CONSENT or the answer in the dialog said yes and the file now holds
    -- the signed record of that. The start of the tray icon returned no error, which the variable
    -- for a headless start brings about without an icon. No digest is pinned, or Ping failed, or
    -- the server listed the model with the digest that is pinned, so a pinned digest that differs
    -- ends the start. The gate stands on the blocklist that was made and the governor on the
    -- budget of the configuration.
    pub start-IsStarted :
        (pbkdf2 : Text → Text → Text) (flags : Flags) (env : StartEnv F) (s : Stored) (d : Daemon F)
        → (start P L yaml_unmarshal pbkdf2 flags env s).1 ≡ started d
        → IsStarted pbkdf2 flags env s d
    unfolding start
    start-IsStarted pbkdf2 flags env s d h = by_keys (prepare pbkdf2 env s.keychain) refl h
      where
        by_keys :
            (r : Keychain × Result StartError (Keyed F))
            → prepare pbkdf2 env s.keychain ≡ r
            → (prepared P L yaml_unmarshal flags env s.consent r).1 ≡ started d
            → IsStarted pbkdf2 flags env s d
        by_keys (k, err e) q o = absurd cc
        by_keys (k, ok x) q o =
            let keys = prepare-IsPrepared pbkdf2 env s.keychain x (ap (λ r. r.1) q) in
            let (wipe, status, kept, reached) = dispatch-IsReached flags x env d s.consent (
              sym (with_keychain-outcome k (dispatch P L yaml_unmarshal flags env x s.consent))
              ∙ o) in
            let same = sym reached.built.keyed in
            let left : (start P L yaml_unmarshal pbkdf2 flags env s).0.consent
                ≡ (consent P L yaml_unmarshal (manager env.version x.key_manager) env s.consent).0 =
              ap (λ r. (prepared P L yaml_unmarshal flags env s.consent r).0.consent) q
              ∙ with_keychain-consent k (dispatch P L yaml_unmarshal flags env x s.consent)
              ∙ kept in
            record {
              user = keys.user;
              no_command = (wipe, status);
              config = keys.config ∙ ap (λ y. ok y.config) same;
              key = keys.key ∙ ap (λ y. ok y.key_manager) same;
              consented =
                  subst
                    (λ y.
                      HasConsented (manager env.version y.key_manager) y.key_manager.key env
                        s.consent (start P L yaml_unmarshal pbkdf2 flags env s).0.consent)
                    same
                    (rw left (
                      consent-HasConsented (manager env.version x.key_manager) x.key_manager.key env
                        s.consent refl reached.agreed));
              tray = reached.tray;
              model = subst (λ y. IsModelChecked y.config.inference env) same reached.model;
              gate = reached.built.gate;
              governor =
                  subst (λ y. new_governor y.config.resource_budget ≡ running d.governor) same
                    reached.built.governor;
            }
