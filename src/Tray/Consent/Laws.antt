-- ===== src/Tray/Consent/Laws.antt =====
-- When capture has the consent of the user.
use digital_ghost.Prelude.{
  ◌≡◌, refl, sym, ap, ◌∙◌, ◌↔◌, ◌⊎◌, inl, inr, Text, Bool, true, [], ◌∷◌, none, some, is_empty,
  ◌&&◌, text_eq, text_eq→≡, text_eq_refl, Bool-cases, Option-cases, &&_iff, false≢true,
  if◌then◌else◌,
}
use digital_ghost.Prelude.Result.{ok}
use digital_ghost.Tray.Consent.{
  ConsentRecord, Packages, Manager, ConsentFile, missing, unreadable, present, RequestEnv, yes,
  with_signature, show_consent_dialog, dialog_hash, sign_record, rewrite, upgrade, verify,
  check_record, load_consent_record, granted, is_consent_granted, new_record, signed, commit,
  request_consent,
}

is_empty_iff : (s : Text) → (is_empty s ≡ true) ↔ (s ≡ [])
is_empty_iff [] = (λ h. refl, λ h. refl)
is_empty_iff (c ∷ s) = (λ h. absurd cc, λ h. absurd cc)

not_missing : {t : Text} → ¬ (missing ≡ present t)
not_missing h = cc

not_unreadable : {t : Text} → ¬ (unreadable ≡ present t)
not_unreadable h = cc

abbrev text_of : ConsentFile → Text
text_of missing = []
text_of unreadable = []
text_of (present t) = t

module _ (P : Packages) where
  -- An explicit record under the present dialog that has no signature, or its own under the key.
  pub record IsConsent (key : Text) (r : ConsentRecord) : Type 0 where
    pub explicit : r.explicit_grant ≡ true
    pub dialog : r.dialog_text_hash ≡ dialog_hash P
    pub signature : (r.hmac_signature ≡ []) ⊎ (sign_record P key r ≡ some r.hmac_signature)

  -- The file holds such a record.
  pub record HasConsent (key : Text) (file : ConsentFile) : Type 0 where
    pub text : Text
    pub content : ConsentRecord
    pub stored : file ≡ present text
    pub parsed : P.unmarshal text ≡ some content
    pub consent : IsConsent key content

  -- A record without a signature keeps its grant and its dialog.
  granted-upgrade :
      (key : Text) (w : Bool) (r : ConsentRecord) (file : ConsentFile)
      → (granted P (upgrade P key w r file)).1
        ≡ (r.explicit_grant && text_eq r.dialog_text_hash (dialog_hash P))
  unfolding upgrade
  granted-upgrade key w r file = elim (Option-cases (sign_record P key r)) [
    | inl q ↦ rw (upgrade, q) refl
    | inr (sig, q) ↦ rw (upgrade, q) refl
  ]

  grant_parts :
      (r : ConsentRecord)
      → (r.explicit_grant && text_eq r.dialog_text_hash (dialog_hash P)) ≡ true
      → (r.explicit_grant ≡ true) × (r.dialog_text_hash ≡ dialog_hash P)
  grant_parts r h =
      let (split, _) = &&_iff r.explicit_grant (text_eq r.dialog_text_hash (dialog_hash P)) in
      let (e, d) = split h in (e, text_eq→≡ _ _ d)

  grant_whole :
      (r : ConsentRecord)
      → r.explicit_grant ≡ true
      → r.dialog_text_hash ≡ dialog_hash P
      → (r.explicit_grant && text_eq r.dialog_text_hash (dialog_hash P)) ≡ true
  grant_whole r e d = rw (e, d) (text_eq_refl (dialog_hash P))

  verify-IsConsent :
      (key : Text) (r : ConsentRecord) (file : ConsentFile)
      → (granted P (file, verify P key r)).1 ≡ true
      → IsConsent key r
  unfolding verify
  verify-IsConsent key r file h = elim (Option-cases (sign_record P key r)) [
    | inl q ↦ absurd (false≢true (rw (verify, q) at h))
    | inr (sig, q) ↦ elim (Bool-cases (text_eq r.hmac_signature sig)) [
      | inl t ↦
          let (e, d) = grant_parts r (rw (verify, q, t) at h) in
          record {
            explicit = e;
            dialog = d;
            signature = inr (q ∙ ap some (sym (text_eq→≡ r.hmac_signature sig t)));
          }
      | inr t ↦ absurd (false≢true (rw (verify, q, t) at h))
    ]
  ]

  IsConsent-verify :
      (key : Text) (r : ConsentRecord) (file : ConsentFile)
      → r.explicit_grant ≡ true
      → r.dialog_text_hash ≡ dialog_hash P
      → sign_record P key r ≡ some r.hmac_signature
      → (granted P (file, verify P key r)).1 ≡ true
  unfolding verify
  IsConsent-verify key r file e d q =
      rw (verify, q, text_eq_refl r.hmac_signature) (grant_whole r e d)

  check_record-granted :
      (key : Text) (w : Bool) (r : ConsentRecord) (file : ConsentFile)
      → ((granted P (check_record P (some key) w r file)).1 ≡ true) ↔ IsConsent key r
  unfolding check_record
  check_record-granted key w r file =
      let (is_nil, of_nil) = is_empty_iff r.hmac_signature in
      elim (Bool-cases (is_empty r.hmac_signature)) [
        | inl q ↦ (
          λ h.
              let (e, d) =
                grant_parts r (sym (granted-upgrade key w r file) ∙ rw (check_record, q) at h) in
              record { explicit = e; dialog = d; signature = inl (is_nil q) },
          λ h.
              rw (check_record, q)
                (granted-upgrade key w r file ∙ grant_whole r h.explicit h.dialog),
        )
        | inr q ↦ (
          λ h. verify-IsConsent key r file (rw (check_record, q) at h),
          λ h. elim h.signature [
            | inl nil ↦ absurd (false≢true (sym q ∙ of_nil nil))
            | inr s ↦ rw (check_record, q) (IsConsent-verify key r file h.explicit h.dialog s)
          ],
        )
      ]

  -- With a key, consent counts as granted exactly if the file parses to an explicit record under
  -- the present dialog text that has no signature, or its own under that key.
  pub is_consent_granted_iff :
      (m : Manager) (key : Text) (w : Bool) (file : ConsentFile)
      → m.key ≡ some key
      → ((is_consent_granted P m w file).1 ≡ true) ↔ HasConsent key file
  unfolding is_consent_granted load_consent_record
  is_consent_granted_iff m key w missing k =
      (λ h. absurd (false≢true h), λ h. absurd (not_missing h.stored))
  is_consent_granted_iff m key w unreadable k =
      (λ h. absurd (false≢true h), λ h. absurd (not_unreadable h.stored))
  is_consent_granted_iff m key w (present text) k = (
    λ h. elim (Option-cases (P.unmarshal text)) [
      | inl q ↦ absurd (false≢true (simp (is_consent_granted, load_consent_record, q) at h))
      | inr (r, q) ↦ elim (Bool-cases r.explicit_grant) [
        | inl e ↦
            let (consent, _) = check_record-granted key w r (present text) in
            record {
              text = text;
              content = r;
              stored = refl;
              parsed = q;
              consent = consent (simp (is_consent_granted, load_consent_record, q, e, k) at h);
            }
        | inr e ↦ absurd (false≢true (simp (is_consent_granted, load_consent_record, q, e) at h))
      ]
    ],
    λ h.
        let (_, back) = check_record-granted key w h.content (present text) in
        let parsed : P.unmarshal text ≡ some h.content =
          ap (λ f. P.unmarshal (text_of f)) h.stored ∙ h.parsed in
        simp (is_consent_granted, load_consent_record, parsed, h.consent.explicit, k)
          (back h.consent),
  )

  upgrade_signs :
      (key sig : Text) (r : ConsentRecord) (text' : Text) (file : ConsentFile)
      → sign_record P key r ≡ some sig
      → P.marshal_indent (with_signature sig r) ≡ some text'
      → upgrade P key true r file ≡ (present text', ok (with_signature sig r))
  unfolding upgrade
  upgrade_signs key sig r text' file s i = rw (upgrade, s) (rw (rewrite, i) refl)

  load_explicit :
      (m : Manager) (key : Text) (r : ConsentRecord) (text : Text)
      → m.key ≡ some key
      → P.unmarshal text ≡ some r
      → r.explicit_grant ≡ true
      → load_consent_record P m true (present text)
        ≡ check_record P (some key) true r (present text)
  unfolding load_consent_record
  load_explicit m key r text k u e = simp (load_consent_record, u, e, k) refl

  -- An explicit record under the present dialog that has no signature counts as consent, whoever
  -- wrote it, and if it can be signed and printed, the check replaces the file by the signed
  -- record.
  unsigned_granted :
      (m : Manager) (key sig : Text) (r : ConsentRecord) (text text' : Text)
      → m.key ≡ some key
      → P.unmarshal text ≡ some r
      → r.explicit_grant ≡ true
      → r.dialog_text_hash ≡ dialog_hash P
      → r.hmac_signature ≡ []
      → sign_record P key r ≡ some sig
      → P.marshal_indent (with_signature sig r) ≡ some text'
      → is_consent_granted P m true (present text) ≡ (present text', true)
  unfolding is_consent_granted check_record
  unsigned_granted m key sig r text text' k u e d n s i =
      let f = present text in
      ap (granted P) (
        load_explicit m key r text k u e
        ∙ ap (λ b. if b then upgrade P key true r f else (f, verify P key r)) (ap is_empty n)
        ∙ upgrade_signs key sig r text' f s i)
      ∙ ap (λ b. (present text', b)) (grant_whole r e d)

  -- If the user says yes, and the record can be signed, printed, stored and parsed back, the
  -- request returns no error, stores the signed record, and the next check counts consent as
  -- granted.
  pub request_consent-granted :
      (m : Manager) (key sig : Text) (env : RequestEnv) (w : Bool) (file : ConsentFile)
      (text : Text)
      → m.key ≡ some key
      → env.dir_made ≡ true
      → show_consent_dialog env ≡ yes
      → env.written ≡ true
      → sign_record P key (new_record P m env) ≡ some sig
      → P.marshal_indent (with_signature sig (new_record P m env)) ≡ some text
      → P.unmarshal text ≡ some (with_signature sig (new_record P m env))
      → (request_consent P m env file ≡ (present text, none))
        × ((is_consent_granted P m w (request_consent P m env file).0).1 ≡ true)
  unfolding request_consent commit signed sign_record
  request_consent-granted m key sig env w file text k dir y wr s i u =
      let done : request_consent P m env file ≡ (present text, none) =
        simp (request_consent, dir, y, signed, k, s, commit, i, wr) refl in
      let (_, back) = is_consent_granted_iff m key w (present text) k in
      (
        done,
        rw done (
            back (record {
              text = text;
              content = with_signature sig (new_record P m env);
              stored = refl;
              parsed = u;
              consent = record { explicit = refl; dialog = refl; signature = inr s };
            })),
      )
