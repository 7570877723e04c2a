-- ===== src/Capture/Gate/Safety.antt =====
-- What the privacy gate of internal/capture/privacy.go lets through.
use digital_ghost.Prelude.{
  Text, Bool, true, false, ◌||◌, List, [], ◌∷◌, ◌≡◌, ◌≢◌, refl, sym, ap, is_some, ◌∙◌, false≢true,
  ◌↔◌, Option, none, some, arith, lit, text_eq, text_eq_iff, is_empty, All,
}
use mathlib.Core.Path.{subst}
use digital_ghost.Prelude.Result.{Result, ok, err}
use digital_ghost.Filter.Blocklist.{Libs, WindowContext, Blocklist}
use digital_ghost.Filter.Blocklist
use digital_ghost.Capture.Gate.{
  Gate, WindowMetadata, no_window, to_context, process_only, is_sensitive_role, background_block,
  check_role_and_pause, check_window, check,
}

||_left : (a b : Bool) → a ≡ true → (a || b) ≡ true
||_left a b h = ground arith

||_right : (a b : Bool) → b ≡ true → (a || b) ≡ true
||_right a b h = ground arith

both_false : (a b : Bool) → (a || b) ≡ false → (a ≡ false) × (b ≡ false)
both_false a b h = ground arith

or_false : (a b : Bool) → a ≡ false → b ≡ false → (a || b) ≡ false
or_false a b h k = ground arith

is_none : (o : Option Text) → is_some o ≡ false → o ≡ none
is_none none h = refl
is_none (some a) h = cc

neither : (a b : Bool) → a ≢ true → b ≢ true → (a || b) ≡ false
neither a b h k = ground arith

module _ (L : Libs) where
  -- The window may be captured: it and all that is visible behind it pass the blocklist, no
  -- password or spin button has the focus, and the user has not paused.
  pub record IsAllowed (g : Gate) (m : WindowMetadata) (background : List Text) : Type 0 where
    pub foreground : (Blocklist.check L g.blocklist (to_context m)).blocked ≡ false
    pub behind :
        All (λ p. (Blocklist.check L g.blocklist (process_only p)).blocked ≡ false) background
    pub no_password : m.focused_input_role ≢ lit "password"
    pub no_spinbutton : m.focused_input_role ≢ lit "spinbutton"
    pub running : g.paused ≡ false

  background_iff :
      (bl : Blocklist) (ps : List Text)
      → (background_block L bl ps ≡ none)
        ↔ All (λ p. (Blocklist.check L bl (process_only p)).blocked ≡ false) ps
  unfolding background_block
  background_iff bl [] = (λ h. tt, λ h. refl)
  background_iff bl (p ∷ ps) = (
    λ h. ground (arith, (background_iff bl ps).0),
    λ h. ground (arith, (background_iff bl ps).1 h.1),
  )

  role_tests :
      (s : Text) → (is_sensitive_role s ≡ false) ↔ ((s ≢ lit "password") × (s ≢ lit "spinbutton"))
  unfolding is_sensitive_role
  role_tests s = (
    λ h. (
      λ e. false≢true (sym h ∙ ||_left _ _ ((text_eq_iff s _).1 e)),
      λ e. false≢true (sym h ∙ ||_right _ _ ((text_eq_iff s _).1 e)),
    ),
    λ h. neither _ _ (λ e. h.0 ((text_eq_iff s _).0 e)) (λ e. h.1 ((text_eq_iff s _).0 e)),
  )

  is_empty-role : (s : Text) → is_empty s ≡ true → is_sensitive_role s ≡ false
  unfolding is_sensitive_role text_eq lit
  is_empty-role [] h = refl
  is_empty-role (c ∷ s) h = cc

  role_blocked :
      (g : Gate) (m : WindowMetadata)
      → (check_role_and_pause L g m).blocked ≡ (is_sensitive_role m.focused_input_role || g.paused)
  unfolding check_role_and_pause
  role_blocked g m = ground (arith, is_empty-role m.focused_input_role)

  role_pass :
      (g : Gate) (m : WindowMetadata)
      → ((check_role_and_pause L g m).blocked ≡ false) ↔ (
          (m.focused_input_role ≢ lit "password")
          × (m.focused_input_role ≢ lit "spinbutton")
          × (g.paused ≡ false))
  role_pass g m = (
    λ h.
        let (p, q) = both_false _ _ (sym (role_blocked g m) ∙ h) in
        let (a, b) = (role_tests m.focused_input_role).0 p in (a, b, q),
    λ h. role_blocked g m ∙ or_false _ _ ((role_tests m.focused_input_role).1 (h.0, h.1)) h.2,
  )

  window_blocked :
      (g : Gate) (m : WindowMetadata) (background : List Text)
      → (check_window L g m background).blocked ≡ (
          (Blocklist.check L g.blocklist (to_context m)).blocked
          || (is_some (background_block L g.blocklist background)
              || (check_role_and_pause L g m).blocked))
  unfolding check_window
  window_blocked g m background = ground arith

  window_pass_iff :
      (g : Gate) (m : WindowMetadata) (background : List Text)
      → ((check_window L g m background).blocked ≡ false) ↔ IsAllowed g m background
  window_pass_iff g m background = (
    λ h.
        let (p, qr) = both_false _ _ (sym (window_blocked g m background) ∙ h) in
        let (q, r) = both_false _ _ qr in
        let (a, b, c) = (role_pass g m).0 r in
        record {
          foreground = p;
          behind = (background_iff g.blocklist background).0 (is_none _ q);
          no_password = a;
          no_spinbutton = b;
          running = c;
        },
    λ h.
        window_blocked g m background
        ∙ or_false _ _ h.foreground (
            or_false _ _ (ap is_some ((background_iff g.blocklist background).1 h.behind))
              ((role_pass g m).1 (h.no_password, h.no_spinbutton, h.running))),
  )

  -- The gate lets a capture through exactly if the metadata could be read, the window in front
  -- and the names of all processes behind it pass the blocklist, no password or spin button has
  -- the focus, and capture is not paused.
  pub check_pass_iff :
      (g : Gate) (q : Result Text WindowMetadata) (background : List Text)
      → ((check L g q background).blocked ≡ false)
        ↔ ((m : WindowMetadata) × (q ≡ ok m) × IsAllowed g m background)
  unfolding check
  check_pass_iff g (err e) background = (λ h. cc, λ h. cc h.1)
  check_pass_iff g (ok m) background = (
    λ h. (m, refl, (window_pass_iff g m background).0 h),
    λ h.
        let same : h.0 ≡ m = cc (h.1) in
        (window_pass_iff g m background).1 (subst (λ k. IsAllowed g k background) same h.2),
  )

  -- A blocked result carries no window, and one that passes carries the window that was checked.
  pub check-window_ctx :
      (g : Gate) (q : Result Text WindowMetadata) (background : List Text)
      → let r = check L g q background in
        (r.blocked ≡ true → r.window_ctx ≡ no_window)
        × (r.blocked ≡ false → (m : WindowMetadata) × (q ≡ ok m) × (r.window_ctx ≡ to_context m))
  unfolding check check_window check_role_and_pause to_context
  check-window_ctx g (err e) background = (λ h. refl, λ h. cc)
  check-window_ctx g (ok m) background = (λ h. ground arith, λ h. (m, refl, ground arith))
