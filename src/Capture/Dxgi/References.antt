-- ===== src/Capture/Dxgi/References.antt =====
-- No reference of COM is lost, and what a failed reopening leads to.
use digital_ghost.Prelude.{
  ℕ, suc, zero, ◌+◌, ◌==◌, ◌≡◌, ◌≢◌, refl, ap, ◌∙◌, false, List, [], ◌∷◌, Option, none, some, arith,
}
use digital_ghost.Capture.Dxgi.{
  ComCall, Session, OpenEnv, access_lost, CaptureEnv, acquire_failed, no_texture, no_staging,
  map_failed, lost, reinit_failed, DxgiResult, frame, no_frame, crashed, failed, open_session,
  capture_session, release, close_session, Capturer, reopened, after_session, capture_dxgi,
  close_dxgi,
}
use digital_ghost.Capture.Dxgi.Counts.{
  one_if, acquired_count, released_count, held, held_if, open_session-Gains, capture_session-Gains,
}

released-release :
    (p h : ℕ) (calls : List ComCall)
    → h ≢ 0
    → released_count h (release p calls) ≡ one_if (p == h) + released_count h calls
released-release zero h calls n = ground arith
released-release (suc p) h calls n = refl

acquired-release :
    (p h : ℕ) (calls : List ComCall) → acquired_count h (release p calls) ≡ acquired_count h calls
acquired-release zero h calls = refl
acquired-release (suc p) h calls = refl

-- The references that a capturer holds are those that it acquired and did not release.
abbrev IsBalanced : Capturer → Type 0
IsBalanced c =
    (h : ℕ) → h ≢ 0 → acquired_count h c.calls ≡ held h c.session + released_count h c.calls

close_session-released :
    (h : ℕ) (s : Session) (calls : List ComCall)
    → h ≢ 0
    → released_count h (close_session s calls) ≡ held h s + released_count h calls
unfolding close_session
close_session-released h s calls n =
    let dupl = release s.dupl calls in
    let ctx = release s.ctx dupl in
    omega (
      arith,
      released-release s.device h ctx n,
      released-release s.ctx h dupl n,
      released-release s.dupl h calls n,
    )

close_session-acquired :
    (h : ℕ) (s : Session) (calls : List ComCall)
    → acquired_count h (close_session s calls) ≡ acquired_count h calls
unfolding close_session
close_session-acquired h s calls =
    acquired-release s.device h (release s.ctx (release s.dupl calls))
    ∙ acquired-release s.ctx h (release s.dupl calls)
    ∙ acquired-release s.dupl h calls

no_pointer : (h : ℕ) → h ≢ 0 → one_if (0 == h) ≡ 0
no_pointer h n = ground arith

reopened-IsBalanced :
    (s : Session) (r : List ComCall × Option Session)
    → ((h : ℕ) → h ≢ 0 → acquired_count h r.0 ≡ held_if h r.1 + released_count h r.0)
    → IsBalanced (reopened s r).0
reopened-IsBalanced s (calls, none) b h n = omega (arith, b h n, no_pointer h n)
reopened-IsBalanced s (calls, some new) b h n = b h n

reopen-balanced :
    (s : Session) (env : OpenEnv) (calls : List ComCall)
    → IsBalanced (record { session = s; calls = calls })
    → (h : ℕ) → h ≢ 0
    → let r = open_session env (close_session s calls) in
      acquired_count h r.0 ≡ held_if h r.1 + released_count h r.0
reopen-balanced s env calls b h n = omega (
  arith,
  b h n,
  open_session-Gains h env (close_session s calls),
  close_session-released h s calls n,
  close_session-acquired h s calls,
)

after_session-IsBalanced :
    (s : Session) (env : OpenEnv) (calls : List ComCall) (r : DxgiResult)
    → IsBalanced (record { session = s; calls = calls })
    → IsBalanced (after_session s env (calls, r)).0
after_session-IsBalanced s env calls (failed lost) b =
    reopened-IsBalanced s (open_session env (close_session s calls)) (reopen-balanced s env calls b)
after_session-IsBalanced s env calls (failed acquire_failed) b = b
after_session-IsBalanced s env calls (failed no_texture) b = b
after_session-IsBalanced s env calls (failed no_staging) b = b
after_session-IsBalanced s env calls (failed map_failed) b = b
after_session-IsBalanced s env calls (failed reinit_failed) b = b
after_session-IsBalanced s env calls (frame img) b = b
after_session-IsBalanced s env calls no_frame b = b
after_session-IsBalanced s env calls crashed b = b

capture_dxgi-IsBalanced :
    (env : CaptureEnv) (reopen : OpenEnv) (c : Capturer)
    → IsBalanced c
    → IsBalanced (capture_dxgi env reopen c).0
unfolding capture_dxgi
capture_dxgi-IsBalanced env reopen c b =
    let r = capture_session c.session env c.calls in
    after_session-IsBalanced c.session reopen r.0 r.1
      (λ h n. omega (arith, b h n, capture_session-Gains h c.session env c.calls))

-- One capture after the other.
unfoldable pub captures : List (CaptureEnv × OpenEnv) → Capturer → Capturer
captures [] c = c
captures ((env, reopen) ∷ es) c = captures es (capture_dxgi env reopen c).0

captures-IsBalanced :
    (es : List (CaptureEnv × OpenEnv)) (c : Capturer) → IsBalanced c → IsBalanced (captures es c)
unfolding captures
captures-IsBalanced [] c b = b
captures-IsBalanced ((env, reopen) ∷ es) c b =
    captures-IsBalanced es (capture_dxgi env reopen c).0 (capture_dxgi-IsBalanced env reopen c b)

-- If a session of DXGI opens, then after any captures with any failures, losses of access and
-- reopenings, and the closing at the end, each pointer of COM has been released as often as it
-- has been acquired.
pub session-released :
    (env : OpenEnv) (s : Session) (calls : List ComCall) (es : List (CaptureEnv × OpenEnv)) (h : ℕ)
    → open_session env [] ≡ (calls, some s)
    → h ≢ 0
    → let c = close_dxgi (captures es (record { session = s; calls = calls })) in
      acquired_count h c.calls ≡ released_count h c.calls
unfolding close_dxgi
session-released env s calls es h e n =
    let first : IsBalanced (record { session = s; calls = calls }) =
      λ k m. ground (arith, rw e at (open_session-Gains k env [])) in
    let c = captures es (record { session = s; calls = calls }) in
    omega (
      arith,
      captures-IsBalanced es (record { session = s; calls = calls }) first h n,
      close_session-released h c.session c.calls n,
      close_session-acquired h c.session c.calls,
    )

reopened-none :
    (s : Session) (r : List ComCall × Option Session)
    → r.1 ≡ none
    → (reopened s r).0.session.dupl ≡ 0
reopened-none s (calls, none) h = refl
reopened-none s (calls, some new) h = absurd cc

capture_session-lost :
    (s : Session) (env : CaptureEnv) (calls : List ComCall)
    → (s.dupl == 0) ≡ false
    → env.next ≡ access_lost
    → capture_session s env calls ≡ (calls, failed lost)
unfolding capture_session
capture_session-lost s env calls d l = rw (capture_session, d, l) refl

capture_dxgi-closed :
    (env : CaptureEnv) (reopen : OpenEnv) (c : Capturer)
    → c.session.dupl ≡ 0
    → (capture_dxgi env reopen c).1 ≡ crashed
unfolding capture_dxgi capture_session
capture_dxgi-closed env reopen c e = rw e refl

-- After lost access and a reopening that fails, the next capture is a call through a null pointer.
capture_dxgi-crashed :
    (env next : CaptureEnv) (reopen again : OpenEnv) (c : Capturer)
    → (c.session.dupl == 0) ≡ false
    → env.next ≡ access_lost
    → (open_session reopen (close_session c.session c.calls)).1 ≡ none
    → (capture_dxgi next again (capture_dxgi env reopen c).0).1 ≡ crashed
unfolding capture_dxgi
capture_dxgi-crashed env next reopen again c d l h =
    capture_dxgi-closed next again (capture_dxgi env reopen c).0 (
      ap (λ r. (after_session c.session reopen r).0.session.dupl)
        (capture_session-lost c.session env c.calls d l)
      ∙ reopened-none c.session (open_session reopen (close_session c.session c.calls)) h)
