-- ===== src/Capture/Dxgi/Counts.antt =====
-- The references that the calls of a session of DXGI take and give back.
use digital_ghost.Prelude.{
  ℕ, ◌+◌, ◌==◌, ◌≡◌, Bool, List, [], ◌∷◌, Option, none, some, arith, inl, inr, if◌then◌else◌,
  Bool-cases, Option-cases,
}
use digital_ghost.Capture.Dxgi.{
  ComCall, acquired, released, frame_acquired, frame_released, mapped, unmapped, Session, OpenEnv,
  NextFrame, wait_timeout, access_lost, not_acquired, resource, CaptureEnv, holding, duplicated,
  open_device, open_session, read_map, with_staging, with_texture, with_next, capture_session,
}

abbrev pub one_if : Bool → ℕ
one_if b = if b then 1 else 0

-- How often a pointer was acquired and released.
abbrev pub acquired_count : ℕ → List ComCall → ℕ
acquired_count h [] = 0
acquired_count h (acquired p ∷ cs) = one_if (p == h) + acquired_count h cs
acquired_count h (released p ∷ cs) = acquired_count h cs
acquired_count h (frame_acquired ∷ cs) = acquired_count h cs
acquired_count h (frame_released ∷ cs) = acquired_count h cs
acquired_count h (mapped ∷ cs) = acquired_count h cs
acquired_count h (unmapped ∷ cs) = acquired_count h cs

abbrev pub released_count : ℕ → List ComCall → ℕ
released_count h [] = 0
released_count h (released p ∷ cs) = one_if (p == h) + released_count h cs
released_count h (acquired p ∷ cs) = released_count h cs
released_count h (frame_acquired ∷ cs) = released_count h cs
released_count h (frame_released ∷ cs) = released_count h cs
released_count h (mapped ∷ cs) = released_count h cs
released_count h (unmapped ∷ cs) = released_count h cs

abbrev pub held : ℕ → Session → ℕ
held h s = one_if (s.device == h) + one_if (s.ctx == h) + one_if (s.dupl == h)

abbrev pub held_if : ℕ → Option Session → ℕ
held_if h none = 0
held_if h (some s) = held h s

-- `k` more references of `h` are held after the calls `after` than after the calls `before`.
abbrev pub Gains : ℕ → (k : ℕ) → (before after : List ComCall) → Type 0
Gains h k before after =
    acquired_count h after + released_count h before
    ≡ k + (released_count h after + acquired_count h before)

-- A part of OpenDXGISession that starts with the device and the context held.
abbrev Opens : ℕ → (device ctx : ℕ) → (List ComCall → List ComCall × Option Session) → Type 0
Opens h device ctx rest =
    (calls : List ComCall)
    → acquired_count h (rest calls).0
        + (released_count h calls + (one_if (device == h) + one_if (ctx == h)))
      ≡ held_if h (rest calls).1 + (released_count h (rest calls).0 + acquired_count h calls)

holding-Opens :
    (h device ctx : ℕ) (o : Option ℕ) (rest : List ComCall → List ComCall × Option Session)
    → Opens h device ctx rest
    → Opens h device ctx (holding device ctx o rest)
holding-Opens h device ctx none rest k calls = omega arith
holding-Opens h device ctx (some p) rest k calls = omega (arith, k (acquired p ∷ calls))

duplicated-Opens :
    (h device ctx : ℕ) (env : OpenEnv) (o : Option ℕ)
    → Opens h device ctx (duplicated device ctx env o)
duplicated-Opens h device ctx env none calls = omega arith
duplicated-Opens h device ctx env (some p) calls = omega arith

open_device-Opens :
    (h device ctx : ℕ) (env : OpenEnv) → Opens h device ctx (open_device device ctx env)
unfolding open_device
open_device-Opens h device ctx env = holding-Opens h device ctx env.dxgi_device _ (
    holding-Opens h device ctx env.adapter _ (
      holding-Opens h device ctx env.output _
        (holding-Opens h device ctx env.output1 _ (duplicated-Opens h device ctx env env.dupl))))

pub open_session-Gains :
    (h : ℕ) (env : OpenEnv) (calls : List ComCall)
    → Gains h (held_if h (open_session env calls).1) calls (open_session env calls).0
unfolding open_session
open_session-Gains h env calls = elim (Option-cases env.device) [
  | inl e ↦ rw (open_session, e) (omega arith)
  | inr ((device, ctx), e) ↦
      rw (open_session, e)
        (omega
          (arith, open_device-Opens h device ctx env (acquired ctx ∷ (acquired device ∷ calls))))
]

read_map-Gains :
    (h : ℕ) (s : Session) (m : Option (ℕ × List ℕ)) (calls : List ComCall)
    → Gains h 0 calls (read_map s m calls).0
read_map-Gains h s none calls = omega arith
read_map-Gains h s (some (pitch, bytes)) calls = omega arith

with_staging-Gains :
    (h : ℕ) (s : Session) (env : CaptureEnv) (o : Option ℕ) (calls : List ComCall)
    → Gains h 0 calls (with_staging s env o calls).0
with_staging-Gains h s env none calls = omega arith
with_staging-Gains h s env (some p) calls =
    omega (arith, read_map-Gains h s env.map (acquired p ∷ calls))

with_texture-Gains :
    (h : ℕ) (s : Session) (env : CaptureEnv) (o : Option ℕ) (calls : List ComCall)
    → Gains h 0 calls (with_texture s env o calls).0
with_texture-Gains h s env none calls = omega arith
with_texture-Gains h s env (some p) calls =
    omega (arith, with_staging-Gains h s env env.staging (acquired p ∷ calls))

with_next-Gains :
    (h : ℕ) (s : Session) (env : CaptureEnv) (n : NextFrame) (calls : List ComCall)
    → Gains h 0 calls (with_next s env n calls).0
with_next-Gains h s env wait_timeout calls = omega arith
with_next-Gains h s env access_lost calls = omega arith
with_next-Gains h s env not_acquired calls = omega arith
with_next-Gains h s env (resource p) calls =
    omega (arith, with_texture-Gains h s env env.texture (frame_acquired ∷ (acquired p ∷ calls)))

pub capture_session-Gains :
    (h : ℕ) (s : Session) (env : CaptureEnv) (calls : List ComCall)
    → Gains h 0 calls (capture_session s env calls).0
unfolding capture_session
capture_session-Gains h s env calls = elim (Bool-cases (s.dupl == 0)) [
  | inl e ↦ rw (capture_session, e) (omega arith)
  | inr e ↦ rw (capture_session, e) (with_next-Gains h s env env.next calls)
]
