-- ===== src/Config/Laws.antt =====
-- Which configurations the program runs with.
use digital_ghost.Prelude.{
  ℤ, ltℤ, AtLeast, AtMost, exceeds_iff, is_below_iff, AtMost-trans, ◌≡◌, refl, ◌≢◌, ◌↔◌, ◌⊎◌, inl,
  inr, Text, Bool, true, false, List, [], ◌∷◌, Option, none, some, arith, not, ◌&&◌, ◌||◌, is_empty,
  text_eq, text_eq_iff, lit, All,
}
use digital_ghost.Prelude.Result.{ok}
use digital_ghost.Config.{
  Floats, Url, Config, ConfigError, first_error, checks, is_unknown_backend, is_remote, validate,
}

abbrev Passes : Bool × ConfigError → Type 0
Passes (b, e) = b ≡ false

first_error_iff : (l : List (Bool × ConfigError)) → (first_error l ≡ ok tt) ↔ All Passes l
unfolding first_error
first_error_iff [] = (λ h. tt, λ h. refl)
first_error_iff ((true, e) ∷ l) = (λ h. absurd cc, λ (p, h). absurd cc)
first_error_iff ((false, e) ∷ l) =
    let (to, from) = first_error_iff l in (λ h. (refl, to h), λ (p, h). from h)

or_iff : (a b : Bool) → ((a || b) ≡ false) ↔ ((a ≡ false) × (b ≡ false))
or_iff a b = ground arith

-- `http` to the machine itself.
pub record IsLocal (u : Url) : Type 0 where
  pub scheme : u.scheme ≡ lit "http"
  pub host : (u.hostname ≡ lit "127.0.0.1") ⊎ (u.hostname ≡ lit "localhost")

-- The URL parses, and to a local one.
abbrev pub IsLocalUrl : Option Url → Type 0
IsLocalUrl none = ⊥
IsLocalUrl (some u) = IsLocal u

local_bits :
    (s l h : Bool)
    → ((not s || (not l && not h)) ≡ false) ↔ ((s ≡ true) × ((l ≡ true) ⊎ (h ≡ true)))
local_bits s l h = ground arith

is_remote_iff : (o : Option Url) → (is_remote o ≡ false) ↔ IsLocalUrl o
is_remote_iff none = (λ h. absurd cc, λ h. absurd h)
is_remote_iff (some u) =
    let (to, from) =
      local_bits (text_eq u.scheme (lit "http")) (text_eq u.hostname (lit "127.0.0.1"))
        (text_eq u.hostname (lit "localhost")) in
    let (s_to, s_from) = text_eq_iff u.scheme (lit "http") in
    let (l_to, l_from) = text_eq_iff u.hostname (lit "127.0.0.1") in
    let (h_to, h_from) = text_eq_iff u.hostname (lit "localhost") in
    (
      λ h.
          let (s, host) = to h in
          record {
            scheme = s_to s;
            host = elim host [ inl l ↦ inl (l_to l) | inr h ↦ inr (h_to h) ];
          },
      λ h. from (s_from h.scheme, elim h.host [ inl l ↦ inl (l_from l) | inr h ↦ inr (h_from h) ]),
    )

-- One of the two backends, or none given.
abbrev pub IsBackend : Text → Type 0
IsBackend b = (b ≡ []) ⊎ (b ≡ lit "gdi") ⊎ (b ≡ lit "dxgi")

backend_bits :
    (e g d : Bool) → ((not e && (not g && not d)) ≡ false) ↔ ((e ≡ true) ⊎ (g ≡ true) ⊎ (d ≡ true))
backend_bits e g d = ground arith

is_nil : (s : Text) → (is_empty s ≡ true) ↔ (s ≡ [])
is_nil [] = (λ h. refl, λ h. refl)
is_nil (c ∷ s) = (λ h. absurd cc, λ h. absurd cc)

is_unknown_backend_iff : (b : Text) → (is_unknown_backend b ≡ false) ↔ IsBackend b
is_unknown_backend_iff b =
    let (to, from) = backend_bits (is_empty b) (text_eq b (lit "gdi")) (text_eq b (lit "dxgi")) in
    let (e_to, e_from) = is_nil b in
    let (g_to, g_from) = text_eq_iff b (lit "gdi") in
    let (d_to, d_from) = text_eq_iff b (lit "dxgi") in
    (
      λ h. elim (to h) [
        | inl e ↦ inl (e_to e)
        | inr r ↦ elim r [ inl g ↦ inr (inl (g_to g)) | inr d ↦ inr (inr (d_to d)) ]
      ],
      λ h. from (elim h [
        | inl e ↦ inl (e_from e)
        | inr r ↦ elim r [ inl g ↦ inr (inl (g_from g)) | inr d ↦ inr (inr (d_from d)) ]
      ]),
    )

is_empty_iff : (s : Text) → (is_empty s ≡ false) ↔ (s ≢ [])
is_empty_iff [] = (λ h. absurd cc, λ h. absurd (h refl))
is_empty_iff (c ∷ s) = (λ h e. absurd cc, λ h. refl)

abbrev pub with_rate : {F : Type 0} → ℤ → Config F → Config F
with_rate rate c = record {
  capture = c.capture;
  resource_budget = record {
    max_cpu_pct = c.resource_budget.max_cpu_pct;
    max_gpu_pct = c.resource_budget.max_gpu_pct;
    max_inference_per_min = rate;
    cpu_idle_threshold = c.resource_budget.cpu_idle_threshold;
    gpu_idle_threshold = c.resource_budget.gpu_idle_threshold;
  };
  inference = c.inference;
  semantic_filter = c.semantic_filter;
  storage = c.storage;
  logging = c.logging;
}

module _ {F : Type 0} (floats : Floats F) (parse_url : Text → Option Url) where
  -- A configuration that the program may run with. The bounds on floats are stated by the tests that
  -- fail, since a NaN fails them all.
  pub record IsSafe (c : Config F) : Type 0 where
    pub cpu_least : AtLeast 1 c.resource_budget.max_cpu_pct
    pub cpu_most : AtMost 80 c.resource_budget.max_cpu_pct
    pub gpu_most : AtMost 80 c.resource_budget.max_gpu_pct
    pub retention_least : AtLeast 1 c.storage.retention_days
    pub retention_le : ltℤ c.storage.max_retention_days c.storage.retention_days ≡ false
    pub retention_most : AtMost 730 c.storage.retention_days
    pub max_retention_most : AtMost 730 c.storage.max_retention_days
    pub fps_positive : floats.le c.capture.fps (floats.tenths 0) ≡ false
    pub fps_most : floats.lt (floats.tenths 300) c.capture.fps ≡ false
    pub backend : IsBackend c.capture.backend
    pub queue_least : AtLeast 10 c.capture.queue_depth
    pub queue_most : AtMost 10000 c.capture.queue_depth
    pub engagement_least :
        floats.lt c.semantic_filter.min_engagement_score (floats.tenths 0) ≡ false
    pub engagement_most :
        floats.lt (floats.tenths 10) c.semantic_filter.min_engagement_score ≡ false
    pub timeout_least : AtLeast 5 c.inference.timeout_sec
    pub timeout_most : AtMost 300 c.inference.timeout_sec
    pub url : c.inference.ollama_url ≢ []
    pub local : IsLocalUrl (parse_url c.inference.ollama_url)
    pub model : c.inference.model ≢ []
    pub embed_model : c.inference.embed_model ≢ []

  pub checks-IsSafe : (c : Config F) → All Passes (checks floats parse_url c) → IsSafe c
  checks-IsSafe c
        (
          p1,
          (
            p2,
            (p3, (p4, (p5, (p6, (p7, (p8, (p9, (p10, (p11, (p12, (p13, (p14, (p15, u))))))))))))),
          ),
        ) =
      let (fps1, fps2) = (or_iff _ _).0 p7 in
      let (q1, q2) = (or_iff _ _).0 p9 in
      let (e1, e2) = (or_iff _ _).0 p10 in
      let (t1, t2) = (or_iff _ _).0 p11 in
      record {
        cpu_most = (exceeds_iff c.resource_budget.max_cpu_pct 80).0 p1;
        cpu_least = (is_below_iff c.resource_budget.max_cpu_pct 1).0 p2;
        gpu_most = (exceeds_iff c.resource_budget.max_gpu_pct 80).0 p3;
        retention_le = p4;
        max_retention_most = (exceeds_iff c.storage.max_retention_days 730).0 p5;
        retention_most =
            AtMost-trans c.storage.retention_days c.storage.max_retention_days 730 p4
              ((exceeds_iff c.storage.max_retention_days 730).0 p5);
        retention_least = (is_below_iff c.storage.retention_days 1).0 p6;
        fps_positive = fps1;
        fps_most = fps2;
        backend = (is_unknown_backend_iff c.capture.backend).0 p8;
        queue_least = (is_below_iff c.capture.queue_depth 10).0 q1;
        queue_most = (exceeds_iff c.capture.queue_depth 10000).0 q2;
        engagement_least = e1;
        engagement_most = e2;
        timeout_least = (is_below_iff c.inference.timeout_sec 5).0 t1;
        timeout_most = (exceeds_iff c.inference.timeout_sec 300).0 t2;
        url = (is_empty_iff c.inference.ollama_url).0 p12;
        local = (is_remote_iff (parse_url c.inference.ollama_url)).0 p13;
        model = (is_empty_iff c.inference.model).0 p14;
        embed_model = (is_empty_iff c.inference.embed_model).0 p15;
      }

  pub IsSafe-checks : (c : Config F) → IsSafe c → All Passes (checks floats parse_url c)
  IsSafe-checks c s = (
    (exceeds_iff c.resource_budget.max_cpu_pct 80).1 s.cpu_most,
    (
      (is_below_iff c.resource_budget.max_cpu_pct 1).1 s.cpu_least,
      (
        (exceeds_iff c.resource_budget.max_gpu_pct 80).1 s.gpu_most,
        (
          s.retention_le,
          (
            (exceeds_iff c.storage.max_retention_days 730).1 s.max_retention_most,
            (
              (is_below_iff c.storage.retention_days 1).1 s.retention_least,
              (
                (or_iff _ _).1 (s.fps_positive, s.fps_most),
                (
                  (is_unknown_backend_iff c.capture.backend).1 s.backend,
                  (
                    (or_iff _ _).1 (
                      (is_below_iff c.capture.queue_depth 10).1 s.queue_least,
                      (exceeds_iff c.capture.queue_depth 10000).1 s.queue_most,
                    ),
                    (
                      (or_iff _ _).1 (s.engagement_least, s.engagement_most),
                      (
                        (or_iff _ _).1 (
                          (is_below_iff c.inference.timeout_sec 5).1 s.timeout_least,
                          (exceeds_iff c.inference.timeout_sec 300).1 s.timeout_most,
                        ),
                        (
                          (is_empty_iff c.inference.ollama_url).1 s.url,
                          (
                            (is_remote_iff (parse_url c.inference.ollama_url)).1 s.local,
                            (
                              (is_empty_iff c.inference.model).1 s.model,
                              ((is_empty_iff c.inference.embed_model).1 s.embed_model, tt),
                            ),
                          ),
                        ),
                      ),
                    ),
                  ),
                ),
              ),
            ),
          ),
        ),
      ),
    ),
  )

  -- The validation accepts a configuration exactly if it is safe: CPU between 1 and 80 percent,
  -- GPU at most 80, retention between 1 day, its maximum and 730 days, frame rate, engagement
  -- score, queue and timeout in their ranges, a known backend, two models named, and an Ollama
  -- URL with http to 127.0.0.1 or localhost.
  pub validate_iff : (c : Config F) → (validate floats parse_url c ≡ ok tt) ↔ IsSafe c
  unfolding validate
  validate_iff c =
      let (to, from) = first_error_iff (checks floats parse_url c) in
      (λ h. checks-IsSafe c (to h), λ s. from (IsSafe-checks c s))

  -- The rate of inference is not looked at.
  pub validate_any_rate :
      (c : Config F) (rate : ℤ)
      → validate floats parse_url (with_rate rate c) ≡ validate floats parse_url c
  unfolding validate
  validate_any_rate c rate = refl
