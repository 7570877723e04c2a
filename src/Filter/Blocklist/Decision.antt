-- ===== src/Filter/Blocklist/Decision.antt =====
-- Which windows `Check` of internal/filter/blocklist.go blocks.
use digital_ghost.Prelude.{
  Text, Bool, true, not, ◌&&◌, ◌||◌, List, [], ◌∷◌, ◌++◌, ◌≡◌, refl, ◌≢◌, ◌↔◌, ◌⊎◌, inl, inr, arith,
  text_eq, text_eq_iff, is_empty, contains, contains-append, contains_parts, any, Any, any-Any,
  Any-any, Any-mono, is_some, is_some-find?, &&_iff,
}
use digital_ghost.Filter.Blocklist.{
  Libs, Regexp, CompiledBlocklist, WindowContext, member, first_match, lower, check_url,
  check_compiled,
}

-- A text that has `p` somewhere in it.
abbrev pub Contains : Text → Text → Type 0
Contains s p = (u : Text) × (v : Text) × (s ≡ u ++ (p ++ v))

-- A text that is there and that one of the patterns matches.
abbrev pub Matches : List Regexp → Text → Type 0
Matches res s = (s ≢ []) × Any (λ r. r.matches s ≡ true) res

-- A window that a compiled blocklist is meant to keep from capture.
abbrev pub IsSensitive : Libs → CompiledBlocklist → WindowContext → Type 0
IsSensitive L c w =
    Any (λ a. lower L w.process_name ≡ a) c.apps
    ⊎ (Any (λ p. Contains (lower L w.process_name) p) c.auth_patterns
        ⊎ (Matches c.url_regexps w.browser_url
            ⊎ (Matches c.title_regexps w.window_title
                ⊎ ((w.focused_input_role ≢ [])
                    × Any (λ r. lower L w.focused_input_role ≡ r) c.sensitive_inputs))))

unfoldable pub matches_any : List Regexp → Text → Bool
matches_any res s = not (is_empty s) && any (λ r. r.matches s) res

-- The five tests of `Check` as one Boolean.
unfoldable pub hits : Libs → CompiledBlocklist → WindowContext → Bool
hits L c w =
    member (lower L w.process_name) c.apps
    || (any (λ p. contains (lower L w.process_name) p) c.auth_patterns
        || (matches_any c.url_regexps w.browser_url
            || (matches_any c.title_regexps w.window_title
                || (not (is_empty w.focused_input_role)
                    && member (lower L w.focused_input_role) c.sensitive_inputs))))

is_some-first_match :
    (res : List Regexp) (s : Text) → is_some (first_match res s) ≡ matches_any res s
unfolding first_match matches_any
is_some-first_match res [] = refl
is_some-first_match res (c ∷ s) = is_some-find? (λ r. r.matches (c ∷ s)) res

module _ (L : Libs) (c : CompiledBlocklist) (w : WindowContext) where
  check_url-blocked : (check_url L c w).blocked ≡ (
      matches_any c.url_regexps w.browser_url
      || (matches_any c.title_regexps w.window_title
          || (not (is_empty w.focused_input_role)
              && member (lower L w.focused_input_role) c.sensitive_inputs)))
  unfolding check_url
  check_url-blocked = ground (
    arith,
    is_some-first_match c.url_regexps w.browser_url,
    is_some-first_match c.title_regexps w.window_title,
  )

  pub check_compiled-blocked : (check_compiled L c w).blocked ≡ hits L c w
  unfolding check_compiled hits
  check_compiled-blocked = ground (arith, check_url-blocked)

pub member_iff : (k : Text) (m : List Text) → (member k m ≡ true) ↔ Any (λ a. k ≡ a) m
unfolding member
member_iff k m = (
  λ h. Any-mono m (λ a. (text_eq_iff k a).0) (any-Any (text_eq k) m h),
  λ h. Any-any (text_eq k) m (Any-mono m (λ a. (text_eq_iff k a).1) h),
)

contains_iff : (s p : Text) → (contains s p ≡ true) ↔ Contains s p
contains_iff s p = (contains_parts s p, λ h. rw h.2 (contains-append h.0 p h.1))

any-contains_iff :
    (s : Text) (ps : List Text) → (any (λ p. contains s p) ps ≡ true) ↔ Any (λ p. Contains s p) ps
any-contains_iff s ps = (
  λ h. Any-mono ps (λ p. (contains_iff s p).0) (any-Any (λ p. contains s p) ps h),
  λ h. Any-any (λ p. contains s p) ps (Any-mono ps (λ p. (contains_iff s p).1) h),
)

not-is_empty_iff : (s : Text) → (not (is_empty s) ≡ true) ↔ (s ≢ [])
not-is_empty_iff [] = (λ h. cc, λ h. absurd (h refl))
not-is_empty_iff (c ∷ s) = (λ h e. cc, λ h. refl)

matches_any_iff : (res : List Regexp) (s : Text) → (matches_any res s ≡ true) ↔ Matches res s
unfolding matches_any
matches_any_iff res s = (
  λ h.
      let (p, q) = (&&_iff _ _).0 h in ((not-is_empty_iff s).0 p, any-Any (λ r. r.matches s) res q),
  λ h. (&&_iff _ _).1 ((not-is_empty_iff s).1 h.0, Any-any (λ r. r.matches s) res h.1),
)

||_cases : (a b : Bool) → (a || b) ≡ true → (a ≡ true) ⊎ (b ≡ true)
||_cases a b h = ground arith

||_left : (a b : Bool) → a ≡ true → (a || b) ≡ true
||_left a b h = ground arith

||_right : (a b : Bool) → b ≡ true → (a || b) ≡ true
||_right a b h = ground arith

-- A disjunction of tests states the disjunction of what they state.
||_iff : {P Q : Type 0} (a b : Bool) → (a ≡ true) ↔ P → (b ≡ true) ↔ Q → ((a || b) ≡ true) ↔ (P ⊎ Q)
||_iff {P} {Q} a b f g = (λ h. forth (||_cases a b h), back)
  where
    forth : (a ≡ true) ⊎ (b ≡ true) → P ⊎ Q
    forth (inl h) = inl (f.0 h)
    forth (inr h) = inr (g.0 h)

    back : P ⊎ Q → (a || b) ≡ true
    back (inl h) = ||_left a b (f.1 h)
    back (inr h) = ||_right a b (g.1 h)

role_iff :
    (L : Libs) (c : CompiledBlocklist) (w : WindowContext)
    → ((not (is_empty w.focused_input_role)
          && member (lower L w.focused_input_role) c.sensitive_inputs)
        ≡ true)
      ↔ ((w.focused_input_role ≢ [])
          × Any (λ r. lower L w.focused_input_role ≡ r) c.sensitive_inputs)
role_iff L c w = (
  λ h.
      let (p, q) = (&&_iff _ _).0 h in
      ((not-is_empty_iff w.focused_input_role).0 p, (member_iff _ c.sensitive_inputs).0 q),
  λ h.
      (&&_iff _ _).1
        ((not-is_empty_iff w.focused_input_role).1 h.0, (member_iff _ c.sensitive_inputs).1 h.1),
)

-- A compiled blocklist blocks a window exactly if its process name is listed or has an
-- authentication pattern in it, or its URL or title is there and matches a pattern, or the
-- focused input has a listed role, with names and roles compared in lower case.
pub check_iff :
    (L : Libs) (c : CompiledBlocklist) (w : WindowContext)
    → ((check_compiled L c w).blocked ≡ true) ↔ IsSensitive L c w
unfolding hits
check_iff L c w = rw check_compiled-blocked (
    ||_iff _ _ (member_iff _ c.apps) (
      ||_iff _ _ (any-contains_iff _ c.auth_patterns) (
        ||_iff _ _ (matches_any_iff c.url_regexps w.browser_url)
          (||_iff _ _ (matches_any_iff c.title_regexps w.window_title) (role_iff L c w)))))
