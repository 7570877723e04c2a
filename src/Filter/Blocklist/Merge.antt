-- ===== src/Filter/Blocklist/Merge.antt =====
-- mergeWithDefaults of internal/filter/blocklist.go: what a merged blocklist blocks.
use digital_ghost.Prelude.{
  Text, Bool, true, ◌||◌, List, [], ◌∷◌, ◌++◌, ◌≡◌, refl, arith, text_eq, contains, any, Any-any,
  Any-mono, any-append,
}
use digital_ghost.Filter.Blocklist.{
  Libs, Regexp, CompiledBlocklist, WindowContext, member, add_key, add_keys, lower, check_compiled,
  merge_with_defaults,
}
use digital_ghost.Filter.Blocklist.Decision.{matches_any, hits, check_compiled-blocked, member_iff}

module _ (f : Text → Bool) where
  any_of_member : (k : Text) (m : List Text) → member k m ≡ true → f k ≡ true → any f m ≡ true
  any_of_member k m h e =
      Any-any f m (Any-mono m (λ a (p : k ≡ a). rw (← p) e) ((member_iff k m).0 h))

  -- A key that is there already adds nothing.
  any-add_key : (k : Text) (m : List Text) → any f (add_key k m) ≡ (f k || any f m)
  unfolding add_key
  any-add_key k m = ground (arith, any_of_member k m)

  any-add_keys : (ks m : List Text) → any f (add_keys ks m) ≡ (any f ks || any f m)
  unfolding add_keys
  any-add_keys [] m = refl
  any-add_keys (k ∷ ks) m = ground (arith, any-add_keys ks (add_key k m), any-add_key k m)

  any-merge : (ks ds : List Text) → any f (add_keys ks (add_keys ds [])) ≡ (any f ks || any f ds)
  any-merge ks ds = ground (arith, any-add_keys ks (add_keys ds []), any-add_keys ds [])

matches_any-append :
    (a b : List Regexp) (s : Text) → matches_any (a ++ b) s ≡ (matches_any a s || matches_any b s)
unfolding matches_any
matches_any-append a b s = ground (arith, any-append (λ r. r.matches s) a b)

member-merge :
    (j : Text) (ks ds : List Text)
    → member j (add_keys ks (add_keys ds [])) ≡ (member j ks || member j ds)
unfolding member
member-merge j ks ds = any-merge (text_eq j) ks ds

-- The merged blocklist blocks a window exactly if the entries of the file or the defaults block
-- it.
pub merge-blocked :
    (L : Libs) (src defaults : CompiledBlocklist) (w : WindowContext)
    → (check_compiled L (merge_with_defaults src defaults) w).blocked
      ≡ ((check_compiled L src w).blocked || (check_compiled L defaults w).blocked)
unfolding merge_with_defaults hits
merge-blocked L src defaults w = ground (
  arith,
  check_compiled-blocked L (merge_with_defaults src defaults) w,
  check_compiled-blocked L src w,
  check_compiled-blocked L defaults w,
  member-merge (lower L w.process_name) src.apps defaults.apps,
  any-merge (λ p. contains (lower L w.process_name) p) src.auth_patterns defaults.auth_patterns,
  matches_any-append defaults.url_regexps src.url_regexps w.browser_url,
  matches_any-append defaults.title_regexps src.title_regexps w.window_title,
  member-merge (lower L w.focused_input_role) src.sensitive_inputs defaults.sensitive_inputs,
)
