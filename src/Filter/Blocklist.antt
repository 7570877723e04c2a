-- ===== src/Filter/Blocklist.antt =====
-- internal/filter/blocklist.go: the hot-reloadable privacy blocklist.
-- A Go map used as a set is the list of its keys. `regexp.Compile` and `yaml.Unmarshal` are
-- arguments: a compiled pattern is its source text with what it matches.
pub mod Defaults
pub mod Decision
pub mod Merge
pub mod Reload
pub mod Tests
use digital_ghost.Prelude.{
  ℕ, Text, Bool, true, false, List, [], ◌∷◌, ◌++◌, Option, none, some, lit, text_eq, is_empty,
  contains, to_lower, any, find?, if◌then◌else◌,
}
use digital_ghost.Prelude.Result.{Result, ok, err, ◌>>=◌}

-- What the package calls and does not implement.
pub record Libs : Type 0 where
  pub unicode_lower : Text → Text
  pub regexp_compile : Text → Option (Text → Bool)

pub record Regexp : Type 0 where
  pub source : Text
  pub matches : Text → Bool

pub record BlocklistConfig : Type 0 where
  pub apps : List Text
  pub auth_patterns : List Text
  pub url_patterns : List Text
  pub title_patterns : List Text
  pub sensitive_input_roles : List Text

pub record CompiledBlocklist : Type 0 where
  pub apps : List Text
  pub auth_patterns : List Text
  pub url_regexps : List Regexp
  pub title_regexps : List Regexp
  pub sensitive_inputs : List Text

pub record WindowContext : Type 0 where
  pub process_name : Text
  pub window_title : Text
  pub browser_url : Text
  pub focused_input_role : Text
  pub pid : ℕ

pub record BlockDecision : Type 0 where
  pub blocked : Bool
  pub reason : Text

-- `current` is the atomic pointer, `none` where it is nil.
pub record Blocklist : Type 0 where
  pub current : Option CompiledBlocklist
  pub healthy : Bool
  pub watching : Bool

pub data CompileError : Type 0 where
  invalid_url_pattern invalid_title_pattern : Text → CompileError

unfoldable pub member : Text → List Text → Bool
unfolding text_eq
member k m = any (text_eq k) m

-- m[k] = struct{}{}
unfoldable pub add_key : Text → List Text → List Text
unfolding member
add_key k m = if member k m then m else k ∷ m

-- for k := range src { m[k] = struct{}{} }
unfoldable pub add_keys : List Text → List Text → List Text
unfolding add_key
add_keys [] m = m
add_keys (k ∷ src) m = add_keys src (add_key k m)

-- for _, k := range keys { m[strings.ToLower(k)] = struct{}{} }
unfoldable pub add_lowered : (Text → Text) → List Text → List Text → List Text
unfolding add_key to_lower
add_lowered unicode_lower [] m = m
add_lowered unicode_lower (k ∷ keys) m =
    add_lowered unicode_lower keys (add_key (to_lower unicode_lower k) m)

abbrev pub block : Text → BlockDecision
block why = record { blocked = true; reason = why }

abbrev pub pass : BlockDecision
pass = record { blocked = false; reason = lit "pass" }

-- The first pattern that matches a text, if the text is there at all.
unfoldable pub first_match : List Regexp → Text → Option Regexp
first_match res s = if is_empty s then none else find? (λ r. r.matches s) res

module _ (L : Libs) where
  abbrev pub lower : Text → Text
  lower = to_lower L.unicode_lower

  unfoldable pub compile_patterns :
      (Text → CompileError) → List Text → Result CompileError (List Regexp)
  compile_patterns bad [] = ok []
  compile_patterns bad (p ∷ ps) =
      let rest = compile_patterns bad ps in
      elim (L.regexp_compile p) [
        | none ↦ err (bad p)
        | some f ↦ rest >>= λ res. ok (record { source = p; matches = f } ∷ res)
      ]

  unfoldable pub compile : BlocklistConfig → Result CompileError CompiledBlocklist
  unfolding compile_patterns add_lowered
  compile cfg = do
    urls ← compile_patterns invalid_url_pattern cfg.url_patterns
    titles ← compile_patterns invalid_title_pattern cfg.title_patterns
    ok (record {
      apps = add_lowered L.unicode_lower cfg.apps [];
      auth_patterns = add_lowered L.unicode_lower cfg.auth_patterns [];
      url_regexps = urls;
      title_regexps = titles;
      sensitive_inputs = add_lowered L.unicode_lower cfg.sensitive_input_roles [];
    })

  -- Check 5 of `Check`.
  unfoldable pub check_role : CompiledBlocklist → WindowContext → BlockDecision
  check_role c ctx =
      if is_empty ctx.focused_input_role
      then pass
      else if member (lower ctx.focused_input_role) c.sensitive_inputs
      then block (lit "sensitive_input:" ++ ctx.focused_input_role)
      else pass

  -- Checks 4 and 5.
  unfoldable pub check_title : CompiledBlocklist → WindowContext → BlockDecision
  unfolding check_role
  check_title c ctx = elim (first_match c.title_regexps ctx.window_title) [
    | none ↦ check_role c ctx
    | some re ↦ block (lit "title_pattern:" ++ re.source)
  ]

  -- Checks 3 to 5.
  unfoldable pub check_url : CompiledBlocklist → WindowContext → BlockDecision
  unfolding check_title
  check_url c ctx = elim (first_match c.url_regexps ctx.browser_url) [
    | none ↦ check_title c ctx
    | some re ↦ block (lit "url_pattern:" ++ re.source)
  ]

  unfoldable pub check_compiled : CompiledBlocklist → WindowContext → BlockDecision
  unfolding check_url
  check_compiled c ctx =
      let pname = lower ctx.process_name in
      if member pname c.apps
      then block (lit "app_match:" ++ ctx.process_name)
      else if any (λ p. contains pname p) c.auth_patterns
      then block (lit "auth_process:" ++ ctx.process_name)
      else check_url c ctx

  unfoldable pub check : Blocklist → WindowContext → BlockDecision
  check bl ctx = elim bl.current [
    | none ↦ block (lit "blocklist_unavailable")
    | some c ↦ check_compiled c ctx
  ]

unfoldable pub merge_with_defaults : CompiledBlocklist → CompiledBlocklist → CompiledBlocklist
unfolding add_keys
merge_with_defaults src defaults = record {
  apps = add_keys src.apps (add_keys defaults.apps []);
  auth_patterns = add_keys src.auth_patterns (add_keys defaults.auth_patterns []);
  url_regexps = defaults.url_regexps ++ src.url_regexps;
  title_regexps = defaults.title_regexps ++ src.title_regexps;
  sensitive_inputs = add_keys src.sensitive_inputs (add_keys defaults.sensitive_inputs []);
}
