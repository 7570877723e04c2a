-- ===== src/Capture/Windows/Names.antt =====
-- The names of processes that the gate is asked about.
use mathlib.Core.List.{reverse, reverse-append}
use digital_ghost.Prelude.{
  ℕ, ◌+◌, ◌-◌, ◌^◌, ◌%◌, ◌<◌, ◌≤◌, ◌≡◌, refl, ap, ◌∙◌, inl, inr, Text, Bool, true, false, List, [],
  ◌∷◌, ◌++◌, none, some, arith, any, All, lit, lits, text_eq, text_eq→≡, has_prefix, contains,
  to_lower, Bool-cases,
}
use digital_ghost.Prelude.Result.{ok, Result-cases}
use digital_ghost.Filter.Blocklist.{
  Libs, BlocklistConfig, CompiledBlocklist, Blocklist, invalid_url_pattern, invalid_title_pattern,
  compile, compile_patterns, member, add_lowered, add_key, check, check_compiled, check_url,
  check_title, check_role, first_match,
}
use digital_ghost.Filter.Blocklist.Defaults.{default_apps, default_config, hardcoded_defaults}
use digital_ghost.Capture.Gate.{background_block, process_only}
use digital_ghost.Capture.Windows.{since_last_input}

abbrev has_suffix : Text → Text → Bool
has_suffix s p = has_prefix (reverse s) (reverse p)

has_prefix-append : (p v : Text) → has_prefix (p ++ v) p ≡ true
unfolding has_prefix
has_prefix-append [] [] = refl
has_prefix-append [] (x ∷ v) = refl
has_prefix-append (c ∷ p) v = ground (arith, has_prefix-append p v)

has_suffix-append : (s p : Text) → has_suffix (s ++ p) p ≡ true
has_suffix-append s p = rw (reverse-append s p) (has_prefix-append (reverse p) (reverse s))

not_member :
    (s p : Text) (m : List Text) → any (λ a. has_suffix a p) m ≡ false → member (s ++ p) m ≡ false
unfolding member
not_member s p [] h = refl
not_member s p (a ∷ m) h = elim (Bool-cases (text_eq (s ++ p) a)) [
  | inr e ↦ ground (arith, not_member s p m)
  | inl e ↦
      let same : has_suffix a p ≡ true = rw (← text_eq→≡ (s ++ p) a e) (has_suffix-append s p) in
      absurd (ground arith)
]

compile-apps :
    (L : Libs) (cfg : BlocklistConfig) (c : CompiledBlocklist)
    → compile L cfg ≡ ok c
    → c.apps ≡ add_lowered L.unicode_lower cfg.apps []
unfolding compile
compile-apps L cfg c h =
    elim (Result-cases (compile_patterns L invalid_url_pattern cfg.url_patterns)) [
      | inr (e, q) ↦ absurd (ground arith)
      | inl (urls, q) ↦
          elim (Result-cases (compile_patterns L invalid_title_pattern cfg.title_patterns)) [
            | inr (e, z) ↦ absurd (ground arith)
            | inl (titles, z) ↦ ground arith
          ]
    ]

-- No app of the hardcoded blocklist has a name with this ending.
default_apps-exe :
    (L : Libs)
    → any (λ a. has_suffix a (lit ".exe")) (add_lowered L.unicode_lower default_apps []) ≡ false
unfolding add_lowered add_key member text_eq to_lower default_apps lits lit has_prefix
default_apps-exe L = refl

-- A name that ends in .exe and has no authentication pattern in it.
pub record IsExe (L : Libs) (c : CompiledBlocklist) (name : Text) : Type 0 where
  pub stem : Text
  pub ends : to_lower L.unicode_lower name ≡ stem ++ lit ".exe"
  pub no_auth : any (λ p. contains (to_lower L.unicode_lower name) p) c.auth_patterns ≡ false

hardcoded-apps :
    (L : Libs) (c : CompiledBlocklist)
    → hardcoded_defaults L ≡ ok c
    → c.apps ≡ add_lowered L.unicode_lower default_apps []
unfolding hardcoded_defaults default_config
hardcoded-apps L c h = compile-apps L default_config c h

exe_not_listed :
    (L : Libs) (c : CompiledBlocklist) (s stem : Text)
    → hardcoded_defaults L ≡ ok c
    → s ≡ stem ++ lit ".exe"
    → member s c.apps ≡ false
exe_not_listed L c s stem h e =
    ap (λ k. member k c.apps) e
    ∙ ap (member (stem ++ lit ".exe")) (hardcoded-apps L c h)
    ∙ not_member stem (lit ".exe") (add_lowered L.unicode_lower default_apps [])
        (default_apps-exe L)

process_only-passes :
    (L : Libs) (c : CompiledBlocklist) (name : Text)
    → member (to_lower L.unicode_lower name) c.apps ≡ false
    → any (λ p. contains (to_lower L.unicode_lower name) p) c.auth_patterns ≡ false
    → (check_compiled L c (process_only name)).blocked ≡ false
unfolding check_compiled check_url check_title check_role first_match
process_only-passes L c name out no_auth = rw (out, no_auth) refl

check_compiled-exe :
    (L : Libs) (c : CompiledBlocklist) (name : Text)
    → hardcoded_defaults L ≡ ok c
    → IsExe L c name
    → (check_compiled L c (process_only name)).blocked ≡ false
check_compiled-exe L c name h e =
    process_only-passes L c name (exe_not_listed L c _ e.stem h e.ends) e.no_auth

-- With the hardcoded blocklist, the gate finds nothing behind the window in front if the names of
-- the processes there end in .exe and have no authentication pattern in them, whichever programs
-- they are.
pub background_block-exe :
    (L : Libs) (bl : Blocklist) (c : CompiledBlocklist) (names : List Text)
    → hardcoded_defaults L ≡ ok c
    → bl.current ≡ some c
    → All (IsExe L c) names
    → background_block L bl names ≡ none
unfolding background_block check
background_block-exe L bl c [] h e all = refl
background_block-exe L bl c (n ∷ ns) h e (exe, all) =
    rw (e, check_compiled-exe L c n h exe) (background_block-exe L bl c ns h e all)

-- The time since the last input is right until 2^32 milliseconds have passed, although both counters
-- of Windows wrap around at that number.
pub since_last_input-exact :
    (last now : ℕ)
    → last ≤ now
    → now < last + 2 ^ 32
    → since_last_input (some (last % 2 ^ 32)) now ≡ now - last
unfolding since_last_input
since_last_input-exact last now h k = omega arith
