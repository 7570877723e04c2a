-- ===== src/Filter/Blocklist/Defaults.antt =====
-- hardcodedDefaults of internal/filter/blocklist.go: the blocklist that is always active.
use digital_ghost.Prelude.{Text, List, [], ◌∷◌, lits}
use digital_ghost.Prelude.Result.{Result}
use digital_ghost.Filter.Blocklist.{Libs, BlocklistConfig, CompiledBlocklist, CompileError, compile}

unfoldable pub default_apps : List Text
unfolding lits
default_apps = lits (
    "1password" ∷ "1password 7" ∷ "1password 8" ∷ "bitwarden" ∷ "keepass" ∷ "keepassxc" ∷ "dashlane"
    ∷ "lastpass" ∷ "keychain access" ∷ "gnome-keyring-daemon" ∷ "kwallet" ∷ "kwalletmanager"
    ∷ "pinentry" ∷ "pinentry-gtk" ∷ "pinentry-qt" ∷ "pinentry-curses" ∷ "pinentry-gnome3"
    ∷ "ssh-askpass" ∷ "seahorse" ∷ [])

unfoldable pub default_auth_procs : List Text
unfolding lits
default_auth_procs = lits ("sudo" ∷ "polkit" ∷ "pkttyagent" ∷ "pkexec" ∷ "consent.exe" ∷ [])

unfoldable pub default_url_patterns : List Text
unfolding lits
default_url_patterns = lits (
    "(?i)^https?://(127\\.0\\.0\\.1|localhost):7327(/|$)" ∷ "(?i)bank" ∷ "(?i)banking"
    ∷ "(?i)paypal\\.com" ∷ "(?i)stripe\\.com/dashboard" ∷ "(?i)\\.irs\\.gov" ∷ "(?i)turbotax\\.com"
    ∷ "(?i)mychart\\.com" ∷ "(?i)epic\\.com" ∷ "(?i)/login" ∷ "(?i)/signin" ∷ "(?i)/auth"
    ∷ "(?i)/password" ∷ "(?i)/2fa" ∷ "(?i)/mfa" ∷ "(?i)/reset-password" ∷ "(?i)/forgot-password"
    ∷ "(?i)mail\\.google\\.com" ∷ "(?i)outlook\\.live\\.com" ∷ "(?i)proton\\.me"
    ∷ "(?i)protonmail\\.com" ∷ [])

unfoldable pub default_title_patterns : List Text
unfolding lits
default_title_patterns = lits (
    "(?i)digital ghost" ∷ "(?i)password" ∷ "(?i)passphrase" ∷ "(?i)secret" ∷ "(?i)private key"
    ∷ "(?i)login" ∷ "(?i)sign in" ∷ "(?i)authenticate" ∷ "(?i)\\.env" ∷ "(?i)credentials"
    ∷ "(?i)api.?key" ∷ "(?i)token" ∷ [])

unfoldable pub default_sensitive_inputs : List Text
unfolding lits
default_sensitive_inputs = lits ("password" ∷ "spinbutton" ∷ [])

unfoldable pub default_config : BlocklistConfig
unfolding default_apps default_auth_procs default_url_patterns default_title_patterns
    default_sensitive_inputs
default_config = record {
  apps = default_apps;
  auth_patterns = default_auth_procs;
  url_patterns = default_url_patterns;
  title_patterns = default_title_patterns;
  sensitive_input_roles = default_sensitive_inputs;
}

-- `err` is the exit of the process by `log.Fatalf`.
unfoldable pub hardcoded_defaults : Libs → Result CompileError CompiledBlocklist
unfolding compile default_config
hardcoded_defaults L = compile L default_config
