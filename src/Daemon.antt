-- ===== src/Daemon.antt =====
-- cmd/digitalghost/main.go: the start of the daemon in run, up to the goroutines, and the default
-- blocklist file. What the system answers to each step is an argument.
pub mod Steps
pub mod Requirements
pub mod Tests
use digital_ghost.Prelude.{
  ℕ, ◌==◌, Text, Bool, true, false, Option, none, some, is_empty, not, if◌then◌else◌,
}
use digital_ghost.Prelude.Result.{Result, ok, err}
use digital_ghost.Config.{Config, ConfigError, InferenceConfig}
use digital_ghost.Storage.Encrypt.{Encryptor, new_encryptor}
use digital_ghost.Storage.Keychain.{Keychain, KeyError, KeyManager, KeyEnv, new_key_manager}
use digital_ghost.Tray.Consent.{
  Packages, Manager, ConsentFile, ConsentError, RequestEnv, is_consent_granted, request_consent,
}
use digital_ghost.Inference.Client.{ModelError, TagsAnswer, verify_model}
use digital_ghost.Inference.Requests.{HttpAnswer, ping}
use digital_ghost.Inference.Throttle.{Governor, Start, panics, blocks, running, new_governor}
use digital_ghost.Filter.Blocklist.{Libs, BlocklistConfig, Blocklist, CompileError}
use digital_ghost.Filter.Blocklist.Reload.{new_blocklist}
use digital_ghost.Capture.Gate.{Gate, new_gate}

pub record Flags : Type 0 where
  pub wipe : Bool
  pub confirm : Bool
  pub status : Bool

-- blocklist.yaml: none, or one with its text, if it can be read.
pub data BlocklistFile : Type 0 where
  no_file : BlocklistFile
  file : Option Text → BlocklistFile

-- What the steps of the start meet, in their order. `config` is what Load returns, and `upgraded`
-- whether a consent record without a signature can be replaced.
pub record StartEnv (F : Type 0) : Type 0 where
  pub uid : ℕ
  pub config : Result ConfigError (Config F)
  pub data_dir_made : Bool
  pub key_env : KeyEnv
  pub version : Text
  pub upgraded : Bool
  pub request : RequestEnv
  pub tray_icon : Bool
  pub pinged : HttpAnswer (Unit {0})
  pub tags : TagsAnswer
  pub has_home : Bool
  pub blocklist_path : Text
  pub blocklist_file : BlocklistFile
  pub default_blocklist : Text
  pub default_written : Bool
  pub watcher_ok : Bool
  pub store_opened : Bool
  pub api_token : Option Text

-- What a start leaves in the keychain and in the consent file.
pub record Stored : Type 0 where
  pub keychain : Keychain
  pub consent : ConsentFile

pub data StartError : Type 0 where
  is_root no_data_dir no_encryptor not_confirmed no_tray_icon no_home no_store no_token : StartError
  config_failed : ConfigError → StartError
  keychain_failed : KeyError → StartError
  consent_failed : ConsentError → StartError
  model_failed : ModelError → StartError
  blocklist_failed : CompileError → StartError

-- What is there once the encryption is ready.
pub record Keyed (F : Type 0) : Type 0 where
  pub config : Config F
  pub key_manager : KeyManager
  pub encryptor : Encryptor

-- The daemon whose goroutines are started.
pub record Daemon (F : Type 0) : Type 0 where
  pub keyed : Keyed F
  pub gate : Gate
  pub governor : Governor
  pub csrf_random : Text

pub data Outcome (F : Type 0) : Type 0 where
  exited : StartError → Outcome F
  wiping printing_status : Keyed F → Outcome F
  governor_panics governor_blocks : Outcome F
  started : Daemon F → Outcome F

-- What a read of the file gives after ensureDefaultBlocklist.
unfoldable pub ensure_default_blocklist : (written : Bool) → Text → BlocklistFile → Option Text
ensure_default_blocklist written default (file content) = content
ensure_default_blocklist written default no_file = if written then some default else none

-- A model that cannot be verified stops the start only where a digest is pinned.
abbrev pub model_error : (pinned : Text) → Result ModelError Text → Option ModelError
model_error pinned (ok digest) = none
model_error pinned (err e) = if not (is_empty pinned) then some e else none

abbrev pub manager : Text → KeyManager → Manager
manager version km = record { version = version; key = some km.key }

module _ {F : Type 0} where
  -- Without an answer to Ping, the model is not verified.
  unfoldable pub check_model : InferenceConfig → StartEnv F → Option ModelError
  check_model cfg env = elim (ping env.pinged) [
    | err e ↦ none
    | ok u ↦ model_error cfg.model_digest (verify_model cfg.model cfg.model_digest env.tags)
  ]

  abbrev pub first_steps : StartEnv F → Result StartError (Config F)
  first_steps env = if env.uid == 0 then err is_root else elim env.config [
    | err e ↦ err (config_failed e)
    | ok c ↦ if env.data_dir_made then ok c else err no_data_dir
  ]

  abbrev pub with_encryptor :
      Config F → Keychain × Result KeyError KeyManager → Keychain × Result StartError (Keyed F)
  with_encryptor c (k, err e) = (k, err (keychain_failed e))
  with_encryptor c (k, ok km) = (
    k,
    elim (new_encryptor km.key) [
      | err e ↦ err no_encryptor
      | ok enc ↦ ok (record { config = c; key_manager = km; encryptor = enc })
    ],
  )

  -- The steps up to the encryption.
  unfoldable pub prepare :
      (pbkdf2 : Text → Text → Text) → StartEnv F → Keychain → Keychain × Result StartError (Keyed F)
  prepare pbkdf2 env k = elim (first_steps env) [
    | err e ↦ (k, err e)
    | ok c ↦ with_encryptor c (new_key_manager pbkdf2 env.key_env k)
  ]

  module _ (P : Packages) (L : Libs) (yaml_unmarshal : Text → Option BlocklistConfig) where
    abbrev pub unless_granted :
        Manager → StartEnv F → ConsentFile × Bool → ConsentFile × Option ConsentError
    unless_granted m env (f, true) = (f, none)
    unless_granted m env (f, false) = request_consent P m env.request f

    -- The record of an earlier consent, or a request for consent.
    unfoldable pub consent : Manager → StartEnv F → ConsentFile → ConsentFile × Option ConsentError
    consent m env f = unless_granted m env (is_consent_granted P m env.upgraded f)

    abbrev pub with_governor : Keyed F → Blocklist → StartEnv F → Start → Outcome F
    with_governor k bl env panics = governor_panics
    with_governor k bl env blocks = governor_blocks
    with_governor k bl env (running g) =
        if not env.store_opened then exited no_store else elim env.api_token [
          | none ↦ exited no_token
          | some random ↦
              started (record { keyed = k; gate = new_gate bl; governor = g; csrf_random = random })
        ]

    -- From the home directory to the goroutines.
    unfoldable pub components : Keyed F → StartEnv F → Outcome F
    unfolding ensure_default_blocklist
    components k env =
        if not env.has_home
        then exited no_home
        else elim (new_blocklist L yaml_unmarshal env.blocklist_path
            (ensure_default_blocklist env.default_written env.default_blocklist env.blocklist_file)
            env.watcher_ok) [
              | err e ↦ exited (blocklist_failed e)
              | ok bl ↦ with_governor k bl env (new_governor k.config.resource_budget)
            ]

    abbrev pub after_consent :
        Keyed F → StartEnv F → ConsentFile × Option ConsentError → ConsentFile × Outcome F
    after_consent k env (f, some e) = (f, exited (consent_failed e))
    after_consent k env (f, none) =
        if not env.tray_icon
        then (f, exited no_tray_icon)
        else elim (check_model k.config.inference env) [
          | some e ↦ (f, exited (model_failed e))
          | none ↦ (f, components k env)
        ]

    -- The commands, or the daemon.
    unfoldable pub dispatch : Flags → StartEnv F → Keyed F → ConsentFile → ConsentFile × Outcome F
    unfolding consent check_model components
    dispatch flags env k f =
        if flags.wipe
        then (if not flags.confirm then (f, exited not_confirmed) else (f, wiping k))
        else if flags.status
        then (f, printing_status k)
        else after_consent k env (consent (manager env.version k.key_manager) env f)

    abbrev pub with_keychain : Keychain → ConsentFile × Outcome F → Stored × Outcome F
    with_keychain k (f, o) = (record { keychain = k; consent = f }, o)

    abbrev pub prepared :
        Flags
        → StartEnv F
        → ConsentFile
        → Keychain × Result StartError (Keyed F)
        → Stored × Outcome F
    prepared flags env f (k, err e) = (record { keychain = k; consent = f }, exited e)
    prepared flags env f (k, ok keyed) = with_keychain k (dispatch flags env keyed f)

    unfoldable pub start :
        (pbkdf2 : Text → Text → Text) → Flags → StartEnv F → Stored → Stored × Outcome F
    unfolding prepare dispatch
    start pbkdf2 flags env s = prepared flags env s.consent (prepare pbkdf2 env s.keychain)
