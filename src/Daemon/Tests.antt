-- ===== src/Daemon/Tests.antt =====
-- A first start of the daemon, on which the user gives consent.
use digital_ghost.Prelude.{
  ℕ, ◌≡◌, refl, ltb, leb, Text, true, false, [], ◌∷◌, none, some, replicate, lit,
}
use digital_ghost.Prelude.Result.{ok}
use digital_ghost.Config.{Floats, defaults}
use digital_ghost.Storage.Hex.{hex_encode}
use digital_ghost.Storage.Encrypt.{new_encryptor}
use digital_ghost.Storage.Keychain.{no_entry, new_key_manager, generate_key}
use digital_ghost.Tray.Consent.{
  missing, dialog_hash, sign_record, is_consent_granted, request_consent, signed, commit,
  load_consent_record,
}
use digital_ghost.Tray.Consent.Tests.{packages, env}
use digital_ghost.Inference.Client.{response}
use digital_ghost.Inference.Requests.{HttpAnswer, ping}
use digital_ghost.Inference.Throttle.{first_governor, new_governor}
use digital_ghost.Filter.Blocklist.Reload.{new_blocklist}
use digital_ghost.Filter.Blocklist.Tests.{word_libs, word_defaults, word_defaults_valid, some_yaml}
use digital_ghost.Capture.Gate.{new_gate}
use digital_ghost.Daemon.{
  Flags, no_file, StartEnv, Stored, Daemon, started, prepare, consent, check_model, components,
  dispatch, ensure_default_blocklist, start,
}
use digital_ghost.Daemon.Requirements.{IsStarted, start-IsStarted}

abbrev tenths : Floats ℕ
tenths = record { lt = ltb; le = leb; tenths = λ n. n }

abbrev key_of : Text → Text → Text
key_of p salt = replicate 32 9

abbrev no_flags : Flags
no_flags = record { wipe = false; confirm = false; status = false }

abbrev fresh : Stored
fresh = record { keychain = no_entry; consent = missing }

-- Ollama does not answer, and there is no blocklist file.
abbrev first_env : StartEnv ℕ
first_env = record {
  uid = 1000;
  config = ok (defaults tenths);
  data_dir_made = true;
  key_env = record { entropy = some (replicate 64 3); stored = true };
  version = 1 ∷ [];
  upgraded = true;
  request = env;
  tray_icon = true;
  pinged = HttpAnswer.no_response;
  tags = response 500 none;
  has_home = true;
  blocklist_path = [];
  blocklist_file = no_file;
  default_blocklist = lit "x";
  default_written = true;
  watcher_ok = true;
  store_opened = true;
  api_token = some (replicate 16 4);
}

abbrev daemon : Daemon ℕ
daemon = record {
  keyed = record {
    config = defaults tenths;
    key_manager = record { key = replicate 32 9 };
    encryptor = record { key = replicate 32 9 };
  };
  gate = new_gate (record { current = some word_defaults; healthy = true; watching = false });
  governor = first_governor (defaults tenths).resource_budget 6;
  csrf_random = replicate 16 4;
}

first_start :
    (start packages word_libs some_yaml key_of no_flags first_env fresh).1 ≡ started daemon
unfolding start prepare dispatch consent check_model components ensure_default_blocklist defaults
    new_key_manager generate_key new_encryptor is_consent_granted request_consent signed commit
    sign_record dialog_hash hex_encode new_governor new_blocklist lit load_consent_record ping
first_start = rw word_defaults_valid refl

start-IsStarted_example :
    IsStarted packages word_libs some_yaml key_of no_flags first_env fresh daemon
start-IsStarted_example =
    start-IsStarted packages word_libs some_yaml key_of no_flags first_env fresh daemon first_start
