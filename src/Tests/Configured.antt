-- ===== src/Tests/Configured.antt =====
-- Runs of the model of pkg/config.
use ocis_ftp_bridge.Prelude.{◌≡◌, Bytes, codes, refl, some, ok, true, false, [], ◌∷◌, ◌++◌}
use ocis_ftp_bridge.Prelude.Int.{pos}
use ocis_ftp_bridge.Config.Credentials.{
  password_patterns, plaintext_password, check_for_plaintext_credentials,
}
use ocis_ftp_bridge.Config.Credentials.Lines.{
  is_some, has_exposed, check_for_plaintext_credentials-has_exposed,
}
use ocis_ftp_bridge.Config.Loading.{
  ConfigFiles, decoded_file, load_file_with_env, load_file_with_env_iff,
}
use ocis_ftp_bridge.Go.Strings.{trim_left, trim_right, split}
use ocis_ftp_bridge.Go.Spaces.{is_blank, trim_space}
use ocis_ftp_bridge.Go.Utf8.{decode_rune, runes_from, runes, encode_rune, write_runes}
use ocis_ftp_bridge.Go.FilePath.{clean}
use ocis_ftp_bridge.Config.Types.{AccountConfig, Config, default_config}
use ocis_ftp_bridge.Config.Passwords.{
  Argon2Params, HashParsers, IsBounded, parse_argon2id, verify_password, verify_password-true,
}
use ocis_ftp_bridge.Config.Validation.{Environment, validate_with_env}
use ocis_ftp_bridge.Config.Valid.{IsValid, validate_with_env-IsValid}

-- Every text decodes to the bytes 0 to 15.
abbrev digest : Bytes
digest = 0 ∷ 1 ∷ 2 ∷ 3 ∷ 4 ∷ 5 ∷ 6 ∷ 7 ∷ 8 ∷ 9 ∷ 10 ∷ 11 ∷ 12 ∷ 13 ∷ 14 ∷ 15 ∷ []

abbrev parsers : HashParsers
parsers = record { scan = λ s. some (65536, 3, 4); decode = λ s. some digest }

abbrev id_key : Bytes → Argon2Params → Bytes
id_key password p = digest

abbrev phc : Bytes
phc = codes "$argon2id$v=19$m=65536,t=3,p=4$c2FsdA$aGFzaA"

is_verified : verify_password parsers id_key phc (codes "secret") ≡ ok true
unfolding verify_password
is_verified = refl

verify_password_example :
    (p : Argon2Params) × (parse_argon2id parsers phc ≡ ok p)
    × (id_key (codes "secret") p ≡ p.hash)
    × IsBounded p
verify_password_example = verify_password-true parsers id_key phc (codes "secret") is_verified

abbrev pub env : Environment
env = record {
  lookup_env = λ name. some (codes "token");
  is_ip = λ text. false;
  parse_url = λ url. some (codes "https", codes "cloud");
  hash_parsers = parsers;
}

abbrev account : AccountConfig
account = record {
  username = codes "printer";
  password_hash = phc;
  ocis = record { username = codes "scan"; app_token_env = codes "TOKEN" };
  target = record { drive_id = []; drive = codes "Scans"; root = codes "/in/" };
  upload = record {
    collision_policy = codes "rename";
    max_size = 1000;
    max_concurrent_uploads = pos 2;
  };
  app_token = [];
}

abbrev pub written : Config
written = record default_config {
  server = record default_config.server {
    tls = record { enabled = true; cert = codes "c"; key = codes "k" };
  };
  accounts = account ∷ [];
}

abbrev pub validated : Config
validated = record written {
  ocis = record {
    url = codes "http://localhost:9200";
    graph_url = codes "http://localhost:9200/graph/v1.0";
    webdav_url = codes "http://localhost:9200/webdav";
  };
  accounts =
      record account {
        app_token = codes "token";
        target = record account.target { root = codes "/in" };
      }
      ∷ [];
}

is_validated : validate_with_env env written ≡ ok validated
unfolding trim_space clean default_config validate_with_env
is_validated = refl

validate_with_env_example : IsValid validated
validate_with_env_example = validate_with_env-IsValid env written validated is_validated

abbrev settings : Bytes
settings = codes "token_env: TOKEN" ++ 10 ∷ codes "  password: ChangeMe" ++ 10 ∷ []

is_exposed :
    check_for_plaintext_credentials (some settings) ≡ some (plaintext_password (codes "password:"))
unfolding check_for_plaintext_credentials
is_exposed = refl

exposed_line_example :
    is_some (check_for_plaintext_credentials (some settings))
    ≡ has_exposed password_patterns (split b'\n' settings)
exposed_line_example = check_for_plaintext_credentials-has_exposed settings

abbrev files : ConfigFiles
files = record {
  read_file = λ name. some settings;
  open_file = λ name. some settings;
  decode = λ text. some written;
}

is_given : is_blank (codes "/c") ≡ false
unfolding trim_space trim_left trim_right decode_rune runes_from runes encode_rune write_runes
is_given = refl

is_decoded : decoded_file files (codes "/c") ≡ ok written
unfolding decoded_file
is_decoded = refl

load_file_example : (load_file_with_env files env (codes "/c")).1 ≡ ok validated
load_file_example =
    (load_file_with_env_iff files env (codes "/c") validated).1
      (is_given, written, is_decoded, is_validated)
