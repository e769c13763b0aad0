-- ===== src/Config/Types.antt =====
-- pkg/config/config.go: the settings, as far as the validation reads or writes them, their defaults,
-- and the ways in which they are refused. A Go `int` is an integer, a ByteSize a number below 2 ^ 64.
use ocis_ftp_bridge.Prelude.{ℕ, Bool, true, Bytes, codes, List, []}
use ocis_ftp_bridge.Prelude.Int.{ℤ, pos}

pub record PassiveConfig : Type 0 where
  pub min_port : ℤ
  pub max_port : ℤ
  pub public_ip : Bytes

pub record TlsConfig : Type 0 where
  pub enabled : Bool
  pub cert : Bytes
  pub key : Bytes

pub record ServerConfig : Type 0 where
  pub listen : Bytes
  pub passive : PassiveConfig
  pub tls : TlsConfig
  pub max_connections : ℤ

pub record OcisConfig : Type 0 where
  pub url : Bytes
  pub graph_url : Bytes
  pub webdav_url : Bytes

pub record SpoolConfig : Type 0 where
  pub directory : Bytes
  pub max_total_size : ℕ
  pub max_size : ℕ

pub record AccountOcisConfig : Type 0 where
  pub username : Bytes
  pub app_token_env : Bytes

pub record TargetConfig : Type 0 where
  pub drive_id : Bytes
  pub drive : Bytes
  pub root : Bytes

pub record UploadConfig : Type 0 where
  pub collision_policy : Bytes
  pub max_size : ℕ
  pub max_concurrent_uploads : ℤ

pub record AccountConfig : Type 0 where
  pub username : Bytes
  pub password_hash : Bytes
  pub ocis : AccountOcisConfig
  pub target : TargetConfig
  pub upload : UploadConfig
  pub app_token : Bytes

pub record HttpAuthConfig : Type 0 where
  pub enabled : Bool
  pub method : Bytes
  pub username : Bytes
  pub password : Bytes
  pub bearer_token : Bytes
  pub bearer_token_env : Bytes

pub record HttpConfig : Type 0 where
  pub address : Bytes
  pub auth : HttpAuthConfig

pub record Config : Type 0 where
  pub server : ServerConfig
  pub ocis : OcisConfig
  pub spool : SpoolConfig
  pub accounts : List AccountConfig
  pub http : HttpConfig

pub data ConfigError : Type 0 where
  size_empty size_invalid size_overflow : ConfigError
  listen_required address_format port_required port_invalid port_range hostname_invalid :
      ConfigError
  passive_range public_ip_invalid : ConfigError
  tls_files_required : ConfigError
  ocis_url_invalid graph_url_invalid webdav_url_invalid : ConfigError
  http_username_required http_token_required http_token_unset http_method_required : ConfigError
  http_method_invalid : ConfigError
  spool_directory_relative spool_size_zero : ConfigError
  no_accounts username_required duplicate_username : ConfigError
  hash_malformed hash_parameters hash_salt hash_digest hash_digest_too_long example_hash :
      ConfigError
  ocis_username_required token_env_required token_unset target_required : ConfigError
  root_relative root_traversal : ConfigError
  policy_invalid max_size_zero concurrent_negative max_size_too_large : ConfigError

-- The defaults of `New`; the file's settings replace them.
unfoldable pub default_config : Config
default_config = record {
  server = record {
    listen = codes ":2121";
    passive = record { min_port = pos 40000; max_port = pos 50000; public_ip = [] };
    tls = record { enabled = true; cert = []; key = [] };
    max_connections = pos 100;
  };
  ocis = record { url = codes "http://localhost:9200"; graph_url = []; webdav_url = [] };
  spool = record {
    directory = codes "/var/tmp/ocis-ftp-bridge-spool";
    max_total_size = 1073741824;
    max_size = 1073741824;
  };
  accounts = [];
  http = record {
    address = codes "127.0.0.1:9090";
    auth = record {
      enabled = true;
      method = codes "basic";
      username = codes "admin";
      password = [];
      bearer_token = [];
      bearer_token_env = [];
    };
  };
}
