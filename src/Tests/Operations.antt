-- ===== src/Tests/Operations.antt =====
-- Runs of the models of pkg/http and pkg/observability, and of the Graph client under the resolver.
use ocis_ftp_bridge.Prelude.{
  refl, Bool, false, ◌+◌, ◌*◌, ◌≤◌, ◌≡◌, ◌↔◌, arith, Bytes, codes, none, some, true, if◌then◌else◌,
  List, [], ◌∷◌, ◌++◌, ok, err, same, length,
}
use ocis_ftp_bridge.Http.Auth.{AuthConfig, Request, bearer}
use ocis_ftp_bridge.Http.Json.{escape_json}
use ocis_ftp_bridge.Http.Json.Reading.{read_string, unless, has_control_character, read-escape_json}
use ocis_ftp_bridge.Http.Health.{Outside, HealthCheckConfig, answered, a_directory}
use ocis_ftp_bridge.Http.Server.{
  OperationsServer, new_operations_server, health_check_cache_ttl, readyz,
}
use ocis_ftp_bridge.Http.Server.CheckRate.{
  Call, IsPast, Follows, after_calls, end_of, after_calls_rate,
}
use ocis_ftp_bridge.Http.Server.Readiness.{Passes}
use ocis_ftp_bridge.Http.Server.Ready.{IsPassing, readyz_iff}
use ocis_ftp_bridge.Observability.{
  Logger, stdout, Logger, stdout, Use, debug, info, warn, error, a_message, a_level, rank,
  parse_level, new_logger, use_logger, passing, use_logger_written,
}
use ocis_ftp_bridge.Graph.Resolver.{resolve_target, not_configured, search_failed}
use ocis_ftp_bridge.Graph.Client.{SdkDrive, Sdk, Client, resolve_drive, resolver_client}
use ocis_ftp_bridge.Graph.Client.Search.{by_id, resolve_target-resolver_client}

abbrev said : Bytes
said = codes "no \"x\""

read-escape_json_example :
    read_string (escape_json said ++ 34 ∷ codes "}")
    ≡ unless (has_control_character said) (said, codes "}")
read-escape_json_example = read-escape_json said (codes "}")

abbrev outside : Outside
outside = record {
  send = λ request. answered 200 (codes "200 OK");
  stat = λ dir. a_directory;
  write = λ dir. none;
  quote = λ text. text;
}

abbrev checks : HealthCheckConfig
checks = record {
  ocis_url = codes "https://cloud";
  ocis_username = [];
  ocis_password = [];
  webdav_url = codes "https://cloud/dav";
  spool_directory = codes "/s";
}

abbrev armed : AuthConfig
armed = record { enabled = true; method = bearer; username = []; password = []; token = codes "k" }

abbrev server : OperationsServer
server = new_operations_server (codes "127.0.0.1:9090") armed checks

abbrev asked : Request
asked = record { basic_auth = none; authorization = codes "Bearer k" }

readyz_iff_example :
    ((readyz outside 10 20 (codes "\"t\"") asked server).0.status ≡ 200)
    ↔ (Passes server.auth asked × (server.ready ≡ true) × IsPassing outside 10 server)
readyz_iff_example = readyz_iff outside 10 20 (codes "\"t\"") asked server

-- Two calls within the five seconds, and one after them.
abbrev calls : List Call
calls =
    record { outside = outside; now = 10; after = 20 }
    ∷ record { outside = outside; now = 30; after = 30 }
    ∷ record { outside = outside; now = 6000000000; after = 6000000001 }
    ∷ []

not_cached : IsPast server.health_cached_at 0
unfolding IsPast new_operations_server
not_cached = tt

in_order : Follows 0 calls
unfolding Follows
in_order = (omega arith, omega arith, (omega arith, omega arith, (omega arith, omega arith, tt)))

after_calls_rate_example :
    length (after_calls calls server).sent * health_check_cache_ttl + 2 * 0
    ≤ (length server.sent + 2) * health_check_cache_ttl + 2 * end_of 0 calls
after_calls_rate_example = after_calls_rate 0 calls server not_cached in_order

-- The debug message after the lowered level is not written.
abbrev uses : List Use
uses =
    a_message info (codes "a")
    ∷ a_level debug
    ∷ a_message debug (codes "b")
    ∷ a_level error
    ∷ a_message warn (codes "c")
    ∷ []

abbrev logger : Logger
logger = record { output = stdout; level = info; handler_level = info; written = [] }

abbrev no_file : Bytes → Bool
no_file path = false

is_logger : new_logger no_file (codes "stdout") (codes "info") ≡ some logger
unfolding new_logger
is_logger = refl

use_logger_written_example :
    (use_logger uses logger).written
    ≡ passing (rank (parse_level (codes "info"))) (rank (parse_level (codes "info"))) uses
use_logger_written_example =
    use_logger_written no_file (codes "stdout") (codes "info") logger uses is_logger

abbrev scans : SdkDrive
scans = record {
  id = some (codes "1");
  name = some (codes "Scans");
  description = none;
  web_url = some (codes "https://cloud/f/1");
  owner = none;
  root = none;
}

abbrev sdk : Sdk
sdk = record {
  get_drive = λ url auth id. ok (some scans);
  list_my_drives = λ url auth. ok (some (scans ∷ []));
  at_path = λ url path. some (codes "https://cloud" ++ path);
  equal_fold = λ a b. same a b;
}

abbrev client : Client
client = record { base_url = codes "https://cloud/graph"; username = codes "u"; token = codes "t" }

-- The drive of that name is there, and not found.
resolver_client_example : resolve_target (resolver_client sdk client) [] (codes "Scans") ≡ (
    if same [] []
    then (if same (codes "Scans") [] then err not_configured else err search_failed)
    else by_id (resolve_drive sdk client []))
resolver_client_example = resolve_target-resolver_client sdk client [] (codes "Scans")
