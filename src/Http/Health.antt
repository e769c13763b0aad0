-- ===== src/Http/Health.antt =====
-- pkg/http/server.go: the health checks. The transport, the file system and the clock are parameters;
-- the metrics of a check are entries of a log, without the observed durations.
pub mod Failed
use ocis_ftp_bridge.Prelude.{
  ℕ, not, ◌&&◌, ◌||◌, ◌==◌, if◌then◌else◌, Option, none, some, Bytes, codes, same, List, [], ◌∷◌,
  ◌++◌,
}
use ocis_ftp_bridge.Prelude.Map.{Map, insert, bytes_eq}
use ocis_ftp_bridge.Go.Strings.{has_suffix}

pub record HealthCheckConfig : Type 0 where
  pub ocis_url : Bytes
  pub ocis_username : Bytes
  pub ocis_password : Bytes
  pub webdav_url : Bytes
  pub spool_directory : Bytes

pub record CheckRequest : Type 0 where
  pub method : Bytes
  pub url : Bytes
  pub basic_auth : Option (Bytes × Bytes)
  pub headers : Map Bytes Bytes

-- What a request comes to: `NewRequestWithContext` refuses it, `Do` fails, or there is an answer with a
-- status code and text.
pub data Answer : Type 0 where
  not_made not_sent : Bytes → Answer
  answered : ℕ → Bytes → Answer

-- `os.Stat` of the spool directory.
pub data StatAnswer : Type 0 where
  missing : StatAnswer
  no_access : Bytes → StatAnswer
  a_file a_directory : StatAnswer

-- `write` is the error of writing the test file; `quote` is the format `%q`.
pub record Outside : Type 0 where
  pub send : CheckRequest → Answer
  pub stat : Bytes → StatAnswer
  pub write : Bytes → Option Bytes
  pub quote : Bytes → Bytes

-- The Prometheus collectors: a counter with its labels, a gauge with its value, a histogram.
pub data Metric : Type 0 where
  health_check_total : Bytes → Bytes → Metric
  health_check_duration : Bytes → Metric

abbrev pub with_slash : Bytes → Bytes
with_slash url = if has_suffix url (codes "/") then url else url ++ codes "/"

abbrev pub credentials : HealthCheckConfig → Option (Bytes × Bytes)
credentials c =
    if not (same c.ocis_username []) && not (same c.ocis_password [])
    then some (c.ocis_username, c.ocis_password)
    else none

unfoldable pub ocis_request : HealthCheckConfig → CheckRequest
unfolding has_suffix
ocis_request c = record {
  method = codes "GET";
  url = with_slash c.ocis_url ++ codes "status";
  basic_auth = credentials c;
  headers = [];
}

unfoldable pub webdav_request : HealthCheckConfig → CheckRequest
unfolding has_suffix
webdav_request c = record {
  method = codes "PROPFIND";
  url = with_slash c.webdav_url;
  basic_auth = credentials c;
  headers = (codes "Depth", codes "0") ∷ (codes "Content-Type", codes "application/xml") ∷ [];
}

-- `none` is a check that passes.
unfoldable pub judge_ocis : Answer → Option Bytes
judge_ocis (not_made e) = some (codes "failed to create oCIS request: " ++ e)
judge_ocis (not_sent e) = some (codes "failed to connect to oCIS: " ++ e)
judge_ocis (answered code text) =
    if code == 200 then none else some (codes "oCIS returned non-OK status: " ++ text)

unfoldable pub judge_webdav : Answer → Option Bytes
judge_webdav (not_made e) = some (codes "failed to create WebDAV request: " ++ e)
judge_webdav (not_sent e) = some (codes "failed to connect to WebDAV: " ++ e)
judge_webdav (answered code text) =
    if code == 200 || (code == 207 || (code == 401 || code == 403))
    then none
    else some (codes "WebDAV returned unexpected status: " ++ text)

unfoldable pub check_ocis_connectivity : Outside → HealthCheckConfig → Option Bytes
unfolding ocis_request judge_ocis
check_ocis_connectivity o c = judge_ocis (o.send (ocis_request c))

unfoldable pub check_webdav_connectivity : Outside → HealthCheckConfig → Option Bytes
unfolding webdav_request judge_webdav
check_webdav_connectivity o c = judge_webdav (o.send (webdav_request c))

unfoldable pub judge_spool : Outside → Bytes → StatAnswer → Option Bytes
judge_spool o dir missing =
    some (codes "spool directory " ++ o.quote dir ++ codes " does not exist")
judge_spool o dir (no_access e) =
    some (codes "cannot access spool directory " ++ o.quote dir ++ codes ": " ++ e)
judge_spool o dir a_file = some (codes "spool path " ++ o.quote dir ++ codes " is not a directory")
judge_spool o dir a_directory = elim (o.write dir) [
  | none ↦ none
  | some e ↦ some (codes "spool directory " ++ o.quote dir ++ codes " is not writable: " ++ e)
]

unfoldable pub check_spool_directory : Outside → HealthCheckConfig → Option Bytes
unfolding judge_spool
check_spool_directory o c =
    if same c.spool_directory []
    then some (codes "spool directory not configured")
    else judge_spool o c.spool_directory (o.stat c.spool_directory)

-- What the checks of a round found, by their names, the texts of those that failed, the requests
-- that were sent, and the log of the metrics.
pub record Round : Type 0 where
  pub checks : Map Bytes Bytes
  pub failed : List Bytes
  pub sent : List CheckRequest
  pub logged : List Metric

-- One check is entered under its name.
unfoldable pub add_check : Bytes → Bytes → Option Bytes → Round → Round
add_check name text none r = record r {
  checks = insert name (codes "ok") r.checks;
  logged = r.logged ++ health_check_total name (codes "success") ∷ health_check_duration name ∷ [];
}
add_check name text (some e) r = record r {
  checks = insert name (codes "failed") r.checks;
  failed = r.failed ++ (text ++ codes ": " ++ e) ∷ [];
  logged = r.logged ++ health_check_total name (codes "failed") ∷ health_check_duration name ∷ [];
}

-- A request that could not be made is not sent.
abbrev pub sent_by : CheckRequest → Answer → List CheckRequest
sent_by r (not_made e) = []
sent_by r (not_sent e) = r ∷ []
sent_by r (answered code text) = r ∷ []

unfoldable pub perform_health_checks : Outside → HealthCheckConfig → Round
unfolding check_ocis_connectivity check_webdav_connectivity check_spool_directory add_check
perform_health_checks o c =
    let requests =
      sent_by (ocis_request c) (o.send (ocis_request c))
      ++ sent_by (webdav_request c) (o.send (webdav_request c)) in
    let start : Round = record { checks = []; failed = []; sent = requests; logged = [] } in
    let first =
      add_check (codes "ocis_connectivity") (codes "oCIS connectivity")
        (check_ocis_connectivity o c) start in
    let second =
      add_check (codes "webdav_connectivity") (codes "WebDAV connectivity")
        (check_webdav_connectivity o c) first in
    add_check (codes "spool_directory") (codes "spool directory") (check_spool_directory o c) second
