-- ===== src/Tests/Web.antt =====
-- Runs of the models of pkg/webdav, pkg/http and pkg/graph.
use ocis_ftp_bridge.Prelude.{
  ℕ, codes, ◌≡◌, ◌≤◌, refl, arith, Option, none, some, ok, true, false, List, [], ◌∷◌, length,
}
use ocis_ftp_bridge.Prelude.Map.{nat_eq, bytes_eq}
use ocis_ftp_bridge.Go.Strings.{contains}
use ocis_ftp_bridge.Go.FilePath.{dot_dot, clean}
use ocis_ftp_bridge.Go.Utf8.{runes, valid_string}
use ocis_ftp_bridge.Webdav.Paths.{
  max_path_length, kept_byte, upper_hex, escape_byte, path_escape, has_drive, has_control,
  windows_traversal, rooted, escape_parts, normalize_path,
}
use ocis_ftp_bridge.Webdav.Client.{
  handle_upload_response, is_temporary, conclude, send, do_upload, upload_stream,
}
use ocis_ftp_bridge.Webdav.Types.{WebdavClient, Transport, temporary_failure}
use ocis_ftp_bridge.Webdav.Client.Recovery.{Recovers, at_once, again, upload_stream-Recovers}
use ocis_ftp_bridge.Webdav.Paths.Escaping.{plain, decode, normalize_path-decode}

accepted : normalize_path (codes "a b") ≡ ok (codes "/a%20b")
unfolding normalize_path valid_string contains windows_traversal has_drive has_control runes clean
    rooted escape_parts path_escape escape_byte kept_byte upper_hex
accepted = refl

normalize_path_decode_example :
    (decode plain (codes "/a%20b") ≡ rooted (clean (codes "a b")))
    × (contains (codes "a b") dot_dot ≡ false)
    × (length (decode plain (codes "/a%20b")) ≤ max_path_length)
normalize_path_decode_example = normalize_path-decode (codes "a b") (codes "/a%20b") accepted

-- A server whose answers are given in advance: each request takes the first.
abbrev next_answer : List ℕ → Option ℕ × List ℕ
next_answer [] = (none, [])
next_answer (status ∷ more) = (some status, more)

abbrev scripted : Transport (List ℕ)
scripted = record {
  parse_url = λ url. some url;
  perform = λ request s. next_answer s;
  rewind = λ s. (true, s);
  wait = λ s. (true, s);
}

abbrev client : WebdavClient
client = record { base_url = codes "http://h"; username = codes "u"; token = codes "t" }

path_of_f : normalize_path (codes "f") ≡ ok (codes "/f")
unfolding normalize_path valid_string contains windows_traversal has_drive has_control runes clean
    rooted escape_parts path_escape escape_byte kept_byte
path_of_f = refl

-- The second request is answered with a success.
first_fails :
    do_upload scripted client (codes "/f") 5 true (503 ∷ 201 ∷ [])
    ≡ (some temporary_failure, 201 ∷ [])
unfolding do_upload send conclude handle_upload_response
first_fails = refl

then_succeeds : do_upload scripted client (codes "/f") 5 true (201 ∷ []) ≡ (none, [])
unfolding do_upload send conclude handle_upload_response
then_succeeds = refl

is_temporary_one : is_temporary temporary_failure ≡ true
unfolding is_temporary
is_temporary_one = refl

recovers : Recovers scripted client (codes "/f") 5 true 1 (503 ∷ 201 ∷ [])
recovers = again first_fails is_temporary_one refl refl (at_once then_succeeds)

upload_stream-Recovers_example :
    (upload_stream scripted client (codes "f") true true 5 true (503 ∷ 201 ∷ [])).0 ≡ none
upload_stream-Recovers_example =
    upload_stream-Recovers scripted client (codes "f") (codes "/f") 5 true 1 (503 ∷ 201 ∷ []) refl
      path_of_f recovers (omega arith)
