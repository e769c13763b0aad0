-- ===== src/Graph/Client.antt =====
-- pkg/graph/client.go: the client of the LibreGraph API. The SDK's calls, `url.Parse` and
-- `strings.EqualFold` are parameters.
pub mod Search
use ocis_ftp_bridge.Prelude.{
  ℕ, Bool, true, false, ◌||◌, ◌==◌, if◌then◌else◌, Option, none, some, Bytes, codes, same, List, [],
  ◌∷◌, ◌++◌, map, Result, ok, err,
}
use ocis_ftp_bridge.Go.Strings.{trim_right}
use ocis_ftp_bridge.Graph.Resolver.{Owner, Drive, GraphClient}

pub data GraphError : Type 0 where
  invalid_drive_id invalid_space_id invalid_user_id invalid_parameters : GraphError
  drive_not_found unauthorized forbidden graph_api_error not_implemented : GraphError

-- The SDK's pointers are options; the owner is its user.
pub record SdkUser : Type 0 where
  pub id : Option Bytes
  pub display_name : Option Bytes

pub record SdkDrive : Type 0 where
  pub id : Option Bytes
  pub name : Option Bytes
  pub description : Option Bytes
  pub web_url : Option Bytes
  pub owner : Option SdkUser
  pub root : Option Bytes

-- How a request is authenticated.
pub data Auth : Type 0 where
  access_token : Bytes → Auth
  basic_auth : Bytes → Bytes → Auth

-- A call fails with the status of an answer, where there was one.
abbrev pub Call : Type 0 → Type 0
Call A = Result (Option ℕ) A

-- The SDK's calls at a base URL; `none` is a nil answer. `at_path url p` is the parsed URL with its path
-- replaced by `p`, as text; `none` is an error of the parsing.
pub record Sdk : Type 0 where
  pub get_drive : Bytes → Auth → Bytes → Call (Option SdkDrive)
  pub list_my_drives : Bytes → Auth → Call (Option (List SdkDrive))
  pub at_path : Bytes → Bytes → Option Bytes
  pub equal_fold : Bytes → Bytes → Bool

pub record Client : Type 0 where
  pub base_url : Bytes
  pub username : Bytes
  pub token : Bytes

unfoldable pub new_client : Bytes → Bytes → Bytes → Client
unfolding trim_right
new_client base_url username token = record {
  base_url = trim_right (λ c. c == b'/') base_url;
  username = username;
  token = token;
}

unfoldable pub with_auth : Client → Auth
with_auth c = if same c.username [] then access_token c.token else basic_auth c.username c.token

unfoldable pub handle_error : Option ℕ → GraphError
handle_error none = graph_api_error
handle_error (some status) =
    if status == 404
    then drive_not_found
    else (if status == 401
        then unauthorized
        else (if status == 403
            then forbidden
            else (if status == 400 then invalid_parameters else graph_api_error)))

abbrev pub safe_string : Option Bytes → Bytes
safe_string none = []
safe_string (some s) = s

abbrev pub owner_of : Option SdkUser → Owner
owner_of none = record { id = []; display_name = [] }
owner_of (some u) = record { id = safe_string u.id; display_name = safe_string u.display_name }

-- The path of the drive's own WebDAV endpoint.
abbrev pub drive_path : Bytes → Bytes
drive_path id = codes "/dav/spaces/" ++ id

-- Without a web URL that parses there is no WebDAV URL.
unfoldable pub drive_url : Sdk → Bytes → Bytes → Bytes
drive_url sdk web_url id =
    if same web_url [] then [] else safe_string (sdk.at_path web_url (drive_path id))

unfoldable pub convert_drive : Sdk → SdkDrive → Drive
unfolding drive_url
convert_drive sdk d = record {
  id = safe_string d.id;
  name = safe_string d.name;
  description = safe_string d.description;
  owner = owner_of d.owner;
  root = safe_string d.root;
  webdav_url = drive_url sdk (safe_string d.web_url) (safe_string d.id);
}

unfoldable pub converted : Sdk → Call (Option SdkDrive) → Result GraphError Drive
unfolding handle_error convert_drive
converted sdk (err status) = err (handle_error status)
converted sdk (ok none) = err drive_not_found
converted sdk (ok (some d)) = ok (convert_drive sdk d)

unfoldable pub resolve_drive : Sdk → Client → Bytes → Result GraphError Drive
unfolding converted with_auth
resolve_drive sdk c id =
    if same id []
    then err invalid_drive_id
    else converted sdk (sdk.get_drive c.base_url (with_auth c) id)

unfoldable pub converted_all : Sdk → Call (Option (List SdkDrive)) → Result GraphError (List Drive)
unfolding handle_error convert_drive
converted_all sdk (err status) = err (handle_error status)
converted_all sdk (ok none) = ok []
converted_all sdk (ok (some drives)) = ok (map (convert_drive sdk) drives)

-- The user is not sent: the drives are those of the token.
unfoldable pub list_drives : Sdk → Client → Bytes → Result GraphError (List Drive)
unfolding converted_all with_auth
list_drives sdk c user = converted_all sdk (sdk.list_my_drives c.base_url (with_auth c))

unfoldable pub matching : Sdk → Bytes → List Drive → List Drive
matching sdk name [] = []
matching sdk name (d ∷ ds) =
    let rest = matching sdk name ds in if sdk.equal_fold d.name name then d ∷ rest else rest

-- The error of the list is wrapped.
unfoldable pub filtered :
    Sdk → Bytes → Result GraphError (List Drive) → Result GraphError (List Drive)
unfolding matching
filtered sdk name (err e) = err e
filtered sdk name (ok drives) = ok (matching sdk name drives)

unfoldable pub search_drives : Sdk → Client → Bytes → Bytes → Result GraphError (List Drive)
unfolding filtered list_drives
search_drives sdk c user name =
    if same user [] || same name []
    then err invalid_parameters
    else filtered sdk name (list_drives sdk c user)

pub data Unavailable : Type 0 where
  no_space : Unavailable

unfoldable pub resolve_space : Bytes → Result GraphError Unavailable
resolve_space id = if same id [] then err invalid_space_id else err not_implemented

unfoldable pub list_spaces : Bytes → Result GraphError (List Unavailable)
list_spaces user = if same user [] then err invalid_user_id else ok []

unfoldable pub search_spaces : Bytes → Bytes → Result GraphError (List Unavailable)
search_spaces user name = if same user [] || same name [] then err invalid_parameters else ok []

unfoldable pub validate_configuration : Sdk → Client → Option GraphError
validate_configuration sdk c = elim (list_drives sdk c []) [ err e ↦ some e | ok drives ↦ none ]

abbrev pub found : {A : Type 0} → Result GraphError A → Option A
found (err e) = none
found (ok a) = some a

-- What `ResolveTarget` calls: it searches with an empty user.
unfoldable pub resolver_client : Sdk → Client → GraphClient
resolver_client sdk c = record {
  resolve_drive = λ id. found (resolve_drive sdk c id);
  search_drives = λ name. found (search_drives sdk c [] name);
}
