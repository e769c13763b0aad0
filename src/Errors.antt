-- ===== src/Errors.antt =====
-- pkg/errors/errors.go: the structured errors, their codes, details and HTTP status. A Go error is one of
-- the package's, an error of `errors.New` with its identity, or one of `fmt.Errorf` with `%w`. A nil
-- error is `none`. Where the source changes the details of an error in place, the function returns the
-- changed error; a write into a nil map panics, which is `none`.
pub mod Chain
use ocis_ftp_bridge.Prelude.{
  ℕ, Bool, true, false, ◌||◌, ◌==◌, Option, none, some, Bytes, codes, same, List, [], ◌∷◌, ◌++◌,
  if◌then◌else◌,
}
use ocis_ftp_bridge.Prelude.Map.{Map, lookup, insert, bytes_eq}

pub data ErrorCode : Type 0 where
  unknown invalid_input not_found already_exists not_implemented : ErrorCode
  unauthorized forbidden invalid_credentials : ErrorCode
  invalid_config config_not_found : ErrorCode
  io file_too_large storage_full : ErrorCode
  connection timeout : ErrorCode
  path_traversal security : ErrorCode
  rate_limited : ErrorCode
  service_unavailable internal : ErrorCode

unfoldable pub code_text : ErrorCode → Bytes
code_text unknown = codes "UNKNOWN"
code_text invalid_input = codes "INVALID_INPUT"
code_text not_found = codes "NOT_FOUND"
code_text already_exists = codes "ALREADY_EXISTS"
code_text not_implemented = codes "NOT_IMPLEMENTED"
code_text unauthorized = codes "UNAUTHORIZED"
code_text forbidden = codes "FORBIDDEN"
code_text invalid_credentials = codes "INVALID_CREDENTIALS"
code_text invalid_config = codes "INVALID_CONFIG"
code_text config_not_found = codes "CONFIG_NOT_FOUND"
code_text io = codes "IO_ERROR"
code_text file_too_large = codes "FILE_TOO_LARGE"
code_text storage_full = codes "STORAGE_FULL"
code_text connection = codes "CONNECTION_ERROR"
code_text timeout = codes "TIMEOUT"
code_text path_traversal = codes "PATH_TRAVERSAL"
code_text security = codes "SECURITY_ERROR"
code_text rate_limited = codes "RATE_LIMITED"
code_text service_unavailable = codes "SERVICE_UNAVAILABLE"
code_text internal = codes "INTERNAL_ERROR"

-- The comparison of two codes, which are strings.
unfoldable pub same_code : ErrorCode → ErrorCode → Bool
unfolding code_text
same_code a b = same (code_text a) (code_text b)

-- The details are `none` for a nil map; their values are texts.
pub record AppInfo : Type 0 where
  pub code : ErrorCode
  pub message : Bytes
  pub details : Option (Map Bytes Bytes)

-- `app` is an `*AppError` that wraps no error, `app_over` one that wraps an error.
pub data Error : Type 0 where
  app : AppInfo → Error
  app_over : AppInfo → Error → Error
  plain : ℕ → Bytes → Error
  wrapped : ℕ → Bytes → Error → Error

abbrev pub colon : Bytes
colon = codes ": "

unfoldable pub error_text : Error → Bytes
unfolding code_text
error_text (app i) = code_text i.code ++ (colon ++ i.message)
error_text (app_over i e) = code_text i.code ++ (colon ++ (i.message ++ (colon ++ error_text e)))
error_text (plain id text) = text
error_text (wrapped id text e) = text

unfoldable pub unwrap : Error → Option Error
unwrap (app i) = none
unwrap (app_over i e) = some e
unwrap (plain id text) = none
unwrap (wrapped id text e) = some e

-- `*AppError` that the target itself is.
abbrev pub target_code : Error → Option ErrorCode
target_code (app i) = some i.code
target_code (app_over i e) = some i.code
target_code (plain id text) = none
target_code (wrapped id text e) = none

abbrev pub has_id : ℕ → Error → Bool
has_id id (app i) = false
has_id id (app_over i e) = false
has_id id (plain other text) = id == other
has_id id (wrapped other text e) = id == other

-- The method `Is` of an `*AppError`; `inner` is the answer of `errors.Is` for the wrapped error, `false`
-- if there is none.
unfoldable pub app_error_is : AppInfo → Bool → Error → Bool
unfolding same_code
app_error_is i inner target = elim (target_code target) [
  | some code ↦ same_code i.code code
  | none ↦ inner
]

-- `errors.Is` on errors that are not nil: identity, then the method `Is`, then the wrapped error. Two
-- identical `*AppError` have one code.
unfoldable pub errors_is : Error → Error → Bool
unfolding app_error_is
errors_is (app i) target = app_error_is i false target
errors_is (app_over i e) target =
    let inner = errors_is e target in app_error_is i inner target || inner
errors_is (plain id text) target = has_id id target
errors_is (wrapped id text e) target = has_id id target || errors_is e target

-- The first `*AppError` of the chain, which `errors.As` finds.
unfoldable pub find_app : Error → Option AppInfo
find_app (app i) = some i
find_app (app_over i e) = some i
find_app (plain id text) = none
find_app (wrapped id text e) = find_app e

unfoldable pub new : ErrorCode → Bytes → Error
new code message = app (record { code = code; message = message; details = some [] })

unfoldable pub new_with_details : ErrorCode → Bytes → Option (Map Bytes Bytes) → Error
new_with_details code message details =
    app (record { code = code; message = message; details = details })

unfoldable pub wrap_error : ErrorCode → Bytes → Option Error → Error
unfolding new
wrap_error code message none = new code message
wrap_error code message (some e) =
    app_over (record { code = code; message = message; details = some [] }) e

abbrev pub unless_there : Option Bytes → Bytes → Bytes → Map Bytes Bytes → Map Bytes Bytes
unless_there none k v m = insert k v m
unless_there (some w) k v m = m

-- The entries of the second map whose keys the first one does not have.
unfoldable pub add_missing : Map Bytes Bytes → Map Bytes Bytes → Map Bytes Bytes
add_missing m [] = m
add_missing m ((k, v) ∷ more) = add_missing (unless_there (lookup k m) k v m) more

-- All entries of the second map, written over the first.
unfoldable pub write_all : Map Bytes Bytes → Map Bytes Bytes → Map Bytes Bytes
write_all m [] = m
write_all m ((k, v) ∷ more) = write_all (insert k v m) more

-- A loop of writes into a map that may be nil.
abbrev pub into :
    (Map Bytes Bytes → Map Bytes Bytes → Map Bytes Bytes)
    → Option (Map Bytes Bytes)
    → Map Bytes Bytes
    → Option (Option (Map Bytes Bytes))
into write none [] = some none
into write none (entry ∷ more) = none
into write (some m) entries = some (some (write m entries))

-- Ranging over a nil map is ranging over none.
abbrev pub entries_of : Option (Map Bytes Bytes) → Map Bytes Bytes
entries_of none = []
entries_of (some m) = m

abbrev pub own_entries : Error → Map Bytes Bytes
own_entries (app i) = entries_of i.details
own_entries (app_over i e) = entries_of i.details
own_entries (plain id text) = []
own_entries (wrapped id text e) = []

unfoldable pub wrap_with_details :
    ErrorCode → Bytes → Option Error → Option (Map Bytes Bytes) → Option Error
unfolding new_with_details add_missing
wrap_with_details code message none details = some (new_with_details code message details)
wrap_with_details code message (some e) details = elim (into add_missing details (own_entries e)) [
  | none ↦ none
  | some kept ↦ some (app_over (record { code = code; message = message; details = kept }) e)
]

abbrev pub code_or_unknown : Option AppInfo → ErrorCode
code_or_unknown none = unknown
code_or_unknown (some i) = i.code

unfoldable pub get_code : Option Error → ErrorCode
unfolding find_app
get_code none = unknown
get_code (some e) = code_or_unknown (find_app e)

unfoldable pub get_message : Option Error → Bytes
unfolding find_app error_text
get_message none = []
get_message (some e) = elim (find_app e) [ none ↦ error_text e | some i ↦ i.message ]

unfoldable pub get_details : Option Error → Option (Map Bytes Bytes)
unfolding find_app
get_details none = none
get_details (some e) = elim (find_app e) [ none ↦ none | some i ↦ i.details ]

unfoldable pub is_code : Option Error → ErrorCode → Bool
unfolding get_code same_code
is_code e code = same_code (get_code e) code

unfoldable pub any_code : ErrorCode → List ErrorCode → Bool
unfolding same_code
any_code code [] = false
any_code code (c ∷ more) = let rest = any_code code more in if same_code code c then true else rest

unfoldable pub is_any_code : Option Error → List ErrorCode → Bool
unfolding get_code any_code
is_any_code none wanted = false
is_any_code (some e) wanted = any_code (get_code (some e)) wanted

-- The first `*AppError` of the chain with the details added, without what is wrapped around it.
unfoldable pub with_entries : Error → Map Bytes Bytes → Option (Option Error)
unfolding write_all
with_entries (app i) entries = elim (into write_all i.details entries) [
  | none ↦ none
  | some kept ↦ some (some (app (record i { details = kept })))
]
with_entries (app_over i e) entries = elim (into write_all i.details entries) [
  | none ↦ none
  | some kept ↦ some (some (app_over (record i { details = kept }) e))
]
with_entries (plain id text) entries = some none
with_entries (wrapped id text e) entries = with_entries e entries

unfoldable pub with_details : Option Error → Option (Map Bytes Bytes) → Option (Option Error)
unfolding with_entries error_text
with_details none details = some none
with_details (some e) details = elim (with_entries e (entries_of details)) [
  | none ↦ none
  | some (some changed) ↦ some (some changed)
  | some none ↦
      some
        (some (app_over (record { code = internal; message = error_text e; details = details }) e))
]

unfoldable pub non_nil : List (Option Error) → List Error
non_nil [] = []
non_nil (none ∷ more) = non_nil more
non_nil (some e ∷ more) = e ∷ non_nil more

unfoldable pub join_texts : List Error → Bytes
unfolding error_text
join_texts [] = []
join_texts (e ∷ []) = error_text e
join_texts (e ∷ f ∷ more) = error_text e ++ (codes "; " ++ join_texts (f ∷ more))

unfoldable pub combine : List Error → Option Error
unfolding new join_texts
combine [] = none
combine (e ∷ []) = some e
combine (e ∷ f ∷ more) =
    some (new internal (codes "multiple errors: " ++ join_texts (e ∷ f ∷ more)))

-- `Join`
unfoldable pub join_errors : List (Option Error) → Option Error
unfolding non_nil combine
join_errors errs = combine (non_nil errs)

unfoldable pub code_status : ErrorCode → ℕ
code_status not_found = 404
code_status invalid_input = 400
code_status unauthorized = 401
code_status forbidden = 403
code_status already_exists = 409
code_status path_traversal = 400
code_status rate_limited = 429
code_status service_unavailable = 503
code_status other = 500

unfoldable pub http_status : Option Error → ℕ
unfolding get_code code_status
http_status none = 200
http_status (some e) = code_status (get_code (some e))

-- The constructors for common errors; an id is its text.
unfoldable pub about_resource : ErrorCode → Bytes → Bytes → Bytes → Error
unfolding new_with_details
about_resource code what resource id =
    new_with_details code (resource ++ (what ++ id))
      (some ((codes "resource", resource) ∷ ((codes "id", id) ∷ [])))

unfoldable pub not_found_error : Bytes → Bytes → Error
unfolding about_resource
not_found_error resource id = about_resource not_found (codes " not found: ") resource id

unfoldable pub already_exists_error : Bytes → Bytes → Error
unfolding about_resource
already_exists_error resource id =
    about_resource already_exists (codes " already exists: ") resource id

unfoldable pub path_traversal_error : Bytes → Error
unfolding new_with_details
path_traversal_error path =
    new_with_details path_traversal (codes "path traversal detected: " ++ path)
      (some ((codes "path", path) ∷ []))
