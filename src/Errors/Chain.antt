-- ===== src/Errors/Chain.antt =====
-- What `errors.Is` finds, and what adding details and joining do to the code of an error.
use ocis_ftp_bridge.Prelude.{
  ◌≡◌, ◌↔◌, ℕ, refl, sym, ap, ◌∙◌, Bool, true, false, false≢true, same, same→eq, eq→same,
  Bool-cases, ◌==◌, inl, inr, Option, none, some, Option-cases, Bytes, List, [], ◌∷◌, arith,
}
use ocis_ftp_bridge.Prelude.Map.{Map}
use ocis_ftp_bridge.Errors.{
  ErrorCode, unknown, invalid_input, not_found, already_exists, not_implemented, unauthorized,
  forbidden, invalid_credentials, invalid_config, config_not_found, io, file_too_large,
  storage_full, connection, timeout, path_traversal, security, rate_limited, service_unavailable,
  internal, AppInfo, Error, app, app_over, plain, wrapped, target_code, has_id, app_error_is,
  errors_is, same_code, code_text, unwrap, find_app, write_all, into, entries_of, with_entries,
  with_details, get_code, non_nil, combine, join_errors, code_status, http_status,
}

-- What identifies an error that is no `*AppError`.
abbrev pub id_of : Error → Option ℕ
id_of (app i) = none
id_of (app_over i e) = none
id_of (plain id text) = some id
id_of (wrapped id text e) = some id

-- In the chain that starts with an error there is the target, or an `*AppError` with the code of the
-- target.
pub data Finds (target : Error) : Error → Type 0 where
  by_code :
      {e : Error} (a b : ErrorCode)
      → target_code e ≡ some a
      → target_code target ≡ some b
      → code_text a ≡ code_text b
      → Finds target e
  by_id : {e : Error} (id : ℕ) → id_of e ≡ some id → id_of target ≡ some id → Finds target e
  deeper : {e inner : Error} → unwrap e ≡ some inner → Finds target inner → Finds target e

app_error_is-Finds :
    (e target : Error) (i : AppInfo) (inner : Bool)
    → target_code e ≡ some i.code
    → (inner ≡ true → Finds target e)
    → app_error_is i inner target ≡ true
    → Finds target e
unfolding app_error_is same_code
app_error_is-Finds e target i inner at rest h = elim (Option-cases (target_code target)) [
  | inl other ↦ rest (ground (arith, other))
  | inr (code, is) ↦
      by_code i.code code at is (same→eq (code_text i.code) (code_text code) (ground (arith, is)))
]

has_id-Finds :
    (e target : Error) (id : ℕ) → id_of e ≡ some id → has_id id target ≡ true → Finds target e
has_id-Finds e (app i) id at h = cc
has_id-Finds e (app_over i f) id at h = cc
has_id-Finds e (plain other text) id at h = by_id id at (ground arith)
has_id-Finds e (wrapped other text f) id at h = by_id id at (ground arith)

errors_is-Finds : (e target : Error) → errors_is e target ≡ true → Finds target e
unfolding errors_is unwrap
errors_is-Finds (app i) target h =
    app_error_is-Finds (app i) target i false refl (λ q. absurd (false≢true q)) h
errors_is-Finds (app_over i e) target h = elim (Bool-cases (errors_is e target)) [
  | inl found ↦ deeper refl (errors_is-Finds e target found)
  | inr none_there ↦
      app_error_is-Finds (app_over i e) target i (errors_is e target) refl
        (λ q. deeper refl (errors_is-Finds e target q)) (ground (arith, none_there))
]
errors_is-Finds (plain id text) target h = has_id-Finds (plain id text) target id refl h
errors_is-Finds (wrapped id text e) target h = elim (Bool-cases (errors_is e target)) [
  | inl found ↦ deeper refl (errors_is-Finds e target found)
  | inr none_there ↦ has_id-Finds (wrapped id text e) target id refl (ground (arith, none_there))
]

code-errors_is :
    (e target : Error) (a b : ErrorCode)
    → target_code e ≡ some a
    → target_code target ≡ some b
    → code_text a ≡ code_text b
    → errors_is e target ≡ true
unfolding errors_is app_error_is same_code
code-errors_is (app i) target a b at is text =
    let same_text : same (code_text a) (code_text b) ≡ true =
      eq→same (code_text a) (code_text b) text in
    ground (arith, at, is)
code-errors_is (app_over i e) target a b at is text =
    let same_text : same (code_text a) (code_text b) ≡ true =
      eq→same (code_text a) (code_text b) text in
    ground (arith, at, is)
code-errors_is (plain id text') target a b at is text = cc
code-errors_is (wrapped id text' e) target a b at is text = cc

id-errors_is :
    (e target : Error) (id : ℕ)
    → id_of e ≡ some id
    → id_of target ≡ some id
    → errors_is e target ≡ true
unfolding errors_is
id-errors_is (plain id' text) (plain other text') id at is = ground arith
id-errors_is (plain id' text) (wrapped other text' f) id at is = ground arith
id-errors_is (wrapped id' text e) (plain other text') id at is = ground arith
id-errors_is (wrapped id' text e) (wrapped other text' f) id at is = ground arith
id-errors_is (app i) target id at is = cc
id-errors_is (app_over i e) target id at is = cc
id-errors_is (plain id' text) (app i) id at is = cc
id-errors_is (plain id' text) (app_over i f) id at is = cc
id-errors_is (wrapped id' text e) (app i) id at is = cc
id-errors_is (wrapped id' text e) (app_over i f) id at is = cc

inner-errors_is :
    (e inner target : Error)
    → unwrap e ≡ some inner
    → errors_is inner target ≡ true
    → errors_is e target ≡ true
unfolding errors_is unwrap
inner-errors_is (app i) inner target is h = cc
inner-errors_is (app_over i e) inner target is h =
    let same_one : e ≡ inner = ground arith in
    let found : errors_is e target ≡ true = ap (λ x. errors_is x target) same_one ∙ h in
    ground (arith, found)
inner-errors_is (plain id text) inner target is h = cc
inner-errors_is (wrapped id text e) inner target is h =
    let same_one : e ≡ inner = ground arith in
    let found : errors_is e target ≡ true = ap (λ x. errors_is x target) same_one ∙ h in
    ground (arith, found)

Finds-errors_is : (target e : Error) → Finds target e → errors_is e target ≡ true
Finds-errors_is target e (by_code a b at is text) = code-errors_is e target a b at is text
Finds-errors_is target e (by_id id at is) = id-errors_is e target id at is
Finds-errors_is target e (deeper {inner = inner} is found) =
    inner-errors_is e inner target is (Finds-errors_is target inner found)

-- `errors.Is` answers "true" exactly if, on the way from the error through all that it wraps, there is
-- an error with the target's identity, or an `*AppError` whose code has the same text as the
-- target's. That the method `Is` looks into the wrapped error on its own changes nothing.
pub errors_is-Finds_iff : (e target : Error) → (errors_is e target ≡ true) ↔ Finds target e
errors_is-Finds_iff e target = (errors_is-Finds e target, Finds-errors_is target e)

-- An error that is built from the changed details has the code that it had.
added-code :
    (i : AppInfo) (entries : Map Bytes Bytes) (build : AppInfo → Error) (e' : Error)
    → ((j : AppInfo) → get_code (some (build j)) ≡ j.code)
    → (elim (into write_all i.details entries) [
      | none ↦ none
      | some kept ↦ some (some (build (record i { details = kept })))
    ])
      ≡ some (some e')
    → get_code (some e') ≡ i.code
added-code i entries build e' found h = elim (Option-cases (into write_all i.details entries)) [
  | inl panics ↦ ground (arith, panics)
  | inr (kept, changed) ↦
      let is : build (record i { details = kept }) ≡ e' = ground (arith, changed) in
      ap (λ x. get_code (some x)) (sym is) ∙ found (record i { details = kept })
]

-- What `errors.As` finds after the details were added: an error with the code it had.
with_entries-code :
    (e : Error) (entries : Map Bytes Bytes) (e' : Error)
    → with_entries e entries ≡ some (some e')
    → get_code (some e') ≡ get_code (some e)
unfolding with_entries find_app get_code
with_entries-code (app i) entries e' h = added-code i entries app e' (λ j. refl) h
with_entries-code (app_over i e) entries e' h =
    added-code i entries (λ j. app_over j e) e' (λ j. refl) h
with_entries-code (plain id text) entries e' h = cc
with_entries-code (wrapped id text e) entries e' h = with_entries-code e entries e' h

with_entries-none :
    (e : Error) (entries : Map Bytes Bytes) → with_entries e entries ≡ some none → find_app e ≡ none
unfolding with_entries find_app
with_entries-none (app i) entries h = ground arith
with_entries-none (app_over i e) entries h = ground arith
with_entries-none (plain id text) entries h = refl
with_entries-none (wrapped id text e) entries h = with_entries-none e entries h

-- Adding details to an error does not change its HTTP status, where it does not panic.
with_details-http_status :
    (e e' : Error) (details : Option (Map Bytes Bytes))
    → with_details (some e) details ≡ some (some e')
    → http_status (some e') ≡ http_status (some e)
unfolding with_details http_status code_status
with_details-http_status e e' details h =
    elim (Option-cases (with_entries e (entries_of details))) [
      | inl panics ↦ ground (arith, panics)
      | inr (o, added) ↦ elim (Option-cases o) [
        | inl is ↦
            let bare = with_entries-none e (entries_of details) (added ∙ ap some is) in
            ground (arith, added, is, bare)
        | inr (changed, is) ↦
            let same_code_as =
              with_entries-code e (entries_of details) changed (added ∙ ap some is) in
            let that : changed ≡ e' = ground (arith, added, is) in
            ap (λ x. http_status (some x)) (sym that) ∙ ap code_status same_code_as
      ]
    ]

status-ne_ok : (code : ErrorCode) → (code_status code == 200) ≡ false
unfolding code_status
status-ne_ok unknown = refl
status-ne_ok invalid_input = refl
status-ne_ok not_found = refl
status-ne_ok already_exists = refl
status-ne_ok not_implemented = refl
status-ne_ok unauthorized = refl
status-ne_ok forbidden = refl
status-ne_ok invalid_credentials = refl
status-ne_ok invalid_config = refl
status-ne_ok config_not_found = refl
status-ne_ok io = refl
status-ne_ok file_too_large = refl
status-ne_ok storage_full = refl
status-ne_ok connection = refl
status-ne_ok timeout = refl
status-ne_ok path_traversal = refl
status-ne_ok security = refl
status-ne_ok rate_limited = refl
status-ne_ok service_unavailable = refl
status-ne_ok internal = refl

combine-http_status : (es : List Error) → (http_status (combine es) ≡ 200) ↔ (es ≡ [])
unfolding combine http_status
combine-http_status [] = (λ h. refl, λ h. refl)
combine-http_status (e ∷ []) =
    let not_ok = status-ne_ok (get_code (some e)) in (λ h. ground (arith, not_ok), λ h. cc)
combine-http_status (e ∷ f ∷ more) =
    let not_ok = status-ne_ok internal in (λ h. ground (arith, not_ok), λ h. cc)

-- `Join` answers with the status 200 if and only if all errors are nil.
pub join_errors-http_status :
    (errs : List (Option Error)) → (http_status (join_errors errs) ≡ 200) ↔ (non_nil errs ≡ [])
unfolding join_errors combine http_status code_status get_code
join_errors-http_status errs = combine-http_status (non_nil errs)
