-- ===== src/Graph/Resolver.antt =====
-- pkg/graph/resolver.go: `ResolveTarget`. The Graph client's `ResolveDrive` and `SearchDrives` are
-- parameters, in which `none` is an error.
use ocis_ftp_bridge.Prelude.{
  ◌≡◌, ◌≢◌, sym, ap, ◌∙◌, ok-injective, false, if◌then◌else◌, Option, none, some, Bytes, same,
  same_iff, List, [], ◌∷◌, Result, ok, err, inl, inr, arith, Bool-cases, Option-cases,
}

pub record Owner : Type 0 where
  pub id : Bytes
  pub display_name : Bytes

-- The permissions, which are never set, are left out.
pub record Drive : Type 0 where
  pub id : Bytes
  pub name : Bytes
  pub description : Bytes
  pub owner : Owner
  pub root : Bytes
  pub webdav_url : Bytes

pub data ResolveError : Type 0 where
  drive_failed : ResolveError
  search_failed : ResolveError
  name_not_found : ResolveError
  name_ambiguous : ResolveError
  not_configured : ResolveError

pub record GraphClient : Type 0 where
  pub resolve_drive : Bytes → Option Drive
  pub search_drives : Bytes → Option (List Drive)

unfoldable pub only_match : List Drive → Result ResolveError (Drive × Bytes)
only_match [] = err name_not_found
only_match (d ∷ []) = ok (d, d.webdav_url)
only_match (d ∷ e ∷ ds) = err name_ambiguous

unfoldable pub resolve_target : GraphClient → Bytes → Bytes → Result ResolveError (Drive × Bytes)
unfolding only_match
resolve_target g drive_id drive_name =
    if same drive_id []
    then if same drive_name [] then err not_configured else elim (g.search_drives drive_name) [
      | none ↦ err search_failed
      | some matches ↦ only_match matches
    ]
    else elim (g.resolve_drive drive_id) [ none ↦ err drive_failed | some d ↦ ok (d, d.webdav_url) ]

unfoldable pub validate_target : GraphClient → Bytes → Bytes → Option ResolveError
validate_target g drive_id drive_name = elim (resolve_target g drive_id drive_name) [
  | ok found ↦ none
  | err e ↦ some e
]

only_match-ok :
    (ds : List Drive) (found : Drive × Bytes)
    → only_match ds ≡ ok found
    → (ds ≡ found.0 ∷ []) × (found.1 ≡ found.0.webdav_url)
unfolding only_match
only_match-ok [] found h = cc
only_match-ok (d ∷ []) found h =
    let e : (d, d.webdav_url) ≡ found = ok-injective h in
    (ap (λ x. x.0 ∷ []) e, sym (ap (λ x. x.1) e) ∙ ap (λ x. x.0.webdav_url) e)
only_match-ok (d ∷ e ∷ ds) found h = cc

-- What `ResolveTarget` may answer with: the drive of the id that is set, or, with only a name set,
-- the one drive of that name.
pub data IsTarget (g : GraphClient) (drive_id drive_name : Bytes) (d : Drive) : Type 0 where
  by_id : drive_id ≢ [] → g.resolve_drive drive_id ≡ some d → IsTarget g drive_id drive_name d
  by_name :
      drive_id ≡ []
      → drive_name ≢ []
      → g.search_drives drive_name ≡ some (d ∷ [])
      → IsTarget g drive_id drive_name d

not_empty : (s : Bytes) → same s [] ≡ false → s ≢ []
not_empty s h e = ground (arith, same_iff s [])

-- When `ResolveTarget` returns a drive, an id was set and the drive is the one of that id, or only a
-- name was set and the drive is the one match; the URL that is returned is the drive's.
resolve_target-ok :
    (g : GraphClient) (drive_id drive_name : Bytes) (found : Drive × Bytes)
    → resolve_target g drive_id drive_name ≡ ok found
    → IsTarget g drive_id drive_name found.0 × (found.1 ≡ found.0.webdav_url)
unfolding resolve_target
resolve_target-ok g drive_id drive_name found h = elim (Bool-cases (same drive_id [])) [
  | inl i ↦ elim (Bool-cases (same drive_name [])) [
    | inl n ↦ ground arith
    | inr n ↦ elim (Option-cases (g.search_drives drive_name)) [
      | inl s ↦ ground arith
      | inr (ds, s) ↦
          let (one, url) = only_match-ok ds found (ground arith) in
          (by_name ((same_iff drive_id []).0 i) (not_empty drive_name n) (s ∙ ap some one), url)
    ]
  ]
  | inr i ↦ elim (Option-cases (g.resolve_drive drive_id)) [
    | inl r ↦ ground arith
    | inr (d, r) ↦
        let e : (d, d.webdav_url) ≡ found = ok-injective {E = ResolveError} (ground arith) in
        (
          by_id (not_empty drive_id i) (r ∙ ap (λ x. some x.0) e),
          sym (ap (λ x. x.1) e) ∙ ap (λ x. x.0.webdav_url) e,
        )
  ]
]
