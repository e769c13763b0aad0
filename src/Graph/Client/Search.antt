-- ===== src/Graph/Client/Search.antt =====
-- The target resolver over the Graph client.
use ocis_ftp_bridge.Prelude.{
  ◌≡◌, refl, if◌then◌else◌, Bytes, same, [], Result, ok, err, Bool-cases, Result-cases, inl, inr,
}
use ocis_ftp_bridge.Graph.Resolver.{
  Drive, ResolveError, drive_failed, search_failed, not_configured, resolve_target,
}
use ocis_ftp_bridge.Graph.Client.{
  Sdk, Client, GraphError, resolve_drive, search_drives, resolver_client,
}

-- The answer of `ResolveTarget`.
abbrev pub by_id : Result GraphError Drive → Result ResolveError (Drive × Bytes)
by_id (err e) = err drive_failed
by_id (ok d) = ok (d, d.webdav_url)

-- Over the Graph client, `ResolveTarget` resolves a target by its drive id alone: without an id it fails,
-- whatever the name and whatever drives there are, since it searches with an empty user, which
-- `SearchDrives` refuses.
pub resolve_target-resolver_client :
    (sdk : Sdk) (c : Client) (drive_id drive_name : Bytes)
    → resolve_target (resolver_client sdk c) drive_id drive_name ≡ (
        if same drive_id []
        then (if same drive_name [] then err not_configured else err search_failed)
        else by_id (resolve_drive sdk c drive_id))
unfolding resolve_target resolver_client search_drives
resolve_target-resolver_client sdk c drive_id drive_name = elim (Bool-cases (same drive_id [])) [
  | inl i ↦ rw i refl
  | inr i ↦ elim (Result-cases (resolve_drive sdk c drive_id)) [
    | inl (e, r) ↦ rw (i, r) refl
    | inr (d, r) ↦ rw (i, r) refl
  ]
]
