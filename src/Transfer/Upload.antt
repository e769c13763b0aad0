-- ===== src/Transfer/Upload.antt =====
-- pkg/transfer/transfer.go: `ProcessUpload`.
pub mod Placed
use ocis_ftp_bridge.Prelude.{
  ℕ, Bytes, Option, none, some, Result, ok, err, wrap, Bool, true, false, List, [], ◌∷◌, same,
  if◌then◌else◌,
}
use ocis_ftp_bridge.Prelude.Map.{Map}
use ocis_ftp_bridge.Transfer.Types.{
  TargetConfig, TransferRequest, Transferred, Stage, target_path_stage, collision_stage,
  final_path_stage, directories_stage, TransferError, no_target, failed_at, Client, TransferManager,
}
use ocis_ftp_bridge.Transfer.Paths.{get_target, calculate_target_path}
use ocis_ftp_bridge.Transfer.Collisions.{State, resolve_collision}
use ocis_ftp_bridge.Transfer.Directories.{ensure_parent_directories}

module _ {S E : Type 0} where
  -- The name after the collision policy; an empty filename is left alone.
  unfoldable pub resolve_name :
      TransferManager S E
      → TargetConfig
      → TransferRequest
      → Bytes
      → Bytes
      → S
      → Result (TransferError E) Bytes × State S
  resolve_name tm config request stamp base_path s =
      if same request.filename []
      then (ok request.filename, (tm.upload_counters, s))
      else resolve_collision tm.webdav_client stamp base_path request.filename
          config.collision_policy (tm.upload_counters, s)

  -- The directories above the target, then the result.
  unfoldable pub finish_upload :
      TransferManager S E
      → TransferRequest
      → Bytes
      → S
      → Bytes
      → Result (TransferError E) Transferred × S
  finish_upload tm request name s target =
      let (made, s') = ensure_parent_directories tm.webdav_client target s in
      elim made [
        | err e ↦ (err (failed_at directories_stage e), s')
        | ok done ↦ (ok (record { target_path = target; filename = name; size = request.size }), s')
      ]

  -- `ProcessUpload` past the collision policy.
  unfoldable pub place_upload :
      TransferManager S E → TransferRequest → Bytes → S → Result (TransferError E) Transferred × S
  unfolding finish_upload
  place_upload tm request name s =
      elim (calculate_target_path tm request.user_id request.path name) [
        | err e ↦ (err (failed_at final_path_stage e), s)
        | ok target ↦ finish_upload tm request name s target
      ]

  abbrev pub with_counters : TransferManager S E → Map Bytes ℕ → TransferManager S E
  with_counters tm counters = record tm { upload_counters = counters }

  unfoldable pub process_upload :
      TransferManager S E
      → TransferRequest
      → Bytes
      → S
      → Result (TransferError E) Transferred × (TransferManager S E × S)
  unfolding resolve_name place_upload
  process_upload tm request stamp s = elim (get_target tm request.user_id) [
    | none ↦ (err (no_target request.user_id), (tm, s))
    | some config ↦ elim (calculate_target_path tm request.user_id request.path []) [
      | err e ↦ (err (failed_at target_path_stage e), (tm, s))
      | ok base_path ↦
          let (resolved, (counters, s')) = resolve_name tm config request stamp base_path s in
          let tm' = with_counters tm counters in
          elim resolved [
            | err e ↦ (err (failed_at collision_stage e), (tm', s'))
            | ok name ↦ let (result, s'') = place_upload tm' request name s' in (result, (tm', s''))
          ]
    ]
  ]
