-- ===== src/Transfer/Upload/Placed.antt =====
-- Where an upload ends up that `ProcessUpload` accepts.
use ocis_ftp_bridge.Prelude.{
  Bytes, ◌≡◌, sym, ap, ◌∙◌, some, ok, true, [], ◌++◌, arith, Option-cases, Result-cases, inl, inr,
  All,
}
use ocis_ftp_bridge.Go.FilePath.{is_abs, names}
use ocis_ftp_bridge.Go.FilePath.Components.{NoUp}
use ocis_ftp_bridge.Transfer.Types.{TargetConfig, TransferRequest, Transferred, TransferManager}
use ocis_ftp_bridge.Transfer.Paths.{get_target, calculate_target_path}
use ocis_ftp_bridge.Transfer.Directories.{ensure_parent_directories}
use ocis_ftp_bridge.Transfer.Upload.{
  resolve_name, finish_upload, place_upload, with_counters, process_upload,
}
use ocis_ftp_bridge.Transfer.Containment.{calculate_target_path_contained, file_names}

module _ {S E : Type 0} where
  -- The result stands at the target path of its own filename, and has the size that was asked for.
  abbrev IsPlaced : TransferManager S E → TransferRequest → Transferred → Type 0
  IsPlaced tm request done =
      (calculate_target_path tm request.user_id request.path done.filename ≡ ok done.target_path)
      × (done.size ≡ request.size)

  finish_upload-ok :
      (tm : TransferManager S E) (request : TransferRequest) (name : Bytes) (s : S) (target : Bytes)
      (done : Transferred)
      → (finish_upload tm request name s target).0 ≡ ok done
      → (done.target_path ≡ target) × (done.filename ≡ name) × (done.size ≡ request.size)
  unfolding finish_upload
  finish_upload-ok tm request name s target done h =
      elim (Result-cases (ensure_parent_directories tm.webdav_client target s).0) [
        | inl (e, m) ↦ ground arith
        | inr (u, m) ↦ ground arith
      ]

  place_upload-ok :
      (tm : TransferManager S E) (request : TransferRequest) (name : Bytes) (s : S)
      (done : Transferred)
      → (place_upload tm request name s).0 ≡ ok done
      → IsPlaced tm request done
  unfolding place_upload
  place_upload-ok tm request name s done h =
      elim (Result-cases (calculate_target_path tm request.user_id request.path name)) [
        | inl (e, c) ↦ ground arith
        | inr (target, c) ↦
            let (at, called, size) =
              finish_upload-ok tm request name s target done (ground arith) in
            (
              ap (calculate_target_path tm request.user_id request.path) called
                  ∙ (c ∙ ap ok (sym at)),
              size,
            )
      ]

  process_upload-IsPlaced :
      (tm : TransferManager S E) (request : TransferRequest) (stamp : Bytes) (s : S)
      (done : Transferred)
      → (process_upload tm request stamp s).0 ≡ ok done
      → ((config : TargetConfig) × (get_target tm request.user_id ≡ some config))
        × IsPlaced tm request done
  unfolding process_upload calculate_target_path get_target
  process_upload-IsPlaced tm request stamp s done h =
      elim (Option-cases (get_target tm request.user_id)) [
        | inl t ↦ ground arith
        | inr (config, t) ↦
            elim (Result-cases (calculate_target_path tm request.user_id request.path [])) [
              | inl (e, c) ↦ ground arith
              | inr (base, c) ↦
                  let r = resolve_name tm config request stamp base s in
                  elim (Result-cases r.0) [
                    | inl (e, n) ↦ ground arith
                    | inr (name, n) ↦ (
                      (config, t),
                      place_upload-ok (with_counters tm r.1.0) request name r.1.1 done
                          (ground arith),
                    )
                  ]
            ]
      ]

  -- When `ProcessUpload` succeeds for a user with a target whose root is absolute, the path it
  -- answers with is absolute and made of the root's components, those of
  -- the FTP path and that of the filename it answers with, none of them "..", and the size is the
  -- request's.
  pub process_upload_contained :
      (tm : TransferManager S E) (request : TransferRequest) (stamp : Bytes) (s : S)
      (config : TargetConfig) (done : Transferred)
      → get_target tm request.user_id ≡ some config
      → is_abs config.root ≡ true
      → (process_upload tm request stamp s).0 ≡ ok done
      → (is_abs done.target_path ≡ true)
        × (names done.target_path
            ≡ names config.root ++ (names request.path ++ file_names done.filename))
        × All NoUp (names done.target_path)
        × (done.size ≡ request.size)
  process_upload_contained tm request stamp s config done target abs h =
      let (_, (at, size)) = process_upload-IsPlaced tm request stamp s done h in
      let (abs', parts, no_up) =
        calculate_target_path_contained tm request.user_id request.path done.filename target abs
          at in
      (abs', parts, no_up, size)
