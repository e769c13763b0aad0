-- ===== src/Spool/UploadManager/Accounting.antt =====
-- The operations of the upload manager keep its usage counter equal to the bytes received by the
-- active uploads, and every upload within its limits.
use ocis_ftp_bridge.Prelude.{
  Option-cases, ℕ, ◌+◌, ◌≤◌, ◌≡◌, refl, ap, ◌∙◌, true, some, ◌⊎◌, inl, inr, Bool-cases, Bytes, same,
  same_iff, arith, ◌==◌,
}
use ocis_ftp_bridge.Prelude.Map.{
  lookup, insert, delete, nat_eq, bytes_eq, Distinct, total, measured, lookup-insert,
  lookup-insert_self, lookup-delete, Distinct-delete, total-delete, measured-le-total,
}
use ocis_ftp_bridge.Spool.Types.{Upload, UploadManager}
use ocis_ftp_bridge.Spool.UploadManager.{store, set_usage, release_upload_bytes, new_upload_manager}
use ocis_ftp_bridge.Spool.UploadManager.Usage.{active_bytes, received_at, received, total_cong}

pub record IsAccounted (m : UploadManager) : Type 0 where
  pub distinct : Distinct m.active_uploads
  pub owned :
      (id : Bytes) (r : ℕ)
      → lookup id m.active_uploads ≡ some r
      → (u : Upload) × (lookup r m.uploads ≡ some u) × (u.id ≡ id)
  pub unique :
      (r s : ℕ) (u v : Upload)
      → lookup r m.uploads ≡ some u
      → lookup s m.uploads ≡ some v
      → u.id ≡ v.id
      → r ≡ s
  pub live :
      (r : ℕ) (u : Upload)
      → lookup r m.uploads ≡ some u
      → (u.closed ≡ true) ⊎ (lookup u.id m.active_uploads ≡ some r)
  pub counted : active_bytes m ≡ m.current_usage
  pub within : m.current_usage ≤ m.max_total_size
  pub bounded :
      (r : ℕ) (u : Upload)
      → lookup r m.uploads ≡ some u
      → (u.bytes_received ≤ u.account_max_size) × ((u.size ≡ 0) ⊎ (u.bytes_received ≤ u.size))

pub new-IsAccounted : (dir : Bytes) (limit : ℕ) → IsAccounted (new_upload_manager dir limit)
unfolding new_upload_manager lookup active_bytes total
new-IsAccounted dir limit = record {
  distinct = tt;
  owned = λ id r h. cc;
  unique = λ r s u v h k e. cc;
  live = λ r u h. cc;
  counted = refl;
  within = omega arith;
  bounded = λ r u h. cc;
}

-- An active upload's bytes are a part of the usage.
pub active-le-usage :
    (m : UploadManager) (r : ℕ) (u : Upload)
    → IsAccounted m
    → lookup r m.uploads ≡ some u
    → lookup u.id m.active_uploads ≡ some r
    → u.bytes_received ≤ m.current_usage
unfolding active_bytes
active-le-usage m r u w h a =
    let bound = measured-le-total (received_at m.uploads) u.id m.active_uploads w.distinct in
    let is : measured (received_at m.uploads) u.id (lookup u.id m.active_uploads)
        ≡ u.bytes_received =
      rw a (ap received h) in
    omega (arith, w.counted)

-- Changing the byte count of an active upload changes the active bytes by as much.
pub active_bytes-store :
    (m : UploadManager) (r : ℕ) (u v : Upload)
    → IsAccounted m
    → lookup r m.uploads ≡ some u
    → lookup u.id m.active_uploads ≡ some r
    → active_bytes (store m r v) + u.bytes_received ≡ active_bytes m + v.bytes_received
unfolding active_bytes store
active_bytes-store m r u v w h a =
    let old = received_at m.uploads in
    let new = received_at (insert r v m.uploads) in
    let rest : total new (delete u.id m.active_uploads) ≡ total old (delete u.id m.active_uploads) =
      total_cong new old (delete u.id m.active_uploads)
        (Distinct-delete u.id m.active_uploads w.distinct)
        (λ k s e.
          let other = lookup-delete u.id k m.active_uploads in
          elim (Bool-cases (same u.id k)) [
            | inl t ↦ ground arith
            | inr t ↦
                let act : lookup k m.active_uploads ≡ some s = ground arith in
                let (x, at, name) = w.owned k s act in
                elim (Bool-cases (r == s)) [
                  | inl q ↦ ground (arith, same_iff u.id k)
                  | inr q ↦ ground (arith, lookup-insert r s v m.uploads)
                ]
          ]) in
    let before = total-delete old u.id m.active_uploads w.distinct in
    let after = total-delete new u.id m.active_uploads w.distinct in
    let is_old : measured old u.id (lookup u.id m.active_uploads) ≡ u.bytes_received =
      rw a (ap received h) in
    let is_new : measured new u.id (lookup u.id m.active_uploads) ≡ v.bytes_received =
      rw a (ap received (lookup-insert_self r v m.uploads)) in
    omega arith

-- Storing an upload under its reference, with a usage that counts its bytes.
pub store-IsAccounted :
    (m : UploadManager) (r usage : ℕ) (u v : Upload)
    → IsAccounted m
    → lookup r m.uploads ≡ some u
    → v.id ≡ u.id
    → (v.closed ≡ true) ⊎ (v.closed ≡ u.closed)
    → v.bytes_received ≤ v.account_max_size
    → (v.size ≡ 0) ⊎ (v.bytes_received ≤ v.size)
    → active_bytes (store m r v) ≡ usage
    → usage ≤ m.max_total_size
    → IsAccounted (set_usage (store m r v) usage)
unfolding store set_usage active_bytes
store-IsAccounted m r usage u v w h name shut in_account in_size count limit = record {
  distinct = w.distinct;
  owned = λ id s a.
      let (x, at, is) = w.owned id s a in
      elim (Bool-cases (r == s)) [
        | inl t ↦ (v, ground (arith, lookup-insert r s v m.uploads), ground arith)
        | inr t ↦ (x, ground (arith, lookup-insert r s v m.uploads), is)
      ];
  unique = λ s t x y hs ht e. ground (
    arith,
    lookup-insert r s v m.uploads,
    lookup-insert r t v m.uploads,
    w.unique s t x y,
    w.unique r t u y,
    w.unique s r x u,
  );
  live = λ s x e. ground (arith, lookup-insert r s v m.uploads, w.live s x, w.live r u h);
  counted = count;
  within = limit;
  bounded = λ s x e. ground (arith, lookup-insert r s v m.uploads, w.bounded s x);
}

-- Storing an upload with the byte count it has leaves the active bytes alone.
pub active_bytes-store_same :
    (m : UploadManager) (r : ℕ) (u v : Upload)
    → IsAccounted m
    → lookup r m.uploads ≡ some u
    → v.bytes_received ≡ u.bytes_received
    → active_bytes (store m r v) ≡ active_bytes m
unfolding active_bytes store
active_bytes-store_same m r u v w h e =
    total_cong (received_at (insert r v m.uploads)) (received_at m.uploads) m.active_uploads
      w.distinct
      (λ k s a. elim (Bool-cases (r == s)) [
        | inl t ↦ ground (arith, lookup-insert r s v m.uploads)
        | inr t ↦ ground (arith, lookup-insert r s v m.uploads)
      ])

-- An active entry under an upload's id is that upload's.
pub active_ref :
    (m : UploadManager) (r s : ℕ) (u : Upload)
    → IsAccounted m
    → lookup r m.uploads ≡ some u
    → lookup u.id m.active_uploads ≡ some s
    → s ≡ r
active_ref m r s u w h a = let (x, at, is) = w.owned u.id s a in w.unique s r x u at h is

pub active_bytes-release :
    (m : UploadManager) (r : ℕ) (u : Upload)
    → IsAccounted m
    → lookup r m.uploads ≡ some u
    → lookup u.id m.active_uploads ≡ some r
    → total (received_at m.uploads) (delete u.id m.active_uploads) + u.bytes_received
      ≡ m.current_usage
unfolding active_bytes
active_bytes-release m r u w h a =
    let is : measured (received_at m.uploads) u.id (lookup u.id m.active_uploads)
        ≡ u.bytes_received =
      rw a (ap received h) in
    omega (arith, w.counted, total-delete (received_at m.uploads) u.id m.active_uploads w.distinct)

pub release-IsAccounted :
    (m : UploadManager) (r : ℕ) (u : Upload)
    → IsAccounted m
    → lookup r m.uploads ≡ some u
    → u.closed ≡ true
    → IsAccounted (release_upload_bytes m u)
unfolding release_upload_bytes active_bytes
release-IsAccounted m r u w h shut = elim (Option-cases (lookup u.id m.active_uploads)) [
  | inl a ↦ rw (a, release_upload_bytes) w
  | inr (s, a) ↦
      let is : s ≡ r = active_ref m r s u w h a in
      let sum = active_bytes-release m r u w h (a ∙ ap some is) in
      rw (a, release_upload_bytes)
        (record {
          distinct = Distinct-delete u.id m.active_uploads w.distinct;
          owned = λ id t e.
              let other = lookup-delete u.id id m.active_uploads in w.owned id t (ground arith);
          unique = w.unique;
          live = λ t x e. ground (
            arith,
            lookup-delete u.id x.id m.active_uploads,
            w.live t x e,
            same_iff u.id x.id,
            w.unique t r x u e h,
          );
          counted = omega arith;
          within = omega (arith, w.within);
          bounded = w.bounded;
        })
]
