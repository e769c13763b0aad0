-- ===== src/Spool/UploadManager/Chunks.antt =====
-- `StartUpload` and `WriteChunk` keep the accounting of the upload manager.
use ocis_ftp_bridge.Prelude.{
  Option-cases, ℕ, ◌+◌, ◌-◌, ◌≤◌, ◌%◌, ◌≡◌, refl, ap, Bool, true, false, none, some, ◌⊎◌, inl, inr,
  Bool-cases, Bytes, same, same_iff, arith, ◌==◌, ltb, not, length,
}
use ocis_ftp_bridge.Prelude.Map.{
  lookup, insert, nat_eq, bytes_eq, total, lookup-insert, lookup-insert_self, Distinct-insert,
  delete_absent,
}
use ocis_ftp_bridge.Spool.Types.{Upload, UploadManager, WriteAnswer, written, write_failed}
use ocis_ftp_bridge.Spool.UploadManager.{
  uint64_size, max_int64, int64_sum_exceeds, store, set_usage, track, chunk_refused, put_chunk,
  write_chunk, add_uint64,
}
use ocis_ftp_bridge.Spool.UploadManager.Usage.{active_bytes, received_at, total_cong}
use ocis_ftp_bridge.Spool.UploadManager.Accounting.{
  IsAccounted, active-le-usage, active_bytes-store, store-IsAccounted,
}

-- No upload has the id yet.
abbrev pub IsNewId : UploadManager → Bytes → Type 0
IsNewId m id = (s : ℕ) (x : Upload) → lookup s m.uploads ≡ some x → same x.id id ≡ false

pub new_id_inactive :
    (m : UploadManager) (id : Bytes)
    → IsAccounted m
    → IsNewId m id
    → lookup id m.active_uploads ≡ none
new_id_inactive m id w new = elim (Option-cases (lookup id m.active_uploads)) [
  | inl a ↦ a
  | inr (s, a) ↦ let (x, at, is) = w.owned id s a in ground (arith, new s x at, same_iff x.id id)
]

pub active_bytes-track :
    (m : UploadManager) (r : ℕ) (u : Upload)
    → IsAccounted m
    → lookup r m.uploads ≡ none
    → IsNewId m u.id
    → active_bytes (track m r u) ≡ u.bytes_received + m.current_usage
unfolding active_bytes track insert total
active_bytes-track m r u w free new =
    let gone = delete_absent u.id m.active_uploads (new_id_inactive m u.id w new) in
    let old = received_at m.uploads in
    let after = received_at (insert r u m.uploads) in
    let same_total : total after m.active_uploads ≡ total old m.active_uploads =
      total_cong after old m.active_uploads w.distinct (λ k s a.
        let (x, at, is) = w.owned k s a in
        elim (Bool-cases (r == s)) [
          | inl t ↦ ground arith
          | inr t ↦ ground (arith, lookup-insert r s u m.uploads)
        ]) in
    let head : after u.id r ≡ u.bytes_received = ground (arith, lookup-insert_self r u m.uploads) in
    omega (arith, w.counted, ap (total after) gone)

pub track-IsAccounted :
    (m : UploadManager) (r : ℕ) (u : Upload)
    → IsAccounted m
    → lookup r m.uploads ≡ none
    → IsNewId m u.id
    → u.bytes_received ≡ 0
    → IsAccounted (track m r u)
unfolding track
track-IsAccounted m r u w free new zero_bytes = record {
  distinct = Distinct-insert u.id r m.active_uploads w.distinct;
  owned = λ id s a.
      let entry = lookup-insert u.id id r m.active_uploads in
      elim (Bool-cases (same u.id id)) [
        | inl t ↦ (u, ground (arith, lookup-insert_self r u m.uploads), (same_iff u.id id).0 t)
        | inr t ↦
            let (x, at, is) = w.owned id s (ground arith) in
            (x, ground (arith, lookup-insert r s u m.uploads), is)
      ];
  unique = λ s t x y hs ht e. ground (
    arith,
    lookup-insert r s u m.uploads,
    lookup-insert r t u m.uploads,
    w.unique s t x y,
    new s x,
    new t y,
    same_iff x.id u.id,
    same_iff y.id u.id,
  );
  live = λ s x h. ground (
    arith,
    lookup-insert r s u m.uploads,
    w.live s x,
    new s x,
    lookup-insert u.id x.id r m.active_uploads,
    same_iff u.id x.id,
    same_iff x.id u.id,
  );
  counted = omega (arith, active_bytes-track m r u w free new);
  within = w.within;
  bounded = λ s x h. ground (arith, lookup-insert r s u m.uploads, w.bounded s x);
}

-- A file that was closed takes no bytes.
unfoldable pub possible : Upload → WriteAnswer → Bool
possible u written = not u.closed
possible u (write_failed k) = true

-- What the checks of `WriteChunk` leave, on byte counts below 2 ^ 63.
pub chunk_refused-bounds :
    (u : Upload) (n : ℕ)
    → chunk_refused u n ≡ none
    → u.bytes_received + n ≤ max_int64
    → ((u.size ≡ 0) ⊎ (u.bytes_received + n ≤ u.size)) × (u.bytes_received + n ≤ u.account_max_size)
unfolding chunk_refused int64_sum_exceeds
chunk_refused-bounds u n h fits = ground arith

-- Counts below 2 ^ 63 do not wrap, and a rolled back reservation leaves the usage as it was.
pub add_uint64_fits : (a n : ℕ) → a ≤ max_int64 → n ≤ max_int64 → add_uint64 a n ≡ a + n
add_uint64_fits a n ha hn = omega arith

pub add_uint64_rollback :
    (a n : ℕ) → a ≤ max_int64 → n ≤ max_int64 → (add_uint64 a n + uint64_size - n) % uint64_size ≡ a
add_uint64_rollback a n ha hn = rw (add_uint64_fits a n ha hn) (omega arith)

written-IsAccounted :
    (m : UploadManager) (r : ℕ) (u : Upload) (n : ℕ)
    → IsAccounted m
    → lookup r m.uploads ≡ some u
    → lookup u.id m.active_uploads ≡ some r
    → chunk_refused u n ≡ none
    → m.current_usage + n ≤ m.max_total_size
    → m.max_total_size ≤ max_int64
    → IsAccounted (
        set_usage
          (store m r (record u { bytes_received = u.bytes_received + n }))
          (m.current_usage + n))
written-IsAccounted m r u n w h active passed room limit =
    let v = record u { bytes_received = u.bytes_received + n } in
    let part = active-le-usage m r u w h active in
    let bounds = chunk_refused-bounds u n passed (omega arith) in
    store-IsAccounted m r (m.current_usage + n) u v w h refl (inr refl) bounds.1 bounds.0
      (omega (arith, w.counted, active_bytes-store m r u v w h active)) room

pub put_chunk-IsAccounted :
    (m : UploadManager) (r : ℕ) (u : Upload) (n : ℕ) (answer : WriteAnswer)
    → IsAccounted m
    → lookup r m.uploads ≡ some u
    → chunk_refused u n ≡ none
    → m.max_total_size ≤ max_int64
    → n ≤ max_int64
    → possible u answer ≡ true
    → IsAccounted (put_chunk m r u n answer).1
unfolding put_chunk possible
put_chunk-IsAccounted m r u n written w h passed limit short can =
    let sum = add_uint64_fits m.current_usage n (omega (arith, w.within)) short in
    let active : lookup u.id m.active_uploads ≡ some r = ground (arith, w.live r u h) in
    elim (Bool-cases (ltb m.max_total_size (add_uint64 m.current_usage n))) [
      | inl full ↦ rw (full, put_chunk) w
      | inr room ↦
          rw (room, put_chunk)
            (rw sum (written-IsAccounted m r u n w h active passed (ground arith) limit))
    ]
put_chunk-IsAccounted m r u n (write_failed k) w h passed limit short can =
    let back = add_uint64_rollback m.current_usage n (omega (arith, w.within)) short in
    elim (Bool-cases (ltb m.max_total_size (add_uint64 m.current_usage n))) [
      | inl full ↦ rw (full, put_chunk) w
      | inr room ↦ rw (room, put_chunk) (rw back w)
    ]

pub write_chunk-IsAccounted :
    (m : UploadManager) (r : ℕ) (u : Upload) (chunk : Bytes) (answer : WriteAnswer)
    → IsAccounted m
    → lookup r m.uploads ≡ some u
    → m.max_total_size ≤ max_int64
    → length chunk ≤ max_int64
    → possible u answer ≡ true
    → IsAccounted (write_chunk m (some r) chunk answer).1
unfolding write_chunk
write_chunk-IsAccounted m r u chunk answer w h limit short can =
    elim (Option-cases (chunk_refused u (length chunk))) [
      | inl passed ↦
          rw (h, write_chunk)
            (rw passed
              (put_chunk-IsAccounted m r u (length chunk) answer w h passed limit short can))
      | inr (e, refused) ↦ rw (h, write_chunk) (rw refused w)
    ]
