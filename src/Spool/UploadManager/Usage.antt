-- ===== src/Spool/UploadManager/Usage.antt =====
-- What the spool's usage counter is meant to count: the bytes received by the active uploads.
use ocis_ftp_bridge.Prelude.{
  ℕ, ◌≡◌, refl, Option, none, some, inl, inr, Bool-cases, Bytes, same, same_iff, [], ◌∷◌, arith,
}
use ocis_ftp_bridge.Prelude.Map.{Map, lookup, nat_eq, bytes_eq, Distinct, total, beq_refl}
use ocis_ftp_bridge.Spool.Types.{Upload, UploadManager}

abbrev pub received : Option Upload → ℕ
received none = 0
received (some u) = u.bytes_received

-- The bytes received by the upload that a reference of the active set points to.
abbrev pub received_at : Map ℕ Upload → Bytes → ℕ → ℕ
received_at uploads id ref = received (lookup ref uploads)

unfoldable pub active_bytes : UploadManager → ℕ
active_bytes m = total (received_at m.uploads) m.active_uploads

-- Only the entries of a map matter for its total.
pub total_cong :
    (f g : Bytes → ℕ → ℕ) (m : Map Bytes ℕ)
    → Distinct m
    → ((k : Bytes) (v : ℕ) → lookup k m ≡ some v → f k v ≡ g k v)
    → total f m ≡ total g m
unfolding total lookup
total_cong f g [] d h = refl
total_cong f g ((k, v) ∷ m) (fresh, d) h =
    let here : f k v ≡ g k v = h k v (ground (arith, beq_refl k)) in
    let there : total f m ≡ total g m = total_cong f g m d (λ j w e.
      h j w (elim (Bool-cases (same k j)) [
        | inl t ↦ let eq : k ≡ j = (same_iff k j).0 t in cc
        | inr t ↦ rw t e
      ])) in
    omega arith
