-- ===== src/Ftp/UploadSlots.antt =====
-- pkg/ftp/driver.go: `acquireUploadSlot` and `releaseUploadSlot`. A user's channel of slots is its
-- capacity with the number of slots that are taken.
pub mod Running
use ocis_ftp_bridge.Prelude.{
  ℕ, suc, ◌-◌, ◌≤◌, ◌≡◌, refl, Bool, true, false, Option, none, some, ltb, ◌==◌, ◌||◌,
  if◌then◌else◌, Bytes, same, same_refl, same→eq, false≢true, List, [], ◌∷◌, arith, ◌⊎◌, ◌∙◌, sym,
  ap, subst, Bool-cases, inl, inr, Option-cases,
}
use ocis_ftp_bridge.Prelude.Map.{Map, lookup, insert, bytes_eq, lookup-insert, lookup-insert_self}

pub record Slots : Type 0 where
  pub capacity : ℕ
  pub taken : ℕ

pub record SlotAccount : Type 0 where
  pub username : Bytes
  -- 0 where `MaxConcurrentUploads` is not positive.
  pub max_concurrent_uploads : ℕ

-- The user's channel: the one there is, or a new one.
unfoldable pub slots_or_new : ℕ → Option Slots → Slots
slots_or_new max none = record { capacity = max; taken = 0 }
slots_or_new max (some ch) = ch

unfoldable pub take_slot : Slots → Slots × Bool
take_slot ch =
    if ltb ch.taken ch.capacity then (record ch { taken = suc ch.taken }, true) else (ch, false)

-- The answer is `false` for `ErrTooManyConcurrentUploads`.
unfoldable pub acquire_upload_slot : Map Bytes Slots → SlotAccount → Map Bytes Slots × Bool
unfolding slots_or_new take_slot
acquire_upload_slot slots account =
    if account.max_concurrent_uploads == 0
    then (slots, true)
    else let (ch, ok) =
        take_slot (slots_or_new account.max_concurrent_uploads (lookup account.username slots)) in
      (insert account.username ch slots, ok)

unfoldable pub release_upload_slot : Map Bytes Slots → SlotAccount → Map Bytes Slots
release_upload_slot slots account =
    if account.max_concurrent_uploads == 0 then slots else elim (lookup account.username slots) [
      | none ↦ slots
      | some ch ↦ insert account.username (record ch { taken = ch.taken - 1 }) slots
    ]

-- The number of slots that a user's uploads hold.
unfoldable pub taken_by : Bytes → Map Bytes Slots → ℕ
taken_by user slots = elim (lookup user slots) [ none ↦ 0 | some ch ↦ ch.taken ]
