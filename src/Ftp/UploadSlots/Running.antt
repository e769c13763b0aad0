-- ===== src/Ftp/UploadSlots/Running.antt =====
-- The uploads that run, and the slots of `acquireUploadSlot` and `releaseUploadSlot` that they hold.
use ocis_ftp_bridge.Prelude.{
  ℕ, suc, ◌-◌, ◌≤◌, ◌≡◌, refl, Bool, true, false, Option, none, some, ltb, ◌==◌, ◌||◌,
  if◌then◌else◌, Bytes, same, same_refl, same→eq, false≢true, List, [], ◌∷◌, arith, ◌⊎◌, ◌∙◌, sym,
  ap, subst, Bool-cases, inl, inr, Option-cases,
}
use ocis_ftp_bridge.Prelude.Map.{Map, lookup, insert, bytes_eq, lookup-insert, lookup-insert_self}
use ocis_ftp_bridge.Ftp.UploadSlots.{
  Slots, SlotAccount, slots_or_new, take_slot, acquire_upload_slot, release_upload_slot,
}

-- A user asks for an upload, or one of the user's uploads ends.
pub data SlotEvent : Type 0 where
  begins : Bytes → SlotEvent
  ends : Bytes → SlotEvent

-- The uploads that were let in and have not ended, by their users.
pub record Running : Type 0 where
  pub slots : Map Bytes Slots
  pub uploads : List Bytes

unfoldable pub uploads_of : Bytes → List Bytes → ℕ
uploads_of user [] = 0
uploads_of user (u ∷ us) = let rest = uploads_of user us in if same u user then suc rest else rest

-- The list without one upload of the user.
unfoldable pub without : Bytes → List Bytes → List Bytes
without user [] = []
without user (u ∷ us) = let rest = without user us in if same u user then us else u ∷ rest

module _ (limit : Bytes → ℕ) where
  -- The account that the configuration has for a user.
  abbrev pub account_of : Bytes → SlotAccount
  account_of user = record { username = user; max_concurrent_uploads = limit user }

  -- An upload runs if it is let in; only a running upload ends.
  unfoldable pub slot_step : Running → SlotEvent → Running
  slot_step r (begins user) =
      let (slots, ok) = acquire_upload_slot r.slots (account_of user) in
      record { slots = slots; uploads = if ok then user ∷ r.uploads else r.uploads }
  slot_step r (ends user) = if uploads_of user r.uploads == 0 then r else record {
    slots = release_upload_slot r.slots (account_of user);
    uploads = without user r.uploads;
  }

  unfoldable pub slot_run : Running → List SlotEvent → Running
  slot_run r [] = r
  slot_run r (e ∷ es) = slot_run (slot_step r e) es

  -- A user's channel has the configured capacity, holds as many slots as the user has running uploads,
  -- and no more than its capacity.
  abbrev Fits : ℕ → ℕ → Option Slots → Type 0
  Fits cap n none = n ≡ 0
  Fits cap n (some ch) = (ch.capacity ≡ cap) × (ch.taken ≡ n) × (n ≤ cap)

  abbrev IsCounted : Running → Type 0
  IsCounted r =
      (name : Bytes)
      → (limit name == 0) ≡ false
      → Fits (limit name) (uploads_of name r.uploads) (lookup name r.slots)

  take-Fits :
      (cap n : ℕ) (o : Option Slots)
      → Fits cap n o
      → Fits cap
          (if (take_slot (slots_or_new cap o)).1 then suc n else n)
          (some (take_slot (slots_or_new cap o)).0)
  unfolding take_slot slots_or_new
  take-Fits cap n none h = ground arith
  take-Fits cap n (some ch) (c, t, h) = ground arith

  release-Fits :
      (cap n : ℕ) (ch : Slots)
      → Fits cap (suc n) (some ch)
      → Fits cap n (some (record ch { taken = ch.taken - 1 }))
  release-Fits cap n ch (c, t, h) = (c, omega (arith, t), omega (arith, h))

  take-answer :
      (cap n : ℕ) (o : Option Slots) → Fits cap n o → (take_slot (slots_or_new cap o)).1 ≡ ltb n cap
  unfolding take_slot slots_or_new
  take-answer cap n none h = ground arith
  take-answer cap n (some ch) (c, t, h) = ground arith

  uploads_of-without :
      (user name : Bytes) (us : List Bytes)
      → uploads_of name (without user us)
        ≡ (if same user name then uploads_of name us - 1 else uploads_of name us)
  unfolding uploads_of without
  uploads_of-without user name [] = ground arith
  uploads_of-without user name (u ∷ us) =
      let rest = uploads_of-without user name us in
      elim (Bool-cases (same u user)) [
        | inl e ↦
            let k : same u name ≡ same user name = ap (λ x. same x name) (same→eq u user e) in
            ground (arith, e, k)
        | inr e ↦ elim (Bool-cases (same user name)) [
          | inl f ↦
              let k : same u name ≡ false = ap (same u) (sym (same→eq user name f)) ∙ e in
              ground (arith, e, f, k, rest)
          | inr f ↦ ground (arith, e, f, rest)
        ]
      ]

  uploads_of-granted :
      (user : Bytes) (us : List Bytes) (ok : Bool)
      → uploads_of user (if ok then user ∷ us else us)
        ≡ (if ok then suc (uploads_of user us) else uploads_of user us)
  unfolding uploads_of
  uploads_of-granted user us true = rw (same_refl user) refl
  uploads_of-granted user us false = refl

  uploads_of-other :
      (user name : Bytes) (us : List Bytes) (ok : Bool)
      → same user name ≡ false
      → uploads_of name (if ok then user ∷ us else us) ≡ uploads_of name us
  unfolding uploads_of
  uploads_of-other user name us true h = rw h refl
  uploads_of-other user name us false h = refl

  Fits-cong :
      (cap : ℕ) {n n' : ℕ} {o o' : Option Slots} → n' ≡ n → o' ≡ o → Fits cap n o → Fits cap n' o'
  Fits-cong cap {n} {n'} {o} {o'} h k f =
      subst (λ x. Fits cap x o') (sym h) (subst (λ x. Fits cap n x) (sym k) f)

  -- A user without a limit is not one with a limit.
  other_user :
      (user name : Bytes)
      → (limit user == 0) ≡ true
      → (limit name == 0) ≡ false
      → same user name ≡ false
  other_user user name free capped = elim (Bool-cases (same user name)) [
    | inr other ↦ other
    | inl e ↦
        absurd (false≢true (sym capped ∙ ap (λ x. limit x == 0) (sym (same→eq user name e)) ∙ free))
  ]

  lookup_other :
      (user name : Bytes) (ch : Slots) (slots : Map Bytes Slots)
      → same user name ≡ false
      → lookup name (insert user ch slots) ≡ lookup name slots
  lookup_other user name ch slots h = lookup-insert user name ch slots ∙ rw h refl

  -- One user's channel and uploads have changed.
  changed-IsCounted :
      (r : Running) (user : Bytes) (ch : Slots) (us : List Bytes)
      → IsCounted r
      → Fits (limit user) (uploads_of user us) (some ch)
      → ((name : Bytes) → same user name ≡ false → uploads_of name us ≡ uploads_of name r.uploads)
      → IsCounted (record { slots = insert user ch r.slots; uploads = us })
  changed-IsCounted r user ch us w own others name capped = elim (Bool-cases (same user name)) [
    | inl e ↦
        let is : user ≡ name = same→eq user name e in
        subst (λ k. Fits (limit k) (uploads_of k us) (lookup k (insert user ch r.slots))) is
          (Fits-cong (limit user) refl (lookup-insert_self user ch r.slots) own)
    | inr e ↦
        Fits-cong (limit name) (others name e) (lookup_other user name ch r.slots e) (w name capped)
  ]

  begins-IsCounted :
      (r : Running) (user : Bytes) → IsCounted r → IsCounted (slot_step r (begins user))
  unfolding slot_step acquire_upload_slot
  begins-IsCounted r user w = elim (Bool-cases (limit user == 0)) [
    | inl free ↦ rw free (λ name capped.
        Fits-cong (limit name)
          (uploads_of-other user name r.uploads true (other_user user name free capped)) refl
          (w name capped))
    | inr limited ↦
        let taken = take_slot (slots_or_new (limit user) (lookup user r.slots)) in
        rw limited (
          changed-IsCounted r user taken.0 (if taken.1 then user ∷ r.uploads else r.uploads) w
            (Fits-cong (limit user) {o = some taken.0} (uploads_of-granted user r.uploads taken.1)
              refl (take-Fits (limit user) _ (lookup user r.slots) (w user limited)))
            (λ name other. uploads_of-other user name r.uploads taken.1 other))
  ]

  ends-IsCounted : (r : Running) (user : Bytes) → IsCounted r → IsCounted (slot_step r (ends user))
  unfolding slot_step release_upload_slot
  ends-IsCounted r user w = elim (Bool-cases (uploads_of user r.uploads == 0)) [
    | inl idle ↦ rw idle w
    | inr busy ↦ elim (Bool-cases (limit user == 0)) [
      | inl free ↦
          rw (busy, free)
            (λ name capped.
              Fits-cong (limit name)
                (uploads_of-without user name r.uploads
                  ∙ rw (other_user user name free capped) refl)
                refl (w name capped))
      | inr limited ↦ elim (Option-cases (lookup user r.slots)) [
        | inl absent ↦
            let idle : uploads_of user r.uploads ≡ 0 =
              subst (Fits (limit user) (uploads_of user r.uploads)) absent (w user limited) in
            ground (arith, busy, idle)
        | inr (ch, there) ↦
            let fits =
              subst (Fits (limit user) (uploads_of user r.uploads)) there (w user limited) in
            let one_less : uploads_of user (without user r.uploads)
                ≡ uploads_of user r.uploads - 1 =
              uploads_of-without user user r.uploads ∙ rw (same_refl user) refl in
            let before : uploads_of user r.uploads
                ≡ suc (uploads_of user (without user r.uploads)) =
              ground (arith, busy, one_less) in
            rw (busy, limited, there)
              (changed-IsCounted r user (record ch { taken = ch.taken - 1 })
                (without user r.uploads) w
                (release-Fits (limit user) _ ch
                  (subst (λ n. Fits (limit user) n (some ch)) before fits))
                (λ name other. uploads_of-without user name r.uploads ∙ rw other refl))
      ]
    ]
  ]

  slot_run-IsCounted : (r : Running) (es : List SlotEvent) → IsCounted r → IsCounted (slot_run r es)
  unfolding slot_run
  slot_run-IsCounted r [] w = w
  slot_run-IsCounted r (begins user ∷ es) w =
      slot_run-IsCounted (slot_step r (begins user)) es (begins-IsCounted r user w)
  slot_run-IsCounted r (ends user ∷ es) w =
      slot_run-IsCounted (slot_step r (ends user)) es (ends-IsCounted r user w)

  Fits-le : (cap n : ℕ) (o : Option Slots) → Fits cap n o → n ≤ cap
  Fits-le cap n none h = omega (arith, h)
  Fits-le cap n (some ch) (c, t, h) = h

  -- From no uploads, whatever uploads are asked for and end, no user with a limit has more uploads
  -- running than the limit, and a further upload of a user is let in exactly if the user's limit
  -- is 0, which is none, or above the number of the user's running uploads.
  pub slot_run-bound :
      (es : List SlotEvent) (user : Bytes)
      → let r = slot_run (record { slots = []; uploads = [] }) es in
        ((limit user ≡ 0) ⊎ (uploads_of user r.uploads ≤ limit user))
        × ((acquire_upload_slot r.slots (account_of user)).1
            ≡ (limit user == 0 || ltb (uploads_of user r.uploads) (limit user)))
  unfolding acquire_upload_slot uploads_of lookup
  slot_run-bound es user =
      let w = slot_run-IsCounted (record { slots = []; uploads = [] }) es (λ name capped. refl) in
      elim (Bool-cases (limit user == 0)) [
        | inl free ↦ (inl (ground (arith, free)), rw free refl)
        | inr capped ↦
            (inr (Fits-le _ _ _ (w user capped)), rw capped (take-answer _ _ _ (w user capped)))
      ]
