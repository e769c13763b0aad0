-- ===== src/Go/FilePath/Components.antt =====
-- Splitting and joining at slashes, and the components of a cleaned path.
use ocis_ftp_bridge.Prelude.{
  ℕ, ◌≡◌, ◌≢◌, refl, ap, ◌∙◌, Bool, true, false, ◌||◌, List, [], ◌∷◌, ◌++◌, reverse, ◌==◌,
  if◌then◌else◌, Bytes, same, All, All-append, arith, Bool-cases, inl, inr,
}
use mathlib.Core.List.{append_assoc, reverse-append}
use ocis_ftp_bridge.Go.Strings.{has_prefix, has_byte, split, join, push_head}
use ocis_ftp_bridge.Go.FilePath.{slash, dot, dot_dot, is_abs, go_up, push, push_all, names}

-- A text without the separator.
abbrev pub Free : ℕ → Bytes → Type 0
Free c s = has_byte c s ≡ false

pub split_without : (c : ℕ) (s : Bytes) → Free c s → split c s ≡ s ∷ []
unfolding split has_byte
split_without c [] h = refl
split_without c (x ∷ s) h = ground (arith, split_without c s)

push_head-ne_nil : (x : ℕ) (fs : List Bytes) → push_head x fs ≢ []
push_head-ne_nil x [] h = cc
push_head-ne_nil x (f ∷ fs) h = cc

pub split-ne_nil : (c : ℕ) (s : Bytes) → split c s ≢ []
unfolding split
split-ne_nil c [] h = cc
split-ne_nil c (x ∷ s) h = ground (arith, push_head-ne_nil x (split c s))

-- A separator splits.
pub split-append : (c : ℕ) (s t : Bytes) → split c (s ++ c ∷ t) ≡ split c s ++ split c t
unfolding split
split-append c [] t = ground arith
split-append c (x ∷ s) t = rw (split-append c s t) (push_at (split c s) (split-ne_nil c s))
  where
    push_at :
        (fs : List Bytes)
        → fs ≢ []
        → (if x == c then [] ∷ (fs ++ split c t) else push_head x (fs ++ split c t))
          ≡ (if x == c then [] ∷ fs else push_head x fs) ++ split c t
    push_at [] h = absurd (h refl)
    push_at (f ∷ fs) h = ground arith

pub split-join :
    (c : ℕ) (f : Bytes) (fs : List Bytes)
    → All (Free c) (f ∷ fs)
    → split c (join c (f ∷ fs)) ≡ f ∷ fs
unfolding join
split-join c f [] (h, hs) = split_without c f h
split-join c f (g ∷ fs) (h, hs) =
    split-append c f (join c (g ∷ fs))
    ∙ rw (split_without c f h) (ap (λ r. f ∷ r) (split-join c g fs hs))

push_head-Free :
    (c x : ℕ) (fs : List Bytes) → (x == c) ≡ false → All (Free c) fs → All (Free c) (push_head x fs)
unfolding has_byte
push_head-Free c x [] h hs = (ground (arith, h), tt)
push_head-Free c x (f ∷ fs) h (k, ks) = (ground (arith, h, k), ks)

pub split-Free : (c : ℕ) (s : Bytes) → All (Free c) (split c s)
unfolding split has_byte
split-Free c [] = (refl, tt)
split-Free c (x ∷ s) = elim (Bool-cases (x == c)) [
  | inl h ↦ rw h (refl, split-Free c s)
  | inr h ↦ rw h (push_head-Free c x (split c s) h (split-Free c s))
]

pub has_prefix-append : (s p : Bytes) → has_prefix s p ≡ true → (t : Bytes) × (s ≡ p ++ t)
unfolding has_prefix
has_prefix-append s [] h = (s, refl)
has_prefix-append [] (c ∷ p) h = ground arith
has_prefix-append (x ∷ s) (c ∷ p) h =
    let (t, e) = has_prefix-append s p (ground arith) in (t, ground (arith, e))

-- A text that begins with `r` and a separator has the fields of `r` in front.
pub split-has_prefix :
    (c : ℕ) (s r : Bytes)
    → has_prefix s (r ++ c ∷ []) ≡ true
    → (t : Bytes) × (split c s ≡ split c r ++ split c t)
split-has_prefix c s r h =
    let (t, e) = has_prefix-append s (r ++ c ∷ []) h in
    (t, ap (split c) (e ∙ append_assoc r (c ∷ []) t) ∙ split-append c r t)

-- A component that a cleaned path can have.
pub record IsName (n : Bytes) : Type 0 where
  pub free : Free b'/' n
  pub filled : same n [] ≡ false
  pub no_dot : same n dot ≡ false

abbrev pub NoUp : Bytes → Type 0
NoUp n = same n dot_dot ≡ false

pub All-reverse {ℓ κ} : {A : Type ℓ} (P : A → Type κ) (xs : List A) → All P xs → All P (reverse xs)
All-reverse P [] h = tt
All-reverse P (x ∷ xs) (h, hs) =
    rw (reverse-append (x ∷ []) xs)
      (All-append P (reverse xs) (x ∷ []) (All-reverse P xs hs) (h, tt))

dot_dot-IsName : IsName dot_dot
unfolding has_byte
dot_dot-IsName = record { free = refl; filled = refl; no_dot = refl }

push-IsName :
    (rooted : Bool) (stack : List Bytes) (c : Bytes)
    → All IsName stack
    → Free b'/' c
    → All IsName (push rooted stack c)
unfolding push
push-IsName rooted stack c h k = elim (Bool-cases (same c [] || same c dot)) [
  | inl e ↦ rw e h
  | inr e ↦ rw e (elim (Bool-cases (same c dot_dot)) [
    | inl u ↦ rw u (up stack h)
    | inr u ↦ rw u (record { free = k; filled = ground (arith, e); no_dot = ground (arith, e) }, h)
  ])
]
  where
    up_root : (b : Bool) → All IsName (if b then [] else dot_dot ∷ [])
    up_root true = tt
    up_root false = (dot_dot-IsName, tt)

    up : (st : List Bytes) → All IsName st → All IsName (go_up rooted st)
    up [] g = up_root rooted
    up (top ∷ st) (g, gs) = elim (Bool-cases (same top dot_dot)) [
      | inl e ↦ rw e (dot_dot-IsName, (g, gs))
      | inr e ↦ rw e gs
    ]

push_all-IsName :
    (rooted : Bool) (stack cs : List Bytes)
    → All IsName stack
    → All (Free b'/') cs
    → All IsName (push_all rooted stack cs)
unfolding push_all
push_all-IsName rooted stack [] h k = h
push_all-IsName rooted stack (c ∷ cs) h (k, ks) =
    push_all-IsName rooted (push rooted stack c) cs (push-IsName rooted stack c h k) ks

-- The components of a cleaned path are names.
pub names-IsName : (p : Bytes) → All IsName (names p)
unfolding names
names-IsName p =
    All-reverse IsName _ (push_all-IsName (is_abs p) [] (split slash p) tt (split-Free slash p))

push-NoUp : (stack : List Bytes) (c : Bytes) → All NoUp stack → All NoUp (push true stack c)
unfolding push
push-NoUp stack c h = elim (Bool-cases (same c [] || same c dot)) [
  | inl e ↦ rw e h
  | inr e ↦
      rw e (elim (Bool-cases (same c dot_dot)) [ inl u ↦ rw u (up stack h) | inr u ↦ rw u (u, h) ])
]
  where
    up : (st : List Bytes) → All NoUp st → All NoUp (go_up true st)
    up [] g = tt
    up (top ∷ st) (g, gs) = rw g gs

push_all-NoUp : (stack cs : List Bytes) → All NoUp stack → All NoUp (push_all true stack cs)
unfolding push_all
push_all-NoUp stack [] h = h
push_all-NoUp stack (c ∷ cs) h = push_all-NoUp (push true stack c) cs (push-NoUp stack c h)

-- A cleaned absolute path has no `..`.
pub names-NoUp : (p : Bytes) → is_abs p ≡ true → All NoUp (names p)
unfolding names
names-NoUp p h = rw h (All-reverse NoUp _ (push_all-NoUp [] (split slash p) tt))
