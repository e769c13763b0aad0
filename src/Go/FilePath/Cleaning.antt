-- ===== src/Go/FilePath/Cleaning.antt =====
-- What cleaning does to the components of a path, and that it changes a cleaned path no more.
use ocis_ftp_bridge.Prelude.{
  ◌≡◌, ◌≢◌, refl, sym, ap, ◌∙◌, Bool, true, ◌||◌, List, [], ◌∷◌, ◌++◌, reverse, ◌==◌, if◌then◌else◌,
  Bytes, same, All, All-map, arith, Bool-cases, inl, inr,
}
use mathlib.Core.List.{append-nil, append_assoc, reverse-append, reverse-reverse}
use ocis_ftp_bridge.Go.Strings.{split, join}
use ocis_ftp_bridge.Go.FilePath.{
  slash, dot, is_abs, push, push_all, names, render, clean, join_path,
}
use ocis_ftp_bridge.Go.FilePath.Components.{
  Free, split-append, split-join, IsName, NoUp, names-IsName, names-NoUp,
}

-- What cleaning leaves out, where no component goes up.
abbrev pub is_noise : Bytes → Bool
is_noise c = same c [] || same c dot

unfoldable pub kept : List Bytes → List Bytes
kept [] = []
kept (c ∷ cs) = if is_noise c then kept cs else c ∷ kept cs

push_all-append :
    (b : Bool) (st xs ys : List Bytes) → push_all b st (xs ++ ys) ≡ push_all b (push_all b st xs) ys
unfolding push_all
push_all-append b st [] ys = refl
push_all-append b st (x ∷ xs) ys = push_all-append b (push b st x) xs ys

push-NoUp :
    (b : Bool) (st : List Bytes) (c : Bytes)
    → NoUp c
    → push b st c ≡ (if is_noise c then st else c ∷ st)
unfolding push
push-NoUp b st c h = rw h refl

reverse-cons_append {ℓ} :
    {A : Type ℓ} (c : A) (cs st : List A) → reverse cs ++ (c ∷ st) ≡ reverse (c ∷ cs) ++ st
reverse-cons_append c cs st =
    rw (reverse-append (c ∷ []) cs) (sym (append_assoc (reverse cs) (c ∷ []) st))

push_all_plain :
    (b : Bool) (st cs : List Bytes) → All NoUp cs → push_all b st cs ≡ reverse (kept cs) ++ st
unfolding push_all kept
push_all_plain b st [] h = refl
push_all_plain b st (c ∷ cs) (h, hs) = rw (push-NoUp b st c h) (elim (Bool-cases (is_noise c)) [
  | inl e ↦ rw e (push_all_plain b st cs hs)
  | inr e ↦ rw e (push_all_plain b (c ∷ st) cs hs ∙ reverse-cons_append c (kept cs) st)
])

-- A path with a part appended that goes nowhere up: its components, and then what is kept of the part.
pub names-append :
    (a b : Bytes)
    → a ≢ []
    → All NoUp (split slash b)
    → names (a ++ slash ∷ b) ≡ names a ++ kept (split slash b)
unfolding names
names-append [] b h k = absurd (h refl)
names-append (c ∷ a) b h k =
    ap (λ cs. reverse (push_all (c == b'/') [] cs)) (split-append slash (c ∷ a) b)
    ∙ ap reverse (
        push_all-append (c == b'/') [] (split slash (c ∷ a)) (split slash b)
        ∙ push_all_plain (c == b'/') (push_all (c == b'/') [] (split slash (c ∷ a))) (split slash b)
            k)
    ∙ reverse-append (reverse (kept (split slash b)))
        (push_all (c == b'/') [] (split slash (c ∷ a)))
    ∙ ap (λ r. reverse (push_all (c == b'/') [] (split slash (c ∷ a))) ++ r)
        (reverse-reverse (kept (split slash b)))

kept_names : (cs : List Bytes) → All IsName cs → kept cs ≡ cs
unfolding kept
kept_names [] h = refl
kept_names (c ∷ cs) (h, hs) = ground (arith, h.filled, h.no_dot, kept_names cs hs)

names-Free : (cs : List Bytes) → All IsName cs → All (Free b'/') cs
names-Free cs h = All-map cs (λ c k. k.free) h

pub split-join_names : (cs : List Bytes) → All IsName cs → kept (split slash (join slash cs)) ≡ cs
unfolding join split kept
split-join_names [] h = refl
split-join_names (c ∷ cs) h =
    ap kept (split-join slash c cs (names-Free (c ∷ cs) h)) ∙ kept_names (c ∷ cs) h

NoUp-split-join :
    (cs : List Bytes) → All IsName cs → All NoUp cs → All NoUp (split slash (join slash cs))
unfolding join split
NoUp-split-join [] h k = (refl, tt)
NoUp-split-join (c ∷ cs) h k = rw (split-join slash c cs (names-Free (c ∷ cs) h)) k

-- The components of an absolute path made of given names.
pub names-render : (cs : List Bytes) → All IsName cs → All NoUp cs → names (render true cs) ≡ cs
unfolding names render split push_all push
names-render cs h k =
    ap reverse (push_all_plain true [] (split slash (join slash cs)) (NoUp-split-join cs h k))
    ∙ ap reverse (append-nil (reverse (kept (split slash (join slash cs)))))
    ∙ reverse-reverse (kept (split slash (join slash cs)))
    ∙ split-join_names cs h

pub clean_abs : (p : Bytes) → is_abs p ≡ true → clean p ≡ render true (names p)
unfolding clean
clean_abs p h = ap (λ b. render b (names p)) h

pub is_abs-clean : (p : Bytes) → is_abs p ≡ true → is_abs (clean p) ≡ true
unfolding render
is_abs-clean p h = rw (clean_abs p h) refl

-- Cleaning an absolute path keeps its components, and cleaning it again changes nothing.
pub names-clean : (p : Bytes) → is_abs p ≡ true → names (clean p) ≡ names p
names-clean p h = rw (clean_abs p h) (names-render (names p) (names-IsName p) (names-NoUp p h))

-- Two absolute paths with the same components clean to the same path.
pub clean_eq :
    (p q : Bytes) → is_abs p ≡ true → is_abs q ≡ true → names p ≡ names q → clean p ≡ clean q
clean_eq p q h k e = rw (clean_abs p h, clean_abs q k) (ap (render true) e)

pub clean-clean : (p : Bytes) → is_abs p ≡ true → clean (clean p) ≡ clean p
clean-clean p h = clean_eq (clean p) p (is_abs-clean p h) h (names-clean p h)

-- `join_path` on a first part that is not empty.
pub join_path-clean : (a b : Bytes) → a ≢ [] → join_path a b ≡ clean (a ++ slash ∷ b)
unfolding join_path
join_path-clean [] b h = absurd (h refl)
join_path-clean (c ∷ a) b h = refl

pub abs-ne_nil : (p : Bytes) → is_abs p ≡ true → p ≢ []
abs-ne_nil [] h = ground arith
abs-ne_nil (c ∷ p) h = cc

pub is_abs-append : (a b : Bytes) → is_abs a ≡ true → is_abs (a ++ b) ≡ true
is_abs-append [] b h = ground arith
is_abs-append (c ∷ a) b h = h

pub is_abs-join_path : (a b : Bytes) → is_abs a ≡ true → is_abs (join_path a b) ≡ true
is_abs-join_path a b h =
    rw (join_path-clean a b (abs-ne_nil a h))
      (is_abs-clean (a ++ slash ∷ b) (is_abs-append a (slash ∷ b) h))

-- The components of a join whose second part goes nowhere up.
pub names-join_path :
    (a b : Bytes)
    → is_abs a ≡ true
    → All NoUp (split slash b)
    → names (join_path a b) ≡ names a ++ kept (split slash b)
names-join_path a b h k = rw (join_path-clean a b (abs-ne_nil a h)) (
    names-clean (a ++ slash ∷ b) (is_abs-append a (slash ∷ b) h)
    ∙ names-append a b (abs-ne_nil a h) k)
