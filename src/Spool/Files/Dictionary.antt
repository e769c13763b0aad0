-- ===== src/Spool/Files/Dictionary.antt =====
-- The stored files as a dictionary: what `Store`, `Retrieve` and `DeleteByPath` do to the entries that
-- a user and a file id name.
use ocis_ftp_bridge.Prelude.{
  ℕ, ◌≡◌, refl, sym, ap, subst, ◌∙◌, Bool, true, false, ◌&&◌, some, none, [], ◌∷◌, ◌++◌, Bytes,
  codes, same, same→eq, eq→same, same_iff, arith, inl, inr, ok, ok-injective, Result-cases,
  if◌then◌else◌, length,
}
use mathlib.Core.List.{append_assoc, append_cancel_left}
use ocis_ftp_bridge.Prelude.Map.{
  lookup, insert, bytes_eq, lookup-insert, lookup-insert_self, lookup-delete,
}
use ocis_ftp_bridge.Go.Strings.{has_prefix, contains}
use ocis_ftp_bridge.Go.FilePath.{dot_dot, is_abs, names, render, join_path, rel}
use ocis_ftp_bridge.Go.FilePath.Components.{Free}
use ocis_ftp_bridge.Go.FilePath.Cleaning.{is_abs-join_path}
use ocis_ftp_bridge.Spool.Types.{SpoolError, FileRef, committed}
use ocis_ftp_bridge.Spool.Files.{
  StoredFile, Disk, Os, Manager, is_above, stored_id, id_refused, remove_file, user_dir, store_path,
  store, read_dir, read_file, read_either, retrieve, delete_path, delete_by_path,
}
use ocis_ftp_bridge.Spool.Files.Below.{IsPlain, names-join_plain, clean-plain, rel_below}
use ocis_ftp_bridge.Spool.Files.Plain.{stored_id-IsPlain, stored_id_taken}

-- The path of a user's file.
abbrev pub path_of : Bytes → Bytes → Bytes → Bytes
path_of root user id = join_path (join_path root user) id

names-path_of :
    (root user id : Bytes)
    → is_abs root ≡ true
    → IsPlain user
    → IsPlain id
    → names (path_of root user id) ≡ names root ++ (user ∷ id ∷ [])
names-path_of root user id abs u i =
    names-join_plain (join_path root user) id (is_abs-join_path root user abs) i
    ∙ ap (λ ns. ns ++ (id ∷ [])) (names-join_plain root user abs u)
    ∙ append_assoc (names root) (user ∷ []) (id ∷ [])

bool_eq : (a b : Bool) → (a ≡ true → b ≡ true) → (b ≡ true → a ≡ true) → a ≡ b
bool_eq true b f g = sym (f refl)
bool_eq false true f g = g refl
bool_eq false false f g = refl

-- Different users or ids have different paths.
path_of-same :
    (root user id user' id' : Bytes)
    → is_abs root ≡ true
    → IsPlain user
    → IsPlain id
    → IsPlain user'
    → IsPlain id'
    → same (path_of root user id) (path_of root user' id') ≡ (same user user' && same id id')
path_of-same root user id user' id' abs u i u' i' =
    let here = path_of root user id in
    let there = path_of root user' id' in
    bool_eq (same here there) (same user user' && same id id')
      (λ h.
        let eq = same→eq here there h in
        let parts = append_cancel_left (names root) (user ∷ id ∷ []) (user' ∷ id' ∷ []) (
          sym (names-path_of root user id abs u i)
          ∙ ap names eq
          ∙ names-path_of root user' id' abs u' i') in
        let user_eq : user ≡ user' = cc in
        let id_eq : id ≡ id' = cc in
        ground (arith, eq→same user user' user_eq, eq→same id id' id_eq))
      (λ h.
        let user_eq : user ≡ user' = same→eq user user' (ground arith) in
        let id_eq : id ≡ id' = same→eq id id' (ground arith) in
        eq→same here there (ap (λ v. path_of root v id) user_eq ∙ ap (path_of root user') id_eq))

prefix-of_contains : (s p : Bytes) → contains s p ≡ false → has_prefix s p ≡ false
unfolding contains
prefix-of_contains [] p h = h
prefix-of_contains (x ∷ s) p h = ground arith

remove_file-ok :
    (may : Bytes → Bool) (here there : Bytes) (disk disk' : Disk)
    → remove_file may here disk ≡ (ok tt, disk')
    → lookup there disk' ≡ (if same here there then none else lookup there disk)
unfolding remove_file
remove_file-ok may here there disk disk' h =
    ground (arith, lookup-delete here there disk, same_iff here there)

module _ (os : Os) (m : Manager) (root : Bytes) (at : os.absolute m.spool_dir ≡ some root)
    (abs : is_abs root ≡ true) where
  user_dir-plain :
      (user : Bytes) → IsPlain user → user_dir os m user ≡ ok (root, join_path root user)
  unfolding user_dir
  user_dir-plain user u = rw (at, user_dir) (rw (clean-plain user u) refl)

  store_path-ok :
      (hex : Bytes → Bytes) (user filename : Bytes) (now : ℕ) (content : Bytes) (p : Bytes × Bytes)
      → IsPlain user
      → store_path os m hex user filename now content ≡ ok p
      → (p ≡ (
        stored_id hex user filename now content,
        path_of root user (stored_id hex user filename now content),
      ))
        × (contains user dot_dot ≡ false)
        × (same user [] ≡ false)
  unfolding store_path
  store_path-ok hex user filename now content p u h =
      let dirs = user_dir-plain user u in ground (arith, dirs)

  read_dir-plain :
      (user : Bytes)
      → IsPlain user
      → contains user dot_dot ≡ false
      → read_dir os m user ≡ ok (join_path root user)
  unfolding read_dir is_above render
  read_dir-plain user u clear =
      let inside : rel root (join_path root user) ≡ some user =
        rel_below root (join_path root user) (user ∷ []) abs (is_abs-join_path root user abs)
          (names-join_plain root user abs u) in
      let low = prefix-of_contains user dot_dot clear in
      rw (user_dir-plain user u, read_dir) (rw (inside, is_above) (rw low refl))

  -- The file that a successful `Store` writes.
  store-ok :
      (hex : Bytes → Bytes) (user filename : Bytes) (now : ℕ) (content : Bytes) (disk disk' : Disk)
      (ref : FileRef)
      → IsPlain user
      → store os m hex user filename now content disk ≡ (ok ref, disk')
      → (ref.file_id ≡ stored_id hex user filename now content)
        × (ref.path ≡ path_of root user ref.file_id)
        × (disk' ≡ insert ref.path (record { contents = content; mod_time = now }) disk)
        × (contains user dot_dot ≡ false)
        × (same user [] ≡ false)
  unfolding store
  store-ok hex user filename now content disk disk' ref u h =
      elim (Result-cases (store_path os m hex user filename now content)) [
        | inl (e, failed) ↦ ground arith
        | inr (p, made) ↦
            let (is, clear, named) = store_path-ok hex user filename now content p u made in
            let written : FileRef = record {
              user_id = user;
              file_id = p.0;
              filename = filename;
              size = length content;
              path = p.1;
              created_at = now;
              target_path = [];
              status = committed;
            } in
            let left = insert p.1 (record { contents = content; mod_time = now }) disk in
            let is_store : store os m hex user filename now content disk ≡ (ok written, left) =
              rw (made, store) refl in
            let both = sym h ∙ is_store in
            let is_ref : ref ≡ written = ok-injective {E = SpoolError} (ap (λ r. r.0) both) in
            let id_is : ref.file_id ≡ p.0 = ap (λ r. r.file_id) is_ref in
            let path_is : ref.path ≡ p.1 = ap (λ r. r.path) is_ref in
            (
              id_is ∙ ap (λ q. q.0) is,
              path_is ∙ ap (λ q. q.1) is ∙ ap (path_of root user) (sym (id_is ∙ ap (λ q. q.0) is)),
              ap (λ r. r.1) both
                  ∙ ap (λ k. insert k (record { contents = content; mod_time = now }) disk)
                      (sym path_is),
              clear,
              named,
            )
      ]

  module _ (hex : Bytes → Bytes) (no_slash : (s : Bytes) → Free 47 (hex s))
      (no_backslash : (s : Bytes) → Free 92 (hex s)) where
    id-IsPlain :
        (user filename id : Bytes) (now : ℕ) (content : Bytes)
        → id ≡ stored_id hex user filename now content
        → IsPlain id
    id-IsPlain user filename id now content is =
        subst IsPlain (sym is)
          (stored_id-IsPlain hex no_slash no_backslash user filename now content)

    -- Let the absolute path of the spool directory be known, and let no hash have a slash or a
    -- backslash in it. A successful `Store` for a user whose name is one path component is, over
    -- all such users and file ids, the insertion into a dictionary: the file id that it answers with
    -- gets the content for this user, and every other entry is left.
    pub store_refines :
        (user filename : Bytes) (now : ℕ) (content : Bytes) (disk disk' : Disk) (ref : FileRef)
        (user' id' : Bytes)
        → IsPlain user
        → IsPlain user'
        → IsPlain id'
        → store os m hex user filename now content disk ≡ (ok ref, disk')
        → lookup (path_of root user' id') disk' ≡ (
            if same user user' && same ref.file_id id'
            then some (record { contents = content; mod_time = now })
            else lookup (path_of root user' id') disk)
    store_refines user filename now content disk disk' ref user' id' u u' i' h =
        let (id_is, path_is, left, clear, named) =
          store-ok hex user filename now content disk disk' ref u h in
        let i = id-IsPlain user filename ref.file_id now content id_is in
        let test = path_of-same root user ref.file_id user' id' abs u i u' i' in
        let new : StoredFile = record { contents = content; mod_time = now } in
        let entry =
          lookup-insert (path_of root user ref.file_id) (path_of root user' id') new disk in
        let left' : disk' ≡ insert (path_of root user ref.file_id) new disk =
          left ∙ ap (λ k. insert k new disk) path_is in
        ap (lookup (path_of root user' id')) left'
        ∙ entry
        ∙ ap (λ b. if b then some new else lookup (path_of root user' id') disk) test

    -- What a successful `Store` has stored, `Retrieve` gives back under the file id of the answer,
    -- if the file can be read.
    pub retrieve_stored :
        (user filename : Bytes) (now : ℕ) (content : Bytes) (disk disk' : Disk) (ref : FileRef)
        → IsPlain user
        → store os m hex user filename now content disk ≡ (ok ref, disk')
        → os.may_read ref.path ≡ true
        → retrieve os m user ref.file_id disk' ≡ ok content
    unfolding retrieve read_dir read_either read_file is_above
    retrieve_stored user filename now content disk disk' ref u h readable =
        let (id_is, path_is, left, clear, named) =
          store-ok hex user filename now content disk disk' ref u h in
        let i = id-IsPlain user filename ref.file_id now content id_is in
        let taken : id_refused ref.file_id ≡ false =
          ap id_refused id_is
          ∙ stored_id_taken hex no_slash no_backslash user filename now content in
        let new : StoredFile = record { contents = content; mod_time = now } in
        let there : lookup (path_of root user ref.file_id) disk' ≡ some new =
          ap (λ k. lookup k disk') (sym path_is)
          ∙ ap (lookup ref.path) left
          ∙ lookup-insert_self ref.path new disk in
        let may : os.may_read (path_of root user ref.file_id) ≡ true =
          ap os.may_read (sym path_is) ∙ readable in
        let at_dir = read_dir-plain user u clear in
        let given : read_either os m (path_of root user ref.file_id)
              (join_path (join_path root user) (codes "file-" ++ ref.file_id)) disk'
            ≡ ok content =
          ground (arith, there, may) in
        rw (named, retrieve) (rw (i.0.filled, taken) (rw at_dir given))

  -- A successful `DeleteByPath` on the path of such a user's file takes this entry out of the
  -- dictionary, and leaves every other one. The path is absolute and clean, which `filepath.Abs`
  -- keeps.
  pub delete_refines :
      (user id user' id' : Bytes) (disk disk' : Disk)
      → IsPlain user
      → IsPlain id
      → IsPlain user'
      → IsPlain id'
      → os.absolute (path_of root user id) ≡ some (path_of root user id)
      → delete_by_path os m (path_of root user id) disk ≡ (ok tt, disk')
      → lookup (path_of root user' id') disk'
        ≡ (if same user user' && same id id' then none else lookup (path_of root user' id') disk)
  unfolding delete_by_path delete_path remove_file
  delete_refines user id user' id' disk disk' u i u' i' absolute h =
      let here = path_of root user id in
      let there = path_of root user' id' in
      let test = path_of-same root user id user' id' abs u i u' i' in
      let removed : remove_file os.may_remove here disk ≡ (ok tt, disk') =
        ground (arith, absolute, at) in
      remove_file-ok os.may_remove here there disk disk' removed
      ∙ ap (λ b. if b then none else lookup there disk) test
