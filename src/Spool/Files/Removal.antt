-- ===== src/Spool/Files/Removal.antt =====
-- What `DeleteByPath` and `Cleanup` may take away: only files below the spool directory, and
-- `Cleanup` only old ones.
use ocis_ftp_bridge.Prelude.{
  ℕ, ◌-◌, ◌≡◌, refl, ap, ◌∙◌, Bool, true, false, some, List, [], ◌∷◌, ◌++◌, Bytes, same, same_iff,
  arith, Bool-cases, inl, inr, ◌⊎◌, ok, Result-cases, ltb,
}
use mathlib.Core.List.{Memᴰ}
use mathlib.Core.List.Memᴰ.{head, tail}
use ocis_ftp_bridge.Prelude.Map.{lookup, bytes_eq, lookup-delete}
use ocis_ftp_bridge.Go.FilePath.{names, rel}
use ocis_ftp_bridge.Spool.Files.{
  Disk, Os, Manager, is_above, remove_file, delete_path, delete_by_path, SpoolFile, walk_files,
  age_limit, may_walk, list_all, delete_old, cleanup,
}
use ocis_ftp_bridge.Spool.Files.Below.{rel-below}

module _ (os : Os) (m : Manager) (root : Bytes) (at : os.absolute m.spool_dir ≡ some root) where
  -- A path that lies below the spool directory: its components are the directory's and more.
  abbrev pub IsBelow : Bytes → Type 0
  IsBelow k = (ts : List Bytes) × (names k ≡ names root ++ ts)

  delete_path-IsBelow :
      (path k : Bytes) → delete_path os m path ≡ ok k → (os.absolute path ≡ some k) × IsBelow k
  unfolding delete_path
  delete_path-IsBelow path k h =
      let is : os.absolute path ≡ some k = ground (arith, at) in
      let low : is_above (rel root k) ≡ false = ground (arith, at, is) in (is, rel-below root k low)

  remove_file-other :
      (may : Bytes → Bool) (path k : Bytes) (disk : Disk)
      → (lookup k (remove_file may path disk).1 ≡ lookup k disk) ⊎ (path ≡ k)
  unfolding remove_file
  remove_file-other may path k disk = elim (Bool-cases (same path k)) [
    | inl h ↦ inr ((same_iff path k).0 h)
    | inr h ↦ inl (ground (arith, lookup-delete path k disk))
  ]

  -- `DeleteByPath`, on any path, changes at most the file at the absolute form of that path, and this
  -- one only if its components are those of the spool directory and more.
  pub delete_by_path-IsBelow :
      (path k : Bytes) (disk : Disk)
      → (lookup k (delete_by_path os m path disk).1 ≡ lookup k disk)
        ⊎ ((os.absolute path ≡ some k) × IsBelow k)
  unfolding delete_by_path
  delete_by_path-IsBelow path k disk = elim (Result-cases (delete_path os m path)) [
    | inl (e, failed) ↦ inl (rw (failed, delete_by_path) refl)
    | inr (file, found_at) ↦ elim (remove_file-other os.may_remove file k disk) [
      | inl kept ↦ inl (rw (found_at, delete_by_path) kept)
      | inr is ↦ inr (delete_path-IsBelow path k (found_at ∙ ap ok is))
    ]
  ]

  -- A listed file that is older than the cutoff, at a path below the spool directory.
  abbrev pub IsOld : ℕ → List SpoolFile → Bytes → Type 0
  IsOld cutoff files k =
      (f : SpoolFile) × Memᴰ f files
      × (ltb f.mod_time cutoff ≡ true)
      × (os.absolute f.file.path ≡ some k)
      × IsBelow k

  delete_old-IsOld :
      (cutoff : ℕ) (files : List SpoolFile) (k : Bytes) (disk : Disk)
      → (lookup k (delete_old os m cutoff files disk) ≡ lookup k disk) ⊎ IsOld cutoff files k
  unfolding delete_old
  delete_old-IsOld cutoff [] k disk = inl refl
  delete_old-IsOld cutoff (f ∷ fs) k disk = elim (Bool-cases (ltb f.mod_time cutoff)) [
    | inl old ↦
        let disk' = (delete_by_path os m f.file.path disk).1 in
        elim (delete_old-IsOld cutoff fs k disk') [
          | inr (g, listed, old, is, below) ↦ inr (g, tail listed, old, is, below)
          | inl later ↦ elim (delete_by_path-IsBelow f.file.path k disk) [
            | inl kept ↦ inl (rw (old, delete_old) (later ∙ kept))
            | inr (is, below) ↦ inr (f, head refl, old, is, below)
          ]
        ]
    | inr young ↦ elim (delete_old-IsOld cutoff fs k disk) [
      | inl later ↦ inl (rw (young, delete_old) later)
      | inr (g, listed, old, is, below) ↦ inr (g, tail listed, old, is, below)
    ]
  ]

  -- `Cleanup` changes a file only if the walk lists it with a modification time before the cutoff,
  -- which is the maximal age before now, and its components are those of the spool directory and more.
  pub cleanup-IsOld :
      (max_age now : ℕ) (k : Bytes) (disk : Disk)
      → (lookup k (cleanup os m max_age now disk).1 ≡ lookup k disk)
        ⊎ IsOld (now - age_limit max_age) (walk_files root disk) k
  unfolding cleanup list_all
  cleanup-IsOld max_age now k disk = elim (Bool-cases (os.may_read root)) [
    | inl may ↦ elim (Bool-cases (may_walk os m root disk)) [
      | inl all ↦
          rw (at, cleanup, list_all)
            (rw (may, cleanup)
              (rw (all, cleanup)
                (delete_old-IsOld (now - age_limit max_age) (walk_files root disk) k disk)))
      | inr all ↦ inl (rw (at, cleanup, list_all) (rw (may, cleanup) (rw (all, cleanup) refl)))
    ]
    | inr may ↦ inl (rw (at, cleanup, list_all) (rw (may, cleanup) refl))
  ]
