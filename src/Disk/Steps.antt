-- ===== src/Disk/Steps.antt =====
-- What an operation leaves of another file than its own.
use yabber.Base.{
  Bool, true, false, if◌then◌else◌, ℕ, ◌≡◌, ◌≢◌, sym, subst, Option, none, some, Bytes, bytes_eq,
  lookup, insert, delete, lookup-insert_ne, lookup-delete_ne, lookup-insert_self, All, All-map,
  Bool-cases, Option-cases, inl, inr,
}
use yabber.Disk.{
  install, write_file_atomic, File, Files, Disk, fails, after, attempt, with_mode, create_temp,
  chmod, close, remove, rename, stat, read_file, write, write_file,
}

module _ (P : Option File → Type 0) (path : Bytes) where
  -- The file at the path is as it should be, now and after every operation before.
  pub record Always (d : Disk) : Type 0 where
    pub now : P (lookup path d.files)
    pub seen : All (λ files. P (lookup path files)) d.seen

  pub after-Always :
      (files : Files) (d : Disk) → P (lookup path files) → Always d → Always (after files d)
  after-Always files d p a = record { now = p; seen = (p, a.seen) }

  pub attempt-Always :
      (files : Files) (d : Disk) → P (lookup path files) → Always d → Always (attempt files d).0
  attempt-Always files d p a = elim (Bool-cases (fails d)) [
    | inl f ↦ rw f (after-Always d.files d a.now a)
    | inr f ↦ rw f (after-Always files d p a)
  ]

  insert-keeps :
      (other : Bytes) (f : File) (files : Files)
      → other ≢ path
      → P (lookup path files)
      → P (lookup path (insert other f files))
  insert-keeps other f files ne p = subst P (sym (lookup-insert_ne other path f files ne)) p

  pub create_temp-Always :
      (other : Bytes) (d : Disk) → other ≢ path → Always d → Always (create_temp other d).0
  unfolding create_temp
  create_temp-Always other d ne a = attempt-Always _ d (insert-keeps other _ d.files ne a.now) a

  pub remove-Always :
      (other : Bytes) (d : Disk) → other ≢ path → Always d → Always (remove other d).0
  unfolding remove
  remove-Always other d ne a =
      attempt-Always _ d (subst P (sym (lookup-delete_ne other path d.files ne)) a.now) a

  pub close-Always : (d : Disk) → Always d → Always (close d).0
  unfolding close
  close-Always d a = attempt-Always d.files d a.now a

  pub stat-Always : (other : Bytes) (d : Disk) → Always d → Always (stat other d).0
  unfolding stat
  stat-Always other d a = after-Always d.files d a.now a

  pub read_file-Always : (other : Bytes) (d : Disk) → Always d → Always (read_file other d).0
  unfolding read_file
  read_file-Always other d a = stat-Always other d a

  with_mode-keeps :
      (other : Bytes) (mode : ℕ) (files : Files) (f : Option File)
      → other ≢ path
      → P (lookup path files)
      → P (lookup path (with_mode mode files other f))
  with_mode-keeps other mode files none ne p = p
  with_mode-keeps other mode files (some f) ne p = insert-keeps other _ files ne p

  pub chmod-Always :
      (other : Bytes) (mode : ℕ) (d : Disk)
      → other ≢ path
      → Always d
      → Always (chmod other mode d).0
  unfolding chmod
  chmod-Always other mode d ne a =
      attempt-Always _ d (with_mode-keeps other mode d.files (lookup other d.files) ne a.now) a

  -- A rename onto the path, of a file that may stand there.
  pub rename-Always :
      (other : Bytes) (d : Disk)
      → ((f : File) → lookup other d.files ≡ some f → P (some f))
      → Always d
      → Always (rename other path d).0
  unfolding rename
  rename-Always other d fits a = elim (Option-cases (lookup other d.files)) [
    | inl e ↦ rw (e, rename) (after-Always d.files d a.now a)
    | inr (f, e) ↦
        rw (e, rename)
          (attempt-Always (insert path f (delete other d.files)) d
            (subst P (sym (moved f)) (fits f e)) a)
  ]
    where
      moved : (f : File) → lookup path (insert path f (delete other d.files)) ≡ some f
      moved f = lookup-insert_self path f (delete other d.files)

  -- A rename between other paths.
  pub rename_other-Always :
      (other target : Bytes) (d : Disk)
      → other ≢ path
      → target ≢ path
      → Always d
      → Always (rename other target d).0
  unfolding rename
  rename_other-Always other target d ne ne' a = elim (Option-cases (lookup other d.files)) [
    | inl e ↦ rw (e, rename) (after-Always d.files d a.now a)
    | inr (f, e) ↦
        rw (e, rename)
          (attempt-Always (insert target f (delete other d.files)) d
            (insert-keeps target f (delete other d.files) ne'
              (subst P (sym (lookup-delete_ne other path d.files ne)) a.now))
            a)
  ]

  module _ (torn : Bytes → Bytes) where
    pub write-Always :
        (other text : Bytes) (d : Disk)
        → other ≢ path
        → Always d
        → Always (write torn other text d).0
    unfolding write
    write-Always other text d ne a = elim (Bool-cases (fails d)) [
      | inl f ↦ rw (f, write) (after-Always _ d (insert-keeps other _ d.files ne a.now) a)
      | inr f ↦ rw (f, write) (after-Always _ d (insert-keeps other _ d.files ne a.now) a)
    ]

    pub write_file-Always :
        (other text : Bytes) (mode : ℕ) (d : Disk)
        → other ≢ path
        → Always d
        → Always (write_file torn other text mode d).0
    unfolding write_file
    write_file-Always other text mode d ne a = elim (Bool-cases (fails d)) [
      | inl f ↦ rw (f, write_file) (after-Always _ d (insert-keeps other _ d.files ne a.now) a)
      | inr f ↦ rw (f, write_file) (after-Always _ d (insert-keeps other _ d.files ne a.now) a)
    ]

module _ (P : Option File → Type 0) (path : Bytes) (torn : Bytes → Bytes) where
  install_other-Always :
      (temp target : Bytes) (failed : Bool) (d : Disk)
      → temp ≢ path
      → target ≢ path
      → Always P path d
      → Always P path (install torn temp target failed d).0
  unfolding install
  install_other-Always temp target true d ne ne' a = remove-Always P path temp d ne a
  install_other-Always temp target false d ne ne' a =
      remove-Always P path temp (rename temp target d).0 ne
        (rename_other-Always P path temp target d ne ne' a)

  -- The writing of an ACME file at another path.
  pub write_file_atomic-Always :
      (temp target text : Bytes) (mode : ℕ) (d : Disk)
      → temp ≢ path
      → target ≢ path
      → Always P path d
      → Always P path (write_file_atomic torn temp target text mode d).0
  unfolding write_file_atomic
  write_file_atomic-Always temp target text mode d ne ne' a =
      elim (Bool-cases (create_temp temp d).1) [
        | inl b ↦ rw b created
        | inr b ↦ rw b (install_other-Always temp target _ _ ne ne' (close-Always P path _ written))
      ]
    where
      created : Always P path (create_temp temp d).0
      created = create_temp-Always P path temp d ne a

      w : Disk × Bool
      w = write torn temp text (create_temp temp d).0

      written : Always P path (if w.1 then w.0 else (chmod temp mode w.0).0)
      written =
          let wrote = write-Always P path torn temp text (create_temp temp d).0 ne created in
          elim (Bool-cases w.1) [
            | inl b ↦ rw b wrote
            | inr b ↦ rw b (chmod-Always P path temp mode w.0 ne wrote)
          ]

-- A weaker demand on the file.
pub Always-map :
    (P Q : Option File → Type 0) (path : Bytes) (d : Disk)
    → ((f : Option File) → P f → Q f)
    → Always P path d
    → Always Q path d
Always-map P Q path d g a = record {
  now = g (lookup path d.files) a.now;
  seen = All-map _ _ d.seen (λ files. g (lookup path files)) a.seen;
}
