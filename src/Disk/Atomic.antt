-- ===== src/Disk/Atomic.antt =====
-- Save, and the writing of the ACME files.
use yabber.Base.{
  ℕ, ◌≡◌, ◌≢◌, refl, ap, ◌∙◌, Bool, true, false, none, some, List, [], ◌∷◌, ◌++◌, Bytes, str,
  bytes_eq, lookup, insert, delete, lookup-insert_self, Bool-cases, Option-cases, inl, inr, length,
  length-append, arith,
}
use yabber.Disk.{
  File, Files, Disk, fails, with_content, private_mode, create_temp, close, remove, rename, stat,
  read_file, write, write_file, install, replace, save, write_file_atomic,
}
use yabber.Disk.Steps.{Always, stat-Always, read_file-Always, write_file-Always}
use yabber.Disk.Replacing.{OldOrNew, Replaced, replace-Replaced, lookup-remove}

append_ne : (path more : Bytes) (c : ℕ) → path ++ (c ∷ more) ≢ path
append_ne path more c e = omega (arith, length-append path (c ∷ more), ap length e)

-- A disk whose past is not looked at.
abbrev pub fresh : Files → List Bool → Disk
fresh files faults = record { files = files; faults = faults; seen = [] }

module _ (torn : Bytes → Bytes) (temp text path : Bytes) where
  placed :
      (f : File) (d : Disk)
      → temp ≢ path
      → fails d ≡ false
      → lookup temp d.files ≡ some f
      → (lookup path (remove temp (rename temp path d).0).0.files ≡ some f)
        × ((rename temp path d).1 ≡ false)
  unfolding rename
  placed f d apart b h = (
    lookup-remove torn temp text none path apart (rename temp path d).0
        ∙ rw (h, b, rename) (lookup-insert_self path f (delete temp d.files)),
    rw (h, b, rename) refl,
  )

  staged_torn :
      (files : Files)
      → lookup temp (
          insert temp
            (with_content
              (torn text)
              (lookup temp (insert temp (record { content = []; mode = private_mode }) files)))
            (insert temp (record { content = []; mode = private_mode }) files))
        ≡ some (record { content = torn text; mode = private_mode })
  staged_torn files =
      lookup-insert_self temp _ _
      ∙ ap (λ f. some (with_content (torn text) f)) (lookup-insert_self temp _ files)

  -- Whichever operations of a save fail, the file at the path has at every moment its old content and
  -- mode or the whole new text, and it has the new text if no error is returned.
  -- The temporary file is another one.
  pub save-Replaced :
      (files : Files) (faults : List Bool) (apart : temp ≢ path)
      → Replaced torn temp text
          (lookup path files)
          path
          apart
          (save torn temp path text (fresh files faults))
  unfolding save
  save-Replaced files faults apart = elim (Option-cases (stat path d).1) [
    | inl i ↦ rw (i, save) (goes private_mode d1 now1)
    | inr (f, i) ↦ elim (Option-cases (read_file path d1).1) [
      | inl p ↦ rw (i, p, save) (goes f.mode d2 now2)
      | inr (old, p) ↦ elim (Bool-cases (write_file torn bak old f.mode d2).1) [
        | inl b ↦ rw (i, p, b, save) (record { always = now3 old f.mode; done = inl refl })
        | inr b ↦
            rw (i, p, b, save) (goes f.mode (write_file torn bak old f.mode d2).0 (now3 old f.mode))
      ]
    ]
  ]
    where
      bak : Bytes
      bak = path ++ str ".bak"

      d : Disk
      d = fresh files faults

      d1 : Disk
      d1 = (stat path d).0

      d2 : Disk
      d2 = (read_file path d1).0

      now1 : Always (OldOrNew (lookup path files) text) path d1
      now1 = stat-Always _ path path d (record { now = inl refl; seen = tt })

      now2 : Always (OldOrNew (lookup path files) text) path d2
      now2 = read_file-Always _ path path d1 now1

      now3 :
          (old : Bytes) (mode : ℕ)
          → Always (OldOrNew (lookup path files) text) path (write_file torn bak old mode d2).0
      now3 old mode = write_file-Always _ path torn bak old mode d2 (append_ne path _ _) now2

      goes :
          (mode : ℕ) (u : Disk)
          → Always (OldOrNew (lookup path files) text) path u
          → Replaced torn temp text
              (lookup path files)
              path
              apart
              (replace torn temp path text mode u)
      goes mode u a = replace-Replaced torn temp text (lookup path files) path apart mode u a

  -- The writing of an ACME file whose write fails, when the next two operations succeed: the part
  -- that was written replaces the file, and no error is returned. The temporary file is another one.
  pub write_file_atomic_torn :
      (mode : ℕ) (files : Files) (faults : List Bool)
      → temp ≢ path
      → (lookup path
            (write_file_atomic torn temp path text mode
              (fresh files (false ∷ true ∷ false ∷ false ∷ faults))).0.files
          ≡ some (record { content = torn text; mode = private_mode }))
        × ((write_file_atomic torn temp path text mode
              (fresh files (false ∷ true ∷ false ∷ false ∷ faults))).1
            ≡ false)
  unfolding write_file_atomic create_temp write close install rename remove
  write_file_atomic_torn mode files faults apart =
      placed _ (close (write torn temp text (create_temp temp start).0).0).0 apart refl
        (staged_torn files)
    where
      start : Disk
      start = fresh files (false ∷ true ∷ false ∷ false ∷ faults)
