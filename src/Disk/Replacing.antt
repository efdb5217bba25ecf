-- ===== src/Disk/Replacing.antt =====
-- Whatever fails while a file is replaced, its path holds what it held or the whole new text.
use yabber.Base.{
  ℕ, ◌≡◌, ◌≢◌, refl, sym, ap, subst, ◌∙◌, Bool, true, false, ◌||◌, if◌then◌else◌, Option, some,
  Bytes, bytes_eq, lookup, delete, lookup-insert_self, lookup-delete_ne, Bool-cases, ◌⊎◌, inl, inr,
}
use yabber.Disk.{
  File, Disk, fails, create_temp, chmod, close, remove, rename, write, install, replace,
}
use yabber.Disk.Steps.{
  Always, create_temp-Always, remove-Always, close-Always, chmod-Always, rename-Always,
  write-Always,
}

-- The temporary file holds the text, unless an error was met.
unfoldable pub Staged : Bytes → Bytes → Disk → Bool → Type 0
Staged temp text d failed =
    (failed ≡ true)
    ⊎ ((mode : ℕ) × (lookup temp d.files ≡ some (record { content = text; mode = mode })))

-- What a path holds: what it held, or the whole text.
abbrev pub OldOrNew : Option File → Bytes → Option File → Type 0
OldOrNew old text f = (f ≡ old) ⊎ ((mode : ℕ) × (f ≡ some (record { content = text; mode = mode })))

module _ (torn : Bytes → Bytes) (temp text : Bytes) where
  pub write-Staged :
      (d : Disk) → Staged temp text (write torn temp text d).0 (write torn temp text d).1
  unfolding write Staged
  write-Staged d = elim (Bool-cases (fails d)) [
    | inl f ↦ rw (f, write) (inl refl)
    | inr f ↦ rw (f, write) (inr (_, lookup-insert_self temp _ d.files))
  ]

  pub chmod-Staged :
      (mode : ℕ) (d : Disk)
      → Staged temp text d false
      → Staged temp text (chmod temp mode d).0 (chmod temp mode d).1
  unfolding chmod Staged
  chmod-Staged mode d (inl h) = absurd (no h)
    where
      no : false ≡ true → ⊥
      no h = cc
  chmod-Staged mode d (inr (m, h)) = elim (Bool-cases (fails d)) [
    | inl f ↦ rw (f, chmod) (inl refl)
    | inr f ↦ rw (f, h, chmod) (inr (mode, lookup-insert_self temp _ d.files))
  ]

  pub close-Staged :
      (failed : Bool) (d : Disk)
      → Staged temp text d failed
      → Staged temp text (close d).0 (failed || (close d).1)
  unfolding close Staged
  close-Staged true d s = inl refl
  close-Staged false d (inl h) = inl (ap (λ b. b || (close d).1) h)
  close-Staged false d (inr (m, h)) = elim (Bool-cases (fails d)) [
    | inl f ↦ rw (f, close) (inl refl)
    | inr f ↦ rw (f, close) (inr (m, h))
  ]

  module _ (old : Option File) (path : Bytes) (apart : temp ≢ path) where
    abbrev Good : Disk → Type 0
    Good d = Always (OldOrNew old text) path d

    -- The path is as it should be, and holds the text if no error is reported.
    pub record Replaced (result : Disk × Bool) : Type 0 where
      pub always : Always (OldOrNew old text) path result.0
      pub done :
          (result.1 ≡ true)
          ⊎ ((mode : ℕ) × (lookup path result.0.files
                ≡ some (record { content = text; mode = mode })))

    pub lookup-remove : (d : Disk) → lookup path (remove temp d).0.files ≡ lookup path d.files
    unfolding remove
    lookup-remove d = elim (Bool-cases (fails d)) [
      | inl f ↦ rw (f, remove) refl
      | inr f ↦ rw (f, remove) (lookup-delete_ne temp path d.files apart)
    ]

    pub renamed :
        (f : File) (d : Disk)
        → lookup temp d.files ≡ some f
        → ((rename temp path d).1 ≡ true) ⊎ (lookup path (rename temp path d).0.files ≡ some f)
    unfolding rename
    renamed f d h = elim (Bool-cases (fails d)) [
      | inl b ↦ rw (h, b, rename) (inl refl)
      | inr b ↦ rw (h, b, rename) (inr (lookup-insert_self path f (delete temp d.files)))
    ]

    install_staged :
        (mode : ℕ) (d : Disk)
        → lookup temp d.files ≡ some (record { content = text; mode = mode })
        → Good d
        → Replaced (install torn temp path false d)
    unfolding install
    install_staged mode d h g = record {
      always =
          remove-Always (OldOrNew old text) path temp (rename temp path d).0 apart
            (rename-Always (OldOrNew old text) path temp d (λ f e. inr (mode, sym e ∙ h)) g);
      done = elim (renamed (record { content = text; mode = mode }) d h) [
        | inl b ↦ inl b
        | inr r ↦ inr (mode, lookup-remove (rename temp path d).0 ∙ r)
      ];
    }

    install-Replaced :
        (failed : Bool) (d : Disk)
        → Staged temp text d failed
        → Good d
        → Replaced (install torn temp path failed d)
    unfolding install Staged
    install-Replaced true d s g = record {
      always = remove-Always (OldOrNew old text) path temp d apart g;
      done = inl refl;
    }
    install-Replaced false d (inl h) g = absurd (no h)
      where
        no : false ≡ true → ⊥
        no h = cc
    install-Replaced false d (inr (mode, h)) g = install_staged mode d h g

    filled : (mode : ℕ) (d : Disk) → Disk × Bool
    filled mode d =
        let (d2, unwritten) = write torn temp text d in
        if unwritten then (d2, true) else chmod temp mode d2

    filled-Staged :
        (mode : ℕ) (d : Disk)
        → Good d
        → Staged temp text (filled mode d).0 (filled mode d).1 × Good (filled mode d).0
    unfolding filled
    filled-Staged mode d g = elim (Bool-cases (write torn temp text d).1) [
      | inl u ↦ rw u (unfold Staged in inl refl, wrote)
      | inr u ↦ rw u (
        chmod-Staged mode (write torn temp text d).0
            (subst (Staged temp text (write torn temp text d).0) u (write-Staged d)),
        chmod-Always (OldOrNew old text) path temp mode (write torn temp text d).0 apart wrote,
      )
    ]
      where
        wrote : Good (write torn temp text d).0
        wrote = write-Always (OldOrNew old text) path torn temp text d apart g

    pub replace-Replaced :
        (mode : ℕ) (d : Disk) → Good d → Replaced (replace torn temp path text mode d)
    unfolding replace filled
    replace-Replaced mode d g = elim (Bool-cases (create_temp temp d).1) [
      | inl b ↦ rw b (record { always = created; done = inl refl })
      | inr b ↦ rw b (
          let (staged, good) = filled-Staged mode (create_temp temp d).0 created in
          install-Replaced _ (close (filled mode (create_temp temp d).0).0).0
            (close-Staged (filled mode (create_temp temp d).0).1
              (filled mode (create_temp temp d).0).0 staged)
            (close-Always (OldOrNew old text) path (filled mode (create_temp temp d).0).0 good))
    ]
      where
        created : Good (create_temp temp d).0
        created = create_temp-Always (OldOrNew old text) path temp d apart g
