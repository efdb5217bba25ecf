-- ===== src/Handlers/Opening.antt =====
-- Which files the file handler opens.
use yabber.Base.{
  ◌≡◌, refl, sym, subst, Bool, true, false, ◌⊎◌, inl, inr, Bytes, str, any, split, Bool-cases,
  Sum-cases,
}
use yabber.Handlers.{FileError, FileSystem, is_hidden, open_public}

module _ (fs : FileSystem) (root : Bytes) (browse : Bool) where
  -- A file that may be served under a name.
  pub record Public (name : Bytes) (file : fs.File) : Type 0 where
    pub in_root : fs.open_file root name ≡ inr file
    pub no_hidden : any is_hidden (split name b'/') ≡ false
    -- It may be listed, is no directory, or has an index.
    pub listable :
        (browse ≡ true)
        ⊎ ((fs.is_dir file ≡ inr false)
            ⊎ ((index : fs.File) × (fs.open_file root (fs.join_path name (str "index.html"))
                  ≡ inr index)))

  abbrev Opens : Bytes → FileError ⊎ fs.File → Type 0
  Opens name (inl e) = Unit
  Opens name (inr file) = Public name file

  opened :
      (name : Bytes) (file : fs.File)
      → open_public fs root browse name ≡ inr file
      → Public name file
      → Opens name (open_public fs root browse name)
  opened name file e p = subst (Opens name) (sym e) p

  open_public-Opens : (name : Bytes) → Opens name (open_public fs root browse name)
  unfolding open_public
  open_public-Opens name = elim (Bool-cases (any is_hidden (split name b'/'))) [
    | inl h ↦ rw (h, open_public) tt
    | inr h ↦ elim (Sum-cases (fs.open_file root name)) [
      | inl (e, f) ↦ rw (h, f, open_public) tt
      | inr (file, f) ↦ elim (Bool-cases browse) [
        | inl b ↦
            opened name file (rw (h, f, b, open_public) refl)
              (record { in_root = f; no_hidden = h; listable = inl b })
        | inr b ↦ elim (Sum-cases (fs.is_dir file)) [
          | inl (e, d) ↦ rw (h, f, b, d, open_public) tt
          | inr (dir, d) ↦ elim (Bool-cases dir) [
            | inr n ↦ opened name file (rw (h, f, b, d, n, open_public) refl) (record {
              in_root = f;
              no_hidden = h;
              listable = inr (inl (subst (λ x. fs.is_dir file ≡ inr x) n d));
            })
            | inl y ↦ elim (Sum-cases (fs.open_file root (fs.join_path name (str "index.html")))) [
              | inl (e, i) ↦ rw (h, f, b, d, y, i, open_public) tt
              | inr (index, i) ↦
                  opened name file (rw (h, f, b, d, y, i, open_public) refl)
                    (record { in_root = f; no_hidden = h; listable = inr (inr (index, i)) })
            ]
          ]
        ]
      ]
    ]
  ]

  -- A file that is opened is the one of the root under that name; no part of the name begins with a
  -- dot, except for .well-known; and it is no directory, unless directories may be listed or it has an
  -- index.html.
  pub open_public-Public :
      (name : Bytes) (file : fs.File)
      → open_public fs root browse name ≡ inr file
      → Public name file
  open_public-Public name file e = subst (Opens name) e (open_public-Opens name)
