-- ===== src/Update/Staging.antt =====
-- What is staged next to the program, and what a move of it puts in its place.
use yabber.Base.{
  ℕ, ◌≡◌, ◌≢◌, refl, sym, ap, subst, ◌∙◌, Bool, true, false, ◌||◌, Option, none, some, [], Bytes,
  str, bytes_eq, ◌==◌, ==_iff, lookup, Bool-cases, Option-cases, ◌⊎◌, inl, inr, or_else, has_prefix,
}
use yabber.Disk.{File, Disk, create_temp, write, close, chmod, rename, read_file}
use yabber.Disk.Steps.{
  Always, create_temp-Always, remove-Always, close-Always, read_file-Always, chmod-Always,
  rename-Always, write-Always,
}
use yabber.Disk.Replacing.{Staged, write-Staged, chmod-Staged, close-Staged, lookup-remove, renamed}
use yabber.Update.{
  Outside, UpdateError, not_staged, checksum_mismatch, fill, download, replace_executable, starts,
  install, run_file, give_up, after_download, update_to, is_current, Outcome, failed, up_to_date,
  available, updated,
}

abbrev pub is_updated : Outcome → Bool
is_updated (failed e) = false
is_updated up_to_date = false
is_updated available = false
is_updated updated = true

module _ (o : Outside) (torn : Bytes → Bytes) (temp want : Bytes) where
  -- A file with the wanted checksum.
  pub record Wanted (f : Option File) : Type 0 where
    pub content : Bytes
    pub mode : ℕ
    pub is : f ≡ some (record { content = content; mode = mode })
    pub checked : o.sha256_hex content ≡ want

  -- One that also starts as a program of this name.
  pub record Tested (f : Option File) : Type 0 where
    pub file : Wanted f
    pub started : has_prefix (or_else (o.run_version file.content) []) (str "yabber ") ≡ true

  module _ (old : Option File) (executable : Bytes) (apart : temp ≢ executable) where
    -- The program that was there, or a tested one.
    abbrev pub OldOrTested : Option File → Type 0
    OldOrTested f = (f ≡ old) ⊎ Tested f

    abbrev pub Good : Disk → Type 0
    Good = Always OldOrTested executable

    abbrev Filled : Disk × Option UpdateError → Type 0
    Filled (d, some e) = Good d
    Filled (d, none) = Good d × Wanted (lookup temp d.files)

    give_up-Good : (e : UpdateError) (d : Disk) → Good d → Filled (give_up o torn temp e d)
    unfolding give_up
    give_up-Good e d g = remove-Always OldOrTested executable temp d apart g

    Staged-Wanted :
        (body : Bytes) (d : Disk)
        → o.sha256_hex body ≡ want
        → Staged temp body d false
        → Wanted (lookup temp d.files)
    unfolding Staged
    Staged-Wanted body d c (inl h) = absurd (no h)
      where
        no : false ≡ true → ⊥
        no h = cc
    Staged-Wanted body d c (inr (mode, h)) = record {
      content = body;
      mode = mode;
      is = h;
      checked = c;
    }

    fill-Filled : (body : Bytes) (d : Disk) → Good d → Filled (fill o torn temp body want d)
    unfolding fill
    fill-Filled body d g = elim (Bool-cases (w.1 || c.1)) [
      | inl b ↦ rw (b, fill) (give_up-Good not_staged c.0 good)
      | inr b ↦ elim (Bool-cases (o.sha256_hex body == want)) [
        | inr m ↦ rw (b, m, fill) (give_up-Good checksum_mismatch c.0 good)
        | inl m ↦ elim (Bool-cases (chmod temp 493 c.0).1) [
          | inl u ↦ rw (b, m, u, fill) (give_up-Good not_staged _ set_good)
          | inr u ↦
              rw (b, m, u, fill)
                (
                  set_good,
                  Staged-Wanted body _ ((==_iff (o.sha256_hex body) want).0 m) (
                      subst (Staged temp body (chmod temp 493 c.0).0) u (
                        chmod-Staged torn temp body 493 c.0 (
                          subst (Staged temp body c.0) b (
                            close-Staged torn temp body w.1 w.0 (write-Staged torn temp body d))))),
                )
        ]
      ]
    ]
      where
        w : Disk × Bool
        w = write torn temp body d

        c : Disk × Bool
        c = close w.0

        good : Good c.0
        good =
            close-Always OldOrTested executable w.0
              (write-Always OldOrTested executable torn temp body d apart g)

        set_good : Good (chmod temp 493 c.0).0
        set_good = chmod-Always OldOrTested executable temp 493 c.0 apart good

    download-Filled : (url : Bytes) (d : Disk) → Good d → Filled (download o torn temp url want d)
    unfolding download
    download-Filled url d g = elim (Option-cases (o.get url)) [
      | inl e ↦ rw (e, download) g
      | inr (body, e) ↦ elim (Bool-cases (create_temp temp d).1) [
        | inl b ↦ rw (e, b, download) (create_temp-Always OldOrTested executable temp d apart g)
        | inr b ↦
            rw (e, b, download)
              (fill-Filled body (create_temp temp d).0
                (create_temp-Always OldOrTested executable temp d apart g))
      ]
    ]

    started_lem :
        (d : Disk) (w : Wanted (lookup temp d.files))
        → starts o torn temp d ≡ true
        → has_prefix (or_else (o.run_version w.content) []) (str "yabber ") ≡ true
    unfolding starts
    started_lem d w b = elim (Option-cases (o.run_version w.content)) [
      | inl e ↦ absurd (no (sym (refused e) ∙ b))
      | inr (out, e) ↦ rw e (answered out e)
    ]
      where
        run : run_file o torn temp (lookup temp d.files) ≡ o.run_version w.content
        run = ap (run_file o torn temp) w.is

        refused : o.run_version w.content ≡ none → starts o torn temp d ≡ false
        refused e = rw (run, e, starts) refl

        no : false ≡ true → ⊥
        no h = cc

        asked :
            (out : Bytes)
            → o.run_version w.content ≡ some out
            → starts o torn temp d ≡ has_prefix out (str "yabber ")
        asked out e = rw (run, e, starts) refl

        answered :
            (out : Bytes)
            → o.run_version w.content ≡ some out
            → has_prefix out (str "yabber ") ≡ true
        answered out e = sym (asked out e) ∙ b

    -- The program is never anything else, and is tested where an update is reported.
    pub record Updating (result : Disk × Outcome) : Type 0 where
      pub always : Good result.0
      pub done : (is_updated result.1 ≡ false) ⊎ Tested (lookup executable result.0.files)

    moved-Tested :
        (d : Disk)
        → Tested (lookup temp d.files)
        → ((rename temp executable d).1 ≡ true)
          ⊎ Tested (lookup executable (rename temp executable d).0.files)
    moved-Tested d t = elim (renamed torn temp [] none executable apart _ d t.file.is) [
      | inl b ↦ inl b
      | inr e ↦ inr (subst Tested (t.file.is ∙ sym e) t)
    ]

    install_started :
        (d : Disk)
        → Good d
        → Tested (lookup temp d.files)
        → starts o torn temp d ≡ true
        → Updating (install o torn temp false executable d)
    unfolding install replace_executable
    install_started d g t b =
        rw (b, install)
          (record {
            always =
                remove-Always OldOrTested executable temp (rename temp executable d).0 apart
                  (rename-Always OldOrTested executable temp d (λ f e. inr (subst Tested e t)) g);
            done = elim (moved-Tested d t) [
              | inl bad ↦ rw bad (inl refl)
              | inr new ↦ inr (
                  subst Tested
                    (sym (
                      lookup-remove torn temp [] none executable apart
                        (rename temp executable d).0))
                    new)
            ];
          })

    install-Updating :
        (d : Disk)
        → Good d
        → Wanted (lookup temp d.files)
        → Updating (install o torn temp false executable d)
    unfolding install
    install-Updating d g w = elim (Bool-cases (starts o torn temp d)) [
      | inr b ↦
          rw (b, install)
            (record {
              always = remove-Always OldOrTested executable temp d apart g;
              done = inl refl;
            })
      | inl b ↦ install_started d g (record { file = w; started = started_lem d w b }) b
    ]

    after_download-Updating :
        (result : Disk × Option UpdateError)
        → Filled result
        → Updating (after_download o torn temp false executable result)
    after_download-Updating (d, some e) g = record { always = g; done = inl refl }
    after_download-Updating (d, none) (g, w) = install-Updating d g w

    pub update_to-Updating :
        (check : Bool) (url : Bytes) (d : Disk)
        → Good d
        → Updating (update_to o torn temp check false executable url want d)
    unfolding update_to
    update_to-Updating check url d g =
        elim (Bool-cases (is_current o torn temp want (read_file executable d).1)) [
          | inl b ↦ rw (b, update_to) (record { always = read; done = inl refl })
          | inr b ↦ elim (Bool-cases check) [
            | inl c ↦ rw (b, c, update_to) (record { always = read; done = inl refl })
            | inr c ↦
                rw (b, c, update_to)
                  (after_download-Updating
                    (download o torn temp url want (read_file executable d).0)
                    (download-Filled url (read_file executable d).0 read))
          ]
        ]
      where
        read : Good (read_file executable d).0
        read = read_file-Always OldOrTested executable executable d g
