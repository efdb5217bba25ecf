-- ===== src/Update/Genuine.antt =====
-- The update command replaces the running program only by a release that the key vouches for.
use yabber.Base.{
  ℕ, ◌^◌, ◌≡◌, ◌≢◌, refl, sym, ap, subst, ◌∙◌, Bool, true, false, Option, some, List, [], ◌++◌,
  Bytes, str, bytes_eq, ◌==◌, lookup, Bool-cases, Option-cases, Sum-cases, ◌⊎◌, inl, inr, or_else,
  has_prefix,
}
use yabber.Disk.{File, Files, Disk}
use yabber.Disk.Steps.{Always, Always-map}
use yabber.Disk.Atomic.{fresh}
use yabber.Update.{
  Outside, Platform, Outcome, failed, asset_name, checksums, release_base, verified_checksums,
  signed, fetch, UpdateError, no_asset, update_to, update_command,
}
use yabber.Update.Staging.{Tested, is_updated, update_to-Updating}

module _ (o : Outside) (torn : Bytes → Bytes) (temp : Bytes) (p : Platform) (key : Bytes) where
  -- A release of this platform: the key signed a list of checksums that has the checksum of the file
  -- under the name of the platform's asset, and the file starts as a program of this name.
  pub record Genuine (f : Option File) : Type 0 where
    pub sums : Bytes
    pub signature : Bytes
    pub vouched : signed o key sums signature ≡ true
    pub content : Bytes
    pub mode : ℕ
    pub is : f ≡ some (record { content = content; mode = mode })
    pub listed : lookup (asset_name p) (checksums sums) ≡ some (o.sha256_hex content)
    pub started : has_prefix (or_else (o.run_version content) []) (str "yabber ") ≡ true

  abbrev pub OldOrGenuine : Option File → Option File → Type 0
  OldOrGenuine old f = (f ≡ old) ⊎ Genuine f

  pub record Safe (executable : Bytes) (old : Option File) (result : Disk × Outcome) : Type 0 where
    pub always : Always (OldOrGenuine old) executable result.0
    pub done : (is_updated result.1 ≡ false) ⊎ Genuine (lookup executable result.0.files)

  abbrev Vouches : UpdateError ⊎ Bytes → Type 0
  Vouches (inl e) = Unit
  Vouches (inr sums) = (encoded : Bytes) × (signed o key sums encoded ≡ true)

  verified_checksums-Vouches : (base : Bytes) → Vouches (verified_checksums o base key)
  unfolding verified_checksums
  verified_checksums-Vouches base =
      elim (Option-cases (fetch o (base ++ str "/SHA256SUMS") (2 ^ 20))) [
        | inl e ↦ rw (e, verified_checksums) tt
        | inr (sums, e) ↦ elim (Option-cases (fetch o (base ++ str "/SHA256SUMS.sig") (2 ^ 10))) [
          | inl f ↦ rw (e, f, verified_checksums) tt
          | inr (encoded, f) ↦ elim (Bool-cases (signed o key sums encoded)) [
            | inl g ↦ rw (e, f, g, verified_checksums) (encoded, g)
            | inr g ↦ rw (e, f, g, verified_checksums) tt
          ]
        ]
      ]

  module _ (sums encoded want : Bytes) where
    genuine :
        signed o key sums encoded ≡ true
        → lookup (asset_name p) (checksums sums) ≡ some want
        → (f : Option File) → Tested o torn temp want f
        → Genuine f
    genuine v l f t = record {
      sums = sums;
      signature = encoded;
      vouched = v;
      content = t.file.content;
      mode = t.file.mode;
      is = t.file.is;
      listed = l ∙ ap some (sym t.file.checked);
      started = t.started;
    }

  unchanged :
      (executable : Bytes) (files : Files) (faults : List Bool) (e : UpdateError)
      → Safe executable (lookup executable files) (fresh files faults, failed e)
  unchanged executable files faults e = record {
    always = record { now = inl refl; seen = tt };
    done = inl refl;
  }

  -- Unless on Windows, whatever fails during an update and whatever the network serves, the file of the
  -- running program is at every moment the one it was or a genuine release: the key signed a list that
  -- has its SHA-256 for the platform's asset, and it was run with success. It is one when the
  -- command reports an update. The file next to it that the download is staged in is another one.
  pub update_command-Safe :
      (executable : Bytes) (files : Files) (faults : List Bool) (check : Bool) (tag mirror : Bytes)
      → temp ≢ executable
      → p.executable ≡ some executable
      → (p.goos == str "windows") ≡ false
      → Safe executable
          (lookup executable files)
          (update_command o torn temp p key check tag mirror (fresh files faults))
  unfolding update_command
  update_command-Safe executable files faults check tag mirror apart here unix =
      elim (Sum-cases (release_base mirror tag)) [
        | inl (e, b) ↦
            by (_, failed e) (rw (b, update_command) refl) (unchanged executable files faults e)
        | inr (base, b) ↦ elim (Sum-cases (verified_checksums o base key)) [
          | inl (e, v) ↦
              by (_, failed e) (rw (b, here, v, update_command) refl)
                (unchanged executable files faults e)
          | inr (sums, v) ↦ elim (Option-cases (lookup (asset_name p) (checksums sums))) [
            | inl l ↦
                by (_, failed (no_asset (asset_name p))) (rw (b, here, v, l, update_command) refl)
                  (unchanged executable files faults (no_asset (asset_name p)))
            | inr (want, l) ↦
                by
                  (update_to o torn temp check false executable (base ++ (str "/" ++ asset_name p))
                    want (fresh files faults))
                  (rw (b, here, v, l, unix, update_command) refl)
                  (safe sums want (subst Vouches v (verified_checksums-Vouches base)) l
                    (base ++ (str "/" ++ asset_name p)))
          ]
        ]
      ]
    where
      by :
          (result : Disk × Outcome)
          → update_command o torn temp p key check tag mirror (fresh files faults) ≡ result
          → Safe executable (lookup executable files) result
          → Safe executable
              (lookup executable files)
              (update_command o torn temp p key check tag mirror (fresh files faults))
      by result e s = subst (Safe executable (lookup executable files)) (sym e) s

      safe :
          (sums want : Bytes)
          → Vouches (inr sums)
          → lookup (asset_name p) (checksums sums) ≡ some want
          → (url : Bytes)
          → Safe executable
              (lookup executable files)
              (update_to o torn temp check false executable url want (fresh files faults))
      safe sums want (encoded, v) l url =
          let u =
            update_to-Updating o torn temp want (lookup executable files) executable apart check url
              (fresh files faults) (record { now = inl refl; seen = tt }) in
          record {
            always = Always-map _ _ executable _ (λ f. weaker f) u.always;
            done = elim (u.done) [
              | inl n ↦ inl n
              | inr t ↦ inr (genuine sums encoded want v l _ t)
            ];
          }
        where
          weaker :
              (f : Option File)
              → (f ≡ lookup executable files) ⊎ Tested o torn temp want f
              → OldOrGenuine (lookup executable files) f
          weaker f (inl same) = inl same
          weaker f (inr t) = inr (genuine sums encoded want v l f t)
