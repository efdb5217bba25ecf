-- ===== src/Update.antt =====
-- cmd/yabber/update.go: the command that replaces the running program by a release. The network, the
-- cryptography of the package crypto, the platform and the run of the downloaded program are a
-- parameter; a body that cannot be read to its end is a write that fails. Messages are left out.
pub mod Staging
pub mod Genuine
pub mod Tests
use yabber.Base.{
  ℕ, ◌*◌, ◌^◌, Bool, true, false, not, ◌&&◌, ◌||◌, if◌then◌else◌, Option, none, some, List, [], ◌∷◌,
  ◌++◌, Bytes, str, bytes_eq, ◌==◌, ◌⊎◌, inl, inr, Dict, lookup, insert, take, split, trim_space,
  trim_suffix, has_prefix, cut_prefix, or_else,
}
use yabber.Disk.{File, Disk, create_temp, write, close, chmod, remove, rename, read_file}

pub record Platform : Type 0 where
  pub goos : Bytes
  pub goarch : Bytes
  -- A setting of the build that is not empty.
  pub setting : Bytes → Option Bytes
  pub executable : Option Bytes

pub record Outside : Type 0 where
  -- The body of a response with status 200.
  pub get : Bytes → Option Bytes
  pub decode_base64 : Bytes → Option Bytes
  -- ed25519.Verify of a key, a message and a signature.
  pub verify : Bytes → Bytes → Bytes → Bool
  pub sha256_hex : Bytes → Bytes
  -- The output of a program with the argument version, if it succeeds.
  pub run_version : Bytes → Option Bytes

pub data UpdateError : Type 0 where
  version_with_mirror no_executable not_signed not_staged checksum_mismatch : UpdateError
  version_failed not_replaced : UpdateError
  not_fetched no_asset : Bytes → UpdateError

pub data Outcome : Type 0 where
  failed : UpdateError → Outcome
  up_to_date available updated : Outcome

abbrev releases_url : Bytes
releases_url = str "https://github.com/lsongdev/yabber/releases"

unfoldable pub release_base : Bytes → Bytes → UpdateError ⊎ Bytes
unfolding trim_suffix
release_base mirror tag =
    if not (mirror == []) && not (tag == [])
    then inl version_with_mirror
    else if not (mirror == [])
    then inr (trim_suffix mirror (str "/"))
    else if not (tag == [])
    then inr (releases_url ++ (str "/download/" ++ tag))
    else inr (releases_url ++ str "/latest/download")

unfoldable pub build_setting : Platform → Bytes → Bytes → Bytes
build_setting p key fallback = or_else (p.setting key) fallback

unfoldable pub asset_name : Platform → Bytes
unfolding build_setting
asset_name p =
    let name = str "yabber_" ++ (p.goos ++ (str "_" ++ p.goarch)) in
    let variant =
      if p.goarch == str "arm"
      then str "_v" ++ build_setting p (str "GOARM") (str "7")
      else if p.goarch == str "mips" || p.goarch == str "mipsle"
      then str "_" ++ build_setting p (str "GOMIPS") (str "softfloat")
      else [] in
    name ++ (variant ++ (if p.goos == str "windows" then str ".exe" else []))

-- strings.Cut at a separator.
unfoldable pub cut_at : Bytes → Bytes → Option (Bytes × Bytes)
unfolding cut_prefix
cut_at separator [] = elim (cut_prefix [] separator) [ none ↦ none | some rest ↦ some ([], rest) ]
cut_at separator (c ∷ s) = elim (cut_prefix (c ∷ s) separator) [
  | some rest ↦ some ([], rest)
  | none ↦ elim (cut_at separator s) [
    | none ↦ none
    | some (before, behind) ↦ some (c ∷ before, behind)
  ]
]

-- The checksums of a text, by file name.
unfoldable pub checksums_from : List Bytes → Dict Bytes Bytes → Dict Bytes Bytes
unfolding cut_at
checksums_from [] sums = sums
checksums_from (line ∷ lines) sums = elim (cut_at (str "  ") line) [
  | none ↦ checksums_from lines sums
  | some (sum, name) ↦ checksums_from lines (insert name sum sums)
]

unfoldable pub checksums : Bytes → Dict Bytes Bytes
unfolding checksums_from split
checksums text = checksums_from (split text 10) []

module _ (o : Outside) where
  -- At most `limit` bytes of a response.
  unfoldable pub fetch : Bytes → ℕ → Option Bytes
  fetch url limit = elim (o.get url) [ none ↦ none | some body ↦ some (take limit body) ]

  unfoldable pub signed : Bytes → Bytes → Bytes → Bool
  unfolding trim_space
  signed key sums encoded = elim (o.decode_base64 (trim_space encoded)) [
    | none ↦ false
    | some signature ↦ o.verify key sums signature
  ]

  -- The text of SHA256SUMS, whose checksums the source returns.
  unfoldable pub verified_checksums : Bytes → Bytes → UpdateError ⊎ Bytes
  unfolding fetch signed
  verified_checksums base key = elim (fetch (base ++ str "/SHA256SUMS") (2 ^ 20)) [
    | none ↦ inl (not_fetched (base ++ str "/SHA256SUMS"))
    | some sums ↦ elim (fetch (base ++ str "/SHA256SUMS.sig") (2 ^ 10)) [
      | none ↦ inl (not_fetched (base ++ str "/SHA256SUMS.sig"))
      | some encoded ↦ if signed key sums encoded then inr sums else inl not_signed
    ]
  ]

  module _ (torn : Bytes → Bytes) (temp : Bytes) where
    give_up : UpdateError → Disk → Disk × Option UpdateError
    unfolding remove
    give_up e d = ((remove temp d).0, some e)

    -- The file is filled, checked and made executable.
    unfoldable pub fill : Bytes → Bytes → Disk → Disk × Option UpdateError
    unfolding write close chmod give_up
    fill body want d =
        let (d1, unwritten) = write torn temp body d in
        let (d2, unclosed) = close d1 in
        if unwritten || unclosed
        then give_up not_staged d2
        else if not (o.sha256_hex body == want)
        then give_up checksum_mismatch d2
        else let (d3, unset) = chmod temp 493 d2 in
          if unset then give_up not_staged d3 else (d3, none)

    unfoldable pub download : Bytes → Bytes → Disk → Disk × Option UpdateError
    unfolding create_temp fill
    download url want d = elim (o.get url) [
      | none ↦ (d, some (not_fetched url))
      | some body ↦
          let (d1, bad) = create_temp temp d in
          if bad then (d1, some not_staged) else fill body want d1
    ]

    -- A running program of Windows is renamed first.
    unfoldable pub replace_executable : Bool → Bytes → Disk → Disk × Bool
    unfolding remove rename
    replace_executable windows executable d =
        if windows
        then (let old = executable ++ str ".old" in
            let (d1, bad) = rename executable old (remove old d).0 in
            if bad then (d1, true) else rename temp executable d1)
        else rename temp executable d

    abbrev run_file : Option File → Option Bytes
    run_file none = none
    run_file (some f) = o.run_version f.content

    unfoldable pub starts : Disk → Bool
    unfolding has_prefix
    starts d = elim (run_file (lookup temp d.files)) [
      | none ↦ false
      | some out ↦ has_prefix out (str "yabber ")
    ]

    -- The staged program is tried and moved; what is left of it is removed.
    unfoldable pub install : Bool → Bytes → Disk → Disk × Outcome
    unfolding starts replace_executable remove
    install windows executable d =
        if not (starts d)
        then ((remove temp d).0, failed version_failed)
        else let (d1, bad) = replace_executable windows executable d in
          ((remove temp d1).0, if bad then failed not_replaced else updated)

    abbrev is_current : Bytes → Option Bytes → Bool
    is_current want none = false
    is_current want (some content) = o.sha256_hex content == want

    abbrev after_download : Bool → Bytes → Disk × Option UpdateError → Disk × Outcome
    after_download windows executable (d, some e) = (d, failed e)
    after_download windows executable (d, none) = install windows executable d

    -- The checksum that is wanted is known.
    unfoldable pub update_to : Bool → Bool → Bytes → Bytes → Bytes → Disk → Disk × Outcome
    unfolding read_file download install
    update_to check windows executable url want d =
        let (d1, current) = read_file executable d in
        if is_current want current
        then (d1, up_to_date)
        else if check
        then (d1, available)
        else after_download windows executable (download url want d1)

    unfoldable pub update_command : Platform → Bytes → Bool → Bytes → Bytes → Disk → Disk × Outcome
    unfolding release_base verified_checksums checksums asset_name update_to
    update_command p key check tag mirror d = elim (release_base mirror tag) [
      | inl e ↦ (d, failed e)
      | inr base ↦ elim (p.executable) [
        | none ↦ (d, failed no_executable)
        | some executable ↦ elim (verified_checksums base key) [
          | inl e ↦ (d, failed e)
          | inr sums ↦ elim (lookup (asset_name p) (checksums sums)) [
            | none ↦ (d, failed (no_asset (asset_name p)))
            | some want ↦
                update_to check (p.goos == str "windows") executable
                  (base ++ (str "/" ++ asset_name p)) want d
          ]
        ]
      ]
    ]
