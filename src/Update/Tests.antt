-- ===== src/Update/Tests.antt =====
-- An update from a mirror, and an instance of the theorem on it. A checksum is the text itself.
use yabber.Base.{
  ◌≡◌, ◌≢◌, refl, false, if◌then◌else◌, Option, none, some, [], ◌∷◌, ◌++◌, Bytes, str, bytes_eq,
  ◌==◌, lookup, insert, delete, take, split, cut_prefix, trim_space, trim_suffix, has_prefix,
}
use yabber.Disk.{Files, create_temp, write, close, chmod, rename, remove, read_file, stat}
use yabber.Disk.Atomic.{fresh}
use yabber.Update.{
  Platform, Outside, update_command, update_to, release_base, verified_checksums, signed, fetch,
  checksums, checksums_from, cut_at, asset_name, download, fill, install, starts,
  replace_executable,
}
use yabber.Update.Genuine.{Safe, update_command-Safe}

abbrev program : Bytes
program = str "/bin/yabber"

abbrev staged : Bytes
staged = str "/bin/.yabber-update-1"

abbrev release : Bytes
release = str "yabber v2"

abbrev served : Bytes → Option Bytes
served url =
    if url == str "https://m/SHA256SUMS"
    then some (release ++ str "  yabber_linux_amd64")
    else if url == str "https://m/SHA256SUMS.sig"
    then some (str "key")
    else if url == str "https://m/yabber_linux_amd64"
    then some release
    else none

abbrev sample_outside : Outside
sample_outside = record {
  get = served;
  decode_base64 = λ text. some text;
  verify = λ key message signature. key == signature;
  sha256_hex = λ text. text;
  run_version = λ text. some text;
}

abbrev linux : Platform
linux = record {
  goos = str "linux";
  goarch = str "amd64";
  setting = λ key. none;
  executable = some program;
}

abbrev sample_files : Files
sample_files = (program, record { content = str "yabber v1"; mode = 493 }) ∷ []

staged_apart : staged ≢ program
staged_apart e = cc

-- The program is replaced and the staged file is gone; with another key nothing changes.
replaced :
    ((update_command sample_outside
        (take 1)
        staged
        linux
        (str "key")
        false
        []
        (str "https://m/")
        (fresh sample_files [])).0.files
      ≡ (program, record { content = release; mode = 493 }) ∷ [])
    × ((update_command sample_outside
          (take 1)
          staged
          linux
          (str "kex")
          false
          []
          (str "https://m/")
          (fresh sample_files [])).0.files
        ≡ sample_files)
unfolding update_command update_to release_base verified_checksums signed fetch checksums
    checksums_from cut_at asset_name download fill install starts replace_executable create_temp
    write close chmod rename remove read_file stat lookup insert delete split cut_prefix trim_space
    trim_suffix has_prefix
replaced = (refl, refl)

update_command-Safe_example :
    Safe sample_outside (take 1) staged linux (str "key") program (lookup program sample_files) (
      update_command sample_outside
        (take 1)
        staged
        linux
        (str "key")
        false
        []
        (str "https://m/")
        (fresh sample_files []))
update_command-Safe_example =
    update_command-Safe sample_outside (take 1) staged linux (str "key") program sample_files []
      false [] (str "https://m/") staged_apart refl refl
