-- ===== src/Disk/Tests.antt =====
-- A configuration file on a disk whose writes may fail, and instances of the theorems on it.
use yabber.Base.{
  ◌≡◌, ◌≢◌, refl, true, false, some, [], ◌∷◌, ◌++◌, Bytes, str, bytes_eq, lookup, insert, delete,
  take,
}
use yabber.Disk.{
  Files, private_mode, save, write_file_atomic, create_temp, write, chmod, close, rename, remove,
  install, replace, stat, read_file, write_file,
}
use yabber.Disk.Replacing.{Replaced}
use yabber.Disk.Atomic.{fresh, save-Replaced, write_file_atomic_torn}

abbrev config_path : Bytes
config_path = str "/etc/yabber.yaml"

abbrev temp_path : Bytes
temp_path = str "/etc/.yabber.yaml.1"

paths_apart : temp_path ≢ config_path
paths_apart e = cc

abbrev sample_files : Files
sample_files = (config_path, record { content = str "old"; mode = 420 }) ∷ []

-- Everything succeeds: the permissions are kept, and the previous version too.
saved :
    (save (take 1) temp_path config_path (str "new") (fresh sample_files [])).0.files
    ≡ (config_path, record { content = str "new"; mode = 420 })
      ∷ (config_path ++ str ".bak", record { content = str "old"; mode = 420 })
      ∷ []
unfolding save stat read_file write_file replace create_temp write chmod close install rename remove
    lookup insert delete
saved = refl

save-Replaced_example :
    Replaced
      (take 1)
      temp_path
      (str "new")
      (lookup config_path sample_files)
      config_path
      paths_apart
      (save
        (take 1)
        temp_path
        config_path
        (str "new")
        (fresh sample_files (false ∷ false ∷ false ∷ false ∷ true ∷ [])))
save-Replaced_example =
    save-Replaced (take 1) temp_path (str "new") config_path sample_files
      (false ∷ false ∷ false ∷ false ∷ true ∷ []) paths_apart

write_file_atomic_torn_example :
    (lookup config_path
        (write_file_atomic
          (take 1)
          temp_path
          config_path
          (str "new")
          private_mode
          (fresh sample_files (false ∷ true ∷ false ∷ false ∷ []))).0.files
      ≡ some (record { content = str "n"; mode = private_mode }))
    × ((write_file_atomic
          (take 1)
          temp_path
          config_path
          (str "new")
          private_mode
          (fresh sample_files (false ∷ true ∷ false ∷ false ∷ []))).1
        ≡ false)
write_file_atomic_torn_example =
    write_file_atomic_torn (take 1) temp_path (str "new") config_path private_mode sample_files []
      paths_apart
