-- ===== src/Disk.antt =====
-- The files that a program of the repository writes, as the package os documents them: each operation
-- takes the next of the faults that are to come, and fails if it is set. A write that fails leaves
-- the part of the data that `torn` says. `seen` has the files after every operation, latest first.
pub mod Steps
pub mod Atomic
pub mod Replacing
pub mod Tests
use yabber.Base.{
  ℕ, Bool, true, false, ◌||◌, ◌&&◌, not, if◌then◌else◌, Option, none, some, List, [], ◌∷◌, ◌++◌,
  Bytes, str, bytes_eq, Dict, lookup, insert, delete, is_some,
}

pub record File : Type 0 where
  pub content : Bytes
  pub mode : ℕ

abbrev pub Files : Type 0
Files = Dict Bytes File

pub record Disk : Type 0 where
  pub files : Files
  pub faults : List Bool
  pub seen : List Files

abbrev next_fault : List Bool → Bool
next_fault [] = false
next_fault (b ∷ _) = b

abbrev rest {ℓ} : {A : Type ℓ} → List A → List A
rest [] = []
rest (_ ∷ xs) = xs

abbrev pub fails : Disk → Bool
fails d = next_fault d.faults

abbrev pub after : Files → Disk → Disk
after files d = record { files = files; faults = rest d.faults; seen = files ∷ d.seen }

-- An operation that fails without a trace, or changes the files.
abbrev pub attempt : Files → Disk → Disk × Bool
attempt files d = if fails d then (after d.files d, true) else (after files d, false)

-- 0o600
abbrev pub private_mode : ℕ
private_mode = 384

abbrev pub mode_or : ℕ → Option File → ℕ
mode_or mode none = mode
mode_or mode (some f) = f.mode

abbrev pub with_content : Bytes → Option File → File
with_content text old = record { content = text; mode = mode_or private_mode old }

abbrev pub with_mode : ℕ → Files → Bytes → Option File → Files
with_mode mode files path none = files
with_mode mode files path (some f) = insert path (record f { mode = mode }) files

abbrev move : Bytes → Bytes → Disk → Option File → Disk × Bool
move old_path new_path d none = (after d.files d, true)
move old_path new_path d (some f) = attempt (insert new_path f (delete old_path d.files)) d

-- os.CreateTemp with the name that it chooses.
unfoldable pub create_temp : Bytes → Disk → Disk × Bool
create_temp path d = attempt (insert path (record { content = []; mode = private_mode }) d.files) d

unfoldable pub chmod : Bytes → ℕ → Disk → Disk × Bool
chmod path mode d = attempt (with_mode mode d.files path (lookup path d.files)) d

unfoldable pub close : Disk → Disk × Bool
close d = attempt d.files d

unfoldable pub remove : Bytes → Disk → Disk × Bool
remove path d = attempt (delete path d.files) d

unfoldable pub rename : Bytes → Bytes → Disk → Disk × Bool
rename old_path new_path d = move old_path new_path d (lookup old_path d.files)

unfoldable pub stat : Bytes → Disk → Disk × Option File
stat path d = (after d.files d, if fails d then none else lookup path d.files)

unfoldable pub read_file : Bytes → Disk → Disk × Option Bytes
unfolding stat
read_file path d = let (d', f) = stat path d in (d', content_of f)
  where
    content_of : Option File → Option Bytes
    content_of none = none
    content_of (some f) = some f.content

module _ (torn : Bytes → Bytes) where
  -- Writing to an open file.
  unfoldable pub write : Bytes → Bytes → Disk → Disk × Bool
  write path text d =
      let put : Bytes → Files =
        λ written. insert path (with_content written (lookup path d.files)) d.files in
      if fails d then (after (put (torn text)) d, true) else (after (put text) d, false)

  -- os.WriteFile keeps the mode of a file that exists.
  unfoldable pub write_file : Bytes → Bytes → ℕ → Disk → Disk × Bool
  write_file path text mode d =
      let put : Bytes → Files = λ written.
        insert path (record { content = written; mode = mode_or mode (lookup path d.files) })
          d.files in
      if fails d then (after (put (torn text)) d, true) else (after (put text) d, false)

  -- The rest of a replacement, once the temporary file is filled: `failed` tells whether an error was
  -- met, and the temporary file is removed in any case.
  unfoldable pub install : Bytes → Bytes → Bool → Disk → Disk × Bool
  unfolding rename remove
  install temp path failed d =
      if failed
      then ((remove temp d).0, true)
      else let (d1, bad) = rename temp path d in ((remove temp d1).0, bad)

  -- The end of Save: the error of a write is kept.
  unfoldable pub replace : Bytes → Bytes → Bytes → ℕ → Disk → Disk × Bool
  unfolding create_temp write chmod close install
  replace temp path text mode d =
      let (d1, bad) = create_temp temp d in
      let (d2, unwritten) = write temp text d1 in
      let (d3, unset) = (if unwritten then (d2, true) else chmod temp mode d2) in
      let (d4, unclosed) = close d3 in
      if bad then (d1, true) else install temp path (unset || unclosed) d4

  -- writeFileAtomic behind the making of the directory. The errors of Write and Chmod stay in the
  -- scope of the if statement, so only the one of Close is met afterwards.
  unfoldable pub write_file_atomic : Bytes → Bytes → Bytes → ℕ → Disk → Disk × Bool
  unfolding create_temp write chmod close install
  write_file_atomic temp path text mode d =
      let (d1, bad) = create_temp temp d in
      let (d2, unwritten) = write temp text d1 in
      let d3 = (if unwritten then d2 else (chmod temp mode d2).0) in
      let (d4, unclosed) = close d3 in if bad then (d1, true) else install temp path unclosed d4

  -- Save with the encoded configuration: the previous version is copied first.
  unfoldable pub save : Bytes → Bytes → Bytes → Disk → Disk × Bool
  unfolding stat read_file write_file replace
  save temp path text d =
      let (d1, info) = stat path d in
      elim info [
        | none ↦ replace temp path text private_mode d1
        | some f ↦
            let (d2, previous) = read_file path d1 in
            elim previous [
              | none ↦ replace temp path text f.mode d2
              | some old ↦
                  let (d3, failed) = write_file (path ++ str ".bak") old f.mode d2 in
                  if failed then (d3, true) else replace temp path text f.mode d3
            ]
      ]
