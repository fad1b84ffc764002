-- ===== src/Utils/Fs.antt =====
-- `secureUnlink`, `secureRemoveDir` and `purgeStaleJobDirs` of src/utils/fs.ts. A file is its bytes, and a
-- directory its entries in the order of `readdir`. What the disk replies while a file is overwritten is
-- `Disk`; an error ends the overwriting, and the file is unlinked with the bytes that it then has.
pub mod Overwritten
mod Tests
use ppvda.Base.{
  ℕ, zero, suc, ◌+◌, ◌-◌, Bool, true, false, List, [], ◌∷◌, ◌++◌, Option, none, some, min, ltb,
  length, take, drop, if◌then◌else◌,
}
use ppvda.Base.Text.{Text, codes, starts_with}

abbrev pub overwrite_chunk : ℕ
overwrite_chunk = 65_536

-- `fh.write(buf, 0, len, offset)` inside a file.
pub write_at : ℕ → Text → Text → Text
write_at offset bytes file = take offset file ++ (bytes ++ drop (offset + length bytes) file)

-- What `randomBytes` gives for a length; whether a file opens and has a size; and how many bytes a write
-- at an offset puts down of those that it is given, without a value where it throws.
pub record Disk : Type 0 where
  pub random : ℕ → Text
  pub opens : Text → Bool
  pub written : Text → ℕ → ℕ → Option ℕ

-- The file after one write, where the write does not throw.
pub put : ℕ → Text → Text → Option ℕ → Option Text
unfolding write_at
put offset bytes file none = none
put offset bytes file (some n) = some (write_at offset (take n bytes) file)

-- The loop, with its fuel: each turn moves on by the buffer, also where fewer bytes were written, and a
-- write that throws ends it.
pub overwrite_from : ℕ → (ℕ → ℕ → Option ℕ) → ℕ → Text → ℕ → Text → Text
unfolding put
overwrite_from zero written size buf offset file = file
overwrite_from (suc n) written size buf offset file =
    let len = min (length buf) (size - offset) in
    let rest : Text = elim (put offset (take len buf) file (written offset len)) [
      | none ↦ file
      | some next ↦ overwrite_from n written size buf (offset + length buf) next
    ] in
    if ltb offset size then rest else file

-- What is on the disk when the file is unlinked. A `datasync` or a `close` that fails changes no byte.
pub overwrite : Disk → Text → Text → Text
unfolding overwrite_from
overwrite disk name file =
    if disk.opens name
    then overwrite_from (length file) (disk.written name) (length file)
        (disk.random (min overwrite_chunk (length file))) 0 file
    else file

-- What `lstat` says of an entry: nothing where it fails.
pub data DirEntry : Type 0 where
  vanished directory other : DirEntry
  regular : Text → DirEntry

pub data FsEffect : Type 0 where
  -- The bytes with which a file is unlinked, or an entry that is unlinked as it is.
  unlinks_file : Text → Text → FsEffect
  unlinks : Text → FsEffect
  removes_dir : Text → FsEffect

pub remove_entries : Disk → List (Text × DirEntry) → List FsEffect
unfolding overwrite
remove_entries disk [] = []
remove_entries disk ((name, vanished) ∷ es) = remove_entries disk es
remove_entries disk ((name, directory) ∷ es) = remove_entries disk es
remove_entries disk ((name, other) ∷ es) = unlinks name ∷ remove_entries disk es
remove_entries disk ((name, regular file) ∷ es) =
    unlinks_file name (overwrite disk name file) ∷ remove_entries disk es

-- A directory that cannot be read is left.
pub secure_remove_dir : Disk → Text → Option (List (Text × DirEntry)) → List FsEffect
unfolding remove_entries
secure_remove_dir disk dir none = []
secure_remove_dir disk dir (some es) = remove_entries disk es ++ removes_dir dir ∷ []

-- An entry of the parent: its name, and its entries where it is a directory.
purge_entry : Disk → Text × Option (Option (List (Text × DirEntry))) → List FsEffect × ℕ
unfolding secure_remove_dir
purge_entry disk (name, none) = ([], 0)
purge_entry disk (name, some es) =
    if starts_with (codes "job-") name then (secure_remove_dir disk name es, 1) else ([], 0)

pub purge_stale_job_dirs :
    Disk → List (Text × Option (Option (List (Text × DirEntry)))) → List FsEffect × ℕ
unfolding purge_entry
purge_stale_job_dirs disk [] = ([], 0)
purge_stale_job_dirs disk (e ∷ es) =
    let (fx, n) = purge_entry disk e in
    let (gx, m) = purge_stale_job_dirs disk es in (fx ++ gx, n + m)
