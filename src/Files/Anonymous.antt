-- ===== src/Files/Anonymous.antt =====
-- create_tmpfile_cloexec and westfield_os_create_anonymous_file of westfield-fdutils.c, and the loop
-- of createMemoryMappedFile of westfield-addon.c. The answers of the system are arguments; text is a
-- list of characters, a file a list of bytes.
use westfield.Prelude.{
  ℕ, zero, suc, ◌+◌, ℤ, pos, negsuc, minus_one, is_nonneg, Bool, Option, none, some, List, [], ◌∷◌,
  ◌++◌, alloc, length, ◌==◌, if◌then◌else◌,
}

-- "/wayland-shared-XXXXXX"
abbrev pub template : List ℕ
template =
    47 ∷ 119 ∷ 97 ∷ 121 ∷ 108 ∷ 97 ∷ 110 ∷ 100 ∷ 45 ∷ 115 ∷ 104 ∷ 97 ∷ 114 ∷ 101 ∷ 100 ∷ 45 ∷ 88
    ∷ 88 ∷ 88 ∷ 88 ∷ 88 ∷ 88 ∷ []

-- What is done to names and descriptors.
pub data FileEffect : Type 0 where
  make unlink : List ℕ → FileEffect
  open_fd close_fd : ℤ → FileEffect

-- getenv, mkostemp with the name that it makes of the template, and posix_fallocate, which returns
-- the error.
pub record FileAnswers : Type 0 where
  pub runtime_dir : Option (List ℕ)
  pub mkostemp : List ℕ → ℤ × List ℕ
  pub fallocate : ℤ → ℕ → ℕ

pub data FileErrno : Type 0 where
  enoent : FileErrno
  -- What malloc or mkostemp left.
  left : FileErrno
  error : ℕ → FileErrno

-- The descriptor, or -1 with errno, and the effects.
pub record FileResult : Type 0 where
  pub fd : ℤ
  pub errno : Option FileErrno
  pub effects : List FileEffect

unfoldable pub create_tmpfile_cloexec : FileAnswers → List ℕ → ℤ × List FileEffect
create_tmpfile_cloexec answers tmpname =
    let (fd, name) = answers.mkostemp tmpname in
    if is_nonneg fd then (fd, make name ∷ open_fd fd ∷ unlink name ∷ []) else (fd, [])

-- From the file on.
unfoldable pub reserve : FileAnswers → ℕ → ℤ → List FileEffect → FileResult
reserve answers size fd effects =
    let ret = answers.fallocate fd size in
    if ret == 0
    then record { fd = fd; errno = none; effects = effects }
    else record { fd = minus_one; errno = some (error ret); effects = effects ++ close_fd fd ∷ [] }

unfoldable pub westfield_os_create_anonymous_file : FileAnswers → ℕ → List Bool → FileResult
westfield_os_create_anonymous_file answers size fate = elim answers.runtime_dir [
  | none ↦ record { fd = minus_one; errno = some enoent; effects = [] }
  | some path ↦
      let (fd, effects) = create_tmpfile_cloexec answers (path ++ template) in
      if (alloc fate).0
      then if is_nonneg fd
        then reserve answers size fd effects
        else record { fd = minus_one; errno = some left; effects = effects }
      else record { fd = minus_one; errno = some left; effects = [] }
]

-- `contents` without its first `n` bytes, and these.
abbrev pub drop : ℕ → List ℕ → List ℕ
drop zero xs = xs
drop (suc n) [] = []
drop (suc n) (x ∷ xs) = drop n xs

abbrev pub take : ℕ → List ℕ → List ℕ
take zero xs = []
take (suc n) [] = []
take (suc n) (x ∷ xs) = x ∷ take n xs

-- The loop of createMemoryMappedFile, on fuel: `write i contents` is what call `i` of write returns,
-- and `file` what the file holds. The result is the file, and the call that follows the last one.
unfoldable pub write_all : (ℕ → List ℕ → ℤ) → ℕ → ℕ → List ℕ → List ℕ → List ℕ × ℕ
write_all write zero i contents file = (file, i)
write_all write (suc fuel) i [] file = (file, i)
write_all write (suc fuel) i (c ∷ cs) file = elim (write i (c ∷ cs)) [
  | negsuc n ↦ (file, i + 1)
  | pos zero ↦ (file, i + 1)
  | pos (suc n) ↦
      write_all write fuel (i + 1) (drop (suc n) (c ∷ cs)) (file ++ take (suc n) (c ∷ cs))
]

-- The descriptor, and what the loop has written and how many calls it made; the results of creating
-- and of mapping the file are not tested.
unfoldable pub create_memory_mapped_file :
    FileAnswers → (ℕ → List ℕ → ℤ) → List ℕ → List Bool → ℤ × List ℕ × ℕ
create_memory_mapped_file answers write contents fate =
    let fd = (westfield_os_create_anonymous_file answers (length contents) fate).fd in
    let (file, calls) = write_all write (suc (length contents)) 0 contents [] in (fd, file, calls)
