-- ===== src/Feedback/Shm.antt =====
-- The file of the format table: randname, excl_shm_open and allocate_shm_file_pair of
-- wlr_linux_dmabuf_v1.c. The clock and the answers of the kernel are arguments; a name is the list
-- of its characters.
use westfield.Prelude.{
  ℕ, zero, suc, ◌+◌, ◌*◌, ◌/◌, ◌%◌, ℤ, is_nonneg, Bool, true, false, Option, none, some, List, [],
  ◌∷◌, ◌++◌, if◌then◌else◌,
}

-- `'A' + (r & 15) + (r & 16) * 2`, for `r` no less than 0
unfoldable pub letter : ℕ → ℕ
letter r = 65 + r % 16 + r / 16 % 2 * 32

-- The loop of randname, for `n` more characters; `r >>= 5` divides by 32.
unfoldable pub letters : ℕ → ℕ → List ℕ
letters zero r = []
letters (suc n) r = letter r ∷ letters n (r / 32)

-- The six characters that stand for the X's of RANDNAME_PATTERN, from the nanoseconds of the clock.
unfoldable pub randname : ℕ → List ℕ
randname tv_nsec = letters 6 tv_nsec

-- What shm_open returns with O_CREAT | O_EXCL: a descriptor, EEXIST, or another error.
pub data ShmOpened : Type 0 where
  opened : ℤ → ShmOpened
  file_exists : ShmOpened
  open_failed : ShmOpened

-- What the program does to descriptors and names.
pub data ShmEffect : Type 0 where
  open_new : List ℕ → ℤ → ShmEffect
  open_again : ℤ → ShmEffect
  unlink : List ℕ → ShmEffect
  close_fd : ℤ → ShmEffect

-- What ftruncate returns: 0, -1 with EINTR, or -1 with another error.
pub data Truncated : Type 0 where
  resized : Truncated
  interrupted : Truncated
  resize_failed : Truncated

-- The answers from outside: the clock and shm_open at each try, the second shm_open, fchmod, and
-- ftruncate, call by call; past the end of the list it succeeds.
pub record ShmAnswers : Type 0 where
  pub clock : ℕ → ℕ
  pub create : ℕ → List ℕ → ShmOpened
  pub reopen : List ℕ → ℤ
  pub fchmod : Bool
  pub ftruncate : List Truncated

abbrev pub shm_retries : ℕ
shm_retries = 100

-- The loop, with `retries` left before try `i`: the name and the descriptor, and the number of tries.
unfoldable pub shm_tries : ShmAnswers → ℕ → ℕ → Option (List ℕ × ℤ) × ℕ
shm_tries answers zero i = (none, i)
shm_tries answers (suc retries) i =
    let name = randname (answers.clock i) in
    let more = shm_tries answers retries (i + 1) in
    elim (answers.create i name) [
      | opened fd ↦ (some (name, fd), i + 1)
      | file_exists ↦ more
      | open_failed ↦ (none, i + 1)
    ]

unfoldable pub excl_shm_open : ShmAnswers → Option (List ℕ × ℤ)
excl_shm_open answers = (shm_tries answers shm_retries 0).0

-- The loop around ftruncate: whether it ends with success.
unfoldable pub resize : List Truncated → Bool
resize [] = true
resize (resized ∷ answers) = true
resize (interrupted ∷ answers) = resize answers
resize (resize_failed ∷ answers) = false

-- The read-write and the read-only descriptor, and what was done in order.
pub record ShmPair : Type 0 where
  pub pair : Option (ℤ × ℤ)
  pub effects : List ShmEffect

-- From the first descriptor on.
unfoldable pub pair_from : ShmAnswers → List ℕ → ℤ → ShmPair
pair_from answers name rw_fd =
    let ro_fd = answers.reopen name in
    let both = open_new name rw_fd ∷ open_again ro_fd ∷ unlink name ∷ [] in
    let failed : ShmPair = record {
      pair = none;
      effects = both ++ close_fd rw_fd ∷ close_fd ro_fd ∷ [];
    } in
    if is_nonneg ro_fd
    then if answers.fchmod
      then if resize answers.ftruncate
        then record { pair = some (rw_fd, ro_fd); effects = both }
        else failed
      else failed
    else record { pair = none; effects = open_new name rw_fd ∷ unlink name ∷ close_fd rw_fd ∷ [] }

unfoldable pub allocate_shm_file_pair : ShmAnswers → ShmPair
allocate_shm_file_pair answers = elim (excl_shm_open answers) [
  | none ↦ record { pair = none; effects = [] }
  | some (name, rw_fd) ↦ pair_from answers name rw_fd
]
