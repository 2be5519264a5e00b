-- ===== src/Tests/Shm.antt =====
-- A file of which the first name is taken, and whose size cannot be set.
use westfield.Feedback.Shm.{
  randname, opened, file_exists, interrupted, resize_failed, ShmAnswers, allocate_shm_file_pair,
}
use westfield.Feedback.ShmNames.{IsLetter, randname-injective, Tidy, allocate_shm_file_pair-Tidy}
use westfield.Prelude.{ℕ, ◌≡◌, pos, true, [], ◌∷◌, All, length, arith, if◌then◌else◌, ◌==◌}

randname-injective_example :
    let r : ℕ = 999999999 in
    (randname r ≡ randname 0 → r ≡ 0) × All IsLetter (randname r) × (length (randname r) ≡ 6)
randname-injective_example = randname-injective 999999999 0 (omega arith) (omega arith)

abbrev taken_once : ShmAnswers
taken_once = record {
  clock = λ i. i;
  create = λ i name. if i == 0 then file_exists else opened (pos 8);
  reopen = λ name. pos 9;
  fchmod = true;
  ftruncate = interrupted ∷ resize_failed ∷ [];
}

allocate_shm_file_pair-Tidy_example : Tidy taken_once (allocate_shm_file_pair taken_once)
allocate_shm_file_pair-Tidy_example = allocate_shm_file_pair-Tidy taken_once
