-- ===== src/Feedback/ShmNames.antt =====
-- The names and the descriptors of allocate_shm_file_pair of wlr_linux_dmabuf_v1.c.
use westfield.Feedback.Shm.{
  letter, letters, randname, ShmOpened, opened, file_exists, open_failed, ShmEffect, open_new,
  open_again, unlink, close_fd, ShmAnswers, shm_tries, excl_shm_open, resize, ShmPair, pair_from,
  allocate_shm_file_pair,
}
use westfield.Prelude.{
  ℕ, zero, suc, ◌+◌, ◌/◌, ◌%◌, ◌^◌, ◌≤◌, ◌<◌, ◌≡◌, refl, ◌⊎◌, inl, inr, ℤ, is_nonneg, ◌&&◌, none,
  some, List, [], ◌∷◌, All, length, ◌==◌, Bool-cases, Option-cases, arith,
}

-- 'A' to 'P', or 'a' to 'p'
abbrev pub IsLetter : ℕ → Type 0
IsLetter c = ((65 ≤ c) × (c ≤ 80)) ⊎ ((97 ≤ c) × (c ≤ 112))

letter-IsLetter : (r : ℕ) → IsLetter (letter r)
unfolding letter
letter-IsLetter r = elim (Bool-cases (r / 16 % 2 == 0)) [
  | inl e ↦ inl (ground arith, ground arith)
  | inr e ↦ inr (ground arith, ground arith)
]

letters-IsLetter : (n r : ℕ) → All IsLetter (letters n r)
unfolding letters
letters-IsLetter zero r = tt
letters-IsLetter (suc n) r = (letter-IsLetter r, letters-IsLetter n (r / 32))

-- A character gives back its five bits.
letter-injective : (r s : ℕ) → letter r ≡ letter s → r % 32 ≡ s % 32
unfolding letter
letter-injective r s h = omega arith

letters-injective : (n r s : ℕ) → r < 32 ^ n → s < 32 ^ n → letters n r ≡ letters n s → r ≡ s
unfolding letters
letters-injective zero r s h k e = omega arith
letters-injective (suc n) r s h k e =
    let here : letter r ≡ letter s = ground arith in
    let there : letters n (r / 32) ≡ letters n (s / 32) = ground arith in
    let rest = letters-injective n (r / 32) (s / 32) (omega arith) (omega arith) there in
    omega (arith, letter-injective r s here)

-- Two counts of nanoseconds below a second that differ give different names, and a name has six
-- letters, so it stays within the pattern.
pub randname-injective :
    (r s : ℕ)
    → r < 10 ^ 9
    → s < 10 ^ 9
    → (randname r ≡ randname s → r ≡ s) × All IsLetter (randname r) × (length (randname r) ≡ 6)
unfolding randname
randname-injective r s h k = (
  λ e. letters-injective 6 r s (omega arith) (omega arith) e,
  letters-IsLetter 6 r,
  unfold letters in refl,
)

-- The first try that does not meet an existing name gave the descriptor.
pub record FirstTry (answers : ShmAnswers) (i n : ℕ) (name : List ℕ) (fd : ℤ) : Type 0 where
  pub try : ℕ
  pub in_time : try < n
  pub drawn : name ≡ randname (answers.clock (i + try))
  pub created : answers.create (i + try) name ≡ opened fd
  pub taken :
      (k : ℕ) → k < try → answers.create (i + k) (randname (answers.clock (i + k))) ≡ file_exists

first-FirstTry :
    (answers : ShmAnswers) (i n : ℕ) (fd : ℤ)
    → answers.create i (randname (answers.clock i)) ≡ opened fd
    → FirstTry answers i (suc n) (randname (answers.clock i)) fd
first-FirstTry answers i n fd h =
    let start : i + 0 ≡ i = omega arith in
    record {
      try = 0;
      in_time = omega arith;
      drawn = rw start refl;
      created = rw start h;
      taken = λ k lt. absurd (omega arith);
    }

later-FirstTry :
    (answers : ShmAnswers) (i n : ℕ) (name : List ℕ) (fd : ℤ)
    → answers.create i (randname (answers.clock i)) ≡ file_exists
    → FirstTry answers (i + 1) n name fd
    → FirstTry answers i (suc n) name fd
later-FirstTry answers i n name fd h first =
    let next : i + suc first.try ≡ i + 1 + first.try = omega arith in
    record {
      try = suc first.try;
      in_time = omega (arith, first.in_time);
      drawn = rw next first.drawn;
      created = rw next first.created;
      taken = λ k lt.
          elim k
              as (λ k.
                k < suc first.try
                → answers.create (i + k) (randname (answers.clock (i + k))) ≡ file_exists) [
                  | zero ↦ λ l. let start : i + 0 ≡ i = omega arith in rw start h
                  | suc j ↦ λ l.
                      let shift : i + suc j ≡ i + 1 + j = omega arith in
                      rw shift (first.taken j (omega arith))
                ]
            lt;
    }

opened-cases :
    (r : ShmOpened) → ((fd : ℤ) × (r ≡ opened fd)) ⊎ ((r ≡ file_exists) ⊎ (r ≡ open_failed))
opened-cases (opened fd) = inl (fd, refl)
opened-cases file_exists = inr (inl refl)
opened-cases open_failed = inr (inr refl)

shm_tries-FirstTry :
    (answers : ShmAnswers) (n i : ℕ) (name : List ℕ) (fd : ℤ)
    → (shm_tries answers n i).0 ≡ some (name, fd)
    → FirstTry answers i n name fd
unfolding shm_tries
shm_tries-FirstTry answers zero i name fd h = absurd (ground arith)
shm_tries-FirstTry answers (suc n) i name fd h =
    let drawn = randname (answers.clock i) in
    elim (opened-cases (answers.create i drawn)) [
      | inl (got, e) ↦
          let same : name ≡ drawn = ground arith in
          let same_fd : fd ≡ got = ground arith in
          rw (same, same_fd) (first-FirstTry answers i n got e)
      | inr (inl e) ↦
          later-FirstTry answers i n name fd e
            (shm_tries-FirstTry answers n (i + 1) name fd (ground arith))
      | inr (inr e) ↦ absurd (ground arith)
    ]

-- The descriptors opened and closed, and the names made and removed.
abbrev pub opened_fds : List ShmEffect → List ℤ
opened_fds [] = []
opened_fds (open_new name fd ∷ es) = fd ∷ opened_fds es
opened_fds (open_again fd ∷ es) = fd ∷ opened_fds es
opened_fds (_ ∷ es) = opened_fds es

abbrev pub closed_fds : List ShmEffect → List ℤ
closed_fds [] = []
closed_fds (close_fd fd ∷ es) = fd ∷ closed_fds es
closed_fds (_ ∷ es) = closed_fds es

abbrev pub made_names : List ShmEffect → List (List ℕ)
made_names [] = []
made_names (open_new name fd ∷ es) = name ∷ made_names es
made_names (_ ∷ es) = made_names es

abbrev pub removed_names : List ShmEffect → List (List ℕ)
removed_names [] = []
removed_names (unlink name ∷ es) = name ∷ removed_names es
removed_names (_ ∷ es) = removed_names es

-- What a call leaves behind: every name is removed, and the descriptors that are left open are those
-- of the pair.
pub record Tidy (answers : ShmAnswers) (r : ShmPair) : Type 0 where
  pub names : removed_names r.effects ≡ made_names r.effects
  pub failed : r.pair ≡ none → closed_fds r.effects ≡ opened_fds r.effects
  pub made :
      (rw_fd ro_fd : ℤ)
      → r.pair ≡ some (rw_fd, ro_fd)
      → (opened_fds r.effects ≡ rw_fd ∷ ro_fd ∷ [])
        × (closed_fds r.effects ≡ [])
        × ((name : List ℕ) × FirstTry answers 0 100 name rw_fd × (ro_fd ≡ answers.reopen name))

pair_from-Tidy :
    (answers : ShmAnswers) (name : List ℕ) (fd : ℤ)
    → FirstTry answers 0 100 name fd
    → Tidy answers (pair_from answers name fd)
unfolding pair_from
pair_from-Tidy answers name fd first =
    let ro = answers.reopen name in
    elim (Bool-cases (is_nonneg ro && answers.fchmod && resize answers.ftruncate)) [
      | inl e ↦
          let run : pair_from answers name fd ≡ record {
            pair = some (fd, ro);
            effects = open_new name fd ∷ open_again ro ∷ unlink name ∷ [];
          } =
            ground arith in
          rw run (record {
            names = refl;
            failed = λ h. absurd (ground arith);
            made = λ rw_fd ro_fd h.
                let one : rw_fd ≡ fd = ground arith in
                let two : ro_fd ≡ ro = ground arith in
                rw (one, two) (refl, refl, (name, first, refl));
          })
      | inr e ↦ record {
        names = ground arith;
        failed = λ h. ground arith;
        made = λ rw_fd ro_fd h. absurd (ground arith);
      }
    ]

-- allocate_shm_file_pair leaves no name behind. If it fails, it has closed every descriptor that it
-- opened; if it returns a pair, it opened exactly these two and closed neither, the first under the
-- name of the first of at most a hundred tries that met no existing name, and the second under that
-- same name.
pub allocate_shm_file_pair-Tidy :
    (answers : ShmAnswers) → Tidy answers (allocate_shm_file_pair answers)
unfolding allocate_shm_file_pair excl_shm_open
allocate_shm_file_pair-Tidy answers = elim (Option-cases (excl_shm_open answers)) [
  | inl e ↦
      rw (e, allocate_shm_file_pair)
        (record { names = refl; failed = λ h. refl; made = λ rw_fd ro_fd h. absurd (ground arith) })
  | inr ((name, fd), e) ↦
      rw (e, allocate_shm_file_pair)
        (pair_from-Tidy answers name fd (shm_tries-FirstTry answers 100 0 name fd e))
]
