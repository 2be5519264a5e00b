-- ===== src/Files/Written.antt =====
-- What westfield_os_create_anonymous_file of westfield-fdutils.c leaves, and what the loop of
-- createMemoryMappedFile of westfield-addon.c writes.
use mathlib.Core.List.{append_assoc, append-nil}
use westfield.Files.Anonymous.{
  template, FileEffect, make, unlink, open_fd, close_fd, FileAnswers, FileErrno, enoent, left,
  error, FileResult, create_tmpfile_cloexec, reserve, westfield_os_create_anonymous_file, drop,
  take, write_all, create_memory_mapped_file,
}
use westfield.Prelude.{
  ℕ, zero, suc, ◌+◌, ◌≤◌, ◌<◌, ◌≡◌, refl, ap, sym, ◌∙◌, ◌⊎◌, inl, inr, ℤ, pos, negsuc, minus_one,
  is_nonneg, lt_one, Bool, true, false, ◌&&◌, none, some, List, [], ◌∷◌, ◌++◌, alloc, length, ◌==◌,
  Bool-cases, Option-cases, arith,
}

abbrev pub opened : List FileEffect → List ℤ
opened [] = []
opened (open_fd fd ∷ es) = fd ∷ opened es
opened (_ ∷ es) = opened es

abbrev pub closed : List FileEffect → List ℤ
closed [] = []
closed (close_fd fd ∷ es) = fd ∷ closed es
closed (_ ∷ es) = closed es

abbrev pub made : List FileEffect → List (List ℕ)
made [] = []
made (make name ∷ es) = name ∷ made es
made (_ ∷ es) = made es

abbrev pub unlinked : List FileEffect → List (List ℕ)
unlinked [] = []
unlinked (unlink name ∷ es) = name ∷ unlinked es
unlinked (_ ∷ es) = unlinked es

-- What creating a file of some size leaves: no name, and one descriptor or none.
pub record IsAnonymous (answers : FileAnswers) (size : ℕ) (r : FileResult) : Type 0 where
  pub names : unlinked r.effects ≡ made r.effects
  pub failed :
      is_nonneg r.fd ≡ false
      → (r.fd ≡ minus_one)
        × (closed r.effects ≡ opened r.effects)
        × ((e : FileErrno) × (r.errno ≡ some e))
  pub created :
      is_nonneg r.fd ≡ true
      → (opened r.effects ≡ r.fd ∷ [])
        × (closed r.effects ≡ [])
        × (answers.fallocate r.fd size ≡ 0)
        × ((dir : List ℕ) × (answers.runtime_dir ≡ some dir)
            × (r.fd ≡ (answers.mkostemp (dir ++ template)).0))

nothing-IsAnonymous :
    (answers : FileAnswers) (size : ℕ) (errno : FileErrno)
    → IsAnonymous answers size (record { fd = minus_one; errno = some errno; effects = [] })
nothing-IsAnonymous answers size errno = record {
  names = refl;
  failed = λ h. (refl, refl, (errno, refl));
  created = λ h. absurd (ground arith);
}

-- A call of westfield_os_create_anonymous_file leaves no name behind. It returns -1 and sets errno,
-- with every descriptor closed, or it returns the one descriptor that it opened, of a file that it
-- made in the runtime directory and whose size was reserved.
pub westfield_os_create_anonymous_file-IsAnonymous :
    (answers : FileAnswers) (size : ℕ) (fate : List Bool)
    → IsAnonymous answers size (westfield_os_create_anonymous_file answers size fate)
unfolding westfield_os_create_anonymous_file create_tmpfile_cloexec reserve
westfield_os_create_anonymous_file-IsAnonymous answers size fate =
    let call = westfield_os_create_anonymous_file answers size fate in
    elim (Option-cases answers.runtime_dir) [
      | inl e ↦
          let run : call ≡ record { fd = minus_one; errno = some enoent; effects = [] } =
            ground arith in
          rw run (nothing-IsAnonymous answers size enoent)
      | inr (dir, e) ↦
          let (fd, name) = answers.mkostemp (dir ++ template) in
          elim (Bool-cases ((alloc fate).0 && is_nonneg fd)) [
            | inr g ↦
                let run : call ≡ record { fd = minus_one; errno = some left; effects = [] } =
                  ground arith in
                rw run (nothing-IsAnonymous answers size left)
            | inl g ↦ elim (Bool-cases (answers.fallocate fd size == 0)) [
              | inl z ↦
                  let run : call ≡ record {
                    fd = fd;
                    errno = none;
                    effects = make name ∷ open_fd fd ∷ unlink name ∷ [];
                  } =
                    ground arith in
                  let reserved : answers.fallocate fd size ≡ 0 = ground arith in
                  rw run (record {
                    names = refl;
                    failed = λ h. absurd (ground arith);
                    created = λ h. (refl, refl, reserved, (dir, e, refl));
                  })
              | inr z ↦
                  let run : call ≡ record {
                    fd = minus_one;
                    errno = some (error (answers.fallocate fd size));
                    effects = make name ∷ open_fd fd ∷ unlink name ∷ close_fd fd ∷ [];
                  } =
                    ground arith in
                  rw run (record {
                    names = refl;
                    failed = λ h. (refl, refl, (error (answers.fallocate fd size), refl));
                    created = λ h. absurd (ground arith);
                  })
            ]
          ]
    ]

ℤ-cases : (z : ℤ) → (lt_one z ≡ true) ⊎ ((n : ℕ) × (z ≡ pos (suc n)))
ℤ-cases (pos zero) = inl (ground arith)
ℤ-cases (pos (suc n)) = inr (n, refl)
ℤ-cases (negsuc n) = inl refl

take-drop : (n : ℕ) (xs : List ℕ) → take n xs ++ drop n xs ≡ xs
take-drop zero xs = refl
take-drop (suc n) [] = refl
take-drop (suc n) (x ∷ xs) = ap (◌∷◌ x) (take-drop n xs)

length-drop : (n : ℕ) (xs : List ℕ) → length (drop n xs) ≤ length xs
length-drop zero xs = omega arith
length-drop (suc n) [] = omega arith
length-drop (suc n) (x ∷ xs) = omega (arith, length-drop n xs)

-- What the loop has written from `contents` after `file`, from call `i` on, if it stopped before call
-- `next`: a part that ends where the contents do, or where write returned no more than 0.
pub record Writes (write : ℕ → List ℕ → ℤ) (i : ℕ) (contents file : List ℕ) (r : List ℕ × ℕ)
    : Type 0 where
  pub written : List ℕ
  pub rest : List ℕ
  pub split : contents ≡ written ++ rest
  pub holds : r.0 ≡ file ++ written
  pub stopped : (rest ≡ []) ⊎ ((j : ℕ) × (r.1 ≡ j + 1) × (lt_one (write j rest) ≡ true))
  pub calls : r.1 ≤ i + length contents + 1

write_all-Writes :
    (write : ℕ → List ℕ → ℤ) (fuel i : ℕ) (contents file : List ℕ)
    → length contents < fuel
    → Writes write i contents file (write_all write fuel i contents file)
unfolding write_all
write_all-Writes write zero i contents file h = absurd (omega arith)
write_all-Writes write (suc fuel) i [] file h = record {
  written = [];
  rest = [];
  split = refl;
  holds = sym (append-nil file);
  stopped = inl refl;
  calls = omega arith;
}
write_all-Writes write (suc fuel) i (c ∷ cs) file h = elim (ℤ-cases (write i (c ∷ cs))) [
  | inl low ↦
      let run : write_all write (suc fuel) i (c ∷ cs) file ≡ (file, i + 1) = ground arith in
      rw run (record {
        written = [];
        rest = c ∷ cs;
        split = refl;
        holds = sym (append-nil file);
        stopped = inr (i, refl, low);
        calls = omega arith;
      })
  | inr (n, e) ↦
      let part = take (suc n) (c ∷ cs) in
      let left_over = drop (suc n) (c ∷ cs) in
      let run : write_all write (suc fuel) i (c ∷ cs) file
          ≡ write_all write fuel (i + 1) left_over (file ++ part) =
        ground arith in
      let shorter = length-drop n cs in
      let more =
        write_all-Writes write fuel (i + 1) left_over (file ++ part) (omega (arith, shorter, h)) in
      rw run (record {
        written = part ++ more.written;
        rest = more.rest;
        split =
            sym (take-drop (suc n) (c ∷ cs))
            ∙ ap (◌++◌ part) more.split
            ∙ sym (append_assoc part more.written more.rest);
        holds = more.holds ∙ append_assoc file part more.written;
        stopped = more.stopped;
        calls = omega (arith, more.calls, shorter);
      })
]

-- createMemoryMappedFile ends after no more calls of write than there are bytes, and one more. What
-- the loop has written is then the contents, or the bytes up to a call of write that returned no
-- more than 0, and the descriptor is that of westfield_os_create_anonymous_file, also where it is
-- -1.
pub create_memory_mapped_file-Writes :
    (answers : FileAnswers) (write : ℕ → List ℕ → ℤ) (contents : List ℕ) (fate : List Bool)
    → let r = create_memory_mapped_file answers write contents fate in
      Writes write 0 contents [] (r.1, r.2)
      × (r.0 ≡ (westfield_os_create_anonymous_file answers (length contents) fate).fd)
unfolding create_memory_mapped_file
create_memory_mapped_file-Writes answers write contents fate =
    (write_all-Writes write (suc (length contents)) 0 contents [] (omega arith), refl)
