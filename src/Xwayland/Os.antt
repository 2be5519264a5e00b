-- ===== src/Xwayland/Os.antt =====
-- What westfield-xwayland.c asks of the system about lock files, as operations on a world that the
-- system keeps, with laws that state their documented behaviour.
use westfield.Prelude.{ℕ, ◌≡◌, ◌⊎◌, ℤ, Bool, true, false, Option, none, some, List, ◌==◌}

-- The values of errno that the code tells apart.
pub data Errno : Type 0 where
  eexist eagain other_error : Errno

pub data Answer {ℓ} (A : Type ℓ) : Type ℓ where
  ok : A → Answer A
  failed : Errno → Answer A

-- What strtol leaves: the number, whether errno is set, `end == str`, and `*end == '\0'`.
pub record Strtol : Type 0 where
  pub value : ℤ
  pub error : Bool
  pub no_digits : Bool
  pub at_end : Bool

-- The lock file of display `d` is /tmp/.X<d>-lock.
pub record Os (World : Type 0) : Type 0 where
  -- open with O_WRONLY | O_CREAT | O_EXCL
  pub open_create : ℕ → World → Answer ℤ × World
  -- open with O_RDONLY
  pub open_read : ℕ → World → Answer ℤ × World
  -- read: the bytes, if there are 11
  pub read : ℤ → World → Option (List ℕ)
  pub strtol : List ℕ → Strtol
  -- kill with signal 0: false if it fails with ESRCH
  pub process_exists : ℤ → World → Bool
  -- whether unlink succeeds
  pub unlink : ℕ → World → Bool × World
  -- dprintf of the own pid: none if it writes 11 bytes, else the errno at the return
  pub print_pid : ℤ → World → Option Errno × World

-- Documented behaviour, where `present w d` says that display `d` has a lock file. A file that is
-- there is not created again, and one that is not there is created or refused for another reason;
-- unlink removes a file or fails; nothing else changes which files are there.
pub record LockLaws {World : Type 0} (os : Os World) (present : World → ℕ → Bool) : Type 0 where
  pub create_present :
      (d : ℕ) (w : World) → present w d ≡ true → os.open_create d w ≡ (failed eexist, w)
  pub create_absent :
      (d : ℕ) (w : World)
      → present w d ≡ false
      → ((fd : ℤ) × ((os.open_create d w).0 ≡ ok fd)
          × (present (os.open_create d w).1 d ≡ true)
          × ((e : ℕ) → (e == d) ≡ false → present (os.open_create d w).1 e ≡ present w e))
        ⊎ (os.open_create d w ≡ (failed other_error, w))
  pub open_read : (d : ℕ) (w : World) → (os.open_read d w).1 ≡ w
  pub unlinked :
      (d : ℕ) (w : World) → (os.unlink d w).0 ≡ true → present (os.unlink d w).1 d ≡ false
  pub unlink_fails : (d : ℕ) (w : World) → (os.unlink d w).0 ≡ false → (os.unlink d w).1 ≡ w
  pub unlink_others :
      (d e : ℕ) (w : World) → (e == d) ≡ false → present (os.unlink d w).1 e ≡ present w e
  pub print_errno :
      (fd : ℤ) (w : World)
      → ((os.print_pid fd w).0 ≡ none) ⊎ ((os.print_pid fd w).0 ≡ some other_error)
  pub print_others : (fd : ℤ) (w : World) (e : ℕ) → present (os.print_pid fd w).1 e ≡ present w e
