-- ===== src/Xwayland/Lockfile.antt =====
-- safe_strtoint and create_lockfile of westfield-xwayland.c.
use westfield.Prelude.{
  ℕ, zero, suc, ◌-◌, ◌%◌, ◌^◌, ℤ, pos, negsuc, eq_ℤ, not, ◌||◌, Option, none, some, List, [], ◌∷◌,
  ltb, ◌==◌, if◌then◌else◌,
}
use westfield.Xwayland.Os.{Errno, eexist, eagain, other_error, ok, failed, Strtol, Os}

-- `(int32_t) x`, from the 32 low bits of `x`
abbrev pub of_bits : ℕ → ℤ
of_bits u = if ltb u (2 ^ 31) then pos u else negsuc (2 ^ 32 - 1 - u)

abbrev pub to_int32 : ℤ → ℤ
to_int32 (pos n) = of_bits (n % 2 ^ 32)
to_int32 (negsuc n) = of_bits (2 ^ 32 - 1 - n % 2 ^ 32)

-- The number, if the function returns true.
unfoldable pub safe_strtoint : Strtol → Option ℤ
safe_strtoint s =
    if s.error
    then none
    else if s.no_digits || not s.at_end
    then none
    else if eq_ℤ (to_int32 s.value) s.value
    then some (to_int32 s.value)
    else none

-- The string in `pid`: at most `n` of the bytes, up to the first that is 0.
unfoldable pub pid_string : ℕ → List ℕ → List ℕ
pid_string zero bytes = []
pid_string (suc n) [] = []
pid_string (suc n) (b ∷ bytes) = let rest = pid_string n bytes in if b == 0 then [] else b ∷ rest

-- The errno if create_lockfile returns -1, the world, and the descriptors opened and closed.
pub record LockResult (World : Type 0) : Type 0 where
  pub errno : Option Errno
  pub world : World
  pub opened : List ℤ
  pub closed : List ℤ

module _ {World : Type 0} (os : Os World) where
  -- The lock file is there and open for reading.
  unfoldable pub inspect_lock : ℕ → ℤ → World → LockResult World
  unfolding safe_strtoint pid_string
  inspect_lock display fd w =
      let (unlinked, w') = os.unlink display w in
      let taken : LockResult World = record {
        errno = some eexist;
        world = w;
        opened = fd ∷ [];
        closed = fd ∷ [];
      } in
      elim (os.read fd w) [
        | none ↦ taken
        | some bytes ↦ elim (safe_strtoint (os.strtol (pid_string 10 bytes))) [
          | none ↦ taken
          | some other ↦
              if os.process_exists other w
              then taken
              else record taken { errno = some (if unlinked then eagain else eexist); world = w' }
        ]
      ]

  -- The lock file has been created.
  unfoldable pub write_lock : ℕ → ℤ → World → LockResult World
  write_lock display fd w =
      let (error, w') = os.print_pid fd w in
      elim error [
        | none ↦ record { errno = none; world = w'; opened = fd ∷ []; closed = fd ∷ [] }
        | some e ↦ record {
          errno = some e;
          world = (os.unlink display w').1;
          opened = fd ∷ [];
          closed = fd ∷ [];
        }
      ]

  unfoldable pub create_lockfile : ℕ → World → LockResult World
  unfolding inspect_lock write_lock
  create_lockfile display w =
      let (created, w') = os.open_create display w in
      let (reopened, w'') = os.open_read display w' in
      elim created [
        | ok fd ↦ write_lock display fd w'
        | failed other_error ↦ record {
          errno = some other_error;
          world = w';
          opened = [];
          closed = [];
        }
        | failed eagain ↦ record { errno = some eagain; world = w'; opened = []; closed = [] }
        | failed eexist ↦ elim reopened [
          | ok fd ↦ inspect_lock display fd w''
          | failed e ↦ record { errno = some eexist; world = w''; opened = []; closed = [] }
        ]
      ]
