-- ===== src/Xwayland/Locking.antt =====
-- What create_lockfile of westfield-xwayland.c does to the lock files.
use westfield.Prelude.{
  ℕ, ◌≡◌, refl, ◌∙◌, ◌⊎◌, inl, inr, ℤ, Bool, true, false, none, some, List, ◌==◌, Bool-cases,
  Option-cases, arith,
}
use westfield.Xwayland.Lockfile.{
  LockResult, safe_strtoint, pid_string, inspect_lock, write_lock, create_lockfile,
}
use westfield.Xwayland.Os.{eexist, eagain, other_error, Answer, ok, failed, Os, LockLaws}

Answer-cases {ℓ} :
    {A : Type ℓ} (x : Answer A)
    → ((a : A) × (x ≡ ok a))
      ⊎ ((x ≡ failed eexist) ⊎ ((x ≡ failed eagain) ⊎ (x ≡ failed other_error)))
Answer-cases (ok a) = inl (a, refl)
Answer-cases (failed eexist) = inr (inl refl)
Answer-cases (failed eagain) = inr (inr (inl refl))
Answer-cases (failed other_error) = inr (inr (inr refl))

module _ {World : Type 0} (os : Os World) where
  inspect_lock-closes :
      (d : ℕ) (fd : ℤ) (w : World)
      → (inspect_lock os d fd w).closed ≡ (inspect_lock os d fd w).opened
  unfolding inspect_lock
  inspect_lock-closes d fd w = elim (Option-cases (os.read fd w)) [
    | inl e ↦ ground arith
    | inr (bytes, e) ↦ elim (Option-cases (safe_strtoint (os.strtol (pid_string 10 bytes)))) [
      | inl s ↦ ground arith
      | inr (pid, s) ↦ ground arith
    ]
  ]

  write_lock-closes :
      (d : ℕ) (fd : ℤ) (w : World) → (write_lock os d fd w).closed ≡ (write_lock os d fd w).opened
  unfolding write_lock
  write_lock-closes d fd w = ground arith

  -- Every descriptor that a path of create_lockfile opens is closed on it, once.
  pub create_lockfile-closes :
      (d : ℕ) (w : World) → (create_lockfile os d w).closed ≡ (create_lockfile os d w).opened
  unfolding create_lockfile
  create_lockfile-closes d w =
      let opened = os.open_create d w in
      let reopened = os.open_read d opened.1 in
      elim (Answer-cases opened.0) [
        | inl (fd, e) ↦ ground (arith, write_lock-closes d fd opened.1)
        | inr (inl e) ↦ elim (Answer-cases reopened.0) [
          | inl (fd, r) ↦ ground (arith, inspect_lock-closes d fd reopened.1)
          | inr r ↦ ground arith
        ]
        | inr (inr (inl e)) ↦ ground arith
        | inr (inr (inr e)) ↦ ground arith
      ]

  -- Whether the lock is stale: it can be read and names a process that does not exist.
  pub data IsStale (d : ℕ) (w : World) : Type 0 where
    stale :
        (fd : ℤ) (bytes : List ℕ) (pid : ℤ)
        → (os.open_read d w).0 ≡ ok fd
        → os.read fd w ≡ some bytes
        → safe_strtoint (os.strtol (pid_string 10 bytes)) ≡ some pid
        → os.process_exists pid w ≡ false
        → IsStale d w

module _ {World : Type 0} (os : Os World) (present : World → ℕ → Bool)
    (laws : LockLaws os present) where
  -- The four ways in which create_lockfile ends.
  pub data Creates (d : ℕ) (w : World) (r : LockResult World) : Type 0 where
    taken : present w d ≡ true → r.errno ≡ some eexist → r.world ≡ w → Creates d w r
    removed :
        present w d ≡ true
        → IsStale os d w
        → r.errno ≡ some eagain
        → present r.world d ≡ false
        → Creates d w r
    created : present w d ≡ false → r.errno ≡ none → present r.world d ≡ true → Creates d w r
    refused : present w d ≡ false → r.errno ≡ some other_error → Creates d w r

  inspect_lock-Creates :
      (d : ℕ) (fd : ℤ) (w : World)
      → present w d ≡ true
      → (os.open_read d w).0 ≡ ok fd
      → Creates d w (inspect_lock os d fd w)
  unfolding inspect_lock
  inspect_lock-Creates d fd w p o = elim (Option-cases (os.read fd w)) [
    | inl e ↦ taken p (ground arith) (ground arith)
    | inr (bytes, e) ↦ elim (Option-cases (safe_strtoint (os.strtol (pid_string 10 bytes)))) [
      | inl s ↦ taken p (ground arith) (ground arith)
      | inr (pid, s) ↦ elim (Bool-cases (os.process_exists pid w)) [
        | inl k ↦ taken p (ground arith) (ground arith)
        | inr k ↦ elim (Bool-cases (os.unlink d w).0) [
          | inl u ↦
              removed p (stale fd bytes pid o e s k) (ground arith)
                (ground (arith, laws.unlinked d w u))
          | inr u ↦ taken p (ground arith) (ground (arith, laws.unlink_fails d w u))
        ]
      ]
    ]
  ]

  write_lock-Creates :
      (d : ℕ) (fd : ℤ) (w w' : World)
      → present w d ≡ false
      → present w' d ≡ true
      → Creates d w (write_lock os d fd w')
  unfolding write_lock
  write_lock-Creates d fd w w' p q = elim (laws.print_errno fd w') [
    | inl e ↦ created p (ground arith) (ground (arith, laws.print_others fd w' d))
    | inr e ↦ refused p (ground arith)
  ]

  -- How create_lockfile ends. If there is a lock file, it is taken and all files stay, or it is stale
  -- and has been removed; if there is none, it has been created, or the search ends.
  pub create_lockfile-Creates : (d : ℕ) (w : World) → Creates d w (create_lockfile os d w)
  unfolding create_lockfile
  create_lockfile-Creates d w =
      let opened = os.open_create d w in
      elim (Bool-cases (present w d)) [
        | inl p ↦
            let exists = laws.create_present d w p in
            let same = laws.open_read d w in
            elim (Answer-cases (os.open_read d w).0) [
              | inl (fd, r) ↦
                  let run : create_lockfile os d w ≡ inspect_lock os d fd w = ground arith in
                  rw run (inspect_lock-Creates d fd w p r)
              | inr r ↦ taken p (ground arith) (ground arith)
            ]
        | inr p ↦ elim (laws.create_absent d w p) [
          | inl (fd, e, q, others) ↦
              let run : create_lockfile os d w ≡ write_lock os d fd opened.1 = ground arith in
              rw run (write_lock-Creates d fd w opened.1 p q)
          | inr e ↦ refused p (ground arith)
        ]
      ]

  inspect_lock-others :
      (d e : ℕ) (fd : ℤ) (w : World)
      → (e == d) ≡ false
      → present (inspect_lock os d fd w).world e ≡ present w e
  unfolding inspect_lock
  inspect_lock-others d e fd w h = elim (Option-cases (os.read fd w)) [
    | inl r ↦ ground arith
    | inr (bytes, r) ↦ elim (Option-cases (safe_strtoint (os.strtol (pid_string 10 bytes)))) [
      | inl s ↦ ground arith
      | inr (pid, s) ↦ ground (arith, laws.unlink_others d e w h)
    ]
  ]

  write_lock-others :
      (d e : ℕ) (fd : ℤ) (w : World)
      → (e == d) ≡ false
      → present (write_lock os d fd w).world e ≡ present w e
  unfolding write_lock
  write_lock-others d e fd w h = elim (Option-cases (os.print_pid fd w).0) [
    | inl r ↦ ground (arith, laws.print_others fd w e)
    | inr (x, r) ↦
        let removed = laws.unlink_others d e (os.print_pid fd w).1 h in
        ground (arith, laws.print_others fd w e, removed)
  ]

  -- create_lockfile changes no lock file but that of its display.
  pub create_lockfile-others :
      (d e : ℕ) (w : World)
      → (e == d) ≡ false
      → present (create_lockfile os d w).world e ≡ present w e
  unfolding create_lockfile
  create_lockfile-others d e w h =
      let opened = os.open_create d w in
      elim (Bool-cases (present w d)) [
        | inl p ↦
            let exists = laws.create_present d w p in
            let same = laws.open_read d w in
            elim (Answer-cases (os.open_read d w).0) [
              | inl (fd, r) ↦
                  let run : create_lockfile os d w ≡ inspect_lock os d fd w = ground arith in
                  rw run (inspect_lock-others d e fd w h)
              | inr r ↦ ground arith
            ]
        | inr p ↦ elim (laws.create_absent d w p) [
          | inl (fd, o, q, others) ↦
              let run : create_lockfile os d w ≡ write_lock os d fd opened.1 = ground arith in
              rw run (write_lock-others d e fd opened.1 h ∙ others e h)
          | inr o ↦ ground arith
        ]
      ]
