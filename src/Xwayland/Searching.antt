-- ===== src/Xwayland/Searching.antt =====
-- The search of westfield_xserver_listen for a display ends, and finds a free one
-- (westfield-xwayland.c).
use westfield.Prelude.{
  ℕ, zero, suc, ◌+◌, ◌*◌, ◌<◌, ◌≤◌, ◌≡◌, ◌≢◌, ◌∙◌, ◌⊎◌, inl, inr, Bool, true, false, leb, ◌==◌,
  Bool-cases, arith,
}
use westfield.Xwayland.Display.{locked, out_of_fuel, lock_display}
use westfield.Xwayland.Lockfile.{create_lockfile}
use westfield.Xwayland.Os.{Os, LockLaws}
use westfield.Xwayland.Locking.{
  IsStale, taken, removed, created, refused, create_lockfile-Creates, create_lockfile-others,
}

module _ {World : Type 0} (os : Os World) (present : World → ℕ → Bool)
    (laws : LockLaws os present) where
  -- Where there is no lock file, create_lockfile does not ask for another try.
  lock_display-absent :
      (fuel d : ℕ) (w : World) → present w d ≡ false → lock_display os (suc fuel) d w ≢ out_of_fuel
  unfolding lock_display
  lock_display-absent fuel d w p = elim (create_lockfile-Creates os present laws d w) [
    | taken q e s ↦ absurd (ground arith)
    | removed q t e a ↦ absurd (ground arith)
    | created q e a ↦ λ h. ground arith
    | refused q e ↦ λ h. ground arith
  ]

  another :
      (fuel d : ℕ) (w : World)
      → present w d ≡ false
      → 1 ≤ fuel
      → lock_display os fuel d w ≢ out_of_fuel
  another zero d w p h = absurd (omega arith)
  another (suc fuel) d w p h = lock_display-absent fuel d w p

  below_free :
      (n d : ℕ) (w : World)
      → ((e : ℕ) → n ≤ e → present w e ≡ false)
      → present w d ≡ true
      → suc d ≤ n
  below_free n d w free q = elim (Bool-cases (leb n d)) [
    | inl h ↦ let le : n ≤ d = ground arith in absurd (ground (arith, free d le))
    | inr h ↦ ground arith
  ]

  -- The search does not run out of fuel: if no display from `n` on has a lock file, two tries for each
  -- display from the start to `n` and one more are enough.
  pub lock_display-ends :
      (n fuel d : ℕ) (w : World)
      → ((e : ℕ) → n ≤ e → present w e ≡ false)
      → d ≤ n
      → 2 * n + 1 ≤ fuel + 2 * d
      → lock_display os fuel d w ≢ out_of_fuel
  unfolding lock_display
  lock_display-ends n zero d w free below enough = absurd (omega arith)
  lock_display-ends n (suc fuel) d w free below enough =
      elim (create_lockfile-Creates os present laws d w) [
        | taken q e s ↦
            let less : suc d ≤ n = below_free n d w free q in
            let rest = lock_display-ends n fuel (d + 1) w free (omega arith) (omega arith) in
            λ h. rest (ground arith)
        | removed q t e a ↦
            let less : suc d ≤ n = below_free n d w free q in
            λ h. another fuel d (create_lockfile os d w).world a (omega arith) (ground arith)
        | created q e a ↦ λ h. ground arith
        | refused q e ↦ λ h. ground arith
      ]

  -- What the search promises of the display `found`, from display `d` on.
  pub record Locks (d : ℕ) (w : World) (found : ℕ) (w' : World) : Type 0 where
    pub from : d ≤ found
    pub ours : present w' found ≡ true
    pub free : (present w found ≡ false) ⊎ IsStale os found w
    pub skipped : (e : ℕ) → d ≤ e → e < found → present w e ≡ true
    pub others : (e : ℕ) → (e == found) ≡ false → present w' e ≡ present w e

  -- Where there is no lock file, the search finds the display itself, in one try.
  lock_display-here :
      (fuel d found : ℕ) (w w' : World)
      → present w d ≡ false
      → lock_display os fuel d w ≡ locked found w'
      → (found ≡ d) × (w' ≡ (create_lockfile os d w).world) × (present w' d ≡ true)
  unfolding lock_display
  lock_display-here zero d found w w' p h = ground arith
  lock_display-here (suc fuel) d found w w' p h =
      elim (create_lockfile-Creates os present laws d w) [
        | taken q e s ↦ absurd (ground arith)
        | removed q t e a ↦ absurd (ground arith)
        | created q e a ↦ (ground arith, ground arith, ground arith)
        | refused q e ↦ absurd (ground arith)
      ]

  here-Locks :
      (d found : ℕ) (w w' : World)
      → found ≡ d
      → w' ≡ (create_lockfile os d w).world
      → present w' d ≡ true
      → (present w d ≡ false) ⊎ IsStale os d w
      → Locks d w found w'
  here-Locks d found w w' same last ours free =
      rw (same, last)
        (record {
          from = omega arith;
          ours = rw (← last) ours;
          free = free;
          skipped = λ e l u. absurd (omega arith);
          others = λ e h. create_lockfile-others os present laws d e w h;
        })

  -- The display that the search finds is locked now, and had no lock file or a stale one; every display
  -- from the start up to it has a lock file; and no lock file but its own has changed.
  pub lock_display-Locks :
      (fuel d found : ℕ) (w w' : World)
      → lock_display os fuel d w ≡ locked found w'
      → Locks d w found w'
  unfolding lock_display
  lock_display-Locks zero d found w w' h = ground arith
  lock_display-Locks (suc fuel) d found w w' h =
      elim (create_lockfile-Creates os present laws d w) [
        | taken q e s ↦
            let rest = lock_display-Locks fuel (d + 1) found w w' (ground arith) in
            record {
              from = omega (arith, rest.from);
              ours = rest.ours;
              free = rest.free;
              skipped = λ i l u. elim (Bool-cases (i == d)) [
                | inl e' ↦ let same : i ≡ d = ground arith in rw same q
                | inr e' ↦ let more : d + 1 ≤ i = ground arith in rest.skipped i more u
              ];
              others = rest.others;
            }
        | removed q t e a ↦
            let w1 = (create_lockfile os d w).world in
            let (same, last, ours) = lock_display-here fuel d found w1 w' a (ground arith) in
            rw same (record {
              from = omega arith;
              ours = ours;
              free = inr t;
              skipped = λ i l u. absurd (omega arith);
              others = λ i n. rw last (
                  create_lockfile-others os present laws d i w1 n
                  ∙ create_lockfile-others os present laws d i w n);
            })
        | created q e a ↦
            here-Locks d found w w' (ground arith) (ground arith) (ground arith) (inl q)
        | refused q e ↦ absurd (ground arith)
      ]
