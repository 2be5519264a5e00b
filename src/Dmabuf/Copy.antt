-- ===== src/Dmabuf/Copy.antt =====
-- dmabuf_attributes_copy of westfield-dmabuf.c: what it copies, and what it closes if it fails.
use westfield.Dmabuf.Attributes.{
  Array, DmabufAttributes, write, entries, dup_planes, dmabuf_attributes_copy,
}
use westfield.Prelude.{
  ℕ, zero, suc, ◌+◌, ◌<◌, ◌≤◌, ◌≡◌, refl, ◌⊎◌, inl, inr, ℤ, is_nonneg, Bool, true, false, List, [],
  ◌==◌, Bool-cases, arith,
}

-- How the loop ends, from plane `i` for `n` rounds.
abbrev Duped : Array ℤ → ℕ → ℕ → Array ℤ → Bool × ℕ × Array ℤ → Type 0
Duped dup n i fd (done, k, fd') =
    (((done ≡ true) × (k ≡ i + n)) ⊎ ((done ≡ false) × (k < i + n) × (is_nonneg (dup k) ≡ false)))
    × (i ≤ k)
    × ((j : ℕ) → i ≤ j → j < k → (fd' j ≡ dup j) × (is_nonneg (dup j) ≡ true))
    × ((j : ℕ) → j < i → fd' j ≡ fd j)

dup_planes-Duped :
    (dup : Array ℤ) (n i : ℕ) (fd : Array ℤ) → Duped dup n i fd (dup_planes dup n i fd)
unfolding dup_planes
dup_planes-Duped dup zero i fd =
    (inl (refl, omega arith), omega arith, λ j l u. absurd (omega arith), λ j l. refl)
dup_planes-Duped dup (suc n) i fd =
    let fd' = write fd i (dup i) in
    let rest = dup_planes-Duped dup n (i + 1) fd' in
    elim (Bool-cases (is_nonneg (dup i))) [
      | inr e ↦
          let run : dup_planes dup (suc n) i fd ≡ (false, i, fd') = ground arith in
          rw run (
            inr (refl, omega arith, e),
            omega arith,
            λ j l u. absurd (omega arith),
            λ j l. ground arith,
          )
      | inl e ↦
          let run : dup_planes dup (suc n) i fd ≡ dup_planes dup n (i + 1) fd' = ground arith in
          rw run (
            elim rest.0 [
              | inl (d, k) ↦ inl (d, omega (arith, k))
              | inr (d, u, b) ↦ inr (d, omega (arith, u), b)
            ],
            omega (arith, rest.1),
            λ j l u. elim (Bool-cases (i == j)) [
              | inl s ↦
                  let same : i ≡ j = ground arith in
                  let early : i < i + 1 = omega arith in
                  (ground (arith, rest.3 i early), rw (← same) e)
              | inr s ↦ let later : i + 1 ≤ j = ground arith in rest.2 j later u
            ],
            λ j l. let before : j < i + 1 = omega arith in ground (arith, rest.3 j before),
          )
    ]

entries-same :
    (n i : ℕ) (a b : Array ℤ)
    → ((j : ℕ) → i ≤ j → j < i + n → a j ≡ b j)
    → entries n i a ≡ entries n i b
unfolding entries
entries-same zero i a b h = refl
entries-same (suc n) i a b h =
    let head : a i ≡ b i = h i (omega arith) (omega arith) in
    let tail = entries-same n (i + 1) a b (λ j l u. h j (omega arith) (omega arith)) in
    ground (arith, head, tail)

-- What a copy leaves: all descriptors duplicated, or none.
pub data Copies (dup : Array ℤ) (src : DmabufAttributes) (r : Bool × DmabufAttributes × List ℤ)
    : Type 0 where
  copied :
      r.0 ≡ true
      → r.1.n_planes ≡ src.n_planes
      → ((j : ℕ) → j < src.n_planes → (r.1.fd j ≡ dup j) × (is_nonneg (dup j) ≡ true))
      → r.2 ≡ []
      → Copies dup src r
  failed :
      (k : ℕ)
      → r.0 ≡ false
      → r.1.n_planes ≡ 0
      → k < src.n_planes
      → is_nonneg (dup k) ≡ false
      → ((j : ℕ) → j < k → is_nonneg (dup j) ≡ true)
      → r.2 ≡ entries k 0 dup
      → Copies dup src r

-- A copy of the attributes either duplicates the descriptor of every plane and closes nothing, or it
-- stops at the first plane whose descriptor cannot be duplicated, closes exactly the duplicates made
-- before, in order, and leaves no plane.
pub dmabuf_attributes_copy-Copies :
    (dup : Array ℤ) (src : DmabufAttributes) → Copies dup src (dmabuf_attributes_copy dup src)
unfolding dmabuf_attributes_copy
dmabuf_attributes_copy-Copies dup src =
    let r = dup_planes dup src.n_planes 0 src.fd in
    let d = dup_planes-Duped dup src.n_planes 0 src.fd in
    elim d.0 [
      | inl (e, k) ↦
          copied (ground arith) (ground arith)
            (λ j l.
              let u : j < r.1 = omega (arith, k) in
              let c = d.2 j (omega arith) u in (ground (arith, c.0), c.1))
            (ground arith)
      | inr (e, u, b) ↦
          failed r.1 (ground arith) (ground arith) (omega (arith, u)) b
            (λ j l. (d.2 j (omega arith) l).1)
            (ground (arith, entries-same r.1 0 r.2 dup (λ j l u. (d.2 j l (omega arith)).0)))
    ]
