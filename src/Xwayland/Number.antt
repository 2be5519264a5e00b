-- ===== src/Xwayland/Number.antt =====
-- The range that safe_strtoint of westfield-xwayland.c accepts.
use westfield.Prelude.{
  ◌^◌, ◌<◌, ◌≤◌, ◌≡◌, ◌⊎◌, inl, inr, ℤ, pos, negsuc, eq_ℤ, true, false, none, some, ltb, Bool-cases,
  arith,
}
use westfield.Xwayland.Lockfile.{to_int32, safe_strtoint}
use westfield.Xwayland.Os.{Strtol}

-- From INT32_MIN to INT32_MAX.
abbrev pub InRange : ℤ → Type 0
InRange (pos n) = n < 2 ^ 31
InRange (negsuc n) = n < 2 ^ 31

abbrev pub OutOfRange : ℤ → Type 0
OutOfRange (pos n) = 2 ^ 31 ≤ n
OutOfRange (negsuc n) = 2 ^ 31 ≤ n

-- The conversion keeps exactly the numbers in range.
to_int32-InRange :
    (x : ℤ)
    → ((eq_ℤ (to_int32 x) x ≡ true) × (to_int32 x ≡ x) × InRange x)
      ⊎ ((eq_ℤ (to_int32 x) x ≡ false) × OutOfRange x)
to_int32-InRange (pos n) = elim (Bool-cases (ltb n (2 ^ 31))) [
  | inl e ↦ inl (ground arith, ground arith, ground arith)
  | inr e ↦ inr (ground arith, ground arith)
]
to_int32-InRange (negsuc n) = elim (Bool-cases (ltb n (2 ^ 31))) [
  | inl e ↦ inl (ground arith, ground arith, ground arith)
  | inr e ↦ inr (ground arith, ground arith)
]

-- safe_strtoint returns the number that strtol parsed if strtol sets no error, found digits and
-- reached the end of the string, and the number is one of 32 bits; else it returns nothing.
pub safe_strtoint_lem :
    (s : Strtol)
    → ((safe_strtoint s ≡ some s.value)
        × (s.error ≡ false)
        × (s.no_digits ≡ false)
        × (s.at_end ≡ true)
        × InRange s.value)
      ⊎ ((safe_strtoint s ≡ none)
          × ((s.error ≡ true) ⊎ ((s.no_digits ≡ true) ⊎ ((s.at_end ≡ false) ⊎ OutOfRange s.value))))
unfolding safe_strtoint
safe_strtoint_lem s = elim (Bool-cases s.error) [
  | inl e ↦ inr (ground arith, inl e)
  | inr e ↦ elim (Bool-cases s.no_digits) [
    | inl n ↦ inr (ground arith, inr (inl n))
    | inr n ↦ elim (Bool-cases s.at_end) [
      | inr a ↦ inr (ground arith, inr (inr (inl a)))
      | inl a ↦ elim (to_int32-InRange s.value) [
        | inl (t, same, r) ↦ inl (ground arith, e, n, a, r)
        | inr (t, r) ↦ inr (ground arith, inr (inr (inr r)))
      ]
    ]
  ]
]
