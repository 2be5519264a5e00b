-- ===== src/Dmabuf/Bounds.antt =====
-- The bounds that params_create_common (wlr_linux_dmabuf_v1.c) checks, in numbers that do not wrap.
use westfield.Prelude.{
  ℕ, zero, suc, ◌+◌, ◌*◌, ◌^◌, ◌%◌, ◌≤◌, ◌<◌, ◌≡◌, ◌↔◌, ℤ, pos, negsuc, is_minus_one, nat_gt, ◌&&◌,
  ◌||◌, ltb, ◌==◌, if◌then◌else◌, arith,
}
use westfield.Dmabuf.Params.{out_of_bounds}
use westfield.Dmabuf.Create.{Check, pass, err_out, u32_max, check_plane}

-- What a known size allows; -1 is a descriptor that cannot be seeked.
abbrev pub FitsSize : ℤ → ℕ → ℕ → ℕ → ℕ → Type 0
FitsSize (negsuc zero) offset stride height i = Unit
FitsSize (negsuc (suc n)) offset stride height i = ⊥
FitsSize (pos size) offset stride height i =
    (0 < stride) × (offset + stride ≤ size) × (i ≡ 0 → offset + stride * height ≤ size)

-- Plane `i` lies within 32 bits and within its file.
abbrev pub PlaneFits : ℤ → ℕ → ℕ → ℕ → ℕ → Type 0
PlaneFits size offset stride height i =
    (offset + stride ≤ u32_max)
    × (offset + stride * height ≤ u32_max)
    × FitsSize size offset stride height i

small_product : (stride height : ℕ) → stride < 2 ^ 32 → height < 2 ^ 31 → stride * height < 2 ^ 63
small_product stride height p q = grind arith

-- The tests of check_plane on a product that is given.
tests : ℤ → ℕ → ℕ → ℕ → ℕ → Check
tests size offset stride area i =
    if ltb u32_max ((offset + stride) % 2 ^ 64)
    then err_out out_of_bounds
    else if ltb u32_max ((offset + area) % 2 ^ 64)
    then err_out out_of_bounds
    else if is_minus_one size
    then pass
    else if nat_gt offset size
    then err_out out_of_bounds
    else if nat_gt ((offset + stride) % 2 ^ 32) size || stride == 0
    then err_out out_of_bounds
    else if i == 0 && nat_gt ((offset + area % 2 ^ 32) % 2 ^ 32) size
    then err_out out_of_bounds
    else pass

check_plane-tests :
    (size : ℤ) (offset stride height i : ℕ)
    → height < 2 ^ 31
    → check_plane size offset stride (pos height) i ≡ tests size offset stride (stride * height) i
unfolding check_plane tests
check_plane-tests size offset stride height i h =
    let wide : height % 2 ^ 64 ≡ height = omega arith in
    let narrow : height % 2 ^ 32 ≡ height = omega arith in rw (wide, narrow)

-- FitsSize on a product that is given.
abbrev AreaFits : ℤ → ℕ → ℕ → ℕ → ℕ → Type 0
AreaFits (negsuc zero) offset stride area i = Unit
AreaFits (negsuc (suc n)) offset stride area i = ⊥
AreaFits (pos size) offset stride area i =
    (0 < stride) × (offset + stride ≤ size) × (i ≡ 0 → offset + area ≤ size)

tests-pass :
    (size : ℤ) (offset stride area i : ℕ)
    → offset < 2 ^ 32
    → stride < 2 ^ 32
    → area < 2 ^ 63
    → tests size offset stride area i ≡ pass
    → (offset + stride ≤ u32_max) × (offset + area ≤ u32_max) × AreaFits size offset stride area i
unfolding tests
tests-pass (pos size) offset stride area i po ps pa h = (ground arith, ground arith, ground arith)
tests-pass (negsuc zero) offset stride area i po ps pa h = (ground arith, ground arith, tt)
tests-pass (negsuc (suc n)) offset stride area i po ps pa h = ground arith

pass-tests :
    (size : ℤ) (offset stride area i : ℕ)
    → offset + stride ≤ u32_max
    → offset + area ≤ u32_max
    → AreaFits size offset stride area i
    → tests size offset stride area i ≡ pass
unfolding tests
pass-tests (pos size) offset stride area i p q f = ground arith
pass-tests (negsuc zero) offset stride area i p q f = ground arith
pass-tests (negsuc (suc n)) offset stride area i p q f = absurd f

fits-area :
    (size : ℤ) (offset stride height i : ℕ)
    → FitsSize size offset stride height i ↔ AreaFits size offset stride (stride * height) i
fits-area (pos size) offset stride height i = ((λ f. f), (λ f. f))
fits-area (negsuc zero) offset stride height i = ((λ f. f), (λ f. f))
fits-area (negsuc (suc n)) offset stride height i = ((λ f. f), (λ f. f))

pub check_plane-pass :
    (size : ℤ) (offset stride height i : ℕ)
    → offset < 2 ^ 32
    → stride < 2 ^ 32
    → height < 2 ^ 31
    → (check_plane size offset stride (pos height) i ≡ pass) ↔ PlaneFits size offset stride height i
check_plane-pass size offset stride height i po ps ph =
    rw (check_plane-tests size offset stride height i ph) (
      (λ h.
          let r =
            tests-pass size offset stride (stride * height) i po ps
              (small_product stride height ps ph) h in
          (r.0, r.1, (fits-area size offset stride height i).1 r.2)),
      (λ f.
          pass-tests size offset stride (stride * height) i f.0 f.1
            ((fits-area size offset stride height i).0 f.2)),
    )
