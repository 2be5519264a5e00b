-- ===== src/Dmabuf/Planes.antt =====
-- The planes that a params object collects: an invariant of params_add, and what the first checks of
-- params_create_common (wlr_linux_dmabuf_v1.c) say about the indices that its loops visit.
use westfield.Prelude.{
  ℕ, zero, suc, ◌+◌, ◌<◌, ◌≡◌, ℤ, is_minus_one, is_nonneg, true, false, ◌||◌, ltb, if◌then◌else◌,
  arith,
}
use westfield.Dmabuf.Params.{BufferParams, fresh_params, add_plane}
use westfield.Dmabuf.Create.{pass, check_planes}

-- 1 for a plane that is set.
abbrev pub plane_bit : ℤ → ℕ
plane_bit z = if is_nonneg z then 1 else 0

-- A descriptor, or the mark that there is none.
abbrev pub IsPlane : ℤ → Type 0
IsPlane z = (is_minus_one z || is_nonneg z) ≡ true

-- The count is that of the planes that are set, and no plane is set before a modifier is known.
pub record IsValid (p : BufferParams) : Type 0 where
  pub plane0 : IsPlane (p.attributes.fd 0)
  pub plane1 : IsPlane (p.attributes.fd 1)
  pub plane2 : IsPlane (p.attributes.fd 2)
  pub plane3 : IsPlane (p.attributes.fd 3)
  pub counted :
      p.attributes.n_planes
      ≡ plane_bit (p.attributes.fd 0)
        + plane_bit (p.attributes.fd 1)
        + plane_bit (p.attributes.fd 2)
        + plane_bit (p.attributes.fd 3)
  pub known : p.has_modifier ≡ false → p.attributes.n_planes ≡ 0

pub fresh_params-IsValid : IsValid fresh_params
fresh_params-IsValid = ground arith

pub add_plane-IsValid :
    (p : BufferParams) (fd : ℤ) (plane offset stride modifier : ℕ)
    → is_nonneg fd ≡ true
    → IsValid p
    → IsValid (add_plane p fd plane offset stride modifier).0
unfolding add_plane
add_plane-IsValid p fd zero offset stride modifier h v = ground arith
add_plane-IsValid p fd (suc zero) offset stride modifier h v = ground arith
add_plane-IsValid p fd (suc (suc zero)) offset stride modifier h v = ground arith
add_plane-IsValid p fd (suc (suc (suc zero))) offset stride modifier h v = ground arith
add_plane-IsValid p fd (suc (suc (suc (suc n)))) offset stride modifier h v = ground arith

-- The planes that pass the first checks are exactly those below the count.
pub check_planes-prefix :
    (p : BufferParams) (i : ℕ)
    → IsValid p
    → check_planes p.attributes ≡ pass
    → i < 4
    → is_nonneg (p.attributes.fd i) ≡ ltb i p.attributes.n_planes
unfolding check_planes
check_planes-prefix p zero v h l = ground arith
check_planes-prefix p (suc zero) v h l = ground arith
check_planes-prefix p (suc (suc zero)) v h l = ground arith
check_planes-prefix p (suc (suc (suc zero))) v h l = ground arith
check_planes-prefix p (suc (suc (suc (suc n)))) v h l = absurd (omega arith)
