-- ===== src/Dmabuf/Imports.antt =====
-- The planes and the imports that params_create_common (wlr_linux_dmabuf_v1.c) lets through: its first
-- checks, and check_import_dmabuf.
use westfield.Dmabuf.Attributes.{DmabufAttributes}
use westfield.Dmabuf.Create.{Environment, pass, check_planes, import_planes, check_import_dmabuf}
use westfield.Dmabuf.Params.{BufferParams}
use westfield.Dmabuf.Planes.{IsValid, check_planes-prefix}
use westfield.Prelude.{
  ℕ, zero, suc, ◌+◌, ◌≤◌, ◌<◌, ◌≡◌, ◌↔◌, refl, inl, inr, is_nonneg, true, some, ◌==◌, arith,
  Bool-cases, Option-cases,
}

-- There is a plane, and the planes that are set are those below the count.
abbrev pub IsContiguous : DmabufAttributes → Type 0
IsContiguous a =
    (0 < a.n_planes) × ((i : ℕ) → i < 4 → (is_nonneg (a.fd i) ≡ true) ↔ (i < a.n_planes))

pub planes-pass :
    (p : BufferParams) → IsValid p → check_planes p.attributes ≡ pass → IsContiguous p.attributes
planes-pass p v h = (
  unfold check_planes in ground arith,
  λ i l. let prefix = check_planes-prefix p i v h l in ((λ q. ground arith), (λ q. ground arith)),
)

pub pass-planes :
    (p : BufferParams) → IsValid p → IsContiguous p.attributes → check_planes p.attributes ≡ pass
unfolding check_planes
pass-planes p v (some_plane, set) =
    let set0 = set 0 (omega arith) in
    let set1 = set 1 (omega arith) in
    let set2 = set 2 (omega arith) in
    let set3 = set 3 (omega arith) in
    ground (arith, set0.0, set0.1, set1.0, set1.1, set2.0, set2.1, set3.0, set3.1)

-- Each plane below the count is imported on the main device, and its handle is closed again.
abbrev pub IsImportable : Environment → DmabufAttributes → Type 0
IsImportable env a =
    (i : ℕ)
    → i < a.n_planes
    → (h : ℕ) × (env.prime_fd_to_handle (a.fd i) ≡ some h) × (env.close_buffer_handle h ≡ true)

import_planes-imported :
    (env : Environment) (a : DmabufAttributes) (n i j : ℕ)
    → (import_planes env a n i).0 ≡ true
    → i ≤ j
    → j < i + n
    → (h : ℕ) × (env.prime_fd_to_handle (a.fd j) ≡ some h) × (env.close_buffer_handle h ≡ true)
unfolding import_planes
import_planes-imported env a zero i j h lo hi = absurd (omega arith)
import_planes-imported env a (suc n) i j h lo hi =
    elim (Option-cases (env.prime_fd_to_handle (a.fd i))) [
      | inl e ↦ absurd (ground arith)
      | inr (handle, e) ↦ elim (Bool-cases (env.close_buffer_handle handle)) [
        | inr c ↦ absurd (ground arith)
        | inl c ↦ elim (Bool-cases (i == j)) [
          | inl q ↦ let same : j ≡ i = ground arith in rw same (handle, e, c)
          | inr q ↦
              let rest : (import_planes env a n (i + 1)).0 ≡ true = ground arith in
              import_planes-imported env a n (i + 1) j rest (ground arith) (omega arith)
        ]
      ]
    ]

imported-import_planes :
    (env : Environment) (a : DmabufAttributes) (n i : ℕ)
    → i + n ≡ a.n_planes
    → IsImportable env a
    → (import_planes env a n i).0 ≡ true
unfolding import_planes
imported-import_planes env a zero i e h = refl
imported-import_planes env a (suc n) i e h =
    let (handle, got, closed) = h i (omega arith) in
    ground (arith, imported-import_planes env a n (i + 1) (omega arith) h)

pub check_import_dmabuf-imports :
    (env : Environment) (a : DmabufAttributes)
    → ((check_import_dmabuf env a).0 ≡ true) ↔ IsImportable env a
unfolding check_import_dmabuf
check_import_dmabuf-imports env a = (
  (λ h i l. import_planes-imported env a a.n_planes 0 i h (omega arith) (omega arith)),
  (λ h. imported-import_planes env a a.n_planes 0 (omega arith) h),
)
