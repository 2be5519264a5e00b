-- ===== src/Dmabuf/Accept.antt =====
-- Which requests create and create_immed (wlr_linux_dmabuf_v1.c) lead to a buffer.
use westfield.Prelude.{
  ℕ, zero, suc, ◌+◌, ◌^◌, ◌≤◌, ◌<◌, ◌≡◌, ◌↔◌, refl, inl, inr, ℤ, pos, negsuc, true, some, ◌==◌,
  arith, Bool-cases,
}
use westfield.Dmabuf.Attributes.{DmabufAttributes}
use westfield.Dmabuf.Bounds.{PlaneFits, check_plane-pass}
use westfield.Dmabuf.Create.{
  Environment, Check, pass, err_out, err_failed, ◌and_then◌, check_flags, check_dimensions,
  check_bounds, check_request, end_out, end_failed, DmabufBuffer, create_buffer, create_from,
  after_checks, params_create_common, check_import_dmabuf,
}
use westfield.Dmabuf.Params.{BufferParams}
use westfield.Dmabuf.Imports.{
  IsContiguous, planes-pass, pass-planes, IsImportable, check_import_dmabuf-imports,
}
use westfield.Dmabuf.Planes.{IsValid}

-- The offsets and the strides are numbers of 32 bits.
abbrev pub HasWords : DmabufAttributes → Type 0
HasWords a = (i : ℕ) → (a.offset i < 2 ^ 32) × (a.stride i < 2 ^ 32)

-- The planes from `i` on, for `n` rounds, fit.
abbrev pub PlanesFit : (ℤ → ℤ) → DmabufAttributes → ℕ → ℕ → ℕ → Type 0
PlanesFit seek_end a height n i =
    (j : ℕ) → i ≤ j → j < i + n → PlaneFits (seek_end (a.fd j)) (a.offset j) (a.stride j) height j

and_then-pass : (c d : Check) → (c and_then d) ≡ pass → (c ≡ pass) × (d ≡ pass)
and_then-pass pass d h = (refl, h)
and_then-pass (err_out e) d h = ground arith
and_then-pass err_failed d h = ground arith

check_bounds-fit :
    (seek_end : ℤ → ℤ) (a : DmabufAttributes) (height n i : ℕ)
    → HasWords a
    → height < 2 ^ 31
    → check_bounds seek_end a (pos height) n i ≡ pass
    → PlanesFit seek_end a height n i
unfolding check_bounds
check_bounds-fit seek_end a height zero i w ph h j lo hi = absurd (omega arith)
check_bounds-fit seek_end a height (suc n) i w ph h j lo hi =
    let (here, rest) = and_then-pass _ _ h in
    let fit =
      (check_plane-pass (seek_end (a.fd i)) (a.offset i) (a.stride i) height i (w i).0 (w i).1 ph).0
        here in
    elim (Bool-cases (i == j)) [
      | inl e ↦ let same : j ≡ i = ground arith in rw same fit
      | inr e ↦
          check_bounds-fit seek_end a height n (i + 1) w ph rest j (ground arith) (omega arith)
    ]

fit-check_bounds :
    (seek_end : ℤ → ℤ) (a : DmabufAttributes) (height n i : ℕ)
    → HasWords a
    → height < 2 ^ 31
    → PlanesFit seek_end a height n i
    → check_bounds seek_end a (pos height) n i ≡ pass
unfolding check_bounds
fit-check_bounds seek_end a height zero i w ph f = refl
fit-check_bounds seek_end a height (suc n) i w ph f =
    let here =
      (check_plane-pass (seek_end (a.fd i)) (a.offset i) (a.stride i) height i (w i).0 (w i).1 ph).1
        (f i (omega arith) (omega arith)) in
    rw here (
      fit-check_bounds seek_end a height n (i + 1) w ph
        (λ j lo hi. f j (omega arith) (omega arith)))

-- What a request has to meet before its planes are imported.
pub record Acceptable (env : Environment) (a : DmabufAttributes) (width height : ℤ) (flags : ℕ)
    : Type 0 where
  pub planes : IsContiguous a
  pub no_flags : flags ≡ 0
  pub columns : ℕ
  pub rows : ℕ
  pub width_pos : (width ≡ pos columns) × (0 < columns)
  pub height_pos : (height ≡ pos rows) × (0 < rows)
  pub fit : PlanesFit env.seek_end a rows a.n_planes 0

dimensions-pass :
    (width height : ℤ)
    → check_dimensions width height ≡ pass
    → (c r : ℕ) × (width ≡ pos c) × (0 < c) × (height ≡ pos r) × (0 < r)
unfolding check_dimensions
dimensions-pass (pos c) (pos r) h = (c, r, refl, ground arith, refl, ground arith)
dimensions-pass (pos c) (negsuc r) h = ground arith
dimensions-pass (negsuc c) (pos r) h = ground arith
dimensions-pass (negsuc c) (negsuc r) h = ground arith

flags-pass : (flags : ℕ) → check_flags flags ≡ pass → flags ≡ 0
unfolding check_flags
flags-pass flags h = ground arith

pass-flags : check_flags 0 ≡ pass
unfolding check_flags
pass-flags = refl

pass-dimensions : (c r : ℕ) → 0 < c → 0 < r → check_dimensions (pos c) (pos r) ≡ pass
unfolding check_dimensions
pass-dimensions c r pc pr = ground arith

-- The checks of params_create_common pass exactly on the requests that are acceptable: the planes
-- that are set are those below the count, there are no flags, width and height are positive, and every
-- plane lies within 32 bits and within its file, in numbers that do not wrap.
pub check_request-pass :
    (env : Environment) (p : BufferParams) (width height : ℤ) (flags : ℕ)
    → IsValid p
    → HasWords p.attributes
    → ((n : ℕ) → height ≡ pos n → n < 2 ^ 31)
    → (check_request env p.attributes width height flags ≡ pass)
      ↔ Acceptable env p.attributes width height flags
unfolding check_request
check_request-pass env p width height flags valid w int32 = (
  (λ h.
      let a = p.attributes in
      let (planes, h1) = and_then-pass _ _ h in
      let (no_flags, h2) = and_then-pass _ _ h1 in
      let (sized, bounds) = and_then-pass _ _ h2 in
      let (c, r, wide, pc, high, pr) = dimensions-pass width height sized in
      record {
        planes = planes-pass p valid planes;
        no_flags = flags-pass flags no_flags;
        columns = c;
        rows = r;
        width_pos = (wide, pc);
        height_pos = (high, pr);
        fit = check_bounds-fit env.seek_end a r a.n_planes 0 w (int32 r high) (rw high at bounds);
      }),
  (λ v.
      let a = p.attributes in
      let bounds =
        fit-check_bounds env.seek_end a v.rows a.n_planes 0 w (int32 v.rows v.height_pos.0) v.fit in
      rw
        (
          pass-planes p valid v.planes,
          v.no_flags,
          v.width_pos.0,
          v.height_pos.0,
          pass-flags,
          pass-dimensions v.columns v.rows v.width_pos.1 v.height_pos.1,
        )
        bounds),
)

-- A buffer that a request makes.
abbrev pub made_buffer : DmabufAttributes → ℕ → ℤ → ℤ → ℕ → DmabufBuffer
made_buffer a buffer_id width height format = record {
  width = width;
  height = height;
  resource = buffer_id;
  attributes = record a { width = width; height = height; format = format };
}

create-pass :
    (env : Environment) (a : DmabufAttributes) (buffer_id : ℕ) (c : Check) (b : DmabufBuffer)
    → (after_checks env a buffer_id c).buffer ≡ some b
    → (c ≡ pass)
      × ((check_import_dmabuf env a).0 ≡ true)
      × (env.buffer_allocated ≡ true)
      × (env.resource_created ≡ true)
      × (b ≡ record { width = a.width; height = a.height; resource = buffer_id; attributes = a })
unfolding after_checks create_buffer end_out end_failed
create-pass env a buffer_id pass b h = ground arith
create-pass env a buffer_id (err_out e) b h = ground arith
create-pass env a buffer_id err_failed b h = ground arith

pass-create :
    (env : Environment) (a : DmabufAttributes) (buffer_id : ℕ)
    → (check_import_dmabuf env a).0 ≡ true
    → env.buffer_allocated ≡ true
    → env.resource_created ≡ true
    → (after_checks env a buffer_id pass).buffer
      ≡ some (record { width = a.width; height = a.height; resource = buffer_id; attributes = a })
unfolding after_checks create_buffer
pass-create env a buffer_id i m r = ground arith

-- A request create or create_immed on a params object that is in use and well formed makes a buffer
-- exactly when the planes that are set are those below the count, and there is one; the flags are 0
-- and the dimensions positive; each plane lies within 32 bits and its file; each plane can be imported
-- and its handle closed; and memory is there. The buffer then has the planes of the object and the
-- dimensions, the format and the id of the request.
pub params_create_common-buffer :
    (env : Environment) (p : BufferParams) (buffer_id : ℕ) (width height : ℤ) (format flags : ℕ)
    (b : DmabufBuffer)
    → IsValid p
    → HasWords p.attributes
    → ((n : ℕ) → height ≡ pos n → n < 2 ^ 31)
    → ((params_create_common env (some p) buffer_id width height format flags).buffer ≡ some b) ↔ (
        Acceptable env p.attributes width height flags
        × IsImportable env p.attributes
        × (env.buffer_allocated ≡ true)
        × (env.resource_created ≡ true)
        × (b ≡ made_buffer p.attributes buffer_id width height format))
unfolding params_create_common create_from
params_create_common-buffer env p buffer_id width height format flags b valid w int32 =
    let sized = record p.attributes { width = width; height = height; format = format } in
    let checks = check_request-pass env p width height flags valid w int32 in
    let imports = check_import_dmabuf-imports env sized in
    (
      (λ h.
          let (passed, imported, memory, made, same) = create-pass env sized buffer_id _ b h in
          (checks.0 passed, imports.0 imported, memory, made, same)),
      (λ (ok, importable, memory, made, same).
          rw (checks.1 ok, same)
            (pass-create env sized buffer_id (imports.1 importable) memory made)),
    )
