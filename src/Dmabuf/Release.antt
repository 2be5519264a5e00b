-- ===== src/Dmabuf/Release.antt =====
-- What becomes of the planes' descriptors when a params object is used or destroyed:
-- dmabuf_attributes_finish (westfield-dmabuf.c) under params_create_common and
-- params_handle_resource_destroy (wlr_linux_dmabuf_v1.c).
use westfield.Prelude.{
  ℕ, zero, suc, ◌+◌, ◌≤◌, ◌<◌, ◌≡◌, refl, ◌⊎◌, inl, inr, ℤ, pos, negsuc, is_nonneg, eq_ℤ, true,
  Option, none, some, List, [], ◌∷◌, ◌++◌, map, ltb, ◌==◌, if◌then◌else◌, arith,
}
use westfield.Dmabuf.Attributes.{DmabufAttributes, Array, entries, dmabuf_attributes_finish}
use westfield.Dmabuf.Create.{
  Environment, Check, pass, err_out, err_failed, check_planes, check_request, end_out, end_failed,
  Outcome, DmabufBuffer, create_buffer, create_from, after_checks, params_create_common,
  import_planes, check_import_dmabuf,
}
use westfield.Dmabuf.Ownership.{held, closes, closed, closed-append}
use westfield.Dmabuf.Params.{
  BufferParams, Effect, post_error, post_no_memory, invalid_wl_buffer, close, send_created,
  send_failed, params_handle_resource_destroy, incomplete,
}
use westfield.Dmabuf.Planes.{IsValid, check_planes-prefix}

-- The planes that are set are those below the count.
abbrev pub IsContiguous : DmabufAttributes → Type 0
IsContiguous a = (a.n_planes ≤ 4) × ((i : ℕ) → i < 4 → is_nonneg (a.fd i) ≡ ltb i a.n_planes)

-- The descriptors that finish closes, for up to four planes.
closed-entries :
    (z : ℤ) (n : ℕ) (fd : Array ℤ)
    → n ≤ 4
    → is_nonneg z ≡ true
    → is_nonneg (fd 0) ≡ ltb 0 n
    → is_nonneg (fd 1) ≡ ltb 1 n
    → is_nonneg (fd 2) ≡ ltb 2 n
    → is_nonneg (fd 3) ≡ ltb 3 n
    → closed z (map close (entries n 0 fd)) ≡ held z fd
unfolding entries
closed-entries z zero fd l h h0 h1 h2 h3 = ground arith
closed-entries z (suc zero) fd l h h0 h1 h2 h3 = ground arith
closed-entries z (suc (suc zero)) fd l h h0 h1 h2 h3 = ground arith
closed-entries z (suc (suc (suc zero))) fd l h h0 h1 h2 h3 = ground arith
closed-entries z (suc (suc (suc (suc zero)))) fd l h h0 h1 h2 h3 = ground arith
closed-entries z (suc (suc (suc (suc (suc n))))) fd l h h0 h1 h2 h3 = absurd (omega arith)

pub closed-finish :
    (z : ℤ) (a : DmabufAttributes)
    → IsContiguous a
    → is_nonneg z ≡ true
    → closed z (map close (dmabuf_attributes_finish a).1) ≡ held z a.fd
unfolding dmabuf_attributes_finish
closed-finish z a c h =
    closed-entries z a.n_planes a.fd c.0 h (c.1 0 (omega arith)) (c.1 1 (omega arith))
      (c.1 2 (omega arith)) (c.1 3 (omega arith))

eq_ℤ_refl : (z : ℤ) → eq_ℤ z z ≡ true
eq_ℤ_refl (pos n) = ground arith
eq_ℤ_refl (negsuc n) = ground arith

closed-below :
    (n i : ℕ) (fd : Array ℤ)
    → is_nonneg (fd i) ≡ true
    → n ≤ i
    → i < 4
    → closed (fd i) (map close (entries n 0 fd)) < held (fd i) fd
unfolding entries
closed-below zero zero fd h le lt = ground (arith, eq_ℤ_refl (fd 0))
closed-below zero (suc zero) fd h le lt = ground (arith, eq_ℤ_refl (fd 1))
closed-below zero (suc (suc zero)) fd h le lt = ground (arith, eq_ℤ_refl (fd 2))
closed-below zero (suc (suc (suc zero))) fd h le lt = ground (arith, eq_ℤ_refl (fd 3))
closed-below zero (suc (suc (suc (suc i)))) fd h le lt = absurd (omega arith)
closed-below (suc zero) zero fd h le lt = absurd (omega arith)
closed-below (suc zero) (suc zero) fd h le lt = ground (arith, eq_ℤ_refl (fd 1))
closed-below (suc zero) (suc (suc zero)) fd h le lt = ground (arith, eq_ℤ_refl (fd 2))
closed-below (suc zero) (suc (suc (suc zero))) fd h le lt = ground (arith, eq_ℤ_refl (fd 3))
closed-below (suc zero) (suc (suc (suc (suc i)))) fd h le lt = absurd (omega arith)
closed-below (suc (suc zero)) zero fd h le lt = absurd (omega arith)
closed-below (suc (suc zero)) (suc zero) fd h le lt = absurd (omega arith)
closed-below (suc (suc zero)) (suc (suc zero)) fd h le lt = ground (arith, eq_ℤ_refl (fd 2))
closed-below (suc (suc zero)) (suc (suc (suc zero))) fd h le lt = ground (arith, eq_ℤ_refl (fd 3))
closed-below (suc (suc zero)) (suc (suc (suc (suc i)))) fd h le lt = absurd (omega arith)
closed-below (suc (suc (suc zero))) zero fd h le lt = absurd (omega arith)
closed-below (suc (suc (suc zero))) (suc zero) fd h le lt = absurd (omega arith)
closed-below (suc (suc (suc zero))) (suc (suc zero)) fd h le lt = absurd (omega arith)
closed-below (suc (suc (suc zero))) (suc (suc (suc zero))) fd h le lt =
    ground (arith, eq_ℤ_refl (fd 3))
closed-below (suc (suc (suc zero))) (suc (suc (suc (suc i)))) fd h le lt = absurd (omega arith)
closed-below (suc (suc (suc (suc n)))) i fd h le lt = absurd (omega arith)

-- A plane that is set at an index from the count on is not closed.
finish-skips :
    (a : DmabufAttributes) (i : ℕ)
    → is_nonneg (a.fd i) ≡ true
    → a.n_planes ≤ i
    → i < 4
    → closed (a.fd i) (map close (dmabuf_attributes_finish a).1) < held (a.fd i) a.fd
unfolding dmabuf_attributes_finish
finish-skips a i h le lt = closed-below a.n_planes i a.fd h le lt

-- The import of planes closes no descriptor.
closed-import :
    (z : ℤ) (env : Environment) (a : DmabufAttributes) (n i : ℕ)
    → closed z (import_planes env a n i).1 ≡ 0
unfolding import_planes
closed-import z env a zero i = refl
closed-import z env a (suc n) i = ground (arith, closed-import z env a n (i + 1))

closed-end_out :
    (z : ℤ) (a : DmabufAttributes) (effects : List Effect)
    → closed z (end_out a effects).effects
      ≡ closed z effects + closed z (map close (dmabuf_attributes_finish a).1)
unfolding end_out
closed-end_out z a effects = closed-append z effects _

closed-last :
    (z : ℤ) (a : DmabufAttributes) (effects : List Effect) (e : Effect)
    → closes z e ≡ 0
    → closed z (end_out a (effects ++ e ∷ [])).effects
      ≡ closed z effects + closed z (map close (dmabuf_attributes_finish a).1)
closed-last z a effects e h =
    omega (arith, closed-end_out z a (effects ++ e ∷ []), closed-append z effects (e ∷ []))

closed-end_failed :
    (z : ℤ) (a : DmabufAttributes) (buffer_id : ℕ) (effects : List Effect)
    → closed z (end_failed a buffer_id effects).effects
      ≡ closed z effects + closed z (map close (dmabuf_attributes_finish a).1)
unfolding end_failed
closed-end_failed z a buffer_id effects =
    closed-last z a effects (if buffer_id == 0 then send_failed else post_error invalid_wl_buffer)
      (ground arith)

-- The planes that a buffer took over.
abbrev pub taken : ℤ → Option DmabufBuffer → ℕ
taken z none = 0
taken z (some b) = held z b.attributes.fd

-- Each descriptor of the planes is closed or has gone to the buffer, as often as it was held.
abbrev pub Settles : DmabufAttributes → Outcome → Type 0
Settles a r = (z : ℤ) → is_nonneg z ≡ true → closed z r.effects + taken z r.buffer ≡ held z a.fd

end_out-Settles :
    (a : DmabufAttributes) (effects : List Effect)
    → IsContiguous a
    → ((z : ℤ) → closed z effects ≡ 0)
    → Settles a (end_out a effects)
end_out-Settles a effects c quiet z h =
    let buffer : (end_out a effects).buffer ≡ none = unfold end_out in refl in
    rw buffer (omega (arith, closed-end_out z a effects, closed-finish z a c h, quiet z))

end_failed-Settles :
    (a : DmabufAttributes) (buffer_id : ℕ) (effects : List Effect)
    → IsContiguous a
    → ((z : ℤ) → closed z effects ≡ 0)
    → Settles a (end_failed a buffer_id effects)
end_failed-Settles a buffer_id effects c quiet z h =
    let buffer : (end_failed a buffer_id effects).buffer ≡ none =
      unfold end_failed end_out in refl in
    rw buffer
      (omega (arith, closed-end_failed z a buffer_id effects, closed-finish z a c h, quiet z))

create_buffer-Settles :
    (env : Environment) (a : DmabufAttributes) (buffer_id : ℕ)
    → IsContiguous a
    → Settles a (create_buffer env a buffer_id)
unfolding create_buffer check_import_dmabuf
create_buffer-Settles env a buffer_id c z h =
    let done = (import_planes env a a.n_planes 0).1 in
    let quiet = λ (w : ℤ). closed-import w env a a.n_planes 0 in
    ground (
      arith,
      quiet z,
      closed-append z done (send_created ∷ []),
      closed-append z done [],
      end_failed-Settles a buffer_id done c quiet z h,
      end_failed-Settles a buffer_id (done ++ post_no_memory ∷ []) c
          (λ w. omega (arith, closed-append w done (post_no_memory ∷ []), quiet w)) z h,
    )

-- Planes that pass the first checks are contiguous.
check_planes-IsContiguous :
    (p : BufferParams) → IsValid p → check_planes p.attributes ≡ pass → IsContiguous p.attributes
check_planes-IsContiguous p v h = (ground (arith, v), λ i l. check_planes-prefix p i v h l)

after_checks-Settles :
    (env : Environment) (a : DmabufAttributes) (buffer_id : ℕ) (c : Check)
    → IsContiguous a
    → Settles a (after_checks env a buffer_id c)
unfolding after_checks
after_checks-Settles env a buffer_id pass c = create_buffer-Settles env a buffer_id c
after_checks-Settles env a buffer_id (err_out e) c =
    end_out-Settles a (post_error e ∷ []) c (λ z. refl)
after_checks-Settles env a buffer_id err_failed c = end_failed-Settles a buffer_id [] c (λ z. refl)

-- A request create or create_immed on planes that are set from plane 0 on without a gap accounts for
-- every descriptor: it is closed, or it is in the buffer that the request made, as often as the
-- planes held it, whichever check, import or allocation fails.
pub params_create_common-Settles :
    (env : Environment) (p : BufferParams) (buffer_id : ℕ) (width height : ℤ) (format flags : ℕ)
    → IsContiguous p.attributes
    → Settles p.attributes (params_create_common env (some p) buffer_id width height format flags)
unfolding params_create_common create_from
params_create_common-Settles env p buffer_id width height format flags c =
    after_checks-Settles env
      (record p.attributes { width = width; height = height; format = format }) buffer_id _ c

-- The destruction of a params object with such planes closes each descriptor as often as they hold
-- it.
pub params_handle_resource_destroy-closed :
    (p : BufferParams) (z : ℤ)
    → IsContiguous p.attributes
    → is_nonneg z ≡ true
    → closed z (params_handle_resource_destroy (some p)) ≡ held z p.attributes.fd
unfolding params_handle_resource_destroy
params_handle_resource_destroy-closed p z c h = closed-finish z p.attributes c h

-- The checks of planes that leave a gap.
check_planes-gap :
    (p : BufferParams) (i : ℕ)
    → IsValid p
    → is_nonneg (p.attributes.fd i) ≡ true
    → p.attributes.n_planes ≤ i
    → i < 4
    → check_planes p.attributes ≡ err_out incomplete
check_planes-gap p i v h le lt =
    let cases : (check_planes p.attributes ≡ pass)
        ⊎ (check_planes p.attributes ≡ err_out incomplete) =
      unfold check_planes in ground arith in
    elim cases [ inl e ↦ absurd (ground (arith, check_planes-prefix p i v e lt)) | inr e ↦ e ]

-- The code loses descriptors: if a plane is set at an index from the count of planes on, a request
-- create or create_immed makes no buffer and closes that plane's descriptor less often than the
-- planes hold it; so does the destruction of the object.
pub params_create_common-loses :
    (env : Environment) (p : BufferParams) (buffer_id : ℕ) (width height : ℤ) (format flags i : ℕ)
    → IsValid p
    → is_nonneg (p.attributes.fd i) ≡ true
    → p.attributes.n_planes ≤ i
    → i < 4
    → let r = params_create_common env (some p) buffer_id width height format flags in
      let z = p.attributes.fd i in
      (r.buffer ≡ none)
      × (closed z r.effects < held z p.attributes.fd)
      × (closed z (params_handle_resource_destroy (some p)) < held z p.attributes.fd)
unfolding params_create_common create_from check_request params_handle_resource_destroy after_checks
params_create_common-loses env p buffer_id width height format flags i v h le lt =
    let sized = record p.attributes { width = width; height = height; format = format } in
    let lost = finish-skips p.attributes i h le lt in
    let z = p.attributes.fd i in
    rw (check_planes-gap p i v h le lt, after_checks)
      (
        unfold end_out in refl,
        omega (
          arith,
          closed-end_out z sized (post_error incomplete ∷ []),
          finish-skips sized i h le lt,
        ),
        lost,
      )
