-- ===== src/Dmabuf/Ownership.antt =====
-- Who closes a descriptor that a client sent (wlr_linux_dmabuf_v1.c): each is counted among those
-- that the planes hold and those that a handler closed.
use westfield.Prelude.{
  ℕ, zero, suc, ◌+◌, ◌<◌, ◌≤◌, ◌≡◌, ◌≢◌, refl, inl, inr, ℤ, is_minus_one, is_nonneg, eq_ℤ, Bool,
  true, false, not, ◌&&◌, Option, some, List, [], ◌∷◌, ◌++◌, leb, ◌==◌, arith, Bool-cases,
}
use westfield.Dmabuf.Attributes.{Array, max_planes}
use westfield.Dmabuf.Params.{
  BufferParams, Effect, post_error, close, ParamsError, add_plane, params_add, join_modifier,
  plane_idx, plane_set, invalid_format,
}
use westfield.Dmabuf.Planes.{IsValid, add_plane-IsValid}

abbrev pub bit : Bool → ℕ
bit true = 1
bit false = 0

-- How many planes hold the descriptor `z`.
abbrev pub held : ℤ → Array ℤ → ℕ
held z fd = bit (eq_ℤ z (fd 0)) + bit (eq_ℤ z (fd 1)) + bit (eq_ℤ z (fd 2)) + bit (eq_ℤ z (fd 3))

-- How often the descriptor `z` is closed.
abbrev pub closes : ℤ → Effect → ℕ
closes z (close fd) = bit (eq_ℤ z fd)
closes z _ = 0

abbrev pub closed : ℤ → List Effect → ℕ
closed z [] = 0
closed z (e ∷ es) = closes z e + closed z es

pub closed-append : (z : ℤ) (es fs : List Effect) → closed z (es ++ fs) ≡ closed z es + closed z fs
closed-append z [] fs = omega arith
closed-append z (e ∷ es) fs = omega (arith, closed-append z es fs)

-- The errors of params_add, and when a plane request meets each.
pub data Refuses (p : BufferParams) (plane modifier : ℕ) : ParamsError → Type 0 where
  bad_index : max_planes ≤ plane → Refuses p plane modifier plane_idx
  taken :
      plane < max_planes
      → is_minus_one (p.attributes.fd plane) ≡ false
      → Refuses p plane modifier plane_set
  other_modifier :
      plane < max_planes
      → is_minus_one (p.attributes.fd plane) ≡ true
      → p.has_modifier ≡ true
      → modifier ≢ p.attributes.modifier
      → Refuses p plane modifier invalid_format

-- A plane request: it posts one error, closes its descriptor and changes nothing, or it stores what
-- it was given in a plane that was free and changes no other plane.
pub data Adds (p : BufferParams) (fd : ℤ) (plane offset stride modifier : ℕ)
    (r : BufferParams × List Effect) : Type 0 where
  refused :
      (e : ParamsError)
      → Refuses p plane modifier e
      → r ≡ (p, post_error e ∷ close fd ∷ [])
      → Adds p fd plane offset stride modifier r
  stored :
      r.1 ≡ []
      → plane < max_planes
      → is_minus_one (p.attributes.fd plane) ≡ true
      → (p.has_modifier ≡ true → modifier ≡ p.attributes.modifier)
      → r.0.has_modifier ≡ true
      → r.0.attributes.n_planes ≡ p.attributes.n_planes + 1
      → r.0.attributes.fd plane ≡ fd
      → r.0.attributes.offset plane ≡ offset
      → r.0.attributes.stride plane ≡ stride
      → r.0.attributes.modifier ≡ modifier
      → ((j : ℕ)
          → (plane == j) ≡ false
          → (r.0.attributes.fd j ≡ p.attributes.fd j)
            × (r.0.attributes.offset j ≡ p.attributes.offset j)
            × (r.0.attributes.stride j ≡ p.attributes.stride j))
      → Adds p fd plane offset stride modifier r

-- params_add on an object that is not inert stores the descriptor, the offset, the stride and the
-- modifier in a plane below four that had none, counts it, and leaves the other planes, if the
-- modifier is that of the planes set before. Else it changes nothing, closes the descriptor and
-- posts plane_idx, plane_set or invalid_format, for the first of the three that fails.
pub add_plane-Adds :
    (p : BufferParams) (fd : ℤ) (plane offset stride modifier : ℕ)
    → Adds p fd plane offset stride modifier (add_plane p fd plane offset stride modifier)
unfolding add_plane
add_plane-Adds p fd plane offset stride modifier = elim (Bool-cases (leb max_planes plane)) [
  | inl e ↦ refused plane_idx (bad_index (ground arith)) (ground arith)
  | inr e ↦ elim (Bool-cases (is_minus_one (p.attributes.fd plane))) [
    | inr u ↦ refused plane_set (taken (ground arith) u) (ground arith)
    | inl u ↦ elim (Bool-cases (p.has_modifier && not (modifier == p.attributes.modifier))) [
      | inl m ↦
          refused invalid_format
            (other_modifier (ground arith) u (ground arith) (λ same. ground arith)) (ground arith)
      | inr m ↦
          stored (ground arith) (ground arith) u (λ h. ground arith) (ground arith) (ground arith)
            (ground arith) (ground arith) (ground arith) (ground arith)
            (λ j h. (ground arith, ground arith, ground arith))
    ]
  ]
]

-- Adding a plane keeps the count of each descriptor: it is held or it is closed.
pub add_plane-counted :
    (z fd : ℤ) (p : BufferParams) (plane offset stride modifier : ℕ)
    → is_nonneg z ≡ true
    → let r = add_plane p fd plane offset stride modifier in
      closed z r.1 + held z r.0.attributes.fd ≡ held z p.attributes.fd + bit (eq_ℤ z fd)
unfolding add_plane
add_plane-counted z fd p zero offset stride modifier h = ground arith
add_plane-counted z fd p (suc zero) offset stride modifier h = ground arith
add_plane-counted z fd p (suc (suc zero)) offset stride modifier h = ground arith
add_plane-counted z fd p (suc (suc (suc zero))) offset stride modifier h = ground arith
add_plane-counted z fd p (suc (suc (suc (suc n)))) offset stride modifier h = ground arith

-- The arguments of a request add.
pub record AddRequest : Type 0 where
  pub fd : ℤ
  pub plane : ℕ
  pub offset : ℕ
  pub stride : ℕ
  pub modifier_hi : ℕ
  pub modifier_lo : ℕ

-- A series of requests on one params object.
unfoldable pub add_all : Option BufferParams → List AddRequest → Option BufferParams × List Effect
unfolding params_add
add_all p [] = (p, [])
add_all p (q ∷ qs) =
    let (p', effects) = params_add p q.fd q.plane q.offset q.stride q.modifier_hi q.modifier_lo in
    let (last, more) = add_all p' qs in (last, effects ++ more)

-- How often the requests bring the descriptor `z`.
abbrev pub brought : ℤ → List AddRequest → ℕ
brought z [] = 0
brought z (q ∷ qs) = bit (eq_ℤ z q.fd) + brought z qs

-- All requests bring a descriptor.
abbrev pub BringDescriptors : List AddRequest → Type 0
BringDescriptors [] = Unit
BringDescriptors (q ∷ qs) = (is_nonneg q.fd ≡ true) × BringDescriptors qs

-- After any series of requests on a well-formed object: the object is well formed, and each
-- descriptor that it held or that was brought is held or has been closed, as often as it came.
pub record Balanced (p : BufferParams) (qs : List AddRequest)
    (r : Option BufferParams × List Effect) : Type 0 where
  pub last : BufferParams
  pub state : r.0 ≡ some last
  pub valid : IsValid last
  pub balance :
      (z : ℤ)
      → is_nonneg z ≡ true
      → closed z r.1 + held z last.attributes.fd ≡ held z p.attributes.fd + brought z qs

-- After any series of add requests that bring descriptors, on a well-formed object, the object is well
-- formed and not inert, and each descriptor that it held or that a request brought is held or has
-- been closed, as often as it came.
pub add_all-Balanced :
    (p : BufferParams) (qs : List AddRequest)
    → IsValid p
    → BringDescriptors qs
    → Balanced p qs (add_all (some p) qs)
unfolding add_all params_add
add_all-Balanced p [] v b = record {
  last = p;
  state = refl;
  valid = v;
  balance = λ z h. omega arith;
}
add_all-Balanced p (q ∷ qs) v b =
    let modifier = join_modifier q.modifier_hi q.modifier_lo in
    let (p', effects) = add_plane p q.fd q.plane q.offset q.stride modifier in
    let rest =
      add_all-Balanced p' qs (add_plane-IsValid p q.fd q.plane q.offset q.stride modifier b.0 v)
        b.1 in
    record {
      last = rest.last;
      state = rest.state;
      valid = rest.valid;
      balance = λ z h. omega (
        arith,
        closed-append z effects (add_all (some p') qs).1,
        add_plane-counted z q.fd p q.plane q.offset q.stride modifier h,
        rest.balance z h,
      );
    }
