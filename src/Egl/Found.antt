-- ===== src/Egl/Found.antt =====
-- The device that get_egl_device_from_drm_fd of westfield-egl.c finds.
use westfield.Drm.Intersection.{returned}
use westfield.Egl.Device.{
  has_name_from, device_has_name, DeviceAnswers, egl_device_name, match_device, match_fd,
  get_egl_device_from_drm_fd,
}
use westfield.Egl.Extensions.{eq_string, eq_string-eq, eq_string_refl}
use westfield.Feedback.Default.{DrmDevice, has_node}
use westfield.Prelude.{
  ℕ, zero, suc, ◌+◌, ◌≤◌, ◌<◌, ◌≡◌, ◌≢◌, refl, ap, ◌⊎◌, inl, inr, ℤ, Bool, true, false, ◌&&◌, none,
  some, List, [], ◌∷◌, alloc, elem, ◌==◌, Bool-cases, Option-cases, arith,
}

-- A device has a node of kind `kind` with this name.
pub record Offers (device : DrmDevice) (name : List ℕ) : Type 0 where
  pub kind : ℕ
  pub in_range : kind < 3
  pub there : has_node device kind ≡ true
  pub named : device.nodes kind ≡ name

has_name_from-Offers :
    (device : DrmDevice) (name : List ℕ) (n i : ℕ)
    → i + n ≡ 3
    → has_name_from device name n i ≡ true
    → Offers device name
unfolding has_name_from
has_name_from-Offers device name zero i e h = absurd (ground arith)
has_name_from-Offers device name (suc n) i e h =
    elim (Bool-cases (has_node device i && eq_string (device.nodes i) name)) [
      | inl here ↦ record {
        kind = i;
        in_range = omega arith;
        there = ground arith;
        named = eq_string-eq (device.nodes i) name (ground arith);
      }
      | inr away ↦ has_name_from-Offers device name n (i + 1) (omega arith) (ground arith)
    ]

-- Where the loop finds no name, no kind of node that it visits has it.
has_name_from-misses :
    (device : DrmDevice) (name : List ℕ) (n i kind : ℕ)
    → has_name_from device name n i ≡ false
    → i ≤ kind
    → kind < i + n
    → has_node device kind ≡ true
    → device.nodes kind ≢ name
unfolding has_name_from
has_name_from-misses device name zero i kind h lo hi there = absurd (omega arith)
has_name_from-misses device name (suc n) i kind h lo hi there = elim (Bool-cases (i == kind)) [
  | inl e ↦ λ named.
      let same : i ≡ kind = ground arith in
      let equal : eq_string (device.nodes i) name ≡ true = rw (same, named) (eq_string_refl name) in
      absurd (ground (arith, ap (has_node device) same))
  | inr e ↦
      let more : has_name_from device name n (i + 1) ≡ false =
        elim (Bool-cases (has_node device i)) [
          | inr a ↦ ground arith
          | inl a ↦ elim (Bool-cases (eq_string (device.nodes i) name)) [
            | inr b ↦ ground arith
            | inl b ↦ absurd (ground arith)
          ]
        ] in
      has_name_from-misses device name n (i + 1) kind more (ground arith) (omega arith) there
]

device_has_name-misses :
    (device : DrmDevice) (name : List ℕ)
    → device_has_name device name ≡ false
    → ¬ Offers device name
unfolding device_has_name
device_has_name-misses device name h o =
    has_name_from-misses device name 3 0 o.kind h (omega arith) (omega (arith, o.in_range)) o.there
      o.named

-- The device of EGL that a search found.
pub record Matches (answers : DeviceAnswers) (drm_fd : ℤ) (d : ℕ) : Type 0 where
  pub device : DrmDevice
  pub of_fd : answers.device_of_fd drm_fd ≡ some device
  pub listed : List ℕ
  pub all : answers.devices ≡ some listed
  pub among : elem d listed ≡ true
  pub name : List ℕ
  pub reported : answers.render_node_file d ≡ some name
  pub offered : Offers device name

List-cases : (xs : List ℕ) → (xs ≡ []) ⊎ ((y : ℕ) × (ys : List ℕ) × (xs ≡ y ∷ ys))
List-cases [] = inl refl
List-cases (x ∷ xs) = inr (x, xs, refl)

-- The loop, where the driver reports render nodes.
module _ (answers : DeviceAnswers) (knows : answers.knows_render_nodes ≡ true) where
  match_device-found :
      (device : DrmDevice) (ds : List ℕ) (fate : List Bool) (d : ℕ)
      → (match_device answers device ds fate).0 ≡ returned (some d)
      → (elem d ds ≡ true)
        × ((name : List ℕ) × (answers.render_node_file d ≡ some name)
            × (device_has_name device name ≡ true))
  unfolding match_device egl_device_name elem
  match_device-found device [] fate d h = absurd (ground arith)
  match_device-found device (x ∷ xs) fate d h = elim (Option-cases (answers.render_node_file x)) [
    | inl e ↦
        let rest = match_device-found device xs fate d (ground arith) in
        (ground (arith, rest.0), rest.1)
    | inr (name, e) ↦ elim (Bool-cases (device_has_name device name)) [
      | inl here ↦ let same : d ≡ x = ground arith in rw same (ground arith, (name, e, here))
      | inr away ↦
          let rest = match_device-found device xs fate d (ground arith) in
          (ground (arith, rest.0), rest.1)
    ]
  ]

  match_device-missed :
      (device : DrmDevice) (ds : List ℕ) (fate : List Bool) (d : ℕ) (name : List ℕ)
      → (match_device answers device ds fate).0 ≡ returned none
      → elem d ds ≡ true
      → answers.render_node_file d ≡ some name
      → device_has_name device name ≡ false
  unfolding match_device egl_device_name elem
  match_device-missed device [] fate d name h m e = absurd (ground arith)
  match_device-missed device (x ∷ xs) fate d name h m e = elim (Bool-cases (x == d)) [
    | inl q ↦
        let same : x ≡ d = ground arith in
        let reported : answers.render_node_file x ≡ some name = rw same e in
        elim (Bool-cases (device_has_name device name)) [
          | inl here ↦ absurd (ground arith)
          | inr away ↦ away
        ]
    | inr q ↦
        let more : (match_device answers device xs fate).0 ≡ returned none =
          elim (Option-cases (answers.render_node_file x)) [
            | inl n ↦ ground arith
            | inr (other, n) ↦ elim (Bool-cases (device_has_name device other)) [
              | inl here ↦ absurd (ground arith)
              | inr away ↦ ground arith
            ]
          ] in
        match_device-missed device xs fate d name more (ground arith) e
  ]

  match_fd-Matches :
      (query_string : Bool) (drm_fd : ℤ) (ds : List ℕ) (fate : List Bool) (d : ℕ)
      → answers.devices ≡ some ds
      → (match_fd answers query_string drm_fd ds fate).device ≡ returned (some d)
      → Matches answers drm_fd d
  unfolding match_fd device_has_name
  match_fd-Matches query_string drm_fd ds fate d listed h =
      elim (Option-cases (answers.device_of_fd drm_fd)) [
        | inl e ↦ absurd (ground arith)
        | inr (device, e) ↦
            let searched : (match_device answers device ds fate).0 ≡ returned (some d) =
              elim (List-cases ds) [
                | inl n ↦ absurd (ground arith)
                | inr (x, xs, n) ↦ ground arith
              ] in
            let (among, (name, reported, here)) = match_device-found device ds fate d searched in
            record {
              device = device;
              of_fd = e;
              listed = ds;
              all = listed;
              among = among;
              name = name;
              reported = reported;
              offered = has_name_from-Offers device name 3 0 (omega arith) here;
            }
      ]

  match_fd-misses :
      (query_string : Bool) (drm_fd : ℤ) (ds : List ℕ) (fate : List Bool) (device : DrmDevice)
      (d : ℕ) (name : List ℕ)
      → answers.device_of_fd drm_fd ≡ some device
      → (match_fd answers query_string drm_fd ds fate).device ≡ returned none
      → elem d ds ≡ true
      → answers.render_node_file d ≡ some name
      → ¬ Offers device name
  unfolding match_fd elem
  match_fd-misses query_string drm_fd ds fate device d name f h m q =
      let searched : (match_device answers device ds fate).0 ≡ returned none =
        elim (List-cases ds) [ inl n ↦ absurd (ground arith) | inr (x, xs, n) ↦ ground arith ] in
      device_has_name-misses device name (match_device-missed device ds fate d name searched m q)

  -- Where the driver reports render nodes, get_egl_device_from_drm_fd returns only a device that the
  -- driver lists and whose render node is one of the nodes of the device behind the descriptor, and
  -- if every call works and it returns none, no device that the driver lists has such a node.
  pub get_egl_device_from_drm_fd-Matches :
      (query_devices query_string : Bool) (drm_fd : ℤ) (fate : List Bool)
      → let r = get_egl_device_from_drm_fd answers query_devices query_string drm_fd fate in
        ((d : ℕ) → r.device ≡ returned (some d) → Matches answers drm_fd d)
        × ((ds : List ℕ) (device : DrmDevice) (d : ℕ) (name : List ℕ)
            → query_devices ≡ true
            → answers.devices_counted ≡ true
            → (alloc fate).0 ≡ true
            → answers.devices ≡ some ds
            → answers.device_of_fd drm_fd ≡ some device
            → r.device ≡ returned none
            → elem d ds ≡ true
            → answers.render_node_file d ≡ some name
            → ¬ Offers device name)
  unfolding get_egl_device_from_drm_fd match_fd
  get_egl_device_from_drm_fd-Matches query_devices query_string drm_fd fate =
      let rest = (alloc fate).1 in
      (
        λ d h. elim (Option-cases answers.devices) [
          | inl e ↦ absurd (ground arith)
          | inr (ds, e) ↦ match_fd-Matches query_string drm_fd ds rest d e (ground arith)
        ],
        λ ds device d name a b c e f h m q.
            match_fd-misses query_string drm_fd ds rest device d name f (ground arith) m q,
      )
