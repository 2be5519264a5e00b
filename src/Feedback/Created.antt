-- ===== src/Feedback/Created.antt =====
-- The global that wlr_linux_dmabuf_v1_create_with_renderer of wlr_linux_dmabuf_v1.c returns, from its
-- creation to linux_dmabuf_v1_destroy.
use mathlib.Core.List.{append-nil}
use westfield.Drm.FormatSet.{DrmFormatSet, empty_set, drm_format_set_has}
use westfield.Drm.Intersection.{Checked, returned, aborted}
use westfield.Drm.Shape.{IsValid}
use westfield.Feedback.Announce.{feedback_send}
use westfield.Feedback.Client.{read_events, fresh_client, Compiles-read, all_seen}
use westfield.Feedback.Compile.{
  Tranche, Feedback, CompiledFeedback, feedback_compile, compiled_feedback_destroy,
}
use westfield.Feedback.Compiled.{feedback_compile-closes}
use westfield.Feedback.Decode.{Checked-cases}
use westfield.Feedback.Default.{
  Manager, Devices, DrmDevice, node_name, merge_tranches, use_feedback, open_device,
  set_default_feedback, fresh_manager, wlr_linux_dmabuf_v1_create,
  feedback_tranche_init_with_renderer, renderer_feedback, wlr_linux_dmabuf_v1_create_with_renderer,
  linux_dmabuf_v1_destroy, destroy_surfaces,
}
use westfield.Feedback.Managed.{set_default_feedback-DefaultSet}
use westfield.Feedback.Merged.{pair_in}
use westfield.Feedback.Table.{table_entries, table_length}
use westfield.Prelude.{
  ℕ, ◌^◌, ◌≤◌, ◌≡◌, refl, ◌∙◌, ◌⊎◌, inl, inr, ℤ, is_nonneg, Bool, true, false, Option, none, some,
  List, [], ◌∷◌, ◌++◌, alloc, Bool-cases, Option-cases, arith,
}

ok-cases : (x : Checked Bool) → (x ≡ aborted) ⊎ ((x ≡ returned true) ⊎ (x ≡ returned false))
ok-cases aborted = inl refl
ok-cases (returned true) = inr (inl refl)
ok-cases (returned false) = inr (inr refl)

node_name-cases : (x : Checked (List ℕ)) → (x ≡ aborted) ⊎ ((a : List ℕ) × (x ≡ returned a))
node_name-cases aborted = inl refl
node_name-cases (returned a) = inr (a, refl)

-- A manager that is returned is the one that set_default_feedback left.
create-manager :
    (devices : Devices) (global : Bool) (f : Feedback) (fate : List Bool) (m : Manager)
    → (wlr_linux_dmabuf_v1_create devices global f fate).manager ≡ returned (some m)
    → let r = set_default_feedback devices fresh_manager f (alloc fate).1 in
      (r.ok ≡ returned true)
      × (r.manager ≡ m)
      × ((wlr_linux_dmabuf_v1_create devices global f fate).closes ≡ r.closes)
unfolding wlr_linux_dmabuf_v1_create
create-manager devices global f fate m h =
    let r = set_default_feedback devices fresh_manager f (alloc fate).1 in
    elim (ok-cases r.ok) [
      | inl e ↦ absurd (ground arith)
      | inr (inl e) ↦ (e, ground arith, ground arith)
      | inr (inr e) ↦ absurd (ground arith)
    ]

-- What a client of the manager gets to read.
pub record Serves (device : ℕ) (formats : DrmFormatSet) (m : Manager) : Type 0 where
  pub feedback : CompiledFeedback
  pub is_default : m.default_feedback ≡ some feedback
  pub main : (read_events feedback.table fresh_client (feedback_send feedback)).main_device ≡ device
  pub tranches :
      (read_events feedback.table fresh_client (feedback_send feedback)).tranches
      ≡ (device, 0, table_entries formats.formats) ∷ []
  pub announced :
      (g k : ℕ)
      → drm_format_set_has m.default_formats g k ≡ pair_in (table_entries formats.formats) g k
  pub valid : IsValid m.default_formats

create-Serves :
    (devices : Devices) (global : Bool) (t : Tranche) (fate : List Bool) (m : Manager)
    → t.flags ≡ 0
    → table_length t.formats.formats ≤ 2 ^ 16
    → (wlr_linux_dmabuf_v1_create devices global (renderer_feedback t) fate).manager
      ≡ returned (some m)
    → Serves t.target_device t.formats m
create-Serves devices global t fate m flags small h =
    let f = renderer_feedback t in
    let (ok, same, _) = create-manager devices global f fate m h in
    let (c, default) =
      (set_default_feedback-DefaultSet devices fresh_manager f (alloc fate).1 small).set ok in
    let read = Compiles-read f c default.means in
    rw (← same) (record {
      feedback = c;
      is_default = default.feedback;
      main = read.0;
      tranches = read.1 ∙ unfold all_seen in rw flags refl;
      announced = default.formats;
      valid = default.valid;
    })

pub wlr_linux_dmabuf_v1_create_with_renderer-Serves :
    (devices : Devices) (global : Bool) (fstat : ℤ → Option ℕ) (drm_fd : ℤ) (formats : DrmFormatSet)
    (fate : List Bool) (m : Manager)
    → table_length formats.formats ≤ 2 ^ 16
    → (wlr_linux_dmabuf_v1_create_with_renderer devices global fstat drm_fd formats fate).manager
      ≡ returned (some m)
    → (device : ℕ) × (fstat drm_fd ≡ some device) × Serves device formats m
unfolding wlr_linux_dmabuf_v1_create_with_renderer feedback_tranche_init_with_renderer
wlr_linux_dmabuf_v1_create_with_renderer-Serves devices global fstat drm_fd formats fate m small h =
    elim (Bool-cases (is_nonneg drm_fd)) [
      | inr n ↦ absurd (ground arith)
      | inl n ↦ elim (Option-cases (fstat drm_fd)) [
        | inl e ↦ absurd (ground arith)
        | inr (device, e) ↦
            let t : Tranche = record { target_device = device; flags = 0; formats = formats } in
            (device, e, create-Serves devices global t fate m refl small (ground arith))
      ]
    ]

-- The descriptors that set_default_feedback closes for a fresh manager, once those of the table are
-- open.
use_feedback-closes :
    (f : Feedback) (c : CompiledFeedback) (fd : ℤ) (closed : List ℤ) (fate : List Bool)
    → let r = use_feedback fresh_manager f c fd closed fate in
      (r.ok ≡ returned true
        → (r.closes ≡ closed)
          × (r.manager.main_device_fd ≡ fd)
          × (r.manager.default_feedback ≡ some c))
      × (r.ok ≡ returned false → r.closes ≡ closed ++ c.table_fd ∷ [])
unfolding use_feedback compiled_feedback_destroy
use_feedback-closes f c fd closed fate =
    let merged = (merge_tranches (f.preferred ++ f.fallback ∷ []) empty_set fate).0 in
    elim (Bool-cases merged.0) [
      | inl e ↦
          rw (e, use_feedback)
            (λ h. (ground (arith, append-nil closed), refl, refl), λ h. absurd (ground arith))
      | inr e ↦ rw (e, use_feedback) (λ h. absurd (ground arith), λ h. refl)
    ]

-- The device that the kernel and libdrm give for an id, and the descriptor of its node.
pub record Opens (devices : Devices) (id : ℕ) (fd : ℤ) : Type 0 where
  pub device : DrmDevice
  pub name : List ℕ
  pub found : devices.device_from_dev_id id ≡ some device
  pub node : node_name device ≡ returned name
  pub opened : fd ≡ devices.open_node name

-- A manager that keeps the compiled feedback and the descriptor of the device.
pub record Keeps (devices : Devices) (id : ℕ) (c : CompiledFeedback) (m : Manager) : Type 0 where
  pub feedback : m.default_feedback ≡ some c
  pub main : Opens devices id m.main_device_fd

open_device-closes :
    (devices : Devices) (f : Feedback) (c : CompiledFeedback) (closed : List ℤ) (fate : List Bool)
    → let r = open_device devices fresh_manager f c closed fate in
      (r.ok ≡ returned true → (r.closes ≡ closed) × Keeps devices f.main_device c r.manager)
      × (r.ok ≡ returned false → r.closes ≡ closed ++ c.table_fd ∷ [])
unfolding open_device compiled_feedback_destroy
open_device-closes devices f c closed fate =
    elim (Option-cases (devices.device_from_dev_id f.main_device)) [
      | inl e ↦ rw (e, open_device) (λ h. absurd (ground arith), λ h. refl)
      | inr (device, e) ↦ elim (node_name-cases (node_name device)) [
        | inl d ↦ rw (e, d, open_device) (λ h. absurd (ground arith), λ h. absurd (ground arith))
        | inr (name, d) ↦ elim (Bool-cases (is_nonneg (devices.open_node name))) [
          | inr o ↦ rw (e, d, o, open_device) (λ h. absurd (ground arith), λ h. refl)
          | inl o ↦
              let used = use_feedback-closes f c (devices.open_node name) closed fate in
              let opens : Opens devices f.main_device (devices.open_node name) = record {
                device = device;
                name = name;
                found = e;
                node = d;
                opened = refl;
              } in
              let run : open_device devices fresh_manager f c closed fate
                  ≡ use_feedback fresh_manager f c (devices.open_node name) closed fate =
                rw (e, d, o, open_device) refl in
              rw run (
                λ h.
                    let (cl, fd, df) = used.0 h in
                    (cl, record { feedback = df; main = rw fd opens }),
                used.1,
              )
        ]
      ]
    ]

set_default_feedback-closes :
    (devices : Devices) (f : Feedback) (fate : List Bool) (rw_fd ro_fd : ℤ)
    → devices.file.pair ≡ some (rw_fd, ro_fd)
    → let r = set_default_feedback devices fresh_manager f fate in
      (r.ok ≡ returned true
        → (c : CompiledFeedback) × (r.closes ≡ rw_fd ∷ [])
          × (c.table_fd ≡ ro_fd)
          × Keeps devices f.main_device c r.manager)
      × (r.ok ≡ returned false → r.closes ≡ rw_fd ∷ ro_fd ∷ [])
unfolding set_default_feedback
set_default_feedback-closes devices f fate rw_fd ro_fd pair =
    let r = feedback_compile devices.file f fate in
    let (failed, made) = feedback_compile-closes devices.file f fate rw_fd ro_fd pair in
    elim (Checked-cases r.compiled) [
      | inl e ↦
          rw (e, set_default_feedback) (λ h. absurd (ground arith), λ h. absurd (ground arith))
      | inr (inl e) ↦ rw (e, set_default_feedback) (λ h. absurd (ground arith), λ h. failed e)
      | inr (inr (c, e)) ↦
          let (one, table_fd) = made c e in
          let next = open_device-closes devices f c r.closes r.fate in
          rw (e, set_default_feedback)
            (
              λ h. (c, (next.0 h).0 ∙ one, table_fd, (next.0 h).1),
              λ h. next.1 h ∙ rw (one, table_fd) refl,
            )
    ]

-- The descriptors of a global, once those of its table are open and the global exists. If it is
-- returned, the writable one is closed by then, and linux_dmabuf_v1_destroy closes the other and
-- that of the device that was opened: each is closed exactly once. If the creation fails, the two of
-- the table are closed, and no other: that of the device is not, even where it had been opened.
pub wlr_linux_dmabuf_v1_create-closes :
    (devices : Devices) (f : Feedback) (fate : List Bool) (rw_fd ro_fd : ℤ)
    → devices.file.pair ≡ some (rw_fd, ro_fd)
    → let r = wlr_linux_dmabuf_v1_create devices true f (true ∷ fate) in
      ((m : Manager)
        → r.manager ≡ returned (some m)
        → (r.closes ++ linux_dmabuf_v1_destroy [] m ≡ rw_fd ∷ ro_fd ∷ m.main_device_fd ∷ [])
          × Opens devices f.main_device m.main_device_fd)
      × (r.manager ≡ returned none → (r.closes ≡ rw_fd ∷ ro_fd ∷ []) × (r.globals_destroyed ≡ 1))
unfolding wlr_linux_dmabuf_v1_create linux_dmabuf_v1_destroy destroy_surfaces
    compiled_feedback_destroy
wlr_linux_dmabuf_v1_create-closes devices f fate rw_fd ro_fd pair =
    let r = set_default_feedback devices fresh_manager f fate in
    let (made, failed) = set_default_feedback-closes devices f fate rw_fd ro_fd pair in
    elim (ok-cases r.ok) [
      | inl e ↦ (λ m h. absurd (ground arith), λ h. absurd (ground arith))
      | inr (inl e) ↦
          let (c, closes, table_fd, keeps) = made e in
          (
            λ m h.
                let same : r.manager ≡ m = ground arith in
                rw (← same) (rw (e, closes, keeps.feedback, table_fd) refl, keeps.main),
            λ h. absurd (ground arith),
          )
      | inr (inr e) ↦ (λ m h. absurd (ground arith), λ h. (ground (arith, failed e), ground arith))
    ]
