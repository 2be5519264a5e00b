-- ===== src/Feedback/Working.antt =====
-- wlr_linux_dmabuf_v1_create_with_renderer of wlr_linux_dmabuf_v1.c when what it calls works.
use westfield.Drm.Add.{add_succeeds}
use westfield.Drm.Format.{DrmFormat}
use westfield.Drm.FormatSet.{DrmFormatSet, empty_set, drm_format_set_add}
use westfield.Drm.Intersection.{returned}
use westfield.Feedback.Compile.{
  Tranche, CompiledFeedback, feedback_compile, finish_compile, compile_tranches,
}
use westfield.Feedback.Decode.{Checked-cases}
use westfield.Feedback.Default.{
  Manager, Devices, DrmDevice, node_name, merge_modifiers, merge_formats, merge_tranches,
  use_feedback, open_device, set_default_feedback, fresh_manager, wlr_linux_dmabuf_v1_create,
  feedback_tranche_init_with_renderer, renderer_feedback, wlr_linux_dmabuf_v1_create_with_renderer,
}
use westfield.Feedback.Table.{table_length}
use westfield.Prelude.{
  ℕ, ◌<◌, ◌≡◌, refl, ℤ, inl, inr, is_nonneg, true, Option, some, List, [], ◌∷◌, Fate, arith,
}

-- Merges with no failed allocation are not stopped.
merge_modifiers_succeeds :
    (f : ℕ) (ms : List ℕ) (s : DrmFormatSet) (fate : Fate)
    → fate ≡ []
    → ((merge_modifiers f ms s fate).0.0 ≡ true) × ((merge_modifiers f ms s fate).1 ≡ [])
unfolding merge_modifiers
merge_modifiers_succeeds f [] s fate e = (refl, e)
merge_modifiers_succeeds f (m ∷ ms) s fate e =
    let added = drm_format_set_add s f m [] in
    let one = add_succeeds s f m in
    let more = merge_modifiers_succeeds f ms added.0.1 added.1 one.1 in
    rw e (rw (one.0, merge_modifiers) more)

merge_formats_succeeds :
    (fmts : List DrmFormat) (s : DrmFormatSet) (fate : Fate)
    → fate ≡ []
    → ((merge_formats fmts s fate).0.0 ≡ true) × ((merge_formats fmts s fate).1 ≡ [])
unfolding merge_formats
merge_formats_succeeds [] s fate e = (refl, e)
merge_formats_succeeds (fmt ∷ fmts) s fate e =
    let merged = merge_modifiers fmt.format fmt.modifiers s fate in
    let one = merge_modifiers_succeeds fmt.format fmt.modifiers s fate e in
    let more = merge_formats_succeeds fmts merged.0.1 merged.1 one.1 in
    rw (one.0, merge_formats) more

merge_one_succeeds :
    (t : Tranche) (fate : Fate) → fate ≡ [] → (merge_tranches (t ∷ []) empty_set fate).0.0 ≡ true
unfolding merge_tranches
merge_one_succeeds t fate e =
    let one = merge_formats_succeeds t.formats.formats empty_set fate e in
    rw (one.0, merge_tranches) refl

-- What the program calls for feedback about one device, and that all of it works: the pair of
-- descriptors and the mapping, the device and its node.
pub record Works (devices : Devices) (id : ℕ) : Type 0 where
  pub rw_fd : ℤ
  pub ro_fd : ℤ
  pub pair : devices.file.pair ≡ some (rw_fd, ro_fd)
  pub mapped : devices.file.mapped ≡ true
  pub device : DrmDevice
  pub found : devices.device_from_dev_id id ≡ some device
  pub name : List ℕ
  pub node : node_name device ≡ returned name
  pub opened : is_nonneg (devices.open_node name) ≡ true

module _ (devices : Devices) (t : Tranche) (works : Works devices t.target_device) where
  compile_succeeds :
      0 < table_length t.formats.formats
      → let r = feedback_compile devices.file (renderer_feedback t) [] in
        (c : CompiledFeedback) × (r.compiled ≡ returned (some c)) × (r.fate ≡ [])
  unfolding feedback_compile finish_compile compile_tranches
  compile_succeeds h =
      let r = feedback_compile devices.file (renderer_feedback t) [] in
      let pair = works.pair in
      let mapped = works.mapped in
      let left : r.fate ≡ [] = ground arith in
      elim (Checked-cases r.compiled) [
        | inl e ↦ absurd (ground arith)
        | inr (inl e) ↦ absurd (ground arith)
        | inr (inr (c, e)) ↦ (c, e, left)
      ]

  set_succeeds :
      0 < table_length t.formats.formats
      → (set_default_feedback devices fresh_manager (renderer_feedback t) []).ok ≡ returned true
  unfolding set_default_feedback open_device use_feedback
  set_succeeds h =
      let (c, e, none_left) = compile_succeeds h in
      let r = feedback_compile devices.file (renderer_feedback t) [] in
      let merged = merge_one_succeeds t r.fate none_left in
      rw (e, set_default_feedback)
        (rw (works.found, open_device)
          (rw (works.node) (rw (works.opened) (rw (merged, use_feedback) refl))))

-- If the renderer has a descriptor whose device the kernel knows, and at least one pair, no
-- allocation fails, and everything that the creation calls works, then
-- wlr_linux_dmabuf_v1_create_with_renderer returns a global.
pub wlr_linux_dmabuf_v1_create_with_renderer_succeeds :
    (devices : Devices) (fstat : ℤ → Option ℕ) (drm_fd : ℤ) (formats : DrmFormatSet) (id : ℕ)
    → is_nonneg drm_fd ≡ true
    → fstat drm_fd ≡ some id
    → 0 < table_length formats.formats
    → Works devices id
    → (m : Manager) × ((wlr_linux_dmabuf_v1_create_with_renderer devices true fstat drm_fd formats
          []).manager
        ≡ returned (some m))
unfolding wlr_linux_dmabuf_v1_create_with_renderer feedback_tranche_init_with_renderer
    wlr_linux_dmabuf_v1_create
wlr_linux_dmabuf_v1_create_with_renderer_succeeds devices fstat drm_fd formats id fd st h works =
    let t : Tranche = record { target_device = id; flags = 0; formats = formats } in
    let r = set_default_feedback devices fresh_manager (renderer_feedback t) [] in
    let ok = set_succeeds devices t works h in
    (
      r.manager,
      rw (fd, st, wlr_linux_dmabuf_v1_create_with_renderer)
          (rw (ok, wlr_linux_dmabuf_v1_create) refl),
    )
