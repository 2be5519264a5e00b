-- ===== src/Tests/Default.antt =====
-- The global of a renderer with one format, on a machine with a render node.
use westfield.Drm.FormatSet.{DrmFormatSet}
use westfield.Drm.Intersection.{returned}
use westfield.Feedback.Compile.{Feedback}
use westfield.Feedback.Created.{Opens, wlr_linux_dmabuf_v1_create-closes}
use westfield.Feedback.Default.{
  Manager, Devices, DrmDevice, node_name, set_default_feedback, fresh_manager, renderer_feedback,
  wlr_linux_dmabuf_v1_create, wlr_linux_dmabuf_v1_create_with_renderer, linux_dmabuf_v1_destroy,
}
use westfield.Feedback.Managed.{DefaultSet, set_default_feedback-DefaultSet}
use westfield.Feedback.Table.{table_length}
use westfield.Feedback.Working.{Works, wlr_linux_dmabuf_v1_create_with_renderer_succeeds}
use westfield.Prelude.{
  ℕ, ◌≡◌, ◌≤◌, ◌^◌, ◌++◌, refl, ℤ, pos, true, false, Option, none, some, [], ◌∷◌, arith,
}

abbrev pub card : DrmDevice
card = record { available_nodes = 5; nodes = λ n. n ∷ [] }

abbrev pub one_card : Devices
one_card = record {
  file = record { pair = some (pos 8, pos 9); mapped = true };
  device_from_dev_id = λ id. some card;
  open_node = λ name. pos 10;
}

abbrev one_format : DrmFormatSet
one_format = record {
  capacity = 4;
  formats = record { format = 1; capacity = 4; modifiers = 5 ∷ 6 ∷ [] } ∷ [];
}

abbrev pub device_of : ℤ → Option ℕ
device_of fd = some 226

abbrev one_tranche : Feedback
one_tranche = renderer_feedback (record { target_device = 226; flags = 0; formats = one_format })

one_format_small : table_length one_format.formats ≤ 2 ^ 16
unfolding table_length
one_format_small = omega arith

one_card-Works : Works one_card 226
unfolding node_name
one_card-Works = record {
  rw_fd = pos 8;
  ro_fd = pos 9;
  pair = refl;
  mapped = refl;
  device = card;
  found = refl;
  name = 2 ∷ [];
  node = refl;
  opened = refl;
}

set_default_feedback-DefaultSet_example :
    DefaultSet one_tranche fresh_manager
      (set_default_feedback one_card fresh_manager one_tranche [])
set_default_feedback-DefaultSet_example =
    set_default_feedback-DefaultSet one_card fresh_manager one_tranche [] one_format_small

succeeds_example :
    (m : Manager) × ((wlr_linux_dmabuf_v1_create_with_renderer one_card true device_of
        (pos 3)
        one_format
        []).manager
      ≡ returned (some m))
unfolding table_length
succeeds_example =
    wlr_linux_dmabuf_v1_create_with_renderer_succeeds one_card device_of (pos 3) one_format 226 refl
      refl (omega arith) one_card-Works

-- The second allocation of the merge fails, so the device was opened.
wlr_linux_dmabuf_v1_create-closes_example :
    let fate = true ∷ true ∷ true ∷ false ∷ [] in
    let r = wlr_linux_dmabuf_v1_create one_card true one_tranche (true ∷ fate) in
    ((m : Manager)
      → r.manager ≡ returned (some m)
      → (r.closes ++ linux_dmabuf_v1_destroy [] m ≡ pos 8 ∷ pos 9 ∷ m.main_device_fd ∷ [])
        × Opens one_card 226 m.main_device_fd)
    × (r.manager ≡ returned none → (r.closes ≡ pos 8 ∷ pos 9 ∷ []) × (r.globals_destroyed ≡ 1))
wlr_linux_dmabuf_v1_create-closes_example =
    wlr_linux_dmabuf_v1_create-closes one_card one_tranche (true ∷ true ∷ true ∷ false ∷ []) (pos 8)
      (pos 9) refl
