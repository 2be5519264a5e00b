-- ===== src/Tests/WlDrm.antt =====
-- A client that shares one plane over wl_drm, and the formats that it is told.
use westfield.Drm.FormatSet.{DrmFormatSet, lookup_format}
use westfield.Drm.Shape.{IsValid}
use westfield.Feedback.Default.{DrmDevice}
use westfield.Prelude.{refl, pos, true, elem, [], ◌∷◌, arith}
use westfield.WlDrm.Buffers.{create_prime_buffer, drm_impl}
use westfield.WlDrm.Global.{WlDrm}
use westfield.WlDrm.Primed.{Primed, drm_impl-Primed}

drm_impl-Primed_example :
    Primed
      (pos 9)
      (drm_impl 7 true (create_prime_buffer (pos 9) (pos 64) (pos 32) 1 (pos 0) (pos 256)) []).0
drm_impl-Primed_example = drm_impl-Primed 7 true (pos 9) (pos 64) (pos 32) 1 (pos 0) (pos 256) []

-- Only the second format has the implicit modifier, 7.
abbrev two_formats : DrmFormatSet
two_formats = record {
  capacity = 4;
  formats =
      record { format = 1; capacity = 4; modifiers = 5 ∷ [] }
      ∷ record { format = 2; capacity = 4; modifiers = 7 ∷ 8 ∷ [] }
      ∷ [];
}

two_formats-IsValid : IsValid two_formats
unfolding lookup_format elem
two_formats-IsValid = record {
  room = omega arith;
  fits = (
    record { room = omega arith; distinct = (refl, tt) },
    (record { room = omega arith; distinct = (refl, (refl, tt)) }, tt),
  );
  codes = (refl, (refl, tt));
}

abbrev no_render_node : DrmDevice
no_render_node = record { available_nodes = 1; nodes = λ n. n ∷ [] }

abbrev drm : WlDrm
drm = record { node_name = 0 ∷ []; formats = two_formats }
