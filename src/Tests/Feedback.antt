-- ===== src/Tests/Feedback.antt =====
-- The feedback of a compositor with two tranches.
use westfield.Drm.Format.{DrmFormat}
use westfield.Drm.FormatSet.{DrmFormatSet}
use westfield.Feedback.Announce.{linux_dmabuf_bind}
use westfield.Feedback.Announced.{
  learned, plain_formats, all_offered, implicit_formats, linux_dmabuf_bind-learned,
}
use westfield.Feedback.Compile.{Feedback, CompiledFeedback, TableFile}
use westfield.Prelude.{ℕ, ◌≡◌, ◌≤◌, ◌<◌, pos, true, some, [], ◌∷◌, arith}

abbrev preferred_format : DrmFormat
preferred_format = record { format = 2; capacity = 4; modifiers = 8 ∷ [] }

abbrev fallback_formats : DrmFormatSet
fallback_formats = record {
  capacity = 4;
  formats =
      record { format = 1; capacity = 4; modifiers = 5 ∷ 6 ∷ [] }
      ∷ record { format = 2; capacity = 4; modifiers = 7 ∷ 8 ∷ [] }
      ∷ [];
}

abbrev two_tranches : Feedback
two_tranches = record {
  main_device = 226;
  preferred =
      record {
        target_device = 227;
        flags = 1;
        formats = record { capacity = 4; formats = preferred_format ∷ [] };
      }
      ∷ [];
  fallback = record { target_device = 226; flags = 0; formats = fallback_formats };
}

abbrev table_file : TableFile
table_file = record { pair = some (pos 8, pos 9); mapped = true }

abbrev two_tranches_compiled : CompiledFeedback
two_tranches_compiled = record {
  main_device = 226;
  table_fd = pos 9;
  table = (1, 5) ∷ (1, 6) ∷ (2, 7) ∷ (2, 8) ∷ [];
  table_size = 64;
  tranches =
      record { target_device = 227; flags = 1; indices = 3 ∷ [] }
      ∷ record { target_device = 226; flags = 0; indices = 0 ∷ 1 ∷ 2 ∷ 3 ∷ [] }
      ∷ [];
}

linux_dmabuf_bind-learned_example :
    let version : ℕ = 3 in
    let es = linux_dmabuf_bind 7 0 true fallback_formats version in
    (version < 3
      → (learned es ≡ []) × (plain_formats es ≡ implicit_formats 7 0 fallback_formats.formats))
    × (version ≡ 3
        → (learned es ≡ all_offered 7 0 fallback_formats.formats) × (plain_formats es ≡ []))
    × (4 ≤ version → es ≡ [])
linux_dmabuf_bind-learned_example =
    linux_dmabuf_bind-learned 7 0 (omega arith) (λ e. absurd (omega arith)) 3 fallback_formats
      (ground arith)
