-- ===== src/Tests/Surfaces.antt =====
-- Two requests for the feedback of one surface, and the end of it.
use westfield.Buffer.Addon.{addon_finish}
use westfield.Feedback.Compile.{CompiledFeedback, compiled_feedback_destroy}
use westfield.Feedback.Requests.{SurfaceRequest, serve}
use westfield.Feedback.Surfaces.{FeedbackResult, fresh_surface, surface_destroy, remove_surface}
use westfield.Prelude.{ℕ, ◌+◌, ◌≡◌, refl, pos, Bool, true, none, List, [], ◌∷◌}

abbrev default_feedback : CompiledFeedback
default_feedback = record {
  main_device = 1;
  table_fd = pos 7;
  table = [];
  table_size = 0;
  tranches = [];
}

-- A request where calloc would give the addon at `address`, with these allocations.
abbrev request : ℕ → List Bool → SurfaceRequest
request address fate = record {
  address = address;
  resource = address + 1;
  created = true;
  default_feedback = default_feedback;
  fate = fate;
}

-- The first request, of the manager at 5 with the interface at 1, makes the set of addons.
abbrev first : FeedbackResult
first = serve 5 1 (request 200 []) none []

leaves_no_surface :
    surface_destroy
      (fresh_surface 200)
      ((record { address = 200; impl = 1; owner = 5 }) ∷ [])
      (fresh_surface 200 ∷ [])
    ≡ ([], [], [])
unfolding surface_destroy remove_surface addon_finish compiled_feedback_destroy
leaves_no_surface = refl
