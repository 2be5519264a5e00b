-- ===== src/Feedback/Surfaces.antt =====
-- Feedback for one surface: surface_get_or_create, linux_dmabuf_get_surface_feedback and
-- surface_destroy of wlr_linux_dmabuf_v1.c. A surface of the manager is known by the address of its
-- addon; a resource is a number. No function sets the feedback of a surface, so it stays `none`.
use westfield.Buffer.Addon.{Addon, addon_set_init, addon_init, addon_finish, addon_find}
use westfield.Drm.Intersection.{Checked, returned, aborted}
use westfield.Feedback.Announce.{Event, post_no_memory, feedback_send, surface_get_feedback}
use westfield.Feedback.Compile.{CompiledFeedback, compiled_feedback_destroy}
use westfield.Prelude.{ℕ, ℤ, Bool, Option, none, some, List, [], ◌∷◌, alloc, ◌==◌, if◌then◌else◌}

-- struct wlr_linux_dmabuf_v1_surface
pub record Surface : Type 0 where
  pub address : ℕ
  pub feedback : Option CompiledFeedback
  pub feedback_resources : List ℕ

-- The surface that is returned, the addons of the client's surface, and the manager's surfaces.
pub record SurfaceResult : Type 0 where
  pub surface : Checked (Option ℕ)
  pub addons : List Addon
  pub surfaces : List Surface
  pub fate : List Bool

abbrev pub fresh_surface : ℕ → Surface
fresh_surface address = record { address = address; feedback = none; feedback_resources = [] }

-- From the addons after addon_init on.
abbrev pub add_surface :
    ℕ → Checked (List Addon) → List Addon → List Surface → List Bool → SurfaceResult
add_surface address aborted addons surfaces fate = record {
  surface = aborted;
  addons = addons;
  surfaces = surfaces;
  fate = fate;
}
add_surface address (returned addons') addons surfaces fate = record {
  surface = returned (some address);
  addons = addons';
  surfaces = fresh_surface address ∷ surfaces;
  fate = fate;
}

-- `owner` is the address of the manager, `impl` that of surface_addon_impl, and `address` that of the
-- addon that calloc would give.
unfoldable pub surface_get_or_create :
    ℕ → ℕ → ℕ → List Addon → List Surface → List Bool → SurfaceResult
surface_get_or_create owner impl address addons surfaces fate =
    let (got, rest) = alloc fate in
    elim (addon_find addons owner impl) [
      | some addon ↦ record {
        surface = returned (some addon.address);
        addons = addons;
        surfaces = surfaces;
        fate = fate;
      }
      | none ↦
          if got
          then add_surface address (addon_init address addons owner impl) addons surfaces rest
          else record { surface = returned none; addons = addons; surfaces = surfaces; fate = rest }
    ]

-- `wl_list_insert(&surface->feedback_resources, link)`
unfoldable pub insert_resource : ℕ → ℕ → List Surface → List Surface
insert_resource address resource [] = []
insert_resource address resource (s ∷ surfaces) =
    let rest = insert_resource address resource surfaces in
    if s.address == address
    then record s { feedback_resources = resource ∷ s.feedback_resources } ∷ surfaces
    else s ∷ rest

unfoldable pub feedback_of : ℕ → List Surface → Option CompiledFeedback
feedback_of address [] = none
feedback_of address (s ∷ surfaces) =
    let rest = feedback_of address surfaces in if s.address == address then s.feedback else rest

-- What a request leaves: the surface, if one was had, the state, and the events.
pub record FeedbackResult : Type 0 where
  pub surface : Checked (Option ℕ)
  pub user_data : Option (List Addon)
  pub surfaces : List Surface
  pub events : List Event
  pub fate : List Bool

-- From the surface on; `created` says whether wl_resource_create returns a resource.
abbrev pub send_to : Bool → ℕ → CompiledFeedback → SurfaceResult → FeedbackResult
send_to created resource default_feedback r =
    let no_memory : FeedbackResult = record {
      surface = r.surface;
      user_data = some r.addons;
      surfaces = r.surfaces;
      events = post_no_memory ∷ [];
      fate = r.fate;
    } in
    elim r.surface [
      | aborted ↦ record no_memory { events = [] }
      | returned none ↦ no_memory
      | returned (some address) ↦
          if created
          then record no_memory {
            surfaces = insert_resource address resource r.surfaces;
            events =
                feedback_send
                  (surface_get_feedback (feedback_of address r.surfaces) default_feedback);
          }
          else no_memory
    ]

-- The user data of the client's surface is its set of addons. Where it is NULL, a new one is made,
-- and the result of calloc is not tested.
unfoldable pub linux_dmabuf_get_surface_feedback :
    ℕ
    → ℕ
    → ℕ
    → Bool
    → ℕ
    → CompiledFeedback
    → Option (List Addon)
    → List Surface
    → List Bool
    → FeedbackResult
linux_dmabuf_get_surface_feedback owner impl address created resource default_feedback user_data
      surfaces fate =
    let (got, rest) = alloc fate in
    elim user_data [
      | some addons ↦
          send_to created resource default_feedback
            (surface_get_or_create owner impl address addons surfaces fate)
      | none ↦
          if got
          then send_to created resource default_feedback
              (surface_get_or_create owner impl address addon_set_init surfaces rest)
          else record {
            surface = aborted;
            user_data = none;
            surfaces = surfaces;
            events = [];
            fate = rest;
          }
    ]

-- `wl_list_remove(&surface->link)`
unfoldable pub remove_surface : ℕ → List Surface → List Surface
remove_surface address [] = []
remove_surface address (s ∷ surfaces) =
    let rest = remove_surface address surfaces in
    if s.address == address then surfaces else s ∷ rest

-- The addons of the client's surface and the surfaces of the manager that are left, and the
-- descriptors closed. The links of the resources are gone with the surface.
unfoldable pub surface_destroy :
    Surface → List Addon → List Surface → List Addon × List Surface × List ℤ
surface_destroy s addons surfaces = (
  addon_finish s.address addons,
  remove_surface s.address surfaces,
  compiled_feedback_destroy s.feedback,
)
