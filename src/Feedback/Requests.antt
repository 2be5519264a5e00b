-- ===== src/Feedback/Requests.antt =====
-- Requests for the feedback of one surface of a client, one after the other (wlr_linux_dmabuf_v1.c).
use westfield.Buffer.Addon.{Addon, addon_find}
use westfield.Buffer.Lookup.{AreOwned}
use westfield.Drm.Intersection.{returned}
use westfield.Feedback.Announce.{feedback_send, surface_get_feedback}
use westfield.Feedback.Compile.{CompiledFeedback}
use westfield.Feedback.Decode.{Checked-cases}
use westfield.Feedback.Surfaces.{
  Surface, SurfaceResult, surface_get_or_create, insert_resource, feedback_of, FeedbackResult,
  send_to, linux_dmabuf_get_surface_feedback,
}
use westfield.Prelude.{
  ℕ, ◌≡◌, ◌∙◌, refl, inl, inr, Bool, true, Option, none, some, List, [], ◌∷◌, length, Bool-cases,
  arith,
}

length-insert_resource :
    (address resource : ℕ) (surfaces : List Surface)
    → length (insert_resource address resource surfaces) ≡ length surfaces
unfolding insert_resource
length-insert_resource address resource [] = refl
length-insert_resource address resource (s ∷ surfaces) =
    ground (arith, length-insert_resource address resource surfaces)

pub get_or_create-hit :
    (owner impl address : ℕ) (addons : List Addon) (surfaces : List Surface) (fate : List Bool)
    (addon : Addon)
    → addon_find addons owner impl ≡ some addon
    → surface_get_or_create owner impl address addons surfaces fate ≡ record {
      surface = returned (some addon.address);
      addons = addons;
      surfaces = surfaces;
      fate = fate;
    }
unfolding surface_get_or_create
get_or_create-hit owner impl address addons surfaces fate addon found = ground arith

feedback_of-insert_resource :
    (a address resource : ℕ) (surfaces : List Surface)
    → feedback_of a (insert_resource address resource surfaces) ≡ feedback_of a surfaces
unfolding insert_resource feedback_of
feedback_of-insert_resource a address resource [] = refl
feedback_of-insert_resource a address resource (s ∷ surfaces) =
    ground (arith, feedback_of-insert_resource a address resource surfaces)

-- One request for the feedback of the client's surface: the addon that calloc would give, the id of the
-- resource and whether it can be created, the manager's default, and the allocations.
pub record SurfaceRequest : Type 0 where
  pub address : ℕ
  pub resource : ℕ
  pub created : Bool
  pub default_feedback : CompiledFeedback
  pub fate : List Bool

abbrev pub AllOwned : Option (List Addon) → Type 0
AllOwned none = Unit {0}
AllOwned (some addons) = AreOwned addons

-- The addons lead to the surface `a`.
pub record Leads (owner impl a : ℕ) (user_data : Option (List Addon)) : Type 0 where
  pub addons : List Addon
  pub kept : user_data ≡ some addons
  pub addon : Addon
  pub found : addon_find addons owner impl ≡ some addon
  pub same : addon.address ≡ a

module _ (owner impl : ℕ) where
  abbrev pub serve : SurfaceRequest → Option (List Addon) → List Surface → FeedbackResult
  serve q user_data surfaces =
      linux_dmabuf_get_surface_feedback owner impl q.address q.created q.resource q.default_feedback
        user_data surfaces q.fate

  -- The user data of the client's surface and the manager's surfaces after a series of requests.
  unfoldable pub serve_all :
      List SurfaceRequest → Option (List Addon) → List Surface → Option (List Addon) × List Surface
  serve_all [] user_data surfaces = (user_data, surfaces)
  serve_all (q ∷ qs) user_data surfaces =
      let r = serve q user_data surfaces in serve_all qs r.user_data r.surfaces

pub send_to-surface :
    (q : SurfaceRequest) (r : SurfaceResult) (a : ℕ)
    → (send_to q.created q.resource q.default_feedback r).surface ≡ returned (some a)
    → r.surface ≡ returned (some a)
send_to-surface q r a h = elim (Checked-cases r.surface) [
  | inl e ↦ absurd (ground arith)
  | inr (inl e) ↦ absurd (ground arith)
  | inr (inr (x, e)) ↦ ground arith
]

pub send_to-user_data :
    (q : SurfaceRequest) (r : SurfaceResult)
    → (send_to q.created q.resource q.default_feedback r).user_data ≡ some r.addons
send_to-user_data q r = elim (Checked-cases r.surface) [
  | inl e ↦ ground arith
  | inr (inl e) ↦ ground arith
  | inr (inr (x, e)) ↦ ground arith
]

-- What a request does where the addons lead to `a`.
pub record Served (owner impl a : ℕ) (q : SurfaceRequest) (surfaces : List Surface)
    (r : FeedbackResult) : Type 0 where
  pub surface : r.surface ≡ returned (some a)
  pub leads : Leads owner impl a r.user_data
  pub fate : r.fate ≡ q.fate
  pub linked : length r.surfaces ≡ length surfaces
  pub feedback : (b : ℕ) → feedback_of b r.surfaces ≡ feedback_of b surfaces
  pub sent :
      q.created ≡ true
      → r.events ≡ feedback_send (surface_get_feedback (feedback_of a surfaces) q.default_feedback)

pub serve-Served :
    (owner impl a : ℕ) (q : SurfaceRequest) (user_data : Option (List Addon))
    (surfaces : List Surface)
    → Leads owner impl a user_data
    → Served owner impl a q surfaces (serve owner impl q user_data surfaces)
unfolding linux_dmabuf_get_surface_feedback
serve-Served owner impl a q user_data surfaces leads =
    let hit =
      get_or_create-hit owner impl q.address leads.addons surfaces q.fate leads.addon leads.found in
    let same = leads.same in
    let still : Leads owner impl a (some leads.addons) = record {
      addons = leads.addons;
      kept = refl;
      addon = leads.addon;
      found = leads.found;
      same = leads.same;
    } in
    rw (leads.kept, linux_dmabuf_get_surface_feedback)
      (rw (hit, same)
        (elim (Bool-cases q.created) [
          | inl c ↦ rw c (record {
            surface = refl;
            leads = still;
            fate = refl;
            linked = length-insert_resource a q.resource surfaces;
            feedback = λ b. feedback_of-insert_resource b a q.resource surfaces;
            sent = λ k. refl;
          })
          | inr c ↦ rw c (record {
            surface = refl;
            leads = still;
            fate = refl;
            linked = refl;
            feedback = λ b. refl;
            sent = λ k. absurd (ground arith);
          })
        ]))

pub serve_all-keeps :
    (owner impl a : ℕ) (qs : List SurfaceRequest) (user_data : Option (List Addon))
    (surfaces : List Surface)
    → Leads owner impl a user_data
    → let r = serve_all owner impl qs user_data surfaces in
      Leads owner impl a r.0
      × (length r.1 ≡ length surfaces)
      × ((b : ℕ) → feedback_of b r.1 ≡ feedback_of b surfaces)
unfolding serve_all
serve_all-keeps owner impl a [] user_data surfaces leads = (leads, refl, λ b. refl)
serve_all-keeps owner impl a (q ∷ qs) user_data surfaces leads =
    let s = serve-Served owner impl a q user_data surfaces leads in
    let r = serve owner impl q user_data surfaces in
    let (leads', len, same) = serve_all-keeps owner impl a qs r.user_data r.surfaces s.leads in
    (leads', len ∙ s.linked, λ b. same b ∙ s.feedback b)
