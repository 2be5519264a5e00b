-- ===== src/Feedback/Managed.antt =====
-- What set_default_feedback and the creation of the global in wlr_linux_dmabuf_v1.c leave behind.
use westfield.Drm.FormatSet.{empty_set, drm_format_set_has}
use westfield.Drm.Intersection.{Checked, returned, aborted}
use westfield.Drm.Shape.{IsValid, empty_set-IsValid}
use westfield.Egl.Render.{empty-has}
use westfield.Feedback.Compile.{Feedback, CompiledFeedback, feedback_compile}
use westfield.Feedback.Compiled.{Compiles, feedback_compile-Compiles}
use westfield.Feedback.Decode.{Checked-cases}
use westfield.Feedback.Default.{
  Manager, Devices, DefaultResult, node_name, merge_tranches, use_feedback, open_device,
  set_default_feedback,
}
use westfield.Feedback.Merged.{
  pair_in, tranche_entries, merge_tranches-Merged, TranchesDecode-pair_in, last-pair_in,
}
use westfield.Feedback.Table.{table_entries, table_length}
use westfield.Prelude.{
  ℕ, ◌^◌, ◌≤◌, ◌≡◌, refl, ◌⊎◌, inl, inr, ℤ, is_nonneg, Bool, true, false, some, List, [], ◌∷◌, ◌++◌,
  Bool-cases, Option-cases, arith,
}

-- A manager whose default is the feedback: the compiled feedback means it, and the formats have the
-- pairs of its fallback tranche.
pub record IsDefault (f : Feedback) (c : CompiledFeedback) (m : Manager) : Type 0 where
  pub feedback : m.default_feedback ≡ some c
  pub means : Compiles f c
  pub formats :
      (g k : ℕ)
      → drm_format_set_has m.default_formats g k
        ≡ pair_in (table_entries f.fallback.formats.formats) g k
  pub valid : IsValid m.default_formats

merged-pairs :
    (f : Feedback) (c : CompiledFeedback) (fate : List Bool) (g k : ℕ)
    → Compiles f c
    → let r = (merge_tranches (f.preferred ++ f.fallback ∷ []) empty_set fate).0 in
      r.0 ≡ true
      → drm_format_set_has r.1 g k ≡ pair_in (table_entries f.fallback.formats.formats) g k
merged-pairs f c fate g k means h =
    let ts = f.preferred ++ f.fallback ∷ [] in
    let all = merge_tranches-Merged ts empty_set fate in
    let table = table_entries f.fallback.formats.formats in
    let has = all.holds h g k in
    let start = empty-has g k in
    elim (Bool-cases (pair_in (tranche_entries ts) g k)) [
      | inl e ↦
          let there =
            TranchesDecode-pair_in table ts c.tranches g k (rw (← means.table) means.tranches) e in
          ground (arith, has, start, there)
      | inr e ↦ elim (Bool-cases (pair_in table g k)) [
        | inl d ↦ absurd (let there = last-pair_in f.preferred f.fallback g k d in ground arith)
        | inr d ↦ ground (arith, has, start)
      ]
    ]

-- What set_default_feedback returns for feedback: on success the manager has it, and otherwise the
-- manager is the one before.
pub record DefaultSet (f : Feedback) (before : Manager) (r : DefaultResult) : Type 0 where
  pub set : r.ok ≡ returned true → (c : CompiledFeedback) × IsDefault f c r.manager
  pub kept : r.ok ≡ returned false → r.manager ≡ before

use_feedback-DefaultSet :
    (manager : Manager) (f : Feedback) (c : CompiledFeedback) (fd : ℤ) (closed : List ℤ)
    (fate : List Bool)
    → Compiles f c
    → DefaultSet f manager (use_feedback manager f c fd closed fate)
unfolding use_feedback
use_feedback-DefaultSet manager f c fd closed fate means =
    let ts = f.preferred ++ f.fallback ∷ [] in
    let merged = (merge_tranches ts empty_set fate).0 in
    elim (Bool-cases merged.0) [
      | inl e ↦
          rw (e, use_feedback)
            (record {
              set = λ h. (
                c,
                record {
                  feedback = refl;
                  means = means;
                  formats = λ g k. merged-pairs f c fate g k means e;
                  valid = (merge_tranches-Merged ts empty_set fate).valid empty_set-IsValid;
                },
              );
              kept = λ h. absurd (ground arith);
            })
      | inr e ↦ rw (e, use_feedback) (record { set = λ h. absurd (ground arith); kept = λ h. refl })
    ]

node_name-cases {ℓ} : {A : Type ℓ} (x : Checked A) → (x ≡ aborted) ⊎ ((a : A) × (x ≡ returned a))
node_name-cases aborted = inl refl
node_name-cases (returned a) = inr (a, refl)

open_device-DefaultSet :
    (devices : Devices) (manager : Manager) (f : Feedback) (c : CompiledFeedback) (closed : List ℤ)
    (fate : List Bool)
    → Compiles f c
    → DefaultSet f manager (open_device devices manager f c closed fate)
unfolding open_device
open_device-DefaultSet devices manager f c closed fate means =
    elim (Option-cases (devices.device_from_dev_id f.main_device)) [
      | inl e ↦ rw (e, open_device) (record { set = λ h. absurd (ground arith); kept = λ h. refl })
      | inr (device, e) ↦ elim (node_name-cases (node_name device)) [
        | inl d ↦
            rw (e, d, open_device) (record { set = λ h. absurd (ground arith); kept = λ h. refl })
        | inr (name, d) ↦ elim (Bool-cases (is_nonneg (devices.open_node name))) [
          | inl o ↦
              rw (e, d, o, open_device)
                (use_feedback-DefaultSet manager f c (devices.open_node name) closed fate means)
          | inr o ↦
              rw (e, d, o, open_device)
                (record { set = λ h. absurd (ground arith); kept = λ h. refl })
        ]
      ]
    ]

-- When set_default_feedback returns true for feedback with at most 2^16 pairs in its fallback
-- tranche, the manager's compiled feedback means that feedback and its default formats have exactly
-- the pairs of the fallback tranche, those of the other tranches included, in a valid set; when it
-- returns false the manager is what it was.
pub set_default_feedback-DefaultSet :
    (devices : Devices) (manager : Manager) (f : Feedback) (fate : List Bool)
    → table_length f.fallback.formats.formats ≤ 2 ^ 16
    → DefaultSet f manager (set_default_feedback devices manager f fate)
unfolding set_default_feedback
set_default_feedback-DefaultSet devices manager f fate small =
    let r = feedback_compile devices.file f fate in
    elim (Checked-cases r.compiled) [
      | inl e ↦
          rw (e, set_default_feedback)
            (record { set = λ h. absurd (ground arith); kept = λ h. refl })
      | inr (inl e) ↦
          rw (e, set_default_feedback)
            (record { set = λ h. absurd (ground arith); kept = λ h. refl })
      | inr (inr (c, e)) ↦
          let means = feedback_compile-Compiles devices.file f fate c small e in
          rw (e, set_default_feedback)
            (open_device-DefaultSet devices manager f c r.closes r.fate means)
    ]
