-- ===== src/Egl/Offered.antt =====
-- The texture formats of init_dmabuf_formats of westfield-egl.c, with no failed allocation.
use westfield.Egl.Formats.{Modifier, Driver, get_egl_dmabuf_modifiers}
use westfield.Prelude.{ℕ, Bool, false, ◌||◌, ◌&&◌, none, some, List, [], ◌∷◌, ◌==◌}

-- Whether a list of modifiers has one.
abbrev pub listed : List Modifier → ℕ → Bool
listed [] k = false
listed ((m, external) ∷ ms) k = (m == k) || listed ms k

module _ (mod_invalid mod_linear : ℕ) where
  -- The modifiers of a format for which the driver lists `ms`: those, the implicit modifier, and the
  -- linear one if there are none.
  abbrev pub offers : List Modifier → ℕ → Bool
  offers [] k = mod_invalid == k || mod_linear == k
  offers (m ∷ ms) k = listed (m ∷ ms) k || mod_invalid == k

  -- The pairs of the formats for which the driver answers.
  abbrev pub all_offers : Driver → List ℕ → ℕ → ℕ → Bool
  all_offers driver [] g k = false
  all_offers driver (f ∷ fmts) g k = elim (get_egl_dmabuf_modifiers driver f []).0 [
    | none ↦ all_offers driver fmts g k
    | some ms ↦ (f == g && offers ms k) || all_offers driver fmts g k
  ]
