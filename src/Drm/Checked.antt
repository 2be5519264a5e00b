-- ===== src/Drm/Checked.antt =====
-- Results of code with assertions (drm_format_set.c and others). One that fails ends the program:
-- `aborted`.
pub data Checked {ℓ} (A : Type ℓ) : Type ℓ where
  returned : A → Checked A
  aborted : Checked A
