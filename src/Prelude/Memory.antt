-- ===== src/Prelude/Memory.antt =====
-- Allocations that can fail. `malloc`, `calloc` and `realloc` stand outside the program: the answers
-- that they will give are an argument, and each call takes the next one. Past the end of the list
-- allocations succeed.
use mathlib.Core.Bool.{Bool, true}
use mathlib.Core.List.{List, [], ◌∷◌}

abbrev pub Fate : Type 0
Fate = List Bool

-- A computation that allocates.
abbrev pub Mem {ℓ} : Type ℓ → Type ℓ
Mem A = Fate → A × Fate

abbrev pub pure {ℓ} : {A : Type ℓ} → A → Mem A
pure a fate = (a, fate)

infixl 5 ◌>>=◌
abbrev pub ◌>>=◌ {ℓ κ} : {A : Type ℓ} {B : Type κ} → Mem A → (A → Mem B) → Mem B
◌>>=◌ m f fate = let (a, rest) = m fate in f a rest

-- One call of an allocation function: whether it returned memory.
abbrev pub alloc : Mem Bool
alloc [] = (true, [])
alloc (b ∷ fate) = (b, fate)
