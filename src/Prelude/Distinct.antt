-- ===== src/Prelude/Distinct.antt =====
-- Lists of numbers with no entry twice, as arrays that stand for sets.
use Prim.Native.Nat.{ℕ, suc, ◌≤◌}
use mathlib.Core.Bool.{true, false, ◌||◌}
use mathlib.Core.List.{List, [], ◌∷◌, ◌++◌}
use mathlib.Core.Path.{◌≡◌, refl}
use native.Mathlib.Omega.{arith}
use westfield.Prelude.Lists.{elem, length}
use westfield.Prelude.Tests.{◌==◌, if◌then◌else◌}

pub elem-append : (m : ℕ) (xs ys : List ℕ) → elem m (xs ++ ys) ≡ (elem m xs || elem m ys)
unfolding elem
elem-append m [] ys = refl
elem-append m (x ∷ xs) ys = ground (arith, elem-append m xs ys)

abbrev pub IsDistinct : List ℕ → Type 0
IsDistinct [] = Unit
IsDistinct (x ∷ xs) = (elem x xs ≡ false) × IsDistinct xs

pub IsDistinct-push :
    (xs : List ℕ) (m : ℕ) → elem m xs ≡ false → IsDistinct xs → IsDistinct (xs ++ m ∷ [])
unfolding elem
IsDistinct-push [] m h d = (refl, tt)
IsDistinct-push (x ∷ xs) m h d =
    (ground (arith, elem-append x xs (m ∷ [])), IsDistinct-push xs m (ground arith) d.1)

erase : ℕ → List ℕ → List ℕ
erase m [] = []
erase m (x ∷ xs) = if x == m then xs else x ∷ erase m xs

length-erase : (m : ℕ) (xs : List ℕ) → elem m xs ≡ true → suc (length (erase m xs)) ≡ length xs
unfolding erase elem
length-erase m [] h = ground arith
length-erase m (x ∷ xs) h = ground (arith, length-erase m xs)

elem-erase :
    (m k : ℕ) (xs : List ℕ) → elem k xs ≡ true → (m == k) ≡ false → elem k (erase m xs) ≡ true
unfolding erase elem
elem-erase m k [] h n = ground arith
elem-erase m k (x ∷ xs) h n = ground (arith, elem-erase m k xs)

-- Distinct entries that all stand in another list are no more than it has.
pub length-le-of-subset :
    (xs ys : List ℕ)
    → IsDistinct xs
    → ((k : ℕ) → elem k xs ≡ true → elem k ys ≡ true)
    → length xs ≤ length ys
unfolding elem
length-le-of-subset [] ys d h = omega arith
length-le-of-subset (x ∷ xs) ys d h =
    let here : elem x ys ≡ true = h x (ground arith) in
    let rest =
      length-le-of-subset xs (erase x ys) d.1
        (λ k e. elem-erase x k ys (h k (ground arith)) (ground arith)) in
    omega (arith, length-erase x ys here)
