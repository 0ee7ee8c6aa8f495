-- ===== src/Base/SortedSet.antt =====
-- `BTreeSet` of numbers as a list in increasing order.
use Prim.Native.Nat.{ℕ, suc, ◌≤◌}
use mathlib.Core.Path.{◌≡◌, refl}
use mathlib.Core.Bool.{Bool, false, ◌||◌}
use mathlib.Core.List.{List, [], ◌∷◌}
use native.Mathlib.Omega.{arith}
use barenetes.Base.Tests.{if◌then◌else◌, eqb, ltb}
use barenetes.Base.Lists.{length}

abbrev pub contains : ℕ → List ℕ → Bool
contains x [] = false
contains x (y ∷ ys) = eqb x y || contains x ys

abbrev pub insert : ℕ → List ℕ → List ℕ
insert x [] = x ∷ []
insert x (y ∷ ys) =
    let rest = insert x ys in if eqb x y then y ∷ ys else if ltb x y then x ∷ y ∷ ys else y ∷ rest

abbrev pub remove : ℕ → List ℕ → List ℕ
remove x [] = []
remove x (y ∷ ys) = let rest = remove x ys in if eqb x y then rest else y ∷ rest

pub contains-insert : (x y : ℕ) (s : List ℕ) → contains y (insert x s) ≡ (eqb y x || contains y s)
contains-insert x y [] = refl
contains-insert x y (z ∷ s) = ground (arith, contains-insert x y s)

pub contains-remove :
    (x y : ℕ) (s : List ℕ) → contains y (remove x s) ≡ (if eqb y x then false else contains y s)
contains-remove x y [] = ground arith
contains-remove x y (z ∷ s) = ground (arith, contains-remove x y s)

pub remove_absent : (x : ℕ) (s : List ℕ) → contains x s ≡ false → remove x s ≡ s
remove_absent x [] h = refl
remove_absent x (y ∷ s) h = ground (arith, remove_absent x s)

pub remove-insert : (x : ℕ) (s : List ℕ) → contains x s ≡ false → remove x (insert x s) ≡ s
remove-insert x [] h = ground arith
remove-insert x (y ∷ s) h = ground (arith, remove-insert x s, remove_absent x s)

pub length-insert : (x : ℕ) (s : List ℕ) → length (insert x s) ≤ suc (length s)
length-insert x [] = ground arith
length-insert x (y ∷ s) = ground (arith, length-insert x s)

pub length-remove : (x : ℕ) (s : List ℕ) → length (remove x s) ≤ length s
length-remove x [] = ground arith
length-remove x (y ∷ s) = ground (arith, length-remove x s)
