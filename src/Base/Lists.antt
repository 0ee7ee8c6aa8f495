-- ===== src/Base/Lists.antt =====
-- Lists with Boolean tests and lengths over the native numbers.
use Prim.Native.Nat.{ℕ, suc}
use mathlib.Core.Path.{◌≡◌, refl}
use mathlib.Core.Logic.{◌⊎◌, inl, inr}
use mathlib.Core.Bool.{Bool, true, false, ◌&&◌, ◌||◌}
use mathlib.Core.List.{List, [], ◌∷◌}
use native.Mathlib.Omega.{arith}
use barenetes.Base.Tests.{if◌then◌else◌, Bool-cases}

module _ {ℓ} {A : Type ℓ} where
  abbrev pub length : List A → ℕ
  length [] = 0
  length (x ∷ xs) = suc (length xs)

  -- `Iterator::filter` with a Boolean test, and `Iterator::any` and `Iterator::all`.
  abbrev pub filter : (A → Bool) → List A → List A
  filter p [] = []
  filter p (x ∷ xs) = let rest = filter p xs in if p x then x ∷ rest else rest

  abbrev pub any : (A → Bool) → List A → Bool
  any p [] = false
  any p (x ∷ xs) = p x || any p xs

  abbrev pub all : (A → Bool) → List A → Bool
  all p [] = true
  all p (x ∷ xs) = p x && all p xs

-- Membership by recursion, which the tactics open.
abbrev pub Member : {A : Type 0} → A → List A → Type 0
Member a [] = ⊥
Member a (x ∷ xs) = (a ≡ x) ⊎ Member a xs

pub Member-filter :
    {A : Type 0} (p : A → Bool) (a : A) (xs : List A)
    → Member a (filter p xs)
    → Member a xs × (p a ≡ true)
Member-filter p a [] m = elim m [ ]
Member-filter p a (x ∷ xs) m = ground (arith, Member-filter p a xs)

pub filter-Member :
    {A : Type 0} (p : A → Bool) (a : A) (xs : List A)
    → Member a xs
    → p a ≡ true
    → Member a (filter p xs)
filter-Member p a [] m h = m
filter-Member p a (x ∷ xs) m h = ground (arith, filter-Member p a xs)

pub any-Member :
    {A : Type 0} (p : A → Bool) (xs : List A)
    → any p xs ≡ true
    → (a : A) × Member a xs × (p a ≡ true)
any-Member p [] h = cc
any-Member p (x ∷ xs) h = elim (Bool-cases (p x)) [
  | inl e ↦ (x, inl refl, e)
  | inr e ↦ let (a, m, q) = any-Member p xs (rw e at h) in (a, inr m, q)
]

pub any-false :
    {A : Type 0} (p : A → Bool) (a : A) (xs : List A) → any p xs ≡ false → Member a xs → p a ≡ false
any-false p a [] h m = elim m [ ]
any-false p a (x ∷ xs) h m = ground (arith, any-false p a xs)
