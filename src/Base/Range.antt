-- ===== src/Base/Range.antt =====
-- The first number of a range that is not in use.
use Prim.Native.Nat.{ℕ, zero, suc, ◌+◌, ◌≤◌, ◌<◌}
use mathlib.Core.Path.{◌≡◌, refl}
use mathlib.Core.Logic.{◌⊎◌, inl, inr}
use mathlib.Core.Bool.{true, false}
use mathlib.Core.Option.{Option, none, some}
use mathlib.Core.List.{List}
use native.Mathlib.Omega.{arith}
use barenetes.Base.Tests.{if◌then◌else◌, eqb, Bool-cases}
use barenetes.Base.SortedSet.{contains}

-- `(low..).find(|n| !used.contains(n))`, on so many numbers.
abbrev pub find_free : ℕ → ℕ → List ℕ → Option ℕ
find_free zero low used = none
find_free (suc count) low used =
    let rest = find_free count (suc low) used in if contains low used then rest else some low

-- Of the numbers from `low` below `high`, `a` is the first that is not in use.
pub record IsFirstFree (low high a : ℕ) (s : List ℕ) : Type 0 where
  pub at_least : low ≤ a
  pub below : a < high
  pub free : contains a s ≡ false
  pub least : (b : ℕ) → low ≤ b → b < a → contains b s ≡ true

abbrev pub AllUsed : ℕ → ℕ → List ℕ → Type 0
AllUsed low high s = (b : ℕ) → low ≤ b → b < high → contains b s ≡ true

-- The search for a number that is not in use ends after as many steps as the range has numbers:
-- with the first number of the range that is free, or with none when all of them are in use.
pub find_free_lem :
    (count low : ℕ) (s : List ℕ)
    → ((a : ℕ) × (find_free count low s ≡ some a) × IsFirstFree low (count + low) a s)
      ⊎ ((find_free count low s ≡ none) × AllUsed low (count + low) s)
find_free_lem zero low s = inr (refl, λ b ge lt. ground arith)
find_free_lem (suc count) low s = elim (Bool-cases (contains low s)) [
  | inr e ↦ inl (
    low,
    ground arith,
    record {
      at_least = ground arith;
      below = ground arith;
      free = e;
      least = λ b ge lt. ground arith;
    },
  )
  | inl e ↦ elim (find_free_lem count (suc low) s) [
    | inl (a, found, f) ↦ inl (
      a,
      ground arith,
      record {
        at_least = ground (arith, f.at_least);
        below = ground (arith, f.below);
        free = f.free;
        least = λ b ge lt. elim (Bool-cases (eqb b low)) [
          | inl same ↦ ground arith
          | inr other ↦ f.least b (ground arith) lt
        ];
      },
    )
    | inr (nothing, all_used) ↦ inr (
      ground arith,
      λ b ge lt. elim (Bool-cases (eqb b low)) [
        | inl same ↦ ground arith
        | inr other ↦ all_used b (ground arith) (ground arith)
      ],
    )
  ]
]
