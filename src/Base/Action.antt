-- ===== src/Base/Action.antt =====
-- What a method does to the state it holds: it leaves a state, and answers or fails.
use mathlib.Core.List.{List, [], ◌∷◌}
use barenetes.Base.Fallible.{Result, ok, err}

abbrev pub Action : Type 0 → Type 0 → Type 0 → Type 0
Action S Error A = S → S × Result Error A

module _ {S Error : Type 0} where
  infixl 5 ◌>>=◌ ◌>>◌
  abbrev pub ◌>>=◌ : {A B : Type 0} → Action S Error A → (A → Action S Error B) → Action S Error B
  ◌>>=◌ m f s = let (s', r) = m s in elim r [ ok a ↦ f a s' | err e ↦ (s', err e) ]

  abbrev pub ◌>>◌ : {A B : Type 0} → Action S Error A → Action S Error B → Action S Error B
  m >> k = m >>= λ _. k

  abbrev pub pure : {A : Type 0} → A → Action S Error A
  pure a s = (s, ok a)

  abbrev pub lift : {A : Type 0} → Result Error A → Action S Error A
  lift r s = (s, r)

  abbrev pub modify : (S → S) → Action S Error (Unit {0})
  modify f s = (f s, ok tt)

  -- A call whose failure the caller looks at, or drops as `let _ =` does.
  abbrev pub attempt : {A : Type 0} → Action S Error A → Action S Error (Result Error A)
  attempt m s = let (s', r) = m s in (s', ok r)

  -- `for x in xs { m(x)?; }`.
  abbrev pub each :
      {A : Type 0} → (A → Action S Error (Unit {0})) → List A → Action S Error (Unit {0})
  each m [] = pure tt
  each m (x ∷ xs) = m x >> each m xs
