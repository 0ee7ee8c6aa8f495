-- ===== src/Scheduler/Basic/Place/Elect.antt =====
-- The election loop at the end of `place`.
use barenetes.Base.{
  String, ◌≡◌, refl, sym, ap, ◌∙◌, subst, Bool, true, false, none, some, List, [], ◌∷◌, Member,
  Result, ok, string_eq, inl, inr, Bool-cases, Some-eq,
}
use barenetes.Shared.{Resources, Port, Node, Pod}
use barenetes.Scheduler.Basic.{BasicScheduler}
use barenetes.Scheduler.Basic.Place.{
  Float32, calculate_general_usage, better, elect, candidate_nodes, place,
}
use barenetes.Scheduler.Basic.Place.Choice.{
  Fits, Fits-candidate, candidate-Fits, elect-Member, place-elect,
}
use barenetes.Scheduler.Basic.Place.Safety.{place-ok}

Ok-eq : {E A : Type 0} {a b : A} → ◌≡◌ {A = Result E A} (ok a) (ok b) → a ≡ b
Ok-eq e = cc

Cons-eq : {A : Type 0} {a b : A} {as' bs : List A} → a ∷ as' ≡ b ∷ bs → a ≡ b
Cons-eq e = cc

-- What IEEE 754 says of `>`: a value is not above itself, two values are not above each other, and
-- among values that are not NaN, "not above" is transitive.
pub record IsOrder (F : Float32) (is_nan : F.Carrier → Bool) : Type 0 where
  pub irrefl : (a : F.Carrier) → F.gt a a ≡ false
  pub asym : (a b : F.Carrier) → F.gt a b ≡ true → F.gt b a ≡ false
  pub trans :
      (a b c : F.Carrier)
      → is_nan a ≡ false
      → is_nan b ≡ false
      → is_nan c ≡ false
      → F.gt a b ≡ false
      → F.gt b c ≡ false
      → F.gt a c ≡ false

module _ (F : Float32) (is_nan : F.Carrier → Bool) (o : IsOrder F is_nan) (s : BasicScheduler) where
  -- The node has a usage, and it is a number.
  abbrev pub IsRated : Node → Type 0
  IsRated n = (u : F.Carrier) × (calculate_general_usage F s n ≡ some u) × (is_nan u ≡ false)

  -- The usage of a node is not above the usage of another.
  abbrev pub NotAbove : Node → Node → Type 0
  NotAbove n m =
      (u v : F.Carrier)
      → calculate_general_usage F s n ≡ some u
      → calculate_general_usage F s m ≡ some v
      → F.gt u v ≡ false

  NotAbove-trans :
      (l m n : Node)
      → IsRated l
      → IsRated m
      → IsRated n
      → NotAbove l m
      → NotAbove m n
      → NotAbove l n
  NotAbove-trans l m n (a, ea, na) (b, eb, nb) (c, ec, nc) p q u v eu ev =
      subst (λ z. F.gt z v ≡ false) (Some-eq (sym ea ∙ eu))
        (subst (λ z. F.gt a z ≡ false) (Some-eq (sym ec ∙ ev))
          (o.trans a b c na nb nc (p a b ea eb) (q b c eb ec)))

  NotAbove-intro :
      (n m : Node) (a b : F.Carrier)
      → calculate_general_usage F s n ≡ some a
      → calculate_general_usage F s m ≡ some b
      → F.gt a b ≡ false
      → NotAbove n m
  NotAbove-intro n m a b ea eb h u v eu ev =
      subst (λ z. F.gt z v ≡ false) (Some-eq (sym ea ∙ eu))
        (subst (λ z. F.gt a z ≡ false) (Some-eq (sym eb ∙ ev)) h)

  -- One round keeps the lower of two rated nodes.
  better-lower :
      (e c : Node)
      → IsRated e
      → IsRated c
      → IsRated (better F s e c) × NotAbove (better F s e c) e × NotAbove (better F s e c) c
  better-lower e c (u, eu, nu) (v, ev, nv) = elim (Bool-cases (F.gt u v)) [
    | inl g ↦
        let taken : better F s e c ≡ c = rw (eu, ev, g, better) in
        subst (λ z. IsRated z × NotAbove z e × NotAbove z c) (sym taken)
          (
            (v, ev, nv),
            NotAbove-intro c e v u ev eu (o.asym u v g),
            NotAbove-intro c c v v ev ev (o.irrefl v),
          )
    | inr g ↦
        let kept : better F s e c ≡ e = rw (eu, ev, g, better) in
        subst (λ z. IsRated z × NotAbove z e × NotAbove z c) (sym kept)
          ((u, eu, nu), NotAbove-intro e e u u eu eu (o.irrefl u), NotAbove-intro e c u v eu ev g)
  ]

  -- The loop ends with a node that is not above any that it saw.
  elect-lowest :
      (e : Node) (cs : List Node)
      → IsRated e
      → ((m : Node) → Member m cs → IsRated m)
      → IsRated (elect F s e cs)
        × NotAbove (elect F s e cs) e
        × ((m : Node) → Member m cs → NotAbove (elect F s e cs) m)
  unfolding elect
  elect-lowest e [] re rs =
      let (u, eu, nu) = re in (re, NotAbove-intro e e u u eu eu (o.irrefl u), λ m h. absurd h)
  elect-lowest e (c ∷ cs) re rs =
      let rc = rs c (inl refl) in
      let (rb, low_e, low_c) = better-lower e c re rc in
      let (rw', low, lows) = elect-lowest (better F s e c) cs rb (λ m h. rs m (inr h)) in
      let w = elect F s (better F s e c) cs in
      (
        rw',
        NotAbove-trans w (better F s e c) e rw' rb re low low_e,
        λ m h. elim h [
          | inl same ↦
              subst (NotAbove w) (sym same)
                (NotAbove-trans w (better F s e c) c rw' rb rc low low_c)
          | inr later ↦ lows m later
        ],
      )

-- Where every node that fits has a usage that is a number, place names one that fits and whose
-- usage is not above that of any other node that fits, for any order on f32 with the laws of
-- IEEE 754.
pub place-lowest :
    (F : Float32) (is_nan : F.Carrier → Bool) (o : IsOrder F is_nan) (s : BasicScheduler)
    (pod : Pod) (ports : List Port) (r : Resources) (name : String)
    → pod.limits ≡ some r
    → place F s pod ports ≡ ok name
    → ((m : Node) → Fits s r ports m → IsRated F is_nan o s m)
    → (n : Node) × Fits s r ports n
      × (n.name ≡ name)
      × ((m : Node) → Fits s r ports m → NotAbove F is_nan o s n m)
place-lowest F is_nan o s pod ports r name e h rated =
    let (r', n, e', f, named) = place-ok F s pod ports name h in
    let fits = subst (λ z. Fits s z ports n) (Some-eq (sym e' ∙ e)) f in
    let (x, xs, cands, answer) = place-elect F s pod ports r n e fits in
    let all = λ (m : Node) (i : Member m (x ∷ xs)).
      rated m (candidate-Fits s r ports m (subst (Member m) (sym cands) i)) in
    let (_, _, lows) = elect-lowest F is_nan o s x (x ∷ xs) (all x (inl refl)) all in
    (
      elect F s x (x ∷ xs),
      candidate-Fits s r ports _ (
          subst (Member (elect F s x (x ∷ xs))) (sym cands)
            (elect-Member F s x (x ∷ xs) (x ∷ xs) (inl refl) (λ n i. i))),
      Ok-eq (sym answer ∙ h),
      λ m fm. lows m (subst (Member m) cands (Fits-candidate s r ports m fm)),
    )

-- A node without a usage that comes first is never replaced.
elect_unrated :
    (F : Float32) (s : BasicScheduler) (e : Node) (cs : List Node)
    → calculate_general_usage F s e ≡ none
    → elect F s e cs ≡ e
unfolding elect
elect_unrated F s e [] h = refl
elect_unrated F s e (c ∷ cs) h =
    let same : better F s e c ≡ e = rw (h, better) in rw same (elect_unrated F s e cs h)

-- A fitting node that reported no capacity is named, whatever the usage of the others, when it
-- is the first candidate.
pub place_unrated :
    (F : Float32) (s : BasicScheduler) (pod : Pod) (ports : List Port) (r : Resources) (n : Node)
    (rest : List Node)
    → pod.limits ≡ some r
    → candidate_nodes s r ports ≡ n ∷ rest
    → n.capacity ≡ none
    → place F s pod ports ≡ ok n.name
unfolding calculate_general_usage
place_unrated F s pod ports r n rest e cands missing =
    let fits = candidate-Fits s r ports n (subst (Member n) (sym cands) (inl refl)) in
    let (x, xs, cands', answer) = place-elect F s pod ports r n e fits in
    let first : x ≡ n = Cons-eq (sym cands' ∙ cands) in
    let unrated : calculate_general_usage F s x ≡ none =
      rw (first, missing, calculate_general_usage) in
    answer ∙ ap (λ (z : Node). ok z.name) (elect_unrated F s x (x ∷ xs) unrated ∙ first)
