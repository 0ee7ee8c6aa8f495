-- ===== src/Scheduler/Basic/Keyed.antt =====
-- The node map of basic.rs: which methods leave it alone, and that it is keyed by the nodes' names.
use barenetes.Base.{
  String, ◌≡◌, refl, sym, ap, ◌∙◌, subst, some, [], ◌∷◌, string_eq, pair_eq, arith, inl, inr,
}
use barenetes.Base.Map.{
  Map, lookup, Distinct, insert-Distinct, remove-Distinct, insert-some, remove-some,
}
use barenetes.Shared.{Node}
use barenetes.Scheduler.Basic.{
  PodKey, Placement, BasicScheduler, record_placement, release_placement, claim_placement,
  drop_placement, release_all, evict_node, placed_on, upsert_node, remove_node,
}

-- Each node stands in the map under its name, once.
pub record IsKeyed (s : BasicScheduler) : Type 0 where
  pub distinct : Distinct s.nodes
  pub named : (k : String) (n : Node) → lookup k s.nodes ≡ some n → n.name ≡ k

module _ (key : PodKey) (s : BasicScheduler) where
  pub release_placement-nodes : (release_placement key s).0.nodes ≡ s.nodes
  unfolding release_placement drop_placement
  release_placement-nodes = ground arith

  pub record_placement-nodes : (p : Placement) → (record_placement key p s).nodes ≡ s.nodes
  unfolding record_placement claim_placement
  record_placement-nodes p = ground (arith, release_placement-nodes)

release_all-nodes :
    (m : Map PodKey Placement) (s : BasicScheduler) → (release_all m s).nodes ≡ s.nodes
unfolding release_all
release_all-nodes [] s = refl
release_all-nodes ((k, p) ∷ m) s =
    release_all-nodes m (release_placement k s).0 ∙ release_placement-nodes k s

pub evict_node-nodes : (name : String) (s : BasicScheduler) → (evict_node name s).0.nodes ≡ s.nodes
unfolding evict_node
evict_node-nodes name s = release_all-nodes (placed_on name s.placements) s

pub same_nodes-IsKeyed : (s s' : BasicScheduler) → s'.nodes ≡ s.nodes → IsKeyed s → IsKeyed s'
same_nodes-IsKeyed s s' e y = record {
  distinct = subst Distinct (sym e) y.distinct;
  named = λ k n h. y.named k n (subst (λ m. lookup k m ≡ some n) e h);
}

pub upsert_node-IsKeyed : (n : Node) (s : BasicScheduler) → IsKeyed s → IsKeyed (upsert_node n s).0
unfolding upsert_node
upsert_node-IsKeyed n s y = record {
  distinct = insert-Distinct n.name n s.nodes y.distinct;
  named = λ k m h. elim (insert-some n.name k n s.nodes h) [
    | inl (at, is_new) ↦ sym (ap (λ z. z.name) is_new) ∙ at
    | inr (_, old) ↦ y.named k m old
  ];
}

pub remove_node-IsKeyed :
    (name : String) (s : BasicScheduler) → IsKeyed s → IsKeyed (remove_node name s)
unfolding remove_node
remove_node-IsKeyed name s y = record {
  distinct = remove-Distinct name s.nodes y.distinct;
  named = λ k n h. y.named k n (remove-some name k s.nodes h);
}

pub upsert_node-placements :
    (n : Node) (s : BasicScheduler) → (upsert_node n s).0.placements ≡ s.placements
unfolding upsert_node
upsert_node-placements n s = refl
