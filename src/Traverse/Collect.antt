-- ===== src/Traverse/Collect.antt =====
-- The nodes of a tree that a traversal visits, in the order of the visits, and what a visit collects.
use profit.Prelude.{
  ℕ, suc, ◌≡◌, refl, Bool, true, false, ◌||◌, Option, List, [], ◌∷◌, ◌++◌, max, length,
  if◌then◌else◌,
}
use profit.Traverse.{
  Node, Children, Nodes, NodeState, NodeInfo, prf_node, null, array, nil, cons, trav_continue,
  trav_sibling, visit, is_deleted,
}

-- A node that is deleted, or that the callback skips
abbrev pub is_skipped : (Node → Bool) → Node → Bool
is_skipped skip n = is_deleted n || skip n

-- The nodes that are not skipped or below one that is, parents before their children
unfoldable mutual
  pub order : (Node → Bool) → Nodes → List Node
  order skip nil = []
  order skip (cons (prf_node o f b c) ns) =
      let below = order_children skip c in
      let rest = order skip ns in
      if is_skipped skip (prf_node o f b c) then rest else prf_node o f b c ∷ (below ++ rest)

  pub order_children : (Node → Bool) → Children → List Node
  order_children skip null = []
  order_children skip (array ns) = order skip ns

-- the levels of children below some nodes
unfoldable mutual
  pub height : Nodes → ℕ
  height nil = 0
  height (cons (prf_node o f b c) ns) = max (height_children c) (height ns)

  pub height_children : Children → ℕ
  height_children null = 0
  height_children (array ns) = suc (height ns)

-- No array of children is empty.
unfoldable mutual
  pub IsFull : Nodes → Type 0
  IsFull nil = Unit {0}
  IsFull (cons (prf_node o f b c) ns) = IsFullBelow c × IsFull ns

  pub IsFullBelow : Children → Type 0
  IsFullBelow null = Unit {0}
  IsFullBelow (array nil) = ⊥
  IsFullBelow (array (cons n ns)) = IsFull (cons n ns)

-- What a callback collects, which takes the nodes one by one.
unfoldable pub fold : {W : Type 0} → (W → Node → W) → W → List Node → W
fold step w [] = w
fold step w (n ∷ ns) = fold step (step w n) ns

pub fold-append :
    {W : Type 0} (step : W → Node → W) (w : W) (l l' : List Node)
    → fold step w (l ++ l') ≡ fold step (fold step w l) l'
unfolding fold
fold-append step w [] l' = refl
fold-append step w (n ∷ l) l' = fold-append step (step w n) l l'

-- What a visit does: it goes on to the children of a node that is not skipped, for which the client
-- takes a step, and passes by one that is. The level and the size of the matrix stack stay.
pub record Stays {W : Type 0} (w : W) (s s' : NodeState W) : Type 0 where
  pub client : s'.client ≡ w
  pub level : s'.state_push_level ≡ s.state_push_level
  pub depth : s'.physical_level ≡ s.physical_level
  pub stack : length s'.matrix ≡ length s.matrix

pub record Collects {W : Type 0} (skip : Node → Bool) (step : W → Node → W)
    (nodetypes : List (Option (NodeInfo W))) (callback : Option (NodeState W → (ℕ × NodeState W)))
    : Type 0 where
  pub takes :
      (n : Node) (s : NodeState W)
      → is_skipped skip n ≡ false
      → (s' : NodeState W) × (visit nodetypes callback n s ≡ (trav_continue, s'))
        × Stays (step s.client n) s s'
  pub passes :
      (n : Node) (s : NodeState W)
      → is_skipped skip n ≡ true
      → (s' : NodeState W) × (visit nodetypes callback n s ≡ (trav_sibling, s'))
        × Stays s.client s s'
