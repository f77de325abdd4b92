-- ===== src/Traverse/Same.antt =====
-- Two callbacks that do the same in the visits of the nodes of a tree.
use profit.Prelude.{
  ℕ, ◌^◌, ◌<◌, ◌≡◌, refl, ap, subst, ◌∙◌, Bool, true, false, Option, List, [], ◌∷◌, ◌&&◌, not,
  arith, if◌then◌else◌,
}
use profit.State.{Matrix, create, reset}
use profit.Traverse.{
  Node, Nodes, Children, NodeState, NodeInfo, prf_node, null, array, nil, cons, stopped, is_pop,
  trav_continue, visit, traverse_io, model_traverse_io,
}
use profit.Traverse.Walk.{walk, walk_children, walk_control, and_then, up, down}
use profit.Traverse.Refine.{Implements, traverse_io-walk}
use profit.Traverse.Collect.{order, height, IsFull, fold, Collects}
use profit.Traverse.Fold.{walk-collects}

same_functions : {A B C : Type 0} {f g : A → B → C} → ((a : A) (b : B) → f a b ≡ g a b) → f ≡ g
same_functions e = λ i. λ a b. e a b i

same_three :
    {A B C D : Type 0} {f g : A → B → C → D} → ((a : A) (b : B) (c : C) → f a b c ≡ g a b c) → f ≡ g
same_three e = λ i. λ a b c. e a b c i

module _ {W : Type 0} (nodetypes : List (Option (NodeInfo W)))
    (f g : Option (NodeState W → (ℕ × NodeState W))) where
  -- The visits of all nodes do the same with both.
  unfoldable mutual
    pub AgreeOn : Nodes → Type 0
    AgreeOn nil = Unit {0}
    AgreeOn (cons (prf_node o k b c) ns) =
        ((s : NodeState W)
          → visit nodetypes f (prf_node o k b c) s ≡ visit nodetypes g (prf_node o k b c) s)
        × AgreeBelow c
        × AgreeOn ns

    pub AgreeBelow : Children → Type 0
    AgreeBelow null = Unit {0}
    AgreeBelow (array ns) = AgreeOn ns

  module _ (junk : Matrix) where
    mutual
      unfolding walk AgreeOn

      walk-same :
          (ns : Nodes)
          → AgreeOn ns
          → (skipping : Bool) (t : ℕ) (s : NodeState W)
          → walk nodetypes f junk ns skipping t s ≡ walk nodetypes g junk ns skipping t s
      walk-same nil agree skipping t s = refl
      walk-same (cons (prf_node o k b c) ns) (here, below, rest) skipping t s =
          let n : Node = prf_node o k b c in
          let passes : Bool = skipping && not (is_pop nodetypes n) in
          ap
            (λ r.
              if passes
              then r true t s
              else walk_control (visit nodetypes f n s) (walk_children nodetypes f junk c) r)
            (same_three (walk-same ns rest))
          ∙ ap
              (λ r.
                if passes
                then walk nodetypes g junk ns true t s
                else walk_control (visit nodetypes f n s) r (walk nodetypes g junk ns))
              (same_functions (walk_children-same c below))
          ∙ ap
              (λ v.
                if passes
                then walk nodetypes g junk ns true t s
                else walk_control v (walk_children nodetypes g junk c) (walk nodetypes g junk ns))
              (here s)

      walk_children-same :
          (c : Children)
          → AgreeBelow c
          → (t : ℕ) (s : NodeState W)
          → walk_children nodetypes f junk c t s ≡ walk_children nodetypes g junk c t s
      walk_children-same null agree t s = refl
      walk_children-same (array nil) agree t s = refl
      walk_children-same (array (cons n ns)) agree t s =
          ap (λ r. down junk s λ s'. and_then (r false t s') up)
            (same_three (walk-same (cons n ns) agree))

module _ {W : Type 0} (skip : Node → Bool) (step : W → Node → W)
    (nodetypes : List (Option (NodeInfo W))) (f g : Option (NodeState W → (ℕ × NodeState W)))
    (junk : Matrix) (collects : Collects skip step nodetypes g) where
  -- A callback collects from a model what another does that does the same in the visits of its nodes.
  pub same-collects :
      (header : Node) (start : W)
      → height (cons header nil) < 2 ^ 16
      → IsFull (cons header nil)
      → AgreeOn nodetypes f g (cons header nil)
      → (t : ℕ) × (s' : NodeState W) × (model_traverse_io nodetypes f junk start header
          ≡ stopped t s' (cons header nil ∷ []))
        × (s'.client ≡ fold step start (order skip (cons header nil)))
  unfolding model_traverse_io create reset
  same-collects header start low full agree =
      let begin : NodeState W = _ in
      let (t, s', run, noted) =
        walk-collects skip step nodetypes g junk collects header begin
          (record { on_stack = omega arith; room = omega arith; deep = omega arith }) full in
      (
        t,
        s',
        subst
            (λ w. Implements nodetypes f junk header w (traverse_io nodetypes f junk header begin))
            (walk-same nodetypes f g junk (cons header nil) agree false trav_continue begin ∙ run)
            (traverse_io-walk nodetypes f junk header begin),
        noted,
      )
