-- ===== src/Traverse/Fold.antt =====
-- What a traversal collects from a tree whose visits do one step each: the fold over the nodes.
use profit.Prelude.{
  ℕ, suc, ◌+◌, ◌-◌, ◌%◌, ◌^◌, ◌≤◌, ◌<◌, ◌≡◌, refl, sym, ◌∙◌, ap, subst, Bool, false, Option, none,
  some, List, [], ◌∷◌, ◌++◌, arith, inl, inr, Bool-cases, max, length,
}
use profit.State.{Matrix, push, pop, create, reset}
use profit.State.Stack.{Ready, Pushed, Popped, push-Pushed, pop-Popped}
use profit.Record.{Loaded}
use profit.Traverse.{
  Node, Children, Nodes, NodeState, NodeInfo, prf_node, null, array, nil, cons, stopped,
  trav_continue, trav_sibling, visit, traverse_io, model_traverse_io,
}
use profit.Traverse.Walk.{Walk, done, walk, walk_children, walk_control, and_then, up, down}
use profit.Traverse.Refine.{Implements, traverse_io-walk}
use profit.Traverse.Collect.{
  fold-append, is_skipped, fold, Stays, Collects, order, order_children, height, height_children,
  IsFull, IsFullBelow,
}

module _ {W : Type 0} (skip : Node → Bool) (step : W → Node → W)
    (nodetypes : List (Option (NodeInfo W))) (callback : Option (NodeState W → (ℕ × NodeState W)))
    (junk : Matrix) (collects : Collects skip step nodetypes callback) where
  -- A walk that comes to the nodes l, and ends on the level that it began on.
  record Visits (s s' : NodeState W) (l : List Node) : Type 0 where
    noted : s'.client ≡ fold step s.client l
    level : s'.state_push_level ≡ s.state_push_level
    depth : s'.physical_level ≡ s.physical_level
    on_stack : s'.state_push_level < length s'.matrix

  abbrev Walked : Walk W → NodeState W → List Node → Type 0
  Walked w s l = (t : ℕ) × (s' : NodeState W) × (w ≡ done t s') × Visits s s' l

  abbrev Claim : Nodes → Type 0
  Claim ns =
      (t : ℕ) (s : NodeState W)
      → Ready (height ns) s
      → IsFull ns
      → Walked (walk nodetypes callback junk ns false t s) s (order skip ns)

  walk-skipped :
      (o f : ℕ) (b : Loaded) (c : Children) (ns : Nodes) (t : ℕ) (s s' : NodeState W)
      → visit nodetypes callback (prf_node o f b c) s ≡ (trav_sibling, s')
      → walk nodetypes callback junk (cons (prf_node o f b c) ns) false t s
        ≡ walk nodetypes callback junk ns false trav_sibling s'
  unfolding walk walk_control
  walk-skipped o f b c ns t s s' e = rw e refl

  walk-live :
      (o f : ℕ) (b : Loaded) (c : Children) (ns : Nodes) (t : ℕ) (s s' : NodeState W)
      → visit nodetypes callback (prf_node o f b c) s ≡ (trav_continue, s')
      → walk nodetypes callback junk (cons (prf_node o f b c) ns) false t s
        ≡ and_then
            (walk_children nodetypes callback junk c trav_continue s')
            (walk nodetypes callback junk ns false)
  unfolding walk walk_control
  walk-live o f b c ns t s s' e = rw e refl

  -- The state on the level below, and back.
  abbrev lower : NodeState W → NodeState W
  lower s = record s { physical_level = (s.physical_level + 1) % 2 ^ 16 }

  abbrev upper : NodeState W → NodeState W
  upper s = record s { physical_level = (s.physical_level + 2 ^ 16 - 1) % 2 ^ 16 }

  children-open :
      (m : Node) (ms : Nodes) (t : ℕ) (s : NodeState W)
      → walk_children nodetypes callback junk (array (cons m ms)) t s
        ≡ down junk s (λ s'. and_then (walk nodetypes callback junk (cons m ms) false t s') up)
  unfolding walk_children
  children-open m ms t s = refl

  children-run :
      (m : Node) (ms : Nodes) (t t' : ℕ) (s s₁ s₂ s₃ : NodeState W)
      → push junk s ≡ some s₁
      → walk nodetypes callback junk (cons m ms) false t (lower s₁) ≡ done t' s₂
      → pop s₂ ≡ some s₃
      → walk_children nodetypes callback junk (array (cons m ms)) t s ≡ done t' (upper s₃)
  children-run m ms t t' s s₁ s₂ s₃ e₁ e₂ e₃ =
      children-open m ms t s
      ∙ ap
          (λ p. elim p [
            | none ↦ Walk.fault
            | some s' ↦ and_then (walk nodetypes callback junk (cons m ms) false t (lower s')) up
          ])
          e₁
      ∙ ap (λ w. and_then w up) e₂
      ∙ ap (λ p. elim p [ none ↦ Walk.fault | some s' ↦ done t' (upper s') ]) e₃

  lower-Ready : (k : ℕ) (s s₁ : NodeState W) → Ready (suc k) s → Pushed s s₁ → Ready k (lower s₁)
  lower-Ready k s s₁ r p =
      let deep : s₁.physical_level ≡ s.physical_level = ap (λ x. x.physical_level) p.others in
      record {
        on_stack = omega (arith, p.level, p.grown);
        room = omega (arith, p.level, r.room);
        deep = omega (arith, deep, r.deep);
      }

  upper-Visits :
      (k : ℕ) (s s₁ s₂ s₃ : NodeState W) (l : List Node)
      → Ready (suc k) s
      → Pushed s s₁
      → Visits (lower s₁) s₂ l
      → Popped s₂ s₃
      → Visits s (upper s₃) l
  upper-Visits k s s₁ s₂ s₃ l r p v q =
      let deep : s₁.physical_level ≡ s.physical_level = ap (λ x. x.physical_level) p.others in
      let back : s₃.physical_level ≡ s₂.physical_level = ap (λ x. x.physical_level) q.others in
      let same : length s₃.matrix ≡ length s₂.matrix = ap (λ x. length x.matrix) q.others in
      record {
        noted = ap (λ x. x.client) q.others ∙ v.noted ∙ ap (λ x. fold step x.client l) p.others;
        level = omega (arith, v.level, p.level, q.level);
        depth = omega (arith, v.depth, back, deep, r.deep);
        on_stack = omega (arith, same, q.level, v.on_stack);
      }

  -- The walk of an array of children goes down a level, and comes back.
  array-Walked :
      (m : Node) (ms : Nodes) (t : ℕ) (s : NodeState W)
      → Claim (cons m ms)
      → Ready (suc (height (cons m ms))) s
      → IsFull (cons m ms)
      → Walked
          (walk_children nodetypes callback junk (array (cons m ms)) t s)
          s
          (order skip (cons m ms))
  array-Walked m ms t s claim r full =
      let k : ℕ = height (cons m ms) in
      let (s₁, e₁, p) = push-Pushed junk s k r in
      let (t', s₂, e₂, v) = claim t (lower s₁) (lower-Ready k s s₁ r p) full in
      let (s₃, e₃, q) =
        pop-Popped s₂ (omega (arith, v.level, p.level)) (omega (arith, v.level, p.level, r.room))
          v.on_stack in
      (
        t',
        upper s₃,
        children-run m ms t t' s s₁ s₂ s₃ e₁ e₂ e₃,
        upper-Visits k s s₁ s₂ s₃ (order skip (cons m ms)) r p v q,
      )

  abbrev ChildClaim : Children → Type 0
  ChildClaim c =
      (t : ℕ) (s : NodeState W)
      → Ready (height_children c) s
      → IsFullBelow c
      → Walked (walk_children nodetypes callback junk c t s) s (order_children skip c)

  abbrev InArray : Children → Type 0
  InArray null = Unit {0}
  InArray (array ns) = Claim ns

  child-Claim : (c : Children) → InArray c → ChildClaim c
  unfolding walk_children order height IsFull fold
  child-Claim null claim t s r full =
      (t, s, refl, record { noted = refl; level = refl; depth = refl; on_stack = r.on_stack })
  child-Claim (array nil) claim t s r full = absurd full
  child-Claim (array (cons m ms)) claim t s r full = array-Walked m ms t s claim r full

  -- Two walks in a row.
  both-Visits :
      (s s₁ s₂ : NodeState W) (l l' : List Node)
      → Visits s s₁ l
      → Visits s₁ s₂ l'
      → Visits s s₂ (l ++ l')
  both-Visits s s₁ s₂ l l' v w = record {
    noted = w.noted ∙ ap (λ x. fold step x l') v.noted ∙ sym (fold-append step s.client l l');
    level = omega (arith, v.level, w.level);
    depth = omega (arith, v.depth, w.depth);
    on_stack = w.on_stack;
  }

  -- A visit keeps the room, and the walk may begin with it.
  Stays-Ready :
      (k : ℕ) (w : W) (s s' : NodeState W)
      → Ready k s
      → s.state_push_level < length s.matrix
      → Stays w s s'
      → Ready k s'
  Stays-Ready k w s s' r on st = record {
    on_stack = omega (arith, st.level, st.stack);
    room = omega (arith, st.level, r.room);
    deep = omega (arith, st.depth, r.deep);
  }

  Stays-Visits :
      (w : W) (s here s' : NodeState W) (l l' : List Node)
      → Stays w s here
      → fold step w l ≡ fold step s.client l'
      → Visits here s' l
      → Visits s s' l'
  Stays-Visits w s here s' l l' st e v = record {
    noted = v.noted ∙ ap (λ x. fold step x l) st.client ∙ e;
    level = v.level ∙ st.level;
    depth = v.depth ∙ st.depth;
    on_stack = v.on_stack;
  }

  nil-Claim : Claim nil
  unfolding walk order fold
  nil-Claim t s r full =
      (t, s, refl, record { noted = refl; level = refl; depth = refl; on_stack = r.on_stack })

  less-Ready : (j k : ℕ) (s : NodeState W) → j ≤ k → Ready k s → Ready j s
  less-Ready j k s h r = record { on_stack = r.on_stack; room = omega arith; deep = omega arith }

  after-Ready :
      (k : ℕ) (s s' : NodeState W) (l : List Node) → Ready k s → Visits s s' l → Ready k s'
  after-Ready k s s' l r v = record {
    on_stack = v.on_stack;
    room = omega (arith, v.level, r.room);
    deep = omega (arith, v.depth, r.deep);
  }

  cons-Claim :
      (o f : ℕ) (b : Loaded) (c : Children) (ns : Nodes)
      → ChildClaim c
      → Claim ns
      → Claim (cons (prf_node o f b c) ns)
  unfolding order height IsFull
  cons-Claim o f b c ns below claim t s r (full, full') =
      let n : Node = prf_node o f b c in
      elim (Bool-cases (is_skipped skip n)) [
        | inl e ↦
            let (here, visited, st) = collects.passes n s e in
            let r' : Ready (max (height_children c) (height ns)) here =
              Stays-Ready _ s.client s here r r.on_stack st in
            let (t', s', run, v) =
              claim trav_sibling here (less-Ready (height ns) _ here (omega arith) r') full' in
            (
              t',
              s',
              walk-skipped o f b c ns t s here visited ∙ run,
              rw e (Stays-Visits s.client s here s' (order skip ns) (order skip ns) st refl v),
            )
        | inr e ↦
            let (here, visited, st) = collects.takes n s e in
            let r' : Ready (max (height_children c) (height ns)) here =
              Stays-Ready _ (step s.client n) s here r r.on_stack st in
            let (t₁, s₁, run₁, v₁) =
              below trav_continue here (less-Ready _ _ here (omega arith) r') full in
            let (t₂, s₂, run₂, v₂) =
              claim t₁ s₁
                (less-Ready (height ns) _ s₁ (omega arith) (after-Ready _ here s₁ _ r' v₁)) full' in
            let l : List Node = order_children skip c ++ order skip ns in
            (
              t₂,
              s₂,
              walk-live o f b c ns t s here visited
                  ∙ ap (λ w. and_then w (walk nodetypes callback junk ns false)) run₁
                  ∙ run₂,
              rw e (
                  Stays-Visits (step s.client n) s here s₂ l (n ∷ l) st (unfold fold in refl)
                    (both-Visits here s₁ s₂ (order_children skip c) (order skip ns) v₁ v₂)),
            )
      ]

  mutual
    claims : (ns : Nodes) → Claim ns
    claims nil = nil-Claim
    claims (cons (prf_node o f b c) ns) =
        cons-Claim o f b c ns (child-Claim c (in_array c)) (claims ns)

    in_array : (c : Children) → InArray c
    in_array null = tt
    in_array (array ns) = claims ns

  -- The walk from a root collects what the visits of its nodes do.
  pub walk-collects :
      (root : Node) (s : NodeState W)
      → Ready (height (cons root nil)) s
      → IsFull (cons root nil)
      → (t : ℕ) × (s' : NodeState W) × (walk nodetypes callback junk
            (cons root nil)
            false
            trav_continue
            s
          ≡ done t s')
        × (s'.client ≡ fold step s.client (order skip (cons root nil)))
  walk-collects root s r full =
      let (t, s', run, v) = claims (cons root nil) trav_continue s r full in (t, s', run, v.noted)

  -- Where each visit takes a step of the client or passes by, the traversal ends without a fault where the walk has room for its levels, and the
  -- client holds what the callback collects from the nodes in their order.
  pub traverse_io-collects :
      (root : Node) (s : NodeState W)
      → Ready (height (cons root nil)) s
      → IsFull (cons root nil)
      → (t : ℕ) × (s' : NodeState W) × (traverse_io nodetypes callback junk root s
          ≡ stopped t s' (cons root nil ∷ []))
        × (s'.client ≡ fold step s.client (order skip (cons root nil)))
        × (s'.state_push_level ≡ s.state_push_level)
        × (s'.physical_level ≡ s.physical_level)
  traverse_io-collects root s r full =
      let (t, s', run, v) = claims (cons root nil) trav_continue s r full in
      (
        t,
        s',
        subst
            (λ w.
              Implements nodetypes callback junk root w
                (traverse_io nodetypes callback junk root s))
            run (traverse_io-walk nodetypes callback junk root s),
        v.noted,
        v.level,
        v.depth,
      )

  -- The same for a model, from a new state
  pub model_traverse_io-collects :
      (header : Node) (start : W)
      → height (cons header nil) < 2 ^ 16
      → IsFull (cons header nil)
      → (t : ℕ) × (s' : NodeState W) × (model_traverse_io nodetypes callback junk start header
          ≡ stopped t s' (cons header nil ∷ []))
        × (s'.client ≡ fold step start (order skip (cons header nil)))
        × (s'.state_push_level ≡ 0)
        × (s'.physical_level ≡ 0)
  unfolding model_traverse_io create reset
  model_traverse_io-collects header start low full =
      traverse_io-collects header _
        (record { on_stack = omega arith; room = omega arith; deep = omega arith }) full
