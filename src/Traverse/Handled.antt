-- ===== src/Traverse/Handled.antt =====
-- A traversal with handlers: what the state holds of the nodes that it has come to.
use profit.Prelude.{
  Bool, if◌then◌else◌, ℕ, ◌^◌, ◌<◌, ◌≡◌, refl, sym, ◌∙◌, ap, true, false, Option, none, some, List,
  [], ◌∷◌, arith,
}
use profit.State.{Matrix}
use profit.Traverse.{
  Node, NodeState, NodeInfo, nil, cons, stopped, trav_continue, trav_sibling, visit, call, hook,
  nodeinfo_get, opcode, is_deleted, model_traverse_io,
}
use profit.Traverse.Fold.{model_traverse_io-collects}
use profit.Traverse.Collect.{order, height, IsFull, fold, Collects, Stays}
use profit.Traverse.Visitor.{visitor}
use profit.Traverse.Order.{no_skip}

module _ {W : Type 0} where
  -- A handler leaves the node, the levels and the size of the matrix stack, and the client's part of the
  -- state is w then.
  pub record Handles (w : W) (s s' : NodeState W) : Type 0 where
    pub node : s'.node ≡ s.node
    pub stays : Stays w s s'

  abbrev pub entry_of : Option (NodeInfo W) → Option (Node → NodeState W → NodeState W)
  entry_of none = none
  entry_of (some info) = info.entry_f

  abbrev pub exit_of : Option (NodeInfo W) → Option (Node → NodeState W → NodeState W)
  exit_of none = none
  exit_of (some info) = info.exit_f

  abbrev pub traverse_of : Option (NodeInfo W) → Option (Node → NodeState W → (ℕ × NodeState W))
  traverse_of none = none
  traverse_of (some info) = info.traverse_f

  -- The handlers of a record type do to the client's part what `enter` and `leave` say for a node.
  pub record Follows (enter leave : Node → W → W) (n : Node) (i : Option (NodeInfo W))
      : Type 0 where
    pub entering : (s : NodeState W) → Handles (enter n s.client) s (hook (entry_of i) n s)
    pub leaving : (s : NodeState W) → Handles (leave n s.client) s (hook (exit_of i) n s)
    pub plain : traverse_of i ≡ none

  abbrev pub AllFollow : (Node → W → W) → (Node → W → W) → List (Option (NodeInfo W)) → Type 0
  AllFollow enter leave nodetypes =
      (n : Node) → Follows enter leave n (nodeinfo_get nodetypes (opcode n))

  -- One visit: the entry handler, the callback, the exit handler
  abbrev pub visit_step : (Node → W → W) → (Node → W → W) → (W → Node → W) → W → Node → W
  visit_step enter leave f w n = leave n (f (enter n w) n)

visitor-at :
    {W : Type 0} (hide : Node → Bool) (f : W → Node → W) (n : Node) (s : NodeState W)
    → hide n ≡ false
    → s.node ≡ some n
    → visitor hide f s ≡ (trav_continue, record s { client = f s.client n })
visitor-at hide f n s shown at =
    ap
      (λ o. elim o [
        | none ↦ (trav_continue, s)
        | some m ↦
            if hide m
            then (trav_sibling, s)
            else (trav_continue, record s { client = f s.client m })
      ])
      at
    ∙ ap (λ h. if h then (trav_sibling, s) else (trav_continue, record s { client = f s.client n }))
        shown

module _ {W : Type 0} (enter leave : Node → W → W) (f : W → Node → W)
    (nodetypes : List (Option (NodeInfo W))) (follow : AllFollow enter leave nodetypes) where
  -- the state behind the entry handler and the callback
  called : Node → Option (NodeInfo W) → NodeState W → NodeState W
  called n i s =
      let s' = hook (entry_of i) n (record s { node = some n }) in
      record s' { client = f s'.client n }

  visit-run :
      (hide : Node → Bool) (n : Node) (s : NodeState W) (i : Option (NodeInfo W))
      → nodeinfo_get nodetypes (opcode n) ≡ i
      → is_deleted n ≡ false
      → traverse_of i ≡ none
      → hide n ≡ false
      → (hook (entry_of i) n (record s { node = some n })).node ≡ some n
      → visit nodetypes (some (visitor hide f)) n s
        ≡ (trav_continue, hook (exit_of i) n (called n i s))
  unfolding visit call called
  visit-run hide n s none e live no_traverse shown at = rw (live, e, shown) refl
  visit-run hide n s (some info) e live no_traverse shown at =
      rw (live, e, no_traverse)
        (ap (λ (r : ℕ × NodeState W). (r.0, hook info.exit_f n r.1))
          (visitor-at hide f n _ shown at))

  visit-Stays :
      (n : Node) (s : NodeState W) (i : Option (NodeInfo W))
      → Follows enter leave n i
      → Stays (visit_step enter leave f s.client n) s (hook (exit_of i) n (called n i s))
  unfolding called
  visit-Stays n s i fs =
      let a = (fs.entering (record s { node = some n })).stays in
      let b = (fs.leaving (called n i s)).stays in
      record {
        client = b.client ∙ ap (λ w. leave n (f w n)) a.client;
        level = b.level ∙ a.level;
        depth = b.depth ∙ a.depth;
        stack = b.stack ∙ a.stack;
      }

  pub handled-Collects :
      Collects no_skip (visit_step enter leave f) nodetypes (some (visitor no_skip f))
  unfolding visit
  handled-Collects = record {
    takes = λ n s e.
        let i : Option (NodeInfo W) = nodeinfo_get nodetypes (opcode n) in
        (
          hook (exit_of i) n (called n i s),
          visit-run no_skip n s i refl (ground arith) (follow n).plain refl
              (((follow n).entering (record s { node = some n })).node),
          visit-Stays n s i (follow n),
        );
    passes = λ n s e.
        let gone : is_deleted n ≡ true = ground arith in
        (
          record s { node = some n },
          rw gone refl,
          record { client = refl; level = refl; depth = refl; stack = refl },
        );
  }

module _ {W : Type 0} (enter leave : Node → W → W) (f : W → Node → W)
    (nodetypes : List (Option (NodeInfo W))) (follow : AllFollow enter leave nodetypes) where
  -- A callback that does not skip a node does the same for it as one that skips none.
  pub shown-same :
      (hide : Node → Bool) (n : Node) (s : NodeState W)
      → is_deleted n ≡ false
      → hide n ≡ false
      → visit nodetypes (some (visitor hide f)) n s ≡ visit nodetypes (some (visitor no_skip f)) n s
  shown-same hide n s live shown =
      let i : Option (NodeInfo W) = nodeinfo_get nodetypes (opcode n) in
      let at = ((follow n).entering (record s { node = some n })).node in
      visit-run enter leave f nodetypes follow hide n s i refl live (follow n).plain shown at
      ∙ sym (
          visit-run enter leave f nodetypes follow no_skip n s i refl live (follow n).plain refl at)

module _ {W : Type 0} (enter leave : Node → W → W) (f : W → Node → W)
    (nodetypes : List (Option (NodeInfo W))) (follow : AllFollow enter leave nodetypes)
    (junk : Matrix) where
  -- With handlers that do what `enter` and `leave` say, and a callback that goes on, the traversal of a
  -- model from a new state returns without a fault, where no array of children in the model is empty and
  -- it has fewer than 2^16 levels; the client's part of the state is what the handlers and the callback
  -- make of the nodes one by one, parents before their children, without those that are deleted or below
  -- one that is; and the state is on level 0.
  pub model_traverse_io-handled :
      (header : Node) (start : W)
      → height (cons header nil) < 2 ^ 16
      → IsFull (cons header nil)
      → (t : ℕ) × (s' : NodeState W) × (model_traverse_io nodetypes
            (some (visitor no_skip f))
            junk
            start
            header
          ≡ stopped t s' (cons header nil ∷ []))
        × (s'.client ≡ fold (visit_step enter leave f) start (order no_skip (cons header nil)))
        × (s'.state_push_level ≡ 0)
        × (s'.physical_level ≡ 0)
  model_traverse_io-handled =
      model_traverse_io-collects no_skip (visit_step enter leave f) nodetypes
        (some (visitor no_skip f)) junk (handled-Collects enter leave f nodetypes follow)
