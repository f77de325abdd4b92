-- ===== src/Loader/File/Model.antt =====
-- `prf_model_save` of src/model.c: the traversal of a model with `save_cb`, and what the loader makes
-- of the file that it writes.
use profit.Prelude.{
  ◌≤◌, none, ℕ, ◌/◌, ◌%◌, ◌^◌, ◌≡◌, refl, ap, ap₂, ◌∙◌, Bool, false, Option, some, List, [], ◌∷◌,
  ◌++◌, map, ◌==◌, ◌||◌, if◌then◌else◌,
}
use profit.Bfile.{Bfile, Run, Cmd, Stdio, ok, fault, out_of_fuel, and_then}
use profit.Record.{Layout}
use profit.State.{Matrix}
use profit.Traverse.{
  Node, Nodes, Children, NodeState, NodeInfo, Outcome, prf_node, null, array, nil, cons, stopped,
  is_deleted, model_traverse_io,
}
use profit.Traverse
use profit.Traverse.Collect.{order, order_children, is_skipped}
use profit.Traverse.Visitor.{visitor}
use profit.Traverse.Order.{no_skip}
use profit.Traverse.Same.{AgreeOn, AgreeBelow}
use profit.Traverse.Handled.{AllFollow, shown-same}
use profit.Handlers.{Context}
use profit.Handlers.Follow.{enter, leave}
use profit.Handlers.Counts.{for_user, count_op}
use profit.Handlers.Faults.{HaveData}
use profit.Loader.Shape.{reading, reading_children}
use profit.Loader.File.{save_node}
use profit.Loader.File.Files.{AreGood}

-- PRF_NODE_DELETED or PRF_NODE_VIRTUAL
abbrev pub is_hidden : Node → Bool
is_hidden (prf_node op flags d c) = flags % 2 == 1 || flags / 2 ^ 14 % 2 == 1

module _ (io : Stdio) (big : Bool) (types : List Layout) where
  -- The client's part of the state is what the calls so far did to the file.
  abbrev pub save_step : Run (Unit {0}) → Node → Run (Unit {0})
  save_step r n = and_then r λ _. save_node io big types n

  abbrev pub Saving : Type 0
  Saving = Context (Run (Unit {0}))

  abbrev pub save_cb : NodeState Saving → (ℕ × NodeState Saving)
  save_cb = visitor is_hidden (for_user λ c n. save_step c.user n)

  -- A handler that faults ends the program.
  abbrev pub file_of : Outcome Saving → Run (Unit {0})
  file_of (stopped t s freed) = if s.client.faulted then fault else s.client.user
  file_of Traverse.fault = fault
  file_of Traverse.out_of_fuel = out_of_fuel

  -- `prf_model_save` on a writable file; `start` is the rest of a new state.
  unfoldable pub save_model :
      (nodetypes : List (Option (NodeInfo Saving))) (junk : Matrix) (start : Saving) (header : Node)
      → Cmd (Unit {0})
  save_model nodetypes junk start header b =
      if b.writable
      then file_of
          (model_traverse_io nodetypes (some save_cb) junk (record start { user = ok tt b }) header)
      else fault

  abbrev bare : Node → Node
  bare (prf_node op f d c) = prf_node op f d null

  map-append : (xs ys : List Node) → map bare (xs ++ ys) ≡ map bare xs ++ map bare ys
  map-append [] ys = refl
  map-append (x ∷ xs) ys = ap (λ l. bare x ∷ l) (map-append xs ys)

  AreGood-append :
      (xs ys : List Node) → AreGood types (xs ++ ys) → AreGood types xs × AreGood types ys
  AreGood-append [] ys good = (tt, good)
  AreGood-append (prf_node op f d c ∷ xs) ys (g, e, good) =
      let (left, right) = AreGood-append xs ys good in ((g, e, left), right)

  abbrev flags_of : Node → ℕ
  flags_of (prf_node op f d c) = f

  mutual
    unfolding order reading

    order-reading :
        (ns : Nodes) → AreGood types (reading ns) → map bare (order is_hidden ns) ≡ reading ns
    order-reading nil good = refl
    order-reading (cons (prf_node op f d c) ns) (g, e, good) =
        let zero_flags : f ≡ 0 = ap flags_of e in
        let shown : is_skipped is_hidden (prf_node op f d c) ≡ false = rw zero_flags refl in
        let (below, rest) = AreGood-append (reading_children c) (reading ns) good in
        rw shown (
          ap (λ l. prf_node op f d null ∷ l)
            (map-append (order_children is_hidden c) (order is_hidden ns)
              ∙ ap₂ (λ x y. x ++ y) (order-reading_children c below) (order-reading ns rest)))

    order-reading_children :
        (c : Children)
        → AreGood types (reading_children c)
        → map bare (order_children is_hidden c) ≡ reading_children c
    order-reading_children null good = refl
    order-reading_children (array ns) good = order-reading ns good

  mutual
    unfolding order reading

    -- No node of a good model is hidden.
    orders-same : (ns : Nodes) → AreGood types (reading ns) → order no_skip ns ≡ order is_hidden ns
    orders-same nil good = refl
    orders-same (cons (prf_node op f d c) ns) (g, e, good) =
        let zero_flags : f ≡ 0 = ap flags_of e in
        let shown : is_skipped is_hidden (prf_node op f d c) ≡ false = rw zero_flags refl in
        let taken : is_skipped no_skip (prf_node op f d c) ≡ false = rw zero_flags refl in
        let (below, rest) = AreGood-append (reading_children c) (reading ns) good in
        rw (shown, taken)
          (ap (λ l. prf_node op f d c ∷ l)
            (ap₂ (λ x y. x ++ y) (orders-same_children c below) (orders-same ns rest)))

    orders-same_children :
        (c : Children)
        → AreGood types (reading_children c)
        → order_children no_skip c ≡ order_children is_hidden c
    orders-same_children null good = refl
    orders-same_children (array ns) good = orders-same ns good

-- What a model needs for its handlers not to fault: one vertex palette at most, and data where it is read
pub record IsSafe (header : Node) (start : Context (Run (Unit {0}))) : Type 0 where
  pub one_palette : count_op 67 (order is_hidden (cons header nil)) ≤ 1
  pub have_data : HaveData (order is_hidden (cons header nil))
  pub no_fault : start.faulted ≡ false
  pub no_palette : start.vertex_palette ≡ none

module _ (io : Stdio) (big : Bool) (types : List Layout) (same : Node → Node → Bool)
    (stale : Node → ℕ → ℕ) (nodetypes : List (Option (NodeInfo (Context (Run (Unit {0}))))))
    (follow : AllFollow (enter same stale) leave nodetypes) where
  mutual
    unfolding AgreeOn reading

    -- No node of a good model is hidden, so that the callback takes each.
    shown-AgreeOn :
        (f : Context (Run (Unit {0})) → Node → Context (Run (Unit {0}))) (ns : Nodes)
        → AreGood types (reading ns)
        → AgreeOn nodetypes (some (visitor is_hidden f)) (some (visitor no_skip f)) ns
    shown-AgreeOn f nil good = tt
    shown-AgreeOn f (cons (prf_node op k d c) ns) (_, e, good) =
        let zero_flags : k ≡ 0 = ap (flags_of io big types) e in
        let (below, rest) = AreGood-append io big types (reading_children c) (reading ns) good in
        (
          λ s.
              shown-same (enter same stale) leave f nodetypes follow is_hidden (prf_node op k d c) s
                (rw zero_flags refl) (rw zero_flags refl),
          shown-AgreeBelow f c below,
          shown-AgreeOn f ns rest,
        )

    shown-AgreeBelow :
        (f : Context (Run (Unit {0})) → Node → Context (Run (Unit {0}))) (c : Children)
        → AreGood types (reading_children c)
        → AgreeBelow nodetypes (some (visitor is_hidden f)) (some (visitor no_skip f)) c
    shown-AgreeBelow f null good = tt
    shown-AgreeBelow f (array ns) good = shown-AgreeOn f ns good
