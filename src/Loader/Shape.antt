-- ===== src/Loader/Shape.antt =====
-- The trees that Open Flight files hold, and the order of their records in a file.
use profit.Prelude.{ℕ, ◌≡◌, Bool, true, false, Option, some, List, [], ◌∷◌, ◌++◌, ◌⊎◌}
use profit.Traverse.{
  Node, Nodes, Children, NodeInfo, prf_node, null, array, nil, cons, nodeinfo_get,
}
use profit.Loader.{is_push, is_pop_node, is_ancillary}

-- A node is read before its children, and without them.
unfoldable mutual
  pub reading : Nodes → List Node
  reading nil = []
  reading (cons (prf_node o f d c) ns) = prf_node o f d null ∷ (reading_children c ++ reading ns)

  pub reading_children : Children → List Node
  reading_children null = []
  reading_children (array ns) = reading ns

module _ {W : Type 0} (nodetypes : List (Option (NodeInfo W))) where
  -- A record type that is registered, with its flags PRF_PUSH_NODE, PRF_POP_NODE and PRF_ANCILLARY
  pub record HasFlags (op : ℕ) (push pop ancillary : Bool) : Type 0 where
    pub info : NodeInfo W
    pub registered : nodeinfo_get nodetypes op ≡ some info
    pub is_push : is_push info.flags ≡ push
    pub is_pop : is_pop_node info.flags ≡ pop
    pub is_ancillary : is_ancillary info.flags ≡ ancillary

  -- a node without children
  abbrev pub IsLeaf : Bool → Bool → Bool → Node → Type 0
  IsLeaf push pop ancillary (prf_node o f d null) = HasFlags o push pop ancillary
  IsLeaf push pop ancillary (prf_node o f d (array ns)) = ⊥

  unfoldable mutual
    -- A node with no flag of these, whose children are ancillary nodes and a level that is opened and
    -- closed, in any case not an empty array.
    pub IsTree : Node → Type 0
    IsTree (prf_node o f d c) = HasFlags o false false false × AreChildren c

    pub AreChildren : Children → Type 0
    AreChildren null = Unit {0}
    AreChildren (array nil) = ⊥
    AreChildren (array (cons n ns)) = Below (cons n ns)

    -- ancillary nodes, and a level that a push node opens
    pub Below : Nodes → Type 0
    Below nil = Unit {0}
    Below (cons n ns) =
        (IsLeaf false false true n × Below ns) ⊎ (IsLeaf true false false n × IsLevel ns)

    -- trees, and the pop node that closes the level
    pub IsLevel : Nodes → Type 0
    IsLevel nil = ⊥
    IsLevel (cons n nil) = IsLeaf false true false n
    IsLevel (cons n (cons m ms)) = IsTree n × IsLevel (cons m ms)
