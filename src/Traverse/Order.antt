-- ===== src/Traverse/Order.antt =====
-- Callbacks that note the nodes that they are called for.
use profit.Prelude.{ℕ, ◌≡◌, sym, ◌∙◌, Bool, false, List, [], ◌∷◌, ◌++◌, append_assoc, append-nil}
use profit.Traverse.{Node, NodeState}
use profit.Traverse.Collect.{fold}
use profit.Traverse.Visitor.{visitor}

-- No node is skipped but the deleted ones.
abbrev pub no_skip : Node → Bool
no_skip n = false

-- The callback that notes the node it is called for, and goes on.
abbrev pub note : NodeState (List Node) → (ℕ × NodeState (List Node))
note = visitor no_skip λ l n. l ++ n ∷ []

pub fold-note : (l ns : List Node) → fold (λ l n. l ++ n ∷ []) l ns ≡ l ++ ns
unfolding fold
fold-note l [] = sym (append-nil l)
fold-note l (n ∷ ns) = fold-note (l ++ n ∷ []) ns ∙ append_assoc l (n ∷ []) ns
