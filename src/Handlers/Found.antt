-- ===== src/Handlers/Found.antt =====
-- What the look-ups find in a model that is traversed: the records of the model, in its order.
use profit.Prelude.{
  ◌≤◌, false, ℕ, ◌/◌, ◌^◌, ◌<◌, ◌≡◌, refl, sym, ap, ◌∙◌, Bool, false, Bool-cases, inl, inr, Option,
  none, some, List, [], ◌∷◌, ◌++◌, ◌==◌, ◌||◌, arith, if◌then◌else◌, ltb, append-nil, append_assoc,
}
use profit.State.{Matrix}
use profit.Traverse.{Node, NodeInfo, NodeState, opcode, nil, cons, stopped, model_traverse_io}
use profit.Traverse.Collect.{order, height, IsFull, fold}
use profit.Traverse.Order.{no_skip}
use profit.Traverse.Visitor.{visitor}
use profit.Traverse.Handled.{visit_step, model_traverse_io-handled}
use profit.Handlers.{Context, header_context, material_palette_context, is_other}
use profit.Handlers.Init.{nodeinfo_init}
use profit.Handlers.Follow.{dispatch, enters, enter, leave}
use profit.Handlers.Registry.{nodeinfo_init-Follows}
use profit.Handlers.Kept.{enters-AllLeave, leave-lists}
use profit.Handlers.Faults.{HaveData, fold-faulted}
use profit.Handlers.Counts.{AllLeave, dispatch-leaves, kept, for_user, count_op}
use profit.Handlers.Lookup.{
  Material, of_palette, find_member, record_material, length_of_node, palette_data_size,
  material_lookup, texture_lookup,
}

-- The nodes with an opcode, in their order
unfoldable pub with_op : ℕ → List Node → List Node
with_op op [] = []
with_op op (n ∷ ns) = let rest = with_op op ns in if opcode n == op then n ∷ rest else rest

module _ {U : Type 0} (same : Node → Node → Bool) (stale : Node → ℕ → ℕ)
    (g : Context U → Node → U) where
  step : Context U → Node → Context U
  step = visit_step (enter same stale) leave (for_user g)

  enters-textures : AllLeave (λ (c : Context U). c.textures) (λ o. o == 64) (enters same stale)
  unfolding header_context material_palette_context
  enters-textures =
      enters-AllLeave (λ q. q.4) same stale (λ o. o == 64)
        (λ e n c. kept (λ x. x.textures) (is_other same c.header n) c _ refl) (λ e n c. refl)
        (λ e n c. refl) (λ e n c. refl) (λ e n c. cc)
        (λ e n c. kept (λ x. x.textures) (is_other same c.material_palette n) c _ refl)
        (λ e n c. refl) (λ e n c. refl)

  leave-textures : (n : Node) (c : Context U) → (leave n c).textures ≡ c.textures
  leave-textures n c = leave-lists (λ q. q.0) n c

  enters-materials :
      AllLeave (λ (c : Context U). c.materials) (λ o. o == 1 || o == 113) (enters same stale)
  unfolding material_palette_context
  enters-materials =
      enters-AllLeave (λ q. q.5) same stale (λ o. o == 1 || o == 113) (λ e n c. cc) (λ e n c. refl)
        (λ e n c. refl) (λ e n c. refl) (λ e n c. refl)
        (λ e n c. kept (λ x. x.materials) (is_other same c.material_palette n) c _ refl)
        (λ e n c. cc) (λ e n c. refl)

  leave-materials : (n : Node) (c : Context U) → (leave n c).materials ≡ c.materials
  leave-materials n c = leave-lists (λ q. q.1) n c

  enters-material_palette :
      AllLeave (λ (c : Context U). c.material_palette) (λ o. o == 66) (enters same stale)
  unfolding header_context
  enters-material_palette =
      enters-AllLeave (λ q. q.6) same stale (λ o. o == 66)
        (λ e n c. kept (λ x. x.material_palette) (is_other same c.header n) c _ refl)
        (λ e n c. refl) (λ e n c. refl) (λ e n c. refl) (λ e n c. refl) (λ e n c. cc)
        (λ e n c. refl) (λ e n c. refl)

  leave-material_palette :
      (n : Node) (c : Context U) → (leave n c).material_palette ≡ c.material_palette
  leave-material_palette n c = leave-lists (λ q. q.2) n c

  step-textures :
      (n : Node) (c : Context U)
      → (step c n).textures ≡ (if opcode n == 64 then c.textures ++ n ∷ [] else c.textures)
  unfolding dispatch step
  step-textures n c = leave-textures n _ ∙ (elim (Bool-cases (opcode n == 64)) [
    | inl e ↦
        let at : opcode n ≡ 64 = ground arith in
        rw e (ap (λ o. (dispatch (enters same stale) o n c).textures) {x = opcode n} at)
    | inr e ↦ rw e (
        dispatch-leaves (λ x. x.textures) (λ o. o == 64) (enters same stale) (opcode n) n c
          enters-textures e)
  ])

  step-materials :
      (n : Node) (c : Context U)
      → (opcode n == 1) ≡ false
      → (step c n).materials ≡ (if opcode n == 113 then c.materials ++ n ∷ [] else c.materials)
  unfolding dispatch step
  step-materials n c off = leave-materials n _ ∙ (elim (Bool-cases (opcode n == 113)) [
    | inl e ↦
        let at : opcode n ≡ 113 = ground arith in
        rw e (ap (λ o. (dispatch (enters same stale) o n c).materials) {x = opcode n} at)
    | inr e ↦ rw e (
        dispatch-leaves (λ x. x.materials) (λ o. o == 1 || o == 113) (enters same stale) (opcode n)
          n c enters-materials (rw (off, e) refl))
  ])

  step-material_palette :
      (n : Node) (c : Context U)
      → (opcode n == 66) ≡ false
      → (step c n).material_palette ≡ c.material_palette
  unfolding step
  step-material_palette n c off =
      leave-material_palette n _
      ∙ dispatch-leaves (λ x. x.material_palette) (λ o. o == 66) (enters same stale) (opcode n) n c
          enters-material_palette off

  -- Textures are kept in the order of the nodes.
  fold-textures :
      (l : List Node) (c : Context U) → (fold step c l).textures ≡ c.textures ++ with_op 64 l
  unfolding fold with_op
  fold-textures [] c = sym (append-nil c.textures)
  fold-textures (n ∷ l) c =
      fold-textures l (step c n)
      ∙ ap (λ ts. ts ++ with_op 64 l) (step-textures n c)
      ∙ (elim (Bool-cases (opcode n == 64)) [
        | inl e ↦ rw e (append_assoc c.textures (n ∷ []) (with_op 64 l))
        | inr e ↦ rw e refl
      ])

  -- So are materials, where no node is a header.
  fold-materials :
      (l : List Node) (c : Context U)
      → count_op 1 l ≡ 0
      → (fold step c l).materials ≡ c.materials ++ with_op 113 l
  unfolding fold with_op count_op
  fold-materials [] c none_left = sym (append-nil c.materials)
  fold-materials (n ∷ l) c none_left =
      let off : (opcode n == 1) ≡ false = ground arith in
      fold-materials l (step c n) (ground arith)
      ∙ ap (λ ts. ts ++ with_op 113 l) (step-materials n c off)
      ∙ (elim (Bool-cases (opcode n == 113)) [
        | inl e ↦ rw e (append_assoc c.materials (n ∷ []) (with_op 113 l))
        | inr e ↦ rw e refl
      ])

  fold-material_palette :
      (l : List Node) (c : Context U)
      → count_op 66 l ≡ 0
      → (fold step c l).material_palette ≡ c.material_palette
  unfolding fold count_op
  fold-material_palette [] c none_left = refl
  fold-material_palette (n ∷ l) c none_left =
      fold-material_palette l (step c n) (ground arith) ∙ step-material_palette n c (ground arith)

  -- A header empties the materials of a state without one.
  header-empties :
      (n : Node) (c : Context U) → c.header ≡ none → (header_context same stale n c).materials ≡ []
  unfolding header_context is_other
  header-empties n c fresh =
      let free : is_other same c.header n ≡ false = ap (λ h. is_other same h n) fresh in
      rw free refl

  step-header :
      (n : Node) (c : Context U) → opcode n ≡ 1 → c.header ≡ none → (step c n).materials ≡ []
  unfolding dispatch step
  step-header n c at fresh =
      leave-materials n _
      ∙ ap (λ o. (dispatch (enters same stale) o n c).materials) {x = opcode n} at
      ∙ header-empties n c fresh

looked :
    {U : Type 0} (stale : Node → ℕ → ℕ) (c : Context U) (l : List Node) (index : ℕ)
    → c.material_palette ≡ none
    → c.materials ≡ l
    → material_lookup stale c index ≡ record_material (find_member stale 0 index l)
unfolding material_lookup
looked stale c l index free e =
    ap
      (λ o. elim o as (λ _. Option Material) [
        | none ↦ record_material (find_member stale 0 index c.materials)
        | some p ↦
            if ltb index (length_of_node p / palette_data_size)
            then some (of_palette p index)
            else none
      ])
      free
    ∙ ap (λ ms. record_material (find_member stale 0 index ms)) e

module _ {U : Type 0} (same : Node → Node → Bool) (stale : Node → ℕ → ℕ) (add mul : ℕ → ℕ → ℕ)
    (g : Context U → Node → U) (junk : Matrix) where
  -- A traversal of a model with the registry that prf_nodeinfo_init makes, and a callback that always goes
  -- on and changes only what the client keeps, returns without a fault, where no array of children in
  -- the model is empty and it has fewer than 2^16 levels, its nodes hold one vertex palette at most, its
  -- header, object, matrix, material and texture records have data, and the state began without a fault and a palette.
  -- Where its nodes are the header and others that are no
  -- headers or old material palettes, and the state began without a header and an old palette, a
  -- material is looked up as the first material record of the model with its index, and where it began
  -- without textures, a texture as the first texture record with its index.
  pub model_traverse_io-lookups :
      (header : Node) (start : Context U) (below : List Node)
      → height (cons header nil) < 2 ^ 16
      → IsFull (cons header nil)
      → order no_skip (cons header nil) ≡ header ∷ below
      → opcode header ≡ 1
      → count_op 1 below ≡ 0
      → count_op 66 below ≡ 0
      → count_op 67 (header ∷ below) ≤ 1
      → HaveData (header ∷ below)
      → start.faulted ≡ false
      → start.vertex_palette ≡ none
      → start.header ≡ none
      → start.material_palette ≡ none
      → start.textures ≡ []
      → (ts : List (Option (NodeInfo (Context U)))) × (t : ℕ) × (s' : NodeState (Context U))
        × (nodeinfo_init U same stale add mul ≡ some ts)
        × (model_traverse_io ts (some (visitor no_skip (for_user g))) junk start header
            ≡ stopped t s' (cons header nil ∷ []))
        × (s'.client.faulted ≡ false)
        × ((index : ℕ)
            → material_lookup stale s'.client index
              ≡ record_material (find_member stale 0 index (with_op 113 below)))
        × ((index : ℕ)
            → texture_lookup stale s'.client index ≡ find_member stale 1 index (with_op 64 below))
  unfolding material_lookup texture_lookup fold step
  model_traverse_io-lookups header start below low full all top one no_palette alone held good free
        fresh new bare =
      let (ts, init, follow) = nodeinfo_init-Follows U same stale add mul in
      let (t, s', run, client, _, _) =
        model_traverse_io-handled (enter same stale) leave (for_user g) ts follow junk header start
          low full in
      let first : Context U = step same stale g start header in
      let c : s'.client ≡ fold (step same stale g) first below =
        client ∙ ap (fold (step same stale g) start) all in
      let palette : s'.client.material_palette ≡ none =
        ap (λ x. x.material_palette) c
        ∙ fold-material_palette same stale g below first no_palette
        ∙ step-material_palette same stale g header start (ground arith)
        ∙ new in
      let materials : s'.client.materials ≡ with_op 113 below =
        ap (λ x. x.materials) c
        ∙ fold-materials same stale g below first one
        ∙ ap (λ l. l ++ with_op 113 below) (step-header same stale g header start top fresh) in
      let off : (opcode header == 64) ≡ false = ground arith in
      let untouched : (if opcode header == 64
            then start.textures ++ header ∷ []
            else start.textures)
          ≡ [] =
        rw off bare in
      let textures : s'.client.textures ≡ with_op 64 below =
        ap (λ x. x.textures) c
        ∙ fold-textures same stale g below first
        ∙ ap (λ l. l ++ with_op 64 below) (step-textures same stale g header start ∙ untouched) in
      (
        ts,
        t,
        s',
        init,
        run,
        ap (λ x. x.faulted) client
            ∙ ap (λ l. (fold (step same stale g) start l).faulted) all
            ∙ fold-faulted same stale g (header ∷ below) start good free alone held,
        λ index. looked stale s'.client (with_op 113 below) index palette materials,
        λ index. ap (find_member stale 1 index) textures,
      )
