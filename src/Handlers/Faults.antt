-- ===== src/Handlers/Faults.antt =====
-- The handlers that assert something or read the data of a node: src/nodes/header.c, object.c, matrix.c and
-- vertex_palette.c.
use profit.Prelude.{
  ℕ, ◌≤◌, ◌≡◌, refl, ap, ◌∙◌, Bool, true, false, Bool-cases, inl, inr, Option, none, List, [], ◌∷◌,
  ◌==◌, ◌||◌, arith,
}
use profit.Traverse.{Node, opcode}
use profit.Traverse.Collect.{fold}
use profit.Traverse.Handled.{visit_step}
use profit.Handlers.{
  Context, header_context, object_context, color_palette_context, material_palette_context,
  instance_context, is_other, has_node, lacks_data,
}
use profit.Handlers.Follow.{dispatch, enters, enter, leaves, leave}
use profit.Handlers.Counts.{AllLeave, dispatch-leaves, kept, count_op, for_user}

-- The record types whose handlers read the data of their node
abbrev pub reads_data : ℕ → Bool
reads_data op = op == 1 || op == 4 || op == 49

-- Those, and the types whose records the look-ups of materials and textures read
abbrev pub needs_data : ℕ → Bool
needs_data op = reads_data op || op == 64 || op == 113

-- The nodes of those types have data.
abbrev pub HaveData : List Node → Type 0
HaveData [] = Unit {0}
HaveData (n ∷ ns) = (needs_data (opcode n) ≡ true → lacks_data n ≡ false) × HaveData ns

module _ {U : Type 0} (same : Node → Node → Bool) (stale : Node → ℕ → ℕ) where
  others-faulted :
      AllLeave (λ (c : Context U). c.faulted) (λ o. o == 67 || reads_data o) (enters same stale)
  unfolding color_palette_context material_palette_context instance_context
  others-faulted = (
    λ e n c. cc,
    (
      λ e n c. cc,
      (
        λ e n c. refl,
        (
          λ e n c. refl,
          (
            λ e n c. refl,
            (
              λ e n c. kept (λ x. x.faulted) (is_other same c.color_palette n) c _ refl,
              (
                λ e n c. cc,
                (
                  λ e n c. kept (λ x. x.faulted) (has_node same c.instances n) c _ refl,
                  (
                    λ e n c. refl,
                    (
                      λ e n c. kept (λ x. x.faulted) (is_other same c.material_palette n) c _ refl,
                      (λ e n c. cc, (λ e n c. refl, (λ e n c. refl, tt))),
                    ),
                  ),
                ),
              ),
            ),
          ),
        ),
      ),
    ),
  )

  others-palette : AllLeave (λ (c : Context U). c.vertex_palette) (λ o. o == 67) (enters same stale)
  unfolding header_context object_context color_palette_context material_palette_context
      instance_context
  others-palette = (
    λ e n c. kept (λ x. x.vertex_palette) (is_other same c.header n) c _ refl,
    (
      λ e n c. refl,
      (
        λ e n c. refl,
        (
          λ e n c. refl,
          (
            λ e n c. refl,
            (
              λ e n c. kept (λ x. x.vertex_palette) (is_other same c.color_palette n) c _ refl,
              (
                λ e n c. refl,
                (
                  λ e n c. kept (λ x. x.vertex_palette) (has_node same c.instances n) c _ refl,
                  (
                    λ e n c. refl,
                    (
                      λ e n c.
                          kept (λ x. x.vertex_palette) (is_other same c.material_palette n) c _
                            refl,
                      (λ e n c. cc, (λ e n c. refl, (λ e n c. refl, tt))),
                    ),
                  ),
                ),
              ),
            ),
          ),
        ),
      ),
    ),
  )

  leave-faults :
      {B : Type 0} (get : Bool × Option Node → B) (n : Node) (c : Context U)
      → get ((leave n c).faulted, (leave n c).vertex_palette) ≡ get (c.faulted, c.vertex_palette)
  leave-faults get n c =
      dispatch-leaves (λ (x : Context U). get (x.faulted, x.vertex_palette)) (λ o. false) leaves
        (opcode n) n c
        (λ e n c. refl, (λ e n c. refl, (λ e n c. refl, (λ e n c. refl, (λ e n c. refl, tt))))) refl

  header-faulted :
      (n : Node) (c : Context U)
      → c.faulted ≡ false
      → lacks_data n ≡ false
      → (header_context same stale n c).faulted ≡ false
  unfolding header_context
  header-faulted n c good has = elim (Bool-cases (is_other same c.header n)) [
    | inl e ↦ rw e good
    | inr e ↦ rw e (ground arith)
  ]

  -- Entering a node marks no fault, where the conditions of its type hold.
  enter-faulted :
      (op : ℕ) (n : Node) (c : Context U)
      → c.faulted ≡ false
      → (op ≡ 67 → is_other same c.vertex_palette n ≡ false)
      → (reads_data op ≡ true → lacks_data n ≡ false)
      → (dispatch (enters same stale) op n c).faulted ≡ false
  unfolding dispatch object_context
  enter-faulted op n c good alone held = elim (Bool-cases (op == 67)) [
    | inl e ↦
        let at : op ≡ 67 = ground arith in
        let free = alone at in
        ap (λ o. (dispatch (enters same stale) o n c).faulted) at ∙ (rw (good, free) refl)
    | inr e ↦ elim (Bool-cases (reads_data op)) [
      | inl r ↦
          let has = held r in
          elim (Bool-cases (op == 1)) [
            | inl p ↦
                let at : op ≡ 1 = ground arith in
                ap (λ o. (dispatch (enters same stale) o n c).faulted) at
                ∙ header-faulted n c good has
            | inr p ↦ elim (Bool-cases (op == 4)) [
              | inl q ↦
                  let at : op ≡ 4 = ground arith in
                  ap (λ o. (dispatch (enters same stale) o n c).faulted) at ∙ (rw (good, has) refl)
              | inr q ↦
                  let at : op ≡ 49 = ground arith in
                  ap (λ o. (dispatch (enters same stale) o n c).faulted) at ∙ (rw (good, has) refl)
            ]
          ]
      | inr r ↦
          dispatch-leaves (λ x. x.faulted) (λ o. o == 67 || reads_data o) (enters same stale) op n c
            others-faulted (ground arith)
          ∙ good
    ]
  ]

  enter-palette :
      (n : Node) (c : Context U)
      → (opcode n == 67) ≡ false
      → (enter same stale n c).vertex_palette ≡ c.vertex_palette
  enter-palette n c e =
      dispatch-leaves (λ x. x.vertex_palette) (λ o. o == 67) (enters same stale) (opcode n) n c
        others-palette e

  -- what a visit does
  abbrev after : (Context U → Node → U) → Context U → Node → Context U
  after g = visit_step (enter same stale) leave (for_user g)

  module _ (g : Context U → Node → U) where
    step-faulted :
        (n : Node) (c : Context U)
        → c.faulted ≡ false
        → (opcode n ≡ 67 → is_other same c.vertex_palette n ≡ false)
        → (reads_data (opcode n) ≡ true → lacks_data n ≡ false)
        → (after g c n).faulted ≡ false
    step-faulted n c good alone held =
        leave-faults (λ p. p.0) n _ ∙ enter-faulted (opcode n) n c good alone held

    step-palette :
        (n : Node) (c : Context U)
        → (opcode n == 67) ≡ false
        → (after g c n).vertex_palette ≡ c.vertex_palette
    step-palette n c e = leave-faults (λ p. p.1) n _ ∙ enter-palette n c e

    -- Without a vertex palette among the nodes, nothing fails.
    fold-plain :
        (l : List Node) (c : Context U)
        → c.faulted ≡ false
        → count_op 67 l ≡ 0
        → HaveData l
        → (fold (after g) c l).faulted ≡ false
    unfolding fold count_op
    fold-plain [] c good none_left held = good
    fold-plain (n ∷ l) c good none_left (here, held) =
        fold-plain l (after g c n)
          (step-faulted n c good (λ e. absurd (ground arith)) (λ e. here (ground arith)))
          (ground arith) held

    -- One vertex palette does not either, where the state has none.
    pub fold-faulted :
        (l : List Node) (c : Context U)
        → c.faulted ≡ false
        → c.vertex_palette ≡ none
        → count_op 67 l ≤ 1
        → HaveData l
        → (fold (after g) c l).faulted ≡ false
    unfolding fold count_op is_other
    fold-faulted [] c good free one held = good
    fold-faulted (n ∷ l) c good free one (here, held) =
        let next =
          step-faulted n c good (λ e. ap (λ p. is_other same p n) free)
            (λ e. here (ground arith)) in
        elim (Bool-cases (opcode n == 67)) [
          | inl e ↦ fold-plain l (after g c n) next (ground arith) held
          | inr e ↦
              fold-faulted l (after g c n) next (step-palette n c e ∙ free) (ground arith) held
        ]
