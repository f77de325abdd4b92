-- ===== src/Handlers/Visits.antt =====
-- The nodes for which a traversal with the handlers of the library calls its callback.
use profit.Prelude.{ℕ, ◌≡◌, refl, ap, ◌∙◌, Bool, false, List, [], ◌∷◌, ◌++◌}
use profit.Traverse.{Node, opcode}
use profit.Traverse.Collect.{fold}
use profit.Traverse.Handled.{visit_step}
use profit.Handlers.{
  Context, header_context, object_context, color_palette_context, material_palette_context,
  instance_context, is_other, has_node,
}
use profit.Handlers.Follow.{enters, enter, leaves, leave}
use profit.Handlers.Counts.{AllLeave, dispatch-leaves, kept, for_user}

-- A callback that notes its node behind the nodes before.
abbrev pub note_node : Context (List Node) → Node → List Node
note_node c n = c.user ++ n ∷ []

module _ {U : Type 0} (same : Node → Node → Bool) (stale : Node → ℕ → ℕ) where
  enters-user : AllLeave (λ (c : Context U). c.user) (λ o. false) (enters same stale)
  unfolding header_context object_context color_palette_context material_palette_context
      instance_context
  enters-user = (
    λ e n c. kept (λ x. x.user) (is_other same c.header n) c _ refl,
    (
      λ e n c. refl,
      (
        λ e n c. refl,
        (
          λ e n c. refl,
          (
            λ e n c. refl,
            (
              λ e n c. kept (λ x. x.user) (is_other same c.color_palette n) c _ refl,
              (
                λ e n c. refl,
                (
                  λ e n c. kept (λ x. x.user) (has_node same c.instances n) c _ refl,
                  (
                    λ e n c. refl,
                    (
                      λ e n c. kept (λ x. x.user) (is_other same c.material_palette n) c _ refl,
                      (λ e n c. refl, (λ e n c. refl, (λ e n c. refl, tt))),
                    ),
                  ),
                ),
              ),
            ),
          ),
        ),
      ),
    ),
  )

  leave-user : (n : Node) (c : Context U) → (leave n c).user ≡ c.user
  leave-user n c =
      dispatch-leaves (λ (x : Context U). x.user) (λ o. false) leaves (opcode n) n c
        (λ e n c. refl, (λ e n c. refl, (λ e n c. refl, (λ e n c. refl, (λ e n c. refl, tt))))) refl

  enter-user : (n : Node) (c : Context U) → (enter same stale n c).user ≡ c.user
  enter-user n c =
      dispatch-leaves (λ (x : Context U). x.user) (λ o. false) (enters same stale) (opcode n) n c
        enters-user refl

  -- a callback that takes a step on what the client keeps
  abbrev pub on_user : (U → Node → U) → Context U → Node → Context U
  on_user h = visit_step (enter same stale) leave (for_user λ c n. h c.user n)

  pub fold-user :
      (h : U → Node → U) (l : List Node) (c : Context U)
      → (fold (on_user h) c l).user ≡ fold h c.user l
  unfolding fold
  fold-user h [] c = refl
  fold-user h (n ∷ l) c =
      fold-user h l (on_user h c n)
      ∙ ap (λ u. fold h u l) (leave-user n _ ∙ ap (λ u. h u n) (enter-user n c))
