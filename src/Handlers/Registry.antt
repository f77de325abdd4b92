-- ===== src/Handlers/Registry.antt =====
-- A look-up in the registry that prf_nodeinfo_init makes gives handlers that do what Follow says, for
-- each opcode.
use profit.Prelude.{
  ℕ, ◌≡◌, refl, sym, subst, ◌∙◌, Bool, inl, inr, Option, none, some, List, [], ◌++◌, map,
}
use profit.Traverse.{Node, NodeInfo, hook, nodeinfo_get, opcode}
use profit.Traverse.Handled.{Handles, Follows, AllFollow}
use profit.Handlers.{Context}
use profit.Handlers.Defaults.{nodeinfo_defaults}
use profit.Handlers.Init.{plain, record_types, nodeinfo_init}
use profit.Handlers.Init.Table.{last, set_all-get}
use profit.Handlers.Follow.{
  dispatch, enters, enter, leaves, leave, nothing, Good, entering-Good, leaving-Good, plain-Good,
  object-Good, matrix-Good,
}
use profit.Handlers.Absent.{
  IsAbsent, AllGood, HasNone, all_positive, are_listed, is_listed, last-append, last-cases,
  last-HasNone, check-ArePositive, dispatch-absent,
}

module _ (U : Type 0) (same : Node → Node → Bool) (stale : Node → ℕ → ℕ) (add mul : ℕ → ℕ → ℕ) where
  abbrev types : List (ℕ × NodeInfo (Context U))
  types = record_types U same stale add mul

  all-Good : AllGood (Good same stale) types
  unfolding dispatch
  all-Good = (
    entering-Good same stale 1 _ _ (λ n c. refl) (λ n c. refl),
    (
      plain-Good same stale 2 _ (λ n c. refl) (λ n c. refl),
      (
        object-Good same stale _,
        (
          plain-Good same stale 5 _ (λ n c. refl) (λ n c. refl),
          (
            entering-Good same stale 122 _ _ (λ n c. refl) (λ n c. refl),
            (
              leaving-Good same stale 123 _ _ (λ n c. refl) (λ n c. refl),
              (
                entering-Good same stale 21 _ _ (λ n c. refl) (λ n c. refl),
                (
                  leaving-Good same stale 22 _ _ (λ n c. refl) (λ n c. refl),
                  (
                    entering-Good same stale 10 _ _ (λ n c. refl) (λ n c. refl),
                    (
                      leaving-Good same stale 11 _ _ (λ n c. refl) (λ n c. refl),
                      (
                        entering-Good same stale 19 _ _ (λ n c. refl) (λ n c. refl),
                        (
                          leaving-Good same stale 20 _ _ (λ n c. refl) (λ n c. refl),
                          (
                            entering-Good same stale 67 _ _ (λ n c. refl) (λ n c. refl),
                            (
                              plain-Good same stale 68 _ (λ n c. refl) (λ n c. refl),
                              (
                                plain-Good same stale 8 _ (λ n c. refl) (λ n c. refl),
                                (
                                  plain-Good same stale 69 _ (λ n c. refl) (λ n c. refl),
                                  (
                                    plain-Good same stale 9 _ (λ n c. refl) (λ n c. refl),
                                    (
                                      plain-Good same stale 70 _ (λ n c. refl) (λ n c. refl),
                                      (
                                        plain-Good same stale 71 _ (λ n c. refl) (λ n c. refl),
                                        (
                                          plain-Good same stale 72 _ (λ n c. refl) (λ n c. refl),
                                          (
                                            plain-Good same stale 89 _ (λ n c. refl) (λ n c. refl),
                                            (
                                              entering-Good same stale 32 _ _ (λ n c. refl)
                                                  (λ n c. refl),
                                              (
                                                entering-Good same stale 113 _ _ (λ n c. refl)
                                                    (λ n c. refl),
                                                (
                                                  entering-Good same stale 64 _ _ (λ n c. refl)
                                                      (λ n c. refl),
                                                  (
                                                    entering-Good same stale 66 _ _ (λ n c. refl)
                                                        (λ n c. refl),
                                                    (
                                                      entering-Good same stale 62 _ _ (λ n c. refl)
                                                          (λ n c. refl),
                                                      (
                                                        plain-Good same stale 61 _ (λ n c. refl)
                                                            (λ n c. refl),
                                                        (
                                                          matrix-Good same stale add mul _,
                                                          (
                                                            entering-Good same stale 63 _ _
                                                            (λ n c. refl) (λ n c. refl),
                                                            (
                                                            entering-Good same stale 73 _ _
                                                            (λ n c. refl) (λ n c. refl),
                                                            tt,
                                                            ),
                                                          ),
                                                        ),
                                                      ),
                                                    ),
                                                  ),
                                                ),
                                              ),
                                            ),
                                          ),
                                        ),
                                      ),
                                    ),
                                  ),
                                ),
                              ),
                            ),
                          ),
                        ),
                      ),
                    ),
                  ),
                ),
              ),
            ),
          ),
        ),
      ),
    ),
  )

  absent-same :
      (op : ℕ) (n : Node) (c : Context U)
      → IsAbsent op types
      → (dispatch (enters same stale) op n c ≡ c) × (dispatch leaves op n c ≡ c)
  unfolding are_listed is_listed
  absent-same op n c absent = (
    dispatch-absent (enters same stale) types op n c refl absent,
    dispatch-absent leaves types op n c refl absent,
  )

  plain-Follows :
      (n : Node) (i : Option (NodeInfo (Context U)))
      → HasNone i
      → IsAbsent (opcode n) types
      → Follows (enter same stale) leave n i
  unfolding HasNone
  plain-Follows n i (no_entry, no_exit, no_traverse) absent = record {
    entering = λ s.
        subst (λ f. Handles (enter same stale n s.client) s (hook f n s)) (sym no_entry)
          (nothing _ s (absent-same (opcode n) n s.client absent).0);
    leaving = λ s.
        subst (λ f. Handles (leave n s.client) s (hook f n s)) (sym no_exit)
          (nothing _ s (absent-same (opcode n) n s.client absent).1);
    plain = no_traverse;
  }

  registered :
      (n : Node) (i : Option (NodeInfo (Context U)))
      → i ≡ last types (opcode n) (last (map plain nodeinfo_defaults) (opcode n) none)
      → Follows (enter same stale) leave n i
  registered n i e =
      let before : Option (NodeInfo (Context U)) =
        last (map plain nodeinfo_defaults) (opcode n) none in
      elim (last-cases (Good same stale) types (opcode n) before all-Good) [
        | inl (info, at, good) ↦
            subst (Follows (enter same stale) leave n) (sym (e ∙ at)) (good n refl)
        | inr (at, absent) ↦ subst (Follows (enter same stale) leave n) (sym (e ∙ at)) (
            plain-Follows n before
              (last-HasNone nodeinfo_defaults (opcode n) none
                (unfold HasNone in (refl, refl, refl)))
              absent)
      ]

  -- prf_nodeinfo_init registers all record types. A look-up of any opcode gives handlers that do to the
  -- state what the tables enters and leaves say for it; none of them traverses on its own.
  pub nodeinfo_init-Follows :
      (ts : List (Option (NodeInfo (Context U)))) × (nodeinfo_init U same stale add mul ≡ some ts)
      × AllFollow (enter same stale) leave ts
  unfolding nodeinfo_init all_positive
  nodeinfo_init-Follows =
      let defaults : List (ℕ × NodeInfo (Context U)) = map plain nodeinfo_defaults in
      let (ts, run, get) =
        set_all-get (defaults ++ types) [] (check-ArePositive (defaults ++ types) refl) in
      let found : (op : ℕ) → nodeinfo_get ts op ≡ last types op (last defaults op none) =
        λ op. get op ∙ (unfold nodeinfo_get in last-append defaults types op none) in
      (ts, run, λ n. registered n (nodeinfo_get ts (opcode n)) (found (opcode n)))
