-- ===== src/Handlers/Counters.antt =====
-- The counters that push and pop records keep in the state of a traversal: push_level, subface_level,
-- extension_level and attribute_level.
use profit.Prelude.{
  ◌≤◌, none, false, ℕ, ◌+◌, ◌%◌, ◌^◌, ◌<◌, ◌≡◌, refl, ap, ◌∙◌, Bool, Option, some, List, [], ◌∷◌,
  ◌==◌,
}
use profit.State.{Matrix}
use profit.Traverse.{Node, NodeInfo, NodeState, nil, cons, stopped, model_traverse_io}
use profit.Traverse.Collect.{order, height, IsFull}
use profit.Traverse.Order.{no_skip}
use profit.Traverse.Visitor.{visitor}
use profit.Traverse.Handled.{model_traverse_io-handled}
use profit.Handlers.{Context, up_16, header_context, material_palette_context, is_other}
use profit.Handlers.Init.{nodeinfo_init}
use profit.Handlers.Follow.{dispatch, enters, enter, leave}
use profit.Handlers.Registry.{nodeinfo_init-Follows}
use profit.Handlers.Kept.{Seen, seen, IsKept, enters-AllLeave, leaves-AllLeave}
use profit.Handlers.Faults.{HaveData, fold-faulted}
use profit.Handlers.Counts.{AllLeave, kept, Counts, step, fold-count, count_op, for_user}

-- The four counters of a context
abbrev Counters : Type 0
Counters = ℕ × ℕ × ℕ × ℕ

abbrev counters : Seen → Counters
counters q = (q.0, q.1, q.2, q.3)

-- The entry handlers leave a counter, where those of the records with a counter do.
counting-AllLeave :
    {U : Type 0} (same : Node → Node → Bool) (stale : Node → ℕ → ℕ) (get : Counters → ℕ)
    (but : ℕ → Bool)
    → let part : Seen → ℕ = λ q. get (counters q) in
      IsKept {U = U} part but 10 (λ n c. record c { push_level = up_16 c.push_level })
      → IsKept {U = U} part but 19 (λ n c. record c { subface_level = up_16 c.subface_level })
      → IsKept {U = U} part but 21 (λ n c. record c { extension_level = up_16 c.extension_level })
      → IsKept {U = U} part but 122 (λ n c. record c { attribute_level = up_16 c.attribute_level })
      → AllLeave (λ (c : Context U). part (seen c)) but (enters same stale)
unfolding header_context material_palette_context
counting-AllLeave same stale get but push subface extension attribute =
    enters-AllLeave (λ q. get (counters q)) same stale but
      (λ e n c. kept (λ x. get (counters (seen x))) (is_other same c.header n) c _ refl) push
      subface extension (λ e n c. refl)
      (λ e n c. kept (λ x. get (counters (seen x))) (is_other same c.material_palette n) c _ refl)
      (λ e n c. refl) attribute

module _ {U : Type 0} (same : Node → Node → Bool) (stale : Node → ℕ → ℕ) where
  push_level-Counts : Counts {U = U} same stale (λ c. c.push_level) 10 11
  unfolding dispatch
  push_level-Counts = record {
    apart = refl;
    raises = λ n c. refl;
    lowers = λ n c. refl;
    enters_leave =
        counting-AllLeave same stale (λ q. q.0) (λ o. o == 10) (λ e n c. cc) (λ e n c. refl)
          (λ e n c. refl) (λ e n c. refl);
    leaves_leave =
        leaves-AllLeave (λ q. q.0) (λ o. o == 11) (λ e n c. cc) (λ e n c. refl) (λ e n c. refl)
          (λ e n c. refl);
    user = λ c u. refl;
  }

  subface_level-Counts : Counts {U = U} same stale (λ c. c.subface_level) 19 20
  unfolding dispatch
  subface_level-Counts = record {
    apart = refl;
    raises = λ n c. refl;
    lowers = λ n c. refl;
    enters_leave =
        counting-AllLeave same stale (λ q. q.1) (λ o. o == 19) (λ e n c. refl) (λ e n c. cc)
          (λ e n c. refl) (λ e n c. refl);
    leaves_leave =
        leaves-AllLeave (λ q. q.1) (λ o. o == 20) (λ e n c. refl) (λ e n c. cc) (λ e n c. refl)
          (λ e n c. refl);
    user = λ c u. refl;
  }

  extension_level-Counts : Counts {U = U} same stale (λ c. c.extension_level) 21 22
  unfolding dispatch
  extension_level-Counts = record {
    apart = refl;
    raises = λ n c. refl;
    lowers = λ n c. refl;
    enters_leave =
        counting-AllLeave same stale (λ q. q.2) (λ o. o == 21) (λ e n c. refl) (λ e n c. refl)
          (λ e n c. cc) (λ e n c. refl);
    leaves_leave =
        leaves-AllLeave (λ q. q.2) (λ o. o == 22) (λ e n c. refl) (λ e n c. refl) (λ e n c. cc)
          (λ e n c. refl);
    user = λ c u. refl;
  }

  attribute_level-Counts : Counts {U = U} same stale (λ c. c.attribute_level) 122 123
  unfolding dispatch
  attribute_level-Counts = record {
    apart = refl;
    raises = λ n c. refl;
    lowers = λ n c. refl;
    enters_leave =
        counting-AllLeave same stale (λ q. q.3) (λ o. o == 122) (λ e n c. refl) (λ e n c. refl)
          (λ e n c. refl) (λ e n c. cc);
    leaves_leave =
        leaves-AllLeave (λ q. q.3) (λ o. o == 123) (λ e n c. refl) (λ e n c. refl) (λ e n c. refl)
          (λ e n c. cc);
    user = λ c u. refl;
  }

-- In a state, a counter with the records that raise it and lower it: it is what it was, and one more for
-- each of the former and one less for each of the latter, in 16 bits.
abbrev pub Counted :
    {U : Type 0} → (Context U → ℕ) → ℕ → ℕ → Context U → Context U → List Node → Type 0
Counted get push pop c c' l =
    (get c' + count_op pop l) % 2 ^ 16 ≡ (get c + count_op push l) % 2 ^ 16

module _ {U : Type 0} (same : Node → Node → Bool) (stale : Node → ℕ → ℕ) (add mul : ℕ → ℕ → ℕ)
    (g : Context U → Node → U) (junk : Matrix) where
  -- A traversal of a model with the registry that prf_nodeinfo_init makes, and a callback that always goes
  -- on and changes only what the client keeps, returns without a fault, where no array of children in
  -- the model is empty and it has fewer than 2^16 levels, its nodes hold one vertex palette at most, its
  -- header, object, matrix, material and texture records have data, and the state began without a fault and a palette. Over the nodes that it came to, each of the four counters
  -- of the state has risen by the push records of its kind and fallen by the pop records, in 16 bits.
  pub model_traverse_io-levels :
      (header : Node) (start : Context U)
      → height (cons header nil) < 2 ^ 16
      → IsFull (cons header nil)
      → count_op 67 (order no_skip (cons header nil)) ≤ 1
      → HaveData (order no_skip (cons header nil))
      → start.faulted ≡ false
      → start.vertex_palette ≡ none
      → let l = order no_skip (cons header nil) in
        (ts : List (Option (NodeInfo (Context U)))) × (t : ℕ) × (s' : NodeState (Context U))
        × (nodeinfo_init U same stale add mul ≡ some ts)
        × (model_traverse_io ts (some (visitor no_skip (for_user g))) junk start header
            ≡ stopped t s' (cons header nil ∷ []))
        × (s'.client.faulted ≡ false)
        × Counted (λ c. c.push_level) 10 11 start s'.client l
        × Counted (λ c. c.subface_level) 19 20 start s'.client l
        × Counted (λ c. c.extension_level) 21 22 start s'.client l
        × Counted (λ c. c.attribute_level) 122 123 start s'.client l
  model_traverse_io-levels header start low full one held good free =
      let (ts, init, follow) = nodeinfo_init-Follows U same stale add mul in
      let (t, s', run, client, level, depth) =
        model_traverse_io-handled (enter same stale) leave (for_user g) ts follow junk header start
          low full in
      let l : List Node = order no_skip (cons header nil) in
      let counted : (get : Context U → ℕ) (a b : ℕ)
          → Counts same stale get a b
          → Counted get a b start s'.client l =
        λ get a b k.
          ap (λ c. (get c + count_op b l) % 2 ^ 16) client
          ∙ (unfold step in fold-count same stale get a b k g l start) in
      (
        ts,
        t,
        s',
        init,
        run,
        ap (λ c. c.faulted) client ∙ fold-faulted same stale g l start good free one held,
        counted (λ c. c.push_level) 10 11 (push_level-Counts same stale),
        counted (λ c. c.subface_level) 19 20 (subface_level-Counts same stale),
        counted (λ c. c.extension_level) 21 22 (extension_level-Counts same stale),
        counted (λ c. c.attribute_level) 122 123 (attribute_level-Counts same stale),
      )
