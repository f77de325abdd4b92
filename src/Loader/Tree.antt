-- ===== src/Loader/Tree.antt =====
-- The loader builds the tree whose nodes it reads.
use profit.Prelude.{
  ℕ, ◌≡◌, refl, sym, ap, ◌∙◌, Option, some, List, [], ◌∷◌, inl, inr, ◌>>=◌, append-nil,
}
use profit.Record.{Loaded}
use profit.Traverse.{Node, Nodes, Children, NodeInfo, prf_node, null, array, nil, cons}
use profit.Loader.{Levels, append_node, insert_node, insert_all, lowest, header_of, no_levels}
use profit.Loader.Shape.{reading, IsTree, AreChildren, Below, IsLevel}
use profit.Loader.Steps.{
  holds, joined, joined-append, joined-last, joined-nil, append-IsReady, reading-cons, levels,
  IsReady, both, insert_node-plain, insert_node-ancillary, insert_node-push, insert_node-pop,
}

module _ {W : Type 0} (nodetypes : List (Option (NodeInfo W))) where
  -- Nodes are read, and the levels are then as given, up to what is above.
  abbrev Reach : List Node → Levels → List Nodes → Nodes → Type 0
  Reach ns l b h = (a : List Nodes) × (insert_all nodetypes ns l ≡ some (levels b h a))

  one :
      (n : Node) (ns : List Node) (l l' : Levels)
      → insert_node nodetypes n l ≡ some l'
      → insert_all nodetypes (n ∷ ns) l ≡ insert_all nodetypes ns l'
  unfolding insert_all
  one n ns l l' e = ap (λ r. r >>= insert_all nodetypes ns) e

  mutual
    unfolding IsTree AreChildren Below IsLevel reading insert_all joined

    tree-Reach :
        (n : Node) (b a : List Nodes) (h : Nodes)
        → IsTree nodetypes n
        → Reach (reading (cons n nil)) (levels b h a) b (append_node h n)
    tree-Reach (prf_node o f d null) b a h (known, _) = (
      a,
      one (prf_node o f d null) [] (levels b h a) _ (insert_node-plain nodetypes o f d b a h known),
    )
    tree-Reach (prf_node o f d (array nil)) b a h (known, bad) = absurd bad
    tree-Reach (prf_node o f d (array (cons m ms))) b a h (known, kids) =
        let (a', run) = Below-Reach (cons m ms) b a h o f d nil kids tt in
        (
          a',
          one (prf_node o f d null) _ (levels b h a) _
                (insert_node-plain nodetypes o f d b a h known)
              ∙ ap
                  (λ ns. insert_all nodetypes ns (levels b (append_node h (prf_node o f d null)) a))
                  (append-nil (reading (cons m ms)))
              ∙ run,
        )

    Below-Reach :
        (ns : Nodes) (b a : List Nodes) (h : Nodes) (o f : ℕ) (d : Loaded) (done : Nodes)
        → Below nodetypes ns
        → IsReady done a
        → Reach
            (reading ns)
            (levels b (append_node h (prf_node o f d (holds done))) a)
            b
            (append_node h (prf_node o f d (holds (joined done ns))))
    Below-Reach nil b a h o f d done kids ready = (
      a,
      ap (λ k. some (levels b (append_node h (prf_node o f d (holds k))) a))
          (sym (joined-nil done)),
    )
    Below-Reach (cons (prf_node o' f' d' (array ms)) ns) b a h o f d done (inl (bad, _)) ready =
        absurd bad
    Below-Reach (cons (prf_node o' f' d' (array ms)) ns) b a h o f d done (inr (bad, _)) ready =
        absurd bad
    Below-Reach (cons (prf_node o' f' d' null) ns) b a h o f d done (inl (known, kids)) ready =
        let n = prf_node o' f' d' null in
        let (more, step) = insert_node-ancillary nodetypes n b a h o f d done known ready in
        let (a', run) =
          Below-Reach ns b (append_node done n ∷ more) h o f d (append_node done n) kids
            (append-IsReady done n more) in
        (
          a',
          one n (reading ns) _ _ step
              ∙ run
              ∙ ap (λ k. some (levels b (append_node h (prf_node o f d (holds k))) a'))
                  (joined-append done n ns),
        )
    Below-Reach (cons (prf_node o' f' d' null) ns) b a h o f d done (inr (known, level)) ready =
        let n = prf_node o' f' d' null in
        let (more, step) = insert_node-push nodetypes n b a h o f d done known ready in
        let (a', run) = level-Reach ns b more h (append_node done n) o f d (holds done) level in
        (
          a',
          one n (reading ns) _ _ step
              ∙ run
              ∙ ap (λ k. some (levels b (append_node h (prf_node o f d (holds k))) a'))
                  (joined-append done n ns),
        )

    level-Reach :
        (ns : Nodes) (b a : List Nodes) (h now : Nodes) (o f : ℕ) (d : Loaded) (c : Children)
        → IsLevel nodetypes ns
        → Reach
            (reading ns)
            (levels (append_node h (prf_node o f d c) ∷ b) now a)
            b
            (append_node h (prf_node o f d (holds (joined now ns))))
    level-Reach nil b a h now o f d c bad = absurd bad
    level-Reach (cons (prf_node o' f' d' (array ms)) nil) b a h now o f d c bad = absurd bad
    level-Reach (cons (prf_node o' f' d' null) nil) b a h now o f d c known =
        let n = prf_node o' f' d' null in
        (
          append_node now n ∷ a,
          one n [] _ _ (insert_node-pop nodetypes n b a h now o f d c known)
              ∙ ap
                  (λ k.
                    some
                      (levels b (append_node h (prf_node o f d (holds k))) (append_node now n ∷ a)))
                  (sym (joined-last now n)),
        )
    level-Reach (cons n (cons m ms)) b a h now o f d c (tree, level) =
        let (a', run) = tree-Reach n (append_node h (prf_node o f d c) ∷ b) a now tree in
        let (a'', run') = level-Reach (cons m ms) b a' h (append_node now n) o f d c level in
        (
          a'',
          ap (λ l. insert_all nodetypes l (levels (append_node h (prf_node o f d c) ∷ b) now a))
                (reading-cons n (cons m ms))
              ∙ both nodetypes (reading (cons n nil)) (reading (cons m ms)) _ _ run
              ∙ run'
              ∙ ap (λ k. some (levels b (append_node h (prf_node o f d (holds k))) a''))
                  (joined-append now n (cons m ms)),
        )

  pub insert_all-tree :
      (root : Node)
      → IsTree nodetypes root
      → (l : Levels) × (insert_all nodetypes (reading (cons root nil)) no_levels ≡ some l)
        × (l.below ≡ [])
        × (header_of l ≡ some root)
  unfolding header_of lowest append_node
  insert_all-tree root tree =
      let (a, run) = tree-Reach root [] [] nil tree in
      (levels [] (cons root nil) a, run, refl, refl)
