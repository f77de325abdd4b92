-- ===== src/Traverse/Refine.antt =====
-- The traversal with its own stack does what the recursive walk does.
use profit.Prelude.{
  ℕ, zero, suc, ◌+◌, ◌-◌, ◌%◌, ◌^◌, ◌<◌, ◌≡◌, refl, sym, ◌∙◌, ap, subst, Bool, true, false, Option,
  none, some, List, [], ◌∷◌, arith, inl, inr, Bool-cases, lt→ltb, ltb, ◌==◌,
}
use profit.State.{Matrix, push, pop}
use profit.Record.{Loaded}
use profit.Traverse.{
  Node, Children, Nodes, NodeState, NodeInfo, Frame, Outcome, prf_node, null, array, nil, cons,
  stopped, trav_exit, trav_continue, trav_pop, count, from, bottom, arrays, visit, is_pop, next_pop,
  descend, skip, ascend, advance, control, traverse_loop, traverse_io, size_of, size_of_children,
}
use profit.Traverse.Walk.{Walk, done, exit, walk, walk_children, walk_control, and_then, up}

pub from-suc :
    (i : ℕ) (xs : Nodes) (n : Node) (ns : Nodes) → from i xs ≡ cons n ns → from (suc i) xs ≡ ns
unfolding from
from-suc zero (cons m ms) n ns e = ap (λ l. from 1 l) e
from-suc zero nil n ns e = ap (λ l. from 1 l) e
from-suc (suc i) (cons m ms) n ns e = from-suc i ms n ns e
from-suc (suc i) nil n ns e = ap (λ l. from 1 l) e

-- A level that stands before the nodes ns, with as many to go as its limit says.
record At (f : Frame) (ns : Nodes) : Type 0 where
  here : from f.child f.nodes ≡ ns
  left : f.child + count ns ≡ f.limit

next-At :
    (f : Frame) (n : Node) (ns : Nodes)
    → At f (cons n ns)
    → At (record f { child = f.child + 1 }) ns
unfolding count
next-At f n ns a = record {
  here =
      ap (λ c. from c f.nodes) {x = f.child + 1} {y = suc f.child} (omega arith)
      ∙ from-suc f.child f.nodes n ns a.here;
  left = omega (arith, a.left);
}

-- The lowest level is not used up.
abbrev Live : List Frame → Type 0
Live [] = Unit {0}
Live (g ∷ gs) = (bottom g gs).child < (bottom g gs).limit

bottom-lt : (f : Frame) (rest : List Frame) → f.child < f.limit → Live rest → Live (f ∷ rest)
unfolding bottom
bottom-lt f [] h l = h
bottom-lt f (g ∷ gs) h l = l

module _ {W : Type 0} (nodetypes : List (Option (NodeInfo W)))
    (callback : Option (NodeState W → (ℕ × NodeState W))) (junk : Matrix) where
  abbrev loop : ℕ → ℕ → Frame → List Frame → NodeState W → Outcome W
  loop = traverse_loop nodetypes callback junk

  -- the loop before a level's nodes ns, or as it looks for a POP node among them
  abbrev resume : ℕ → Bool → ℕ → Frame → Nodes → List Frame → NodeState W → Outcome W
  resume fuel false t f ns rest s = ascend (loop fuel) t f rest s
  resume fuel true t f ns rest s = skip nodetypes (loop fuel) t ns f.child f rest s

  -- What the loop does where the walk of a level ends as given, with more than k rounds left.
  abbrev Follows : ℕ → Frame → List Frame → Walk W → Outcome W → Type 0
  Follows k f rest (done t s) o =
      (n : ℕ) × (k < n) × (o ≡ ascend (loop n) t (record f { child = f.limit }) rest s)
  Follows k f rest (exit s) o = (freed : List Nodes) × (o ≡ stopped trav_exit s freed)
  Follows k f rest Walk.fault o = o ≡ Outcome.fault

  abbrev Claim : Nodes → Type 0
  Claim ns =
      (skipping : Bool) (fuel k t : ℕ) (f : Frame) (rest : List Frame) (s : NodeState W)
      → At f ns
      → Live rest
      → size_of ns + k < fuel
      → Follows k f rest (walk nodetypes callback junk ns skipping t s)
          (resume fuel skipping t f ns rest s)

  nil-Claim : Claim nil
  unfolding walk next_pop size_of count
  nil-Claim true fuel k t f rest s a l h = refl
  nil-Claim false fuel k t f rest s a l h = (
    fuel,
    omega arith,
    ap (λ c. ascend (loop fuel) t (record f { child = c }) rest s) {x = f.child} {y = f.limit}
        (omega (arith, a.left)),
  )

  ascend-live :
      (go : ℕ → Frame → List Frame → NodeState W → Outcome W) (t : ℕ) (f : Frame)
      (rest : List Frame) (s : NodeState W)
      → f.child < f.limit
      → ascend go t f rest s ≡ go t f rest s
  unfolding ascend
  ascend-live go t f [] s h = refl
  ascend-live go t f (g ∷ gs) s h = ground arith

  -- Before a node that is not skipped, the loop is in its own round.
  loop-control :
      (fuel t : ℕ) (f : Frame) (o l : ℕ) (b : Loaded) (c : Children) (ns : Nodes)
      (rest : List Frame) (s : NodeState W)
      → At f (cons (prf_node o l b c) ns)
      → Live rest
      → loop (suc fuel) t f rest s
        ≡ control nodetypes callback junk
            (loop fuel)
            (visit nodetypes callback (prf_node o l b c) s)
            c
            f
            rest
  unfolding traverse_loop count
  loop-control fuel t f o l b c ns rest s a live =
      let h : ltb (bottom f rest).child (bottom f rest).limit ≡ true =
        lt→ltb _ _ (bottom-lt f rest (omega (arith, a.left)) live) in
      let here : from f.child f.nodes ≡ cons (prf_node o l b c) ns = a.here in ground arith

  ascend-end :
      (go : ℕ → Frame → List Frame → NodeState W → Outcome W) (t : ℕ) (cf f : Frame)
      (rest : List Frame) (s : NodeState W)
      → ascend go t (record cf { child = cf.limit }) (f ∷ rest) s ≡ elim (pop s) [
        | none ↦ Outcome.fault
        | some s' ↦
            ascend go t
              (record f { child = f.child + 1 })
              rest
              (record s' { physical_level = (s'.physical_level + 2 ^ 16 - 1) % 2 ^ 16 })
      ]
  unfolding ascend
  ascend-end go t cf f rest s = ground arith

  transfer :
      (k : ℕ) (f : Frame) (rest : List Frame) (w w' : Walk W) (o o' : Outcome W)
      → w ≡ w'
      → o ≡ o'
      → Follows k f rest w' o'
      → Follows k f rest w o
  transfer k f rest w w' o o' e e' h =
      subst (λ x. Follows k f rest x o) (sym e) (subst (Follows k f rest w') (sym e') h)

  -- Where a level ends does not depend on where it began.
  step :
      (k : ℕ) (f : Frame) (rest : List Frame) (w : Walk W) (o : Outcome W)
      → Follows k (record f { child = f.child + 1 }) rest w o
      → Follows k f rest w o
  step k f rest (done t s) o h = h
  step k f rest (exit s) o h = h
  step k f rest Walk.fault o h = h

  up_option :
      (k : ℕ) (f : Frame) (rest : List Frame) (t n : ℕ) (ns : Nodes)
      → Claim ns
      → At (record f { child = f.child + 1 }) ns
      → Live rest
      → size_of ns + k < n
      → (p : Option (NodeState W))
      → Follows k f rest
          (and_then
            (elim p [
              | none ↦ Walk.fault
              | some s' ↦
                  done t (record s' { physical_level = (s'.physical_level + 2 ^ 16 - 1) % 2 ^ 16 })
            ])
            (walk nodetypes callback junk ns false))
          (elim p [
            | none ↦ Outcome.fault
            | some s' ↦
                ascend
                  (loop n)
                  t
                  (record f { child = f.child + 1 })
                  rest
                  (record s' { physical_level = (s'.physical_level + 2 ^ 16 - 1) % 2 ^ 16 })
          ])
  up_option k f rest t n ns claim a live h none = refl
  up_option k f rest t n ns claim a live h (some s') =
      let on : NodeState W = record s' {
        physical_level = (s'.physical_level + 2 ^ 16 - 1) % 2 ^ 16;
      } in
      step k f rest (walk nodetypes callback junk ns false t on) _
        (claim false n k t (record f { child = f.child + 1 }) rest on a live h)

  -- The end of a level of children, and the rest of the level above.
  climb :
      (k : ℕ) (f cf : Frame) (rest : List Frame) (ns : Nodes) (w : Walk W) (o : Outcome W)
      → Claim ns
      → At (record f { child = f.child + 1 }) ns
      → Live rest
      → Follows (size_of ns + k) cf (f ∷ rest) w o
      → Follows k f rest (and_then (and_then w up) (walk nodetypes callback junk ns false)) o
  unfolding ascend
  climb k f cf rest ns (done t s) o claim a live (n, lt, e) =
      subst
        (Follows k f rest
          (and_then (and_then (done t s) up) (walk nodetypes callback junk ns false)))
        (sym (e ∙ ascend-end (loop n) t cf f rest s))
        (up_option k f rest t n ns claim a live lt (pop s))
  climb k f cf rest ns (exit s) o claim a live e = e
  climb k f cf rest ns Walk.fault o claim a live e = e

  -- The loop at a node, where its children's and its siblings' walks are followed.
  control-Follows :
      (n k : ℕ) (f : Frame) (o l : ℕ) (b : Loaded) (c : Children) (ns : Nodes) (rest : List Frame)
      (p : ℕ × NodeState W)
      → Claim ns
      → ((t : ℕ) (s : NodeState W)
          → Follows k f rest
              (and_then
                (walk_children nodetypes callback junk c t s)
                (walk nodetypes callback junk ns false))
              (elim c [
                | array cs ↦ descend junk (loop n) t cs f rest s
                | null ↦ advance (loop n) t f rest s
              ]))
      → At f (cons (prf_node o l b c) ns)
      → Live rest
      → size_of ns + k < n
      → Follows k f rest
          (walk_control p
            (walk_children nodetypes callback junk c)
            (walk nodetypes callback junk ns))
          (control nodetypes callback junk (loop n) p c f rest)
  unfolding walk_control control
  control-Follows n k f o l b c ns rest (t, s) claim below a live h =
      let f' : Frame = record f { child = f.child + 1 } in
      let a' : At f' ns = next-At f _ ns a in
      elim (Bool-cases (t == trav_exit)) [
        | inl e₁ ↦ rw e₁ (
          arrays f rest,
          ap (λ x. stopped x s (arrays f rest)) {x = t} {y = trav_exit} (ground arith),
        )
        | inr e₁ ↦ elim (Bool-cases (t == trav_continue)) [
          | inl e₂ ↦ rw (e₁, e₂) (below t s)
          | inr e₂ ↦ elim (Bool-cases (t == trav_pop)) [
            | inl e₃ ↦
                rw (e₁, e₂, e₃, a'.here) (step k f rest _ _ (claim true n k t f' rest s a' live h))
            | inr e₃ ↦ rw (e₁, e₂, e₃) (step k f rest _ _ (claim false n k t f' rest s a' live h))
          ]
        ]
      ]

  -- The children of a node, and the rest of its level behind them.
  down_option :
      (n k t : ℕ) (f : Frame) (o l : ℕ) (b : Loaded) (m : Node) (ms ns : Nodes) (rest : List Frame)
      → Claim (cons m ms)
      → Claim ns
      → At f (cons (prf_node o l b (array (cons m ms))) ns)
      → Live rest
      → size_of (cons m ms) + (size_of ns + k) < n
      → (p : Option (NodeState W))
      → Follows k f rest
          (and_then
            (elim p [
              | none ↦ Walk.fault
              | some s' ↦
                  and_then
                    (walk nodetypes callback junk
                      (cons m ms)
                      false
                      t
                      (record s' { physical_level = (s'.physical_level + 1) % 2 ^ 16 }))
                    up
            ])
            (walk nodetypes callback junk ns false))
          (elim p [
            | none ↦ Outcome.fault
            | some s' ↦
                loop n t
                  (record { nodes = cons m ms; child = 0; limit = count (cons m ms) })
                  (f ∷ rest)
                  (record s' { physical_level = (s'.physical_level + 1) % 2 ^ 16 })
          ])
  unfolding from count
  down_option n k t f o l b m ms ns rest below claim a live h none = refl
  down_option n k t f o l b m ms ns rest below claim a live h (some s') =
      let on : NodeState W = record s' { physical_level = (s'.physical_level + 1) % 2 ^ 16 } in
      let cf : Frame = record { nodes = cons m ms; child = 0; limit = count (cons m ms) } in
      let here : f.child < f.limit = omega (arith, a.left) in
      let w : Walk W = walk nodetypes callback junk (cons m ms) false t on in
      climb k f cf rest ns w (loop n t cf (f ∷ rest) on) claim (next-At f _ ns a) live (
        subst (Follows (size_of ns + k) cf (f ∷ rest) w)
          (ascend-live (loop n) t cf (f ∷ rest) on (omega arith))
          (below false n (size_of ns + k) t cf (f ∷ rest) on
            (record { here = refl; left = omega arith }) (bottom-lt f rest here live) h))

  below-null :
      (n k t : ℕ) (f : Frame) (o l : ℕ) (b : Loaded) (ns : Nodes) (rest : List Frame)
      (s : NodeState W)
      → Claim ns
      → At f (cons (prf_node o l b null) ns)
      → Live rest
      → size_of ns + k < n
      → Follows k f rest
          (and_then
            (walk_children nodetypes callback junk null t s)
            (walk nodetypes callback junk ns false))
          (advance (loop n) t f rest s)
  unfolding walk_children
  below-null n k t f o l b ns rest s claim a live h =
      let f' : Frame = record f { child = f.child + 1 } in
      step k f rest (walk nodetypes callback junk ns false t s) _
        (claim false n k t f' rest s (next-At f _ ns a) live h)

  -- An empty array of children faults in the walk and in the loop.
  empty_option :
      (n k t : ℕ) (f : Frame) (rest : List Frame)
      → f.child < f.limit
      → Live rest
      → (p : Option (NodeState W))
      → (elim p [
        | none ↦ Outcome.fault
        | some s' ↦
            loop
              (suc n)
              t
              (record { nodes = nil; child = 0; limit = count nil })
              (f ∷ rest)
              (record s' { physical_level = (s'.physical_level + 1) % 2 ^ 16 })
      ])
        ≡ Outcome.fault
  unfolding traverse_loop bottom from
  empty_option n k t f rest h live none = refl
  empty_option n k t f rest h live (some s') =
      let up_there : ltb (bottom f rest).child (bottom f rest).limit ≡ true =
        lt→ltb _ _ (bottom-lt f rest h live) in
      ground arith

  abbrev ChildClaim : Children → Type 0
  ChildClaim null = Unit {0}
  ChildClaim (array ns) = Claim ns

  below-Follows :
      (n k t : ℕ) (f : Frame) (o l : ℕ) (b : Loaded) (c : Children) (ns : Nodes) (rest : List Frame)
      (s : NodeState W)
      → ChildClaim c
      → Claim ns
      → At f (cons (prf_node o l b c) ns)
      → Live rest
      → size_of_children c + (size_of ns + k) < n
      → Follows k f rest
          (and_then
            (walk_children nodetypes callback junk c t s)
            (walk nodetypes callback junk ns false))
          (elim c [
            | array cs ↦ descend junk (loop n) t cs f rest s
            | null ↦ advance (loop n) t f rest s
          ])
  unfolding walk_children size_of count
  below-Follows n k t f o l b null ns rest s below claim a live h =
      below-null n k t f o l b ns rest s claim a live (omega arith)
  below-Follows zero k t f o l b (array nil) ns rest s below claim a live h = absurd (omega arith)
  below-Follows (suc n) k t f o l b (array nil) ns rest s below claim a live h =
      empty_option n k t f rest (omega (arith, a.left)) live (push junk s)
  below-Follows n k t f o l b (array (cons m ms)) ns rest s below claim a live h =
      down_option n k t f o l b m ms ns rest below claim a live h (push junk s)

  -- The loop's own round at a node that is not skipped.
  round-Follows :
      (fuel k t : ℕ) (f : Frame) (o l : ℕ) (b : Loaded) (c : Children) (ns : Nodes)
      (rest : List Frame) (s : NodeState W)
      → ChildClaim c
      → Claim ns
      → At f (cons (prf_node o l b c) ns)
      → Live rest
      → size_of (cons (prf_node o l b c) ns) + k < fuel
      → Follows k f rest
          (walk_control
            (visit nodetypes callback (prf_node o l b c) s)
            (walk_children nodetypes callback junk c)
            (walk nodetypes callback junk ns))
          (loop fuel t f rest s)
  unfolding size_of
  round-Follows zero k t f o l b c ns rest s below claim a live h = absurd (omega arith)
  round-Follows (suc n) k t f o l b c ns rest s below claim a live h =
      subst
        (Follows k f rest (
          walk_control (visit nodetypes callback (prf_node o l b c) s)
            (walk_children nodetypes callback junk c) (walk nodetypes callback junk ns)))
        (sym (loop-control n t f o l b c ns rest s a live))
        (control-Follows n k f o l b c ns rest (visit nodetypes callback (prf_node o l b c) s) claim
          (λ t' s'. below-Follows n k t' f o l b c ns rest s' below claim a live (omega arith)) a
          live (omega arith))

  walk-here :
      (o l : ℕ) (b : Loaded) (c : Children) (ns : Nodes) (t : ℕ) (s : NodeState W)
      → is_pop nodetypes (prf_node o l b c) ≡ true
      → walk nodetypes callback junk (cons (prf_node o l b c) ns) true t s
        ≡ walk nodetypes callback junk (cons (prf_node o l b c) ns) false t s
  unfolding walk
  walk-here o l b c ns t s e = rw e refl

  walk-skip :
      (o l : ℕ) (b : Loaded) (c : Children) (ns : Nodes) (t : ℕ) (s : NodeState W)
      → is_pop nodetypes (prf_node o l b c) ≡ false
      → walk nodetypes callback junk (cons (prf_node o l b c) ns) true t s
        ≡ walk nodetypes callback junk ns true t s
  unfolding walk
  walk-skip o l b c ns t s e = rw e refl

  next_pop-here :
      (j : ℕ) (n : Node) (ns : Nodes)
      → is_pop nodetypes n ≡ true
      → next_pop nodetypes (cons n ns) j ≡ some j
  unfolding next_pop
  next_pop-here j n ns e = rw e refl

  next_pop-skip :
      (j : ℕ) (n : Node) (ns : Nodes)
      → is_pop nodetypes n ≡ false
      → next_pop nodetypes (cons n ns) j ≡ next_pop nodetypes ns (j + 1)
  unfolding next_pop
  next_pop-skip j n ns e = rw e refl

  -- The loop goes on at the index that a search for a POP node gives.
  abbrev on_found : ℕ → ℕ → Frame → List Frame → NodeState W → Option ℕ → Outcome W
  on_found fuel t f rest s p = elim p [
    | none ↦ Outcome.fault
    | some i ↦ loop fuel t (record f { child = i }) rest s
  ]

  cons-Claim :
      (o l : ℕ) (b : Loaded) (c : Children) (ns : Nodes)
      → ChildClaim c
      → Claim ns
      → Claim (cons (prf_node o l b c) ns)
  unfolding walk count size_of
  cons-Claim o l b c ns below claim false fuel k t f rest s a live h =
      let w : Walk W = walk nodetypes callback junk (cons (prf_node o l b c) ns) false t s in
      subst (Follows k f rest w) (sym (ascend-live (loop fuel) t f rest s (omega (arith, a.left))))
        (round-Follows fuel k t f o l b c ns rest s below claim a live h)
  cons-Claim o l b c ns below claim true fuel k t f rest s a live h =
      elim (Bool-cases (is_pop nodetypes (prf_node o l b c))) [
        | inl e ↦
            transfer k f rest _ _ _ _ (walk-here o l b c ns t s e)
              (ap (on_found fuel t f rest s) (next_pop-here f.child _ ns e))
              (round-Follows fuel k t f o l b c ns rest s below claim a live h)
        | inr e ↦
            transfer k f rest _ _ _ _ (walk-skip o l b c ns t s e)
              (ap (on_found fuel t f rest s) (next_pop-skip f.child _ ns e))
              (step k f rest (walk nodetypes callback junk ns true t s) _ (
                claim true fuel k t (record f { child = f.child + 1 }) rest s (next-At f _ ns a)
                  live (omega (arith, h))))
      ]

  mutual
    claims : (ns : Nodes) → Claim ns
    claims nil = nil-Claim
    claims (cons (prf_node o l b c) ns) = cons-Claim o l b c ns (child_claims c) (claims ns)

    child_claims : (c : Children) → ChildClaim c
    child_claims null = tt
    child_claims (array ns) = claims ns

  -- What a traversal from a root does where the walk from it ends as given. Where it visits all that
  -- it is to, it frees no array but its own.
  abbrev pub Implements : Node → Walk W → Outcome W → Type 0
  Implements root (done t s) o = o ≡ stopped t s (cons root nil ∷ [])
  Implements root (exit s) o = (freed : List Nodes) × (o ≡ stopped trav_exit s freed)
  Implements root Walk.fault o = o ≡ Outcome.fault

  finish :
      (root : Node) (w : Walk W) (o : Outcome W)
      → Follows 0 (record { nodes = cons root nil; child = 0; limit = 1 }) [] w o
      → Implements root w o
  unfolding ascend traverse_loop bottom arrays
  finish root (done t s) o (zero, lt, e) = absurd (omega arith)
  finish root (done t s) o (suc n, lt, e) = e
  finish root (exit s) o e = e
  finish root Walk.fault o e = e

  -- For every tree, registry, callback and state, `prf_model_traverse_io_` does what the recursive walk
  -- does: it returns the same control in the same state, or stops at an EXIT in the same state, or
  -- faults with it. Its fuel is enough.
  pub traverse_io-walk :
      (root : Node) (s : NodeState W)
      → Implements root
          (walk nodetypes callback junk (cons root nil) false trav_continue s)
          (traverse_io nodetypes callback junk root s)
  unfolding traverse_io ascend from count
  traverse_io-walk root s = finish root _ _ (
      claims (cons root nil) false (size_of (cons root nil) + 1) 0 trav_continue
        (record { nodes = cons root nil; child = 0; limit = 1 }) [] s
        (record { here = refl; left = omega arith }) tt (omega arith))
