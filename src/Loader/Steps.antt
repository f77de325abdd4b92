-- ===== src/Loader/Steps.antt =====
-- What the loader does with one node, by the flags of its type.
use profit.Prelude.{
  ℕ, ◌≡◌, refl, sym, ap, ◌∙◌, true, false, Option, none, some, List, [], ◌∷◌, ◌++◌, if◌then◌else◌,
  ◌>>=◌, append-nil,
}
use mathlib.Core.Option.{none-ne-some}
use profit.Record.{Loaded}
use profit.Traverse.{
  Node, Nodes, Children, NodeInfo, prf_node, null, array, nil, cons, opcode, nodeinfo_get,
}
use profit.Loader.{
  Levels, append_node, last_node, set_children, has_children, make_room, go_up, add_ancillary,
  go_down, insert_with, insert_node, insert_all, is_push, is_pop_node, is_ancillary,
}
use profit.Loader.Shape.{reading, reading_children, HasFlags}

-- the children of a node to which these were added
abbrev pub holds : Nodes → Children
holds nil = null
holds (cons n ns) = array (cons n ns)

unfoldable pub joined : Nodes → Nodes → Nodes
joined nil ms = ms
joined (cons n ns) ms = cons n (joined ns ms)

pub joined-append :
    (k : Nodes) (n : Node) (ns : Nodes) → joined (append_node k n) ns ≡ joined k (cons n ns)
unfolding joined append_node
joined-append nil n ns = refl
joined-append (cons m k) n ns = ap (cons m) (joined-append k n ns)

pub joined-last : (k : Nodes) (n : Node) → joined k (cons n nil) ≡ append_node k n
unfolding joined append_node
joined-last nil n = refl
joined-last (cons m k) n = ap (cons m) (joined-last k n)

pub joined-nil : (k : Nodes) → joined k nil ≡ k
unfolding joined
joined-nil nil = refl
joined-nil (cons m k) = ap (cons m) (joined-nil k)

pub holds-append : (k : Nodes) (n : Node) → holds (append_node k n) ≡ array (append_node k n)
unfolding append_node
holds-append nil n = refl
holds-append (cons m k) n = refl

last_node-append : (h : Nodes) (m : Node) → last_node (append_node h m) ≡ some m
unfolding append_node last_node
last_node-append nil m = refl
last_node-append (cons n nil) m = refl
last_node-append (cons n (cons n' h)) m = last_node-append (cons n' h) m

set_children-append :
    (c : Children) (h : Nodes) (o f : ℕ) (d : Loaded) (k : Children)
    → set_children c (append_node h (prf_node o f d k)) ≡ some (append_node h (prf_node o f d c))
unfolding append_node set_children
set_children-append c nil o f d k = refl
set_children-append c (cons (prf_node o' f' d' k') nil) o f d k = refl
set_children-append c (cons (prf_node o' f' d' k') (cons n h)) o f d k =
    ap (λ r. elim r [ none ↦ none | some ms ↦ some (cons (prf_node o' f' d' k') ms) ])
      (set_children-append c (cons n h) o f d k)

pub reading-cons :
    (n : Node) (ns : Nodes) → reading (cons n ns) ≡ reading (cons n nil) ++ reading ns
unfolding reading
reading-cons (prf_node o f d c) ns =
    ap (λ l. prf_node o f d null ∷ (l ++ reading ns)) (sym (append-nil (reading_children c)))

abbrev pub levels : List Nodes → Nodes → List Nodes → Levels
levels b h a = record { below = b; here = h; above = a }

-- The array above the level is what the last node was given, if that was anything.
abbrev pub IsReady : Nodes → List Nodes → Type 0
IsReady nil a = Unit {0}
IsReady (cons n ns) a = (more : List Nodes) × (a ≡ cons n ns ∷ more)

pub append-IsReady :
    (k : Nodes) (n : Node) (more : List Nodes) → IsReady (append_node k n) (append_node k n ∷ more)
unfolding append_node
append-IsReady nil n more = (more, refl)
append-IsReady (cons m k) n more = (more, refl)

make_room-last :
    (l : Levels) (n : Node)
    → last_node l.here ≡ some n
    → make_room l ≡ (if has_children n then some l else some (record l { above = nil ∷ [] }))
unfolding make_room
make_room-last l n e =
    ap
      (λ r. elim r [
        | none ↦ none
        | some n ↦ if has_children n then some l else some (record l { above = nil ∷ [] })
      ])
      e

make_room-levels :
    (b a : List Nodes) (h : Nodes) (o f : ℕ) (d : Loaded) (done : Nodes)
    → IsReady done a
    → (more : List Nodes) × (make_room (levels b (append_node h (prf_node o f d (holds done))) a)
        ≡ some (levels b (append_node h (prf_node o f d (holds done))) (done ∷ more)))
make_room-levels b a h o f d nil r = (
  [],
  make_room-last (levels b (append_node h (prf_node o f d null)) a) (prf_node o f d null)
      (last_node-append h (prf_node o f d null)),
)
make_room-levels b a h o f d (cons n ns) (more, e) = (
  more,
  make_room-last (levels b (append_node h (prf_node o f d (array (cons n ns)))) a)
        (prf_node o f d (array (cons n ns)))
        (last_node-append h (prf_node o f d (array (cons n ns))))
      ∙ ap (λ a. some (levels b (append_node h (prf_node o f d (array (cons n ns)))) a)) e,
)

insert_with-plain :
    (flags : ℕ) (n : Node) (l : Levels)
    → is_push flags ≡ false
    → is_pop_node flags ≡ false
    → is_ancillary flags ≡ false
    → insert_with flags n l ≡ some (record l { here = append_node l.here n })
unfolding insert_with
insert_with-plain flags n l p q r = rw (p, q, r) refl

pub insert_with-pop :
    (flags : ℕ) (n : Node) (l : Levels)
    → is_push flags ≡ false
    → is_pop_node flags ≡ true
    → is_ancillary flags ≡ false
    → insert_with flags n l ≡ go_down (record l { here = append_node l.here n })
unfolding insert_with
insert_with-pop flags n l p q r = rw (p, q, r) refl

insert_with-ancillary :
    (flags : ℕ) (n : Node) (l l' : Levels)
    → is_push flags ≡ false
    → is_pop_node flags ≡ false
    → is_ancillary flags ≡ true
    → make_room l ≡ some l'
    → insert_with flags n l ≡ add_ancillary n l' >>= some
unfolding insert_with
insert_with-ancillary flags n l l' p q r room = rw (p, q, r, room) refl

insert_with-push :
    (flags : ℕ) (n : Node) (l : Levels) (b more : List Nodes) (h ns : Nodes)
    → is_push flags ≡ true
    → is_pop_node flags ≡ false
    → is_ancillary flags ≡ false
    → make_room l ≡ some (levels b h (ns ∷ more))
    → insert_with flags n l ≡ some (levels (h ∷ b) (append_node ns n) more)
unfolding insert_with go_up
insert_with-push flags n l b more h ns p q r room = rw (p, q, r, room) refl

module _ {W : Type 0} (nodetypes : List (Option (NodeInfo W))) where
  pub insert_node-known :
      (n : Node) (l : Levels) (info : NodeInfo W)
      → nodeinfo_get nodetypes (opcode n) ≡ some info
      → insert_node nodetypes n l ≡ insert_with info.flags n l
  unfolding insert_node
  insert_node-known n l info e =
      ap (λ r. elim r [ none ↦ none | some info ↦ insert_with info.flags n l ]) e

  insert_all-append :
      (xs ys : List Node) (l : Levels)
      → insert_all nodetypes (xs ++ ys) l ≡ insert_all nodetypes xs l >>= insert_all nodetypes ys
  unfolding insert_all
  insert_all-append [] ys l = refl
  insert_all-append (x ∷ xs) ys l = behind (insert_all-append xs ys) (insert_node nodetypes x l)
    where
      behind :
          ((l : Levels)
            → insert_all nodetypes (xs ++ ys) l
              ≡ insert_all nodetypes xs l >>= insert_all nodetypes ys)
          → (r : Option Levels)
          → r >>= insert_all nodetypes (xs ++ ys)
            ≡ (r >>= insert_all nodetypes xs) >>= insert_all nodetypes ys
      behind ih none = refl
      behind ih (some l) = ih l

  -- the nodes of one list, and then those of another
  pub both :
      (xs ys : List Node) (l l' : Levels)
      → insert_all nodetypes xs l ≡ some l'
      → insert_all nodetypes (xs ++ ys) l ≡ insert_all nodetypes ys l'
  both xs ys l l' e = insert_all-append xs ys l ∙ ap (λ r. r >>= insert_all nodetypes ys) e

  -- What the first node of a list that can be inserted does
  pub insert_all-first :
      (n : Node) (ns : List Node) (l l' : Levels)
      → insert_all nodetypes (n ∷ ns) l ≡ some l'
      → (l₁ : Levels) × (insert_node nodetypes n l ≡ some l₁)
        × (insert_all nodetypes ns l₁ ≡ some l')
  unfolding insert_all
  insert_all-first n ns l l' e = first (insert_node nodetypes n l) refl e
    where
      first :
          (r : Option Levels)
          → insert_node nodetypes n l ≡ r
          → r >>= insert_all nodetypes ns ≡ some l'
          → (l₁ : Levels) × (insert_node nodetypes n l ≡ some l₁)
            × (insert_all nodetypes ns l₁ ≡ some l')
      first none is e = absurd (none-ne-some l' e)
      first (some l₁) is e = (l₁, is, e)

  -- A leaf that stays on the level, one that is ancillary, one that opens a level, and one that closes
  -- the level.
  pub insert_node-plain :
      (o f : ℕ) (d : Loaded) (b a : List Nodes) (h : Nodes)
      → HasFlags nodetypes o false false false
      → insert_node nodetypes (prf_node o f d null) (levels b h a)
        ≡ some (levels b (append_node h (prf_node o f d null)) a)
  insert_node-plain o f d b a h known =
      insert_node-known (prf_node o f d null) (levels b h a) known.info known.registered
      ∙ insert_with-plain known.info.flags (prf_node o f d null) (levels b h a) known.is_push
          known.is_pop known.is_ancillary

  pub insert_node-ancillary :
      (n : Node) (b a : List Nodes) (h : Nodes) (o f : ℕ) (d : Loaded) (done : Nodes)
      → HasFlags nodetypes (opcode n) false false true
      → IsReady done a
      → (more : List Nodes) × (insert_node nodetypes n
            (levels b (append_node h (prf_node o f d (holds done))) a)
          ≡ some (
              levels b
                (append_node h (prf_node o f d (holds (append_node done n))))
                (append_node done n ∷ more)))
  unfolding add_ancillary
  insert_node-ancillary n b a h o f d done known ready =
      let l = levels b (append_node h (prf_node o f d (holds done))) a in
      let (more, room) = make_room-levels b a h o f d done ready in
      (
        more,
        insert_node-known n l known.info known.registered
            ∙ insert_with-ancillary known.info.flags n l _ known.is_push known.is_pop
                known.is_ancillary room
            ∙ ap (λ r. (r >>= λ ms. some (levels b ms (append_node done n ∷ more))) >>= some)
                (set_children-append (array (append_node done n)) h o f d (holds done))
            ∙ ap
                (λ c.
                  some (levels b (append_node h (prf_node o f d c)) (append_node done n ∷ more)))
                (sym (holds-append done n)),
      )

  pub insert_node-push :
      (n : Node) (b a : List Nodes) (h : Nodes) (o f : ℕ) (d : Loaded) (done : Nodes)
      → HasFlags nodetypes (opcode n) true false false
      → IsReady done a
      → (more : List Nodes) × (insert_node nodetypes n
            (levels b (append_node h (prf_node o f d (holds done))) a)
          ≡ some
              (levels (append_node h (prf_node o f d (holds done)) ∷ b) (append_node done n) more))
  insert_node-push n b a h o f d done known ready =
      let l = levels b (append_node h (prf_node o f d (holds done))) a in
      let (more, room) = make_room-levels b a h o f d done ready in
      (
        more,
        insert_node-known n l known.info known.registered
            ∙ insert_with-push known.info.flags n l b more
                (append_node h (prf_node o f d (holds done))) done known.is_push known.is_pop
                known.is_ancillary room,
      )

  pub insert_node-pop :
      (n : Node) (b a : List Nodes) (h now : Nodes) (o f : ℕ) (d : Loaded) (c : Children)
      → HasFlags nodetypes (opcode n) false true false
      → insert_node nodetypes n (levels (append_node h (prf_node o f d c) ∷ b) now a)
        ≡ some (
            levels b
              (append_node h (prf_node o f d (holds (append_node now n))))
              (append_node now n ∷ a))
  unfolding go_down
  insert_node-pop n b a h now o f d c known =
      let l = levels (append_node h (prf_node o f d c) ∷ b) now a in
      insert_node-known n l known.info known.registered
      ∙ insert_with-pop known.info.flags n l known.is_push known.is_pop known.is_ancillary
      ∙ ap (λ r. r >>= λ ms. some (levels b ms (append_node now n ∷ a)))
          (set_children-append (array (append_node now n)) h o f d c)
      ∙ ap (λ c. some (levels b (append_node h (prf_node o f d c)) (append_node now n ∷ a)))
          (sym (holds-append now n))
