-- ===== src/Palette/Same.antt =====
-- A clone of a vertex palette has the vertices of the palette, at the same offsets.
use profit.Prelude.{
  ℕ, ◌+◌, ◌-◌, ◌%◌, ◌^◌, ◌≤◌, ◌<◌, ◌≡◌, refl, sym, ap, ◌∙◌, Option, none, some, List, ◌++◌, true,
  arith, length, take, drop, le→leb, inl, inr, length-take, length-drop, append_assoc,
}
use profit.Prelude.Windows.{
  splice, length-splice, take-splice, take-drop_agree, take-append_left, drop-append_left,
  drop-drop, take-length,
}
use profit.Palette.{Host, IsHost, Vertex, VertexPool, read}
use profit.Palette.Store.{length_of, used}
use profit.Palette.Fill.{lookup}
use profit.Palette.Kept.{IsPools, Kept}
use profit.Palette.Look.{IsVertex, shown}
use profit.Palette.RoundTrip.{palette_of, HasExtras, extra}
use profit.Palette.Clone.{
  clone, all_pools, copy_pools, flat, length-copy_pools, take-copy_pools, flat-Kept, IsInNode,
  IsHeld, held-lookup,
}

-- The memory of a clone: eight bytes, which say how many there are, the vertices of the node, and the
-- bytes of the pools.
record IsClone (h : Host) (len : ℕ) (node : List ℕ) (ps : List VertexPool) (mem : List ℕ)
    : Type 0 where
  says : read h 0 4 mem ≡ some (len + used ps)
  head : List ℕ
  short : length head ≡ 8
  parts : mem ≡ head ++ (take (len - 8) (drop 8 node) ++ flat ps)

module _ (h : Host) (host : IsHost h) (node : List ℕ) (len : ℕ) (least : 8 ≤ len)
    (whole : len ≤ length node) (ps : List VertexPool) (valid : IsPools ps)
    (room : len + used ps < 2 ^ 32) (mem : List ℕ) (fits : length mem ≡ len + used ps) where
  -- the memory after the count, after the vertices of the node, and at the end
  first : List ℕ
  first = splice 0 (h.bytes 4 (len + used ps)) mem

  second : List ℕ
  second = splice 8 (take (len - 8) (drop 8 node)) first

  third : List ℕ
  third = copy_pools len ps second

  length-first : length first ≡ len + used ps
  unfolding first
  length-first =
      length-splice 0 (h.bytes 4 (len + used ps)) mem
        (omega (arith, host.length-bytes 4 (len + used ps)))
      ∙ fits

  middle : length (take (len - 8) (drop 8 node)) ≡ len - 8
  middle = omega (arith, length-take (len - 8) (drop 8 node), length-drop 8 node)

  length-second : length second ≡ len + used ps
  unfolding second
  length-second =
      let n = middle in
      let l = length-first in length-splice 8 (take (len - 8) (drop 8 node)) first (omega arith) ∙ l

  -- Behind the copy of the node's vertices
  take-second : take len second ≡ take 8 first ++ take (len - 8) (drop 8 node)
  unfolding second
  take-second =
      let n = middle in
      let l = length-first in
      ap (λ k. take k second) {x = len} {y = 8 + length (take (len - 8) (drop 8 node))}
        (omega arith)
      ∙ take-splice 8 (take (len - 8) (drop 8 node)) first (omega arith)

  third-parts : third ≡ take 8 first ++ (take (len - 8) (drop 8 node) ++ flat ps)
  unfolding third
  third-parts =
      let l = length-second in
      let n : length third ≡ length second = length-copy_pools len ps second valid (omega arith) in
      sym (take-length (len + used ps) third (omega arith))
      ∙ take-copy_pools len ps second valid (omega arith)
      ∙ ap (λ b. b ++ flat ps) take-second
      ∙ append_assoc (take 8 first) (take (len - 8) (drop 8 node)) (flat ps)

  head-short : length (take 8 first) ≡ 8
  head-short = let l = length-first in omega (arith, length-take 8 first)

  -- The count is at the start.
  take-third : take 4 third ≡ h.bytes 4 (len + used ps)
  unfolding first
  take-third =
      let b : length (h.bytes 4 (len + used ps)) ≡ 4 = host.length-bytes 4 (len + used ps) in
      take-drop_agree 8 0 4 third first
        (ap (take 8) third-parts ∙ take-append_left 8 (take 8 first) _ head-short) (omega arith)
      ∙ take-append_left 4 (h.bytes 4 (len + used ps)) _ b

  third-IsClone : IsClone h len node ps third
  unfolding read
  third-IsClone =
      let l = length-second in
      let n : length third ≡ length second =
        unfold third in length-copy_pools len ps second valid (omega arith) in
      record {
        says =
            rw (le→leb 4 (length third) (omega arith), take-third)
              (ap some (host.value-bytes 4 (len + used ps) room));
        head = take 8 first;
        short = head-short;
        parts = third-parts;
      }

module _ (h : Host) (len : ℕ) (node : List ℕ) (ps : List VertexPool) (mem : List ℕ)
    (c : IsClone h len node ps mem) (least : 8 ≤ len) (whole : len ≤ length node)
    (valid : IsPools ps) (v : Vertex) (o : ℕ) where
  vertices : List ℕ
  vertices = take (len - 8) (drop 8 node)

  length-vertices : length vertices ≡ len - 8
  unfolding vertices
  length-vertices = omega (arith, length-take (len - 8) (drop 8 node), length-drop 8 node)

  drop-mem : (k : ℕ) → drop (8 + k) mem ≡ drop k (vertices ++ flat ps)
  unfolding vertices
  drop-mem k =
      sym (drop-drop 8 k mem)
      ∙ ap (λ l. drop k (drop 8 l)) c.parts
      ∙ ap (drop k) (drop-append_left 8 c.head _ c.short)

  -- A vertex of the node is in the clone's memory.
  node-clone : IsInNode h len v o node → IsInNode h (len + used ps) v o mem
  node-clone i =
      let above = i.above in
      let within = i.within in
      let at : 8 + (o - 8) ≡ o = omega arith in
      let n = length-vertices in
      let part : take (len - 8) (vertices ++ flat ps) ≡ take (len - 8) (drop 8 node) =
        take-append_left (len - 8) vertices (flat ps) n ∙ (unfold vertices in refl) in
      record {
        above = above;
        within = omega arith;
        bytes =
            ap (λ k. take (length_of v) (drop k mem)) (sym at)
            ∙ ap (take (length_of v)) (drop-mem (o - 8))
            ∙ take-drop_agree (len - 8) (o - 8) (length_of v) (vertices ++ flat ps) (drop 8 node)
                part (omega arith)
            ∙ ap (take (length_of v)) (drop-drop 8 (o - 8) node)
            ∙ ap (λ k. take (length_of v) (drop k node)) at
            ∙ i.bytes;
      }

  -- So is one of the pools.
  pool-clone : len ≤ o → Kept h v ps (o - len) → IsInNode h (len + used ps) v o mem
  pool-clone le k =
      let (fits, e) = flat-Kept h v ps (o - len) valid k in
      let n = length-vertices in
      let at : 8 + ((len - 8) + (o - len)) ≡ o = omega arith in
      record {
        above = omega arith;
        within = omega arith;
        bytes =
            ap (λ i. take (length_of v) (drop i mem)) (sym at)
            ∙ ap (take (length_of v)) (
                drop-mem ((len - 8) + (o - len))
                ∙ sym (drop-drop (len - 8) (o - len) (vertices ++ flat ps))
                ∙ ap (drop (o - len)) (drop-append_left (len - 8) vertices (flat ps) n))
            ∙ e;
      }

all-IsPools : (x : Option (List VertexPool)) → HasExtras x → IsPools (all_pools x)
unfolding all_pools
all-IsPools none ex = tt
all-IsPools (some ps) ex = ex.1

all-extra : (x : Option (List VertexPool)) → used (all_pools x) ≡ extra x
unfolding all_pools used
all-extra none = refl
all-extra (some ps) = refl

-- What a palette holds, its clone holds in the node.
held-clone :
    (h : Host) (len : ℕ) (node : List ℕ) (x : Option (List VertexPool)) (mem : List ℕ)
    → IsClone h len node (all_pools x) mem
    → 8 ≤ len
    → len ≤ length node
    → HasExtras x
    → (v : Vertex) (o : ℕ) → IsHeld h len v o node x
    → IsInNode h (len + used (all_pools x)) v o mem
unfolding all_pools
held-clone h len node x mem c least whole ex v o (inl i) =
    node-clone h len node (all_pools x) mem c least whole (all-IsPools x ex) v o i
held-clone h len node none mem c least whole ex v o (inr st) = elim st [ ]
held-clone h len node (some ps) mem c least whole ex v o (inr (le, k)) =
    pool-clone h len node ps mem c least whole ex.1 v o le k

-- Cloning the node of a palette that says that it holds len bytes, with valid pools, succeeds below
-- 2^32 bytes in all. The clone says the number of all bytes; each vertex that the palette holds, in its
-- node or its pools, is found at its offset in the clone, which has no pools, and in the palette alike.
pub clone-lookup :
    (h : Host) (host : IsHost h) (block : ℕ → List ℕ)
    → ((n : ℕ) → length (block n) ≡ n)
    → (node : List ℕ) (len : ℕ) → read h 0 4 node ≡ some len
    → 8 ≤ len
    → len ≤ length node
    → (x : Option (List VertexPool)) → HasExtras x
    → len + extra x < 2 ^ 32
    → (mem : List ℕ) × (clone h block node x ≡ some mem)
      × (read h 0 4 mem ≡ some (len + extra x))
      × ((v w : Vertex) (o : ℕ)
          → IsVertex v
          → IsHeld h len v o node x
          → (lookup h (palette_of mem none) o w ≡ some (true, shown v))
            × (lookup h (palette_of node x) o w ≡ some (true, shown v)))
unfolding clone third second first
clone-lookup h host block size node len says least whole x ex room =
    let ps : List VertexPool = all_pools x in
    let n : used ps ≡ extra x = all-extra x in
    let total : (len + used ps) % 2 ^ 32 ≡ len + used ps = omega arith in
    let behind : (len + 2 ^ 32 - 8) % 2 ^ 32 ≡ len - 8 = omega arith in
    let eight : 8 + (len - 8) ≡ len = omega arith in
    let mem : List ℕ =
      third h host node len least whole ps (all-IsPools x ex) (omega arith) (block (len + used ps))
        (size (len + used ps)) in
    let c : IsClone h len node ps mem =
      third-IsClone h host node len least whole ps (all-IsPools x ex) (omega arith)
        (block (len + used ps)) (size (len + used ps)) in
    let said : read h 0 4 mem ≡ some (len + extra x) = c.says ∙ ap (λ k. some (len + k)) n in
    (
      mem,
      rw
          (
            says,
            total,
            behind,
            eight,
            le→leb len (length node) whole,
            le→leb (len + used ps) (len + used ps) (omega arith),
          )
          refl,
      said,
      λ v w o iv held. (
        held-lookup h host mem (len + used ps) c.says none v w o iv
            (inl (held-clone h len node x mem c least whole ex v o held)),
        held-lookup h host node len says x v w o iv held,
      ),
    )
