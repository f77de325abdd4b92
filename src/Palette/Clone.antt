-- ===== src/Palette/Clone.antt =====
-- prf_vertex_palette_clone_f of src/nodes/vertex_palette.c: the clone's memory holds the vertices of
-- the node and, behind them, those of the pools.
use profit.Prelude.{
  ℕ, ◌+◌, ◌-◌, ◌%◌, ◌^◌, ◌≤◌, ◌≡◌, refl, sym, ap, ◌∙◌, Option, none, some, List, [], ◌∷◌, ◌++◌,
  true, arith, length, take, drop, leb, ltb, lt→ltb, ◌>>=◌, ◌>>◌, guard, ◌⊎◌, inl, inr, length-take,
  append_assoc, append-nil,
}
use profit.Prelude.Windows.{
  splice, length-splice, take-splice, take-drop_agree, take-append_left, drop-append_left,
  drop-drop,
}
use profit.Palette.{Host, IsHost, Vertex, VertexPool, read}
use profit.Palette.Store.{length_of, used}
use profit.Palette.Fill.{lookup}
use profit.Palette.Memory.{encode}
use profit.Palette.Kept.{here, there, record_of, length_of-bounds, IsPool, IsPools, Kept}
use profit.Palette.Look.{IsVertex, shown, lookup_at-record}
use profit.Palette.RoundTrip.{palette_of, IsStored, stored-lookup}

-- the loop that copies the pools, at an index of the new memory
unfoldable pub copy_pools : ℕ → List VertexPool → List ℕ → List ℕ
copy_pools off [] mem = mem
copy_pools off (p ∷ ps) mem =
    copy_pools (off + p.position) ps (splice off (take p.position p.block) mem)

-- the pools, if there are any
unfoldable pub all_pools : Option (List VertexPool) → List VertexPool
all_pools none = []
all_pools (some ps) = ps

-- `prf_vertex_palette_clone_f`: the memory of the clone of a palette's node. `block` is what `malloc`
-- gives for a number of bytes.
unfoldable pub clone : Host → (ℕ → List ℕ) → List ℕ → Option (List VertexPool) → Option (List ℕ)
clone h block node x = do
  len ← read h 0 4 node
  let total = (len + used (all_pools x)) % 2 ^ 32
  let rest = (len + 2 ^ 32 - 8) % 2 ^ 32
  guard (leb (8 + rest) (length node))
  guard (leb (8 + rest + used (all_pools x)) total)
  some (
      copy_pools (8 + rest) (all_pools x)
        (splice 8 (take rest (drop 8 node)) (splice 0 (h.bytes 4 total) (block total))))

-- the bytes of the pools
unfoldable pub flat : List VertexPool → List ℕ
flat [] = []
flat (p ∷ ps) = take p.position p.block ++ flat ps

pool_bytes : (p : VertexPool) → IsPool p → length (take p.position p.block) ≡ p.position
pool_bytes p i =
    let whole = i.whole in let inside = i.inside in omega (arith, length-take p.position p.block)

pub length-copy_pools :
    (off : ℕ) (ps : List VertexPool) (mem : List ℕ)
    → IsPools ps
    → off + used ps ≤ length mem
    → length (copy_pools off ps mem) ≡ length mem
unfolding copy_pools used
length-copy_pools off [] mem is fits = refl
length-copy_pools off (p ∷ ps) mem (i, is) fits =
    let n : length (take p.position p.block) ≡ p.position = pool_bytes p i in
    let s : length (splice off (take p.position p.block) mem) ≡ length mem =
      length-splice off (take p.position p.block) mem (omega arith) in
    length-copy_pools (off + p.position) ps _ is (omega arith) ∙ s

pub take-copy_pools :
    (off : ℕ) (ps : List VertexPool) (mem : List ℕ)
    → IsPools ps
    → off + used ps ≤ length mem
    → take (off + used ps) (copy_pools off ps mem) ≡ take off mem ++ flat ps
unfolding copy_pools used flat
take-copy_pools off [] mem is fits =
    ap (λ k. take k mem) {x = off + 0} {y = off} (omega arith) ∙ sym (append-nil (take off mem))
take-copy_pools off (p ∷ ps) mem (i, is) fits =
    let bytes : List ℕ = take p.position p.block in
    let n : length bytes ≡ p.position = pool_bytes p i in
    let mem' : List ℕ = splice off bytes mem in
    let s : length mem' ≡ length mem = length-splice off bytes mem (omega arith) in
    let end : off + (p.position + used ps) ≡ off + p.position + used ps = omega arith in
    ap (λ k. take k (copy_pools (off + p.position) ps mem')) end
    ∙ take-copy_pools (off + p.position) ps mem' is (omega arith)
    ∙ ap (λ l. l ++ flat ps)
        (ap (λ k. take (off + k) mem') (sym n) ∙ take-splice off bytes mem (omega arith))
    ∙ append_assoc (take off mem) bytes (flat ps)

module _ (h : Host) (v : Vertex) where
  -- The record of a vertex in the pools is among their bytes.
  pub flat-Kept :
      (ps : List VertexPool) (o : ℕ)
      → IsPools ps
      → Kept h v ps o
      → (o + length_of v ≤ used ps)
        × (take (length_of v) (drop o (flat ps)) ≡ encode h (record_of v))
  unfolding flat used
  flat-Kept [] o is k = elim k [ ]
  flat-Kept (p ∷ ps) o (i, is) (here le e) = (
    omega arith,
    take-drop_agree p.position o (length_of v) (take p.position p.block ++ flat ps) p.block
          (take-append_left p.position (take p.position p.block) (flat ps) (pool_bytes p i)) le
        ∙ e,
  )
  flat-Kept (p ∷ ps) o (i, is) (there le k) =
      let (fits, e) = flat-Kept ps (o - p.position) is k in
      let at : p.position + (o - p.position) ≡ o = omega arith in
      let bytes : List ℕ = take p.position p.block in
      (
        omega arith,
        ap (λ n. take (length_of v) (drop n (bytes ++ flat ps))) (sym at)
            ∙ ap (take (length_of v)) (
                sym (drop-drop p.position (o - p.position) (bytes ++ flat ps))
                ∙ ap (drop (o - p.position))
                    (drop-append_left p.position bytes (flat ps) (pool_bytes p i)))
            ∙ e,
      )

-- The record of a vertex is in the memory of the node, at the offset.
pub record IsInNode (h : Host) (len : ℕ) (v : Vertex) (o : ℕ) (node : List ℕ) : Type 0 where
  pub above : 8 ≤ o
  pub within : o + length_of v ≤ len
  pub bytes : take (length_of v) (drop o node) ≡ encode h (record_of v)

abbrev pub IsHeld : Host → ℕ → Vertex → ℕ → List ℕ → Option (List VertexPool) → Type 0
IsHeld h len v o node x = IsInNode h len v o node ⊎ IsStored h len v o x

module _ (h : Host) (host : IsHost h) (node : List ℕ) (len : ℕ)
    (says : read h 0 4 node ≡ some len) where
  -- A look-up of a record in the node.
  node-lookup :
      (x : Option (List VertexPool)) (v w : Vertex) (o : ℕ)
      → IsVertex v
      → IsInNode h len v o node
      → lookup h (palette_of node x) o w ≡ some (true, shown v)
  unfolding lookup
  node-lookup x v w o iv i =
      let within = i.within in
      let (lo, _) = length_of-bounds v in
      let e : ltb o len ≡ true = lt→ltb o len (omega arith) in
      rw (says, e) (lookup_at-record h host v (drop o node) iv i.bytes)

  pub held-lookup :
      (x : Option (List VertexPool)) (v w : Vertex) (o : ℕ)
      → IsVertex v
      → IsHeld h len v o node x
      → lookup h (palette_of node x) o w ≡ some (true, shown v)
  held-lookup x v w o iv (inl i) = node-lookup x v w o iv i
  held-lookup x v w o iv (inr st) = stored-lookup h host node len says x v w o iv st
