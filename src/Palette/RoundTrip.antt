-- ===== src/Palette/RoundTrip.antt =====
-- The vertices that a client adds to a palette with prf_model_add_vertex, and looks up again.
use profit.Prelude.{
  ℕ, ◌+◌, ◌-◌, ◌*◌, ◌%◌, ◌^◌, ◌≤◌, ◌<◌, ◌≡◌, refl, ap, subst, ◌∙◌, Option, none, some, List, [],
  ◌∷◌, true, false, arith, length, ltb, ◌>>=◌,
}
use profit.Palette.{Host, IsHost, Vertex, VertexPool, Palette, read}
use profit.Palette.Store.{
  length_of, new_vertex_pool, vertex_block_size, put_last, used, pools_of, add_vertex,
}
use profit.Palette.Fill.{locate, lookup, lookup_at}
use profit.Palette.Kept.{IsPools, Kept, put_last-Added, IsPool, length_of-bounds}
use profit.Palette.Look.{IsVertex, shown, locate-Kept}

-- The pools of a palette, if it has any, are valid.
abbrev pub HasExtras : Option (List VertexPool) → Type 0
HasExtras none = Unit {0}
HasExtras (some ps) = (0 < length ps) × IsPools ps

-- A palette whose memory is the node's, with the pools.
abbrev pub palette_of : List ℕ → Option (List VertexPool) → Palette
palette_of node x = record { vertex_palette = some node; vertextras = x }

-- The number of bytes in the pools.
abbrev pub extra : Option (List VertexPool) → ℕ
extra none = 0
extra (some ps) = used ps

-- The record of a vertex is in the pools, at the offset.
abbrev pub IsStored : Host → ℕ → Vertex → ℕ → Option (List VertexPool) → Type 0
IsStored h len v o none = ⊥
IsStored h len v o (some ps) = (len ≤ o) × Kept h v ps (o - len)

used-Kept : (h : Host) (v : Vertex) (ps : List VertexPool) (o : ℕ) → Kept h v ps o → 0 < length ps
used-Kept h v [] o k = elim k [ ]
used-Kept h v (p ∷ ps) o k = omega arith

-- The node says that it holds len bytes.
module _ (h : Host) (host : IsHost h) (node : List ℕ) (len : ℕ)
    (says : read h 0 4 node ≡ some len) where
  -- A look-up behind the node
  lookup-extra :
      (ps : List VertexPool) (o : ℕ) (w : Vertex) (ptr : List ℕ)
      → len ≤ o
      → locate ps (o - len) ≡ some ptr
      → lookup h (palette_of node (some ps)) o w ≡ lookup_at h ptr
  unfolding lookup
  lookup-extra ps o w ptr le found =
      let behind : ltb o len ≡ false = ground arith in rw (says, behind, found) refl

  pub stored-lookup :
      (x : Option (List VertexPool)) (v w : Vertex) (o : ℕ)
      → IsVertex v
      → IsStored h len v o x
      → lookup h (palette_of node x) o w ≡ some (true, shown v)
  stored-lookup none v w o iv st = elim st [ ]
  stored-lookup (some ps) v w o iv (le, k) =
      let (ptr, found, at) = locate-Kept h host v iv ps (o - len) k in
      lookup-extra ps o w ptr le found ∙ at

  -- an addition to pools that are there
  add-run :
      (first block : List ℕ) (v : Vertex) (x : Option (List VertexPool)) (qs : List VertexPool)
      → put_last h block v (pools_of first (palette_of node x)) ≡ some qs
      → add_vertex h first block (palette_of node x) v
        ≡ some
            ((len + used (pools_of first (palette_of node x))) % 2 ^ 32, palette_of node (some qs))
  unfolding add_vertex
  add-run first block v x qs run = rw (says, run) refl

  -- What an addition at the end of len + n bytes does.
  abbrev Adds : Vertex → Option (List VertexPool) → Option (ℕ × Palette) → Type 0
  Adds v x r =
      (y : Option (List VertexPool)) × (r ≡ some (len + extra x, palette_of node y))
      × HasExtras y
      × (extra y ≡ extra x + length_of v)
      × IsStored h len v (len + extra x) y
      × ((w : Vertex) (o : ℕ) → IsStored h len w o x → IsStored h len w o y)

  -- An addition to the pools of a palette, which are valid and hold what the palette stored.
  pools-Adds :
      (first block : List ℕ) (v : Vertex) (x : Option (List VertexPool)) (p : VertexPool)
      (ps : List VertexPool)
      → pools_of first (palette_of node x) ≡ p ∷ ps
      → used (p ∷ ps) ≡ extra x
      → IsPools (p ∷ ps)
      → length block ≡ vertex_block_size
      → len + extra x < 2 ^ 32
      → ((w : Vertex) (o : ℕ) → IsStored h len w o x → IsStored h len w o (some (p ∷ ps)))
      → Adds v x (add_vertex h first block (palette_of node x) v)
  pools-Adds first block v x p ps e n valid hb room same =
      let (qs, run, a) = put_last-Added h host v block p ps hb valid in
      let fits : (len + used (p ∷ ps)) % 2 ^ 32 ≡ len + extra x = omega arith in
      let more = a.more in
      (
        some qs,
        add-run first block v x qs (ap (put_last h block v) e ∙ run)
            ∙ ap (λ l. some ((len + used l) % 2 ^ 32, palette_of node (some qs))) e
            ∙ ap (λ k. some (k, palette_of node (some qs))) fits,
        (used-Kept h v qs (used (p ∷ ps)) a.kept, a.valid),
        omega arith,
        (omega arith, subst (λ o. Kept h v qs o) {x = used (p ∷ ps)} (omega arith) a.kept),
        λ w o st. let (le, k) = same w o st in (le, a.others w (o - len) k),
      )

  add_vertex-Adds :
      (first block : List ℕ) (v : Vertex) (x : Option (List VertexPool))
      → length first ≡ vertex_block_size
      → length block ≡ vertex_block_size
      → HasExtras x
      → len + extra x < 2 ^ 32
      → Adds v x (add_vertex h first block (palette_of node x) v)
  unfolding pools_of used
  add_vertex-Adds first block v none hf hb ex room =
      let new : IsPool (new_vertex_pool first) = record {
        whole = hf;
        said = refl;
        inside = omega arith;
      } in
      pools-Adds first block v none (new_vertex_pool first) [] refl refl (new, tt) hb room
        (λ w o st. elim st [ ])
  add_vertex-Adds first block v (some []) hf hb ex room = absurd (omega arith)
  add_vertex-Adds first block v (some (p ∷ ps)) hf hb ex room =
      pools-Adds first block v (some (p ∷ ps)) p ps refl refl ex.1 hb room (λ w o st. st)

-- Vertices that are added one by one, each with the block that `malloc` would give; their offsets.
abbrev pub add_all : Host → List ℕ → List (List ℕ × Vertex) → Palette → Option (List ℕ × Palette)
add_all h first [] m = some ([], m)
add_all h first ((block, v) ∷ vs) m = do
  (o, m') ← add_vertex h first block m v
  (os, m'') ← add_all h first vs m'
  some (o ∷ os, m'')

-- The blocks that malloc gives have the size that was asked for, and the vertices are vertices.
abbrev pub AreVertices : List (List ℕ × Vertex) → Type 0
AreVertices [] = Unit {0}
AreVertices ((block, v) ∷ vs) = ((length block ≡ vertex_block_size) × IsVertex v) × AreVertices vs

-- Each offset gives its vertex.
abbrev pub Gives : Host → Palette → List ℕ → List (List ℕ × Vertex) → Type 0
Gives h m [] [] = Unit {0}
Gives h m (o ∷ os) ((block, v) ∷ vs) =
    ((w : Vertex) → lookup h m o w ≡ some (true, shown v)) × Gives h m os vs
Gives h m _ _ = ⊥

module _ (h : Host) (host : IsHost h) (node : List ℕ) (len : ℕ) (says : read h 0 4 node ≡ some len)
    (first : List ℕ) (hf : length first ≡ vertex_block_size) where
  -- Adding vertices to a palette whose pools are valid succeeds, as long as 60 bytes for each stay
  -- within 2^32; a look-up of each of the offsets then gives its vertex, without what it says that it
  -- does not have, and so does the offset of each vertex that was in the pools before.
  pub add_all-Gives :
      (vs : List (List ℕ × Vertex)) (x : Option (List VertexPool))
      → AreVertices vs
      → HasExtras x
      → len + extra x + 60 * length vs ≤ 2 ^ 32
      → (os : List ℕ) × (y : Option (List VertexPool)) × (add_all h first vs (palette_of node x)
          ≡ some (os, palette_of node y))
        × Gives h (palette_of node y) os vs
        × HasExtras y
        × ((w : Vertex) (o : ℕ) → IsStored h len w o x → IsStored h len w o y)
  add_all-Gives [] x are ex room = ([], x, refl, tt, ex, λ w o st. st)
  add_all-Gives ((block, v) ∷ vs) x ((hb, iv), are) ex room =
      let (lo, hi) = length_of-bounds v in
      let (y, run, ex', more, at, same) =
        add_vertex-Adds h host node len says first block v x hf hb ex (omega arith) in
      let (os, z, rest, gives, ex'', same') = add_all-Gives vs y are ex' (omega arith) in
      (
        (len + extra x) ∷ os,
        z,
        rw (run, rest) refl,
        (λ w. stored-lookup h host node len says z v w _ iv (same' v _ at), gives),
        ex'',
        λ w o st. same' w o (same w o st),
      )
