-- ===== src/Palette/Fill.antt =====
-- What prf_vertex_lookup and prf_model_vertex_palette_lookup give for a record of a palette.
use profit.Prelude.{
  ℕ, ◌+◌, ◌-◌, Bool, true, false, Option, none, some, List, [], ◌∷◌, leb, ltb, ◌==◌, if◌then◌else◌,
  drop, ◌>>=◌,
}
use profit.Palette.{Host, Vertex, VertexPool, Palette, vertex_clear, read}

-- One step of a fill function: the bytes that pos goes on by, the member's place in the structure, and
-- what is done with it.
pub record Row : Type 0 where
  pub size : ℕ
  pub offset : ℕ
  pub give : ℕ → Vertex → Vertex

-- The steps up to the first that the length does not reach.
unfoldable pub fill : Host → List ℕ → ℕ → ℕ → List Row → Vertex → Option Vertex
fill h ptr len pos [] v = some v
fill h ptr len pos (r ∷ rs) v = elim (ltb len (pos + r.size)) [
  | true ↦ some v
  | false ↦ do m ← read h r.offset r.size ptr; fill h ptr len (pos + r.size) rs (r.give m v)
]

abbrev row : ℕ → ℕ → (ℕ → Vertex → Vertex) → Row
row n off give = record { size = n; offset = off; give = give }

-- the first five steps of the fill functions of today's vertices
abbrev common : List Row → List Row
common rows =
    row 2 24 (λ m v. record v { color_name_index = m })
    ∷ row 2 26 (λ m v. record v { flags = m })
    ∷ row 8 0 (λ m v. record v { x = m })
    ∷ row 8 8 (λ m v. record v { y = m })
    ∷ row 8 16 (λ m v. record v { z = m })
    ∷ rows

-- the last two, with the place of the packed colour
abbrev colors : ℕ → List Row
colors off =
    row 4 off (λ m v. record v { packed_color = m })
    ∷ row 4 (off + 4) (λ m v. record v { color_index = m })
    ∷ []

abbrev normals : ℕ → List Row → List Row
normals off rows =
    row 4 off (λ m v. record v { normal_0 = m })
    ∷ row 4 (off + 4) (λ m v. record v { normal_1 = m })
    ∷ row 4 (off + 8) (λ m v. record v { normal_2 = m; has_normal = true })
    ∷ rows

abbrev textures : ℕ → List Row → List Row
textures off rows =
    row 4 off (λ m v. record v { texture_0 = m })
    ∷ row 4 (off + 4) (λ m v. record v { texture_1 = m; has_texture = true })
    ∷ rows

-- `prf_vertex_with_color_fill_vertex`
abbrev pub with_color : List Row
with_color = common (colors 28)

-- `prf_vertex_with_normal_fill_vertex`
abbrev pub with_normal : List Row
with_normal = common (normals 28 (colors 40))

-- `prf_vertex_with_normal_and_texture_fill_vertex`
abbrev pub with_normal_and_texture : List Row
with_normal_and_texture = common (normals 28 (textures 40 (colors 48)))

-- `prf_vertex_with_texture_fill_vertex`
abbrev pub with_texture : List Row
with_texture = common (textures 28 (colors 36))

-- `prf_obsolete_vertex_with_color_fill_vertex` and `prf_obsolete_vertex_with_normal_fill_vertex`, which
-- look at no length
unfoldable pub obsolete_fill : Host → List ℕ → Vertex → Option Vertex
obsolete_fill h ptr v = do
  x ← read h 0 4 ptr
  y ← read h 4 4 ptr
  z ← read h 8 4 ptr
  some (record v { x = h.to_double x; y = h.to_double y; z = h.to_double z })

-- The switch on the opcode of a node, with its length and its memory: whether it has a vertex.
unfoldable pub vertex_lookup : Host → ℕ → ℕ → List ℕ → Vertex → Option (Bool × Vertex)
vertex_lookup h op len ptr v =
    if op == 8
    then (do r ← obsolete_fill h ptr v; some (true, r))
    else if op == 9
    then (do r ← obsolete_fill h ptr v; some (true, r))
    else if op == 68
    then (do r ← fill h ptr len 4 with_color v; some (true, r))
    else if op == 69
    then (do r ← fill h ptr len 4 with_normal v; some (true, r))
    else if op == 70
    then (do r ← fill h ptr len 4 with_normal_and_texture v; some (true, r))
    else if op == 71
    then (do r ← fill h ptr len 4 with_texture v; some (true, r))
    else some (false, v)

-- The loop over the pools: the block with the offset, from there on.
unfoldable pub locate : List VertexPool → ℕ → Option (List ℕ)
locate [] offset = none
locate (p ∷ ps) offset = elim (leb p.position offset) [
  | true ↦ locate ps (offset - p.position)
  | false ↦ some (drop offset p.block)
]

-- The end of the look-up, at the record: a cleared vertex is filled.
unfoldable pub lookup_at : Host → List ℕ → Option (Bool × Vertex)
lookup_at h ptr = do
  op ← read h 0 2 ptr
  len ← read h 2 2 ptr
  vertex_lookup h op len (drop 4 ptr) vertex_clear

-- `prf_model_vertex_palette_lookup`
unfoldable pub lookup : Host → Palette → ℕ → Vertex → Option (Bool × Vertex)
lookup h m offset vertex = elim m.vertex_palette [
  | none ↦ some (false, vertex)
  | some palette ↦ do
    len ← read h 0 4 palette
    if ltb offset len then lookup_at h (drop offset palette) else elim m.vertextras [
      | none ↦ some (false, vertex)
      | some ps ↦ elim (locate ps (offset - len)) [
        | none ↦ some (false, vertex)
        | some ptr ↦ lookup_at h ptr
      ]
    ]
]
