-- ===== src/Palette/Store.antt =====
-- How prf_model_add_vertex puts a vertex into the pools.
use profit.Prelude.{
  ℕ, ◌+◌, ◌-◌, ◌*◌, ◌%◌, ◌^◌, Option, none, some, List, [], ◌∷◌, ◌++◌, leb, ltb, if◌then◌else◌,
  length, ◌>>=◌, ◌>>◌, guard,
}
use profit.Palette.{Host, Vertex, VertexPool, Palette, Cell, read, write}

-- PRF_POOL_BLOCK_SIZE
abbrev pub vertex_block_size : ℕ
vertex_block_size = 32 * 1024

-- A new pool, as prf_vertextras_init and prf_model_add_vertex make it; `malloc` gave the block.
abbrev pub new_vertex_pool : List ℕ → VertexPool
new_vertex_pool block = record { block = block; data_size = vertex_block_size; position = 0 }

unfoldable pub opcode_of : Vertex → ℕ
opcode_of v =
    if v.has_normal then (if v.has_texture then 70 else 69) else if v.has_texture then 71 else 68

unfoldable pub length_of : Vertex → ℕ
length_of v =
    if v.has_normal
    then (if v.has_texture then 4 + 3 * 8 + 4 + 5 * 4 + 4 + 4 else 4 + 3 * 8 + 4 + 3 * 4 + 4 + 4)
    else if v.has_texture
    then 4 + 3 * 8 + 4 + 2 * 4 + 4 + 4
    else 4 + 3 * 8 + 4 + 4 + 4

-- The members that the switch on the opcode writes, in the order of their structure.
unfoldable pub members : Vertex → List Cell
members v =
    let normals : List Cell = (4, v.normal_0) ∷ (4, v.normal_1) ∷ (4, v.normal_2) ∷ [] in
    let textures : List Cell = (4, v.texture_0) ∷ (4, v.texture_1) ∷ [] in
    let colors : List Cell = (4, v.packed_color) ∷ (4, v.color_index) ∷ [] in
    (8, v.x)
    ∷ (8, v.y)
    ∷ (8, v.z)
    ∷ (2, v.color_name_index)
    ∷ (2, v.flags)
    ∷ (if v.has_normal
        then (if v.has_texture then normals ++ (textures ++ colors) else normals ++ colors)
        else if v.has_texture
        then textures ++ colors
        else colors)

-- The record of a vertex at the end of a pool.
unfoldable pub put : Host → Vertex → VertexPool → Option VertexPool
put h v p = do
  guard (leb (p.position + length_of v) (length p.block))
  some (record p {
    block = write h p.position ((2, opcode_of v) ∷ (2, length_of v) ∷ members v) p.block;
    position = (p.position + length_of v) % 2 ^ 32;
  })

-- The last pool takes the record, or where it has too little left a new one.
unfoldable pub put_last : Host → List ℕ → Vertex → List VertexPool → Option (List VertexPool)
put_last h block v [] = none
put_last h block v (p ∷ []) =
    if ltb ((p.data_size + 2 ^ 32 - p.position) % 2 ^ 32) (length_of v)
    then (do q ← put h v (new_vertex_pool block); some (p ∷ q ∷ []))
    else (do q ← put h v p; some (q ∷ []))
put_last h block v (p ∷ q ∷ ps) = do rest ← put_last h block v (q ∷ ps); some (p ∷ rest)

-- the loop that adds up the positions
unfoldable pub used : List VertexPool → ℕ
used [] = 0
used (p ∷ ps) = p.position + used ps

-- The pools, which prf_vertextras_init makes where there are none.
unfoldable pub pools_of : List ℕ → Palette → List VertexPool
pools_of first m = elim m.vertextras [ none ↦ new_vertex_pool first ∷ [] | some ps ↦ ps ]

-- `prf_model_add_vertex`: the offset of the vertex. `first` and `block` are what `malloc` gives for the
-- first pool and for a further one.
unfoldable pub add_vertex : Host → List ℕ → List ℕ → Palette → Vertex → Option (ℕ × Palette)
add_vertex h first block m v = do
  palette ← m.vertex_palette
  start ← read h 0 4 palette
  pools' ← put_last h block v (pools_of first m)
  some ((start + used (pools_of first m)) % 2 ^ 32, record m { vertextras = some pools' })
