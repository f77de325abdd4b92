-- ===== src/Palette.antt =====
-- The vertex palette of a model: src/model.c from prf_vertextras_init on, the vertex of src/vertex.c,
-- and the functions prf_*_fill_vertex of src/nodes/. A palette is the memory of its node, with its
-- length in the first four bytes; vertices that are added later stand in pools of 32 kilobytes
-- (`vertextras`). A record in this memory is in the representation of the machine, which is the
-- parameter `Host`. Floats are their patterns, allocations succeed, and `none` is an access outside of
-- an object.
pub mod Fill
pub mod Store
pub mod Memory
pub mod Kept
pub mod Look
pub mod RoundTrip
pub mod Clone
pub mod Same
pub mod Iterate
mod Tests
use profit.Prelude.{
  ℕ, ◌+◌, ◌-◌, ◌%◌, ◌^◌, ◌<◌, ◌≡◌, Bool, true, false, Option, none, some, List, [], ◌∷◌, leb, ltb,
  ◌==◌, if◌then◌else◌, length, take, drop, ◌>>=◌, ◌>>◌, guard,
}
use profit.Prelude.Windows.{splice}

-- How the machine represents a number in n bytes, what n bytes stand for, and the double that stands
-- for an unsigned integer.
pub record Host : Type 0 where
  pub bytes : ℕ → ℕ → List ℕ
  pub value : List ℕ → ℕ
  pub to_double : ℕ → ℕ

-- What C says of it: n bytes, from which a number that fits comes back.
pub record IsHost (h : Host) : Type 0 where
  pub length-bytes : (n v : ℕ) → length (h.bytes n v) ≡ n
  pub value-bytes : (n v : ℕ) → v < 256 ^ n → h.value (h.bytes n v) ≡ v

-- `struct prf_vertex_s`
pub record Vertex : Type 0 where
  pub x : ℕ
  pub y : ℕ
  pub z : ℕ
  pub color_name_index : ℕ
  pub flags : ℕ
  pub normal_0 : ℕ
  pub normal_1 : ℕ
  pub normal_2 : ℕ
  pub texture_0 : ℕ
  pub texture_1 : ℕ
  pub packed_color : ℕ
  pub color_index : ℕ
  pub has_normal : Bool
  pub has_texture : Bool

-- `prf_vertex_clear`: the pattern of 0.0 is 0.
abbrev pub vertex_clear : Vertex
vertex_clear = record {
  x = 0;
  y = 0;
  z = 0;
  color_name_index = 0;
  flags = 0;
  normal_0 = 0;
  normal_1 = 0;
  normal_2 = 0;
  texture_0 = 0;
  texture_1 = 0;
  packed_color = 0;
  color_index = 0;
  has_normal = false;
  has_texture = false;
}

-- `struct prf_vertex_pool_s`
pub record VertexPool : Type 0 where
  pub block : List ℕ
  pub data_size : ℕ
  pub position : ℕ

-- The part of a model that the palette has: the memory of its node, and the pools.
pub record Palette : Type 0 where
  pub vertex_palette : Option (List ℕ)
  pub vertextras : Option (List VertexPool)

-- The n bytes from index k on of an object, which begins at the pointer.
unfoldable pub read : Host → ℕ → ℕ → List ℕ → Option ℕ
read h k n ptr = if leb (k + n) (length ptr) then some (h.value (take n (drop k ptr))) else none

-- Members of a structure, each with its size, are written one behind the other.
abbrev pub Cell : Type 0
Cell = ℕ × ℕ

abbrev pub write : Host → ℕ → List Cell → List ℕ → List ℕ
write h off [] block = block
write h off ((n, v) ∷ cs) block = write h (off + n) cs (splice off (h.bytes n v) block)

-- `prf_model_vertex_palette_get_first_index`
unfoldable pub get_first_index : Palette → ℕ
get_first_index m = elim m.vertex_palette [ none ↦ 0 | some p ↦ 8 ]

-- `prf_model_vertex_palette_get_next_index`; an assertion that fails is `none` as well.
unfoldable pub get_next_index : Host → Palette → ℕ → Option ℕ
get_next_index h m idx = do
  guard (leb 8 idx)
  guard (idx % 4 == 0)
  palette ← m.vertex_palette
  len ← read h 0 4 palette
  guard (ltb idx len)
  size ← read h 2 2 (drop idx palette)
  let next = (idx + size) % 2 ^ 32
  some (if leb len next then 0 else next)
