-- ===== src/Palette/Tests.antt =====
-- A palette on a little-endian machine, and its theorems there.
use profit.Prelude.{
  ℕ, zero, suc, ◌*◌, ◌/◌, ◌%◌, ◌^◌, ◌≤◌, ◌<◌, ◌≡◌, refl, ap, Option, none, some, List, [], ◌∷◌,
  ◌++◌, true, arith, length, length-replicate, replicate,
}
use native.Mathlib.Nat.{pow-suc}
use profit.Bfile.Get.Values.{little_endian}
use profit.Palette.{
  Host, IsHost, Vertex, VertexPool, vertex_clear, read, get_first_index, get_next_index,
}
use profit.Palette.Store.{vertex_block_size, new_vertex_pool, used, opcode_of, length_of, members}
use profit.Palette.Fill.{lookup, lookup_at, vertex_lookup, fill}
use profit.Palette.Memory.{encode}
use profit.Palette.Kept.{record_of}
use profit.Palette.Look.{IsVertex, shown}
use profit.Palette.RoundTrip.{palette_of, HasExtras, IsStored, add_all, Gives, add_all-Gives}
use profit.Palette.Iterate.{indices, row, stop, indices-all}
use profit.Palette.Clone.{clone, IsHeld}
use profit.Palette.Same.{clone-lookup}

abbrev digits_of : ℕ → ℕ → List ℕ
digits_of zero v = []
digits_of (suc n) v = (v % 256) ∷ digits_of n (v / 256)

-- `to_double` is not used below: no vertex is of an obsolete type.
abbrev little : Host
little = record { bytes = digits_of; value = little_endian; to_double = λ v. v }

length-digits_of : (n v : ℕ) → length (digits_of n v) ≡ n
length-digits_of zero v = refl
length-digits_of (suc n) v = ap suc (length-digits_of n (v / 256))

value-digits_of : (n v : ℕ) → v < 256 ^ n → little_endian (digits_of n v) ≡ v
value-digits_of zero v h = omega arith
value-digits_of (suc n) v h =
    let p : 256 ^ suc n ≡ 256 * 256 ^ n = omega (arith, pow-suc 256 n) in
    omega (arith, value-digits_of n (v / 256) (omega arith))

little-IsHost : IsHost little
little-IsHost = record { length-bytes = length-digits_of; value-bytes = value-digits_of }

abbrev plain : Vertex
plain = record vertex_clear { x = 11; y = 22; z = 33; flags = 0x1000; packed_color = 0xff00_00ff }

abbrev lit : Vertex
lit = record plain { normal_2 = 44; texture_0 = 55; has_normal = true; has_texture = true }

plain-IsVertex : IsVertex plain
plain-IsVertex = record {
  place = (omega arith, omega arith, omega arith);
  shorts = (omega arith, omega arith);
  normal = (omega arith, omega arith, omega arith);
  texture = (omega arith, omega arith);
  colors = (omega arith, omega arith);
}

lit-IsVertex : IsVertex lit
lit-IsVertex = record {
  place = (omega arith, omega arith, omega arith);
  shorts = (omega arith, omega arith);
  normal = (omega arith, omega arith, omega arith);
  texture = (omega arith, omega arith);
  colors = (omega arith, omega arith);
}

-- A node with two vertices of 40 and 60 bytes
abbrev node : List ℕ
node =
    digits_of 4 108
    ++ (digits_of 4 0 ++ (encode little (record_of plain) ++ encode little (record_of lit)))

says : read little 0 4 node ≡ some 108
unfolding read opcode_of length_of members
says = refl

long : 108 ≤ length node
unfolding members opcode_of length_of
long = omega arith

lookup_run : lookup little (palette_of node none) 48 vertex_clear ≡ some (true, lit)
unfolding lookup lookup_at vertex_lookup fill read opcode_of length_of members
lookup_run = refl

first_run : get_first_index (palette_of node none) ≡ 8
unfolding get_first_index
first_run = refl

next_run : get_next_index little (palette_of node none) 8 ≡ some 48
unfolding get_next_index read opcode_of length_of members
next_run = refl

last_run : get_next_index little (palette_of node none) 48 ≡ some 0
unfolding get_next_index read opcode_of length_of members
last_run = refl

indices-all_example :
    indices little (palette_of node none) 3 (get_first_index (palette_of node none))
    ≡ some (8 ∷ 48 ∷ [])
unfolding read opcode_of length_of members
indices-all_example =
    indices-all little node 108 says (omega arith) (8 ∷ 48 ∷ []) 3 (omega arith)
      (row {n = 40} refl (omega arith) refl (omega arith)
        (row {n = 60} refl (omega arith) refl (omega arith) (stop refl)))
      (omega arith)

abbrev zeros : ℕ → List ℕ
zeros n = replicate n 0

length-zeros : (n : ℕ) → length (zeros n) ≡ n
length-zeros n = length-replicate n 0

abbrev two : List (List ℕ × Vertex)
two = (zeros vertex_block_size, lit) ∷ (zeros vertex_block_size, plain) ∷ []

add_all-Gives_example :
    (os : List ℕ) × (y : Option (List VertexPool)) × (add_all little
        (zeros vertex_block_size)
        two
        (palette_of node none)
      ≡ some (os, palette_of node y))
    × Gives little (palette_of node y) os two
    × HasExtras y
    × ((w : Vertex) (o : ℕ) → IsStored little 108 w o none → IsStored little 108 w o y)
add_all-Gives_example =
    add_all-Gives little little-IsHost node 108 says (zeros vertex_block_size)
      (length-zeros vertex_block_size) two none
      (
        (length-zeros vertex_block_size, lit-IsVertex),
        ((length-zeros vertex_block_size, plain-IsVertex), tt),
      )
      tt (omega arith)

empty_pool : HasExtras (some (new_vertex_pool (zeros vertex_block_size) ∷ []))
empty_pool = (
  omega arith,
  (record { whole = length-zeros vertex_block_size; said = refl; inside = omega arith }, tt),
)

clone-lookup_example :
    let x = some (new_vertex_pool (zeros vertex_block_size) ∷ []) in
    (mem : List ℕ) × (clone little zeros node x ≡ some mem)
    × (read little 0 4 mem ≡ some 108)
    × ((v w : Vertex) (o : ℕ)
        → IsVertex v
        → IsHeld little 108 v o node x
        → (lookup little (palette_of mem none) o w ≡ some (true, shown v))
          × (lookup little (palette_of node x) o w ≡ some (true, shown v)))
unfolding used
clone-lookup_example =
    clone-lookup little little-IsHost zeros length-zeros node 108 says (omega arith) long
      (some (new_vertex_pool (zeros vertex_block_size) ∷ [])) empty_pool (omega arith)
