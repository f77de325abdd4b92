-- ===== src/Palette/Look.antt =====
-- The look-up of a vertex that stands in a palette.
use profit.Prelude.{
  ℕ, ◌-◌, ◌^◌, ◌≤◌, ◌<◌, ◌≡◌, refl, sym, ap, ◌∙◌, some, List, [], ◌∷◌, ◌++◌, Bool, true, false,
  arith, length, take, drop, leb, le→leb, if◌then◌else◌, length-take, length-drop, take-append-drop,
}
use profit.Palette.{Host, IsHost, Vertex, VertexPool, Cell, vertex_clear}
use profit.Palette.Store.{opcode_of, length_of, members}
use profit.Palette.Memory.{encode, sizes, Fits, Reads, length-encode, drop-encode, encode-Reads}
use profit.Palette.Fill.{fill, vertex_lookup, locate, lookup_at}
use profit.Palette.Kept.{here, there, record_of, sizes-record_of, length_of-bounds, Kept}

-- What is left of a vertex in a palette: it has no normal or texture coordinates unless it says so.
abbrev pub shown : Vertex → Vertex
shown v = record v {
  normal_0 = if v.has_normal then v.normal_0 else 0;
  normal_1 = if v.has_normal then v.normal_1 else 0;
  normal_2 = if v.has_normal then v.normal_2 else 0;
  texture_0 = if v.has_texture then v.texture_0 else 0;
  texture_1 = if v.has_texture then v.texture_1 else 0;
}

-- The members of a vertex are numbers of their types.
pub record IsVertex (v : Vertex) : Type 0 where
  pub place : (v.x < 256 ^ 8) × (v.y < 256 ^ 8) × (v.z < 256 ^ 8)
  pub shorts : (v.color_name_index < 256 ^ 2) × (v.flags < 256 ^ 2)
  pub normal : (v.normal_0 < 256 ^ 4) × (v.normal_1 < 256 ^ 4) × (v.normal_2 < 256 ^ 4)
  pub texture : (v.texture_0 < 256 ^ 4) × (v.texture_1 < 256 ^ 4)
  pub colors : (v.packed_color < 256 ^ 4) × (v.color_index < 256 ^ 4)

-- The vertex with other marks, with which the records compute
abbrev marked : Vertex → Bool → Bool → Vertex
marked v a b = record v { has_normal = a; has_texture = b }

Fits-marked : (v : Vertex) (a b : Bool) → IsVertex v → Fits (record_of (marked v a b))
unfolding opcode_of length_of members
Fits-marked v a b i =
    let (x, y, z) = i.place in
    let (c, f) = i.shorts in
    let (n₀, n₁, n₂) = i.normal in
    let (t₀, t₁) = i.texture in
    let (p, k) = i.colors in
    elim a as (λ s. Fits (record_of (marked v s b))) [
      | true ↦ elim b as (λ t. Fits (record_of (marked v true t))) [
        | true ↦ (
          omega arith,
          (omega arith, (x, (y, (z, (c, (f, (n₀, (n₁, (n₂, (t₀, (t₁, (p, (k, tt))))))))))))),
        )
        | false ↦
            (omega arith, (omega arith, (x, (y, (z, (c, (f, (n₀, (n₁, (n₂, (p, (k, tt))))))))))))
      ]
      | false ↦ elim b as (λ t. Fits (record_of (marked v false t))) [
        | true ↦ (omega arith, (omega arith, (x, (y, (z, (c, (f, (t₀, (t₁, (p, (k, tt)))))))))))
        | false ↦ (omega arith, (omega arith, (x, (y, (z, (c, (f, (p, (k, tt)))))))))
      ]
    ]

module _ (h : Host) where
  filled-marked :
      (v : Vertex) (ptr : List ℕ) (a b : Bool)
      → let w = marked v a b in
        Reads h ptr 0 (members w)
        → vertex_lookup h (opcode_of w) (length_of w) ptr vertex_clear ≡ some (true, shown w)
  unfolding vertex_lookup fill members opcode_of length_of
  filled-marked v ptr true true (x, (y, (z, (c, (f, (n₀, (n₁, (n₂, (t₀, (t₁, (p, (k, _)))))))))))) =
      rw (x, y, z, c, f, n₀, n₁, n₂, t₀, t₁, p, k) refl
  filled-marked v ptr true false (x, (y, (z, (c, (f, (n₀, (n₁, (n₂, (p, (k, _)))))))))) =
      rw (x, y, z, c, f, n₀, n₁, n₂, p, k) refl
  filled-marked v ptr false true (x, (y, (z, (c, (f, (t₀, (t₁, (p, (k, _))))))))) =
      rw (x, y, z, c, f, t₀, t₁, p, k) refl
  filled-marked v ptr false false (x, (y, (z, (c, (f, (p, (k, _))))))) =
      rw (x, y, z, c, f, p, k) refl

  -- Members that can be read fill a cleared vertex.
  filled :
      (v : Vertex) (ptr : List ℕ)
      → Reads h ptr 0 (members v)
      → vertex_lookup h (opcode_of v) (length_of v) ptr vertex_clear ≡ some (true, shown v)
  filled v ptr = filled-marked v ptr v.has_normal v.has_texture

module _ (h : Host) (host : IsHost h) where
  -- At the record of a vertex the look-up gives it.
  pub lookup_at-record :
      (v : Vertex) (ptr : List ℕ)
      → IsVertex v
      → take (length_of v) ptr ≡ encode h (record_of v)
      → lookup_at h ptr ≡ some (true, shown v)
  unfolding lookup_at
  lookup_at-record v ptr i e =
      let n : sizes (record_of v) ≡ length_of v = sizes-record_of v in
      let rest : List ℕ = drop (length_of v) ptr in
      let all : ptr ≡ encode h (record_of v) ++ rest =
        sym (take-append-drop (length_of v) ptr) ∙ ap (λ l. l ++ rest) e in
      let long : length_of v ≤ length ptr =
        omega
          (arith, length-take (length_of v) ptr, ap length e, length-encode h host (record_of v)) in
      let fits : Fits (record_of v) = Fits-marked v v.has_normal v.has_texture i in
      let (op, (len, _)) = encode-Reads h host (record_of v) 0 ptr rest fits all (omega arith) in
      let cells : List Cell = (2, length_of v) ∷ members v in
      let behind : drop 4 ptr ≡ encode h (members v) ++ rest =
        drop-encode h host 2 (length_of v) (members v) 2 ptr rest
          (drop-encode h host 2 (opcode_of v) cells 0 ptr rest all) in
      let body : Reads h (drop 4 ptr) 0 (members v) =
        encode-Reads h host (members v) 0 (drop 4 ptr) rest fits.1.1 behind
          (omega (arith, length-drop 4 ptr)) in
      rw (op, len) (filled h v (drop 4 ptr) body)

locate-passes :
    (p : VertexPool) (ps : List VertexPool) (o : ℕ)
    → leb p.position o ≡ true
    → locate (p ∷ ps) o ≡ locate ps (o - p.position)
unfolding locate
locate-passes p ps o e = rw (e, locate) refl

locate-stops :
    (p : VertexPool) (ps : List VertexPool) (o : ℕ)
    → leb p.position o ≡ false
    → locate (p ∷ ps) o ≡ some (drop o p.block)
unfolding locate
locate-stops p ps o e = rw (e, locate) refl

module _ (h : Host) (host : IsHost h) (v : Vertex) (i : IsVertex v) where
  -- The loop over the pools arrives at the record of a vertex.
  pub locate-Kept :
      (ps : List VertexPool) (o : ℕ)
      → Kept h v ps o
      → (ptr : List ℕ) × (locate ps o ≡ some ptr) × (lookup_at h ptr ≡ some (true, shown v))
  locate-Kept [] o k = elim k [ ]
  locate-Kept (p ∷ ps) o (here le e) =
      let (lo, _) = length_of-bounds v in
      let before : leb p.position o ≡ false = ground arith in
      (drop o p.block, locate-stops p ps o before, lookup_at-record h host v (drop o p.block) i e)
  locate-Kept (p ∷ ps) o (there le k) =
      let (ptr, found, at) = locate-Kept ps (o - p.position) k in
      (ptr, locate-passes p ps o (le→leb p.position o le) ∙ found, at)
