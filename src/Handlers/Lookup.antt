-- ===== src/Handlers/Lookup.antt =====
-- The look-ups of src/state.c that a client makes in a traversal: materials, textures, instances and
-- colours. A look-up that copies a record into the client's memory gives what it copies.
use profit.Prelude.{
  ℕ, ◌-◌, ◌/◌, ◌%◌, ◌^◌, Bool, Option, none, some, List, [], ◌∷◌, ◌==◌, if◌then◌else◌, ltb,
  get_elem?, ◌>>=◌, ◌>>◌, guard,
}
use profit.Traverse.{Node, prf_node}
use profit.Handlers.{Context, member}
use profit.Handlers.Colors.{default_values}

-- The length of a record
abbrev pub length_of_node : Node → ℕ
length_of_node (prf_node o f b c) = b.len

-- What a material is copied from: an entry of an old palette, or a record.
pub data Material : Type 0 where
  of_palette : Node → ℕ → Material
  of_record : Node → Material

abbrev pub record_material : Option Node → Option Material
record_material none = none
record_material (some n) = some (of_record n)

-- the size of `struct prf_material_palette_data`: fourteen floats, the flags, the name and 28 words
abbrev pub palette_data_size : ℕ
palette_data_size = 184

module _ (stale : Node → ℕ → ℕ) where
  -- The first of some nodes with a number as its member k, the loop of each look-up
  unfoldable pub find_member : ℕ → ℕ → List Node → Option Node
  find_member k index [] = none
  find_member k index (n ∷ ns) =
      let rest = find_member k index ns in if member stale k n == index then some n else rest

  -- `prf_state_material_lookup`: the index is the first member.
  unfoldable pub material_lookup : {U : Type 0} → Context U → ℕ → Option Material
  material_lookup c index = elim c.material_palette [
    | none ↦ record_material (find_member 0 index c.materials)
    | some p ↦
        if ltb index (length_of_node p / palette_data_size) then some (of_palette p index) else none
  ]

  -- `prf_state_texture_lookup`: the pattern index is the second member.
  unfoldable pub texture_lookup : {U : Type 0} → Context U → ℕ → Option Node
  texture_lookup c index = find_member 1 index c.textures

  -- `prf_state_get_instance`: the number of a definition is its second member; numbers have 16 bits.
  unfoldable pub get_instance : {U : Type 0} → Context U → ℕ → Option Node
  get_instance c number = find_member 1 number c.instances

  -- `prf_state_get_instance_from_node`: in a reference it is the second member too.
  unfoldable pub get_instance_from_node : {U : Type 0} → Context U → Node → Option Node
  get_instance_from_node c n = get_instance c (member stale 1 n)

-- The top byte of a colour is its alpha: an opaque one hides what is behind it.
abbrev pub is_opaque : ℕ → Bool
is_opaque color = color / 2 ^ 24 % 2 ^ 8 == 255

-- The colour of the palette, where it is long enough, or the default
unfoldable pub held_color : {U : Type 0} → (Node → ℕ → ℕ) → Context U → ℕ → ℕ → ℕ
held_color brightest c index default = elim c.color_palette [
  | none ↦ default
  | some p ↦ if ltb index ((length_of_node p - 132) / 4) then brightest p index else default
]

-- `prf_state_color_lookup`, where `brightest` is what a palette's node holds for a colour; an index from
-- 1024 on fails an assertion.
unfoldable pub color_lookup : {U : Type 0} → (Node → ℕ → ℕ) → Context U → ℕ → Option ℕ
color_lookup brightest c index = do
  guard (ltb index 1024)
  default ← get_elem? default_values index
  let color = held_color brightest c index default
  some (if is_opaque color then color else default)
