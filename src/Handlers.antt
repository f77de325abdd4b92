-- ===== src/Handlers.antt =====
-- What the record types of src/nodes do to the state of a traversal: their functions entry_f and exit_f,
-- and their registration by prf_nodeinfo_init of src/nodeinfo.c. A node is a value here, so that the
-- comparison of two pointers is the parameter `same`; `stale` is what the memory of a node holds for a
-- member that was not loaded, and `add` and `mul` are the machine's operations on floats. A traversal
-- has set the model of its state. A handler that fails an assertion or follows a NULL marks the context
-- as `faulted`: the program ends there, and nothing behind it is to be taken for what the code does.
pub mod Defaults
pub mod Init
pub mod Follow
pub mod Absent
pub mod Registry
pub mod Counts
pub mod Kept
pub mod Counters
pub mod Colors
pub mod Lookup
pub mod Faults
pub mod Found
pub mod Visits
pub mod Opaque
mod Tests
use profit.Prelude.{
  ℕ, ◌+◌, ◌-◌, ◌*◌, ◌%◌, ◌^◌, Bool, true, false, Option, none, some, List, [], ◌∷◌, ◌++◌, ◌==◌,
  if◌then◌else◌, ◌||◌, leb, get_elem?, get_or, set, ◌>>=◌,
}
use profit.Record.{Value, number, bytes, Loaded}
use profit.State.{State, Matrix}
use profit.Traverse.{Node, Children, NodeState, prf_node, opcode}

-- The rest of `struct prf_state_s`, with the members of its model that handlers set, and what a client
-- keeps of its own.
pub record Context (U : Type 0) : Type 0 where
  pub header : Option Node
  pub vertex_palette : Option Node
  pub color_palette : Option Node
  pub material_palette : Option Node
  pub materials : List Node
  pub textures : List Node
  pub instances : List Node
  pub object_flags : ℕ
  pub object_transparency : ℕ
  pub push_level : ℕ
  pub subface_level : ℕ
  pub attribute_level : ℕ
  pub extension_level : ℕ
  pub model_palette : Option Node
  pub model_ofversion : ℕ
  pub faulted : Bool
  pub user : U

-- A member that was loaded as a number, by its place.
unfoldable pub member : (Node → ℕ → ℕ) → ℕ → Node → ℕ
member stale k (prf_node o f b c) = elim (get_elem? b.members k) [
  | none ↦ stale (prf_node o f b c) k
  | some v ↦ elim v [ number n ↦ n | bytes bs ↦ stale (prf_node o f b c) k ]
]

-- A record of four bytes has no data: its pointer is NULL.
abbrev pub lacks_data : Node → Bool
lacks_data (prf_node o f b c) = leb b.len 4

-- One more, or one less, on a counter of 16 bits
abbrev pub up_16 : ℕ → ℕ
up_16 n = (n + 1) % 2 ^ 16

abbrev pub down_16 : ℕ → ℕ
down_16 n = (n + 2 ^ 16 - 1) % 2 ^ 16

-- The rows of `prf_state_matrix_mult_right`: a cell starts with 0.0f, to which four products are added.
module _ (add mul : ℕ → ℕ → ℕ) where
  unfoldable pub product : Matrix → Matrix → Matrix
  product c m =
      let cell = λ (i j : ℕ).
        add
          (add
            (add (add 0 (mul (get_or c (4 * i) 0) (get_or m j 0)))
              (mul (get_or c (4 * i + 1) 0) (get_or m (4 + j) 0)))
            (mul (get_or c (4 * i + 2) 0) (get_or m (8 + j) 0)))
          (mul (get_or c (4 * i + 3) 0) (get_or m (12 + j) 0)) in
      let row = λ (i : ℕ) (rest : Matrix). cell i 0 ∷ cell i 1 ∷ cell i 2 ∷ cell i 3 ∷ rest in
      row 0 (row 1 (row 2 (row 3 [])))

  -- `prf_state_matrix_mult_right`
  unfoldable pub matrix_mult_right : {N W : Type 0} → State N W → Matrix → Option (State N W)
  matrix_mult_right s m = do
    c ← get_elem? s.matrix s.state_push_level
    some (record s { matrix = set s.matrix s.state_push_level (product c m); inv_dirty = true })

abbrev pub Handler : Type 0 → Type 0
Handler U = Node → NodeState (Context U) → NodeState (Context U)

module _ {U : Type 0} where
  -- a handler that begins with the test of the opcode, and changes nothing of a node with another
  abbrev pub for_opcode : ℕ → (Node → Context U → Context U) → Handler U
  for_opcode op f n s = if opcode n == op then record s { client = f n s.client } else s

  abbrev pub push_level_entry : Handler U
  push_level_entry = for_opcode 10 λ n c. record c { push_level = up_16 c.push_level }

  abbrev pub pop_level_exit : Handler U
  pop_level_exit = for_opcode 11 λ n c. record c { push_level = down_16 c.push_level }

  abbrev pub push_subface_entry : Handler U
  push_subface_entry = for_opcode 19 λ n c. record c { subface_level = up_16 c.subface_level }

  abbrev pub pop_subface_exit : Handler U
  pop_subface_exit = for_opcode 20 λ n c. record c { subface_level = down_16 c.subface_level }

  abbrev pub push_extension_entry : Handler U
  push_extension_entry = for_opcode 21 λ n c. record c { extension_level = up_16 c.extension_level }

  abbrev pub pop_extension_exit : Handler U
  pop_extension_exit = for_opcode 22 λ n c. record c { extension_level = down_16 c.extension_level }

  abbrev pub push_attribute_entry : Handler U
  push_attribute_entry =
      for_opcode 122 λ n c. record c { attribute_level = up_16 c.attribute_level }

  abbrev pub pop_attribute_exit : Handler U
  pop_attribute_exit =
      for_opcode 123 λ n c. record c { attribute_level = down_16 c.attribute_level }

  -- `prf_material_entry_f` and `prf_texture_entry_f`
  abbrev pub material_entry : Handler U
  material_entry = for_opcode 113 λ n c. record c { materials = c.materials ++ n ∷ [] }

  abbrev pub texture_entry : Handler U
  texture_entry = for_opcode 64 λ n c. record c { textures = c.textures ++ n ∷ [] }

  -- `prf_external_reference_entry_f` and `prf_level_of_detail_entry_f`, which do nothing
  abbrev pub external_reference_entry : Handler U
  external_reference_entry = for_opcode 63 λ n c. c

  abbrev pub level_of_detail_entry : Handler U
  level_of_detail_entry = for_opcode 73 λ n c. c

  -- `prf_object_exit_f`, which tests no opcode
  abbrev pub object_exit : Handler U
  object_exit n s = record s { client = record s.client { object_transparency = 0 } }

module _ (same : Node → Node → Bool) where
  -- `x != NULL && x != node`
  unfoldable pub is_other : Option Node → Node → Bool
  is_other none n = false
  is_other (some m) n = if same m n then false else true

  unfoldable pub has_node : List Node → Node → Bool
  has_node [] n = false
  has_node (m ∷ ms) n = let rest = has_node ms n in if same m n then true else rest

module _ {U : Type 0} (same : Node → Node → Bool) (stale : Node → ℕ → ℕ) where
  -- `prf_header_entry_f`: the format revision level is the second member.
  unfoldable pub header_context : Node → Context U → Context U
  header_context n c = if is_other same c.header n then c else record c {
    header = some n;
    materials = [];
    model_ofversion = member stale 1 n;
    faulted = c.faulted || lacks_data n;
  }

  abbrev pub header_entry : Handler U
  header_entry = for_opcode 1 header_context

  -- `prf_object_entry_f`, which tests no opcode: the flags are the second member, the transparency is
  -- the fourth.
  unfoldable pub object_context : Node → Context U → Context U
  object_context n c = record c {
    object_transparency = member stale 3 n;
    object_flags = member stale 1 n;
    faulted = c.faulted || lacks_data n;
  }

  abbrev pub object_entry : Handler U
  object_entry n s = record s { client = object_context n s.client }

  -- `prf_vertex_palette_entry_f`, which asserts that no other palette is there
  abbrev pub vertex_palette_context : Node → Context U → Context U
  vertex_palette_context n c = record c {
    vertex_palette = some n;
    model_palette = some n;
    faulted = c.faulted || is_other same c.vertex_palette n;
  }

  abbrev pub vertex_palette_entry : Handler U
  vertex_palette_entry = for_opcode 67 vertex_palette_context

  -- `prf_color_palette_entry_f` and `prf_material_palette_entry_f`
  unfoldable pub color_palette_context : Node → Context U → Context U
  color_palette_context n c =
      if is_other same c.color_palette n then c else record c { color_palette = some n }

  abbrev pub color_palette_entry : Handler U
  color_palette_entry = for_opcode 32 color_palette_context

  unfoldable pub material_palette_context : Node → Context U → Context U
  material_palette_context n c =
      if is_other same c.material_palette n then c else record c { material_palette = some n }

  abbrev pub material_palette_entry : Handler U
  material_palette_entry = for_opcode 66 material_palette_context

  -- `prf_instance_definition_entry_f`
  unfoldable pub instance_context : Node → Context U → Context U
  instance_context n c =
      if has_node same c.instances n then c else record c { instances = c.instances ++ n ∷ [] }

  abbrev pub instance_definition_entry : Handler U
  instance_definition_entry = for_opcode 62 instance_context

-- what the entry of a matrix does to the context: the matrix is the data of the node
abbrev pub matrix_context : {U : Type 0} → Node → Context U → Context U
matrix_context n c = record c { faulted = c.faulted || lacks_data n }

-- `prf_matrix_entry_f`: the matrix of the node is its sixteen members. The level of a traversal is on the
-- stack of matrices.
unfoldable pub matrix_entry : {U : Type 0} → (Node → ℕ → ℕ) → (ℕ → ℕ → ℕ) → (ℕ → ℕ → ℕ) → Handler U
matrix_entry stale add mul n s =
    let cell = λ (k : ℕ). member stale k n in
    let row =
      λ (k : ℕ) (rest : Matrix). cell k ∷ cell (k + 1) ∷ cell (k + 2) ∷ cell (k + 3) ∷ rest in
    let s' = record s { client = matrix_context n s.client } in
    if opcode n == 49
    then (elim (matrix_mult_right add mul s' (row 0 (row 4 (row 8 (row 12 []))))) [
      | none ↦ s'
      | some s'' ↦ s''
    ])
    else s
