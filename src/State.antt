-- ===== src/State.antt =====
-- The traversal state of src/state.c, as far as a traversal itself changes it: the node it is at, how
-- deep it is, and the stack of matrices. `client` is all the rest, which handlers and callbacks
-- change. The counters have 16 bits. Allocations succeed, and a new matrix holds `junk`.
pub mod Stack
pub mod Copy
mod Tests
use profit.Prelude.{
  ℕ, zero, suc, ◌+◌, ◌-◌, ◌%◌, ◌^◌, Bool, true, false, Option, none, some, List, [], ◌∷◌, ◌++◌, not,
  ◌&&◌, ltb, leb, ◌==◌, if◌then◌else◌, length, get_elem?, set, ◌>>=◌, ◌>>◌, guard,
}

-- The words of a 4×4 matrix of floats.
abbrev pub Matrix : Type 0
Matrix = List ℕ

pub record State (N W : Type 0) : Type 0 where
  pub node : Option N
  pub physical_level : ℕ
  pub state_push_level : ℕ
  pub matrix : List Matrix
  pub inv_dirty : Bool
  pub client : W

-- `memcmp(m1, m2, sizeof(matrix4x4_f32_t)) == 0`
unfoldable pub same : Matrix → Matrix → Bool
same [] [] = true
same (x ∷ xs) (y ∷ ys) = let rest = same xs ys in x == y && rest
same _ _ = false

-- the rows of `prf_state_reset`, with the patterns of 1.0f and 0.0f
abbrev pub identity : Matrix
identity =
    let one : ℕ = 0x3f80_0000 in
    one ∷ 0 ∷ 0 ∷ 0 ∷ 0 ∷ one ∷ 0 ∷ 0 ∷ 0 ∷ 0 ∷ one ∷ 0 ∷ 0 ∷ 0 ∷ 0 ∷ one ∷ []

module _ {N W : Type 0} where
  -- `prf_state_reset`; `cleared` is the rest of the state when it is reset.
  unfoldable pub reset : W → State N W → Option (State N W)
  reset cleared s = do
    guard (ltb 0 (length s.matrix))
    some (record s {
      node = none;
      matrix = set s.matrix 0 identity;
      inv_dirty = true;
      state_push_level = 0;
      physical_level = 0;
      client = cleared;
    })

  -- `prf_state_create`: one matrix, and a reset, which sets all that `malloc` leaves open here.
  unfoldable pub create : Matrix → W → Option (State N W)
  create junk cleared = reset cleared (record {
    node = none;
    physical_level = 0;
    state_push_level = 0;
    matrix = junk ∷ [];
    inv_dirty = false;
    client = cleared;
  })

  -- `prf_state_push`: one level more, which starts with the matrix of the level below.
  unfoldable pub push : Matrix → State N W → Option (State N W)
  push junk s = do
    let level = (s.state_push_level + 1) % 2 ^ 16
    let matrix = if leb (length s.matrix) level then s.matrix ++ junk ∷ [] else s.matrix
    guard (ltb 0 level && ltb level (length matrix))
    below ← get_elem? matrix (level - 1)
    some (record s { state_push_level = level; matrix = set matrix level below })

  -- `prf_state_pop`: the inverse matrix is out of date where the level below has another matrix.
  unfoldable pub pop : State N W → Option (State N W)
  pop s = do
    dirty ←
        (if s.inv_dirty
          then some true
          else if ltb 1 s.state_push_level
          then (do
            m1 ← get_elem? s.matrix (s.state_push_level - 1)
            m2 ← get_elem? s.matrix s.state_push_level
            some (not (same m1 m2)))
          else some true)
    some (record s {
      inv_dirty = dirty;
      state_push_level = (s.state_push_level + 2 ^ 16 - 1) % 2 ^ 16;
    })
