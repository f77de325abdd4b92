-- ===== src/Mempool.antt =====
-- The memory pools of src/util/mempool.c: a table of pools, each a list of blocks that allocations are
-- cut from. The arrays under both are lists, and an array's slot 0 of the table is never a pool. A
-- block is where its memory starts, which `malloc` says, its size and how far it is in use. `malloc`
-- gives memory. `none` is a failed assertion, an `int` that overflows, or a pool whose number does not
-- fit in a `pool_t`. Sizes are not negative.
pub mod Fit
pub mod Table
mod Tests
use profit.Prelude.{
  ℕ, zero, suc, ◌+◌, ◌-◌, ◌*◌, ◌/◌, ◌%◌, ◌^◌, Bool, true, false, Option, none, some, List, [], ◌∷◌,
  ◌++◌, not, ◌&&◌, ltb, leb, ◌==◌, if◌then◌else◌, length, get_elem?, set, max, ◌>>=◌, ◌>>◌, guard,
}

abbrev pub pool_block_size : ℕ
pool_block_size = 16 * 1024

-- `struct pool_node_s`
pub record PoolNode : Type 0 where
  pub data_at : ℕ
  pub data_size : ℕ
  pub data_pos : ℕ

-- `struct pool_info_s`
pub record PoolInfo : Type 0 where
  pub block_size : ℕ
  pub blocks : List PoolNode

-- the table `pools`, with NULL as `none`
abbrev pub Pools : Type 0
Pools = List (Option PoolInfo)

unfoldable pub new_pool : ℕ → PoolInfo
new_pool block_size = record { block_size = block_size; blocks = [] }

-- `pool_system_init` reserves pools[0].
unfoldable pub pool_system_init : Pools
pool_system_init = none ∷ []

-- The loop of `pool_create_sized` over the slots from an index on; the result is the first free slot,
-- or the count of slots.
unfoldable pub free_slot : Pools → ℕ → ℕ
free_slot [] i = i
free_slot (none ∷ ps) i = i
free_slot (some p ∷ ps) i = free_slot ps (i + 1)

-- the slots from pools[1] on
abbrev pub after_first : Pools → Pools
after_first [] = []
after_first (p ∷ ps) = ps

-- `pool_create_sized`; a `pool_t` has 16 bits.
unfoldable pub pool_create_sized : ℕ → Pools → Option (ℕ × Pools)
pool_create_sized block_size pools = do
  let pool_id = free_slot (after_first pools) 1
  guard (ltb (length pools) (2 ^ 16))
  let pools' = if ltb pool_id (length pools) then pools else pools ++ none ∷ []
  guard (ltb pool_id (length pools'))
  some (pool_id, set pools' pool_id (some (new_pool block_size)))

unfoldable pub pool_create : Pools → Option (ℕ × Pools)
pool_create pools = pool_create_sized pool_block_size pools

-- `(pool_id > 0) && (pool_id < num_pools)` and `pools[pool_id] != NULL`
unfoldable pub pool_at : ℕ → Pools → Option PoolInfo
pool_at pool_id pools = do guard (ltb 0 pool_id); slot ← get_elem? pools pool_id; slot

-- The loop of `pool_destroy`, with the rounds that are left: the blocks from an index on are freed.
unfoldable pub free_blocks : ℕ → ℕ → List PoolNode → Option (List PoolNode)
free_blocks zero i blocks = some []
free_blocks (suc k) i blocks = do
  block ← get_elem? blocks i
  more ← free_blocks k (i + 1) blocks
  some (block ∷ more)

-- `pool_destroy`, with the memory that it frees
unfoldable pub pool_destroy : ℕ → Pools → Option (List PoolNode × Pools)
pool_destroy pool_id pools = do
  pool ← pool_at pool_id pools
  freed ← free_blocks (length pool.blocks) 0 pool.blocks
  some (freed, set pools pool_id none)

-- `pool_destroy_all` from a slot on
unfoldable pub destroy_from : Pools → List PoolNode × Pools
destroy_from [] = ([], [])
destroy_from (none ∷ ps) = let (freed, ps') = destroy_from ps in (freed, none ∷ ps')
destroy_from (some p ∷ ps) = let (freed, ps') = destroy_from ps in (p.blocks ++ freed, none ∷ ps')

-- `(size + 7) & (~7)` on a size that is not negative
unfoldable pub align : ℕ → ℕ
align size = (size + 7) / 8 * 8

-- The loop of `pool_malloc` over the blocks: the first with room gives its next bytes. (Its test
-- `size <= data_size - data_pos` is one of signed numbers.)
unfoldable pub first_fit : ℕ → List PoolNode → Option (ℕ × List PoolNode)
first_fit size [] = none
first_fit size (b ∷ bs) =
    let rest = first_fit size bs in
    if leb (b.data_pos + size) b.data_size
    then some (b.data_at + b.data_pos, record b { data_pos = b.data_pos + size } ∷ bs)
    else (rest >>= λ found. some (found.0, b ∷ found.1))

-- What `pool_malloc` does to a pool with an aligned size; a new block is at the address that `malloc`
-- gives.
unfoldable pub allocate_aligned : ℕ → ℕ → PoolInfo → ℕ × PoolInfo
allocate_aligned address size' pool =
    let data_size = max pool.block_size size' in
    elim (first_fit size' pool.blocks) [
      | some found ↦ (found.0, record pool { blocks = found.1 })
      | none ↦ (
        address,
        record pool {
          blocks =
              pool.blocks
              ++ (record { data_at = address; data_size = data_size; data_pos = size' }) ∷ [];
        },
      )
    ]

-- The part of `pool_malloc` behind its assertions; the alignment is an `int` that may overflow.
unfoldable pub allocate : ℕ → ℕ → PoolInfo → Option (ℕ × PoolInfo)
allocate address size pool = do
  guard (ltb (size + 7) (2 ^ 31))
  some (allocate_aligned address (align size) pool)

-- `pool_malloc`
unfoldable pub pool_malloc : ℕ → ℕ → ℕ → Pools → Option (ℕ × Pools)
pool_malloc address pool_id size pools = do
  pool ← pool_at pool_id pools
  found ← allocate address size pool
  some (found.0, set pools pool_id (some found.1))
