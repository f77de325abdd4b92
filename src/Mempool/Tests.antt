-- ===== src/Mempool/Tests.antt =====
-- Runs of the pools, and their theorems at a concrete table.
use profit.Prelude.{ℕ, ◌<◌, ◌≡◌, refl, none, some, [], ◌∷◌, arith, inl, inr, ◌>>=◌}
use profit.Mempool.{
  PoolInfo, Pools, new_pool, pool_create_sized, pool_destroy, pool_malloc, pool_at, allocate, align,
  first_fit, allocate_aligned,
}
use profit.Mempool.Fit.{Apart, Served, allocate-Served}
use profit.Mempool.Table.{Changed, create-Changed, destroy-Changed, malloc-Changed}

-- A pool with 20 bytes left in its block at 1000
abbrev pool : PoolInfo
pool = record {
  block_size = 100;
  blocks = (record { data_at = 1000; data_size = 100; data_pos = 80 }) ∷ [];
}

abbrev pools : Pools
pools = none ∷ some pool ∷ []

malloc_runs :
    ((pool_malloc 5000 1 13 pools >>= λ r. some r.0) ≡ some 1080)
    × ((pool_malloc 5000 1 17 pools >>= λ r. some r.0) ≡ some 5000)
unfolding pool_malloc allocate allocate_aligned align first_fit pool_at
malloc_runs = (refl, refl)

pool-Apart : Apart pool.blocks
pool-Apart = (omega arith, λ a w o. o, tt)

allocate-Served_example :
    (ptr : ℕ) × (pool' : PoolInfo) × (allocate 5000 17 pool ≡ some (ptr, pool'))
    × Served 17 pool.blocks ptr pool'.blocks
unfolding align
allocate-Served_example =
    allocate-Served 5000 17 pool pool-Apart (λ a w o. elim o [ inl v ↦ omega arith | inr v ↦ v ])
      (omega arith)

create-Changed_example :
    (i : ℕ) × (pools' : Pools) × (pool_create_sized 64 pools ≡ some (i, pools'))
    × (0 < i)
    × (pool_at i pools ≡ none)
    × Changed i (some (new_pool 64)) pools pools'
create-Changed_example = create-Changed 64 none (some pool ∷ []) (omega arith)

destroy-Changed_example :
    (pools' : Pools) × (pool_destroy 1 pools ≡ some (pool.blocks, pools'))
    × Changed 1 none pools pools'
unfolding pool_at
destroy-Changed_example = destroy-Changed 1 pool pools refl

malloc-Changed_example :
    (ptr : ℕ) × (pool' : PoolInfo) × (pools' : Pools) × (pool_malloc 5000 1 17 pools
      ≡ some (ptr, pools'))
    × Served 17 pool.blocks ptr pool'.blocks
    × Changed 1 (some pool') pools pools'
unfolding pool_at align
malloc-Changed_example =
    malloc-Changed 5000 1 17 pool pools refl pool-Apart
      (λ a w o. elim o [ inl v ↦ omega arith | inr v ↦ v ]) (omega arith)
