-- ===== src/Mempool/Table.antt =====
-- The table of pools: what its operations do to the pool they are for, and to the others.
use profit.Prelude.{
  max, drop, List, ℕ, zero, suc, ◌+◌, ◌-◌, ◌^◌, ◌≤◌, ◌<◌, ◌≡◌, ◌≢◌, refl, sym, ap, ◌∙◌, Option,
  none, some, [], ◌∷◌, ◌++◌, arith, inl, inr, Bool-cases, true, ltb, lt→ltb, ◌>>=◌, length,
  get_elem?, set, length-append, get_elem?-set_self, get_elem?-set_ne,
}
use mathlib.Core.Option.{some-injective}
use profit.Mempool.{
  PoolInfo, Pools, new_pool, free_slot, pool_create_sized, pool_at, pool_destroy, pool_malloc,
  align, PoolNode, free_blocks,
}
use profit.Mempool.Fit.{Apart, Within, Owned, Served, allocate-Served}
use profit.Prelude.Windows.{drop-length, get_elem?-some}

-- a slot's pool, where the slot is there
abbrev slot : Pools → ℕ → Option PoolInfo
slot pools i = get_elem? pools i >>= λ p. p

pool_at-slot : (i : ℕ) (pools : Pools) → 0 < i → pool_at i pools ≡ slot pools i
unfolding pool_at
pool_at-slot zero pools h = absurd (omega arith)
pool_at-slot (suc i) pools h = ground arith

pool_at-zero : (i : ℕ) (pools : Pools) → i ≡ 0 → pool_at i pools ≡ none
unfolding pool_at
pool_at-zero zero pools e = refl
pool_at-zero (suc i) pools e = absurd (omega arith)

slot-lt : (pools : Pools) (i : ℕ) (p : PoolInfo) → slot pools i ≡ some p → i < length pools
slot-lt [] i p e = cc
slot-lt (q ∷ ps) zero p e = omega arith
slot-lt (q ∷ ps) (suc i) p e = omega (arith, slot-lt ps i p e)

-- What `pools'` is after one slot of `pools` has been given a value.
pub record Changed (i : ℕ) (value : Option PoolInfo) (pools pools' : Pools) : Type 0 where
  pub here : pool_at i pools' ≡ value
  pub others : (j : ℕ) → j ≢ i → pool_at j pools' ≡ pool_at j pools

set-Changed :
    (i : ℕ) (value : Option PoolInfo) (pools : Pools)
    → 0 < i
    → i < length pools
    → Changed i value pools (set pools i value)
set-Changed i value pools pos lt = record {
  here = pool_at-slot i _ pos ∙ ap (λ p. p >>= λ x. x) (get_elem?-set_self pools i value lt);
  others = λ j ne. elim (Bool-cases (ltb 0 j)) [
    | inl e ↦
        pool_at-slot j _ (ground arith)
        ∙ ap (λ p. p >>= λ x. x) (get_elem?-set_ne pools value (λ q. ne (sym q)))
        ∙ sym (pool_at-slot j pools (ground arith))
    | inr e ↦ pool_at-zero j _ (ground arith) ∙ sym (pool_at-zero j pools (ground arith))
  ];
}

-- The search for a free slot ends at one, or behind the last.
free_slot_lem :
    (ps : Pools) (i : ℕ)
    → (i ≤ free_slot ps i)
      × (free_slot ps i ≤ i + length ps)
      × (slot ps (free_slot ps i - i) ≡ none)
unfolding free_slot
free_slot_lem [] i = (omega arith, omega arith, refl)
free_slot_lem (none ∷ ps) i =
    (omega arith, omega arith, ap (λ k. slot (none ∷ ps) k) {x = i - i} {y = 0} (omega arith))
free_slot_lem (some p ∷ ps) i =
    let (le, ge, e) = free_slot_lem ps (i + 1) in
    let f : ℕ = free_slot ps (i + 1) in
    (
      omega arith,
      omega arith,
      ap (λ k. slot (some p ∷ ps) k) {x = f - i} {y = suc (f - (i + 1))} (omega arith) ∙ e,
    )

-- a table with another slot at its end
abbrev longer : Pools → Pools
longer pools = pools ++ none ∷ []

longer-slot : (pools : Pools) (i : ℕ) → slot (longer pools) i ≡ slot pools i
longer-slot [] zero = refl
longer-slot [] (suc i) = refl
longer-slot (p ∷ ps) zero = refl
longer-slot (p ∷ ps) (suc i) = longer-slot ps i

longer-pool_at : (pools : Pools) (i : ℕ) → pool_at i (longer pools) ≡ pool_at i pools
longer-pool_at pools i = elim (Bool-cases (ltb 0 i)) [
  | inl e ↦
      pool_at-slot i _ (ground arith)
      ∙ longer-slot pools i
      ∙ sym (pool_at-slot i pools (ground arith))
  | inr e ↦ pool_at-zero i _ (ground arith) ∙ sym (pool_at-zero i pools (ground arith))
]

-- On a table with its first slot and fewer than 2^16 slots, `pool_create_sized` succeeds: its result is
-- the positive number of a pool that was not there, which is now an empty pool of the block size given,
-- and all other pools are as before.
pub create-Changed :
    (block_size : ℕ) (p : Option PoolInfo) (ps : Pools)
    → length (p ∷ ps) < 2 ^ 16
    → (i : ℕ) × (pools' : Pools) × (pool_create_sized block_size (p ∷ ps) ≡ some (i, pools'))
      × (0 < i)
      × (pool_at i (p ∷ ps) ≡ none)
      × Changed i (some (new_pool block_size)) (p ∷ ps) pools'
unfolding pool_create_sized
create-Changed block_size p ps lt =
    let i : ℕ = free_slot ps 1 in
    let (pos, le, e) = free_slot_lem ps 1 in
    let free : pool_at i (p ∷ ps) ≡ none =
      pool_at-slot i (p ∷ ps) pos
      ∙ ap (slot (p ∷ ps)) {x = i} {y = suc (i - 1)} (omega arith)
      ∙ e in
    let value : Option PoolInfo = some (new_pool block_size) in
    elim (Bool-cases (ltb i (length (p ∷ ps)))) [
      | inl inside ↦ (
        i,
        set (p ∷ ps) i value,
        rw (lt→ltb _ _ lt, inside, inside) refl,
        pos,
        free,
        set-Changed i value (p ∷ ps) pos (ground arith),
      )
      | inr outside ↦
          let room : ltb i (length (longer (p ∷ ps))) ≡ true =
            lt→ltb _ _ (omega (arith, length-append (p ∷ ps) (none ∷ []))) in
          let c : Changed i value (longer (p ∷ ps)) (set (longer (p ∷ ps)) i value) =
            set-Changed i value (longer (p ∷ ps)) pos
              (ground (arith, length-append (p ∷ ps) (none ∷ []))) in
          (
            i,
            set (longer (p ∷ ps)) i value,
            rw (lt→ltb _ _ lt, outside, room) refl,
            pos,
            free,
            record { here = c.here; others = λ j ne. c.others j ne ∙ longer-pool_at (p ∷ ps) j },
          )
    ]

drop-step :
    {A : Type 0} (i : ℕ) (x : A) (xs : List A)
    → get_elem? xs i ≡ some x
    → drop i xs ≡ x ∷ drop (suc i) xs
drop-step i x [] e = cc
drop-step zero x (y ∷ xs) e = ap (λ z. z ∷ xs) (some-injective y x e)
drop-step (suc i) x (y ∷ xs) e = drop-step i x xs e

free_blocks-drop :
    (k i : ℕ) (blocks : List PoolNode)
    → i + k ≡ length blocks
    → free_blocks k i blocks ≡ some (drop i blocks)
unfolding free_blocks
free_blocks-drop zero i blocks e = ap some (sym (drop-length i blocks (omega arith)))
free_blocks-drop (suc k) i blocks e =
    let (b, at) = get_elem?-some blocks i (omega arith) in
    let next : i + 1 ≡ suc i = omega arith in
    rw (at, next, free_blocks-drop k (suc i) blocks (omega arith))
      (ap some (sym (drop-step i b blocks at)))

-- Destroying a pool that is there frees each of its blocks, once and in their order, and no other; the
-- pool is not there then, and all other pools are as before.
pub destroy-Changed :
    (i : ℕ) (pool : PoolInfo) (pools : Pools)
    → pool_at i pools ≡ some pool
    → (pools' : Pools) × (pool_destroy i pools ≡ some (pool.blocks, pools'))
      × Changed i none pools pools'
unfolding pool_destroy
destroy-Changed i pool pools e = elim (Bool-cases (ltb 0 i)) [
  | inl pos ↦
      let lt : i < length pools =
        slot-lt pools i pool (sym (pool_at-slot i pools (ground arith)) ∙ e) in
      let freed = free_blocks-drop (length pool.blocks) 0 pool.blocks (omega arith) in
      (set pools i none, rw (e, freed) refl, set-Changed i none pools (ground arith) lt)
  | inr zero_i ↦
      let gone : pool_at i pools ≡ none = pool_at-zero i pools (ground arith) in absurd (cc)
]

-- On a table where the blocks of a pool that is there do not overlap each other, nor the memory that
-- `malloc` would give for another block, an allocation from it, of a size that does not overflow an `int`
-- when it is aligned, succeeds. It gives bytes of the pool that were not handed out before and are now,
-- with all those handed out before, the blocks of the pool do not overlap, and all other pools are as
-- before.
pub malloc-Changed :
    (address i size : ℕ) (pool : PoolInfo) (pools : Pools)
    → pool_at i pools ≡ some pool
    → Apart pool.blocks
    → ((a : ℕ) → Within address (max pool.block_size (align size)) a → ¬ Owned pool.blocks a)
    → size + 7 < 2 ^ 31
    → (ptr : ℕ) × (pool' : PoolInfo) × (pools' : Pools) × (pool_malloc address i size pools
        ≡ some (ptr, pools'))
      × Served size pool.blocks ptr pool'.blocks
      × Changed i (some pool') pools pools'
unfolding pool_malloc
malloc-Changed address i size pool pools e ok new small = elim (Bool-cases (ltb 0 i)) [
  | inl pos ↦
      let lt : i < length pools =
        slot-lt pools i pool (sym (pool_at-slot i pools (ground arith)) ∙ e) in
      let (ptr, pool', run, served) = allocate-Served address size pool ok new small in
      (
        ptr,
        pool',
        set pools i (some pool'),
        rw (e, run) refl,
        served,
        set-Changed i _ pools (ground arith) lt,
      )
  | inr zero_i ↦
      let gone : pool_at i pools ≡ none = pool_at-zero i pools (ground arith) in absurd (cc)
]
