-- ===== src/Mempool/Fit.antt =====
-- What an allocation from a pool gives.
use profit.Prelude.{
  ◌^◌, lt→ltb, ℕ, ◌+◌, ◌%◌, ◌≤◌, ◌<◌, ◌≡◌, refl, Option, none, some, List, [], ◌∷◌, ◌++◌, arith,
  inl, inr, ◌⊎◌, Bool-cases, leb, ◌>>=◌, max,
}
use profit.Mempool.{PoolNode, PoolInfo, first_fit, allocate, allocate_aligned, align}

-- An address among n bytes from another on
abbrev pub Within : ℕ → ℕ → ℕ → Type 0
Within at n a = (at ≤ a) × (a < at + n)

-- An address that a block has handed out, and one that a block has
abbrev pub UsedIn : List PoolNode → ℕ → Type 0
UsedIn [] a = ⊥
UsedIn (b ∷ bs) a = Within b.data_at b.data_pos a ⊎ UsedIn bs a

abbrev pub Owned : List PoolNode → ℕ → Type 0
Owned [] a = ⊥
Owned (b ∷ bs) a = Within b.data_at b.data_size a ⊎ Owned bs a

-- Blocks that do not overlap, with no more in use than they have
abbrev pub Apart : List PoolNode → Type 0
Apart [] = Unit {0}
Apart (b ∷ bs) =
    (b.data_pos ≤ b.data_size)
    × ((a : ℕ) → Within b.data_at b.data_size a → ¬ Owned bs a)
    × Apart bs

UsedIn-Owned : (bs : List PoolNode) (a : ℕ) → Apart bs → UsedIn bs a → Owned bs a
UsedIn-Owned [] a ok u = absurd u
UsedIn-Owned (b ∷ bs) a (le, apart, ok) (inl w) = inl (omega arith)
UsedIn-Owned (b ∷ bs) a (le, apart, ok) (inr u) = inr (UsedIn-Owned bs a ok u)

-- The blocks bs' are bs with n bytes at p handed out, which were free and whose block bs has.
record Placed (n : ℕ) (bs : List PoolNode) (p : ℕ) (bs' : List PoolNode) : Type 0 where
  apart : Apart bs'
  inside : (a : ℕ) → Within p n a → Owned bs a
  unused : (a : ℕ) → Within p n a → ¬ UsedIn bs a
  taken : (a : ℕ) → Within p n a → UsedIn bs' a
  kept : (a : ℕ) → UsedIn bs a → UsedIn bs' a
  owned : (a : ℕ) → Owned bs' a → Owned bs a

abbrev Placing : ℕ → List PoolNode → Option (ℕ × List PoolNode) → Type 0
Placing n bs none = Unit {0}
Placing n bs (some found) = Placed n bs found.0 found.1

here-Placed :
    (n : ℕ) (b : PoolNode) (bs : List PoolNode)
    → Apart (b ∷ bs)
    → b.data_pos + n ≤ b.data_size
    → Placed n (b ∷ bs) (b.data_at + b.data_pos) (record b { data_pos = b.data_pos + n } ∷ bs)
here-Placed n b bs (le, apart, ok) room = record {
  apart = (room, apart, ok);
  inside = λ a w. inl (omega arith);
  unused = λ a w u. elim u [
    | inl v ↦ omega arith
    | inr v ↦ apart a (omega arith) (UsedIn-Owned bs a ok v)
  ];
  taken = λ a w. inl (omega arith);
  kept = λ a u. elim u [ inl v ↦ inl (omega arith) | inr v ↦ inr v ];
  owned = λ a o. o;
}

next-Placing :
    (n : ℕ) (b : PoolNode) (bs : List PoolNode) (r : Option (ℕ × List PoolNode))
    → Apart (b ∷ bs)
    → Placing n bs r
    → Placing n (b ∷ bs) (r >>= λ found. some (found.0, b ∷ found.1))
next-Placing n b bs none ok r = tt
next-Placing n b bs (some (p, bs')) (le, apart, ok) r = record {
  apart = (le, λ a w o. apart a w (r.owned a o), r.apart);
  inside = λ a w. inr (r.inside a w);
  unused =
      λ a w u. elim u [ inl v ↦ apart a (omega arith) (r.inside a w) | inr v ↦ r.unused a w v ];
  taken = λ a w. inr (r.taken a w);
  kept = λ a u. elim u [ inl v ↦ inl v | inr v ↦ inr (r.kept a v) ];
  owned = λ a o. elim o [ inl v ↦ inl v | inr v ↦ inr (r.owned a v) ];
}

first_fit-Placing : (n : ℕ) (bs : List PoolNode) → Apart bs → Placing n bs (first_fit n bs)
unfolding first_fit
first_fit-Placing n [] ok = tt
first_fit-Placing n (b ∷ bs) (le, apart, ok) =
    elim (Bool-cases (leb (b.data_pos + n) b.data_size)) [
      | inl e ↦ rw e (here-Placed n b bs (le, apart, ok) (ground arith))
      | inr e ↦
          rw e (next-Placing n b bs (first_fit n bs) (le, apart, ok) (first_fit-Placing n bs ok))
    ]

-- What an allocation of `size` bytes does to the blocks of a pool: the bytes from p on, as many as
-- asked for, were not handed out before and are now, and what was handed out still is. The blocks do
-- not overlap.
pub record Served (size : ℕ) (bs : List PoolNode) (p : ℕ) (bs' : List PoolNode) : Type 0 where
  pub apart : Apart bs'
  pub unused : (a : ℕ) → Within p size a → ¬ UsedIn bs a
  pub taken : (a : ℕ) → Within p size a → UsedIn bs' a
  pub kept : (a : ℕ) → UsedIn bs a → UsedIn bs' a

-- A block at the end of the others.
module _ (n : PoolNode) (fits : n.data_pos ≤ n.data_size) where
  Owned-end :
      (bs : List PoolNode) (a : ℕ)
      → Owned (bs ++ n ∷ []) a
      → Owned bs a ⊎ Within n.data_at n.data_size a
  Owned-end [] a (inl w) = inr w
  Owned-end [] a (inr o) = absurd o
  Owned-end (b ∷ bs) a (inl w) = inl (inl w)
  Owned-end (b ∷ bs) a (inr o) = elim (Owned-end bs a o) [ inl v ↦ inl (inr v) | inr v ↦ inr v ]

  UsedIn-end : (bs : List PoolNode) (a : ℕ) → UsedIn bs a → UsedIn (bs ++ n ∷ []) a
  UsedIn-end [] a u = absurd u
  UsedIn-end (b ∷ bs) a (inl w) = inl w
  UsedIn-end (b ∷ bs) a (inr u) = inr (UsedIn-end bs a u)

  taken-end : (bs : List PoolNode) (a : ℕ) → Within n.data_at n.data_pos a → UsedIn (bs ++ n ∷ []) a
  taken-end [] a w = inl w
  taken-end (b ∷ bs) a w = inr (taken-end bs a w)

  Apart-end :
      (bs : List PoolNode)
      → Apart bs
      → ((a : ℕ) → Within n.data_at n.data_size a → ¬ Owned bs a)
      → Apart (bs ++ n ∷ [])
  Apart-end [] ok new = (fits, λ a w o. o, tt)
  Apart-end (b ∷ bs) (le, apart, ok) new = (
    le,
    λ a w o. elim (Owned-end bs a o) [ inl v ↦ apart a w v | inr v ↦ new a v (inl w) ],
    Apart-end bs ok (λ a w o. new a w (inr o)),
  )

-- `pool_malloc` aligns a size on eight bytes, upwards and by less than eight.
pub align_lem : (size : ℕ) → (size ≤ align size) × (align size < size + 8) × (align size % 8 ≡ 0)
unfolding align
align_lem size = (omega arith, omega arith, omega arith)

Placed-Served :
    (size : ℕ) (bs : List PoolNode) (p : ℕ) (bs' : List PoolNode)
    → Placed (align size) bs p bs'
    → Served size bs p bs'
Placed-Served size bs p bs' r =
    let fits : size ≤ align size = (align_lem size).0 in
    record {
      apart = r.apart;
      unused = λ a w. r.unused a (omega (arith, fits));
      taken = λ a w. r.taken a (omega (arith, fits));
      kept = r.kept;
    }

new-Served :
    (address size : ℕ) (pool : PoolInfo)
    → Apart pool.blocks
    → ((a : ℕ) → Within address (max pool.block_size (align size)) a → ¬ Owned pool.blocks a)
    → Served size pool.blocks address (
        pool.blocks
        ++ (record {
          data_at = address;
          data_size = max pool.block_size (align size);
          data_pos = align size;
        })
          ∷ [])
new-Served address size pool ok new =
    let fits : size ≤ align size = (align_lem size).0 in
    let n : PoolNode = record {
      data_at = address;
      data_size = max pool.block_size (align size);
      data_pos = align size;
    } in
    record {
      apart = Apart-end n (omega arith) pool.blocks ok new;
      unused = λ a w u. new a (omega (arith, fits)) (UsedIn-Owned pool.blocks a ok u);
      taken = λ a w. taken-end n (omega arith) pool.blocks a (omega (arith, fits));
      kept = UsedIn-end n (omega arith) pool.blocks;
    }

from_fit-Served :
    (address size : ℕ) (pool : PoolInfo) (r : Option (ℕ × List PoolNode))
    → Apart pool.blocks
    → ((a : ℕ) → Within address (max pool.block_size (align size)) a → ¬ Owned pool.blocks a)
    → Placing (align size) pool.blocks r
    → first_fit (align size) pool.blocks ≡ r
    → Served size pool.blocks
        (allocate_aligned address (align size) pool).0
        (allocate_aligned address (align size) pool).1.blocks
unfolding allocate_aligned
from_fit-Served address size pool none ok new placing e =
    rw (e, allocate_aligned) (new-Served address size pool ok new)
from_fit-Served address size pool (some (p, bs)) ok new placing e =
    rw (e, allocate_aligned) (Placed-Served size pool.blocks p bs placing)

-- Where the blocks of a pool do not overlap each other, nor the memory that `malloc` would give for
-- another block, an allocation of a size that does not overflow an `int` when it is aligned succeeds, and
-- gives bytes of a block that were not handed out before; they are handed out then, as all those handed
-- out before, and the blocks do not overlap.
pub allocate-Served :
    (address size : ℕ) (pool : PoolInfo)
    → Apart pool.blocks
    → ((a : ℕ) → Within address (max pool.block_size (align size)) a → ¬ Owned pool.blocks a)
    → size + 7 < 2 ^ 31
    → (ptr : ℕ) × (pool' : PoolInfo) × (allocate address size pool ≡ some (ptr, pool'))
      × Served size pool.blocks ptr pool'.blocks
unfolding allocate
allocate-Served address size pool ok new small = (
  (allocate_aligned address (align size) pool).0,
  (allocate_aligned address (align size) pool).1,
  rw (lt→ltb _ _ small) refl,
  from_fit-Served address size pool (first_fit (align size) pool.blocks) ok new
      (first_fit-Placing (align size) pool.blocks ok) refl,
)
