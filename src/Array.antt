-- ===== src/Array.antt =====
-- The growing arrays of src/util/array.c. A client's `void *` points behind a header; here the
-- header's fields and the slots behind it are one record. `none` is a fault: a failed assertion, or
-- an access outside the allocation. `malloc` and `realloc` are taken to succeed, and what they do
-- not initialise holds `junk`. The functions `_int` and `_ptr` of the source are the instances of
-- one function at the width (in bytes) of the element. Indices are not negative.
pub mod Elems
pub mod Append
pub mod Insert
pub mod Remove
pub mod Find
mod Tests
use profit.Prelude.{
  ℕ, zero, suc, ◌+◌, ◌-◌, ◌*◌, ◌/◌, ◌%◌, ◌^◌, Bool, true, false, Option, none, some, List, ◌++◌,
  not, ltb, leb, ◌==◌, if◌then◌else◌, length, get_elem?, set, take, drop, replicate, ◌||◌, ◌>>=◌,
  ◌>>◌, guard,
}
use profit.Prelude.Windows.{splice}

-- `struct _array`: a 32-bit capacity, then bit fields of 4 and 28 bits.
pub record Array (A : Type 0) : Type 0 where
  pub size : ℕ
  pub elemsize : ℕ
  pub numelem : ℕ
  pub cells : List A

abbrev pub elemsize_bits : ℕ
elemsize_bits = 2 ^ 4

abbrev pub numelem_bits : ℕ
numelem_bits = 2 ^ 28

module _ {A : Type 0} where
  -- `ptr[i]` and `ptr[i] = v`
  unfoldable pub load : ℕ → Array A → Option A
  load i a = get_elem? a.cells i

  unfoldable pub store : ℕ → A → Array A → Option (Array A)
  store i v a = do guard (ltb i (length a.cells)); some (record a { cells = set a.cells i v })

  -- `id_to_array(id)->numelem` and the other getters
  unfoldable pub count : Array A → ℕ
  count a = a.numelem

  unfoldable pub alloc_count : Array A → ℕ
  alloc_count a = a.size

  unfoldable pub set_count : ℕ → Array A → Array A
  set_count newcount a = record a { numelem = newcount % numelem_bits }

  -- `for (i = n; i > idx; i--) ptr[i] = ptr[i-1];` with the rounds that are left
  unfoldable pub shift_up : ℕ → ℕ → Array A → Option (Array A)
  shift_up zero i a = some a
  shift_up (suc k) i a = do v ← load (i - 1) a; a' ← store i v a; shift_up k (i - 1) a'

  -- how many slots a `void *` takes, whose size the functions that remove take for an element's
  abbrev pub unit : Array A → ℕ
  unit a = 8 / a.elemsize

  -- The assertions hold only where NDEBUG is not defined. The memory is moved in units of a `void *`,
  -- whatever the size of an element is (one of 1, 2, 4 and 8).
  unfoldable pub remove : Bool → ℕ → Array A → Option (Array A)
  remove debug index a = do
    guard (not debug || ltb index a.numelem)
    a' ←
        (if ltb (index + 1) a.numelem
          then (do
            let moved = (a.numelem - index - 1) * unit a
            guard (leb (a.numelem * unit a) (length a.cells))
            some (record a {
              cells =
                  splice (index * unit a) (take moved (drop ((index + 1) * unit a) a.cells))
                    a.cells;
            }))
          else (do guard (not debug || index == a.numelem); some a))
    some (record a' { numelem = (a'.numelem + numelem_bits - 1) % numelem_bits })

  -- The last `void *` is copied to the index.
  unfoldable pub remove_fast : ℕ → Array A → Option (Array A)
  remove_fast index a = do
    let last = (a.numelem + numelem_bits - 1) % numelem_bits
    guard (leb ((last + 1) * unit a) (length a.cells))
    guard (leb ((index + 1) * unit a) (length a.cells))
    some (record a {
      numelem = last;
      cells = splice (index * unit a) (take (unit a) (drop (last * unit a) a.cells)) a.cells;
    })

-- `width` is the size of an element: 4 for an int, 8 for a pointer.
module _ {A : Type 0} (junk : A) (width : ℕ) where
  unfoldable pub init : ℕ → ℕ → Array A
  init initsize elemsize = record {
    size = initsize % 2 ^ 32;
    elemsize = elemsize % elemsize_bits;
    numelem = 0;
    cells = replicate (initsize * elemsize / width) junk;
  }

  -- The new size arrives as an `int`: from 2^31 on it is negative, and no such block exists.
  unfoldable pub set_size : ℕ → Array A → Option (Array A)
  set_size newsize a = do
    guard (ltb newsize (2 ^ 31))
    let slots = newsize * a.elemsize / width
    some (record a {
      size = newsize;
      cells = take slots a.cells ++ replicate (slots - length a.cells) junk;
    })

  unfoldable pub fit : Array A → Option (Array A)
  fit a = set_size a.numelem a

  unfoldable pub append : A → Array A → Option (Array A)
  append elem a = do
    a' ← if leb a.size a.numelem then set_size (a.size * 2 % 2 ^ 32) a else some a
    a'' ← store a'.numelem elem a'
    some (record a'' { numelem = (a''.numelem + 1) % numelem_bits })

  unfoldable pub insert : ℕ → A → Array A → Option (Array A)
  insert idx elem a = do
    a' ← append elem a
    if ltb idx a.numelem
        then (do a'' ← shift_up (a.numelem - idx) a.numelem a'; store idx elem a'')
        else some a'

-- `for (i = 0; i < n; i++) if (ptr[i] == elem) return i; return -1;` with the rounds that are
-- left. The inner `none` is the result -1.
unfoldable pub find_from : ℕ → ℕ → ℕ → Array ℕ → Option (Option ℕ)
find_from elem zero i a = some none
find_from elem (suc k) i a =
    let rest = find_from elem k (i + 1) a in
    load i a >>= λ v. if v == elem then some (some i) else rest

unfoldable pub find : ℕ → Array ℕ → Option (Option ℕ)
find elem a = find_from elem a.numelem 0 a
