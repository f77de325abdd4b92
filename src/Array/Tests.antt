-- ===== src/Array/Tests.antt =====
-- Runs of the array, and its theorems at concrete arrays.
use profit.Prelude.{
  ℕ, ◌≡◌, refl, true, Option, none, some, [], ◌∷◌, arith, ◌>>=◌, take, set, get_elem?, inr,
}
use profit.Array.{
  Array, init, set_size, append, insert, remove, remove_fast, fit, find, find_from, load, store,
  shift_up,
}
use profit.Array.Elems.{elems, IsValid}
use profit.Array.Append.{Appended, append-elems, append-fit_empty}
use profit.Array.Insert.{insert-elems}
use profit.Array.Remove.{remove-elems, remove-last_aborts, remove_fast-elems}
use profit.Array.Find.{Found, find-Found}

-- Two of two slots in use: the next append grows the block.
abbrev full : Array ℕ
full = record { size = 2; elemsize = 8; numelem = 2; cells = 7 ∷ 9 ∷ [] }

full-IsValid : IsValid 8 full
full-IsValid = omega arith

insert_runs :
    insert 0 8 1 5 full
    ≡ some (record { size = 4; elemsize = 8; numelem = 3; cells = 7 ∷ 5 ∷ 9 ∷ 0 ∷ [] })
unfolding insert append set_size shift_up load store
insert_runs = refl

find_runs : (find 9 full ≡ some (some 1)) × (find 4 full ≡ some none)
unfolding find find_from load
find_runs = (refl, refl)

append-elems_example : (b : Array ℕ) × Appended 0 8 5 full b
append-elems_example =
    append-elems 0 8 5 full full-IsValid (omega arith) (omega arith) (omega arith)

insert-elems_example :
    (b : Array ℕ) × (insert 0 8 1 5 full ≡ some b) × IsValid 8 b × (elems b ≡ 7 ∷ 5 ∷ 9 ∷ [])
insert-elems_example =
    insert-elems 0 8 1 5 full full-IsValid (omega arith) (omega arith) (omega arith)

remove-elems_example :
    (b : Array ℕ) × (remove true 0 full ≡ some b) × IsValid 8 b × (elems b ≡ 9 ∷ [])
remove-elems_example = remove-elems true 0 full full-IsValid (omega arith) (inr (omega arith))

remove-last_aborts_example : remove true 1 full ≡ none
remove-last_aborts_example = remove-last_aborts 1 full refl

remove_fast-elems_example :
    (last : ℕ) × (b : Array ℕ) × (get_elem? (elems full) 1 ≡ some last)
    × (remove_fast 0 full ≡ some b)
    × IsValid 8 b
    × (elems b ≡ take 1 (set (elems full) 0 last))
remove_fast-elems_example = remove_fast-elems 0 full full-IsValid (omega arith)

find-Found_example : (r : Option ℕ) × (find 9 full ≡ some r) × Found 9 full.cells 0 2 r
find-Found_example = find-Found 8 9 full full-IsValid

abbrev fresh : Array ℕ
fresh = record { size = 4; elemsize = 8; numelem = 0; cells = 0 ∷ 0 ∷ 0 ∷ 0 ∷ [] }

init_runs : init {A = ℕ} 0 8 4 8 ≡ fresh
unfolding init
init_runs = refl

append-fit_empty_example : (fit 0 8 fresh >>= append 0 8 5) ≡ none
append-fit_empty_example = append-fit_empty 0 8 5 fresh (omega arith) refl
