-- ===== src/State/Tests.antt =====
-- The theorems of the matrix stack at concrete states.
use profit.Prelude.{ℕ, ◌≡◌, none, some, [], ◌∷◌, arith, false}
use profit.State.{State, push, pop}
use profit.State.Copy.{Rest, Copied, state_copy, state_clone, state_copy-Copied}
use profit.State.Stack.{Ready, Pushed, Popped, push-Pushed, pop-Popped}

abbrev low : State ℕ ℕ
low = record {
  node = none;
  physical_level = 3;
  state_push_level = 0;
  matrix = (1 ∷ 0 ∷ []) ∷ [];
  inv_dirty = false;
  client = 7;
}

abbrev high : State ℕ ℕ
high = record low { state_push_level = 2; matrix = (1 ∷ []) ∷ (2 ∷ []) ∷ (3 ∷ []) ∷ [] }

low-Ready : Ready 1 low
low-Ready = omega arith

push-Pushed_example : (s' : State ℕ ℕ) × (push [] low ≡ some s') × Pushed low s'
push-Pushed_example = push-Pushed [] low 0 low-Ready

pop-Popped_example : (s' : State ℕ ℕ) × (pop high ≡ some s') × Popped high s'
pop-Popped_example = pop-Popped high (omega arith) (omega arith) (omega arith)

-- Two states with a rest, of which one has another callback
abbrev rest_of : ℕ → ℕ → Rest ℕ ℕ
rest_of members callback = record { copied = members; traversal = callback; inv_matrix = [] }

abbrev original : State ℕ (Rest ℕ ℕ)
original = record {
  node = some 4;
  physical_level = 3;
  state_push_level = 2;
  matrix = (1 ∷ []) ∷ (2 ∷ []) ∷ (3 ∷ []) ∷ [];
  inv_dirty = false;
  client = rest_of 7 1;
}

abbrev other : State ℕ (Rest ℕ ℕ)
other = record original { state_push_level = 0; matrix = (5 ∷ []) ∷ []; client = rest_of 0 2 }

state_copy-Copied_example :
    ((s' : State ℕ (Rest ℕ ℕ)) × (state_copy [] other original ≡ some s')
      × Copied (rest_of 0 2) original s')
    × ((s' : State ℕ (Rest ℕ ℕ)) × (state_clone [] (rest_of 0 0) original ≡ some s')
        × Copied (rest_of 0 0) original s')
state_copy-Copied_example = state_copy-Copied [] (rest_of 0 0) other original (omega arith)
