-- ===== src/Loader/Tests/Model.antt =====
-- A small model, and the types of its records.
use profit.Prelude.{ℕ, ◌-◌, refl, Option, none, some, List, [], ◌∷◌, arith, length, min, inl, inr}
use profit.Bfile.{Run, Stdio, IsStdio}
use profit.Record.{Loaded, number, bytes}
use profit.Traverse.{Node, NodeInfo, prf_node, null, array, nil, cons, nodeinfo_get}
use profit.Loader.Shape.{IsTree, AreChildren}

-- A library that moves at most three bytes a call.
abbrev pub in_threes : Stdio
in_threes = record {
  fread_count = λ disk p n. min 3 (min n (length disk - p));
  fwrite_count = λ n. min 3 n;
}

pub in_threes-IsStdio : IsStdio in_threes
in_threes-IsStdio = record {
  fread_le = λ disk p n. omega arith;
  fread_pos = λ disk p n h k. omega arith;
  fwrite_le = λ n. omega arith;
  fwrite_pos = λ n h. omega arith;
}

-- The header (1), a group (2), the push and pop records (10 and 11), and an ancillary comment (here 6)
abbrev pub kind_of : ℕ → NodeInfo (Run (Unit {0}))
kind_of flags = record { flags = flags; entry_f = none; exit_f = none; traverse_f = none }

abbrev pub kinds : List (Option ℕ) → List (Option (NodeInfo (Run (Unit {0}))))
kinds [] = []
kinds (none ∷ fs) = none ∷ kinds fs
kinds (some f ∷ fs) = some (kind_of f) ∷ kinds fs

abbrev pub flags_of_types : List (Option ℕ)
flags_of_types =
    none
    ∷ some 256
    ∷ some 256
    ∷ none
    ∷ none
    ∷ none
    ∷ some 512
    ∷ none
    ∷ none
    ∷ none
    ∷ some 1025
    ∷ some 1026
    ∷ []

abbrev pub registry : List (Option (NodeInfo (Run (Unit {0}))))
registry = kinds flags_of_types

abbrev pub no_content : Loaded
no_content = record { len = 4; members = []; rest = [] }

abbrev pub leaf : ℕ → Node
leaf op = prf_node op 0 no_content null

abbrev pub a_comment : Node
a_comment = prf_node 6 0 (record { len = 6; members = []; rest = 104 ∷ 105 ∷ [] }) null

abbrev pub a_group : Loaded
a_group = record {
  len = 28;
  members =
      bytes (103 ∷ 49 ∷ 0 ∷ 0 ∷ 0 ∷ 0 ∷ 0 ∷ 0 ∷ [])
      ∷ number 1
      ∷ number 0
      ∷ number 65536
      ∷ number 7
      ∷ number 8
      ∷ number 9
      ∷ number 255
      ∷ number 0
      ∷ [];
  rest = [];
}

abbrev pub model : Node
model = prf_node 1 0 no_content (
    array (cons a_comment (cons (leaf 10) (cons (prf_node 2 0 a_group null) (cons (leaf 11) nil)))))

pub model-IsTree : IsTree registry model
unfolding IsTree AreChildren nodeinfo_get
model-IsTree = (
  record {
    info = kind_of 256;
    registered = refl;
    is_push = refl;
    is_pop = refl;
    is_ancillary = refl;
  },
  inl (
    record {
      info = kind_of 512;
      registered = refl;
      is_push = refl;
      is_pop = refl;
      is_ancillary = refl;
    },
    inr (
      record {
        info = kind_of 1025;
        registered = refl;
        is_push = refl;
        is_pop = refl;
        is_ancillary = refl;
      },
      (
        (
          record {
            info = kind_of 256;
            registered = refl;
            is_push = refl;
            is_pop = refl;
            is_ancillary = refl;
          },
          tt,
        ),
        record {
          info = kind_of 1026;
          registered = refl;
          is_push = refl;
          is_pop = refl;
          is_ancillary = refl;
        },
      ),
    ),
  ),
)
