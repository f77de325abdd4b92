-- ===== src/Loader/Tests.antt =====
-- A small model, saved and loaded, and the loader's theorems at it.
mod Model
mod Records
mod Saved
use profit.Prelude.{ℕ, zero, suc, sym, ap, ◌-◌, Option, none, List, [], ◌∷◌, min, inl, inr}
use profit.Bfile.{Bfile, Run, Stdio, IsStdio, create_w, create_r, destroy, ◌>>◌}
use profit.Record.{Loaded, number, bytes}
use profit.Record.Save.{IsRecord}
use profit.Record.Layouts.Primary.{group}
use profit.Traverse.{Node, NodeInfo, prf_node, null, array, nil, cons}
use profit.Traverse.Collect.{height, IsFull}
use profit.Loader.{Levels}
use profit.Loader.Shape.{IsTree, AreChildren}
use profit.Loader.File.Codec.{layout_or_raw}
use profit.Loader.File.Files.{Files}
use profit.Loader.File.Model.{save_model}
use profit.Loader.Tests.Records.{a_group-IsRecord, good_leaf}
use profit.Loader.Tests.Model.{kinds, flags_of_types, no_content, leaf, a_comment, a_group}

-- The records of the small model one behind the other, in a buffer in memory.
abbrev tree_bytes : List ℕ
tree_bytes = 0 ∷ 1 ∷ 0 ∷ 4 ∷ 0 ∷ 6 ∷ 0 ∷ 6 ∷ 104 ∷ 105 ∷ []

abbrev two_nodes : List Node
two_nodes = leaf 1 ∷ a_comment ∷ []

abbrev with_comment : Node
with_comment = prf_node 1 0 no_content (array (cons a_comment nil))

abbrev two_levels : Levels
two_levels = record { below = []; here = cons with_comment nil; above = cons a_comment nil ∷ [] }
