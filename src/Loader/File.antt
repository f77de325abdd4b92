-- ===== src/Loader/File.antt =====
-- `prf_model_load` and `save_cb` of src/model.c on the bytes of a file. The record types whose load and
-- save functions are registered are a list of layouts. Memory is there when it is asked for, and the
-- callback does nothing, as in `prf_model_load`; messages and the dump of a record that fails are left
-- out. The model has no memory pool: `mempool_id` is 0, and the flags of a new node are 0, where a pool
-- would set PRF_NODE_MEMPOOLED.
pub mod Codec
pub mod Files
pub mod Load
pub mod Session
pub mod Model
use profit.Prelude.{
  ℕ, zero, suc, ◌+◌, ◌-◌, ◌*◌, ◌/◌, ◌%◌, ◌^◌, Bool, true, false, Option, none, some, List, [], ◌∷◌,
  ◌==◌, ◌||◌, ◌&&◌, not, ltb, leb, length, take, if◌then◌else◌, bit_and, bit_or,
}
use profit.Prelude.Bits.{shl, shr}
use profit.Bfile.{
  Bfile, Run, Cmd, Stdio, ok, fault, out_of_fuel, and_then, at_eof, get_remaining_length, bf_read,
  bf_write, assert, ◌>>=◌, ◌>>◌, pure,
}
use profit.Bfile.Get.{get_uint16_be, get_uint32_be}
use profit.Bfile.Put.{put_uint16_be}
use profit.Bfile.Peek.{peek_uint16_be, unget_uint32_be}
use profit.Record.{Layout, Loaded, load_f, save_checked}
use profit.Record.Layouts.{find_layout}
use profit.Traverse.{Node, Nodes, NodeInfo, prf_node, null}
use profit.Loader.{Levels, insert_node, no_levels, header_of}

-- the opcodes that the loader takes for trailing garbage; 11 only on level 0
abbrev pub is_bogus : ℕ → Bool
is_bogus op = op == 0 || op == 0xa000 || op == 0x3230 || op == 11

-- the bytes of a 32-bit number, swapped in both halves
abbrev pub swap_halves : ℕ → ℕ
swap_halves v = bit_or (shr (bit_and v 0xff00ff00) 8) (shl (bit_and v 0x00ff00ff) 8 % 2 ^ 32)

abbrev pub has_level : Levels → Bool
has_level l = elim l.below [ [] ↦ false | ns ∷ more ↦ true ]

module _ (io : Stdio) (big : Bool) (types : List Layout) where
  -- A record of a type without a load function
  unfoldable pub load_unknown : Cmd (Option Node)
  load_unknown = do
    op ← get_uint16_be io
    len ← get_uint16_be io
    left ← get_remaining_length
    if ltb (left + 4) len then pure none else (do
      more ← if ltb 4 len then bf_read io (len - 4) else pure []
      pure (some (prf_node op 0 (record { len = len; members = []; rest = more }) null)))

  abbrev pub as_node : ℕ → Option Loaded → Option Node
  as_node op (some d) = some (prf_node op 0 d null)
  as_node op none = none

  -- a record of the type with this opcode
  abbrev pub load_by : Option Layout → ℕ → Cmd (Option Node)
  load_by (some l) op = load_f io big l >>= λ r. pure (as_node op r)
  load_by none op = load_unknown

  unfoldable pub load_node : ℕ → Cmd (Option Node)
  load_node op = load_by (find_layout types op) op

  -- the opcode that the file goes on with, behind the repair of a swapped record
  unfoldable pub next_opcode : ℕ → Cmd ℕ
  next_opcode op =
      if op == 0x0b00
      then (do v ← get_uint32_be io; unget_uint32_be (swap_halves v); peek_uint16_be io)
      else pure op

  module _ {W : Type 0} (nodetypes : List (Option (NodeInfo W))) where
    -- The loop `while ( !bf_at_eof(bfile) && !garbage)`; `none` is the way out at `error`. Each round
    -- reads a record, so a round for each four bytes of the file, and one to end, suffice.
    unfoldable pub load_loop : ℕ → Levels → Cmd (Option Levels)
    load_loop zero l b = out_of_fuel
    load_loop (suc fuel) l b =
        let more = load_loop fuel in
        elim (at_eof b) [
          | true ↦ ok (some l) b
          | false ↦
              (get_remaining_length >>= λ left.
              if ltb left 4
              then pure none
              else (peek_uint16_be io >>= λ op.
                  if is_bogus op && not (has_level l && op == 11)
                  then (if has_level l then (λ b. fault) else pure (some l))
                  else (next_opcode op >>= load_node >>= λ r. elim r [
                    | none ↦ pure none
                    | some n ↦ elim (insert_node nodetypes n l) [
                      | none ↦ λ b. fault
                      | some l' ↦ more l'
                    ]
                  ])))
                b
        ]

  -- `save_cb` on a node that is not deleted
  abbrev pub save_by : Option Layout → ℕ → Loaded → Cmd (Unit {0})
  save_by (some l) op d = save_checked io big l op d >>= λ _. pure tt
  save_by none op d = do
    put_uint16_be io op
    put_uint16_be io d.len
    if ltb 4 d.len
        then (do
          assert (λ b. leb (d.len - 4) (length d.rest))
          n ← bf_write io (take (d.len - 4) d.rest)
          pure tt)
        else pure tt

  unfoldable pub save_node : Node → Cmd (Unit {0})
  save_node (prf_node op flags d c) = save_by (find_layout types op) op d

  unfoldable pub save_nodes : List Node → Cmd (Unit {0})
  save_nodes [] = pure tt
  save_nodes (n ∷ ns) = save_node n >> save_nodes ns

  module _ {W : Type 0} (nodetypes : List (Option (NodeInfo W))) where
    -- `prf_model_load`; `none` is the result FALSE, and a node is the header of the model.
    unfoldable pub load_model : Cmd (Option Node)
    load_model = do
      levels ← (λ b. load_loop nodetypes (b.size / 4 + 1) no_levels b)
      pure (elim levels [ some l ↦ header_of l | none ↦ none ])
