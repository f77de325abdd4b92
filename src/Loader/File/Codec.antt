-- ===== src/Loader/File/Codec.antt =====
-- Single nodes that are saved and loaded again.
use profit.Prelude.{
  ℕ, ◌+◌, ◌-◌, ◌^◌, ◌≤◌, ◌<◌, ◌≡◌, refl, sym, ap, ◌∙◌, Bool, true, false, Option, none, some, List,
  [], ◌∷◌, ◌++◌, ◌==◌, ltb, leb, if◌then◌else◌, inl, inr, Bool-cases, arith, length, drop,
  length-append,
}
use mathlib.Core.Option.{some-injective, none-ne-some}
use profit.Bfile.{
  Bfile, Run, Cmd, Stdio, IsStdio, ok, fault, out_of_fuel, and_then, get_remaining_length, bf_read,
  ◌>>=◌, pure, assert,
}
use profit.Bfile.Get.{get_uint16_be}
use profit.Bfile.Get.Values.{IsBytes}
use profit.Bfile.Reading.{Reads}
use profit.Bfile.Reading.Block.{
  Keeps, then-Keeps, if-Keeps, assert-Keeps, get_16-Keeps, bf_read-Keeps,
}
use profit.Record.Keeps.{load_f-Keeps}
use profit.Bfile.Writing.{Writes}
use profit.Record.{Layout, Loaded, Value, load_f, save_f, save_checked, save_row}
use profit.Record.Save.{Fits, IsRecord, Whole, PutsAnd, save_f-Whole}
use profit.Record.Load.{
  GivesAnd, get-Word, load_rest, load_rest-Whole, split-drop, room_for, four_in_a_row, load_f-Whole,
}
use profit.Record.Layouts.{find_layout}
use profit.Record.Layouts.Bounds.{left_kept}
use profit.Traverse.{Node, prf_node, null, Children}
use profit.Loader.File.{load_unknown, load_node, save_node, save_by, load_by, as_node}

-- A record without a load function has the layout of one without members.
abbrev pub raw : ℕ → Layout
raw op = record {
  opcode = op;
  asserts = false;
  min_length = 0;
  rewinds = true;
  returns = true;
  save_returns = true;
  asserted = 0;
  load_steps = λ len. [];
  save_steps = λ len. [];
  keeps_rest = true;
}

abbrev pub layout_or_raw : Option Layout → ℕ → Layout
layout_or_raw r op = elim r [ some l ↦ l | none ↦ raw op ]

find_layout-opcode :
    (ls : List Layout) (op : ℕ) (l : Layout) → find_layout ls op ≡ some l → l.opcode ≡ op
unfolding find_layout
find_layout-opcode [] op l e = absurd (none-ne-some l e)
find_layout-opcode (m ∷ ls) op l e = elim (Bool-cases (m.opcode == op)) [
  | inl hit ↦
      let same : m ≡ l =
        some-injective m l (sym (ap (λ t. if t then some m else find_layout ls op) hit) ∙ e) in
      ap (λ l. l.opcode) (sym same) ∙ ground arith
  | inr miss ↦
      find_layout-opcode ls op l (sym (ap (λ t. if t then some m else find_layout ls op) miss) ∙ e)
]

then_nothing : (r : Run (Unit {0})) → and_then r (λ _. pure tt) ≡ r
then_nothing (ok tt b) = refl
then_nothing fault = refl
then_nothing out_of_fuel = refl

pub then_assoc :
    {A B C : Type 0} (r : Run A) (f : A → Cmd B) (g : B → Cmd C)
    → and_then (and_then r f) g ≡ and_then r λ a. f a >>= g
then_assoc (ok a b) f g = refl
then_assoc fault f g = refl
then_assoc out_of_fuel f g = refl

abbrev pub layout_of : List Layout → ℕ → Layout
layout_of types op = layout_or_raw (find_layout types op) op

pub layout_of-opcode : (types : List Layout) (op : ℕ) → (layout_of types op).opcode ≡ op
layout_of-opcode types op = by_type (find_layout types op) (λ l. find_layout-opcode types op l)
  where
    by_type :
        (r : Option Layout)
        → ((l : Layout) → r ≡ some l → l.opcode ≡ op)
        → (layout_or_raw r op).opcode ≡ op
    by_type (some l) h = h l refl
    by_type none h = refl

-- What the record of a node has to be for its type: its content is a record of the layout, which moves
-- the same members when it is loaded and saved.
pub record IsStored (l : Layout) (d : Loaded) : Type 0 where
  pub is_record : IsRecord l d
  pub same : l.load_steps ≡ l.save_steps

module _ (io : Stdio) (std : IsStdio io) (big : Bool) (types : List Layout) where
  save_raw :
      (op : ℕ) (d : Loaded) (b : Bfile)
      → save_by io big types none op d b ≡ save_f io big (raw op) d b
  unfolding save_f save_row
  save_raw op d b = refl

  save_checked-opcode :
      (l : Layout) (op : ℕ) (d : Loaded) (b : Bfile)
      → l.opcode ≡ op
      → save_checked io big l op d b ≡ and_then (save_f io big l d b) λ _. pure true
  unfolding save_checked
  save_checked-opcode l op d b e = let same : (op == l.opcode) ≡ true = ground arith in rw same refl

  save_by-layout :
      (r : Option Layout) (op : ℕ) (d : Loaded) (b : Bfile)
      → (layout_or_raw r op).opcode ≡ op
      → save_by io big types r op d b ≡ save_f io big (layout_or_raw r op) d b
  save_by-layout (some l) op d b e =
      ap (λ r. and_then r λ _. pure tt) (save_checked-opcode l op d b e)
      ∙ then_assoc (save_f io big l d b) (λ _. pure true) (λ _. pure tt)
      ∙ then_nothing (save_f io big l d b)
  save_by-layout none op d b e = save_raw op d b

  -- Saving a node puts the bytes of its record.
  pub save_node-Whole :
      (op f : ℕ) (d : Loaded) (c : Children) (out : List ℕ) (b : Bfile)
      → IsRecord (layout_of types op) d
      → Writes out b
      → b.pos + 2 ^ 21 < 2 ^ 63
      → (bs : List ℕ) × Whole (layout_of types op) d bs
        × PutsAnd out b (save_node io big types (prf_node op f d c) b) tt bs
  unfolding save_node
  save_node-Whole op f d c out b ok_d w room =
      let (bs, whole, (b', run, w', p)) =
        save_f-Whole io std big (layout_of types op) d out b ok_d w room in
      (
        bs,
        whole,
        (b', save_by-layout (find_layout types op) op d b (layout_of-opcode types op) ∙ run, w', p),
      )

  -- what `load_unknown` does behind the length, and behind what is left
  unknown_rest : ℕ → ℕ → ℕ → Cmd (Option Node)
  unknown_rest op len left = if ltb (left + 4) len then pure none else (do
    more ← if ltb 4 len then bf_read io (len - 4) else pure []
    pure (some (prf_node op 0 (record { len = len; members = []; rest = more }) null)))

  unknown_length : ℕ → ℕ → Cmd (Option Node)
  unknown_length op len = get_remaining_length >>= unknown_rest op len

  unknown_opcode : ℕ → Cmd (Option Node)
  unknown_opcode op = get_uint16_be io >>= unknown_length op

  load_unknown-open :
      (b : Bfile) → load_unknown io big types b ≡ and_then (get_uint16_be io b) unknown_opcode
  unfolding load_unknown unknown_rest unknown_length unknown_opcode
  load_unknown-open b = refl

  unknown_rest-goes :
      (op len left : ℕ) (b : Bfile)
      → ltb (left + 4) len ≡ false
      → unknown_rest op len left b
        ≡ and_then
            (load_rest io std big (raw op) len ([], 4) b)
            λ r. pure (as_node io big types op r)
  unfolding unknown_rest load_rest
  unknown_rest-goes op len left b e =
      rw e (sym (then_assoc ((if ltb 4 len then bf_read io (len - 4) else pure []) b) _ _))

  pub remaining :
      (content : List ℕ) (b : Bfile)
      → Reads content b
      → get_remaining_length b ≡ ok (b.size - b.pos) b
  unfolding get_remaining_length
  remaining content b r =
      let inside : leb b.pos b.size ≡ true = ground (arith, r.behind, r.ends) in rw inside refl

  no_members : (op : ℕ) (d : Loaded) → IsRecord (raw op) d → d.members ≡ []
  no_members op d ok_d = nothing d.members ok_d.fits
    where
      nothing : (vs : List Value) → Fits [] d.len 4 vs → vs ≡ []
      nothing [] f = refl
      nothing (v ∷ vs) f = absurd f

  load_unknown-Whole :
      (op : ℕ) (d : Loaded) (content bs tail : List ℕ) (b : Bfile)
      → IsRecord (raw op) d
      → Whole (raw op) d bs
      → IsBytes content
      → Reads content b
      → drop b.pos content ≡ bs ++ tail
      → GivesAnd content b (load_unknown io big types b) (some (prf_node op 0 d null)) (length bs)
  unfolding unknown_length unknown_opcode
  load_unknown-Whole op d content bs tail b ok_d (ob, lb, row, e, is_op, is_len, is_row) cb rd at =
      let e' : bs ≡ ob ++ (lb ++ d.rest) = e ∙ ap (λ r. ob ++ (lb ++ (r ++ d.rest))) is_row in
      let at₁ : drop b.pos content ≡ ob ++ (lb ++ (d.rest ++ tail)) =
        at ∙ ap (λ l. l ++ tail) e' ∙ four_in_a_row ob lb [] d.rest tail in
      let (b₁, run₁, r₁, p₁) =
        get-Word io std big op content ob (lb ++ (d.rest ++ tail)) b is_op cb rd at₁ in
      let at₂ : drop b₁.pos content ≡ lb ++ (d.rest ++ tail) =
        ap (λ k. drop k content) {x = b₁.pos} {y = b.pos + length ob} (omega (arith, p₁, is_op.2))
        ∙ (split-drop b.pos content ob _ at₁).1 in
      let (b₂, run₂, r₂, p₂) =
        get-Word io std big d.len content lb (d.rest ++ tail) b₁ is_len cb r₁ at₂ in
      let at₃ : drop b₂.pos content ≡ d.rest ++ tail =
        ap (λ k. drop k content) {x = b₂.pos} {y = b₁.pos + length lb} (omega (arith, p₂, is_len.2))
        ∙ (split-drop b₁.pos content lb _ at₂).1 in
      let kept : length d.rest ≡ d.len - 4 = ok_d.rest_length ∙ left_kept (raw op) d 4 refl in
      let enough : ltb (b₂.size - b₂.pos + 4) d.len ≡ false =
        let room : b₂.pos + length d.rest ≤ b₂.size = room_for content d.rest tail b₂ r₂ at₃ in
        ground arith in
      let (b₃, run₃, r₃, p₃) =
        load_rest-Whole io std big (raw op) d 4 content tail b₂ ok_d.rest_length ok_d.len_small r₂
          at₃ in
      let none_there : d.members ≡ [] = no_members op d ok_d in
      (
        b₃,
        load_unknown-open b
            ∙ ap (λ m. and_then m unknown_opcode) run₁
            ∙ ap (λ m. and_then m (unknown_length op)) run₂
            ∙ ap (λ m. and_then m (unknown_rest op d.len)) (remaining content b₂ r₂)
            ∙ unknown_rest-goes op d.len (b₂.size - b₂.pos) b₂ enough
            ∙ ap
                (λ vs.
                  and_then (load_rest io std big (raw op) d.len (vs, 4) b₂)
                    λ r. pure (as_node io big types op r))
                (sym none_there)
            ∙ ap (λ m. and_then m λ r. pure (as_node io big types op r)) run₃,
        r₃,
        omega (
          arith,
          p₁,
          p₂,
          p₃,
          is_op.2,
          is_len.2,
          ap length e',
          length-append ob (lb ++ d.rest),
          length-append lb d.rest,
        ),
      )

  load_unknown-Keeps : Keeps (load_unknown io big types)
  unfolding load_unknown get_remaining_length
  load_unknown-Keeps = then-Keeps (get_uint16_be io) _ (get_16-Keeps io).0 λ op.
      then-Keeps (get_uint16_be io) _ (get_16-Keeps io).0 λ len.
        then-Keeps get_remaining_length _
          (then-Keeps (assert (λ b. leb b.pos b.size)) _ (assert-Keeps (λ b. leb b.pos b.size))
            (λ _ b. refl))
          λ left.
            if-Keeps (ltb (left + 4) len) (pure none) _ (λ b. refl)
              (then-Keeps (if ltb 4 len then bf_read io (len - 4) else pure []) _
                (if-Keeps (ltb 4 len) (bf_read io (len - 4)) (pure []) (bf_read-Keeps io (len - 4))
                  (λ b. refl))
                (λ more b. refl))

  pub load_node-Keeps : (op : ℕ) → Keeps (load_node io big types op)
  unfolding load_node
  load_node-Keeps op = by_type (find_layout types op)
    where
      by_type : (r : Option Layout) → Keeps (load_by io big types r op)
      by_type (some l) = then-Keeps (load_f io big l) _ (load_f-Keeps io big l) (λ r b. refl)
      by_type none = load_unknown-Keeps

  -- Loading at the bytes of a node's record gives the node without its children.
  pub load_node-Whole :
      (op : ℕ) (d : Loaded) (content bs tail : List ℕ) (b : Bfile)
      → IsStored (layout_of types op) d
      → Whole (layout_of types op) d bs
      → IsBytes content
      → Reads content b
      → drop b.pos content ≡ bs ++ tail
      → GivesAnd content b (load_node io big types op b) (some (prf_node op 0 d null)) (length bs)
  unfolding load_node
  load_node-Whole op d content bs tail b stored whole cb rd at =
      by_type (find_layout types op) stored whole
    where
      by_type :
          (r : Option Layout)
          → IsStored (layout_or_raw r op) d
          → Whole (layout_or_raw r op) d bs
          → GivesAnd content b
              (load_by io big types r op b)
              (some (prf_node op 0 d null))
              (length bs)
      by_type (some l) s w =
          let (b', run, r', p) =
            load_f-Whole io std big l d content bs tail b s.same s.is_record w cb rd at in
          (b', ap (λ m. and_then m λ r. pure (as_node io big types op r)) run, r', p)
      by_type none s w = load_unknown-Whole op d content bs tail b s.is_record w cb rd at
