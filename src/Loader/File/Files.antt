-- ===== src/Loader/File/Files.antt =====
-- Files of records: the bytes of nodes, one behind the other.
use profit.Prelude.{
  ℕ, ◌+◌, ◌*◌, ◌≤◌, ◌≡◌, sym, ap, ◌∙◌, false, List, [], ◌∷◌, ◌++◌, ◌==◌, ◌⊎◌, arith, length, take,
  drop, length-append, append_assoc,
}
use profit.Bfile.{Bfile}
use profit.Bfile.Get.Values.{big_endian}
use profit.Record.{Layout, Loaded}
use profit.Record.Save.{end_of, length-Row, IsRecord, Whole}
use profit.Record.Load.{split-drop}
use profit.Record.RoundTrip.{length-Whole}
use profit.Traverse.{Node, prf_node, null}
use profit.Loader.File.{is_bogus}
use profit.Loader.File.Codec.{layout_of, IsStored}

-- the bytes that a record takes in a file
abbrev pub extent : Layout → Loaded → ℕ
extent l d = end_of (l.save_steps d.len) 4 d.members + length d.rest

pub length-extent :
    (l : Layout) (d : Loaded) (bs : List ℕ) → IsRecord l d → Whole l d bs → length bs ≡ extent l d
length-extent l d bs ok_d (op, len, row, e, is_op, is_len, is_row) =
    let (ends, _) = length-Row (l.save_steps d.len) d.len 4 d.members row ok_d.fits is_row in
    omega (
      arith,
      ap length e,
      length-append op (len ++ (row ++ d.rest)),
      length-append len (row ++ d.rest),
      length-append row d.rest,
      ends,
      is_op.2,
      is_len.2,
    )

-- A record begins with its opcode.
pub first_word :
    (l : Layout) (d : Loaded) (content here more : List ℕ) (b : Bfile)
    → Whole l d here
    → drop b.pos content ≡ here ++ more
    → big_endian (take 2 (drop b.pos content)) ≡ l.opcode
first_word l d content here more b (op, len, row, e, is_op, _, _) at =
    let at' : drop b.pos content ≡ op ++ ((len ++ (row ++ d.rest)) ++ more) =
      at ∙ ap (λ k. k ++ more) e ∙ append_assoc op (len ++ (row ++ d.rest)) more in
    ap (λ n. big_endian (take n (drop b.pos content))) (sym is_op.2)
    ∙ ap big_endian (split-drop b.pos content op _ at').0
    ∙ is_op.0

-- What a node has to be for a file: its content is a record of its type, which takes an even number of
-- bytes; its opcode is neither one of those that stand for garbage nor the swapped one. (11 closes a
-- level.)
pub record IsGood (l : Layout) (op : ℕ) (d : Loaded) : Type 0 where
  pub stored : IsStored l d
  pub half : ℕ
  pub even : extent l d ≡ 2 * half
  pub opcode : (is_bogus op ≡ false) ⊎ (op ≡ 11)
  pub not_swapped : (op == 0x0b00) ≡ false

module _ (types : List Layout) where
  -- nodes that are read, which have neither flags nor children yet
  abbrev pub AreGood : List Node → Type 0
  AreGood [] = Unit {0}
  AreGood (prf_node op f d c ∷ ns) =
      IsGood (layout_of types op) op d × (prf_node op f d c ≡ prf_node op 0 d null) × AreGood ns

  -- the bytes of their records, one behind the other
  abbrev pub Files : List Node → List ℕ → Type 0
  Files [] bs = bs ≡ []
  Files (prf_node op f d c ∷ ns) bs =
      (here : List ℕ) × (more : List ℕ) × Whole (layout_of types op) d here
      × (bs ≡ here ++ more)
      × Files ns more

  pub Files-length :
      (ns : List Node) (bs : List ℕ) → AreGood ns → Files ns bs → 4 * length ns ≤ length bs
  Files-length [] bs good e = omega arith
  Files-length (prf_node op f d c ∷ ns) bs (g, _, good) (here, more, whole, e, files) = omega (
    arith,
    (length-Whole (layout_of types op) d here g.stored.is_record whole).0,
    ap length e,
    length-append here more,
    Files-length ns more good files,
  )
