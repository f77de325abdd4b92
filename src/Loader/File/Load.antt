-- ===== src/Loader/File/Load.antt =====
-- A file of records, read from its start to its end.
use profit.Prelude.{
  ℕ, zero, suc, ◌+◌, ◌-◌, ◌*◌, ◌/◌, ◌≤◌, ◌<◌, ◌≡◌, refl, sym, ap, subst, ◌∙◌, Bool, true, false,
  Option, none, some, List, [], ◌∷◌, ◌++◌, ◌==◌, ◌&&◌, not, ltb, if◌then◌else◌, inl, inr, arith,
  length, take, drop, length-drop,
}
use mathlib.Core.Option.{none-ne-some}
use profit.Bfile.{
  Bfile, Cmd, Stdio, IsStdio, ok, fault, and_then, at_eof, get_remaining_length, ◌>>=◌, pure,
}
use profit.Bfile.Get.Values.{IsBytes, big_endian}
use profit.Bfile.Peek.{peek_uint16_be}
use profit.Bfile.Peek.Look.{peek_uint16_be-Reads}
use profit.Bfile.Reading.{Reads}
use profit.Bfile.Reading.Block.{Ends, fixed}
use profit.Record.{Layout, Loaded}
use profit.Record.Save.{Whole}
use profit.Record.Load.{split-drop, room_for}
use profit.Record.RoundTrip.{length-Whole}
use profit.Traverse.{Node, Nodes, NodeInfo, prf_node, null}
use profit.Loader.{Levels, insert_node, insert_all, go_down, append_node, no_levels, header_of}
use profit.Loader.Shape.{HasFlags}
use profit.Loader.Steps.{insert_node-known, insert_with-pop, insert_all-first}
use profit.Loader.File.{is_bogus, has_level, load_node, next_opcode, load_loop, load_model}
use profit.Loader.File.Codec.{
  layout_of, load_node-Whole, load_node-Keeps, layout_of-opcode, remaining,
}
use profit.Loader.File.Files.{length-extent, first_word, IsGood, AreGood, Files, Files-length}

at_eof-false : (b : Bfile) → b.pos < b.size → at_eof b ≡ false
unfolding at_eof
at_eof-false b h = ground arith

at_eof-true : (b : Bfile) → b.pos ≡ b.size → at_eof b ≡ true
unfolding at_eof
at_eof-true b h = ground arith

module _ (io : Stdio) (std : IsStdio io) (big : Bool) (types : List Layout) {W : Type 0}
    (nodetypes : List (Option (NodeInfo W))) where
  -- what a round of the loop does with the node that it read, with the opcode, and with the number of
  -- bytes that are left
  loaded : ℕ → Levels → Option Node → Cmd (Option Levels)
  loaded fuel l r = elim r [
    | none ↦ pure none
    | some n ↦ elim (insert_node nodetypes n l) [
      | none ↦ λ b. fault
      | some l' ↦ load_loop io big types nodetypes fuel l'
    ]
  ]

  peeked : ℕ → Levels → ℕ → Cmd (Option Levels)
  peeked fuel l op =
      if is_bogus op && not (has_level l && op == 11)
      then (if has_level l then (λ b. fault) else pure (some l))
      else (next_opcode io big types op >>= load_node io big types >>= loaded fuel l)

  with_left : ℕ → Levels → ℕ → Cmd (Option Levels)
  with_left fuel l left = if ltb left 4 then pure none else (peek_uint16_be io >>= peeked fuel l)

  load_loop-stops :
      (fuel : ℕ) (l : Levels) (b : Bfile)
      → at_eof b ≡ true
      → load_loop io big types nodetypes (suc fuel) l b ≡ ok (some l) b
  unfolding load_loop with_left peeked loaded
  load_loop-stops fuel l b e =
      ap
        (λ t. elim t [
          | true ↦ ok (some l) b
          | false ↦ (get_remaining_length >>= with_left fuel l) b
        ])
        e

  load_loop-goes :
      (fuel : ℕ) (l : Levels) (b : Bfile)
      → at_eof b ≡ false
      → load_loop io big types nodetypes (suc fuel) l b
        ≡ (get_remaining_length >>= with_left fuel l) b
  unfolding load_loop with_left peeked loaded
  load_loop-goes fuel l b e =
      ap
        (λ t. elim t [
          | true ↦ ok (some l) b
          | false ↦ (get_remaining_length >>= with_left fuel l) b
        ])
        e

  closes :
      (b : List Nodes) (h : Nodes) (a : List Nodes) (l : Levels)
      → go_down (record { below = b; here = h; above = a }) ≡ some l
      → has_level (record { below = b; here = h; above = a }) ≡ true
  unfolding go_down
  closes [] h a l e = absurd (none-ne-some l e)
  closes (n ∷ ns) h a l e = refl

  -- A record with opcode 11 that can be inserted is not on level 0.
  pop-has_level :
      (d : Loaded) (l l₁ : Levels)
      → HasFlags nodetypes 11 false true false
      → insert_node nodetypes (prf_node 11 0 d null) l ≡ some l₁
      → has_level l ≡ true
  pop-has_level d l l₁ known e =
      let n = prf_node 11 0 d null in
      closes l.below (append_node l.here n) l.above l₁ (
        sym (
          insert_node-known nodetypes n l known.info known.registered
          ∙ insert_with-pop known.info.flags n l known.is_push known.is_pop known.is_ancillary)
        ∙ e)

  not_garbage :
      (op : ℕ) (d : Loaded) (l l₁ : Levels)
      → HasFlags nodetypes 11 false true false
      → IsGood (layout_of types op) op d
      → insert_node nodetypes (prf_node op 0 d null) l ≡ some l₁
      → (is_bogus op && not (has_level l && op == 11)) ≡ false
  not_garbage op d l l₁ known g e = elim g.opcode [
    | inl fine ↦ rw fine refl
    | inr eleven ↦
        let up : has_level l ≡ true =
          pop-has_level d l l₁ known
            (subst (λ op. insert_node nodetypes (prf_node op 0 d null) l ≡ some l₁) eleven e) in
        let is_11 : (op == 11) ≡ true = ground arith in ground arith
  ]

  peeked-goes :
      (fuel op : ℕ) (l : Levels) (b : Bfile)
      → (is_bogus op && not (has_level l && op == 11)) ≡ false
      → (op == 0x0b00) ≡ false
      → peeked fuel l op b ≡ and_then (load_node io big types op b) (loaded fuel l)
  unfolding peeked next_opcode
  peeked-goes fuel op l b e e' = rw (e, e') refl

  loaded-goes :
      (fuel : ℕ) (l l₁ : Levels) (n : Node) (b : Bfile)
      → insert_node nodetypes n l ≡ some l₁
      → loaded fuel l (some n) b ≡ load_loop io big types nodetypes fuel l₁ b
  unfolding loaded
  loaded-goes fuel l l₁ n b e =
      ap
        (λ r.
          (elim r as (λ r. Cmd (Option Levels)) [
            | none ↦ λ b. fault
            | some l' ↦ load_loop io big types nodetypes fuel l'
          ])
            b)
        e

  with_left-goes :
      (fuel left : ℕ) (l : Levels) (b : Bfile)
      → 4 ≤ left
      → with_left fuel l left b ≡ and_then (peek_uint16_be io b) (peeked fuel l)
  unfolding with_left
  with_left-goes fuel left l b h = let enough : ltb left 4 ≡ false = ground arith in rw enough refl

  abbrev Round : ℕ → Levels → Levels → List ℕ → List ℕ → Bfile → Type 0
  Round fuel l l₁ content here b =
      (b₁ : Bfile) × (load_loop io big types nodetypes (suc fuel) l b
        ≡ load_loop io big types nodetypes fuel l₁ b₁)
      × Reads content b₁
      × (b₁.pos ≡ b.pos + length here)
      × (b₁.buffer_size ≡ b.buffer_size)

  -- A round of the loop reads a record and inserts its node.
  load_one_record :
      (fuel op : ℕ) (d : Loaded) (l l₁ : Levels) (content here more : List ℕ) (b : Bfile) (p h : ℕ)
      → HasFlags nodetypes 11 false true false
      → IsGood (layout_of types op) op d
      → Whole (layout_of types op) d here
      → insert_node nodetypes (prf_node op 0 d null) l ≡ some l₁
      → IsBytes content
      → Reads content b
      → drop b.pos content ≡ here ++ more
      → b.pos ≡ 2 * p
      → b.buffer_size ≡ 2 * h
      → Round fuel l l₁ content here b
  load_one_record fuel op d l l₁ content here more b p h known g whole ins cb rd at even half =
      let four : 4 ≤ length here =
        (length-Whole (layout_of types op) d here g.stored.is_record whole).0 in
      let room : b.pos + length here ≤ b.size = room_for content here more b rd at in
      let not_end : at_eof b ≡ false = at_eof-false b (omega arith) in
      let (b₀, run₀, r₀, p₀, n₀) =
        peek_uint16_be-Reads io std content cb b p h rd even half (omega arith) in
      let is_op : big_endian (take 2 (drop b.pos content)) ≡ op =
        first_word (layout_of types op) d content here more b whole at
        ∙ layout_of-opcode types op in
      let (b₁, run₁, r₁, p₁) =
        load_node-Whole io std big types op d content here more b₀ g.stored whole cb r₀
          (ap (λ n. drop n content) p₀ ∙ at) in
      let kept : b₁.buffer_size ≡ b₀.buffer_size =
        ap (λ k. k.0) (subst (Ends (fixed b₀)) run₁ (load_node-Keeps io std big types op b₀)) in
      (
        b₁,
        load_loop-goes fuel l b not_end
            ∙ ap (λ m. and_then m (with_left fuel l)) (remaining io std big types content b rd)
            ∙ with_left-goes fuel (b.size - b.pos) l b (omega arith)
            ∙ ap (λ m. and_then m (peeked fuel l)) run₀
            ∙ ap (λ v. peeked fuel l v b₀) is_op
            ∙ peeked-goes fuel op l b₀ (not_garbage op d l l₁ known g ins) g.not_swapped
            ∙ ap (λ m. and_then m (loaded fuel l)) run₁
            ∙ loaded-goes fuel l l₁ (prf_node op 0 d null) b₁ ins,
        r₁,
        p₁ ∙ ap (λ n. n + length here) p₀,
        kept ∙ n₀,
      )

  -- the nodes, the bytes and the levels that a loop is at
  load_loop-Files :
      (fuel : ℕ) (ns : List Node) (l l' : Levels) (content bs : List ℕ) (b : Bfile) (p h : ℕ)
      → HasFlags nodetypes 11 false true false
      → AreGood types ns
      → Files types ns bs
      → insert_all nodetypes ns l ≡ some l'
      → IsBytes content
      → Reads content b
      → drop b.pos content ≡ bs
      → b.pos ≡ 2 * p
      → b.buffer_size ≡ 2 * h
      → length ns < fuel
      → (b' : Bfile) × (load_loop io big types nodetypes fuel l b ≡ ok (some l') b')
        × Reads content b'
        × (b'.pos ≡ length content)
  unfolding insert_all
  load_loop-Files zero ns l l' content bs b p h known good files ins cb rd at even half lt =
      absurd (omega arith)
  load_loop-Files (suc fuel) [] l l' content bs b p h known good e ins cb rd at even half lt =
      let done : b.pos ≡ b.size = omega (
        arith,
        sym (length-drop b.pos content),
        ap length at,
        ap length e,
        rd.whole,
        rd.behind,
        rd.ends,
      ) in
      (b, load_loop-stops fuel l b (at_eof-true b done) ∙ ap (λ r. ok r b) ins, rd, done ∙ rd.whole)
  load_loop-Files (suc fuel) (prf_node op f d c ∷ ns) l l' content bs b p h known (g, bare, good)
        (here, more, whole, e, files) ins cb rd at even half lt =
      let (l₁, first, ins') = insert_all-first nodetypes (prf_node op f d c) ns l l' ins in
      let at' : drop b.pos content ≡ here ++ more = at ∙ e in
      let (b₁, run, r₁, p₁, n₁) =
        load_one_record fuel op d l l₁ content here more b p h known g whole
          (subst (λ n. insert_node nodetypes n l ≡ some l₁) bare first) cb rd at' even half in
      let size_here : length here ≡ 2 * g.half =
        length-extent (layout_of types op) d here g.stored.is_record whole ∙ g.even in
      let (b₂, run', r₂, p₂) =
        load_loop-Files fuel ns l₁ l' content more b₁ (p + g.half) h known good files ins' cb r₁
          (ap (λ n. drop n content) p₁ ∙ (split-drop b.pos content here more at').1) (omega arith)
          (n₁ ∙ half) (omega arith) in
      (b₂, run ∙ run', r₂, p₂)

  pub load_model-Files :
      (ns : List Node) (l : Levels) (bs : List ℕ) (b : Bfile) (h : ℕ)
      → HasFlags nodetypes 11 false true false
      → AreGood types ns
      → Files types ns bs
      → insert_all nodetypes ns no_levels ≡ some l
      → IsBytes bs
      → Reads bs b
      → b.pos ≡ 0
      → b.buffer_size ≡ 2 * h
      → (b' : Bfile) × (load_model io big types nodetypes b ≡ ok (header_of l) b')
        × (b'.pos ≡ length bs)
  unfolding load_model
  load_model-Files ns l bs b h known good files ins cb rd start half =
      let few : 4 * length ns ≤ length bs = Files-length types ns bs good files in
      let (b', run, _, p) =
        load_loop-Files (b.size / 4 + 1) ns no_levels l bs bs b 0 h known good files ins cb rd
          (ap (λ n. drop n bs) start) start half (omega (arith, rd.whole)) in
      (
        b',
        ap
            (λ m. and_then m λ levels.
              pure (elim levels as (λ r. Option Node) [ some l ↦ header_of l | none ↦ none ]))
            run,
        p,
      )
