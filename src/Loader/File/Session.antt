-- ===== src/Loader/File/Session.antt =====
-- A model whose nodes are written to a file, and loaded from it.
use profit.Prelude.{
  ℕ, ◌+◌, ◌*◌, ◌^◌, ◌≤◌, ◌<◌, ◌≡◌, refl, sym, ap, subst, ◌∙◌, Bool, true, false, Option, some, List,
  [], ◌∷◌, ◌++◌, arith, length, append-nil, append_assoc, length-append,
}
use profit.Bfile.{Bfile, Stdio, IsStdio, ok, and_then, create_w, create_r, destroy, ◌>>◌}
use profit.Bfile.Get.Values.{IsBytes}
use profit.Bfile.Sessions.{create_w-Writes, create_r-Reads}
use profit.Bfile.Writing.{Writes, destroy-Writes}
use profit.Record.{Layout}
use profit.Record.Save.{PutsAnd}
use profit.Record.RoundTrip.{append-IsBytes, Whole-IsBytes, length-Whole}
use profit.Traverse.{Node, NodeInfo, prf_node, cons, nil}
use profit.Loader.Shape.{HasFlags, IsTree, reading}
use profit.Loader.Tree.{insert_all-tree}
use profit.Loader.File.{save_nodes, load_model}
use profit.Loader.File.Codec.{layout_of, save_node-Whole}
use profit.Loader.File.Files.{AreGood, Files}
use profit.Loader.File.Load.{load_model-Files}

module _ (io : Stdio) (std : IsStdio io) (big : Bool) (types : List Layout) where
  Files-IsBytes : (ns : List Node) (bs : List ℕ) → AreGood types ns → Files types ns bs → IsBytes bs
  Files-IsBytes [] bs good e = subst IsBytes (sym e) tt
  Files-IsBytes (prf_node op f d c ∷ ns) bs (g, _, good) (here, more, whole, e, files) =
      subst IsBytes (sym e) (
        append-IsBytes here more
          (Whole-IsBytes (layout_of types op) d here g.stored.is_record whole)
          (Files-IsBytes ns more good files))

  -- Writing nodes one behind the other puts the bytes of their records.
  save_nodes-Files :
      (ns : List Node) (out : List ℕ) (b : Bfile)
      → AreGood types ns
      → Writes out b
      → b.pos + 2 ^ 21 * (length ns + 1) < 2 ^ 63
      → (bs : List ℕ) × Files types ns bs
        × PutsAnd out b (save_nodes io big types ns b) tt bs
        × (length bs ≤ 2 ^ 21 * length ns)
  unfolding save_nodes
  save_nodes-Files [] out b good w room = (
    [],
    refl,
    (b, refl, subst (λ l. Writes l b) (sym (append-nil out)) w, omega arith),
    omega arith,
  )
  save_nodes-Files (prf_node op f d c ∷ ns) out b (g, _, good) w room =
      let (here, whole, (b₁, run₁, w₁, p₁)) =
        save_node-Whole io std big types op f d c out b g.stored.is_record w (omega arith) in
      let (_, small) = length-Whole (layout_of types op) d here g.stored.is_record whole in
      let (more, files, (b₂, run₂, w₂, p₂), n) =
        save_nodes-Files ns (out ++ here) b₁ good w₁ (omega (arith, p₁, small)) in
      (
        here ++ more,
        (here, more, whole, refl, files),
        (
          b₂,
          ap (λ m. and_then m λ _. save_nodes io big types ns) run₁ ∙ run₂,
          subst (λ l. Writes l b₂) (append_assoc out here more) w₂,
          omega (arith, p₁, p₂, length-append here more),
        ),
        omega (arith, n, small, length-append here more),
      )

module _ (io : Stdio) (std : IsStdio io) (big : Bool) (types : List Layout) (wbuf rbuf : List ℕ)
    (wpos : 0 < length wbuf) (rpos : 0 < length rbuf) {W : Type 0}
    (nodetypes : List (Option (NodeInfo W))) where
  -- A well-formed tree whose nodes are written to a new file, each before its children, is what the
  -- loader makes of the closed file, through a read buffer of an even size; every record is one of its
  -- type, of an even number of bytes, whose type moves the same members both ways, and type 11 is
  -- registered as one that closes a level.
  pub save-load :
      (root : Node) (h : ℕ)
      → length rbuf ≡ 2 * h
      → HasFlags nodetypes 11 false true false
      → IsTree nodetypes root
      → AreGood types (reading (cons root nil))
      → length (reading (cons root nil)) < 2 ^ 40
      → (b₁ b₂ : Bfile) × ((save_nodes io big types (reading (cons root nil)) >> destroy io)
            (create_w wbuf)
          ≡ ok tt b₁)
        × (load_model io big types nodetypes (create_r rbuf b₁.disk (length b₁.disk))
            ≡ ok (some root) b₂)
        × (b₂.pos ≡ length b₁.disk)
  unfolding create_w create_r
  save-load root h half known tree good few =
      let ns : List Node = reading (cons root nil) in
      let (bs, files, (b, run, w, _), n) =
        save_nodes-Files io std big types (reading (cons root nil)) [] (create_w wbuf) good
          (create_w-Writes wbuf wpos) (omega arith) in
      let (b₁, run₁, on_disk) = destroy-Writes io std bs b w in
      let (l, inserted, _, header) = insert_all-tree nodetypes root tree in
      let (b₂, run₂, p₂) =
        load_model-Files io std big types nodetypes (reading (cons root nil)) l bs
          (create_r rbuf bs (length bs)) h known good files inserted
          (Files-IsBytes io std big types (reading (cons root nil)) bs good files)
          (create_r-Reads rbuf bs rpos (omega (arith, n))) refl half in
      (
        b₁,
        b₂,
        ap (λ m. and_then m (λ _. destroy io)) run ∙ run₁,
        ap (λ d. load_model io big types nodetypes (create_r rbuf d (length d))) on_disk
            ∙ run₂
            ∙ ap (λ r. ok r b₂) header,
        p₂ ∙ ap length (sym on_disk),
      )
