-- ===== src/Record/RoundTrip.antt =====
-- Records that are saved and loaded again.
use profit.Prelude.{
  ℕ, ◌+◌, ◌^◌, ◌≤◌, ◌<◌, ◌≡◌, sym, ap, ◌∙◌, subst, Bool, List, [], ◌∷◌, ◌++◌, some, arith, length,
  append-nil, length-append,
}
use profit.Bfile.{Bfile, Stdio, IsStdio, ok, and_then, create_w, create_r, destroy, ◌>>◌}
use profit.Bfile.Sessions.{create_w-Writes, create_r-Reads}
use profit.Bfile.Writing.{destroy-Writes}
use profit.Bfile.Get.Values.{IsBytes}
use profit.Record.{Value, Step, Layout, Loaded, kind, size, load_f, save_f}
use profit.Record.Kinds.{Stands-IsBytes}
use profit.Record.Save.{Fits, Row, length-Row, end_of, left_le, IsRecord, Whole, save_f-Whole}
use profit.Record.Load.{load_f-Whole}

pub append-IsBytes : (xs ys : List ℕ) → IsBytes xs → IsBytes ys → IsBytes (xs ++ ys)
append-IsBytes [] ys hx hy = hy
append-IsBytes (x ∷ xs) ys hx hy = (hx.0, append-IsBytes xs ys hx.1 hy)

Row-IsBytes :
    (ss : List Step) (len pos : ℕ) (vs : List Value) (bs : List ℕ)
    → Fits ss len pos vs
    → Row ss vs bs
    → IsBytes bs
Row-IsBytes [] len pos [] bs f e = subst IsBytes (sym e) tt
Row-IsBytes [] len pos (v ∷ vs) bs f e = absurd f
Row-IsBytes (s ∷ ss) len pos [] bs f e = subst IsBytes (sym e) tt
Row-IsBytes (s ∷ ss) len pos (v ∷ vs) bs (_, _, h, f) (here, more, st, e, row) =
    subst IsBytes (sym e) (
      append-IsBytes here more (Stands-IsBytes (kind s) v here h st)
        (Row-IsBytes ss len (pos + size (kind s)) vs more f row))

pub Whole-IsBytes :
    (l : Layout) (r : Loaded) (bs : List ℕ) → IsRecord l r → Whole l r bs → IsBytes bs
Whole-IsBytes l r bs ok_r (op, len, row, e, is_op, is_len, is_row) = subst IsBytes (sym e) (
    append-IsBytes op _ is_op.1 (
      append-IsBytes len _ is_len.1 (
        append-IsBytes row r.rest
          (Row-IsBytes (l.save_steps r.len) r.len 4 r.members row ok_r.fits is_row)
          ok_r.rest_bytes)))

pub length-Whole :
    (l : Layout) (r : Loaded) (bs : List ℕ)
    → IsRecord l r
    → Whole l r bs
    → (4 ≤ length bs) × (length bs < 2 ^ 21)
length-Whole l r bs ok_r (op, len, row, e, is_op, is_len, is_row) =
    let (ends, le) = length-Row (l.save_steps r.len) r.len 4 r.members row ok_r.fits is_row in
    let n : length bs ≡ length op + (length len + (length row + length r.rest)) =
      ap length e
      ∙ length-append op (len ++ (row ++ r.rest))
      ∙ ap (λ k. length op + k) (length-append len (row ++ r.rest))
      ∙ ap (λ k. length op + (length len + k)) (length-append row r.rest) in
    let two : length op ≡ 2 = is_op.2 in
    let two' : length len ≡ 2 = is_len.2 in
    let small : r.len < 2 ^ 16 = ok_r.len_small in
    let narrow = ok_r.narrow in
    let n_left = ok_r.rest_length in
    let bound = left_le l r (end_of (l.save_steps r.len) 4 r.members) in (omega arith, omega arith)

module _ (io : Stdio) (std : IsStdio io) (big : Bool) (wbuf rbuf : List ℕ) (wpos : 0 < length wbuf)
    (rpos : 0 < length rbuf) where
  -- A record that is saved to a new file, which is then closed, is what the load function of a layout
  -- with the same row for loading and saving reads from it.
  pub save_f-load_f :
      (l : Layout) (r : Loaded)
      → l.load_steps ≡ l.save_steps
      → IsRecord l r
      → (b₁ b₂ : Bfile) × ((save_f io big l r >> destroy io) (create_w wbuf) ≡ ok tt b₁)
        × (load_f io big l (create_r rbuf b₁.disk (length b₁.disk)) ≡ ok (some r) b₂)
        × (b₂.pos ≡ length b₁.disk)
  unfolding create_r create_w
  save_f-load_f l r same ok_r =
      let (bs, whole, (b, run, w, p)) =
        save_f-Whole io std big l r [] (create_w wbuf) ok_r (create_w-Writes wbuf wpos)
          (omega arith) in
      let (b₁, run₁, on_disk) = destroy-Writes io std bs b w in
      let (_, small) = length-Whole l r bs ok_r whole in
      let (b₂, run₂, _, p₂) =
        load_f-Whole io std big l r bs bs [] (create_r rbuf bs (length bs)) same ok_r whole
          (Whole-IsBytes l r bs ok_r whole) (create_r-Reads rbuf bs rpos (omega arith))
          (sym (append-nil bs)) in
      (
        b₁,
        b₂,
        ap (λ m. and_then m (λ _. destroy io)) run ∙ run₁,
        ap (λ d. load_f io big l (create_r rbuf d (length d))) on_disk ∙ run₂,
        omega (arith, p₂, ap length on_disk),
      )
