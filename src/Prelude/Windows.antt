-- ===== src/Prelude/Windows.antt =====
-- Parts of lists: what two lists with a common prefix share, and a `memcpy` into a buffer.
use Prim.Native.Nat.{ℕ, zero, suc, ◌+◌, ◌≤◌, ◌<◌}
use mathlib.Core.Path.{◌≡◌, refl, ap, ◌∙◌, sym}
use mathlib.Core.List.{List, [], ◌∷◌, ◌++◌, append_assoc}
use mathlib.Core.Option.{some}
use native.Mathlib.Omega.{arith}
use profit.Prelude.Lists.{
  length, get_elem?, set, take, drop, length-append, length-take, length-drop,
}

module _ {ℓ} {A : Type ℓ} where
  pub take-nil : (n : ℕ) → take {A = A} n [] ≡ []
  take-nil zero = refl
  take-nil (suc n) = refl

  pub drop-nil : (n : ℕ) → drop {A = A} n [] ≡ []
  drop-nil zero = refl
  drop-nil (suc n) = refl

  tail : List A → List A
  tail [] = []
  tail (x ∷ xs) = xs

  pub take-add : (m n : ℕ) (xs : List A) → take (m + n) xs ≡ take m xs ++ take n (drop m xs)
  take-add zero n xs = ap (λ k. take k xs) (omega arith)
  take-add (suc m) n [] =
      ap (λ k. take k []) (omega arith) ∙ take-nil (m + n + 1) ∙ sym (take-nil n)
  take-add (suc m) n (x ∷ xs) =
      ap (λ k. take k (x ∷ xs)) {x = suc m + n} {y = suc (m + n)} (omega arith)
      ∙ ap (λ l. x ∷ l) (take-add m n xs)

  pub drop-drop : (m n : ℕ) (xs : List A) → drop n (drop m xs) ≡ drop (m + n) xs
  drop-drop zero n xs = ap (λ k. drop k xs) (omega arith)
  drop-drop (suc m) n [] = drop-nil n ∙ sym (drop-nil (suc m + n))
  drop-drop (suc m) n (x ∷ xs) =
      drop-drop m n xs ∙ ap (λ k. drop k (x ∷ xs)) {x = suc (m + n)} {y = suc m + n} (omega arith)

  pub take-length : (n : ℕ) (xs : List A) → length xs ≤ n → take n xs ≡ xs
  take-length zero [] h = refl
  take-length zero (x ∷ xs) h = absurd (omega arith)
  take-length (suc n) [] h = refl
  take-length (suc n) (x ∷ xs) h = ap (λ l. x ∷ l) (take-length n xs (omega arith))

  pub drop-length : (n : ℕ) (xs : List A) → length xs ≤ n → drop n xs ≡ []
  drop-length zero [] h = refl
  drop-length zero (x ∷ xs) h = absurd (omega arith)
  drop-length (suc n) [] h = refl
  drop-length (suc n) (x ∷ xs) h = drop-length n xs (omega arith)

  pub take-append_left : (n : ℕ) (xs ys : List A) → length xs ≡ n → take n (xs ++ ys) ≡ xs
  take-append_left zero [] ys h = refl
  take-append_left zero (x ∷ xs) ys h = absurd (omega arith)
  take-append_left (suc n) [] ys h = absurd (omega arith)
  take-append_left (suc n) (x ∷ xs) ys h = ap (λ l. x ∷ l) (take-append_left n xs ys (omega arith))

  pub drop-append_left : (n : ℕ) (xs ys : List A) → length xs ≡ n → drop n (xs ++ ys) ≡ ys
  drop-append_left zero [] ys h = refl
  drop-append_left zero (x ∷ xs) ys h = absurd (omega arith)
  drop-append_left (suc n) [] ys h = absurd (omega arith)
  drop-append_left (suc n) (x ∷ xs) ys h = drop-append_left n xs ys (omega arith)

  -- Lists that agree on their first m elements agree on every part of these.
  pub take-drop_agree :
      (m i n : ℕ) (xs ys : List A)
      → take m xs ≡ take m ys
      → i + n ≤ m
      → take n (drop i xs) ≡ take n (drop i ys)
  take-drop_agree m i zero xs ys h p = refl
  take-drop_agree zero i (suc n) xs ys h p = absurd (omega arith)
  take-drop_agree (suc m) i (suc n) [] [] h p = refl
  take-drop_agree (suc m) i (suc n) [] (y ∷ ys) h p = cc
  take-drop_agree (suc m) i (suc n) (x ∷ xs) [] h p = cc
  take-drop_agree (suc m) zero (suc n) (x ∷ xs) (y ∷ ys) h p =
      cc (take-drop_agree m zero n xs ys (unfold tail in ap tail h) (omega arith))
  take-drop_agree (suc m) (suc i) (suc n) (x ∷ xs) (y ∷ ys) h p =
      take-drop_agree m i (suc n) xs ys (unfold tail in ap tail h) (omega arith)

  pub get_elem?-agree :
      (m i : ℕ) (xs ys : List A) → take m xs ≡ take m ys → i < m → get_elem? xs i ≡ get_elem? ys i
  get_elem?-agree zero i xs ys h p = absurd (omega arith)
  get_elem?-agree (suc m) i [] [] h p = refl
  get_elem?-agree (suc m) i [] (y ∷ ys) h p = cc
  get_elem?-agree (suc m) i (x ∷ xs) [] h p = cc
  get_elem?-agree (suc m) zero (x ∷ xs) (y ∷ ys) h p = cc
  get_elem?-agree (suc m) (suc i) (x ∷ xs) (y ∷ ys) h p =
      get_elem?-agree m i xs ys (unfold tail in ap tail h) (omega arith)

  pub get_elem?-drop : (m i : ℕ) (xs : List A) → get_elem? (drop m xs) i ≡ get_elem? xs (m + i)
  get_elem?-drop zero i xs = ap (get_elem? xs) (omega arith)
  get_elem?-drop (suc m) i [] = refl
  get_elem?-drop (suc m) i (x ∷ xs) =
      get_elem?-drop m i xs
      ∙ ap (get_elem? (x ∷ xs)) {x = suc (m + i)} {y = suc m + i} (omega arith)

  -- `memcpy(buffer + off, bytes, n)`, for n bytes that fit behind `off`.
  abbrev pub splice : ℕ → List A → List A → List A
  splice off bytes buffer = take off buffer ++ (bytes ++ drop (off + length bytes) buffer)

  pub length-splice :
      (off : ℕ) (bytes buffer : List A)
      → off + length bytes ≤ length buffer
      → length (splice off bytes buffer) ≡ length buffer
  length-splice off bytes buffer h = omega (
    arith,
    length-append (take off buffer) (bytes ++ drop (off + length bytes) buffer),
    length-append bytes (drop (off + length bytes) buffer),
    length-take off buffer,
    length-drop (off + length bytes) buffer,
  )

  -- What stands before and in the part that a `memcpy` wrote.
  pub take-splice :
      (off : ℕ) (bytes buffer : List A)
      → off ≤ length buffer
      → take (off + length bytes) (splice off bytes buffer) ≡ take off buffer ++ bytes
  take-splice off bytes buffer h =
      ap (take (off + length bytes)) (sym (append_assoc (take off buffer) bytes _))
      ∙ take-append_left (off + length bytes) (take off buffer ++ bytes) _
          (omega (arith, length-append (take off buffer) bytes, length-take off buffer))

  pub take-set_end :
      (n : ℕ) (v : A) (xs : List A)
      → n < length xs
      → take (suc n) (set xs n v) ≡ take n xs ++ v ∷ []
  take-set_end n v [] h = absurd (omega arith)
  take-set_end zero v (x ∷ xs) h = refl
  take-set_end (suc n) v (x ∷ xs) h = ap (λ l. x ∷ l) (take-set_end n v xs (omega arith))

  pub take-append_short : (n : ℕ) (xs ys : List A) → n ≤ length xs → take n (xs ++ ys) ≡ take n xs
  take-append_short zero xs ys h = refl
  take-append_short (suc n) [] ys h = absurd (omega arith)
  take-append_short (suc n) (x ∷ xs) ys h =
      ap (λ l. x ∷ l) (take-append_short n xs ys (omega arith))

  pub take-take_of_le : (m n : ℕ) (xs : List A) → m ≤ n → take m (take n xs) ≡ take m xs
  take-take_of_le zero n xs h = refl
  take-take_of_le (suc m) zero xs h = absurd (omega arith)
  take-take_of_le (suc m) (suc n) [] h = refl
  take-take_of_le (suc m) (suc n) (x ∷ xs) h =
      ap (λ l. x ∷ l) (take-take_of_le m n xs (omega arith))

  pub get_elem?-some : (xs : List A) (i : ℕ) → i < length xs → (v : A) × (get_elem? xs i ≡ some v)
  get_elem?-some [] i h = absurd (omega arith)
  get_elem?-some (x ∷ xs) zero h = (x, refl)
  get_elem?-some (x ∷ xs) (suc i) h = get_elem?-some xs i (omega arith)
