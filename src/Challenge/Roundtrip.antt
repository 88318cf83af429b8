-- ===== src/Challenge/Roundtrip.antt =====
-- About the challenge skin of front.go as a whole: what is drawn is what is read.
use yggdrasil_authentication.Base.{
  ℕ, zero, suc, ◌+◌, ◌≤◌, ◌<◌, ◌≡◌, ◌⊎◌, inl, inr, refl, sym, ap, ◌∙◌, true, false, List, [], ◌∷◌,
  ◌++◌, Text, length, take, drop, arith, append-nil, take_all,
}
use yggdrasil_authentication.Platform.{Platform}
use yggdrasil_authentication.Platform.Pixels.{ImageLaws}
use yggdrasil_authentication.Challenge.{
  in_window, range, draw_row, draw_rows, draw_challenge, read_row, read_rows, read_challenge,
}
use yggdrasil_authentication.Challenge.Window.{
  row-IsSquare, row_other, row_outside, row_inside, take_more,
}

row_parts : range 0 64 ≡ range 0 40 ++ (range 40 8 ++ range 48 16)
unfolding range
row_parts = refl

image_parts : range 0 64 ≡ range 0 9 ++ (9 ∷ 10 ∷ range 11 53)
unfolding range
image_parts = refl

inside_lem : (x y : ℕ) → 9 ≤ y → y < 11 → 40 ≤ x → x < 48 → in_window x y ≡ true
inside_lem x y a b c d = ground arith

outside_x : (x y : ℕ) → (x < 40) ⊎ (48 ≤ x) → in_window x y ≡ false
outside_x x y (inl left) = ground arith
outside_x x y (inr right) = ground arith

outside_y : (x y : ℕ) → (y < 9) ⊎ (11 ≤ y) → in_window x y ≡ false
outside_y x y (inl above) = ground arith
outside_y x y (inr below) = ground arith

module _ ⦃P : Platform⦄ (laws : ImageLaws P) (challenge : Text) (skin : P.Image) where
  draw_row-append :
      (y : ℕ) (xs xs' : List ℕ) (state : P.Image × ℕ)
      → draw_row challenge skin y (xs ++ xs') state
        ≡ draw_row challenge skin y xs' (draw_row challenge skin y xs state)
  unfolding draw_row
  draw_row-append y [] xs' state = refl
  draw_row-append y (x ∷ xs) xs' state = draw_row-append y xs xs' _

  read_row_same :
      (y low n : ℕ) (img img' : P.Image)
      → ((x : ℕ) → low ≤ x → x < low + n → P.nrgba_at img x y ≡ P.nrgba_at img' x y)
      → read_row img y (range low n) ≡ read_row img' y (range low n)
  unfolding read_row range
  read_row_same y low zero img img' same = refl
  read_row_same y low (suc n) img img' same =
      rw
        (
          same low (omega arith) (omega arith),
          read_row_same y (low + 1) n img img' (λ x from below. same x (omega arith) (omega arith)),
        )
        refl

  -- A whole row of the window, after which the next 32 bytes can be read.
  window_row :
      (y : ℕ) (state : P.Image × ℕ)
      → P.bounds state.0 ≡ (64, 64)
      → 9 ≤ y
      → y < 11
      → state.1 + 32 ≤ length challenge
      → ((draw_row challenge skin y (range 0 64) state).1 ≡ state.1 + 32)
        × (read_row (draw_row challenge skin y (range 0 64) state).0 y (range 40 8)
            ≡ take 32 (drop state.1 challenge))
  window_row y state square from below enough =
      let left = draw_row challenge skin y (range 0 40) state in
      let middle = draw_row challenge skin y (range 40 8) left in
      let whole = draw_row challenge skin y (range 48 16) middle in
      let square1 = row-IsSquare laws challenge skin y (range 0 40) state square in
      let square2 = row-IsSquare laws challenge skin y (range 40 8) left square1 in
      let index1 : left.1 ≡ state.1 =
        row_outside laws challenge skin y 0 40 state (λ x a b. outside_x x y (inl (omega arith))) in
      let (index2, bytes) =
        row_inside laws challenge skin y 40 8 left square1 (omega arith) (omega arith)
          (λ x a b. inside_lem x y from below a b) (rw index1 enough) in
      let index3 : whole.1 ≡ middle.1 =
        row_outside laws challenge skin y 48 16 middle (λ x a b. outside_x x y (inr a)) in
      let kept : read_row whole.0 y (range 40 8) ≡ read_row middle.0 y (range 40 8) =
        read_row_same y 40 8 whole.0 middle.0 (λ x a b.
          row_other laws challenge skin y 48 16 middle x y square2 (omega arith) (omega arith)
            (inl (inl b))) in
      let split : draw_row challenge skin y (range 0 64) state ≡ whole = cut y state in
      (
        ap (λ (s : P.Image × ℕ). s.1) split ∙ index3 ∙ index2 ∙ ap (λ k. k + 32) index1,
        ap (λ (s : P.Image × ℕ). read_row s.0 y (range 40 8)) split
            ∙ kept
            ∙ bytes
            ∙ ap (λ i. take 32 (drop i challenge)) index1,
      )
    where
      cut :
          (y : ℕ) (state : P.Image × ℕ)
          → draw_row challenge skin y (range 0 64) state
            ≡ draw_row challenge skin y (range 48 16) (
                draw_row challenge skin y
                  (range 40 8)
                  (draw_row challenge skin y (range 0 40) state))
      cut y state =
          ap (λ xs. draw_row challenge skin y xs state) row_parts
          ∙ draw_row-append y (range 0 40) (range 40 8 ++ range 48 16) state
          ∙ draw_row-append y (range 40 8) (range 48 16) _

  rows_square :
      (ys : List ℕ) (state : P.Image × ℕ)
      → P.bounds state.0 ≡ (64, 64)
      → P.bounds (draw_rows challenge skin ys state).0 ≡ (64, 64)
  unfolding draw_rows
  rows_square [] state square = square
  rows_square (y ∷ ys) state square =
      rows_square ys _ (row-IsSquare laws challenge skin y (range 0 64) state square)

  draw_rows-append :
      (ys ys' : List ℕ) (state : P.Image × ℕ)
      → draw_rows challenge skin (ys ++ ys') state
        ≡ draw_rows challenge skin ys' (draw_rows challenge skin ys state)
  unfolding draw_rows
  draw_rows-append [] ys' state = refl
  draw_rows-append (y ∷ ys) ys' state = draw_rows-append ys ys' _

  -- Rows that are not row `y`.
  rows_other :
      (low n : ℕ) (state : P.Image × ℕ) (x y : ℕ)
      → P.bounds state.0 ≡ (64, 64)
      → low + n ≤ 64
      → y < low
      → P.nrgba_at (draw_rows challenge skin (range low n) state).0 x y ≡ P.nrgba_at state.0 x y
  unfolding draw_rows range
  rows_other low zero state x y square fits above = refl
  rows_other low (suc n) state x y square fits above =
      rows_other (low + 1) n _ x y (row-IsSquare laws challenge skin low (range 0 64) state square)
        (omega arith) (omega arith)
      ∙ row_other laws challenge skin low 0 64 state x y square (omega arith) (omega arith)
          (inr (λ e. omega arith))

  -- Rows above the window take no bytes.
  rows_above :
      (low n : ℕ) (state : P.Image × ℕ)
      → low + n ≤ 9
      → (draw_rows challenge skin (range low n) state).1 ≡ state.1
  unfolding draw_rows range
  rows_above low zero state fits = refl
  rows_above low (suc n) state fits =
      rows_above (low + 1) n _ (omega arith)
      ∙ row_outside laws challenge skin low 0 64 state
          (λ x a b. outside_y x low (inl (omega arith)))

  append_twice : (s : Text) → length s ≡ 64 → take 32 s ++ (take 32 (drop 32 s) ++ []) ≡ s
  append_twice s enough =
      ap (λ t. take 32 s ++ t) (append-nil (take 32 (drop 32 s)))
      ∙ sym (take_more 32 32 s)
      ∙ take_all s 64 (omega arith)

  -- For a verification skin of any look: where the challenge has 64 bytes, as a BLAKE3 sum of 512
  -- bits has, `validateChallenge` reads from the image that `FrontChallengeSkin` draws the challenge
  -- that went into it.
  pub read_challenge-draw_challenge :
      length challenge ≡ 64 → read_challenge (draw_challenge challenge skin) ≡ challenge
  unfolding read_challenge read_rows range draw_challenge draw_rows
  read_challenge-draw_challenge enough =
      let start : P.Image × ℕ = (P.new_nrgba 64 64, 0) in
      let above = draw_rows challenge skin (range 0 9) start in
      let ninth = draw_row challenge skin 9 (range 0 64) above in
      let tenth = draw_row challenge skin 10 (range 0 64) ninth in
      let last = draw_rows challenge skin (range 11 53) tenth in
      let square0 = rows_square (range 0 9) start (laws.bounds_new 64 64) in
      let square1 = row-IsSquare laws challenge skin 9 (range 0 64) above square0 in
      let square2 = row-IsSquare laws challenge skin 10 (range 0 64) ninth square1 in
      let index0 : above.1 ≡ 0 = rows_above 0 9 start (omega arith) in
      let (index1, bytes1) =
        window_row 9 above square0 (omega arith) (omega arith)
          (rw (index0, enough) (omega arith)) in
      let (index2, bytes2) =
        window_row 10 ninth square1 (omega arith) (omega arith)
          (rw (index1, index0, enough) (omega arith)) in
      let parts : draw_rows challenge skin (range 0 64) start ≡ last =
        ap (λ ys. draw_rows challenge skin ys start) image_parts
        ∙ draw_rows-append (range 0 9) (9 ∷ 10 ∷ range 11 53) start in
      let first : read_row last.0 9 (range 40 8) ≡ take 32 challenge =
        read_row_same 9 40 8 last.0 ninth.0 (λ x a b.
          rows_other 11 53 tenth x 9 square2 (omega arith) (omega arith)
          ∙ row_other laws challenge skin 10 0 64 ninth x 9 square1 (omega arith) (omega arith)
              (inr (λ e. omega arith)))
        ∙ bytes1
        ∙ ap (λ i. take 32 (drop i challenge)) index0 in
      let second : read_row last.0 10 (range 40 8) ≡ take 32 (drop 32 challenge) =
        read_row_same 10 40 8 last.0 tenth.0
          (λ x a b. rows_other 11 53 tenth x 10 square2 (omega arith) (omega arith))
        ∙ bytes2
        ∙ ap (λ i. take 32 (drop i challenge)) (index1 ∙ ap (λ k. k + 32) index0) in
      ap (λ (state : P.Image × ℕ). read_challenge state.0) parts
      ∙ rw (first, second) (append_twice challenge enough)
