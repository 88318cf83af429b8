-- ===== src/Challenge/Window.antt =====
-- About the window of the challenge skin in front.go: `FrontChallengeSkin` draws what
-- `validateChallenge` reads.
use yggdrasil_authentication.Base.{
  ℕ, zero, suc, ◌+◌, ◌*◌, ◌≤◌, ◌<◌, ◌≡◌, ◌≢◌, ◌⊎◌, inl, inr, refl, sym, ap, ◌∙◌, Bool-cases, true,
  false, List, [], ◌∷◌, ◌++◌, Text, length, take, drop, nat_eq, nat_beq_iff, arith, drop-drop,
}
use yggdrasil_authentication.Platform.{Platform}
use yggdrasil_authentication.Platform.Pixels.{ImageLaws}
use yggdrasil_authentication.Challenge.{
  in_window, range, byte_at, color_at, draw_pixel, draw_row, read_row,
}

-- Four bytes of the challenge, as a color has them.
four_bytes :
    (s : Text) (i : ℕ) (rest : Text)
    → i + 4 ≤ length s
    → byte_at s i ∷ byte_at s (i + 1) ∷ byte_at s (i + 2) ∷ byte_at s (i + 3) ∷ rest
      ≡ take 4 (drop i s) ++ rest
four_bytes (a ∷ b ∷ c ∷ d ∷ s) zero rest h = refl
four_bytes (a ∷ b ∷ c ∷ []) zero rest h = absurd (omega arith)
four_bytes (a ∷ b ∷ []) zero rest h = absurd (omega arith)
four_bytes (a ∷ []) zero rest h = absurd (omega arith)
four_bytes [] i rest h = absurd (omega arith)
four_bytes (a ∷ s) (suc i) rest h =
    let ih = four_bytes s i rest (omega arith) in
    let e1 : suc i + 1 ≡ suc (i + 1) = omega arith in
    let e2 : suc i + 2 ≡ suc (i + 2) = omega arith in
    let e3 : suc i + 3 ≡ suc (i + 3) = omega arith in rw (e1, e2, e3) ih

pub take_more : (m n : ℕ) (s : Text) → take (m + n) s ≡ take m s ++ take n (drop m s)
take_more zero n s = let e : zero + n ≡ n = omega arith in rw e refl
take_more (suc m) zero [] = let e : suc m + zero ≡ suc m = omega arith in rw e refl
take_more (suc m) (suc n) [] = let e : suc m + suc n ≡ suc (m + suc n) = omega arith in rw e refl
take_more (suc m) n (a ∷ s) =
    let e : suc m + n ≡ suc (m + n) = omega arith in rw e (ap (λ t. a ∷ t) (take_more m n s))

module _ ⦃P : Platform⦄ (laws : ImageLaws P) (challenge : Text) (skin : P.Image) where
  abbrev IsSquare : P.Image → Type 0
  IsSquare img = P.bounds img ≡ (64, 64)

  pixel-IsSquare :
      (y x : ℕ) (img : P.Image) (i : ℕ)
      → IsSquare img
      → IsSquare (draw_pixel challenge skin y x (img, i)).0
  unfolding draw_pixel
  pixel-IsSquare y x img i h = elim (Bool-cases (in_window x y)) [
    | inl inside ↦ ground (arith, inside, h, laws.bounds_set x y (color_at challenge i) img)
    | inr outside ↦ ground (arith, outside, h, laws.bounds_set x y (P.nrgba_at skin x y) img)
  ]

  -- Another pixel.
  pixel_other :
      (y x : ℕ) (img : P.Image) (i x' y' : ℕ)
      → IsSquare img
      → x < 64
      → y < 64
      → (x' ≢ x) ⊎ (y' ≢ y)
      → P.nrgba_at (draw_pixel challenge skin y x (img, i)).0 x' y' ≡ P.nrgba_at img x' y'
  unfolding draw_pixel
  pixel_other y x img i x' y' square xs ys other = elim (Bool-cases (in_window x y)) [
    | inl inside ↦ ground (
      arith,
      inside,
      other,
      laws.at_set x y (color_at challenge i) img x' y' (rw square xs) (rw square ys),
      nat_beq_iff x' x,
      nat_beq_iff y' y,
    )
    | inr outside ↦ ground (
      arith,
      outside,
      other,
      laws.at_set x y (P.nrgba_at skin x y) img x' y' (rw square xs) (rw square ys),
      nat_beq_iff x' x,
      nat_beq_iff y' y,
    )
  ]

  -- A pixel of the window.
  pixel_here :
      (y x : ℕ) (img : P.Image) (i : ℕ)
      → IsSquare img
      → x < 64
      → y < 64
      → in_window x y ≡ true
      → P.nrgba_at (draw_pixel challenge skin y x (img, i)).0 x y ≡ color_at challenge i
  unfolding draw_pixel
  pixel_here y x img i square xs ys inside = ground (
    arith,
    inside,
    laws.at_set x y (color_at challenge i) img x y (rw square xs) (rw square ys),
    nat_beq_iff x x,
    nat_beq_iff y y,
  )

  pub row-IsSquare :
      (y : ℕ) (xs : List ℕ) (state : P.Image × ℕ)
      → IsSquare state.0
      → IsSquare (draw_row challenge skin y xs state).0
  unfolding draw_row
  row-IsSquare y [] state h = h
  row-IsSquare y (x ∷ xs) (img, i) h =
      row-IsSquare y xs (draw_pixel challenge skin y x (img, i)) (pixel-IsSquare y x img i h)

  -- A pixel beside the part of the row, or in another row.
  pub row_other :
      (y low n : ℕ) (state : P.Image × ℕ) (x' y' : ℕ)
      → IsSquare state.0
      → low + n ≤ 64
      → y < 64
      → ((x' < low) ⊎ (low + n ≤ x')) ⊎ (y' ≢ y)
      → P.nrgba_at (draw_row challenge skin y (range low n) state).0 x' y'
        ≡ P.nrgba_at state.0 x' y'
  unfolding draw_row range
  row_other y low zero state x' y' square fits ys beside = refl
  row_other y low (suc n) (img, i) x' y' square fits ys beside =
      row_other y (low + 1) n (draw_pixel challenge skin y low (img, i)) x' y'
        (pixel-IsSquare y low img i square) (omega arith) ys later
      ∙ pixel_other y low img i x' y' square (omega arith) ys now
    where
      later : ((x' < low + 1) ⊎ (low + 1 + n ≤ x')) ⊎ (y' ≢ y)
      later = elim beside [
        | inl (inl left) ↦ inl (inl (omega arith))
        | inl (inr right) ↦ inl (inr (omega arith))
        | inr other ↦ inr other
      ]

      now : (x' ≢ low) ⊎ (y' ≢ y)
      now = elim beside [
        | inl (inl left) ↦ inl (λ e. omega arith)
        | inl (inr right) ↦ inl (λ e. omega arith)
        | inr other ↦ inr other
      ]

  -- A part of the row outside the window takes no bytes.
  pub row_outside :
      (y low n : ℕ) (state : P.Image × ℕ)
      → ((x : ℕ) → low ≤ x → x < low + n → in_window x y ≡ false)
      → (draw_row challenge skin y (range low n) state).1 ≡ state.1
  unfolding draw_row range draw_pixel
  row_outside y low zero state outside = refl
  row_outside y low (suc n) (img, i) outside =
      row_outside y (low + 1) n (draw_pixel challenge skin y low (img, i))
        (λ x from below. outside x (omega arith) (omega arith))
      ∙ ground (arith, outside low (omega arith) (omega arith))

  pixel_index :
      (y x : ℕ) (img : P.Image) (i : ℕ)
      → in_window x y ≡ true
      → (draw_pixel challenge skin y x (img, i)).1 ≡ i + 4
  unfolding draw_pixel
  pixel_index y x img i inside = ground (arith, inside)

  -- A part of the row inside the window takes four bytes for each pixel, which can be read again.
  pub row_inside :
      (y low n : ℕ) (state : P.Image × ℕ)
      → IsSquare state.0
      → low + n ≤ 64
      → y < 64
      → ((x : ℕ) → low ≤ x → x < low + n → in_window x y ≡ true)
      → state.1 + 4 * n ≤ length challenge
      → ((draw_row challenge skin y (range low n) state).1 ≡ state.1 + 4 * n)
        × (read_row (draw_row challenge skin y (range low n) state).0 y (range low n)
            ≡ take (4 * n) (drop state.1 challenge))
  unfolding draw_row range read_row
  row_inside y low zero state square fits ys inside enough = (omega arith, refl)
  row_inside y low (suc n) (img, i) square fits ys inside enough =
      let now = inside low (omega arith) (omega arith) in
      let index : (draw_pixel challenge skin y low (img, i)).1 ≡ i + 4 =
        pixel_index y low img i now in
      let room : (draw_pixel challenge skin y low (img, i)).1 + 4 * n ≤ length challenge =
        rw index (omega arith) in
      let (total, rest) =
        row_inside y (low + 1) n (draw_pixel challenge skin y low (img, i))
          (pixel-IsSquare y low img i square) (omega arith) ys
          (λ x from below. inside x (omega arith) (omega arith)) room in
      let pixel : P.nrgba_at (draw_row challenge skin y (range low (suc n)) (img, i)).0 low y
          ≡ color_at challenge i =
        row_other y (low + 1) n (draw_pixel challenge skin y low (img, i)) low y
          (pixel-IsSquare y low img i square) (omega arith) ys (inl (inl (omega arith)))
        ∙ pixel_here y low img i square (omega arith) ys now in
      let left : take (4 * n) (drop (draw_pixel challenge skin y low (img, i)).1 challenge)
          ≡ take (4 * n) (drop 4 (drop i challenge)) =
        rw (index, drop-drop i 4 challenge) refl in
      let length_sum : 4 + 4 * n ≡ 4 * suc n = omega arith in
      (
        total ∙ ap (λ k. k + 4 * n) index ∙ omega arith,
        rw pixel (
            four_bytes challenge i _ (omega arith)
            ∙ ap (λ r. take 4 (drop i challenge) ++ r) (rest ∙ left)
            ∙ sym (take_more 4 (4 * n) (drop i challenge))
            ∙ ap (λ k. take k (drop i challenge)) length_sum),
      )
