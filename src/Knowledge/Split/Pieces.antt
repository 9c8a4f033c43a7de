-- ===== src/Knowledge/Split/Pieces.antt =====
-- The pieces of a text: where they end, how many rounds cut them, and what they make up together.
use cortex_go.Errors.{Result-cases, out_of_fuel, slice_out_of_range, Error, err, ok}
use cortex_go.Knowledge.Split.{cut_pieces, find_boundary, piece_end, find_down, slice}
use cortex_go.Prelude.{
  ℕ, zero, suc, ◌+◌, ◌-◌, ◌/◌, ◌≤◌, ◌<◌, ◌≡◌, refl, sym, ap, subst, ◌∙◌, ◌≢◌, inl, inr, List, [],
  ◌∷◌, ◌++◌, arith, ltb, leb, ◌==◌, Bool-cases, length, drop, length-take, length-drop,
  take-append-drop,
}

find_down-le : (text : List ℕ) (low end i : ℕ) → i ≤ end → find_down text low end i ≤ end
unfolding find_down
find_down-le text low end zero h = omega arith
find_down-le text low end (suc i) h =
    let shorter : find_down text low end i ≤ end = find_down-le text low end i (omega arith) in
    ground arith

-- What is found lies above every bound that the search and its end lie above.
find_down-lt :
    (text : List ℕ) (low end i bound : ℕ)
    → bound ≤ low
    → bound < end
    → bound < find_down text low end i
unfolding find_down
find_down-lt text low end zero bound h room = room
find_down-lt text low end (suc i) bound h room =
    let shorter : bound < find_down text low end i = find_down-lt text low end i bound h room in
    ground arith

pub drop-drop : (a b c : ℕ) (xs : List ℕ) → b + a ≡ c → drop a (drop b xs) ≡ drop c xs
drop-drop a zero c xs h = ap (λ n. drop n xs) (omega arith)
drop-drop a (suc b) zero xs h = absurd (omega arith)
drop-drop zero (suc b) (suc c) [] h = refl
drop-drop (suc a) (suc b) (suc c) [] h = refl
drop-drop a (suc b) (suc c) (x ∷ xs) h = drop-drop a b c xs (omega arith)

pub drop-all : (n : ℕ) (xs : List ℕ) → length xs ≤ n → drop n xs ≡ []
drop-all zero [] h = refl
drop-all zero (x ∷ xs) h = absurd (omega arith)
drop-all (suc n) [] h = refl
drop-all (suc n) (x ∷ xs) h = drop-all n xs (omega arith)

module _ (text : List ℕ) (max : ℕ) where
  pub piece_end-le : (start : ℕ) → piece_end text max start ≤ start + max
  unfolding piece_end find_boundary
  piece_end-le start =
      let low = start + (start + max) / 4 in
      let least : find_down text low (start + max) (start + max) ≤ start + max =
        find_down-le text low (start + max) (start + max) (omega arith) in
      ground arith

  pub piece_end-le_length : (start : ℕ) → piece_end text max start ≤ length text
  unfolding piece_end find_boundary
  piece_end-le_length start =
      let low = start + (start + max) / 4 in
      let least : find_down text low (start + max) (start + max) ≤ start + max =
        find_down-le text low (start + max) (start + max) (omega arith) in
      ground arith

  pub lt-piece_end : (start : ℕ) → 0 < max → start < length text → start < piece_end text max start
  unfolding piece_end
  lt-piece_end start h room = ground arith

  -- A piece that is not the last takes more than a quarter of the maximum.
  pub quarter-lt-piece_end :
      (start : ℕ)
      → 0 < max
      → piece_end text max start ≢ length text
      → start + max / 4 < piece_end text max start
  unfolding piece_end find_boundary
  quarter-lt-piece_end start h more =
      let low = start + (start + max) / 4 in
      let least : start + max / 4 < find_down text low (start + max) (start + max) =
        find_down-lt text low (start + max) (start + max) (start + max / 4) (omega arith)
          (omega arith) in
      ground arith

  pub length-slice :
      (start end : ℕ) → end ≤ length text → length (slice text start end) ≡ end - start
  length-slice start end h =
      omega (arith, length-take (end - start) (drop start text), length-drop start text)

  -- A piece, and the text behind it.
  pub slice-append-drop :
      (start end : ℕ) → start ≤ end → slice text start end ++ drop end text ≡ drop start text
  slice-append-drop start end h =
      ap (◌++◌ (slice text start end)) (sym (drop-drop (end - start) start end text (omega arith)))
      ∙ take-append-drop (end - start) (drop start text)

module _ (text : List ℕ) (max overlap : ℕ) where
  -- The rounds that cut the pieces from `start` on.
  pub data IsCut : ℕ → List (List ℕ) → Type 0 where
    nothing : {start : ℕ} → length text ≤ start → IsCut start []
    last :
        {start : ℕ}
        → start < length text
        → piece_end text max start ≡ length text
        → IsCut start (slice text start (piece_end text max start) ∷ [])
    more :
        {start : ℕ} {pieces : List (List ℕ)}
        → start < length text
        → piece_end text max start ≢ length text
        → overlap ≤ piece_end text max start
        → IsCut (piece_end text max start - overlap) pieces
        → IsCut start (slice text start (piece_end text max start) ∷ pieces)

  pub cut_pieces-end :
      (fuel start : ℕ) → length text ≤ start → cut_pieces text max overlap (suc fuel) start ≡ ok []
  unfolding cut_pieces
  cut_pieces-end fuel start h = ground arith

  pub cut_pieces-last :
      (fuel start : ℕ)
      → start < length text
      → piece_end text max start ≡ length text
      → cut_pieces text max overlap (suc fuel) start
        ≡ ok (slice text start (piece_end text max start) ∷ [])
  unfolding cut_pieces
  cut_pieces-last fuel start room h = ground arith

  -- One round of the loop that is not the last.
  module _ (fuel start : ℕ) (room : start < length text)
      (inside : piece_end text max start ≢ length text) where
    cut_pieces-out :
        piece_end text max start < overlap
        → cut_pieces text max overlap (suc fuel) start ≡ err slice_out_of_range
    unfolding cut_pieces
    cut_pieces-out h = ground arith

    pub cut_pieces-more :
        (pieces : List (List ℕ))
        → overlap ≤ piece_end text max start
        → cut_pieces text max overlap fuel (piece_end text max start - overlap) ≡ ok pieces
        → cut_pieces text max overlap (suc fuel) start
          ≡ ok (slice text start (piece_end text max start) ∷ pieces)
    unfolding cut_pieces
    cut_pieces-more pieces h e = ground (arith, e)

    pub cut_pieces-fails :
        (why : Error)
        → overlap ≤ piece_end text max start
        → cut_pieces text max overlap fuel (piece_end text max start - overlap) ≡ err why
        → cut_pieces text max overlap (suc fuel) start ≡ err why
    unfolding cut_pieces
    cut_pieces-fails why h e = ground (arith, e)

  cut_pieces-zero : (start : ℕ) → err out_of_fuel ≡ cut_pieces text max overlap zero start
  unfolding cut_pieces
  cut_pieces-zero start = refl

  -- The cases of a round.
  pub data Round (start : ℕ) : Type 0 where
    is_end : length text ≤ start → Round start
    is_last : start < length text → piece_end text max start ≡ length text → Round start
    is_out :
        start < length text
        → piece_end text max start ≢ length text
        → piece_end text max start < overlap
        → Round start
    is_inside :
        start < length text
        → piece_end text max start ≢ length text
        → overlap ≤ piece_end text max start
        → Round start

  pub Round-cases : (start : ℕ) → Round start
  Round-cases start = elim (Bool-cases (leb (length text) start)) [
    | inl e ↦ is_end (ground arith)
    | inr n ↦ elim (Bool-cases (piece_end text max start == length text)) [
      | inl e ↦ is_last (ground arith) (ground arith)
      | inr n' ↦ elim (Bool-cases (ltb (piece_end text max start) overlap)) [
        | inl e ↦ is_out (ground arith) (ground arith) (ground arith)
        | inr n'' ↦ is_inside (ground arith) (ground arith) (ground arith)
      ]
    ]
  ]

  pub cut_pieces-IsCut :
      (fuel start : ℕ) (pieces : List (List ℕ))
      → cut_pieces text max overlap fuel start ≡ ok pieces
      → IsCut start pieces
  cut_pieces-IsCut zero start pieces h = cc (cut_pieces-zero start ∙ h)
  cut_pieces-IsCut (suc fuel) start pieces h = elim (Round-cases start) [
    | is_end e ↦ subst (IsCut start) (cc (cut_pieces-end fuel start e)) (nothing e)
    | is_last room e ↦ subst (IsCut start) (cc (cut_pieces-last fuel start room e)) (last room e)
    | is_out room e out ↦ cc (cut_pieces-out fuel start room e out)
    | is_inside room e fine ↦
        let next = piece_end text max start - overlap in
        elim (Result-cases (cut_pieces text max overlap fuel next)) [
          | inl (rest, good) ↦
              subst (IsCut start) (cc (cut_pieces-more fuel start room e rest fine good))
                (more room e fine (cut_pieces-IsCut fuel next rest good))
          | inr (why, bad) ↦ cc (cut_pieces-fails fuel start room e why fine bad)
        ]
  ]
