-- ===== src/Knowledge/Split/Whole.antt =====
-- What the pieces of a text make up together, and when they all are cut.
use cortex_go.Knowledge.Split.Pieces.{
  cut_pieces-more, quarter-lt-piece_end, drop-drop, cut_pieces-last, slice-append-drop,
  cut_pieces-end, drop-all, nothing, last, more, is_end, is_last, is_out, is_inside, piece_end-le,
  lt-piece_end, IsCut, piece_end-le_length, length-slice, Round-cases, cut_pieces-IsCut,
}
use cortex_go.Knowledge.Split.{
  is_bad_overlap, content_runes, max_of, ChunkOptions, piece_end, split_document, cut_pieces, slice,
}
use cortex_go.Knowledge.{Chunk, Document}
use cortex_go.Errors.{ok}
use cortex_go.Prelude.{
  ℕ, zero, suc, ◌+◌, ◌-◌, ◌/◌, ◌≤◌, ◌<◌, ◌≡◌, refl, sym, ap, ◌∙◌, inl, inr, true, false, List, [],
  ◌∷◌, ◌++◌, arith, leb, leb→le, Bool-cases, length, drop, All, pos_part, is_nonneg, trim_space,
  is_empty,
}

-- The pieces put together again: each begins with the `overlap` runes that the piece before ends
-- with.
abbrev pub rejoin : ℕ → List (List ℕ) → List ℕ
rejoin overlap [] = []
rejoin overlap (p ∷ ps) = p ++ drop overlap (rejoin overlap ps)

-- A piece that is not empty and no longer than the maximum.
abbrev pub Fits : ℕ → List ℕ → Type 0
Fits max p = (0 < length p) × (length p ≤ max)

drop-nil : (n : ℕ) → drop {A = ℕ} n [] ≡ []
drop-nil zero = refl
drop-nil (suc n) = refl

piece-Fits :
    (text : List ℕ) (max start : ℕ)
    → 0 < max
    → start < length text
    → Fits max (slice text start (piece_end text max start))
piece-Fits text max start h room =
    let long =
      length-slice text max start (piece_end text max start) (piece_end-le_length text max start) in
    let later = lt-piece_end text max start h room in
    let bounded = piece_end-le text max start in (omega (arith, long), omega (arith, long))

module _ (text : List ℕ) (max overlap : ℕ) (some_max : 0 < max) where
  IsCut-Fits :
      (start : ℕ) (pieces : List (List ℕ))
      → IsCut text max overlap start pieces
      → All (Fits max) pieces
  IsCut-Fits start _ (nothing e) = tt
  IsCut-Fits start _ (last room e) = (piece-Fits text max start some_max room, tt)
  IsCut-Fits start _ (more room e fine cut) =
      (piece-Fits text max start some_max room, IsCut-Fits _ _ cut)

  IsCut-rejoin :
      (start : ℕ) (pieces : List (List ℕ))
      → IsCut text max overlap start pieces
      → rejoin overlap pieces ≡ drop start text
  IsCut-rejoin start _ (nothing e) = sym (drop-all start text e)
  IsCut-rejoin start _ (last room e) =
      let end = piece_end text max start in
      ap (◌++◌ (slice text start end)) (drop-nil overlap ∙ sym (drop-all end text (omega arith)))
      ∙ slice-append-drop text max start end (omega arith)
  IsCut-rejoin start _ (more {pieces = pieces} room e fine cut) =
      let end = piece_end text max start in
      let later = lt-piece_end text max start some_max room in
      ap (λ rest. slice text start end ++ drop overlap rest)
        (IsCut-rejoin (end - overlap) pieces cut)
      ∙ ap (◌++◌ (slice text start end)) (drop-drop overlap (end - overlap) end text (omega arith))
      ∙ slice-append-drop text max start end (omega arith)

  -- An overlap of a quarter of the maximum at most lets every round go on.
  cut_pieces-total :
      (fuel start : ℕ)
      → overlap ≤ max / 4
      → length text < fuel + start
      → 0 < fuel
      → (pieces : List (List ℕ)) × (cut_pieces text max overlap fuel start ≡ ok pieces)
  cut_pieces-total zero start q enough some_fuel = absurd (omega arith)
  cut_pieces-total (suc fuel) start q enough some_fuel = elim (Round-cases text max overlap start) [
    | is_end e ↦ (_, cut_pieces-end text max overlap fuel start e)
    | is_last room e ↦ (_, cut_pieces-last text max overlap fuel start room e)
    | is_out room e out ↦ absurd (omega (arith, quarter-lt-piece_end text max start some_max e))
    | is_inside room e fine ↦
        let far = quarter-lt-piece_end text max start some_max e in
        let within = piece_end-le_length text max start in
        let rest =
          cut_pieces-total fuel (piece_end text max start - overlap) q (omega arith)
            (omega arith) in
        (_, cut_pieces-more text max overlap fuel start room e rest.0 fine rest.1)
  ]

-- A text that is cut into pieces with a positive maximum comes back when the pieces are put together,
-- each without the runes that it repeats of the one before; and every piece has a rune, and no more
-- than the maximum.
pub cut_pieces-rejoin :
    (text : List ℕ) (max overlap fuel : ℕ) (pieces : List (List ℕ))
    → 0 < max
    → cut_pieces text max overlap fuel 0 ≡ ok pieces
    → (rejoin overlap pieces ≡ text) × All (Fits max) pieces
cut_pieces-rejoin text max overlap fuel pieces h e =
    let cut = cut_pieces-IsCut text max overlap fuel 0 pieces e in
    (IsCut-rejoin text max overlap h 0 pieces cut, IsCut-Fits text max overlap h 0 pieces cut)

max_of-pos : (o : ChunkOptions) → 0 < max_of o
max_of-pos o = ground arith

is_bad_overlap-false :
    (o : ChunkOptions)
    → is_nonneg o.overlap ≡ true
    → pos_part o.overlap ≤ max_of o / 4
    → is_bad_overlap o ≡ false
is_bad_overlap-false o h q =
    let some_max = max_of-pos o in
    rw h (
      let room : pos_part o.overlap < max_of o = omega (arith, some_max) in
      elim (Bool-cases (leb (max_of o) (pos_part o.overlap))) [
        | inl e ↦ absurd (omega (arith, leb→le (max_of o) (pos_part o.overlap) e))
        | inr n ↦ n
      ])

-- A document with an ID, content and an overlap of no more than a quarter of the maximum is split:
-- a round for each rune of the content, and one more, is enough.
pub split_document-total :
    (d : Document) (o : ChunkOptions) (fuel : ℕ)
    → is_empty (trim_space d.id) ≡ false
    → is_empty (trim_space d.content) ≡ false
    → is_nonneg o.overlap ≡ true
    → pos_part o.overlap ≤ max_of o / 4
    → length (content_runes d) < fuel
    → (chunks : List Chunk) × (split_document fuel d o ≡ ok chunks)
unfolding split_document
split_document-total d o fuel has_id has_content h q enough =
    let all =
      cut_pieces-total (content_runes d) (max_of o) (pos_part o.overlap) (max_of-pos o) fuel 0 q
        (omega arith) (omega arith) in
    rw (has_id, split_document)
      (rw has_content (rw (is_bad_overlap-false o h q) (rw (all.1) (_, refl))))
