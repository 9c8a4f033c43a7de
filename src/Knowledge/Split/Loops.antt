-- ===== src/Knowledge/Split/Loops.antt =====
-- What the loop does where a break is where the overlap ends, and what it does late in a text.
use cortex_go.Knowledge.Split.Pieces.{cut_pieces-fails}
use cortex_go.Knowledge.Split.{find_boundary, cut_pieces, find_down, piece_end}
use cortex_go.Errors.{out_of_fuel, err}
use cortex_go.Prelude.{
  ℕ, zero, suc, ◌+◌, ◌-◌, ◌*◌, ◌/◌, ◌≤◌, ◌<◌, min, ◌≡◌, refl, ap, ◌∙◌, ◌≢◌, List, arith, length,
}

zero_round :
    (text : List ℕ) (max overlap start : ℕ)
    → cut_pieces text max overlap zero start ≡ err out_of_fuel
unfolding cut_pieces
zero_round text max overlap start = refl

-- Where the runes that a piece takes are as many as the overlap, and it is not the last piece, the
-- loop begins the same piece again: no number of rounds is enough.
pub cut_pieces-endless :
    (text : List ℕ) (max overlap start fuel : ℕ)
    → start < length text
    → piece_end text max start ≡ start + overlap
    → start + overlap ≢ length text
    → cut_pieces text max overlap fuel start ≡ err out_of_fuel
cut_pieces-endless text max overlap start zero room same inside = zero_round text max overlap start
cut_pieces-endless text max overlap start (suc fuel) room same inside =
    let again = cut_pieces-endless text max overlap start fuel room same inside in
    let back : piece_end text max start - overlap ≡ start = omega arith in
    cut_pieces-fails text max overlap fuel start room (omega arith) out_of_fuel (omega arith)
      (ap (cut_pieces text max overlap fuel) back ∙ again)

late-find_down : (text : List ℕ) (low end i : ℕ) → i ≤ low → find_down text low end i ≡ end
unfolding find_down
late-find_down text low end zero h = refl
late-find_down text low end (suc i) h = ground arith

-- A piece that begins at three times the maximum or later ends at the maximum or with the text,
-- wherever the breaks are.
pub piece_end-late :
    (text : List ℕ) (max start : ℕ)
    → 3 * max ≤ start
    → piece_end text max start ≡ min (start + max) (length text)
unfolding piece_end find_boundary
piece_end-late text max start h =
    let end = start + max in
    let low = start + end / 4 in
    let found : find_down text low end end ≡ end = late-find_down text low end end (omega arith) in
    ground arith
