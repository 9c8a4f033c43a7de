-- ===== src/Knowledge/Split.antt =====
-- internal/knowledge/knowledge.go: `SplitDocument`.
pub mod Pieces
pub mod Whole
pub mod Loops
use cortex_go.Errors.{
  bad_overlap, slice_out_of_range, content_required, ok, document_id_required, out_of_fuel, err,
  Result,
}
use cortex_go.Knowledge.{Document, Chunk}
use cortex_go.Knowledge.Runes.{encode_runes, decimal}
use cortex_go.Prelude.{
  ℕ, zero, suc, ◌+◌, ◌-◌, ◌/◌, Bool, false, not, ◌||◌, none, some, List, [], ◌∷◌, ◌++◌, ltb, leb,
  ◌==◌, if◌then◌else◌, length, get_elem?, take, drop, ℤ, pos_part, is_pos, is_nonneg, Str, runes,
  is_space, trim_space, is_empty,
}

pub record ChunkOptions : Type 0 where
  pub max_characters : ℤ
  pub overlap : ℤ

-- unicode.IsSpace(r) || strings.ContainsRune("。！？.!?", r)
unfoldable pub is_break : ℕ → Bool
is_break r =
    is_space r || r == 0x3002 || r == 0xff01 || r == 0xff1f || r == b'.' || r == b'!' || r == b'?'

-- A break at an index of the text.
unfoldable pub break_at : List ℕ → ℕ → Bool
break_at text i = elim (get_elem? text i) [ none ↦ false | some r ↦ is_break r ]

-- for i := end; i > low; i-- { ... }, from i
unfoldable pub find_down : List ℕ → ℕ → ℕ → ℕ → ℕ
find_down text low end zero = end
find_down text low end (suc i) =
    let rest = find_down text low end i in
    if leb (suc i) low then end else if break_at text i then suc i else rest

-- findBoundary: the lowest index is start + end/4
unfoldable pub find_boundary : List ℕ → ℕ → ℕ → ℕ
find_boundary text start end = find_down text (start + end / 4) end end

-- Where the piece that begins at `start` ends.
unfoldable pub piece_end : List ℕ → ℕ → ℕ → ℕ
piece_end text max start =
    let end = start + max in
    if leb (length text) end
    then length text
    else let boundary = find_boundary text start end in if ltb start boundary then boundary else end

-- runes[start:end]
abbrev pub slice : List ℕ → ℕ → ℕ → List ℕ
slice text start end = take (end - start) (drop start text)

-- The loop, as the pieces that it cuts. The next piece begins at end - overlap; where that is
-- negative, the slice of the round after it is out of range.
unfoldable pub cut_pieces : List ℕ → ℕ → ℕ → ℕ → ℕ → Result (List (List ℕ))
cut_pieces text max overlap zero start = err out_of_fuel
cut_pieces text max overlap (suc fuel) start =
    let end = piece_end text max start in
    let rest = cut_pieces text max overlap fuel (end - overlap) in
    if leb (length text) start
    then ok []
    else if end == length text
    then ok (slice text start end ∷ [])
    else if ltb end overlap
    then err slice_out_of_range
    else elim rest [ err e ↦ err e | ok pieces ↦ ok (slice text start end ∷ pieces) ]

-- fmt.Sprintf("%s:%d", document.ID, ordinal)
unfoldable pub chunk_id : Str → ℕ → Str
chunk_id document n = document ++ (b':' ∷ decimal n)

unfoldable pub chunk_of : Document → ℕ → Str → Chunk
chunk_of d n text = record {
  id = chunk_id d.id n;
  document_id = d.id;
  title = d.title;
  text = text;
  ordinal = n;
  metadata = d.metadata;
}

-- The chunks of the pieces, numbered from `n`; a piece of spaces takes a number and gives no chunk.
unfoldable pub chunks_from : Document → ℕ → List (List ℕ) → List Chunk
chunks_from d n [] = []
chunks_from d n (p ∷ ps) =
    let text = trim_space (encode_runes p) in
    let rest = chunks_from d (suc n) ps in if is_empty text then rest else chunk_of d n text ∷ rest

abbrev pub default_max : ℕ
default_max = 1200

-- if max <= 0 { max = 1200 }
abbrev pub max_of : ChunkOptions → ℕ
max_of o = if is_pos o.max_characters then pos_part o.max_characters else default_max

-- overlap < 0 || overlap >= max
abbrev pub is_bad_overlap : ChunkOptions → Bool
is_bad_overlap o = not (is_nonneg o.overlap) || leb (max_of o) (pos_part o.overlap)

-- The runes that are split.
abbrev pub content_runes : Document → List ℕ
content_runes d = runes (trim_space d.content)

unfoldable pub split_document : ℕ → Document → ChunkOptions → Result (List Chunk)
split_document fuel d o =
    if is_empty (trim_space d.id)
    then err document_id_required
    else if is_empty (trim_space d.content)
    then err content_required
    else if is_bad_overlap o
    then err bad_overlap
    else elim (cut_pieces (content_runes d) (max_of o) (pos_part o.overlap) fuel 0) [
      | err e ↦ err e
      | ok pieces ↦ ok (chunks_from d 0 pieces)
    ]
