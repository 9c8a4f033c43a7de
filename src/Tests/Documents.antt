-- ===== src/Tests/Documents.antt =====
-- Documents that are split, added, searched and removed.
use cortex_go.Errors.{ok}
use cortex_go.Security.Tenants.Documents.{
  mark_document, tenant_key, add_document, in_memory, search_own,
}
use cortex_go.Security.Tenants.{require_tenant}
use cortex_go.Knowledge.{has_value, matches_metadata, Document, Chunk}
use cortex_go.Knowledge.Index.{
  ranks_before, collect, remove_chunks, search_with_filter, remove_document, add_chunk,
  default_options, add_chunks, InMemoryIndex, Found, add, rounds,
}
use cortex_go.Knowledge.Tokens.{
  count, term_score, add_scores, score_chunk, flush_han, flush, read_rune, read_runes, Float,
  Unicode, tokenize,
}
use cortex_go.Knowledge.Index.Search.{search_with_filter-IsBest, IsBest, IsRanked}
use cortex_go.Security.Tenants.Documents.Marks.{search_own-IsOwn, IsOwn}
use cortex_go.Knowledge.Runes.{digits_back, decimal, encode_rune, encode_runes}
use cortex_go.Knowledge.Split.{
  chunk_id, chunk_of, chunks_from, is_break, break_at, find_down, find_boundary, split_document,
  piece_end, ChunkOptions, content_runes, cut_pieces,
}
use cortex_go.Knowledge.Split.Whole.{split_document-total, cut_pieces-rejoin, Fits, rejoin}
use cortex_go.Prelude.{
  ℕ, ◌+◌, ◌*◌, ◌/◌, ◌≡◌, refl, false, ◌&&◌, none, some, List, [], ◌∷◌, arith, ltb, leb, ◌==◌,
  length, All, bytes, str_eq, decode_rune, runes_from, runes, is_space, all_space, is_blank,
  trim_left, trim_right, trim_space, is_empty, lookup, put, str_lt, insert_by, sort_by, pos,
}

program : Unit {0}
unfolding cut_pieces piece_end find_boundary find_down break_at is_break split_document chunks_from
    chunk_of chunk_id encode_runes encode_rune decimal digits_back trim_space runes runes_from
    decode_rune trim_left trim_right all_space is_space is_blank str_eq add add_chunks add_chunk
    remove_document remove_chunks lookup put tokenize read_runes read_rune flush flush_han
    search_with_filter collect score_chunk add_scores term_score count ranks_before sort_by
    insert_by str_lt matches_metadata has_value require_tenant tenant_key mark_document add_document
    search_own
program = tt

abbrev sentences : List ℕ
sentences = bytes "ab. cd ef."

pieces_of : cut_pieces sentences 4 1 11 0 ≡ ok (bytes "ab. " ∷ bytes " cd " ∷ bytes " ef." ∷ [])
unfolding program
pieces_of = refl

cut_pieces-rejoin_example :
    (rejoin 1 (bytes "ab. " ∷ bytes " cd " ∷ bytes " ef." ∷ []) ≡ sentences)
    × All (Fits 4) (bytes "ab. " ∷ bytes " cd " ∷ bytes " ef." ∷ [])
cut_pieces-rejoin_example = cut_pieces-rejoin sentences 4 1 11 _ (omega arith) pieces_of

-- A break after four runes, an overlap of four and a maximum of eight.
abbrev loops : List ℕ
loops = bytes "abc defghijk"

loops_back : piece_end loops 8 0 ≡ 4
unfolding program
loops_back = refl

abbrev pub note : Document
note = record { id = bytes "d"; title = []; content = bytes "red cat"; metadata = none }

abbrev small : ChunkOptions
small = record { max_characters = pos 4; overlap = pos 1 }

note_id : is_empty (trim_space note.id) ≡ false
unfolding program
note_id = refl

note_content : is_empty (trim_space note.content) ≡ false
unfolding program
note_content = refl

length-note : length (content_runes note) ≡ 7
unfolding program
length-note = refl

split_document-total_example : (chunks : List Chunk) × (split_document 8 note small ≡ ok chunks)
split_document-total_example =
    split_document-total note small 8 note_id note_content refl (omega arith)
      (omega (arith, length-note))

abbrev pub whole_numbers : Float
whole_numbers = record {
  Carrier = ℕ;
  of_int = λ n. n;
  add = λ a b. a + b;
  mul = λ a b. a * b;
  div = λ a b. a / b;
  sqrt = λ a. a;
  greater = λ a b. ltb b a;
  equal = λ a b. a == b;
  two_point_two = 22;
  one_point_two = 12;
}

ranked : IsRanked whole_numbers
ranked = record { rank = λ n. n; equal-rank = λ a b. refl; greater-rank = λ a b. refl }

abbrev pub letters : Unicode
letters = record { to_lower = λ s. s; is_han = λ r. false; is_word = λ r. leb b'a' r && leb r b'z' }

abbrev pub note_chunk : Chunk
note_chunk = record {
  id = bytes "d:0";
  document_id = bytes "d";
  title = [];
  text = bytes "red cat";
  ordinal = 0;
  metadata = none;
}

abbrev index : InMemoryIndex
index = (bytes "d:0", note_chunk) ∷ []

added : add none [] note ≡ (none, index)
unfolding program
added = refl

note_chunks : split_document (rounds note) note default_options ≡ ok (note_chunk ∷ [])
unfolding program
note_chunks = refl

old_chunks_stay :
    lookup (bytes "d:1") (add none ((bytes "d:1", note_chunk) ∷ []) note).1 ≡ some note_chunk
unfolding program
old_chunks_stay = refl

fine : (add none [] note).0 ≡ none
unfolding program
fine = refl

some_term : is_empty (tokenize letters (bytes "cat")) ≡ false
unfolding program
some_term = refl

search_with_filter-IsBest_example :
    (found : List (Found whole_numbers letters)) × (search_with_filter whole_numbers letters none
        index
        (bytes "cat")
        (pos 0)
        []
      ≡ ok found)
    × IsBest whole_numbers letters (tokenize letters (bytes "cat")) [] index (pos 0) found
search_with_filter-IsBest_example =
    search_with_filter-IsBest whole_numbers letters ranked index (bytes "cat") (pos 0) [] some_term

abbrev pub mine : Chunk
mine = record note_chunk { metadata = some ((bytes "tenant_id", bytes "t") ∷ []) }

abbrev marked : InMemoryIndex
marked = (bytes "e:0", note_chunk) ∷ (bytes "d:0", mine) ∷ []

abbrev own_result : Found whole_numbers letters
own_result = record { chunk = mine; score = 1 }

found_own :
    search_own
      (some (bytes "t"))
      (in_memory whole_numbers letters none)
      marked
      (bytes "cat")
      (pos 0)
    ≡ ok (own_result ∷ [])
unfolding program
found_own = refl

search_own-IsOwn_example : All (λ f. IsOwn (bytes "t") f.chunk) (own_result ∷ [])
search_own-IsOwn_example =
    search_own-IsOwn whole_numbers letters none (bytes "t") marked (bytes "cat") (pos 0) _ found_own
