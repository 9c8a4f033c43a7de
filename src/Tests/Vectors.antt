-- ===== src/Tests/Vectors.antt =====
-- Vectors that are stored, searched and written to a file, and a hybrid index.
use cortex_go.Knowledge.Vectors.File.Reopened.{IsGap, upsert_file-Reopened, IsReadable}
use cortex_go.Knowledge.Tokens.{
  count, term_score, add_scores, score_chunk, flush_han, flush, read_rune, read_runes, tokenize,
}
use cortex_go.Knowledge.Index.{
  search_with_filter, collect, ranks_before, remove_chunks, add_chunk, add_chunks, Found, add,
  remove_document,
}
use cortex_go.Knowledge.Hybrid.Merge.{
  scores_more, normalize_score, score_of, add_score, add_lexical, add_vector, results_of, cut_to,
  merge, query_vector, search_hybrid,
}
use cortex_go.Knowledge.Hybrid.Merge.Matches.{search_hybrid-AllStored, IsStored}
use cortex_go.Knowledge.Hybrid.{add_removed, remove_hybrid, add_hybrid, HybridIndex}
use cortex_go.Knowledge.Vectors.{
  search_vector_with_filter, nearest, remove_entries, upsert, store_vectors, check_vectors, cosine,
  dot_from, norm, is_unusable, Vector, VectorEntries, remove_document as remove_vectors,
}
use cortex_go.Security.Tenants.Documents.{tenant_key}
use cortex_go.Security.Tenants.{require_tenant}
use cortex_go.Knowledge.{has_value, matches_metadata, Chunk}
use cortex_go.Knowledge.Runes.{digits_back, decimal, encode_rune, encode_runes}
use cortex_go.Knowledge.Split.{
  chunk_id, chunk_of, chunks_from, split_document, is_break, break_at, find_down, find_boundary,
  piece_end, cut_pieces,
}
use cortex_go.Knowledge.Vectors.File.{
  check_entries, persist_vectors, open_vector_index, store_checked, FileVectorIndex, upsert_file,
  VectorCodec,
}
use cortex_go.Knowledge.Hybrid.Same.{add_hybrid-AreSame, AreSame}
use cortex_go.Tests.Documents.{letters, note, mine, whole_numbers, note_chunk}
use cortex_go.Errors.{Result, Error, invalid_entry, ok, err}
use cortex_go.Security.Tenants.Vectors.{search_vector_filtered}
use cortex_go.Memory.Sessions.File.{calm}
use cortex_go.Prelude.{
  ◌-◌, ◌≤◌, ◌≡◌, refl, ◌⊎◌, false, Option, none, some, List, [], ◌∷◌, map, length, All, is_pos, Str,
  bytes, str_eq, decode_rune, runes_from, runes, is_space, all_space, is_blank, trim_left,
  trim_right, trim_space, is_empty, lookup, put, str_lt, Among, insert_by, sort_by, pos,
}

program : Unit {0}
unfolding cut_pieces piece_end find_boundary find_down break_at is_break split_document chunks_from
    chunk_of chunk_id encode_runes encode_rune decimal digits_back trim_space runes runes_from
    decode_rune trim_left trim_right all_space is_space is_blank str_eq add add_chunks add_chunk
    remove_document remove_chunks lookup put ranks_before sort_by insert_by str_lt matches_metadata
    has_value require_tenant tenant_key norm dot_from cosine is_unusable check_vectors store_vectors
    upsert remove_entries remove_vectors nearest search_vector_with_filter search_vector_filtered
    remove_hybrid add_removed add_hybrid
program = tt

abbrev here_first : VectorEntries whole_numbers
here_first = (bytes "d:0", (mine, 3 ∷ [])) ∷ []

abbrev near : Found whole_numbers letters
near = record { chunk = mine; score = 0 }

found_near :
    search_vector_filtered whole_numbers
      (some (bytes "t"))
      none
      letters
      here_first
      (2 ∷ [])
      (pos 0)
      ((bytes "tenant_id", bytes "other") ∷ [])
    ≡ ok (near ∷ [])
unfolding program
found_near = refl

abbrev zero_only : List (Vector whole_numbers)
zero_only = (0 ∷ []) ∷ []

three_usable : is_unusable whole_numbers (3 ∷ []) ≡ false
unfolding program
three_usable = refl

abbrev nothing_there : HybridIndex whole_numbers
nothing_there = record { lexical = []; vectors = [] }

-- Each text has the vector of its length.
abbrev embed : List Str → Result (List (Vector whole_numbers))
embed texts = ok (map (λ s. length s ∷ []) texts)

hybrid_fine : (add_hybrid whole_numbers embed none nothing_there note).0 ≡ none
unfolding program
hybrid_fine = refl

hybrid_holds :
    (add_hybrid whole_numbers embed none nothing_there note).1.vectors
    ≡ (bytes "d:0", (note_chunk, 7 ∷ [])) ∷ []
unfolding program
hybrid_holds = refl

add_hybrid-AreSame_example :
    AreSame whole_numbers (remove_hybrid whole_numbers embed none nothing_there (bytes "d")).1
    × AreSame whole_numbers (add_hybrid whole_numbers embed none nothing_there note).1
add_hybrid-AreSame_example =
    add_hybrid-AreSame whole_numbers embed none nothing_there note refl hybrid_fine

-- A file that holds the entries themselves.
abbrev plain : VectorCodec whole_numbers (VectorEntries whole_numbers)
plain = record { encode = ok; decode = ok }

plain-IsReadable : IsReadable plain (λ m. m)
plain-IsReadable m t h = cc h

abbrev empty_file : FileVectorIndex whole_numbers (VectorEntries whole_numbers)
empty_file = record { entries = []; file = none; temporary = none }

abbrev seven : List (Vector whole_numbers)
seven = (7 ∷ []) ∷ []

stored : (upsert_file plain calm empty_file (note_chunk ∷ []) seven).0 ≡ none
unfolding program upsert_file store_checked persist_vectors
stored = refl

opens :
    check_entries plain (upsert_file plain calm empty_file (note_chunk ∷ []) seven).1.entries ≡ none
unfolding program upsert_file store_checked persist_vectors check_entries
opens = refl

named : is_empty (bytes "v.json") ≡ false
named = refl

-- A zero vector leaves the one before it in memory, and not in the file.
half_stored :
    ((upsert_file plain calm empty_file (note_chunk ∷ mine ∷ []) ((7 ∷ []) ∷ zero_only)).1.entries
      ≡ (bytes "d:0", (note_chunk, 7 ∷ [])) ∷ [])
    × ((upsert_file plain calm empty_file (note_chunk ∷ mine ∷ []) ((7 ∷ []) ∷ zero_only)).1.file
        ≡ none)
unfolding program upsert_file store_checked persist_vectors
half_stored = (refl, refl)

-- A chunk without an ID is written, and the file does not open again.
abbrev nameless : Chunk
nameless = record note_chunk { id = [] }

does_not_open :
    open_vector_index plain
      (bytes "v.json")
      none
      (upsert_file plain calm empty_file (nameless ∷ []) seven).1.file
    ≡ err (invalid_entry [])
unfolding program upsert_file store_checked persist_vectors check_entries open_vector_index
does_not_open = refl

abbrev upserted : Option Error × FileVectorIndex whole_numbers (VectorEntries whole_numbers)
upserted = upsert_file plain calm empty_file (note_chunk ∷ []) seven

upsert_file-Reopened_example :
    ((e : Error) × (upserted.0 ≡ some e) × (upserted.1.file ≡ none))
    ⊎ ((upserted.0 ≡ none)
        × ((t : VectorEntries whole_numbers) × (upserted.1.file ≡ some t)
            × ((open_vector_index plain (bytes "v.json") none (some t)
                  ≡ ok (record { entries = upserted.1.entries; file = some t; temporary = none }))
                ⊎ ((e : Str × (Chunk × Vector whole_numbers)) × Among e upserted.1.entries
                    × IsGap plain e))))
upsert_file-Reopened_example =
    upsert_file-Reopened plain (λ m. m) plain-IsReadable (bytes "v.json") calm empty_file
      (note_chunk ∷ []) seven named

abbrev filled : HybridIndex whole_numbers
filled = record {
  lexical = (bytes "d:0", note_chunk) ∷ [];
  vectors = (bytes "d:0", (note_chunk, 7 ∷ [])) ∷ [];
}

abbrev best : Found whole_numbers letters
best = record { chunk = note_chunk; score = 0 }

merged :
    search_hybrid whole_numbers letters
      (λ a b. a - b)
      1
      embed
      none
      (λ fs. fs)
      filled
      note.content
      (pos 3)
      []
    ≡ ok (best ∷ [])
unfolding program search_hybrid query_vector merge cut_to results_of add_vector add_lexical
    add_score score_of normalize_score scores_more search_with_filter collect tokenize read_runes
    read_rune flush flush_han score_chunk add_scores term_score count
merged = refl

search_hybrid-AllStored_example :
    All (λ f. IsStored whole_numbers letters (λ a b. a - b) 1 filled [] f.chunk) (best ∷ [])
    × ((is_pos (pos 3) ≡ false) ⊎ (length (best ∷ []) ≤ 3))
search_hybrid-AllStored_example =
    search_hybrid-AllStored whole_numbers letters (λ a b. a - b) 1 filled [] embed none (λ fs. fs)
      note.content (pos 3) (best ∷ []) (λ P xs h. h) merged
