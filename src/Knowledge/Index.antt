-- ===== src/Knowledge/Index.antt =====
-- internal/knowledge/knowledge.go: `InMemoryIndex`. A context is the error that it gives, if any. The
-- mutex makes each operation one step.
pub mod Search
pub mod Documents
use cortex_go.Errors.{ok, query_empty, err, Result, chunk_required, Error}
use cortex_go.Knowledge.Tokens.{tokenize, score_chunk, Unicode, Float}
use cortex_go.Knowledge.{matches_metadata, Chunk, Document}
use cortex_go.Knowledge.Split.{split_document, content_runes, ChunkOptions}
use cortex_go.Prelude.{
  ℕ, suc, Bool, not, ◌||◌, Option, none, some, List, [], ◌∷◌, if◌then◌else◌, length, take, ℤ,
  pos_part, is_pos, Str, str_eq, trim_space, is_empty, Dict, put, str_lt, sort_by, pos,
}

-- map[string]Chunk
abbrev pub InMemoryIndex : Type 0
InMemoryIndex = Dict Chunk

unfoldable pub add_chunk : InMemoryIndex → Chunk → Option Error × InMemoryIndex
add_chunk index c =
    if is_empty c.id || is_empty (trim_space c.text)
    then (some chunk_required, index)
    else (none, put c.id c index)

-- The loop over the chunks, which the first error leaves.
unfoldable pub add_chunks : InMemoryIndex → List Chunk → Option Error × InMemoryIndex
add_chunks index [] = (none, index)
add_chunks index (c ∷ cs) = elim ((add_chunk index c).0) [
  | some e ↦ (some e, (add_chunk index c).1)
  | none ↦ add_chunks (add_chunk index c).1 cs
]

-- ChunkOptions{}
abbrev pub default_options : ChunkOptions
default_options = record { max_characters = pos 0; overlap = pos 0 }

-- The rounds that the splitting is given.
abbrev pub rounds : Document → ℕ
rounds d = suc (length (content_runes d))

unfoldable pub add : Option Error → InMemoryIndex → Document → Option Error × InMemoryIndex
add (some e) index d = (some e, index)
add none index d = elim (split_document (rounds d) d default_options) [
  | err e ↦ (some e, index)
  | ok chunks ↦ add_chunks index chunks
]

-- delete(i.chunks, id) of each chunk of the document
unfoldable pub remove_chunks : InMemoryIndex → Str → InMemoryIndex
remove_chunks [] document = []
remove_chunks ((k, c) ∷ index) document =
    let rest = remove_chunks index document in
    if str_eq c.document_id document then rest else (k, c) ∷ rest

unfoldable pub remove_document : Option Error → InMemoryIndex → Str → Option Error × InMemoryIndex
remove_document (some e) index document = (some e, index)
remove_document none index document = (none, remove_chunks index document)

module _ (fl : Float) (u : Unicode) where
  pub record Found : Type 0 where
    pub chunk : Chunk
    pub score : fl.Carrier

  -- The order that the results are sorted by.
  unfoldable pub ranks_before : Found → Found → Bool
  ranks_before a b =
      if fl.equal a.score b.score then str_lt a.chunk.id b.chunk.id else fl.greater a.score b.score

  -- The chunks that match the filter and a term, with their scores.
  unfoldable pub collect : List Str → Dict Str → InMemoryIndex → List Found
  collect terms filter [] = []
  collect terms filter ((k, c) ∷ index) =
      let score = score_chunk fl u terms c.text in
      let rest = collect terms filter index in
      if not (matches_metadata c.metadata filter)
      then rest
      else if fl.greater score (fl.of_int 0)
      then record { chunk = c; score = score } ∷ rest
      else rest

  -- if limit <= 0 { limit = 10 }
  abbrev pub limit_of : ℤ → ℕ
  limit_of limit = if is_pos limit then pos_part limit else 10

  unfoldable pub search_with_filter :
      Option Error → InMemoryIndex → Str → ℤ → Dict Str → Result (List Found)
  search_with_filter (some e) index query limit filter = err e
  search_with_filter none index query limit filter =
      if is_empty (tokenize u query)
      then err query_empty
      else ok
          (take (limit_of limit) (sort_by ranks_before (collect (tokenize u query) filter index)))

  unfoldable pub search : Option Error → InMemoryIndex → Str → ℤ → Result (List Found)
  search ctx index query limit = search_with_filter ctx index query limit []
