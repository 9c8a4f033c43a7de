-- ===== src/Knowledge/Vectors.antt =====
-- internal/knowledge/vector.go: `InMemoryVectorIndex` and the arithmetic of its scores.
pub mod Search
pub mod Stored
pub mod File
use cortex_go.Knowledge.Index.{ranks_before, Found, limit_of}
use cortex_go.Errors.{zero_query, Result, length_mismatch, zero_vector, Error, ok, err}
use cortex_go.Knowledge.{matches_metadata, Chunk}
use cortex_go.Knowledge.Tokens.{Unicode, Float}
use cortex_go.Prelude.{
  ℕ, suc, Bool, not, ◌||◌, Option, none, some, List, [], ◌∷◌, ◌==◌, if◌then◌else◌, length, take, ℤ,
  Str, str_eq, is_empty, Dict, put, sort_by,
}

module _ (fl : Float) where
  abbrev pub Vector : Type 0
  Vector = List fl.Carrier

  -- The sums of the products, from a sum on; `dot` stops with the shorter vector.
  unfoldable pub dot_from : fl.Carrier → Vector → Vector → fl.Carrier
  dot_from sum [] ys = sum
  dot_from sum (x ∷ xs) [] = sum
  dot_from sum (x ∷ xs) (y ∷ ys) = dot_from (fl.add sum (fl.mul x y)) xs ys

  unfoldable pub norm : Vector → fl.Carrier
  norm v = fl.sqrt (dot_from (fl.of_int 0) v v)

  -- norm(vector) == 0
  abbrev pub is_zero : fl.Carrier → Bool
  is_zero x = fl.equal x (fl.of_int 0)

  unfoldable pub cosine : Vector → Vector → fl.Carrier
  cosine left right =
      if is_zero (norm left) || is_zero (norm right)
      then fl.of_int 0
      else fl.div (dot_from (fl.of_int 0) left right) (fl.mul (norm left) (norm right))

  -- len(vector) == 0 || norm(vector) == 0
  unfoldable pub is_unusable : Vector → Bool
  is_unusable v = is_empty v || is_zero (norm v)

  -- vectorEntry
  abbrev pub VectorEntry : Type 0
  VectorEntry = Chunk × Vector

  abbrev pub VectorEntries : Type 0
  VectorEntries = Dict VectorEntry

  -- The first vector that is empty or zero, by its number.
  unfoldable pub check_vectors : ℕ → List Vector → Option Error
  check_vectors n [] = none
  check_vectors n (v ∷ vs) =
      let rest = check_vectors (suc n) vs in if is_unusable v then some (zero_vector n) else rest

  -- The loop that stores; the two lists are as long as each other.
  unfoldable pub store_vectors : VectorEntries → List Chunk → List Vector → VectorEntries
  store_vectors m [] vs = m
  store_vectors m (c ∷ cs) [] = m
  store_vectors m (c ∷ cs) (v ∷ vs) = store_vectors (put c.id (c, v) m) cs vs

  unfoldable pub upsert :
      Option Error → VectorEntries → List Chunk → List Vector → Option Error × VectorEntries
  upsert (some e) m cs vs = (some e, m)
  upsert none m cs vs =
      if not (length cs == length vs)
      then (some length_mismatch, m)
      else elim (check_vectors 0 vs) [ some e ↦ (some e, m) | none ↦ (none, store_vectors m cs vs) ]

  unfoldable pub remove_entries : VectorEntries → Str → VectorEntries
  remove_entries [] document = []
  remove_entries ((k, e) ∷ m) document =
      let rest = remove_entries m document in
      if str_eq (e.0).document_id document then rest else (k, e) ∷ rest

  unfoldable pub remove_document : Option Error → VectorEntries → Str → Option Error × VectorEntries
  remove_document (some e) m document = (some e, m)
  remove_document none m document = (none, remove_entries m document)

  -- Count
  unfoldable pub count_entries : VectorEntries → ℕ
  count_entries m = length m

  module _ (u : Unicode) where
    -- The chunks that match the filter and have a vector of the query's length; a result has the
    -- fields of a result of keywords, and is ordered as one.
    unfoldable pub nearest : Vector → Dict Str → VectorEntries → List (Found fl u)
    nearest query filter [] = []
    nearest query filter ((k, (c, v)) ∷ m) =
        let rest = nearest query filter m in
        if not (matches_metadata c.metadata filter)
        then rest
        else if not (length v == length query)
        then rest
        else record { chunk = c; score = cosine query v } ∷ rest

    unfoldable pub search_vector_with_filter :
        Option Error → VectorEntries → Vector → ℤ → Dict Str → Result (List (Found fl u))
    search_vector_with_filter (some e) m query limit filter = err e
    search_vector_with_filter none m query limit filter =
        if is_unusable query
        then err zero_query
        else ok (take (limit_of fl u limit) (sort_by (ranks_before fl u) (nearest query filter m)))
