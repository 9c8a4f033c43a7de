-- ===== src/Knowledge/Hybrid/Merge.antt =====
-- internal/knowledge/vector.go: `NewHybridIndex` and the search that merges what both indexes find.
-- Go ranges over a map in any order: `order` gives the one that is taken.
-- `sub` is the subtraction of float64.
pub mod Matches
use cortex_go.Knowledge.Vectors.{search_vector_with_filter, Vector}
use cortex_go.Knowledge.Index.{search_with_filter, Found}
use cortex_go.Errors.{
  query_vectors, bad_alpha, embed_query_failed, embedder_required, Error, Result, ok, err,
}
use cortex_go.Knowledge.{matches_metadata, Chunk}
use cortex_go.Knowledge.Hybrid.{HybridIndex}
use cortex_go.Knowledge.Tokens.{Unicode, Float}
use cortex_go.Prelude.{
  ◌+◌, Bool, not, ◌||◌, Option, none, some, List, [], ◌∷◌, if◌then◌else◌, length, take, ℤ, pos_part,
  is_pos, Str, is_empty, Dict, lookup, put, sort_by,
}

module _ (fl : Float) where
  -- alpha < 0 || alpha > 1, and the embedding model must be there
  unfoldable pub new_hybrid_index : Bool → fl.Carrier → Result (HybridIndex fl)
  new_hybrid_index has_embedder alpha =
      if not has_embedder
      then err embedder_required
      else if fl.greater (fl.of_int 0) alpha || fl.greater alpha (fl.of_int 1)
      then err bad_alpha
      else ok (record { lexical = []; vectors = [] })

  -- score <= 0 is the score 0; NaN is neither.
  unfoldable pub normalize_score : fl.Carrier → fl.Carrier
  normalize_score score =
      if fl.greater (fl.of_int 0) score || fl.equal score (fl.of_int 0)
      then fl.of_int 0
      else fl.div score (fl.add score (fl.of_int 1))

  -- The maps `scores` and `chunks`, which have the same keys.
  abbrev pub Scores : Type 0
  Scores = Dict (Chunk × fl.Carrier)

  -- scores[id], 0 where there is none
  unfoldable pub score_of : Str → Scores → fl.Carrier
  score_of id m = elim (lookup id m) [ none ↦ fl.of_int 0 | some e ↦ e.1 ]

  -- scores[chunk.ID] += x; chunks[chunk.ID] = chunk
  unfoldable pub add_score : Chunk → fl.Carrier → Scores → Scores
  add_score c x m = put c.id (c, fl.add (score_of c.id m) x) m

  module _ (u : Unicode) (sub : fl.Carrier → fl.Carrier → fl.Carrier) (alpha : fl.Carrier) where
    unfoldable pub add_lexical : List (Found fl u) → Scores → Scores
    add_lexical [] m = m
    add_lexical (f ∷ fs) m =
        add_lexical fs
          (add_score f.chunk (fl.mul (sub (fl.of_int 1) alpha) (normalize_score f.score)) m)

    unfoldable pub add_vector : Dict Str → List (Found fl u) → Scores → Scores
    add_vector filter [] m = m
    add_vector filter (f ∷ fs) m =
        if not (matches_metadata f.chunk.metadata filter)
        then add_vector filter fs m
        else add_vector filter fs (
            add_score f.chunk (fl.mul alpha (fl.div (fl.add f.score (fl.of_int 1)) (fl.of_int 2)))
              m)

    unfoldable pub results_of : Scores → List (Found fl u)
    results_of [] = []
    results_of ((k, (c, x)) ∷ m) = record { chunk = c; score = x } ∷ results_of m

    -- The order that the results are sorted by.
    unfoldable pub scores_more : Found fl u → Found fl u → Bool
    scores_more a b = fl.greater a.score b.score

    -- limit > 0 && len(results) > limit
    unfoldable pub cut_to : ℤ → List (Found fl u) → List (Found fl u)
    cut_to limit fs = if is_pos limit then take (pos_part limit) fs else fs

    unfoldable pub merge :
        (List (Found fl u) → List (Found fl u))
        → ℤ
        → Dict Str
        → List (Found fl u)
        → List (Found fl u)
        → List (Found fl u)
    merge order limit filter lexical vector = cut_to limit (
        sort_by scores_more
          (order (results_of (add_vector filter vector (add_lexical lexical [])))))

    -- The only vector of the query.
    unfoldable pub query_vector : Result (List (Vector fl)) → Result (Vector fl)
    query_vector (err e) = err (embed_query_failed e)
    query_vector (ok []) = err (query_vectors 0)
    query_vector (ok (v ∷ vs)) = if is_empty vs then ok v else err (query_vectors (length vs + 1))

    -- SearchWithFilter over the indexes in memory; Search has no filter.
    unfoldable pub search_hybrid :
        (List Str → Result (List (Vector fl)))
        → Option Error
        → (List (Found fl u) → List (Found fl u))
        → HybridIndex fl
        → Str
        → ℤ
        → Dict Str
        → Result (List (Found fl u))
    search_hybrid embed ended order h query limit filter =
        elim (query_vector (embed (query ∷ []))) [
          | err e ↦ err e
          | ok v ↦ elim (search_with_filter fl u ended h.lexical query limit filter) [
            | err e ↦ err e
            | ok lexical ↦ elim (search_vector_with_filter fl u ended h.vectors v limit filter) [
              | err e ↦ err e
              | ok vector ↦ ok (merge order limit filter lexical vector)
            ]
          ]
        ]
