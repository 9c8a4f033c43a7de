-- ===== src/Knowledge/Vectors/Search.antt =====
-- What a search by a vector returns.
use cortex_go.Knowledge.Vectors.{
  cosine, VectorEntry, is_unusable, VectorEntries, Vector, search_vector_with_filter, nearest,
}
use cortex_go.Knowledge.Index.{ranks_before, Found, limit_of}
use cortex_go.Knowledge.{matches_metadata}
use cortex_go.Errors.{Error, ok}
use cortex_go.Knowledge.Tokens.{Unicode, Float}
use cortex_go.Prelude.{
  ◌≤◌, ◌≡◌, refl, subst, inl, inr, true, false, Option, none, some, List, [], ◌∷◌, arith, ◌==◌,
  Bool-cases, length, All, length-take, All-keeps, ℤ, Str, Dict, Among, sort_by, All-sort_by,
  All-take, here, there,
}

module _ (fl : Float) (u : Unicode) where
  -- The chunk of an entry that matches the filter and has a vector of the query's length, with the
  -- cosine of the two vectors.
  pub record IsNear (query : Vector fl) (filter : Dict Str) (m : VectorEntries fl) (f : Found fl u)
      : Type 0 where
    pub key : Str
    pub vector : Vector fl
    pub entry : Among (key, (f.chunk, vector)) m
    pub kept : matches_metadata f.chunk.metadata filter ≡ true
    pub fits : length vector ≡ length query
    pub scores : f.score ≡ cosine fl query vector

  IsNear-later :
      (query : Vector fl) (filter : Dict Str) (m : VectorEntries fl) (e : Str × VectorEntry fl)
      (f : Found fl u)
      → IsNear query filter m f
      → IsNear query filter (e ∷ m) f
  IsNear-later query filter m e f h = record {
    key = h.key;
    vector = h.vector;
    entry = there h.entry;
    kept = h.kept;
    fits = h.fits;
    scores = h.scores;
  }

  nearest-IsNear :
      (query : Vector fl) (filter : Dict Str) (m : VectorEntries fl)
      → All (IsNear query filter m) (nearest fl u query filter m)
  unfolding nearest
  nearest-IsNear query filter [] = tt
  nearest-IsNear query filter ((k, (c, v)) ∷ m) =
      let later =
        All-keeps (IsNear query filter m) (IsNear query filter ((k, (c, v)) ∷ m))
          (nearest fl u query filter m) (IsNear-later query filter m (k, (c, v)))
          (nearest-IsNear query filter m) in
      elim (Bool-cases (matches_metadata c.metadata filter)) [
        | inr other ↦ rw (other, nearest) later
        | inl good ↦ elim (Bool-cases (length v == length query)) [
          | inr other ↦ rw (good, nearest) (rw other later)
          | inl same ↦
              rw (good, nearest)
                (rw same (
                  record {
                    key = k;
                    vector = v;
                    entry = here;
                    kept = good;
                    fits = ground arith;
                    scores = refl;
                  },
                  later,
                ))
        ]
      ]

  -- A search by a vector refuses one that is empty or zero; what it finds otherwise is no more than
  -- the limit, and is the chunk of an entry that matches the filter and has a vector as long as the
  -- query, with the cosine of the two vectors.
  pub search_vector_with_filter-IsNear :
      (ended : Option Error) (m : VectorEntries fl) (query : Vector fl) (limit : ℤ)
      (filter : Dict Str) (found : List (Found fl u))
      → search_vector_with_filter fl u ended m query limit filter ≡ ok found
      → (is_unusable fl query ≡ false)
        × ((length found ≤ limit_of fl u limit) × All (IsNear query filter m) found)
  unfolding search_vector_with_filter
  search_vector_with_filter-IsNear (some e) m query limit filter found h = cc h
  search_vector_with_filter-IsNear none m query limit filter found h =
      let before = ranks_before fl u in
      let all = nearest fl u query filter m in
      elim (Bool-cases (is_unusable fl query)) [
        | inl e ↦ cc (rw (e, search_vector_with_filter) at h)
        | inr n ↦
            subst
              (λ r.
                (is_unusable fl query ≡ false)
                × ((length r ≤ limit_of fl u limit) × All (IsNear query filter m) r))
              (cc (rw (n, search_vector_with_filter) at h))
              (
                n,
                (
                  omega (arith, length-take (limit_of fl u limit) (sort_by before all)),
                  All-take before (IsNear query filter m) (limit_of fl u limit) (sort_by before all)
                      (All-sort_by before (IsNear query filter m) all
                        (nearest-IsNear query filter m)),
                ),
              )
      ]
