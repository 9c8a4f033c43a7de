-- ===== src/Knowledge/Index/Search.antt =====
-- What a search returns, where the scores are ordered as numbers are.
use cortex_go.Errors.{Error, ok}
use cortex_go.Prelude.{
  ℕ, ◌≤◌, ◌≡◌, refl, sym, subst, ◌∙◌, ◌⊎◌, inl, inr, true, false, Option, none, some, List, [], ◌∷◌,
  arith, ltb, ◌==◌, if◌then◌else◌, Bool-cases, length, All, length-take, All-keeps, ℤ, Str,
  is_empty, Dict, str_lt, str_lt-asym, str_lt-false_trans, Among, sort_by, IsSorted, IsOrder,
  All-sort_by, All-take, first-best, here, there,
}
use cortex_go.Knowledge.Index.{
  limit_of, Found, InMemoryIndex, ranks_before, collect, search_with_filter,
}
use cortex_go.Knowledge.Tokens.{score_chunk, tokenize, Unicode, Float}
use cortex_go.Knowledge.{matches_metadata, Chunk}

-- The numbers that are not NaN stand in one order, `==` and `>` being those of their places in it.
pub record IsRanked (fl : Float) : Type 0 where
  pub rank : fl.Carrier → ℕ
  pub equal-rank : (a b : fl.Carrier) → fl.equal a b ≡ (rank a == rank b)
  pub greater-rank : (a b : fl.Carrier) → fl.greater a b ≡ ltb (rank b) (rank a)

module _ (fl : Float) (u : Unicode) where
  module _ (ranked : IsRanked fl) where
    ranks_before-rank :
        (a b : Found fl u)
        → ranks_before fl u a b ≡ (
            if ranked.rank a.score == ranked.rank b.score
            then str_lt a.chunk.id b.chunk.id
            else ltb (ranked.rank b.score) (ranked.rank a.score))
    unfolding ranks_before
    ranks_before-rank a b =
        rw (ranked.equal-rank a.score b.score) (rw (ranked.greater-rank a.score b.score) refl)

    ranks_before-IsOrder : IsOrder (ranks_before fl u)
    ranks_before-IsOrder = record {
      asym = λ x y h.
          let before = sym (ranks_before-rank x y) ∙ h in
          let strings = str_lt-asym x.chunk.id y.chunk.id in ranks_before-rank y x ∙ ground arith;
      trans = λ x y z h h'.
          let first = sym (ranks_before-rank y x) ∙ h in
          let second = sym (ranks_before-rank z y) ∙ h' in
          let strings = str_lt-false_trans x.chunk.id y.chunk.id z.chunk.id in
          ranks_before-rank z x ∙ ground arith;
    }

  -- A chunk with its score for some terms.
  abbrev pub scored : List Str → Chunk → Found fl u
  scored terms c = record { chunk = c; score = score_chunk fl u terms c.text }

  -- An entry of the index that matches the filter and has a term.
  pub record IsMatch (terms : List Str) (filter : Dict Str) (index : InMemoryIndex) (f : Found fl u)
      : Type 0 where
    pub key : Str
    pub entry : Among (key, f.chunk) index
    pub kept : matches_metadata f.chunk.metadata filter ≡ true
    pub scores : f.score ≡ score_chunk fl u terms f.chunk.text
    pub positive : fl.greater f.score (fl.of_int 0) ≡ true

  IsMatch-later :
      (terms : List Str) (filter : Dict Str) (index : InMemoryIndex) (e : Str × Chunk)
      (f : Found fl u)
      → IsMatch terms filter index f
      → IsMatch terms filter (e ∷ index) f
  IsMatch-later terms filter index e f h = record {
    key = h.key;
    entry = there h.entry;
    kept = h.kept;
    scores = h.scores;
    positive = h.positive;
  }

  pub collect-IsMatch :
      (terms : List Str) (filter : Dict Str) (index : InMemoryIndex)
      → All (IsMatch terms filter index) (collect fl u terms filter index)
  unfolding collect
  collect-IsMatch terms filter [] = tt
  collect-IsMatch terms filter ((k, c) ∷ index) =
      let later =
        All-keeps (IsMatch terms filter index) (IsMatch terms filter ((k, c) ∷ index))
          (collect fl u terms filter index) (IsMatch-later terms filter index (k, c))
          (collect-IsMatch terms filter index) in
      elim (Bool-cases (matches_metadata c.metadata filter)) [
        | inr other ↦ rw (other, collect) later
        | inl fits ↦ elim (Bool-cases (fl.greater (score_chunk fl u terms c.text) (fl.of_int 0))) [
          | inr low ↦ rw (fits, collect) (rw low later)
          | inl high ↦
              rw (fits, collect)
                (rw high (
                  record { key = k; entry = here; kept = fits; scores = refl; positive = high },
                  later,
                ))
        ]
      ]

  Among-collect :
      (terms : List Str) (filter : Dict Str) (k : Str) (c : Chunk) (index : InMemoryIndex)
      → Among (k, c) index
      → matches_metadata c.metadata filter ≡ true
      → fl.greater (score_chunk fl u terms c.text) (fl.of_int 0) ≡ true
      → Among (scored terms c) (collect fl u terms filter index)
  unfolding collect
  Among-collect terms filter k c _ here kept positive = rw (kept, collect) (rw positive here)
  Among-collect terms filter k c _ (there {y = (j, d)} {xs = index} m) kept positive =
      let later = Among-collect terms filter k c index m kept positive in
      elim (Bool-cases (matches_metadata d.metadata filter)) [
        | inr other ↦ rw (other, collect) later
        | inl fits ↦ elim (Bool-cases (fl.greater (score_chunk fl u terms d.text) (fl.of_int 0))) [
          | inr low ↦ rw (fits, collect) (rw low later)
          | inl high ↦ rw (fits, collect) (rw high (there later))
        ]
      ]

  -- Whatever the scores are, what is found matches the filter.
  pub search_with_filter-IsMatch :
      (ended : Option Error) (index : InMemoryIndex) (query : Str) (limit : ℤ) (filter : Dict Str)
      (found : List (Found fl u))
      → search_with_filter fl u ended index query limit filter ≡ ok found
      → All (IsMatch (tokenize u query) filter index) found
  unfolding search_with_filter
  search_with_filter-IsMatch (some e) index query limit filter found h = cc h
  search_with_filter-IsMatch none index query limit filter found h =
      let terms = tokenize u query in
      let before = ranks_before fl u in
      let all = collect fl u terms filter index in
      elim (Bool-cases (is_empty terms)) [
        | inl e ↦ cc (rw (e, search_with_filter) at h)
        | inr n ↦ subst (All (IsMatch terms filter index)) (cc (rw (n, search_with_filter) at h)) (
            All-take before (IsMatch terms filter index) (limit_of fl u limit) (sort_by before all)
              (All-sort_by before (IsMatch terms filter index) all
                (collect-IsMatch terms filter index)))
      ]

  -- The best matches, in order: as many as the limit lets through.
  pub record IsBest (terms : List Str) (filter : Dict Str) (index : InMemoryIndex) (limit : ℤ)
      (found : List (Found fl u)) : Type 0 where
    pub bounded : length found ≤ limit_of fl u limit
    pub matching : All (IsMatch terms filter index) found
    pub ordered : IsSorted (ranks_before fl u) found
    pub complete :
        (k : Str) (c : Chunk)
        → Among (k, c) index
        → matches_metadata c.metadata filter ≡ true
        → fl.greater (score_chunk fl u terms c.text) (fl.of_int 0) ≡ true
        → Among (scored terms c) found
          ⊎ All (λ f. ranks_before fl u (scored terms c) f ≡ false) found

  -- Where scores are compared as numbers are, none of them being NaN, a query with a term is answered
  -- with no more results than the limit, in the order of their scores and IDs, each the chunk of an
  -- entry that matches the filter, with its own score above 0; and an entry that matches so and is
  -- left out comes before none of them.
  pub search_with_filter-IsBest :
      IsRanked fl
      → (index : InMemoryIndex) (query : Str) (limit : ℤ) (filter : Dict Str)
      → is_empty (tokenize u query) ≡ false
      → (found : List (Found fl u)) × (search_with_filter fl u none index query limit filter
          ≡ ok found)
        × IsBest (tokenize u query) filter index limit found
  unfolding search_with_filter
  search_with_filter-IsBest ranked index query limit filter some_term =
      let terms = tokenize u query in
      let all = collect fl u terms filter index in
      let before = ranks_before fl u in
      let best = first-best before (ranks_before-IsOrder ranked) (limit_of fl u limit) all in
      rw (some_term, search_with_filter)
        (
          _,
          refl,
          record {
            bounded = omega (arith, length-take (limit_of fl u limit) (sort_by before all));
            matching =
                All-take before (IsMatch terms filter index) (limit_of fl u limit)
                  (sort_by before all)
                  (All-sort_by before (IsMatch terms filter index) all
                    (collect-IsMatch terms filter index));
            ordered = best.0;
            complete = λ k c m kept positive.
                best.1 (scored terms c) (Among-collect terms filter k c index m kept positive);
          },
        )
