-- ===== src/Knowledge/Hybrid/Merge/Matches.antt =====
-- What the merged search returns.
use cortex_go.Knowledge.Index.Search.{search_with_filter-IsMatch, IsMatch}
use cortex_go.Knowledge.Vectors.Search.{search_vector_with_filter-IsNear, IsNear}
use cortex_go.Knowledge.Tokens.{tokenize, Unicode, Float}
use cortex_go.Knowledge.Hybrid.Merge.{
  query_vector, scores_more, cut_to, add_score, merge, add_vector, results_of, add_lexical,
  search_hybrid, Scores,
}
use cortex_go.Knowledge.Vectors.{search_vector_with_filter, Vector}
use cortex_go.Errors.{Result-cases, Result, Error, ok}
use cortex_go.Knowledge.{matches_metadata, Chunk}
use cortex_go.Knowledge.Index.{search_with_filter, Found}
use cortex_go.Knowledge.Hybrid.{HybridIndex}
use cortex_go.Prelude.{
  ◌≤◌, ◌≡◌, subst, ◌⊎◌, inl, inr, true, false, not, Option, List, [], ◌∷◌, arith, Bool-cases,
  if_keeps, length, All, length-take, All-keeps, ℤ, pos_part, is_pos, Str, Dict, All-put, Among,
  sort_by, All-sort_by, All-take,
}

-- The order in which a map is ranged over leaves out nothing and makes up nothing.
abbrev pub KeepsAll : {A : Type 0} → (List A → List A) → Type 1
KeepsAll {A = A} order = (P : A → Type 0) (xs : List A) → All P xs → All P (order xs)

module _ (fl : Float) (u : Unicode) (sub : fl.Carrier → fl.Carrier → fl.Carrier)
    (alpha : fl.Carrier) where
  -- The chunk matches the filter, and one of the two indexes holds it.
  pub record IsStored (h : HybridIndex fl) (filter : Dict Str) (c : Chunk) : Type 0 where
    pub kept : matches_metadata c.metadata filter ≡ true
    pub entry :
        ((key : Str) × Among (key, c) h.lexical)
        ⊎ ((key : Str) × (v : Vector fl) × Among (key, (c, v)) h.vectors)

  module _ (h : HybridIndex fl) (filter : Dict Str) where
    abbrev AreStored : Scores fl → Type 0
    AreStored m = All (λ e. IsStored h filter (e.1).0) m

    abbrev AllStored : List (Found fl u) → Type 0
    AllStored fs = All (λ f. IsStored h filter f.chunk) fs

    add_lexical-AreStored :
        (fs : List (Found fl u)) (m : Scores fl)
        → AllStored fs
        → AreStored m
        → AreStored (add_lexical fl u sub alpha fs m)
    unfolding add_lexical add_score
    add_lexical-AreStored [] m a b = b
    add_lexical-AreStored (f ∷ fs) m a b =
        add_lexical-AreStored fs _ a.1
          (All-put (λ e. IsStored h filter (e.1).0) f.chunk.id _ m a.0 b)

    add_vector-AreStored :
        (fs : List (Found fl u)) (m : Scores fl)
        → AllStored fs
        → AreStored m
        → AreStored (add_vector fl u sub alpha filter fs m)
    unfolding add_vector add_score
    add_vector-AreStored [] m a b = b
    add_vector-AreStored (f ∷ fs) m a b =
        if_keeps AreStored (not (matches_metadata f.chunk.metadata filter)) _ _
          (add_vector-AreStored fs m a.1 b)
          (add_vector-AreStored fs _ a.1
            (All-put (λ e. IsStored h filter (e.1).0) f.chunk.id _ m a.0 b))

    results_of-AllStored : (m : Scores fl) → AreStored m → AllStored (results_of fl u sub alpha m)
    unfolding results_of
    results_of-AllStored [] a = tt
    results_of-AllStored ((k, (c, x)) ∷ m) a = (a.0, results_of-AllStored m a.1)

    merge-AllStored :
        (order : List (Found fl u) → List (Found fl u)) (limit : ℤ)
        (lexical vector : List (Found fl u))
        → KeepsAll order
        → AllStored lexical
        → AllStored vector
        → AllStored (merge fl u sub alpha order limit filter lexical vector)
    unfolding merge cut_to
    merge-AllStored order limit lexical vector keeps a b =
        let P : Found fl u → Type 0 = λ f. IsStored h filter f.chunk in
        let scores = add_vector-AreStored vector _ b (add_lexical-AreStored lexical [] a tt) in
        let sorted =
          All-sort_by (scores_more fl u sub alpha) P _
            (keeps P _ (results_of-AllStored _ scores)) in
        if_keeps AllStored (is_pos limit) _ _
          (All-take (scores_more fl u sub alpha) P (pos_part limit) _ sorted) sorted

    length-merge :
        (order : List (Found fl u) → List (Found fl u)) (limit : ℤ)
        (lexical vector : List (Found fl u))
        → is_pos limit ≡ true
        → length (merge fl u sub alpha order limit filter lexical vector) ≤ pos_part limit
    unfolding merge cut_to
    length-merge order limit lexical vector p = rw p (
        omega (
          arith,
          length-take (pos_part limit) (
              sort_by (scores_more fl u sub alpha) (
                order (
                  results_of fl u sub alpha (
                    add_vector fl u sub alpha filter vector
                      (add_lexical fl u sub alpha lexical []))))),
        ))

    lexical-AllStored :
        (ended : Option Error) (query : Str) (limit : ℤ) (found : List (Found fl u))
        → search_with_filter fl u ended h.lexical query limit filter ≡ ok found
        → AllStored found
    lexical-AllStored ended query limit found e =
        All-keeps (IsMatch fl u (tokenize u query) filter h.lexical)
          (λ f. IsStored h filter f.chunk) found
          (λ f m. record { kept = m.kept; entry = inl (m.key, m.entry) })
          (search_with_filter-IsMatch fl u ended h.lexical query limit filter found e)

    vector-AllStored :
        (ended : Option Error) (v : Vector fl) (limit : ℤ) (found : List (Found fl u))
        → search_vector_with_filter fl u ended h.vectors v limit filter ≡ ok found
        → AllStored found
    vector-AllStored ended v limit found e =
        All-keeps (IsNear fl u v filter h.vectors) (λ f. IsStored h filter f.chunk) found
          (λ f m. record { kept = m.kept; entry = inr (m.key, m.vector, m.entry) })
          (search_vector_with_filter-IsNear fl u ended h.vectors v limit filter found e).1.1

    abbrev IsAtMost : ℤ → List (Found fl u) → Type 0
    IsAtMost limit found = (is_pos limit ≡ false) ⊎ (length found ≤ pos_part limit)

    merge-IsAtMost :
        (order : List (Found fl u) → List (Found fl u)) (limit : ℤ)
        (lexical vector : List (Found fl u))
        → IsAtMost limit (merge fl u sub alpha order limit filter lexical vector)
    merge-IsAtMost order limit lexical vector = elim (Bool-cases (is_pos limit)) [
      | inl p ↦ inr (length-merge order limit lexical vector p)
      | inr p ↦ inl p
    ]

    -- A merged search returns chunks that match the filter and stand in one of the two indexes, and not
    -- more than a positive limit, in whatever order Go ranges over its maps.
    pub search_hybrid-AllStored :
        (embed : List Str → Result (List (Vector fl))) (ended : Option Error)
        (order : List (Found fl u) → List (Found fl u)) (query : Str) (limit : ℤ)
        (found : List (Found fl u))
        → KeepsAll order
        → search_hybrid fl u sub alpha embed ended order h query limit filter ≡ ok found
        → All (λ f. IsStored h filter f.chunk) found
          × ((is_pos limit ≡ false) ⊎ (length found ≤ pos_part limit))
    unfolding search_hybrid
    search_hybrid-AllStored embed ended order query limit found keeps e =
        elim (Result-cases (query_vector fl u sub alpha (embed (query ∷ [])))) [
          | inr (f, bad) ↦ cc (rw (bad, search_hybrid) at e)
          | inl (v, good) ↦
              elim (Result-cases (search_with_filter fl u ended h.lexical query limit filter)) [
                | inr (f, bad) ↦ cc (rw bad at (rw (good, search_hybrid) at e))
                | inl (lexical, found_lexical) ↦
                    elim (Result-cases
                      (search_vector_with_filter fl u ended h.vectors v limit filter)) [
                        | inr (f, bad) ↦
                            cc (rw bad at (rw found_lexical at (rw (good, search_hybrid) at e)))
                        | inl (vector, found_vector) ↦
                            let q : ok (merge fl u sub alpha order limit filter lexical vector)
                                ≡ ok found =
                              rw found_vector at
                                (rw found_lexical at (rw (good, search_hybrid) at e)) in
                            let same : merge fl u sub alpha order limit filter lexical vector
                                ≡ found =
                              cc q in
                            subst (λ fs. AllStored fs × IsAtMost limit fs) same
                              (
                                merge-AllStored order limit lexical vector keeps
                                    (lexical-AllStored ended query limit lexical found_lexical)
                                    (vector-AllStored ended v limit vector found_vector),
                                merge-IsAtMost order limit lexical vector,
                              )
                      ]
              ]
        ]
