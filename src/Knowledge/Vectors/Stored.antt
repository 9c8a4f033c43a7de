-- ===== src/Knowledge/Vectors/Stored.antt =====
-- What storing vectors leaves.
use cortex_go.Knowledge.Vectors.{
  Vector, check_vectors, is_unusable, upsert, remove_entries, store_vectors, VectorEntries,
}
use cortex_go.Errors.{Error}
use cortex_go.Knowledge.{Chunk}
use cortex_go.Knowledge.Tokens.{Float}
use cortex_go.Prelude.{
  ℕ, suc, ◌≡◌, refl, ◌⊎◌, inl, inr, false, Option, none, some, List, [], ◌∷◌, arith, ◌==◌,
  Bool-cases, Option-cases, length, All, Str, str_eq, put, All-put,
}

module _ (fl : Float) where
  -- Every vector that is stored can be compared.
  abbrev pub AreUsable : VectorEntries fl → Type 0
  AreUsable m = All (λ e. is_unusable fl (e.1).1 ≡ false) m

  store_vectors-AreUsable :
      (n : ℕ) (m : VectorEntries fl) (cs : List Chunk) (vs : List (Vector fl))
      → check_vectors fl n vs ≡ none
      → AreUsable m
      → AreUsable (store_vectors fl m cs vs)
  unfolding store_vectors check_vectors
  store_vectors-AreUsable n m [] vs h hs = hs
  store_vectors-AreUsable n m (c ∷ cs) [] h hs = hs
  store_vectors-AreUsable n m (c ∷ cs) (v ∷ vs) h hs = elim (Bool-cases (is_unusable fl v)) [
    | inl bad ↦ cc (rw (bad, check_vectors) at h)
    | inr good ↦
        store_vectors-AreUsable (suc n) (put c.id (c, v) m) cs vs (rw (good, check_vectors) at h)
          (All-put (λ e. is_unusable fl (e.1).1 ≡ false) c.id (c, v) m good hs)
  ]

  remove_entries-AreUsable :
      (m : VectorEntries fl) (document : Str)
      → AreUsable m
      → AreUsable (remove_entries fl m document)
  unfolding remove_entries
  remove_entries-AreUsable [] document h = tt
  remove_entries-AreUsable ((k, e) ∷ m) document h =
      elim (Bool-cases (str_eq (e.0).document_id document)) [
        | inl same ↦ rw (same, remove_entries) (remove_entries-AreUsable m document h.1)
        | inr other ↦ rw (other, remove_entries) (h.0, remove_entries-AreUsable m document h.1)
      ]

  -- Storing vectors leaves the index as it was where it fails, with the length of a list, a vector
  -- that is empty or zero, or the context; and where it does not fail, as long as the lists are; and
  -- either way every vector of the index stays one that is not empty nor zero.
  pub upsert-AreUsable :
      (ended : Option Error) (m : VectorEntries fl) (cs : List Chunk) (vs : List (Vector fl))
      → AreUsable m
      → (((upsert fl ended m cs vs).1 ≡ m)
          ⊎ (((upsert fl ended m cs vs).0 ≡ none) × (length cs ≡ length vs)))
        × AreUsable (upsert fl ended m cs vs).1
  unfolding upsert
  upsert-AreUsable (some e) m cs vs h = (inl refl, h)
  upsert-AreUsable none m cs vs h = elim (Bool-cases (length cs == length vs)) [
    | inr other ↦ rw (other, upsert) (inl refl, h)
    | inl same ↦ elim (Option-cases (check_vectors fl 0 vs)) [
      | inr (e, bad) ↦ rw (same, upsert) (rw bad (inl refl, h))
      | inl good ↦
          rw (same, upsert)
            (rw good (inr (refl, ground arith), store_vectors-AreUsable 0 m cs vs good h))
    ]
  ]
