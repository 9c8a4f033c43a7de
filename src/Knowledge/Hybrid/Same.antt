-- ===== src/Knowledge/Hybrid/Same.antt =====
-- The two indexes of a hybrid index hold the same chunks.
use cortex_go.Errors.{ok, Result-cases, Result, Error}
use cortex_go.Knowledge.Hybrid.{
  texts_of, rounds, add_hybrid, add_removed, remove_hybrid, HybridIndex,
}
use cortex_go.Knowledge.Index.{
  default_options, add, add_chunk, InMemoryIndex, remove_chunks, add_chunks,
}
use cortex_go.Knowledge.Split.{split_document}
use cortex_go.Knowledge.{Document, Chunk}
use cortex_go.Knowledge.Index
use cortex_go.Knowledge.Vectors
use cortex_go.Knowledge.Index.Documents.{add_chunk-put}
use cortex_go.Knowledge.Vectors.{
  check_vectors, Vector, VectorEntries, remove_entries, store_vectors, upsert,
}
use cortex_go.Knowledge.Tokens.{Float}
use cortex_go.Prelude.{
  ◌≡◌, refl, sym, ap, ◌∙◌, inl, inr, Option, none, some, List, [], ◌∷◌, map, arith, ◌==◌,
  Bool-cases, Option-cases, length, Str, str_eq, put,
}

module _ (fl : Float) where
  -- The entries without their vectors.
  abbrev pub chunks_of : VectorEntries fl → InMemoryIndex
  chunks_of m = map (λ e. (e.0, (e.1).0)) m

  abbrev pub AreSame : HybridIndex fl → Type 0
  AreSame h = chunks_of h.vectors ≡ h.lexical

  chunks_of-remove :
      (m : VectorEntries fl) (document : Str)
      → chunks_of (remove_entries fl m document) ≡ remove_chunks (chunks_of m) document
  unfolding remove_entries remove_chunks
  chunks_of-remove [] document = refl
  chunks_of-remove ((k, e) ∷ m) document = elim (Bool-cases (str_eq (e.0).document_id document)) [
    | inl same ↦ rw same (chunks_of-remove m document)
    | inr other ↦ rw other (ap (◌∷◌ (k, e.0)) (chunks_of-remove m document))
  ]

  chunks_of-put :
      (k : Str) (c : Chunk) (v : Vector fl) (m : VectorEntries fl)
      → chunks_of (put k (c, v) m) ≡ put k c (chunks_of m)
  unfolding put
  chunks_of-put k c v [] = refl
  chunks_of-put k c v ((j, d) ∷ m) = elim (Bool-cases (str_eq j k)) [
    | inl same ↦ rw same refl
    | inr other ↦ rw other (ap (◌∷◌ (j, d.0)) (chunks_of-put k c v m))
  ]

  chunks_of-store :
      (cs : List Chunk) (vs : List (Vector fl)) (m : VectorEntries fl) (index : InMemoryIndex)
      → length cs ≡ length vs
      → (add_chunks index cs).0 ≡ none
      → chunks_of m ≡ index
      → chunks_of (store_vectors fl m cs vs) ≡ (add_chunks index cs).1
  unfolding store_vectors add_chunks
  chunks_of-store [] vs m index n h e = e
  chunks_of-store (c ∷ cs) [] m index n h e = absurd (omega arith)
  chunks_of-store (c ∷ cs) (v ∷ vs) m index n h e = elim (Option-cases (add_chunk index c).0) [
    | inr (why, bad) ↦ cc (rw (bad, add_chunks) at h)
    | inl good ↦
        rw (good, add_chunks)
          (chunks_of-store cs vs (put c.id (c, v) m) (add_chunk index c).1 (omega arith)
            (rw (good, add_chunks) at h)
            (chunks_of-put c.id c v m ∙ ap (put c.id c) e ∙ sym (add_chunk-put index c good)))
  ]

  upsert-none :
      (ended : Option Error) (m : VectorEntries fl) (cs : List Chunk) (vs : List (Vector fl))
      → (upsert fl ended m cs vs).0 ≡ none
      → (ended ≡ none)
        × ((length cs ≡ length vs) × ((upsert fl ended m cs vs).1 ≡ store_vectors fl m cs vs))
  unfolding upsert
  upsert-none (some e) m cs vs h = cc h
  upsert-none none m cs vs h = elim (Bool-cases (length cs == length vs)) [
    | inr other ↦ cc (rw (other, upsert) at h)
    | inl same ↦ elim (Option-cases (check_vectors fl 0 vs)) [
      | inr (e, bad) ↦ cc (rw bad at (rw (same, upsert) at h))
      | inl good ↦ rw (same, upsert) (rw good (refl, (ground arith, refl)))
    ]
  ]

  add-none :
      (index : InMemoryIndex) (d : Document) (chunks : List Chunk)
      → split_document (rounds d) d default_options ≡ ok chunks
      → add none index d ≡ add_chunks index chunks
  unfolding add
  add-none index d chunks h = rw (h, add) refl

  module _ (embed : List Str → Result (List (Vector fl))) where
    added_same :
        (h : HybridIndex fl) (d : Document) (chunks : List Chunk) (vs : List (Vector fl))
        → split_document (rounds d) d default_options ≡ ok chunks
        → (upsert fl none h.vectors chunks vs).0 ≡ none
        → (add none h.lexical d).0 ≡ none
        → AreSame h
        → chunks_of (upsert fl none h.vectors chunks vs).1 ≡ (add none h.lexical d).1
    added_same h d chunks vs split stored fine same =
        let (p, (n, e)) = upsert-none none h.vectors chunks vs stored in
        let q = add-none h.lexical d chunks split in
        ap chunks_of e
        ∙ chunks_of-store chunks vs h.vectors h.lexical n (sym (ap (λ r. r.0) q) ∙ fine) same
        ∙ sym (ap (λ r. r.1) q)

    add_removed-AreSame :
        (h : HybridIndex fl) (d : Document)
        → AreSame h
        → (add_removed fl embed none h d).0 ≡ none
        → AreSame (add_removed fl embed none h d).1
    unfolding add_removed
    add_removed-AreSame h d same fine =
        elim (Result-cases (split_document (rounds d) d default_options)) [
          | inr (e, bad) ↦ cc (rw (bad, add_removed) at fine)
          | inl (chunks, split) ↦ elim (Result-cases (embed (texts_of chunks))) [
            | inr (e, bad) ↦ cc (rw bad at (rw (split, add_removed) at fine))
            | inl (vs, embedded) ↦
                let fine' = rw embedded at (rw (split, add_removed) at fine) in
                elim (Option-cases (upsert fl none h.vectors chunks vs).0) [
                  | inr (e, bad) ↦ cc (rw bad at fine')
                  | inl stored ↦
                      rw (split, add_removed)
                        (rw embedded (
                          rw stored
                            (added_same h d chunks vs split stored (rw stored at fine') same)))
                ]
          ]
        ]

    remove_hybrid-AreSame :
        (ended : Option Error) (h : HybridIndex fl) (document : Str)
        → AreSame h
        → AreSame (remove_hybrid fl embed ended h document).1
    unfolding remove_hybrid Index.remove_document Vectors.remove_document
    remove_hybrid-AreSame (some e) h document same = same
    remove_hybrid-AreSame none h document same =
        chunks_of-remove h.vectors document ∙ ap (λ m. remove_chunks m document) same

    -- The keyword index and the vector index of a hybrid index, where they hold the same chunks under
    -- the same IDs, hold the same chunks after a document is removed, and after one is added without
    -- an error.
    pub add_hybrid-AreSame :
        (ended : Option Error) (h : HybridIndex fl) (d : Document)
        → AreSame h
        → (add_hybrid fl embed ended h d).0 ≡ none
        → AreSame (remove_hybrid fl embed ended h d.id).1
          × AreSame (add_hybrid fl embed ended h d).1
    unfolding add_hybrid remove_hybrid
    add_hybrid-AreSame (some e) h d same fine = cc fine
    add_hybrid-AreSame none h d same fine =
        let removed = remove_hybrid-AreSame none h d.id same in
        (removed, add_removed-AreSame _ d removed fine)
