-- ===== src/Knowledge/Index/Documents.antt =====
-- What adding and removing a document leave in the index.
use cortex_go.Knowledge.Split.{
  is_bad_overlap, max_of, content_runes, cut_pieces, chunk_of, ChunkOptions, chunks_from,
  split_document,
}
use cortex_go.Errors.{Result-cases, chunk_required, Error, ok}
use cortex_go.Knowledge.Runes.{encode_runes}
use cortex_go.Knowledge.Index.{
  default_options, rounds, add, add_chunk, InMemoryIndex, add_chunks, remove_chunks,
  remove_document,
}
use cortex_go.Knowledge.{Document, Chunk}
use cortex_go.Prelude.{
  ℕ, suc, ◌≡◌, refl, sym, ap, subst, ◌∙◌, ◌↔◌, ◌⊎◌, inl, inr, false, ◌||◌, Option, none, some, List,
  [], ◌∷◌, arith, if◌then◌else◌, Bool-cases, Option-cases, All, All-keeps, pos_part, Str, str_eq,
  trim_space, is_empty, lookup, put, lookup-put, Among, Among-All, here, there,
}

Among-remove_chunks :
    (document k : Str) (c : Chunk) (index : InMemoryIndex)
    → Among (k, c) index
    → str_eq c.document_id document ≡ false
    → Among (k, c) (remove_chunks index document)
unfolding remove_chunks
Among-remove_chunks document k c _ here h = rw (h, remove_chunks) here
Among-remove_chunks document k c _ (there {y = (j, d)} {xs = index} m) h =
    elim (Bool-cases (str_eq d.document_id document)) [
      | inl same ↦ rw (same, remove_chunks) (Among-remove_chunks document k c index m h)
      | inr other ↦ rw (other, remove_chunks) (there (Among-remove_chunks document k c index m h))
    ]

remove_chunks-Stays :
    (document : Str) (index : InMemoryIndex)
    → All
        (λ e. Among e index × (str_eq (e.1).document_id document ≡ false))
        (remove_chunks index document)
unfolding remove_chunks
remove_chunks-Stays document [] = tt
remove_chunks-Stays document ((k, c) ∷ index) =
    let later =
      All-keeps (λ e. Among e index × (str_eq (e.1).document_id document ≡ false))
        (λ e. Among e ((k, c) ∷ index) × (str_eq (e.1).document_id document ≡ false))
        (remove_chunks index document) (λ e h. (there h.0, h.1))
        (remove_chunks-Stays document index) in
    elim (Bool-cases (str_eq c.document_id document)) [
      | inl same ↦ rw (same, remove_chunks) later
      | inr other ↦ rw (other, remove_chunks) ((here, other), later)
    ]

-- After a document is removed, the entries of the index are those from before whose chunk is not of
-- the document.
pub remove_document-Among :
    (index : InMemoryIndex) (document k : Str) (c : Chunk)
    → Among (k, c) (remove_document none index document).1
      ↔ (Among (k, c) index × (str_eq c.document_id document ≡ false))
unfolding remove_document
remove_document-Among index document k c = (
  λ m.
      Among-All (λ e. Among e index × (str_eq (e.1).document_id document ≡ false)) (k, c)
        (remove_chunks index document) (remove_chunks-Stays document index) m,
  λ h. Among-remove_chunks document k c index h.0 h.1,
)

-- The last of the chunks with an ID, if any has it.
abbrev pub last_with : Str → List Chunk → Option Chunk
last_with key [] = none
last_with key (c ∷ cs) = elim (last_with key cs) [
  | some d ↦ some d
  | none ↦ if str_eq c.id key then some c else none
]

-- What is found under a key: the chunk that was added last, or what was there before.
abbrev pub found_of : Option Chunk → Option Chunk → Option Chunk
found_of (some d) old = some d
found_of none old = old

pub add_chunk_cases :
    (index : InMemoryIndex) (c : Chunk)
    → (add_chunk index c ≡ (some chunk_required, index))
      ⊎ (add_chunk index c ≡ (none, put c.id c index))
unfolding add_chunk
add_chunk_cases index c = elim (Bool-cases (is_empty c.id || is_empty (trim_space c.text))) [
  | inl bad ↦ rw (bad, add_chunk) (inl refl)
  | inr good ↦ rw (good, add_chunk) (inr refl)
]

pub add_chunk-put :
    (index : InMemoryIndex) (c : Chunk)
    → (add_chunk index c).0 ≡ none
    → (add_chunk index c).1 ≡ put c.id c index
add_chunk-put index c h = elim (add_chunk_cases index c) [
  | inl bad ↦ cc (sym (ap (λ q. q.0) bad) ∙ h)
  | inr good ↦ ap (λ q. q.1) good
]

found_of-put :
    (key : Str) (c : Chunk) (o : Option Chunk) (index : InMemoryIndex)
    → found_of o (lookup key (put c.id c index))
      ≡ found_of
          (elim o [ some d ↦ some d | none ↦ if str_eq c.id key then some c else none ])
          (lookup key index)
found_of-put key c (some d) index = refl
found_of-put key c none index = lookup-put c.id key c index ∙ ground arith

add_chunks-lookup :
    (key : Str) (cs : List Chunk) (index : InMemoryIndex)
    → (add_chunks index cs).0 ≡ none
    → lookup key (add_chunks index cs).1 ≡ found_of (last_with key cs) (lookup key index)
unfolding add_chunks
add_chunks-lookup key [] index h = refl
add_chunks-lookup key (c ∷ cs) index h = elim (Option-cases (add_chunk index c).0) [
  | inr (e, bad) ↦ cc (rw (bad, add_chunks) at h)
  | inl good ↦
      rw (good, add_chunks)
        (add_chunks-lookup key cs (add_chunk index c).1 (rw (good, add_chunks) at h)
          ∙ ap (λ m. found_of (last_with key cs) (lookup key m)) (add_chunk-put index c good)
          ∙ found_of-put key c (last_with key cs) index)
]

-- After a document is added without an error, a chunk ID is found with the last of the document's
-- chunks that has it; an ID that none of them has is found as before, a chunk of an earlier version
-- of the document too.
pub add-lookup :
    (index : InMemoryIndex) (d : Document) (chunks : List Chunk) (key : Str)
    → split_document (rounds d) d default_options ≡ ok chunks
    → (add none index d).0 ≡ none
    → lookup key (add none index d).1 ≡ found_of (last_with key chunks) (lookup key index)
unfolding add
add-lookup index d chunks key split fine =
    rw (split, add) (add_chunks-lookup key chunks index (rw (split, add) at fine))

chunks_from-metadata :
    (d : Document) (n : ℕ) (ps : List (List ℕ))
    → All (λ c. c.metadata ≡ d.metadata) (chunks_from d n ps)
unfolding chunks_from chunk_of
chunks_from-metadata d n [] = tt
chunks_from-metadata d n (p ∷ ps) = elim (Bool-cases (is_empty (trim_space (encode_runes p)))) [
  | inl e ↦ rw (e, chunks_from) (chunks_from-metadata d (suc n) ps)
  | inr n' ↦ rw (n', chunks_from) (refl, chunks_from-metadata d (suc n) ps)
]

split_document-metadata :
    (fuel : ℕ) (d : Document) (o : ChunkOptions) (chunks : List Chunk)
    → split_document fuel d o ≡ ok chunks
    → All (λ c. c.metadata ≡ d.metadata) chunks
unfolding split_document
split_document-metadata fuel d o chunks h =
    let cut = cut_pieces (content_runes d) (max_of o) (pos_part o.overlap) fuel 0 in
    elim (Bool-cases (is_empty (trim_space d.id))) [
      | inl e ↦ cc (rw (e, split_document) at h)
      | inr has_id ↦ elim (Bool-cases (is_empty (trim_space d.content))) [
        | inl e ↦ cc (rw e at (rw (has_id, split_document) at h))
        | inr has_content ↦ elim (Bool-cases (is_bad_overlap o)) [
          | inl e ↦ cc (rw e at (rw has_content at (rw (has_id, split_document) at h)))
          | inr fits ↦
              let h' = rw fits at (rw has_content at (rw (has_id, split_document) at h)) in
              elim (Result-cases cut) [
                | inr (e, bad) ↦ cc (rw bad at h')
                | inl (pieces, good) ↦
                    subst (All (λ c. c.metadata ≡ d.metadata)) (cc (rw good at h'))
                      (chunks_from-metadata d 0 pieces)
              ]
        ]
      ]
    ]

-- What is found under a key is as before, or it is a chunk that was added.
abbrev pub IsFresh {κ} : (Chunk → Type κ) → Str → InMemoryIndex → InMemoryIndex → Type κ
IsFresh P key old new =
    (lookup key new ≡ lookup key old) ⊎ ((c : Chunk) × (lookup key new ≡ some c) × P c)

add_chunks-IsFresh :
    (P : Chunk → Type 0) (key : Str) (cs : List Chunk) (index : InMemoryIndex)
    → All P cs
    → IsFresh P key index (add_chunks index cs).1
unfolding add_chunks
add_chunks-IsFresh P key [] index h = inl refl
add_chunks-IsFresh P key (c ∷ cs) index h = elim (add_chunk_cases index c) [
  | inl bad ↦ rw (ap (λ q. q.0) bad, add_chunks) (inl (ap (λ q. lookup key q.1) bad))
  | inr good ↦
      let old = ap (λ q. lookup key q.1) good ∙ lookup-put c.id key c index in
      rw (ap (λ q. q.0) good, add_chunks)
        (elim (add_chunks-IsFresh P key cs (add_chunk index c).1 h.1) [
          | inr fresh ↦ inr fresh
          | inl same ↦ elim (Bool-cases (str_eq c.id key)) [
            | inl e ↦ inr (c, same ∙ old ∙ ap (λ b. if b then some c else lookup key index) e, h.0)
            | inr n ↦ inl (same ∙ old ∙ ap (λ b. if b then some c else lookup key index) n)
          ]
        ])
]

pub add-IsFresh :
    (P : Chunk → Type 0) (ended : Option Error) (index : InMemoryIndex) (d : Document) (key : Str)
    → ((c : Chunk) → c.metadata ≡ d.metadata → P c)
    → IsFresh P key index (add ended index d).1
unfolding add
add-IsFresh P (some e) index d key f = inl refl
add-IsFresh P none index d key f =
    elim (Result-cases (split_document (rounds d) d default_options)) [
      | inr (e, bad) ↦ rw (bad, add) (inl refl)
      | inl (chunks, good) ↦
          rw (good, add)
            (add_chunks-IsFresh P key chunks index (
              All-keeps (λ c. c.metadata ≡ d.metadata) P chunks f
                (split_document-metadata (rounds d) d default_options chunks good)))
    ]
