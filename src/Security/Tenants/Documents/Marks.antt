-- ===== src/Security/Tenants/Documents/Marks.antt =====
-- What a tenant finds, and what a tenant's document leaves, in the index in memory.
use cortex_go.Knowledge.Index.Search.{search_with_filter-IsMatch, IsMatch}
use cortex_go.Knowledge.Index.Documents.{add-IsFresh, IsFresh}
use cortex_go.Knowledge.Tokens.{tokenize, Unicode, Float}
use cortex_go.Security.Tenants.Documents.{
  in_memory, add_document, search_own, tenant_key, mark_document,
}
use cortex_go.Knowledge.Index.{Found, InMemoryIndex}
use cortex_go.Errors.{tenant_required, Error, ok, err}
use cortex_go.Knowledge.{holds_value, Document, matches_metadata, has_value, Chunk}
use cortex_go.Security.Tenants.{require_tenant}
use cortex_go.Prelude.{
  ◌≡◌, refl, ◌⊎◌, inl, inr, true, Option, some, List, [], ◌∷◌, arith, Bool-cases, All, All-keeps, ℤ,
  Str, str_eq_refl, trim_space, is_empty, Dict, put, lookup-put,
}

-- The chunk bears the tenant's mark.
abbrev pub IsOwn : Str → Chunk → Type 0
IsOwn t c = holds_value c.metadata tenant_key t ≡ true

str_eq-lookup-put : (t : Str) (m : Dict Str) → has_value (put tenant_key t m) tenant_key t ≡ true
unfolding has_value
str_eq-lookup-put t m =
    rw (lookup-put tenant_key tenant_key t m, has_value)
      (rw (str_eq_refl tenant_key) (str_eq_refl t))

mark_document-IsOwn :
    (t : Str) (d : Document) (c : Chunk) → c.metadata ≡ (mark_document t d).metadata → IsOwn t c
unfolding mark_document
mark_document-IsOwn t d c h = rw h (str_eq-lookup-put t _)

pub require_tenant_cases :
    (t : Str) → ((e : Error) × (require_tenant (some t) ≡ err e)) ⊎ (require_tenant (some t) ≡ ok t)
unfolding require_tenant
require_tenant_cases t = elim (Bool-cases (is_empty (trim_space t))) [
  | inl e ↦ inl (tenant_required, rw e refl)
  | inr n ↦ inr (rw n refl)
]

IsMatch-IsOwn :
    (fl : Float) (u : Unicode) (t : Str) (terms : List Str) (index : InMemoryIndex) (f : Found fl u)
    → IsMatch fl u terms ((tenant_key, t) ∷ []) index f
    → IsOwn t f.chunk
unfolding matches_metadata
IsMatch-IsOwn fl u t terms index f h = ground (arith, h.kept)

module _ (fl : Float) (u : Unicode) (ended : Option Error) (t : Str) (index : InMemoryIndex) where
  -- A tenant's search of the index in memory finds chunks that bear the tenant's mark only,
  -- whatever the index holds, and whatever the query and the limit are.
  pub search_own-IsOwn :
      (query : Str) (limit : ℤ) (found : List (Found fl u))
      → search_own (some t) (in_memory fl u ended) index query limit ≡ ok found
      → All (λ f. IsOwn t f.chunk) found
  unfolding search_own
  search_own-IsOwn query limit found h = elim (require_tenant_cases t) [
    | inl (e, bad) ↦ cc (rw (bad, search_own) at h)
    | inr good ↦
        let filter = (tenant_key, t) ∷ [] in
        All-keeps (IsMatch fl u (tokenize u query) filter index) (λ f. IsOwn t f.chunk) found
          (IsMatch-IsOwn fl u t (tokenize u query) index)
          (search_with_filter-IsMatch fl u ended index query limit filter found
            (rw (good, search_own) at h))
  ]

  -- A document that a tenant adds leaves under each chunk ID what was there, or a chunk that bears
  -- the tenant's mark: so no tenant can add a chunk that another finds.
  pub add_document-IsFresh :
      (d : Document) (key : Str)
      → IsFresh (IsOwn t) key index (add_document (some t) (in_memory fl u ended) index d).1
  unfolding add_document
  add_document-IsFresh d key = elim (require_tenant_cases t) [
    | inl (e, bad) ↦ rw (bad, add_document) (inl refl)
    | inr good ↦
        rw (good, add_document)
          (add-IsFresh (IsOwn t) ended index (mark_document t d) key (mark_document-IsOwn t d))
  ]
