-- ===== src/Security/Tenants/Vectors.antt =====
-- internal/security/tenant.go: `TenantVector`, an index of vectors that marks chunks with the tenant of
-- the context and searches for that mark, over the one in memory.
pub mod Own
use cortex_go.Knowledge.Vectors.{upsert, search_vector_with_filter, Vector, VectorEntries}
use cortex_go.Security.Tenants.{require_tenant}
use cortex_go.Errors.{Result, Error, ok, err}
use cortex_go.Knowledge.Tokens.{Unicode, Float}
use cortex_go.Security.Tenants.Documents.{tenant_key}
use cortex_go.Knowledge.{Chunk}
use cortex_go.Knowledge.Vectors
use cortex_go.Knowledge.Index.{Found}
use cortex_go.Prelude.{Option, none, some, List, [], ◌∷◌, map, ℤ, Str, Dict, put}

-- chunks[n].Metadata["tenant_id"] = t
unfoldable pub mark_chunk : Str → Chunk → Chunk
mark_chunk t c = record c {
  metadata = some (put tenant_key t (elim c.metadata [ none ↦ [] | some m ↦ m ]));
}

module _ (fl : Float) (ctx : Option Str) (ended : Option Error) where
  unfoldable pub upsert_own :
      VectorEntries fl → List Chunk → List (Vector fl) → Option Error × VectorEntries fl
  upsert_own m cs vs = elim (require_tenant ctx) [
    | err e ↦ (some e, m)
    | ok t ↦ upsert fl ended m (map (mark_chunk t) cs) vs
  ]

  -- The tenant is not asked for.
  unfoldable pub remove_any : VectorEntries fl → Str → Option Error × VectorEntries fl
  remove_any m document = Vectors.remove_document fl ended m document

  module _ (u : Unicode) where
    unfoldable pub search_vector : VectorEntries fl → Vector fl → ℤ → Result (List (Found fl u))
    search_vector m query limit = elim (require_tenant ctx) [
      | err e ↦ err e
      | ok t ↦ search_vector_with_filter fl u ended m query limit ((tenant_key, t) ∷ [])
    ]

    -- The mark replaces what the caller's filter says of it.
    unfoldable pub search_vector_filtered :
        VectorEntries fl → Vector fl → ℤ → Dict Str → Result (List (Found fl u))
    search_vector_filtered m query limit filter = elim (require_tenant ctx) [
      | err e ↦ err e
      | ok t ↦ search_vector_with_filter fl u ended m query limit (put tenant_key t filter)
    ]
