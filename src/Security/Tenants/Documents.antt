-- ===== src/Security/Tenants/Documents.antt =====
-- internal/security/tenant.go: `TenantIndex`, an index that marks documents with the tenant of the
-- context and searches for that mark.
pub mod Marks
use cortex_go.Errors.{index_unfiltered, ok, err, Error, Result}
use cortex_go.Knowledge.Index.{search_with_filter, add, Found, InMemoryIndex}
use cortex_go.Knowledge.Tokens.{Unicode, Float}
use cortex_go.Security.Tenants.{require_tenant}
use cortex_go.Knowledge.{Document}
use cortex_go.Prelude.{Option, none, some, List, [], ◌∷◌, ℤ, Str, bytes, Dict, put}

-- knowledge.Index, and knowledge.FilteredIndex where the index has it; the context is the error that
-- it gives.
pub record Index (M R : Type 0) : Type 0 where
  pub add : M → Document → Option Error × M
  pub filtered : Option (M → Str → ℤ → Dict Str → Result (List R))

unfoldable pub tenant_key : Str
tenant_key = bytes "tenant_id"

-- doc.Metadata["tenant_id"] = t, of a new map if there was none
unfoldable pub mark_document : Str → Document → Document
mark_document t d = record d {
  metadata = some (put tenant_key t (elim d.metadata [ none ↦ [] | some m ↦ m ]));
}

module _ {M R : Type 0} (ctx : Option Str) (index : Index M R) where
  unfoldable pub add_document : M → Document → Option Error × M
  add_document m d = elim (require_tenant ctx) [
    | err e ↦ (some e, m)
    | ok t ↦ index.add m (mark_document t d)
  ]

  unfoldable pub search_own : M → Str → ℤ → Result (List R)
  search_own m query limit = elim (require_tenant ctx) [
    | err e ↦ err e
    | ok t ↦ elim index.filtered [
      | none ↦ err index_unfiltered
      | some f ↦ f m query limit ((tenant_key, t) ∷ [])
    ]
  ]

-- The index in memory, of a context that has ended or has not.
abbrev pub in_memory : (fl : Float) (u : Unicode) → Option Error → Index InMemoryIndex (Found fl u)
in_memory fl u ended = record { add = add ended; filtered = some (search_with_filter fl u ended) }
