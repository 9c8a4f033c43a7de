-- ===== src/Security/Tenants/Vectors/Own.antt =====
-- What a tenant finds by a vector.
use cortex_go.Knowledge.Vectors.Search.{search_vector_with_filter-IsNear, IsNear}
use cortex_go.Security.Tenants.Documents.Marks.{require_tenant_cases, IsOwn}
use cortex_go.Knowledge.Vectors.{Vector, VectorEntries}
use cortex_go.Errors.{Error, ok}
use cortex_go.Knowledge.{holds_value, Metadata, matches_metadata}
use cortex_go.Security.Tenants.Documents.{tenant_key}
use cortex_go.Knowledge.Tokens.{Unicode, Float}
use cortex_go.Security.Tenants.Vectors.{search_vector_filtered}
use cortex_go.Knowledge.Index.{Found}
use cortex_go.Prelude.{
  ◌≡◌, inl, inr, true, Option, some, List, [], ◌∷◌, arith, Bool-cases, All, All-keeps, ℤ, Str,
  str_eq, Dict, put,
}

matches_metadata-put :
    (metadata : Metadata) (t : Str) (filter : Dict Str)
    → matches_metadata metadata (put tenant_key t filter) ≡ true
    → holds_value metadata tenant_key t ≡ true
unfolding matches_metadata put
matches_metadata-put metadata t [] h = ground arith
matches_metadata-put metadata t ((k, v) ∷ filter) h = elim (Bool-cases (str_eq k tenant_key)) [
  | inl same ↦ (let h' = rw (same, put) at h in ground arith)
  | inr other ↦
      let h' = rw (other, put) at h in matches_metadata-put metadata t filter (ground arith)
]

-- A tenant's search by a vector finds chunks that bear the tenant's mark only, with a filter of the
-- caller's or without one, also where that filter names another tenant.
pub search_vector_filtered-IsOwn :
    (fl : Float) (u : Unicode) (ended : Option Error) (t : Str) (m : VectorEntries fl)
    (query : Vector fl) (limit : ℤ) (filter : Dict Str) (found : List (Found fl u))
    → search_vector_filtered fl (some t) ended u m query limit filter ≡ ok found
    → All (λ f. IsOwn t f.chunk) found
unfolding search_vector_filtered
search_vector_filtered-IsOwn fl u ended t m query limit filter found h =
    elim (require_tenant_cases t) [
      | inl (e, bad) ↦ cc (rw (bad, search_vector_filtered) at h)
      | inr good ↦
          let full = put tenant_key t filter in
          All-keeps (IsNear fl u query full m) (λ f. IsOwn t f.chunk) found
            (λ f n. matches_metadata-put f.chunk.metadata t filter n.kept)
            ((search_vector_with_filter-IsNear fl u ended m query limit full found
              (rw (good, search_vector_filtered) at h)).1.1)
    ]
