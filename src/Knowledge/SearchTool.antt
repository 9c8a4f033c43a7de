-- ===== src/Knowledge/SearchTool.antt =====
-- internal/knowledge/tool.go: the handler of `SearchTool`, over an index that is an interface.
use cortex_go.Errors.{index_not_configured, Result, ok, err}
use cortex_go.Prelude.{Option, none, some, List, if◌then◌else◌, ℤ, is_pos, Str, Dict, pos}

-- The request that the tool's input holds.
pub record SearchRequest : Type 0 where
  pub query : Str
  pub limit : ℤ
  pub metadata : Dict Str

-- The interface Index, with SearchWithFilter where the index has it.
pub record Searchable (F : Type 0) : Type 0 where
  pub search : Str → ℤ → Result (List F)
  pub search_with_filter : Option (Str → ℤ → Dict Str → Result (List F))

-- encoding/json at the request and at the response
pub record SearchCodec (F : Type 0) : Type 0 where
  pub decode : Str → Result SearchRequest
  pub encode : List F → Result Str

-- if request.Limit <= 0 { request.Limit = 5 }
unfoldable pub tool_limit : ℤ → ℤ
tool_limit limit = if is_pos limit then limit else pos 5

module _ {F : Type 0} where
  unfoldable pub ask_index : Searchable F → SearchRequest → Result (List F)
  ask_index index r = elim index.search_with_filter [
    | some f ↦ f r.query (tool_limit r.limit) r.metadata
    | none ↦ index.search r.query (tool_limit r.limit)
  ]

  -- Handler
  unfoldable pub search_handler : Option (Searchable F) → SearchCodec F → Str → Result Str
  search_handler none codec input = err index_not_configured
  search_handler (some index) codec input = elim (codec.decode input) [
    | err e ↦ err e
    | ok r ↦ elim (ask_index index r) [ err e ↦ err e | ok found ↦ codec.encode found ]
  ]
