-- ===== src/Knowledge.antt =====
-- internal/knowledge/knowledge.go: documents, chunks and their metadata.
pub mod Runes
pub mod Split
pub mod Tokens
pub mod Index
pub mod Vectors
pub mod Hybrid
pub mod Versions
pub mod Importer
pub mod Loader
pub mod SearchTool
use cortex_go.Prelude.{
  ℕ, Bool, true, false, Option, none, some, [], ◌∷◌, if◌then◌else◌, Str, str_eq, is_empty, Dict,
  lookup,
}

-- map[string]string, `none` for a nil map
abbrev pub Metadata : Type 0
Metadata = Option (Dict Str)

pub record Document : Type 0 where
  pub id : Str
  pub title : Str
  pub content : Str
  pub metadata : Metadata

pub record Chunk : Type 0 where
  pub id : Str
  pub document_id : Str
  pub title : Str
  pub text : Str
  pub ordinal : ℕ
  pub metadata : Metadata

-- metadata[key] == value, of a map that is not nil
unfoldable pub has_value : Dict Str → Str → Str → Bool
has_value m key value = elim (lookup key m) [ none ↦ is_empty value | some v ↦ str_eq v value ]

abbrev pub holds_value : Metadata → Str → Str → Bool
holds_value none key value = false
holds_value (some m) key value = has_value m key value

-- matchesMetadata; a filter is a map too, and a nil one is empty
unfoldable pub matches_metadata : Metadata → Dict Str → Bool
matches_metadata metadata [] = true
matches_metadata metadata ((key, value) ∷ filter) =
    let rest = matches_metadata metadata filter in
    if holds_value metadata key value then rest else false
