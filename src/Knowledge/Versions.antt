-- ===== src/Knowledge/Versions.antt =====
-- internal/knowledge/importer.go: `VersionStore`. The hash, SHA-256 in hexadecimal, is a parameter.
pub mod Numbered
use cortex_go.Knowledge.Runes.{decimal}
use cortex_go.Knowledge.{Document}
use cortex_go.Prelude.{
  ℕ, ◌+◌, Bool, true, false, Option, none, some, List, [], ◌∷◌, ◌++◌, if◌then◌else◌, length, Str,
  str_eq, Dict, lookup, put,
}

pub record DocumentVersion : Type 0 where
  pub document_id : Str
  pub version : Str
  pub hash : Str
  pub created_at : ℕ
  pub document : Document

-- VersionStore: its map, which NewVersionStore makes empty
abbrev pub Versions : Type 0
Versions = Dict (List DocumentVersion)

-- s.versions[documentID]; List returns a copy of it.
unfoldable pub list_versions : Versions → Str → List DocumentVersion
list_versions s id = elim (lookup id s) [ none ↦ [] | some vs ↦ vs ]

-- fmt.Sprintf("v%d", n)
unfoldable pub version_name : ℕ → Str
version_name n = b'v' ∷ decimal n

-- list[len(list)-1]
unfoldable pub last_version : List DocumentVersion → Option DocumentVersion
last_version [] = none
last_version (v ∷ vs) = elim (last_version vs) [ none ↦ some v | some w ↦ some w ]

module _ (hash : Str → Str) where
  unfoldable pub next_version : ℕ → Document → List DocumentVersion → DocumentVersion
  next_version now d vs = record {
    document_id = d.id;
    version = version_name (length vs + 1);
    hash = hash d.content;
    created_at = now;
    document = d;
  }

  -- The version that is there already.
  unfoldable pub same_version : Document → List DocumentVersion → Option DocumentVersion
  same_version d vs = elim (last_version vs) [
    | none ↦ none
    | some v ↦ if str_eq v.hash (hash d.content) then some v else none
  ]

  -- Add
  unfoldable pub add_version : ℕ → Versions → Document → (DocumentVersion × Bool) × Versions
  add_version now s d =
      let vs = list_versions s d.id in
      elim (same_version d vs) [
        | some v ↦ ((v, false), s)
        | none ↦ ((next_version now d vs, true), put d.id (vs ++ next_version now d vs ∷ []) s)
      ]
