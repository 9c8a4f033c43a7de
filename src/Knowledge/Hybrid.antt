-- ===== src/Knowledge/Hybrid.antt =====
-- internal/knowledge/vector.go: adding to and removing from a `HybridIndex`, over the two indexes in
-- memory. The model of embeddings is a parameter.
pub mod Same
pub mod Merge
use cortex_go.Knowledge.Vectors.{upsert, VectorEntries, Vector}
use cortex_go.Errors.{embed_failed, Error, Result, ok, err}
use cortex_go.Knowledge.Index.{default_options, InMemoryIndex, rounds}
use cortex_go.Knowledge.Split.{split_document}
use cortex_go.Knowledge.{Document, Chunk}
use cortex_go.Knowledge.Tokens.{Float}
use cortex_go.Knowledge.Index
use cortex_go.Knowledge.Vectors
use cortex_go.Prelude.{Option, none, some, List, map, Str}

pub record HybridIndex (fl : Float) : Type 0 where
  pub lexical : InMemoryIndex
  pub vectors : VectorEntries fl

-- texts[n] = chunks[n].Text
abbrev pub texts_of : List Chunk → List Str
texts_of chunks = map (λ c. c.text) chunks

module _ (fl : Float) (embed : List Str → Result (List (Vector fl))) (ended : Option Error) where
  unfoldable pub remove_hybrid : HybridIndex fl → Str → Option Error × HybridIndex fl
  remove_hybrid h document = elim ended [
    | some e ↦ (some e, h)
    | none ↦ (
      none,
      record {
        lexical = (Index.remove_document none h.lexical document).1;
        vectors = (Vectors.remove_document fl none h.vectors document).1;
      },
    )
  ]

  -- Add, behind the removal.
  unfoldable pub add_removed : HybridIndex fl → Document → Option Error × HybridIndex fl
  add_removed h d = elim (split_document (rounds d) d default_options) [
    | err e ↦ (some e, h)
    | ok chunks ↦ elim (embed (texts_of chunks)) [
      | err e ↦ (some (embed_failed e), h)
      | ok vectors ↦ elim (upsert fl ended h.vectors chunks vectors).0 [
        | some e ↦ (some e, h)
        | none ↦ (
          (Index.add ended h.lexical d).0,
          record {
            lexical = (Index.add ended h.lexical d).1;
            vectors = (upsert fl ended h.vectors chunks vectors).1;
          },
        )
      ]
    ]
  ]

  unfoldable pub add_hybrid : HybridIndex fl → Document → Option Error × HybridIndex fl
  add_hybrid h d = elim (remove_hybrid h d.id).0 [
    | some e ↦ (some e, (remove_hybrid h d.id).1)
    | none ↦ add_removed (remove_hybrid h d.id).1 d
  ]
