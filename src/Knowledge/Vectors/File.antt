-- ===== src/Knowledge/Vectors/File.antt =====
-- internal/knowledge/persistent.go: `FileVectorIndex`, the entries in one JSON document. What fails
-- outside is an argument, as for the file of sessions, with the same errors.
pub mod Reopened
use cortex_go.Errors.{
  rename_failed, decode_failed, read_failed, write_failed, zero_vector, length_mismatch,
  path_required, directory_failed, invalid_entry, encode_failed, Result, Error, ok, err,
}
use cortex_go.Knowledge.Vectors.{is_unusable, Vector, remove_entries, VectorEntries}
use cortex_go.Knowledge.{Chunk}
use cortex_go.Knowledge.Tokens.{Float}
use cortex_go.Memory.Sessions.File.{Conditions}
use cortex_go.Prelude.{
  ℕ, suc, not, ◌||◌, Option, none, some, List, [], ◌∷◌, ◌==◌, if◌then◌else◌, length, Str, is_empty,
  put,
}

-- encoding/json at the type of the entries; `T` is the type of what a file holds.
pub record VectorCodec (fl : Float) (T : Type 0) : Type 0 where
  pub encode : VectorEntries fl → Result T
  pub decode : T → Result (VectorEntries fl)

pub record FileVectorIndex (fl : Float) (T : Type 0) : Type 0 where
  pub entries : VectorEntries fl
  pub file : Option T
  pub temporary : Option T

module _ {fl : Float} {T : Type 0} (codec : VectorCodec fl T) where
  -- The loop over what was stored.
  unfoldable pub check_entries : VectorEntries fl → Option Error
  check_entries [] = none
  check_entries ((k, e) ∷ m) =
      let rest = check_entries m in
      if is_empty e.1 || is_empty (e.0).id then some (invalid_entry k) else rest

  -- `failure` is an error of os.ReadFile other than that the file is not there.
  unfoldable pub open_vector_index : Str → Option Error → Option T → Result (FileVectorIndex fl T)
  open_vector_index path failure file = if is_empty path then err path_required else elim file [
    | none ↦ ok (record { entries = []; file = none; temporary = none })
    | some text ↦ elim failure [
      | some e ↦ err (read_failed e)
      | none ↦ elim (codec.decode text) [
        | err e ↦ err (decode_failed e)
        | ok stored ↦ elim (check_entries stored) [
          | some e ↦ err e
          | none ↦ ok (record { entries = stored; file = some text; temporary = none })
        ]
      ]
    ]
  ]

  unfoldable pub persist_vectors :
      Conditions T → FileVectorIndex fl T → Option Error × FileVectorIndex fl T
  persist_vectors c s = elim (codec.encode s.entries) [
    | err e ↦ (some (encode_failed e), s)
    | ok text ↦ elim c.directory [
      | some e ↦ (some (directory_failed e), s)
      | none ↦ elim c.write [
        | some e ↦ (some (write_failed e), record s { temporary = c.torn })
        | none ↦ elim c.rename [
          | some e ↦ (some (rename_failed e), record s { temporary = some text })
          | none ↦ (none, record s { file = some text; temporary = none })
        ]
      ]
    ]
  ]

  -- The loop that tests each vector and stores it; an error leaves what was stored before it.
  unfoldable pub store_checked :
      ℕ → VectorEntries fl → List Chunk → List (Vector fl) → Option Error × VectorEntries fl
  store_checked n m [] vs = (none, m)
  store_checked n m (c ∷ cs) [] = (none, m)
  store_checked n m (c ∷ cs) (v ∷ vs) =
      let rest = store_checked (suc n) (put c.id (c, v) m) cs vs in
      if is_unusable fl v then (some (zero_vector n), m) else rest

  unfoldable pub upsert_file :
      Conditions T
      → FileVectorIndex fl T
      → List Chunk
      → List (Vector fl)
      → Option Error × FileVectorIndex fl T
  upsert_file c s cs vs = elim c.canceled [
    | some e ↦ (some e, s)
    | none ↦
        if not (length cs == length vs)
        then (some length_mismatch, s)
        else elim (store_checked 0 s.entries cs vs).0 [
          | some e ↦ (some e, record s { entries = (store_checked 0 s.entries cs vs).1 })
          | none ↦ persist_vectors c (record s { entries = (store_checked 0 s.entries cs vs).1 })
        ]
  ]

  unfoldable pub remove_from_file :
      Conditions T → FileVectorIndex fl T → Str → Option Error × FileVectorIndex fl T
  remove_from_file c s document = elim c.canceled [
    | some e ↦ (some e, s)
    | none ↦ persist_vectors c (record s { entries = remove_entries fl s.entries document })
  ]
