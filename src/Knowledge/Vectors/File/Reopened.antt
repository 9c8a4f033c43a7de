-- ===== src/Knowledge/Vectors/File/Reopened.antt =====
-- What is in the file after an operation, and when it can be opened again.
use cortex_go.Errors.{
  rename_failed, write_failed, length_mismatch, directory_failed, encode_failed, Error,
  Result-cases, ok,
}
use cortex_go.Knowledge.Vectors.File.{
  store_checked, check_entries, upsert_file, FileVectorIndex, persist_vectors, open_vector_index,
  VectorCodec,
}
use cortex_go.Knowledge.Vectors.{Vector, VectorEntries}
use cortex_go.Knowledge.{Chunk}
use cortex_go.Knowledge.Tokens.{Float}
use cortex_go.Memory.Sessions.File.{Conditions}
use cortex_go.Prelude.{
  ◌≡◌, refl, ◌⊎◌, inl, inr, true, false, ◌||◌, Option, none, some, List, [], ◌∷◌, arith, ◌==◌,
  Bool-cases, Option-cases, length, Str, is_empty, Among,
}

module _ {fl : Float} {T : Type 0} (codec : VectorCodec fl T) where
  -- The operation failed and the file is as it was, or it did not fail and the file holds the
  -- entries.
  pub data Writes (s s' : FileVectorIndex fl T) : Option Error → Type 0 where
    kept : (e : Error) → s'.file ≡ s.file → Writes s s' (some e)
    written : (t : T) → codec.encode s'.entries ≡ ok t → s'.file ≡ some t → Writes s s' none

  persist_vectors-Writes :
      (c : Conditions T) (s : FileVectorIndex fl T)
      → Writes s (persist_vectors codec c s).1 (persist_vectors codec c s).0
  unfolding persist_vectors
  persist_vectors-Writes c s = elim (Result-cases (codec.encode s.entries)) [
    | inr (e, bad) ↦ rw (bad, persist_vectors) (kept (encode_failed e) refl)
    | inl (t, good) ↦ elim (Option-cases c.directory) [
      | inr (e, d) ↦ rw (good, persist_vectors) (rw d (kept (directory_failed e) refl))
      | inl d ↦ elim (Option-cases c.write) [
        | inr (e, w) ↦ rw (good, persist_vectors) (rw d (rw w (kept (write_failed e) refl)))
        | inl w ↦ elim (Option-cases c.rename) [
          | inr (e, r) ↦
              rw (good, persist_vectors) (rw d (rw w (rw r (kept (rename_failed e) refl))))
          | inl r ↦ rw (good, persist_vectors) (rw d (rw w (rw r (written t good refl))))
        ]
      ]
    ]
  ]

  Writes-entries :
      (s : FileVectorIndex fl T) (m : VectorEntries fl) (s' : FileVectorIndex fl T)
      (o : Option Error)
      → Writes (record s { entries = m }) s' o
      → Writes s s' o
  Writes-entries s m s' _ (kept e p) = kept e p
  Writes-entries s m s' _ (written t p q) = written t p q

  upsert_file-Writes :
      (c : Conditions T) (s : FileVectorIndex fl T) (cs : List Chunk) (vs : List (Vector fl))
      → Writes s (upsert_file codec c s cs vs).1 (upsert_file codec c s cs vs).0
  unfolding upsert_file
  upsert_file-Writes c s cs vs = elim (Option-cases c.canceled) [
    | inr (e, ended) ↦ rw (ended, upsert_file) (kept e refl)
    | inl going ↦ elim (Bool-cases (length cs == length vs)) [
      | inr other ↦ rw (going, upsert_file) (rw other (kept length_mismatch refl))
      | inl same ↦
          let m = (store_checked codec 0 s.entries cs vs).1 in
          elim (Option-cases (store_checked codec 0 s.entries cs vs).0) [
            | inr (e, bad) ↦ rw (going, upsert_file) (rw same (rw bad (kept e refl)))
            | inl good ↦
                rw (going, upsert_file)
                  (rw same (
                    rw good (
                      Writes-entries s m _ _
                        (persist_vectors-Writes c (record s { entries = m })))))
          ]
    ]
  ]

  -- What encoding/json documents of its two functions: `settled` is what a text keeps of the entries,
  -- which replaces bytes that are not UTF-8 and sorts the keys.
  abbrev pub IsReadable : (VectorEntries fl → VectorEntries fl) → Type 0
  IsReadable settled =
      (m : VectorEntries fl) (t : T) → codec.encode m ≡ ok t → codec.decode t ≡ ok (settled m)

  -- An entry that an index does not take back: it has no vector, or a chunk without an ID.
  abbrev pub IsGap : Str × (Chunk × Vector fl) → Type 0
  IsGap e = (is_empty (e.1).1 ≡ true) ⊎ (is_empty (e.1.0).id ≡ true)

  check_entries-IsGap :
      (m : VectorEntries fl)
      → (check_entries codec m ≡ none) ⊎ ((e : Str × (Chunk × Vector fl)) × Among e m × IsGap e)
  unfolding check_entries
  check_entries-IsGap [] = inl refl
  check_entries-IsGap ((k, e) ∷ m) = elim (Bool-cases (is_empty e.1 || is_empty (e.0).id)) [
    | inl bad ↦ inr ((k, e), Among.here, ground arith)
    | inr good ↦ elim (check_entries-IsGap m) [
      | inl rest ↦ inl (rw (good, check_entries) rest)
      | inr (d, among, gap) ↦ inr (d, Among.there among, gap)
    ]
  ]

  reopens :
      (path : Str) (m : VectorEntries fl) (t : T)
      → is_empty path ≡ false
      → codec.decode t ≡ ok m
      → (open_vector_index codec path none (some t)
          ≡ ok (record { entries = m; file = some t; temporary = none }))
        ⊎ ((e : Str × (Chunk × Vector fl)) × Among e m × IsGap e)
  unfolding open_vector_index
  reopens path m t named read = elim (check_entries-IsGap m) [
    | inl good ↦ inl (rw (named, open_vector_index) (rw read (rw good refl)))
    | inr gap ↦ inr gap
  ]

  -- An upsert that reports an error leaves the file as it was. After one that reports none, the file
  -- opens, with what a text of JSON keeps of the entries (`settled`), unless there is an entry among
  -- them without a vector or with a chunk that has no ID.
  pub upsert_file-Reopened :
      (settled : VectorEntries fl → VectorEntries fl)
      → IsReadable settled
      → (path : Str) (c : Conditions T) (s : FileVectorIndex fl T) (cs : List Chunk)
        (vs : List (Vector fl))
      → is_empty path ≡ false
      → ((e : Error) × ((upsert_file codec c s cs vs).0 ≡ some e)
          × ((upsert_file codec c s cs vs).1.file ≡ s.file))
        ⊎ (((upsert_file codec c s cs vs).0 ≡ none)
            × ((t : T) × ((upsert_file codec c s cs vs).1.file ≡ some t)
                × ((open_vector_index codec path none (some t)
                      ≡ ok (record {
                        entries = settled (upsert_file codec c s cs vs).1.entries;
                        file = some t;
                        temporary = none;
                      }))
                    ⊎ ((e : Str × (Chunk × Vector fl)) × Among e
                          (settled (upsert_file codec c s cs vs).1.entries)
                        × IsGap e))))
  upsert_file-Reopened settled readable path c s cs vs named =
      of_writes (upsert_file codec c s cs vs) (upsert_file-Writes c s cs vs)
    where
      of_writes :
          (r : Option Error × FileVectorIndex fl T)
          → Writes s r.1 r.0
          → ((e : Error) × (r.0 ≡ some e) × (r.1.file ≡ s.file))
            ⊎ ((r.0 ≡ none)
                × ((t : T) × (r.1.file ≡ some t)
                    × ((open_vector_index codec path none (some t)
                          ≡ ok (record {
                            entries = settled r.1.entries;
                            file = some t;
                            temporary = none;
                          }))
                        ⊎ ((e : Str × (Chunk × Vector fl)) × Among e (settled r.1.entries)
                            × IsGap e))))
      of_writes (_, s') (kept e p) = inl (e, refl, p)
      of_writes (_, s') (written t p q) =
          inr (refl, (t, q, reopens path (settled s'.entries) t named (readable s'.entries t p)))
