-- ===== src/Knowledge/Versions/Numbered.antt =====
-- The history of a document in a version store.
use cortex_go.Knowledge.Versions.{
  Versions, next_version, same_version, list_versions, add_version, version_name, last_version,
  DocumentVersion,
}
use cortex_go.Knowledge.{Document}
use cortex_go.Prelude.{
  ℕ, suc, ◌+◌, ◌≡◌, refl, ap, subst, ◌∙◌, ◌≢◌, ◌⊎◌, inl, inr, true, false, Option, none, some, List,
  [], ◌∷◌, ◌++◌, arith, if◌then◌else◌, Bool-cases, Option-cases, length, take, take-length-append,
  take-length, Str, str_eq, str_eq_refl, str_eq_iff, str_eq-false, lookup, put, lookup-put,
}

-- The hash of the last version, or else the one before.
abbrev hash_of : Option Str → Option DocumentVersion → Option Str
hash_of before none = before
hash_of before (some v) = some v.hash

hash_of-cons :
    (before : Option Str) (w : DocumentVersion) (vs : List DocumentVersion)
    → hash_of before (last_version (w ∷ vs)) ≡ hash_of (some w.hash) (last_version vs)
unfolding last_version
hash_of-cons before w vs = ground (arith, Option-cases (last_version vs))

module _ (hash : Str → Str) (id : Str) where
  -- The versions behind the first n, of which the last has the hash `before`.
  pub IsHistory : ℕ → Option Str → List DocumentVersion → Type 0
  IsHistory n before [] = Unit
  IsHistory n before (v ∷ vs) =
      (v.document_id ≡ id)
      × (v.document.id ≡ id)
      × (v.version ≡ version_name (n + 1))
      × (v.hash ≡ hash v.document.content)
      × (before ≢ some v.hash)
      × IsHistory (suc n) (some v.hash) vs

  IsHistory-snoc :
      (n : ℕ) (before : Option Str) (vs : List DocumentVersion) (v : DocumentVersion)
      → IsHistory n before vs
      → v.document_id ≡ id
      → v.document.id ≡ id
      → v.version ≡ version_name (n + length vs + 1)
      → v.hash ≡ hash v.document.content
      → hash_of before (last_version vs) ≢ some v.hash
      → IsHistory n before (vs ++ v ∷ [])
  unfolding IsHistory last_version
  IsHistory-snoc n before [] v h a b c d e = (a, b, c ∙ ap version_name (omega arith), d, e, tt)
  IsHistory-snoc n before (w ∷ vs) v (a', b', c', d', e', h) a b c d e = (
    a',
    b',
    c',
    d',
    e',
    IsHistory-snoc (suc n) (some w.hash) vs v h a b (c ∙ ap version_name (omega arith)) d
        (λ q. e (hash_of-cons before w vs ∙ q)),
  )

last_version-snoc :
    (vs : List DocumentVersion) (v : DocumentVersion) → last_version (vs ++ v ∷ []) ≡ some v
unfolding last_version
last_version-snoc [] v = refl
last_version-snoc (w ∷ vs) v = rw (last_version-snoc vs v, last_version) refl

list_versions-put :
    (id j : Str) (vs : List DocumentVersion) (s : Versions)
    → list_versions (put id vs s) j ≡ (if str_eq id j then vs else list_versions s j)
unfolding list_versions
list_versions-put id j vs s = ground (arith, lookup-put id j vs s)

module _ (hash : Str → Str) where
  -- What Add does: the last version has the hash of the content already, or a new one is put behind.
  add_version-cases :
      (now : ℕ) (s : Versions) (d : Document)
      → ((v : DocumentVersion) × (last_version (list_versions s d.id) ≡ some v)
          × (v.hash ≡ hash d.content)
          × (add_version hash now s d ≡ ((v, false), s)))
        ⊎ ((hash_of none (last_version (list_versions s d.id)) ≢ some (hash d.content))
            × (add_version hash now s d ≡ (
              (next_version hash now d (list_versions s d.id), true),
              put d.id
                  (list_versions s d.id ++ next_version hash now d (list_versions s d.id) ∷ [])
                  s,
            )))
  unfolding add_version same_version
  add_version-cases now s d = elim (Option-cases (last_version (list_versions s d.id))) [
    | inl e ↦
        inr (
          (λ q. let p : none ≡ some (hash d.content) = rw e at q in cc p),
          rw (e, add_version) refl,
        )
    | inr (v, e) ↦ elim (Bool-cases (str_eq v.hash (hash d.content))) [
      | inl same ↦
          inl
            (v, e, (str_eq_iff v.hash (hash d.content)).0 same, rw (e, add_version) (rw same refl))
      | inr other ↦ inr (
        (λ q.
            let p : some v.hash ≡ some (hash d.content) = rw e at q in
            ground (arith, str_eq_iff v.hash (hash d.content))),
        rw (e, add_version) (rw other refl),
      )
    ]
  ]

  abbrev AllHistories : Versions → Type 0
  AllHistories s = (id : Str) → IsHistory hash id 0 none (list_versions s id)

  add_version-AllHistories :
      (now : ℕ) (s : Versions) (d : Document)
      → AllHistories s
      → AllHistories (add_version hash now s d).1
  unfolding next_version
  add_version-AllHistories now s d h id = elim (add_version-cases now s d) [
    | inl (v, last, same, e) ↦ rw e (h id)
    | inr (fresh, e) ↦ rw e (
        rw list_versions-put (elim (Bool-cases (str_eq d.id id)) [
          | inr other ↦ rw other (h id)
          | inl same ↦ rw same (
              let p : d.id ≡ id = (str_eq_iff d.id id).0 same in
              subst
                (λ j.
                  IsHistory hash j 0 none
                    (list_versions s d.id ++ next_version hash now d (list_versions s d.id) ∷ []))
                p
                (IsHistory-snoc hash d.id 0 none (list_versions s d.id)
                  (next_version hash now d (list_versions s d.id)) (h d.id) refl refl
                  (ap version_name (omega arith)) refl fresh))
        ]))
  ]

  -- Calls of Add, each with its time.
  unfoldable pub add_all : Versions → List (ℕ × Document) → Versions
  add_all s [] = s
  add_all s ((now, d) ∷ ds) = add_all (add_version hash now s d).1 ds

  add_all-AllHistories :
      (s : Versions) (ds : List (ℕ × Document)) → AllHistories s → AllHistories (add_all s ds)
  unfolding add_all
  add_all-AllHistories s [] h = h
  add_all-AllHistories s ((now, d) ∷ ds) h =
      add_all-AllHistories (add_version hash now s d).1 ds (add_version-AllHistories now s d h)

  -- Whatever documents were added to a new store, the versions of each document are its own, they are
  -- numbered v1, v2 and so on, each has the hash of its content, and no two in a row have the same.
  pub add_all-IsHistory :
      (ds : List (ℕ × Document)) (id : Str)
      → IsHistory hash id 0 none (list_versions (add_all [] ds) id)
  unfolding list_versions IsHistory lookup
  add_all-IsHistory ds id = add_all-AllHistories [] ds (λ j. tt) id

  -- Add returns the last version that the document then has, and it has the hash of the content; the
  -- versions before stay where they are, and so do those of other documents.
  pub add_version-last :
      (now : ℕ) (s : Versions) (d : Document)
      → (last_version (list_versions (add_version hash now s d).1 d.id)
          ≡ some (add_version hash now s d).0.0)
        × ((add_version hash now s d).0.0.hash ≡ hash d.content)
        × (take (length (list_versions s d.id)) (list_versions (add_version hash now s d).1 d.id)
            ≡ list_versions s d.id)
        × ((j : Str) → d.id ≢ j → list_versions (add_version hash now s d).1 j ≡ list_versions s j)
  unfolding next_version
  add_version-last now s d = elim (add_version-cases now s d) [
    | inl (v, last, same, e) ↦
        rw e (last, same, take-length (list_versions s d.id), λ j other. refl)
    | inr (fresh, e) ↦ rw e (
      rw list_versions-put (rw (str_eq_refl d.id) (last_version-snoc (list_versions s d.id) _)),
      refl,
      rw list_versions-put (rw (str_eq_refl d.id) (take-length-append (list_versions s d.id) _)),
      λ j other. rw list_versions-put (rw (str_eq-false d.id j other) refl),
    )
  ]
