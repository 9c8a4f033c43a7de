-- ===== src/Memory/Facts/File/Writes.antt =====
-- When a write of the facts fails, and what the file opens with behind one that does not.
use cortex_go.Memory.Facts.{Fact, is_expired}
use cortex_go.Errors.{directory_failed, encode_failed, err, Result-cases, Error, ok}
use cortex_go.Memory.Sessions.File.{opened}
use cortex_go.Memory.Facts.File.{
  FactCodec, Failures, FileFactStore, open_fact_store, persist_facts, write_failure, has_expired,
}
use cortex_go.Prelude.{
  ℕ, ◌≡◌, refl, ◌⊎◌, inl, inr, false, none, some, [], ◌∷◌, arith, Option-cases, All, Str, Dict,
}

module _ {T : Type 0} (codec : FactCodec T) where
  pub has_expired-All :
      (now : ℕ) (facts : Dict Fact)
      → has_expired codec now facts ≡ false
      → All (λ (e : Str × Fact). is_expired e.1 now ≡ false) facts
  unfolding has_expired
  has_expired-All now [] h = tt
  has_expired-All now ((id, f) ∷ facts) h = (ground arith, has_expired-All now facts (ground arith))

  -- What encoding/json documents of its two functions: `settled` is what a text keeps of the facts,
  -- which replaces bytes that are not UTF-8 and sorts the keys. No text is without bytes.
  abbrev pub RoundTrips : (Dict Fact → Dict Fact) → Type 0
  RoundTrips settled =
      (facts : Dict Fact) (text : T)
      → codec.encode facts ≡ ok text
      → (codec.decode text ≡ ok (some (settled facts))) × (codec.is_blank_file text ≡ false)

  -- One of the calls that a write consists of fails.
  pub data Breaks (c : Failures) (facts : Dict Fact) : Type 0 where
    no_directory : {e : Error} → c.directory ≡ some e → Breaks c facts
    no_text : {e : Error} → codec.encode facts ≡ err e → Breaks c facts
    no_file : {e : Error} → c.create ≡ some e → Breaks c facts
    no_mode : {e : Error} → c.secure ≡ some e → Breaks c facts
    no_write : {e : Error} → c.write ≡ some e → Breaks c facts
    no_close : {e : Error} → c.close ≡ some e → Breaks c facts
    no_rename : {e : Error} → c.rename ≡ some e → Breaks c facts

  write_failure-Breaks :
      (c : Failures) (facts : Dict Fact) → (write_failure c ≡ none) ⊎ Breaks c facts
  unfolding write_failure
  write_failure-Breaks c facts = elim (Option-cases c.create) [
    | inr (e, p) ↦ inr (no_file p)
    | inl a ↦ elim (Option-cases c.secure) [
      | inr (e, p) ↦ inr (no_mode p)
      | inl b ↦ elim (Option-cases c.write) [
        | inr (e, p) ↦ inr (no_write p)
        | inl d ↦ elim (Option-cases c.close) [
          | inr (e, p) ↦ inr (no_close p)
          | inl g ↦ elim (Option-cases c.rename) [
            | inr (e, p) ↦ inr (no_rename p)
            | inl q ↦ inl (rw (a, write_failure) (rw b (rw d (rw g (rw q refl)))))
          ]
        ]
      ]
    ]
  ]

  -- The file opens with what a text keeps of the facts.
  abbrev pub Reopens : (Dict Fact → Dict Fact) → FileFactStore T → Type 0
  Reopens settled t =
      open_fact_store codec t.store.policy none t.file
      ≡ ok (
          opened (record {
            store = record { facts = settled t.store.facts; policy = t.store.policy };
            file = t.file;
          }))

  module _ (settled : Dict Fact → Dict Fact) (round : RoundTrips settled) where
    written_out :
        (c : Failures) (s : FileFactStore T) (text : T)
        → c.directory ≡ none
        → codec.encode s.store.facts ≡ ok text
        → write_failure c ≡ none
        → (t : T) × (persist_facts codec c s ≡ (none, record s { file = some t }))
          × Reopens settled (record s { file = some t })
    unfolding persist_facts open_fact_store
    written_out c s text d good w =
        let (decodes, full) = round s.store.facts text good in
        (
          text,
          rw (d, persist_facts) (rw good (rw w refl)),
          rw (full, open_fact_store) (rw decodes refl),
        )

    pub persist_facts-cases :
        (c : Failures) (s : FileFactStore T)
        → ((t : T) × (persist_facts codec c s ≡ (none, record s { file = some t }))
            × Reopens settled (record s { file = some t }))
          ⊎ (((e : Error) × (persist_facts codec c s ≡ (some e, s))) × Breaks c s.store.facts)
    unfolding persist_facts
    persist_facts-cases c s = elim (Option-cases c.directory) [
      | inr (e, d) ↦ inr ((directory_failed e, rw (d, persist_facts) refl), no_directory d)
      | inl d ↦ elim (Result-cases (codec.encode s.store.facts)) [
        | inr (e, bad) ↦ inr ((encode_failed e, rw (d, persist_facts) (rw bad refl)), no_text bad)
        | inl (text, good) ↦ elim (write_failure-Breaks c s.store.facts) [
          | inr breaks ↦ elim (Option-cases (write_failure c)) [
            | inr (e, w) ↦ inr ((e, rw (d, persist_facts) (rw good (rw w refl))), breaks)
            | inl w ↦ inl (written_out c s text d good w)
          ]
          | inl w ↦ inl (written_out c s text d good w)
        ]
      ]
    ]
