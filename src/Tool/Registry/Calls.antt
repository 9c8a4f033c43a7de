-- ===== src/Tool/Registry/Calls.antt =====
-- What a call of a tool does.
use cortex_go.Errors.{
  invalid_output, panicked, invoke_failed, invalid_input, Result-cases, Error, not_registered,
  Result, ok, err,
}
use cortex_go.Tool.Schema.Complete.{validate_value-Conforms}
use cortex_go.Tool.Registry.{
  normalize_input, unmarshal_value, checked_output, invoke, safe_invoke, validate_input, Registry,
}
use cortex_go.Tool.Schema.Conforms.{Conforms}
use cortex_go.Tool.{Outcome, Value, Definition, Codec, panics, returns}
use cortex_go.Tool.Schema.Depth.{IsSliced}
use cortex_go.Prelude.{
  ◌≡◌, refl, sym, subst, ◌∙◌, ◌↔◌, ◌⊎◌, inl, inr, true, Option, none, some, List, [], ◌∷◌,
  Bool-cases, Option-cases, Str, bytes, lookup,
}

module _ {N : Type 0} (codec : Codec N) (tools : Registry) (name input : Str) where
  -- The input of a tool decodes to a value that conforms to the tool's schema.
  pub record IsAccepted (d : Definition) : Type 0 where
    pub value : Value N
    pub decodes : unmarshal_value codec input ≡ ok value
    pub conforming : Conforms codec d.input_schema value

  -- What is returned and what a handler was called with.
  pub data Invokes : Result Str → List Str → Type 0 where
    unknown : lookup name tools ≡ none → Invokes (err (not_registered name)) []
    rejected :
        (d : Definition) (e : Error)
        → lookup name tools ≡ some d
        → ¬ IsAccepted d
        → Invokes (err (invalid_input name e)) []
    failed :
        (d : Definition) (e : Error)
        → lookup name tools ≡ some d
        → IsAccepted d
        → (e ≡ invalid_output name) ⊎ ((why : Error) × (e ≡ invoke_failed name why))
        → Invokes (err e) (normalize_input input ∷ [])
    succeeded :
        (d : Definition) (handler : Str → Outcome) (output given : Str)
        → lookup name tools ≡ some d
        → IsAccepted d
        → d.handler ≡ some handler
        → handler (normalize_input input) ≡ returns given none
        → codec.valid output ≡ true
        → (output ≡ given) ⊎ ((given ≡ []) × (output ≡ bytes "null"))
        → Invokes (ok output) (normalize_input input ∷ [])

  validate_input-none :
      IsSliced codec → (d : Definition) → (validate_input codec d input ≡ none) ↔ IsAccepted d
  unfolding validate_input
  validate_input-none sliced d = elim (Result-cases (unmarshal_value codec input)) [
    | inr (e, bad) ↦ (λ h. cc (rw (bad, validate_input) at h), λ a. cc (sym bad ∙ a.decodes))
    | inl (value, good) ↦
        let same = validate_value-Conforms codec sliced d.input_schema value (bytes "input") in
        (
          λ h. record {
            value = value;
            decodes = good;
            conforming = same.0 (rw (good, validate_input) at h);
          },
          λ a.
              let p : a.value ≡ value = cc (sym a.decodes ∙ good) in
              rw (good, validate_input)
                (same.1 (subst (Conforms codec d.input_schema) p a.conforming)),
        )
  ]

  answered :
      (d : Definition)
      → lookup name tools ≡ some d
      → IsAccepted d
      → (o : Option (Str → Outcome)) → d.handler ≡ o
      → Invokes
          (checked_output codec name (safe_invoke o (normalize_input input)))
          (normalize_input input ∷ [])
  unfolding safe_invoke checked_output
  answered d found accepted none h =
      failed d (invoke_failed name panicked) found accepted (inr (panicked, refl))
  answered d found accepted (some handler) h = of_outcome (handler (normalize_input input)) refl
    where
      of_outcome :
          (o : Outcome)
          → handler (normalize_input input) ≡ o
          → Invokes
              (checked_output codec name (safe_invoke (some handler) (normalize_input input)))
              (normalize_input input ∷ [])
      of_outcome panics p =
          rw (p, safe_invoke)
            (failed d (invoke_failed name panicked) found accepted (inr (panicked, refl)))
      of_outcome (returns given (some e)) p =
          rw (p, safe_invoke) (failed d (invoke_failed name e) found accepted (inr (e, refl)))
      of_outcome (returns [] none) p = elim (Bool-cases (codec.valid (bytes "null"))) [
        | inl good ↦
            rw (p, safe_invoke)
              (rw good
                (succeeded d handler (bytes "null") [] found accepted h p good (inr (refl, refl))))
        | inr bad ↦
            rw (p, safe_invoke) (rw bad (failed d (invalid_output name) found accepted (inl refl)))
      ]
      of_outcome (returns (c ∷ given) none) p = elim (Bool-cases (codec.valid (c ∷ given))) [
        | inl good ↦
            rw (p, safe_invoke)
              (rw good
                (succeeded d handler (c ∷ given) (c ∷ given) found accepted h p good (inl refl)))
        | inr bad ↦
            rw (p, safe_invoke) (rw bad (failed d (invalid_output name) found accepted (inl refl)))
      ]

  -- Where the schemas inside a schema are parts of its text: a call of a tool that is not registered,
  -- or with an input that does not decode to a value that conforms to the tool's schema, fails and
  -- calls no handler. Any other calls the tool's handler once, with the input; and what it then
  -- returns without an error is the handler's output, or `null` where that is empty, and is valid
  -- JSON.
  pub invoke-Invokes :
      IsSliced codec → Invokes (invoke codec tools name input).0 (invoke codec tools name input).1
  unfolding invoke
  invoke-Invokes sliced = elim (Option-cases (lookup name tools)) [
    | inl gone ↦ rw (gone, invoke) (unknown gone)
    | inr (d, found) ↦ elim (Option-cases (validate_input codec d input)) [
      | inr (e, bad) ↦
          rw (found, invoke)
            (rw bad (rejected d e found (λ a. cc (sym bad ∙ (validate_input-none sliced d).1 a))))
      | inl fine ↦
          rw (found, invoke)
            (rw fine (answered d found ((validate_input-none sliced d).0 fine) d.handler refl))
    ]
  ]
