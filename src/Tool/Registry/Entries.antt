-- ===== src/Tool/Registry/Entries.antt =====
-- What registering keeps.
use cortex_go.Errors.{already_registered, Error}
use cortex_go.Tool.Registry.{validate, Registry, register}
use cortex_go.Tool.{Definition, Codec}
use cortex_go.Prelude.{
  ◌≡◌, refl, sym, ap, subst, ◌∙◌, inl, inr, false, Option, none, some, Bool-cases, Option-cases,
  Str, str_eq, str_eq_refl, str_eq_iff, lookup, put, lookup-put,
}

module _ {N : Type 0} (codec : Codec N) where
  -- Every tool that is found validated when it was registered, and is found under its own name.
  abbrev pub IsWellFormed : Registry → Type 0
  IsWellFormed tools =
      (name : Str) (d : Definition)
      → lookup name tools ≡ some d
      → (validate codec d ≡ none) × (d.name ≡ name)

  -- What registering a tool did: it refused, and changed nothing, or it added the tool under a name
  -- that was free, and changed nothing else.
  pub data Registers (tools : Registry) (d : Definition) : Option Error → Registry → Type 0 where
    refused : (e : Error) → Registers tools d (some e) tools
    added :
        (tools' : Registry)
        → validate codec d ≡ none
        → lookup d.name tools ≡ none
        → lookup d.name tools' ≡ some d
        → ((name : Str) → str_eq d.name name ≡ false → lookup name tools' ≡ lookup name tools)
        → Registers tools d none tools'

  put-added :
      (tools : Registry) (d : Definition)
      → validate codec d ≡ none
      → lookup d.name tools ≡ none
      → Registers tools d none (put d.name d tools)
  put-added tools d fine free =
      added (put d.name d tools) fine free
        (lookup-put d.name d.name d tools ∙ (rw (str_eq_refl d.name) refl))
        (λ name other. lookup-put d.name name d tools ∙ (rw other refl))

  register-Registers :
      (tools : Registry) (d : Definition)
      → Registers tools d (register codec tools d).0 (register codec tools d).1
  unfolding register
  register-Registers tools d = elim (Option-cases (validate codec d)) [
    | inr (e, bad) ↦ rw (bad, register) (refused e)
    | inl fine ↦ elim (Option-cases (lookup d.name tools)) [
      | inr (d', there) ↦ rw (fine, register) (rw there (refused (already_registered d.name)))
      | inl free ↦ rw (fine, register) (rw free (put-added tools d fine free))
    ]
  ]

  Registers-IsWellFormed :
      (tools tools' : Registry) (d : Definition) (o : Option Error)
      → IsWellFormed tools
      → Registers tools d o tools'
      → IsWellFormed tools'
  Registers-IsWellFormed tools _ d _ h (refused e) = h
  Registers-IsWellFormed tools _ d _ h (added tools' fine free found others) = λ name d' e.
      elim (Bool-cases (str_eq d.name name)) [
        | inl same ↦
            let p : d.name ≡ name = (str_eq_iff d.name name).0 same in
            let q : d ≡ d' = cc (sym found ∙ ap (λ n. lookup n tools') p ∙ e) in
            subst (λ x. (validate codec x ≡ none) × (x.name ≡ name)) q (fine, p)
        | inr other ↦ h name d' (sym (others name other) ∙ e)
      ]

  -- Registering a tool refuses it and changes nothing, or adds it, validated and under a name that
  -- was free, and changes no other; and every tool of the registry stays one that validated.
  pub register-IsWellFormed :
      (tools : Registry) (d : Definition)
      → IsWellFormed tools
      → Registers tools d (register codec tools d).0 (register codec tools d).1
        × IsWellFormed (register codec tools d).1
  register-IsWellFormed tools d h = (
    register-Registers tools d,
    Registers-IsWellFormed tools (register codec tools d).1 d (register codec tools d).0 h
        (register-Registers tools d),
  )
