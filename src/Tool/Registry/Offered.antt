-- ===== src/Tool/Registry/Offered.antt =====
-- The tools that a registry lists.
use cortex_go.Tool.Registry.{definitions, Registry, tools_of}
use cortex_go.Tool.Registry.Entries.{IsWellFormed}
use cortex_go.Tool.{Definition, Codec}
use cortex_go.Prelude.{
  ◌≡◌, refl, sym, subst, ◌↔◌, inl, inr, true, some, List, [], ◌∷◌, map, arith, Bool-cases,
  Option-cases, is_some, All, All-keeps, Str, str_eq, str_eq_refl, str_eq_iff, lookup, str_lt,
  str_lt-asym, str_lt-false_trans, Among, sort_by, IsSorted, Among-All, IsOrder, All-sort_by,
  Among-sort_by, sort_by-IsSorted, here, there,
}

str_lt-IsOrder : IsOrder str_lt
str_lt-IsOrder = record { asym = str_lt-asym; trans = str_lt-false_trans }

tools_of_sound :
    (tools : Registry) (names : List Str)
    → All (λ d. (name : Str) × (lookup name tools ≡ some d)) (tools_of tools names)
unfolding tools_of
tools_of_sound tools [] = tt
tools_of_sound tools (name ∷ names) = elim (Option-cases (lookup name tools)) [
  | inl gone ↦ rw (gone, tools_of) (tools_of_sound tools names)
  | inr (d, found) ↦ rw (found, tools_of) ((name, found), tools_of_sound tools names)
]

tools_of_complete :
    (tools : Registry) (d : Definition) (name : Str) (names : List Str)
    → lookup name tools ≡ some d
    → Among name names
    → Among d (tools_of tools names)
unfolding tools_of
tools_of_complete tools d name _ found here = rw (found, tools_of) here
tools_of_complete tools d name _ found (there {y = other} {xs = names} m) =
    let later = tools_of_complete tools d name names found m in
    elim (Option-cases (lookup other tools)) [
      | inl gone ↦ rw (gone, tools_of) later
      | inr (e, there_too) ↦ rw (there_too, tools_of) (there later)
    ]

abbrev keys : Registry → List Str
keys tools = map (λ e. e.0) tools

Among-keys :
    (d : Definition) (name : Str) (tools : Registry)
    → lookup name tools ≡ some d
    → Among name (keys tools)
unfolding lookup
Among-keys d name [] h = cc h
Among-keys d name ((j, e) ∷ tools) h = elim (Bool-cases (str_eq j name)) [
  | inl same ↦ subst (λ n. Among n (j ∷ keys tools)) ((str_eq_iff j name).0 same) here
  | inr other ↦ there (Among-keys d name tools (rw other at h))
]

IsKept-later :
    (j : Str) (e : Definition) (tools : Registry) (name : Str)
    → is_some (lookup name tools) ≡ true
    → is_some (lookup name ((j, e) ∷ tools)) ≡ true
unfolding lookup
IsKept-later j e tools name h = ground (arith, h)

IsKept-first :
    (j : Str) (e : Definition) (tools : Registry) → is_some (lookup j ((j, e) ∷ tools)) ≡ true
unfolding lookup
IsKept-first j e tools = rw (str_eq_refl j) refl

keys-found : (tools : Registry) → All (λ n. is_some (lookup n tools) ≡ true) (keys tools)
keys-found [] = tt
keys-found ((j, e) ∷ tools) = (
  IsKept-first j e tools,
  All-keeps (λ n. is_some (lookup n tools) ≡ true) (λ n. is_some (lookup n ((j, e) ∷ tools)) ≡ true)
      (keys tools) (IsKept-later j e tools) (keys-found tools),
)

module _ {N : Type 0} (codec : Codec N) (tools : Registry) (well : IsWellFormed codec tools) where
  names_of-tools :
      (names : List Str)
      → All (λ n. is_some (lookup n tools) ≡ true) names
      → map (λ d. d.name) (tools_of tools names) ≡ names
  unfolding tools_of
  names_of-tools [] h = refl
  names_of-tools (name ∷ names) h = elim (Option-cases (lookup name tools)) [
    | inl gone ↦ cc (rw gone at h.0)
    | inr (d, found) ↦
        let same = (well name d found).1 in
        let rest = names_of-tools names h.1 in rw (found, tools_of) (λ i. same i ∷ rest i)
  ]

  -- A registry whose tools stand under their own names lists the tools that are found in it, and
  -- those only, in the order of their names.
  pub definitions-Among :
      (d : Definition)
      → (Among d (definitions tools) ↔ ((name : Str) × (lookup name tools ≡ some d)))
        × IsSorted str_lt (map (λ t. t.name) (definitions tools))
  unfolding definitions
  definitions-Among d =
      let sorted = sort_by str_lt (keys tools) in
      let same = names_of-tools sorted (
        All-sort_by str_lt (λ n. is_some (lookup n tools) ≡ true) (keys tools)
          (keys-found tools)) in
      (
        (
          λ m. Among-All _ d (tools_of tools sorted) (tools_of_sound tools sorted) m,
          λ p.
              tools_of_complete tools d p.0 sorted p.1
                (Among-sort_by str_lt p.0 (keys tools) (Among-keys d p.0 tools p.1)),
        ),
        subst (IsSorted str_lt) (sym same) (sort_by-IsSorted str_lt str_lt-IsOrder (keys tools)),
      )
