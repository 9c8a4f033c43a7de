-- ===== src/Tool/Schema/Conforms.antt =====
-- The values that a schema lets through.
use cortex_go.Errors.{Error, ok}
use cortex_go.Tool.Schema.{
  is_closed, enum_contains, schema_type_matches, unmarshal_schema, get, first_error, check_required,
  check_allowed,
}
use cortex_go.Tool.{Items, SchemaNode, Value, Members, Codec, array, object, nil, item, end, member}
use cortex_go.Prelude.{
  ◌≡◌, refl, ◌↔◌, ◌⊎◌, inl, inr, true, false, Option, none, some, List, [], ◌∷◌, Option-cases,
  is_some, All, Str, bytes, str_eq, is_empty, Dict, lookup,
}

module _ {N : Type 0} where
  abbrev pub AreThere : Members N → List Str → Type 0
  AreThere ms names = All (λ n. is_some (get n ms) ≡ true) names

  abbrev pub AreDefined : Dict Str → Members N → Type 0
  AreDefined properties end = Unit
  AreDefined properties (member name value ms) =
      (is_some (lookup name properties) ≡ true) × AreDefined properties ms

module _ {N : Type 0} (codec : Codec N) where
  mutual
    -- The type and the enumeration fit, and what is inside conforms.
    pub data Conforms : Str → Value N → Type 0 where
      conforms :
          {raw : Str} {value : Value N} (node : SchemaNode N)
          → unmarshal_schema codec raw ≡ ok node
          → schema_type_matches codec node.type value ≡ true
          → (is_empty node.enum ≡ true) ⊎ (enum_contains codec node.enum value ≡ true)
          → ConformsInside node value
          → Conforms raw value

    pub data ConformsInside : SchemaNode N → Value N → Type 0 where
      of_scalar :
          {node : SchemaNode N} {value : Value N}
          → str_eq node.type (bytes "object") ≡ false
          → str_eq node.type (bytes "array") ≡ false
          → ConformsInside node value
      of_object :
          {node : SchemaNode N} {ms : Members N}
          → str_eq node.type (bytes "object") ≡ true
          → AreThere ms node.required
          → (is_closed node ≡ true → AreDefined node.properties ms)
          → MembersConform ms node.properties
          → ConformsInside node (object ms)
      of_any_array :
          {node : SchemaNode N} {xs : Items N}
          → str_eq node.type (bytes "object") ≡ false
          → str_eq node.type (bytes "array") ≡ true
          → is_empty node.items ≡ true
          → ConformsInside node (array xs)
      of_array :
          {node : SchemaNode N} {xs : Items N}
          → str_eq node.type (bytes "object") ≡ false
          → str_eq node.type (bytes "array") ≡ true
          → is_empty node.items ≡ false
          → ItemsConform node.items xs
          → ConformsInside node (array xs)

    pub data MembersConform : Members N → Dict Str → Type 0 where
      all_members : {ms : Members N} → MembersConform ms []
      absent :
          {ms : Members N} {name property : Str} {properties : Dict Str}
          → get name ms ≡ none
          → MembersConform ms properties
          → MembersConform ms ((name, property) ∷ properties)
      present :
          {ms : Members N} {name property : Str} {properties : Dict Str} {value : Value N}
          → get name ms ≡ some value
          → Conforms property value
          → MembersConform ms properties
          → MembersConform ms ((name, property) ∷ properties)

    pub data ItemsConform : Str → Items N → Type 0 where
      all_items : {schema : Str} → ItemsConform schema nil
      next_item :
          {schema : Str} {value : Value N} {xs : Items N}
          → Conforms schema value
          → ItemsConform schema xs
          → ItemsConform schema (item value xs)

pub first_error-none : (a b : Option Error) → first_error a b ≡ none → (a ≡ none) × (b ≡ none)
first_error-none none b h = (refl, h)
first_error-none (some e) b h = cc h

pub none-first_error : (a b : Option Error) → a ≡ none → b ≡ none → first_error a b ≡ none
none-first_error none b p q = q
none-first_error (some e) b p q = p

module _ {N : Type 0} where
  pub check_required-none :
      (path : Str) (ms : Members N) (names : List Str)
      → (check_required path ms names ≡ none) ↔ AreThere ms names
  unfolding check_required
  check_required-none path ms [] = (λ h. tt, λ h. refl)
  check_required-none path ms (name ∷ names) = elim (Option-cases (get name ms)) [
    | inl gone ↦ (λ h. cc (rw (gone, check_required) at h), λ h. cc (rw gone at h.0))
    | inr (value, found) ↦
        let rest = check_required-none path ms names in
        (
          λ h. (rw found refl, rest.0 (rw (found, check_required) at h)),
          λ h. rw (found, check_required) (rest.1 h.1),
        )
  ]

  pub check_allowed-none :
      (path : Str) (properties : Dict Str) (ms : Members N)
      → (check_allowed path properties ms ≡ none) ↔ AreDefined properties ms
  unfolding check_allowed
  check_allowed-none path properties end = (λ h. tt, λ h. refl)
  check_allowed-none path properties (member name value ms) =
      elim (Option-cases (lookup name properties)) [
        | inl gone ↦ (λ h. cc (rw (gone, check_allowed) at h), λ h. cc (rw gone at h.0))
        | inr (property, found) ↦
            let rest = check_allowed-none path properties ms in
            (
              λ h. (rw found refl, rest.0 (rw (found, check_allowed) at h)),
              λ h. rw (found, check_allowed) (rest.1 h.1),
            )
      ]
