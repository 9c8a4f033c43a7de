-- ===== src/Tool/Schema/Sound.antt =====
-- What validates conforms.
use cortex_go.Tool.Schema.Conforms.{
  check_allowed-none, check_required-none, AreDefined, first_error-none, AreThere, MembersConform,
  ConformsInside, ItemsConform, Conforms, conforms, of_scalar, of_object, of_any_array, of_array,
  all_members, absent, present, all_items, next_item,
}
use cortex_go.Tool.Schema.{
  first_error, get, check_required, check_allowed, enum_contains, member_path, item_path,
  schema_type_matches, check_member, is_closed, unmarshal_schema, validate_from, check_members,
  check_inside, check_object, check_items,
}
use cortex_go.Errors.{Result-cases, Error}
use cortex_go.Tool.{
  Items, SchemaNode, Members, Value, Codec, null, boolean, number, text, array, object, nil, item,
}
use cortex_go.Prelude.{
  ℕ, zero, suc, ◌≡◌, inl, inr, true, not, ◌&&◌, Option, none, [], ◌∷◌, arith, if◌then◌else◌,
  Bool-cases, Option-cases, Str, bytes, str_eq, is_empty, Dict,
}

-- The check of one round lets through what conforms only.
module _ {N : Type 0} (codec : Codec N) (check : Str → Value N → Str → Option Error) where
  abbrev IsSound : Type 0
  IsSound = (s : Str) (v : Value N) (q : Str) → check s v q ≡ none → Conforms codec s v

  check_members_sound :
      IsSound
      → (path : Str) (ms : Members N) (properties : Dict Str)
      → check_members check path ms properties ≡ none
      → MembersConform codec ms properties
  unfolding check_members
  check_members_sound sound path ms [] h = all_members
  check_members_sound sound path ms ((name, property) ∷ properties) h =
      let both =
        first_error-none (check_member check property (member_path path name) (get name ms))
          (check_members check path ms properties) h in
      let rest = check_members_sound sound path ms properties both.1 in
      elim (Option-cases (get name ms)) [
        | inl none_there ↦ absent none_there rest
        | inr (value, found) ↦
            present found (sound property value (member_path path name) (rw found at both.0)) rest
      ]

  check_items_sound :
      IsSound
      → (path schema : Str) (index : ℕ) (xs : Items N)
      → check_items check path schema index xs ≡ none
      → ItemsConform codec schema xs
  unfolding check_items
  check_items_sound sound path schema index nil h = all_items
  check_items_sound sound path schema index (item value xs) h =
      let both =
        first_error-none (check schema value (item_path path index))
          (check_items check path schema (suc index) xs) h in
      next_item (sound schema value (item_path path index) both.0)
        (check_items_sound sound path schema (suc index) xs both.1)

  check_object-none :
      (node : SchemaNode N) (ms : Members N) (path : Str)
      → check_object check node ms path ≡ none
      → AreThere ms node.required
        × ((is_closed node ≡ true → AreDefined node.properties ms)
            × (check_members check path ms node.properties ≡ none))
  unfolding check_object
  check_object-none node ms path h =
      let closed = if is_closed node then check_allowed path node.properties ms else none in
      let inside = check_members check path ms node.properties in
      let (p, rest) =
        first_error-none (check_required path ms node.required) (first_error closed inside) h in
      let (q, r) = first_error-none closed inside rest in
      (
        (check_required-none path ms node.required).0 p,
        ((λ c. (check_allowed-none path node.properties ms).0 (rw c at q)), r),
      )

  check_inside_sound :
      IsSound
      → (node : SchemaNode N) (value : Value N) (path : Str)
      → check_inside check node value path ≡ none
      → ConformsInside codec node value
  unfolding check_inside
  check_inside_sound sound node null path h = of_scalar (ground arith) (ground arith)
  check_inside_sound sound node (boolean b) path h = of_scalar (ground arith) (ground arith)
  check_inside_sound sound node (number n) path h = of_scalar (ground arith) (ground arith)
  check_inside_sound sound node (text s) path h = of_scalar (ground arith) (ground arith)
  check_inside_sound sound node (object ms) path h =
      elim (Bool-cases (str_eq node.type (bytes "object"))) [
        | inr other ↦ of_scalar other (ground arith)
        | inl is_object ↦
            let (there_all, (closed, inside)) = check_object-none node ms path (ground arith) in
            of_object is_object there_all closed
              (check_members_sound sound path ms node.properties inside)
      ]
  check_inside_sound sound node (array xs) path h =
      elim (Bool-cases (str_eq node.type (bytes "array"))) [
        | inr other ↦ of_scalar (ground arith) other
        | inl is_array ↦ elim (Bool-cases (is_empty node.items)) [
          | inl e ↦ of_any_array (ground arith) is_array e
          | inr n ↦
              of_array (ground arith) is_array n
                (check_items_sound sound path node.items 0 xs (ground arith))
        ]
      ]

module _ {N : Type 0} (codec : Codec N) where
  pub validate_from_sound :
      (fuel : ℕ) (raw : Str) (value : Value N) (path : Str)
      → validate_from codec fuel raw value path ≡ none
      → Conforms codec raw value
  unfolding validate_from
  validate_from_sound zero raw value path h = cc h
  validate_from_sound (suc fuel) raw value path h =
      elim (Result-cases (unmarshal_schema codec raw)) [
        | inr (e, bad) ↦ cc (rw (bad, validate_from) at h)
        | inl (node, good) ↦
            let h' = rw (good, validate_from) at h in
            elim (Bool-cases (schema_type_matches codec node.type value)) [
              | inr other ↦ cc (rw other at h')
              | inl fits ↦
                  let h'' = rw fits at h' in
                  elim (Bool-cases
                    (not (is_empty node.enum) && not (enum_contains codec node.enum value))) [
                      | inl out ↦ cc (rw out at h'')
                      | inr within ↦ conforms node good fits (ground arith) (
                          check_inside_sound codec (validate_from codec fuel)
                            (validate_from_sound fuel) node value path (rw within at h''))
                    ]
            ]
      ]
