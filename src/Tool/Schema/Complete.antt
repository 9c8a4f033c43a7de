-- ===== src/Tool/Schema/Complete.antt =====
-- What conforms validates; so a value validates just where it conforms.
use cortex_go.Tool.Schema.Conforms.{
  check_required-none, check_allowed-none, ItemsConform, MembersConform, AreDefined, ConformsInside,
  none-first_error, AreThere, Conforms, conforms, of_scalar, of_object, of_any_array, of_array,
  all_members, absent, present, all_items, next_item,
}
use cortex_go.Tool.Schema.{
  check_allowed, enum_contains, schema_type_matches, is_closed, member_path, item_path, get,
  unmarshal_schema, validate_from, check_object, check_members, check_inside, check_items,
  validate_value,
}
use cortex_go.Tool.Schema.Depth.{unmarshal_schema-ok, decode_schema_node-ok, IsSliced}
use cortex_go.Tool.{Members, SchemaNode, Items, Codec, Value, array, object, nil, item}
use cortex_go.Tool.Schema.Sound.{validate_from_sound}
use cortex_go.Errors.{Error, ok}
use cortex_go.Prelude.{
  ℕ, zero, suc, ◌<◌, ◌≡◌, refl, ◌↔◌, ◌⊎◌, inl, inr, true, false, Option, none, some, [], ◌∷◌, arith,
  if◌then◌else◌, Bool-cases, length, All, All-keeps, Str, bytes, str_eq, is_empty, Dict,
}

-- The steps, for any check.
module _ {N : Type 0} (check : Str → Value N → Str → Option Error) where
  inside_scalar :
      (node : SchemaNode N) (value : Value N) (path : Str)
      → str_eq node.type (bytes "object") ≡ false
      → str_eq node.type (bytes "array") ≡ false
      → check_inside check node value path ≡ none
  unfolding check_inside
  inside_scalar node value path p q = rw p (rw q refl)

  inside_object :
      (node : SchemaNode N) (ms : Members N) (path : Str)
      → str_eq node.type (bytes "object") ≡ true
      → AreThere ms node.required
      → (is_closed node ≡ true → AreDefined node.properties ms)
      → check_members check path ms node.properties ≡ none
      → check_inside check node (object ms) path ≡ none
  unfolding check_inside check_object
  inside_object node ms path p there_all closed inside =
      let allowed : (if is_closed node then check_allowed path node.properties ms else none)
          ≡ none =
        elim (Bool-cases (is_closed node)) [
          | inl c ↦ rw c ((check_allowed-none path node.properties ms).1 (closed c))
          | inr n ↦ rw n refl
        ] in
      rw p (
        none-first_error _ _ ((check_required-none path ms node.required).1 there_all)
          (none-first_error _ _ allowed inside))

  inside_any_array :
      (node : SchemaNode N) (xs : Items N) (path : Str)
      → str_eq node.type (bytes "object") ≡ false
      → is_empty node.items ≡ true
      → check_inside check node (array xs) path ≡ none
  unfolding check_inside
  inside_any_array node xs path p e = ground arith

  inside_array :
      (node : SchemaNode N) (xs : Items N) (path : Str)
      → str_eq node.type (bytes "object") ≡ false
      → check_items check path node.items 0 xs ≡ none
      → check_inside check node (array xs) path ≡ none
  unfolding check_inside
  inside_array node xs path p inside = ground arith

  members_none : (path : Str) (ms : Members N) → check_members check path ms [] ≡ none
  unfolding check_members
  members_none path ms = refl

  member_absent :
      (path : Str) (ms : Members N) (name property : Str) (properties : Dict Str)
      → get name ms ≡ none
      → check_members check path ms properties ≡ none
      → check_members check path ms ((name, property) ∷ properties) ≡ none
  unfolding check_members
  member_absent path ms name property properties gone rest = rw gone rest

  member_present :
      (path : Str) (ms : Members N) (name property : Str) (properties : Dict Str) (value : Value N)
      → get name ms ≡ some value
      → check property value (member_path path name) ≡ none
      → check_members check path ms properties ≡ none
      → check_members check path ms ((name, property) ∷ properties) ≡ none
  unfolding check_members
  member_present path ms name property properties value found good rest =
      rw (found, check_members) (none-first_error _ _ good rest)

  items_none : (path schema : Str) (index : ℕ) → check_items check path schema index nil ≡ none
  unfolding check_items
  items_none path schema index = refl

  items_next :
      (path schema : Str) (index : ℕ) (value : Value N) (xs : Items N)
      → check schema value (item_path path index) ≡ none
      → check_items check path schema (suc index) xs ≡ none
      → check_items check path schema index (item value xs) ≡ none
  unfolding check_items
  items_next path schema index value xs good rest = none-first_error _ _ good rest

validated :
    {N : Type 0} (codec : Codec N) (fuel : ℕ) (raw : Str) (value : Value N) (path : Str)
    (node : SchemaNode N)
    → unmarshal_schema codec raw ≡ ok node
    → schema_type_matches codec node.type value ≡ true
    → (is_empty node.enum ≡ true) ⊎ (enum_contains codec node.enum value ≡ true)
    → check_inside (validate_from codec fuel) node value path ≡ none
    → validate_from codec (suc fuel) raw value path ≡ none
unfolding validate_from
validated codec fuel raw value path node good fits enum inside =
    rw (good, validate_from) (rw fits (ground (arith, inside)))

module _ {N : Type 0} (codec : Codec N) (sliced : IsSliced codec) where
  -- The induction is on what conforms; the schemas inside are shorter.
  mutual
    validate_from_complete :
        (fuel : ℕ) (raw : Str) (value : Value N) (path : Str)
        → length raw < fuel
        → Conforms codec raw value
        → validate_from codec fuel raw value path ≡ none
    validate_from_complete zero raw value path h c = absurd (omega arith)
    validate_from_complete (suc fuel) raw value path h (conforms node good fits enum inside) =
        let shorter =
          sliced.inside raw node
            (decode_schema_node-ok codec raw node (unmarshal_schema-ok codec raw node good)) in
        validated codec fuel raw value path node good fits enum (
          check_inside_complete fuel node value path
            (All-keeps (λ p. length p.1 < length raw) (λ p. length p.1 < fuel) node.properties
              (λ p s. omega (arith, s)) shorter.0)
            (λ e. let s = shorter.1 e in omega arith) inside)

    check_inside_complete :
        (fuel : ℕ) (node : SchemaNode N) (value : Value N) (path : Str)
        → All (λ p. length p.1 < fuel) node.properties
        → (is_empty node.items ≡ false → length node.items < fuel)
        → ConformsInside codec node value
        → check_inside (validate_from codec fuel) node value path ≡ none
    check_inside_complete fuel node value path h h' (of_scalar p q) =
        inside_scalar _ node value path p q
    check_inside_complete fuel node _ path h h' (of_object {ms = ms} p there_all closed inside) =
        inside_object _ node ms path p there_all closed
          (check_members_complete fuel path ms node.properties h inside)
    check_inside_complete fuel node _ path h h' (of_any_array {xs = xs} p a e) =
        inside_any_array _ node xs path p e
    check_inside_complete fuel node _ path h h' (of_array {xs = xs} p a n inside) =
        inside_array _ node xs path p (check_items_complete fuel path node.items 0 xs (h' n) inside)

    check_members_complete :
        (fuel : ℕ) (path : Str) (ms : Members N) (properties : Dict Str)
        → All (λ p. length p.1 < fuel) properties
        → MembersConform codec ms properties
        → check_members (validate_from codec fuel) path ms properties ≡ none
    check_members_complete fuel path ms _ h all_members = members_none _ path ms
    check_members_complete fuel path ms _ h
          (absent {name = name} {property = property} {properties = properties} gone rest) =
        member_absent _ path ms name property properties gone
          (check_members_complete fuel path ms properties h.1 rest)
    check_members_complete fuel path ms _ h
          (present {name = name} {property = property} {properties = properties} {value = value}
            found good rest) =
        member_present _ path ms name property properties value found
          (validate_from_complete fuel property value (member_path path name) h.0 good)
          (check_members_complete fuel path ms properties h.1 rest)

    check_items_complete :
        (fuel : ℕ) (path schema : Str) (index : ℕ) (xs : Items N)
        → length schema < fuel
        → ItemsConform codec schema xs
        → check_items (validate_from codec fuel) path schema index xs ≡ none
    check_items_complete fuel path schema index _ h all_items = items_none _ path schema index
    check_items_complete fuel path schema index _ h
          (next_item {value = value} {xs = xs} good rest) =
        items_next _ path schema index value xs
          (validate_from_complete fuel schema value (item_path path index) h good)
          (check_items_complete fuel path schema (suc index) xs h rest)

  -- Where the properties and the items of a schema are parts of its text, a value validates against
  -- a schema just where it conforms to it: its type and the enumeration fit, an object has the
  -- required members, only members that are defined if no others are allowed, and members that
  -- conform to their own schemas, and the items of an array conform to theirs.
  pub validate_value-Conforms :
      (raw : Str) (value : Value N) (path : Str)
      → (validate_value codec raw value path ≡ none) ↔ Conforms codec raw value
  unfolding validate_value
  validate_value-Conforms raw value path = (
    validate_from_sound codec (suc (length raw)) raw value path,
    validate_from_complete (suc (length raw)) raw value path (omega arith),
  )
