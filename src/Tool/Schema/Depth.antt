-- ===== src/Tool/Schema/Depth.antt =====
-- The fuel of a schema's length is enough.
use cortex_go.Tool.Schema.{
  validate_value, enum_contains, check_required, schema_type_matches, check_allowed,
  unmarshal_schema, is_closed, in_property, check_object, check_inside, check_keys, first_error,
  check_member, validate_from, member_path, item_path, get, error_in, check_members, check_items,
  decode_schema_node, unmarshal_from, check_properties,
}
use cortex_go.Errors.{bad_enum, must_be_object, must_be_array, bad_type, Result-cases, Error, ok}
use cortex_go.Tool.{
  Members, Items, SchemaNode, Codec, Value, null, boolean, number, text, array, object, nil, item,
}
use cortex_go.Prelude.{
  ℕ, zero, suc, ◌<◌, ◌≡◌, refl, ap, ◌∙◌, inl, inr, false, not, ◌&&◌, ◌||◌, Option, none, some, [],
  ◌∷◌, arith, if◌then◌else◌, Bool-cases, Option-cases, length, All, All-keeps, Str, bytes, str_eq,
  is_empty, Dict,
}

-- encoding/json gives the properties and the items of a schema as parts of its text.
pub record IsSliced {N : Type 0} (codec : Codec N) : Type 0 where
  pub inside :
      (raw : Str) (node : SchemaNode N)
      → codec.decode_node raw ≡ ok node
      → All (λ p. length p.1 < length raw) node.properties
        × ((is_empty node.items ≡ false) → length node.items < length raw)

check_properties-ext :
    (f g : Str → Option Error) (properties : Dict Str)
    → All (λ p. f p.1 ≡ g p.1) properties
    → check_properties f properties ≡ check_properties g properties
unfolding check_properties
check_properties-ext f g [] h = refl
check_properties-ext f g ((name, property) ∷ properties) h =
    let rest = check_properties-ext f g properties h.1 in
    λ i. first_error (in_property name (h.0 i)) (rest i)

module _ {N : Type 0} (codec : Codec N) where
  pub decode_schema_node-ok :
      (raw : Str) (node : SchemaNode N)
      → decode_schema_node codec raw ≡ ok node
      → codec.decode_node raw ≡ ok node
  unfolding decode_schema_node
  decode_schema_node-ok raw node h = elim (Bool-cases (is_empty raw || not (codec.valid raw))) [
    | inl e ↦ cc (rw (e, decode_schema_node) at h)
    | inr n ↦ elim (Result-cases (codec.decode_node raw)) [
      | inr (e, bad) ↦ cc (rw bad at (rw (n, decode_schema_node) at h))
      | inl (made, good) ↦
          let h' = rw good at (rw (n, decode_schema_node) at h) in
          elim (Result-cases (codec.decode_keys raw)) [
            | inr (e, bad) ↦ cc (rw bad at h')
            | inl (keys, read) ↦ elim (Option-cases (check_keys keys)) [
              | inr (e, bad) ↦ cc (rw bad at (rw read at h'))
              | inl fine ↦ good ∙ (rw fine at (rw read at h'))
            ]
          ]
    ]
  ]

  pub unmarshal_schema-ok :
      (raw : Str) (node : SchemaNode N)
      → unmarshal_schema codec raw ≡ ok node
      → decode_schema_node codec raw ≡ ok node
  unfolding unmarshal_schema unmarshal_from
  unmarshal_schema-ok raw node h = elim (Result-cases (decode_schema_node codec raw)) [
    | inr (e, bad) ↦ cc (rw (bad, unmarshal_from) at h)
    | inl (made, good) ↦
        let check : Str → Option Error =
          λ p. error_in codec (unmarshal_from codec (length raw) p) in
        elim (Option-cases (check_properties check made.properties)) [
          | inr (e, bad) ↦ cc (rw bad at (rw (good, unmarshal_from) at h))
          | inl fine ↦ good ∙ (rw fine at (rw (good, unmarshal_from) at h))
        ]
  ]

  module _ (sliced : IsSliced codec) where
    unmarshal_from-fuel :
        (fuel fuel' : ℕ) (raw : Str)
        → length raw < fuel
        → length raw < fuel'
        → unmarshal_from codec fuel raw ≡ unmarshal_from codec fuel' raw
    unfolding unmarshal_from
    unmarshal_from-fuel zero fuel' raw h h' = absurd (omega arith)
    unmarshal_from-fuel (suc fuel) zero raw h h' = absurd (omega arith)
    unmarshal_from-fuel (suc fuel) (suc fuel') raw h h' =
        elim (Result-cases (decode_schema_node codec raw)) [
          | inr (e, bad) ↦ rw (bad, unmarshal_from) refl
          | inl (node, good) ↦
              let shorter = sliced.inside raw node (decode_schema_node-ok raw node good) in
              let same =
                check_properties-ext (λ p. error_in codec (unmarshal_from codec fuel p))
                  (λ p. error_in codec (unmarshal_from codec fuel' p)) node.properties
                  (All-keeps (λ p. length p.1 < length raw)
                    (λ p.
                      error_in codec (unmarshal_from codec fuel p.1)
                      ≡ error_in codec (unmarshal_from codec fuel' p.1))
                    node.properties
                    (λ p q.
                      ap (error_in codec)
                        (unmarshal_from-fuel fuel fuel' p.1 (omega arith) (omega arith)))
                    shorter.0) in
              rw (good, unmarshal_from) (rw same refl)
        ]

module _ {N : Type 0} (f g : Str → Value N → Str → Option Error) where
  check_member-ext :
      (property path : Str) (o : Option (Value N))
      → ((v : Value N) (q : Str) → f property v q ≡ g property v q)
      → check_member f property path o ≡ check_member g property path o
  check_member-ext property path none h = refl
  check_member-ext property path (some v) h = h v path

  check_members-ext :
      (path : Str) (ms : Members N) (properties : Dict Str)
      → All (λ p. (v : Value N) (q : Str) → f p.1 v q ≡ g p.1 v q) properties
      → check_members f path ms properties ≡ check_members g path ms properties
  unfolding check_members
  check_members-ext path ms [] h = refl
  check_members-ext path ms ((name, property) ∷ properties) h =
      let rest = check_members-ext path ms properties h.1 in
      let same = check_member-ext property (member_path path name) (get name ms) h.0 in
      λ i. first_error (same i) (rest i)

  check_items-ext :
      (path schema : Str) (index : ℕ) (xs : Items N)
      → ((v : Value N) (q : Str) → f schema v q ≡ g schema v q)
      → check_items f path schema index xs ≡ check_items g path schema index xs
  unfolding check_items
  check_items-ext path schema index nil h = refl
  check_items-ext path schema index (item value xs) h =
      let rest = check_items-ext path schema (suc index) xs h in
      let same = h value (item_path path index) in λ i. first_error (same i) (rest i)

  check_inside-ext :
      (node : SchemaNode N) (value : Value N) (path : Str)
      → All (λ p. (v : Value N) (q : Str) → f p.1 v q ≡ g p.1 v q) node.properties
      → ((v : Value N) (q : Str)
          → is_empty node.items ≡ false
          → f node.items v q ≡ g node.items v q)
      → check_inside f node value path ≡ check_inside g node value path
  unfolding check_inside check_object
  check_inside-ext node null path h h' = refl
  check_inside-ext node (boolean b) path h h' = refl
  check_inside-ext node (number n) path h h' = refl
  check_inside-ext node (text s) path h h' = refl
  check_inside-ext node (object ms) path h h' =
      let closed = if is_closed node then check_allowed path node.properties ms else none in
      let same = check_members-ext path ms node.properties h in
      ap
        (λ r.
          if str_eq node.type (bytes "object")
          then first_error (check_required path ms node.required) (first_error closed r)
          else if str_eq node.type (bytes "array")
          then some (must_be_array path)
          else none)
        same
  check_inside-ext node (array xs) path h h' = elim (Bool-cases (is_empty node.items)) [
    | inl e ↦ rw (e, check_inside) refl
    | inr n ↦
        let same = check_items-ext path node.items 0 xs (λ v q. h' v q n) in
        rw (n, check_inside)
          (ap
            (λ r.
              if str_eq node.type (bytes "object")
              then some (must_be_object path)
              else if str_eq node.type (bytes "array")
              then r
              else none)
            same)
  ]

module _ {N : Type 0} (codec : Codec N) (sliced : IsSliced codec) where
  pub validate_from-fuel :
      (fuel fuel' : ℕ) (raw : Str) (value : Value N) (path : Str)
      → length raw < fuel
      → length raw < fuel'
      → validate_from codec fuel raw value path ≡ validate_from codec fuel' raw value path
  unfolding validate_from
  validate_from-fuel zero fuel' raw value path h h' = absurd (omega arith)
  validate_from-fuel (suc fuel) zero raw value path h h' = absurd (omega arith)
  validate_from-fuel (suc fuel) (suc fuel') raw value path h h' =
      elim (Result-cases (unmarshal_schema codec raw)) [
        | inr (e, bad) ↦ rw (bad, validate_from) refl
        | inl (node, good) ↦
            let shorter =
              sliced.inside raw node
                (decode_schema_node-ok codec raw node (unmarshal_schema-ok codec raw node good)) in
            let same =
              check_inside-ext (validate_from codec fuel) (validate_from codec fuel') node value
                path
                (All-keeps (λ p. length p.1 < length raw)
                  (λ p.
                    (v : Value N) (q : Str)
                    → validate_from codec fuel p.1 v q ≡ validate_from codec fuel' p.1 v q)
                  node.properties
                  (λ p s v q. validate_from-fuel fuel fuel' p.1 v q (omega arith) (omega arith))
                  shorter.0)
                (λ v q e.
                  let less = shorter.1 e in
                  validate_from-fuel fuel fuel' node.items v q (omega arith) (omega arith)) in
            rw (good, validate_from)
              (ap
                (λ r.
                  if not (schema_type_matches codec node.type value)
                  then some (bad_type path node.type)
                  else if not (is_empty node.enum) && not (enum_contains codec node.enum value)
                  then some (bad_enum path)
                  else r)
                same)
      ]

  -- Where the properties and the items of a schema are parts of its text, more rounds than the schema
  -- has bytes do not change what is decoded, nor what is said of a value: the fuel of
  -- `unmarshal_schema` and of `validate_value` never runs out before their work is done.
  pub validate_value-fuel :
      (fuel : ℕ) (raw : Str) (value : Value N) (path : Str)
      → length raw < fuel
      → (unmarshal_from codec fuel raw ≡ unmarshal_schema codec raw)
        × (validate_from codec fuel raw value path ≡ validate_value codec raw value path)
  unfolding unmarshal_schema validate_value
  validate_value-fuel fuel raw value path h = (
    unmarshal_from-fuel codec sliced fuel (suc (length raw)) raw h (omega arith),
    validate_from-fuel fuel (suc (length raw)) raw value path h (omega arith),
  )
