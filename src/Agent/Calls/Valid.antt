-- ===== src/Agent/Calls/Valid.antt =====
-- Which tool calls `validateToolCalls` accepts.
use cortex_go.Prelude.{
  ◌≡◌, refl, ◌≢◌, ◌↔◌, ◌⊎◌, inl, inr, true, false, none, List, [], ◌∷◌, arith, Bool-cases, Str,
  bytes, str_eq_iff, trim_space, is_empty,
}
use cortex_go.Provider.{ToolCall}
use cortex_go.Agent.Config.{Json}
use cortex_go.Agent.Calls.{contains, validate_function, validate_from, validate_tool_calls}

-- The ID is not among those given.
abbrev pub Fresh : Str → List Str → Type 0
Fresh id [] = Unit
Fresh id (s ∷ seen) = (s ≢ id) × Fresh id seen

-- A call of a function with a name, whose arguments are blank or JSON.
pub record IsFunction (json : Json) (c : ToolCall) : Type 0 where
  pub function_kind : c.kind ≡ bytes "function"
  pub has_name : trim_space c.function.name ≢ []
  pub arguments_valid :
      (trim_space c.function.arguments ≡ []) ⊎ (json.valid (trim_space c.function.arguments) ≡ true)

-- Calls with IDs that differ from each other and from those seen, each of a function.
abbrev pub AreValid : Json → List Str → List ToolCall → Type 0
AreValid json seen [] = Unit
AreValid json seen (c ∷ cs) =
    (c.id ≢ []) × Fresh c.id seen × IsFunction json c × AreValid json (c.id ∷ seen) cs

contains-false : (id : Str) (seen : List Str) → contains id seen ≡ false → Fresh id seen
unfolding contains
contains-false id [] h = tt
contains-false id (s ∷ seen) h =
    (ground (arith, str_eq_iff s id), contains-false id seen (ground arith))

Fresh-contains : (id : Str) (seen : List Str) → Fresh id seen → contains id seen ≡ false
unfolding contains
Fresh-contains id [] h = refl
Fresh-contains id (s ∷ seen) h = ground (arith, str_eq_iff s id, h.0, Fresh-contains id seen h.1)

is_empty-true {ℓ} : {A : Type ℓ} (xs : List A) → is_empty xs ≡ true → xs ≡ []
is_empty-true [] h = refl
is_empty-true (x ∷ xs) h = cc

is_empty-false {ℓ} : {A : Type ℓ} (xs : List A) → is_empty xs ≡ false → xs ≢ []
is_empty-false [] h = cc
is_empty-false (x ∷ xs) h = λ e. cc

ne_nil-is_empty {ℓ} : {A : Type ℓ} (xs : List A) → xs ≢ [] → is_empty xs ≡ false
ne_nil-is_empty [] h = absurd (h refl)
ne_nil-is_empty (x ∷ xs) h = refl

validate_function-IsFunction :
    (json : Json) (c : ToolCall) → validate_function json c ≡ none → IsFunction json c
unfolding validate_function
validate_function-IsFunction json c h = record {
  function_kind = ground (arith, str_eq_iff c.kind (bytes "function"));
  has_name = is_empty-false _ (ground arith);
  arguments_valid = elim (Bool-cases (is_empty (trim_space c.function.arguments))) [
    | inl e ↦ inl (is_empty-true _ e)
    | inr n ↦ inr (ground arith)
  ];
}

IsFunction-function :
    (json : Json) (c : ToolCall) → IsFunction json c → validate_function json c ≡ none
unfolding validate_function
IsFunction-function json c h =
    rw ((str_eq_iff c.kind (bytes "function")).1 h.function_kind, ne_nil-is_empty _ h.has_name)
      (elim h.arguments_valid [ inl e ↦ rw e | inr v ↦ rw v (ground arith) ])

valid-from :
    (json : Json) (seen : List Str) (cs : List ToolCall)
    → validate_from json seen cs ≡ none
    → AreValid json seen cs
unfolding validate_from
valid-from json seen [] h = tt
valid-from json seen (c ∷ cs) h = (
  is_empty-false _ (ground arith),
  contains-false c.id seen (ground arith),
  validate_function-IsFunction json c (ground arith),
  valid-from json (c.id ∷ seen) cs (ground arith),
)

from-valid :
    (json : Json) (seen : List Str) (cs : List ToolCall)
    → AreValid json seen cs
    → validate_from json seen cs ≡ none
unfolding validate_from
from-valid json seen [] h = refl
from-valid json seen (c ∷ cs) h =
    rw (ne_nil-is_empty _ h.0, Fresh-contains c.id seen h.1, IsFunction-function json c h.2)
      (from-valid json (c.id ∷ seen) cs h.3)

-- `validateToolCalls` reports no error exactly for calls with IDs, all different, of type "function",
-- with a function name that is not blank, and with arguments that are blank or valid JSON.
pub validate_tool_calls_iff :
    (json : Json) (cs : List ToolCall) → (validate_tool_calls json cs ≡ none) ↔ AreValid json [] cs
unfolding validate_tool_calls
validate_tool_calls_iff json cs = (valid-from json [] cs, from-valid json [] cs)
