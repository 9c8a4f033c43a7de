-- ===== src/Memory/Compact/Cut.antt =====
-- Where `Compact` cuts a conversation, how many messages it returns, and that the cut never parts
-- a tool result from the assistant's call.
use native.Mathlib.Decide.{ℕ_discrete}
use cortex_go.Prelude.{
  ℕ, zero, suc, ◌+◌, ◌-◌, ◌≤◌, ◌<◌, ◌≡◌, refl, sym, ap, ◌∙◌, ◌↔◌, ◌⊎◌, inl, inr, Bool, true, false,
  not, ◌&&◌, ◌||◌, Option, none, some, List, [], ◌∷◌, arith, leb, Bool-cases, length, take, drop,
  length-drop, ℤ, Str, str_eq, is_empty, pos, negsuc,
}
use cortex_go.Errors.{ok, Result-cases}
use cortex_go.Provider.{Message, tool}
use cortex_go.Memory.Compact.{
  SummaryFunc, is_tool_at, retreat, summarize_before, compact, summary_message,
}

retreat-le : (ms : List Message) (cut : ℕ) → retreat ms cut ≤ cut
unfolding retreat
retreat-le ms zero = omega arith
retreat-le ms (suc cut) = ground (arith, retreat-le ms cut)

is_tool_at-lt : (ms : List Message) (i : ℕ) → is_tool_at ms i ≡ true → i < length ms
unfolding is_tool_at
is_tool_at-lt [] i h = cc
is_tool_at-lt (m ∷ ms) zero h = omega arith
is_tool_at-lt (m ∷ ms) (suc i) h = omega (arith, is_tool_at-lt ms i h)

retreat_stays : (ms : List Message) (cut : ℕ) → is_tool_at ms cut ≡ false → retreat ms cut ≡ cut
unfolding retreat
retreat_stays ms zero h = refl
retreat_stays ms (suc cut) h = ground arith

retreat_moves :
    (ms : List Message) (cut : ℕ)
    → is_tool_at ms (suc cut) ≡ true
    → retreat ms (suc cut) ≡ retreat ms cut
unfolding retreat
retreat_moves ms cut h = ground (arith, is_tool_at-lt ms (suc cut))

retreat-not-tool :
    (ms : List Message) (cut : ℕ) → (retreat ms cut ≡ 0) ⊎ (is_tool_at ms (retreat ms cut) ≡ false)
unfolding retreat
retreat-not-tool ms zero = inl refl
retreat-not-tool ms (suc cut) = elim (Bool-cases (is_tool_at ms (suc cut))) [
  | inl t ↦ rw (retreat_moves ms cut t) (retreat-not-tool ms cut)
  | inr f ↦ rw (retreat_stays ms (suc cut) f) (inr f)
]

-- Between where the loop stops and where it started there are tool results only.
retreat_skips :
    (ms : List Message) (cut i : ℕ) → retreat ms cut < i → i ≤ cut → is_tool_at ms i ≡ true
unfolding retreat
retreat_skips ms zero i h k = absurd (omega arith)
retreat_skips ms (suc cut) i h k = elim (Bool-cases (is_tool_at ms (suc cut))) [
  | inl t ↦ elim (ℕ_discrete i (suc cut)) [
    | yes e ↦ rw e t
    | no ne ↦ retreat_skips ms cut i (omega (arith, retreat_moves ms cut t)) (omega arith)
  ]
  | inr f ↦ absurd (omega (arith, retreat_stays ms (suc cut) f))
]

summarize_before-eq-ok :
    (f : SummaryFunc) (cut : ℕ) (ms : List Message) {r : List Message}
    → summarize_before f cut ms ≡ ok r
    → (s : Str) × (f (take cut ms) ≡ ok s) × (r ≡ summary_message s ∷ drop cut ms)
unfolding summarize_before
summarize_before-eq-ok f cut ms h = elim (Result-cases (f (take cut ms))) [
  | inl (s, e) ↦ (s, e, cc (rw (e, summarize_before) at h))
  | inr (e, p) ↦ cc (rw (p, summarize_before) at h)
]

-- The cut from which the loop starts.
abbrev pub first_cut : List Message → ℕ → ℕ
first_cut ms limit = length ms - limit + 1

-- A cut that the loop may stop at: not on a tool result, unless it is 0, and over tool results only.
pub record IsCut (ms : List Message) (limit cut : ℕ) : Type 0 where
  pub bounded : cut ≤ first_cut ms limit
  pub not_on_tool : (cut ≡ 0) ⊎ (is_tool_at ms cut ≡ false)
  pub over_tools : (i : ℕ) → cut < i → i ≤ first_cut ms limit → is_tool_at ms i ≡ true

compact-eq-retreat :
    (ms : List Message) (limit : ℕ) (f : SummaryFunc)
    → 0 < limit
    → limit < length ms
    → compact ms (pos limit) (some f) ≡ summarize_before f (retreat ms (first_cut ms limit)) ms
unfolding compact
compact-eq-retreat ms limit f h k = ground arith

-- A conversation of more than `limit` messages, for a positive limit, is cut at the last place at or
-- before `length - limit + 1` that holds no tool result (or at 0), and what stands before the cut is
-- replaced by its summary.
pub compact-IsCut :
    (ms : List Message) (limit : ℕ) (f : SummaryFunc)
    → 0 < limit
    → limit < length ms
    → (cut : ℕ) × (compact ms (pos limit) (some f) ≡ summarize_before f cut ms) × IsCut ms limit cut
compact-IsCut ms limit f h k = (
  retreat ms (first_cut ms limit),
  compact-eq-retreat ms limit f h k,
  record {
    bounded = retreat-le ms (first_cut ms limit);
    not_on_tool = retreat-not-tool ms (first_cut ms limit);
    over_tools = retreat_skips ms (first_cut ms limit);
  },
)

length-summarize_before :
    (f : SummaryFunc) (cut : ℕ) (ms : List Message) {r : List Message}
    → summarize_before f cut ms ≡ ok r
    → length r ≡ suc (length ms - cut)
length-summarize_before f cut ms h =
    let (s, _, e) = summarize_before-eq-ok f cut ms h in ap length e ∙ ap suc (length-drop cut ms)

retreat-lt :
    (ms : List Message) (cut : ℕ) → is_tool_at ms (suc cut) ≡ true → retreat ms (suc cut) ≤ cut
retreat-lt ms cut h = rw (retreat_moves ms cut h) (retreat-le ms cut)

-- A compacted conversation has at most `limit` messages exactly when no tool result stands at
-- `length - limit + 1`: otherwise the cut moves back, and the result is longer than the limit.
pub length-compact-le_iff :
    (ms : List Message) (limit : ℕ) (f : SummaryFunc) (r : List Message)
    → 0 < limit
    → limit < length ms
    → compact ms (pos limit) (some f) ≡ ok r
    → (length r ≤ limit) ↔ (is_tool_at ms (first_cut ms limit) ≡ false)
length-compact-le_iff ms limit f r h k e =
    let cut = length ms - limit in
    let one : first_cut ms limit ≡ suc cut = omega arith in
    let len =
      length-summarize_before f (retreat ms (first_cut ms limit)) ms
        (sym (compact-eq-retreat ms limit f h k) ∙ e) in
    rw one (
      λ le. elim (Bool-cases (is_tool_at ms (suc cut))) [
        | inl t ↦ absurd (omega (arith, retreat-lt ms cut t, ap (retreat ms) one))
        | inr n ↦ n
      ],
      λ n. omega (arith, retreat_stays ms (suc cut) n, ap (retreat ms) one),
    )

-- Whether each tool result stands behind an assistant's message with tool calls, with only tool
-- results between; `ready` says whether one may stand first.
unfoldable pub linked : Bool → List Message → Bool
linked ready [] = true
linked ready (m ∷ ms) =
    let answers = str_eq m.role tool in
    (not answers || ready) && linked (answers || not (is_empty m.tool_calls)) ms

linked_weaken :
    (ms : List Message) (ready : Bool)
    → linked ready ms ≡ true
    → is_tool_at ms 0 ≡ false
    → linked false ms ≡ true
unfolding linked is_tool_at
linked_weaken [] ready h k = refl
linked_weaken (m ∷ ms) ready h k = ground arith

linked-drop :
    (ms : List Message) (cut : ℕ) (ready : Bool)
    → linked ready ms ≡ true
    → is_tool_at ms cut ≡ false
    → linked false (drop cut ms) ≡ true
unfolding linked is_tool_at
linked-drop ms zero ready h k = linked_weaken ms ready h k
linked-drop [] (suc cut) ready h k = refl
linked-drop (m ∷ ms) (suc cut) ready h k =
    linked-drop ms cut (str_eq m.role tool || not (is_empty m.tool_calls)) (ground arith) k

linked-retreat :
    (ms : List Message) (cut : ℕ)
    → linked false ms ≡ true
    → linked false (drop (retreat ms cut) ms) ≡ true
linked-retreat ms cut h = elim (retreat-not-tool ms cut) [
  | inl z ↦ rw z h
  | inr n ↦ linked-drop ms (retreat ms cut) false h n
]

linked-summary :
    (s : Str) (ms : List Message) → linked false (summary_message s ∷ ms) ≡ linked false ms
unfolding linked str_eq
linked-summary s ms = refl

-- If each tool result of a conversation follows its assistant's call, so does each of the
-- conversation that `compact` returns, whatever the limit and the summary.
pub compact-linked :
    (ms : List Message) (limit : ℤ) (f : Option SummaryFunc) (r : List Message)
    → linked false ms ≡ true
    → compact ms limit f ≡ ok r
    → linked false r ≡ true
unfolding compact
compact-linked ms (negsuc n) f r h e = ground arith
compact-linked ms (pos limit) none r h e = ground arith
compact-linked ms (pos limit) (some f) r h e =
    elim (Bool-cases (leb limit 0 || leb (length ms) limit)) [
      | inl small ↦ ground arith
      | inr big ↦
          let (s, _, p) =
            summarize_before-eq-ok f (retreat ms (first_cut ms limit)) ms
              (sym (compact-eq-retreat ms limit f (ground arith) (ground arith)) ∙ e) in
          rw (p, linked-summary) (linked-retreat ms (first_cut ms limit) h)
    ]
