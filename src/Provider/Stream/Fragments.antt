-- ===== src/Provider/Stream/Fragments.antt =====
-- Tool calls are put together from the fragments with their index, in the order of the stream.
use cortex_go.Provider.{ToolCall}
use cortex_go.Provider.Stream.{
  StreamToolCall, CallMap, eq_int, lt_int, zero_call, call_at, put_call, merge_fragment,
  merge_calls, insert_entry, sort_entries,
}
use cortex_go.Prelude.{
  ◌≡◌, refl, sym, ap, subst, ◌∙◌, ◌↔◌, inl, inr, true, false, List, [], ◌∷◌, arith, if◌then◌else◌,
  Bool-cases, All, All-keeps, ℤ, pos, negsuc,
}

eq_int_iff : (i j : ℤ) → (eq_int i j ≡ true) ↔ (i ≡ j)
eq_int_iff (pos a) (pos b) = ground arith
eq_int_iff (pos a) (negsuc b) = ground arith
eq_int_iff (negsuc a) (pos b) = ground arith
eq_int_iff (negsuc a) (negsuc b) = ground arith

call_at-put_call :
    (i j : ℤ) (c : ToolCall) (calls : CallMap)
    → call_at j (put_call i c calls) ≡ (if eq_int i j then c else call_at j calls)
unfolding call_at put_call
call_at-put_call i j c [] = refl
call_at-put_call i j c ((k, d) ∷ calls) =
    ground (arith, eq_int_iff i j, eq_int_iff k i, eq_int_iff k j, call_at-put_call i j c calls)

-- The fragments of one call.
unfoldable pub fragments_of : ℤ → List StreamToolCall → List StreamToolCall
fragments_of i [] = []
fragments_of i (f ∷ fs) =
    let rest = fragments_of i fs in if eq_int f.index i then f ∷ rest else rest

-- A call put together from fragments.
unfoldable pub merge_all : ToolCall → List StreamToolCall → ToolCall
merge_all c [] = c
merge_all c (f ∷ fs) = merge_all (merge_fragment c f) fs

call_at-merge_calls :
    (fs : List StreamToolCall) (calls : CallMap) (i : ℤ)
    → call_at i (merge_calls calls fs) ≡ merge_all (call_at i calls) (fragments_of i fs)
unfolding merge_calls fragments_of merge_all
call_at-merge_calls [] calls i = refl
call_at-merge_calls (f ∷ fs) calls i = elim (Bool-cases (eq_int f.index i)) [
  | inl e ↦ rw e (
      call_at-merge_calls fs _ i
      ∙ ap (λ c. merge_all c (fragments_of i fs))
          (rw e at (call_at-put_call f.index i (merge_fragment (call_at f.index calls) f) calls)
            ∙ ap (λ j. merge_fragment (call_at j calls) f) ((eq_int_iff f.index i).0 e)))
  | inr n ↦ rw n (
      call_at-merge_calls fs _ i
      ∙ ap (λ c. merge_all c (fragments_of i fs))
          (rw n at (call_at-put_call f.index i (merge_fragment (call_at f.index calls) f) calls)))
]

lt_int_trans : (i j k : ℤ) → lt_int i j ≡ true → lt_int j k ≡ true → lt_int i k ≡ true
lt_int_trans (pos a) (pos b) (pos c) p q = ground arith
lt_int_trans (pos a) (pos b) (negsuc c) p q = q
lt_int_trans (pos a) (negsuc b) k p q = cc
lt_int_trans (negsuc a) (pos b) (pos c) p q = refl
lt_int_trans (negsuc a) (pos b) (negsuc c) p q = cc
lt_int_trans (negsuc a) (negsuc b) (pos c) p q = refl
lt_int_trans (negsuc a) (negsuc b) (negsuc c) p q = ground arith

lt_int-total : (i j : ℤ) → lt_int j i ≡ false → eq_int i j ≡ false → lt_int i j ≡ true
lt_int-total (pos a) (pos b) p q = ground arith
lt_int-total (pos a) (negsuc b) p q = cc
lt_int-total (negsuc a) (pos b) p q = refl
lt_int-total (negsuc a) (negsuc b) p q = ground arith

lt_int_irrefl : (i : ℤ) → lt_int i i ≡ false
lt_int_irrefl (pos a) = ground arith
lt_int_irrefl (negsuc a) = ground arith

eq_int-lt : (i j k : ℤ) → lt_int i j ≡ true → eq_int i k ≡ true → eq_int j k ≡ false
eq_int-lt i j k p q = elim (Bool-cases (eq_int j k)) [
  | inr n ↦ n
  | inl e ↦
      let same : i ≡ j = (eq_int_iff i k).0 q ∙ sym ((eq_int_iff j k).0 e) in
      let bad : lt_int j j ≡ true = subst (λ x. lt_int x j ≡ true) same p in
      let good : lt_int j j ≡ false = lt_int_irrefl j in cc (sym bad ∙ good)
]

-- Entries with indexes that go strictly up.
abbrev pub Ascending : CallMap → Type 0
Ascending [] = Unit
Ascending (e ∷ es) = All (λ (d : ℤ × ToolCall). lt_int e.0 d.0 ≡ true) es × Ascending es

-- No entry has the index.
abbrev Lacks : ℤ → CallMap → Type 0
Lacks i es = All (λ (d : ℤ × ToolCall). eq_int i d.0 ≡ false) es

abbrev Distinct : CallMap → Type 0
Distinct [] = Unit
Distinct (e ∷ es) = Lacks e.0 es × Distinct es

insert_entry-All :
    (P : ℤ × ToolCall → Type 0) (e : ℤ × ToolCall) (es : CallMap)
    → P e
    → All P es
    → All P (insert_entry e es)
unfolding insert_entry
insert_entry-All P e [] p h = (p, tt)
insert_entry-All P e (d ∷ ds) p h = elim (Bool-cases (lt_int d.0 e.0)) [
  | inl l ↦ rw l (h.0, insert_entry-All P e ds p h.1)
  | inr n ↦ rw n (p, h)
]

insert_entry-Ascending :
    (e : ℤ × ToolCall) (es : CallMap) → Lacks e.0 es → Ascending es → Ascending (insert_entry e es)
unfolding insert_entry
insert_entry-Ascending e [] h a = (tt, tt)
insert_entry-Ascending e (d ∷ ds) h a = elim (Bool-cases (lt_int d.0 e.0)) [
  | inl l ↦ rw l (insert_entry-All _ e ds l a.0, insert_entry-Ascending e ds h.1 a.1)
  | inr n ↦
      let up : lt_int e.0 d.0 ≡ true = lt_int-total e.0 d.0 n h.0 in
      rw n ((up, All-keeps _ _ ds (λ x p. lt_int_trans e.0 d.0 x.0 up p) a.0), a)
]

call_at-insert_entry :
    (e : ℤ × ToolCall) (es : CallMap) (i : ℤ)
    → call_at i (insert_entry e es) ≡ (if eq_int e.0 i then e.1 else call_at i es)
unfolding insert_entry call_at
call_at-insert_entry e [] i = refl
call_at-insert_entry e (d ∷ ds) i = elim (Bool-cases (lt_int d.0 e.0)) [
  | inr n ↦ rw n
  | inl l ↦ elim (Bool-cases (eq_int d.0 i)) [
    | inl same ↦ rw l (rw (same, eq_int-lt d.0 e.0 i l same))
    | inr other ↦ rw l (rw other (call_at-insert_entry e ds i))
  ]
]

sort_entries-All : (P : ℤ × ToolCall → Type 0) (es : CallMap) → All P es → All P (sort_entries es)
unfolding sort_entries
sort_entries-All P [] h = tt
sort_entries-All P (e ∷ es) h =
    insert_entry-All P e (sort_entries es) h.0 (sort_entries-All P es h.1)

sort_entries-Ascending : (es : CallMap) → Distinct es → Ascending (sort_entries es)
unfolding sort_entries
sort_entries-Ascending [] h = tt
sort_entries-Ascending (e ∷ es) h =
    insert_entry-Ascending e (sort_entries es) (sort_entries-All _ es h.0)
      (sort_entries-Ascending es h.1)

call_at-sort_entries : (es : CallMap) (i : ℤ) → call_at i (sort_entries es) ≡ call_at i es
unfolding sort_entries call_at
call_at-sort_entries [] i = refl
call_at-sort_entries (e ∷ es) i =
    call_at-insert_entry e (sort_entries es) i
    ∙ ap (λ c. if eq_int e.0 i then e.1 else c) (call_at-sort_entries es i)

put_call-Lacks :
    (i j : ℤ) (c : ToolCall) (es : CallMap)
    → eq_int i j ≡ false
    → Lacks i es
    → Lacks i (put_call j c es)
unfolding put_call
put_call-Lacks i j c [] n h = (n, tt)
put_call-Lacks i j c ((k, d) ∷ es) n h = elim (Bool-cases (eq_int k j)) [
  | inl e ↦ rw e (n, h.1)
  | inr o ↦ rw o (h.0, put_call-Lacks i j c es n h.1)
]

put_call-Distinct : (j : ℤ) (c : ToolCall) (es : CallMap) → Distinct es → Distinct (put_call j c es)
unfolding put_call
put_call-Distinct j c [] h = (tt, tt)
put_call-Distinct j c ((k, d) ∷ es) h = elim (Bool-cases (eq_int k j)) [
  | inl e ↦ rw e (subst (λ i. Lacks i es) ((eq_int_iff k j).0 e) h.0, h.1)
  | inr o ↦ rw o (put_call-Lacks k j c es o h.0, put_call-Distinct j c es h.1)
]

merge_calls-Distinct :
    (fs : List StreamToolCall) (es : CallMap) → Distinct es → Distinct (merge_calls es fs)
unfolding merge_calls
merge_calls-Distinct [] es h = h
merge_calls-Distinct (f ∷ fs) es h = merge_calls-Distinct fs _ (put_call-Distinct f.index _ es h)

-- The tool calls of a stream are listed by rising index, each once; and the call of an index is put
-- together from the fragments with that index alone, in the order in which they came.
pub merge_calls-Ascending :
    (fs : List StreamToolCall)
    → Ascending (sort_entries (merge_calls [] fs))
      × ((i : ℤ)
          → call_at i (sort_entries (merge_calls [] fs)) ≡ merge_all zero_call (fragments_of i fs))
unfolding call_at
merge_calls-Ascending fs = (
  sort_entries-Ascending (merge_calls [] fs) (merge_calls-Distinct fs [] tt),
  λ i. call_at-sort_entries (merge_calls [] fs) i ∙ call_at-merge_calls fs [] i,
)
