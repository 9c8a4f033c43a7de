-- ===== src/Api/Limiter/Window.antt =====
-- The promise of the limiter: no window holds more accepted calls of a key than the limit.
use cortex_go.Prelude.{
  ℕ, ◌+◌, ◌≤◌, ◌<◌, ◌≡◌, refl, sym, ap, subst, ◌∙◌, inl, inr, true, false, ◌&&◌, some, List, [],
  ◌∷◌, ◌++◌, append-nil, append_assoc, arith, ltb, leb, if◌then◌else◌, ltb→lt, Bool-cases, length,
  get_elem?, All, length-append, All-append, get_elem?-lt, get_elem?-append_left, get_elem?-snoc,
  All-get_elem?, Str, str_eq, str_eq_iff, Dict, lookup, put, lookup-put,
}
use cortex_go.Api.Limiter.{Limiter, hits_of, recent, allow}

-- Elements that stand `limit` places apart are more than `window` apart.
abbrev pub Spaced : ℕ → ℕ → List ℕ → Type 0
Spaced limit window log =
    (i x y : ℕ) → get_elem? log i ≡ some x → get_elem? log (i + limit) ≡ some y → x + window < y

-- The calls, each of a key at a time, go forward in time.
abbrev pub Ascending : ℕ → List (Str × ℕ) → Type 0
Ascending start [] = Unit
Ascending start ((key, now) ∷ calls) = (start ≤ now) × Ascending now calls

-- The times at which the calls of one key are accepted.
unfoldable pub accepted : Str → Limiter → List (Str × ℕ) → List ℕ
accepted key l [] = []
accepted key l ((k, now) ∷ calls) =
    let (answer, l') = allow l k now in
    let rest = accepted key l' calls in if answer.0 && str_eq k key then now ∷ rest else rest

-- The accepted times of a key so far: those dropped, which are out of the window, and those kept.
record Tracks (l : Limiter) (key : Str) (now : ℕ) (log : List ℕ) : Type 0 where
  gone : List ℕ
  split : log ≡ gone ++ hits_of l.hits key
  old : All (λ x. x + l.window < now) gone
  spaced : Spaced l.limit l.window log

recent-split :
    (window now : ℕ) (old : List ℕ)
    → (dropped : List ℕ) × (old ≡ dropped ++ recent window now old)
      × All (λ x. x + window < now) dropped
unfolding recent
recent-split window now [] = ([], refl, tt)
recent-split window now (t ∷ old) = elim (Bool-cases (ltb (t + window) now)) [
  | inl gone ↦
      let (dropped, e, h) = recent-split window now old in
      (t ∷ dropped, rw gone (ap (◌∷◌ t) e), (ltb→lt (t + window) now gone, h))
  | inr stays ↦ ([], rw stays refl, tt)
]

All-later :
    (window now now' : ℕ) (xs : List ℕ)
    → now ≤ now'
    → All (λ x. x + window < now) xs
    → All (λ x. x + window < now') xs
All-later window now now' [] le h = tt
All-later window now now' (x ∷ xs) le h = (omega arith, All-later window now now' xs le h.1)

Spaced-snoc :
    (limit window now : ℕ) (gone kept : List ℕ)
    → Spaced limit window (gone ++ kept)
    → All (λ x. x + window < now) gone
    → length kept < limit
    → Spaced limit window ((gone ++ kept) ++ now ∷ [])
Spaced-snoc limit window now gone kept spaced old few i x y hx hy =
    let log = gone ++ kept in
    elim (get_elem?-snoc log now (i + limit) y hy) [
      | inl hy' ↦
          let far = get_elem?-lt log (i + limit) hy' in
          spaced i x y (sym (get_elem?-append_left log (now ∷ []) i (omega arith)) ∙ hx) hy'
      | inr (last, e) ↦
          let len = length-append gone kept in
          let near : i < length gone = omega (arith, len, last) in
          let in_log = sym (get_elem?-append_left log (now ∷ []) i (omega arith)) ∙ hx in
          let in_gone = sym (get_elem?-append_left gone kept i near) ∙ in_log in
          subst (λ z. x + window < z) e (All-get_elem? (λ z. z + window < now) gone i x old in_gone)
    ]

hits_of-put :
    (k j : Str) (h : List ℕ) (d : Dict (List ℕ))
    → hits_of (put k h d) j ≡ (if str_eq k j then h else hits_of d j)
unfolding hits_of
hits_of-put k j h d = ground (arith, lookup-put k j h d)

Tracks-later :
    (l : Limiter) (key : Str) (now now' : ℕ) (log : List ℕ)
    → now ≤ now'
    → Tracks l key now log
    → Tracks l key now' log
Tracks-later l key now now' log le t = record {
  gone = t.gone;
  split = t.split;
  old = All-later l.window now now' t.gone le t.old;
  spaced = t.spaced;
}

-- The limiter after an accepted call.
abbrev accept : Limiter → Str → ℕ → Limiter
accept l k now = record l {
  hits = put k (recent l.window now (hits_of l.hits k) ++ now ∷ []) l.hits;
}

Tracks-accept_other :
    (l : Limiter) (key k : Str) (now : ℕ) (log : List ℕ)
    → str_eq k key ≡ false
    → Tracks l key now log
    → Tracks (accept l k now) key now log
Tracks-accept_other l key k now log other t = record {
  gone = t.gone;
  split = rw (hits_of-put, other) t.split;
  old = t.old;
  spaced = t.spaced;
}

Tracks-accept_self :
    (l : Limiter) (key k : Str) (now : ℕ) (log : List ℕ)
    → str_eq k key ≡ true
    → length (recent l.window now (hits_of l.hits k)) < l.limit
    → Tracks l key now log
    → Tracks (accept l k now) key now (log ++ now ∷ [])
Tracks-accept_self l key k now log same few t =
    let kept = recent l.window now (hits_of l.hits key) in
    let (dropped, e, out) = recent-split l.window now (hits_of l.hits key) in
    let name : k ≡ key = (str_eq_iff k key).0 same in
    let parts : log ≡ (t.gone ++ dropped) ++ kept =
      t.split ∙ ap (λ h. t.gone ++ h) e ∙ sym (append_assoc t.gone dropped kept) in
    let old = All-append (λ x. x + l.window < now) t.gone dropped t.old out in
    record {
      gone = t.gone ++ dropped;
      split =
          rw (hits_of-put, same, name, parts) (append_assoc (t.gone ++ dropped) kept (now ∷ []));
      old = old;
      spaced = rw parts (
          Spaced-snoc l.limit l.window now (t.gone ++ dropped) kept (rw parts at t.spaced) old
            (rw name at few));
    }

accepted-Tracks :
    (key : Str) (l : Limiter) (start : ℕ) (log : List ℕ) (calls : List (Str × ℕ))
    → Tracks l key start log
    → Ascending start calls
    → Spaced l.limit l.window (log ++ accepted key l calls)
unfolding accepted allow
accepted-Tracks key l start log [] t h = rw append-nil t.spaced
accepted-Tracks key l start log ((k, now) ∷ calls) t h =
    let t' = Tracks-later l key start now log h.0 t in
    elim (Bool-cases (leb l.limit (length (recent l.window now (hits_of l.hits k))))) [
      | inl full ↦ rw full (accepted-Tracks key l now log calls t' h.1)
      | inr room ↦ elim (Bool-cases (str_eq k key)) [
        | inl same ↦ rw room (
            rw same (
              rw (← append_assoc log (now ∷ []) (accepted key (accept l k now) calls)) (
                accepted-Tracks key (accept l k now) now (log ++ now ∷ []) calls
                  (Tracks-accept_self l key k now log same (ground arith) t') h.1)))
        | inr other ↦ rw room (
            rw other (
              accepted-Tracks key (accept l k now) now log calls
                (Tracks-accept_other l key k now log other t') h.1))
      ]
    ]

-- For a limiter with no hits yet and calls that go forward in time, of the accepted calls of one key
-- each is more than a window later than the one `limit` places before: no span of time as long as the
-- window holds more than `limit` accepted calls of a key, whatever the other keys do.
pub accepted-Spaced :
    (key : Str) (limit window : ℕ) (start : ℕ) (calls : List (Str × ℕ))
    → Ascending start calls
    → Spaced limit window
        (accepted key (record { limit = limit; window = window; hits = [] }) calls)
unfolding hits_of lookup
accepted-Spaced key limit window start calls h =
    accepted-Tracks key (record { limit = limit; window = window; hits = [] }) start [] calls
      (record { gone = []; split = refl; old = tt; spaced = λ i x y e. cc }) h
