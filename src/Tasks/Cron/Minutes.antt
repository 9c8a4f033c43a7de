-- ===== src/Tasks/Cron/Minutes.antt =====
-- When an entry of a cron submits its task.
use cortex_go.Tasks.Cron.{same_minute, match_spec, minute, tick_entry, CronEntry, Calendar}
use cortex_go.Prelude.{
  ℕ, ◌/◌, ◌≤◌, ◌<◌, ◌≡◌, refl, sym, ap, subst, ◌∙◌, ◌⊎◌, inl, inr, true, false, Option, none, some,
  List, [], ◌∷◌, arith, ◌==◌, Bool-cases, Str, Among, here, there,
}

unfoldable pub note_tick : ℕ → Option Str → List ℕ → List ℕ
note_tick t none ts = ts
note_tick t (some id) ts = t ∷ ts

module _ (calendar : Calendar) where
  -- The ticks at which an entry submits.
  unfoldable pub fired : List ℕ → CronEntry → List ℕ
  fired [] e = []
  fired (t ∷ ts) e = note_tick t (tick_entry calendar t e).1 (fired ts (tick_entry calendar t e).0)

  -- Ticks in order, none before `low` and none at the zero time.
  abbrev pub IsClock : ℕ → List ℕ → Type 0
  IsClock low [] = Unit
  IsClock low (t ∷ ts) = (low ≤ t) × (0 < t) × IsClock t ts

  -- Each in a later minute than the one before, and all at times that the spec matches.
  abbrev pub AreApart : Str → ℕ → List ℕ → Type 0
  AreApart spec last [] = Unit
  AreApart spec last (t ∷ ts) =
      ((last ≡ 0) ⊎ (last / minute < t / minute))
      × (match_spec calendar spec t ≡ true)
      × AreApart spec t ts

  -- Whether an entry submits.
  tick_entry-cases :
      (t : ℕ) (e : CronEntry)
      → (((same_minute e.last t ≡ true) ⊎ (match_spec calendar e.spec t ≡ false))
          × (tick_entry calendar t e ≡ (e, none)))
        ⊎ ((same_minute e.last t ≡ false)
            × (match_spec calendar e.spec t ≡ true)
            × (tick_entry calendar t e ≡ (record e { last = t }, some (e.task t))))
  unfolding tick_entry
  tick_entry-cases t e = elim (Bool-cases (same_minute e.last t)) [
    | inl s ↦ inl (inl s, rw s refl)
    | inr s ↦ elim (Bool-cases (match_spec calendar e.spec t)) [
      | inr m ↦ inl (inr m, rw s (rw m refl))
      | inl m ↦ inr (s, m, rw s (rw m refl))
    ]
  ]

  fired-cons :
      (t : ℕ) (ts : List ℕ) (e : CronEntry) (q : CronEntry × Option Str)
      → tick_entry calendar t e ≡ q
      → fired (t ∷ ts) e ≡ note_tick t q.1 (fired ts q.0)
  unfolding fired
  fired-cons t ts e q h = ap (λ (p : CronEntry × Option Str). note_tick t p.1 (fired ts p.0)) h

  IsClock-later : (low t : ℕ) (ts : List ℕ) → low ≤ t → IsClock t ts → IsClock low ts
  IsClock-later low t [] h k = tt
  IsClock-later low t (u ∷ ts) h (a, b, c) = (omega arith, b, c)

  same_minute-false :
      (a b : ℕ) → a ≤ b → same_minute a b ≡ false → (a ≡ 0) ⊎ (a / minute < b / minute)
  unfolding same_minute
  same_minute-false a b h n = elim (Bool-cases (a == 0)) [
    | inl z ↦ inl (ground arith)
    | inr z ↦ inr (let differ : (a / minute == b / minute) ≡ false = ground arith in ground arith)
  ]

  fired-AreApart :
      (ts : List ℕ) (e : CronEntry) → IsClock e.last ts → AreApart e.spec e.last (fired ts e)
  unfolding fired note_tick
  fired-AreApart [] e h = tt
  fired-AreApart (t ∷ ts) e (low, positive, later) = elim (tick_entry-cases t e) [
    | inl (why, same) ↦
        subst (AreApart e.spec e.last) (sym (fired-cons t ts e (e, none) same))
          (fired-AreApart ts e (IsClock-later e.last t ts low later))
    | inr (s, m, new) ↦
        subst (AreApart e.spec e.last)
          (sym (fired-cons t ts e (record e { last = t }, some (e.task t)) new))
          (same_minute-false e.last t low s, m, fired-AreApart ts (record e { last = t }) later)
  ]

  -- An entry that was fired in the minute of a time before, or among the ticks.
  abbrev IsServed : ℕ → ℕ → List ℕ → Type 0
  IsServed last t ts =
      (same_minute last t ≡ true) ⊎ ((u : ℕ) × Among u ts × (u / minute ≡ t / minute))

  fired-IsServed :
      (t : ℕ) (e : CronEntry) (ts : List ℕ)
      → IsClock e.last ts
      → match_spec calendar e.spec t ≡ true
      → Among t ts
      → IsServed e.last t (fired ts e)
  unfolding note_tick same_minute
  fired-IsServed t e _ h m (here {xs = ts}) = elim (tick_entry-cases t e) [
    | inl (inl s, same) ↦ inl s
    | inl (inr n, same) ↦ absurd (let p : true ≡ false = sym m ∙ n in cc p)
    | inr (s, k, new) ↦
        subst (IsServed e.last t)
          (sym (fired-cons t ts e (record e { last = t }, some (e.task t)) new))
          (inr (t, here, refl))
  ]
  fired-IsServed t e _ h m (there {y = u} {xs = ts} a) = elim (tick_entry-cases u e) [
    | inl (why, same) ↦
        subst (IsServed e.last t) (sym (fired-cons u ts e (e, none) same))
          (fired-IsServed t e ts (IsClock-later e.last u ts h.0 h.2) m a)
    | inr (s, k, new) ↦
        subst (IsServed e.last t)
          (sym (fired-cons u ts e (record e { last = u }, some (e.task u)) new))
          (elim (fired-IsServed t (record e { last = u }) ts h.2 m a) [
            | inl served ↦ inr (u, here, ground arith)
            | inr (v, b, q) ↦ inr (v, there b, q)
          ])
  ]

  -- Whatever the times of the ticks are, as long as they go on and are not the zero time: an entry that
  -- was just added submits its task at ticks that its spec matches and that lie in minutes of their
  -- own, in order; and in the minute of a tick that the spec matches it does submit it.
  pub fired-once :
      (spec : Str) (task : ℕ → Str) (ts : List ℕ) (t : ℕ)
      → IsClock 0 ts
      → match_spec calendar spec t ≡ true
      → Among t ts
      → AreApart spec 0 (fired ts (record { spec = spec; task = task; last = 0 }))
        × ((u : ℕ) × Among u (fired ts (record { spec = spec; task = task; last = 0 }))
            × (u / minute ≡ t / minute))
  unfolding same_minute
  fired-once spec task ts t h m a =
      let e : CronEntry = record { spec = spec; task = task; last = 0 } in
      (
        fired-AreApart ts e h,
        elim (fired-IsServed t e ts h m a) [ inl s ↦ absurd (ground arith) | inr served ↦ served ],
      )
