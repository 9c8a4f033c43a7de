-- ===== src/Api/Limiter.antt =====
-- internal/api/access.go: `SlidingWindowLimiter`. Times are nanoseconds; `now` is the clock's
-- reading at the call. `old.Before(now.Add(-window))` is `old + window < now`.
pub mod Window
use cortex_go.Prelude.{
  ℕ, ◌+◌, ◌-◌, Bool, true, false, none, some, List, [], ◌∷◌, ◌++◌, ltb, leb, if◌then◌else◌, length,
  ℤ, pos_part, is_pos, Str, Dict, lookup, put,
}

pub record Limiter : Type 0 where
  pub limit : ℕ
  pub window : ℕ
  pub hits : Dict (List ℕ)

-- time.Minute
abbrev pub minute : ℕ
minute = 60_000_000_000

unfoldable pub new_limiter : ℤ → ℤ → Limiter
new_limiter limit window = record {
  limit = if is_pos limit then pos_part limit else 1;
  window = if is_pos window then pos_part window else minute;
  hits = [];
}

-- l.hits[key]
unfoldable pub hits_of : Dict (List ℕ) → Str → List ℕ
hits_of hits key = elim (lookup key hits) [ none ↦ [] | some old ↦ old ]

-- for i < len(old) && old[i].Before(cutoff) { i++ }; old = old[i:]
unfoldable pub recent : ℕ → ℕ → List ℕ → List ℕ
recent window now [] = []
recent window now (t ∷ old) =
    let rest = recent window now old in if ltb (t + window) now then rest else t ∷ old

-- old[0].Add(l.window).Sub(now)
unfoldable pub retry_after : ℕ → ℕ → List ℕ → ℕ
retry_after window now [] = 0
retry_after window now (t ∷ old) = t + window - now

unfoldable pub allow : Limiter → Str → ℕ → (Bool × ℕ) × Limiter
allow l key now =
    let old = recent l.window now (hits_of l.hits key) in
    if leb l.limit (length old)
    then ((false, retry_after l.window now old), l)
    else ((true, 0), record l { hits = put key (old ++ now ∷ []) l.hits })
