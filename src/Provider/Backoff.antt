-- ===== src/Provider/Backoff.antt =====
-- internal/provider/provider.go: `retryDelay`. Durations are in nanoseconds.
use cortex_go.Prelude.{
  ℕ, zero, suc, ◌*◌, ◌^◌, ◌≤◌, ◌<◌, min, ◌≡◌, ap, ◌∙◌, inl, inr, not, arith, ltb, leb,
  if◌then◌else◌, ltb→lt, leb→le, Bool-cases, ℤ, pos_part, is_pos,
}

-- 100 * time.Millisecond, 5 * time.Second and 2500 * time.Millisecond
abbrev pub least_delay : ℕ
least_delay = 100_000_000

abbrev pub most_delay : ℕ
most_delay = 5_000_000_000

abbrev half_most : ℕ
half_most = 2_500_000_000

-- The base that the loop starts from.
unfoldable pub base_delay : ℤ → ℕ
base_delay base =
    if not (is_pos base)
    then least_delay
    else if ltb most_delay (pos_part base)
    then most_delay
    else pos_part base

-- for range attempt { ... }, and the test behind it
unfoldable pub double_delay : ℕ → ℕ → ℕ
double_delay zero delay = if ltb most_delay delay then most_delay else delay
double_delay (suc attempt) delay =
    let rest = double_delay attempt (delay * 2) in if leb half_most delay then most_delay else rest

unfoldable pub retry_delay : ℤ → ℕ → ℕ
retry_delay base attempt = double_delay attempt (base_delay base)

pow-pos : (n : ℕ) → 0 < 2 ^ n
pow-pos zero = omega arith
pow-pos (suc n) = omega (arith, pow-pos n)

mul-pow : (d n : ℕ) → d * 2 * 2 ^ n ≡ d * 2 ^ suc n
mul-pow d n = grind arith

le-mul-pow : (d n : ℕ) → d * 2 ≤ d * 2 ^ suc n
le-mul-pow d n = (let h : 0 < 2 ^ n = pow-pos n in grind arith)

double_delay-eq-min :
    (attempt delay : ℕ)
    → 0 < delay
    → double_delay attempt delay ≡ min (delay * 2 ^ attempt) most_delay
unfolding double_delay
double_delay-eq-min zero delay h = elim (Bool-cases (ltb most_delay delay)) [
  | inl e ↦ rw e (omega (arith, ltb→lt most_delay delay e))
  | inr n ↦ rw n (let le : delay ≤ most_delay = ground arith in omega arith)
]
double_delay-eq-min (suc attempt) delay h = elim (Bool-cases (leb half_most delay)) [
  | inl e ↦ rw e (
      let le : half_most ≤ delay = leb→le half_most delay e in
      let grows : delay * 2 ≤ delay * 2 ^ suc attempt = le-mul-pow delay attempt in omega arith)
  | inr n ↦ rw n (
      double_delay-eq-min attempt (delay * 2) (omega arith)
      ∙ ap (λ d. min d most_delay) (mul-pow delay attempt))
]

base_delay-pos : (base : ℤ) → 0 < base_delay base
unfolding base_delay
base_delay-pos base = ground arith

-- The delay after an attempt is the base delay, doubled once for each attempt before it, or five
-- seconds where that is less.
pub retry_delay-eq-min :
    (base : ℤ) (attempt : ℕ)
    → retry_delay base attempt ≡ min (base_delay base * 2 ^ attempt) most_delay
unfolding retry_delay
retry_delay-eq-min base attempt =
    double_delay-eq-min attempt (base_delay base) (base_delay-pos base)
