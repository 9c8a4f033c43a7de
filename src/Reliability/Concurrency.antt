-- ===== src/Reliability/Concurrency.antt =====
-- internal/reliability/reliability.go: `Concurrency`. Its channel is how many values it holds; the
-- callers that hold a place are counted beside it.
use cortex_go.Prelude.{
  ℕ, ◌+◌, ◌-◌, ◌≤◌, ◌<◌, ◌≡◌, refl, sym, ap, ◌∙◌, inl, inr, Option, none, some, arith, ltb,
  if◌then◌else◌, Bool-cases, ℤ, pos_part,
}

-- The buffered channel `sem`
pub record Concurrency : Type 0 where
  pub capacity : ℕ
  pub held : ℕ

-- NewConcurrency
unfoldable pub new_concurrency : ℤ → Concurrency
new_concurrency limit = record {
  capacity = if ltb (pos_part limit) 1 then 1 else pos_part limit;
  held = 0;
}

-- case c.sem <- struct{}{}, where it is ready; or else Acquire waits, or returns the context's error.
unfoldable pub acquire : Concurrency → Option Concurrency
acquire c = if ltb c.held c.capacity then some (record c { held = c.held + 1 }) else none

-- Release, which does nothing on an empty channel
unfoldable pub release : Concurrency → Concurrency
release c = if ltb 0 c.held then record c { held = c.held - 1 } else c

-- The channel, the callers that acquired and have not released, and how often Release was called by
-- one that did not hold a place.
pub record Users : Type 0 where
  pub sem : Concurrency
  pub holders : ℕ
  pub strays : ℕ

pub data UsersStep (u : Users) : Users → Type 0 where
  acquired :
      {c : Concurrency}
      → acquire u.sem ≡ some c
      → UsersStep u (record u { sem = c; holders = u.holders + 1 })
  released : 0 < u.holders → UsersStep u (record u { sem = release u.sem; holders = u.holders - 1 })
  strayed : UsersStep u (record u { sem = release u.sem; strays = u.strays + 1 })

pub data UsersReachable (limit : ℤ) : Users → Type 0 where
  initial : UsersReachable limit (record { sem = new_concurrency limit; holders = 0; strays = 0 })
  next : {u v : Users} → UsersReachable limit u → UsersStep u v → UsersReachable limit v

-- The places that are taken, and those that strays gave away, are at least those that are held.
record IsFair (limit : ℤ) (u : Users) : Type 0 where
  size : u.sem.capacity ≡ (new_concurrency limit).capacity
  room : u.sem.held ≤ u.sem.capacity
  counted : u.holders ≤ u.sem.held + u.strays

acquire-eq-some :
    (c d : Concurrency)
    → acquire c ≡ some d
    → (c.held < c.capacity) × (d ≡ record c { held = c.held + 1 })
unfolding acquire
acquire-eq-some c d h = elim (Bool-cases (ltb c.held c.capacity)) [
  | inl e ↦
      (let p : some (record c { held = c.held + 1 }) ≡ some d = rw (e, acquire) at h in
        (ground arith, sym (cc p)))
  | inr e ↦ (let p : none ≡ some d = rw (e, acquire) at h in cc p)
]

release_bounds :
    (c : Concurrency)
    → ((release c).capacity ≡ c.capacity)
      × ((release c).held ≤ c.held)
      × (c.held ≤ (release c).held + 1)
unfolding release
release_bounds c = ground arith

-- Release by anyone: it gives back one place at most.
release-IsFair :
    (limit : ℤ) (u : Users) (holders strays : ℕ)
    → holders + u.strays + 1 ≤ u.holders + strays
    → IsFair limit u
    → IsFair limit (record { sem = release u.sem; holders = holders; strays = strays })
release-IsFair limit u holders strays p h =
    let (same, less, one) = release_bounds u.sem in
    record {
      size = same ∙ h.size;
      room = omega (arith, h.room);
      counted = omega (arith, h.counted);
    }

step-IsFair : (limit : ℤ) (u v : Users) → UsersStep u v → IsFair limit u → IsFair limit v
step-IsFair limit u v (acquired {c} e) h =
    let (free, same) = acquire-eq-some u.sem c e in
    record {
      size = ap (λ d. d.capacity) same ∙ h.size;
      room = omega (arith, ap (λ d. d.capacity) same, ap (λ d. d.held) same);
      counted = omega (arith, h.counted, ap (λ d. d.held) same);
    }
step-IsFair limit u v (released p) h =
    release-IsFair limit u (u.holders - 1) u.strays (omega arith) h
step-IsFair limit u v strayed h = release-IsFair limit u u.holders (u.strays + 1) (omega arith) h

UsersReachable-IsFair : (limit : ℤ) (u : Users) → UsersReachable limit u → IsFair limit u
unfolding new_concurrency
UsersReachable-IsFair limit u initial = record {
  size = refl;
  room = omega arith;
  counted = omega arith;
}
UsersReachable-IsFair limit u (next {u = v} r s) =
    step-IsFair limit v u s (UsersReachable-IsFair limit v r)

-- At no time are there more holders than the limit (or one, where that is less) and the calls of
-- Release by callers that held no place.
pub holders_bounded :
    (limit : ℤ) (u : Users)
    → UsersReachable limit u
    → u.holders ≤ (if ltb (pos_part limit) 1 then 1 else pos_part limit) + u.strays
unfolding new_concurrency
holders_bounded limit u r =
    (let h = UsersReachable-IsFair limit u r in omega (arith, h.size, h.room, h.counted))
