-- ===== src/Reliability/Budget.antt =====
-- internal/reliability/reliability.go: `Budget`. An amount of money is a float64, of which the code
-- uses addition and `>`. Tokens are an `int` of 64 bits, as its two's complement, since they are the
-- caller's and their sum may wrap; a limit of 0 requests stands for one that is not positive. A time is
-- in nanoseconds, and each call has its own.
pub mod Accounts
pub mod Window
use cortex_go.Errors.{cost_quota, token_quota, request_quota, Error}
use cortex_go.Prelude.{
  ℕ, ◌+◌, ◌-◌, ◌%◌, Bool, ◌&&◌, Option, none, some, [], ltb, leb, if◌then◌else◌, Str, Dict, lookup,
  put,
}

-- float64
pub record Money : Type 1 where
  pub Amount : Type 0
  pub zero_amount : Amount
  pub plus : Amount → Amount → Amount
  pub gt : Amount → Amount → Bool

-- time.Minute
abbrev pub minute : ℕ
minute = 60_000_000_000

-- x + y and x > y on `int`
unfoldable pub add_int : ℕ → ℕ → ℕ
add_int x y = (x + y) % 18_446_744_073_709_551_616

unfoldable pub gt_int : ℕ → ℕ → Bool
gt_int x y = ltb (add_int y 9_223_372_036_854_775_808) (add_int x 9_223_372_036_854_775_808)

module _ (money : Money) where
  open money use {Amount, zero_amount, plus, gt}

  pub record Quota : Type 0 where
    pub requests_per_minute : ℕ
    pub max_tokens : ℕ
    pub max_cost : Amount

  pub record Spending : Type 0 where
    pub requests : ℕ
    pub tokens : ℕ
    pub cost : Amount

  pub record Budget : Type 0 where
    pub limits : Dict Quota
    pub usage : Dict Spending
    pub window : ℕ

  -- The arguments of a call of Allow, with its time.
  pub record Call : Type 0 where
    pub tenant : Str
    pub tokens : ℕ
    pub cost : Amount
    pub now : ℕ

  abbrev pub no_spending : Spending
  no_spending = record { requests = 0; tokens = 0; cost = zero_amount }

  -- b.usage[tenant]
  unfoldable pub spending_of : Str → Dict Spending → Spending
  spending_of tenant usage = elim (lookup tenant usage) [ none ↦ no_spending | some u ↦ u ]

  unfoldable pub new_budget : Dict Quota → ℕ → Budget
  new_budget limits now = record { limits = limits; usage = []; window = now }

  -- now.Sub(b.window) >= time.Minute
  abbrev pub is_over : Budget → ℕ → Bool
  is_over b now = leb minute (now - b.window)

  -- A new window where the last one is over.
  unfoldable pub refresh : Budget → ℕ → Budget
  refresh b now = if is_over b now then record b { usage = []; window = now } else b

  -- The three tests of a quota, in their order.
  unfoldable pub check_quota : Quota → Spending → Call → Option Error
  check_quota q u c =
      if ltb 0 q.requests_per_minute && leb q.requests_per_minute u.requests
      then some (request_quota c.tenant)
      else if gt_int q.max_tokens 0 && gt_int (add_int u.tokens c.tokens) q.max_tokens
      then some (token_quota c.tenant)
      else if gt q.max_cost zero_amount && gt (plus u.cost c.cost) q.max_cost
      then some (cost_quota c.tenant)
      else none

  -- Usage{Requests: u.Requests + 1, ...}
  abbrev pub charge : Spending → Call → Spending
  charge u c = record {
    requests = u.requests + 1;
    tokens = add_int u.tokens c.tokens;
    cost = plus u.cost c.cost;
  }

  -- What follows the window: the quota, the tests and the new usage.
  unfoldable pub charge_within : Budget → Call → Option Error × Budget
  charge_within b c = elim (lookup c.tenant b.limits) [
    | none ↦ (none, b)
    | some q ↦
        let u = spending_of c.tenant b.usage in
        elim (check_quota q u c) [
          | some e ↦ (some e, b)
          | none ↦ (none, record b { usage = put c.tenant (charge u c) b.usage })
        ]
  ]

  unfoldable pub allow : Budget → Call → Option Error × Budget
  allow b c = charge_within (refresh b c.now) c
