-- ===== src/Reliability/Budget/Accounts.antt =====
-- The calls that a budget accepts in one minute, and what they spend.
use cortex_go.Errors.{Error}
use cortex_go.Reliability.Budget.{
  charge_within, spending_of, allow, charge, Budget, check_quota, Quota, Call, Spending, Money,
  add_int, gt_int,
}
use cortex_go.Prelude.{
  ℕ, ◌+◌, ◌%◌, ◌≤◌, ◌<◌, ◌≡◌, refl, ap, subst, ◌∙◌, true, false, ◌&&◌, Option, none, some, List, [],
  ◌∷◌, ◌++◌, arith, leb, if◌then◌else◌, Str, str_eq, Dict, lookup, put, lookup-put,
}

module _ (money : Money) where
  open money use {Amount, zero_amount, plus, gt}

  -- A budget, with the calls that it accepted in the present minute and when that minute began.
  pub record Account : Type 0 where
    pub began : ℕ
    pub accepted : List (Call money)
    pub budget : Budget money

  -- A minute is over 60000000000 nanoseconds after it began; the next one begins with the call.
  unfoldable pub in_minute : Account → ℕ → Account
  in_minute a now =
      if leb (a.began + 60_000_000_000) now then record a { began = now; accepted = [] } else a

  -- The account with the answer to a call: its list is longer by the call where it is accepted.
  abbrev pub entered : Account → Call money → Option Error × Budget money → Account
  entered a c (some e, b) = record a { budget = b }
  entered a c (none, b) = record a { accepted = a.accepted ++ c ∷ []; budget = b }

  unfoldable pub note : Account → Call money → Account
  note a c = entered (in_minute a c.now) c (allow money a.budget c)

  unfoldable pub run : Account → List (Call money) → Account
  run a [] = a
  run a (c ∷ cs) = run (note a c) cs

  -- What is spent with one more call, the tokens without wrapping.
  abbrev pub add_call : Spending money → Call money → Spending money
  add_call u c = record {
    requests = u.requests + 1;
    tokens = u.tokens + c.tokens;
    cost = plus u.cost c.cost;
  }

  -- What the calls of one tenant spend.
  unfoldable pub spent_by : Str → Spending money → List (Call money) → Spending money
  spent_by tenant u [] = u
  spent_by tenant u (c ∷ cs) =
      spent_by tenant (if str_eq c.tenant tenant then add_call u c else u) cs

  -- Spending within a quota, of which a part that is not positive is no limit.
  pub record IsWithin (q : Quota money) (u : Spending money) : Type 0 where
    pub requests_within : 0 < q.requests_per_minute → u.requests ≤ q.requests_per_minute
    pub tokens_within : 0 < q.max_tokens → u.tokens ≤ q.max_tokens
    pub cost_within : gt q.max_cost zero_amount ≡ true → gt u.cost q.max_cost ≡ false

  -- The tokens of a call are not negative, and with the limit on top they are below 2^63.
  abbrev pub Fits : Quota money → Call money → Type 0
  Fits q c = q.max_tokens + c.tokens < 9_223_372_036_854_775_808

  -- The usage that the budget keeps, and what is spent.
  pub record Matches (q : Quota money) (u v : Spending money) : Type 0 where
    pub requests_match : u.requests ≡ v.requests
    pub tokens_match : 0 < q.max_tokens → u.tokens ≡ v.tokens
    pub cost_match : u.cost ≡ v.cost

  tokens_pass :
      (max u c : ℕ)
      → 0 < max
      → max + c < 9_223_372_036_854_775_808
      → u ≤ max
      → (gt_int max 0 && gt_int (add_int u c) max) ≡ false
      → (add_int u c ≡ u + c) × (u + c ≤ max)
  unfolding gt_int add_int
  tokens_pass max u c positive small le h =
      let sum : (u + c) % 18_446_744_073_709_551_616 ≡ u + c = omega arith in (sum, ground arith)

  pub check_quota-IsWithin :
      (q : Quota money) (u v : Spending money) (c : Call money)
      → check_quota money q u c ≡ none
      → Fits q c
      → Matches q u v
      → IsWithin q v
      → Matches q (charge money u c) (add_call v c) × IsWithin q (add_call v c)
  unfolding check_quota
  check_quota-IsWithin q u v c h fits m w =
      let tokens : (gt_int q.max_tokens 0 && gt_int (add_int u.tokens c.tokens) q.max_tokens)
          ≡ false =
        ground arith in
      let requests : 0 < q.requests_per_minute → u.requests + 1 ≤ q.requests_per_minute =
        λ p. ground arith in
      let cost : gt q.max_cost zero_amount ≡ true → gt (plus u.cost c.cost) q.max_cost ≡ false =
        λ p. ground arith in
      let pass : 0 < q.max_tokens
          → (add_int u.tokens c.tokens ≡ u.tokens + c.tokens)
            × (u.tokens + c.tokens ≤ q.max_tokens) =
        λ p.
          tokens_pass q.max_tokens u.tokens c.tokens p fits
            (omega (arith, m.tokens_match p, w.tokens_within p)) tokens in
      (
        record {
          requests_match = ap (λ n. n + 1) m.requests_match;
          tokens_match = λ p. (pass p).0 ∙ ap (λ n. n + c.tokens) (m.tokens_match p);
          cost_match = ap (λ x. plus x c.cost) m.cost_match;
        },
        record {
          requests_within = λ p. omega (arith, requests p, m.requests_match);
          tokens_within = λ p. omega (arith, (pass p).1, m.tokens_match p);
          cost_within =
              λ p. subst (λ x. gt (plus x c.cost) q.max_cost ≡ false) m.cost_match (cost p);
        },
      )

  pub spent_by-snoc :
      (cs : List (Call money)) (t : Str) (u : Spending money) (c : Call money)
      → spent_by t u (cs ++ c ∷ [])
        ≡ (if str_eq c.tenant t then add_call (spent_by t u cs) c else spent_by t u cs)
  unfolding spent_by
  spent_by-snoc [] t u c = refl
  spent_by-snoc (d ∷ cs) t u c =
      spent_by-snoc cs t (if str_eq d.tenant t then add_call u d else u) c

  pub spending_of-put :
      (k t : Str) (u : Spending money) (usage : Dict (Spending money))
      → spending_of money t (put k u usage) ≡ (if str_eq k t then u else spending_of money t usage)
  unfolding spending_of
  spending_of-put k t u usage = ground (arith, lookup-put k t u usage)

  pub charge_within-unlimited :
      (b : Budget money) (c : Call money)
      → lookup c.tenant b.limits ≡ none
      → charge_within money b c ≡ (none, b)
  unfolding charge_within
  charge_within-unlimited b c h = rw (h, charge_within)

  pub charge_within-refused :
      (b : Budget money) (c : Call money) (q : Quota money) (e : Error)
      → lookup c.tenant b.limits ≡ some q
      → check_quota money q (spending_of money c.tenant b.usage) c ≡ some e
      → charge_within money b c ≡ (some e, b)
  unfolding charge_within
  charge_within-refused b c q e h r = rw (h, charge_within) (rw r)

  pub charge_within-passed :
      (b : Budget money) (c : Call money) (q : Quota money)
      → lookup c.tenant b.limits ≡ some q
      → check_quota money q (spending_of money c.tenant b.usage) c ≡ none
      → charge_within money b c ≡ (
        none,
        record b {
          usage = put c.tenant (charge money (spending_of money c.tenant b.usage) c) b.usage;
        },
      )
  unfolding charge_within
  charge_within-passed b c q h r = rw (h, charge_within) (rw r)
