-- ===== src/Reliability/Budget/Window.antt =====
-- What a tenant may spend in one minute.
use cortex_go.Reliability.Budget.{
  allow, charge, is_over, Budget, check_quota, Quota, Call, Spending, Money, charge_within, refresh,
  new_budget, no_spending, spending_of,
}
use cortex_go.Reliability.Budget.Accounts.{
  Account, entered, in_minute, note, run, spent_by, add_call, IsWithin, Fits, Matches,
  spent_by-snoc, spending_of-put, charge_within-unlimited, charge_within-refused,
  charge_within-passed, check_quota-IsWithin,
}
use cortex_go.Errors.{Error}
use cortex_go.Prelude.{
  ℕ, ◌+◌, ◌≡◌, refl, sym, ap, subst, ◌∙◌, inl, inr, true, false, Option, none, some, List, [], ◌∷◌,
  ◌++◌, arith, leb, Bool-cases, Option-cases, All, Str, str_eq, str_eq_refl, str_eq_iff, Dict,
  lookup, put,
}

module _ (money : Money) where
  open money use {Amount, zero_amount, gt}

  -- What holds of a tenant with a quota: its usage is what its accepted calls spend, and within. The
  -- budget's window began with the minute.
  record Holds (t : Str) (q : Quota money) (a : Account money) : Type 0 where
    given : lookup t a.budget.limits ≡ some q
    windows : a.budget.window ≡ a.began
    matched :
        Matches money q
          (spending_of money t a.budget.usage)
          (spent_by money t (no_spending money) a.accepted)
    within : IsWithin money q (spent_by money t (no_spending money) a.accepted)

  -- A call of another tenant changes nothing for `t`.
  other-Holds :
      (t : Str) (q : Quota money) (a : Account money) (c : Call money)
      (usage : Dict (Spending money))
      → str_eq c.tenant t ≡ false
      → spending_of money t usage ≡ spending_of money t a.budget.usage
      → Holds t q a
      → Holds t q
          (record a { accepted = a.accepted ++ c ∷ []; budget = record a.budget { usage = usage } })
  other-Holds t q a c usage n same h =
      let spent = rw n at (spent_by-snoc money a.accepted t (no_spending money) c) in
      record {
        given = h.given;
        windows = h.windows;
        matched = subst (Matches money q (spending_of money t usage)) (sym spent) (
            subst (λ u. Matches money q u (spent_by money t (no_spending money) a.accepted))
              (sym same) h.matched);
        within = subst (IsWithin money q) (sym spent) h.within;
      }

  own-Holds :
      (q : Quota money) (a : Account money) (c : Call money)
      → check_quota money q (spending_of money c.tenant a.budget.usage) c ≡ none
      → Fits money q c
      → Holds c.tenant q a
      → Holds c.tenant q (record a {
        accepted = a.accepted ++ c ∷ [];
        budget = record a.budget {
          usage =
              put c.tenant
                (charge money (spending_of money c.tenant a.budget.usage) c)
                a.budget.usage;
        };
      })
  own-Holds q a c passed fits h =
      let t = c.tenant in
      let u = spending_of money t a.budget.usage in
      let self = str_eq_refl t in
      let new : spending_of money t (put t (charge money u c) a.budget.usage) ≡ charge money u c =
        rw self at (spending_of-put money t t (charge money u c) a.budget.usage) in
      let spent = rw self at (spent_by-snoc money a.accepted t (no_spending money) c) in
      let (m, w) =
        check_quota-IsWithin money q u (spent_by money t (no_spending money) a.accepted) c passed
          fits h.matched h.within in
      record {
        given = h.given;
        windows = h.windows;
        matched = subst (Matches money q _) (sym spent) (
            subst
              (λ x.
                Matches money q x
                  (add_call money (spent_by money t (no_spending money) a.accepted) c))
              (sym new) m);
        within = subst (IsWithin money q) (sym spent) w;
      }

  enter_own :
      (t : Str) (q : Quota money) (a : Account money) (c : Call money)
      → c.tenant ≡ t
      → Fits money q c
      → Holds t q a
      → Holds t q (entered money a c (charge_within money a.budget c))
  enter_own t q a c own fits h =
      let b = a.budget in
      let given : lookup c.tenant b.limits ≡ some q = ap (λ s. lookup s b.limits) own ∙ h.given in
      elim (Option-cases (check_quota money q (spending_of money c.tenant b.usage) c)) [
        | inr (e, refused) ↦
            subst (λ r. Holds t q (entered money a c r))
              (sym (charge_within-refused money b c q e given refused)) h
        | inl passed ↦
            subst (λ r. Holds t q (entered money a c r))
              (sym (charge_within-passed money b c q given passed))
              (subst
                (λ s. Holds s q (record a {
                  accepted = a.accepted ++ c ∷ [];
                  budget = record b {
                    usage =
                        put c.tenant (charge money (spending_of money c.tenant b.usage) c) b.usage;
                  };
                }))
                own (own-Holds q a c passed fits (subst (λ s. Holds s q a) (sym own) h)))
      ]

  enter_other :
      (t : Str) (q : Quota money) (a : Account money) (c : Call money)
      → str_eq c.tenant t ≡ false
      → Holds t q a
      → Holds t q (entered money a c (charge_within money a.budget c))
  enter_other t q a c other h =
      let b = a.budget in
      elim (Option-cases (lookup c.tenant b.limits)) [
        | inl free ↦
            subst (λ r. Holds t q (entered money a c r))
              (sym (charge_within-unlimited money b c free))
              (other-Holds t q a c b.usage other refl h)
        | inr (q', found) ↦
            let u = spending_of money c.tenant b.usage in
            elim (Option-cases (check_quota money q' u c)) [
              | inr (e, refused) ↦
                  subst (λ r. Holds t q (entered money a c r))
                    (sym (charge_within-refused money b c q' e found refused)) h
              | inl passed ↦
                  subst (λ r. Holds t q (entered money a c r))
                    (sym (charge_within-passed money b c q' found passed))
                    (other-Holds t q a c (put c.tenant (charge money u c) b.usage) other
                      (rw other at (spending_of-put money c.tenant t (charge money u c) b.usage)) h)
            ]
      ]

  enter-Holds :
      (t : Str) (q : Quota money) (a : Account money) (c : Call money)
      → Fits money q c
      → Holds t q a
      → Holds t q (entered money a c (charge_within money a.budget c))
  enter-Holds t q a c fits h = elim (Bool-cases (str_eq c.tenant t)) [
    | inl own ↦ enter_own t q a c ((str_eq_iff c.tenant t).0 own) fits h
    | inr other ↦ enter_other t q a c other h
  ]

  -- An account whose minute begins now.
  fresh-Holds :
      (asym : (x : Amount) → gt x zero_amount ≡ true → gt zero_amount x ≡ false) (t : Str)
      (q : Quota money) (b : Budget money) (now : ℕ)
      → lookup t b.limits ≡ some q
      → Holds t q
          (record { began = now; accepted = []; budget = record b { usage = []; window = now } })
  unfolding spending_of lookup spent_by
  fresh-Holds asym t q b now given = record {
    given = given;
    windows = refl;
    matched = record { requests_match = refl; tokens_match = λ p. refl; cost_match = refl };
    within = record {
      requests_within = λ p. omega arith;
      tokens_within = λ p. omega arith;
      cost_within = λ p. asym _ p;
    };
  }

  refresh-Holds :
      (asym : (x : Amount) → gt x zero_amount ≡ true → gt zero_amount x ≡ false) (t : Str)
      (q : Quota money) (a : Account money) (now : ℕ)
      → Holds t q a
      → Holds t q (record (in_minute money a now) { budget = refresh money a.budget now })
  unfolding refresh in_minute
  refresh-Holds asym t q a now h = elim (Bool-cases (is_over money a.budget now)) [
    | inr still ↦
        let same : leb (a.began + 60_000_000_000) now ≡ false = ground (arith, h.windows) in
        rw still (rw same h)
    | inl over ↦
        let same : leb (a.began + 60_000_000_000) now ≡ true = ground (arith, h.windows) in
        rw over (rw same (fresh-Holds asym t q a.budget now h.given))
  ]

  -- The budget before the answer does not matter.
  entered-budget :
      (a : Account money) (c : Call money) (b : Budget money) (r : Option Error × Budget money)
      → entered money (record a { budget = b }) c r ≡ entered money a c r
  entered-budget a c b (some e, b') = refl
  entered-budget a c b (none, b') = refl

  note-Holds :
      (asym : (x : Amount) → gt x zero_amount ≡ true → gt zero_amount x ≡ false) (t : Str)
      (q : Quota money) (a : Account money) (c : Call money)
      → Fits money q c
      → Holds t q a
      → Holds t q (note money a c)
  unfolding note allow
  note-Holds asym t q a c fits h =
      let new : Account money = record (in_minute money a c.now) {
        budget = refresh money a.budget c.now;
      } in
      subst (Holds t q)
        (entered-budget (in_minute money a c.now) c (refresh money a.budget c.now) _)
        (enter-Holds t q new c fits (refresh-Holds asym t q a c.now h))

  run-Holds :
      (asym : (x : Amount) → gt x zero_amount ≡ true → gt zero_amount x ≡ false) (t : Str)
      (q : Quota money) (a : Account money) (cs : List (Call money))
      → All (Fits money q) cs
      → Holds t q a
      → Holds t q (run money a cs)
  unfolding run
  run-Holds asym t q a [] fits h = h
  run-Holds asym t q a (c ∷ cs) fits h =
      run-Holds asym t q (note money a c) cs fits.1 (note-Holds asym t q a c fits.0 h)

  -- In whatever order the tenants call, what the accepted calls of a tenant with a quota spend
  -- together in one minute (their number, their tokens and their cost) is within its quota. The first
  -- minute begins with the budget, and the next one with the first call that comes a minute or more
  -- after the last one began. No call has a negative number of tokens, or one that goes beyond 2^63
  -- together with the quota. Of `>` on amounts only this is used: what is above zero is not below it.
  pub run-IsWithin :
      (asym : (x : Amount) → gt x zero_amount ≡ true → gt zero_amount x ≡ false)
      (limits : Dict (Quota money)) (start : ℕ) (t : Str) (q : Quota money) (cs : List (Call money))
      → lookup t limits ≡ some q
      → All (Fits money q) cs
      → IsWithin money q (
          spent_by money t
            (no_spending money)
            (run money
              (record { began = start; accepted = []; budget = new_budget money limits start })
              cs).accepted)
  unfolding new_budget
  run-IsWithin asym limits start t q cs given fits =
      let ends =
        run-Holds asym t q _ cs fits
          (fresh-Holds asym t q (new_budget money limits start) start given) in
      ends.within
