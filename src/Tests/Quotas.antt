-- ===== src/Tests/Quotas.antt =====
-- The budget of a tenant, with amounts of money in cents.
use cortex_go.Reliability.Concurrency.{
  acquired, initial, new_concurrency, UsersReachable, holders_bounded, acquire, Users,
}
use cortex_go.Reliability.Budget.{
  Money, Quota, Call, new_budget, no_spending, allow, charge_within, refresh, check_quota,
  spending_of, add_int, gt_int,
}
use cortex_go.Reliability.Budget.Accounts.{Account, Fits, in_minute, run, note, spent_by, IsWithin}
use cortex_go.Reliability.Budget.Window.{run-IsWithin}
use cortex_go.Prelude.{
  ℕ, ◌+◌, ◌≤◌, ◌≡◌, refl, true, false, none, some, List, [], ◌∷◌, arith, ltb, All, Str, bytes,
  str_eq, Dict, lookup, put, pos,
}

program : Unit {0}
unfolding new_budget allow charge_within refresh check_quota spending_of run note in_minute spent_by
    add_int gt_int lookup put str_eq
program = tt

abbrev cents : Money
cents = record { Amount = ℕ; zero_amount = 0; plus = λ a b. a + b; gt = λ a b. ltb b a }

cents_asym : (x : ℕ) → ltb 0 x ≡ true → ltb x 0 ≡ false
cents_asym x h = ground arith

abbrev acme : Str
acme = bytes "acme"

abbrev quota : Quota cents
quota = record { requests_per_minute = 2; max_tokens = 100; max_cost = 50 }

abbrev limits : Dict (Quota cents)
limits = (acme, quota) ∷ []

abbrev call : ℕ → ℕ → ℕ → Call cents
call tokens cost now = record { tenant = acme; tokens = tokens; cost = cost; now = now }

abbrev new_account : Account cents
new_account = record { began = 0; accepted = []; budget = new_budget cents limits 0 }

-- The second call is too dear, and the fourth one too many.
abbrev calls : List (Call cents)
calls = call 10 30 1 ∷ call 10 30 2 ∷ call 10 20 3 ∷ call 1 0 4 ∷ []

two_accepted : (run cents new_account calls).accepted ≡ call 10 30 1 ∷ call 10 20 3 ∷ []
unfolding program
two_accepted = refl

acme_limits : lookup acme limits ≡ some quota
unfolding program
acme_limits = refl

calls-Fits : All (Fits cents quota) calls
calls-Fits = (omega arith, (omega arith, (omega arith, (omega arith, tt))))

-- A count that wraps passes the test of the quota, and leaves a negative one.
abbrev huge : Call cents
huge = call 9_223_372_036_854_775_807 0 5

wraps : check_quota cents quota (record { requests = 1; tokens = 10; cost = 0 }) huge ≡ none
unfolding program
wraps = refl

run-IsWithin_example :
    IsWithin cents quota
      (spent_by cents acme (no_spending cents) (run cents new_account calls).accepted)
run-IsWithin_example =
    run-IsWithin cents cents_asym limits 0 acme quota calls acme_limits calls-Fits

abbrev no_users : Users
no_users = record { sem = new_concurrency (pos 0); holders = 0; strays = 0 }

one_place : acquire (new_concurrency (pos 0)) ≡ some (record { capacity = 1; held = 1 })
unfolding acquire new_concurrency
one_place = refl

abbrev one_user : Users
one_user = record no_users { sem = record { capacity = 1; held = 1 }; holders = 1 }

one_user-UsersReachable : UsersReachable (pos 0) one_user
one_user-UsersReachable = UsersReachable.next initial (acquired one_place)

holders_bounded_example : 1 ≤ 1 + 0
holders_bounded_example = holders_bounded (pos 0) one_user one_user-UsersReachable
