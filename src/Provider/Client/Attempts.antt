-- ===== src/Provider/Client/Attempts.antt =====
-- How the retries end.
use cortex_go.Provider.{ToolInfo, Message}
use cortex_go.Errors.{ok, Result-cases, err, Result, Error}
use cortex_go.Provider.Client.{
  OpenAiCompatible, Network, HttpRequest, prepare, plain_request, do_chat, wait_after,
  chat_with_options, Attempt, attempts,
}
use cortex_go.Prelude.{
  ℕ, zero, suc, ◌+◌, ◌≤◌, ◌<◌, ◌≡◌, refl, sym, subst, ◌⊎◌, inl, inr, true, false, Option, none,
  some, List, arith, leb, ◌==◌, ==_iff, Bool-cases, Option-cases, pos_part,
}

module _ {ℓ} {A : Type ℓ} (answer : ℕ → Attempt A) (wait : ℕ → Option Error) (max_retries : ℕ) where
  -- An attempt that is followed by another.
  pub record IsRetried (n : ℕ) : Type ℓ where
    pub below : n < max_retries
    pub failure : Error
    pub failed : (answer n).outcome ≡ err failure
    pub may_retry : (answer n).retry ≡ true
    pub waited : wait n ≡ none

  -- Why no attempt follows the n-th, and what is returned then.
  pub data Ends (n : ℕ) (r : Result A) : Type ℓ where
    succeeds : (a : A) → (answer n).outcome ≡ ok a → r ≡ ok a → Ends n r
    gives_up :
        (e : Error)
        → (answer n).outcome ≡ err e
        → ((answer n).retry ≡ false) ⊎ (n ≡ max_retries)
        → r ≡ err e
        → Ends n r
    interrupted :
        (e e' : Error)
        → n < max_retries
        → (answer n).outcome ≡ err e
        → (answer n).retry ≡ true
        → wait n ≡ some e'
        → r ≡ err e'
        → Ends n r

  -- A loop that started at the attempt `first`.
  pub record IsOver (first : ℕ) (r : Result A × ℕ) : Type ℓ where
    pub last : ℕ
    pub started : first ≤ last
    pub bounded : last ≤ max_retries
    pub sent : r.1 ≡ suc last
    pub before : (i : ℕ) → first ≤ i → i < last → IsRetried i
    pub ends : Ends last r.0

  IsOver-here : (n : ℕ) (r : Result A) → n ≤ max_retries → Ends n r → IsOver n (r, suc n)
  IsOver-here n r h e = record {
    last = n;
    started = omega arith;
    bounded = h;
    sent = refl;
    before = λ i p q. absurd (omega arith);
    ends = e;
  }

  IsOver-later : (n : ℕ) (r : Result A × ℕ) → IsRetried n → IsOver (suc n) r → IsOver n r
  IsOver-later n r h o = record {
    last = o.last;
    started = omega (arith, o.started);
    bounded = o.bounded;
    sent = o.sent;
    before = λ i p q. elim (Bool-cases (i == n)) [
      | inl e ↦ subst IsRetried (sym ((==_iff i n).0 e)) h
      | inr other ↦ o.before i (ground arith) q
    ];
    ends = o.ends;
  }

  pub attempts-IsOver :
      (fuel n : ℕ)
      → n ≤ max_retries
      → max_retries < fuel + n
      → IsOver n (attempts answer wait max_retries fuel n)
  unfolding attempts
  attempts-IsOver zero n h enough = absurd (omega arith)
  attempts-IsOver (suc fuel) n h enough = elim (Result-cases (answer n).outcome) [
    | inl (a, good) ↦ rw (good, attempts) (IsOver-here n (ok a) h (succeeds a good refl))
    | inr (e, bad) ↦ elim (Bool-cases (answer n).retry) [
      | inr final ↦
          rw (bad, attempts) (rw final (IsOver-here n (err e) h (gives_up e bad (inl final) refl)))
      | inl again ↦ elim (Bool-cases (leb max_retries n)) [
        | inl full ↦
            rw (bad, attempts)
              (rw again
                (rw full (IsOver-here n (err e) h (gives_up e bad (inr (ground arith)) refl))))
        | inr room ↦
            let below : n < max_retries = ground arith in
            elim (Option-cases (wait n)) [
              | inr (e', cut) ↦
                  rw (bad, attempts)
                    (rw again (
                      rw room (
                        rw cut
                          (IsOver-here n (err e') h (interrupted e e' below bad again cut refl)))))
              | inl waited ↦
                  rw (bad, attempts)
                    (rw again (
                      rw room (
                        rw waited (
                          IsOver-later n _
                            (record {
                              below = below;
                              failure = e;
                              failed = bad;
                              may_retry = again;
                              waited = waited;
                            })
                            (attempts-IsOver fuel (suc n) (omega arith) (omega arith))))))
            ]
      ]
    ]
  ]

-- A request that could be prepared is sent at most once more than there may be retries; each attempt
-- but the last failed in a way that may be retried, and was waited after; and what is returned is the
-- outcome of the last one, which succeeded, may not be retried or is the last allowed, or else the
-- error of the wait behind it.
pub chat_with_options-IsOver :
    (p : OpenAiCompatible) (net : Network) (ms : List Message) (tools : List ToolInfo)
    (request : HttpRequest)
    → prepare p net (plain_request p ms tools) ≡ ok request
    → IsOver
        (λ n. do_chat net (net.exchange n request))
        (wait_after p net)
        (pos_part p.max_retries)
        0
        (chat_with_options p net ms tools)
unfolding chat_with_options
chat_with_options-IsOver p net ms tools request h =
    rw (h, chat_with_options)
      (attempts-IsOver (λ n. do_chat net (net.exchange n request)) (wait_after p net)
        (pos_part p.max_retries) (suc (pos_part p.max_retries)) 0 (omega arith) (omega arith))
