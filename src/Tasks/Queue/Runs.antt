-- ===== src/Tasks/Queue/Runs.antt =====
-- What holds in every state that a queue can reach.
use cortex_go.Tasks.Queue.{
  TaskRecord, Queue, new_queue, set, Step, submit, send, give_up, take_job, begin, finish,
  Reachable, here, next, queued_record, running_record, launch, quit,
}
use cortex_go.Prelude.{
  ℕ, suc, ◌+◌, ◌*◌, ◌≤◌, ◌≡◌, refl, sym, subst, ◌∙◌, inl, inr, some, List, [], ◌∷◌, ◌++◌, arith,
  ltb, if◌then◌else◌, Bool-cases, length, All, length-append, All-append, All-keeps, ℤ, pos_part,
  Str, str_eq, str_eq_refl, Dict, lookup, lookup-put,
}

-- How often Start was called on the way to a state.
unfoldable pub launches : {q q' : Queue} → Step q q' → ℕ
launches (launch e) = 1
launches _ = 0

unfoldable pub launches_of : {begun q : Queue} → Reachable begun q → ℕ
launches_of here = 0
launches_of (next r s) = launches s + launches_of r

-- The workers that have a task, and those that have none.
abbrev pub staff : Queue → ℕ
staff q = length q.taken + length q.executing + q.idle

length-middle {ℓ} :
    {A : Type ℓ} (xs before : List A) (x : A) (after : List A)
    → xs ≡ before ++ x ∷ after
    → length xs ≡ suc (length (before ++ after))
length-middle xs before x after h =
    rw h (omega (arith, length-append before (x ∷ after), length-append before after))

step-workers : {q q' : Queue} → Step q q' → q'.workers ≡ q.workers
step-workers (launch e) = rw e refl
step-workers (quit some_idle e) = rw e refl
step-workers (submit id n e) = rw e refl
step-workers (send before id after s room e) = rw e refl
step-workers (give_up before id after s e) = rw e refl
step-workers (take_job id rest j some_idle e) = rw e refl
step-workers (begin before id after now t e) = rw e refl
step-workers (finish before id started after failure now x e) = rw e refl

step-staff : {q q' : Queue} (s : Step q q') → staff q' ≤ launches s * q.workers + staff q
unfolding launches
step-staff (launch e) = rw e (omega arith)
step-staff (quit some_idle e) = rw e (omega arith)
step-staff (submit id n e) = rw e (omega arith)
step-staff (send before id after s room e) = rw e (omega arith)
step-staff (give_up before id after s e) = rw e (omega arith)
step-staff (take_job id rest j some_idle e) = rw e (omega arith)
step-staff {q} {q'} (begin before id after now t e) =
    rw e (omega (arith, length-middle q.taken before id after t))
step-staff {q} {q'} (finish before id started after failure now x e) =
    rw e (omega (arith, length-middle q.executing before (id, started) after x))

-- The task has a record.
abbrev pub Known : Dict TaskRecord → Str → Type 0
Known records id = (r : TaskRecord) × (lookup id records ≡ some r)

-- Every task that is on its way through the queue has a record.
pub record IsKnown (q : Queue) : Type 0 where
  pub submitting_known : All (Known q.records) q.submitting
  pub jobs_known : All (Known q.records) q.jobs
  pub taken_known : All (Known q.records) q.taken
  pub executing_known : All (λ (e : Str × ℕ). Known q.records e.0) q.executing

set-Known :
    (r : TaskRecord) (records : Dict TaskRecord) (id : Str)
    → Known records id
    → Known (set r records) id
unfolding set
set-Known r records id (old, h) = elim (Bool-cases (str_eq r.id id)) [
  | inl e ↦ (r, rw e at (lookup-put r.id id r records))
  | inr n ↦ (old, rw n at (lookup-put r.id id r records) ∙ h)
]

set-Known_self : (r : TaskRecord) (records : Dict TaskRecord) → Known (set r records) r.id
unfolding set
set-Known_self r records = (r, rw (str_eq_refl r.id) at (lookup-put r.id r.id r records))

All-middle {ℓ κ} :
    {A : Type ℓ} (P : A → Type κ) (before : List A) (x : A) (after : List A)
    → All P (before ++ x ∷ after)
    → P x × All P (before ++ after)
All-middle P [] x after h = h
All-middle P (y ∷ before) x after h =
    let (px, rest) = All-middle P before x after h.1 in (px, (h.0, rest))

-- A step that sets a record keeps what is known.
set-All :
    (r : TaskRecord) (records : Dict TaskRecord) (ids : List Str)
    → All (Known records) ids
    → All (Known (set r records)) ids
set-All r records ids h = All-keeps _ _ ids (λ id k. set-Known r records id k) h

set-All_executing :
    (r : TaskRecord) (records : Dict TaskRecord) (es : List (Str × ℕ))
    → All (λ (e : Str × ℕ). Known records e.0) es
    → All (λ (e : Str × ℕ). Known (set r records) e.0) es
set-All_executing r records es h = All-keeps _ _ es (λ e k. set-Known r records e.0 k) h

step-IsKnown : {q q' : Queue} → Step q q' → IsKnown q → IsKnown q'
step-IsKnown {q} {q'} (launch e) h = subst IsKnown (sym e) (record {
  submitting_known = h.submitting_known;
  jobs_known = h.jobs_known;
  taken_known = h.taken_known;
  executing_known = h.executing_known;
})
step-IsKnown {q} {q'} (quit some_idle e) h = subst IsKnown (sym e) (record {
  submitting_known = h.submitting_known;
  jobs_known = h.jobs_known;
  taken_known = h.taken_known;
  executing_known = h.executing_known;
})
step-IsKnown {q} {q'} (submit id n e) h = subst IsKnown (sym e) (record {
  submitting_known =
      (set-Known_self (queued_record id) q.records, set-All _ _ _ h.submitting_known);
  jobs_known = set-All _ _ _ h.jobs_known;
  taken_known = set-All _ _ _ h.taken_known;
  executing_known = set-All_executing _ _ _ h.executing_known;
})
step-IsKnown {q} {q'} (send before id after s room e) h =
    let (known, others) =
      All-middle (Known q.records) before id after
        (subst (All (Known q.records)) s h.submitting_known) in
    subst IsKnown (sym e) (record {
      submitting_known = others;
      jobs_known = All-append (Known q.records) q.jobs (id ∷ []) h.jobs_known (known, tt);
      taken_known = h.taken_known;
      executing_known = h.executing_known;
    })
step-IsKnown {q} {q'} (give_up before id after s e) h =
    let (known, others) =
      All-middle (Known q.records) before id after
        (subst (All (Known q.records)) s h.submitting_known) in
    subst IsKnown (sym e) (record {
      submitting_known = others;
      jobs_known = h.jobs_known;
      taken_known = h.taken_known;
      executing_known = h.executing_known;
    })
step-IsKnown {q} {q'} (take_job id rest j some_idle e) h =
    let known : All (Known q.records) (id ∷ rest) = subst (All (Known q.records)) j h.jobs_known in
    subst IsKnown (sym e) (record {
      submitting_known = h.submitting_known;
      jobs_known = known.1;
      taken_known = (known.0, h.taken_known);
      executing_known = h.executing_known;
    })
step-IsKnown {q} {q'} (begin before id after now t e) h =
    let (known, others) =
      All-middle (Known q.records) before id after
        (subst (All (Known q.records)) t h.taken_known) in
    subst IsKnown (sym e) (record {
      submitting_known = set-All _ _ _ h.submitting_known;
      jobs_known = set-All _ _ _ h.jobs_known;
      taken_known = set-All _ _ _ others;
      executing_known = (
        set-Known_self (running_record id now) q.records,
        set-All_executing _ _ _ h.executing_known,
      );
    })
step-IsKnown {q} {q'} (finish before id started after failure now x e) h =
    let (known, others) =
      All-middle (λ (e : Str × ℕ). Known q.records e.0) before (id, started) after
        (subst (All (λ (e : Str × ℕ). Known q.records e.0)) x h.executing_known) in
    subst IsKnown (sym e) (record {
      submitting_known = set-All _ _ _ h.submitting_known;
      jobs_known = set-All _ _ _ h.jobs_known;
      taken_known = set-All _ _ _ h.taken_known;
      executing_known = set-All_executing _ _ _ others;
    })

Reachable-workers : {begun q : Queue} → Reachable begun q → q.workers ≡ begun.workers
Reachable-workers here = refl
Reachable-workers (next r s) = step-workers s ∙ Reachable-workers r

Reachable-staff :
    {begun q : Queue} (r : Reachable begun q)
    → staff q ≤ launches_of r * begun.workers + staff begun
unfolding launches_of
Reachable-staff here = omega arith
Reachable-staff {begun} {q = q'} (next {q} r s) =
    let one : staff q' ≤ launches s * begun.workers + staff q =
      rw (Reachable-workers r) at (step-staff s) in
    let before = Reachable-staff r in
    let split : (launches s + launches_of r) * begun.workers
        ≡ launches s * begun.workers + launches_of r * begun.workers =
      grind arith in
    rw split (omega arith)

Reachable-IsKnown : {begun q : Queue} → Reachable begun q → IsKnown begun → IsKnown q
Reachable-IsKnown here h = h
Reachable-IsKnown (next r s) h = step-IsKnown s (Reachable-IsKnown r h)

-- However submitters and workers interleave, a queue that was new has at most as many workers, busy
-- or idle, as the calls of Start so far have launched, one configured number each (or one, where that
-- is less), so that no more tasks run at a time; and every task that waits, is taken or executes has a
-- record.
pub new_queue-holds :
    (buffer workers : ℤ) (q : Queue) (r : Reachable (new_queue buffer workers) q)
    → (length q.taken + length q.executing + q.idle
        ≤ launches_of r * (if ltb (pos_part workers) 1 then 1 else pos_part workers))
      × IsKnown q
unfolding new_queue
new_queue-holds buffer workers q r = (
  omega (arith, Reachable-staff r),
  Reachable-IsKnown r
      (record { submitting_known = tt; jobs_known = tt; taken_known = tt; executing_known = tt }),
)
