-- ===== src/Knowledge/Importer/Settled.antt =====
-- No job of an importer is forgotten: what its goroutines have still to do is bounded, and when they
-- have done it, every job has ended.
use cortex_go.Knowledge.Importer.{
  import_document, end_status, with_status, Reachable, new_importer, Advances, update_job, job_id,
  queued, running, Advance, ImportProgress, submit, advance, Importer, Phase, Worker, ImportStatus,
  started, loading, ending, run, here, submitted, advanced, stop, more, completed, failed,
}
use cortex_go.Errors.{out_of_fuel, ok, err, Result, Error}
use cortex_go.Knowledge.{Document}
use cortex_go.Prelude.{
  ℕ, suc, ◌+◌, ◌<◌, ◌≡◌, refl, sym, ap, subst, ◌∙◌, ◌↔◌, ◌⊎◌, inl, inr, Bool, true, false, not,
  ◌||◌, Option, none, some, List, [], ◌∷◌, ◌++◌, arith, ◌==◌, Bool-cases, Option-cases, Str, str_eq,
  lookup, lookup-put,
}

pub is_done : ImportStatus → Bool
is_done completed = true
is_done failed = true
is_done queued = false
is_done running = false

-- A goroutine works on the job.
busy : Str → List Worker → Bool
busy id [] = false
busy id (w ∷ ws) = let rest = busy id ws in str_eq w.id id || rest

-- How many parts the goroutines have still to run.
parts : Phase → ℕ
parts started = 3
parts loading = 2
parts (ending failure) = 1

pub work : List Worker → ℕ
work [] = 0
work (w ∷ ws) = parts w.phase + work ws

busy-append : (id : Str) (xs ys : List Worker) → busy id (xs ++ ys) ≡ (busy id xs || busy id ys)
unfolding busy
busy-append id [] ys = refl
busy-append id (x ∷ xs) ys = ground (arith, busy-append id xs ys)

busy-middle :
    (id : Str) (ws before : List Worker) (w : Worker) (after : List Worker)
    → ws ≡ before ++ w ∷ after
    → busy id ws ≡ (busy id before || (str_eq w.id id || busy id after))
unfolding busy
busy-middle id ws before w after h = ap (busy id) h ∙ busy-append id before (w ∷ after)

is_done-with_status :
    (failure : Option Error) (o : Option ImportProgress)
    → is_done (with_status (end_status failure) failure o).status ≡ true
unfolding with_status is_done
is_done-with_status none none = refl
is_done-with_status none (some p) = refl
is_done-with_status (some e) none = refl
is_done-with_status (some e) (some p) = refl

work-append : (xs ys : List Worker) → work (xs ++ ys) ≡ work xs + work ys
unfolding work
work-append [] ys = omega arith
work-append (x ∷ xs) ys = omega (arith, work-append xs ys)

parts_pos : (phase : Phase) → 0 < parts phase
unfolding parts
parts_pos started = omega arith
parts_pos loading = omega arith
parts_pos (ending failure) = omega arith

work-busy : (id : Str) (ws : List Worker) → work ws ≡ 0 → busy id ws ≡ false
unfolding work busy
work-busy id [] h = refl
work-busy id (w ∷ ws) h = absurd (omega (arith, parts_pos w.phase))

-- The job is there and has not ended.
abbrev pub is_open : Option ImportProgress → Bool
is_open none = false
is_open (some p) = not (is_done p.status)

module _ {I : Type 0} (hash : Str → Str) (add : I → Document → Option Error × I) where
  -- Every job that has not ended has a goroutine.
  abbrev IsAttended : Importer I → Type 0
  IsAttended s =
      (id : Str) (p : ImportProgress)
      → lookup id s.jobs ≡ some p
      → (is_done p.status ≡ true) ⊎ (busy id s.workers ≡ true)

  advance-work :
      (now : ℕ) (loaded : Result Document) (id path : Str) (phase : Phase) (s : Importer I)
      → suc (work (advance hash add now loaded id path phase s).0) ≡ parts phase
  unfolding work parts advance
  advance-work now loaded id path started s = refl
  advance-work now loaded id path loading s = refl
  advance-work now loaded id path (ending failure) s = refl

  Advance-work :
      {s s' : Importer I} → Advance hash add s s' → suc (work s'.workers) ≡ work s.workers
  unfolding work
  Advance-work {s} {s'} (run before w after now loaded e f) =
      let xs = (advance hash add now loaded w.id w.path w.phase s).0 in
      let l = ap work e ∙ work-append before (w ∷ after) in
      let r = ap (λ q. work q.workers) f ∙ work-append (before ++ xs) after in
      omega (arith, l, r, work-append before xs, advance-work now loaded w.id w.path w.phase s)

  submit-IsAttended :
      (now : ℕ) (path : Str) (s : Importer I)
      → IsAttended s
      → IsAttended (submit hash add now path s)
  unfolding submit busy
  submit-IsAttended now path s h id p e = elim (Bool-cases (str_eq (job_id now) id)) [
    | inl same ↦ inr (rw same refl)
    | inr other ↦ rw other (h id p (rw (lookup-put, other) at e))
  ]

  import_document-jobs :
      (now : ℕ) (loaded : Result Document) (s : Importer I)
      → (import_document hash add now loaded s).1.jobs ≡ s.jobs
  unfolding import_document
  import_document-jobs now (ok d) s = refl
  import_document-jobs now (err e) s = refl

  advance-IsAttended :
      (now : ℕ) (loaded : Result Document) (before : List Worker) (id path : Str) (phase : Phase)
      (after : List Worker) (s : Importer I)
      → s.workers ≡ before ++ record { id = id; path = path; phase = phase } ∷ after
      → IsAttended s
      → IsAttended (record (advance hash add now loaded id path phase s).1 {
        workers = before ++ (advance hash add now loaded id path phase s).0 ++ after;
      })
  unfolding advance update_job busy
  advance-IsAttended now loaded before id path started after s e h j p at =
      elim (Bool-cases (str_eq id j)) [
        | inl same ↦ inr (rw (busy-append, busy-append) (rw same (ground arith)))
        | inr other ↦ elim (h j p (rw (lookup-put, other) at at)) [
          | inl done ↦ inl done
          | inr b ↦ inr (
              rw (busy-append, busy-append)
                (ground (arith, busy-middle j s.workers before _ after e)))
        ]
      ]
  advance-IsAttended now loaded before id path loading after s e h j p at =
      elim (h j p (rw import_document-jobs at at)) [
        | inl done ↦ inl done
        | inr b ↦ inr (
            rw (busy-append, busy-append)
              (ground (arith, busy-middle j s.workers before _ after e)))
      ]
  advance-IsAttended now loaded before id path (ending failure) after s e h j p at =
      elim (Bool-cases (str_eq id j)) [
        | inl same ↦
            let q : some (with_status (end_status failure) failure (lookup id s.jobs)) ≡ some p =
              rw (lookup-put, same) at at in
            let r : with_status (end_status failure) failure (lookup id s.jobs) ≡ p = cc q in
            inl (
              subst (λ (j : ImportProgress). is_done j.status ≡ true) r
                (is_done-with_status failure (lookup id s.jobs)))
        | inr other ↦ elim (h j p (rw (lookup-put, other) at at)) [
          | inl done ↦ inl done
          | inr b ↦ inr (
              rw (busy-append, busy-append)
                (ground (arith, busy-middle j s.workers before _ after e)))
        ]
      ]

  Reachable-IsAttended : {index : I} {s : Importer I} → Reachable hash add index s → IsAttended s
  unfolding new_importer lookup
  Reachable-IsAttended here id p e = cc e
  Reachable-IsAttended (submitted {s = s} now path r) id p e =
      submit-IsAttended now path s (Reachable-IsAttended r) id p e
  Reachable-IsAttended (advanced {s = s} r (run before w after now loaded g f)) id p e =
      subst IsAttended (sym f)
        (advance-IsAttended now loaded before w.id w.path w.phase after s g
          (Reachable-IsAttended r))
        id p e

  Advances-work :
      {s t : Importer I} {n : ℕ} → Advances hash add s n t → n + work t.workers ≡ work s.workers
  unfolding work
  Advances-work {s} stop = omega arith
  Advances-work {s} (more a b) = omega (arith, Advances-work a, Advance-work b)

  Advances-Reachable :
      {index : I} {s t : Importer I} {n : ℕ}
      → Reachable hash add index s
      → Advances hash add s n t
      → Reachable hash add index t
  Advances-Reachable r stop = r
  Advances-Reachable r (more a b) = advanced (Advances-Reachable r a) b

  -- Where a goroutine has something to do, it can do it.
  next_advance :
      (s : Importer I) (ws : List Worker)
      → s.workers ≡ ws
      → 0 < work ws
      → (t : Importer I) × Advance hash add s t
  unfolding work
  next_advance s [] e h = absurd (omega arith)
  next_advance s (w ∷ ws) e h = (_, run [] w ws 0 (err out_of_fuel) e refl)

  abbrev pub AllDone : Importer I → Type 0
  AllDone s = (id : Str) → is_open (lookup id s.jobs) ≡ false

  idle-AllDone : (s : Importer I) → IsAttended s → work s.workers ≡ 0 → AllDone s
  unfolding work busy
  idle-AllDone s h e id = elim (Option-cases (lookup id s.jobs)) [
    | inl none_there ↦ rw none_there refl
    | inr (p, at) ↦ elim (h id p at) [
      | inl done ↦ rw at (rw done refl)
      | inr b ↦ absurd (let idle = work-busy id s.workers e in cc)
    ]
  ]

  -- However the goroutines of an importer take turns, each part that one runs is one of finitely many:
  -- what remains counts one less. As long as something remains, one of them can go on; and when
  -- nothing remains, every job has ended, as completed or as failed.
  pub Reachable-settles :
      (index : I) (s t : Importer I) (n : ℕ)
      → Reachable hash add index s
      → Advances hash add s n t
      → (n + work t.workers ≡ work s.workers)
        × (0 < work t.workers ↔ ((u : Importer I) × Advance hash add t u))
        × ((0 < work t.workers) ⊎ AllDone t)
  unfolding work
  Reachable-settles index s t n r a = (
    Advances-work a,
    (next_advance t t.workers refl, λ b. omega (arith, Advance-work b.1)),
    elim (Bool-cases (work t.workers == 0)) [
      | inl z ↦ inr (idle-AllDone t (Reachable-IsAttended (Advances-Reachable r a)) (ground arith))
      | inr p ↦ inl (ground arith)
    ],
  )
