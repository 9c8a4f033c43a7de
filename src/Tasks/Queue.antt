-- ===== src/Tasks/Queue.antt =====
-- internal/tasks/queue.go: `Queue`. A task is its ID, which is not empty; what Execute returns is
-- free. Submitting goroutines and workers interleave, so the queue is a step relation: each step is
-- one receive, send or `set` of the code, with the time at which it happens.
pub mod Runs
pub mod Cancel
use cortex_go.Errors.{Error}
use cortex_go.Prelude.{
  ℕ, ◌+◌, ◌-◌, ◌<◌, ◌≡◌, false, Option, none, some, List, [], ◌∷◌, ◌++◌, ltb, if◌then◌else◌, length,
  ℤ, pos_part, Str, is_empty, Dict, put,
}

pub data Status : Type 0 where
  queued running completed failed : Status

pub record TaskRecord : Type 0 where
  pub id : Str
  pub status : Status
  pub failure : Option Error
  pub started_at : ℕ
  pub finished_at : ℕ

-- `submitting` are the calls of Submit that wait in their `select`; `taken` and `executing` are the
-- tasks of the workers before and after they are set to Running, and `idle` are the workers that wait
-- for a task.
pub record Queue : Type 0 where
  pub capacity : ℕ
  pub workers : ℕ
  pub idle : ℕ
  pub jobs : List Str
  pub records : Dict TaskRecord
  pub submitting : List Str
  pub taken : List Str
  pub executing : List (Str × ℕ)

-- if n < 1 { n = 1 }
abbrev pub at_least_one : ℤ → ℕ
at_least_one n = if ltb (pos_part n) 1 then 1 else pos_part n

unfoldable pub new_queue : ℤ → ℤ → Queue
new_queue buffer workers = record {
  capacity = at_least_one buffer;
  workers = at_least_one workers;
  idle = 0;
  jobs = [];
  records = [];
  submitting = [];
  taken = [];
  executing = [];
}

unfoldable pub set : TaskRecord → Dict TaskRecord → Dict TaskRecord
set r records = put r.id r records

abbrev pub queued_record : Str → TaskRecord
queued_record id = record {
  id = id;
  status = queued;
  failure = none;
  started_at = 0;
  finished_at = 0;
}

abbrev pub running_record : Str → ℕ → TaskRecord
running_record id now = record {
  id = id;
  status = running;
  failure = none;
  started_at = now;
  finished_at = 0;
}

-- rec := Record{...}; if err != nil { rec.Status = Failed }
abbrev pub finished_record : Str → ℕ → ℕ → Option Error → TaskRecord
finished_record id started now failure = record {
  id = id;
  status = elim failure [ none ↦ completed | some e ↦ failed ];
  failure = failure;
  started_at = started;
  finished_at = now;
}

pub data Step : Queue → Queue → Type 0 where
  -- Start, which may be called again
  launch : {q q' : Queue} → q' ≡ record q { idle = q.idle + q.workers } → Step q q'
  -- case <-ctx.Done() of a worker
  quit : {q q' : Queue} → 0 < q.idle → q' ≡ record q { idle = q.idle - 1 } → Step q q'
  -- Submit, up to its `select`
  submit :
      {q q' : Queue} (id : Str)
      → is_empty id ≡ false
      → q' ≡ record q { records = set (queued_record id) q.records; submitting = id ∷ q.submitting }
      → Step q q'
  -- case q.jobs <- task
  send :
      {q q' : Queue} (before : List Str) (id : Str) (after : List Str)
      → q.submitting ≡ before ++ id ∷ after
      → length q.jobs < q.capacity
      → q' ≡ record q { submitting = before ++ after; jobs = q.jobs ++ id ∷ [] }
      → Step q q'
  -- case <-ctx.Done() of Submit
  give_up :
      {q q' : Queue} (before : List Str) (id : Str) (after : List Str)
      → q.submitting ≡ before ++ id ∷ after
      → q' ≡ record q { submitting = before ++ after }
      → Step q q'
  -- task := <-q.jobs
  take_job :
      {q q' : Queue} (id : Str) (rest : List Str)
      → q.jobs ≡ id ∷ rest
      → 0 < q.idle
      → q' ≡ record q { jobs = rest; taken = id ∷ q.taken; idle = q.idle - 1 }
      → Step q q'
  -- q.set(Record{..., Status: Running, ...}) of `run`
  begin :
      {q q' : Queue} (before : List Str) (id : Str) (after : List Str) (now : ℕ)
      → q.taken ≡ before ++ id ∷ after
      → q' ≡ record q {
        taken = before ++ after;
        executing = (id, now) ∷ q.executing;
        records = set (running_record id now) q.records;
      }
      → Step q q'
  -- the end of `run`
  finish :
      {q q' : Queue} (before : List (Str × ℕ)) (id : Str) (started : ℕ) (after : List (Str × ℕ))
      (failure : Option Error) (now : ℕ)
      → q.executing ≡ before ++ (id, started) ∷ after
      → q' ≡ record q {
        executing = before ++ after;
        idle = q.idle + 1;
        records = set (finished_record id started now failure) q.records;
      }
      → Step q q'

pub data Reachable (start : Queue) : Queue → Type 0 where
  here : Reachable start start
  next : {q q' : Queue} → Reachable start q → Step q q' → Reachable start q'
