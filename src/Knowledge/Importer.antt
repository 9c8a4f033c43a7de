-- ===== src/Knowledge/Importer.antt =====
-- internal/knowledge/importer.go: `AsyncImporter`, over an index of any kind. Calls of Submit and the
-- goroutines of `run` interleave, so the importer is a step relation: each step is one locked part of
-- the code. A goroutine is its job and how far it came.
pub mod Settled
use cortex_go.Knowledge.Versions.{add_version, Versions}
use cortex_go.Errors.{Result, Error, ok, err}
use cortex_go.Knowledge.Runes.{decimal}
use cortex_go.Knowledge.{Document}
use cortex_go.Prelude.{
  ℕ, zero, suc, ◌≡◌, Option, none, some, List, [], ◌∷◌, ◌++◌, Str, bytes, Dict, lookup, put,
}

pub data ImportStatus : Type 0 where
  queued running completed failed : ImportStatus

-- ImportProgress; the number of chunks is never set.
pub record ImportProgress : Type 0 where
  pub id : Str
  pub document_id : Str
  pub status : ImportStatus
  pub failure : Option Error

-- How far a goroutine came: it has still to begin, to load, or to end with this error.
pub data Phase : Type 0 where
  started loading : Phase
  ending : Option Error → Phase

pub record Worker : Type 0 where
  pub id : Str
  pub path : Str
  pub phase : Phase

-- AsyncImporter, with the state of its index and its goroutines
pub record Importer (I : Type 0) : Type 0 where
  pub index : I
  pub versions : Versions
  pub jobs : Dict ImportProgress
  pub workers : List Worker

-- NewAsyncImporter with no versions
unfoldable pub new_importer : {I : Type 0} → I → Importer I
new_importer index = record { index = index; versions = []; jobs = []; workers = [] }

abbrev pub queued_import : Str → Str → ImportProgress
queued_import id path = record { id = id; document_id = path; status = queued; failure = none }

-- update: a job that is not there is one with all fields empty, of which the callers set the status.
unfoldable pub update_job :
    (Option ImportProgress → ImportProgress) → Str → Dict ImportProgress → Dict ImportProgress
update_job f id jobs = put id (f (lookup id jobs)) jobs

-- func(p *ImportProgress) { p.Status = status; p.Err = failure }
unfoldable pub with_status : ImportStatus → Option Error → Option ImportProgress → ImportProgress
with_status status failure none = record {
  id = [];
  document_id = [];
  status = status;
  failure = failure;
}
with_status status none (some p) = record p { status = status }
with_status status (some e) (some p) = record p { status = status; failure = some e }

abbrev pub end_status : Option Error → ImportStatus
end_status none = completed
end_status (some e) = failed

-- Submit of a path at a time: `job_id` is fmt.Sprintf("job-%d", now).
unfoldable pub job_id : ℕ → Str
job_id now = bytes "job-" ++ decimal now

module _ {I : Type 0} (hash : Str → Str) (add : I → Document → Option Error × I) where
  -- Submit, where the dependencies are there and its context has not ended
  unfoldable pub submit : ℕ → Str → Importer I → Importer I
  submit now path s = record s {
    jobs = put (job_id now) (queued_import (job_id now) path) s.jobs;
    workers = record { id = job_id now; path = path; phase = started } ∷ s.workers;
  }

  -- The document goes into the versions, and then into the index.
  unfoldable pub import_document : ℕ → Result Document → Importer I → Option Error × Importer I
  import_document now (err e) s = (some e, s)
  import_document now (ok d) s = (
    (add s.index d).0,
    record s { versions = (add_version hash now s.versions d).1; index = (add s.index d).1 },
  )

  -- The next part of `run`: what remains of the goroutine, and the importer, whose goroutines stay.
  unfoldable pub advance :
      ℕ → Result Document → Str → Str → Phase → Importer I → List Worker × Importer I
  advance now loaded id path started s = (
    record { id = id; path = path; phase = loading } ∷ [],
    record s { jobs = update_job (with_status running none) id s.jobs },
  )
  advance now loaded id path loading s = (
    record { id = id; path = path; phase = ending (import_document now loaded s).0 } ∷ [],
    (import_document now loaded s).1,
  )
  advance now loaded id path (ending failure) s =
      ([], record s { jobs = update_job (with_status (end_status failure) failure) id s.jobs })

  -- A goroutine runs its next part; what the loader returns is free.
  pub data Advance (s : Importer I) : Importer I → Type 0 where
    run :
        {s' : Importer I} (before : List Worker) (w : Worker) (after : List Worker) (now : ℕ)
        (loaded : Result Document)
        → s.workers ≡ before ++ w ∷ after
        → s' ≡ record (advance now loaded w.id w.path w.phase s).1 {
          workers = before ++ (advance now loaded w.id w.path w.phase s).0 ++ after;
        }
        → Advance s s'

  pub data Reachable (index : I) : Importer I → Type 0 where
    here : Reachable index (new_importer index)
    submitted :
        {s : Importer I} (now : ℕ) (path : Str)
        → Reachable index s
        → Reachable index (submit now path s)
    advanced : {s s' : Importer I} → Reachable index s → Advance s s' → Reachable index s'

  -- So many parts of goroutines, in any order.
  pub data Advances (s : Importer I) : ℕ → Importer I → Type 0 where
    stop : Advances s zero s
    more : {n : ℕ} {t u : Importer I} → Advances s n t → Advance t u → Advances s (suc n) u
