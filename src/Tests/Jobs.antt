-- ===== src/Tests/Jobs.antt =====
-- A queue with one place and one worker.
use cortex_go.Tasks.Cron.{
  CronEntry, match_fields, same_minute, minute, words_from, tick_entry, words, match_spec, Calendar,
  valid_spec,
}
use cortex_go.Knowledge.Runes.{digits_back, decimal, encode_rune, encode_runes}
use cortex_go.Tasks.Cron.Minutes.{fired-once, note_tick, IsClock, fired, AreApart}
use cortex_go.Tasks.Queue.{
  Queue, new_queue, set, launch, submit, send, take_job, begin, finish, Reachable, here, next,
  queued_record, running_record, finished_record,
}
use cortex_go.Tasks.Queue.Runs.{launches_of, IsKnown, new_queue-holds}
use cortex_go.Tasks.Queue.Cancel.{submit-canceled}
use cortex_go.Prelude.{
  ℕ, ◌+◌, ◌*◌, ◌/◌, ◌≤◌, ◌≡◌, refl, true, none, some, List, [], ◌∷◌, arith, length, Str, bytes,
  str_eq, decode_rune, runes_from, runes, is_space, lookup, put, Among, pos,
}

program : Unit {0}
unfolding new_queue set put str_eq
program = tt

abbrev job : Str
job = bytes "a"

abbrev start : Queue
start = new_queue (pos 1) (pos 1)

abbrev launched : Queue
launched = record start { idle = 1 }

abbrev waiting : Queue
waiting = record launched { records = set (queued_record job) []; submitting = job ∷ [] }

abbrev in_channel : Queue
in_channel = record waiting { submitting = []; jobs = job ∷ [] }

abbrev with_worker : Queue
with_worker = record in_channel { jobs = []; taken = job ∷ []; idle = 0 }

abbrev at_work : Queue
at_work = record with_worker {
  taken = [];
  executing = (job, 5) ∷ [];
  records = set (running_record job 5) with_worker.records;
}

abbrev done : Queue
done = record at_work {
  executing = [];
  idle = 1;
  records = set (finished_record job 5 9 none) at_work.records;
}

done_record : done.records ≡ (job, finished_record job 5 9 none) ∷ []
unfolding program
done_record = refl

done-Reachable : Reachable start done
unfolding program
done-Reachable =
    next
      (next
        (next
          (next
            (next (next here (launch {q' = launched} refl)) (submit {q' = waiting} job refl refl))
            (send {q' = in_channel} [] job [] refl (omega arith) refl))
          (take_job {q' = with_worker} job [] refl (omega arith) refl))
        (begin {q' = at_work} [] job [] 5 refl refl))
      (finish {q' = done} [] job 5 [] none 9 refl refl)

new_queue-holds_example :
    (length done.taken + length done.executing + done.idle ≤ launches_of done-Reachable * 1)
    × IsKnown done
new_queue-holds_example = new_queue-holds (pos 1) (pos 1) done done-Reachable

submit-canceled_example :
    (q' : Queue) × Reachable start q'
    × (lookup job q'.records ≡ some (queued_record job))
    × (q'.submitting ≡ start.submitting)
    × (q'.jobs ≡ start.jobs)
    × (q'.taken ≡ start.taken)
    × (q'.executing ≡ start.executing)
submit-canceled_example = submit-canceled start job refl

-- Two ticks in the first minute that the spec matches, and one in a minute that it does not.
abbrev ticks : List ℕ
ticks = 60_000_000_001 ∷ 61_000_000_000 ∷ 120_000_000_000 ∷ []

abbrev first_minute : Calendar
first_minute t = t / 60_000_000_000 ∷ 0 ∷ 0 ∷ 0 ∷ 0 ∷ []

ticks-IsClock : IsClock first_minute 0 ticks
ticks-IsClock =
    (omega arith, omega arith, (omega arith, omega arith, (omega arith, omega arith, tt)))

first_matches : match_spec first_minute (bytes "1 * * * *") 61_000_000_000 ≡ true
unfolding program match_spec valid_spec words words_from match_fields decimal digits_back runes
    runes_from decode_rune is_space encode_runes encode_rune
first_matches = refl

abbrev entry : CronEntry
entry = record { spec = bytes "1 * * * *"; task = λ t. job; last = 0 }

fired-once_example :
    AreApart first_minute (bytes "1 * * * *") 0 (fired first_minute ticks entry)
    × ((u : ℕ) × Among u (fired first_minute ticks entry) × (u / minute ≡ 61_000_000_000 / minute))
fired-once_example =
    fired-once first_minute (bytes "1 * * * *") (λ t. job) ticks 61_000_000_000 ticks-IsClock
      first_matches (Among.there Among.here)

fires_once : fired first_minute ticks entry ≡ 60_000_000_001 ∷ []
unfolding program fired note_tick tick_entry same_minute match_spec valid_spec words words_from
    match_fields decimal digits_back runes runes_from decode_rune is_space encode_runes encode_rune
fires_once = refl

too_many_fields : valid_spec (bytes "1 2 3 4 5 6") ≡ true
unfolding valid_spec words words_from runes runes_from decode_rune is_space encode_runes encode_rune
too_many_fields = refl
