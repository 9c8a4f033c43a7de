-- ===== src/Tasks/Cron.antt =====
-- internal/tasks/queue.go: `Cron`. A time is its nanoseconds since the zero time; the fields that a
-- spec is matched with are a parameter, since they hang on the time zone.
pub mod Minutes
use cortex_go.Errors.{bad_cron_spec, Result, ok, err}
use cortex_go.Knowledge.Runes.{decimal, encode_runes}
use cortex_go.Prelude.{
  ℕ, ◌/◌, Bool, true, false, not, ◌&&◌, ◌||◌, Option, none, some, List, [], ◌∷◌, ◌++◌, leb, ◌==◌,
  if◌then◌else◌, length, Str, bytes, str_eq, runes, is_space, is_empty,
}

-- t.Minute(), t.Hour(), t.Day(), int(t.Month()) and int(t.Weekday())
abbrev pub Calendar : Type 0
Calendar = ℕ → List ℕ

-- cronEntry; `task` makes the ID of a new task at a time.
pub record CronEntry : Type 0 where
  pub spec : Str
  pub task : ℕ → Str
  pub last : ℕ

-- time.Minute
abbrev pub minute : ℕ
minute = 60_000_000_000

-- !a.IsZero() && a.Truncate(time.Minute).Equal(b.Truncate(time.Minute))
unfoldable pub same_minute : ℕ → ℕ → Bool
same_minute a b = not (a == 0) && (a / minute == b / minute)

-- The words that fmt.Sscan reads, with the word so far.
unfoldable pub words_from : List ℕ → List ℕ → List Str
words_from [] w = if is_empty w then [] else encode_runes w ∷ []
words_from (r ∷ rs) w =
    let next = words_from rs [] in
    let same = words_from rs (w ++ r ∷ []) in
    if is_space r then if is_empty w then next else encode_runes w ∷ next else same

unfoldable pub words : Str → List Str
words s = words_from (runes s) []

-- validSpec: five words can be read; there may be more.
unfoldable pub valid_spec : Str → Bool
valid_spec s = leb 5 (length (words s))

-- for i, v := range vals { ... }
unfoldable pub match_fields : List Str → List ℕ → Bool
match_fields fs [] = true
match_fields [] (v ∷ vs) = false
match_fields (f ∷ fs) (v ∷ vs) =
    let rest = match_fields fs vs in
    if not (str_eq f (bytes "*")) && not (str_eq f (decimal v)) then false else rest

-- match
unfoldable pub match_spec : Calendar → Str → ℕ → Bool
match_spec calendar spec now =
    if not (valid_spec spec) then false else match_fields (words spec) (calendar now)

-- Add, where both dependencies are there
unfoldable pub add_entry : Str → (ℕ → Str) → List CronEntry → Result (List CronEntry)
add_entry spec task entries =
    if not (valid_spec spec)
    then err bad_cron_spec
    else ok (entries ++ record { spec = spec; task = task; last = 0 } ∷ [])

module _ (calendar : Calendar) where
  -- One entry of a tick, and the task that it submits.
  unfoldable pub tick_entry : ℕ → CronEntry → CronEntry × Option Str
  tick_entry now e =
      if same_minute e.last now || not (match_spec calendar e.spec now)
      then (e, none)
      else (record e { last = now }, some (e.task now))

  -- tick: the entries, and the tasks that are submitted, in order. The error of Submit is dropped.
  unfoldable pub tick : ℕ → List CronEntry → List CronEntry × List Str
  tick now [] = ([], [])
  tick now (e ∷ es) =
      let (e', submitted) = tick_entry now e in
      let (es', ids) = tick now es in (e' ∷ es', elim submitted [ none ↦ ids | some id ↦ id ∷ ids ])
