-- ===== src/Sched/Engine.antt =====
-- internal/sched/engine.go: the engine that runs the schedules. A `*Schedule` is a number, and `at`
-- is what each points to, so a schedule that is running is shared with the list of the engine. A
-- run is two steps: `runOne` reads the schedule, and `finish_run` is what it does after the
-- executor has returned; other calls may come between. Clock readings, in nanoseconds, new ids and
-- the executor's and the file system's results are arguments; `none` is a panic of `next`.
pub mod Due
pub mod Retries
pub mod Shared
pub mod Edit
use Prim.Native.String
use control_panel.Base.{
  ℕ, zero, suc, ◌+◌, ◌*◌, Bool, true, false, not, ◌&&◌, ◌||◌, Option, none, some, String, List, [],
  ◌∷◌, ◌++◌, if◌then◌else◌, ltb, leb, nat_beq, ◌==◌, string_eq, ℤ,
}
use mathlib.Core.List.{map}
use control_panel.Sched.{Schedule, Invalid, validate, minute_ns}
use control_panel.Sched.Next.{Calendar, unix_milli, next}

abbrev pub max_retries : ℕ
max_retries = 2

abbrev pub retry_delay : ℕ
retry_delay = 5 * minute_ns

pub record Engine : Type 0 where
  pub at : ℕ → Schedule
  pub fresh : ℕ  -- the next number to allocate
  pub items : List ℕ
  pub poke : Bool  -- the one place of the `poke` channel
  pub file : List Schedule

pub data EngineError : Type 0 where
  invalid : Invalid → EngineError
  bad_target : String → EngineError
  unknown_schedule : EngineError
  save_failed : String → EngineError

abbrev pub put : ℕ → Schedule → (ℕ → Schedule) → ℕ → Schedule
put p s at q = if nat_beq p q then s else at q

-- What the file holds of a schedule: the fields `retries` and `runNow` are not written.
abbrev pub persisted : Schedule → Schedule
persisted s = record s { retries = 0; run_now = false }

-- `saveLocked`; the argument is its error.
unfoldable pub save_locked : Option String → Engine → Option EngineError × Engine
save_locked (some why) e = (some (save_failed why), e)
save_locked none e = (none, record e { file = map (λ p. persisted (e.at p)) e.items })

-- The test in `tick`; `now` is in ms.
unfoldable pub is_due : ℕ → Schedule → Bool
is_due now s = s.run_now || s.enabled && ltb 0 s.next_run && leb s.next_run now

-- The first loop of `tick`: the schedules that are due, and the store after it.
unfoldable pub collect : ℕ → List ℕ → (ℕ → Schedule) → List ℕ × (ℕ → Schedule)
unfolding is_due
collect now [] at = ([], at)
collect now (p ∷ ps) at =
    let (hits, cleared) = collect now ps (put p (record (at p) { run_now = false }) at) in
    let (others, kept) = collect now ps at in
    if is_due now (at p) then (p ∷ hits, cleared) else (others, kept)

-- The first half of `tick`: what `runOne` is then called on, in this order.
unfoldable pub start_tick : ℕ → Engine → List ℕ × Engine
unfolding collect
start_tick now e =
    let (due, at) = collect (unix_milli now) e.items e.at in (due, record e { at = at })

unfoldable pub find_item : String → List ℕ → (ℕ → Schedule) → Option ℕ
find_item id [] at = none
find_item id (p ∷ ps) at = if (at p).id == id then some p else find_item id ps at

unfoldable pub get : String → Engine → Option Schedule
unfolding find_item
get id e = elim (find_item id e.items e.at) [ none ↦ none | some p ↦ some (e.at p) ]

-- `append(e.items[:i], e.items[i+1:]...)`
unfoldable pub without : String → List ℕ → (ℕ → Schedule) → List ℕ
without id [] at = []
without id (p ∷ ps) at = if (at p).id == id then ps else p ∷ without id ps at

unfoldable pub delete : String → Option String → Engine → Option EngineError × Engine
unfolding find_item without save_locked
delete id saved e = elim (find_item id e.items e.at) [
  | none ↦ (some unknown_schedule, e)
  | some p ↦ save_locked saved (record e { items = without id e.items e.at })
]

unfoldable pub run_now : String → Engine → Option EngineError × Engine
unfolding find_item
run_now id e = elim (find_item id e.items e.at) [
  | none ↦ (some unknown_schedule, e)
  | some p ↦ (none, record e { at = put p (record (e.at p) { run_now = true }) e.at; poke = true })
]

module _ (cal : Calendar) (parse_duration : String → Option ℤ) (trim_space : String → String) where
  abbrev pub next_ms : Schedule → ℕ → Option ℕ
  next_ms s now = elim (next cal parse_duration s now) [
    | none ↦ none
    | some t ↦ some (unix_milli t)
  ]

  abbrev pub with_next : Option ℕ → Schedule → Option Schedule
  with_next none s = none
  with_next (some t) s = some (record s { next_run = t })

  abbrev pub retry_later : ℕ → String → Schedule → Schedule
  retry_later now why s = record s {
    last_result = String.◌++◌ "error: " (String.◌++◌ why " (retrying in 5m0s)");
    next_run = unix_milli (now + retry_delay);
  }

  abbrev pub done : String → Schedule → Schedule
  done detail s = record s { retries = 0; last_result = if detail == "" then "ok" else detail }

  abbrev pub give_up : String → Schedule → Schedule
  give_up why s = record s { retries = 0; last_result = String.◌++◌ "error: " why }

  -- The update of the schedule at the end of `runOne`: `err` is the executor's error.
  unfoldable pub settle : ℕ → String → Option String → Schedule → Option Schedule
  settle now detail none s =
      let s1 = record s { last_run = unix_milli now } in with_next (next_ms s1 now) (done detail s1)
  settle now detail (some why) s =
      let s1 = record s { last_run = unix_milli now; retries = s.retries + 1 } in
      if leb s1.retries max_retries
      then some (retry_later now why s1)
      else with_next (next_ms s1 now) (give_up why s1)

  -- The second half of `runOne`; an error of the write is dropped.
  unfoldable pub finish_run :
      ℕ → ℕ → String → Option String → Option String → Engine → Option Engine
  unfolding settle save_locked
  finish_run p now detail err saved e = elim (settle now detail err (e.at p)) [
    | none ↦ none
    | some s ↦ some (save_locked saved (record e { at = put p s e.at })).1
  ]

  -- `target` is the error of `ValidateTarget`.
  unfoldable pub create :
      Schedule
      → Option String
      → String
      → ℕ
      → Option String
      → Engine
      → Option (Option EngineError × Engine)
  unfolding save_locked
  create s target id now saved e =
      let (bad, s') = validate parse_duration trim_space s in
      elim bad [
        | some why ↦ some (some (invalid why), e)
        | none ↦ elim target [
          | some why ↦ some (some (bad_target why), e)
          | none ↦
              elim (with_next (next_ms s' now)
                (record s' { id = id; last_run = 0; last_result = "" })) [
                  | none ↦ none
                  | some item ↦ some (
                      save_locked saved (record e {
                        at = put e.fresh item e.at;
                        fresh = e.fresh + 1;
                        items = e.items ++ e.fresh ∷ [];
                      }))
                ]
        ]
      ]

  unfoldable pub update :
      String
      → Schedule
      → Option String
      → ℕ
      → Option String
      → Engine
      → Option (Option EngineError × Engine)
  unfolding find_item save_locked
  update id s target now saved e =
      let (bad, s') = validate parse_duration trim_space s in
      elim bad [
        | some why ↦ some (some (invalid why), e)
        | none ↦ elim target [
          | some why ↦ some (some (bad_target why), e)
          | none ↦ elim (find_item id e.items e.at) [
            | none ↦ some (some unknown_schedule, e)
            | some p ↦
                elim (with_next (next_ms s' now) (record s' {
                  id = id;
                  last_run = (e.at p).last_run;
                  last_result = (e.at p).last_result;
                })) [
                  | none ↦ none
                  | some item ↦ some (save_locked saved (record e { at = put p item e.at }))
                ]
          ]
        ]
      ]

  -- The loop of `load` over the schedules read from the file.
  unfoldable pub catch_up : ℕ → Schedule → Option Schedule
  catch_up now s = if leb s.next_run (unix_milli now) then with_next (next_ms s now) s else some s
