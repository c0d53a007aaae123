-- ===== src/Jobs.antt =====
-- internal/jobs/jobs.go: long operations, one at a time. The goroutine that `Start` launches is
-- the two calls `print` (its output, `appendLine`) and `finish` (its end); each call runs under
-- the runner's mutex. Random ids and clock readings are arguments. `RunStreaming` is left out.
pub mod Output
pub mod History
pub mod Life
use control_panel.Base.{
  ℕ, ◌+◌, ◌-◌, Bool, true, false, Option, none, some, String, List, [], ◌∷◌, ◌++◌, if◌then◌else◌,
  ltb, length, drop, ◌==◌, string_eq,
}
use mathlib.Core.List.{map, reverse}

pub data State : Type 0 where
  running done failed canceled : State

abbrev pub max_output_lines : ℕ
max_output_lines = 4000

abbrev pub max_recent : ℕ
max_recent = 20

pub record Job : Type 0 where
  pub id : String
  pub kind : String
  pub target : String
  pub started_at : ℕ
  pub ended_at : ℕ
  pub state : State
  pub err : String
  pub output : List String
  pub dropped : ℕ
  pub ctx_canceled : Bool  -- what `ctx.Err() != nil` reads

pub record View : Type 0 where
  pub id : String
  pub kind : String
  pub target : String
  pub started_at : ℕ
  pub ended_at : ℕ
  pub state : State
  pub err : String
  pub output : List String
  pub dropped : ℕ

pub record Runner : Type 0 where
  pub current : Option Job
  pub recent : List Job
  pub notified : ℕ  -- the calls of `Notify`

unfoldable pub new_runner : Runner
new_runner = record { current = none; recent = []; notified = 0 }

unfoldable pub append_line : String → Job → Job
append_line line j =
    let j' = record j { output = j.output ++ line ∷ [] } in
    let trim = length j'.output - max_output_lines in
    if ltb max_output_lines (length j'.output)
    then record j' { output = drop trim j'.output; dropped = j.dropped + trim }
    else j'

unfoldable pub view : Bool → Job → View
view with_output j = record {
  id = j.id;
  kind = j.kind;
  target = j.target;
  started_at = j.started_at;
  ended_at = j.ended_at;
  state = j.state;
  err = j.err;
  output = if with_output then j.output else [];
  dropped = j.dropped;
}

abbrev pub fresh_job : String → String → String → ℕ → Job
fresh_job kind target id now = record {
  id = id;
  kind = kind;
  target = target;
  started_at = now;
  ended_at = 0;
  state = running;
  err = "";
  output = [];
  dropped = 0;
  ctx_canceled = false;
}

-- `none` is the error "job … is already running".
unfoldable pub start : String → String → String → ℕ → Runner → Option View × Runner
unfolding view
start kind target id now r = elim r.current [
  | some busy ↦ (none, r)
  | none ↦
      let j = fresh_job kind target id now in
      (some (view false j), record r { current = some j; notified = r.notified + 1 })
]

-- The goroutine's callback: a line of output of the running job.
unfoldable pub print : String → Runner → Runner
unfolding append_line
print line r = elim r.current [
  | none ↦ r
  | some j ↦ record r { current = some (append_line line j) }
]

-- The `switch` at the end of the goroutine; `err` is what `fn` returned.
unfoldable pub end_job : Option String → ℕ → Job → Job
end_job err now j =
    let j' = record j { ended_at = now } in
    if j.ctx_canceled then record j' { state = canceled } else elim err [
      | some why ↦ record j' { state = failed; err = why }
      | none ↦ record j' { state = done }
    ]

abbrev pub trim_recent : List Job → List Job
trim_recent l = if ltb max_recent (length l) then drop (length l - max_recent) l else l

unfoldable pub finish : Option String → ℕ → Runner → Runner
unfolding end_job
finish err now r = elim r.current [
  | none ↦ r
  | some j ↦ record {
    current = none;
    recent = trim_recent (r.recent ++ end_job err now j ∷ []);
    notified = r.notified + 1;
  }
]

unfoldable pub current : Runner → Option View
unfolding view
current r = elim r.current [ none ↦ none | some j ↦ some (view false j) ]

unfoldable pub list_jobs : Runner → List View
unfolding view
list_jobs r =
    let older = map (view false) (reverse r.recent) in
    elim r.current [ none ↦ older | some j ↦ view false j ∷ older ]

unfoldable pub find_recent : String → List Job → Option View
unfolding view
find_recent id [] = none
find_recent id (j ∷ js) = if j.id == id then some (view true j) else find_recent id js

unfoldable pub get : String → Runner → Option View
unfolding view find_recent
get id r = elim r.current [
  | none ↦ find_recent id r.recent
  | some j ↦ if j.id == id then some (view true j) else find_recent id r.recent
]

unfoldable pub cancel : String → Runner → Bool × Runner
cancel id r = elim r.current [
  | none ↦ (false, r)
  | some j ↦
      if j.id == id
      then (true, record r { current = some (record j { ctx_canceled = true }) })
      else (false, r)
]
