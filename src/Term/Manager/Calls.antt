-- ===== src/Term/Manager/Calls.antt =====
-- internal/term/term.go: calls of the manager and its sessions that do not overlap, and the reads and
-- the end of the terminals' output.
use mathlib.Core.Path.{subst}
use control_panel.Base.{
  ℕ, ◌≡◌, refl, sym, Bool, true, false, Option, none, String, List, [], ◌∷◌, if◌then◌else◌, ltb,
  ltb→lt, Bool-cases, inl, inr, ℤ, lookup, string_eq,
}
use control_panel.Term.Session.{pump, resize}
use control_panel.Term.Manager.{
  Manager, new_manager, create, close_at, close, close_all, reap, input_at, resize_at, pump_at,
}
use control_panel.Term.Manager.Valid.{
  IsValid, close_at-IsValid, close-IsValid, close_all-IsValid, reap-IsValid,
}
use control_panel.Term.Manager.Created.{
  create-IsValid, at_session-IsValid, input_fields, new_manager-IsValid,
}

pub data Call : Type 0 where
  creates : String → ℕ → Option String → Call
  closes : String → Call
  closes_all : Call
  reaps : ℕ → Call
  inputs : ℕ → ℕ → Call
  resizes : ℕ → ℕ → Call
  pumps : ℕ → List ℕ → Call
  ends : ℕ → Call

-- `pump` runs only for a session that was made.
unfoldable pub end_at : ℕ → Manager → Manager
unfolding close_at
end_at p m = if ltb p m.fresh then close_at p m else m

unfoldable pub after : Manager → Call → Manager
unfolding create close close_all reap input_at resize_at pump_at end_at
after m (creates id now launch) = (create id now launch m).1
after m (closes id) = (close id m).1
after m closes_all = close_all m
after m (reaps now) = reap now m
after m (inputs p now) = input_at p now m
after m (resizes p now) = resize_at p now m
after m (pumps p bytes) = pump_at p bytes m
after m (ends p) = end_at p m

unfoldable pub run : Manager → List Call → Manager
run m [] = m
run m (c ∷ cs) = run (after m c) cs

-- The random ids are new: none is that of a session in the map.
abbrev pub NewId : Manager → Call → Type 0
NewId m (creates id now launch) = lookup id m.sessions ≡ none
NewId m (closes id) = Unit
NewId m closes_all = Unit
NewId m (reaps now) = Unit
NewId m (inputs p now) = Unit
NewId m (resizes p now) = Unit
NewId m (pumps p bytes) = Unit
NewId m (ends p) = Unit

abbrev pub NewIds : Manager → List Call → Type 0
NewIds m [] = Unit
NewIds m (c ∷ cs) = NewId m c × NewIds (after m c) cs

end_at-IsValid : (p : ℕ) (m : Manager) → IsValid m → IsValid (end_at p m)
unfolding end_at
end_at-IsValid p m v = elim (Bool-cases (ltb p m.fresh)) [
  | inl lt ↦ subst IsValid (sym (made lt)) (close_at-IsValid p m (ltb→lt p m.fresh lt) v)
  | inr ge ↦ subst IsValid (sym (unmade ge)) v
]
  where
    made : ltb p m.fresh ≡ true → end_at p m ≡ close_at p m
    made lt = rw (lt, end_at)

    unmade : ltb p m.fresh ≡ false → end_at p m ≡ m
    unmade ge = rw (ge, end_at)

pub after-IsValid : (m : Manager) (c : Call) → NewId m c → IsValid m → IsValid (after m c)
unfolding after input_at resize_at pump_at resize pump
after-IsValid m (creates id now launch) n v = create-IsValid id now launch m n v
after-IsValid m (closes id) n v = close-IsValid id m v
after-IsValid m closes_all n v = close_all-IsValid m v
after-IsValid m (reaps now) n v = reap-IsValid now m v
after-IsValid m (inputs p now) n v =
    let f = input_fields now (m.at p) in at_session-IsValid p _ m f.0 f.1 v
after-IsValid m (resizes p now) n v = at_session-IsValid p _ m refl refl v
after-IsValid m (pumps p bytes) n v = at_session-IsValid p _ m refl refl v
after-IsValid m (ends p) n v = end_at-IsValid p m v

pub run_from-IsValid : (cs : List Call) (m : Manager) → NewIds m cs → IsValid m → IsValid (run m cs)
unfolding run
run_from-IsValid [] m n v = v
run_from-IsValid (c ∷ cs) m n v = run_from-IsValid cs (after m c) n.1 (after-IsValid m c n.0 v)

-- After any calls that do not overlap on a new manager, with ids that are new: there are at most as
-- many sessions as the limit, each under its own id, and a terminal process is open exactly for the
-- sessions that are listed, none of which has ended.
pub calls-IsValid :
    (launcher : Bool) (cap idle : ℤ) (cs : List Call)
    → NewIds (new_manager launcher cap idle) cs
    → IsValid (run (new_manager launcher cap idle) cs)
calls-IsValid launcher cap idle cs n =
    run_from-IsValid cs (new_manager launcher cap idle) n (new_manager-IsValid launcher cap idle)
