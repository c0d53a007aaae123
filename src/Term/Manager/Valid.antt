-- ===== src/Term/Manager/Valid.antt =====
-- internal/term/term.go: the manager over any sequence of calls that do not overlap.
use mathlib.Core.Path.{subst}
use mathlib.Core.Option.{some-injective}
use control_panel.Base.{
  ℕ, ◌≤◌, ◌<◌, ◌≡◌, refl, sym, ap, Bool, true, false, not, none, some, Option-cases, Bool-cases,
  inl, inr, ◌⊎◌, String, List, [], ◌∷◌, if◌then◌else◌, length, lookup, delete, string_eq, str_iff,
  nat_beq_iff, arith, Distinct, Distinct-delete, lookup-delete, length-delete-le,
}
use control_panel.Base.Store.{write}
use control_panel.Term.Session.{Session, close_session}
use control_panel.Term.Session.Closing.{close_exited}
use control_panel.Term.Manager.{
  Manager, close_at, close, close_each, close_all, idle_sessions, reap,
}

-- What is listed of the sessions and processes, and what is open, are the same.
pub record IsValid (m : Manager) : Type 0 where
  pub capped : length m.sessions ≤ m.max_sessions
  pub distinct : Distinct m.sessions
  pub listed :
      (id : String) (p : ℕ)
      → lookup id m.sessions ≡ some p
      → (p < m.fresh) × ((m.at p).id ≡ id) × (m.proc_open p ≡ true)
  pub held :
      (p : ℕ)
      → m.proc_open p ≡ true
      → (p < m.fresh) × ((m.at p).exited ≡ false) × (lookup (m.at p).id m.sessions ≡ some p)
  pub alive : (p : ℕ) → p < m.fresh → (m.at p).exited ≡ false → m.proc_open p ≡ true

close_session_id : (s : Session) → (close_session s).2.id ≡ s.id
unfolding close_session
close_session_id s = ground arith

close_session_first : (s : Session) → (close_session s).0 ≡ not s.exited
unfolding close_session
close_session_first s = ground arith

-- `close` at a pointer either does nothing, since the session has ended, or ends it.
pub close_at_cases :
    (p : ℕ) (m : Manager)
    → (((m.at p).exited ≡ true) × (close_at p m ≡ m))
      ⊎ (((m.at p).exited ≡ false)
          × (close_at p m ≡ record m {
            at = write p (close_session (m.at p)).2 m.at;
            proc_open = write p false m.proc_open;
            sessions = delete (m.at p).id m.sessions;
          }))
unfolding close_at
close_at_cases p m = elim (Bool-cases (m.at p).exited) [
  | inl e ↦ inl (e, ground (arith, close_session_first (m.at p)))
  | inr e ↦ inr (e, ground (arith, close_session_first (m.at p), close_session_id (m.at p)))
]

pub close_at-IsValid : (p : ℕ) (m : Manager) → p < m.fresh → IsValid m → IsValid (close_at p m)
close_at-IsValid p m lt v = elim (close_at_cases p m) [
  | inl (e, same) ↦ subst IsValid (sym same) v
  | inr (e, next) ↦
      let here = v.alive p lt e in
      let there = (v.held p here).2 in
      let s = (close_session (m.at p)).2 in
      subst IsValid (sym next) (record {
        capped = omega (arith, v.capped, length-delete-le (m.at p).id m.sessions);
        distinct = Distinct-delete (m.at p).id m.sessions v.distinct;
        listed = λ id q h. ground (
          arith,
          lookup-delete (m.at p).id id m.sessions,
          v.listed id q,
          str_iff (m.at p).id id,
          nat_beq_iff p q,
          ap (λ k. (m.at k).id) {x = p} {y = q},
        );
        held = λ q h. ground (
          arith,
          v.held q,
          there,
          nat_beq_iff p q,
          lookup-delete (m.at p).id (m.at q).id m.sessions,
          str_iff (m.at p).id (m.at q).id,
          ap (λ k. lookup k m.sessions) {x = (m.at p).id} {y = (m.at q).id},
          some-injective p q,
        );
        alive = λ q a b. ground (arith, v.alive q, nat_beq_iff p q, close_exited (m.at p));
      })
]

pub close_at_keeps :
    (p : ℕ) (m : Manager)
    → ((close_at p m).fresh ≡ m.fresh)
      × ((close_at p m).stopped ≡ m.stopped)
      × ((close_at p m).max_sessions ≡ m.max_sessions)
close_at_keeps p m = elim (close_at_cases p m) [
  | inl (e, same) ↦ rw same (refl, refl, refl)
  | inr (e, next) ↦ rw next (refl, refl, refl)
]

abbrev pub AllBelow : ℕ → List (String × ℕ) → Type 0
AllBelow n [] = Unit
AllBelow n ((id, p) ∷ ps) = (p < n) × AllBelow n ps

sessions-AllBelow :
    (n : ℕ) (ps : List (String × ℕ))
    → Distinct ps
    → ((id : String) (p : ℕ) → lookup id ps ≡ some p → p < n)
    → AllBelow n ps
unfolding lookup
sessions-AllBelow n [] d f = tt
sessions-AllBelow n ((id, p) ∷ ps) d f = (
  f id p (ground (arith, str_iff id id)),
  sessions-AllBelow n ps d.1
      (λ j q h. f j q (ground (arith, str_iff id j, d.0, ap (λ k. lookup k ps) {x = id} {y = j}))),
)

pub close_each-IsValid :
    (ps : List (String × ℕ)) (m : Manager)
    → AllBelow m.fresh ps
    → IsValid m
    → IsValid (close_each ps m)
unfolding close_each
close_each-IsValid [] m b v = v
close_each-IsValid ((id, p) ∷ ps) m b v =
    close_each-IsValid ps (close_at p m)
      (subst (λ n. AllBelow n ps) (sym (close_at_keeps p m).0) b.1) (close_at-IsValid p m b.0 v)

pub listed-AllBelow : (m : Manager) → IsValid m → AllBelow m.fresh m.sessions
listed-AllBelow m v =
    sessions-AllBelow m.fresh m.sessions v.distinct (λ id p h. (v.listed id p h).0)

idle-AllBelow :
    (n now : ℕ) (m : Manager) (ps : List (String × ℕ))
    → AllBelow n ps
    → AllBelow n (idle_sessions now m ps)
unfolding idle_sessions
idle-AllBelow n now m [] b = tt
idle-AllBelow n now m ((id, p) ∷ ps) b = ground (arith, idle-AllBelow n now m ps b.1)

stop-IsValid : (m : Manager) → IsValid m → IsValid (record m { stopped = true })
stop-IsValid m v = record {
  capped = v.capped;
  distinct = v.distinct;
  listed = v.listed;
  held = v.held;
  alive = v.alive;
}

pub close_all-IsValid : (m : Manager) → IsValid m → IsValid (close_all m)
unfolding close_all
close_all-IsValid m v =
    close_each-IsValid m.sessions (record m { stopped = true }) (listed-AllBelow m v)
      (stop-IsValid m v)

pub reap-IsValid : (now : ℕ) (m : Manager) → IsValid m → IsValid (reap now m)
unfolding reap
reap-IsValid now m v = go m.stopped
  where
    go : (b : Bool) → IsValid (if b then m else close_each (idle_sessions now m m.sessions) m)
    go true = v
    go false =
        close_each-IsValid (idle_sessions now m m.sessions) m
          (idle-AllBelow m.fresh now m m.sessions (listed-AllBelow m v)) v

pub close_found :
    (id : String) (p : ℕ) (m : Manager)
    → lookup id m.sessions ≡ some p
    → close id m ≡ (true, close_at p m)
unfolding close
close_found id p m e = rw (e, close)

pub close_missing :
    (id : String) (m : Manager) → lookup id m.sessions ≡ none → close id m ≡ (false, m)
unfolding close
close_missing id m e = rw (e, close)

abbrev ValidAfter : Bool × Manager → Type 0
ValidAfter r = IsValid r.1

pub close-IsValid : (id : String) (m : Manager) → IsValid m → IsValid (close id m).1
close-IsValid id m v = elim (Option-cases (lookup id m.sessions)) [
  | inl e ↦ subst ValidAfter (sym (close_missing id m e)) v
  | inr (p, e) ↦
      subst ValidAfter (sym (close_found id p m e)) (close_at-IsValid p m (v.listed id p e).0 v)
]
