-- ===== src/Sched/Next/First.antt =====
-- internal/sched/sched.go: which instant `nextAtTime` finds.
use control_panel.Base.{
  ℕ, zero, suc, ◌+◌, ◌-◌, ◌%◌, ◌≤◌, ◌<◌, ◌≡◌, refl, ap, Bool, true, false, ◌&&◌, Option, none, some,
  ltb, ltb→lt, lt→ltb, ltb→ge, string_eq, arith, Bool-cases, inl, inr,
}
use control_panel.Sched.Next.{Calendar, on_day, next_loop, next_at_time}

-- What the code relies on in Go's calendar: the civil day does not go back as time goes on, and
-- `time.Date` at a valid hour and minute gives an instant of the day that was asked for.
pub record IsCalendar (cal : Calendar) : Type 0 where
  pub day_mono : (a b : ℕ) → a ≤ b → cal.day_of a ≤ cal.day_of b
  pub day_date : (d hh mm : ℕ) → hh < 24 → mm < 60 → cal.day_of (cal.date d hh mm) ≡ d

abbrev pub DayOk : Option ℕ → Type 0
DayOk none = Unit
DayOk (some w) = w < 7

and_left : (a b : Bool) → (a && b) ≡ true → a ≡ true
and_left true b h = refl
and_left false b h = h

and_right : (a b : Bool) → (a && b) ≡ true → b ≡ true
and_right true b h = h
and_right false b h = cc

module _ (cal : Calendar) (law : IsCalendar cal) (now hh mm : ℕ) (h24 : hh < 24) (m60 : mm < 60)
    (day : Option ℕ) where
  abbrev good : ℕ → Bool
  good d = ltb now (cal.date d hh mm) && on_day day d

  record IsFrom (d r : ℕ) : Type 0 where
    is_good : good r ≡ true
    first : (k : ℕ) → d ≤ k → good k ≡ true → r ≤ k

  after_miss : (d k : ℕ) → d ≤ k → good k ≡ true → good d ≡ false → suc d ≤ k
  after_miss d k dk gk miss = elim (Bool-cases (ltb d k)) [
    | inl lt ↦ ltb→lt d k lt
    | inr ge ↦ let e : k ≡ d = omega (arith, ltb→ge d k ge) in absurd (clash (ap good e))
  ]
    where
      clash : good k ≡ good d → ⊥
      clash p = cc

  next_loop-IsFrom :
      (i d e : ℕ)
      → d ≤ e
      → e < d + i
      → good e ≡ true
      → (r : ℕ) × (next_loop cal i now hh mm day (cal.date d hh mm) ≡ cal.date r hh mm) × IsFrom d r
  unfolding next_loop
  next_loop-IsFrom zero d e le lt g = absurd (omega arith)
  next_loop-IsFrom (suc i) d e le lt g = elim (Bool-cases (good d)) [
    | inl hit ↦
        (d, rw (law.day_date d hh mm h24 m60, hit), record { is_good = hit; first = λ k dk gk. dk })
    | inr miss ↦
        let (r, eq, f) =
          next_loop-IsFrom i (d + 1) e (omega (arith, after_miss d e le g miss)) (omega arith) g in
        (
          r,
          rw (law.day_date d hh mm h24 m60, miss) eq,
          record {
            is_good = f.is_good;
            first = λ k dk gk. f.first k (omega (arith, after_miss d k dk gk miss)) gk;
          },
        )
  ]

  -- An instant of a later day is later.
  later_day : (d : ℕ) → cal.day_of now < d → now < cal.date d hh mm
  later_day d h = elim (Bool-cases (ltb now (cal.date d hh mm))) [
    | inl lt ↦ ltb→lt now (cal.date d hh mm) lt
    | inr ge ↦ absurd (
        omega (
          arith,
          law.day_mono (cal.date d hh mm) now (ltb→ge now _ ge),
          law.day_date d hh mm h24 m60,
        ))
  ]

  good_later : (d : ℕ) → cal.day_of now < d → on_day day d ≡ true → good d ≡ true
  good_later d h o = rw (lt→ltb now _ (later_day d h), o)

-- A day of the week comes within the seven days after any day.
candidate :
    (day : Option ℕ) (d : ℕ) → DayOk day → (e : ℕ) × (d < e) × (e < d + 8) × (on_day day e ≡ true)
candidate none d ok = (d + 1, omega arith, omega arith, refl)
candidate (some w) d ok =
    (d + 1 + (w + 7 - (d + 5) % 7) % 7, omega arith, omega arith, ground arith)

module _ (cal : Calendar) (law : IsCalendar cal) where
  -- `nextAtTime` returns the first instant after now that is at the hour and minute of some day, of
  -- the weekday asked for if any: it is later than now, and no such instant after now is on an
  -- earlier day.
  pub next_at_time_first :
      (now hh mm : ℕ) (day : Option ℕ)
      → hh < 24
      → mm < 60
      → DayOk day
      → (d : ℕ) × (next_at_time cal now hh mm day ≡ cal.date d hh mm)
        × (now < cal.date d hh mm)
        × (on_day day d ≡ true)
        × ((k : ℕ) → now < cal.date k hh mm → on_day day k ≡ true → d ≤ k)
  unfolding next_at_time
  next_at_time_first now hh mm day h24 m60 ok =
      let d0 = cal.day_of now in
      let (e, lo, hi, o) = candidate day d0 ok in
      let (d, eq, f) =
        next_loop-IsFrom cal law now hh mm h24 m60 day 8 d0 e (omega arith) hi
          (good_later cal law now hh mm h24 m60 day e lo o) in
      (
        d,
        eq,
        ltb→lt now _ (and_left _ _ f.is_good),
        and_right _ _ f.is_good,
        λ k lt ok_k.
            f.first k
              (omega (arith, law.day_mono now (cal.date k hh mm), law.day_date k hh mm h24 m60))
              (rw (lt→ltb now _ lt, ok_k)),
      )
