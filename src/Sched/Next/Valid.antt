-- ===== src/Sched/Next/Valid.antt =====
-- internal/sched/sched.go: the next run of a schedule that `Validate` accepts.
use Prim.Native.String.{len}
use control_panel.Base.{
  ℕ, ◌+◌, ◌*◌, ◌<◌, ◌≡◌, refl, sym, ap, ◌∙◌, Bool, true, false, not, ◌||◌, Option, none, some,
  String, List, [], ◌∷◌, if◌then◌else◌, ltb, nat_beq, ◌==◌, string_eq, ℤ, pos, negsuc, ltb_ℤ, arith,
}
use control_panel.Base.Text.Numbers.{chars}
use control_panel.Sched.{
  Schedule, match_time, match_weekly, weekday_of, with_day, check_recurrence, check_action, Invalid,
  valid_action, is_set, bad_name, bad_action, not_one_recurrence, bad_interval, interval_range,
  bad_daily, bad_weekly, validate, is_some, minute_ns,
}
use control_panel.Sched.Next.{Calendar, hour_ns, add_duration, next_at_time, next}
use control_panel.Sched.Next.First
use control_panel.Sched.Next.First.{IsCalendar, next_at_time_first}

match_time_bounds : (cs : List ℕ) (h m : ℕ) → match_time cs ≡ some (h, m) → (h < 24) × (m < 60)
unfolding match_time
match_time_bounds [] h m e = cc
match_time_bounds (a ∷ []) h m e = cc
match_time_bounds (a ∷ b ∷ []) h m e = cc
match_time_bounds (a ∷ b ∷ c ∷ []) h m e = cc
match_time_bounds (a ∷ b ∷ c ∷ d ∷ []) h m e = cc
match_time_bounds (a ∷ b ∷ c ∷ d ∷ f ∷ []) h m e = ground arith
match_time_bounds (a ∷ b ∷ c ∷ d ∷ f ∷ g ∷ r) h m e = cc

weekday_of-lt : (a b c w : ℕ) → weekday_of a b c ≡ some w → w < 7
unfolding weekday_of
weekday_of-lt a b c w e = ground arith

with_day_inv :
    (o : Option ℕ) (t : Option (ℕ × ℕ)) (w h m : ℕ)
    → with_day o t ≡ some (w, h, m)
    → (o ≡ some w) × (t ≡ some (h, m))
with_day_inv none t w h m e = cc
with_day_inv (some v) none w h m e = cc
with_day_inv (some v) (some (x, y)) w h m e = ground arith

match_weekly_bounds :
    (cs : List ℕ) (w h m : ℕ) → match_weekly cs ≡ some (w, h, m) → (w < 7) × (h < 24) × (m < 60)
unfolding match_weekly
match_weekly_bounds [] w h m e = cc
match_weekly_bounds (a ∷ []) w h m e = cc
match_weekly_bounds (a ∷ b ∷ []) w h m e = cc
match_weekly_bounds (a ∷ b ∷ c ∷ []) w h m e = cc
match_weekly_bounds (a ∷ b ∷ c ∷ s ∷ r) w h m e = go (nat_beq s b' ') e
  where
    go :
        (t : Bool)
        → (if t then with_day (weekday_of a b c) (match_time r) else none) ≡ some (w, h, m)
        → (w < 7) × (h < 24) × (m < 60)
    go false e = cc
    go true e =
        let (d, t) = with_day_inv _ _ w h m e in
        let (lo, hi) = match_time_bounds r h m t in (weekday_of-lt a b c w d, lo, hi)

abbrev verdict : Option Invalid → Option Invalid → Schedule → Option Invalid × Schedule
verdict o q t = elim o [ some why ↦ (some why, t) | none ↦ (q, t) ]

verdict_inv :
    (o q : Option Invalid) (t s' : Schedule) → verdict o q t ≡ (none, s') → (o ≡ none) × (t ≡ s')
verdict_inv (some why) q t s' h = absurd (cc)
verdict_inv none q t s' h = (refl, ap (λ p. p.1) h)

module _ (cal : Calendar) (law : IsCalendar cal) (parse_duration : String → Option ℤ)
    (trim_space : String → String) where
  -- The next run is found, and is later.
  abbrev pub Later : ℕ → Option ℕ → Type 0
  Later now none = ⊥
  Later now (some t) = now < t

  next_at_time-lt :
      (now hh mm : ℕ) (day : Option ℕ)
      → hh < 24
      → mm < 60
      → First.DayOk day
      → now < next_at_time cal now hh mm day
  next_at_time-lt now hh mm day a b c =
      let f = next_at_time_first cal law now hh mm day a b c in omega (arith, f.1, f.2)

  every-Later :
      (now : ℕ) (o : Option ℤ)
      → (elim o [
        | none ↦ some bad_interval
        | some d ↦
            if ltb_ℤ d (pos (5 * minute_ns)) || ltb_ℤ (pos (30 * 24 * 60 * minute_ns)) d
            then some interval_range
            else none
      ])
        ≡ none
      → Later now (elim o [ none ↦ some now | some d ↦ some (add_duration now d) ])
  every-Later now none h = absurd (cc)
  every-Later now (some (pos n)) h = ground arith
  every-Later now (some (negsuc n)) h = ground arith

  daily-Later :
      (now : ℕ) (o : Option (ℕ × ℕ))
      → ((hh mm : ℕ) → o ≡ some (hh, mm) → (hh < 24) × (mm < 60))
      → (if is_some o then none else some bad_daily) ≡ none
      → Later now (elim o [ none ↦ none | some (hh, mm) ↦ some (next_at_time cal now hh mm none) ])
  daily-Later now none b h = absurd (cc)
  daily-Later now (some (hh, mm)) b h =
      let (lo, hi) = b hh mm refl in next_at_time-lt now hh mm none lo hi tt

  weekly-Later :
      (now : ℕ) (o : Option (ℕ × ℕ × ℕ))
      → ((w hh mm : ℕ) → o ≡ some (w, hh, mm) → (w < 7) × (hh < 24) × (mm < 60))
      → (if is_some o then none else some bad_weekly) ≡ none
      → Later now
          (elim o [ none ↦ none | some (w, hh, mm) ↦ some (next_at_time cal now hh mm (some w)) ])
  weekly-Later now none b h = absurd (cc)
  weekly-Later now (some (w, hh, mm)) b h =
      let (d, lo, hi) = b w hh mm refl in next_at_time-lt now hh mm (some w) lo hi d

  pub next-Later :
      (s : Schedule) (now : ℕ)
      → check_recurrence parse_duration trim_space s ≡ none
      → Later now (next cal parse_duration s now)
  unfolding next check_recurrence
  next-Later s now h = go (s.every == "") (s.daily == "") (s.weekly == "") h
    where
      go :
          (e d w : Bool)
          → (if not e
              then elim (parse_duration s.every) [
                | none ↦ some bad_interval
                | some d ↦
                    if ltb_ℤ d (pos (5 * minute_ns)) || ltb_ℤ (pos (30 * 24 * 60 * minute_ns)) d
                    then some interval_range
                    else none
              ]
              else if not d
              then (if is_some (match_time (chars s.daily)) then none else some bad_daily)
              else if not w
              then (if is_some (match_weekly (chars s.weekly)) then none else some bad_weekly)
              else none)
            ≡ none
          → Later now (
              if not e
              then elim (parse_duration s.every) [
                | none ↦ some now
                | some d ↦ some (add_duration now d)
              ]
              else if not d
              then elim (match_time (chars s.daily)) [
                | none ↦ none
                | some (hh, mm) ↦ some (next_at_time cal now hh mm none)
              ]
              else if not w
              then elim (match_weekly (chars s.weekly)) [
                | none ↦ none
                | some (w, hh, mm) ↦ some (next_at_time cal now hh mm (some w))
              ]
              else some (now + hour_ns))
      go false d w h = every-Later now (parse_duration s.every) h
      go true false w h =
          daily-Later now (match_time (chars s.daily)) (match_time_bounds (chars s.daily)) h
      go true true false h =
          weekly-Later now (match_weekly (chars s.weekly)) (match_weekly_bounds (chars s.weekly)) h
      go true true true h = ground arith

  abbrev graded : Bool → Bool → Bool → Schedule → Option Invalid × Schedule
  graded a b c t =
      if a
      then (some bad_name, t)
      else if b
      then (some bad_action, t)
      else if c
      then (some not_one_recurrence, t)
      else elim (check_recurrence parse_duration trim_space t) [
        | some why ↦ (some why, t)
        | none ↦ (check_action parse_duration trim_space t, t)
      ]

  -- An accepted schedule has passed the check of its recurrence.
  validate_recurrence :
      (s s' : Schedule)
      → validate parse_duration trim_space s ≡ (none, s')
      → check_recurrence parse_duration trim_space s' ≡ none
  unfolding validate
  validate_recurrence s s' h =
      let t = record s { name = trim_space s.name } in
      go (t.name == "" || ltb 60 (len t.name)) (not (valid_action t.action))
        (not (nat_beq (is_set t.every + is_set t.daily + is_set t.weekly) 1)) t h
    where
      go :
          (a b c : Bool) (t : Schedule)
          → graded a b c t ≡ (none, s')
          → check_recurrence parse_duration trim_space s' ≡ none
      go true b c t h = absurd (cc)
      go false true c t h = absurd (cc)
      go false false true t h = absurd (cc)
      go false false false t h =
          let (r, e) = verdict_inv (check_recurrence parse_duration trim_space t) _ t s' h in
          sym (ap (check_recurrence parse_duration trim_space) e) ∙ r

  -- A schedule that `Validate` accepts, as `Validate` leaves it, has a next run, later than the
  -- instant from which it is computed, for a calendar that is an `IsCalendar`.
  pub validate-next :
      (s s' : Schedule) (now : ℕ)
      → validate parse_duration trim_space s ≡ (none, s')
      → Later now (next cal parse_duration s' now)
  validate-next s s' now h = next-Later s' now (validate_recurrence s s' h)
