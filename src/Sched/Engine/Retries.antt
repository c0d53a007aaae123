-- ===== src/Sched/Engine/Retries.antt =====
-- A schedule over any sequence of runs that succeed or fail.
use control_panel.Base.{
  ℕ, ◌+◌, ◌*◌, ◌%◌, ◌≡◌, refl, sym, ap, ◌∙◌, true, false, Option, none, some, String, List, [], ◌∷◌,
  if◌then◌else◌, leb, nat_beq, string_eq, ℤ, arith, Bool-cases, inl, inr,
}
use control_panel.Sched.{Schedule, check_recurrence, minute_ns}
use control_panel.Sched.Next.{Calendar, unix_milli, next}
use control_panel.Sched.Next.First.{IsCalendar}
use control_panel.Sched.Next.Valid.{Later, next-Later}
use control_panel.Sched.Engine.{
  next_ms, with_next, settle, done, retry_later, give_up, retry_delay, max_retries,
}

pub record Outcome : Type 0 where
  pub now : ℕ
  pub detail : String
  pub err : Option String

-- The failures in a row, up to and with this outcome.
abbrev pub fails_after : ℕ → Option String → ℕ
fails_after n none = 0
fails_after n (some why) = n + 1

pub streak : ℕ → List Outcome → ℕ
streak n [] = n
streak n (o ∷ os) = streak (fails_after n o.err) os

module _ (cal : Calendar) (law : IsCalendar cal) (parse_duration : String → Option ℤ)
    (trim_space : String → String) where
  pub settle_all : List Outcome → Schedule → Option Schedule
  settle_all [] s = some s
  settle_all (o ∷ os) s = elim (settle cal parse_duration trim_space o.now o.detail o.err s) [
    | none ↦ none
    | some s' ↦ settle_all os s'
  ]

  -- Five minutes after the first and the second failure in a row, also after the fourth and the
  -- fifth, and so on; else the regular time.
  abbrev pub planned : Schedule → ℕ → ℕ → Option ℕ
  planned s n now =
      if nat_beq (n % 3) 0
      then next_ms cal parse_duration trim_space s now
      else some (unix_milli (now + 5 * minute_ns))

  pub plan : Schedule → ℕ → Option ℕ → List Outcome → Option ℕ
  plan s n t [] = t
  plan s n t (o ∷ os) = plan s (fails_after n o.err) (planned s (fails_after n o.err) o.now) os

  abbrev SameNext : Schedule → Schedule → Type 0
  SameNext s0 s =
      (now : ℕ)
      → next_ms cal parse_duration trim_space s now ≡ next_ms cal parse_duration trim_space s0 now

  abbrev HasNext : Schedule → Type 0
  HasNext s = (now : ℕ) → (t : ℕ) × (next_ms cal parse_duration trim_space s now ≡ some t)

  has_next : (s : Schedule) → check_recurrence parse_duration trim_space s ≡ none → HasNext s
  has_next s h now =
      go (next cal parse_duration s now) (next-Later cal law parse_duration trim_space s now h)
    where
      go :
          (o : Option ℕ)
          → Later cal law parse_duration trim_space now o
          → (t : ℕ) × (elim o [ none ↦ none | some t ↦ some (unix_milli t) ] ≡ some t)
      go none b = absurd b
      go (some t) b = (unix_milli t, refl)

  next_same :
      (s : Schedule) (a b c now : ℕ) (r : String)
      → next_ms cal parse_duration trim_space
          (record s { last_run = a; retries = b; next_run = c; last_result = r })
          now
        ≡ next_ms cal parse_duration trim_space s now
  unfolding next
  next_same s a b c now r = refl

  -- `s` is `s0` after some runs, the last `n` of which failed.
  record Follows (s0 : Schedule) (n : ℕ) (t : Option ℕ) (s : Schedule) : Type 0 where
    same : SameNext s0 s
    count : s.retries ≡ n % 3
    when : some s.next_run ≡ t

  settle-Follows :
      (s0 s : Schedule) (n : ℕ) (t : Option ℕ) (now : ℕ) (detail : String) (err : Option String)
      → HasNext s0
      → Follows s0 n t s
      → (s' : Schedule) × (settle cal parse_duration trim_space now detail err s ≡ some s')
        × Follows s0 (fails_after n err) (planned s0 (fails_after n err) now) s'
  unfolding settle
  settle-Follows s0 s n t now detail none has v =
      let (t', e) = has now in
      let s1 = done cal parse_duration trim_space detail (record s { last_run = unix_milli now }) in
      (
        record s1 { next_run = t' },
        ap (λ o. with_next cal parse_duration trim_space o s1)
            (next_same s (unix_milli now) s.retries s.next_run now s.last_result ∙ v.same now ∙ e),
        record {
          same = λ m. next_same s (unix_milli now) 0 t' m _ ∙ v.same m;
          count = refl;
          when = sym e;
        },
      )
  settle-Follows s0 s n t now detail (some why) has v =
      let s1 = record s { last_run = unix_milli now; retries = s.retries + 1 } in
      elim (Bool-cases (leb (s.retries + 1) max_retries)) [
        | inl again ↦
            let few : nat_beq ((n + 1) % 3) 0 ≡ false = ground (arith, v.count) in
            (
              retry_later cal parse_duration trim_space now why s1,
              rw again,
              record {
                same = λ m.
                    next_same s (unix_milli now) (s.retries + 1) (unix_milli (now + retry_delay)) m
                      _
                    ∙ v.same m;
                count = ground (arith, v.count);
                when = rw few;
              },
            )
        | inr over ↦
            let (t', e) = has now in
            let many : nat_beq ((n + 1) % 3) 0 ≡ true = ground (arith, v.count) in
            (
              record (give_up cal parse_duration trim_space why s1) { next_run = t' },
              rw over (
                  ap
                    (λ o.
                      with_next cal parse_duration trim_space o
                        (give_up cal parse_duration trim_space why s1))
                    (next_same s (unix_milli now) (s.retries + 1) s.next_run now s.last_result
                      ∙ v.same now
                      ∙ e)),
              record {
                same = λ m. next_same s (unix_milli now) 0 t' m _ ∙ v.same m;
                count = ground (arith, v.count);
                when = rw many (sym e);
              },
            )
      ]

  settle_all-Follows :
      (s0 : Schedule) (os : List Outcome) (s : Schedule) (n : ℕ) (t : Option ℕ)
      → HasNext s0
      → Follows s0 n t s
      → (s' : Schedule) × (settle_all os s ≡ some s') × Follows s0 (streak n os) (plan s0 n t os) s'
  unfolding settle_all streak plan
  settle_all-Follows s0 [] s n t has v = (s, refl, v)
  settle_all-Follows s0 (o ∷ os) s n t has v =
      let (s1, e1, v1) = settle-Follows s0 s n t o.now o.detail o.err has v in
      let (s2, e2, v2) = settle_all-Follows s0 os s1 _ _ has v1 in
      (s2, ap (λ r. elim r [ none ↦ none | some s' ↦ settle_all os s' ]) e1 ∙ e2, v2)

  -- A schedule whose recurrence `Validate` accepts, with no retries counted, goes without a panic
  -- through any runs that succeed or fail: the retries counted are the failures in a row, modulo 3,
  -- and the next run is five minutes after a failure that does not bring them to a multiple of 3,
  -- else at the regular time, for a calendar that is an `IsCalendar`.
  pub retries-settle_all :
      (s : Schedule) (os : List Outcome)
      → check_recurrence parse_duration trim_space s ≡ none
      → s.retries ≡ 0
      → (s' : Schedule) × (settle_all os s ≡ some s')
        × (s'.retries ≡ streak 0 os % 3)
        × (some s'.next_run ≡ plan s 0 (some s.next_run) os)
  retries-settle_all s os h z =
      let (s', e, v) =
        settle_all-Follows s os s 0 (some s.next_run) (has_next s h)
          (record { same = λ now. refl; count = z; when = refl }) in
      (s', e, v.count, v.when)
