-- ===== src/Auth/Limiter/History.antt =====
-- The limiter over any sequence of calls.
use control_panel.Base.{
  ℕ, ◌+◌, ◌≤◌, ◌≡◌, refl, sym, ap, ◌∙◌, Bool, String, List, [], ◌∷◌, ◌++◌, if◌then◌else◌, length,
  ltb, keep, ◌==◌, lookup, string_eq, lookup-insert, lookup-delete, arith, str_iff, Bool-cases, inl,
  inr,
}
use control_panel.Auth.Limiter.{
  LoginLimiter, new_login_limiter, times_in, is_fresh, put_times, recent, allow, fail, reset,
}

pub data Call : Type 0 where
  allows : ℕ → String → Call
  fails : ℕ → String → Call
  resets : ℕ → String → Call

abbrev pub time_of : Call → ℕ
time_of (allows t ip) = t
time_of (fails t ip) = t
time_of (resets t ip) = t

unfoldable pub after : LoginLimiter → Call → LoginLimiter
unfolding allow fail reset
after l (allows t ip) = (allow t ip l).1
after l (fails t ip) = fail t ip l
after l (resets t ip) = reset ip l

unfoldable pub run : LoginLimiter → List Call → LoginLimiter
run l [] = l
run l (c ∷ cs) = run (after l c) cs

-- Every failure of the address since its last reset, oldest first.
abbrev note : String → List ℕ → Call → List ℕ
note ip ts (allows t j) = ts
note ip ts (fails t j) = if j == ip then ts ++ t ∷ [] else ts
note ip ts (resets t j) = if j == ip then [] else ts

unfoldable pub failures_of : String → List ℕ → List Call → List ℕ
failures_of ip ts [] = ts
failures_of ip ts (c ∷ cs) = failures_of ip (note ip ts c) cs

-- The calls come in the order of the clock, none after `last`.
abbrev pub InOrder : ℕ → List Call → ℕ → Type 0
InOrder t [] last = t ≤ last
InOrder t (c ∷ cs) last = (t ≤ time_of c) × InOrder (time_of c) cs last

abbrev times : String → LoginLimiter → List ℕ
times ip l = times_in (lookup ip l.failures)

keep-keep :
    (window t now : ℕ) (ts : List ℕ)
    → t ≤ now
    → keep (is_fresh window now) (keep (is_fresh window t) ts) ≡ keep (is_fresh window now) ts
keep-keep window t now [] h = refl
keep-keep window t now (x ∷ ts) h = ground (arith, keep-keep window t now ts h)

keep-append : (p : ℕ → Bool) (xs ys : List ℕ) → keep p (xs ++ ys) ≡ keep p xs ++ keep p ys
keep-append p [] ys = refl
keep-append p (x ∷ xs) ys = ground (arith, keep-append p xs ys)

times-put_times :
    (ip j : String) (ts : List ℕ) (l : LoginLimiter)
    → times ip (put_times j ts l) ≡ (if j == ip then ts else times ip l)
times-put_times ip j [] l = ground (arith, lookup-delete j ip l.failures)
times-put_times ip j (t ∷ ts) l = ground (arith, lookup-insert j ip (t ∷ ts) l.failures)

window-put_times :
    (j : String) (ts : List ℕ) (l : LoginLimiter)
    → ((put_times j ts l).window ≡ l.window) × ((put_times j ts l).max ≡ l.max)
window-put_times j [] l = (refl, refl)
window-put_times j (t ∷ ts) l = (refl, refl)

times-fail :
    (ip j : String) (now : ℕ) (l : LoginLimiter)
    → times ip (fail now j l)
      ≡ (if j == ip then keep (is_fresh l.window now) (times ip l) ++ now ∷ [] else times ip l)
unfolding fail
times-fail ip j now l =
    let kept = keep (is_fresh l.window now) (times j l) in
    ground (
      arith,
      lookup-insert j ip (kept ++ now ∷ []) (put_times j kept l).failures,
      times-put_times ip j kept l,
      str_iff j ip,
    )

fail_keeps :
    (j : String) (now : ℕ) (l : LoginLimiter)
    → ((fail now j l).window ≡ l.window) × ((fail now j l).max ≡ l.max)
unfolding fail
fail_keeps j now l = window-put_times j _ l

-- What is kept of an address agrees with its failures, at `t` and ever after.
record Agrees (window max : ℕ) (ip : String) (t : ℕ) (l : LoginLimiter) (ts : List ℕ) : Type 0 where
  window_is : l.window ≡ window
  max_is : l.max ≡ max
  same :
      (now : ℕ) → t ≤ now → keep (is_fresh window now) (times ip l) ≡ keep (is_fresh window now) ts

module _ (window max : ℕ) (ip : String) where
  recent-Agrees :
      (t t' : ℕ) (j : String) (l : LoginLimiter) (ts : List ℕ)
      → t ≤ t'
      → Agrees window max ip t l ts
      → Agrees window max ip t' (recent t' j l).1 ts
  unfolding recent
  recent-Agrees t t' j l ts h v =
      let kept = keep (is_fresh l.window t') (times j l) in
      let w = window-put_times j kept l in
      record {
        window_is = w.0 ∙ v.window_is;
        max_is = w.1 ∙ v.max_is;
        same = λ now le. ground (
          arith,
          v.window_is,
          times-put_times ip j kept l,
          str_iff j ip,
          keep-keep window t' now (times ip l),
          v.same now,
        );
      }

  after-Agrees :
      (t : ℕ) (c : Call) (l : LoginLimiter) (ts : List ℕ)
      → t ≤ time_of c
      → Agrees window max ip t l ts
      → Agrees window max ip (time_of c) (after l c) (note ip ts c)
  unfolding after
  after-Agrees t (allows t' j) l ts h v = recent-Agrees t t' j l ts h v
  after-Agrees t (fails t' j) l ts h v = record {
    window_is = (fail_keeps j t' l).0 ∙ v.window_is;
    max_is = (fail_keeps j t' l).1 ∙ v.max_is;
    same = λ now le.
        ap (keep (is_fresh window now)) (times-fail ip j t' l) ∙ elim (Bool-cases (j == ip)) [
          | inl hit ↦
              rw (hit, v.window_is)
                (keep-append (is_fresh window now) (keep (is_fresh window t') (times ip l))
                    (t' ∷ [])
                  ∙ ap (λ ks. ks ++ keep (is_fresh window now) (t' ∷ []))
                      (keep-keep window t' now (times ip l) le ∙ v.same now (omega arith))
                  ∙ sym (keep-append (is_fresh window now) ts (t' ∷ [])))
          | inr miss ↦ rw miss (v.same now (omega arith))
        ];
  }
  after-Agrees t (resets t' j) l ts h v = record {
    window_is = v.window_is;
    max_is = v.max_is;
    same = λ now le. ground (arith, lookup-delete j ip l.failures, v.same now);
  }

  run-Agrees :
      (cs : List Call) (t last : ℕ) (l : LoginLimiter) (ts : List ℕ)
      → InOrder t cs last
      → Agrees window max ip t l ts
      → Agrees window max ip last (run l cs) (failures_of ip ts cs)
  unfolding run failures_of
  run-Agrees [] t last l ts h v = record {
    window_is = v.window_is;
    max_is = v.max_is;
    same = λ now le. v.same now (omega arith);
  }
  run-Agrees (c ∷ cs) t last l ts h v =
      run-Agrees cs (time_of c) last (after l c) (note ip ts c) h.1 (after-Agrees t c l ts h.0 v)

  start-Agrees : Agrees window max ip 0 (new_login_limiter max window) []
  unfolding new_login_limiter lookup
  start-Agrees = record { window_is = refl; max_is = refl; same = λ now le. refl }

  allow_lem :
      (now : ℕ) (l : LoginLimiter)
      → (allow now ip l).0 ≡ ltb (length (keep (is_fresh l.window now) (times ip l))) l.max
  unfolding allow
  allow_lem now l =
      ap (ltb (length (keep (is_fresh l.window now) (times ip l)))) (window-put_times ip _ l).1

  -- After any calls for any addresses, made in the order of the clock on a new limiter, `Allow`
  -- lets an address try exactly if fewer than `max` of its failures since its last reset are
  -- younger than the window; the entries that the limiter has forgotten never matter.
  pub allow-run :
      (cs : List Call) (now : ℕ)
      → InOrder 0 cs now
      → (allow now ip (run (new_login_limiter max window) cs)).0
        ≡ ltb (length (keep (λ t. ltb now (t + window)) (failures_of ip [] cs))) max
  allow-run cs now h =
      let v = run-Agrees cs 0 now (new_login_limiter max window) [] h start-Agrees in
      allow_lem now (run (new_login_limiter max window) cs)
      ∙ rw (v.window_is, v.max_is) (ap (λ ks. ltb (length ks) max) (v.same now (omega arith)))
