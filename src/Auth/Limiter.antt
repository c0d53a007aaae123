-- ===== src/Auth/Limiter.antt =====
-- internal/auth/limiter.go: failed logins per address. The clock is an argument of each call;
-- `t.After(now - window)` is written `now < t + window`.
pub mod History
use control_panel.Base.{
  ℕ, ◌+◌, Bool, true, false, Option, none, some, String, List, [], ◌∷◌, ◌++◌, if◌then◌else◌, length,
  ltb, keep, lookup, insert, delete, string_eq,
}

pub record LoginLimiter : Type 0 where
  pub window : ℕ
  pub max : ℕ
  pub failures : List (String × List ℕ)

unfoldable pub new_login_limiter : ℕ → ℕ → LoginLimiter
new_login_limiter max window = record { window = window; max = max; failures = [] }

abbrev pub times_in : Option (List ℕ) → List ℕ
times_in none = []
times_in (some ts) = ts

abbrev pub is_fresh : ℕ → ℕ → ℕ → Bool
is_fresh window now t = ltb now (t + window)

abbrev pub put_times : String → List ℕ → LoginLimiter → LoginLimiter
put_times ip [] l = record l { failures = delete ip l.failures }
put_times ip (t ∷ ts) l = record l { failures = insert ip (t ∷ ts) l.failures }

-- `recentLocked`: the failures that still count, which are also all that is kept.
unfoldable pub recent : ℕ → String → LoginLimiter → List ℕ × LoginLimiter
recent now ip l =
    let kept = keep (is_fresh l.window now) (times_in (lookup ip l.failures)) in
    (kept, put_times ip kept l)

unfoldable pub allow : ℕ → String → LoginLimiter → Bool × LoginLimiter
unfolding recent
allow now ip l = let (kept, l') = recent now ip l in (ltb (length kept) l'.max, l')

unfoldable pub fail : ℕ → String → LoginLimiter → LoginLimiter
unfolding recent
fail now ip l =
    let (kept, l') = recent now ip l in
    record l' { failures = insert ip (kept ++ now ∷ []) l'.failures }

unfoldable pub reset : String → LoginLimiter → LoginLimiter
reset ip l = record l { failures = delete ip l.failures }
