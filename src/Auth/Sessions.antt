-- ===== src/Auth/Sessions.antt =====
-- internal/auth/session.go: bearer tokens, of which only digests are kept. The clock (in unix ms)
-- and the random token are arguments of the calls; SHA-256 is a parameter; reading and writing the
-- session file is left out, and an unreadable random source, which only returns an error.
pub mod History
use control_panel.Base.{
  ℕ, ◌+◌, Bool, true, false, not, Option, none, some, String, List, [], ◌∷◌, if◌then◌else◌, ltb,
  leb, keep, ◌==◌, lookup, insert, delete, string_eq,
}

pub record Sessions : Type 0 where
  pub ttl : ℕ
  pub by_id : List (String × ℕ)

unfoldable pub new_sessions : ℕ → Sessions
new_sessions ttl = record { ttl = ttl; by_id = [] }

abbrev pub is_live : ℕ → String × ℕ → Bool
is_live now e = not (leb e.1 now)

-- `gcLocked`
unfoldable pub gc : ℕ → Sessions → Sessions
gc now s = record s { by_id = keep (is_live now) s.by_id }

-- `load`, of the entries read from the session file.
unfoldable pub load : ℕ → List (String × ℕ) → Sessions → Sessions
unfolding gc
load now entries s = gc now (record s { by_id = entries })

module _ (digest : String → String) where
  unfoldable pub create : ℕ → String → Sessions → Sessions
  unfolding gc
  create now token s =
      let s' = gc now s in record s' { by_id = insert (digest token) (now + s.ttl) s'.by_id }

  unfoldable pub valid : ℕ → String → Sessions → Bool
  valid now token s =
      if token == ""
      then false
      else elim (lookup (digest token) s.by_id) [ none ↦ false | some exp ↦ ltb now exp ]

  unfoldable pub revoke : String → Sessions → Sessions
  revoke token s = record s { by_id = delete (digest token) s.by_id }
