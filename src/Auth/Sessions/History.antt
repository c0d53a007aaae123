-- ===== src/Auth/Sessions/History.antt =====
-- One token over any sequence of calls.
use control_panel.Base.{
  ℕ, ◌+◌, ◌≤◌, ◌≡◌, refl, ap, ◌∙◌, Bool, false, Option, none, some, String, List, [], ◌∷◌,
  if◌then◌else◌, ltb, ◌==◌, lookup, string_eq, lookup-insert, lookup-delete, arith, str_iff,
  Distinct, Distinct-insert, Distinct-delete, Distinct-keep, lookup-keep,
}
use control_panel.Auth.Sessions.{Sessions, new_sessions, is_live, gc, create, valid, revoke}

pub data Call : Type 0 where
  creates : ℕ → String → Call
  revokes : ℕ → String → Call

abbrev pub time_of : Call → ℕ
time_of (creates t token) = t
time_of (revokes t token) = t

abbrev pub token_of : Call → String
token_of (creates t token) = token
token_of (revokes t token) = token

module _ (digest : String → String) where
  unfoldable pub after : Sessions → Call → Sessions
  unfolding create revoke
  after s (creates t token) = create digest t token s
  after s (revokes t token) = revoke digest token s

  unfoldable pub run : Sessions → List Call → Sessions
  run s [] = s
  run s (c ∷ cs) = run (after s c) cs

  abbrev pub InOrder : ℕ → List Call → ℕ → Type 0
  InOrder t [] last = t ≤ last
  InOrder t (c ∷ cs) last = (t ≤ time_of c) × InOrder (time_of c) cs last

  -- No other token of the calls has the digest of this one.
  abbrev pub NoCollision : String → List Call → Type 0
  NoCollision token [] = Unit
  NoCollision token (c ∷ cs) =
      (digest (token_of c) ≡ digest token → token_of c ≡ token) × NoCollision token cs

  abbrev expiry_after : ℕ → String → Option ℕ → Call → Option ℕ
  expiry_after ttl token o (creates t other) = if other == token then some (t + ttl) else o
  expiry_after ttl token o (revokes t other) = if other == token then none else o

  -- When the token expires, by the calls alone: its last creation decides, unless a revocation follows.
  unfoldable pub expiry_of : ℕ → String → Option ℕ → List Call → Option ℕ
  expiry_of ttl token o [] = o
  expiry_of ttl token o (c ∷ cs) = expiry_of ttl token (expiry_after ttl token o c) cs

  abbrev pub alive : ℕ → Option ℕ → Bool
  alive now none = false
  alive now (some exp) = ltb now exp

  record Agrees (ttl : ℕ) (token : String) (t : ℕ) (s : Sessions) (o : Option ℕ) : Type 0 where
    ttl_is : s.ttl ≡ ttl
    distinct : Distinct s.by_id
    same : (now : ℕ) → t ≤ now → alive now (lookup (digest token) s.by_id) ≡ alive now o

  alive-gc :
      (t now : ℕ) (k : String) (s : Sessions)
      → t ≤ now
      → Distinct s.by_id
      → alive now (lookup k (gc t s).by_id) ≡ alive now (lookup k s.by_id)
  unfolding gc
  alive-gc t now k s h d =
      ap (alive now) (lookup-keep (is_live t) k s.by_id d) ∙ go (lookup k s.by_id)
    where
      go :
          (o : Option ℕ)
          → alive now
              (elim o [ none ↦ none | some exp ↦ if is_live t (k, exp) then some exp else none ])
            ≡ alive now o
      go none = refl
      go (some exp) = ground arith

  gc-Distinct : (t : ℕ) (s : Sessions) → Distinct s.by_id → Distinct (gc t s).by_id
  unfolding gc
  gc-Distinct t s d = Distinct-keep (is_live t) s.by_id d

  lookup-create :
      (t : ℕ) (other k : String) (s : Sessions)
      → lookup k (create digest t other s).by_id
        ≡ (if digest other == k then some (t + s.ttl) else lookup k (gc t s).by_id)
  unfolding create
  lookup-create t other k s = lookup-insert (digest other) k (t + s.ttl) (gc t s).by_id

  create-Distinct :
      (t : ℕ) (other : String) (s : Sessions)
      → Distinct s.by_id
      → Distinct (create digest t other s).by_id
  unfolding create
  create-Distinct t other s d = Distinct-insert (digest other) _ (gc t s).by_id (gc-Distinct t s d)

  lookup-revoke :
      (other k : String) (s : Sessions)
      → lookup k (revoke digest other s).by_id
        ≡ (if digest other == k then none else lookup k s.by_id)
  unfolding revoke
  lookup-revoke other k s = lookup-delete (digest other) k s.by_id

  revoke-Distinct :
      (other : String) (s : Sessions) → Distinct s.by_id → Distinct (revoke digest other s).by_id
  unfolding revoke
  revoke-Distinct other s d = Distinct-delete (digest other) s.by_id d

  after-Agrees :
      (ttl : ℕ) (token : String) (t : ℕ) (c : Call) (s : Sessions) (o : Option ℕ)
      → t ≤ time_of c
      → (digest (token_of c) ≡ digest token → token_of c ≡ token)
      → Agrees ttl token t s o
      → Agrees ttl token (time_of c) (after s c) (expiry_after ttl token o c)
  unfolding after
  after-Agrees ttl token t (creates t' other) s o h inj v = record {
    ttl_is = v.ttl_is;
    distinct = create-Distinct t' other s v.distinct;
    same = λ now le. ground (
      arith,
      v.ttl_is,
      lookup-create t' other (digest token) s,
      str_iff (digest other) (digest token),
      str_iff other token,
      inj,
      ap digest {x = other} {y = token},
      alive-gc t' now (digest token) s le v.distinct,
      v.same now,
    );
  }
  after-Agrees ttl token t (revokes t' other) s o h inj v = record {
    ttl_is = v.ttl_is;
    distinct = revoke-Distinct other s v.distinct;
    same = λ now le. ground (
      arith,
      lookup-revoke other (digest token) s,
      str_iff (digest other) (digest token),
      str_iff other token,
      inj,
      ap digest {x = other} {y = token},
      v.same now,
    );
  }

  run-Agrees :
      (ttl : ℕ) (token : String) (cs : List Call) (t last : ℕ) (s : Sessions) (o : Option ℕ)
      → InOrder t cs last
      → NoCollision token cs
      → Agrees ttl token t s o
      → Agrees ttl token last (run s cs) (expiry_of ttl token o cs)
  unfolding run expiry_of
  run-Agrees ttl token [] t last s o h n v = record {
    ttl_is = v.ttl_is;
    distinct = v.distinct;
    same = λ now le. v.same now (omega arith);
  }
  run-Agrees ttl token (c ∷ cs) t last s o h n v =
      run-Agrees ttl token cs (time_of c) last (after s c) _ h.1 n.1
        (after-Agrees ttl token t c s o h.0 n.0 v)

  start-Agrees : (ttl : ℕ) (token : String) → Agrees ttl token 0 (new_sessions ttl) none
  unfolding new_sessions lookup
  start-Agrees ttl token = record { ttl_is = refl; distinct = tt; same = λ now le. refl }

  valid_lem :
      (now : ℕ) (token : String) (s : Sessions)
      → valid digest now token s
        ≡ (if token == "" then false else alive now (lookup (digest token) s.by_id))
  unfolding valid
  valid_lem now token s = refl

  -- After any creations and revocations, made in the order of the clock on new sessions, a token is
  -- valid exactly if it is not empty, was created less than its lifetime ago, and has not been
  -- revoked since; that holds if no other token of the calls has its digest.
  pub valid-run :
      (ttl : ℕ) (token : String) (cs : List Call) (now : ℕ)
      → InOrder 0 cs now
      → NoCollision token cs
      → valid digest now token (run (new_sessions ttl) cs)
        ≡ (if token == "" then false else alive now (expiry_of ttl token none cs))
  valid-run ttl token cs now h n =
      let v = run-Agrees ttl token cs 0 now (new_sessions ttl) none h n (start-Agrees ttl token) in
      valid_lem now token (run (new_sessions ttl) cs)
      ∙ ap (λ b. if token == "" then false else b) (v.same now (omega arith))
