-- ===== src/Fans/Curve/Search.antt =====
-- internal/fans/fans.go: the binary search of `CurveDuty` against a scan from the left.
use control_panel.Base.{
  ℕ, zero, suc, ◌+◌, ◌-◌, ◌/◌, ◌≤◌, ◌<◌, ◌≡◌, refl, sym, ap, ◌∙◌, ◌⊎◌, inl, inr, Bool, true, false,
  some, List, [], ◌∷◌, if◌then◌else◌, length, ltb, string_eq, arith, Bool-cases, ltb→lt, ltb→ge,
}
use control_panel.Fans.Curve.{
  Float, CurvePoint, search_in, hot_at, interpolate, between, last_point, curve_duty,
}

-- Once the test passes it goes on passing.
abbrev pub IsMonotone : (ℕ → Bool) → Type 0
IsMonotone f = (i : ℕ) → f i ≡ true → f (suc i) ≡ true

-- `r` is the least index below `n` at which the test passes, or `n`.
pub record IsLeast (f : ℕ → Bool) (n r : ℕ) : Type 0 where
  pub below : (k : ℕ) → k < r → f k ≡ false
  pub at : r < n → f r ≡ true
  pub within : r ≤ n

monotone_from : (f : ℕ → Bool) → IsMonotone f → (d i : ℕ) → f i ≡ true → f (d + i) ≡ true
monotone_from f mono zero i h = let e : i ≡ 0 + i = omega arith in ap f (sym e) ∙ h
monotone_from f mono (suc d) i h =
    let e : suc d + i ≡ suc (d + i) = omega arith in
    ap f e ∙ mono (d + i) (monotone_from f mono d i h)

not_before : (f : ℕ → Bool) → IsMonotone f → (k h : ℕ) → k ≤ h → f h ≡ false → f k ≡ false
not_before f mono k h le e = elim (Bool-cases (f k)) [
  | inl hit ↦
      let s : h - k + k ≡ h = omega arith in
      absurd (cc (ap f s, monotone_from f mono (h - k) k hit))
  | inr miss ↦ miss
]

search_in-IsLeast :
    (f : ℕ → Bool) (n : ℕ)
    → IsMonotone f
    → (fuel i j : ℕ) → j - i ≤ fuel
    → i ≤ j
    → j ≤ n
    → ((k : ℕ) → k < i → f k ≡ false)
    → (j < n → f j ≡ true)
    → IsLeast f n (search_in f fuel i j)
unfolding search_in
search_in-IsLeast f n mono zero i j m le jn lo hi =
    let e : i ≡ j = omega arith in
    record { below = lo; at = λ h. ap f e ∙ hi (omega arith); within = omega arith }
search_in-IsLeast f n mono (suc fuel) i j m le jn lo hi = elim (Bool-cases (ltb i j)) [
  | inl lt ↦ elim (Bool-cases (f ((i + j) / 2))) [
    | inl hit ↦
        rw (lt, hit)
          (search_in-IsLeast f n mono fuel i ((i + j) / 2) (omega (arith, ltb→lt i j lt))
            (omega (arith, ltb→lt i j lt)) (omega (arith, ltb→lt i j lt)) lo (λ _. hit))
    | inr miss ↦
        rw (lt, miss)
          (search_in-IsLeast f n mono fuel ((i + j) / 2 + 1) j (omega (arith, ltb→lt i j lt))
            (omega (arith, ltb→lt i j lt)) jn
            (λ k h. not_before f mono k ((i + j) / 2) (omega arith) miss) hi)
  ]
  | inr ge ↦
      let e : i ≡ j = omega (arith, ltb→ge i j ge) in
      rw ge (record { below = lo; at = λ h. ap f e ∙ hi (omega arith); within = omega arith })
]

IsLeast-unique : (f : ℕ → Bool) (n r s : ℕ) → IsLeast f n r → IsLeast f n s → r ≡ s
IsLeast-unique f n r s a b = elim (Bool-cases (ltb r s)) [
  | inl lt ↦
      absurd (clash r (b.below r (ltb→lt r s lt)) (a.at (omega (arith, ltb→lt r s lt, b.within))))
  | inr ge ↦ elim (Bool-cases (ltb s r)) [
    | inl lt ↦
        absurd (clash s (a.below s (ltb→lt s r lt)) (b.at (omega (arith, ltb→lt s r lt, a.within))))
    | inr le ↦ omega (arith, ltb→ge r s ge, ltb→ge s r le)
  ]
]
  where
    clash : (k : ℕ) → f k ≡ false → f k ≡ true → ⊥
    clash k p q = cc

-- The order of the floats that occur, NaN excluded: total and transitive.
pub record IsOrdered (N : Float) : Type 0 where
  pub total : (a b : N.F) → (N.le a b ≡ true) ⊎ (N.le b a ≡ true)
  pub trans : (a b c : N.F) → N.le a b ≡ true → N.le b c ≡ true → N.le a c ≡ true

module _ (N : Float) (o : IsOrdered N) where
  -- Temperatures do not fall along the curve.
  abbrev pub IsRising : List (CurvePoint N) → Type 0
  IsRising [] = Unit
  IsRising (a ∷ []) = Unit
  IsRising (a ∷ b ∷ ps) = (N.le a.temp_c b.temp_c ≡ true) × IsRising (b ∷ ps)

  -- The scan: the first point that is not colder ends the segment.
  unfoldable pub scan : CurvePoint N → List (CurvePoint N) → N.F → N.F
  scan a [] temp = a.duty_pct
  scan a (b ∷ ps) temp =
      let rest = scan b ps temp in if N.le temp b.temp_c then interpolate N a b temp else rest

  -- The curve as the documentation gives it: flat before the first and after the last point, and
  -- in between the segment that holds the temperature.
  unfoldable pub reference : List (CurvePoint N) → N.F → N.F
  reference [] temp = N.lit 100
  reference (p ∷ ps) temp =
      if N.le temp p.temp_c
      then p.duty_pct
      else if N.le (last_point N p ps).temp_c temp
      then (last_point N p ps).duty_pct
      else scan p ps temp

  first_hot : List (CurvePoint N) → N.F → ℕ
  first_hot [] temp = 0
  first_hot (p ∷ ps) temp = if N.le temp p.temp_c then 0 else suc (first_hot ps temp)

  hot_at-IsMonotone :
      (ps : List (CurvePoint N)) (temp : N.F) → IsRising ps → IsMonotone (hot_at N ps temp)
  unfolding hot_at
  hot_at-IsMonotone [] temp r i h = refl
  hot_at-IsMonotone (a ∷ []) temp r zero h = refl
  hot_at-IsMonotone (a ∷ []) temp r (suc i) h = refl
  hot_at-IsMonotone (a ∷ b ∷ ps) temp r zero h = o.trans temp a.temp_c b.temp_c h r.0
  hot_at-IsMonotone (a ∷ b ∷ ps) temp r (suc i) h = hot_at-IsMonotone (b ∷ ps) temp r.1 i h

  first_hot-IsLeast :
      (ps : List (CurvePoint N)) (temp : N.F)
      → IsLeast (hot_at N ps temp) (length ps) (first_hot ps temp)
  unfolding hot_at first_hot
  first_hot-IsLeast [] temp = record {
    below = λ k h. elim h [ ];
    at = λ h. elim h [ ];
    within = omega arith;
  }
  first_hot-IsLeast (p ∷ ps) temp = elim (Bool-cases (N.le temp p.temp_c)) [
    | inl hot ↦ rw hot (record { below = λ k h. elim h [ ]; at = λ h. hot; within = omega arith })
    | inr cold ↦
        let ih = first_hot-IsLeast ps temp in
        rw cold (record {
          below = shift ps cold (first_hot ps temp) ih.below;
          at = λ h. ih.at (omega arith);
          within = omega (arith, ih.within);
        })
  ]
    where
      shift :
          (ps : List (CurvePoint N))
          → N.le temp p.temp_c ≡ false
          → (r : ℕ) → ((k : ℕ) → k < r → hot_at N ps temp k ≡ false)
          → (k : ℕ) → k < suc r
          → hot_at N (p ∷ ps) temp k ≡ false
      shift ps cold r h zero lt = cold
      shift ps cold r h (suc k) lt = h k (omega arith)

  between-scan :
      (a : CurvePoint N) (ps : List (CurvePoint N)) (temp : N.F)
      → N.le temp a.temp_c ≡ false
      → N.le (last_point N a ps).temp_c temp ≡ false
      → between N (a ∷ ps) (suc (first_hot ps temp)) temp ≡ some (scan a ps temp)
  unfolding first_hot between scan
  between-scan a [] temp h l = elim (o.total temp a.temp_c) [ inl p ↦ cc | inr p ↦ cc ]
  between-scan a (b ∷ ps) temp h l = elim (Bool-cases (N.le temp b.temp_c)) [
    | inl hot ↦ rw (hot)
    | inr cold ↦ rw (cold) (between-scan b ps temp cold l)
  ]

  found :
      (p : CurvePoint N) (ps : List (CurvePoint N)) (temp : N.F)
      → IsRising (p ∷ ps)
      → search_in (hot_at N (p ∷ ps) temp) (length (p ∷ ps)) 0 (length (p ∷ ps))
        ≡ first_hot (p ∷ ps) temp
  found p ps temp r =
      let f = hot_at N (p ∷ ps) temp in
      let n = length (p ∷ ps) in
      IsLeast-unique f n _ _
        (search_in-IsLeast f n (hot_at-IsMonotone (p ∷ ps) temp r) n 0 n (omega arith) (omega arith)
          (omega arith) (λ k h. elim h [ ]) (λ h. absurd (omega arith)))
        (first_hot-IsLeast (p ∷ ps) temp)

  first_cold :
      (p : CurvePoint N) (ps : List (CurvePoint N)) (temp : N.F)
      → N.le temp p.temp_c ≡ false
      → first_hot (p ∷ ps) temp ≡ suc (first_hot ps temp)
  unfolding first_hot
  first_cold p ps temp h = rw h

  -- On a curve whose temperatures do not fall, the binary search never reads out of range, and
  -- the duty is that of the scan from the left.
  pub curve_duty-reference :
      (points : List (CurvePoint N)) (temp : N.F)
      → IsRising points
      → curve_duty N points temp ≡ some (reference points temp)
  unfolding curve_duty reference
  curve_duty-reference [] temp r = refl
  curve_duty-reference (p ∷ ps) temp r = elim (Bool-cases (N.le temp p.temp_c)) [
    | inl cold ↦ rw cold
    | inr above ↦ elim (Bool-cases (N.le (last_point N p ps).temp_c temp)) [
      | inl hot ↦ rw (above, hot)
      | inr inside ↦
          rw (above, inside)
            (ap (λ k. between N (p ∷ ps) k temp) (found p ps temp r ∙ first_cold p ps temp above)
              ∙ between-scan p ps temp above inside)
    ]
  ]
