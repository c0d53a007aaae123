-- ===== src/Fans/Curve/Line.antt =====
-- internal/fans/fans.go: the line that a curve draws, described by its points alone.
use control_panel.Base.{◌≡◌, refl, ap, inl, inr, true, false, List, [], ◌∷◌, ◌++◌, Bool-cases}
use control_panel.Fans.Curve.{Float, CurvePoint, interpolate, last_point}
use control_panel.Fans.Curve.Search.{IsOrdered, scan, reference}

module _ (N : Float) where
  -- How far the temperature is into the segment from `a` to `b`, and that part of the way from the
  -- one duty to the other.
  abbrev pub on_segment : CurvePoint N → CurvePoint N → N.F → N.F
  on_segment a b temp =
      N.add a.duty_pct (
        N.mul (N.div (N.sub temp a.temp_c) (N.sub b.temp_c a.temp_c)) (N.sub b.duty_pct a.duty_pct))

  -- `d` is the duty at `temp`: that of the first point up to its temperature, that of the last
  -- point from its temperature on, and in between on the segment of two neighbours.
  pub data OnLine (points : List (CurvePoint N)) (temp d : N.F) : Type 0 where
    up_to_first :
        (p : CurvePoint N) (ps : List (CurvePoint N))
        → points ≡ p ∷ ps
        → N.le temp p.temp_c ≡ true
        → d ≡ p.duty_pct
        → OnLine points temp d
    from_last :
        (p : CurvePoint N) (ps before : List (CurvePoint N)) (q : CurvePoint N)
        → points ≡ p ∷ ps
        → N.le temp p.temp_c ≡ false
        → points ≡ before ++ q ∷ []
        → N.le q.temp_c temp ≡ true
        → d ≡ q.duty_pct
        → OnLine points temp d
    inside :
        (front before later : List (CurvePoint N)) (q a b : CurvePoint N)
        → points ≡ front ++ q ∷ []
        → N.le q.temp_c temp ≡ false
        → points ≡ before ++ a ∷ b ∷ later
        → N.le temp a.temp_c ≡ false
        → N.le temp b.temp_c ≡ true
        → d ≡ on_segment a b temp
        → OnLine points temp d

  -- The segment that the scan finds.
  record Segment (points : List (CurvePoint N)) (temp d : N.F) : Type 0 where
    before : List (CurvePoint N)
    later : List (CurvePoint N)
    a : CurvePoint N
    b : CurvePoint N
    split : points ≡ before ++ a ∷ b ∷ later
    cold : N.le temp a.temp_c ≡ false
    hot : N.le temp b.temp_c ≡ true
    duty : d ≡ on_segment a b temp

  last_point-split :
      (p : CurvePoint N) (ps : List (CurvePoint N))
      → (before : List (CurvePoint N)) × (p ∷ ps ≡ before ++ last_point N p ps ∷ [])
  last_point-split p [] = ([], refl)
  last_point-split p (q ∷ qs) =
      let (before, e) = last_point-split q qs in (p ∷ before, ap (λ t. p ∷ t) e)

  scan-Segment :
      (o : IsOrdered N) (a : CurvePoint N) (ps : List (CurvePoint N)) (temp : N.F)
      → N.le temp a.temp_c ≡ false
      → N.le (last_point N a ps).temp_c temp ≡ false
      → Segment (a ∷ ps) temp (scan N o a ps temp)
  unfolding scan interpolate
  scan-Segment o a [] temp h l = elim (o.total temp a.temp_c) [ inl p ↦ cc | inr p ↦ cc ]
  scan-Segment o a (b ∷ ps) temp h l = elim (Bool-cases (N.le temp b.temp_c)) [
    | inl hot ↦ record {
      before = [];
      later = ps;
      a = a;
      b = b;
      split = refl;
      cold = h;
      hot = hot;
      duty = rw hot;
    }
    | inr cold ↦
        let s = scan-Segment o b ps temp cold l in
        record {
          before = a ∷ s.before;
          later = s.later;
          a = s.a;
          b = s.b;
          split = ap (λ t. a ∷ t) s.split;
          cold = s.cold;
          hot = s.hot;
          duty = rw cold s.duty;
        }
  ]

  pub reference-OnLine :
      (o : IsOrdered N) (p : CurvePoint N) (ps : List (CurvePoint N)) (temp : N.F)
      → OnLine (p ∷ ps) temp (reference N o (p ∷ ps) temp)
  unfolding reference
  reference-OnLine o p ps temp = elim (Bool-cases (N.le temp p.temp_c)) [
    | inl low ↦ up_to_first p ps refl low (rw low)
    | inr above ↦
        let (front, e) = last_point-split p ps in
        elim (Bool-cases (N.le (last_point N p ps).temp_c temp)) [
          | inl high ↦ from_last p ps front (last_point N p ps) refl above e high (rw (above, high))
          | inr within ↦
              let s = scan-Segment o p ps temp above within in
              inside front s.before s.later (last_point N p ps) s.a s.b e within s.split s.cold
                s.hot (rw (above, within) s.duty)
        ]
  ]
