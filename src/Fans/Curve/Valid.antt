-- ===== src/Fans/Curve/Valid.antt =====
-- internal/fans/fans.go: what `Validate` accepts, and the curves among it.
use control_panel.Base.{
  ◌≤◌, ◌≡◌, ◌≢◌, ◌↔◌, refl, Bool, true, false, none, some, String, List, [], ◌∷◌, length, string_eq,
  arith, str_iff,
}
use control_panel.Fans.Curve.{
  Float, CurvePoint, Settings, Mode, auto, manual, curve, other, max_curve_points, check_points,
  validate_in, validate, curve_duty,
}
use control_panel.Fans.Curve.Search.{IsOrdered, IsRising, reference, curve_duty-reference}
use control_panel.Fans.Curve.Line.{OnLine, reference-OnLine}

module _ (N : Float) where
  abbrev InRange : N.F → N.F → Type 0
  InRange x hi = (N.lt x (N.lit 0) ≡ false) × (N.lt hi x ≡ false)

  -- Every point is in range, and hotter than the one before it.
  abbrev pub PointsOk : N.F → List (CurvePoint N) → Type 0
  PointsOk prev [] = Unit {0}
  PointsOk prev (p ∷ ps) =
      InRange p.temp_c (N.lit 120)
      × InRange p.duty_pct (N.lit 100)
      × (N.le p.temp_c prev ≡ false)
      × PointsOk p.temp_c ps

  abbrev pub SoundIn : Mode → (String → Bool) → Settings N → Type 0
  SoundIn auto sensor_exists s = Unit {0}
  SoundIn manual sensor_exists s = InRange s.manual_pct (N.lit 100)
  SoundIn curve sensor_exists s =
      (s.sensor ≢ "")
      × (sensor_exists s.sensor ≡ true)
      × (2 ≤ length s.points)
      × (length s.points ≤ max_curve_points)
      × PointsOk N.minus_one s.points
  SoundIn (other m) sensor_exists s = ⊥

  check_points_iff :
      (prev : N.F) (ps : List (CurvePoint N)) → (check_points N prev ps ≡ none) ↔ PointsOk prev ps
  unfolding check_points
  check_points_iff prev [] = (λ _. tt, λ _. refl)
  check_points_iff prev (p ∷ ps) =
      let (to, from) = check_points_iff p.temp_c ps in
      (λ h. ground (arith, to), λ h. ground (arith, from h.3))

  validate_in_iff :
      (m : Mode) (sensor_exists : String → Bool) (s : Settings N)
      → (validate_in N m sensor_exists s ≡ none) ↔ SoundIn m sensor_exists s
  unfolding validate_in
  validate_in_iff auto sensor_exists s = (λ _. tt, λ _. refl)
  validate_in_iff manual sensor_exists s = (λ h. ground arith, λ h. ground arith)
  validate_in_iff (other m) sensor_exists s = (λ h. cc, λ h. absurd h)
  validate_in_iff curve sensor_exists s =
      let (to, from) = check_points_iff N.minus_one s.points in
      (
        λ h. ground (arith, to, str_iff s.sensor ""),
        λ h. ground (arith, from h.4, str_iff s.sensor ""),
      )

  -- `Validate` accepts a settings payload exactly when it is sound: any automatic mode; a manual
  -- duty of 0 to 100; a curve with a sensor that exists and 2 to 12 points, each with a temperature
  -- of 0 to 120 and a duty of 0 to 100, the temperatures strictly rising and the first above -1.
  pub validate_iff :
      (sensor_exists : String → Bool) (s : Settings N)
      → (validate N sensor_exists s ≡ none) ↔ SoundIn s.mode sensor_exists s
  unfolding validate
  validate_iff sensor_exists s = validate_in_iff s.mode sensor_exists s

  PointsOk-IsRising :
      (o : IsOrdered N) (prev : N.F) (ps : List (CurvePoint N)) → PointsOk prev ps → IsRising N o ps
  PointsOk-IsRising o prev [] h = tt
  PointsOk-IsRising o prev (a ∷ []) h = tt
  PointsOk-IsRising o prev (a ∷ b ∷ ps) h =
      (ground (arith, o.total a.temp_c b.temp_c), PointsOk-IsRising o a.temp_c (b ∷ ps) h.3)

  rising_curve :
      (o : IsOrdered N) (points : List (CurvePoint N)) (temp : N.F)
      → 2 ≤ length points
      → PointsOk N.minus_one points
      → (d : N.F) × (curve_duty N points temp ≡ some d) × OnLine N points temp d
  rising_curve o [] temp two ok = absurd (omega arith)
  rising_curve o (p ∷ ps) temp two ok = (
    reference N o (p ∷ ps) temp,
    curve_duty-reference N o (p ∷ ps) temp (PointsOk-IsRising o N.minus_one (p ∷ ps) ok),
    reference-OnLine N o p ps temp,
  )

  -- A curve that `Validate` accepts is evaluated without a panic at every temperature, to the duty
  -- of the line through its points: that of the first point up to its temperature, that of the
  -- last point from its temperature on, and in between, where a neighbour `a` is colder and the
  -- next one `b` is not, a's duty and of the way to b's the part (temp - a) / (b - a); if the
  -- comparison of numbers is total and transitive.
  pub curve_duty-validate :
      (o : IsOrdered N) (sensor_exists : String → Bool) (s : Settings N) (temp : N.F)
      → s.mode ≡ curve
      → validate N sensor_exists s ≡ none
      → (d : N.F) × (curve_duty N s.points temp ≡ some d) × OnLine N s.points temp d
  curve_duty-validate o sensor_exists s temp m h =
      let ok = rw m at ((validate_iff sensor_exists s).0 h) in
      rising_curve o s.points temp ok.2 ok.4
