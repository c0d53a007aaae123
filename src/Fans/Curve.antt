-- ===== src/Fans/Curve.antt =====
-- internal/fans/fans.go: settings, their validation, and the curve.
pub mod Line
pub mod Search
pub mod Valid
use control_panel.Base.{
  ℕ, zero, suc, ◌+◌, ◌-◌, ◌/◌, Bool, true, false, not, ◌&&◌, ◌||◌, Option, none, some, String, List,
  [], ◌∷◌, if◌then◌else◌, length, get_elem?, ltb, nat_beq, ◌==◌, string_eq,
}

-- What the code uses of float64.
pub record Float : Type 1 where
  pub F : Type 0
  pub le : F → F → Bool
  pub lt : F → F → Bool
  pub add : F → F → F
  pub sub : F → F → F
  pub mul : F → F → F
  pub div : F → F → F
  pub lit : ℕ → F
  pub minus_one : F

pub data Mode : Type 0 where
  auto manual curve : Mode
  other : String → Mode

abbrev pub max_curve_points : ℕ
max_curve_points = 12

pub data SettingsError : Type 0 where
  bad_manual no_sensor unknown_sensor few_points many_points bad_temp bad_duty not_increasing
        bad_mode :
      SettingsError

-- Go's `sort.Search` over [i, j): the fuel is at least `j - i`.
unfoldable pub search_in : (ℕ → Bool) → ℕ → ℕ → ℕ → ℕ
search_in f zero i j = i
search_in f (suc fuel) i j =
    let h = (i + j) / 2 in
    let right = search_in f fuel (h + 1) j in
    let left = search_in f fuel i h in if not (ltb i j) then i else if f h then left else right

module _ (N : Float) where
  open N use {F, le, lt, add, sub, mul, div, lit, minus_one}

  pub record CurvePoint : Type 0 where
    pub temp_c : F
    pub duty_pct : F

  pub record Settings : Type 0 where
    pub mode : Mode
    pub manual_pct : F
    pub sensor : String
    pub points : List CurvePoint

  -- The loop of `Validate` over the points.
  unfoldable pub check_points : F → List CurvePoint → Option SettingsError
  check_points prev [] = none
  check_points prev (p ∷ ps) =
      let rest = check_points p.temp_c ps in
      if lt p.temp_c (lit 0) || lt (lit 120) p.temp_c
      then some bad_temp
      else if lt p.duty_pct (lit 0) || lt (lit 100) p.duty_pct
      then some bad_duty
      else if le p.temp_c prev
      then some not_increasing
      else rest

  unfoldable pub validate_in : Mode → (String → Bool) → Settings → Option SettingsError
  unfolding check_points
  validate_in auto sensor_exists s = none
  validate_in manual sensor_exists s =
      if lt s.manual_pct (lit 0) || lt (lit 100) s.manual_pct then some bad_manual else none
  validate_in curve sensor_exists s =
      if s.sensor == ""
      then some no_sensor
      else if not (sensor_exists s.sensor)
      then some unknown_sensor
      else if ltb (length s.points) 2
      then some few_points
      else if ltb max_curve_points (length s.points)
      then some many_points
      else check_points minus_one s.points
  validate_in (other m) sensor_exists s = some bad_mode

  unfoldable pub validate : (String → Bool) → Settings → Option SettingsError
  unfolding validate_in
  validate sensor_exists s = validate_in s.mode sensor_exists s

  -- `points[i].TempC >= temp`; `search_in` asks only at indices in range.
  unfoldable pub hot_at : List CurvePoint → F → ℕ → Bool
  hot_at points temp i = elim (get_elem? points i) [ none ↦ true | some p ↦ le temp p.temp_c ]

  unfoldable pub interpolate : CurvePoint → CurvePoint → F → F
  interpolate a b temp =
      let frac = div (sub temp a.temp_c) (sub b.temp_c a.temp_c) in
      add a.duty_pct (mul frac (sub b.duty_pct a.duty_pct))

  -- `points[i-1], points[i]`, where `none` is a panic: an index out of range.
  unfoldable pub between : List CurvePoint → ℕ → F → Option F
  unfolding interpolate
  between points zero temp = none
  between points (suc i) temp = elim (get_elem? points i) [
    | none ↦ none
    | some a ↦ elim (get_elem? points (suc i)) [
      | none ↦ none
      | some b ↦ some (interpolate a b temp)
    ]
  ]

  abbrev pub last_point : CurvePoint → List CurvePoint → CurvePoint
  last_point p [] = p
  last_point p (q ∷ qs) = last_point q qs

  unfoldable pub curve_duty : List CurvePoint → F → Option F
  unfolding search_in hot_at between
  curve_duty [] temp = some (lit 100)
  curve_duty (p ∷ ps) temp =
      let points = p ∷ ps in
      if le temp p.temp_c
      then some p.duty_pct
      else if le (last_point p ps).temp_c temp
      then some (last_point p ps).duty_pct
      else between points (search_in (hot_at points temp) (length points) 0 (length points)) temp
