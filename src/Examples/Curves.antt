-- ===== src/Examples/Curves.antt =====
-- internal/fans/fans.go: a curve of three points, over numbers with a given order.
use control_panel.Base.{
  ℕ, ◌+◌, ◌-◌, ◌*◌, ◌/◌, ◌≡◌, ◌↔◌, refl, Bool, none, some, String, List, [], ◌∷◌, ltb, leb, ◌==◌,
  string_eq, arith,
}
use control_panel.Fans.Curve.{Float, CurvePoint, Settings, curve, validate, curve_duty}
use control_panel.Fans.Curve.Search.{IsOrdered, reference, curve_duty-reference}
use control_panel.Fans.Curve.Line.{OnLine}
use control_panel.Fans.Curve.Valid.{SoundIn, validate_iff, curve_duty-validate}

-- Whole numbers from -1 up: `n` stands for `n - 1`.
abbrev pub degrees : Float
degrees = record {
  F = ℕ;
  le = leb;
  lt = ltb;
  add = λ a b. a + b - 1;
  sub = λ a b. a + 1 - b;
  mul = λ a b. (a - 1) * (b - 1) + 1;
  div = λ a b. (a - 1) / (b - 1) + 1;
  lit = λ n. n + 1;
  minus_one = 0;
}

pub degrees-IsOrdered : IsOrdered degrees
degrees-IsOrdered = record { total = λ a b. ground arith; trans = λ a b c. ground arith }

abbrev pub points : List (CurvePoint degrees)
points =
    record { temp_c = 41; duty_pct = 31 }
    ∷ record { temp_c = 61; duty_pct = 51 }
    ∷ record { temp_c = 81; duty_pct = 101 }
    ∷ []

abbrev pub settings : Settings degrees
settings = record { mode = curve; manual_pct = 1; sensor = "cpu"; points = points }

abbrev pub known : String → Bool
known sid = sid == "cpu"

settings_valid : validate degrees known settings ≡ none
unfolding validate
settings_valid = refl

curve_duty-reference_example :
    curve_duty degrees points 56 ≡ some (reference degrees degrees-IsOrdered points 56)
curve_duty-reference_example =
    curve_duty-reference degrees degrees-IsOrdered points 56 (refl, (refl, tt))

validate_iff_example :
    (validate degrees known settings ≡ none) ↔ SoundIn degrees curve known settings
validate_iff_example = validate_iff degrees known settings

curve_duty-validate_example :
    (d : ℕ) × (curve_duty degrees points 56 ≡ some d) × OnLine degrees points 56 d
curve_duty-validate_example =
    curve_duty-validate degrees degrees-IsOrdered known settings 56 refl settings_valid
