-- ===== src/Examples/Cooling.antt =====
-- internal/fans/controller.go: a machine with one fan, whose only sensor has gone.
use control_panel.Base.{
  ◌≡◌, refl, true, false, Bool, none, some, String, [], ◌∷◌, ◌==◌, string_eq, if◌then◌else◌, lookup,
  insert, All, pos,
}
use control_panel.Fans.Curve.{curve}
use control_panel.Fans.Controller.{
  Fan, reading, sensor_unavailable, Provider, Controller, Work, by_id, tick, tick_fan,
  new_controller,
}
use control_panel.Fans.Controller.Calls.{ticks, sets, releases, run, run-control_off}
use control_panel.Fans.Controller.Failsafe.{driven_to, IsSafe, tick_fan-failsafe, tick-IsSafe}
use control_panel.Examples.Curves.{degrees, settings}

abbrev front : Fan
front = record { id = "front"; label = "Front"; has_rpm = true; writable = true }

-- The machine says which fans the panel holds.
abbrev machine : Provider degrees (String → Bool)
machine = record {
  fans = λ hw. front ∷ [];
  sensors = λ hw. [];
  read = λ id hw. reading (pos 900) 41;
  set_duty = λ id d hw. (none, λ j. if id == j then true else hw j);
  release = λ id hw. (none, λ j. if id == j then false else hw j);
}

abbrev idle : String → Bool
idle j = false

abbrev cooling : Controller degrees
cooling = record {
  control = true;
  poke = false;
  settings = ("front", settings) ∷ [];
  names = [];
  engaged = [];
  state = [];
  sensors = [];
}

run-control_off_example :
    (c c' : Controller degrees) × (new_controller degrees machine false
        (("front", settings) ∷ [])
        []
        idle
      ≡ some (c, idle))
    × (run degrees machine (sets none "front" settings ∷ ticks ∷ releases ∷ []) c idle
        ≡ some (c', idle))
run-control_off_example =
    run-control_off degrees machine (("front", settings) ∷ []) [] idle
      (sets none "front" settings ∷ ticks ∷ releases ∷ [])

tick_fan-failsafe_example :
    (w : Work degrees machine) × (tick_fan degrees machine cooling
        (by_id degrees machine [] [])
        front
        []
        idle
      ≡ some w)
    × (w.engaged ≡ (driven_to degrees machine 101 "front" [] idle).0)
    × (w.hw ≡ (driven_to degrees machine 101 "front" [] idle).1)
    × (w.st.failsafe ≡ true)
    × (w.st.target_pct ≡ 101)
unfolding lookup
tick_fan-failsafe_example =
    tick_fan-failsafe degrees machine cooling front settings [] idle refl refl refl refl tt

abbrev warm : String → Bool
warm j = if "front" == j then true else idle j

abbrev cooled : Controller degrees
cooled = record cooling {
  state =
      record {
        id = "front";
        label = "Front";
        hw_label = "Front";
        rpm = pos 900;
        duty_pct = 41;
        mode = curve;
        target_pct = 101;
        source_temp_c = none;
        failsafe = true;
        writable = true;
        err = some (sensor_unavailable "cpu");
      }
      ∷ [];
  engaged = ("front", true) ∷ [];
}

ticked : tick degrees machine cooling idle ≡ some (cooled, warm)
unfolding tick lookup insert
ticked = refl

tick-IsSafe_example : All (IsSafe degrees machine) cooled.state
tick-IsSafe_example = tick-IsSafe degrees machine cooling cooled idle warm ticked
