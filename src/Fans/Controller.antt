-- ===== src/Fans/Controller.antt =====
-- internal/fans/controller.go: the control loop. Each method runs under the controller's mutex.
-- The machine is a state `H` that only the provider's operations read and change. `Err` texts of
-- the code are data here; `none` stands for the empty text.
pub mod Ticks
pub mod Calls
pub mod Noted
pub mod Released
pub mod Failsafe
use control_panel.Base.{
  ℕ, zero, suc, ◌+◌, ◌≡◌, Bool, true, false, not, ◌&&◌, ◌||◌, Option, none, some, String, List, [],
  ◌∷◌, ◌++◌, if◌then◌else◌, length, ltb, ◌==◌, string_eq, lookup, insert, delete, ℤ, negsuc,
}
use control_panel.Fans.Curve.{
  Float, Settings, SettingsError, Mode, auto, manual, curve, other, validate, curve_duty,
}

pub record Fan : Type 0 where
  pub id : String
  pub label : String
  pub has_rpm : Bool
  pub writable : Bool

pub data Err : Type 0 where
  read_only : Err
  sensor_unavailable : String → Err
  driver : String → Err

pub data SetError : Type 0 where
  unknown_fan control_disabled driver_read_only name_too_long : SetError
  invalid : SettingsError → SetError
  save_failed : String → SetError

abbrev pub engaged_in : String → List (String × Bool) → Bool
engaged_in id m = elim (lookup id m) [ none ↦ false | some b ↦ b ]

module _ (N : Float) where
  pub record Sensor : Type 0 where
    pub id : String
    pub label : String
    pub c : N.F

  pub data Reading : Type 0 where
    failed : String → Reading
    reading : ℤ → N.F → Reading

  pub record FanState : Type 0 where
    pub id : String
    pub label : String
    pub hw_label : String
    pub rpm : ℤ
    pub duty_pct : N.F
    pub mode : Mode
    pub target_pct : N.F
    pub source_temp_c : Option N.F
    pub failsafe : Bool
    pub writable : Bool
    pub err : Option Err

  -- fans.go, `Provider`. A command returns its error, if any, and the machine after it.
  pub record Provider (H : Type 0) : Type 0 where
    pub fans : H → List Fan
    pub sensors : H → List Sensor
    pub read : String → H → Reading
    pub set_duty : String → N.F → H → Option String × H
    pub release : String → H → Option String × H

  pub record Controller : Type 0 where
    pub control : Bool
    pub poke : Bool  -- the one place of the `poke` channel
    pub settings : List (String × Settings N)
    pub names : List (String × String)
    pub engaged : List (String × Bool)
    pub state : List FanState
    pub sensors : List Sensor

  module _ {H : Type 0} (p : Provider H) where
    -- What the loop body of `tick` works on.
    pub record Work : Type 0 where
      pub engaged : List (String × Bool)
      pub hw : H
      pub st : FanState

    -- `byID`: a later sensor of the same id takes the place of an earlier one.
    unfoldable pub by_id : List Sensor → List (String × Sensor) → List (String × Sensor)
    by_id [] m = m
    by_id (s ∷ ss) m = by_id ss (insert s.id s m)

    -- `SetDuty`, and the bookkeeping after it.
    unfoldable pub drive : Work → Work
    drive w =
        let (e, hw) = p.set_duty w.st.id w.st.target_pct w.hw in
        elim e [
          | some why ↦ record w { hw = hw; st = record w.st { err = some (driver why) } }
          | none ↦ record w { hw = hw; engaged = insert w.st.id true w.engaged }
        ]

    unfoldable pub let_go : Work → Work
    let_go w =
        let (e, hw) = p.release w.st.id w.hw in
        elim e [
          | some why ↦ record w { hw = hw; st = record w.st { err = some (driver why) } }
          | none ↦ record w { hw = hw; engaged = insert w.st.id false w.engaged }
        ]

    -- The target of a curve; `none` is a panic of `CurveDuty`.
    unfoldable pub aim : Option Sensor → Settings N → FanState → Option FanState
    aim none set st = some (record st {
      target_pct = N.lit 100;
      failsafe = true;
      err = some (sensor_unavailable set.sensor);
    })
    aim (some sensor) set st = elim (curve_duty N set.points sensor.c) [
      | none ↦ none
      | some duty ↦ some (record st { source_temp_c = some sensor.c; target_pct = duty })
    ]

    -- The `switch` on the mode, in a controller that may write.
    unfoldable pub control_in : Mode → List (String × Sensor) → Settings N → Work → Option Work
    unfolding drive let_go aim
    control_in manual sensors set w =
        some (drive (record w { st = record w.st { target_pct = set.manual_pct } }))
    control_in curve sensors set w = elim (aim (lookup set.sensor sensors) set w.st) [
      | none ↦ none
      | some st ↦ some (drive (record w { st = st }))
    ]
    control_in auto sensors set w = some (if engaged_in w.st.id w.engaged then let_go w else w)
    control_in (other m) sensors set w = some (if engaged_in w.st.id w.engaged then let_go w else w)

    abbrev pub is_auto : Mode → Bool
    is_auto auto = true
    is_auto manual = false
    is_auto curve = false
    is_auto (other m) = false

    unfoldable pub read_back : Work → Work
    read_back w = elim (p.read w.st.id w.hw) [
      | reading rpm duty ↦ record w { st = record w.st { rpm = rpm; duty_pct = duty } }
      | failed why ↦ elim w.st.err [
        | none ↦ record w { st = record w.st { err = some (driver why) } }
        | some e ↦ w
      ]
    ]

    abbrev pub zero_settings : Settings N
    zero_settings = record { mode = other ""; manual_pct = N.lit 0; sensor = ""; points = [] }

    abbrev pub or_else {ℓ} : {A : Type ℓ} → Option A → A → A
    or_else none a = a
    or_else (some b) a = b

    -- `custom := c.names[f.ID]; custom != ""`
    unfoldable pub label_of : Fan → List (String × String) → String
    label_of f names =
        let custom = or_else (lookup f.id names) "" in if custom == "" then f.label else custom

    abbrev pub mode_of : Option (Settings N) → Mode
    mode_of none = auto
    mode_of (some set) = set.mode

    unfoldable pub new_state : Controller → Fan → FanState
    unfolding label_of
    new_state c f = record {
      id = f.id;
      label = label_of f c.names;
      hw_label = f.label;
      rpm = negsuc 0;
      duty_pct = N.lit 0;
      mode = mode_of (lookup f.id c.settings);
      target_pct = N.lit 0;
      source_temp_c = none;
      failsafe = false;
      writable = f.writable;
      err = none;
    }

    -- The loop body of `tick`, up to the reading.
    unfoldable pub command_fan : Controller → List (String × Sensor) → Fan → Work → Option Work
    unfolding control_in
    command_fan c sensors f w =
        if not f.writable && not (is_auto w.st.mode)
        then some (record w { st = record w.st { err = some read_only } })
        else if c.control
        then control_in w.st.mode sensors (or_else (lookup f.id c.settings) zero_settings) w
        else some w

    unfoldable pub tick_fan :
        Controller → List (String × Sensor) → Fan → List (String × Bool) → H → Option Work
    unfolding new_state command_fan read_back
    tick_fan c sensors f engaged hw =
        elim (command_fan c sensors f (record { engaged = engaged; hw = hw; st = new_state c f })) [
          | none ↦ none
          | some w ↦ some (read_back w)
        ]

    unfoldable pub tick_fans :
        Controller
        → List (String × Sensor)
        → List Fan
        → List (String × Bool)
        → H
        → Option (List FanState × List (String × Bool) × H)
    unfolding tick_fan
    tick_fans c sensors [] engaged hw = some ([], engaged, hw)
    tick_fans c sensors (f ∷ fs) engaged hw = elim (tick_fan c sensors f engaged hw) [
      | none ↦ none
      | some w ↦ elim (tick_fans c sensors fs w.engaged w.hw) [
        | none ↦ none
        | some (sts, e, h) ↦ some (w.st ∷ sts, e, h)
      ]
    ]

    -- The state that is published is the one that is stored.
    unfoldable pub tick : Controller → H → Option (Controller × H)
    unfolding by_id tick_fans
    tick c hw =
        let sensors = p.sensors hw in
        elim (tick_fans c (by_id sensors []) (p.fans hw) c.engaged hw) [
          | none ↦ none
          | some (sts, engaged, hw') ↦
              some (record c { sensors = sensors; state = sts; engaged = engaged }, hw')
        ]

    -- `ReleaseAll`: the loop over the ids of `engaged`.
    unfoldable pub release_ids : List (String × Bool) → H → List (String × Bool) × H
    release_ids [] hw = ([], hw)
    release_ids ((id, true) ∷ m) hw =
        let (e, hw') = p.release id hw in
        let (m', hw'') = release_ids m hw' in
        ((id, elim e [ none ↦ false | some why ↦ true ]) ∷ m', hw'')
    release_ids ((id, false) ∷ m) hw = let (m', hw') = release_ids m hw in ((id, false) ∷ m', hw')

    unfoldable pub release_all : Controller → H → Controller × H
    unfolding release_ids
    release_all c hw =
        let (engaged, hw') = release_ids c.engaged hw in (record c { engaged = engaged }, hw')

    unfoldable pub find_fan : String → List Fan → Option Fan
    find_fan id [] = none
    find_fan id (f ∷ fs) = if f.id == id then some f else find_fan id fs

    unfoldable pub sensor_exists : List Sensor → String → Bool
    sensor_exists [] sid = false
    sensor_exists (s ∷ ss) sid = if s.id == sid then true else sensor_exists ss sid

    -- The checks of `Set` before it takes the mutex.
    unfoldable pub refuse_set : Controller → String → Settings N → H → Option SetError
    unfolding find_fan sensor_exists
    refuse_set c id s hw = elim (find_fan id (p.fans hw)) [
      | none ↦ some unknown_fan
      | some fan ↦
          if not c.control && not (is_auto s.mode)
          then some control_disabled
          else if not fan.writable && not (is_auto s.mode)
          then some driver_read_only
          else elim (validate N (sensor_exists (p.sensors hw)) s) [
            | some why ↦ some (invalid why)
            | none ↦ none
          ]
    ]

    -- `saved` is the result of `save`, which writes the settings file.
    unfoldable pub set :
        Option String → String → Settings N → H → Controller → Option SetError × Controller
    unfolding refuse_set
    set saved id s hw c = elim (refuse_set c id s hw) [
      | some why ↦ (some why, c)
      | none ↦
          let kept = if is_auto s.mode then delete id c.settings else insert id s c.settings in
          let c' = record c { settings = kept } in
          elim saved [
            | some why ↦ (some (save_failed why), c')
            | none ↦ (none, record c' { poke = true })
          ]
    ]

    -- `name` is the text after `strings.TrimSpace`, and `len` its length in bytes.
    unfoldable pub set_name :
        Option String → String → String → ℕ → H → Controller → Option SetError × Controller
    unfolding find_fan
    set_name saved id name len hw c = elim (find_fan id (p.fans hw)) [
      | none ↦ (some unknown_fan, c)
      | some fan ↦
          if ltb 40 len
          then (some name_too_long, c)
          else (let kept = if name == "" then delete id c.names else insert id name c.names in
              let c' = record c { names = kept } in
              elim saved [
                | some why ↦ (some (save_failed why), c')
                | none ↦ (none, record c' { poke = true })
              ])
    ]

    -- `NewController`: what `load` has read, and the first tick.
    unfoldable pub new_controller :
        Bool → List (String × Settings N) → List (String × String) → H → Option (Controller × H)
    unfolding tick
    new_controller control settings names hw =
        tick
          (record {
            control = control;
            poke = false;
            settings = settings;
            names = names;
            engaged = [];
            state = [];
            sensors = [];
          })
          hw

    unfoldable pub any_engaged : List (String × Bool) → Bool
    any_engaged [] = false
    any_engaged ((id, on) ∷ m) = on || any_engaged m
