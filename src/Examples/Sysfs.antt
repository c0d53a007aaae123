-- ===== src/Examples/Sysfs.antt =====
-- internal/fans/linux.go: one fan, and a pwm file that does or does not take a duty.
use control_panel.Base.{
  ℕ, ◌≡◌, refl, true, false, Option, none, some, String, List, [], ◌∷◌, arith, str_iff, insert,
  ◌==◌, string_eq, if◌then◌else◌, lookup, pos,
}
use control_panel.Fans.Curve.{Settings, manual}
use control_panel.Fans.Controller.{
  engaged_in, Provider, Fan, reading, Controller, Work, tick, tick_fan, release_ids, release_all,
  any_engaged, new_controller,
}
use control_panel.Fans.Controller.Calls.{ticks, run, after}
use control_panel.Fans.Controller.Released.{release_all-run}
use control_panel.Fans.Hwmon.Holding.{is_taken, release_ok, hwmon_provider-Holds}
use control_panel.Fans.Hwmon.{HwFan, Hwmon, read_trimmed, set_duty, release}
use control_panel.Fans.Hwmon.Restore.{drive_all, release-drive_all}
use control_panel.Fans.Hwmon.Leak.{provider, release_ids-set_duty_failed}
use control_panel.Examples.Curves.{degrees}

abbrev front : HwFan
front = record {
  pwm_path = "pwm1";
  enable_path = "pwm1_enable";
  taken = false;
  orig_pwm = "";
  orig_enable = "";
}

abbrev machine : Hwmon
machine = record {
  fans = ("front", front) ∷ [];
  files = ("pwm1", "77") ∷ ("pwm1_enable", "5") ∷ [];
}

abbrev accepts : String → Option String
accepts path = none

abbrev rejects_duty : String → Option String
rejects_duty path = if path == "pwm1" then some "input/output error" else none

abbrev text : ℕ → String
text d = "128"

release-drive_all_example :
    ((release degrees accepts text "front"
        (drive_all degrees accepts text (λ path. refl) "front" (31 ∷ 51 ∷ []) machine)).0
      ≡ none)
    × (read_trimmed "pwm1_enable"
          (release degrees accepts text "front"
            (drive_all degrees accepts text (λ path. refl) "front" (31 ∷ 51 ∷ []) machine)).1.files
        ≡ read_trimmed "pwm1_enable" machine.files)
unfolding lookup read_trimmed
release-drive_all_example =
    release-drive_all degrees accepts text (λ path. refl) "front" front 31 (51 ∷ []) machine
      "pwm1_enable" refl refl (λ e. cc) (λ e. cc) (λ e. cc)

abbrev fixed : Settings degrees
fixed = record { mode = manual; manual_pct = 51; sensor = ""; points = [] }

abbrev controller : Controller degrees
controller = record {
  control = true;
  poke = false;
  settings = ("front", fixed) ∷ [];
  names = [];
  engaged = [];
  state = [];
  sensors = [];
}

abbrev listed : Fan
listed = record { id = "front"; label = "Front"; has_rpm = false; writable = true }

release_ids-set_duty_failed_example :
    let p =
      provider degrees rejects_duty text
        (λ hw. listed ∷ [])
        (λ hw. [])
        (λ id hw. reading (pos 900) 41) in
    let healed =
      provider degrees accepts text
        (λ hw. listed ∷ [])
        (λ hw. [])
        (λ id hw. reading (pos 900) 41) in
    (w : Work degrees p) × (tick_fan degrees p controller [] listed [] machine ≡ some w)
    × (read_trimmed "pwm1_enable" w.hw.files ≡ "1")
    × (w.engaged ≡ [])
    × (engaged_in "front" w.engaged ≡ false)
    × (release_ids degrees healed w.engaged w.hw ≡ (w.engaged, w.hw))
    × (read_trimmed "pwm1_enable" (release degrees accepts text "front" w.hw).1.files
        ≡ read_trimmed "pwm1_enable" machine.files)
unfolding lookup any_engaged read_trimmed
release_ids-set_duty_failed_example =
    release_ids-set_duty_failed degrees rejects_duty text (λ hw. listed ∷ []) (λ hw. [])
      (λ id hw. reading (pos 900) 41) accepts controller [] listed fixed front [] machine
      "input/output error" (λ path. refl) refl refl refl refl refl refl refl (λ e. cc) (λ e. cc)
      refl refl

abbrev sysfs : Provider degrees Hwmon
sysfs = provider degrees accepts text (λ hw. listed ∷ []) (λ hw. []) (λ id hw. reading (pos 900) 41)

abbrev driven_files : List (String × String)
driven_files = ("pwm1", "128") ∷ ("pwm1_enable", "1") ∷ []

-- The machine while the panel drives the fan.
abbrev driven : Hwmon
driven = record {
  fans = ("front", record front { taken = true; orig_pwm = "77"; orig_enable = "5" }) ∷ [];
  files = driven_files;
}

abbrev driving : Controller degrees
driving = record controller {
  engaged = ("front", true) ∷ [];
  state =
      record {
        id = "front";
        label = "Front";
        hw_label = "Front";
        rpm = pos 900;
        duty_pct = 41;
        mode = manual;
        target_pct = 51;
        source_temp_c = none;
        failsafe = false;
        writable = true;
        err = none;
      }
      ∷ [];
}

now_driven :
    new_controller degrees sysfs true (("front", fixed) ∷ []) [] machine ≡ some (driving, driven)
unfolding new_controller tick lookup insert read_trimmed set_duty
now_driven = refl

stays_driven : run degrees sysfs (ticks ∷ []) driving driven ≡ some (driving, driven)
unfolding run after tick lookup insert read_trimmed set_duty
stays_driven = refl

machine_free : (j : String) → is_taken machine j ≡ false
unfolding lookup
machine_free j = ground (arith, str_iff "front" j)

release_all-run_example : is_taken (release_all degrees sysfs driving driven).1 "front" ≡ false
release_all-run_example =
    release_all-run degrees sysfs is_taken
      (hwmon_provider-Holds degrees accepts text (λ path. refl) (λ hw. listed ∷ []) (λ hw. [])
        (λ id hw. reading (pos 900) 41))
      true (("front", fixed) ∷ []) [] machine (ticks ∷ []) (driving, driven) (driving, driven)
      machine_free (λ id hw. release_ok degrees accepts text (λ path. refl) id hw) now_driven
      stays_driven "front"
