-- ===== src/Fans/Hwmon.antt =====
-- internal/fans/linux.go: the provider over the kernel's hwmon files. A file is a path with its
-- text (less the white space that `readTrimmed` cuts off); whether a write to a path is refused
-- is a parameter, as is the text of a duty, `strconv.Itoa(int(pct/100*255 + 0.5))`.
pub mod Restore
pub mod Leak
pub mod Holding
use control_panel.Base.{
  ℕ, ◌≡◌, Bool, true, false, not, Option, none, some, String, List, [], ◌∷◌, if◌then◌else◌, ◌==◌,
  string_eq, lookup, insert,
}
use control_panel.Fans.Curve.{Float}
use control_panel.Fans.Controller.{Fan, Sensor, Reading, Provider}

pub record HwFan : Type 0 where
  pub pwm_path : String
  pub enable_path : String
  pub taken : Bool
  pub orig_pwm : String
  pub orig_enable : String

pub record Hwmon : Type 0 where
  pub fans : List (String × HwFan)
  pub files : List (String × String)

unfoldable pub read_trimmed : String → List (String × String) → String
read_trimmed path files = elim (lookup path files) [ none ↦ "" | some text ↦ text ]

module _ (N : Float) (refused : String → Option String) (pwm_text : N.F → String) where
  -- The error of the write, if any, and the files after it.
  unfoldable pub write_sysfs :
      String → String → List (String × String) → Option String × List (String × String)
  write_sysfs path value files = elim (refused path) [
    | some why ↦ (some why, files)
    | none ↦ (none, insert path value files)
  ]

  abbrev pub put_fan : String → HwFan → List (String × String) → Hwmon → Hwmon
  put_fan id f files hw = record { fans = insert id f hw.fans; files = files }

  -- `if !f.taken { … }`: the values of the firmware are remembered, and control is switched on.
  unfoldable pub take_control :
      HwFan → List (String × String) → Option String × HwFan × List (String × String)
  unfolding write_sysfs read_trimmed
  take_control f files =
      let f1 = record f { orig_pwm = read_trimmed f.pwm_path files } in
      let f2 = record f1 { orig_enable = read_trimmed f.enable_path files } in
      let (e, files') = write_sysfs f.enable_path "1" files in
      if f.taken
      then (none, f, files)
      else if f.enable_path == ""
      then (none, record f1 { taken = true }, files)
      else elim e [
        | some why ↦ (some why, f2, files')
        | none ↦ (none, record f2 { taken = true }, files')
      ]

  unfoldable pub clamp_pct : N.F → N.F
  clamp_pct pct =
      let low = if N.lt pct (N.lit 0) then N.lit 0 else pct in
      if N.lt (N.lit 100) low then N.lit 100 else low

  unfoldable pub set_duty : String → N.F → Hwmon → Option String × Hwmon
  unfolding take_control write_sysfs
  set_duty id pct hw = elim (lookup id hw.fans) [
    | none ↦ (some "unknown fan", hw)
    | some f ↦
        let t = take_control f hw.files in
        elim t.0 [
          | some why ↦ (some why, put_fan id t.1 t.2 hw)
          | none ↦
              let (e, files) = write_sysfs f.pwm_path (pwm_text (clamp_pct pct)) t.2 in
              (e, put_fan id t.1 files hw)
        ]
  ]

  -- `if orig != "" { … }`
  unfoldable pub restore :
      String → String → List (String × String) → Option String × List (String × String)
  unfolding write_sysfs
  restore path value files = if value == "" then (none, files) else write_sysfs path value files

  unfoldable pub release : String → Hwmon → Option String × Hwmon
  unfolding restore
  release id hw = elim (lookup id hw.fans) [
    | none ↦ (some "unknown fan", hw)
    | some f ↦
        let (e, files) = restore f.pwm_path f.orig_pwm hw.files in
        let (e', files') =
          if f.enable_path == ""
          then (none, files)
          else restore f.enable_path f.orig_enable files in
        if not f.taken then (none, hw) else elim e [
          | some why ↦ (some why, put_fan id f files hw)
          | none ↦ elim e' [
            | some why ↦ (some why, put_fan id f files' hw)
            | none ↦ (none, put_fan id (record f { taken = false }) files' hw)
          ]
        ]
  ]

  -- The provider: what lists and reads the fans only reads the machine.
  abbrev pub hwmon_provider :
      (Hwmon → List Fan)
      → (Hwmon → List (Sensor N))
      → (String → Hwmon → Reading N)
      → Provider N Hwmon
  hwmon_provider fans sensors read = record {
    fans = fans;
    sensors = sensors;
    read = read;
    set_duty = set_duty;
    release = release;
  }
