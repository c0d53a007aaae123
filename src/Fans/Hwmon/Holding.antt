-- ===== src/Fans/Hwmon/Holding.antt =====
-- internal/fans/linux.go: which fans are taken, and the calls that the controller makes of the provider.
use control_panel.Base.{
  ◌≡◌, ◌≢◌, sym, ap, ◌∙◌, Bool, true, false, Option, none, some, String, List, if◌then◌else◌, ◌==◌,
  string_eq, lookup, insert, lookup-insert, arith, str_iff, beq_refl, Option-cases, inl, inr,
}
use control_panel.Fans.Curve.{Float}
use control_panel.Fans.Controller.{Fan, Sensor, Reading}
use control_panel.Fans.Controller.Noted.{Holds}
use control_panel.Fans.Hwmon.{
  HwFan, Hwmon, write_sysfs, take_control, restore, set_duty, release, hwmon_provider,
}

-- A fan is under the panel's control where `taken` is set.
abbrev taken_of : Option HwFan → Bool
taken_of none = false
taken_of (some f) = f.taken

abbrev pub is_taken : Hwmon → String → Bool
is_taken hw id = taken_of (lookup id hw.fans)

module _ (N : Float) (refused : String → Option String) (pwm_text : N.F → String) where
  taken-insert :
      (id j : String) (f : HwFan) (m : List (String × HwFan))
      → taken_of (lookup j (insert id f m)) ≡ (if id == j then f.taken else taken_of (lookup j m))
  taken-insert id j f m = ground (arith, lookup-insert id j f m)

  set_duty_other :
      (id : String) (d : N.F) (hw : Hwmon) (j : String)
      → id ≢ j
      → is_taken (set_duty N refused pwm_text id d hw).1 j ≡ true
      → is_taken hw j ≡ true
  unfolding set_duty
  set_duty_other id d hw j ne h = elim (Option-cases (lookup id hw.fans)) [
    | inl miss ↦ ground (arith, miss)
    | inr (f, hit) ↦
        let t = take_control N refused pwm_text f hw.files in
        ground (arith, hit, taken-insert id j t.1 hw.fans, str_iff id j, Option-cases t.0)
  ]

  release_untaken :
      (id : String) (hw : Hwmon) (j : String)
      → is_taken (release N refused pwm_text id hw).1 j ≡ true
      → is_taken hw j ≡ true
  unfolding release
  release_untaken id hw j h = elim (Option-cases (lookup id hw.fans)) [
    | inl miss ↦ ground (arith, miss)
    | inr (f, hit) ↦ ground (
      arith,
      hit,
      str_iff id j,
      taken-insert id j f hw.fans,
      taken-insert id j (record f { taken = false }) hw.fans,
    )
  ]

  release_gives_back :
      (id : String) (hw : Hwmon)
      → (release N refused pwm_text id hw).0 ≡ none
      → is_taken (release N refused pwm_text id hw).1 id ≡ false
  unfolding release
  release_gives_back id hw h = elim (Option-cases (lookup id hw.fans)) [
    | inl miss ↦ ground (arith, miss)
    | inr (f, hit) ↦ ground (
      arith,
      hit,
      beq_refl id,
      taken-insert id id f hw.fans,
      taken-insert id id (record f { taken = false }) hw.fans,
    )
  ]

  module _ (no_refusal : (path : String) → refused path ≡ none) where
    take_control_ok :
        (f : HwFan) (files : List (String × String))
        → (take_control N refused pwm_text f files).0 ≡ none
    unfolding take_control write_sysfs
    take_control_ok f files = ground (arith, no_refusal f.enable_path)

    set_duty_failed :
        (id : String) (d : N.F) (hw : Hwmon) (why : String)
        → (set_duty N refused pwm_text id d hw).0 ≡ some why
        → (set_duty N refused pwm_text id d hw).1 ≡ hw
    unfolding set_duty write_sysfs
    set_duty_failed id d hw why h = elim (Option-cases (lookup id hw.fans)) [
      | inl miss ↦ ground (arith, miss)
      | inr (f, hit) ↦ ground (arith, hit, take_control_ok f hw.files, no_refusal f.pwm_path)
    ]

    restore_ok :
        (path value : String) (files : List (String × String))
        → (restore N refused pwm_text path value files).0 ≡ none
    unfolding restore write_sysfs
    restore_ok path value files = ground (arith, no_refusal path)

    -- A fan that is taken can be released.
    pub release_ok :
        (id : String) (hw : Hwmon)
        → is_taken hw id ≡ true
        → (release N refused pwm_text id hw).0 ≡ none
    unfolding release
    release_ok id hw h = elim (Option-cases (lookup id hw.fans)) [
      | inl miss ↦ ground (arith, miss)
      | inr (f, hit) ↦
          let files = (restore N refused pwm_text f.pwm_path f.orig_pwm hw.files).1 in
          ground (
            arith,
            hit,
            restore_ok f.pwm_path f.orig_pwm hw.files,
            restore_ok f.enable_path f.orig_enable files,
          )
    ]

    -- Where no write is refused, the provider is as the controller relies on it to be.
    pub hwmon_provider-Holds :
        (fans : Hwmon → List Fan) (sensors : Hwmon → List (Sensor N))
        (read : String → Hwmon → Reading N)
        → Holds N (hwmon_provider N refused pwm_text fans sensors read) is_taken
    hwmon_provider-Holds fans sensors read = record {
      set_failed = λ id d hw why j h k.
          ap (λ (hw : Hwmon). is_taken hw j) (sym (set_duty_failed id d hw why h)) ∙ k;
      set_other = set_duty_other;
      release_other = release_untaken;
      release_done = release_gives_back;
    }
