-- ===== src/Fans/Hwmon/Leak.antt =====
-- A `SetDuty` that fails half way: the enable file is written, the duty is refused.
use control_panel.Base.{
  ◌≡◌, ◌≢◌, refl, ap, ◌∙◌, Bool, true, false, Option, none, some, String, List, [], ◌∷◌, string_eq,
  lookup, arith, str_iff, ◌||◌, insert, lookup-insert, beq_refl,
}
use control_panel.Fans.Curve.{Float, Settings, manual}
use control_panel.Fans.Controller.{
  engaged_in, Fan, Sensor, Reading, Provider, Controller, Work, drive, command_fan, tick_fan,
  read_back, release_ids, any_engaged, new_state,
}
use control_panel.Fans.Controller.Ticks.{read_back_keeps, start_work}
use control_panel.Fans.Controller.Calls.{release_ids-idle}
use control_panel.Fans.Hwmon.{
  HwFan, Hwmon, read_trimmed, put_fan, set_duty, release, hwmon_provider,
}
use control_panel.Fans.Hwmon.Restore.{read_trimmed-insert}

module _ (N : Float) (refused : String → Option String) (pwm_text : N.F → String) where
  abbrev half_taken : HwFan → List (String × String) → HwFan
  half_taken h files = record h {
    taken = true;
    orig_pwm = read_trimmed h.pwm_path files;
    orig_enable = read_trimmed h.enable_path files;
  }

  -- The machine after the duty is refused.
  abbrev after_half : String → HwFan → Hwmon → Hwmon
  after_half id h hw =
      put_fan N refused pwm_text id (half_taken h hw.files) (insert h.enable_path "1" hw.files) hw

  set_duty_half :
      (id : String) (h : HwFan) (pct : N.F) (hw : Hwmon) (why : String)
      → lookup id hw.fans ≡ some h
      → h.taken ≡ false
      → h.enable_path ≢ ""
      → refused h.enable_path ≡ none
      → refused h.pwm_path ≡ some why
      → set_duty N refused pwm_text id pct hw ≡ (some why, after_half id h hw)
  unfolding set_duty
  set_duty_half id h pct hw why e t ne ok bad = ground (arith, str_iff h.enable_path "")

  -- A release of that fan, once no write is refused, puts the enable file back.
  release_half :
      (calm : String → Option String) (id : String) (h : HwFan) (hw : Hwmon)
      → ((path : String) → calm path ≡ none)
      → h.enable_path ≢ ""
      → read_trimmed h.enable_path hw.files ≢ ""
      → read_trimmed h.enable_path (release N calm pwm_text id (after_half id h hw)).1.files
        ≡ read_trimmed h.enable_path hw.files
  unfolding release
  release_half calm id h hw calm_ok ne some_text =
      let orig = read_trimmed h.enable_path hw.files in
      let files = insert h.enable_path "1" hw.files in
      ground (
        arith,
        lookup-insert id id (half_taken h hw.files) hw.fans,
        beq_refl id,
        beq_refl h.enable_path,
        str_iff h.enable_path "",
        str_iff orig "",
        calm_ok h.pwm_path,
        calm_ok h.enable_path,
        read_trimmed-insert h.enable_path h.enable_path orig files,
        read_trimmed-insert h.enable_path h.enable_path orig
            (insert h.pwm_path (read_trimmed h.pwm_path hw.files) files),
      )

  module _ (fans : Hwmon → List Fan) (sensors : Hwmon → List (Sensor N))
      (read : String → Hwmon → Reading N) where
    abbrev pub provider : Provider N Hwmon
    provider = hwmon_provider N refused pwm_text fans sensors read

    none_engaged :
        (id : String) (m : List (String × Bool))
        → any_engaged N provider m ≡ false
        → engaged_in id m ≡ false
    unfolding any_engaged lookup
    none_engaged id [] h = refl
    none_engaged id ((j, on) ∷ m) h = ground (arith, none_engaged id m)

    any_engaged-any :
        (q : Provider N Hwmon) (m : List (String × Bool))
        → any_engaged N q m ≡ any_engaged N provider m
    unfolding any_engaged
    any_engaged-any q [] = refl
    any_engaged-any q ((id, on) ∷ m) = ap (λ b. on || b) (any_engaged-any q m)

    command_fan-manual :
        (c : Controller N) (ss : List (String × Sensor N)) (f : Fan) (s : Settings N)
        (w : Work N provider)
        → c.control ≡ true
        → f.writable ≡ true
        → lookup f.id c.settings ≡ some s
        → w.st.mode ≡ manual
        → command_fan N provider c ss f w
          ≡ some (drive N provider (record w { st = record w.st { target_pct = s.manual_pct } }))
    unfolding command_fan
    command_fan-manual c ss f s w on wr e m = ground arith

    drive_failed :
        (w : Work N provider) (why : String)
        → (set_duty N refused pwm_text w.st.id w.st.target_pct w.hw).0 ≡ some why
        → ((drive N provider w).engaged ≡ w.engaged)
          × ((drive N provider w).hw ≡ (set_duty N refused pwm_text w.st.id w.st.target_pct w.hw).1)
    unfolding drive
    drive_failed w why e = ground arith

    mode_set :
        (c : Controller N) (f : Fan) (s : Settings N)
        → lookup f.id c.settings ≡ some s
        → (new_state N provider c f).mode ≡ s.mode
    unfolding new_state
    mode_set c f s e = ground arith

    -- A fan in manual mode that is not yet taken, whose enable file has a text and can be written
    -- and whose pwm file refuses the duty, where nothing is engaged: the tick leaves the enable
    -- file at "1", manual control, and the fan not counted as engaged. So even once no write is
    -- refused any more `ReleaseAll` changes nothing, and the fan stays out of the firmware's
    -- control, though a `Release` of it would put the enable file back to what it was.
    pub release_ids-set_duty_failed :
        (calm : String → Option String) (c : Controller N) (ss : List (String × Sensor N)) (f : Fan)
        (s : Settings N) (h : HwFan) (engaged : List (String × Bool)) (hw : Hwmon) (why : String)
        → ((path : String) → calm path ≡ none)
        → c.control ≡ true
        → f.writable ≡ true
        → lookup f.id c.settings ≡ some s
        → s.mode ≡ manual
        → any_engaged N provider engaged ≡ false
        → lookup f.id hw.fans ≡ some h
        → h.taken ≡ false
        → h.enable_path ≢ ""
        → read_trimmed h.enable_path hw.files ≢ ""
        → refused h.enable_path ≡ none
        → refused h.pwm_path ≡ some why
        → let healed = hwmon_provider N calm pwm_text fans sensors read in
          (w : Work N provider) × (tick_fan N provider c ss f engaged hw ≡ some w)
          × (read_trimmed h.enable_path w.hw.files ≡ "1")
          × (w.engaged ≡ engaged)
          × (engaged_in f.id w.engaged ≡ false)
          × (release_ids N healed w.engaged w.hw ≡ (w.engaged, w.hw))
          × (read_trimmed h.enable_path (release N calm pwm_text f.id w.hw).1.files
              ≡ read_trimmed h.enable_path hw.files)
    unfolding tick_fan
    release_ids-set_duty_failed calm c ss f s h engaged hw why calm_ok on wr e m idle found t ne
          some_text ok bad =
        let healed = hwmon_provider N calm pwm_text fans sensors read in
        let w0 = start_work N provider c f engaged hw in
        let w1 : Work N provider = record w0 { st = record w0.st { target_pct = s.manual_pct } } in
        let w2 = drive N provider w1 in
        let k = read_back_keeps N provider w2 in
        let same : w0.st.id ≡ f.id = unfold new_state in refl in
        let half =
          ap (λ id. set_duty N refused pwm_text id s.manual_pct hw) same
          ∙ set_duty_half f.id h s.manual_pct hw why found t ne ok bad in
        let d = drive_failed w1 why (ap (λ (r : Option String × Hwmon). r.0) half) in
        let hw_is = k.0 ∙ d.1 ∙ ap (λ (r : Option String × Hwmon). r.1) half in
        let kept = k.1 ∙ d.0 in
        let off = ap (any_engaged N provider) kept ∙ idle in
        (
          read_back N provider w2,
          ap (λ o. elim o [ none ↦ none | some w ↦ some (read_back N provider w) ])
              (command_fan-manual c ss f s w0 on wr e (mode_set c f s e ∙ m)),
          ap (λ (m : Hwmon). read_trimmed h.enable_path m.files) hw_is
              ∙ read_trimmed-insert h.enable_path h.enable_path "1" hw.files
              ∙ rw (beq_refl h.enable_path),
          kept,
          none_engaged f.id _ off,
          release_ids-idle N healed _ _ (any_engaged-any healed _ ∙ off),
          ap (λ (m : Hwmon). read_trimmed h.enable_path (release N calm pwm_text f.id m).1.files)
                hw_is
              ∙ release_half calm f.id h hw calm_ok ne some_text,
        )
