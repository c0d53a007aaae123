-- ===== src/Fans/Hwmon/Restore.antt =====
-- internal/fans/linux.go: `SetDuty` any number of times, then `Release`.
use control_panel.Base.{
  ◌≡◌, ◌≢◌, refl, ◌∙◌, true, false, Option, none, some, String, List, [], ◌∷◌, if◌then◌else◌, ◌==◌,
  string_eq, lookup, insert, lookup-insert, arith, str_iff, beq_refl,
}
use control_panel.Fans.Curve.{Float}
use control_panel.Fans.Hwmon.{
  HwFan, Hwmon, read_trimmed, write_sysfs, put_fan, clamp_pct, set_duty, release,
}

pub read_trimmed-insert :
    (p path v : String) (files : List (String × String))
    → read_trimmed path (insert p v files) ≡ (if p == path then v else read_trimmed path files)
unfolding read_trimmed
read_trimmed-insert p path v files = ground (arith, lookup-insert p path v files)

module _ (N : Float) (refused : String → Option String) (pwm_text : N.F → String)
    (no_refusal : (path : String) → refused path ≡ none) where
  abbrev saved_fan : HwFan → List (String × String) → HwFan
  saved_fan f files = record f {
    taken = true;
    orig_pwm = read_trimmed f.pwm_path files;
    orig_enable = read_trimmed f.enable_path files;
  }

  -- The fan is taken, it remembers the values of `files`, and no other file has changed.
  record Taken (id : String) (f : HwFan) (files : List (String × String)) (hw : Hwmon)
      : Type 0 where
    fan_is : lookup id hw.fans ≡ some (saved_fan f files)
    others :
        (path : String)
        → (f.pwm_path == path) ≡ false
        → (f.enable_path == path) ≡ false
        → read_trimmed path hw.files ≡ read_trimmed path files

  write_lem :
      (path v : String) (files : List (String × String))
      → write_sysfs N refused pwm_text path v files ≡ (none, insert path v files)
  unfolding write_sysfs
  write_lem path v files = rw (no_refusal path, write_sysfs)

  set_duty_free :
      (id : String) (f : HwFan) (pct : N.F) (hw : Hwmon)
      → lookup id hw.fans ≡ some f
      → f.taken ≡ false
      → f.enable_path ≢ ""
      → set_duty N refused pwm_text id pct hw ≡ (
        none,
        put_fan N refused pwm_text id
            (saved_fan f hw.files)
            (insert f.pwm_path
              (pwm_text (clamp_pct N refused pwm_text pct))
              (insert f.enable_path "1" hw.files))
            hw,
      )
  unfolding set_duty
  set_duty_free id f pct hw e t ne =
      ground (arith, no_refusal f.enable_path, no_refusal f.pwm_path, str_iff f.enable_path "")

  set_duty_taken :
      (id : String) (f : HwFan) (pct : N.F) (hw : Hwmon)
      → lookup id hw.fans ≡ some f
      → f.taken ≡ true
      → set_duty N refused pwm_text id pct hw ≡ (
        none,
        put_fan N refused pwm_text id f
            (insert f.pwm_path (pwm_text (clamp_pct N refused pwm_text pct)) hw.files)
            hw,
      )
  unfolding set_duty
  set_duty_taken id f pct hw e t = ground (arith, no_refusal f.pwm_path)

  set_duty-Taken :
      (id : String) (f : HwFan) (files : List (String × String)) (pct : N.F) (hw : Hwmon)
      → Taken id f files hw
      → ((set_duty N refused pwm_text id pct hw).0 ≡ none)
        × Taken id f files (set_duty N refused pwm_text id pct hw).1
  set_duty-Taken id f files pct hw k =
      let e = set_duty_taken id (saved_fan f files) pct hw k.fan_is refl in
      rw e (
        refl,
        record {
          fan_is = lookup-insert id id (saved_fan f files) hw.fans ∙ rw (beq_refl id);
          others = λ path np ne.
              read_trimmed-insert f.pwm_path path _ hw.files ∙ rw np (k.others path np ne);
        },
      )

  first-Taken :
      (id : String) (f : HwFan) (pct : N.F) (hw : Hwmon)
      → lookup id hw.fans ≡ some f
      → f.taken ≡ false
      → f.enable_path ≢ ""
      → ((set_duty N refused pwm_text id pct hw).0 ≡ none)
        × Taken id f hw.files (set_duty N refused pwm_text id pct hw).1
  first-Taken id f pct hw e t ne = rw (set_duty_free id f pct hw e t ne) (
    refl,
    record {
      fan_is = lookup-insert id id (saved_fan f hw.files) hw.fans ∙ rw (beq_refl id);
      others = λ path np nen.
          read_trimmed-insert f.pwm_path path _ _
          ∙ rw np (read_trimmed-insert f.enable_path path "1" hw.files ∙ rw nen);
    },
  )

  release_taken :
      (id : String) (f : HwFan) (files : List (String × String)) (hw : Hwmon)
      → Taken id f files hw
      → f.enable_path ≢ ""
      → read_trimmed f.pwm_path files ≢ ""
      → read_trimmed f.enable_path files ≢ ""
      → release N refused pwm_text id hw ≡ (
        none,
        put_fan N refused pwm_text id
            (record (saved_fan f files) { taken = false })
            (insert f.enable_path
              (read_trimmed f.enable_path files)
              (insert f.pwm_path (read_trimmed f.pwm_path files) hw.files))
            hw,
      )
  unfolding release
  release_taken id f files hw k ne np nen = ground (
    arith,
    k.fan_is,
    no_refusal f.enable_path,
    no_refusal f.pwm_path,
    str_iff f.enable_path "",
    str_iff (read_trimmed f.pwm_path files) "",
    str_iff (read_trimmed f.enable_path files) "",
  )

  -- The fan driven to each of the duties in turn.
  pub drive_all : String → List N.F → Hwmon → Hwmon
  drive_all id [] hw = hw
  drive_all id (pct ∷ ds) hw = drive_all id ds (set_duty N refused pwm_text id pct hw).1

  drive_all-Taken :
      (id : String) (f : HwFan) (files : List (String × String)) (ds : List N.F) (hw : Hwmon)
      → Taken id f files hw
      → Taken id f files (drive_all id ds hw)
  unfolding drive_all
  drive_all-Taken id f files [] hw k = k
  drive_all-Taken id f files (pct ∷ ds) hw k =
      drive_all-Taken id f files ds _ (set_duty-Taken id f files pct hw k).1

  released_file :
      (id : String) (f : HwFan) (files : List (String × String)) (hw : Hwmon) (path : String)
      → Taken id f files hw
      → f.enable_path ≢ ""
      → read_trimmed f.pwm_path files ≢ ""
      → read_trimmed f.enable_path files ≢ ""
      → ((release N refused pwm_text id hw).0 ≡ none)
        × (read_trimmed path (release N refused pwm_text id hw).1.files ≡ read_trimmed path files)
  released_file id f files hw path k ne np nen = rw (release_taken id f files hw k ne np nen) (
    refl,
    ground (
      arith,
      read_trimmed-insert f.enable_path path (read_trimmed f.enable_path files)
          (insert f.pwm_path (read_trimmed f.pwm_path files) hw.files),
      read_trimmed-insert f.pwm_path path (read_trimmed f.pwm_path files) hw.files,
      str_iff f.enable_path path,
      str_iff f.pwm_path path,
      k.others path,
    ),
  )

  -- Where no write is refused: a fan that firmware controls, with a pwm and an enable file that are
  -- readable, is driven to any duties, at least one, and then released; the release succeeds and
  -- every file reads as it did before.
  pub release-drive_all :
      (id : String) (f : HwFan) (pct : N.F) (ds : List N.F) (hw : Hwmon) (path : String)
      → lookup id hw.fans ≡ some f
      → f.taken ≡ false
      → f.enable_path ≢ ""
      → read_trimmed f.pwm_path hw.files ≢ ""
      → read_trimmed f.enable_path hw.files ≢ ""
      → let hw' = drive_all id (pct ∷ ds) hw in
        ((release N refused pwm_text id hw').0 ≡ none)
        × (read_trimmed path (release N refused pwm_text id hw').1.files
            ≡ read_trimmed path hw.files)
  unfolding drive_all
  release-drive_all id f pct ds hw path e t ne np nen =
      released_file id f hw.files _ path
        (drive_all-Taken id f hw.files ds _ (first-Taken id f pct hw e t ne).1) ne np nen
