-- ===== src/Fans/Controller/Calls.antt =====
-- The controller over any sequence of calls, between which the machine may be read only.
use control_panel.Base.{
  ℕ, ◌≡◌, refl, ap, ◌∙◌, Bool, true, false, Option, none, some, String, List, [], ◌∷◌, arith,
}
use control_panel.Fans.Curve.{Float, Settings}
use control_panel.Fans.Controller.{
  Provider, Controller, by_id, tick, release_ids, release_all, set, set_name, any_engaged,
  new_controller,
}
use control_panel.Fans.Controller.Ticks.{tick_fans-off}

pub data Call (N : Float) : Type 0 where
  ticks : Call N
  sets : Option String → String → Settings N → Call N
  set_names : Option String → String → String → ℕ → Call N
  releases : Call N

module _ (N : Float) {H : Type 0} (p : Provider N H) where
  -- `none` is a panic.
  unfoldable pub after : Call N → Controller N → H → Option (Controller N × H)
  unfolding tick set set_name release_all
  after ticks c hw = tick N p c hw
  after (sets saved id s) c hw = some ((set N p saved id s hw c).1, hw)
  after (set_names saved id name len) c hw = some ((set_name N p saved id name len hw c).1, hw)
  after releases c hw = some (release_all N p c hw)

  unfoldable pub run : List (Call N) → Controller N → H → Option (Controller N × H)
  run [] c hw = some (c, hw)
  run (call ∷ calls) c hw = elim (after call c hw) [
    | none ↦ none
    | some (c', hw') ↦ run calls c' hw'
  ]

  record IsOff (c : Controller N) : Type 0 where
    off : c.control ≡ false
    idle : any_engaged N p c.engaged ≡ false

  pub release_ids-idle :
      (m : List (String × Bool)) (hw : H)
      → any_engaged N p m ≡ false
      → release_ids N p m hw ≡ (m, hw)
  unfolding release_ids any_engaged
  release_ids-idle [] hw h = refl
  release_ids-idle ((id, true) ∷ m) hw h = cc
  release_ids-idle ((id, false) ∷ m) hw h = rw (release_ids-idle m hw h)

  tick-IsOff :
      (c : Controller N) (hw : H)
      → IsOff c
      → (c' : Controller N) × (tick N p c hw ≡ some (c', hw)) × IsOff c'
  unfolding tick
  tick-IsOff c hw o =
      let sensors = p.sensors hw in
      let (sts, e) = tick_fans-off N p c (by_id N p sensors []) (p.fans hw) c.engaged hw o.off in
      (
        record c { sensors = sensors; state = sts },
        rw (e, tick),
        record { off = o.off; idle = o.idle },
      )

  pub set_keeps :
      (saved : Option String) (id : String) (s : Settings N) (hw : H) (c : Controller N)
      → ((set N p saved id s hw c).1.control ≡ c.control)
        × ((set N p saved id s hw c).1.engaged ≡ c.engaged)
  unfolding set
  set_keeps saved id s hw c = ground arith

  pub set_name_keeps :
      (saved : Option String) (id name : String) (len : ℕ) (hw : H) (c : Controller N)
      → ((set_name N p saved id name len hw c).1.control ≡ c.control)
        × ((set_name N p saved id name len hw c).1.engaged ≡ c.engaged)
  unfolding set_name
  set_name_keeps saved id name len hw c = ground arith

  after-IsOff :
      (call : Call N) (c : Controller N) (hw : H)
      → IsOff c
      → (c' : Controller N) × (after call c hw ≡ some (c', hw)) × IsOff c'
  unfolding after
  after-IsOff ticks c hw o = tick-IsOff c hw o
  after-IsOff (sets saved id s) c hw o =
      let k = set_keeps saved id s hw c in
      (_, refl, record { off = k.0 ∙ o.off; idle = ap (any_engaged N p) k.1 ∙ o.idle })
  after-IsOff (set_names saved id name len) c hw o =
      let k = set_name_keeps saved id name len hw c in
      (_, refl, record { off = k.0 ∙ o.off; idle = ap (any_engaged N p) k.1 ∙ o.idle })
  after-IsOff releases c hw o = (
    c,
    ap (λ (r : List (String × Bool) × H). some (record c { engaged = r.0 }, r.1))
        (release_ids-idle c.engaged hw o.idle),
    o,
  )

  run-off :
      (calls : List (Call N)) (c : Controller N) (hw : H)
      → IsOff c
      → (c' : Controller N) × (run calls c hw ≡ some (c', hw))
  unfolding run
  run-off [] c hw o = (c, refl)
  run-off (call ∷ calls) c hw o =
      let (c', e, o') = after-IsOff call c hw o in
      let (d, e') = run-off calls c' hw o' in (d, rw (e, run) e')

  start_idle : any_engaged N p [] ≡ false
  unfolding any_engaged
  start_idle = refl

  -- With `fans.control` off nothing is ever written: the controller starts, and any sequence of
  -- ticks, settings, names and releases, whatever the settings that were loaded, runs without a
  -- panic and leaves the machine exactly as it was.
  pub run-control_off :
      (settings : List (String × Settings N)) (names : List (String × String)) (hw : H)
      (calls : List (Call N))
      → (c c' : Controller N) × (new_controller N p false settings names hw ≡ some (c, hw))
        × (run calls c hw ≡ some (c', hw))
  unfolding new_controller
  run-control_off settings names hw calls =
      let (c, e, o) =
        tick-IsOff
          (record {
            control = false;
            poke = false;
            settings = settings;
            names = names;
            engaged = [];
            state = [];
            sensors = [];
          })
          hw (record { off = refl; idle = start_idle }) in
      let (c', e') = run-off calls c hw o in (c, c', e, e')
