-- ===== src/Fans/Controller/Ticks.antt =====
-- What a tick does to the machine, and what it publishes.
use control_panel.Base.{
  ◌≡◌, refl, ap, ◌∙◌, Bool, false, not, ◌&&◌, Option, none, some, String, List, [], ◌∷◌,
  if◌then◌else◌, string_eq, arith,
}
use control_panel.Fans.Curve.{Float}
use control_panel.Fans.Controller.{
  Fan, read_only, is_auto, Sensor, FanState, Provider, Controller, Work, read_back, new_state,
  command_fan, tick_fan, tick_fans,
}

module _ (N : Float) {H : Type 0} (p : Provider N H) where
  pub read_back_keeps :
      (w : Work N p)
      → ((read_back N p w).hw ≡ w.hw)
        × ((read_back N p w).engaged ≡ w.engaged)
        × ((read_back N p w).st.failsafe ≡ w.st.failsafe)
        × ((read_back N p w).st.target_pct ≡ w.st.target_pct)
        × ((read_back N p w).st.mode ≡ w.st.mode)
  unfolding read_back
  read_back_keeps w = ground arith

  abbrev off_result : Controller N → Fan → Work N p → Work N p
  off_result c f w =
      if not f.writable && not (is_auto N p w.st.mode)
      then record w { st = record w.st { err = some read_only } }
      else w

  command_fan-off :
      (c : Controller N) (sensors : List (String × Sensor N)) (f : Fan) (w : Work N p)
      → c.control ≡ false
      → command_fan N p c sensors f w ≡ some (off_result c f w)
  unfolding command_fan
  command_fan-off c sensors f w off = ground arith

  -- With control off a fan is only read.
  tick_fan-off :
      (c : Controller N) (sensors : List (String × Sensor N)) (f : Fan)
      (engaged : List (String × Bool)) (hw : H)
      → c.control ≡ false
      → (w : Work N p) × (tick_fan N p c sensors f engaged hw ≡ some w)
        × (w.hw ≡ hw)
        × (w.engaged ≡ engaged)
  unfolding tick_fan
  tick_fan-off c sensors f engaged hw off =
      let w0 : Work N p = record { engaged = engaged; hw = hw; st = new_state N p c f } in
      let w = off_result c f w0 in
      let k = read_back_keeps w in
      (
        read_back N p w,
        ap (λ o. elim o [ none ↦ none | some w ↦ some (read_back N p w) ])
            (command_fan-off c sensors f w0 off),
        k.0 ∙ ground arith,
        k.1 ∙ ground arith,
      )

  pub tick_fans-off :
      (c : Controller N) (sensors : List (String × Sensor N)) (fs : List Fan)
      (engaged : List (String × Bool)) (hw : H)
      → c.control ≡ false
      → (sts : List (FanState N)) × (tick_fans N p c sensors fs engaged hw
          ≡ some (sts, engaged, hw))
  unfolding tick_fans
  tick_fans-off c sensors [] engaged hw off = ([], refl)
  tick_fans-off c sensors (f ∷ fs) engaged hw off =
      let (w, e, h, g) = tick_fan-off c sensors f engaged hw off in
      let (sts, d) = tick_fans-off c sensors fs engaged hw off in (w.st ∷ sts, ground arith)

  abbrev pub start_work : Controller N → Fan → List (String × Bool) → H → Work N p
  start_work c f engaged hw = record { engaged = engaged; hw = hw; st = new_state N p c f }

  -- A tick of one fan that returns is a command, then a reading.
  pub tick_fan_inv :
      (c : Controller N) (sensors : List (String × Sensor N)) (f : Fan)
      (engaged : List (String × Bool)) (hw : H) (w : Work N p)
      → tick_fan N p c sensors f engaged hw ≡ some w
      → (w1 : Work N p) × (command_fan N p c sensors f (start_work c f engaged hw) ≡ some w1)
        × (read_back N p w1 ≡ w)
  unfolding tick_fan
  tick_fan_inv c sensors f engaged hw w h =
      go (command_fan N p c sensors f (start_work c f engaged hw)) refl h
    where
      go :
          (o : Option (Work N p))
          → command_fan N p c sensors f (start_work c f engaged hw) ≡ o
          → elim o [ none ↦ none | some w1 ↦ some (read_back N p w1) ] ≡ some w
          → (w1 : Work N p) × (command_fan N p c sensors f (start_work c f engaged hw) ≡ some w1)
            × (read_back N p w1 ≡ w)
      go none e h = cc
      go (some w1) e h = (w1, e, cc)

  abbrev Ticked : Type 0
  Ticked = List (FanState N) × List (String × Bool) × H

  pub tick_fans_inv :
      (c : Controller N) (sensors : List (String × Sensor N)) (f : Fan) (fs : List Fan)
      (engaged : List (String × Bool)) (hw : H) (r : List (FanState N) × List (String × Bool) × H)
      → tick_fans N p c sensors (f ∷ fs) engaged hw ≡ some r
      → (w : Work N p) × (q : List (FanState N) × List (String × Bool) × H) × (tick_fan N p c
            sensors f engaged hw
          ≡ some w)
        × (tick_fans N p c sensors fs w.engaged w.hw ≡ some q)
        × (r ≡ (w.st ∷ q.0, q.1, q.2))
  unfolding tick_fans
  tick_fans_inv c sensors f fs engaged hw r h = go (tick_fan N p c sensors f engaged hw) refl h
    where
      rest : (w : Work N p) → Option Ticked → Option Ticked
      rest w none = none
      rest w (some (sts, e, h)) = some (w.st ∷ sts, e, h)

      inner :
          (w : Work N p) (o : Option Ticked)
          → rest w o ≡ some r
          → (q : Ticked) × (o ≡ some q) × (r ≡ (w.st ∷ q.0, q.1, q.2))
      inner w none h = cc
      inner w (some q) h = (q, refl, cc)

      go :
          (o : Option (Work N p))
          → tick_fan N p c sensors f engaged hw ≡ o
          → elim o [ none ↦ none | some w ↦ rest w (tick_fans N p c sensors fs w.engaged w.hw) ]
            ≡ some r
          → (w : Work N p) × (q : Ticked) × (tick_fan N p c sensors f engaged hw ≡ some w)
            × (tick_fans N p c sensors fs w.engaged w.hw ≡ some q)
            × (r ≡ (w.st ∷ q.0, q.1, q.2))
      go none e h = cc
      go (some w) e h = let (q, d, g) = inner w _ h in (w, q, e, d, g)
