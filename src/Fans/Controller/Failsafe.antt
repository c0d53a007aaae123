-- ===== src/Fans/Controller/Failsafe.antt =====
-- The failsafe of a tick: a curve whose sensor is gone.
use mathlib.Core.Path.{subst}
use control_panel.Base.{
  ◌≡◌, ◌≢◌, refl, sym, ap, ◌∙◌, Bool, true, false, Option, none, some, String, List, [], ◌∷◌,
  string_eq, lookup, insert, arith, lookup-insert, beq_ne, All,
}
use control_panel.Fans.Curve.{Float, Settings, Mode, auto, manual, curve, other}
use control_panel.Fans.Controller.{
  Fan, sensor_unavailable, Sensor, FanState, Provider, Controller, Work, by_id, drive, control_in,
  read_back, zero_settings, or_else, new_state, command_fan, tick_fan, tick_fans, tick,
}
use control_panel.Fans.Controller.Ticks.{read_back_keeps, start_work, tick_fan_inv, tick_fans_inv}

module _ (N : Float) {H : Type 0} (p : Provider N H) where
  lookup-by_id :
      (sid : String) (ss : List (Sensor N)) (m : List (String × Sensor N))
      → All (λ s. s.id ≢ sid) ss
      → lookup sid m ≡ none
      → lookup sid (by_id N p ss m) ≡ none
  unfolding by_id
  lookup-by_id sid [] m a e = e
  lookup-by_id sid (s ∷ ss) m a e =
      lookup-by_id sid ss (insert s.id s m) a.1
        (lookup-insert s.id sid s m ∙ rw (beq_ne s.id sid a.0) e)

  abbrev pub driven_to : N.F → String → List (String × Bool) → H → List (String × Bool) × H
  driven_to pct id engaged hw =
      let (e, hw') = p.set_duty id pct hw in
      (elim e [ none ↦ insert id true engaged | some why ↦ engaged ], hw')

  mode_set :
      (c : Controller N) (f : Fan) (set : Settings N)
      → lookup f.id c.settings ≡ some set
      → (new_state N p c f).mode ≡ set.mode
  unfolding new_state
  mode_set c f set e = ground arith

  drive_lem :
      (w : Work N p)
      → ((drive N p w).engaged ≡ (driven_to w.st.target_pct w.st.id w.engaged w.hw).0)
        × ((drive N p w).hw ≡ (driven_to w.st.target_pct w.st.id w.engaged w.hw).1)
        × ((drive N p w).st.failsafe ≡ w.st.failsafe)
        × ((drive N p w).st.target_pct ≡ w.st.target_pct)
        × ((drive N p w).st.mode ≡ w.st.mode)
  unfolding drive
  drive_lem w = ground arith

  abbrev at_full : Settings N → Work N p → Work N p
  at_full set w = record w {
    st = record w.st {
      target_pct = N.lit 100;
      failsafe = true;
      err = some (sensor_unavailable set.sensor);
    };
  }

  command_fan-failsafe :
      (c : Controller N) (sensors : List (String × Sensor N)) (f : Fan) (set : Settings N)
      (w : Work N p)
      → c.control ≡ true
      → f.writable ≡ true
      → lookup f.id c.settings ≡ some set
      → w.st.mode ≡ curve
      → lookup set.sensor sensors ≡ none
      → command_fan N p c sensors f w ≡ some (drive N p (at_full set w))
  unfolding command_fan
  command_fan-failsafe c sensors f set w on wr e m gone = ground arith

  -- In a controller that may write, a writable fan whose curve names a sensor that the machine does
  -- not report is commanded to 100% in that tick: `SetDuty` is called with 100, the published state
  -- has the failsafe flag and the target 100, and the fan counts as engaged unless that call failed.
  pub tick_fan-failsafe :
      (c : Controller N) (f : Fan) (set : Settings N) (engaged : List (String × Bool)) (hw : H)
      → c.control ≡ true
      → f.writable ≡ true
      → lookup f.id c.settings ≡ some set
      → set.mode ≡ curve
      → All (λ s. s.id ≢ set.sensor) (p.sensors hw)
      → (w : Work N p) × (tick_fan N p c (by_id N p (p.sensors hw) []) f engaged hw ≡ some w)
        × (w.engaged ≡ (driven_to (N.lit 100) f.id engaged hw).0)
        × (w.hw ≡ (driven_to (N.lit 100) f.id engaged hw).1)
        × (w.st.failsafe ≡ true)
        × (w.st.target_pct ≡ N.lit 100)
  unfolding tick_fan
  tick_fan-failsafe c f set engaged hw on wr e m gone =
      let sensors = by_id N p (p.sensors hw) [] in
      let w0 : Work N p = record { engaged = engaged; hw = hw; st = new_state N p c f } in
      let w1 = at_full set w0 in
      let w = drive N p w1 in
      let k = read_back_keeps N p w in
      let d = drive_lem w1 in
      let same_id : w1.st.id ≡ f.id = unfold new_state in refl in
      let missing = lookup-by_id set.sensor (p.sensors hw) [] gone (unfold lookup in refl) in
      (
        read_back N p w,
        ap (λ o. elim o [ none ↦ none | some w ↦ some (read_back N p w) ])
            (command_fan-failsafe c sensors f set w0 on wr e (mode_set c f set e ∙ m) missing),
        k.1 ∙ d.0 ∙ ap (λ id. (driven_to (N.lit 100) id engaged hw).0) same_id,
        k.0 ∙ d.1 ∙ ap (λ id. (driven_to (N.lit 100) id engaged hw).1) same_id,
        k.2 ∙ d.2,
        k.3 ∙ d.3,
      )

  -- What a published state says of the failsafe.
  abbrev pub IsSafe : FanState N → Type 0
  IsSafe st = st.failsafe ≡ true → (st.target_pct ≡ N.lit 100) × (st.mode ≡ curve)

  control_in-IsSafe :
      (m : Mode) (sensors : List (String × Sensor N)) (set : Settings N) (w w' : Work N p)
      → w.st.mode ≡ m
      → w.st.failsafe ≡ false
      → control_in N p m sensors set w ≡ some w'
      → IsSafe w'.st
  unfolding control_in
  control_in-IsSafe auto sensors set w w' e f h s = ground arith
  control_in-IsSafe (other m) sensors set w w' e f h s = ground arith
  control_in-IsSafe manual sensors set w w' e f h s = ground arith
  control_in-IsSafe curve sensors set w w' e f h s = ground arith

  command_fan-IsSafe :
      (c : Controller N) (sensors : List (String × Sensor N)) (f : Fan) (w w' : Work N p)
      → w.st.failsafe ≡ false
      → command_fan N p c sensors f w ≡ some w'
      → IsSafe w'.st
  unfolding command_fan
  command_fan-IsSafe c sensors f w w' e h s = ground (
    arith,
    control_in-IsSafe w.st.mode sensors (or_else N p (lookup f.id c.settings) (zero_settings N p)) w
        w' refl e,
  )

  start_flag : (c : Controller N) (f : Fan) → (new_state N p c f).failsafe ≡ false
  unfolding new_state
  start_flag c f = refl

  tick_fan-IsSafe :
      (c : Controller N) (sensors : List (String × Sensor N)) (f : Fan)
      (engaged : List (String × Bool)) (hw : H) (w : Work N p)
      → tick_fan N p c sensors f engaged hw ≡ some w
      → IsSafe w.st
  unfolding tick_fan
  tick_fan-IsSafe c sensors f engaged hw w h =
      let (w1, e, g) = tick_fan_inv N p c sensors f engaged hw w h in
      let k = read_back_keeps N p w1 in
      let safe =
        command_fan-IsSafe c sensors f (start_work N p c f engaged hw) w1 (start_flag c f) e in
      λ s. ground (arith, k, safe)

  tick_fans-IsSafe :
      (c : Controller N) (sensors : List (String × Sensor N)) (fs : List Fan)
      (engaged : List (String × Bool)) (hw : H) (r : List (FanState N) × List (String × Bool) × H)
      → tick_fans N p c sensors fs engaged hw ≡ some r
      → All IsSafe r.0
  tick_fans-IsSafe c sensors [] engaged hw r h = unfold tick_fans in ground arith
  tick_fans-IsSafe c sensors (f ∷ fs) engaged hw r h =
      let (w, q, e, d, g) = tick_fans_inv N p c sensors f fs engaged hw r h in
      subst (λ (r : List (FanState N) × List (String × Bool) × H). All IsSafe r.0) (sym g)
        (
          tick_fan-IsSafe c sensors f engaged hw w e,
          tick_fans-IsSafe c sensors fs w.engaged w.hw q d,
        )

  -- Every state that a tick publishes with the failsafe flag is one of a curve, with the target 100.
  pub tick-IsSafe :
      (c c' : Controller N) (hw hw' : H) → tick N p c hw ≡ some (c', hw') → All IsSafe c'.state
  unfolding tick
  tick-IsSafe c c' hw hw' h =
      go (tick_fans N p c (by_id N p (p.sensors hw) []) (p.fans hw) c.engaged hw) refl h
    where
      stored : Option (List (FanState N) × List (String × Bool) × H) → Option (Controller N × H)
      stored none = none
      stored (some (sts, engaged, hw'')) =
          some (record c { sensors = p.sensors hw; state = sts; engaged = engaged }, hw'')

      go :
          (o : Option (List (FanState N) × List (String × Bool) × H))
          → tick_fans N p c (by_id N p (p.sensors hw) []) (p.fans hw) c.engaged hw ≡ o
          → stored o ≡ some (c', hw')
          → All IsSafe c'.state
      go none e h = cc
      go (some r) e h = subst (All IsSafe) (cc) (tick_fans-IsSafe c _ (p.fans hw) c.engaged hw r e)
