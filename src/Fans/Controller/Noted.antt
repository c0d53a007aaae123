-- ===== src/Fans/Controller/Noted.antt =====
-- internal/fans/controller.go: the fans that the machine holds under the panel's control against
-- those that the controller counts as engaged.
use mathlib.Core.Path.{subst, subst₂}
use mathlib.Core.Option.{some-injective}
use control_panel.Base.{
  ◌≡◌, ◌≢◌, refl, sym, inl, inr, Bool, true, false, not, ◌&&◌, Option, none, some, String, List, [],
  ◌∷◌, if◌then◌else◌, ◌==◌, string_eq, lookup, insert, arith, str_iff, lookup-insert, Option-cases,
}
use control_panel.Fans.Curve.{Float, Settings, Mode, auto, manual, curve, other}
use control_panel.Fans.Controller.{
  is_auto, read_only, Fan, engaged_in, Sensor, FanState, Provider, Controller, Work, by_id, drive,
  let_go, aim, control_in, zero_settings, or_else, command_fan, tick_fan, tick_fans, tick,
}
use control_panel.Fans.Controller.Ticks.{read_back_keeps, start_work, tick_fan_inv, tick_fans_inv}

-- What the controller relies on in a provider, where `held` says whether a fan is under the panel's
-- control: only a `SetDuty` of that fan that succeeds takes it, and a `Release` that succeeds
-- gives it back.
pub record Holds (N : Float) {H : Type 0} (p : Provider N H) (held : H → String → Bool)
    : Type 0 where
  pub set_failed :
      (id : String) (d : N.F) (hw : H) (why : String) (j : String)
      → (p.set_duty id d hw).0 ≡ some why
      → held (p.set_duty id d hw).1 j ≡ true
      → held hw j ≡ true
  pub set_other :
      (id : String) (d : N.F) (hw : H) (j : String)
      → id ≢ j
      → held (p.set_duty id d hw).1 j ≡ true
      → held hw j ≡ true
  pub release_other :
      (id : String) (hw : H) (j : String) → held (p.release id hw).1 j ≡ true → held hw j ≡ true
  pub release_done :
      (id : String) (hw : H) → (p.release id hw).0 ≡ none → held (p.release id hw).1 id ≡ false

module _ (N : Float) {H : Type 0} (p : Provider N H) (held : H → String → Bool)
    (law : Holds N p held) where
  -- A fan that is held is noted as engaged.
  abbrev pub IsNoted : List (String × Bool) → H → Type 0
  IsNoted engaged hw = (j : String) → held hw j ≡ true → engaged_in j engaged ≡ true

  engaged_in-insert :
      (id j : String) (b : Bool) (m : List (String × Bool))
      → engaged_in j (insert id b m) ≡ (if id == j then b else engaged_in j m)
  engaged_in-insert id j b m = ground (arith, lookup-insert id j b m)

  drive-IsNoted :
      (w : Work N p) → IsNoted w.engaged w.hw → IsNoted (drive N p w).engaged (drive N p w).hw
  unfolding drive
  drive-IsNoted w v j h =
      let id = w.st.id in
      let d = w.st.target_pct in
      elim (Option-cases (p.set_duty id d w.hw).0) [
        | inl ok ↦
            ground (
              arith,
              lookup-insert id j true w.engaged,
              v j,
              str_iff id j,
              law.set_other id d w.hw j,
            )
        | inr (why, bad) ↦ ground (arith, v j, law.set_failed id d w.hw why j)
      ]

  let_go-IsNoted :
      (w : Work N p) → IsNoted w.engaged w.hw → IsNoted (let_go N p w).engaged (let_go N p w).hw
  unfolding let_go
  let_go-IsNoted w v j h =
      let id = w.st.id in
      elim (Option-cases (p.release id w.hw).0) [
        | inl ok ↦ ground (
          arith,
          lookup-insert id j false w.engaged,
          v j,
          str_iff id j,
          law.release_other id w.hw j,
          law.release_done id w.hw,
        )
        | inr (why, bad) ↦ ground (arith, v j, law.release_other id w.hw j)
      ]

  abbrev NotedWork : Work N p → Type 0
  NotedWork w = IsNoted w.engaged w.hw

  let_go_if : (b : Bool) (w : Work N p) → NotedWork w → NotedWork (if b then let_go N p w else w)
  let_go_if true w v = let_go-IsNoted w v
  let_go_if false w v = v

  aimed :
      (w w' : Work N p) (o : Option (FanState N))
      → NotedWork w
      → elim o [ none ↦ none | some st ↦ some (drive N p (record w { st = st })) ] ≡ some w'
      → NotedWork w'
  aimed w w' none v h = cc
  aimed w w' (some st) v h =
      subst NotedWork (some-injective _ _ h) (drive-IsNoted (record w { st = st }) v)

  control_in-IsNoted :
      (m : Mode) (sensors : List (String × Sensor N)) (s : Settings N) (w w' : Work N p)
      → NotedWork w
      → control_in N p m sensors s w ≡ some w'
      → NotedWork w'
  unfolding control_in
  control_in-IsNoted auto sensors s w w' v h =
      subst NotedWork (some-injective _ _ h) (let_go_if _ w v)
  control_in-IsNoted (other m) sensors s w w' v h =
      subst NotedWork (some-injective _ _ h) (let_go_if _ w v)
  control_in-IsNoted manual sensors s w w' v h =
      subst NotedWork (some-injective _ _ h)
        (drive-IsNoted (record w { st = record w.st { target_pct = s.manual_pct } }) v)
  control_in-IsNoted curve sensors s w w' v h =
      aimed w w' (aim N p (lookup s.sensor sensors) s w.st) v h

  command_fan-IsNoted :
      (c : Controller N) (sensors : List (String × Sensor N)) (f : Fan) (w w' : Work N p)
      → NotedWork w
      → command_fan N p c sensors f w ≡ some w'
      → NotedWork w'
  unfolding command_fan
  command_fan-IsNoted c sensors f w w' v h =
      go (not f.writable && not (is_auto N p w.st.mode)) c.control h
    where
      go :
          (a b : Bool)
          → (if a
              then some (record w { st = record w.st { err = some read_only } })
              else if b
              then control_in N p w.st.mode sensors
                  (or_else N p (lookup f.id c.settings) (zero_settings N p))
                  w
              else some w)
            ≡ some w'
          → NotedWork w'
      go true b h = subst NotedWork (some-injective _ _ h) v
      go false true h = control_in-IsNoted w.st.mode sensors _ w w' v h
      go false false h = subst NotedWork (some-injective _ _ h) v

  tick_fan-IsNoted :
      (c : Controller N) (sensors : List (String × Sensor N)) (f : Fan)
      (engaged : List (String × Bool)) (hw : H) (w : Work N p)
      → IsNoted engaged hw
      → tick_fan N p c sensors f engaged hw ≡ some w
      → NotedWork w
  tick_fan-IsNoted c sensors f engaged hw w v h =
      let (w1, e, g) = tick_fan_inv N p c sensors f engaged hw w h in
      let k = read_back_keeps N p w1 in
      let u = command_fan-IsNoted c sensors f (start_work N p c f engaged hw) w1 v e in
      subst NotedWork g (subst₂ IsNoted (sym k.1) (sym k.0) u)

  tick_fans-IsNoted :
      (c : Controller N) (sensors : List (String × Sensor N)) (fs : List Fan)
      (engaged : List (String × Bool)) (hw : H) (r : List (FanState N) × List (String × Bool) × H)
      → IsNoted engaged hw
      → tick_fans N p c sensors fs engaged hw ≡ some r
      → IsNoted r.1 r.2
  unfolding tick_fans
  tick_fans-IsNoted c sensors [] engaged hw r v h =
      subst (λ (r : List (FanState N) × List (String × Bool) × H). IsNoted r.1 r.2)
        (some-injective _ _ h) v
  tick_fans-IsNoted c sensors (f ∷ fs) engaged hw r v h =
      let (w, q, e, d, g) = tick_fans_inv N p c sensors f fs engaged hw r h in
      subst (λ (r : List (FanState N) × List (String × Bool) × H). IsNoted r.1 r.2) (sym g)
        (tick_fans-IsNoted c sensors fs w.engaged w.hw q
          (tick_fan-IsNoted c sensors f engaged hw w v e) d)

  pub tick-IsNoted :
      (c c' : Controller N) (hw hw' : H)
      → IsNoted c.engaged hw
      → tick N p c hw ≡ some (c', hw')
      → IsNoted c'.engaged hw'
  unfolding tick
  tick-IsNoted c c' hw hw' v h =
      go (tick_fans N p c (by_id N p (p.sensors hw) []) (p.fans hw) c.engaged hw) refl h
    where
      stored : Option (List (FanState N) × List (String × Bool) × H) → Option (Controller N × H)
      stored none = none
      stored (some (sts, engaged, hw'')) =
          some (record c { sensors = p.sensors hw; state = sts; engaged = engaged }, hw'')

      go :
          (o : Option (List (FanState N) × List (String × Bool) × H))
          → tick_fans N p c (by_id N p (p.sensors hw) []) (p.fans hw) c.engaged hw ≡ o
          → stored o ≡ some (c', hw')
          → IsNoted c'.engaged hw'
      go none e h = cc
      go (some r) e h =
          subst (λ (q : Controller N × H). IsNoted q.0.engaged q.1) (some-injective _ _ h)
            (tick_fans-IsNoted c _ (p.fans hw) c.engaged hw r v e)
