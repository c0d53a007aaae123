-- ===== src/Fans/Controller/Released.antt =====
-- internal/fans/controller.go: the fans that are held after any calls and `ReleaseAll`.
use mathlib.Core.Path.{subst}
use mathlib.Core.Option.{some-injective}
use control_panel.Base.{
  ◌≡◌, refl, ap, ◌∙◌, inl, inr, Bool, true, false, Option, none, some, String, List, [], ◌∷◌,
  string_eq, lookup, arith, str_iff, Bool-cases, Option-cases,
}
use control_panel.Fans.Curve.{Float, Settings}
use control_panel.Fans.Controller.{
  engaged_in, Provider, Controller, release_ids, release_all, new_controller,
}
use control_panel.Fans.Controller.Calls
use control_panel.Fans.Controller.Calls.{
  Call, ticks, sets, set_names, releases, set_keeps, set_name_keeps,
}
use control_panel.Fans.Controller.Noted.{Holds, IsNoted, tick-IsNoted}

module _ (N : Float) {H : Type 0} (p : Provider N H) (held : H → String → Bool)
    (law : Holds N p held) where
  release_ids-held :
      (m : List (String × Bool)) (hw : H) (j : String)
      → held (release_ids N p m hw).1 j ≡ true
      → held hw j ≡ true
  unfolding release_ids
  release_ids-held [] hw j h = h
  release_ids-held ((id, true) ∷ m) hw j h =
      law.release_other id hw j (release_ids-held m (p.release id hw).1 j h)
  release_ids-held ((id, false) ∷ m) hw j h = release_ids-held m hw j h

  release_ids-noted :
      (m : List (String × Bool)) (hw : H) (j : String)
      → (held hw j ≡ true → engaged_in j m ≡ true)
      → held (release_ids N p m hw).1 j ≡ true
      → engaged_in j (release_ids N p m hw).0 ≡ true
  unfolding release_ids lookup
  release_ids-noted [] hw j v h = v h
  release_ids-noted ((id, true) ∷ m) hw j v h =
      let hw1 = (p.release id hw).1 in
      ground (
        arith,
        str_iff id j,
        Option-cases (p.release id hw).0,
        release_ids-held m hw1 j,
        law.release_done id hw,
        law.release_other id hw j,
        release_ids-noted m hw1 j,
      )
  release_ids-noted ((id, false) ∷ m) hw j v h =
      ground (arith, str_iff id j, release_ids-held m hw j, release_ids-noted m hw j)

  release_ids-freed :
      (m : List (String × Bool)) (hw : H) (j : String)
      → ((id : String) (h : H) → held h id ≡ true → (p.release id h).0 ≡ none)
      → engaged_in j m ≡ true
      → held (release_ids N p m hw).1 j ≡ false
  unfolding release_ids lookup
  release_ids-freed [] hw j ok e = cc
  release_ids-freed ((id, true) ∷ m) hw j ok e =
      let hw1 = (p.release id hw).1 in
      ground (
        arith,
        str_iff id j,
        ok id hw,
        law.release_done id hw,
        law.release_other id hw j,
        release_ids-held m hw1 j,
        release_ids-freed m hw1 j ok,
      )
  release_ids-freed ((id, false) ∷ m) hw j ok e =
      ground (arith, str_iff id j, release_ids-freed m hw j ok)

  abbrev Noted : Controller N × H → Type 0
  Noted r = IsNoted N p held law r.0.engaged r.1

  after-IsNoted :
      (call : Call N) (c : Controller N) (hw : H) (r : Controller N × H)
      → IsNoted N p held law c.engaged hw
      → Calls.after N p call c hw ≡ some r
      → Noted r
  unfolding Calls.after
  after-IsNoted ticks c hw (c', hw') v h = tick-IsNoted N p held law c c' hw hw' v h
  after-IsNoted (sets saved id s) c hw r v h =
      subst Noted (some-injective _ _ h)
        (λ j held_j. ap (engaged_in j) (set_keeps N p saved id s hw c).1 ∙ v j held_j)
  after-IsNoted (set_names saved id name len) c hw r v h =
      subst Noted (some-injective _ _ h)
        (λ j held_j. ap (engaged_in j) (set_name_keeps N p saved id name len hw c).1 ∙ v j held_j)
  after-IsNoted releases c hw r v h =
      subst Noted (some-injective _ _ h) (λ j. release_ids-noted c.engaged hw j (v j))

  run-IsNoted :
      (calls : List (Call N)) (c : Controller N) (hw : H) (r : Controller N × H)
      → IsNoted N p held law c.engaged hw
      → Calls.run N p calls c hw ≡ some r
      → Noted r
  unfolding Calls.run
  run-IsNoted [] c hw r v h = subst Noted (some-injective _ _ h) v
  run-IsNoted (call ∷ calls) c hw r v h =
      go (Calls.after N p call c hw) refl (λ q. run-IsNoted calls q.0 q.1 r) h
    where
      next : Option (Controller N × H) → Option (Controller N × H)
      next none = none
      next (some (c', hw')) = Calls.run N p calls c' hw'

      go :
          (o : Option (Controller N × H))
          → Calls.after N p call c hw ≡ o
          → ((q : Controller N × H) → Noted q → Calls.run N p calls q.0 q.1 ≡ some r → Noted r)
          → next o ≡ some r
          → Noted r
      go none e rec h = cc
      go (some q) e rec h = rec q (after-IsNoted call c hw q v e) h

  start-IsNoted :
      (control : Bool) (settings : List (String × Settings N)) (names : List (String × String))
      (hw : H) (first : Controller N × H)
      → ((j : String) → held hw j ≡ false)
      → new_controller N p control settings names hw ≡ some first
      → Noted first
  unfolding new_controller
  start-IsNoted control settings names hw first free e =
      tick-IsNoted N p held law
        (record {
          control = control;
          poke = false;
          settings = settings;
          names = names;
          engaged = [];
          state = [];
          sensors = [];
        })
        first.0 hw first.1 (λ j h. cc (free j)) e

  noted-freed :
      (c : Controller N) (hw : H) (j : String)
      → ((id : String) (h : H) → held h id ≡ true → (p.release id h).0 ≡ none)
      → (held hw j ≡ true → engaged_in j c.engaged ≡ true)
      → held (release_all N p c hw).1 j ≡ false
  unfolding release_all
  noted-freed c hw j ok v = elim (Bool-cases (held hw j)) [
    | inl taken ↦ release_ids-freed c.engaged hw j ok (v taken)
    | inr free ↦ elim (Bool-cases (held (release_ids N p c.engaged hw).1 j)) [
      | inl still ↦ cc (release_ids-held c.engaged hw j still)
      | inr gone ↦ gone
    ]
  ]

  -- On a machine where no fan is held, with a provider in which only a `SetDuty` that succeeds
  -- takes its fan and a `Release` of a fan that is held succeeds and gives it back: after any
  -- calls on a new controller, `ReleaseAll` leaves no fan under the panel's control.
  pub release_all-run :
      (control : Bool) (settings : List (String × Settings N)) (names : List (String × String))
      (hw : H) (calls : List (Call N)) (first last : Controller N × H)
      → ((j : String) → held hw j ≡ false)
      → ((id : String) (h : H) → held h id ≡ true → (p.release id h).0 ≡ none)
      → new_controller N p control settings names hw ≡ some first
      → Calls.run N p calls first.0 first.1 ≡ some last
      → (j : String) → held (release_all N p last.0 last.1).1 j ≡ false
  release_all-run control settings names hw calls first last free ok e h j =
      noted-freed last.0 last.1 j ok (
        run-IsNoted calls first.0 first.1 last
          (start-IsNoted control settings names hw first free e) h j)
