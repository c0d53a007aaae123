-- ===== src/Sched/Engine/Edit.antt =====
-- An edit of a schedule that `RunNow` has asked for.
use control_panel.Base.{
  ℕ, ◌≡◌, refl, ap, ◌∙◌, true, false, Option, none, some, String, List, [], ◌∷◌, nat_beq,
  nat_beq_iff, Bool-cases, inl, inr, string_eq, ℤ, arith,
}
use control_panel.Sched.{Schedule, Invalid, validate}
use control_panel.Sched.Next.{Calendar}
use control_panel.Sched.Engine.{
  Engine, put, next_ms, with_next, is_due, find_item, run_now, update, save_locked,
}
use control_panel.Sched.Engine.Due.{scheduled}

find_item_same :
    (id : String) (ps : List ℕ) (at at' : ℕ → Schedule)
    → ((q : ℕ) → (at' q).id ≡ (at q).id)
    → find_item id ps at' ≡ find_item id ps at
unfolding find_item
find_item_same id [] at at' h = refl
find_item_same id (q ∷ ps) at at' h = rw (h q, find_item_same id ps at at' h)

run_now_found :
    (id : String) (e : Engine) (p : ℕ)
    → find_item id e.items e.at ≡ some p
    → (run_now id e).1
      ≡ record e { at = put p (record (e.at p) { run_now = true }) e.at; poke = true }
unfolding run_now
run_now_found id e p h = rw (h, run_now)

put_id :
    (p : ℕ) (at : ℕ → Schedule) (q : ℕ)
    → (put p (record (at p) { run_now = true }) at q).id ≡ (at q).id
put_id p at q = elim (Bool-cases (nat_beq p q)) [
  | inl hit ↦ rw hit (ap (λ k. (at k).id) ((nat_beq_iff p q).0 hit))
  | inr miss ↦ rw miss
]

put_self : (p : ℕ) (s : Schedule) (at : ℕ → Schedule) → put p s at p ≡ s
put_self p s at = ground arith

not_asked : (ms : ℕ) (s : Schedule) → s.run_now ≡ false → is_due ms s ≡ scheduled ms s
unfolding is_due
not_asked ms s r = rw r

module _ (cal : Calendar) (parse_duration : String → Option ℤ) (trim_space : String → String) where
  abbrev edited : String → ℕ → Schedule → Schedule → Schedule
  edited id t old s = record s {
    id = id;
    last_run = old.last_run;
    last_result = old.last_result;
    next_run = t;
  }

  update_found :
      (id : String) (s s' : Schedule) (now t : ℕ) (e : Engine) (p : ℕ)
      → validate parse_duration trim_space s ≡ (none, s')
      → next_ms cal parse_duration trim_space s' now ≡ some t
      → find_item id e.items e.at ≡ some p
      → (e' : Engine) × (update cal parse_duration trim_space id s none now none e
          ≡ some (none, e'))
        × (e'.at p ≡ edited id t (e.at p) s')
  unfolding update
  update_found id s s' now t e p v n f = (
    (save_locked none (record e { at = put p (edited id t (e.at p) s') e.at })).1,
    rw (v, f, update)
        (rw (ap (λ (r : Option Invalid × Schedule). r.1) v) (
          ap
            (λ (o : Option ℕ).
              elim (with_next cal parse_duration trim_space o (edited id s'.next_run (e.at p) s')) [
                | none ↦ none
                | some item ↦ some (save_locked none (record e { at = put p item e.at }))
              ])
            n)),
    put_self p _ e.at,
  )

  -- A request of `RunNow` that no tick has seen is lost when the schedule is then updated with
  -- settings that are accepted, have a next run and do not carry the request themselves, if the file
  -- is written: the schedule is then due only when its time has come. Its id and the time and result
  -- of its last run are kept.
  pub update-run_now :
      (id : String) (s s' : Schedule) (now t ms : ℕ) (e : Engine) (p : ℕ)
      → validate parse_duration trim_space s ≡ (none, s')
      → s'.run_now ≡ false
      → next_ms cal parse_duration trim_space s' now ≡ some t
      → find_item id e.items e.at ≡ some p
      → (e' : Engine) × (update cal parse_duration trim_space id s none now none (run_now id e).1
          ≡ some (none, e'))
        × (is_due ms (e'.at p) ≡ scheduled ms (e'.at p))
        × ((e'.at p).id ≡ id)
        × ((e'.at p).last_run ≡ (e.at p).last_run)
        × ((e'.at p).last_result ≡ (e.at p).last_result)
  update-run_now id s s' now t ms e p v r n f =
      let asked = run_now_found id e p f in
      let e1 = (run_now id e).1 in
      let at1 : (e1.at p) ≡ record (e.at p) { run_now = true } =
        ap (λ (x : Engine). x.at p) asked ∙ put_self p _ e.at in
      let f1 : find_item id e1.items e1.at ≡ some p =
        ap (λ (x : Engine). find_item id x.items x.at) asked
        ∙ find_item_same id e.items e.at _ (put_id p e.at)
        ∙ f in
      let (e', u, a) = update_found id s s' now t e1 p v n f1 in
      (
        e',
        u,
        not_asked ms (e'.at p) (ap (λ (x : Schedule). x.run_now) a ∙ r),
        ap (λ (x : Schedule). x.id) a,
        ap (λ (x : Schedule). x.last_run) a ∙ ap (λ (x : Schedule). x.last_run) at1,
        ap (λ (x : Schedule). x.last_result) a ∙ ap (λ (x : Schedule). x.last_result) at1,
      )
