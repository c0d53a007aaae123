-- ===== src/Term/Manager/Closed.antt =====
-- internal/term/term.go: the manager after CloseAll.
use mathlib.Core.Path.{subst}
use mathlib.Core.Option.{some-injective}
use control_panel.Base.{
  ℕ, ◌≡◌, refl, sym, ap, ◌∙◌, Bool, true, false, Option, none, some, Option-cases, Bool-cases, inl,
  inr, String, List, [], ◌∷◌, ltb, lookup, ◌==◌, string_eq, nat_beq_iff, arith, lookup-delete, ℤ,
}
use control_panel.Base.Store.{write_self}
use control_panel.Term.Session.{Session, close_session}
use control_panel.Term.Session.Closing.{close_exited}
use control_panel.Term.Manager.{
  Manager, new_manager, admit, create, close_at, close, close_each, close_all, reap, input_at,
  resize_at, pump_at,
}
use control_panel.Term.Manager.Valid.{
  IsValid, close_at_cases, close_found, close_missing, close_all-IsValid,
}
use control_panel.Term.Manager.Calls.{
  Call, creates, closes, closes_all, reaps, inputs, resizes, pumps, ends, end_at, after, run,
  NewIds, calls-IsValid,
}

-- Sessions end and stay ended, entries go and processes are closed.
record Shrinks (m n : Manager) : Type 0 where
  ended : (p : ℕ) → (m.at p).exited ≡ true → (n.at p).exited ≡ true
  gone : (id : String) (p : ℕ) → lookup id n.sessions ≡ some p → lookup id m.sessions ≡ some p
  shut : (p : ℕ) → m.proc_open p ≡ false → n.proc_open p ≡ false
  stays : n.stopped ≡ m.stopped

Shrinks-refl : (m : Manager) → Shrinks m m
Shrinks-refl m = record { ended = λ p h. h; gone = λ id p h. h; shut = λ p h. h; stays = refl }

Shrinks-trans : (l m n : Manager) → Shrinks l m → Shrinks m n → Shrinks l n
Shrinks-trans l m n a b = record {
  ended = λ p h. b.ended p (a.ended p h);
  gone = λ id p h. a.gone id p (b.gone id p h);
  shut = λ p h. b.shut p (a.shut p h);
  stays = b.stays ∙ a.stays;
}

close_at-Shrinks : (p : ℕ) (m : Manager) → Shrinks m (close_at p m)
close_at-Shrinks p m = elim (close_at_cases p m) [
  | inl (e, same) ↦ subst (Shrinks m) (sym same) (Shrinks-refl m)
  | inr (e, next) ↦ subst (Shrinks m) (sym next) (record {
    ended = λ q h. ground (arith, nat_beq_iff p q, close_exited (m.at p), h);
    gone = λ id q h. ground (arith, lookup-delete (m.at p).id id m.sessions, h);
    shut = λ q h. ground (arith, nat_beq_iff p q, h);
    stays = refl;
  })
]

close_at_exited : (p : ℕ) (m : Manager) → ((close_at p m).at p).exited ≡ true
close_at_exited p m = elim (close_at_cases p m) [
  | inl (e, same) ↦ ap (λ (n : Manager). (n.at p).exited) same ∙ e
  | inr (e, next) ↦
      ap (λ (n : Manager). (n.at p).exited) next
      ∙ ap (λ (s : Session). s.exited) (write_self p (close_session (m.at p)).2 m.at)
      ∙ close_exited (m.at p)
]

close_each-Shrinks : (ps : List (String × ℕ)) (m : Manager) → Shrinks m (close_each ps m)
unfolding close_each
close_each-Shrinks [] m = Shrinks-refl m
close_each-Shrinks ((id, p) ∷ ps) m =
    Shrinks-trans m (close_at p m) _ (close_at-Shrinks p m) (close_each-Shrinks ps (close_at p m))

close_each_exited :
    (ps : List (String × ℕ)) (m : Manager) (id : String) (p : ℕ)
    → lookup id ps ≡ some p
    → ((close_each ps m).at p).exited ≡ true
unfolding close_each lookup
close_each_exited [] m id p h = absurd (clash h)
  where
    clash : none ≡ some p → ⊥
    clash h = cc
close_each_exited ((j, q) ∷ ps) m id p h = elim (Bool-cases (j == id)) [
  | inl same ↦
      let e : q ≡ p = some-injective q p (rw same at h) in
      (close_each-Shrinks ps (close_at q m)).ended p
        (ap (λ k. ((close_at q m).at k).exited) (sym e) ∙ close_at_exited q m)
  | inr other ↦ close_each_exited ps (close_at q m) id p (rw other at h)
]

pub record IsQuiet (m : Manager) : Type 0 where
  pub is_stopped : m.stopped ≡ true
  pub no_process : (p : ℕ) → m.proc_open p ≡ false

pub close_all-IsQuiet : (m : Manager) → IsValid m → IsQuiet (close_all m)
unfolding close_all
close_all-IsQuiet m v =
    let m1 = record m { stopped = true } in
    let w = close_all-IsValid m v in
    let sh = close_each-Shrinks m.sessions m1 in
    record {
      is_stopped = sh.stays;
      no_process = λ p. elim (Bool-cases ((close_each m.sessions m1).proc_open p)) [
        | inr shut ↦ shut
        | inl open_p ↦
            let k = w.held p open_p in
            absurd (apart (sym (close_each_exited m.sessions m1 _ p (sh.gone _ p k.2)) ∙ k.1))
      ];
    }
  where
    apart : true ≡ false → ⊥
    apart h = cc

Shrinks-IsQuiet : (m n : Manager) → Shrinks m n → IsQuiet m → IsQuiet n
Shrinks-IsQuiet m n s q = record {
  is_stopped = s.stays ∙ q.is_stopped;
  no_process = λ p. s.shut p (q.no_process p);
}

close_all-Shrinks : (m : Manager) → m.stopped ≡ true → Shrinks m (close_all m)
unfolding close_all
close_all-Shrinks m h =
    Shrinks-trans m (record m { stopped = true }) _
      (record { ended = λ p e. e; gone = λ id p e. e; shut = λ p e. e; stays = sym h })
      (close_each-Shrinks m.sessions (record m { stopped = true }))

close-Shrinks : (id : String) (m : Manager) → Shrinks m (close id m).1
close-Shrinks id m = elim (Option-cases (lookup id m.sessions)) [
  | inl absent ↦
      subst (Shrinks m) (sym (ap (λ (r : Bool × Manager). r.1) (close_missing id m absent)))
        (Shrinks-refl m)
  | inr (p, e) ↦
      subst (Shrinks m) (sym (ap (λ (r : Bool × Manager). r.1) (close_found id p m e)))
        (close_at-Shrinks p m)
]

end_at-Shrinks : (p : ℕ) (m : Manager) → Shrinks m (end_at p m)
unfolding end_at
end_at-Shrinks p m = elim (Bool-cases (ltb p m.fresh)) [
  | inl made ↦ rw made (close_at-Shrinks p m)
  | inr unmade ↦ rw unmade (Shrinks-refl m)
]

create_stopped :
    (id : String) (now : ℕ) (launch : Option String) (m : Manager)
    → m.stopped ≡ true
    → (create id now launch m).1 ≡ m
unfolding create admit
create_stopped id now launch m h = elim (Bool-cases m.launcher) [
  | inl on ↦ rw (on, h)
  | inr off ↦ rw off
]

pub reap_stopped : (now : ℕ) (m : Manager) → m.stopped ≡ true → reap now m ≡ m
unfolding reap
reap_stopped now m h = rw h

after-IsQuiet : (m : Manager) (c : Call) → IsQuiet m → IsQuiet (after m c)
unfolding after input_at resize_at pump_at
after-IsQuiet m (creates id now launch) q =
    subst IsQuiet (sym (create_stopped id now launch m q.is_stopped)) q
after-IsQuiet m (closes id) q = Shrinks-IsQuiet m _ (close-Shrinks id m) q
after-IsQuiet m closes_all q = Shrinks-IsQuiet m _ (close_all-Shrinks m q.is_stopped) q
after-IsQuiet m (reaps now) q = subst IsQuiet (sym (reap_stopped now m q.is_stopped)) q
after-IsQuiet m (inputs p now) q = record { is_stopped = q.is_stopped; no_process = q.no_process }
after-IsQuiet m (resizes p now) q = record { is_stopped = q.is_stopped; no_process = q.no_process }
after-IsQuiet m (pumps p bytes) q = record { is_stopped = q.is_stopped; no_process = q.no_process }
after-IsQuiet m (ends p) q = Shrinks-IsQuiet m _ (end_at-Shrinks p m) q

run-IsQuiet : (cs : List Call) (m : Manager) → IsQuiet m → IsQuiet (run m cs)
unfolding run
run-IsQuiet [] m q = q
run-IsQuiet (c ∷ cs) m q = run-IsQuiet cs (after m c) (after-IsQuiet m c q)

-- After any calls that do not overlap on a new manager, with ids that are new, `CloseAll` leaves no
-- terminal process open, and none is open after any further calls either.
pub run-close_all :
    (launcher : Bool) (cap idle : ℤ) (before later : List Call)
    → NewIds (new_manager launcher cap idle) before
    → IsQuiet (run (close_all (run (new_manager launcher cap idle) before)) later)
run-close_all launcher cap idle before later n =
    run-IsQuiet later _ (close_all-IsQuiet _ (calls-IsValid launcher cap idle before n))
