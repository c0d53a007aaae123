-- ===== src/Term/Manager/Created.antt =====
-- internal/term/term.go: a new manager, Create, and the calls of a session's methods keep the manager valid.
use mathlib.Core.Option.{some-injective}
use control_panel.Base.{
  ℕ, ◌<◌, ◌≡◌, refl, sym, ap, ◌∙◌, Bool, false, Option, none, some, Bool-cases, inl, inr, String,
  length, lookup, string_eq, str_iff, nat_beq, nat_beq_iff, arith, Distinct-insert, lookup-insert,
  length-insert_new, ℤ,
}
use control_panel.Base.Store.{write, write_self}
use control_panel.Term.Session.{Session, new_session, input}
use control_panel.Term.Manager.{
  Manager, new_manager, admit, insert_session, create, created, Refusal, at_session,
}
use control_panel.Term.Manager.Valid.{IsValid}

insert_session-IsValid :
    (id : String) (now : ℕ) (m : Manager)
    → length m.sessions < m.max_sessions
    → lookup id m.sessions ≡ none
    → IsValid m
    → IsValid (insert_session id now m)
unfolding insert_session
insert_session-IsValid id now m room none_yet v = record {
  capped = omega (arith, length-insert_new id m.fresh m.sessions none_yet, room);
  distinct = Distinct-insert id m.fresh m.sessions v.distinct;
  listed = λ j q h. ground (
    arith,
    lookup-insert id j m.fresh m.sessions,
    v.listed j q,
    str_iff id j,
    nat_beq_iff m.fresh q,
    h,
    write_self m.fresh (new_session id now) m.at,
    some-injective m.fresh q,
    new_session_fields id now,
    ap (write m.fresh (new_session id now) m.at) {x = m.fresh} {y = q},
  );
  held = λ q h. elim (Bool-cases (nat_beq m.fresh q)) [
    | inl same ↦
        let e = (nat_beq_iff m.fresh q).0 same in
        let f = new_session_fields id now in
        rw same (
          omega (arith, e),
          f.1,
          rw f.0 (lookup-insert id id m.fresh m.sessions ∙ rw ((str_iff id id).1 refl) (ap some e)),
        )
    | inr other ↦
        let w = v.held q (rw other at h) in
        rw other (
          omega (arith, w.0),
          w.1,
          ground (
            arith,
            lookup-insert id (m.at q).id m.fresh m.sessions,
            str_iff id (m.at q).id,
            w.2,
            none_yet,
            ap (λ k. lookup k m.sessions) {x = id} {y = (m.at q).id},
          ),
        )
  ];
  alive = λ q a b. ground (arith, v.alive q, nat_beq_iff m.fresh q);
}
  where
    new_session_fields :
        (id : String) (now : ℕ)
        → ((new_session id now).id ≡ id) × ((new_session id now).exited ≡ false)
    new_session_fields id now = unfold new_session in (refl, refl)

-- A change of a session that leaves its id and whether it has ended.
pub at_session-IsValid :
    (p : ℕ) (s : Session) (m : Manager)
    → s.id ≡ (m.at p).id
    → s.exited ≡ (m.at p).exited
    → IsValid m
    → IsValid (at_session p s m)
at_session-IsValid p s m i x v = record {
  capped = v.capped;
  distinct = v.distinct;
  listed = λ id q h.
      ground (arith, v.listed id q h, nat_beq_iff p q, ap (λ k. (m.at k).id) {x = p} {y = q});
  held = λ q h.
      let w = v.held q h in
      (w.0, same_exited q ∙ w.1, ap (λ k. lookup k m.sessions) (same_id q) ∙ w.2);
  alive = λ q a b. v.alive q a (sym (same_exited q) ∙ b);
}
  where
    same_id : (q : ℕ) → (write p s m.at q).id ≡ (m.at q).id
    same_id q = elim (Bool-cases (nat_beq p q)) [
      | inl same ↦ rw same (i ∙ ap (λ k. (m.at k).id) ((nat_beq_iff p q).0 same))
      | inr other ↦ rw other
    ]

    same_exited : (q : ℕ) → (write p s m.at q).exited ≡ (m.at q).exited
    same_exited q = elim (Bool-cases (nat_beq p q)) [
      | inl same ↦ rw same (x ∙ ap (λ k. (m.at k).exited) ((nat_beq_iff p q).0 same))
      | inr other ↦ rw other
    ]

pub input_fields :
    (now : ℕ) (s : Session) → ((input now s).1.id ≡ s.id) × ((input now s).1.exited ≡ s.exited)
unfolding input
input_fields now s = (ground arith, ground arith)

pub new_manager-IsValid : (launcher : Bool) (cap idle : ℤ) → IsValid (new_manager launcher cap idle)
unfolding new_manager lookup
new_manager-IsValid launcher cap idle = record {
  capped = omega arith;
  distinct = tt;
  listed = λ id p h. absurd (clash h);
  held = λ p h. absurd (cc);
  alive = λ p h. absurd (omega arith);
}
  where
    clash : {p : ℕ} → none ≡ some p → ⊥
    clash h = cc

admit_room : (m : Manager) → admit m ≡ none → length m.sessions < m.max_sessions
unfolding admit
admit_room m h = ground arith

pub create-IsValid :
    (id : String) (now : ℕ) (launch : Option String) (m : Manager)
    → lookup id m.sessions ≡ none
    → IsValid m
    → IsValid (create id now launch m).1
unfolding create
create-IsValid id now launch m free v = go (admit m) refl launch
  where
    go : (o : Option Refusal) → admit m ≡ o → (l : Option String) → IsValid (created id now m o l).1
    go (some why) e l = v
    go none e (some why) = v
    go none e none = insert_session-IsValid id now m (admit_room m e) free v
