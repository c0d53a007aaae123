-- ===== src/Term/Manager/Race.antt =====
-- internal/term/term.go: two calls of the manager that overlap. Create lets go of the mutex while the
-- launcher starts the process, so its two critical sections may have other calls between them.
use control_panel.Base.{
  ℕ, ◌≡◌, refl, sym, ap, ◌∙◌, true, none, some, String, List, [], ◌∷◌, lookup, insert,
  lookup-insert, string_eq, str_iff, arith,
}
use control_panel.Base.Store.{write_self}
use control_panel.Term.Manager.{Manager, admit, insert_session, close_all, reap}
use control_panel.Term.Manager.Valid.{IsValid}
use control_panel.Term.Manager.Closed.{reap_stopped, close_all-IsQuiet}

-- Ticks of `reap`, at the times given.
unfoldable pub reap_all : List ℕ → Manager → Manager
reap_all [] m = m
reap_all (now ∷ rest) m = reap_all rest (reap now m)

reap_all_stopped : (ticks : List ℕ) (m : Manager) → m.stopped ≡ true → reap_all ticks m ≡ m
unfolding reap_all
reap_all_stopped [] m h = refl
reap_all_stopped (now ∷ rest) m h =
    ap (reap_all rest) (reap_stopped now m h) ∙ reap_all_stopped rest m h

-- Where `CloseAll` comes between the two critical sections of a `Create` that was let in, the manager
-- is stopped, yet the new session is listed with its process open, and no tick of `reap` closes it,
-- however late.
pub insert_session-close_all :
    (id : String) (now : ℕ) (ticks : List ℕ) (m : Manager)
    → IsValid m
    → admit m ≡ none
    → let n = reap_all ticks (insert_session id now (close_all m)) in
      (n.stopped ≡ true)
      × (lookup id n.sessions ≡ some (close_all m).fresh)
      × (n.proc_open (close_all m).fresh ≡ true)
unfolding insert_session
insert_session-close_all id now ticks m v a =
    let k = close_all m in
    let q = close_all-IsQuiet m v in
    let n = insert_session id now k in
    let same = sym (reap_all_stopped ticks n q.is_stopped) in
    (
      ap (λ (n : Manager). n.stopped) (sym same) ∙ q.is_stopped,
      ap (λ (n : Manager). lookup id n.sessions) (sym same) ∙ inserted k,
      ap (λ (n : Manager). n.proc_open k.fresh) (sym same) ∙ write_self k.fresh true k.proc_open,
    )
  where
    inserted : (k : Manager) → lookup id (insert id k.fresh k.sessions) ≡ some k.fresh
    inserted k = ground (arith, str_iff id id, lookup-insert id id k.fresh k.sessions)
