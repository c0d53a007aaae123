-- ===== src/Sched/Engine/Due.antt =====
-- Which schedules a tick runs.
use mathlib.Core.Path.{subst}
use control_panel.Base.{
  ℕ, ◌≡◌, refl, sym, ap, ◌∙◌, Bool, true, false, ◌&&◌, ◌||◌, List, [], ◌∷◌, ltb, leb, arith, All,
  keep, Bool-cases, inl, inr,
}
use control_panel.Sched.{Schedule}
use control_panel.Sched.Next.{unix_milli}
use control_panel.Sched.Engine.{Engine, put, is_due, collect, start_tick}
use control_panel.Sched.Engine.Shared.{Other, AllDistinct, Other-sym}

-- Due by the clock, not by `RunNow`.
abbrev pub scheduled : ℕ → Schedule → Bool
scheduled now s = s.enabled && ltb 0 s.next_run && leb s.next_run now

abbrev cleared : ℕ → (ℕ → Schedule) → ℕ → Schedule
cleared p at = put p (record (at p) { run_now = false }) at

keep-due :
    (now p : ℕ) (at : ℕ → Schedule) (s : Schedule) (ps : List ℕ)
    → All (Other p) ps
    → keep (λ q. is_due now (put p s at q)) ps ≡ keep (λ q. is_due now (at q)) ps
keep-due now p at s [] h = refl
keep-due now p at s (q ∷ ps) h = rw (h.0, keep-due now p at s ps h.1)

collect_due :
    (now : ℕ) (ps : List ℕ) (at : ℕ → Schedule)
    → AllDistinct ps
    → (collect now ps at).0 ≡ keep (λ p. is_due now (at p)) ps
unfolding collect
collect_due now [] at d = refl
collect_due now (p ∷ ps) at d = elim (Bool-cases (is_due now (at p))) [
  | inl hit ↦
      rw hit
        (ap (λ qs. p ∷ qs) (collect_due now ps (cleared p at) d.1 ∙ keep-due now p at _ ps d.0))
  | inr miss ↦ rw miss (collect_due now ps at d.1)
]

-- A schedule that is not looked at is left alone.
collect-Other :
    (now : ℕ) (ps : List ℕ) (at : ℕ → Schedule) (q : ℕ)
    → All (Other q) ps
    → (collect now ps at).1 q ≡ at q
unfolding collect
collect-Other now [] at q h = refl
collect-Other now (p ∷ ps) at q h = elim (Bool-cases (is_due now (at p))) [
  | inl hit ↦ rw hit (collect-Other now ps (cleared p at) q h.1 ∙ rw (Other-sym q p h.0))
  | inr miss ↦ rw miss (collect-Other now ps at q h.1)
]

abbrev Spent : ℕ → (ℕ → Schedule) → (ℕ → Schedule) → ℕ → Type 0
Spent now at at' q = is_due now (at' q) ≡ scheduled now (at q)

spent_once : (now : ℕ) (s : Schedule) → is_due now (record s { run_now = false }) ≡ scheduled now s
unfolding is_due
spent_once now s = refl

not_due : (now : ℕ) (s : Schedule) → is_due now s ≡ false → is_due now s ≡ scheduled now s
unfolding is_due
not_due now s h = ground arith

Spent-put :
    (now p : ℕ) (s : Schedule) (at at' : ℕ → Schedule) (ps : List ℕ)
    → All (Other p) ps
    → All (Spent now (put p s at) at') ps
    → All (Spent now at at') ps
Spent-put now p s at at' [] h k = tt
Spent-put now p s at at' (q ∷ ps) h k = (rw h.0 at k.0, Spent-put now p s at at' ps h.1 k.1)

collect_hit :
    (now p : ℕ) (ps : List ℕ) (at : ℕ → Schedule)
    → is_due now (at p) ≡ true
    → (collect now (p ∷ ps) at).1 ≡ (collect now ps (cleared p at)).1
unfolding collect
collect_hit now p ps at hit = rw hit

collect_miss :
    (now p : ℕ) (ps : List ℕ) (at : ℕ → Schedule)
    → is_due now (at p) ≡ false
    → (collect now (p ∷ ps) at).1 ≡ (collect now ps at).1
unfolding collect
collect_miss now p ps at miss = rw miss

put_self : (p : ℕ) (s : Schedule) (at : ℕ → Schedule) → put p s at p ≡ s
put_self p s at = ground arith

collect-Spent :
    (now : ℕ) (ps : List ℕ) (at : ℕ → Schedule)
    → AllDistinct ps
    → All (Spent now at (collect now ps at).1) ps
collect-Spent now [] at d = tt
collect-Spent now (p ∷ ps) at d =
    let s = record (at p) { run_now = false } in
    elim (Bool-cases (is_due now (at p))) [
      | inl hit ↦
          subst (λ at'. All (Spent now at at') (p ∷ ps)) (sym (collect_hit now p ps at hit))
            (
              ap (is_due now) (collect-Other now ps (cleared p at) p d.0 ∙ put_self p s at)
                  ∙ spent_once now (at p),
              Spent-put now p s at _ ps d.0 (collect-Spent now ps (cleared p at) d.1),
            )
      | inr miss ↦
          subst (λ at'. All (Spent now at at') (p ∷ ps)) (sym (collect_miss now p ps at miss))
            (
              ap (is_due now) (collect-Other now ps at p d.0) ∙ not_due now (at p) miss,
              collect-Spent now ps at d.1,
            )
    ]

keep-Spent :
    (now : ℕ) (at at' : ℕ → Schedule) (ps : List ℕ)
    → All (Spent now at at') ps
    → keep (λ q. is_due now (at' q)) ps ≡ keep (λ q. scheduled now (at q)) ps
keep-Spent now at at' [] h = refl
keep-Spent now at at' (q ∷ ps) h = rw (h.0, keep-Spent now at at' ps h.1)

-- If no schedule is listed twice, a tick runs, in the order of the list, exactly the schedules that
-- are enabled with a next run that has come or that `RunNow` has asked for; asked again at the same instant before any has run, it
-- runs only those whose time has come, since a request of `RunNow` is used up.
pub start_tick_twice :
    (now : ℕ) (e : Engine)
    → AllDistinct e.items
    → ((start_tick now e).0
        ≡ keep (λ p. (e.at p).run_now || scheduled (unix_milli now) (e.at p)) e.items)
      × ((start_tick now (start_tick now e).1).0
          ≡ keep (λ p. scheduled (unix_milli now) (e.at p)) e.items)
unfolding start_tick is_due
start_tick_twice now e d =
    let ms = unix_milli now in
    let at = (collect ms e.items e.at).1 in
    (
      collect_due ms e.items e.at d,
      collect_due ms e.items at d ∙ keep-Spent ms e.at at e.items (collect-Spent ms e.items e.at d),
    )
