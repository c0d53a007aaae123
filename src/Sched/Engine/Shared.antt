-- ===== src/Sched/Engine/Shared.antt =====
-- A schedule that is deleted while it runs.
use mathlib.Core.List.{map}
use mathlib.Core.Path.{subst, ap₂}
use mathlib.Core.Option.{some-injective}
use control_panel.Base.{
  ℕ, ◌≡◌, refl, sym, ap, ◌∙◌, false, Option, none, some, String, List, [], ◌∷◌, nat_beq, ◌==◌,
  string_eq, ℤ, arith, All, Bool-cases, inl, inr,
}
use control_panel.Sched.{Schedule}
use control_panel.Sched.Next.{Calendar}
use control_panel.Sched.Engine.{
  Engine, put, persisted, save_locked, find_item, without, delete, settle, finish_run,
}

abbrev pub Other : ℕ → ℕ → Type 0
Other p q = nat_beq p q ≡ false

-- No schedule is listed twice.
abbrev pub AllDistinct : List ℕ → Type 0
AllDistinct [] = Unit
AllDistinct (p ∷ ps) = All (Other p) ps × AllDistinct ps

-- What is listed.
abbrev pub listed : Engine → List Schedule
listed e = map e.at e.items

map-put :
    (p : ℕ) (s : Schedule) (at : ℕ → Schedule) (ps : List ℕ)
    → All (Other p) ps
    → map (put p s at) ps ≡ map at ps
map-put p s at [] h = refl
map-put p s at (q ∷ ps) h = rw (h.0, map-put p s at ps h.1)

pub Other-sym : (p q : ℕ) → Other p q → Other q p
Other-sym p q h = ground arith

find_item-All :
    (id : String) (ps : List ℕ) (at : ℕ → Schedule) (p q : ℕ)
    → All (Other q) ps
    → find_item id ps at ≡ some p
    → Other q p
unfolding find_item
find_item-All id [] at p q h e = cc
find_item-All id (r ∷ ps) at p q h e = elim (Bool-cases ((at r).id == id)) [
  | inl hit ↦ ground (arith, h.0)
  | inr miss ↦ find_item-All id ps at p q h.1 (rw miss at e)
]

without-All :
    (id : String) (ps : List ℕ) (at : ℕ → Schedule) (p : ℕ)
    → AllDistinct ps
    → find_item id ps at ≡ some p
    → All (Other p) (without id ps at)
unfolding find_item without
without-All id [] at p d e = tt
without-All id (r ∷ ps) at p d e = elim (Bool-cases ((at r).id == id)) [
  | inl hit ↦ rw hit (subst (λ k. All (Other k) ps) (some-injective _ _ (rw hit at e)) d.0)
  | inr miss ↦ rw miss (
    Other-sym r p (find_item-All id ps at p r d.0 (rw miss at e)),
    without-All id ps at p d.1 (rw miss at e),
  )
]

delete_lem :
    (id : String) (saved : Option String) (e : Engine) (p : ℕ)
    → find_item id e.items e.at ≡ some p
    → ((delete id saved e).1.at ≡ e.at) × ((delete id saved e).1.items ≡ without id e.items e.at)
unfolding delete
delete_lem id none e p h = ground arith
delete_lem id (some why) e p h = ground arith

module _ (cal : Calendar) (parse_duration : String → Option ℤ) (trim_space : String → String) where
  map-persisted :
      (p : ℕ) (s : Schedule) (at : ℕ → Schedule) (ps : List ℕ)
      → All (Other p) ps
      → map (λ q. persisted (put p s at q)) ps ≡ map persisted (map at ps)
  map-persisted p s at [] h = refl
  map-persisted p s at (q ∷ ps) h = rw (h.0, map-persisted p s at ps h.1)

  finish_run-Other :
      (p now : ℕ) (detail : String) (err : Option String) (e : Engine) (s : Schedule)
      → All (Other p) e.items
      → settle cal parse_duration trim_space now detail err (e.at p) ≡ some s
      → (e' : Engine) × (finish_run cal parse_duration trim_space p now detail err none e ≡ some e')
        × (e'.items ≡ e.items)
        × (listed e' ≡ listed e)
        × (e'.file ≡ map persisted (listed e))
  unfolding finish_run
  finish_run-Other p now detail err e s h k = (
    (save_locked none (record e { at = put p s e.at })).1,
    ap
        (λ o. elim o [
          | none ↦ none
          | some s ↦ some (save_locked none (record e { at = put p s e.at })).1
        ])
        k,
    refl,
    map-put p s e.at e.items h,
    map-persisted p s e.at e.items h,
  )

  -- A schedule that is deleted while it runs is not brought back, and no other changes, when its run
  -- ends without a panic and the file is written: the engine lists, and the file holds, the
  -- schedules that the deletion left, as they were, if no schedule was listed twice.
  pub finish_run-delete :
      (id : String) (p now : ℕ) (detail : String) (err saved : Option String) (e : Engine)
      (s : Schedule)
      → AllDistinct e.items
      → find_item id e.items e.at ≡ some p
      → settle cal parse_duration trim_space now detail err (e.at p) ≡ some s
      → (e' : Engine) × (finish_run cal parse_duration trim_space p now detail err none
            (delete id saved e).1
          ≡ some e')
        × (e'.items ≡ without id e.items e.at)
        × (listed e' ≡ map e.at (without id e.items e.at))
        × (e'.file ≡ map persisted (map e.at (without id e.items e.at)))
  finish_run-delete id p now detail err saved e s d f k =
      let e0 = (delete id saved e).1 in
      let (a, i) = delete_lem id saved e p f in
      let (e', r, same, list, file) =
        finish_run-Other p now detail err e0 s
          (subst (All (Other p)) (sym i) (without-All id e.items e.at p d f))
          (ap (λ (at : ℕ → Schedule). settle cal parse_duration trim_space now detail err (at p)) a
            ∙ k) in
      let left : listed e0 ≡ map e.at (without id e.items e.at) = ap₂ map a i in
      (e', r, same ∙ i, list ∙ left, file ∙ ap (map persisted) left)
