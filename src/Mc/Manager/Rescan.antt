-- ===== src/Mc/Manager/Rescan.antt =====
-- internal/mc/manager.go: the discovery of servers.
use mathlib.Core.Path.{subst}
use control_panel.Base.{
  if_either, ◌≡◌, refl, sym, ap, ◌∙◌, Bool, true, false, not, ◌||◌, ◌&&◌, Option, none, some, List,
  [], ◌∷◌, ◌++◌, if◌then◌else◌, lookup, insert, lookup-insert, Distinct, Distinct-insert,
  lookup-keep, keep, ◌==◌, Bool-cases, inl, inr, arith,
}
use control_panel.Base.Text.{Text, text_eq, text_iff, starts_with}
use control_panel.Base.Text.Numbers.{chars}
use control_panel.Mc.Checks.{match_id}
use control_panel.Mc.Instance.{
  stopped, ResolvedCfg, Instance, new_instance, refresh_props, may_start,
}
use control_panel.Mc.Manager.{Manager, Files, resolve_cfg_locked}

-- An entry of the root directory.
pub record Entry : Type 0 where
  pub name : Text
  pub is_dir : Bool
  pub files : Files

abbrev pub any_jar : List Text → Bool
any_jar [] = false
any_jar (jar ∷ jars) = true

unfoldable pub looks_like_server : Files → Bool
looks_like_server f =
    f.has (chars "server.properties")
    || f.has (chars "server.jar")
    || f.has (chars "run.sh")
    || f.has (chars "eula.txt")
    || any_jar f.jars

unfoldable pub is_server : Entry → Bool
unfolding match_id looks_like_server
is_server e =
    e.is_dir && not (starts_with b'.' e.name) && match_id e.name && looks_like_server e.files

unfoldable pub seen : Text → List Entry → Bool
unfolding is_server
seen id [] = false
seen id (e ∷ es) = is_server e && (e.name == id) || seen id es

-- The server of an entry, new or with its settings read again.
abbrev pub discovered : Entry → Manager → Option Instance → Instance
discovered e m none =
    refresh_props e.files.properties
      (new_instance e.name (m.cfg.root ++ b'/' ∷ e.name) (resolve_cfg_locked e.name e.files m))
discovered e m (some s) = record s { cfg = resolve_cfg_locked e.name e.files m }

unfoldable pub visit : Entry → Manager → Manager
unfolding is_server lookup insert
visit e m =
    if is_server e
    then record m {
      instances = insert e.name (discovered e m (lookup e.name m.instances)) m.instances;
    }
    else m

unfoldable pub visit_all : List Entry → Manager → Manager
unfolding visit
visit_all [] m = m
visit_all (e ∷ es) m = visit_all es (visit e m)

-- Whether a server that was not stopped, or whose directory was seen, stays.
abbrev pub stays : List Entry → Text × Instance → Bool
stays es (id, s) = seen id es || not (may_start s.state)

unfoldable pub rescan : List Entry → Manager → Manager
unfolding visit_all seen
rescan es m = let n = visit_all es m in record n { instances = keep (stays es) n.instances }

-- What becomes of a server, if there was one, whose directory was seen or not.
abbrev Visited : Bool → Option Instance → Option Instance → Type 0
Visited false before after = after ≡ before
Visited true none after = (s : Instance) × (after ≡ some s) × (s.state ≡ stopped) × (s.proc ≡ none)
Visited true (some s) after = (cfg : ResolvedCfg) × (after ≡ some (record s { cfg = cfg }))

abbrev pub Rescanned : Bool → Option Instance → Option Instance → Type 0
Rescanned false none after = after ≡ none
Rescanned false (some s) after = after ≡ (if may_start s.state then none else some s)
Rescanned true none after =
    (s : Instance) × (after ≡ some s) × (s.state ≡ stopped) × (s.proc ≡ none)
Rescanned true (some s) after = (cfg : ResolvedCfg) × (after ≡ some (record s { cfg = cfg }))

refresh_props_state :
    (content : Option Text) (s : Instance)
    → ((refresh_props content s).state ≡ s.state) × ((refresh_props content s).proc ≡ s.proc)
unfolding refresh_props
refresh_props_state none s = (refl, refl)
refresh_props_state (some content) s = (refl, refl)

discovered-Visited :
    (e : Entry) (m : Manager) (o : Option Instance) → Visited true o (some (discovered e m o))
unfolding new_instance
discovered-Visited e m none =
    let f = refresh_props_state e.files.properties _ in (discovered e m none, refl, f.0, f.1)
discovered-Visited e m (some s) = (resolve_cfg_locked e.name e.files m, refl)

visit_found :
    (e : Entry) (m : Manager)
    → is_server e ≡ true
    → Visited true (lookup e.name m.instances) (lookup e.name (visit e m).instances)
unfolding visit
visit_found e m h =
    let o = lookup e.name m.instances in
    subst (Visited true o)
      (sym (
        ap
          (λ b.
            lookup e.name
              (if b
                then record m { instances = insert e.name (discovered e m o) m.instances }
                else m).instances)
          h
        ∙ ground (
          arith,
          lookup-insert e.name e.name (discovered e m o) m.instances,
          text_iff e.name e.name,
        )))
      (discovered-Visited e m o)

visit_other :
    (id : Text) (e : Entry) (m : Manager)
    → (is_server e && (e.name == id)) ≡ false
    → lookup id (visit e m).instances ≡ lookup id m.instances
unfolding visit
visit_other id e m h =
    if_either (λ (n : Manager). lookup id n.instances ≡ lookup id m.instances) (is_server e) _ m
      (λ server. ground (
        arith,
        h,
        server,
        lookup-insert e.name id (discovered e m (lookup e.name m.instances)) m.instances,
      ))
      (λ no. refl)

visit-Visited :
    (id : Text) (e : Entry) (m : Manager)
    → Visited
        (is_server e && (e.name == id))
        (lookup id m.instances)
        (lookup id (visit e m).instances)
visit-Visited id e m = elim (Bool-cases (is_server e && (e.name == id))) [
  | inr other ↦
      subst (λ b. Visited b (lookup id m.instances) (lookup id (visit e m).instances)) (sym other)
        (visit_other id e m other)
  | inl here ↦
      let same : e.name ≡ id = ground (arith, here, text_iff e.name id) in
      subst (λ b. Visited b (lookup id m.instances) (lookup id (visit e m).instances)) (sym here)
        (subst (λ j. Visited true (lookup j m.instances) (lookup j (visit e m).instances)) same
          (visit_found e m (ground (arith, here))))
]

Visited-trans :
    (a b : Bool) (x y z : Option Instance) → Visited a x y → Visited b y z → Visited (a || b) x z
Visited-trans false b x y z h k = subst (λ w. Visited b w z) h k
Visited-trans true false x y z h k = subst (Visited true x) (sym k) h
Visited-trans true true none y z (s, e, st, p) k =
    let (cfg, f) = subst (λ y. Visited true y z) e k in (record s { cfg = cfg }, f, st, p)
Visited-trans true true (some s) y z (cfg, e) k =
    let (cfg', f) = subst (λ y. Visited true y z) e k in (cfg', f)

visit_all-Visited :
    (id : Text) (es : List Entry) (m : Manager)
    → Visited (seen id es) (lookup id m.instances) (lookup id (visit_all es m).instances)
unfolding visit_all seen
visit_all-Visited id [] m = refl
visit_all-Visited id (e ∷ es) m =
    Visited-trans _ (seen id es) _ _ _ (visit-Visited id e m) (visit_all-Visited id es (visit e m))

visit_all-Distinct :
    (es : List Entry) (m : Manager) → Distinct m.instances → Distinct (visit_all es m).instances
unfolding visit_all visit
visit_all-Distinct [] m d = d
visit_all-Distinct (e ∷ es) m d = visit_all-Distinct es (visit e m) (
    if_either (λ (n : Manager). Distinct n.instances) (is_server e) _ m
      (λ h. Distinct-insert e.name _ m.instances d) (λ h. d))

abbrev filtered : Text → List Entry → Option Instance → Option Instance
filtered id es o = elim o [ none ↦ none | some s ↦ if stays es (id, s) then some s else none ]

filtered-seen :
    (id : Text) (es : List Entry) (s : Instance)
    → seen id es ≡ true
    → filtered id es (some s) ≡ some s
filtered-seen id es s h = ground (arith, h)

filtered_unseen :
    (id : Text) (es : List Entry) (s : Instance)
    → seen id es ≡ false
    → filtered id es (some s) ≡ (if may_start s.state then none else some s)
filtered_unseen id es s h = ground (arith, h)

kept-Rescanned :
    (id : Text) (es : List Entry) (b : Bool) (before after : Option Instance)
    → seen id es ≡ b
    → Visited b before after
    → Rescanned b before (filtered id es after)
kept-Rescanned id es false none after h v = ap (filtered id es) v
kept-Rescanned id es false (some s) after h v = ap (filtered id es) v ∙ filtered_unseen id es s h
kept-Rescanned id es true none after h (s, e, st, p) =
    (s, ap (filtered id es) e ∙ filtered-seen id es s h, st, p)
kept-Rescanned id es true (some s) after h (cfg, e) =
    (cfg, ap (filtered id es) e ∙ filtered-seen id es (record s { cfg = cfg }) h)

-- A rescan keeps every server whose directory it sees, with nothing but its settings changed, and every
-- other that is starting, running or stopping, unchanged; it drops the others, and lists what it sees for
-- the first time as stopped and without a process. Each server is listed once before.
pub rescan-Rescanned :
    (id : Text) (es : List Entry) (m : Manager)
    → Distinct m.instances
    → Rescanned (seen id es) (lookup id m.instances) (lookup id (rescan es m).instances)
unfolding rescan
rescan-Rescanned id es m d =
    subst (Rescanned (seen id es) (lookup id m.instances))
      (sym (lookup-keep (stays es) id (visit_all es m).instances (visit_all-Distinct es m d)))
      (kept-Rescanned id es (seen id es) (lookup id m.instances) _ refl (visit_all-Visited id es m))
