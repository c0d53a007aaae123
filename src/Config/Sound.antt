-- ===== src/Config/Sound.antt =====
-- internal/config/config.go: what a configuration that validate accepts satisfies.
use mathlib.Core.Path.{subst}
use control_panel.Base.{
  ◌≡◌, ◌≢◌, refl, sym, ap, ◌∙◌, ◌⊎◌, inl, inr, Bool, true, false, ◌||◌, Option, none, some, List,
  [], ◌∷◌, if◌then◌else◌, ℤ, pos, ◌≤ℤ◌, All, Bool-cases, arith,
}
use control_panel.Base.Text.{Text, text_test, text_iff, is_empty, starts_with}
use control_panel.Base.Text.Lines.{Lacks}
use control_panel.Base.Text.Numbers.{chars}
use control_panel.Config.{
  Config, FilesRoot, Net, Invalid, listen_is_loopback, check_mode, check_tls, check_roots,
  check_apps, bad_name, is_seen, error_of, first_error, same, half_tls, normalize, validate,
  unless_error, default_number,
}

-- The name of a root is one segment of a path, and its path is absolute.
pub record IsRoot (r : FilesRoot) : Type 0 where
  pub filled : r.name ≢ []
  pub no_slash : Lacks b'/' r.name
  pub no_backslash : Lacks b'\\' r.name
  pub not_here : r.name ≢ chars "."
  pub not_up : r.name ≢ chars ".."
  pub absolute : starts_with b'/' r.path ≡ true

abbrev pub Unlike : Text → FilesRoot → Type 0
Unlike name r = r.name ≢ name

-- No two roots have a name in common.
abbrev pub Apart : List FilesRoot → Type 0
Apart [] = Unit
Apart (r ∷ rs) = All (Unlike r.name) rs × Apart rs

pub record IsSound (net : Net) (c : Config) : Type 0 where
  pub mode :
      (c.auth_mode ≡ chars "password")
      ⊎ ((c.auth_mode ≡ chars "none") × ((listen_is_loopback net c || c.allow_remote_none) ≡ true))
  pub session_hours : pos 1 ≤ℤ c.session_hours
  pub metrics_interval_ms : pos 250 ≤ℤ c.metrics_interval_ms
  pub metrics_history : (pos 60 ≤ℤ c.metrics_history) × (c.metrics_history ≤ℤ pos 3600)
  pub fans_interval_ms : pos 500 ≤ℤ c.fans_interval_ms
  pub terminal_idle_timeout_min : pos 1 ≤ℤ c.terminal_idle_timeout_min
  pub terminal_max_sessions :
      (pos 1 ≤ℤ c.terminal_max_sessions) × (c.terminal_max_sessions ≤ℤ pos 8)
  pub tls : is_empty c.tls_cert ≡ is_empty c.tls_key
  pub roots : All IsRoot c.files_roots
  pub names : Apart c.files_roots

test_ne : (s t : Text) → text_test s t ≡ false → s ≢ t
test_ne s t h e = clash (sym ((text_iff s t).1 e) ∙ h)
  where
    clash : true ≡ false → ⊥
    clash h = cc

filled_ne : (s : Text) → is_empty s ≡ false → s ≢ []
filled_ne s h e = clash (sym (ap is_empty e) ∙ h)
  where
    clash : true ≡ false → ⊥
    clash h = cc

-- The tests that a root passes.
record Passed (seen : List Text) (r : FilesRoot) (rs : List FilesRoot) : Type 0 where
  filled : is_empty r.name ≡ false
  good : bad_name r.name ≡ false
  new : is_seen r.name seen ≡ false
  absolute : starts_with b'/' r.path ≡ true
  later : check_roots (r.name ∷ seen) rs ≡ none

check_roots-Passed :
    (seen : List Text) (r : FilesRoot) (rs : List FilesRoot)
    → check_roots seen (r ∷ rs) ≡ none
    → Passed seen r rs
unfolding check_roots
check_roots-Passed seen r rs h = record {
  filled = ground (arith, h);
  good = ground (arith, h);
  new = ground (arith, h);
  absolute = ground (arith, h);
  later = ground (arith, h);
}

Passed-IsRoot :
    (seen : List Text) (r : FilesRoot) (rs : List FilesRoot) → Passed seen r rs → IsRoot r
Passed-IsRoot seen r rs p = record {
  filled = filled_ne r.name p.filled;
  no_slash = ground (arith, p.good);
  no_backslash = ground (arith, p.good);
  not_here = test_ne r.name (chars ".") (ground (arith, p.good));
  not_up = test_ne r.name (chars "..") (ground (arith, p.good));
  absolute = p.absolute;
}

roots-IsRoot : (seen : List Text) (rs : List FilesRoot) → check_roots seen rs ≡ none → All IsRoot rs
roots-IsRoot seen [] h = tt
roots-IsRoot seen (r ∷ rs) h =
    let p = check_roots-Passed seen r rs h in
    (Passed-IsRoot seen r rs p, roots-IsRoot (r.name ∷ seen) rs p.later)

-- A name that has been seen is none of those that follow.
roots-Unlike :
    (name : Text) (seen : List Text) (rs : List FilesRoot)
    → is_seen name seen ≡ true
    → check_roots seen rs ≡ none
    → All (Unlike name) rs
roots-Unlike name seen [] s h = tt
roots-Unlike name seen (r ∷ rs) s h =
    let p = check_roots-Passed seen r rs h in
    (
      λ e. clash (sym s ∙ ap (λ n. is_seen n seen) (sym e) ∙ p.new),
      roots-Unlike name (r.name ∷ seen) rs (ground (arith, s)) p.later,
    )
  where
    clash : true ≡ false → ⊥
    clash h = cc

roots-Apart : (seen : List Text) (rs : List FilesRoot) → check_roots seen rs ≡ none → Apart rs
roots-Apart seen [] h = tt
roots-Apart seen (r ∷ rs) h =
    let p = check_roots-Passed seen r rs h in
    (
      roots-Unlike r.name (r.name ∷ seen) rs (ground (arith, text_iff r.name r.name)) p.later,
      roots-Apart (r.name ∷ seen) rs p.later,
    )

pub first_error-none : (a b : Option Invalid) → first_error a b ≡ none → (a ≡ none) × (b ≡ none)
first_error-none none b h = (refl, h)
first_error-none (some why) b h = cc

positive_number : (default v : ℤ) → pos 1 ≤ℤ default → pos 1 ≤ℤ default_number default v
positive_number default v h = ground (arith, h)

pub unless_error-none :
    (o : Option Invalid) (c d : Config) → unless_error o c ≡ inr d → (o ≡ none) × (c ≡ d)
unless_error-none none c d h = (refl, cc)
unless_error-none (some why) c d h = cc

mode_sound :
    (net : Net) (c : Config)
    → check_mode net c ≡ none
    → let m = (normalize c).auth_mode in
      (m ≡ chars "password")
      ⊎ ((m ≡ chars "none") × ((listen_is_loopback net c || c.allow_remote_none) ≡ true))
unfolding check_mode normalize
mode_sound net c h = elim (Bool-cases (is_empty c.auth_mode)) [
  | inl unset ↦ inl (rw unset)
  | inr other ↦ elim (Bool-cases (text_test c.auth_mode (chars "password"))) [
    | inl password ↦
        inl
          (ap (λ b. if b then chars "password" else c.auth_mode) other ∙ (text_iff _ _).0 password)
    | inr remote ↦ inr (
      ap (λ b. if b then chars "password" else c.auth_mode) other
          ∙ (text_iff _ _).0 (ground (arith, h, other, remote)),
      ground (arith, h, other, remote),
    )
  ]
]

-- What the checks that no later one repeats say.
pub record Checked (net : Net) (c : Config) : Type 0 where
  pub mode : check_mode net c ≡ none
  pub tls : check_tls c ≡ none
  pub roots : check_roots [] c.files_roots ≡ none
  pub apps : check_apps c.apps ≡ none

pub error_of-Checked : (net : Net) (c : Config) → error_of net c ≡ none → Checked net c
unfolding error_of
error_of-Checked net c h =
    let (mode, h1) = first_error-none _ _ h in
    let (proxies, h2) = first_error-none _ _ h1 in
    let (tls, h3) = first_error-none _ _ h2 in
    let (roots, h4) = first_error-none _ _ h3 in
    let (repo, h5) = first_error-none _ _ h4 in
    record { mode = mode; tls = tls; roots = roots; apps = (first_error-none _ _ h5).0 }

same_none : (a b : Bool) → (if same a b then none else some half_tls) ≡ none → a ≡ b
same_none true true h = refl
same_none true false h = cc
same_none false true h = cc
same_none false false h = refl

normalize-IsSound : (net : Net) (c : Config) → Checked net c → IsSound net (normalize c)
unfolding normalize listen_is_loopback
normalize-IsSound net c k = record {
  mode = mode_sound net c k.mode;
  session_hours = positive_number (pos 168) c.session_hours (omega arith);
  metrics_interval_ms = ground arith;
  metrics_history = (ground arith, ground arith);
  fans_interval_ms = ground arith;
  terminal_idle_timeout_min = positive_number (pos 15) c.terminal_idle_timeout_min (omega arith);
  terminal_max_sessions = (ground arith, ground arith);
  tls = same_none _ _ k.tls;
  roots = roots-IsRoot [] c.files_roots k.roots;
  names = roots-Apart [] c.files_roots k.roots;
}

-- A configuration that is accepted comes out sound: it has passwords, or is open only on a loopback
-- address or where that was asked for; the periods, the history, the sessions of the terminal and their
-- timeout are within their limits; a certificate comes with a key; and the roots of the file browser
-- have absolute paths and names that differ and are single segments of a path.
pub validate-IsSound : (net : Net) (c d : Config) → validate net c ≡ inr d → IsSound net d
unfolding validate
validate-IsSound net c d h =
    let (ok, same) = unless_error-none (error_of net c) (normalize c) d h in
    subst (IsSound net) same (normalize-IsSound net c (error_of-Checked net c ok))
