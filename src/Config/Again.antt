-- ===== src/Config/Again.antt =====
-- internal/config/config.go: a configuration that has been validated is left as it is.
use mathlib.Core.Path.{subst}
use control_panel.Base.{
  ◌≡◌, refl, ap, ◌∙◌, inr, true, false, Option, none, List, [], ◌∷◌, ◌++◌, if◌then◌else◌, ℤ, pos,
  arith, ◌≤ℤ◌,
}
use control_panel.Base.Text.{Text, is_empty}
use control_panel.Base.Text.Numbers.{chars}
use control_panel.Config.{
  Config, App, Net, Invalid, check_mode, check_proxies, check_tls, check_roots, check_repo,
  check_qbittorrent, check_apps, error_of, first_error, normalize, validate, unless_error,
  default_number, default_text, at_least, at_most, is_zero, name_apps, capitalized, valid_app_types,
  listen_is_loopback,
}
use control_panel.Config.Sound.{unless_error-none, first_error-none, error_of-Checked}

default_text_twice :
    (d s : Text) → is_empty d ≡ false → default_text d (default_text d s) ≡ default_text d s
default_text_twice d s h = ground (arith, h)

at_least_twice : (low v : ℤ) → at_least low (at_least low v) ≡ at_least low v
at_least_twice low v = ground arith

history_twice :
    (v : ℤ)
    → let h = at_most (pos 3600) (at_least (pos 60) v) in
      at_most (pos 3600) (at_least (pos 60) h) ≡ h
history_twice v = ground arith

fans_twice :
    (v : ℤ)
    → let set = λ (v : ℤ). at_least (pos 500) (if is_zero v then pos 2000 else v) in
      set (set v) ≡ set v
fans_twice v = ground arith

default_number_twice :
    (d v : ℤ) → pos 1 ≤ℤ d → default_number d (default_number d v) ≡ default_number d v
default_number_twice d v h = ground (arith, h)

sessions_twice :
    (v : ℤ) → let set = λ (v : ℤ). at_most (pos 8) (default_number (pos 2) v) in set (set v) ≡ set v
sessions_twice v = ground arith

backup_filled : (root : Text) → is_empty (root ++ chars "/.backups") ≡ false
backup_filled [] = refl
backup_filled (c ∷ root) = refl

type_filled : (t : Text) → valid_app_types t ≡ true → is_empty (capitalized t) ≡ false
type_filled [] h = cc
type_filled (c ∷ t) h = refl

name_apps_twice :
    (apps : List App) → check_apps apps ≡ none → name_apps (name_apps apps) ≡ name_apps apps
unfolding name_apps check_apps
name_apps_twice [] h = refl
name_apps_twice (a ∷ apps) h =
    let filled : is_empty (capitalized a.type) ≡ false = type_filled a.type (ground (arith, h)) in
    rw (
      default_text_twice (capitalized a.type) a.name filled,
      name_apps_twice apps (ground (arith, h)),
    )

check_apps_named : (apps : List App) → check_apps (name_apps apps) ≡ check_apps apps
unfolding check_apps name_apps
check_apps_named [] = refl
check_apps_named (a ∷ apps) = rw (check_apps_named apps)

mode_again :
    (net : Net) (c : Config) → check_mode net c ≡ none → check_mode net (normalize c) ≡ none
unfolding check_mode normalize listen_is_loopback
mode_again net c h = ground (arith, h)

mode_twice :
    (m : Text)
    → let set = λ (m : Text). if is_empty m then chars "password" else m in set (set m) ≡ set m
mode_twice [] = refl
mode_twice (c ∷ m) = refl

normalize_twice : (c : Config) → check_apps c.apps ≡ none → normalize (normalize c) ≡ normalize c
unfolding normalize
normalize_twice c h = rw (
  mode_twice c.auth_mode,
  default_number_twice (pos 168) c.session_hours (omega arith),
  at_least_twice (pos 250) c.metrics_interval_ms,
  history_twice c.metrics_history,
  default_text_twice (c.minecraft_root ++ chars "/.backups") c.minecraft_backup_dir
      (backup_filled c.minecraft_root),
  default_text_twice (chars "java") c.minecraft_java refl,
  fans_twice c.fans_interval_ms,
  default_number_twice (pos 15) c.terminal_idle_timeout_min (omega arith),
  sessions_twice c.terminal_max_sessions,
  name_apps_twice c.apps h,
)

-- The checks after that of the mode.
abbrev rest : Net → Config → List App → Option Invalid
rest net c apps = first_error (check_proxies net c.trusted_proxies) (
    first_error (check_tls c) (
      first_error (check_roots [] c.files_roots) (
        first_error (check_repo c.update_repo)
          (first_error (check_apps apps) (check_qbittorrent c.qbittorrent_url)))))

error_again : (net : Net) (c : Config) → error_of net c ≡ none → error_of net (normalize c) ≡ none
unfolding error_of normalize
error_again net c h =
    let (mode, later) = first_error-none (check_mode net c) (rest net c c.apps) h in
    ap (λ o. first_error o (rest net c (name_apps c.apps))) (mode_again net c mode)
    ∙ rest_named (check_apps_named c.apps)
    ∙ later
  where
    rest_named :
        check_apps (name_apps c.apps) ≡ check_apps c.apps
        → rest net c (name_apps c.apps) ≡ rest net c c.apps
    rest_named e =
        ap
          (λ o. first_error (check_proxies net c.trusted_proxies) (
            first_error (check_tls c) (
              first_error (check_roots [] c.files_roots) (
                first_error (check_repo c.update_repo)
                  (first_error o (check_qbittorrent c.qbittorrent_url))))))
          e

-- A configuration that is accepted, validated again, is accepted and comes out the same.
pub validate_twice : (net : Net) (c d : Config) → validate net c ≡ inr d → validate net d ≡ inr d
unfolding validate
validate_twice net c d h =
    let (ok, same) = unless_error-none (error_of net c) (normalize c) d h in
    subst (λ d. unless_error (error_of net d) (normalize d) ≡ inr d) same
      (ap (λ o. unless_error o (normalize (normalize c))) (error_again net c ok)
        ∙ ap inr (normalize_twice c (error_of-Checked net c ok).apps))
