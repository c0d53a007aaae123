-- ===== src/Config.antt =====
-- internal/config/config.go: the checks and the defaults of a configuration that has been read. What
-- package net says of addresses is an interface. Fields that are only handed on are left out.
pub mod Sound
pub mod Again
use control_panel.Base.{
  ℕ, ◌⊎◌, inl, inr, Bool, true, false, not, ◌||◌, ◌&&◌, Option, none, some, List, [], ◌∷◌, ◌++◌,
  if◌then◌else◌, ℤ, pos, ltb_ℤ, leb_ℤ, nat_beq, leb, ◌-◌,
}
use control_panel.Base.Text.{Text, text_eq, text_test, is_empty, contains, starts_with, split}
use control_panel.Base.Text.Numbers.{chars, has_prefix}

pub record FilesRoot : Type 0 where
  pub name : Text
  pub path : Text
  pub read_only : Bool

pub record App : Type 0 where
  pub name : Text
  pub type : Text
  pub url : Text
  pub api_key : Text

pub record Config : Type 0 where
  pub listen : Text
  pub auth_mode : Text
  pub session_hours : ℤ
  pub allow_remote_none : Bool
  pub trusted_proxies : List Text
  pub tls_cert : Text
  pub tls_key : Text
  pub metrics_interval_ms : ℤ
  pub metrics_history : ℤ
  pub minecraft_root : Text
  pub minecraft_backup_dir : Text
  pub minecraft_java : Text
  pub fans_interval_ms : ℤ
  pub terminal_idle_timeout_min : ℤ
  pub terminal_max_sessions : ℤ
  pub files_roots : List FilesRoot
  pub update_repo : Text
  pub apps : List App
  pub qbittorrent_url : Text

-- What package net says.
pub record Net : Type 0 where
  pub host : Text → Option Text  -- of SplitHostPort
  pub is_loopback : Text → Bool  -- ParseIP gives an address, which is a loopback
  pub is_ip_or_cidr : Text → Bool  -- parseIPOrCIDR gives no error

pub data Invalid : Type 0 where
  remote_none bad_mode bad_proxy half_tls no_root_name bad_root_name duplicate_root : Invalid
  relative_root bad_repo unknown_app no_app_url bad_qbittorrent_url : Invalid

abbrev pub first_error : Option Invalid → Option Invalid → Option Invalid
first_error none later = later
first_error (some why) later = some why

abbrev pub host_loopback : Net → Option Text → Bool
host_loopback net none = false
host_loopback net (some host) = text_test host (chars "localhost") || net.is_loopback host

unfoldable pub listen_is_loopback : Net → Config → Bool
listen_is_loopback net c = host_loopback net (net.host c.listen)

unfoldable pub check_mode : Net → Config → Option Invalid
unfolding listen_is_loopback
check_mode net c =
    if is_empty c.auth_mode || text_test c.auth_mode (chars "password")
    then none
    else if text_test c.auth_mode (chars "none")
    then (if not (listen_is_loopback net c) && not c.allow_remote_none
        then some remote_none
        else none)
    else some bad_mode

unfoldable pub check_proxies : Net → List Text → Option Invalid
check_proxies net [] = none
check_proxies net (p ∷ ps) = if net.is_ip_or_cidr p then check_proxies net ps else some bad_proxy

abbrev pub same : Bool → Bool → Bool
same true b = b
same false b = not b

abbrev pub check_tls : Config → Option Invalid
check_tls c = if same (is_empty c.tls_cert) (is_empty c.tls_key) then none else some half_tls

abbrev pub is_seen : Text → List Text → Bool
is_seen name [] = false
is_seen name (n ∷ seen) = text_test n name || is_seen name seen

abbrev pub bad_name : Text → Bool
bad_name name =
    contains b'/' name
    || contains b'\\' name
    || text_test name (chars ".")
    || text_test name (chars "..")

unfoldable pub check_roots : List Text → List FilesRoot → Option Invalid
unfolding contains
check_roots seen [] = none
check_roots seen (r ∷ rs) =
    let later = check_roots (r.name ∷ seen) rs in
    if is_empty r.name
    then some no_root_name
    else if bad_name r.name
    then some bad_root_name
    else if is_seen r.name seen
    then some duplicate_root
    else if not (starts_with b'/' r.path)
    then some relative_root
    else later

abbrev pub two_parts : List Text → Bool
two_parts (owner ∷ name ∷ []) = not (is_empty owner) && not (is_empty name)
two_parts _ = false

unfoldable pub check_repo : Text → Option Invalid
unfolding split contains
check_repo r =
    if is_empty r || two_parts (split b'/' r) && not (contains b':' r) then none else some bad_repo

abbrev pub valid_app_types : Text → Bool
valid_app_types t =
    text_test t (chars "radarr")
    || text_test t (chars "sonarr")
    || text_test t (chars "lidarr")
    || text_test t (chars "readarr")
    || text_test t (chars "whisparr")
    || text_test t (chars "prowlarr")
    || text_test t (chars "overseerr")
    || text_test t (chars "jellyseerr")

unfoldable pub check_apps : List App → Option Invalid
check_apps [] = none
check_apps (a ∷ apps) =
    let later = check_apps apps in
    if not (valid_app_types a.type)
    then some unknown_app
    else if is_empty a.url
    then some no_app_url
    else later

unfoldable pub check_qbittorrent : Text → Option Invalid
unfolding has_prefix
check_qbittorrent u =
    if not (is_empty u)
      && not (has_prefix (chars "http://") u)
      && not (has_prefix (chars "https://") u)
    then some bad_qbittorrent_url
    else none

-- The checks, in their order; none reads what a default before it sets.
unfoldable pub error_of : Net → Config → Option Invalid
unfolding check_mode check_proxies check_roots check_repo check_apps check_qbittorrent
error_of net c = first_error (check_mode net c) (
    first_error (check_proxies net c.trusted_proxies) (
      first_error (check_tls c) (
        first_error (check_roots [] c.files_roots) (
          first_error (check_repo c.update_repo)
            (first_error (check_apps c.apps) (check_qbittorrent c.qbittorrent_url))))))

abbrev pub default_text : Text → Text → Text
default_text default s = if is_empty s then default else s

-- `if v <= 0 { v = default }`
abbrev pub default_number : ℤ → ℤ → ℤ
default_number default v = if leb_ℤ v (pos 0) then default else v

abbrev pub at_least : ℤ → ℤ → ℤ
at_least low v = if ltb_ℤ v low then low else v

abbrev pub at_most : ℤ → ℤ → ℤ
at_most high v = if ltb_ℤ high v then high else v

abbrev pub is_zero : ℤ → Bool
is_zero v = leb_ℤ v (pos 0) && leb_ℤ (pos 0) v

abbrev pub upper : ℕ → ℕ
upper c = if leb b'a' c && leb c b'z' then c - 32 else c

abbrev pub capitalized : Text → Text
capitalized [] = []
capitalized (c ∷ s) = upper c ∷ s

unfoldable pub name_apps : List App → List App
name_apps [] = []
name_apps (a ∷ apps) = record a { name = default_text (capitalized a.type) a.name } ∷ name_apps apps

-- The defaults and limits that validate sets.
unfoldable pub normalize : Config → Config
unfolding name_apps
normalize c = record c {
  auth_mode = if is_empty c.auth_mode then chars "password" else c.auth_mode;
  session_hours = default_number (pos 168) c.session_hours;
  metrics_interval_ms = at_least (pos 250) c.metrics_interval_ms;
  metrics_history = at_most (pos 3600) (at_least (pos 60) c.metrics_history);
  minecraft_backup_dir =
      default_text (c.minecraft_root ++ chars "/.backups") c.minecraft_backup_dir;
  minecraft_java = default_text (chars "java") c.minecraft_java;
  fans_interval_ms =
      at_least (pos 500) (if is_zero c.fans_interval_ms then pos 2000 else c.fans_interval_ms);
  terminal_idle_timeout_min = default_number (pos 15) c.terminal_idle_timeout_min;
  terminal_max_sessions = at_most (pos 8) (default_number (pos 2) c.terminal_max_sessions);
  apps = name_apps c.apps;
}

abbrev pub unless_error : Option Invalid → Config → Invalid ⊎ Config
unless_error (some why) c = inl why
unless_error none c = inr c

-- The configuration that is left where there is no error.
unfoldable pub validate : Net → Config → Invalid ⊎ Config
unfolding error_of normalize
validate net c = unless_error (error_of net c) (normalize c)
