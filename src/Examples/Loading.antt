-- ===== src/Examples/Loading.antt =====
-- internal/config: a configuration with a root and an app, on a loopback address.
use control_panel.Base.{
  ◌≡◌, refl, inr, true, false, none, some, [], ◌∷◌, pos, negsuc, if◌then◌else◌,
}
use control_panel.Base.Text.{text_test}
use control_panel.Base.Text.Numbers.{chars}
use control_panel.Config.{Config, Net, normalize, validate}
use control_panel.Config.Sound.{IsSound, validate-IsSound}
use control_panel.Config.Again.{validate_twice}

abbrev local : Net
local = record {
  host = λ listen.
      if text_test listen (chars "127.0.0.1:9090") then some (chars "127.0.0.1") else none;
  is_loopback = λ host. text_test host (chars "127.0.0.1");
  is_ip_or_cidr = λ p. true;
}

abbrev config : Config
config = record {
  listen = chars "127.0.0.1:9090";
  auth_mode = chars "none";
  session_hours = pos 0;
  allow_remote_none = false;
  trusted_proxies = [];
  tls_cert = [];
  tls_key = [];
  metrics_interval_ms = pos 10;
  metrics_history = pos 100_000;
  minecraft_root = chars "/srv/minecraft";
  minecraft_backup_dir = [];
  minecraft_java = [];
  fans_interval_ms = pos 0;
  terminal_idle_timeout_min = negsuc 4;
  terminal_max_sessions = pos 20;
  files_roots =
      record { name = chars "pool"; path = chars "/mnt/pool"; read_only = false }
      ∷ record { name = chars "media"; path = chars "/mnt/media"; read_only = true }
      ∷ [];
  update_repo = chars "owner/panel";
  apps =
      record { name = []; type = chars "radarr"; url = chars "http://localhost"; api_key = [] }
      ∷ [];
  qbittorrent_url = chars "http://localhost:8080";
}

accepted : validate local config ≡ inr (normalize config)
unfolding validate
accepted = refl

validate-IsSound_example : IsSound local (normalize config)
validate-IsSound_example = validate-IsSound local config (normalize config) accepted

validate_twice_example : validate local (normalize config) ≡ inr (normalize config)
validate_twice_example = validate_twice local config (normalize config) accepted
