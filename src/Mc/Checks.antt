-- ===== src/Mc/Checks.antt =====
-- internal/mc/types.go: what the API accepts.
pub mod Segment
use control_panel.Base.{
  ℕ, ◌+◌, Bool, true, false, not, ◌||◌, ◌&&◌, Option, none, some, List, [], ◌∷◌, if◌then◌else◌,
  length, ltb, leb, nat_beq, ℤ, pos, ltb_ℤ,
}
use control_panel.Base.Text.{Text, text_eq, text_test, is_empty, contains, cut}
use control_panel.Base.Text.Numbers.{chars}
use control_panel.Mc.Memory.{parse_mem}

-- `[A-Za-z0-9]`
abbrev pub is_alnum : ℕ → Bool
is_alnum c = leb b'A' c && leb c b'Z' || leb b'a' c && leb c b'z' || leb b'0' c && leb c b'9'

abbrev pub all : (ℕ → Bool) → Text → Bool
all p [] = true
all p (c ∷ s) = p c && all p s

-- `[A-Za-z0-9_.-]`
abbrev pub is_id_char : ℕ → Bool
is_id_char c = is_alnum c || nat_beq c b'_' || nat_beq c b'.' || nat_beq c b'-'

-- `^[A-Za-z0-9][A-Za-z0-9_.-]{0,63}$`
unfoldable pub match_id : Text → Bool
match_id [] = false
match_id (c ∷ s) = is_alnum c && all is_id_char s && leb (length s) 63

-- `^[A-Za-z0-9_]{1,16}$`
unfoldable pub match_player_name : Text → Bool
match_player_name s =
    not (is_empty s) && all (λ c. is_alnum c || nat_beq c b'_') s && leb (length s) 16

-- `[A-Za-z0-9_-]`
abbrev pub is_stem : ℕ → Bool
is_stem c = is_alnum c || nat_beq c b'_' || nat_beq c b'-'

abbrev pub is_archive : Option (Text × Text) → Bool
is_archive none = false
is_archive (some (name, extension)) =
    not (is_empty name) && all is_stem name && text_test extension (chars "tar.gz")

-- `^[A-Za-z0-9_-]+\.tar\.gz$`; the name before the first dot has none.
unfoldable pub match_backup_name : Text → Bool
unfolding cut
match_backup_name s = is_archive (cut b'.' s)

pub data Invalid : Type 0 where
  bad_id bad_player bad_backup_name bad_flavor no_version bad_port bad_memory motd_lines
        motd_length :
      Invalid

unfoldable pub check_id : Text → Option Invalid
unfolding match_id
check_id id = if match_id id then none else some bad_id

unfoldable pub check_player_name : Text → Option Invalid
unfolding match_player_name
check_player_name name = if match_player_name name then none else some bad_player

unfoldable pub check_backup_name : Text → Option Invalid
unfolding match_backup_name
check_backup_name name = if match_backup_name name then none else some bad_backup_name

pub record CreateSpec : Type 0 where
  pub id : Text
  pub flavor : Text
  pub version : Text
  pub mem : Text
  pub port : ℤ
  pub motd : Text
  pub accept_eula : Bool

abbrev pub valid_flavors : Text → Bool
valid_flavors f =
    text_test f (chars "paper")
    || text_test f (chars "purpur")
    || text_test f (chars "vanilla")
    || text_test f (chars "fabric")

-- `len` of a text in UTF-8.
unfoldable pub byte_length : Text → ℕ
byte_length [] = 0
byte_length (c ∷ s) =
    byte_length s
    + (if ltb c 128 then 1 else if ltb c 2048 then 2 else if ltb c 65_536 then 3 else 4)

unfoldable pub validate : CreateSpec → Option Invalid
unfolding check_id parse_mem contains byte_length
validate s = elim (check_id s.id) [
  | some why ↦ some why
  | none ↦
      if not (valid_flavors s.flavor)
      then some bad_flavor
      else if is_empty s.version
      then some no_version
      else if ltb_ℤ s.port (pos 1024) || ltb_ℤ (pos 65_535) s.port
      then some bad_port
      else if not (is_empty s.mem) && nat_beq (parse_mem s.mem) 0
      then some bad_memory
      else if contains b'\r' s.motd || contains b'\n' s.motd
      then some motd_lines
      else if ltb 256 (byte_length s.motd)
      then some motd_length
      else none
]

abbrev pub player_actions : List (Text × Text)
player_actions =
    (chars "kick", chars "kick")
    ∷ (chars "ban", chars "ban")
    ∷ (chars "pardon", chars "pardon")
    ∷ (chars "op", chars "op")
    ∷ (chars "deop", chars "deop")
    ∷ (chars "whitelist-add", chars "whitelist add")
    ∷ (chars "whitelist-remove", chars "whitelist remove")
    ∷ []
