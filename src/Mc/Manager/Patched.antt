-- ===== src/Mc/Manager/Patched.antt =====
-- internal/mc/manager.go: what a server's settings come to, independently of how they are resolved.
use control_panel.Base.{
  ◌&&◌, not, ◌≡◌, refl, inl, inr, Bool, true, false, Option, none, some, List, [], ◌∷◌,
  if◌then◌else◌, lookup, Bool-cases,
}
use control_panel.Base.Text.{Text, text_eq, is_empty}
use control_panel.Base.Text.Numbers.{chars}
use control_panel.Mc.Instance.{ResolvedCfg}
use control_panel.Mc.Manager.Actions.{or_patch}
use control_panel.Mc.Manager.{
  McServer, Minecraft, ConfigPatch, zero_server, Files, or_old, or_fields, fields, first_non_empty,
  only_jar, use_jar, chosen_jar, base_cfg,
}

-- The text, or the other one where it is empty.
abbrev pub given : Text → Text → Text
given [] other = other
given (c ∷ s) other = c ∷ s

-- The choice of the call, else the one of before, else what the files give.
abbrev pub latest {ℓ} : {A : Type ℓ} → Option A → Option A → A → A
latest (some a) before base = a
latest none (some a) base = a
latest none none base = base

abbrev pub latest_args : Option Text → Option Text → List Text → List Text
latest_args (some args) before base = fields args
latest_args none (some args) base = fields args
latest_args none none base = base

abbrev pub of_entry : Option McServer → McServer
of_entry none = zero_server
of_entry (some f) = f

-- server.jar, else the only jar.
abbrev jar_in : Bool → List Text → Text
jar_in true jars = chars "server.jar"
jar_in false [] = []
jar_in false (jar ∷ []) = jar
jar_in false (jar ∷ other ∷ jars) = []

abbrev found_jar : Text → Files → Text
found_jar jar files = given jar (jar_in (files.has (chars "server.jar")) files.jars)

-- The latest choice of a jar counts if it is not empty and the file is there.
abbrev pub pick : Option Text → Option Text → Files → Text → Text
pick (some []) before files found = found
pick (some (c ∷ s)) before files found = if files.has (c ∷ s) then c ∷ s else found
pick none (some []) files found = found
pick none (some (c ∷ s)) files found = if files.has (c ∷ s) then c ∷ s else found
pick none none files found = found

-- run.sh is run where it is there and no jar is.
abbrev script : Text → Files → Text
script [] files = if files.has (chars "run.sh") then chars "run.sh" else []
script (c ∷ s) files = []

-- What a server's settings come to: from the config file `c`, the server's entry `f` in it, the files of
-- its directory, the choices made in the panel `before`, and those of the call.
pub record Patched (c : Minecraft) (f : McServer) (files : Files) (before patch : ConfigPatch)
    (new : ResolvedCfg) : Type 0 where
  pub java : new.java ≡ given f.java (given c.java (chars "java"))
  pub mem : new.mem ≡ latest patch.mem before.mem (given f.mem (chars "4G"))
  pub jvm_args : new.jvm_args ≡ latest_args patch.jvm_args before.jvm_args f.jvm_args
  pub aikar : new.aikar ≡ latest patch.aikar before.aikar f.aikar
  pub auto_start : new.auto_start ≡ latest patch.auto_start before.auto_start f.auto_start
  pub auto_restart : new.auto_restart ≡ latest patch.auto_restart before.auto_restart f.auto_restart
  pub run_as_user : new.run_as_user ≡ c.run_as
  pub run_as_uid : new.run_as_uid ≡ c.run_as_uid
  pub run_as_gid : new.run_as_gid ≡ c.run_as_gid
  pub jar : new.jar ≡ pick patch.jar before.jar files (found_jar f.jar files)
  pub run_script : new.run_script ≡ script new.jar files

pub latest-or_patch {ℓ} :
    {A : Type ℓ} (new cur : Option A) (a : A) → or_old (or_patch new cur) a ≡ latest new cur a
latest-or_patch none none a = refl
latest-or_patch none (some b) a = refl
latest-or_patch (some b) cur a = refl

pub latest_args-or_patch :
    (new cur : Option Text) (a : List Text) → or_fields (or_patch new cur) a ≡ latest_args new cur a
latest_args-or_patch none none a = refl
latest_args-or_patch none (some b) a = refl
latest_args-or_patch (some b) cur a = refl

pub first_non_empty-given : (a b : Text) → first_non_empty (a ∷ b ∷ []) ≡ given a (given b [])
unfolding first_non_empty
first_non_empty-given [] [] = refl
first_non_empty-given [] (d ∷ b) = refl
first_non_empty-given (c ∷ a) b = refl

pub first_non_empty-given_twice :
    (a b : Text) → first_non_empty (a ∷ b ∷ chars "java" ∷ []) ≡ given a (given b (chars "java"))
unfolding first_non_empty
first_non_empty-given_twice [] [] = refl
first_non_empty-given_twice [] (d ∷ b) = refl
first_non_empty-given_twice (c ∷ a) b = refl

-- A choice of a jar changes no other setting than the jar and the script.
pub use_jar_keeps {ℓ} :
    {A : Type ℓ} (field : ResolvedCfg → A)
    → ((rc : ResolvedCfg) (jar run : Text)
        → field (record rc { jar = jar; run_script = run }) ≡ field rc)
    → (o : Option Text) (rc : ResolvedCfg) → field (use_jar o rc) ≡ field rc
use_jar_keeps field same none rc = refl
use_jar_keeps field same (some jar) rc = same rc jar []

pub jar-pick :
    (new cur : Option Text) (files : Files) (rc : ResolvedCfg)
    → (use_jar (chosen_jar (or_patch new cur) files) rc).jar ≡ pick new cur files rc.jar
jar-pick none none files rc = refl
jar-pick none (some []) files rc = refl
jar-pick none (some (c ∷ s)) files rc = elim (Bool-cases (files.has (c ∷ s))) [
  | inl h ↦ rw h
  | inr h ↦ rw h
]
jar-pick (some []) cur files rc = refl
jar-pick (some (c ∷ s)) cur files rc = elim (Bool-cases (files.has (c ∷ s))) [
  | inl h ↦ rw h
  | inr h ↦ rw h
]

pub run_script-script :
    (o : Option Text) (files : Files) (rc : ResolvedCfg)
    → rc.run_script ≡ script rc.jar files
    → (use_jar (chosen_jar o files) rc).run_script
      ≡ script (use_jar (chosen_jar o files) rc).jar files
run_script-script none files rc h = h
run_script-script (some []) files rc h = h
run_script-script (some (c ∷ s)) files rc h = elim (Bool-cases (files.has (c ∷ s))) [
  | inl hit ↦ rw hit
  | inr miss ↦ rw miss h
]

pub base_jar :
    (c : Minecraft) (id : Text) (files : Files)
    → (base_cfg c id files).jar ≡ found_jar (of_entry (lookup id c.servers)).jar files
unfolding base_cfg
base_jar c id files = go (lookup id c.servers)
  where
    listed :
        (b : Bool) (jars : List Text)
        → (if b then chars "server.jar" else only_jar jars) ≡ jar_in b jars
    listed true jars = refl
    listed false [] = refl
    listed false (j ∷ []) = refl
    listed false (j ∷ k ∷ js) = refl

    named :
        (jar : Text)
        → (if not (is_empty jar)
            then jar
            else if files.has (chars "server.jar")
            then chars "server.jar"
            else only_jar files.jars)
          ≡ found_jar jar files
    named [] = listed (files.has (chars "server.jar")) files.jars
    named (d ∷ jar) = refl

    go :
        (o : Option McServer)
        → (let f = or_old o zero_server in
            if not (is_empty f.jar)
            then f.jar
            else if files.has (chars "server.jar")
            then chars "server.jar"
            else only_jar files.jars)
          ≡ found_jar (of_entry o).jar files
    go none = named []
    go (some f) = named f.jar

pub base_script :
    (c : Minecraft) (id : Text) (files : Files)
    → (base_cfg c id files).run_script ≡ script (base_cfg c id files).jar files
unfolding base_cfg
base_script c id files = go (base_cfg c id files).jar
  where
    go :
        (jar : Text)
        → (if is_empty jar && files.has (chars "run.sh") then chars "run.sh" else [])
          ≡ script jar files
    go [] = refl
    go (d ∷ jar) = refl

pub of_entry-or_old : (o : Option McServer) → or_old o zero_server ≡ of_entry o
of_entry-or_old none = refl
of_entry-or_old (some f) = refl
