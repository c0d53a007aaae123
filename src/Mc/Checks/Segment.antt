-- ===== src/Mc/Checks/Segment.antt =====
-- internal/mc/types.go: names that are used as one segment of a path.
use mathlib.Core.Path.{subst}
use control_panel.Base.{
  ℕ, ◌⊎◌, inl, inr, ◌≡◌, refl, sym, ap, ◌∙◌, Bool, true, false, Option, none, some, [], ◌∷◌, ◌++◌,
  nat_beq, nat_beq_iff, Bool-cases, arith,
}
use control_panel.Base.Text.{Text, text_iff, is_empty, contains, cut, put_before, starts_with}
use control_panel.Base.Text.Numbers.{chars}
use control_panel.Base.Text.Lines.{Lacks, contains-append}
use control_panel.Mc.Checks.{
  check_id, check_backup_name, match_id, match_backup_name, is_archive, all, is_alnum, is_id_char,
  is_stem,
}

pub all-Lacks : (p : ℕ → Bool) (d : ℕ) (s : Text) → p d ≡ false → all p s ≡ true → Lacks d s
unfolding contains
all-Lacks p d [] h a = refl
all-Lacks p d (c ∷ s) h a =
    let rest = all-Lacks p d s h (ground (arith, a)) in
    elim (Bool-cases (nat_beq c d)) [
      | inl same ↦ ground (arith, h, a, ap p ((nat_beq_iff c d).0 same))
      | inr other ↦ rw (other, rest)
    ]

-- A name that is one segment of a path, and neither hidden nor `.` or `..`.
pub record IsSegment (name : Text) : Type 0 where
  pub filled : is_empty name ≡ false
  pub not_dot : starts_with b'.' name ≡ false
  pub no_slash : Lacks b'/' name
  pub no_backslash : Lacks b'\\' name
  pub no_zero : Lacks 0 name

-- The parts of a name of an id, and of an archive.
id_chars :
    (c : ℕ) (s : Text) → check_id (c ∷ s) ≡ none → (is_alnum c ≡ true) × (all is_id_char s ≡ true)
unfolding check_id match_id
id_chars c s h = (ground (arith, h), ground (arith, h))

cons-Lacks : (d c : ℕ) (s : Text) → nat_beq c d ≡ false → Lacks d s → Lacks d (c ∷ s)
unfolding contains
cons-Lacks d c s h l = rw (h, l)

alnum_ne : (c d : ℕ) → is_alnum d ≡ false → is_alnum c ≡ true → nat_beq c d ≡ false
alnum_ne c d h a = elim (Bool-cases (nat_beq c d)) [
  | inl same ↦ absurd (clash (sym a ∙ ap is_alnum ((nat_beq_iff c d).0 same) ∙ h))
  | inr other ↦ other
]
  where
    clash : true ≡ false → ⊥
    clash h = cc

id-IsSegment : (name : Text) → check_id name ≡ none → IsSegment name
unfolding check_id match_id
id-IsSegment [] h = cc
id-IsSegment (c ∷ s) h =
    let (first, rest) = id_chars c s h in
    record {
      filled = refl;
      not_dot = alnum_ne c b'.' refl first;
      no_slash =
          cons-Lacks b'/' c s (alnum_ne c b'/' refl first) (all-Lacks is_id_char b'/' s refl rest);
      no_backslash =
          cons-Lacks b'\\' c s (alnum_ne c b'\\' refl first)
            (all-Lacks is_id_char b'\\' s refl rest);
      no_zero = cons-Lacks 0 c s (alnum_ne c 0 refl first) (all-Lacks is_id_char 0 s refl rest);
    }

put_before_whole :
    (sep c : ℕ) (s before later : Text) (o : Option (Text × Text))
    → ((b l : Text) → o ≡ some (b, l) → s ≡ b ++ sep ∷ l)
    → put_before c o ≡ some (before, later)
    → c ∷ s ≡ before ++ sep ∷ later
put_before_whole sep c s before later none whole h = cc
put_before_whole sep c s before later (some (b, l)) whole h =
    let w : s ≡ b ++ sep ∷ l = whole b l refl in
    let front : c ∷ b ≡ before = cc in
    let back : l ≡ later = cc in
    ap (λ t. c ∷ t) w ∙ ap (λ t. t ++ sep ∷ l) front ∙ ap (λ t. before ++ sep ∷ t) back

-- Where a text is cut, the parts are what it is made of.
cut_whole :
    (sep : ℕ) (s before later : Text) → cut sep s ≡ some (before, later) → s ≡ before ++ sep ∷ later
unfolding cut
cut_whole sep [] before later h = cc
cut_whole sep (c ∷ s) before later h = elim (Bool-cases (nat_beq c sep)) [
  | inl same ↦
      let parts : ◌≡◌ {A = Option (Text × Text)} (some ([], s)) (some (before, later)) =
        rw same at h in
      let front : [] ≡ before = cc in
      let back : s ≡ later = cc in
      ap (λ d. d ∷ s) ((nat_beq_iff c sep).0 same)
      ∙ ap (λ t. t ++ sep ∷ s) front
      ∙ ap (λ t. before ++ sep ∷ t) back
  | inr other ↦ put_before_whole sep c s before later (cut sep s) (cut_whole sep s) (rw other at h)
]

-- A stem and the extension of an archive.
record IsArchive (name : Text) : Type 0 where
  stem : Text
  filled : is_empty stem ≡ false
  good : all is_stem stem ≡ true
  whole : name ≡ stem ++ b'.' ∷ chars "tar.gz"

parts-IsArchive :
    (name : Text) (o : Option (Text × Text))
    → ((b l : Text) → o ≡ some (b, l) → name ≡ b ++ b'.' ∷ l)
    → is_archive o ≡ true
    → IsArchive name
parts-IsArchive name none whole h = absurd (clash h)
  where
    clash : false ≡ true → ⊥
    clash h = cc
parts-IsArchive name (some (stem, extension)) whole h = record {
  stem = stem;
  filled = ground (arith, h);
  good = ground (arith, h);
  whole =
      whole stem extension refl
      ∙ ap (λ e. stem ++ b'.' ∷ e) ((text_iff extension (chars "tar.gz")).0 (ground (arith, h)));
}

backup-IsArchive : (name : Text) → check_backup_name name ≡ none → IsArchive name
unfolding check_backup_name match_backup_name
backup-IsArchive name h =
    parts-IsArchive name (cut b'.' name) (cut_whole b'.' name) (ground (arith, h))

archive-Lacks :
    (d : ℕ) (stem : Text)
    → is_stem d ≡ false
    → contains d (b'.' ∷ chars "tar.gz") ≡ false
    → all is_stem stem ≡ true
    → Lacks d (stem ++ b'.' ∷ chars "tar.gz")
archive-Lacks d stem h e a =
    contains-append d stem (b'.' ∷ chars "tar.gz") ∙ rw (all-Lacks is_stem d stem h a, e)

stem-IsSegment :
    (stem : Text)
    → is_empty stem ≡ false
    → all is_stem stem ≡ true
    → IsSegment (stem ++ b'.' ∷ chars "tar.gz")
unfolding contains
stem-IsSegment [] f a = cc
stem-IsSegment (c ∷ s) f a = record {
  filled = refl;
  not_dot = stem_ne (ground (arith, a));
  no_slash = archive-Lacks b'/' (c ∷ s) refl refl a;
  no_backslash = archive-Lacks b'\\' (c ∷ s) refl refl a;
  no_zero = archive-Lacks 0 (c ∷ s) refl refl a;
}
  where
    clash : true ≡ false → ⊥
    clash h = cc

    stem_ne : is_stem c ≡ true → nat_beq c b'.' ≡ false
    stem_ne h = elim (Bool-cases (nat_beq c b'.')) [
      | inl same ↦ absurd (clash (sym h ∙ ap is_stem ((nat_beq_iff c b'.').0 same)))
      | inr other ↦ other
    ]

-- A server's id that is accepted, and an archive's name that is, is not empty, does not begin with a
-- dot, and has no slash, backslash or zero byte, so it names something in the directory that it is
-- joined to.
pub check-IsSegment :
    (name : Text) → (check_id name ≡ none) ⊎ (check_backup_name name ≡ none) → IsSegment name
check-IsSegment name (inl id) = id-IsSegment name id
check-IsSegment name (inr backup) =
    let a = backup-IsArchive name backup in
    subst IsSegment (sym a.whole) (stem-IsSegment a.stem a.filled a.good)
