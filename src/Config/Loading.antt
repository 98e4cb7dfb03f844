-- ===== src/Config/Loading.antt =====
-- What the server has after it has read its directory, and the names of files.
use Prim.Native.String.{◌∷◌ as cons, [] as empty_text}
use Prim.Native.Char.{code}
use arcana_cloud_go.Base.{
  ℕ, ◌≡◌, refl, ap, sym, ◌∙◌, String, Bool, true, false, Option, none, some, List, [], ◌∷◌, ◌==◌,
  str_eq, if◌then◌else◌, Bool-cases, Option-cases, inl, inr, arith,
}
use arcana_cloud_go.Config.{Fields}
use arcana_cloud_go.Config.Server.{
  Parser, Entry, Configs, find, split_at, profile_or_default, parse_config_file_name, joined,
  read_config_file, process_config_file, stored, walk_files,
}

unfoldable pub has_char : ℕ → String → Bool
has_char n empty_text = false
has_char n (cons c s) = let rest = has_char n s in if code c == n then true else rest

split_at-joined :
    (application profile : String)
    → has_char 45 application ≡ false
    → split_at 45 (joined application (joined "-" profile)) ≡ (application, some profile)
unfolding split_at has_char
split_at-joined empty_text profile h = refl
split_at-joined (cons c s) profile h = elim (Bool-cases (code c == 45)) [
  | inl dash ↦ absurd (clash (sym (rw dash refl) ∙ h))
  | inr other ↦
      let rest = split_at-joined s profile (sym (rw other refl) ∙ h) in rw (other, rest) refl
]
  where
    clash : true ≡ false → ⊥
    clash e = cc

split_at_whole : (name : String) → has_char 45 name ≡ false → split_at 45 name ≡ (name, none)
unfolding split_at has_char
split_at_whole empty_text h = refl
split_at_whole (cons c s) h = ground (arith, split_at_whole s)

-- The name of an application without a dash, joined to a profile's by a dash, is read back as the two;
-- alone it is read as the application with the default profile.
pub parse-join :
    (application profile : String)
    → has_char 45 application ≡ false
    → (parse_config_file_name (joined application (joined "-" profile)) ≡ (application, profile))
      × (parse_config_file_name application ≡ (application, "default"))
unfolding parse_config_file_name profile_or_default
parse-join application profile h = (
  ap profile_or_default (split_at-joined application profile h),
  ap profile_or_default (split_at_whole application h),
)

before_dash : (name : String) → has_char 45 (split_at 45 name).0 ≡ false
unfolding split_at has_char
before_dash empty_text = refl
before_dash (cons c s) = elim (Bool-cases (code c == 45)) [
  | inl dash ↦ rw dash refl
  | inr other ↦ rw (other, other) (before_dash s)
]

same_application :
    (parts : String × Option String)
    → has_char 45 parts.0 ≡ false
    → has_char 45 (profile_or_default parts).0 ≡ false
unfolding profile_or_default
same_application (application, none) h = h
same_application (application, some profile) h = h

-- No name of a file gives an application whose name has a dash.
pub no_dashed_application : (name : String) → has_char 45 (parse_config_file_name name).0 ≡ false
unfolding parse_config_file_name profile_or_default
no_dashed_application name = same_application (split_at 45 name) (before_dash name)

module _ (parse : Parser) where
  -- The file that a walk reads a key from last.
  unfoldable pub last_read : String → List Entry → Option Fields
  unfolding stored read_config_file
  last_read k [] = none
  last_read k (entry ∷ entries) = elim (last_read k entries) [
    | some f ↦ some f
    | none ↦ find k (stored parse (read_config_file parse entry) [])
  ]

  find-stored :
      (k : String) (o : Option (String × Fields)) (configs : Configs)
      → find k (stored parse o configs)
        ≡ (elim (find k (stored parse o [])) [ none ↦ find k configs | some f ↦ some f ])
  unfolding stored
  find-stored k none configs = refl
  find-stored k (some (j, f)) configs = elim (Bool-cases (str_eq j k)) [
    | inl same ↦ rw same refl
    | inr other ↦ rw other refl
  ]

  -- After a walk of the directory a key has what the last file for it gave, and where no file of the walk
  -- gives it, what it had before.
  pub find-walk_files :
      (k : String) (entries : List Entry) (configs : Configs)
      → find k (walk_files parse entries configs)
        ≡ (elim (last_read k entries) [ none ↦ find k configs | some f ↦ some f ])
  unfolding walk_files process_config_file last_read
  find-walk_files k [] configs = refl
  find-walk_files k (entry ∷ entries) configs =
      let o = read_config_file parse entry in
      let ih = find-walk_files k entries (stored parse o configs) in
      elim (Option-cases (last_read k entries)) [
        | inl none_later ↦ ih ∙ rw none_later (find-stored k o configs)
        | inr (f, later) ↦ ih ∙ rw later refl
      ]
