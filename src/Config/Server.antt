-- ===== src/Config/Server.antt =====
-- internal/configserver/server.go. The file system and the parsers are arguments: a walk of the
-- directory is the list of its entries in the order of filepath.Walk, or none where it fails.
use Prim.Native.String.{◌∷◌ as cons, [] as empty_text}
use Prim.Native.Char.{code}
use arcana_cloud_go.Base.{
  ℕ, String, Bool, ◌||◌, Option, none, some, List, [], ◌∷◌, ◌==◌, str_eq, if◌then◌else◌,
}
use arcana_cloud_go.Middleware.{lower_eq}
use arcana_cloud_go.Config.{Fields}
use arcana_cloud_go.Config.Merge.{deep_merge}

pub data Format : Type 0 where
  json yaml : Format

pub record Entry : Type 0 where
  pub is_dir : Bool
  pub base : String  -- filepath.Base(path)
  pub content : Option String  -- os.ReadFile

-- json.Unmarshal and yaml.Unmarshal
abbrev pub Parser : Type 0
Parser = Format → String → Option Fields

-- The name before the last dot and filepath.Ext, where there is a dot.
unfoldable pub split_ext : String → Option (String × String)
split_ext empty_text = none
split_ext (cons c s) =
    let rest = split_ext s in
    elim rest [
      | some (stem, ext) ↦ some (cons c stem, ext)
      | none ↦ if code c == 46 then some ("", cons c s) else none
    ]

unfoldable pub format_of : String → Option Format
format_of ext =
    if lower_eq ext ".yaml" || lower_eq ext ".yml"
    then some yaml
    else if lower_eq ext ".json"
    then some json
    else none

-- strings.TrimSuffix with the extension in small letters.
unfoldable pub trimmed : String → String → String → String
trimmed base stem ext =
    if str_eq ext ".yaml" || str_eq ext ".yml" || str_eq ext ".json" then stem else base

-- The text before the first character of a code, and what follows it, where it occurs.
unfoldable pub split_at : ℕ → String → String × Option String
split_at n empty_text = ("", none)
split_at n (cons c s) =
    let rest = split_at n s in if code c == n then ("", some s) else (cons c rest.0, rest.1)

unfoldable pub profile_or_default : String × Option String → String × String
profile_or_default (application, none) = (application, "default")
profile_or_default (application, some profile) = (application, profile)

-- `parseConfigFileName`, on the file's name without its extension.
unfoldable pub parse_config_file_name : String → String × String
unfolding split_at profile_or_default
parse_config_file_name name = profile_or_default (split_at 45 name)

abbrev pub joined : String → String → String
joined empty_text t = t
joined (cons c s) t = cons c (joined s t)

-- fmt.Sprintf("%s/%s", application, profile)
unfoldable pub config_key : String × String → String
config_key (application, profile) = joined application (joined "/" profile)

-- The configurations by their keys, the latest write first.
abbrev pub Configs : Type 0
Configs = List (String × Fields)

abbrev pub find : String → Configs → Option Fields
find k [] = none
find k ((j, f) ∷ rest) = if str_eq j k then some f else find k rest

module _ (parse : Parser) where
  -- The key and value of the map that a file gives, where it is a configuration that is read and parsed.
  parsed : String → String → String → Format → Option String → Option (String × Fields)
  unfolding trimmed parse_config_file_name config_key
  parsed base stem ext format none = none
  parsed base stem ext format (some content) = elim (parse format content) [
    | none ↦ none
    | some f ↦ some (config_key (parse_config_file_name (trimmed base stem ext)), f)
  ]

  formatted : String → Option String → String → String → Option Format → Option (String × Fields)
  unfolding parsed
  formatted base content stem ext none = none
  formatted base content stem ext (some format) = parsed base stem ext format content

  with_ext : String → Option String → Option (String × String) → Option (String × Fields)
  unfolding formatted format_of
  with_ext base content none = none
  with_ext base content (some (stem, ext)) = formatted base content stem ext (format_of ext)

  unfoldable pub read_config_file : Entry → Option (String × Fields)
  unfolding with_ext split_ext
  read_config_file entry =
      if entry.is_dir then none else with_ext entry.base entry.content (split_ext entry.base)

  unfoldable pub stored : Option (String × Fields) → Configs → Configs
  stored none configs = configs
  stored (some (k, f)) configs = (k, f) ∷ configs

  unfoldable pub process_config_file : Entry → Configs → Configs
  unfolding stored read_config_file
  process_config_file entry configs = stored (read_config_file entry) configs

  unfoldable pub walk_files : List Entry → Configs → Configs
  unfolding process_config_file
  walk_files [] configs = configs
  walk_files (entry ∷ entries) configs = walk_files entries (process_config_file entry configs)

  -- `none` is an error; what was read of the directory before it stays.
  unfoldable pub load_configs : List Entry → Bool → Configs → Bool × Configs
  unfolding walk_files
  load_configs entries complete configs = (complete, walk_files entries configs)

unfoldable pub merge_with_default : Option Fields → Fields → Fields
unfolding deep_merge
merge_with_default none config = config
merge_with_default (some base) config = deep_merge base config

unfoldable pub config_or_default : Option Fields → Option Fields → Option Fields
unfolding merge_with_default
config_or_default base (some config) = some (merge_with_default base config)
config_or_default base none = base

-- `none` is the error of a configuration that is not found.
unfoldable pub get_config : Configs → String → String → Option Fields
unfolding config_or_default config_key
get_config configs application profile =
    config_or_default (find (config_key (application, "default")) configs)
      (find (config_key (application, profile)) configs)
