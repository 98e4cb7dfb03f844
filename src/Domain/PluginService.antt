-- ===== src/Domain/PluginService.antt =====
-- internal/domain/service/impl/plugin_service_impl.go: the table of plugins and their files. The plugin
-- repositories and the file system are one record of commands. New UUIDs, SHA-256 and JSON are arguments.
pub mod Switching
pub mod Removal
use Prim.Native.String.{◌++◌ as append}
use arcana_cloud_go.Base.{
  ℕ, ◌+◌, ◌≡◌, String, Bool, true, false, not, ◌&&◌, ◌||◌, Option, none, some, List, [], ◌∷◌, ◌++◌,
  ◌==◌, str_eq, map, keep, length, ltb, if◌then◌else◌,
}
use arcana_cloud_go.Action.{
  Action, Command, Result, ok, err, pure, raise, try_or, ignore, or_raise, ◌>>=◌, ◌>>◌, when,
}
use arcana_cloud_go.Jobs.RedisQueue.{is_empty}
use arcana_cloud_go.Domain.Repository.{any, first}

pub data PluginState : Type 0 where
  installed enabled disabled uninstalled failed : PluginState
  other : String → PluginState

-- The columns that the service reads or writes; the file at `path` is the plugin's library.
pub record Plugin : Type 0 where
  pub id : ℕ
  pub key : String
  pub name : String
  pub version : String
  pub state : PluginState
  pub config : String
  pub checksum : String
  pub path : String
  pub installed_at : ℕ
  pub enabled_at : Option ℕ

pub record InstallPluginRequest : Type 0 where
  pub name : String
  pub version : String

abbrev new_plugin : ℕ → String → String → String → String → InstallPluginRequest → Plugin
new_plugin now key path checksum config req = record {
  id = 0;
  key = key;
  name = req.name;
  version = req.version;
  state = installed;
  config = config;
  checksum = checksum;
  path = path;
  installed_at = now;
  enabled_at = none;
}

-- The errors of the service; `unavailable` is any error of a repository or of the file system.
pub data PluginErr : Type 0 where
  plugin_not_found plugin_already_exists plugin_invalid_state unavailable : PluginErr

pub record PluginStore : Type 1 where
  pub State : Type 0
  pub exists_by_key : String → Command State Bool
  pub create : Plugin → Command State Plugin  -- with the id that it was given
  pub get_by_key : String → Command State (Option Plugin)
  pub update_state : ℕ → ℕ → PluginState → Command State (Unit {0})  -- at a time
  pub list_by_state : PluginState → Command State (List Plugin)
  pub delete_by_key : String → Command State (Unit {0})
  pub delete_extensions : ℕ → Command State (Unit {0})
  pub make_directory : Command State (Unit {0})
  pub create_file : String → Command State (Unit {0})
  pub copy_to : String → String → Command State (Unit {0})  -- the path and what the upload reads as
  pub remove_file : String → Command State (Unit {0})

pub record PluginTables : Type 0 where
  pub plugins : List Plugin
  pub extensions : List (ℕ × String)  -- the plugin's id, and the extension's name
  pub files : List String  -- the paths that exist

-- UPDATE … SET state = ?, and enabled_at = ? where it is enabled, at a time, WHERE id = ?
abbrev pub stamp_state : ℕ → PluginState → Plugin → Plugin
stamp_state now enabled p = record p { state = enabled; enabled_at = some now }
stamp_state now st p = record p { state = st }

abbrev pub set_state : ℕ → ℕ → PluginState → Plugin → Plugin
set_state now id st p = if p.id == id then stamp_state now st p else p

module _ (r : PluginStore) (tables : r.State → PluginTables) where
  abbrev pub Replies : {A : Type 0} → Command r.State A → (PluginTables → A) → Type 0
  Replies c reply = (s : r.State) → (c s).0 ≡ some (reply (tables s))

  abbrev pub Leaves : {A : Type 0} → Command r.State A → (PluginTables → PluginTables) → Type 0
  Leaves c effect = (s : r.State) → tables (c s).1 ≡ effect (tables s)

  -- The database answers; the file system may fail to remove a file only if there is none.
  pub record IsPluginDb : Type 0 where
    pub get_by_key_reply :
        (k : String) → Replies (r.get_by_key k) (λ d. first (λ p. str_eq p.key k) d.plugins)
    pub get_by_key_leaves : (k : String) → Leaves (r.get_by_key k) (λ d. d)
    pub update_state_reply :
        (now id : ℕ) (st : PluginState) → Replies (r.update_state now id st) (λ d. tt)
    pub update_state_leaves :
        (now id : ℕ) (st : PluginState)
        → Leaves
            (r.update_state now id st)
            (λ d. record d { plugins = map (set_state now id st) d.plugins })
    pub delete_by_key_reply : (k : String) → Replies (r.delete_by_key k) (λ d. tt)
    pub delete_by_key_leaves :
        (k : String)
        → Leaves
            (r.delete_by_key k)
            (λ d. record d { plugins = keep (λ p. not (str_eq p.key k)) d.plugins })
    pub delete_extensions_reply : (id : ℕ) → Replies (r.delete_extensions id) (λ d. tt)
    pub delete_extensions_leaves :
        (id : ℕ)
        → Leaves
            (r.delete_extensions id)
            (λ d. record d { extensions = keep (λ e. not (e.0 == id)) d.extensions })
    pub remove_file_leaves :
        (path : String)
        → Leaves
            (r.remove_file path)
            (λ d. record d { files = keep (λ f. not (str_eq f path)) d.files })

module _ (r : PluginStore) where
  abbrev pub Plugins : Type 0 → Type 0
  Plugins A = Action PluginErr r.State A

  abbrev pub ask : {A : Type 0} → Command r.State A → Plugins A
  ask c = try_or unavailable c

  found : Option Plugin → Plugins Plugin
  found none = raise plugin_not_found
  found (some p) = pure p

  pub plugin_by_key : String → Plugins Plugin
  unfolding found
  plugin_by_key key = do o ← ask (r.get_by_key key); found o

  -- What `Enable` does to a plugin that it found; `stored` is the clock's reading in `UpdateState`.
  enable_found : ℕ → ℕ → Plugin → PluginState → Plugins Plugin
  enable_found stored now p enabled = pure p
  enable_found stored now p installed = do
    ask (r.update_state stored p.id enabled)
    pure (record p { state = enabled; enabled_at = some now })
  enable_found stored now p disabled = do
    ask (r.update_state stored p.id enabled)
    pure (record p { state = enabled; enabled_at = some now })
  enable_found stored now p _ = raise plugin_invalid_state

  unfoldable pub enable : ℕ → ℕ → String → Plugins Plugin
  unfolding plugin_by_key enable_found
  enable stored now key = do p ← plugin_by_key key; enable_found stored now p p.state

  disable_found : ℕ → Plugin → PluginState → Plugins Plugin
  disable_found stored p disabled = pure p
  disable_found stored p enabled = do
    ask (r.update_state stored p.id disabled)
    pure (record p { state = disabled })
  disable_found stored p _ = raise plugin_invalid_state

  unfoldable pub disable : ℕ → String → Plugins Plugin
  unfolding plugin_by_key disable_found
  disable stored key = do p ← plugin_by_key key; disable_found stored p p.state

  unfoldable pub uninstall : String → Plugins (Unit {0})
  unfolding plugin_by_key
  uninstall key = do
    p ← plugin_by_key key
    ask (r.delete_extensions p.id)
    when (not (is_empty p.path)) (ignore (r.remove_file p.path))
    ask (r.delete_by_key key)

  -- The file goes again where a later step fails.
  removed_unless : {A : Type 0} → String → Option A → Plugins A
  removed_unless path none s = (err unavailable, (r.remove_file path s).1)
  removed_unless path (some a) s = (ok a, s)

  or_remove : {A : Type 0} → String → Command r.State A → Plugins A
  or_remove path c s = removed_unless path (c s).0 (c s).1

  -- `config` is the configuration's JSON, none where it cannot be marshalled.
  unfoldable pub install :
      (now : ℕ) (key path checksum upload : String) (config : Option String)
      → InstallPluginRequest
      → Plugins Plugin
  unfolding or_remove removed_unless
  install now key path checksum upload config req = do
    exists ← ask (r.exists_by_key key)
    when exists (raise plugin_already_exists)
    ask r.make_directory
    ask (r.create_file path)
    or_remove path (r.copy_to path upload)
    config_json ← removed_unless path config
    or_remove path (r.create (new_plugin now key path checksum config_json req))

pub record PluginHealth : Type 0 where
  pub status : String
  pub total_plugins : ℕ
  pub enabled_plugins : ℕ
  pub disabled_plugins : ℕ
  pub error_plugins : ℕ

module _ (r : PluginStore) where
  unfoldable pub get_health : Action PluginErr r.State PluginHealth
  get_health = do
    on ← try_or unavailable (r.list_by_state enabled)
    off ← try_or unavailable (r.list_by_state disabled)
    broken ← try_or unavailable (r.list_by_state failed)
    fresh ← try_or unavailable (r.list_by_state installed)
    pure (record {
      status = if ltb 0 (length broken) then "degraded" else "healthy";
      total_plugins = length on + length off + length broken + length fresh;
      enabled_plugins = length on;
      disabled_plugins = length off + length fresh;
      error_plugins = length broken;
    })
