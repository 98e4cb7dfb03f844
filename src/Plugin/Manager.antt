-- ===== src/Plugin/Manager.antt =====
-- internal/plugin/manager/manager.go. What a plugin's own code answers is an argument, and `calls`
-- keeps which of its functions were called, the latest first.
pub mod Calls
pub mod Lifecycle
use arcana_cloud_go.Base.{
  ◌≡◌, String, Bool, true, false, not, ◌&&◌, ◌||◌, Option, none, some, List, [], ◌∷◌, ◌++◌, str_eq,
  if◌then◌else◌,
}
use arcana_cloud_go.Table.{find?, replace, delete}

pub data PluginState : Type 0 where
  loaded started stopped error_ : PluginState

pub record PluginInfo : Type 0 where
  pub key : String
  pub name : String
  pub description : String
  pub version : String
  pub author : String
  pub plugin_type : String

pub record ManagedPlugin : Type 0 where
  pub info : PluginInfo
  pub state : PluginState
  pub path : String
  pub error : Option String
  pub config : List (String × String)

pub data Call : Type 0 where
  inits : String → Call
  starts : String → Bool → Call  -- whether it succeeded
  stops : String → Call

pub record Manager : Type 0 where
  pub plugins : List (String × ManagedPlugin)
  pub calls : List Call
  pub events_closed : Bool

pub data Err : Type 0 where
  not_opened not_exported not_a_plugin already_loaded not_found : Err
  init_failed start_failed stop_failed : String → Err

-- What plugin.Open, Lookup and the type assertion give.
pub data Opened : Type 0 where
  no_file no_symbol no_plugin : Opened
  plugin : PluginInfo → Opened

unfoldable pub new_manager : Manager
new_manager = record { plugins = []; calls = []; events_closed = false }

abbrev pub is_started : PluginState → Bool
is_started started = true
is_started _ = false

add_plugin : Option ManagedPlugin → PluginInfo → String → Manager → Manager × Option Err
add_plugin (some old) info path m = (m, some already_loaded)
add_plugin none info path m = (
  record m {
    plugins =
        (info.key, record { info = info; state = loaded; path = path; error = none; config = [] })
        ∷ m.plugins;
  },
  none,
)

unfoldable pub load_plugin : Opened → String → Manager → Manager × Option Err
unfolding add_plugin
load_plugin no_file path m = (m, some not_opened)
load_plugin no_symbol path m = (m, some not_exported)
load_plugin no_plugin path m = (m, some not_a_plugin)
load_plugin (plugin info) path m = add_plugin (find? info.key m.plugins) info path m

-- An entry of the plugins directory.
pub record DirEntry : Type 0 where
  pub is_dir : Bool
  pub is_so : Bool
  pub path : String
  pub opened : Opened

-- The loop of `LoadAll`, which logs an error and goes on.
unfoldable pub load_all : List DirEntry → Manager → Manager
unfolding load_plugin
load_all [] m = m
load_all (e ∷ es) m =
    load_all es (if not e.is_dir && e.is_so then (load_plugin e.opened e.path m).0 else m)

abbrev pub called : Call → Manager → Manager
called c m = record m { calls = c ∷ m.calls }

abbrev pub put : String → ManagedPlugin → Manager → Manager
put key p m = record m { plugins = replace key p m.plugins }

abbrev pub broken : String → ManagedPlugin → ManagedPlugin
broken e p = record p { state = error_; error = some e }

after_start :
    Option String → String → List (String × String) → ManagedPlugin → Manager → Manager × Option Err
after_start (some e) key config p m =
    (put key (broken e p) (called (starts key false) m), some (start_failed e))
after_start none key config p m =
    (put key (record p { state = started; config = config }) (called (starts key true) m), none)

after_init :
    Option String
    → Option String
    → String
    → List (String × String)
    → ManagedPlugin
    → Manager
    → Manager × Option Err
unfolding after_start
after_init (some e) start_error key config p m =
    (put key (broken e p) (called (inits key) m), some (init_failed e))
after_init none start_error key config p m =
    after_start start_error key config p (called (inits key) m)

start_found :
    Option ManagedPlugin
    → Option String
    → Option String
    → String
    → List (String × String)
    → Manager
    → Manager × Option Err
unfolding after_init
start_found none init_error start_error key config m = (m, some not_found)
start_found (some p) init_error start_error key config m =
    if is_started p.state then (m, none) else after_init init_error start_error key config p m

-- `StartPlugin`, by what Init and Start of the plugin answer.
unfoldable pub start_plugin :
    Option String → Option String → String → List (String × String) → Manager → Manager × Option Err
unfolding start_found
start_plugin init_error start_error key config m =
    start_found (find? key m.plugins) init_error start_error key config m

after_stop : Option String → String → ManagedPlugin → Manager → Manager × Option Err
after_stop (some e) key p m = (put key (broken e p) (called (stops key) m), some (stop_failed e))
after_stop none key p m = (put key (record p { state = stopped }) (called (stops key) m), none)

stop_found : Option ManagedPlugin → Option String → String → Manager → Manager × Option Err
unfolding after_stop
stop_found none stop_error key m = (m, some not_found)
stop_found (some p) stop_error key m =
    if is_started p.state then after_stop stop_error key p m else (m, none)

-- `StopPlugin`, by what Stop of the plugin answers.
unfoldable pub stop_plugin : Option String → String → Manager → Manager × Option Err
unfolding stop_found
stop_plugin stop_error key m = stop_found (find? key m.plugins) stop_error key m

unload_found : Option ManagedPlugin → String → Manager → Manager × Option Err
unload_found none key m = (m, some not_found)
unload_found (some p) key m =
    let m' = if is_started p.state then called (stops key) m else m in
    (record m' { plugins = delete key m'.plugins }, none)

-- `UnloadPlugin`; an error of Stop is only logged.
unfoldable pub unload_plugin : String → Manager → Manager × Option Err
unfolding unload_found
unload_plugin key m = unload_found (find? key m.plugins) key m

-- `pluginListensToEvent`
unfoldable pub plugin_listens_to_event : List String → String → Bool
plugin_listens_to_event [] event = false
plugin_listens_to_event (e ∷ es) event =
    str_eq e event || str_eq e "*" || plugin_listens_to_event es event

-- `EmitEvent`: the keys of the plugins that it starts a goroutine for. `events` gives the events of a
-- plugin that is an EventListenerPlugin.
unfoldable pub emit_event :
    (String → Option (List String)) → String → List (String × ManagedPlugin) → List String
unfolding plugin_listens_to_event
emit_event events event [] = []
emit_event events event ((key, p) ∷ t) =
    let rest = emit_event events event t in
    if is_started p.state
    then (elim (events key) [
      | none ↦ rest
      | some es ↦ if plugin_listens_to_event es event then key ∷ rest else rest
    ])
    else rest

-- The loop of `Shutdown`.
unfoldable pub stop_all : List (String × ManagedPlugin) → List Call → List Call
stop_all [] calls = calls
stop_all ((key, p) ∷ t) calls = stop_all t (if is_started p.state then stops key ∷ calls else calls)

-- `Shutdown`; `none` is the panic of closing the events channel twice.
unfoldable pub shutdown : Manager → Option Manager
unfolding stop_all
shutdown m =
    if m.events_closed
    then none
    else some (record { plugins = []; calls = stop_all m.plugins m.calls; events_closed = true })
