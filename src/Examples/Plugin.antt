-- ===== src/Examples/Plugin.antt =====
-- The plugin manager at a concrete sequence of operations.
use arcana_cloud_go.Base.{◌≡◌, String, none, some, List, [], ◌∷◌}
use arcana_cloud_go.Plugin.Manager.{PluginInfo, plugin, new_manager}
use arcana_cloud_go.Plugin.Manager.Calls.{active, Legal, started_at}
use arcana_cloud_go.Plugin.Manager.Lifecycle.{Op, load, start, stop, run_ops, run_ops-Legal}

abbrev audit : PluginInfo
audit = record {
  key = "audit";
  name = "Audit";
  description = "";
  version = "1.0";
  author = "";
  plugin_type = "SERVICE";
}

-- A first Start fails, the second succeeds.
abbrev some_ops : List Op
some_ops =
    load (plugin audit) "audit.so"
    ∷ start none (some "busy") "audit" []
    ∷ start none none "audit" []
    ∷ stop none "other"
    ∷ []

run_ops-Legal_example :
    Legal (run_ops some_ops new_manager).calls
    × ((k : String)
        → active k (run_ops some_ops new_manager).calls
          ≡ started_at k (run_ops some_ops new_manager).plugins)
run_ops-Legal_example = run_ops-Legal some_ops
