-- ===== src/Examples/PluginService.antt =====
-- The plugin service on tables and files in memory.
use arcana_cloud_go.Base.{refl, not, none, some, [], ◌∷◌, ◌++◌, ◌==◌, str_eq, map, keep}
use arcana_cloud_go.Domain.Repository.{any, first}
use arcana_cloud_go.Domain.PluginService.{
  Plugin, PluginStore, PluginTables, IsPluginDb, installed, set_state,
}
use arcana_cloud_go.Domain.PluginService.Switching.{by_key}

abbrev disk : PluginStore
disk = record {
  State = PluginTables;
  exists_by_key = λ k d. (some (any (by_key k) d.plugins), d);
  create = λ p d. (some p, record d { plugins = d.plugins ++ p ∷ [] });
  get_by_key = λ k d. (some (first (by_key k) d.plugins), d);
  update_state =
      λ now id st d. (some tt, record d { plugins = map (set_state now id st) d.plugins });
  list_by_state = λ st d. (some [], d);
  delete_by_key =
      λ k d. (some tt, record d { plugins = keep (λ p. not (str_eq p.key k)) d.plugins });
  delete_extensions =
      λ id d. (some tt, record d { extensions = keep (λ e. not (e.0 == id)) d.extensions });
  make_directory = λ d. (some tt, d);
  create_file = λ path d. (some tt, record d { files = d.files ++ path ∷ [] });
  copy_to = λ path upload d. (some tt, d);
  remove_file = λ path d. (some tt, record d { files = keep (λ f. not (str_eq f path)) d.files });
}

abbrev itself : PluginTables → PluginTables
itself d = d

disk-IsPluginDb : IsPluginDb disk itself
disk-IsPluginDb = record {
  get_by_key_reply = λ k s. refl;
  get_by_key_leaves = λ k s. refl;
  update_state_reply = λ now id st s. refl;
  update_state_leaves = λ now id st s. refl;
  delete_by_key_reply = λ k s. refl;
  delete_by_key_leaves = λ k s. refl;
  delete_extensions_reply = λ id s. refl;
  delete_extensions_leaves = λ id s. refl;
  remove_file_leaves = λ path s. refl;
}

abbrev chart : Plugin
chart = record {
  id = 3;
  key = "chart-1";
  name = "chart";
  version = "1.0";
  state = installed;
  config = "";
  checksum = "ab";
  path = "plugins/chart-1.so";
  installed_at = 5;
  enabled_at = none;
}

abbrev with_chart : PluginTables
with_chart = record {
  plugins = chart ∷ [];
  extensions = (3, "view") ∷ (4, "hook") ∷ [];
  files = "plugins/chart-1.so" ∷ [];
}
