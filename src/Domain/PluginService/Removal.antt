-- ===== src/Domain/PluginService/Removal.antt =====
-- What an uninstalled plugin leaves, on a database that answers.
use arcana_cloud_go.Base.{◌≡◌, String, true, false, not, some, ◌==◌, str_eq, keep, All, All-keep}
use arcana_cloud_go.Action.{ok}
use arcana_cloud_go.Jobs.RedisQueue.{is_empty}
use arcana_cloud_go.Domain.Repository.{first}
use arcana_cloud_go.Domain.PluginService.{Plugin, PluginStore, PluginTables, IsPluginDb, uninstall}

module _ (r : PluginStore) (tables : r.State → PluginTables) (db : IsPluginDb r tables) where
  -- On a database that answers, `Uninstall` of a known plugin with a file leaves no row of its key, no
  -- extension of its id and no file at its path, where a file that exists can be removed.
  pub uninstall_clean :
      (key : String) (p : Plugin) (s : r.State)
      → first (λ q. str_eq q.key key) (tables s).plugins ≡ some p
      → is_empty p.path ≡ false
      → let out = uninstall r key s in
        let d = tables out.1 in
        (out.0 ≡ ok tt)
        × All (λ q. not (str_eq q.key key) ≡ true) d.plugins
        × All (λ e. not (e.0 == p.id) ≡ true) d.extensions
        × All (λ f. not (str_eq f p.path) ≡ true) d.files
  unfolding uninstall
  uninstall_clean key p s there has_file =
      let d = tables s in
      let left : tables (uninstall r key s).1 ≡ record {
        plugins = keep (λ q. not (str_eq q.key key)) d.plugins;
        extensions = keep (λ e. not (e.0 == p.id)) d.extensions;
        files = keep (λ f. not (str_eq f p.path)) d.files;
      } =
        simp (
          db.get_by_key_reply, there, has_file, db.delete_extensions_reply, db.delete_by_key_leaves,
          db.remove_file_leaves, db.delete_extensions_leaves, db.get_by_key_leaves,
        ) in
      (
        simp (
          db.get_by_key_reply, there, has_file, db.delete_extensions_reply, db.delete_by_key_reply,
        ),
        rw left (All-keep (λ q. not (str_eq q.key key)) d.plugins),
        rw left (All-keep (λ e. not (e.0 == p.id)) d.extensions),
        rw left (All-keep (λ f. not (str_eq f p.path)) d.files),
      )
