-- ===== src/Domain/PluginService/Switching.antt =====
-- Enabling and disabling, on a database that answers.
use arcana_cloud_go.Base.{
  ℕ, ◌≡◌, refl, ap, ◌∙◌, String, Bool, true, false, Option, none, some, List, [], ◌∷◌, ◌==◌,
  ==_refl, str_eq, map, if◌then◌else◌, Bool-cases, ◌⊎◌, inl, inr,
}
use arcana_cloud_go.Action.{ok}
use arcana_cloud_go.Domain.Repository.{first}
use arcana_cloud_go.Domain.PluginService.{
  Plugin, PluginState, installed, enabled, disabled, uninstalled, failed, other, PluginStore,
  PluginTables, IsPluginDb, stamp_state, set_state, enable, disable,
}

abbrev pub by_key : String → Plugin → Bool
by_key key p = str_eq p.key key

pub stamp_state-key : (now : ℕ) (st : PluginState) (p : Plugin) → (stamp_state now st p).key ≡ p.key
stamp_state-key now installed p = refl
stamp_state-key now enabled p = refl
stamp_state-key now disabled p = refl
stamp_state-key now uninstalled p = refl
stamp_state-key now failed p = refl
stamp_state-key now (other t) p = refl

set_state-key : (now id : ℕ) (st : PluginState) (p : Plugin) → (set_state now id st p).key ≡ p.key
set_state-key now id st p = elim (Bool-cases (p.id == id)) [
  | inl same ↦ rw same (stamp_state-key now st p)
  | inr differs ↦ rw differs refl
]

-- A change of states finds the same rows.
first-set_state :
    (key : String) (now id : ℕ) (st : PluginState) (l : List Plugin) (p : Plugin)
    → first (by_key key) l ≡ some p
    → first (by_key key) (map (set_state now id st) l) ≡ some (set_state now id st p)
first-set_state key now id st [] p e = cc
first-set_state key now id st (q ∷ l) p e = elim (Bool-cases (by_key key q)) [
  | inl here ↦
      ap choose (keys ∙ here)
      ∙ ap (λ (o : Option Plugin). elim o [ none ↦ none | some x ↦ some (set_state now id st x) ])
          (taken here ∙ e)
  | inr elsewhere ↦
      ap choose (keys ∙ elsewhere) ∙ first-set_state key now id st l p (rest elsewhere ∙ e)
]
  where
    choose : Bool → Option Plugin
    choose = λ b.
        if b then some (set_state now id st q) else first (by_key key) (map (set_state now id st) l)

    keys : by_key key (set_state now id st q) ≡ by_key key q
    keys = ap (λ k. str_eq k key) (set_state-key now id st q)

    taken : by_key key q ≡ true → some q ≡ first (by_key key) (q ∷ l)
    taken h = rw h refl

    rest : by_key key q ≡ false → first (by_key key) l ≡ first (by_key key) (q ∷ l)
    rest h = rw h refl

module _ (r : PluginStore) (tables : r.State → PluginTables) (db : IsPluginDb r tables) where
  enable_up :
      (stored now : ℕ) (key : String) (p : Plugin) (s : r.State)
      → first (by_key key) (tables s).plugins ≡ some p
      → (p.state ≡ installed) ⊎ (p.state ≡ disabled)
      → let out = enable r stored now key s in
        (out.0 ≡ ok (record p { state = enabled; enabled_at = some now }))
        × (first (by_key key) (tables out.1).plugins
            ≡ some (record p { state = enabled; enabled_at = some stored }))
  unfolding enable
  enable_up stored now key p s there (inl off) = (
    simp (db.get_by_key_reply, there, off, db.update_state_reply),
    simp (
      db.get_by_key_reply,
      there,
      off,
      db.update_state_reply,
      db.update_state_leaves,
      db.get_by_key_leaves,
      first-set_state key stored p.id enabled (tables s).plugins p there,
      ==_refl,
    ),
  )
  enable_up stored now key p s there (inr off) = (
    simp (db.get_by_key_reply, there, off, db.update_state_reply),
    simp (
      db.get_by_key_reply,
      there,
      off,
      db.update_state_reply,
      db.update_state_leaves,
      db.get_by_key_leaves,
      first-set_state key stored p.id enabled (tables s).plugins p there,
      ==_refl,
    ),
  )

  disable_up :
      (stored : ℕ) (key : String) (p : Plugin) (s : r.State)
      → first (by_key key) (tables s).plugins ≡ some p
      → p.state ≡ enabled
      → let out = disable r stored key s in
        (out.0 ≡ ok (record p { state = disabled }))
        × (first (by_key key) (tables out.1).plugins ≡ some (record p { state = disabled }))
  unfolding disable
  disable_up stored key p s there on = (
    simp (db.get_by_key_reply, there, on, db.update_state_reply),
    simp (
      db.get_by_key_reply,
      there,
      on,
      db.update_state_reply,
      db.update_state_leaves,
      db.get_by_key_leaves,
      first-set_state key stored p.id disabled (tables s).plugins p there,
      ==_refl,
    ),
  )

  -- On a database that answers, a known plugin that is installed or disabled is enabled by `Enable`, and the
  -- `Disable` after it disables it; its row keeps all else, and the time at which it was enabled.
  pub enable-disable :
      (stored now later : ℕ) (key : String) (p : Plugin) (s : r.State)
      → first (by_key key) (tables s).plugins ≡ some p
      → (p.state ≡ installed) ⊎ (p.state ≡ disabled)
      → let on = enable r stored now key s in
        let off = disable r later key on.1 in
        (on.0 ≡ ok (record p { state = enabled; enabled_at = some now }))
        × (first (by_key key) (tables on.1).plugins
            ≡ some (record p { state = enabled; enabled_at = some stored }))
        × (off.0 ≡ ok (record p { state = disabled; enabled_at = some stored }))
        × (first (by_key key) (tables off.1).plugins
            ≡ some (record p { state = disabled; enabled_at = some stored }))
  enable-disable stored now later key p s there idle =
      let (e, c) = enable_up stored now key p s there idle in
      let (e', c') =
        disable_up later key (record p { state = enabled; enabled_at = some stored })
          (enable r stored now key s).1 c refl in
      (e, c, e', c')
