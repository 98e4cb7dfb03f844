-- ===== src/Examples/Config.antt =====
-- A default and a profile's configuration, and a server that answers with the profile's.
use arcana_cloud_go.Base.{
  ℕ, ◌≤◌, ◌≡◌, ◌≢◌, ◌⊎◌, refl, Bool, true, false, some, List, [], ◌∷◌, ◌==◌, ==_refl,
}
use arcana_cloud_go.Base.Int.{ℤ, pos, negsuc}
use arcana_cloud_go.Config.{text, float, object, Fields, end, field, Distinct, DistinctFields}
use arcana_cloud_go.Config.Merge.{deep_merge, at, deep_merge_wins}
use arcana_cloud_go.Config.Server.{Parser, Entry, Configs}
use arcana_cloud_go.Config.Client.{
  Answer, no_connection, sources, failed, panicked, ConfigClient, same_value, rounds, fetch_config,
  merge_property_sources,
}
use arcana_cloud_go.Config.Refresh.{fetch_bounded, refresh_panics}

abbrev base_config : Fields
base_config = field "server" (object (field "port" (float 1) (field "host" (text "a") end))) end

abbrev profile_config : Fields
profile_config = field "server" (object (field "port" (float 2) end)) end

profile_config-Distinct : DistinctFields profile_config
unfolding Distinct
profile_config-Distinct = (refl, (refl, tt, tt), tt)

deep_merge_wins_example :
    at ("server" ∷ "port" ∷ []) (some (object (deep_merge base_config profile_config)))
    ≡ some (float 2)
deep_merge_wins_example =
    deep_merge_wins ("server" ∷ "port" ∷ []) base_config profile_config (float 2)
      profile_config-Distinct refl refl

abbrev reads_all : Parser
reads_all format content = some profile_config

abbrev other_file : List Entry
other_file = record { is_dir = false; base = "bank-eu.yaml"; content = some "x" } ∷ []

abbrev loaded : Configs
loaded = ("shop/eu", profile_config) ∷ ("shop/default", base_config) ∷ []

abbrev same_nat : ℕ → ℕ → Bool
same_nat n m = n == m

abbrev same_int : ℤ → ℤ → Bool
same_int (pos n) (pos m) = n == m
same_int (pos n) (negsuc m) = false
same_int (negsuc n) (pos m) = false
same_int (negsuc n) (negsuc m) = n == m

same_int_refl : (n : ℤ) → same_int n n ≡ true
same_int_refl (pos n) = ==_refl n
same_int_refl (negsuc n) = ==_refl n

abbrev client : ConfigClient
client = record { retry_count = pos 3; cache = profile_config; notified = []; requests = 1 }

abbrev unreachable : ℕ → Answer
unreachable n = no_connection

abbrev answers_profile : ℕ → Answer
answers_profile n = sources (record { name = "shop/eu"; source = profile_config } ∷ [])

fetch_bounded_example :
    let out = fetch_config same_nat same_int unreachable client in
    ((out.0 ≡ failed) × (out.1 ≡ record client { requests = 5 }))
    ⊎ ((out.0 ≢ failed) × (out.1.requests ≤ 5))
unfolding rounds
fetch_bounded_example = fetch_bounded same_nat same_int unreachable client

refresh_panics_example : (fetch_config same_nat same_int answers_profile client).0 ≡ panicked
unfolding rounds merge_property_sources same_value
refresh_panics_example =
    refresh_panics same_nat same_int answers_profile
      (record { name = "shop/eu"; source = profile_config } ∷ []) 3 client ==_refl same_int_refl
      (refl, tt) ("server", object (field "port" (float 2) end), refl, refl) refl refl refl
