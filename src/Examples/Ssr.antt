-- ===== src/Examples/Ssr.antt =====
-- Renders of one component with two props.
use arcana_cloud_go.Base.{◌≡◌, refl, String, List, true, [], ◌∷◌, arith}
use arcana_cloud_go.Domain.Ssr.{
  react, angular, SsrService, Template, new_ssr_service, rendered, render, get_from_cache,
}
use arcana_cloud_go.Domain.Ssr.Cache.{
  Step, rendering, clearing, cleaning, Counted, run_steps, runs-Counted, other_props_served,
}

abbrev plain : Template
plain framework component = component

abbrev service : SsrService String
service = record {
  cache = [];
  cache_enabled = true;
  cache_ttl = 10;
  react_renders = 0;
  angular_renders = 0;
  cache_hits = 0;
  cache_misses = 0;
}

other_props_served_example :
    let first = render plain 1 1 2 react "cart" "ann" service in
    let second = render plain 5 1 6 react "cart" "bob" first.1 in
    (first.0 ≡ rendered plain react "cart" "ann" 1)
    × (second.0 ≡ record first.0 { cached = true })
    × (second.0.state ≡ "ann")
unfolding get_from_cache
other_props_served_example =
    other_props_served plain 1 1 2 react "cart" "ann" service 5 1 6 "bob" refl refl (omega arith)

abbrev steps : List (Step String)
steps =
    rendering 1 1 2 react "cart" "ann"
    ∷ cleaning 20
    ∷ rendering 3 1 4 angular "cart" "bob"
    ∷ clearing
    ∷ []

runs-Counted_example : Counted plain (run_steps plain steps (new_ssr_service true 10))
runs-Counted_example = runs-Counted plain steps 10
