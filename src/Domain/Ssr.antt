-- ===== src/Domain/Ssr.antt =====
-- internal/domain/service/impl/ssr_service_impl.go. The props are of any type, and the clock's readings
-- are arguments. The maps of the cache and of the statistics have locks of their own, and one render
-- after the other is modelled.
pub mod Cache
use arcana_cloud_go.Base.{
  ℕ, ◌+◌, String, Bool, true, false, Option, none, some, List, [], ◌∷◌, str_eq, ltb, if◌then◌else◌,
}

pub data Framework : Type 0 where
  react angular : Framework

pub record SsrRenderResult (P : Type 0) : Type 0 where
  pub html : String
  pub css : String
  pub scripts : List String
  pub state : P
  pub render_time : ℕ
  pub cached : Bool

pub record SsrCacheEntry (P : Type 0) : Type 0 where
  pub key : Framework × String  -- "react:" or "angular:" in front of the component
  pub result : SsrRenderResult P
  pub expires_at : ℕ

-- The cache has the latest entry first; an entry whose key comes again is not there any more.
pub record SsrService (P : Type 0) : Type 0 where
  pub cache : List (SsrCacheEntry P)
  pub cache_enabled : Bool
  pub cache_ttl : ℕ
  pub react_renders : ℕ
  pub angular_renders : ℕ
  pub cache_hits : ℕ
  pub cache_misses : ℕ

abbrev pub same_framework : Framework → Framework → Bool
same_framework react react = true
same_framework react angular = false
same_framework angular react = false
same_framework angular angular = true

abbrev pub same_key : Framework × String → Framework × String → Bool
same_key (f, c) (g, d) = if same_framework f g then str_eq c d else false

-- The template's text is the argument, and the props in it are always written as {}.
abbrev pub Template : Type 0
Template = Framework → String → String

unfoldable pub script_of : Framework → String
script_of react = "/static/react/bundle.js"
script_of angular = "/static/angular/main.js"

module _ {P : Type 0} where
  unfoldable pub new_ssr_service : Bool → ℕ → SsrService P
  new_ssr_service cache_enabled cache_ttl = record {
    cache = [];
    cache_enabled = cache_enabled;
    cache_ttl = cache_ttl;
    react_renders = 0;
    angular_renders = 0;
    cache_hits = 0;
    cache_misses = 0;
  }

  unfoldable pub increment_renders : Framework → SsrService P → SsrService P
  increment_renders react s = record s { react_renders = s.react_renders + 1 }
  increment_renders angular s = record s { angular_renders = s.angular_renders + 1 }

  abbrev pub find_entry : Framework × String → List (SsrCacheEntry P) → Option (SsrCacheEntry P)
  find_entry k [] = none
  find_entry k (e ∷ l) = if same_key e.key k then some e else find_entry k l

  abbrev pub without_key : Framework × String → List (SsrCacheEntry P) → List (SsrCacheEntry P)
  without_key k [] = []
  without_key k (e ∷ l) = let rest = without_key k l in if same_key e.key k then rest else e ∷ rest

  -- A copy, without the mark of a cached result.
  unfoldable pub fresh_copy : ℕ → Option (SsrCacheEntry P) → Option (SsrRenderResult P)
  fresh_copy now none = none
  fresh_copy now (some e) =
      if ltb e.expires_at now then none else some (record e.result { cached = false })

  unfoldable pub get_from_cache : ℕ → Framework × String → SsrService P → Option (SsrRenderResult P)
  unfolding fresh_copy
  get_from_cache now k s = fresh_copy now (find_entry k s.cache)

  unfoldable pub put_in_cache :
      ℕ → Framework × String → SsrRenderResult P → SsrService P → SsrService P
  put_in_cache now k result s =
      let entry : SsrCacheEntry P = record {
        key = k;
        result = result;
        expires_at = now + s.cache_ttl;
      } in
      record s { cache = entry ∷ without_key k s.cache }

  module _ (template : Template) where
    unfoldable pub rendered : Framework → String → P → ℕ → SsrRenderResult P
    unfolding script_of
    rendered framework component props render_time = record {
      html = template framework component;
      css = "";
      scripts = script_of framework ∷ [];
      state = props;
      render_time = render_time;
      cached = false;
    }

    -- What follows a miss; it takes `render_time` and ends at `at`.
    unfoldable pub missed :
        ℕ → ℕ → Framework → String → P → SsrService P → SsrRenderResult P × SsrService P
    unfolding rendered put_in_cache
    missed render_time at framework component props s =
        let result = rendered framework component props render_time in
        (
          result,
          put_in_cache at (framework, component) result
              (record s { cache_misses = s.cache_misses + 1 }),
        )

    unfoldable pub looked_up :
        ℕ
        → ℕ
        → Framework
        → String
        → P
        → Option (SsrRenderResult P)
        → SsrService P
        → SsrRenderResult P × SsrService P
    unfolding missed
    looked_up render_time at framework component props none s =
        missed render_time at framework component props s
    looked_up render_time at framework component props (some result) s =
        (record result { cached = true }, record s { cache_hits = s.cache_hits + 1 })

    -- `RenderReact` and `RenderAngular`, which look into the cache at `now`.
    unfoldable pub render :
        ℕ → ℕ → ℕ → Framework → String → P → SsrService P → SsrRenderResult P × SsrService P
    unfolding looked_up get_from_cache increment_renders rendered
    render now render_time at framework component props s =
        let counted = increment_renders framework s in
        if s.cache_enabled
        then looked_up render_time at framework component props
            (get_from_cache now (framework, component) s) counted
        else (rendered framework component props render_time, counted)

  unfoldable pub clear_cache : SsrService P → SsrService P
  clear_cache s = record s { cache = [] }

  abbrev pub keep_live : ℕ → List (SsrCacheEntry P) → List (SsrCacheEntry P)
  keep_live now [] = []
  keep_live now (e ∷ l) =
      let rest = keep_live now l in if ltb e.expires_at now then rest else e ∷ rest

  -- A tick of `cleanupCache`.
  unfoldable pub cleanup : ℕ → SsrService P → SsrService P
  cleanup now s = record s { cache = keep_live now s.cache }
