-- ===== src/Domain/Ssr/Cache.antt =====
-- What renders take from the cache, and how they are counted.
use package.text.Mathlib.TextPositions.{eq_refl}
use arcana_cloud_go.Base.{
  ℕ, ◌+◌, ◌≤◌, ◌≡◌, refl, sym, subst, String, true, Option, none, some, List, [], ◌∷◌, le→ltb,
  if◌then◌else◌, arith,
}
use arcana_cloud_go.Domain.Ssr.{
  Framework, react, angular, SsrRenderResult, SsrService, Template, new_ssr_service,
  increment_renders, fresh_copy, get_from_cache, put_in_cache, rendered, missed, looked_up, render,
  clear_cache, cleanup,
}

-- The steps of the service.
pub data Step (P : Type 0) : Type 0 where
  rendering : ℕ → ℕ → ℕ → Framework → String → P → Step P
  clearing : Step P
  cleaning : ℕ → Step P

module _ {P : Type 0} (template : Template) where
  unfoldable pub run_step : Step P → SsrService P → SsrService P
  unfolding render clear_cache cleanup
  run_step (rendering now render_time at framework component props) s =
      (render template now render_time at framework component props s).1
  run_step clearing s = clear_cache s
  run_step (cleaning now) s = cleanup now s

  unfoldable pub run_steps : List (Step P) → SsrService P → SsrService P
  unfolding run_step
  run_steps [] s = s
  run_steps (step ∷ steps) s = run_steps steps (run_step step s)

  -- With the cache enabled each render is a hit or a miss.
  abbrev pub Counted : SsrService P → Type 0
  Counted s =
      (s.cache_enabled ≡ true)
      × (s.cache_hits + s.cache_misses ≡ s.react_renders + s.angular_renders)

  looked_up-Counted :
      (t at : ℕ) (framework : Framework) (component : String) (props : P)
      (o : Option (SsrRenderResult P)) (s : SsrService P)
      → s.cache_enabled ≡ true
      → s.cache_hits + s.cache_misses ≡ s.react_renders + s.angular_renders
      → Counted
          (looked_up template t at framework component props o (increment_renders framework s)).1
  unfolding looked_up missed put_in_cache increment_renders
  looked_up-Counted t at react component props none s on c = (on, omega arith)
  looked_up-Counted t at react component props (some result) s on c = (on, omega arith)
  looked_up-Counted t at angular component props none s on c = (on, omega arith)
  looked_up-Counted t at angular component props (some result) s on c = (on, omega arith)

  render-Counted :
      (now t at : ℕ) (framework : Framework) (component : String) (props : P) (s : SsrService P)
      → Counted s
      → Counted (render template now t at framework component props s).1
  unfolding render
  render-Counted now t at framework component props s (on, c) =
      subst
        (λ b.
          Counted
            (if b
              then looked_up template t at framework component props
                  (get_from_cache now (framework, component) s) (increment_renders framework s)
              else (
                rendered template framework component props t,
                increment_renders framework s,
              )).1)
        (sym on)
        (looked_up-Counted t at framework component props
          (get_from_cache now (framework, component) s) s on c)

  run_step-Counted : (step : Step P) (s : SsrService P) → Counted s → Counted (run_step step s)
  unfolding run_step clear_cache cleanup
  run_step-Counted clearing s c = c
  run_step-Counted (cleaning now) s c = c
  run_step-Counted (rendering now t at framework component props) s c =
      render-Counted now t at framework component props s c

  run_steps-Counted :
      (steps : List (Step P)) (s : SsrService P) → Counted s → Counted (run_steps steps s)
  unfolding run_steps
  run_steps-Counted [] s c = c
  run_steps-Counted (step ∷ steps) s c =
      run_steps-Counted steps (run_step step s) (run_step-Counted step s c)

  -- In every run of a new service with an enabled cache, renders, clearings and cleanups in any order, the
  -- hits and misses together are the renders of both frameworks.
  pub runs-Counted :
      (steps : List (Step P)) (ttl : ℕ) → Counted (run_steps steps (new_ssr_service true ttl))
  unfolding new_ssr_service
  runs-Counted steps ttl = run_steps-Counted steps (new_ssr_service true ttl) (refl, refl)

  -- With the cache enabled, a render that missed the cache is followed, until its entry expires, by the
  -- same result for the component whatever props are asked for: the state in it is that of the props of
  -- the first render, and the result is marked as cached.
  pub other_props_served :
      (now t at : ℕ) (framework : Framework) (component : String) (props : P) (s : SsrService P)
      (later t2 at2 : ℕ) (others : P)
      → s.cache_enabled ≡ true
      → get_from_cache now (framework, component) s ≡ none
      → later ≤ at + s.cache_ttl
      → let first = render template now t at framework component props s in
        let second = render template later t2 at2 framework component others first.1 in
        (first.0 ≡ rendered template framework component props t)
        × (second.0 ≡ record first.0 { cached = true })
        × (second.0.state ≡ props)
  unfolding render looked_up missed put_in_cache get_from_cache fresh_copy increment_renders
      rendered
  other_props_served now t at react component props s later t2 at2 others on miss alive =
      let live = le→ltb (at + s.cache_ttl) later alive in
      (
        simp (on, miss),
        simp (on, miss, eq_refl component, live),
        simp (on, miss, eq_refl component, live),
      )
  other_props_served now t at angular component props s later t2 at2 others on miss alive =
      let live = le→ltb (at + s.cache_ttl) later alive in
      (
        simp (on, miss),
        simp (on, miss, eq_refl component, live),
        simp (on, miss, eq_refl component, live),
      )
