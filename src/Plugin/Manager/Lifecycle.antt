-- ===== src/Plugin/Manager/Lifecycle.antt =====
-- The order in which the manager calls a plugin's Init, Start and Stop.
use text.Mathlib.TextPositions.{eq_refl}
use arcana_cloud_go.Base.{
  ◌≡◌, refl, sym, ◌∙◌, subst, String, Bool, true, false, Option, none, some, List, [], ◌∷◌, str_eq,
  str_eq_iff, if◌then◌else◌, Bool-cases, Option-cases, inl, inr,
}
use arcana_cloud_go.Table.{
  find?, replace, delete, Unique, find?-Absent, Unique-replace, Unique-delete,
}
use arcana_cloud_go.Plugin.Manager.{
  started, stopped, ManagedPlugin, Call, inits, starts, stops, Manager, Opened, no_file, no_symbol,
  no_plugin, plugin, new_manager, is_started, add_plugin, load_plugin, broken, start_plugin,
  start_found, after_init, after_start, stop_plugin, stop_found, after_stop, unload_plugin,
  unload_found, stop_all, shutdown,
}
use arcana_cloud_go.Plugin.Manager.Calls.{
  active, Legal, started_at, started_at_found, started_at-Absent, started_at-replace,
  started_at-deleted, started_at-delete,
}

record Inv (m : Manager) : Type 0 where
  legal : Legal m.calls
  unique : Unique m.plugins
  agree : (k : String) → active k m.calls ≡ started_at k m.plugins
  not_closed : m.events_closed ≡ false

load-Inv : (o : Opened) (path : String) (m : Manager) → Inv m → Inv (load_plugin o path m).0
unfolding load_plugin add_plugin
load-Inv no_file path m inv = inv
load-Inv no_symbol path m inv = inv
load-Inv no_plugin path m inv = inv
load-Inv (plugin info) path m inv = elim (Option-cases (find? info.key m.plugins)) [
  | inl free ↦
      let absent = find?-Absent info.key m.plugins free in
      rw free (record {
        legal = inv.legal;
        not_closed = inv.not_closed;
        unique = (absent, inv.unique);
        agree = λ k. elim (Bool-cases (str_eq info.key k)) [
          | inl same ↦
              let key_same : info.key ≡ k = (str_eq_iff info.key k).0 same in
              rw same (
                inv.agree k
                ∙ subst (λ j. started_at j m.plugins ≡ false) key_same
                    (started_at-Absent info.key m.plugins absent))
          | inr other ↦ rw other (inv.agree k)
        ];
      })
  | inr (old, taken) ↦ rw taken inv
]

-- A call on a plugin, and its new state, which agree.
put-Inv :
    (key : String) (p old : ManagedPlugin) (calls : List Call) (m : Manager)
    → find? key m.plugins ≡ some old
    → Legal calls
    → ((k : String)
        → active k calls ≡ (if str_eq key k then is_started p.state else active k m.calls))
    → Inv m
    → Inv (record m { plugins = replace key p m.plugins; calls = calls })
put-Inv key p old calls m found ok effect inv = record {
  legal = ok;
  not_closed = inv.not_closed;
  unique = Unique-replace key p m.plugins inv.unique;
  agree = λ k.
      effect k ∙ (rw (inv.agree k) refl) ∙ sym (started_at-replace k key p old m.plugins found);
}

idle-at :
    (key : String) (p : ManagedPlugin) (b : Bool) (m : Manager)
    → find? key m.plugins ≡ some p
    → is_started p.state ≡ b
    → Inv m
    → active key m.calls ≡ b
idle-at key p b m found state inv = inv.agree key ∙ started_at_found key m.plugins p found ∙ state

if_same :
    (key k : String) (b : Bool) (calls : List Call)
    → active key calls ≡ b
    → active k calls ≡ (if str_eq key k then b else active k calls)
if_same key k b calls e = elim (Bool-cases (str_eq key k)) [
  | inl same ↦ rw same (subst (λ j. active j calls ≡ b) ((str_eq_iff key k).0 same) e)
  | inr other ↦ rw other refl
]

init-Inv :
    (init_error start_error : Option String) (key : String) (config : List (String × String))
    (p : ManagedPlugin) (m : Manager)
    → find? key m.plugins ≡ some p
    → active key m.calls ≡ false
    → Inv m
    → Inv (after_init init_error start_error key config p m).0
unfolding after_init after_start
init-Inv (some e) start_error key config p m found idle inv =
    put-Inv key (broken e p) p (inits key ∷ m.calls) m found (idle, inv.legal)
      (λ k. if_same key k false m.calls idle) inv
init-Inv none (some e) key config p m found idle inv =
    put-Inv key (broken e p) p (starts key false ∷ inits key ∷ m.calls) m found
      (eq_refl key, (idle, inv.legal)) (λ k. refl) inv
init-Inv none none key config p m found idle inv =
    put-Inv key (record p { state = started; config = config }) p
      (starts key true ∷ inits key ∷ m.calls) m found (eq_refl key, (idle, inv.legal)) (λ k. refl)
      inv

start-Inv :
    (init_error start_error : Option String) (key : String) (config : List (String × String))
    (m : Manager)
    → Inv m
    → Inv (start_plugin init_error start_error key config m).0
unfolding start_plugin start_found
start-Inv init_error start_error key config m inv = elim (Option-cases (find? key m.plugins)) [
  | inl missing ↦ rw missing inv
  | inr (p, found) ↦ elim (Bool-cases (is_started p.state)) [
    | inl runs ↦ rw (found, runs) inv
    | inr idle ↦
        rw (found, idle)
          (init-Inv init_error start_error key config p m found
            (idle-at key p false m found idle inv) inv)
  ]
]

stopped-Inv :
    (stop_error : Option String) (key : String) (p : ManagedPlugin) (m : Manager)
    → find? key m.plugins ≡ some p
    → active key m.calls ≡ true
    → Inv m
    → Inv (after_stop stop_error key p m).0
unfolding after_stop
stopped-Inv (some e) key p m found runs inv =
    put-Inv key (broken e p) p (stops key ∷ m.calls) m found (runs, inv.legal) (λ k. refl) inv
stopped-Inv none key p m found runs inv =
    put-Inv key (record p { state = stopped }) p (stops key ∷ m.calls) m found (runs, inv.legal)
      (λ k. refl) inv

stop-Inv :
    (stop_error : Option String) (key : String) (m : Manager)
    → Inv m
    → Inv (stop_plugin stop_error key m).0
unfolding stop_plugin stop_found
stop-Inv stop_error key m inv = elim (Option-cases (find? key m.plugins)) [
  | inl missing ↦ rw missing inv
  | inr (p, found) ↦ elim (Bool-cases (is_started p.state)) [
    | inl runs ↦
        rw (found, runs)
          (stopped-Inv stop_error key p m found (idle-at key p true m found runs inv) inv)
    | inr idle ↦ rw (found, idle) inv
  ]
]

delete-Inv :
    (key : String) (calls : List Call) (m : Manager)
    → Legal calls
    → ((k : String) → active k calls ≡ (if str_eq key k then false else active k m.calls))
    → Inv m
    → Inv (record m { plugins = delete key m.plugins; calls = calls })
delete-Inv key calls m ok effect inv = record {
  legal = ok;
  not_closed = inv.not_closed;
  unique = Unique-delete key m.plugins inv.unique;
  agree = λ k. effect k ∙ elim (Bool-cases (str_eq key k)) [
    | inl same ↦ rw same (
        sym (
          subst (λ j. started_at j (delete key m.plugins) ≡ false) ((str_eq_iff key k).0 same)
            (started_at-deleted key m.plugins)))
    | inr other ↦ rw (other, started_at-delete k key m.plugins other) (inv.agree k)
  ];
}

unload-Inv : (key : String) (m : Manager) → Inv m → Inv (unload_plugin key m).0
unfolding unload_plugin unload_found
unload-Inv key m inv = elim (Option-cases (find? key m.plugins)) [
  | inl missing ↦ rw missing inv
  | inr (p, found) ↦ elim (Bool-cases (is_started p.state)) [
    | inl runs ↦
        rw (found, runs)
          (delete-Inv key (stops key ∷ m.calls) m (idle-at key p true m found runs inv, inv.legal)
            (λ k. refl) inv)
    | inr idle ↦
        rw (found, idle)
          (delete-Inv key m.calls m inv.legal
            (λ k. if_same key k false m.calls (idle-at key p false m found idle inv)) inv)
  ]
]

-- All the running plugins are in the table: then none runs after the loop.
stop_all-Legal :
    (t : List (String × ManagedPlugin)) (calls : List Call)
    → Unique t
    → Legal calls
    → ((k : String) → active k calls ≡ started_at k t)
    → Legal (stop_all t calls) × ((k : String) → active k (stop_all t calls) ≡ false)
unfolding stop_all
stop_all-Legal [] calls u ok agree = (ok, agree)
stop_all-Legal ((j, p) ∷ t) calls (absent, u) ok agree = elim (Bool-cases (is_started p.state)) [
  | inl runs ↦ rw runs (
      stop_all-Legal t (stops j ∷ calls) u (agree j ∙ rw (eq_refl j, runs) refl, ok)
        (λ k. elim (Bool-cases (str_eq j k)) [
          | inl same ↦ rw same (
              sym (
                subst (λ i. started_at i t ≡ false) ((str_eq_iff j k).0 same)
                  (started_at-Absent j t absent)))
          | inr other ↦ rw other (agree k ∙ rw other refl)
        ]))
  | inr idle ↦ rw idle (
      stop_all-Legal t calls u ok (λ k. elim (Bool-cases (str_eq j k)) [
        | inl same ↦
            agree k
            ∙ rw (same, idle) refl
            ∙ sym (
                subst (λ i. started_at i t ≡ false) ((str_eq_iff j k).0 same)
                  (started_at-Absent j t absent))
        | inr other ↦ agree k ∙ rw other refl
      ]))
]

-- A method of the manager, with what the plugin's code answers.
pub data Op : Type 0 where
  load : Opened → String → Op
  start : Option String → Option String → String → List (String × String) → Op
  stop : Option String → String → Op
  unload : String → Op

pub apply : Op → Manager → Manager
apply (load o path) m = (load_plugin o path m).0
apply (start init_error start_error key config) m =
    (start_plugin init_error start_error key config m).0
apply (stop stop_error key) m = (stop_plugin stop_error key m).0
apply (unload key) m = (unload_plugin key m).0

pub run_ops : List Op → Manager → Manager
run_ops [] m = m
run_ops (o ∷ os) m = run_ops os (apply o m)

apply-Inv : (o : Op) (m : Manager) → Inv m → Inv (apply o m)
unfolding apply
apply-Inv (load o path) m inv = load-Inv o path m inv
apply-Inv (start e e' key config) m inv = start-Inv e e' key config m inv
apply-Inv (stop e key) m inv = stop-Inv e key m inv
apply-Inv (unload key) m inv = unload-Inv key m inv

run_ops-Inv : (os : List Op) (m : Manager) → Inv m → Inv (run_ops os m)
unfolding run_ops
run_ops-Inv [] m inv = inv
run_ops-Inv (o ∷ os) m inv = run_ops-Inv os (apply o m) (apply-Inv o m inv)

-- Whatever is loaded, started, stopped and unloaded from a new manager on, and whatever the plugins
-- answer: Init is called only on a plugin that does not run, Start only directly after Init of the same
-- plugin, Stop only on a plugin that runs; and a plugin runs, by the calls, exactly if the table has it
-- as started.
pub run_ops-Legal :
    (os : List Op)
    → let m = run_ops os new_manager in
      Legal m.calls × ((k : String) → active k m.calls ≡ started_at k m.plugins)
unfolding new_manager
run_ops-Legal os =
    let inv =
      run_ops-Inv os new_manager
        (record { legal = tt; unique = tt; agree = λ k. refl; not_closed = refl }) in
    (inv.legal, inv.agree)

-- After any such sequence, `Shutdown` stops every plugin that runs, each once, and empties the table.
pub shutdown-Legal :
    (os : List Op)
    → (m : Manager) × (shutdown (run_ops os new_manager) ≡ some m)
      × Legal m.calls
      × ((k : String) → active k m.calls ≡ false)
      × (m.plugins ≡ [])
unfolding new_manager shutdown
shutdown-Legal os =
    let inv =
      run_ops-Inv os new_manager
        (record { legal = tt; unique = tt; agree = λ k. refl; not_closed = refl }) in
    let m = run_ops os new_manager in
    let (ok, idle) = stop_all-Legal m.plugins m.calls inv.unique inv.legal inv.agree in
    (
      record { plugins = []; calls = stop_all m.plugins m.calls; events_closed = true },
      rw inv.not_closed refl,
      ok,
      idle,
      refl,
    )
