-- ===== src/Executor/Manager.antt =====
-- src/runtime/core/executor/executor_manager.{h,cc}. `X` are the
-- executors, which live in the outside world `W`, and `N` the nodes of their options. Each call of a
-- factory makes an executor in that world and returns it, or none.
pub mod Creation
pub mod Starting
use aim_rt.Prelude.{
  Bool, true, false, not, ◌&&◌, ◌||◌, List, [], ◌∷◌, ◌++◌, Option, none, some, String, string_eq,
  ◌==◌, if◌then◌else◌,
}
use aim_rt.Prelude.Map.{Map, find, emplace}
use aim_rt.Core.Lifecycle.{
  State, pre_init, init, start, shutdown, Outcome, done, thrown, is_pre_init, is_init, is_shutdown,
}
use aim_rt.Core.Backends.{tell_all}

pub record ExecutorOptions (N : Type 0) : Type 0 where
  pub name : String
  pub type : String
  pub options : N

-- `ExecutorBase`: a flag says that the call returned.
pub record ExecutorApi (X N W : Type 0) : Type 0 where
  pub name : X → String
  pub type : X → String
  pub initialize : String → N → X → W → W × Bool
  pub start : X → W → W × Bool
  pub shutdown : X → W → W

abbrev pub GenFunc : Type 0 → Type 0 → Type 0
GenFunc X W = W → W × Option X

pub record ExecutorManager (X N W : Type 0) : Type 0 where
  pub options : List (ExecutorOptions N)
  pub state : State
  pub executor_gen_func_map : Map String (GenFunc X W)
  pub used_executor_names : List String
  pub executor_vec : List X
  pub executor_proxy_map : Map String X
  -- The proxies of the modules all refer to `executor_proxy_map`.
  pub executor_manager_proxy_map : Map String (Unit {0})

abbrev pub Sys : Type 0 → Type 0 → Type 0 → Type 0
Sys X N W = ExecutorManager X N W × W

abbrev pub is_used : String → List String → Bool
is_used n [] = false
is_used n (x ∷ xs) = x == n || is_used n xs

abbrev pub is_known : {X : Type 0} → Option X → Bool
is_known none = false
is_known (some x) = true

-- A call of the factory, if there is one.
abbrev pub make : {X W : Type 0} → Option (GenFunc X W) → W → W × Option X
make none w = (w, none)
make (some f) w = f w

module _ {X N W : Type 0} where
  abbrev pub new_manager : ExecutorManager X N W
  new_manager = record {
    options = [];
    state = pre_init;
    executor_gen_func_map = [];
    used_executor_names = [];
    executor_vec = [];
    executor_proxy_map = [];
    executor_manager_proxy_map = [];
  }

  -- `emplace` keeps the factory that was registered first.
  unfoldable pub register_executor_gen_func :
      String → GenFunc X W → ExecutorManager X N W → Outcome (ExecutorManager X N W)
  register_executor_gen_func type f m =
      if is_pre_init m.state
      then done (record m { executor_gen_func_map = (emplace type f m.executor_gen_func_map).0 })
      else thrown m

  unfoldable pub register_all :
      List (String × GenFunc X W) → ExecutorManager X N W → Outcome (ExecutorManager X N W)
  unfolding register_executor_gen_func
  register_all [] m = done m
  register_all ((type, f) ∷ fs) m = elim (register_executor_gen_func type f m) [
    | thrown m' ↦ thrown m'
    | done m' ↦ register_all fs m'
  ]

  unfoldable pub set_used_executor_name : String → ExecutorManager X N W → ExecutorManager X N W
  set_used_executor_name n m = record m { used_executor_names = n ∷ m.used_executor_names }

  unfoldable pub get_executor : String → ExecutorManager X N W → Option X
  get_executor n m = find n m.executor_proxy_map

  -- `GetExecutorManagerProxy`, and `GetExecutor` of the proxy.
  unfoldable pub get_executor_manager_proxy :
      String → ExecutorManager X N W → Outcome (ExecutorManager X N W)
  get_executor_manager_proxy module_name m =
      if is_init m.state
      then done (record m {
        executor_manager_proxy_map = (emplace module_name tt m.executor_manager_proxy_map).0;
      })
      else thrown m

-- The factories that `Initialize` registers, in its order.
abbrev pub builtin_types : List String
builtin_types = "asio_thread" ∷ "asio_strand" ∷ "tbb_thread" ∷ "simple_thread" ∷ "time_wheel" ∷ []

abbrev pub with_factory :
    {X W : Type 0} → (String → GenFunc X W) → List String → List (String × GenFunc X W)
with_factory f [] = []
with_factory f (t ∷ ts) = (t, f t) ∷ with_factory f ts

module _ {X N W : Type 0} (api : ExecutorApi X N W) where
  -- The handle that a strand asks for: an executor of the type and the name.
  unfoldable pub get_asio_handle : String → List X → Option X
  get_asio_handle n [] = none
  get_asio_handle n (x ∷ xs) =
      let rest = get_asio_handle n xs in
      if api.type x == "asio_thread" && api.name x == n then some x else rest

  -- An executor is initialized before it is stored.
  unfoldable pub install : ExecutorOptions N → X → Sys X N W → Outcome (Sys X N W)
  install o x (m, w) =
      let (w', returned) = api.initialize o.name o.options x w in
      let m' = record m {
        executor_proxy_map = (emplace o.name x m.executor_proxy_map).0;
        executor_vec = m.executor_vec ++ x ∷ [];
      } in
      if returned then done (m', w') else thrown (m, w')

  unfoldable pub generate : ExecutorOptions N → Sys X N W → Outcome (Sys X N W)
  unfolding install
  generate o s =
      if is_known (find o.name s.0.executor_proxy_map) || is_used o.name s.0.used_executor_names
      then thrown s
      else let (w, made) = make (find o.type s.0.executor_gen_func_map) s.1 in
        elim made [ none ↦ thrown (s.0, w) | some x ↦ install o x (s.0, w) ]

  unfoldable pub generate_all : List (ExecutorOptions N) → Sys X N W → Outcome (Sys X N W)
  unfolding generate
  generate_all [] s = done s
  generate_all (o ∷ os) s = elim (generate o s) [
    | thrown s' ↦ thrown s'
    | done s' ↦ generate_all os s'
  ]

  -- The factories are registered before the state is exchanged, so a second call fails there.
  unfoldable pub initialize :
      (String → GenFunc X W) → Option (List (ExecutorOptions N)) → Sys X N W → Outcome (Sys X N W)
  unfolding register_all generate_all
  initialize factory node (m, w) = elim (register_all (with_factory factory builtin_types) m) [
    | thrown m' ↦ thrown (m', w)
    | done m' ↦
        let os : List (ExecutorOptions N) = elim node [ none ↦ m'.options | some os ↦ os ] in
        let ready : ExecutorManager X N W = record m' { state = init; options = os } in
        let all = generate_all os (ready, w) in
        if is_pre_init m'.state then all else thrown (record m' { state = init }, w)
  ]

  -- A `Start` that throws leaves the executors after it unstarted.
  unfoldable pub start_all : List X → W → Outcome W
  start_all [] w = done w
  start_all (x ∷ xs) w =
      let (w', returned) = api.start x w in
      let rest = start_all xs w' in if returned then rest else thrown w'

  unfoldable pub start_manager : Sys X N W → Outcome (Sys X N W)
  unfolding start_all
  start_manager (m, w) =
      let m' = record m { state = start } in
      let started : Outcome (Sys X N W) = elim (start_all m.executor_vec w) [
        | done w' ↦ done (m', w')
        | thrown w' ↦ thrown (m', w')
      ] in
      if is_init m.state then started else thrown (m', w)

  unfoldable pub shutdown_manager : Sys X N W → Sys X N W
  shutdown_manager (m, w) = if is_shutdown m.state then (m, w) else (
    record m {
      state = shutdown;
      executor_manager_proxy_map = [];
      executor_proxy_map = [];
      executor_vec = [];
      executor_gen_func_map = [];
    },
    tell_all api.shutdown m.executor_vec w,
  )
