-- ===== src/Core/Runtime.antt =====
-- src/runtime/core/aimrt_core.{h,cc}: the order in which the managers are initialised, started and
-- shut down, the hooks of the states, and the shutdown signal. A manager's method is an action on a
-- world `W`; what the core does for it besides (loggers, callbacks, reports, the wait before the
-- logger goes down) belongs to that action. A hook changes the world only.
pub mod Phases
use aim_rt.Prelude.{ℕ, ◌+◌, Bool, true, false, List, [], ◌∷◌, nat_eq, ◌==◌, if◌then◌else◌}
use aim_rt.Core.Lifecycle.{Outcome, done, thrown}

pub data Part : Type 0 where
  configurator plugin main_thread guard_thread executor log allocator rpc channel parameter
        modules :
      Part

-- `kPreInitRpc` is `pre_init_of rpc`, and so on.
pub data CoreState : Type 0 where
  pre_init post_init pre_start post_start pre_shutdown post_shutdown : CoreState
  pre_init_of post_init_of pre_start_of post_start_of : Part → CoreState
  pre_shutdown_of post_shutdown_of : Part → CoreState

-- The flag says that the method returned: where it is false, it threw.
pub record PartApi (W : Type 0) : Type 0 where
  pub initialize : Part → W → W × Bool
  pub start : Part → W → W × Bool
  pub shutdown : Part → W → W
  -- `CheckCfgFile`
  pub check : W → W × Bool
  -- Whether the log level admits `Info`.
  pub info_enabled : W → Bool
  -- The reports of the parts in `GenInitializationReport`.
  pub report : W → W × Bool
  pub hooks : CoreState → List (W → W)

pub record AimrtCore : Type 0 where
  pub state : CoreState
  pub shutdown_flag : Bool
  pub shutdown_impl_flag : Bool
  -- How often `shutdown_promise_` got its value; a second time would throw.
  pub promise_sets : ℕ
  -- `get_future` of the promise throws from its second call on.
  pub future_retrieved : Bool

abbrev pub fresh : AimrtCore
fresh = record {
  state = pre_init;
  shutdown_flag = false;
  shutdown_impl_flag = false;
  promise_sets = 0;
  future_retrieved = false;
}

abbrev pub is_post_init : CoreState → Bool
is_post_init post_init = true
is_post_init _ = false

abbrev pub init_order : List Part
init_order =
    configurator ∷ plugin ∷ main_thread ∷ guard_thread ∷ executor ∷ log ∷ allocator ∷ rpc ∷ channel
    ∷ parameter ∷ modules ∷ []

abbrev pub shutdown_order : List Part
shutdown_order =
    modules ∷ parameter ∷ channel ∷ rpc ∷ allocator ∷ log ∷ executor ∷ guard_thread ∷ main_thread
    ∷ plugin ∷ configurator ∷ []

module _ {W : Type 0} (api : PartApi W) where
  abbrev pub Sys : Type 0
  Sys = AimrtCore × W

  unfoldable pub run_hooks : List (W → W) → W → W
  run_hooks [] w = w
  run_hooks (h ∷ hs) w = run_hooks hs (h w)

  unfoldable pub enter_state : CoreState → Sys → Sys
  unfolding run_hooks
  enter_state s (c, w) = (record c { state = s }, run_hooks (api.hooks s) w)

  -- One part: the state before, the method, the state after.
  unfoldable pub phase : (W → W × Bool) → CoreState → CoreState → Sys → Outcome Sys
  unfolding enter_state
  phase act before after s =
      let (c, w) = enter_state before s in
      if (act w).1 then done (enter_state after (c, (act w).0)) else thrown (c, (act w).0)

  unfoldable pub phases :
      (Part → W → W × Bool)
      → (Part → CoreState)
      → (Part → CoreState)
      → List Part
      → Sys
      → Outcome Sys
  unfolding phase
  phases act before after [] s = done s
  phases act before after (p ∷ ps) s = elim (phase (act p) (before p) (after p) s) [
    | thrown s' ↦ thrown s'
    | done s' ↦ phases act before after ps s'
  ]

  unfoldable pub initialize : Sys → Outcome Sys
  unfolding phases
  initialize s =
      elim (phases api.initialize pre_init_of post_init_of init_order (enter_state pre_init s)) [
        | thrown s' ↦ thrown s'
        | done (c, w) ↦
            if (api.check w).1
            then done (enter_state post_init (c, (api.check w).0))
            else thrown (c, (api.check w).0)
      ]

  -- `GenInitializationReport` throws in any state but `kPostInit`.
  unfoldable pub gen_initialization_report : Sys → Sys × Bool
  gen_initialization_report (c, w) =
      let (w', made) = api.report w in
      if is_post_init c.state then ((c, w'), made) else ((c, w), false)

  -- The arguments of a log line are evaluated only where its level is admitted.
  unfoldable pub log_report : Sys → Sys × Bool
  unfolding gen_initialization_report
  log_report (c, w) =
      let logged = gen_initialization_report (c, w) in
      if api.info_enabled w then logged else ((c, w), true)

  unfoldable pub start_parts : Sys → Outcome Sys
  unfolding phases
  start_parts s =
      elim (phases api.start pre_start_of post_start_of init_order (enter_state pre_start s)) [
        | thrown s' ↦ thrown s'
        | done s' ↦ done (enter_state post_start s')
      ]

  unfoldable pub start_impl : Sys → Outcome Sys
  unfolding log_report start_parts
  start_impl s =
      let (s', returned) = log_report s in
      let started = start_parts s' in if returned then started else thrown s'

  unfoldable pub get_future : Sys → Outcome Sys
  get_future (c, w) =
      if c.future_retrieved then thrown (c, w) else done (record c { future_retrieved = true }, w)

  -- `Start` up to its wait, which is also what `AsyncStart` and its thread do until then.
  unfoldable pub start : Sys → Outcome Sys
  unfolding start_impl get_future
  start s = elim (start_impl s) [ thrown s' ↦ thrown s' | done s' ↦ get_future s' ]

  unfoldable pub shutdown_parts : List Part → Sys → Sys
  unfolding enter_state
  shutdown_parts [] s = s
  shutdown_parts (p ∷ ps) s =
      let (c, w) = enter_state (pre_shutdown_of p) s in
      shutdown_parts ps (enter_state (post_shutdown_of p) (c, api.shutdown p w))

  unfoldable pub shutdown_impl : Sys → Sys
  unfolding shutdown_parts
  shutdown_impl (c, w) =
      let s = enter_state pre_shutdown (record c { shutdown_impl_flag = true }, w) in
      if c.shutdown_impl_flag
      then (c, w)
      else enter_state post_shutdown (shutdown_parts shutdown_order s)

  -- `Shutdown`, which a signal handler may call at any time.
  unfoldable pub signal_shutdown : Sys → Sys
  signal_shutdown (c, w) =
      if c.shutdown_flag
      then (c, w)
      else (record c { shutdown_flag = true; promise_sets = c.promise_sets + 1 }, w)

  -- The thread that waits in `Start`, or that of `AsyncStart`: it goes on once the promise has its
  -- value.
  unfoldable pub on_promise : Sys → Sys
  unfolding shutdown_impl
  on_promise (c, w) = if c.promise_sets == 0 then (c, w) else shutdown_impl (c, w)
