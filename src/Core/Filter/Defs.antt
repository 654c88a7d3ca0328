-- ===== src/Core/Filter/Defs.antt =====
-- The collector, which is the composed filter, and the manager of one kind of filters.
use aim_rt.Prelude.{List, [], ◌∷◌, map, Option, none, some, String, string_eq, if◌then◌else◌}
use aim_rt.Prelude.Map.{Map, find, emplace}
use aim_rt.Core.Lifecycle.{Outcome, done, thrown}

module _ (M W : Type 0) where
  abbrev pub Handle : Type 0
  Handle = M → W → W

  abbrev pub Filter : Type 0
  Filter = M → Handle → W → W

  pub record FilterManager : Type 0 where
    pub filter_map : Map String Filter
    pub filter_collector_map : Map String Filter
    pub filter_names_map : Map String (List String)

module _ {M W : Type 0} where
  -- A collector's `final_filter_` as constructed.
  unfoldable pub default_filter : Filter M W
  default_filter msg h = h msg

  -- `RegisterFilter` of a collector: the new filter goes outside.
  unfoldable pub register_in_collector : Filter M W → Filter M W → Filter M W
  register_in_collector final_filter filter msg h = filter msg (λ m. final_filter m h)

  -- `InvokeChannel`, `InvokeRpc`
  unfoldable pub invoke : Filter M W → Handle M W → M → W → W
  invoke final_filter h msg = final_filter msg h

  abbrev pub empty_manager : FilterManager M W
  empty_manager = record { filter_map = []; filter_collector_map = []; filter_names_map = [] }

  unfoldable pub register_filter :
      String → Filter M W → FilterManager M W → Outcome (FilterManager M W)
  register_filter name filter mgr =
      let (m, fresh) = emplace name filter mgr.filter_map in
      if fresh then done (record mgr { filter_map = m }) else thrown mgr

  unfoldable pub get_all_filters_name : FilterManager M W → List String
  get_all_filters_name mgr = map (λ e. e.0) mgr.filter_map

  -- The loop of `CreateFilterCollector`: `none` is the failed assertion on an unknown name.
  unfoldable pub collect : Map String (Filter M W) → Filter M W → List String → Option (Filter M W)
  unfolding register_in_collector
  collect filters acc [] = some acc
  collect filters acc (name ∷ names) = elim (find name filters) [
    | none ↦ none
    | some f ↦ collect filters (register_in_collector acc f) names
  ]

  store : String → List String → FilterManager M W → Filter M W → Outcome (FilterManager M W)
  store topic names mgr filter =
      let (m, fresh) = emplace topic filter mgr.filter_collector_map in
      if fresh
      then done (record mgr {
        filter_collector_map = m;
        filter_names_map = (emplace topic names mgr.filter_names_map).0;
      })
      else thrown mgr

  unfoldable pub create_filter_collector :
      String → List String → FilterManager M W → Outcome (FilterManager M W)
  unfolding collect default_filter store
  create_filter_collector topic [] mgr = done mgr
  create_filter_collector topic (name ∷ names) mgr =
      elim (collect mgr.filter_map default_filter (name ∷ names)) [
        | none ↦ thrown mgr
        | some f ↦ store topic (name ∷ names) mgr f
      ]

  unfoldable pub create_filter_collector_if_not_exist :
      String → List String → FilterManager M W → Outcome (FilterManager M W)
  unfolding create_filter_collector
  create_filter_collector_if_not_exist topic names mgr =
      elim (find topic mgr.filter_collector_map) [
        | none ↦ create_filter_collector topic names mgr
        | some f ↦ done mgr
      ]

  unfoldable pub get_filter_collector : String → FilterManager M W → Filter M W
  unfolding default_filter
  get_filter_collector topic mgr = elim (find topic mgr.filter_collector_map) [
    | none ↦ default_filter
    | some f ↦ f
  ]

  unfoldable pub get_filter_name_vec : String → FilterManager M W → List String
  get_filter_name_vec topic mgr = elim (find topic mgr.filter_names_map) [
    | none ↦ []
    | some names ↦ names
  ]

  unfoldable pub clear : FilterManager M W → FilterManager M W
  clear mgr = record mgr { filter_collector_map = []; filter_map = [] }
