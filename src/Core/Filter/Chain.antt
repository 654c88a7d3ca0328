-- ===== src/Core/Filter/Chain.antt =====
-- Framework filters: the order in which a chain runs, and who may be on it.
use aim_rt.Prelude.{
  ◌≡◌, refl, sym, ap, ◌∙◌, List, [], ◌∷◌, ◌++◌, none, some, String, string_eq, Option-cases, inl,
  inr, All,
}
use aim_rt.Prelude.Map.{Map, find, emplace, emplace-new, find_head}
use aim_rt.Core.Lifecycle.{done, thrown}
use aim_rt.Core.Filter.Defs.{
  FilterManager, Filter, Handle, default_filter, register_in_collector, invoke,
  create_filter_collector, create_filter_collector_if_not_exist, collect, get_filter_collector,
}

module _ {M W : Type 0} where
  -- The chain that `names` mean: the last name is the outermost filter.
  abbrev pub chained : Map String (Filter M W) → List String → Handle M W → Handle M W
  chained filters [] h = h
  chained filters (name ∷ names) h = elim (find name filters) [
    | none ↦ chained filters names h
    | some f ↦ chained filters names (λ m. f m h)
  ]

  abbrev pub AllKnown : Map String (Filter M W) → List String → Type 0
  AllKnown filters = All (λ name. (f : Filter M W) × (find name filters ≡ some f))

  collect-some :
      (filters : Map String (Filter M W)) (acc f : Filter M W) (name : String) (names : List String)
      → find name filters ≡ some f
      → collect filters acc (name ∷ names) ≡ collect filters (register_in_collector acc f) names
  unfolding collect
  collect-some filters acc f name names e = rw (e, collect)

  chained-some :
      (filters : Map String (Filter M W)) (f : Filter M W) (name : String) (names : List String)
      (h : Handle M W)
      → find name filters ≡ some f
      → chained filters (name ∷ names) h ≡ chained filters names (λ m. f m h)
  chained-some filters f name names h e = rw (e, chained)

  -- A collector that `names` build runs the chain of `names`.
  abbrev Runs : Map String (Filter M W) → List String → Filter M W → Filter M W → Type 0
  Runs filters names acc r =
      (h : Handle M W) (m : M) (w : W) → r m h w ≡ chained filters names (λ x. acc x h) m w

  collect-chained :
      (filters : Map String (Filter M W)) (acc : Filter M W) (names : List String)
      → AllKnown filters names
      → (r : Filter M W) × (collect filters acc names ≡ some r) × Runs filters names acc r
  unfolding collect register_in_collector
  collect-chained filters acc [] known = (acc, refl, λ h m w. refl)
  collect-chained filters acc (name ∷ names) ((f, e), known) =
      let (r, made, runs) = collect-chained filters (register_in_collector acc f) names known in
      (
        r,
        collect-some filters acc f name names e ∙ made,
        λ h m w.
            runs h m w
            ∙ ap (λ (k : Handle M W). k m w)
                (sym (chained-some filters f name names (λ x. acc x h) e)),
      )

  collect_unknown :
      (filters : Map String (Filter M W)) (acc : Filter M W) (before : List String) (name : String)
      (later : List String)
      → find name filters ≡ none
      → collect filters acc (before ++ name ∷ later) ≡ none
  unfolding collect
  collect_unknown filters acc [] name later e = rw (e, collect)
  collect_unknown filters acc (x ∷ before) name later e = elim (Option-cases (find x filters)) [
    | inl unknown ↦ rw (unknown, collect)
    | inr (f, known) ↦
        collect-some filters acc f x (before ++ name ∷ later) known
        ∙ collect_unknown filters (register_in_collector acc f) before name later e
  ]

  pub get_filter_collector-default :
      (topic : String) (mgr : FilterManager M W)
      → find topic mgr.filter_collector_map ≡ none
      → get_filter_collector topic mgr ≡ default_filter
  unfolding get_filter_collector
  get_filter_collector-default topic mgr e = rw (e, get_filter_collector)

  create-new :
      (topic : String) (names : List String) (mgr : FilterManager M W)
      → find topic mgr.filter_collector_map ≡ none
      → create_filter_collector_if_not_exist topic names mgr
        ≡ create_filter_collector topic names mgr
  unfolding create_filter_collector_if_not_exist
  create-new topic names mgr e = rw (e, create_filter_collector_if_not_exist)

  -- The manager with a collector for one more topic.
  abbrev with_collector : String → List String → FilterManager M W → Filter M W → FilterManager M W
  with_collector topic names mgr r = record mgr {
    filter_collector_map = (topic, r) ∷ mgr.filter_collector_map;
    filter_names_map = (emplace topic names mgr.filter_names_map).0;
  }

  create-made :
      (topic name : String) (names : List String) (mgr : FilterManager M W) (r : Filter M W)
      → find topic mgr.filter_collector_map ≡ none
      → collect mgr.filter_map default_filter (name ∷ names) ≡ some r
      → create_filter_collector topic (name ∷ names) mgr
        ≡ done (with_collector topic (name ∷ names) mgr r)
  unfolding create_filter_collector
  create-made topic name names mgr r e made =
      rw (made, create_filter_collector) (rw (emplace-new topic r mgr.filter_collector_map e))

  get-with_collector :
      (topic : String) (names : List String) (mgr : FilterManager M W) (r : Filter M W)
      → get_filter_collector topic (with_collector topic names mgr r) ≡ r
  unfolding get_filter_collector
  get-with_collector topic names mgr r =
      rw (find_head topic r mgr.filter_collector_map, get_filter_collector)

  -- A topic without a collector, and names that are all registered: the call succeeds, and the
  -- topic's collector runs a handle inside the filters, the last name outermost.
  pub invoke-create_filter_collector :
      (topic : String) (names : List String) (mgr : FilterManager M W)
      → find topic mgr.filter_collector_map ≡ none
      → AllKnown mgr.filter_map names
      → (made : FilterManager M W) × (create_filter_collector_if_not_exist topic names mgr
          ≡ done made)
        × ((h : Handle M W) (m : M) (w : W)
            → invoke (get_filter_collector topic made) h m w ≡ chained mgr.filter_map names h m w)
  unfolding invoke
  invoke-create_filter_collector topic [] mgr e known = (
    mgr,
    create-new topic [] mgr e ∙ unfold create_filter_collector in refl,
    λ h m w.
        ap (λ (f : Filter M W). f m h w) (get_filter_collector-default topic mgr e)
        ∙ unfold default_filter in refl,
  )
  invoke-create_filter_collector topic (name ∷ names) mgr e known =
      let (r, made, runs) = collect-chained mgr.filter_map default_filter (name ∷ names) known in
      (
        with_collector topic (name ∷ names) mgr r,
        create-new topic (name ∷ names) mgr e ∙ create-made topic name names mgr r e made,
        λ h m w.
            ap (λ (f : Filter M W). f m h w) (get-with_collector topic (name ∷ names) mgr r)
            ∙ (runs h m w ∙ unfold default_filter in refl),
      )

  -- A topic without a collector, and one unknown name among the filters: nothing is made, and the
  -- call throws.
  pub create_filter_collector_unknown :
      (topic : String) (before : List String) (name : String) (later : List String)
      (mgr : FilterManager M W)
      → find topic mgr.filter_collector_map ≡ none
      → find name mgr.filter_map ≡ none
      → create_filter_collector_if_not_exist topic (before ++ name ∷ later) mgr ≡ thrown mgr
  unfolding create_filter_collector
  create_filter_collector_unknown topic [] name later mgr e unknown =
      create-new topic (name ∷ later) mgr e
      ∙ rw (
        collect_unknown mgr.filter_map default_filter [] name later unknown,
        create_filter_collector,
      )
  create_filter_collector_unknown topic (x ∷ before) name later mgr e unknown =
      create-new topic (x ∷ before ++ name ∷ later) mgr e
      ∙ rw (
        collect_unknown mgr.filter_map default_filter (x ∷ before) name later unknown,
        create_filter_collector,
      )
