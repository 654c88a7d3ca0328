-- ===== src/Parameter/Dumping.antt =====
-- parameter_plugin/service.cc: what `Dump` reads, and what `Load` makes of it.
use aim_rt.Prelude.{
  ◌≡◌, refl, ap, subst, ◌∙◌, ◌≢◌, List, [], ◌∷◌, Option, none, some, String, string_eq, ◌==◌,
  ==_iff, arith, Option-cases, Bool-cases, inl, inr, if◌then◌else◌,
}
use aim_rt.Prelude.Map.{Map, find, find-assign, emplace-new, emplace-old, find_head}
use aim_rt.Parameter.{
  ParameterMap, ParameterManager, is_present, get_parameter, list_parameter, set_parameter,
}
use aim_rt.Parameter.Service.{with_handle, emplace_value, dump_names, load_values}
use aim_rt.Parameter.Keys.{IsKeyed, emplace-IsKeyed}
use aim_rt.Parameter.Storing.{find-set_new}

find-emplace_value :
    (j k : String) (o : Option String) (pb : Map String String)
    → find k (emplace_value j o pb)
      ≡ (if is_present (find k pb) then find k pb else if j == k then o else none)
find-emplace_value j k none pb = ground arith
find-emplace_value j k (some v) pb = elim (Option-cases (find j pb)) [
  | inl e ↦ rw (emplace_value, emplace-new j v pb e) (unfold find in ground (arith, e, ==_iff j k))
  | inr (w, e) ↦ rw (emplace_value, emplace-old j v w pb e) (ground (arith, e, ==_iff j k))
]

emplace_value-IsKeyed :
    (k : String) (o : Option String) (pb : Map String String)
    → IsKeyed pb
    → IsKeyed (emplace_value k o pb)
emplace_value-IsKeyed k none pb h = h
emplace_value-IsKeyed k (some v) pb h = emplace-IsKeyed k v pb h

pub dump_names-IsKeyed :
    (h : ParameterMap) (keys : List String) (pb : Map String String)
    → IsKeyed pb
    → IsKeyed (dump_names h keys pb)
unfolding dump_names
dump_names-IsKeyed h [] pb i = i
dump_names-IsKeyed h (k ∷ keys) pb i =
    dump_names-IsKeyed h keys (emplace_value k (get_parameter k h) pb)
      (emplace_value-IsKeyed k (get_parameter k h) pb i)

-- `g` is what is left of the map whose names are dumped.
pub find-dump_names :
    (h g : ParameterMap) (k : String) (pb : Map String String)
    → find k (dump_names h (list_parameter g) pb) ≡ (
        if is_present (find k pb)
        then find k pb
        else if is_present (find k g)
        then get_parameter k h
        else none)
unfolding find list_parameter dump_names
find-dump_names h [] k pb = ground arith
find-dump_names h ((j, v) ∷ g) k pb =
    let o = get_parameter j h in
    elim (Bool-cases (j == k)) [
      | inr e ↦
          ground
            (arith, e, find-dump_names h g k (emplace_value j o pb), find-emplace_value j k o pb)
      | inl e ↦
          let same : j ≡ k = (==_iff j k).0 e in
          ground (
            arith,
            e,
            same,
            ap (λ i. get_parameter i h) same,
            find-dump_names h g k (emplace_value j o pb),
            find-emplace_value j k o pb,
          )
    ]

-- A value that is loaded replaces what is there.
abbrev loaded : Option String → Option (Option String) → Option (Option String)
loaded none old = old
loaded (some w) old = some (some w)

loaded-later :
    (j k : String) (v : String) (pb : Map String String) (h : ParameterMap)
    → find k pb ≡ none
    → find k h ≡ none
    → loaded (find j pb) (find j (set_parameter k (some v) h))
      ≡ loaded (find j ((k, v) ∷ pb)) (find j h)
unfolding find
loaded-later j k v pb h e f = elim (Bool-cases (k == j)) [
  | inl g ↦
      let same : k ≡ j = (==_iff k j).0 g in
      let fresh : find j pb ≡ none = subst (λ i. find i pb ≡ none) same e in
      rw (find-set_new k j (some v) h f, g, fresh) refl
  | inr g ↦ rw (find-set_new k j (some v) h f, g) refl
]

find-load_values :
    (j : String) (pb : Map String String) (h : ParameterMap)
    → IsKeyed pb
    → ((k : String) → find k pb ≢ none → find k h ≡ none)
    → find j (load_values pb h) ≡ loaded (find j pb) (find j h)
unfolding load_values
find-load_values j [] h i f = unfold find in refl
find-load_values j ((k, v) ∷ pb) h (e, i) f =
    let absent : find k h ≡ none =
      f k (λ none_there. ground (arith, none_there, find_head k v pb)) in
    find-load_values j pb (set_parameter k (some v) h) i (λ n there. elim (Bool-cases (k == n)) [
      | inl g ↦
          let same : k ≡ n = (==_iff k n).0 g in
          absurd (there (subst (λ x. find x pb ≡ none) same e))
      | inr g ↦
          find-set_new k n (some v) h absent
          ∙ (rw g (f n (λ none_there. there (unfold find in (rw g at none_there)))))
    ])
    ∙ loaded-later j k v pb h e absent

-- What is loaded into an empty handle from a message that says what `h` does.
pub reload_of :
    (h : ParameterMap) (pb : Map String String) (k : String)
    → IsKeyed pb
    → find k pb ≡ get_parameter k h
    → get_parameter k (load_values pb []) ≡ get_parameter k h
unfolding get_parameter find
reload_of h pb k keyed read =
    let there : find k (load_values pb []) ≡ loaded (find k pb) none =
      find-load_values k pb [] keyed (λ j n. refl) in
    elim (Option-cases (get_parameter k h)) [
      | inl e ↦ ground (arith, e, there, read)
      | inr (w, e) ↦ ground (arith, e, there, read)
    ]

-- What a module finds at a key.
abbrev pub parameter_of : String → String → ParameterManager → Option String
parameter_of name key m = elim (find name m.handles) [ none ↦ none | some h ↦ get_parameter key h ]

pub parameter_of-with_handle :
    (name j k : String) (h : ParameterMap) (m : ParameterManager)
    → parameter_of j k (with_handle name h m)
      ≡ (if name == j then get_parameter k h else parameter_of j k m)
parameter_of-with_handle name j k h m = elim (Bool-cases (name == j)) [
  | inl e ↦ rw (parameter_of, find-assign name j h m.handles, e) refl
  | inr e ↦ rw (parameter_of, find-assign name j h m.handles, e) refl
]
