-- ===== src/Parameter/Snapshot.antt =====
-- parameter_plugin/service.cc: `Dump` of several modules, and `Load` of all of them.
use aim_rt.Prelude.{
  ◌≡◌, refl, sym, ap, subst, ◌∙◌, true, false, List, [], ◌∷◌, none, some, String, string_eq, ◌==◌,
  ==_iff, arith, Option-cases, Bool-cases, inl, inr, if◌then◌else◌, All,
}
use aim_rt.Prelude.Map.{Map, find, assign, find_or, find-assign, find_head}
use aim_rt.Core.Lifecycle.{start, is_start}
use aim_rt.Parameter.{ParameterMap, ParameterManager, is_present, get_parameter, list_parameter}
use aim_rt.Parameter.Service.{
  Response, responds, success, with_handle, get_parameter_handle, dump_names, dump, load_values,
  load, DumpMap,
}
use aim_rt.Parameter.Keys.{IsKeyed}
use aim_rt.Parameter.Dumping.{
  dump_names-IsKeyed, find-dump_names, reload_of, parameter_of, parameter_of-with_handle,
}

-- The entry of a module says what the module finds.
record Faithful (m : ParameterManager) (n : String) (pb : Map String String) : Type 0 where
  handle : ParameterMap
  known : find n m.handles ≡ some handle
  keyed : IsKeyed pb
  same : (k : String) → find k pb ≡ get_parameter k handle

abbrev IsSnapshot : ParameterManager → DumpMap → Type 0
IsSnapshot m [] = Unit {0}
IsSnapshot m ((n, pb) ∷ d) = Faithful m n pb × (find n d ≡ none) × IsSnapshot m d

entry_of :
    (m : ParameterManager) (d : DumpMap) (n : String) (pb : Map String String)
    → IsSnapshot m d
    → find n d ≡ some pb
    → Faithful m n pb
unfolding find
entry_of m [] n pb s e = cc
entry_of m ((j, w) ∷ d) n pb (h, new, s) e = elim (Bool-cases (j == n)) [
  | inl f ↦
      let is : some w ≡ some pb = rw f at e in
      let value : w ≡ pb = cc in
      subst (Faithful m n) value (subst (λ i. Faithful m i w) ((==_iff j n).0 f) h)
  | inr f ↦ entry_of m d n pb s (rw f at e)
]

assign-IsSnapshot :
    (m : ParameterManager) (d : DumpMap) (n : String) (pb : Map String String)
    → IsSnapshot m d
    → Faithful m n pb
    → IsSnapshot m (assign n pb d)
unfolding find assign
assign-IsSnapshot m [] n pb s h = (h, refl, tt)
assign-IsSnapshot m ((j, w) ∷ d) n pb (g, new, s) h = elim (Bool-cases (j == n)) [
  | inl f ↦ rw (assign, f) (subst (λ i. Faithful m i pb) (sym ((==_iff j n).0 f)) h, new, s)
  | inr f ↦
      let apart : (n == j) ≡ false = ground (arith, f, ==_iff j n, ==_iff n j) in
      rw (assign, f) (g, find-assign n j pb d ∙ (rw apart new), assign-IsSnapshot m d n pb s h)
]

-- What is in the message already is not changed.
dumped_again :
    (m : ParameterManager) (n : String) (h : ParameterMap) (pb : Map String String)
    → find n m.handles ≡ some h
    → IsKeyed pb
    → ((k : String) → is_present (find k pb) ≡ true → find k pb ≡ get_parameter k h)
    → Faithful m n (dump_names h (list_parameter h) pb)
unfolding get_parameter
dumped_again m n h pb e i there = record {
  handle = h;
  known = e;
  keyed = dump_names-IsKeyed h (list_parameter h) pb i;
  same = λ k. ground (arith, there k, find-dump_names h h k pb);
}

-- One more module, whether or not the message has it.
next_entry :
    (m : ParameterManager) (d : DumpMap) (n : String) (h : ParameterMap)
    → IsSnapshot m d
    → find n m.handles ≡ some h
    → Faithful m n (dump_names h (list_parameter h) (find_or [] n d))
unfolding find_or find
next_entry m d n h s e = elim (Option-cases (find n d)) [
  | inl f ↦ rw (find_or, f) (dumped_again m n h [] e tt (λ k no. cc))
  | inr (pb, f) ↦
      let old = entry_of m d n pb s f in
      let one : old.handle ≡ h = let both = sym old.known ∙ e in cc in
      rw (find_or, f)
        (dumped_again m n h pb e old.keyed (λ k yes. old.same k ∙ ap (get_parameter k) one))
]

present_after :
    (j n : String) (pb : Map String String) (d : DumpMap)
    → is_present (find j d) ≡ true
    → is_present (find j (assign n pb d)) ≡ true
present_after j n pb d h = ground (arith, h, find-assign n j pb d)

dump_step :
    (n : String) (names : List String) (m : ParameterManager) (d : DumpMap) (h : ParameterMap)
    → m.state ≡ start
    → find n m.handles ≡ some h
    → dump (n ∷ names) m d
      ≡ dump names m (assign n (dump_names h (list_parameter h) (find_or [] n d)) d)
unfolding dump get_parameter_handle
dump_step n names m d h e f = simp (dump, get_parameter_handle, ap is_start e, f) refl

-- Every module has a handle.
abbrev pub AllKnown : ParameterManager → List String → Type 0
AllKnown m names = All (λ n. (h : ParameterMap) × (find n m.handles ≡ some h)) names

-- The handle of every module in the message is there and empty.
abbrev IsVacant : DumpMap → ParameterManager → Type 0
IsVacant d m = (n : String) → is_present (find n d) ≡ true → find n m.handles ≡ some []

-- Every module of a list has an empty handle.
abbrev pub AllVacant : ParameterManager → List String → Type 0
AllVacant m names = All (λ n. find n m.handles ≡ some []) names

assign-IsVacant :
    (n : String) (pb : Map String String) (d : DumpMap) (m : ParameterManager)
    → find n m.handles ≡ some []
    → IsVacant d m
    → IsVacant (assign n pb d) m
assign-IsVacant n pb d m e v j there = elim (Bool-cases (n == j)) [
  | inl f ↦ subst (λ i. find i m.handles ≡ some []) ((==_iff n j).0 f) e
  | inr f ↦ v j (let same = find-assign n j pb d in rw (rw f at same) at there)
]

record Dumped (m : ParameterManager) (names : List String) (d : DumpMap) (r : Response DumpMap)
    : Type 0 where
  result : DumpMap
  done : r ≡ responds success result
  snapshot : IsSnapshot m result
  covers : All (λ n. is_present (find n result) ≡ true) names
  keeps : (j : String) → is_present (find j d) ≡ true → is_present (find j result) ≡ true
  only : (m' : ParameterManager) → AllVacant m' names → IsVacant d m' → IsVacant result m'

dump-Dumped :
    (names : List String) (m : ParameterManager) (d : DumpMap)
    → m.state ≡ start
    → AllKnown m names
    → IsSnapshot m d
    → Dumped m names d (dump names m d)
unfolding dump
dump-Dumped [] m d e a s = record {
  result = d;
  done = refl;
  snapshot = s;
  covers = tt;
  keeps = λ j h. h;
  only = λ m' h v. v;
}
dump-Dumped (n ∷ names) m d e ((h, f), fs) s =
    let pb = dump_names h (list_parameter h) (find_or [] n d) in
    let rest =
      dump-Dumped names m (assign n pb d) e fs
        (assign-IsSnapshot m d n pb s (next_entry m d n h s f)) in
    record {
      result = rest.result;
      done = dump_step n names m d h e f ∙ rest.done;
      snapshot = rest.snapshot;
      covers = (rest.keeps n (ground (arith, find-assign n n pb d, ==_iff n n)), rest.covers);
      keeps = λ j k. rest.keeps j (present_after j n pb d k);
      only = λ m' h v. rest.only m' h.1 (assign-IsVacant n pb d m' h.0 v);
    }

load_step :
    (n : String) (pb : Map String String) (rest : DumpMap) (m : ParameterManager) (h : ParameterMap)
    → m.state ≡ start
    → find n m.handles ≡ some h
    → load ((n, pb) ∷ rest) m ≡ load rest (with_handle n (load_values pb h) m)
unfolding load get_parameter_handle
load_step n pb rest m h e f = simp (load, get_parameter_handle, ap is_start e, f) refl

abbrev pub Restored : ParameterManager → DumpMap → ParameterManager → Type 0
Restored m d m' =
    ((load d m').1 ≡ responds success tt)
    × ((j k : String)
        → parameter_of j k (load d m').0
          ≡ (if is_present (find j d) then parameter_of j k m else parameter_of j k m'))

later_IsVacant :
    (n : String) (pb : Map String String) (h : ParameterMap) (d : DumpMap) (m : ParameterManager)
    → find n d ≡ none
    → IsVacant ((n, pb) ∷ d) m
    → IsVacant d (with_handle n h m)
unfolding find
later_IsVacant n pb h d m new v j there = elim (Bool-cases (n == j)) [
  | inl f ↦
      let gone : find j d ≡ none = subst (λ i. find i d ≡ none) ((==_iff n j).0 f) new in
      let no : false ≡ true = rw gone at there in cc
  | inr f ↦ find-assign n j h m.handles ∙ (rw f (v j (rw f there)))
]

-- One module after the others.
restored_at :
    (m : ParameterManager) (d : DumpMap) (m' : ParameterManager) (n : String)
    (pb : Map String String) (j k : String)
    → Faithful m n pb
    → find n d ≡ none
    → (if is_present (find j d)
        then parameter_of j k m
        else parameter_of j k (with_handle n (load_values pb []) m'))
      ≡ (if is_present (find j ((n, pb) ∷ d)) then parameter_of j k m else parameter_of j k m')
unfolding find
restored_at m d m' n pb j k h new =
    let moved = parameter_of-with_handle n j k (load_values pb []) m' in
    elim (Bool-cases (n == j)) [
      | inr f ↦
          rw f (ap (λ x. if is_present (find j d) then parameter_of j k m else x) (rw f at moved))
      | inl f ↦
          let one = (==_iff n j).0 f in
          let gone : find j d ≡ none = subst (λ i. find i d ≡ none) one new in
          let known : find j m.handles ≡ some h.handle =
            subst (λ i. find i m.handles ≡ some h.handle) one h.known in
          let now_there : get_parameter k h.handle ≡ parameter_of j k m =
            rw (parameter_of, known) refl in
          rw (gone, f) ((rw f at moved) ∙ reload_of h.handle pb k h.keyed (h.same k) ∙ now_there)
    ]

load-Restored :
    (m : ParameterManager) (d : DumpMap) (m' : ParameterManager)
    → m'.state ≡ start
    → IsSnapshot m d
    → IsVacant d m'
    → Restored m d m'
unfolding load find
load-Restored m [] m' e s v = (refl, λ j k. refl)
load-Restored m ((n, pb) ∷ d) m' e (h, new, s) v =
    let empty : find n m'.handles ≡ some [] = v n (rw (find_head n pb d) refl) in
    let next = with_handle n (load_values pb []) m' in
    let (good, rest) =
      load-Restored m d next e s (later_IsVacant n pb (load_values pb []) d m' new v) in
    let step = load_step n pb d m' [] e empty in
    (
      ap (λ r. r.1) step ∙ good,
      λ j k. ap (λ r. parameter_of j k r.0) step ∙ rest j k ∙ restored_at m d m' n pb j k h new,
    )

-- In a started manager `m` in which every module of a request has a handle, `Dump` succeeds, and its
-- message has an entry for each of these modules. `Load` of the message, in a started manager in which these
-- modules have handles that are empty, succeeds too; then each module of the message finds at each
-- key the value that it has in `m`, or nothing where it has none there, and every other module finds
-- what it found before.
pub load-dump_modules :
    (names : List String) (m m' : ParameterManager)
    → m.state ≡ start
    → m'.state ≡ start
    → AllKnown m names
    → AllVacant m' names
    → (dumped : DumpMap) × (dump names m [] ≡ responds success dumped)
      × All (λ n. is_present (find n dumped) ≡ true) names
      × Restored m dumped m'
load-dump_modules names m m' e e' a v =
    let d = dump-Dumped names m [] e a tt in
    (
      d.result,
      d.done,
      d.covers,
      load-Restored m d.result m' e' d.snapshot (d.only m' v (λ n there. unfold find in cc)),
    )
