-- ===== src/Record/Signal.antt =====
-- record_action.cc: what `StartSignalRecord` writes of the records that came before.
use aim_rt.Prelude.{
  ℕ, zero, suc, ◌+◌, ◌-◌, ◌*◌, ◌%◌, ◌≤◌, ◌<◌, ◌≡◌, refl, sym, ap, subst, ◌∙◌, true, false, some,
  List, [], ◌∷◌, ◌++◌, nat_eq, ◌==◌, ltb, if◌then◌else◌, length, drop, All, drop-append,
  append_assoc, arith, Bool-cases, inl, inr,
}
use aim_rt.Core.Lifecycle.{start, is_start, done}
use aim_rt.Record.Files.{
  OneRecord, FileApi, FileState, add_record_impl, add_records, open_new_folder_to_record, write_all,
  last_messages, open_new_folder-begins, open_new_folder-opened,
}
use aim_rt.Record.{
  RecordAction, u64_mod, sub64, cache_record, signal_task, search_start, write_caches, start_task,
  with_files,
}
use aim_rt.Record.Searching.{IsSorted, window, Left, search-Left}
use aim_rt.Record.Caching.{Kept, cache_all, cache_all-Kept, cache_all-same, IsSorted-right}

module _ {V W : Type 0} (api : FileApi V W) where
  add_records-append :
      (xs ys : List (OneRecord V)) (f : FileState V W)
      → add_records api (xs ++ ys) f ≡ add_records api ys (add_records api xs f)
  unfolding add_records
  add_records-append [] ys f = refl
  add_records-append (x ∷ xs) ys f = add_records-append xs ys (add_record_impl api x f)

  drop_past :
      (n : ℕ) (xs ys : List (OneRecord V))
      → length xs ≤ n
      → drop n (xs ++ ys) ≡ drop (n - length xs) ys
  drop_past n [] ys h = ap (λ k. drop k ys) (omega arith)
  drop_past zero (x ∷ xs) ys h = absurd (omega (arith, h))
  drop_past (suc n) (x ∷ xs) ys h =
      drop_past n xs ys (omega (arith, h)) ∙ ap (λ k. drop k ys) (omega arith)

  -- The two ways to write the caches write the end of both.
  write_caches-drop :
      (low : ℕ) (last cur : List (OneRecord V)) (f : FileState V W)
      → write_caches api low last cur f ≡ add_records api (drop low (last ++ cur)) f
  unfolding write_caches
  write_caches-drop low last cur f = elim (Bool-cases (ltb low (length last))) [
    | inl e ↦
        rw (write_caches, e, drop-append low last cur (ground (arith, e)))
          (sym (add_records-append (drop low last) cur f))
    | inr e ↦ rw (write_caches, e, drop_past low last cur (ground (arith, e))) refl
  ]

  -- The tasks of records that come one by one.
  unfoldable pub signal_tasks : List (OneRecord V) → RecordAction V × W → RecordAction V × W
  unfolding signal_task
  signal_tasks [] s = s
  signal_tasks (r ∷ rs) s = signal_tasks rs (signal_task api r s)

  pub signal_tasks-cache :
      (rs : List (OneRecord V)) (a : RecordAction V) (w : W)
      → a.state ≡ start
      → a.recording_flag ≡ false
      → signal_tasks rs (a, w) ≡ (cache_all rs a, w)
  unfolding signal_tasks signal_task cache_all cache_record
  signal_tasks-cache [] a w e f = refl
  signal_tasks-cache (r ∷ rs) a w e f =
      let (l, c, same) = cache_all-same (r ∷ []) a in
      let one : signal_task api r (a, w) ≡ (cache_record r a, w) =
        simp (signal_task, ap is_start e, f) refl in
      ap (signal_tasks rs) one
      ∙ signal_tasks-cache rs (cache_record r a) w (ap (λ (b : RecordAction V). b.state) same ∙ e)
          (ap (λ (b : RecordAction V). b.recording_flag) same ∙ f)

  -- What the task of a start writes, of caches `l` and `c`.
  module _ (preparation_s duration_s now : ℕ) (a : RecordAction V) (w : W)
      (started : a.state ≡ start) (idle : a.recording_flag ≡ false)
      (opened : (open_new_folder_to_record api (a.topic_runtime_map, w)).1 ≡ true)
      (within : preparation_s * 1000000000 ≤ now) (bound : now < u64_mod) where
    abbrev begin : ℕ
    begin = now - preparation_s * 1000000000

    abbrev files : FileState V W
    files = (open_new_folder_to_record api (a.topic_runtime_map, w)).0

    abbrev Writes : List (OneRecord V) → Type 0
    Writes all =
        (written : List (OneRecord V)) × (a' : RecordAction V) × (start_task api preparation_s
            duration_s now (a, w)
          ≡ done (with_files api a' (add_records api written files)))
        × Left begin all written
        × (a'.recording_flag ≡ true)
        × (a'.last_cache ++ a'.cur_cache ≡ [])

    begin-exact : sub64 now (preparation_s * 1000000000 % u64_mod) ≡ begin
    begin-exact = omega (arith, within, bound)

    abbrev running : RecordAction V
    running = record a {
      recording_flag = true;
      stop_record_timestamp =
          if duration_s == 0 then 0 else (now + duration_s * 1000000000) % u64_mod;
    }

    abbrev emptied : RecordAction V
    emptied = record running { last_cache = []; cur_cache = [] }

    none_cached : (all : List (OneRecord V)) → length all ≡ 0 → all ≡ []
    none_cached [] h = refl
    none_cached (r ∷ rs) h = absurd (omega (arith, h))

    start_task-Writes :
        IsSorted (a.last_cache ++ a.cur_cache) → Writes (a.last_cache ++ a.cur_cache)
    unfolding start_task
    start_task-Writes s =
        let all = a.last_cache ++ a.cur_cache in
        let low = search_start (length all) begin all 0 (length all - 1) in
        elim (Bool-cases (length all == 0)) [
          | inl e ↦
              let nothing : all ≡ [] = none_cached all (ground (arith, e)) in
              (
                [],
                running,
                simp (start_task, ap is_start started, idle, opened, e)
                    (unfold add_records in refl),
                inl (rw nothing refl),
                refl,
                nothing,
              )
          | inr e ↦ (
            drop low all,
            emptied,
            simp (start_task, ap is_start started, idle, opened, e, begin-exact)
                (ap (λ v. done (with_files api emptied v))
                  (write_caches-drop low a.last_cache a.cur_cache files)),
            search-Left begin all s (ground (arith, e)),
            refl,
            refl,
          )
        ]

  window-old :
      (b m now : ℕ) (ds rs : List (OneRecord V))
      → now ≤ b + m
      → All (λ r. r.log_timestamp + m < now) ds
      → window b (ds ++ rs) ≡ window b rs
  window-old b m now [] rs h a = refl
  window-old b m now (d ∷ ds) rs h a =
      let old : ltb d.log_timestamp b ≡ true = ground (arith, h, a.0) in
      rw (old, window-old b m now ds rs h a.1) refl

  -- What is right for the end of the records is right for all, if the ones before are too old.
  earlier-Left :
      (b m now : ℕ) (ds rs written : List (OneRecord V))
      → now ≤ b + m
      → All (λ r. r.log_timestamp + m < now) ds
      → Left b rs written
      → Left b (ds ++ rs) written
  earlier-Left b m now ds rs written h a (inl e) = inl (e ∙ sym (window-old b m now ds rs h a))
  earlier-Left b m now ds rs written h a (inr (none_new, last, front, e, f)) = inr (
    window-old b m now ds rs h a ∙ none_new,
    last,
    ds ++ front,
    e,
    ap (λ zs. ds ++ zs) f ∙ sym (append_assoc ds front (last ∷ [])),
  )

  -- An action that is started, records nothing and has cached nothing gets records in the order of
  -- their times, none later than `now`; then a start whose preparation time is not longer than the one
  -- configured, nor than `now`, and whose folder is made and first file opened at a time `t`. That file
  -- begins with the last messages of the topics that keep one, at the time `t`. After them the task of
  -- the start hands to `AddRecordImpl` exactly those of all these records that are not older than the
  -- preparation time, in their order, however the two caches were swapped meanwhile; only where all of
  -- them are older it may hand over the last one instead of none. The action then records, and its
  -- caches are empty.
  pub signal_record-window :
      (rs : List (OneRecord V)) (a : RecordAction V) (w : W) (preparation_s duration_s now t : ℕ)
      → a.state ≡ start
      → a.recording_flag ≡ false
      → a.last_cache ++ a.cur_cache ≡ []
      → IsSorted rs
      → All (λ r. r.log_timestamp ≤ now) rs
      → now < u64_mod
      → preparation_s * 1000000000 ≤ now
      → preparation_s * 1000000000 ≤ a.max_preparation_duration_ns
      → (api.make_folder w).1 ≡ some t
      → (api.open_file t (api.close_record (api.make_folder w).0)).1 ≡ true
      → let opened = (open_new_folder_to_record api (a.topic_runtime_map, w)).0 in
        let first = (api.open_file t (api.close_record (api.make_folder w).0)).0 in
        (written : List (OneRecord V)) × (a' : RecordAction V) × (opened.1
          ≡ write_all api (last_messages t a.topic_runtime_map) first)
        × (start_task api preparation_s duration_s now (signal_tasks rs (a, w))
            ≡ done (with_files api a' (add_records api written opened)))
        × Left (now - preparation_s * 1000000000) rs written
        × (a'.recording_flag ≡ true)
        × (a'.last_cache ++ a'.cur_cache ≡ [])
  signal_record-window rs a w preparation_s duration_s now t started idle unused s upto u p q made
        opens =
      let b = now - preparation_s * 1000000000 in
      let a0 = cache_all rs a in
      let (l, c, same) = cache_all-same rs a in
      let empty : Kept now [] a = record { dropped = []; parts = sym unused; old = tt } in
      let kept = cache_all-Kept now [] rs a s upto u empty in
      let wide : a0.max_preparation_duration_ns ≡ a.max_preparation_duration_ns =
        ap (λ (z : RecordAction V). z.max_preparation_duration_ns) same in
      let topics : a0.topic_runtime_map ≡ a.topic_runtime_map =
        ap (λ (z : RecordAction V). z.topic_runtime_map) same in
      let caches = a0.last_cache ++ a0.cur_cache in
      let sorted = IsSorted-right kept.dropped caches (subst IsSorted kept.parts s) in
      let (written, a', done_it, left, flag, clear) =
        start_task-Writes preparation_s duration_s now a0 w
          (ap (λ (z : RecordAction V). z.state) same ∙ started)
          (ap (λ (z : RecordAction V). z.recording_flag) same ∙ idle)
          (open_new_folder-opened api (a0.topic_runtime_map, w) t made) p u sorted in
      (
        written,
        a',
        open_new_folder-begins api a.topic_runtime_map w t made opens,
        ap (start_task api preparation_s duration_s now) (signal_tasks-cache rs a w started idle)
            ∙ done_it
            ∙ ap
                (λ m. done (
                  with_files api a'
                    (add_records api written (open_new_folder_to_record api (m, w)).0)))
                topics,
        subst (λ zs. Left b zs written) (sym kept.parts)
            (earlier-Left b a0.max_preparation_duration_ns now kept.dropped caches written
              (omega (arith, p, q, wide)) kept.old left),
        flag,
        clear,
      )
