-- ===== src/Record/Ending.antt =====
-- record_action.cc: the end of a recording that has a duration.
use aim_rt.Prelude.{
  ◌≤◌, ◌<◌, ◌≡◌, refl, ap, ◌∙◌, true, false, List, [], ◌∷◌, ◌++◌, nat_eq, ◌==◌, ltb, All, arith,
}
use aim_rt.Core.Lifecycle.{start, is_start}
use aim_rt.Record.Files.{OneRecord, FileApi, add_record_impl, add_records}
use aim_rt.Record.{RecordAction, cache_record, signal_task, with_files}
use aim_rt.Record.Caching.{cache_all, cache_all-same}
use aim_rt.Record.Signal.{signal_tasks, signal_tasks-cache}

module _ {V W : Type 0} (api : FileApi V W) where
  -- Before the end.
  written_on :
      (before later : List (OneRecord V)) (a : RecordAction V) (w : W)
      → a.state ≡ start
      → a.recording_flag ≡ true
      → (a.stop_record_timestamp == 0) ≡ false
      → All (λ r. r.log_timestamp ≤ a.stop_record_timestamp) before
      → signal_tasks api (before ++ later) (a, w)
        ≡ signal_tasks api later
            (with_files api a (add_records api before (a.topic_runtime_map, w)))
  unfolding signal_tasks signal_task add_records
  written_on [] later a w started recording limited h = refl
  written_on (r ∷ before) later a w started recording limited (h, hs) =
      let in_time : ltb a.stop_record_timestamp r.log_timestamp ≡ false = ground (arith, h) in
      let (m, v) = add_record_impl api r (a.topic_runtime_map, w) in
      let one : signal_task api r (a, w) ≡ (record a { topic_runtime_map = m }, v) =
        simp (signal_task, ap is_start started, recording, limited, in_time) refl in
      ap (signal_tasks api (before ++ later)) one
      ∙ written_on before later (record a { topic_runtime_map = m }) v started recording limited hs

  -- An action that records with an end: of the records that come, those before the first one that is
  -- later than the end are handed to `AddRecordImpl` in their order, at that one the files are closed,
  -- and it and all that come after it are cached, as in an action that records nothing.
  pub signal_tasks_end :
      (a : RecordAction V) (before after : List (OneRecord V)) (r : OneRecord V) (w : W)
      → a.state ≡ start
      → a.recording_flag ≡ true
      → (a.stop_record_timestamp == 0) ≡ false
      → All (λ q. q.log_timestamp ≤ a.stop_record_timestamp) before
      → a.stop_record_timestamp < r.log_timestamp
      → let (topics, files) = add_records api before (a.topic_runtime_map, w) in
        signal_tasks api (before ++ (r ∷ after)) (a, w) ≡ (
          cache_all (r ∷ after) (record a { recording_flag = false; topic_runtime_map = topics }),
          api.close_record files,
        )
  unfolding signal_tasks signal_task cache_all
  signal_tasks_end a before after r w started recording limited h late =
      let over : ltb a.stop_record_timestamp r.log_timestamp ≡ true = ground (arith, late) in
      let (topics, files) = add_records api before (a.topic_runtime_map, w) in
      let stopped : RecordAction V = record a {
        recording_flag = false;
        topic_runtime_map = topics;
      } in
      let closed = api.close_record files in
      let one : signal_task api r (record a { topic_runtime_map = topics }, files)
          ≡ (cache_record r stopped, closed) =
        simp (signal_task, ap is_start started, recording, limited, over) refl in
      let (l, c, same) = cache_all-same (r ∷ []) stopped in
      written_on before (r ∷ after) a w started recording limited h
      ∙ ap (signal_tasks api after) one
      ∙ signal_tasks-cache api after (cache_record r stopped) closed
          (ap (λ (b : RecordAction V). b.state) same ∙ started)
          (ap (λ (b : RecordAction V). b.recording_flag) same)
