-- ===== src/Record/Examples.antt =====
-- record_action.cc: an action with a preparation time of two seconds, and the files as a list of what
-- was written.
use aim_rt.Prelude.{ℕ, ◌-◌, ◌*◌, ◌≡◌, refl, true, false, List, [], ◌∷◌, ◌++◌, none, some, arith}
use aim_rt.Prelude.Map.{find_or, find}
use aim_rt.Core.Lifecycle.{start, done}
use aim_rt.Record.Files.{OneRecord, FileApi, add_records, open_new_folder_to_record, write_all}
use aim_rt.Record.{RecordAction, signal, start_task, with_files}
use aim_rt.Record.Searching.{Left}
use aim_rt.Record.Signal.{signal_tasks, signal_record-window}
use aim_rt.Record.Caching.{cache_all}
use aim_rt.Record.Ending.{signal_tasks_end}
use aim_rt.Record.Sampling.{posted, info_of, Spaced, posted-Spaced}

abbrev DemoFiles : Type 0
DemoFiles = List ℕ

-- A file has room for any number of messages, and a folder is made at the time 6000000000.
abbrev demo_files : FileApi ℕ DemoFiles
demo_files = record {
  is_full = λ w. false;
  reset_size = λ w. w;
  is_new_folder_needed = λ t w. false;
  make_folder = λ w. (w, some 6000000000);
  open_file = λ t w. (w, true);
  write = λ r w. w ++ (r.buffer_view ∷ []);
  close_record = λ w. w;
}

abbrev demo_record : ℕ → ℕ → OneRecord ℕ
demo_record t v = record { topic_index = 0; log_timestamp = t; buffer_view = v }

abbrev demo_action : ℕ → RecordAction ℕ
demo_action interval = record {
  state = start;
  mode = signal;
  record_enabled = true;
  topic_runtime_map =
      (
        0,
        record {
          last_timestamp = 0;
          sample_interval = interval;
          record_enabled = true;
          cache_last_msg = false;
          last_msg = none;
        },
      )
      ∷ [];
  recording_flag = false;
  max_preparation_duration_ns = 2000000000;
  stop_record_timestamp = 0;
  last_cache = [];
  cur_cache = [];
}

abbrev demo_records : List (OneRecord ℕ)
demo_records = demo_record 1000000000 1 ∷ demo_record 4000000000 4 ∷ demo_record 5000000000 5 ∷ []

-- The topic keeps its last message, which the file begins with.
abbrev demo_keeping : RecordAction ℕ
demo_keeping = record (demo_action 0) {
  topic_runtime_map =
      (
        0,
        record {
          last_timestamp = 5000000000;
          sample_interval = 0;
          record_enabled = true;
          cache_last_msg = true;
          last_msg = some (demo_record 5000000000 5);
        },
      )
      ∷ [];
}

signal_record-window_example :
    let opened = (open_new_folder_to_record demo_files (demo_keeping.topic_runtime_map, [])).0 in
    (written : List (OneRecord ℕ)) × (a' : RecordAction ℕ) × (opened.1
      ≡ write_all demo_files (demo_record 6000000000 5 ∷ []) [])
    × (start_task demo_files 2 0 6000000000
          (signal_tasks demo_files demo_records (demo_keeping, []))
        ≡ done (with_files demo_files a' (add_records demo_files written opened)))
    × Left (6000000000 - 2 * 1000000000) demo_records written
    × (a'.recording_flag ≡ true)
    × (a'.last_cache ++ a'.cur_cache ≡ [])
signal_record-window_example =
    signal_record-window demo_files demo_records demo_keeping [] 2 0 6000000000 6000000000 refl refl
      refl (omega arith) (omega arith) (omega arith) (omega arith) (omega arith) refl refl

posted-Spaced_example :
    Spaced 0 2000000000
      (info_of 0 (demo_action 2000000000)).last_timestamp
      (posted demo_records (demo_action 2000000000))
posted-Spaced_example =
    posted-Spaced 0 2000000000 demo_records (demo_action 2000000000) (omega arith)
      (unfold find_or find in refl) (omega arith) (omega arith) (unfold find_or find in omega arith)

abbrev demo_recording : RecordAction ℕ
demo_recording = record (demo_action 0) {
  recording_flag = true;
  stop_record_timestamp = 4500000000;
}

signal_tasks_end_example :
    let before = demo_record 1000000000 1 ∷ demo_record 4000000000 4 ∷ [] in
    let (topics, files) = add_records demo_files before (demo_recording.topic_runtime_map, []) in
    signal_tasks demo_files demo_records (demo_recording, []) ≡ (
      cache_all
          (demo_record 5000000000 5 ∷ [])
          (record demo_recording { recording_flag = false; topic_runtime_map = topics }),
      files,
    )
signal_tasks_end_example =
    signal_tasks_end demo_files demo_recording
      (demo_record 1000000000 1 ∷ demo_record 4000000000 4 ∷ []) [] (demo_record 5000000000 5) []
      refl refl refl (omega arith) (omega arith)
