-- ===== src/Record.antt =====
-- src/plugins/record_playback_plugin/record_action.{h,cc}: which messages are recorded. `V` are the
-- messages and `W` the files. A task of the executor is a function of its own. Times are 64-bit counts
-- of nanoseconds.
pub mod Files
pub mod Caching
pub mod Searching
pub mod Signal
pub mod Sampling
pub mod Ending
mod Examples
use aim_rt.Prelude.{
  ℕ, zero, suc, ◌+◌, ◌-◌, ◌*◌, ◌/◌, ◌%◌, ◌^◌, Bool, true, false, not, ◌&&◌, ◌||◌, List, [], ◌∷◌,
  ◌++◌, Option, none, some, nat_eq, ◌==◌, ltb, if◌then◌else◌, length, drop,
}
use aim_rt.Prelude.Map.{Map, find_or, assign}
use aim_rt.Record.Files.{
  OneRecord, TopicRuntimeInfo, FileApi, FileState, add_record_impl, add_records,
  open_new_folder_to_record,
}
use aim_rt.Core.Lifecycle.{State, start, is_start, Outcome, done, thrown}

abbrev pub u64_mod : ℕ
u64_mod = 2 ^ 64

-- `a - b` of `uint64_t`.
abbrev pub sub64 : ℕ → ℕ → ℕ
sub64 a b = (a + u64_mod - b) % u64_mod

pub data Mode : Type 0 where
  imd signal : Mode

pub record RecordAction (V : Type 0) : Type 0 where
  pub state : State
  pub mode : Mode
  pub record_enabled : Bool
  pub topic_runtime_map : Map ℕ (TopicRuntimeInfo V)
  pub recording_flag : Bool
  pub max_preparation_duration_ns : ℕ
  pub stop_record_timestamp : ℕ
  pub last_cache : List (OneRecord V)
  pub cur_cache : List (OneRecord V)

module _ {V : Type 0} where
  -- The entry that `operator[]` makes.
  abbrev pub new_info : TopicRuntimeInfo V
  new_info = record {
    last_timestamp = 0;
    sample_interval = 0;
    record_enabled = true;
    cache_last_msg = true;
    last_msg = none;
  }

  abbrev pub is_too_frequent : OneRecord V → TopicRuntimeInfo V → Bool
  is_too_frequent r info =
      ltb 0 info.sample_interval
      && ltb (sub64 r.log_timestamp info.last_timestamp) info.sample_interval

  abbrev pub accepted : OneRecord V → TopicRuntimeInfo V → TopicRuntimeInfo V
  accepted r info = record info {
    last_timestamp = r.log_timestamp;
    last_msg = if info.cache_last_msg then some r else info.last_msg;
  }

  -- `AddRecord` in the caller's thread: what is posted to the executor, if anything is.
  unfoldable pub add_record : OneRecord V → RecordAction V → RecordAction V × Option (OneRecord V)
  add_record r a =
      let info = find_or new_info r.topic_index a.topic_runtime_map in
      let with_info : TopicRuntimeInfo V → RecordAction V =
        λ i. record a { topic_runtime_map = assign r.topic_index i a.topic_runtime_map } in
      if not (is_start a.state)
      then (a, none)
      else if not a.record_enabled || not info.record_enabled || is_too_frequent r info
      then (with_info info, none)
      else (with_info (accepted r info), some r)

  abbrev pub begin_timestamp : List (OneRecord V) → ℕ
  begin_timestamp [] = 0
  begin_timestamp (r ∷ rs) = r.log_timestamp

  -- A record that comes while nothing is recorded.
  unfoldable pub cache_record : OneRecord V → RecordAction V → RecordAction V
  cache_record r a =
      let cur = a.cur_cache ++ (r ∷ []) in
      if ltb a.max_preparation_duration_ns (sub64 r.log_timestamp (begin_timestamp cur))
      then record a { last_cache = cur; cur_cache = [] }
      else record a { cur_cache = cur }

  abbrev pub timestamp_at : List (OneRecord V) → ℕ → ℕ
  timestamp_at [] i = 0
  timestamp_at (r ∷ rs) zero = r.log_timestamp
  timestamp_at (r ∷ rs) (suc i) = timestamp_at rs i

  -- The binary search, with fuel for its rounds.
  unfoldable pub search_start : ℕ → ℕ → List (OneRecord V) → ℕ → ℕ → ℕ
  search_start zero begin cached low high = low
  search_start (suc fuel) begin cached low high =
      let mid = low + (high - low) / 2 in
      let old = ltb (timestamp_at cached mid) begin in
      let rest =
        search_start fuel begin cached (if old then mid + 1 else low) (if old then high else mid) in
      if ltb low high then rest else low

  module _ {W : Type 0} (api : FileApi V W) where
    abbrev pub with_files : RecordAction V → FileState V W → RecordAction V × W
    with_files a f = (record a { topic_runtime_map = f.0 }, f.1)

    -- The task that `AddRecord` posts in mode `imd`, and in mode `signal`.
    unfoldable pub imd_task : OneRecord V → RecordAction V × W → RecordAction V × W
    unfolding add_record_impl
    imd_task r (a, w) =
        let written = with_files a (add_record_impl api r (a.topic_runtime_map, w)) in
        if is_start a.state then written else (a, w)

    abbrev pub is_over : OneRecord V → RecordAction V → Bool
    is_over r a =
        a.recording_flag
        && not (a.stop_record_timestamp == 0)
        && ltb a.stop_record_timestamp r.log_timestamp

    unfoldable pub signal_task : OneRecord V → RecordAction V × W → RecordAction V × W
    unfolding cache_record add_record_impl
    signal_task r (a, w) =
        let written = with_files a (add_record_impl api r (a.topic_runtime_map, w)) in
        if not (is_start a.state)
        then (a, w)
        else if is_over r a
        then (cache_record r (record a { recording_flag = false }), api.close_record w)
        else if a.recording_flag
        then written
        else (cache_record r a, w)

    -- The two ways to write the caches from index `low` on.
    unfoldable pub write_caches :
        ℕ → List (OneRecord V) → List (OneRecord V) → FileState V W → FileState V W
    unfolding add_records
    write_caches low last cur f =
        if ltb low (length last)
        then add_records api cur (add_records api (drop low last) f)
        else add_records api (drop (low - length last) cur) f

    -- The task of `StartSignalRecord`, where `now` is the time that it reads.
    unfoldable pub start_task : ℕ → ℕ → ℕ → RecordAction V × W → Outcome (RecordAction V × W)
    unfolding search_start write_caches open_new_folder_to_record
    start_task preparation_s duration_s now (a, w) =
        let (files, opened) = open_new_folder_to_record api (a.topic_runtime_map, w) in
        let stop = if duration_s == 0 then 0 else (now + duration_s * 1000000000) % u64_mod in
        let begin = sub64 now (preparation_s * 1000000000 % u64_mod) in
        let all = a.last_cache ++ a.cur_cache in
        let low = search_start (length all) begin all 0 (length all - 1) in
        let recording : RecordAction V = record a { recording_flag = true } in
        let running : RecordAction V = record recording { stop_record_timestamp = stop } in
        if not (is_start a.state) || a.recording_flag
        then done (a, w)
        else if not opened
        then thrown (with_files recording files)
        else if length all == 0
        then done (with_files running files)
        else done (
            with_files (record running { last_cache = []; cur_cache = [] })
              (write_caches low a.last_cache a.cur_cache files))

    -- The task of `StopSignalRecord`.
    unfoldable pub stop_task : RecordAction V × W → RecordAction V × W
    stop_task (a, w) =
        if a.recording_flag
        then (record a { recording_flag = false }, api.close_record w)
        else (a, w)
