-- ===== src/Record/Files.antt =====
-- record_action.cc: `AddRecordImpl`, `OpenNewMcapToRecord`, `OpenNewFolderToRecord` and `CloseRecord`, on
-- the topics and the files `W`. `topic_runtime_map_` is an association list, in the order in which the
-- code goes through it.
use aim_rt.Prelude.{
  ℕ, ◌≡◌, refl, ap, ◌∙◌, Bool, true, false, List, [], ◌∷◌, Option, none, some, if◌then◌else◌,
}
use aim_rt.Prelude.Map.{Map}

pub record OneRecord (V : Type 0) : Type 0 where
  pub topic_index : ℕ
  pub log_timestamp : ℕ
  pub buffer_view : V

pub record TopicRuntimeInfo (V : Type 0) : Type 0 where
  pub last_timestamp : ℕ
  pub sample_interval : ℕ
  pub record_enabled : Bool
  pub cache_last_msg : Bool
  pub last_msg : Option (OneRecord V)

-- What the action does to the file system and through the mcap library. `W` has the writer, the
-- metadata and the sizes too.
pub record FileApi (V W : Type 0) : Type 0 where
  -- `cur_data_size_ * estimated_overhead_ >= max_bag_size_`, and the reset of both.
  pub is_full : W → Bool
  pub reset_size : W → W
  pub is_new_folder_needed : ℕ → W → Bool
  -- The folder, and the time that is read once it is made; none where the code returns false.
  pub make_folder : W → W × Option ℕ
  -- `writer_->open` of a file for a time; if the flag is true, also its schemas and metadata.
  pub open_file : ℕ → W → W × Bool
  -- `writer_->write`, with the sizes and the flush after it.
  pub write : OneRecord V → W → W
  pub close_record : W → W

abbrev pub FileState : Type 0 → Type 0 → Type 0
FileState V W = Map ℕ (TopicRuntimeInfo V) × W

module _ {V : Type 0} where
  -- The last message that a new file begins with, with the time of that file.
  abbrev pub last_of : ℕ → TopicRuntimeInfo V → Option (OneRecord V)
  last_of t info = elim info.last_msg [
    | none ↦ none
    | some r ↦ if info.cache_last_msg then some (record r { log_timestamp = t }) else none
  ]

  -- The topic afterwards: the message stays there, with the new time.
  abbrev pub restamped : ℕ → TopicRuntimeInfo V → TopicRuntimeInfo V
  restamped t info = elim (last_of t info) [
    | none ↦ info
    | some r ↦ record info { last_msg = some r }
  ]

  abbrev pub cons_if : Option (OneRecord V) → List (OneRecord V) → List (OneRecord V)
  cons_if none rs = rs
  cons_if (some r) rs = r ∷ rs

  -- The last messages of the topics that keep one.
  abbrev pub last_messages : ℕ → Map ℕ (TopicRuntimeInfo V) → List (OneRecord V)
  last_messages t [] = []
  last_messages t ((i, info) ∷ m) = cons_if (last_of t info) (last_messages t m)

  module _ {W : Type 0} (api : FileApi V W) where
    abbrev pub write_if : Option (OneRecord V) → W → W
    write_if none w = w
    write_if (some r) w = api.write r w

    -- The loop at the end of `OpenNewMcapToRecord`: while `writing_cached_messages_` is set,
    -- `AddRecordImpl` opens no other file.
    unfoldable pub write_cached : ℕ → FileState V W → FileState V W
    write_cached t ([], w) = ([], w)
    write_cached t ((i, info) ∷ m, w) =
        let (m', w') = write_cached t (m, write_if (last_of t info) w) in
        ((i, restamped t info) ∷ m', w')

    unfoldable pub open_new_mcap_to_record : ℕ → FileState V W → FileState V W
    unfolding write_cached
    open_new_mcap_to_record t (m, w) =
        let (w', opened) = api.open_file t (api.close_record w) in
        if opened then write_cached t (m, w') else (m, w')

    unfoldable pub open_first : Option ℕ → FileState V W → FileState V W × Bool
    unfolding open_new_mcap_to_record
    open_first none f = (f, false)
    open_first (some t) f = (open_new_mcap_to_record t f, true)

    unfoldable pub open_new_folder_to_record : FileState V W → FileState V W × Bool
    unfolding open_first
    open_new_folder_to_record (m, w) = let (w', time) = api.make_folder w in open_first time (m, w')

    -- A full file is followed by one in a new folder or in the same.
    unfoldable pub make_room : OneRecord V → FileState V W → FileState V W
    unfolding open_new_folder_to_record open_new_mcap_to_record
    make_room r (m, w) =
        let w' = api.reset_size w in
        let (in_folder, opened) = open_new_folder_to_record (m, w') in
        let in_file = open_new_mcap_to_record r.log_timestamp (m, w') in
        if api.is_full w
        then if api.is_new_folder_needed r.log_timestamp w' then in_folder else in_file
        else (m, w)

    unfoldable pub add_record_impl : OneRecord V → FileState V W → FileState V W
    unfolding make_room
    add_record_impl r f = let (m, w) = make_room r f in (m, api.write r w)

    unfoldable pub add_records : List (OneRecord V) → FileState V W → FileState V W
    unfolding add_record_impl
    add_records [] f = f
    add_records (r ∷ rs) f = add_records rs (add_record_impl r f)

    unfoldable pub write_all : List (OneRecord V) → W → W
    write_all [] w = w
    write_all (r ∷ rs) w = write_all rs (api.write r w)

    write_all-cons_if :
        (o : Option (OneRecord V)) (rs : List (OneRecord V)) (w : W)
        → write_all rs (write_if o w) ≡ write_all (cons_if o rs) w
    unfolding write_all
    write_all-cons_if none rs w = refl
    write_all-cons_if (some r) rs w = refl

    -- A file that opens begins with exactly these.
    write_cached-last_messages :
        (t : ℕ) (m : Map ℕ (TopicRuntimeInfo V)) (w : W)
        → (write_cached t (m, w)).1 ≡ write_all (last_messages t m) w
    unfolding write_cached write_all
    write_cached-last_messages t [] w = refl
    write_cached-last_messages t ((i, info) ∷ m) w =
        write_cached-last_messages t m (write_if (last_of t info) w)
        ∙ write_all-cons_if (last_of t info) (last_messages t m) w

    pub open_new_folder-begins :
        (m : Map ℕ (TopicRuntimeInfo V)) (w : W) (t : ℕ)
        → (api.make_folder w).1 ≡ some t
        → (api.open_file t (api.close_record (api.make_folder w).0)).1 ≡ true
        → (open_new_folder_to_record (m, w)).0.1
          ≡ write_all
              (last_messages t m)
              (api.open_file t (api.close_record (api.make_folder w).0)).0
    unfolding open_new_folder_to_record open_first open_new_mcap_to_record
    open_new_folder-begins m w t e o =
        let first = api.open_file t (api.close_record (api.make_folder w).0) in
        let made : open_new_folder_to_record (m, w)
            ≡ (open_new_mcap_to_record t (m, (api.make_folder w).0), true) =
          ap (λ z. open_first z (m, (api.make_folder w).0)) e in
        let opened : open_new_mcap_to_record t (m, (api.make_folder w).0)
            ≡ write_cached t (m, first.0) =
          ap (λ z. if z then write_cached t (m, first.0) else (m, first.0)) o in
        ap (λ (z : FileState V W × Bool). z.0.1) made
        ∙ ap (λ (z : FileState V W). z.1) opened
        ∙ write_cached-last_messages t m first.0

    pub open_new_folder-opened :
        (f : FileState V W) (t : ℕ)
        → (api.make_folder f.1).1 ≡ some t
        → (open_new_folder_to_record f).1 ≡ true
    unfolding open_new_folder_to_record open_first
    open_new_folder-opened (m, w) t e = ap (λ z. (open_first z (m, (api.make_folder w).0)).1) e
