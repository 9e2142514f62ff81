-- ===== src/Memory/Frames.antt =====
-- The metadata of the frames, their assignment to processes, and the LRU victim: memory/src/memory.c,
-- memory/include/memory.h.
--
-- `frames` are the entries of the metadata. A frame or a block that the source gives as -1 is `none`.
-- `firstFrame` and its counters exist with fixed assignment only.
use sisop_2c.Prelude.{
  ℕ, zero, suc, ◌+◌, ◌-◌, ◌*◌, ◌/◌, ◌%◌, ◌^◌, Bool, true, false, Option, none, some, List, [], ◌∷◌,
  if◌then◌else◌, ◌==◌, ltb, get_or, set, modify, replicate, map, slice, overwrite, find_index,
}
pub mod Assignment
pub mod Lru

-- What the functions of memory.c read of `t_memoryConfig`.
pub record MemoryConfig : Type 0 where
  pub page_size : ℕ
  pub frame_qty : ℕ
  pub frames_per_process : ℕ
  pub size : ℕ
  pub is_fija : Bool

-- `t_frameMetadata`
pub record Frame : Type 0 where
  pub is_free : Bool
  pub modified : Bool
  pub u : Bool
  pub pid : ℕ
  pub page : ℕ
  pub time_stamp : ℕ

-- `t_memoryMetadata`; `first_frame` is `none` as NULL.
pub record Metadata : Type 0 where
  pub first_frame : Option (List ℕ)
  pub clock_counters : List ℕ
  pub counter : ℕ
  pub frames : List Frame

abbrev pub blank : Frame
blank = record { is_free = true; modified = false; u = false; pid = 0; page = 0; time_stamp = 0 }

-- -1 as a `uint32_t`: no process.
abbrev pub nobody : ℕ
nobody = 2 ^ 32 - 1

abbrev pub multiples : ℕ → ℕ → ℕ → List ℕ
multiples zero i k = []
multiples (suc n) i k = i * k ∷ multiples n (i + 1) k

unfoldable pub initialize_metadata : MemoryConfig → Metadata
initialize_metadata config =
    let block_qty = config.frame_qty / config.frames_per_process in
    record {
      first_frame = if config.is_fija then some (replicate block_qty nobody) else none;
      clock_counters =
          if config.is_fija then multiples block_qty 0 config.frames_per_process else [];
      counter = 0;
      frames = replicate config.frame_qty blank;
    }

unfoldable pub is_free : Metadata → ℕ → Bool
is_free m frame = (get_or m.frames frame blank).is_free

-- `for(i = start; i < end; i++) if(isFree(i)) return i;` on `rounds = end - start` rounds.
unfoldable pub free_frame_from : Metadata → ℕ → ℕ → Option ℕ
unfolding is_free
free_frame_from m zero i = none
free_frame_from m (suc rounds) i =
    let rest = free_frame_from m rounds (i + 1) in if is_free m i then some i else rest

unfoldable pub get_free_frame : Metadata → ℕ → ℕ → Option ℕ
unfolding free_frame_from
get_free_frame m start end = free_frame_from m (end - start) start

unfoldable pub update_timestamp : Metadata → ℕ → Metadata
update_timestamp m frame =
    let c = (m.counter + 1) % 2 ^ 32 in
    record m { counter = c; frames = modify m.frames frame (λ e. record e { time_stamp = c }) }

unfoldable pub get_frame_timestamp : Metadata → ℕ → ℕ
get_frame_timestamp m frame = (get_or m.frames frame blank).time_stamp

-- `writeFrame` and `ram_editFrame` mark the frame and write its bytes.
abbrev pub mark_written : Metadata → ℕ → Metadata
mark_written m frame = record m {
  frames = modify m.frames frame (λ e. record e { modified = true; u = true });
}

unfoldable pub write_frame : MemoryConfig → Metadata → List ℕ → ℕ → List ℕ → Metadata × List ℕ
write_frame config m ram frame from =
    (mark_written m frame, overwrite ram (frame * config.page_size) from)

unfoldable pub ram_edit_frame :
    MemoryConfig → Metadata → List ℕ → ℕ → ℕ → List ℕ → Metadata × List ℕ
ram_edit_frame config m ram offset frame from =
    (mark_written m frame, overwrite ram (frame * config.page_size + offset) from)

unfoldable pub clear_frame_metadata : Metadata → ℕ → Metadata
clear_frame_metadata m frame = record m {
  frames =
      modify m.frames frame
        (λ e. record e { is_free = true; page = 0; u = false; modified = false });
}

-- No caller of `fijo` has a NULL array.
abbrev pub blocks_of : Option (List ℕ) → List ℕ
blocks_of none = []
blocks_of (some bs) = bs

abbrev pub block_range : MemoryConfig → ℕ → ℕ × ℕ
block_range config i =
    (i * config.frames_per_process, i * config.frames_per_process + config.frames_per_process)

-- The block of the process with fixed assignment: its own, or else the first that is nobody's. The
-- result is the range of frames, which is `none` where the source returns false.
unfoldable pub fijo : MemoryConfig → Metadata → ℕ → Option (ℕ × ℕ) × Metadata
fijo config m pid =
    let blocks : List ℕ = blocks_of m.first_frame in
    elim (find_index (λ b. b == pid) blocks) [
      | some i ↦ (some (block_range config i), m)
      | none ↦ elim (find_index (λ b. b == nobody) blocks) [
        | some i ↦ (some (block_range config i), record m { first_frame = some (set blocks i pid) })
        | none ↦ (none, m)
      ]
    ]

unfoldable pub global : MemoryConfig → Metadata → ℕ → Option (ℕ × ℕ) × Metadata
global config m pid = (some (0, config.frame_qty), m)

-- The loop of `LRU`, over the frames from `i`: the frame with the smallest time stamp below `least`.
unfoldable pub lru_loop : Metadata → ℕ → ℕ → Option ℕ → ℕ → Option ℕ
unfolding get_frame_timestamp
lru_loop m zero i frame least = frame
lru_loop m (suc rounds) i frame least =
    let older = ltb (get_frame_timestamp m i) least in
    lru_loop m rounds (i + 1) (if older then some i else frame)
      (if older then get_frame_timestamp m i else least)

unfoldable pub lru : Metadata → ℕ → ℕ → Option ℕ
unfolding lru_loop get_free_frame
lru m start end = elim (get_free_frame m start end) [
  | some i ↦ some i
  | none ↦ lru_loop m (end - start) start none m.counter
]
