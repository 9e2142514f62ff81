-- ===== src/Swamp/Swap.antt =====
-- The assignment of pages to swap files and the requests of the memory: swamp/src/swap.c,
-- swamp/include/swap.h, swamp/src/petitionHandlers.c, swamp/include/petitionHandlers.h.
--
-- `swap_files` lists the addresses of the `t_swapFile` structs, which stand in `store`. `beyond` is
-- what the memory behind the arrays of page metadata holds. The loops over chunks run on one round
-- more than the file has pages, which is enough where `max_frames` is at least 1; with 0 the C loops
-- would not advance.
pub mod Placing
pub mod RoundTrip
pub mod Keeping
pub mod Others
pub mod Serving
pub mod Answering
use sisop_2c.Prelude.{
  ℕ, zero, suc, ◌+◌, Bool, true, false, not, Option, none, some, List, if◌then◌else◌, ◌==◌, ltb,
  leb, get_or, update,
}
use sisop_2c.Shared.Commons.{Lists}
use sisop_2c.Shared.Stream.{StreamBuffer, stream_take, stream_take_uint32, stream_take_int32}
use sisop_2c.Swamp.SwapFile.{
  SwapFile, PageMetadata, blank, is_found, is_full, has_pid, count_pid_pages, count_free_indexes,
  get_index, find_free_index, register, write_at_index, read_at_index, clear_at_index, free_entry,
}

-- What swap.c reads of `t_swapConfig`.
pub record SwapConfig : Type 0 where
  pub page_size : ℕ
  pub max_frames : ℕ

pub record Swap : Type 0 where
  pub swap_files : List ℕ
  pub store : ℕ → SwapFile

-- The headers of the answers, `PAGE` with its payload.
pub data Answer : Type 0 where
  swap_ok swap_error : Answer
  page_data : List ℕ → Answer

-- `asignacion`
pub data Assignment : Type 0 where
  fixed globally : Assignment

abbrev pub set_file : Swap → ℕ → SwapFile → Swap
set_file s a sf = record s { store = update s.store a sf }

-- The loop of `hasFreeChunk` and `findFreeChunk`: the first chunk from `i` whose first entry is free.
unfoldable pub free_chunk_from : SwapConfig → SwapFile → ℕ → ℕ → Option ℕ
free_chunk_from config sf zero i = none
free_chunk_from config sf (suc rounds) i =
    let rest = free_chunk_from config sf rounds (i + config.max_frames) in
    if ltb i sf.max_pages
    then (if not (get_or sf.entries i blank).used then some i else rest)
    else none

unfoldable pub find_free_chunk : SwapConfig → SwapFile → Option ℕ
unfolding free_chunk_from
find_free_chunk config sf = free_chunk_from config sf (suc sf.max_pages) 0

unfoldable pub has_free_chunk : SwapConfig → SwapFile → Bool
unfolding find_free_chunk
has_free_chunk config sf = is_found (find_free_chunk config sf)

-- The loop of `getChunk`, which reads `entries[i]` before it compares `i` with `maxPages`.
unfoldable pub chunk_from : (ℕ → PageMetadata) → SwapConfig → SwapFile → ℕ → ℕ → ℕ → Option ℕ
chunk_from beyond config sf pid zero i = none
chunk_from beyond config sf pid (suc rounds) i =
    let rest = chunk_from beyond config sf pid rounds (i + config.max_frames) in
    let e = get_or sf.entries i (beyond i) in
    if e.pid == pid
    then (if e.used then some i else none)
    else if leb sf.max_pages i
    then none
    else rest

unfoldable pub get_chunk : (ℕ → PageMetadata) → SwapConfig → SwapFile → ℕ → Option ℕ
unfolding chunk_from
get_chunk beyond config sf pid = chunk_from beyond config sf pid (suc sf.max_pages) 0

abbrev pub or_else {ℓ} : {A : Type ℓ} → Option A → Option A → Option A
or_else none b = b
or_else (some a) b = some a

-- `swapFile_writeAtIndex` and `swapFile_register`, at the end of both algorithms.
abbrev pub store_page : Swap → ℕ → ℕ → ℕ → ℕ → List ℕ → Swap
store_page s a index pid page content =
    set_file s a (register (write_at_index (s.store a) index content) pid page index)

abbrev pub more_free : Swap → ℕ → ℕ → ℕ
more_free s a b =
    if leb (count_free_indexes (s.store b)) (count_free_indexes (s.store a)) then a else b

unfoldable pub free_index : (ℕ → PageMetadata) → SwapFile → Option ℕ
free_index beyond sf = if is_full sf then none else find_free_index beyond sf

module _ (lib : Lists) where
  unfoldable pub pid_exists : Swap → ℕ → Option ℕ
  pid_exists s pid = lib.list_find (λ a. has_pid (s.store a) pid) s.swap_files

  unfoldable pub read_page_of : Swap → ℕ → ℕ → Answer
  unfolding pid_exists
  read_page_of s pid page = elim (pid_exists s pid) [
    | none ↦ Answer.swap_error
    | some a ↦ elim (get_index (s.store a) pid page) [
      | none ↦ Answer.swap_error
      | some index ↦ Answer.page_data (read_at_index (s.store a) index)
    ]
  ]

  unfoldable pub destroy_page_of : Swap → ℕ → ℕ → Answer × Swap
  unfolding pid_exists
  destroy_page_of s pid page = elim (pid_exists s pid) [
    | none ↦ (Answer.swap_error, s)
    | some a ↦ elim (get_index (s.store a) pid page) [
      | none ↦ (Answer.swap_error, s)
      | some index ↦
          (Answer.swap_ok, set_file s a (free_entry (clear_at_index (s.store a) index) index))
    ]
  ]

  unfoldable pub read_page : Swap → StreamBuffer → Answer × Swap
  unfolding read_page_of
  read_page s payload =
      let (pid, rest) = stream_take_uint32 payload in
      (read_page_of s pid (stream_take_int32 rest).0, s)

  unfoldable pub destroy_page : Swap → StreamBuffer → Answer × Swap
  unfolding destroy_page_of
  destroy_page s payload =
      let (pid, rest) = stream_take_uint32 payload in
      destroy_page_of s pid (stream_take_int32 rest).0

module _ (beyond : ℕ → PageMetadata) (lib : Lists) (config : SwapConfig) where
  -- The index for a page that the file does not have.
  unfoldable pub index_in_chunk : SwapFile → ℕ → Option ℕ
  index_in_chunk sf pid =
      elim (or_else (get_chunk beyond config sf pid) (find_free_chunk config sf)) [
        | none ↦ none
        | some base ↦
            if count_pid_pages sf pid == config.max_frames
            then none
            else some (base + count_pid_pages sf pid)
      ]

  unfoldable pub fija : Swap → ℕ → ℕ → List ℕ → Bool × Swap
  unfolding pid_exists index_in_chunk
  fija s pid page content =
      elim (or_else (pid_exists lib s pid)
        (lib.list_find (λ a. has_free_chunk config (s.store a)) s.swap_files)) [
          | none ↦ (false, s)
          | some a ↦
              elim (or_else (get_index (s.store a) pid page) (index_in_chunk (s.store a) pid)) [
                | none ↦ (false, s)
                | some index ↦ (true, store_page s a index pid page content)
              ]
        ]

  unfoldable pub global : Swap → ℕ → ℕ → List ℕ → Bool × Swap
  unfolding pid_exists free_index
  global s pid page content =
      elim (or_else (pid_exists lib s pid) (lib.list_get_maximum (more_free s) s.swap_files)) [
        | none ↦ (false, s)
        | some a ↦ elim (or_else (get_index (s.store a) pid page) (free_index beyond (s.store a))) [
          | none ↦ (false, s)
          | some index ↦ (true, store_page s a index pid page content)
        ]
      ]

  unfoldable pub assign : Assignment → Swap → ℕ → ℕ → List ℕ → Bool × Swap
  unfolding fija global
  assign Assignment.fixed s pid page content = fija s pid page content
  assign Assignment.globally s pid page content = global s pid page content

  -- The requests, after the fields of the packet have been read.
  unfoldable pub save_page_of : Assignment → Swap → ℕ → ℕ → List ℕ → Answer × Swap
  unfolding assign
  save_page_of algorithm s pid page content =
      let (rc, s') = assign algorithm s pid page content in
      (if rc then Answer.swap_ok else Answer.swap_error, s')

  unfoldable pub save_page : Assignment → Swap → StreamBuffer → Answer × Swap
  unfolding save_page_of
  save_page algorithm s payload =
      let (pid, rest) = stream_take_uint32 payload in
      let (page, rest') = stream_take_int32 rest in
      save_page_of algorithm s pid page (stream_take rest' config.page_size).0

-- `memDisconnect`
unfoldable pub mem_disconnect : Swap → Answer × Swap
mem_disconnect s = (Answer.swap_ok, s)
