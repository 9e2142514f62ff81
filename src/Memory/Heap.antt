-- ===== src/Memory/Heap.antt =====
-- The heap of a process over its pages: `heap_read` and `heap_write` of
-- memory/src/petitionHandlers.c, and `t_heapMetadata` of memory/include/memory.h.
--
-- `Pager` is what these functions call of memory.c. An address and a size are natural numbers here;
-- the handlers turn away what is negative. On a size of 0 the last address is one below the first,
-- as in the source, and stays 0 at 0, as C's division gives. The result is `none` where a page has
-- no frame.
pub mod Pieces
pub mod Overwrites
pub mod Flat
pub mod Reading
pub mod Writing
pub mod RoundTrip
use sisop_2c.Prelude.{
  ℕ, zero, suc, ◌+◌, ◌-◌, ◌/◌, ◌%◌, ◌^◌, Bool, true, false, Option, none, some, ◌>>=◌, List, [],
  ◌∷◌, ◌++◌, if◌then◌else◌, ◌==◌, not, get_or, take, drop, slice,
}
use sisop_2c.Shared.Stream.{bytes_u32, u32_bytes}

-- `getFrame`, the bytes behind `ram_getFrame`, and `ram_editFrame` with the bytes that it copies.
pub record Pager (M : Type 0) : Type 0 where
  pub get_frame : M → ℕ → ℕ → Option (ℕ × M)
  pub frame_bytes : M → ℕ → List ℕ
  pub edit_frame : M → ℕ → ℕ → List ℕ → M

-- `t_heapMetadata`
pub record HeapMetadata : Type 0 where
  pub prev_alloc : ℕ
  pub next_alloc : ℕ
  pub is_free : Bool

-- Its 9 bytes in memory.
abbrev pub bytes_metadata : HeapMetadata → List ℕ
bytes_metadata h =
    bytes_u32 h.prev_alloc ++ (bytes_u32 h.next_alloc ++ (if h.is_free then 1 else 0) ∷ [])

abbrev pub metadata_bytes : List ℕ → HeapMetadata
metadata_bytes bs = record {
  prev_alloc = u32_bytes bs;
  next_alloc = u32_bytes (drop 4 bs);
  is_free = not (get_or bs 8 0 == 0);
}

module _ {M : Type 0} (pager : Pager M) (page_size : ℕ) where
  open pager use {get_frame, frame_bytes, edit_frame}

  -- What the loop of `heap_read` copies of page `i`.
  abbrev pub read_piece :
      (start_page start_offset finish_page finish_offset i : ℕ) → List ℕ → List ℕ
  read_piece start_page start_offset finish_page finish_offset i bytes =
      if i == start_page
      then slice bytes start_offset (page_size - start_offset)
      else if i == finish_page
      then take (finish_offset + 1) bytes
      else take page_size bytes

  -- The loop of `heap_read` from page `i`, on `rounds = finish_page + 1 - i` rounds.
  unfoldable pub read_pages :
      (start_page start_offset finish_page finish_offset : ℕ) → ℕ → ℕ → ℕ → M → Option (List ℕ × M)
  read_pages start_page start_offset finish_page finish_offset pid zero i m = some ([], m)
  read_pages start_page start_offset finish_page finish_offset pid (suc rounds) i m = do
    (frame, m1) ← get_frame m pid i
    (rest, m2) ← read_pages start_page start_offset finish_page finish_offset pid rounds (i + 1) m1
    some (
      read_piece start_page start_offset finish_page finish_offset i (frame_bytes m1 frame) ++ rest,
      m2,
    )

  unfoldable pub heap_read : M → ℕ → ℕ → ℕ → Option (List ℕ × M)
  unfolding read_pages
  heap_read m pid address size =
      let start_page = address / page_size in
      let start_offset = address % page_size in
      let finish_page = (address + size - 1) / page_size in
      let finish_offset = (address + size - 1) % page_size in
      let whole =
        read_pages start_page start_offset finish_page finish_offset pid
          (finish_page + 1 - start_page) start_page m in
      if start_page == finish_page
      then (do
        (frame, m1) ← get_frame m pid start_page
        some (slice (frame_bytes m1 frame) start_offset size, m1))
      else whole

  -- The offset in page `i` and the number of bytes that the loop of `heap_write` writes there.
  abbrev pub write_extent : (start_page start_offset finish_page finish_offset i : ℕ) → ℕ × ℕ
  write_extent start_page start_offset finish_page finish_offset i =
      if i == start_page
      then (start_offset, page_size - start_offset)
      else if i == finish_page
      then (0, finish_offset + 1)
      else (0, page_size)

  -- The loop of `heap_write` from page `i`; `content` is what is left behind `data + dataOffset`.
  unfoldable pub write_pages :
      (start_page start_offset finish_page finish_offset : ℕ) → ℕ → ℕ → ℕ → List ℕ → M → Option M
  write_pages start_page start_offset finish_page finish_offset pid zero i content m = some m
  write_pages start_page start_offset finish_page finish_offset pid (suc rounds) i content m = do
    (frame, m1) ← get_frame m pid i
    let extent = write_extent start_page start_offset finish_page finish_offset i in
        write_pages start_page start_offset finish_page finish_offset pid rounds (i + 1)
          (drop extent.1 content) (edit_frame m1 extent.0 frame (take extent.1 content))

  unfoldable pub heap_write : M → ℕ → ℕ → ℕ → List ℕ → Option M
  unfolding write_pages
  heap_write m pid address size content =
      let start_page = address / page_size in
      let start_offset = address % page_size in
      let finish_page = (address + size - 1) / page_size in
      let finish_offset = (address + size - 1) % page_size in
      let whole =
        write_pages start_page start_offset finish_page finish_offset pid
          (finish_page + 1 - start_page) start_page content m in
      if start_page == finish_page
      then (do
        (frame, m1) ← get_frame m pid start_page
        some (edit_frame m1 start_offset frame (take size content)))
      else whole

  unfoldable pub read_metadata : M → ℕ → ℕ → Option (HeapMetadata × M)
  unfolding heap_read
  read_metadata m pid address = do
    (bytes, m1) ← heap_read m pid address 9
    some (metadata_bytes bytes, m1)

  unfoldable pub write_metadata : M → ℕ → ℕ → HeapMetadata → Option M
  unfolding heap_write
  write_metadata m pid address h = heap_write m pid address 9 (bytes_metadata h)
