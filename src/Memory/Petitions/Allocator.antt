-- ===== src/Memory/Petitions/Allocator.antt =====
-- The allocator of the processes' heaps: `memallocHandler`, `memfreeHandler` and `deleteLastPages` of
-- memory/src/petitionHandlers.c.
--
-- The heap is a chain of blocks, each behind a `t_heapMetadata`; the block without a next one ends the
-- chain. The search of memalloc runs on at most `rounds` blocks, and is `none` if it does not end in
-- them. Freeing the block that ends the chain is `none`: the source frees an uninitialised pointer.
use sisop_2c.Prelude.{
  ℕ, zero, suc, ◌+◌, ◌-◌, ◌/◌, ◌%◌, ◌^◌, Bool, true, false, not, Option, none, some, ◌>>=◌, List,
  if◌then◌else◌, ◌==◌, ◌&&◌, ltb, leb, get_or, length,
}
use sisop_2c.Shared.Commons.{Lists, Dictionaries}
use sisop_2c.Shared.Stream.{StreamBuffer, add_u32, bytes_u32, stream_take_uint32, stream_take_int32}
use sisop_2c.Shared.Networking.{Header, Packet, empty_packet}
use sisop_2c.Memory.Tlb.{drop_entry}
use sisop_2c.Memory.Frames.{MemoryConfig, clear_frame_metadata}
use sisop_2c.Memory.Paging.{SwapServer, absent_entry, destroy_last_entry, set_table, get_page_table}
use sisop_2c.Memory.Access.{Assignment, Replacement, Memory}
use sisop_2c.Memory.Heap.{HeapMetadata, read_metadata, write_metadata}
use sisop_2c.Memory.Petitions.{
  sub_u32, is_natural, memory_pager, table_of, valid_malloc_address, page_table_is_empty,
  create_page,
}

-- `div_roundUp` on an `int32_t` given as its bit pattern, as a number of rounds: none if it is
-- negative, where C divides towards 0.
abbrev pub div_round_up : ℕ → ℕ → ℕ
div_round_up a b =
    if is_natural a
    then (if a % b == 0 then a / b else a / b + 1)
    else if ltb (2 ^ 32 - a) b
    then 1
    else 0

-- The answer with a pointer; 0 is NULL.
abbrev pub pointer_packet : ℕ → Packet
pointer_packet address = record { header = Header.pointer; payload = bytes_u32 address }

-- The bytes between a block's metadata and the next block.
abbrev pub distance : HeapMetadata → ℕ → ℕ
distance h address = sub_u32 (sub_u32 h.next_alloc address) 9

-- The end of the chain behind the block at `address`.
abbrev pub chain_end : ℕ → HeapMetadata
chain_end address = record { prev_alloc = address; next_alloc = 0; is_free = true }

module _ {D S : Type 0} (lib : Lists) (dicts : Dictionaries D) (string_itoa : ℕ → List ℕ)
    (server : SwapServer S) (config : MemoryConfig) (assignment : Assignment)
    (replacement : Replacement) where
  open server use {erase_page}

  abbrev pub load_block : Memory D S → ℕ → ℕ → Option (HeapMetadata × Memory D S)
  load_block m pid address =
      read_metadata (memory_pager lib dicts string_itoa server config assignment replacement)
        config.page_size m pid address

  abbrev pub store_block : Memory D S → ℕ → ℕ → HeapMetadata → Option (Memory D S)
  store_block m pid address h =
      write_metadata (memory_pager lib dicts string_itoa server config assignment replacement)
        config.page_size m pid address h

  -- The search for a free block that is large enough: its address and `false`, or the end of the
  -- chain and `true`.
  unfoldable pub find_alloc : ℕ → Memory D S → ℕ → ℕ → ℕ → Option (ℕ × Bool × Memory D S)
  find_alloc zero m pid size current = none
  find_alloc (suc rounds) m pid size current = do
    (block, m1) ← load_block m pid current
    (let onwards = find_alloc rounds m1 pid size block.next_alloc in
        if block.next_alloc == 0
        then some (current, true, m1)
        else if block.is_free && leb size (distance block current)
        then some (current, false, m1)
        else onwards)

  -- The loop of `getLastAllocAddr`, from the block at `current`.
  unfoldable pub get_last_alloc_addr : ℕ → Memory D S → ℕ → ℕ → Option (ℕ × Memory D S)
  get_last_alloc_addr zero m pid current = none
  get_last_alloc_addr (suc rounds) m pid current = do
    (block, m1) ← load_block m pid current
    (let onwards = get_last_alloc_addr rounds m1 pid block.next_alloc in
        if block.next_alloc == 0 then some (current, m1) else onwards)

  -- The loop of `getFreeAlloc`, from the block at `current`; -1 is `none` inside.
  unfoldable pub get_free_alloc : ℕ → Memory D S → ℕ → ℕ → ℕ → Option (Option ℕ × Memory D S)
  get_free_alloc zero m pid size current = none
  get_free_alloc (suc rounds) m pid size current = do
    (block, m1) ← load_block m pid current
    (let onwards = get_free_alloc rounds m1 pid size block.next_alloc in
        if block.next_alloc == 0
        then some (none, m1)
        else if block.is_free && leb size (distance block current)
        then some (some current, m1)
        else onwards)

  -- The block is taken whole.
  abbrev pub take_block : Memory D S → ℕ → ℕ → HeapMetadata → Option (Packet × Memory D S)
  take_block m pid current found = do
    m1 ← store_block m pid current (record found { is_free = false })
    some (pointer_packet (add_u32 current 9), m1)

  -- The block is cut in two.
  abbrev pub split_block : Memory D S → ℕ → ℕ → ℕ → HeapMetadata → Option (Packet × Memory D S)
  split_block m pid size current found =
      let middle = add_u32 (add_u32 current 9) size in
      do
        (old_next, m1) ← load_block m pid found.next_alloc
        m2 ← store_block m1 pid current (record found { next_alloc = middle; is_free = false })
        m3 ←
            store_block m2 pid middle
              (record { prev_alloc = current; next_alloc = found.next_alloc; is_free = true })
        m4 ← store_block m3 pid found.next_alloc (record old_next { prev_alloc = middle })
        some (pointer_packet (add_u32 current 9), m4)

  -- The case with a free block.
  unfoldable pub use_free_block : Memory D S → ℕ → ℕ → ℕ → Option (Packet × Memory D S)
  use_free_block m pid size current = do
    (found, m1) ← load_block m pid current
    (if leb (distance found current) (add_u32 size 9)
        then take_block m1 pid current found
        else split_block m1 pid size current found)

  -- The end of the chain becomes the block, and a new end stands behind it.
  abbrev pub extend_chain : Memory D S → ℕ → ℕ → ℕ → HeapMetadata → Option (Packet × Memory D S)
  extend_chain m pid size current last =
      let next = add_u32 (add_u32 current 9) size in
      do
        m1 ← store_block m pid current (record last { next_alloc = next; is_free = false })
        m2 ← store_block m1 pid next (chain_end current)
        some (pointer_packet (add_u32 current 9), m2)

  -- The pages that a large block needs: whether all could be created.
  unfoldable pub create_pages : ℕ → Memory D S → ℕ → Option (Bool × Memory D S)
  unfolding create_page
  create_pages zero m pid = some (true, m)
  create_pages (suc n) m pid = do
    (page, m1) ← create_page lib dicts string_itoa server config assignment replacement m pid
    elim page [ none ↦ some (false, m1) | some i ↦ create_pages n m1 pid ]

  -- The loop of `deleteLastPages` on the table at `a`, from page `first + rounds` down.
  unfoldable pub delete_pages : Memory D S → ℕ → ℕ → ℕ → ℕ → Memory D S
  unfolding destroy_last_entry
  delete_pages m pid a first zero = m
  delete_pages m pid a first (suc rounds) =
      let erased : Memory D S = record m {
        paged = record m.paged { swap = (erase_page m.paged.swap pid (first + suc rounds)).1 };
      } in
      delete_pages
        (record erased {
          paged = set_table erased.paged a (destroy_last_entry (erased.paged.tables a));
        })
        pid a first rounds

  unfoldable pub delete_last_pages : Memory D S → ℕ → ℕ → Option (Memory D S)
  unfolding delete_pages get_page_table
  delete_last_pages m pid last_alloc = do
    a ← table_of lib dicts string_itoa server config assignment replacement m pid
    let first = add_u32 last_alloc 9 / config.page_size in
        some (delete_pages m pid a first (sub_u32 (length (m.paged.tables a).entries) 1 - first))

  -- The pages that a block at the end of the chain needs were created, or not all of them.
  abbrev pub extend_or_undo :
      ℕ → ℕ → ℕ → HeapMetadata → Bool × Memory D S → Option (Packet × Memory D S)
  extend_or_undo pid size current last (true, m) = extend_chain m pid size current last
  extend_or_undo pid size current last (false, m) = do
    m1 ← delete_last_pages m pid current
    some (pointer_packet 0, m1)

  -- The case without a free block.
  unfoldable pub use_last_block : Memory D S → ℕ → ℕ → ℕ → Option (Packet × Memory D S)
  unfolding create_pages delete_last_pages
  use_last_block m pid size current =
      let free_space = config.page_size - add_u32 current 9 % config.page_size in
      let needed = add_u32 size 10 in
      do
        (last, m1) ← load_block m pid current
        (if leb needed free_space
            then extend_chain m1 pid size current last
            else (create_pages (div_round_up (sub_u32 needed free_space) config.page_size) m1 pid
                >>= extend_or_undo pid size current last))

  -- A heap with pages.
  unfoldable pub memalloc_in : ℕ → Memory D S → ℕ → ℕ → Option (Packet × Memory D S)
  unfolding find_alloc use_free_block use_last_block
  memalloc_in rounds m pid size = do
    (current, is_last, m1) ← find_alloc rounds m pid size 0
    (if is_last then use_last_block m1 pid size current else use_free_block m1 pid size current)

  -- The first page of a heap, with the end of the chain in it; `none` inside is a page that could
  -- not be created.
  unfoldable pub start_heap : Memory D S → ℕ → Option (Bool × Memory D S)
  unfolding create_page
  start_heap m pid = do
    (page, m1) ← create_page lib dicts string_itoa server config assignment replacement m pid
    elim page [
      | none ↦ some (false, m1)
      | some i ↦ (do m2 ← store_block m1 pid 0 (chain_end 0); some (true, m2))
    ]

  abbrev pub memalloc_started : ℕ → ℕ → ℕ → Bool × Memory D S → Option (Packet × Memory D S)
  memalloc_started rounds pid size (true, m) = memalloc_in rounds m pid size
  memalloc_started rounds pid size (false, m) = some (pointer_packet 0, m)

  unfoldable pub memalloc : ℕ → Memory D S → ℕ → ℕ → Option (Packet × Memory D S)
  unfolding memalloc_in start_heap page_table_is_empty
  memalloc rounds m pid size = do
    empty ← page_table_is_empty lib dicts string_itoa server config assignment replacement m pid
    (if empty
        then start_heap m pid >>= memalloc_started rounds pid size
        else memalloc_in rounds m pid size)

  unfoldable pub memalloc_handler : ℕ → Memory D S → StreamBuffer → Option (Packet × Memory D S)
  unfolding memalloc
  memalloc_handler rounds m payload =
      let (pid, rest) = stream_take_uint32 payload in
      memalloc rounds m pid (stream_take_int32 rest).0

  -- The free block on the right, if it is one, is joined to `block`.
  abbrev pub absorb : HeapMetadata → HeapMetadata → HeapMetadata
  absorb block right =
      if right.is_free then record block { next_alloc = right.next_alloc } else block

  -- What stands for the freed bytes in the end: the block on the left with the freed one joined to
  -- it, if the left one is free, or else the freed block. The result is its address and next block.
  abbrev pub settle : Memory D S → ℕ → ℕ → HeapMetadata → HeapMetadata → Option (ℕ × ℕ × Memory D S)
  settle m pid address block left = do
    m1 ←
        (if left.is_free
          then store_block m pid block.prev_alloc (record left { next_alloc = block.next_alloc })
          else some m)
    m2 ← store_block m1 pid address (record block { is_free = true })
    some (if left.is_free then block.prev_alloc else address, block.next_alloc, m2)

  -- The loop of `memfreeHandler` over the pages behind the last block, on the table at `a`: from page
  -- `first + rounds - 1` down to `first`.
  unfoldable pub drop_pages : Memory D S → ℕ → ℕ → ℕ → ℕ → Memory D S
  unfolding destroy_last_entry clear_frame_metadata drop_entry
  drop_pages m pid a first zero = m
  drop_pages m pid a first (suc rounds) =
      let i = first + rounds in
      let e = get_or (m.paged.tables a).entries i absent_entry in
      let unloaded : Memory D S =
        (if e.present
          then record m {
            paged = record m.paged {
              metadata = clear_frame_metadata m.paged.metadata e.frame;
              tlb = drop_entry m.paged.tlb pid i;
            };
          }
          else m) in
      drop_pages
        (record unloaded {
          paged = record unloaded.paged {
            tables =
                (set_table unloaded.paged a (destroy_last_entry (unloaded.paged.tables a))).tables;
            swap = (erase_page unloaded.paged.swap pid i).1;
          };
        })
        pid a first rounds

  -- After the blocks are joined: the pages behind the end of the chain go, or the next block points
  -- back to the block at `final`.
  abbrev pub tidy : ℕ → ℕ → ℕ × ℕ × Memory D S → Option (Packet × Memory D S)
  tidy pid a (final, next, m) =
      if next == 0
      then (let first = 1 + (final + 9) / config.page_size in
          some (
            empty_packet Header.ok,
            drop_pages m pid a first (length (m.paged.tables a).entries - first),
          ))
      else (do
        (rightmost, m1) ← load_block m pid next
        m2 ← store_block m1 pid next (record rightmost { prev_alloc = final })
        some (empty_packet Header.ok, m2))

  -- The address is valid: the block at `address` is freed.
  unfoldable pub free_block : Memory D S → ℕ → ℕ → Option (Packet × Memory D S)
  unfolding drop_pages get_page_table
  free_block m pid address = do
    (block, m1) ← load_block m pid address
    (if block.next_alloc == 0 then none else (do
      (right, m2) ← load_block m1 pid block.next_alloc
      let block' = absorb block right in
          (do
            (left, m3) ← load_block m2 pid block'.prev_alloc
            settled ← settle m3 pid address block' left
            a ← table_of lib dicts string_itoa server config assignment replacement settled.2 pid
            tidy pid a settled)))

  unfoldable pub memfree : Memory D S → ℕ → ℕ → Option (Packet × Memory D S)
  unfolding free_block valid_malloc_address
  memfree m pid address = do
    valid ←
        valid_malloc_address lib dicts string_itoa server config assignment replacement m pid
          address
    (if not valid
        then some (empty_packet Header.error, m)
        else if leb 9 address && is_natural address
        then free_block m pid (address - 9)
        else none)

  unfoldable pub memfree_handler : Memory D S → StreamBuffer → Option (Packet × Memory D S)
  unfolding memfree
  memfree_handler m payload =
      let (pid, rest) = stream_take_uint32 payload in memfree m pid (stream_take_int32 rest).0
