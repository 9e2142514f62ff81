-- ===== src/Memory/Petitions.antt =====
-- The memory's petition handlers: memory/src/petitionHandlers.c. The allocator is in `Allocator`.
--
-- A handler returns whether the memory goes on serving the client, with the answer that it sends. An
-- `int32_t` of a request is its bit pattern. A result is `none` where the source reads through a
-- NULL page table or outside an array: where a page has no frame, and for a negative address or size
-- that gets past the test of the bounds.
pub mod Allocator
pub mod Bounds
pub mod FirstFit
pub mod Resident
pub mod Accesses
pub mod Leaving
pub mod Ending
use sisop_2c.Prelude.{
  ℕ, zero, suc, ◌+◌, ◌-◌, ◌*◌, ◌/◌, ◌%◌, ◌^◌, Bool, true, false, Option, none, some, ◌>>=◌, List,
  [], ◌∷◌, ◌++◌, if◌then◌else◌, ◌==◌, ◌&&◌, ltb, map, modify, get_or, length, replicate, slice,
  update,
}
use sisop_2c.Shared.Commons.{Lists, Dictionaries}
use sisop_2c.Shared.Stream.{
  StreamBuffer, bytes_u32, stream_take, stream_take_uint32, stream_take_int32,
}
use sisop_2c.Shared.Networking.{Header, Packet, empty_packet}
use sisop_2c.Memory.Tlb.{drop_entry, clean_tlb, free_process_entries}
use sisop_2c.Memory.Frames.{MemoryConfig, Metadata, nobody, ram_edit_frame, clear_frame_metadata}
use sisop_2c.Memory.Paging.{
  PageTable, PageTableEntry, Paged, SwapServer, absent_entry, initialize_page_table,
  destroy_last_entry, page_table_add_entry, set_page, set_table, get_page_table,
}
use sisop_2c.Memory.Access.{Assignment, Replacement, Memory, get_frame}
use sisop_2c.Memory.Heap.{Pager, heap_read, heap_write}

-- The subtraction of a `uint32_t`.
abbrev pub sub_u32 : ℕ → ℕ → ℕ
sub_u32 a b = (a + 2 ^ 32 - b % 2 ^ 32) % 2 ^ 32

-- The largest address that memread and memwrite compare with.
abbrev pub max_address : MemoryConfig → PageTable → ℕ
max_address config pt = sub_u32 (length pt.entries * config.page_size % 2 ^ 32) 1

-- `addr + size > maxAddr`, on `uint32_t`.
abbrev pub out_of_bounds : MemoryConfig → PageTable → ℕ → ℕ → Bool
out_of_bounds config pt address size = ltb (max_address config pt) ((address + size) % 2 ^ 32)

-- The bit pattern of an `int32_t` that is not negative.
abbrev pub is_natural : ℕ → Bool
is_natural n = ltb n (2 ^ 31)

-- `isFree = true`, the only field that the handlers for a process reset.
abbrev pub release : Metadata → ℕ → Metadata
release m frame = record m { frames = modify m.frames frame (λ e. record e { is_free = true }) }

-- The blocks of a process are nobody's.
abbrev pub release_blocks : ℕ → Option (List ℕ) → Option (List ℕ)
release_blocks pid none = none
release_blocks pid (some blocks) = some (map (λ b. if b == pid then nobody else b) blocks)

module _ {D S : Type 0} (lib : Lists) (dicts : Dictionaries D) (string_itoa : ℕ → List ℕ)
    (server : SwapServer S) (config : MemoryConfig) (assignment : Assignment)
    (replacement : Replacement) where
  open dicts use {dictionary_put, dictionary_remove}
  open server use {save_page, erase_page}

  -- What the heap calls of memory.c.
  abbrev pub memory_pager : Pager (Memory D S)
  memory_pager = record {
    get_frame = get_frame lib dicts string_itoa server config assignment replacement;
    frame_bytes = λ m frame. slice m.paged.ram (frame * config.page_size) config.page_size;
    edit_frame = λ m offset frame from.
        let (metadata', ram') =
          ram_edit_frame config m.paged.metadata m.paged.ram offset frame from in
        record m { paged = record m.paged { metadata = metadata'; ram = ram' } };
  }

  abbrev pub table_of : Memory D S → ℕ → Option ℕ
  table_of m pid = get_page_table lib dicts string_itoa server config m.paged pid

  unfoldable pub valid_malloc_address : Memory D S → ℕ → ℕ → Option Bool
  unfolding get_page_table
  valid_malloc_address m pid address = do
    a ← table_of m pid
    some (ltb address (length (m.paged.tables a).entries * config.page_size % 2 ^ 32))

  -- `pageTable_isEmpty`
  unfoldable pub page_table_is_empty : Memory D S → ℕ → Option Bool
  unfolding get_page_table
  page_table_is_empty m pid = do a ← table_of m pid; some (length (m.paged.tables a).entries == 0)

  -- The new entry of the table at `a` stays where the page cannot be saved.
  abbrev pub created : Memory D S → ℕ → ℕ → Option ℕ × Memory D S
  created m pid a =
      let (page, pt) = page_table_add_entry (m.paged.tables a) 0 in
      let (kept, swap') = save_page m.paged.swap pid page (replicate config.page_size 0) in
      let m1 : Memory D S = record m {
        paged = record m.paged { tables = update m.paged.tables a pt; swap = swap' };
      } in
      (if kept then some page else none, m1)

  -- The page number, or -1 (`none`).
  unfoldable pub create_page : Memory D S → ℕ → Option (Option ℕ × Memory D S)
  unfolding page_table_add_entry get_page_table
  create_page m pid = do a ← table_of m pid; some (created m pid a)

  abbrev pub read_chunk : ℕ → List ℕ × Memory D S → Option (Packet × Memory D S)
  read_chunk size (bytes, m) =
      some (record { header = Header.mem_chunk; payload = bytes_u32 size ++ bytes }, m)

  -- The request is read: `address` and `size` are bit patterns.
  unfoldable pub memread_at : Memory D S → ℕ → ℕ → ℕ → Option (Packet × Memory D S)
  unfolding heap_read get_page_table
  memread_at m pid address size = do
    a ← table_of m pid
    (if out_of_bounds config (m.paged.tables a) address size
        then some (empty_packet Header.error, m)
        else if is_natural address && is_natural size
        then heap_read memory_pager config.page_size m pid address size >>= read_chunk size
        else none)

  unfoldable pub memread_handler : Memory D S → StreamBuffer → Option (Packet × Memory D S)
  unfolding memread_at
  memread_handler m payload =
      let (pid, rest) = stream_take_uint32 payload in
      let (address, rest1) = stream_take_int32 rest in
      let (size, rest2) = stream_take_int32 rest1 in memread_at m pid address size

  abbrev pub wrote : Memory D S → Option (Packet × Memory D S)
  wrote m = some (empty_packet Header.ok, m)

  unfoldable pub memwrite_at : Memory D S → ℕ → ℕ → ℕ → List ℕ → Option (Packet × Memory D S)
  unfolding heap_write get_page_table
  memwrite_at m pid address size content = do
    a ← table_of m pid
    (if out_of_bounds config (m.paged.tables a) address size
        then some (empty_packet Header.error, m)
        else if is_natural address && is_natural size
        then heap_write memory_pager config.page_size m pid address size content >>= wrote
        else none)

  unfoldable pub memwrite_handler : Memory D S → StreamBuffer → Option (Packet × Memory D S)
  unfolding memwrite_at
  memwrite_handler m payload =
      let (pid, rest) = stream_take_uint32 payload in
      let (address, rest1) = stream_take_int32 rest in
      let (size, rest2) = stream_take_int32 rest1 in
      if is_natural size then memwrite_at m pid address size (stream_take rest2 size).0 else none

  -- A page of the loop of `suspendHandler` that is in memory, with its entry `e` in the table at `a`.
  abbrev pub suspend_present : Memory D S → ℕ → ℕ → ℕ → PageTableEntry → Memory D S
  suspend_present m pid a i e = record m {
    paged = record m.paged {
      swap =
          (save_page m.paged.swap pid i
            (slice m.paged.ram (e.frame * config.page_size) config.page_size)).1;
      metadata = release m.paged.metadata e.frame;
      tables =
          update m.paged.tables a (set_page (m.paged.tables a) i (record e { present = false }));
    };
  }

  abbrev pub suspend_page : Memory D S → ℕ → ℕ → ℕ → Memory D S
  suspend_page m pid a i =
      let e = get_or (m.paged.tables a).entries i absent_entry in
      if e.present then suspend_present m pid a i e else m

  -- The loop of `suspendHandler` from page `i`, on `rounds = pages - i` rounds.
  unfoldable pub suspend_pages : ℕ → ℕ → ℕ → ℕ → Memory D S → Memory D S
  suspend_pages pid a zero i m = m
  suspend_pages pid a (suc rounds) i m = suspend_pages pid a rounds (i + 1) (suspend_page m pid a i)

  -- What follows the loop: the blocks and the TLB entries of the process.
  abbrev pub forget_process : Memory D S → ℕ → Memory D S
  forget_process m pid = record m {
    paged = record m.paged {
      metadata = record m.paged.metadata {
        first_frame = release_blocks pid m.paged.metadata.first_frame;
      };
      tlb = free_process_entries m.paged.tlb pid;
    };
  }

  unfoldable pub suspend_process : Memory D S → ℕ → Option (Memory D S)
  unfolding suspend_pages get_page_table
  suspend_process m pid = do
    a ← table_of m pid
    some (forget_process (suspend_pages pid a (length (m.paged.tables a).entries) 0 m) pid)

  -- No answer is sent.
  unfoldable pub suspend_handler : Memory D S → StreamBuffer → Option (Memory D S)
  unfolding suspend_process
  suspend_handler m payload = suspend_process m (stream_take_uint32 payload).0

  -- A page of the loop of `capiTermHandler`.
  abbrev pub erase_and_release : Memory D S → ℕ → ℕ → ℕ → Memory D S
  erase_and_release m pid a i =
      let e = get_or (m.paged.tables a).entries i absent_entry in
      record m {
        paged = record m.paged {
          swap = (erase_page m.paged.swap pid i).1;
          metadata = if e.present then release m.paged.metadata e.frame else m.paged.metadata;
        };
      }

  -- The loop of `capiTermHandler`, from page `rounds - 1` down to 0.
  unfoldable pub erase_pages : ℕ → ℕ → ℕ → Memory D S → Memory D S
  erase_pages pid a zero m = m
  erase_pages pid a (suc rounds) m = erase_pages pid a rounds (erase_and_release m pid a rounds)

  -- The page table leaves the dictionary. `sigUsr1HandlerTLB` only prints.
  abbrev pub dismiss : Memory D S → ℕ → Memory D S
  dismiss m pid = record m {
    paged = record m.paged {
      page_tables = dictionary_remove m.paged.page_tables (string_itoa pid);
      tlb = free_process_entries m.paged.tlb pid;
    };
  }

  unfoldable pub capi_term : Memory D S → ℕ → Option (Packet × Memory D S)
  unfolding erase_pages get_page_table
  capi_term m pid = do
    a ← table_of m pid
    some (
      empty_packet Header.ok,
      dismiss (erase_pages pid a (length (m.paged.tables a).entries) m) pid,
    )

  unfoldable pub capi_term_handler : Memory D S → StreamBuffer → Option (Packet × Memory D S)
  unfolding capi_term
  capi_term_handler m payload = capi_term m (stream_take_uint32 payload).0

  -- A new page table at the address `fresh`. The header `ID_MEMORIA` goes before the answer.
  unfoldable pub capi_id_handler : ℕ → Memory D S → StreamBuffer → Header × Packet × Memory D S
  capi_id_handler fresh m payload =
      let (pid, rest) = stream_take_uint32 payload in
      (
        Header.id_memoria,
        empty_packet Header.ok,
        record m {
          paged = record m.paged {
            page_tables = dictionary_put m.paged.page_tables (string_itoa pid) fresh;
            tables = update m.paged.tables fresh initialize_page_table;
          };
        },
      )

-- The client leaves: the answer, and that it is not served any more.
unfoldable pub disconnected_handler : Packet × Bool
disconnected_handler = (empty_packet Header.ok, false)
