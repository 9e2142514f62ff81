-- ===== src/Tests/Chains.antt =====
-- The searches through the blocks of a heap, at a heap of two blocks.
use sisop_2c.Prelude.{Bool, ℕ, ◌≡◌, ◌++◌, refl, true, false, none, some, [], ◌∷◌, replicate, arith}
use sisop_2c.Shared.Commons.{plain_lists}
use sisop_2c.Memory.Tlb.{Policy, add_entry, get_frame_from_tlb, lookup_loop}
use sisop_2c.Memory.Frames.{MemoryConfig, blank}
use sisop_2c.Memory.Paging.{SwapServer, get_page_table}
use sisop_2c.Memory.Access.{
  Assignment, Replacement, Memory, get_frame, get_frame_missed, get_frame_of,
}
use sisop_2c.Memory.Heap.{HeapMetadata, bytes_metadata, heap_read, read_metadata}
use sisop_2c.Memory.Petitions.Allocator.{
  load_block, find_alloc, get_last_alloc_addr, get_free_alloc,
}
use sisop_2c.Memory.Petitions.FirstFit.{
  Visit, Chosen, last_block, only_free, IsChain, find_alloc-Chosen,
}
use sisop_2c.Tests.{Table, tables, empty_table, digits, from_some}

abbrev config : MemoryConfig
config = record {
  page_size = 32;
  frame_qty = 1;
  frames_per_process = 1;
  size = 32;
  is_fija = false;
}

-- A swap server without pages.
abbrev no_pages : SwapServer ℕ
no_pages = record {
  save_page = λ n pid page bytes. (true, n);
  load_page = λ n pid page. (none, n);
  erase_page = λ n pid page. (true, n);
}

-- Three free bytes, and the end of the chain behind them.
abbrev front : HeapMetadata
front = record { prev_alloc = 0; next_alloc = 12; is_free = true }

abbrev end_block : HeapMetadata
end_block = record { prev_alloc = 0; next_alloc = 0; is_free = true }

abbrev heap : Memory Table ℕ
heap = record {
  paged = record {
    metadata = record {
      first_frame = none;
      clock_counters = [];
      counter = 0;
      frames = record blank { is_free = false } ∷ [];
    };
    ram = bytes_metadata front ++ (0 ∷ 0 ∷ 0 ∷ bytes_metadata end_block ++ replicate 11 0);
    tlb = record {
      entries = [];
      policy = Policy.lru;
      victim_queue = [];
      hits = empty_table;
      misses = empty_table;
    };
    page_tables = λ key. some 1;
    tables = λ a. record { entries = record { present = true; frame = 0 } ∷ [] };
    swap = 0;
  };
  pointer = 0;
}

abbrev loaded : Memory Table ℕ → ℕ → Visit (Memory Table ℕ)
unfolding read_metadata heap_read get_frame get_frame_missed get_frame_of get_frame_from_tlb
    lookup_loop get_page_table
loaded m address =
    from_some (front, m)
      (load_block plain_lists tables digits no_pages config Assignment.globally Replacement.by_lru m
        7 address)

abbrev first_visit : Visit (Memory Table ℕ)
first_visit = loaded heap 0

abbrev last_visit : Visit (Memory Table ℕ)
last_visit = loaded first_visit.1 12

two_blocks :
    IsChain plain_lists tables digits no_pages config Assignment.globally Replacement.by_lru 7 heap
      0 first_visit
      (last_visit ∷ [])
unfolding IsChain read_metadata heap_read get_frame get_frame_missed get_frame_of get_frame_from_tlb
    lookup_loop get_page_table add_entry plain_lists
two_blocks = (refl, omega arith, omega arith, (refl, refl))

find_alloc-Chosen_example :
    (r : ℕ × Bool × Memory Table ℕ) × (find_alloc plain_lists tables digits no_pages config
        Assignment.globally Replacement.by_lru 2 heap 7 3 0
      ≡ some r)
    × Chosen 3 ((0, first_visit) ∷ (12, last_visit) ∷ []) r
    × (get_free_alloc plain_lists tables digits no_pages config Assignment.globally
          Replacement.by_lru 2 heap 7 3 0
        ≡ some (only_free r))
    × (get_last_alloc_addr plain_lists tables digits no_pages config Assignment.globally
          Replacement.by_lru 2 heap 7 0
        ≡ some (12, last_visit.1))
unfolding last_block loaded
find_alloc-Chosen_example =
    find_alloc-Chosen plain_lists tables digits no_pages config Assignment.globally
      Replacement.by_lru 7 3 2 heap 0 first_visit (last_visit ∷ []) two_blocks (omega arith)
