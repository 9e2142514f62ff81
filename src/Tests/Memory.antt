-- ===== src/Tests/Memory.antt =====
-- The theorems on the memory at concrete states.
use sisop_2c.Memory.Petitions.{memread_at, memwrite_at, suspend_process, capi_term}
use sisop_2c.Memory.Petitions.Bounds.{memread_at-bounds}
use sisop_2c.Memory.Petitions.Leaving.{Suspended, suspend_process-Suspended}
use sisop_2c.Memory.Petitions.Ending.{Ended, capi_term-Ended}
use sisop_2c.Shared.Networking.{Header, empty_packet}
use sisop_2c.Prelude.{
  ℕ, ◌≡◌, ◌⊎◌, ◌+◌, inl, inr, refl, Bool, true, false, none, some, [], ◌∷◌, arith,
}
use sisop_2c.Shared.Commons.{plain_lists}
use sisop_2c.Memory.Frames.{
  MemoryConfig, Frame, Metadata, blank, initialize_metadata, blocks_of, is_free, free_frame_from,
  get_free_frame, fijo,
}
use sisop_2c.Memory.Frames.Lru.{LruChoice, lru-LruChoice}
use sisop_2c.Memory.Frames.Assignment.{
  IsAssigned, HasBlock, HasNone, fijo-HasBlock, initialize_metadata-IsAssigned,
}
use sisop_2c.Memory.Clock.{clock_m}
use sisop_2c.Memory.Clock.Walk.{IsRange}
use sisop_2c.Memory.Clock.Choice.{Victim, clock_m-Victim}
use sisop_2c.Memory.Tlb.{
  TlbEntry, Policy, Tlb, get_frame_from_tlb, lookup_loop, create_tlb, add_entry, drop_entry,
  clean_tlb, free_process_entries,
}
use sisop_2c.Memory.Tlb
use sisop_2c.Memory.Tlb.Entries.{IsExact, IsFull, add_entry-IsExact}
use sisop_2c.Memory.Tlb.Lookup.{answer, added_hits}
use sisop_2c.Tests.{Table, tables, empty_table, digits}
use sisop_2c.Memory.Paging
use sisop_2c.Memory.Paging.{SwapServer, Paged, get_page_table}
use sisop_2c.Memory.Access.{Assignment, Replacement, Memory, get_frame}
use sisop_2c.Memory.Access.Present.{Served, get_frame-Served}
use sisop_2c.Memory.Paging.Loaded.{Loaded, replace-Loaded}

-- Four frames in blocks of two.
abbrev config : MemoryConfig
config = record {
  page_size = 32;
  frame_qty = 4;
  frames_per_process = 2;
  size = 128;
  is_fija = true;
}

abbrev in_use : Bool → Bool → Frame
in_use u modified = record blank { is_free = false; u = u; modified = modified; time_stamp = 3 }

-- All frames are in use; only frame 1 is neither used nor modified.
abbrev busy : Metadata
busy = record {
  first_frame = none;
  clock_counters = [];
  counter = 5;
  frames = in_use true true ∷ in_use false false ∷ in_use true false ∷ in_use false true ∷ [];
}

whole-IsRange : IsRange 0 4
whole-IsRange = record { aligned = refl; fits = omega arith }

clock_m-Victim_example : Victim busy 0 4 (clock_m config 2 busy 3 0 4)
unfolding get_free_frame free_frame_from is_free
clock_m-Victim_example =
    clock_m-Victim config busy 3 0 4 whole-IsRange (omega arith) refl (omega arith) (omega arith)

lru-LruChoice_example : LruChoice busy 1 3
lru-LruChoice_example = lru-LruChoice busy 1 3 (omega arith)

new_memory-IsAssigned : IsAssigned config (blocks_of (initialize_metadata config).first_frame)
new_memory-IsAssigned = (initialize_metadata-IsAssigned config refl).0

fijo-HasBlock_example :
    HasBlock config (initialize_metadata config) 7 (fijo config (initialize_metadata config) 7)
    ⊎ HasNone config (initialize_metadata config) 7
fijo-HasBlock_example = fijo-HasBlock config (initialize_metadata config) 7 new_memory-IsAssigned

-- One page of process 1, and a free entry.
abbrev small_tlb : Tlb Table
small_tlb = record {
  entries = record { pid = 1; page = 2; frame = 3; is_free = false } ∷ Tlb.blank ∷ [];
  policy = Policy.lru;
  victim_queue = 1 ∷ [];
  hits = empty_table;
  misses = empty_table;
}

small_tlb-IsExact : IsExact small_tlb.entries
small_tlb-IsExact = ((refl, tt), (tt, tt))

add_entry-IsExact_example : IsExact (add_entry plain_lists small_tlb 5 6 7).entries
add_entry-IsExact_example =
    add_entry-IsExact plain_lists small_tlb 5 6 7 small_tlb-IsExact (refl, (refl, tt))

has_room : ¬ IsFull small_tlb.entries
has_room h = cc (h.1.0)

added_hits_example :
    answer plain_lists tables digits (add_entry plain_lists small_tlb 5 6 7) 5 6 ≡ some 7
added_hits_example =
    added_hits plain_lists tables digits small_tlb 5 6 7 (refl, (refl, tt)) has_room

-- A swap server whose pages are all the same, and counts what is saved.
abbrev pub counting_server : SwapServer ℕ
counting_server = record {
  save_page = λ n pid page bytes. (true, n + 1);
  load_page = λ n pid page. (some (8 ∷ 9 ∷ []), n);
  erase_page = λ n pid page. (true, n);
}

abbrev pub small_config : MemoryConfig
small_config = record {
  page_size = 2;
  frame_qty = 4;
  frames_per_process = 2;
  size = 8;
  is_fija = false;
}

-- The page table of every process is the one at address 1, with two pages.
abbrev pub small_memory : Paged Table ℕ
small_memory = record {
  metadata = busy;
  ram = 0 ∷ 0 ∷ 0 ∷ 0 ∷ 0 ∷ 0 ∷ 0 ∷ 0 ∷ [];
  tlb = small_tlb;
  page_tables = λ key. some 1;
  tables = λ a. record { entries = Paging.absent_entry ∷ Paging.absent_entry ∷ [] };
  swap = 0;
}

replace-Loaded_example :
    (m' : Paged Table ℕ) × (Paging.replace plain_lists tables digits counting_server small_config
        small_memory 2 7 1
      ≡ some (some 2, m'))
    × Loaded plain_lists tables digits counting_server small_config small_memory 2 7 1 1
        (8 ∷ 9 ∷ [])
        m'
unfolding get_page_table
replace-Loaded_example =
    replace-Loaded plain_lists tables digits counting_server small_config small_memory 2 7 1 1
      (8 ∷ 9 ∷ []) refl refl (inr (1, refl)) (omega arith) (omega arith) (omega arith)

-- The same memory, where page 1 of every process stands in frame 2.
abbrev pub with_page : Memory Table ℕ
with_page = record {
  paged = record small_memory {
    tables =
        λ a. record { entries = Paging.absent_entry ∷ record { present = true; frame = 2 } ∷ [] };
  };
  pointer = 0;
}

get_frame-Served_example : Served plain_lists tables digits with_page 7 1 2 (
    get_frame plain_lists tables digits counting_server small_config Assignment.globally
      Replacement.by_lru with_page 7 1)
unfolding get_page_table get_frame_from_tlb lookup_loop
get_frame-Served_example =
    get_frame-Served plain_lists tables digits counting_server small_config Assignment.globally
      Replacement.by_lru with_page 7 1 1 refl refl (omega arith) (inl (refl, has_room))

suspend_process-Suspended_example :
    (m' : Memory Table ℕ) × (suspend_process plain_lists tables digits counting_server small_config
        Assignment.globally Replacement.by_lru with_page 7
      ≡ some m')
    × Suspended plain_lists tables digits with_page 7 1 m'
unfolding get_page_table
suspend_process-Suspended_example =
    suspend_process-Suspended plain_lists tables digits counting_server small_config
      Assignment.globally Replacement.by_lru 7 1 with_page refl (λ e. omega arith)

capi_term-Ended_example :
    (m' : Memory Table ℕ) × (capi_term plain_lists tables digits counting_server small_config
        Assignment.globally Replacement.by_lru with_page 7
      ≡ some (empty_packet Header.ok, m'))
    × Ended plain_lists tables digits with_page 7 1 m'
unfolding get_page_table
capi_term-Ended_example =
    capi_term-Ended plain_lists tables digits counting_server small_config Assignment.globally
      Replacement.by_lru 7 1 with_page refl

memread_at-bounds_example :
    (memread_at plain_lists tables digits counting_server small_config Assignment.globally
        Replacement.by_lru with_page 7 1 3
      ≡ some (empty_packet Header.error, with_page))
    × (memwrite_at plain_lists tables digits counting_server small_config Assignment.globally
          Replacement.by_lru with_page 7 1 3
          (8 ∷ 9 ∷ 5 ∷ [])
        ≡ some (empty_packet Header.error, with_page))
unfolding get_page_table
memread_at-bounds_example =
    memread_at-bounds plain_lists tables digits counting_server small_config Assignment.globally
      Replacement.by_lru with_page 7 1 1 3 (8 ∷ 9 ∷ 5 ∷ []) refl (omega arith) (omega arith)
      (omega arith) (omega arith)
