-- ===== src/Memory/Paging.antt =====
-- Page tables and the replacement of a page: memory/src/pageTable.c, memory/include/pageTable.h, and
-- `replace` and `isPresent` of memory/src/memory.c.
--
-- A `t_pageTable` is an address into a store; the dictionary finds it under the text of the PID,
-- which `string_itoa` gives. `pageQuantity` is the length of `entries`. The swap server is reached
-- through `SwapServer`. The result is `none` where the source reads through a NULL page table.
use sisop_2c.Prelude.{
  ℕ, ◌-◌, ◌*◌, ◌^◌, Bool, true, false, Option, none, some, ◌>>=◌, List, [], ◌∷◌, ◌++◌,
  if◌then◌else◌, ltb, length, get_or, modify, take, slice, update,
}
use sisop_2c.Shared.Commons.{Lists, Dictionaries}
use sisop_2c.Memory.Tlb.{Tlb, add_entry, drop_entry}
use sisop_2c.Memory.Frames.{MemoryConfig, Frame, Metadata, blank, is_free, write_frame}
pub mod Loaded

-- `t_pageTableEntry`
pub record PageTableEntry : Type 0 where
  pub present : Bool
  pub frame : ℕ

-- `t_pageTable`
pub record PageTable : Type 0 where
  pub entries : List PageTableEntry

abbrev pub absent_entry : PageTableEntry
absent_entry = record { present = false; frame = 0 }

abbrev pub initialize_page_table : PageTable
initialize_page_table = record { entries = [] }

unfoldable pub destroy_last_entry : PageTable → PageTable
destroy_last_entry pt = record { entries = take (length pt.entries - 1) pt.entries }

-- The result is the index of the new entry.
unfoldable pub page_table_add_entry : PageTable → ℕ → ℕ × PageTable
page_table_add_entry pt new_frame = (
  length pt.entries,
  record { entries = pt.entries ++ record { present = false; frame = new_frame } ∷ [] },
)

-- The calls of swapInterface.c, with the state of the server.
pub record SwapServer (S : Type 0) : Type 0 where
  pub save_page : S → ℕ → ℕ → List ℕ → Bool × S
  pub load_page : S → ℕ → ℕ → Option (List ℕ) × S
  pub erase_page : S → ℕ → ℕ → Bool × S

pub record Paged (D S : Type 0) : Type 0 where
  pub metadata : Metadata
  pub ram : List ℕ
  pub tlb : Tlb D
  pub page_tables : D
  pub tables : ℕ → PageTable
  pub swap : S

abbrev pub set_page : PageTable → ℕ → PageTableEntry → PageTable
set_page pt page e = record { entries = modify pt.entries page (λ _. e) }

abbrev pub set_table : {D S : Type 0} → Paged D S → ℕ → PageTable → Paged D S
set_table m a pt = record m { tables = update m.tables a pt }

-- -1 as a `uint32_t`.
abbrev pub no_frame : ℕ
no_frame = 2 ^ 32 - 1

module _ {D S : Type 0} (lib : Lists) (dicts : Dictionaries D) (string_itoa : ℕ → List ℕ)
    (server : SwapServer S) (config : MemoryConfig) where
  open dicts use {dictionary_get}
  open server use {save_page, load_page}

  unfoldable pub get_page_table : Paged D S → ℕ → Option ℕ
  get_page_table m pid = dictionary_get m.page_tables (string_itoa pid)

  unfoldable pub is_present : Paged D S → ℕ → ℕ → Option Bool
  unfolding get_page_table
  is_present m pid page = do
    a ← get_page_table m pid
    some (get_or (m.tables a).entries page absent_entry).present

  -- `pageTable_getFrame`; -1 beyond the last page.
  unfoldable pub page_table_get_frame : Paged D S → ℕ → ℕ → Option ℕ
  unfolding get_page_table
  page_table_get_frame m pid page = do
    a ← get_page_table m pid
    some (
        if ltb page (length (m.tables a).entries)
        then (get_or (m.tables a).entries page absent_entry).frame
        else no_frame)

  -- The frame is not free: its page leaves the TLB, goes to swap if it was modified, and is absent
  -- from the page table at `a`.
  abbrev pub evicted : Paged D S → ℕ → ℕ → Paged D S
  evicted m victim a =
      let e = get_or m.metadata.frames victim blank in
      let bytes = slice m.ram (victim * config.page_size) config.page_size in
      let swap' = if e.modified then (save_page m.swap e.pid e.page bytes).1 else m.swap in
      set_table (record m { tlb = drop_entry m.tlb e.pid e.page; swap = swap' }) a
        (set_page (m.tables a) e.page (record { present = false; frame = no_frame }))

  unfoldable pub evict : Paged D S → ℕ → Option (Paged D S)
  unfolding get_page_table
  evict m victim = do
    a ← get_page_table m (get_or m.metadata.frames victim blank).pid
    some (evicted m victim a)

  -- The frame holds `content`, the page from swap; `a` is the page table of the process.
  abbrev pub installed : Paged D S → ℕ → ℕ → ℕ → List ℕ → ℕ → Paged D S
  installed m victim pid page content a =
      let (metadata', ram') = write_frame config m.metadata m.ram victim content in
      record m {
        ram = ram';
        tables =
            update m.tables a
              (set_page (m.tables a) page (record { present = true; frame = victim }));
        tlb = add_entry lib m.tlb pid page victim;
        metadata = record metadata' {
          frames = modify metadata'.frames victim (λ e. record e {
            page = page;
            pid = pid;
            is_free = false;
            modified = false;
            u = true;
          });
        };
      }

  unfoldable pub install : Paged D S → ℕ → ℕ → ℕ → List ℕ → Option (Paged D S)
  unfolding get_page_table
  install m victim pid page content = do
    a ← get_page_table m pid
    some (installed m victim pid page content a)

  -- The result of the call is the victim, or -1 (`none`) if the page could not be loaded.
  unfoldable pub replace : Paged D S → ℕ → ℕ → ℕ → Option (Option ℕ × Paged D S)
  unfolding evict install
  replace m victim pid page =
      let (loaded, swap') = load_page m.swap pid page in
      let m1 : Paged D S = record m { swap = swap' } in
      elim loaded [
        | none ↦ some (none, m1)
        | some content ↦ (do
          m2 ← (if is_free m1.metadata victim then some m1 else evict m1 victim)
          m3 ← install m2 victim pid page content
          some (some victim, m3))
      ]
