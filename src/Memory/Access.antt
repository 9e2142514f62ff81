-- ===== src/Memory/Access.antt =====
-- Finding the frame of a page: `getFrame` and `swapPage` of memory/src/memory.c.
--
-- The result is `none` where the source reads outside an array or does not return: where a page
-- table is missing, and where no victim is found, so that the frame is -1 and indexes the metadata,
-- or the clock does not end.
use sisop_2c.Prelude.{ℕ, Bool, true, false, Option, none, some, ◌>>=◌, List, modify, get_or}
use sisop_2c.Shared.Commons.{Lists, Dictionaries}
use sisop_2c.Memory.Tlb.{get_frame_from_tlb, add_entry}
use sisop_2c.Memory.Frames.{MemoryConfig, Metadata, update_timestamp, fijo, global, lru}
use sisop_2c.Memory.Clock.{clock_m}
use sisop_2c.Memory.Paging.{Paged, SwapServer, absent_entry, get_page_table, is_present, replace}
pub mod Present

-- `asignacion` and `algoritmo`
pub data Assignment : Type 0 where
  fixed globally : Assignment

pub data Replacement : Type 0 where
  by_clock by_lru : Replacement

-- The memory, and the variable `clock_m_Counter`.
pub record Memory (D S : Type 0) : Type 0 where
  pub paged : Paged D S
  pub pointer : ℕ

abbrev pub assign : MemoryConfig → Assignment → Metadata → ℕ → Option (ℕ × ℕ) × Metadata
assign config Assignment.fixed m pid = fijo config m pid
assign config Assignment.globally m pid = global config m pid

-- The victim; the clock on two rounds, which are enough on a range that is not empty.
abbrev pub choose : MemoryConfig → Replacement → Metadata → ℕ → ℕ × ℕ → Option (ℕ × Metadata × ℕ)
choose config Replacement.by_clock m pointer range = clock_m config 2 m pointer range.0 range.1
choose config Replacement.by_lru m pointer range = do
  victim ← lru m range.0 range.1
  some (victim, m, pointer)

abbrev pub mark_used : Metadata → ℕ → Metadata
mark_used m frame = record m { frames = modify m.frames frame (λ e. record e { u = true }) }

module _ {D S : Type 0} (lib : Lists) (dicts : Dictionaries D) (string_itoa : ℕ → List ℕ)
    (server : SwapServer S) (config : MemoryConfig) (assignment : Assignment)
    (replacement : Replacement) where
  unfoldable pub swap_page : Memory D S → ℕ → ℕ → Option (Option ℕ × Memory D S)
  swap_page m pid page = do
    let (range, assigned) = assign config assignment m.paged.metadata pid
    r ← range
    (victim, chosen, pointer') ← choose config replacement assigned m.pointer r
    let m1 : Paged D S = record m.paged { metadata = chosen }
    (frame, m2) ← replace lib dicts string_itoa server config m1 victim pid page
    some (frame, record { paged = m2; pointer = pointer' })

  -- The page is in a frame: the clock's bit and the time stamp.
  abbrev pub touched : Paged D S → ℕ → Paged D S
  touched m frame = record m { metadata = update_timestamp (mark_used m.metadata frame) frame }

  -- The page is not in the TLB; `a` is the page table of the process.
  unfoldable pub get_frame_of : Memory D S → ℕ → ℕ → ℕ → Option (ℕ × Memory D S)
  unfolding swap_page
  get_frame_of m pid page a = elim (get_or (m.paged.tables a).entries page absent_entry).present [
    | true ↦
        (let frame = (get_or (m.paged.tables a).entries page absent_entry).frame in
          let m1 : Paged D S = touched m.paged frame in
          some
            (frame, record m { paged = record m1 { tlb = add_entry lib m1.tlb pid page frame } }))
    | false ↦ (do
      (loaded, m1) ← swap_page m pid page
      frame ← loaded
      some (frame, record m1 { paged = touched m1.paged frame }))
  ]

  unfoldable pub get_frame_missed : Memory D S → ℕ → ℕ → Option (ℕ × Memory D S)
  unfolding get_frame_of
  get_frame_missed m pid page = do
    a ← get_page_table lib dicts string_itoa server config m.paged pid
    get_frame_of m pid page a

  unfoldable pub get_frame : Memory D S → ℕ → ℕ → Option (ℕ × Memory D S)
  unfolding get_frame_missed
  get_frame m pid page =
      let (hit, tlb') = get_frame_from_tlb lib dicts string_itoa m.paged.tlb pid page in
      let m1 : Memory D S = record m { paged = record m.paged { tlb = tlb' } } in
      elim hit [
        | some frame ↦ some (frame, record m1 { paged = touched m1.paged frame })
        | none ↦ get_frame_missed m1 pid page
      ]
