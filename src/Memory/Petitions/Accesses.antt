-- ===== src/Memory/Petitions/Accesses.antt =====
-- Reads and writes of a process whose pages are all in memory: `memreadHandler` and `memwriteHandler`
-- of memory/src/petitionHandlers.c, with `heap_read`, `heap_write` and `getFrame`.
use sisop_2c.Prelude.{
  ℕ, ◌+◌, ◌*◌, ◌^◌, ◌≤◌, ◌<◌, ◌≡◌, ap, ◌∙◌, ◌⊎◌, inl, inr, false, some, List, [], ◌++◌, leb, arith,
  length, slice, overwrite, bind-some, slice-overwrite_self, slice-overwrite_before,
  slice-overwrite_after,
}
use sisop_2c.Shared.Commons.{Lists, Dictionaries}
use sisop_2c.Shared.Stream.{bytes_u32}
use sisop_2c.Shared.Networking.{Header, Packet, empty_packet}
use sisop_2c.Memory.Frames.{MemoryConfig}
use sisop_2c.Memory.Paging.{SwapServer}
use sisop_2c.Memory.Access.{Assignment, Replacement, Memory}
use sisop_2c.Memory.Heap.Flat.{Same, heap_bytes}
use sisop_2c.Memory.Heap.Reading.{heap_read_lem}
use sisop_2c.Memory.Heap.Writing.{heap_write_lem}
use sisop_2c.Memory.Heap.RoundTrip.{length-flat}
use sisop_2c.Memory.Petitions.{memory_pager, memread_at, memwrite_at}
use sisop_2c.Memory.Petitions.Bounds.{memread_at-bounds}
use sisop_2c.Memory.Petitions.Resident.{IsResident, resident, memory_pager-IsPaging}

-- The answer to a read.
abbrev pub chunk : ℕ → List ℕ → Packet
chunk size bytes = record { header = Header.mem_chunk; payload = bytes_u32 size ++ bytes }

below : (n k : ℕ) → k < n → leb n k ≡ false
below n k h = ground arith

module _ {D S : Type 0} (lib : Lists) (dicts : Dictionaries D) (string_itoa : ℕ → List ℕ)
    (server : SwapServer S) (config : MemoryConfig) (assignment : Assignment)
    (replacement : Replacement) (pid a : ℕ) where
  -- The bytes of the pages of the process, one after the other.
  abbrev pub heap_of : Memory D S → List ℕ
  heap_of m =
      heap_bytes (resident lib dicts string_itoa server config assignment replacement pid a) m

  -- How many bytes these are.
  abbrev pub heap_size : Memory D S → ℕ
  heap_size m = length (m.paged.tables a).entries * config.page_size

  -- For a process whose pages are all in memory, in different frames that the TLB does not contradict,
  -- and whose heap has less than 2 ^ 31 bytes, memread of bytes that end before the last byte of the
  -- heap answers with these bytes of the heap, however many pages they lie in. It keeps the pages in
  -- memory, and their number and bytes. The size is not 0.
  pub memread_at_lem :
      (m : Memory D S) (address size : ℕ)
      → IsResident lib dicts string_itoa server config assignment replacement pid a m
      → 0 < config.page_size
      → 0 < size
      → address + size < heap_size m
      → heap_size m < 2 ^ 31
      → (m' : Memory D S) × (memread_at lib dicts string_itoa server config assignment replacement m
            pid address size
          ≡ some (chunk size (slice (heap_of m) address size), m'))
        × Same (resident lib dicts string_itoa server config assignment replacement pid a) m m'
  memread_at_lem m address size r p z h small =
      let (m', got, same) =
        heap_read_lem (memory_pager lib dicts string_itoa server config assignment replacement)
          config.page_size pid
          (resident lib dicts string_itoa server config assignment replacement pid a)
          (memory_pager-IsPaging lib dicts string_itoa server config assignment replacement pid a) m
          address size r p z (omega arith) in
      let (reads, writes) =
        memread_at-bounds lib dicts string_itoa server config assignment replacement m pid a address
          size [] r.has_table (omega arith) small (omega arith) (omega arith) in
      (m', reads ∙ rw (below (heap_size m) (address + size) h) (bind-some _ got), same)

  -- For a process whose pages are all in memory, in different frames that the TLB does not contradict,
  -- and whose heap has less than 2 ^ 31 bytes, memwrite of a content that is not empty and ends before
  -- the last byte of the heap answers OK, keeps the pages in memory and their number, and makes the
  -- heap what a copy of the content to the address makes of it.
  pub memwrite_at_lem :
      (m : Memory D S) (address : ℕ) (content : List ℕ)
      → IsResident lib dicts string_itoa server config assignment replacement pid a m
      → 0 < config.page_size
      → 0 < length content
      → address + length content < heap_size m
      → heap_size m < 2 ^ 31
      → (m' : Memory D S) × (memwrite_at lib dicts string_itoa server config assignment replacement
            m pid address
            (length content)
            content
          ≡ some (empty_packet Header.ok, m'))
        × IsResident lib dicts string_itoa server config assignment replacement pid a m'
        × (heap_size m' ≡ heap_size m)
        × (heap_of m' ≡ overwrite (heap_of m) address content)
  memwrite_at_lem m address content r p z h small =
      let (m', wrote, good, pages, written) =
        heap_write_lem (memory_pager lib dicts string_itoa server config assignment replacement)
          config.page_size pid
          (resident lib dicts string_itoa server config assignment replacement pid a)
          (memory_pager-IsPaging lib dicts string_itoa server config assignment replacement pid a) m
          address content r p z (omega arith) in
      let (reads, writes) =
        memread_at-bounds lib dicts string_itoa server config assignment replacement m pid a address
          (length content) content r.has_table (omega arith) small (omega arith) (omega arith) in
      (
        m',
        writes ∙ rw (below (heap_size m) (address + length content) h) (bind-some _ wrote),
        good,
        ap (λ n. n * config.page_size) pages,
        written,
      )

  length-heap_of :
      (m : Memory D S)
      → IsResident lib dicts string_itoa server config assignment replacement pid a m
      → length (heap_of m) ≡ heap_size m
  length-heap_of m r =
      length-flat config.page_size
        ((resident lib dicts string_itoa server config assignment replacement pid a).view m) 0
        (length (m.paged.tables a).entries)
        (λ j h.
          (memory_pager-IsPaging lib dicts string_itoa server config assignment replacement pid
              a).sized
            m j r (omega arith))

  -- For a process whose pages are all in memory, in different frames that the TLB does not contradict,
  -- and whose heap has less than 2 ^ 31 bytes, after a memwrite of a content a memread at its address
  -- answers with the content, and a memread of bytes that do not meet it, on either side, answers with
  -- the bytes that were there before. Neither is empty, and both end before the last byte of the heap.
  pub memread_at-memwrite_at :
      (m : Memory D S) (address : ℕ) (content : List ℕ) (at size : ℕ)
      → IsResident lib dicts string_itoa server config assignment replacement pid a m
      → 0 < config.page_size
      → 0 < length content
      → address + length content < heap_size m
      → heap_size m < 2 ^ 31
      → 0 < size
      → at + size < heap_size m
      → (at + size ≤ address) ⊎ (address + length content ≤ at)
      → (m' : Memory D S) × (m1 : Memory D S) × (m2 : Memory D S) × (memwrite_at lib dicts
            string_itoa server config assignment replacement m pid address
            (length content)
            content
          ≡ some (empty_packet Header.ok, m'))
        × (memread_at lib dicts string_itoa server config assignment replacement m' pid address
              (length content)
            ≡ some (chunk (length content) content, m1))
        × (memread_at lib dicts string_itoa server config assignment replacement m' pid at size
            ≡ some (chunk size (slice (heap_of m) at size), m2))
  memread_at-memwrite_at m address content at size r p z h small z' h' away =
      let (m', wrote, r', same_size, written) = memwrite_at_lem m address content r p z h small in
      let (m1, got, same) =
        memread_at_lem m' address (length content) r' p z (omega (arith, same_size))
          (omega (arith, same_size)) in
      let (m2, other, same2) =
        memread_at_lem m' at size r' p z' (omega (arith, same_size)) (omega (arith, same_size)) in
      (
        m',
        m1,
        m2,
        wrote,
        got
            ∙ ap (λ bs. some (chunk (length content) bs, m1))
                (ap (λ xs. slice xs address (length content)) written
                  ∙ slice-overwrite_self (heap_of m) address content
                      (omega (arith, length-heap_of m r))),
        other
            ∙ ap (λ bs. some (chunk size bs, m2))
                (ap (λ xs. slice xs at size) written ∙ untouched (heap_of m) away),
      )
    where
      untouched :
          (xs : List ℕ)
          → (at + size ≤ address) ⊎ (address + length content ≤ at)
          → slice (overwrite xs address content) at size ≡ slice xs at size
      untouched xs (inl k) = slice-overwrite_before xs address content at size k
      untouched xs (inr k) = slice-overwrite_after xs address content at size k
