-- ===== src/Memory/Petitions/Bounds.antt =====
-- The bounds of memread and memwrite: `memreadHandler` and `memwriteHandler` of
-- memory/src/petitionHandlers.c.
use sisop_2c.Prelude.{
  ℕ, ◌+◌, ◌*◌, ◌%◌, ◌^◌, ◌<◌, ◌≡◌, refl, ◌∙◌, true, some, ◌>>=◌, List, if◌then◌else◌, ltb, leb,
  arith, length, bind-some,
}
use sisop_2c.Shared.Commons.{Lists, Dictionaries}
use sisop_2c.Shared.Networking.{Header, empty_packet}
use sisop_2c.Memory.Frames.{MemoryConfig}
use sisop_2c.Memory.Paging.{PageTable, SwapServer}
use sisop_2c.Memory.Access.{Assignment, Replacement, Memory}
use sisop_2c.Memory.Heap.{heap_read, heap_write}
use sisop_2c.Memory.Petitions.{
  sub_u32, out_of_bounds, is_natural, memory_pager, table_of, read_chunk, wrote, memread_at,
  memwrite_at,
}

-- The test of the source says whether the bytes, and one more, lie in the heap.
out_of_bounds_lem :
    (config : MemoryConfig) (pt : PageTable) (address size : ℕ)
    → 0 < length pt.entries * config.page_size
    → length pt.entries * config.page_size < 2 ^ 32
    → address + size < 2 ^ 32
    → out_of_bounds config pt address size
      ≡ leb (length pt.entries * config.page_size) (address + size)
out_of_bounds_lem config pt address size p h s =
    compared (length pt.entries * config.page_size) (address + size) p h s
  where
    compared :
        (n k : ℕ)
        → 0 < n
        → n < 2 ^ 32
        → k < 2 ^ 32
        → ltb (sub_u32 (n % 2 ^ 32) 1) (k % 2 ^ 32) ≡ leb n k
    compared n k p h s = ground arith

module _ {D S : Type 0} (lib : Lists) (dicts : Dictionaries D) (string_itoa : ℕ → List ℕ)
    (server : SwapServer S) (config : MemoryConfig) (assignment : Assignment)
    (replacement : Replacement) where
  -- For a process whose heap has at least one byte and less than 2 ^ 31, memread and memwrite at an
  -- address and with a size below 2 ^ 31 answer an error, and change nothing, exactly if the bytes do
  -- not end before the last byte of the heap; else they are the read and the write of the heap. So no
  -- access reaches past the heap, and one that ends with the last byte of the heap is refused too.
  pub memread_at-bounds :
      (m : Memory D S) (pid a address size : ℕ) (content : List ℕ)
      → table_of lib dicts string_itoa server config assignment replacement m pid ≡ some a
      → 0 < length (m.paged.tables a).entries * config.page_size
      → length (m.paged.tables a).entries * config.page_size < 2 ^ 31
      → address < 2 ^ 31
      → size < 2 ^ 31
      → (memread_at lib dicts string_itoa server config assignment replacement m pid address size
          ≡ (if leb (length (m.paged.tables a).entries * config.page_size) (address + size)
              then some (empty_packet Header.error, m)
              else heap_read
                  (memory_pager lib dicts string_itoa server config assignment replacement)
                  config.page_size
                  m
                  pid
                  address
                  size
                >>= read_chunk lib dicts string_itoa server config assignment replacement size))
        × (memwrite_at lib dicts string_itoa server config assignment replacement m pid address size
              content
            ≡ (if leb (length (m.paged.tables a).entries * config.page_size) (address + size)
                then some (empty_packet Header.error, m)
                else heap_write
                    (memory_pager lib dicts string_itoa server config assignment replacement)
                    config.page_size
                    m
                    pid
                    address
                    size
                    content
                  >>= wrote lib dicts string_itoa server config assignment replacement))
  unfolding memread_at memwrite_at
  memread_at-bounds m pid a address size content found p h i j =
      let test =
        out_of_bounds_lem config (m.paged.tables a) address size p (omega arith) (omega arith) in
      (
        bind-some _ found ∙ rw (test, natural address i, natural size j) refl,
        bind-some _ found ∙ rw (test, natural address i, natural size j) refl,
      )
    where
      natural : (n : ℕ) → n < 2 ^ 31 → is_natural n ≡ true
      natural n h = ground arith
