-- ===== src/Tests/Heaps.antt =====
-- The heap of a process at concrete inputs: two pages of two bytes, in frames 2 and 0.
use sisop_2c.Prelude.{
  ℕ, zero, suc, ◌≡◌, ◌≢◌, ◌<◌, ◌≤◌, ◌*◌, ◌+◌, get_or, refl, inl, false, true, some, [], ◌∷◌, arith,
}
use sisop_2c.Shared.Commons.{plain_lists}
use sisop_2c.Shared.Networking.{Header, empty_packet}
use sisop_2c.Memory.Paging.{get_page_table, absent_entry}
use sisop_2c.Memory.Access.{Assignment, Replacement, Memory}
use sisop_2c.Memory.Heap.Flat.{Same}
use sisop_2c.Memory.Petitions.{memread_at, memwrite_at}
use sisop_2c.Memory.Petitions.Resident.{IsResident, resident, frame_of}
use sisop_2c.Memory.Petitions.Accesses.{
  chunk, heap_of, heap_size, memread_at_lem, memwrite_at_lem, memread_at-memwrite_at,
}
use sisop_2c.Tests.{Table, tables, digits}
use sisop_2c.Tests.Memory.{counting_server, small_config, small_memory}

abbrev two_pages : Memory Table ℕ
two_pages = record {
  paged = record small_memory {
    ram = 3 ∷ 4 ∷ 9 ∷ 9 ∷ 1 ∷ 2 ∷ 9 ∷ 9 ∷ [];
    tables = λ a. record {
      entries = record { present = true; frame = 2 } ∷ record { present = true; frame = 0 } ∷ [];
    };
  };
  pointer = 0;
}

two_pages-IsResident :
    IsResident plain_lists tables digits counting_server small_config Assignment.globally
      Replacement.by_lru 7 1 two_pages
unfolding get_page_table
two_pages-IsResident = record {
  has_table = refl;
  present = shown;
  inside = fits;
  different = apart;
  agreed = ((λ i h e. absurd (never e)), ((λ i h e. absurd (never e)), tt));
}
  where
    never : false ≡ true → ⊥
    never e = cc

    shown :
        (i : ℕ) → i < 2 → (get_or (two_pages.paged.tables 1).entries i absent_entry).present ≡ true
    shown zero h = refl
    shown (suc zero) h = refl
    shown (suc (suc i)) h = absurd (omega arith)

    fits : (i : ℕ) → i < 2 → frame_of (two_pages.paged.tables 1) i * 2 + 2 ≤ 8
    fits zero h = omega arith
    fits (suc zero) h = omega arith
    fits (suc (suc i)) h = absurd (omega arith)

    apart :
        (i j : ℕ)
        → i < 2
        → j < 2
        → i ≢ j
        → frame_of (two_pages.paged.tables 1) i ≢ frame_of (two_pages.paged.tables 1) j
    apart zero zero h k ne = absurd (ne refl)
    apart zero (suc zero) h k ne = omega arith
    apart (suc zero) zero h k ne = omega arith
    apart (suc zero) (suc zero) h k ne = absurd (ne refl)
    apart zero (suc (suc j)) h k ne = absurd (omega arith)
    apart (suc zero) (suc (suc j)) h k ne = absurd (omega arith)
    apart (suc (suc i)) j h k ne = absurd (omega arith)

memread_at_lem_example :
    (m' : Memory Table ℕ) × (memread_at plain_lists tables digits counting_server small_config
        Assignment.globally Replacement.by_lru two_pages 7 0 3
      ≡ some (chunk 3 (1 ∷ 2 ∷ 3 ∷ []), m'))
    × Same
        (resident plain_lists tables digits counting_server small_config Assignment.globally
          Replacement.by_lru 7 1)
        two_pages
        m'
memread_at_lem_example =
    memread_at_lem plain_lists tables digits counting_server small_config Assignment.globally
      Replacement.by_lru 7 1 two_pages 0 3 two_pages-IsResident (omega arith) (omega arith)
      (omega arith) (omega arith)

memwrite_at_lem_example :
    (m' : Memory Table ℕ) × (memwrite_at plain_lists tables digits counting_server small_config
        Assignment.globally Replacement.by_lru two_pages 7 1 2
        (8 ∷ 7 ∷ [])
      ≡ some (empty_packet Header.ok, m'))
    × IsResident plain_lists tables digits counting_server small_config Assignment.globally
        Replacement.by_lru 7 1 m'
    × (heap_size plain_lists tables digits counting_server small_config Assignment.globally
          Replacement.by_lru 7 1 m'
        ≡ 4)
    × (heap_of plain_lists tables digits counting_server small_config Assignment.globally
          Replacement.by_lru 7 1 m'
        ≡ 1 ∷ 8 ∷ 7 ∷ 4 ∷ [])
memwrite_at_lem_example =
    memwrite_at_lem plain_lists tables digits counting_server small_config Assignment.globally
      Replacement.by_lru 7 1 two_pages 1 (8 ∷ 7 ∷ []) two_pages-IsResident (omega arith)
      (omega arith) (omega arith) (omega arith)

memread_at-memwrite_at_example :
    (m' : Memory Table ℕ) × (m1 : Memory Table ℕ) × (m2 : Memory Table ℕ) × (memwrite_at plain_lists
        tables digits counting_server small_config Assignment.globally Replacement.by_lru two_pages
        7 1 2
        (8 ∷ 7 ∷ [])
      ≡ some (empty_packet Header.ok, m'))
    × (memread_at plain_lists tables digits counting_server small_config Assignment.globally
          Replacement.by_lru m' 7 1 2
        ≡ some (chunk 2 (8 ∷ 7 ∷ []), m1))
    × (memread_at plain_lists tables digits counting_server small_config Assignment.globally
          Replacement.by_lru m' 7 0 1
        ≡ some (chunk 1 (1 ∷ []), m2))
memread_at-memwrite_at_example =
    memread_at-memwrite_at plain_lists tables digits counting_server small_config
      Assignment.globally Replacement.by_lru 7 1 two_pages 1 (8 ∷ 7 ∷ []) 0 1 two_pages-IsResident
      (omega arith) (omega arith) (omega arith) (omega arith) (omega arith) (omega arith)
      (inl (omega arith))
