-- ===== src/Swamp/SwapFile/Room.antt =====
-- Free entries of a swap file: `swapFile_findFreeIndex` finds the first, and stays inside the
-- array, whenever there is room.
use sisop_2c.Prelude.{
  ℕ, zero, suc, ◌+◌, ◌<◌, ◌≤◌, ◌≡◌, ap, ◌≢◌, inl, inr, Bool, true, false, not, none, some, arith,
  length, get_or, get_or_default, find_index, IsFirst, find_index-cases, ℕ_discrete, lt→ltb,
}
use sisop_2c.Swamp.SwapFile.{
  SwapFile, PageMetadata, blank, is_unused, is_found, has_room, find_free_from, find_free_index,
}
use sisop_2c.Swamp.SwapFile.Index.{IsValid, entry}

not-true : {b : Bool} → not b ≡ true → b ≡ false
not-true {b} h = ground arith

not-false : {b : Bool} → not b ≡ false → b ≡ true
not-false {b} h = ground arith

find_free_from_lem :
    (beyond : ℕ → PageMetadata) (sf : SwapFile) (k : ℕ)
    → IsValid sf
    → IsFirst is_unused sf.entries blank k
    → (rounds i : ℕ) → i ≤ k
    → k < i + rounds
    → find_free_from beyond sf rounds i ≡ some k
unfolding find_free_from
find_free_from_lem beyond sf k v f zero i h g = absurd (omega arith)
find_free_from_lem beyond sf k v f (suc rounds) i h g = elim (ℕ_discrete i k) [
  | yes e ↦
      rw
        (used_at i (rw e f.inside), not-true {b = (get_or sf.entries i blank).used} (rw e f.passes))
        (ap some e)
  | no e ↦
      rw
        (
          used_at i (omega (arith, f.inside)),
          not-false {b = (get_or sf.entries i blank).used} (f.earlier i (omega arith)),
          lt→ltb i sf.max_pages (omega (arith, f.inside, v.sized)),
        )
        (find_free_from_lem beyond sf k v f rounds (i + 1) (omega arith) (omega arith))
]
  where
    used_at :
        (i : ℕ) → i < length sf.entries → get_or sf.entries i (beyond i) ≡ get_or sf.entries i blank
    used_at i h = get_or_default sf.entries i (beyond i) blank h

-- A search that finds nothing in a table with room is impossible.
has_room-none : (sf : SwapFile) → has_room sf ≡ true → find_index is_unused sf.entries ≢ none
unfolding has_room
has_room-none sf h e = cc (h, ap is_found e)

-- With room in a valid file the search gives the first unused index, whatever lies behind the
-- array.
pub find_free_index_lem :
    (beyond : ℕ → PageMetadata) (sf : SwapFile)
    → IsValid sf
    → has_room sf ≡ true
    → (i : ℕ) × (find_free_index beyond sf ≡ some i)
      × (i < sf.max_pages)
      × ((entry sf i).used ≡ false)
      × ((j : ℕ) → j < i → (entry sf j).used ≡ true)
unfolding find_free_index
find_free_index_lem beyond sf v h = elim (find_index-cases is_unused sf.entries blank) [
  | inl (n, g) ↦ absurd (has_room-none sf h n)
  | inr (i, n, f) ↦ (
    i,
    find_free_from_lem beyond sf i v f (suc sf.max_pages) 0 (omega arith)
        (omega (arith, v.sized, f.inside)),
    omega (arith, v.sized, f.inside),
    not-true f.passes,
    λ j g. not-false (f.earlier j g),
  )
]
