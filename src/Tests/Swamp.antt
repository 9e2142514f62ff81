-- ===== src/Tests/Swamp.antt =====
-- The theorems on swap files at concrete files.
use sisop_2c.Prelude.{
  arith, ap, inl, inr, ℕ, ◌<◌, ◌≡◌, refl, true, false, some, [], ◌∷◌, find_index,
}
use sisop_2c.Swamp.SwapFile.{
  write_at_index, SwapFile, blank, create, register, get_index, is_full, has_room, has_pid,
  find_free_index,
}
use sisop_2c.Swamp.SwapFile.Index.{Assigned, fresh, entry, create-IsValid}
use sisop_2c.Swamp.SwapFile.Room.{find_free_index_lem}
use sisop_2c.Shared.Commons.{plain_lists, IsIn}
use sisop_2c.Swamp.Swap.{SwapConfig, Swap, global, pid_exists, free_index}
use sisop_2c.Swamp.Swap.Others.{StaysAt, global-StaysAt}
use sisop_2c.Swamp.Swap.RoundTrip.{IsSwap, ReadBack, read_page_of-global}

-- Three pages of two bytes.
abbrev three_pages : SwapFile
unfolding create
three_pages = create 6 2

-- Page 0 of process 7 stands at index 1.
abbrev one_page : SwapFile
unfolding register three_pages
one_page = register three_pages 7 0 1

fresh_page : Assigned three_pages 7 0 1
unfolding get_index find_index three_pages
fresh_page = fresh refl

other_page : Assigned one_page 7 1 0
unfolding get_index find_index one_page
other_page = fresh refl

find_free_index_lem_example :
    (i : ℕ) × (find_free_index (λ j. blank) (create 6 2) ≡ some i)
    × (i < 3)
    × ((entry (create 6 2) i).used ≡ false)
    × ((j : ℕ) → j < i → (entry (create 6 2) j).used ≡ true)
unfolding create has_room find_index
find_free_index_lem_example =
    find_free_index_lem (λ j. blank) (create 6 2) (create-IsValid 6 2) refl

-- One swap file of three pages.
abbrev one_file : Swap
one_file = record { swap_files = 0 ∷ []; store = λ a. create 6 2 }

abbrev swap_config : SwapConfig
swap_config = record { page_size = 2; max_frames = 3 }

one_file-IsSwap : IsSwap one_file 2
unfolding create
one_file-IsSwap = record { valid = λ a h. create-IsValid 6 2; sized = λ a h. refl }

read_page_of-global_example :
    ReadBack plain_lists one_file 7 0
      (8 ∷ 9 ∷ [])
      (global (λ i. blank) plain_lists swap_config one_file 7 0 (8 ∷ 9 ∷ []))
unfolding global pid_exists free_index is_full has_room has_pid get_index find_index create
    plain_lists find_free_index
read_page_of-global_example =
    read_page_of-global (λ i. blank) plain_lists swap_config one_file 7 0 (8 ∷ 9 ∷ [])
      one_file-IsSwap refl

-- Page 0 of process 7 is saved, and then page 1.
abbrev with_page : Swap
with_page = (global (λ i. blank) plain_lists swap_config one_file 7 0 (8 ∷ 9 ∷ [])).1

with_page-IsSwap : IsSwap with_page 2
unfolding global pid_exists free_index is_full has_room has_pid get_index find_index create
    plain_lists find_free_index register write_at_index
with_page-IsSwap = record {
  valid =
      (read_page_of-global (λ i. blank) plain_lists swap_config one_file 7 0 (8 ∷ 9 ∷ [])
        one_file-IsSwap refl).still_valid;
  sized = pages;
}
  where
    pages : (a : ℕ) → IsIn a (0 ∷ []) → (with_page.store a).page_size ≡ 2
    pages a (inl e) = ap (λ n. (with_page.store n).page_size) e
    pages a (inr h) = absurd h

global-StaysAt_example :
    StaysAt
      (λ i. blank)
      plain_lists
      swap_config
      with_page
      (global (λ i. blank) plain_lists swap_config with_page 7 1 (3 ∷ 4 ∷ [])).1
      7
      0
      0
      0
unfolding global pid_exists free_index is_full has_room has_pid get_index find_index create
    plain_lists find_free_index register write_at_index
global-StaysAt_example =
    global-StaysAt (λ i. blank) plain_lists swap_config with_page 7 1 7 0 0 0 (3 ∷ 4 ∷ [])
      with_page-IsSwap (λ e. omega (arith, e.1)) refl refl refl
