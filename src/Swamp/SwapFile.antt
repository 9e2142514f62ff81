-- ===== src/Swamp/SwapFile.antt =====
-- One swap file and its page table: swamp/src/swapFile.c, swamp/include/swapFile.h.
--
-- `entries` is the array of page metadata and `bytes` the mapped file; the path and the file
-- descriptor play no part. Page numbers are the bit patterns of the source's `int32_t`: they are
-- only compared. An `int` that the source sets to -1 for "none" is an `Option`.
pub mod Index
pub mod Bytes
pub mod Room
use sisop_2c.Prelude.{
  ℕ, zero, suc, ◌+◌, ◌*◌, ◌/◌, Bool, true, false, not, ◌&&◌, Option, none, some, List,
  if◌then◌else◌, ◌==◌, ltb, get_or, set, replicate, find_index, count_if, slice, overwrite,
}

-- `t_pageMetadata`
pub record PageMetadata : Type 0 where
  pub pid : ℕ
  pub page_number : ℕ
  pub used : Bool

-- `t_swapFile`
pub record SwapFile : Type 0 where
  pub size : ℕ
  pub page_size : ℕ
  pub max_pages : ℕ
  pub entries : List PageMetadata
  pub bytes : List ℕ

-- An entry as `calloc` leaves it.
abbrev pub blank : PageMetadata
blank = record { pid = 0; page_number = 0; used = false }

unfoldable pub create : ℕ → ℕ → SwapFile
create size page_size = record {
  size = size;
  page_size = page_size;
  max_pages = size / page_size;
  entries = replicate (size / page_size) blank;
  bytes = replicate size 0;
}

unfoldable pub clear_at_index : SwapFile → ℕ → SwapFile
clear_at_index sf index = record sf {
  bytes = overwrite sf.bytes (index * sf.page_size) (replicate sf.page_size 0);
}

unfoldable pub read_at_index : SwapFile → ℕ → List ℕ
read_at_index sf index = slice sf.bytes (index * sf.page_size) sf.page_size

-- `page` is the `page_size` bytes behind `pagePtr`.
unfoldable pub write_at_index : SwapFile → ℕ → List ℕ → SwapFile
write_at_index sf index page = record sf { bytes = overwrite sf.bytes (index * sf.page_size) page }

abbrev pub is_unused : PageMetadata → Bool
is_unused e = not e.used

abbrev pub holds_pid : ℕ → PageMetadata → Bool
holds_pid pid e = e.used && e.pid == pid

-- The test of `swapFile_getIndex`, which does not look at `used`.
abbrev pub matches : ℕ → ℕ → PageMetadata → Bool
matches pid page_number e = e.pid == pid && e.page_number == page_number

abbrev pub is_found : Option ℕ → Bool
is_found none = false
is_found (some i) = true

unfoldable pub has_room : SwapFile → Bool
has_room sf = is_found (find_index is_unused sf.entries)

unfoldable pub is_full : SwapFile → Bool
unfolding has_room
is_full sf = not (has_room sf)

unfoldable pub has_pid : SwapFile → ℕ → Bool
has_pid sf pid = is_found (find_index (holds_pid pid) sf.entries)

unfoldable pub count_pid_pages : SwapFile → ℕ → ℕ
count_pid_pages sf pid = count_if (holds_pid pid) sf.entries

-- The body returns `used`, as the source does.
unfoldable pub is_free_index : SwapFile → ℕ → Bool
is_free_index sf index = (get_or sf.entries index blank).used

unfoldable pub count_free_indexes : SwapFile → ℕ
count_free_indexes sf = count_if is_unused sf.entries

unfoldable pub get_index : SwapFile → ℕ → ℕ → Option ℕ
get_index sf pid page_number = find_index (matches pid page_number) sf.entries

-- The loop of `swapFile_findFreeIndex` from index `i`, on `max_pages + 1 - i` rounds. It reads
-- `entries[i]` before it compares `i` with `max_pages`; `beyond` is what the memory behind the
-- array holds.
unfoldable pub find_free_from : (ℕ → PageMetadata) → SwapFile → ℕ → ℕ → Option ℕ
find_free_from beyond sf zero i = none
find_free_from beyond sf (suc rounds) i =
    let rest = find_free_from beyond sf rounds (i + 1) in
    if (get_or sf.entries i (beyond i)).used
    then (if ltb i sf.max_pages then rest else none)
    else some i

unfoldable pub find_free_index : (ℕ → PageMetadata) → SwapFile → Option ℕ
unfolding find_free_from
find_free_index beyond sf = find_free_from beyond sf (suc sf.max_pages) 0

-- Out of range the source writes behind the array; no caller passes such an index.
unfoldable pub register : SwapFile → ℕ → ℕ → ℕ → SwapFile
register sf pid page_number index = record sf {
  entries = set sf.entries index (record { pid = pid; page_number = page_number; used = true });
}

-- `file->entries[index].used = false`, in `destroyPage` of swamp/src/petitionHandlers.c.
unfoldable pub free_entry : SwapFile → ℕ → SwapFile
free_entry sf index = record sf {
  entries = set sf.entries index (record (get_or sf.entries index blank) { used = false });
}
