-- ===== src/Memory/Heap/Pieces.antt =====
-- What the loop of `heap_read` copies, page by page, is a stretch of the pages in a row:
-- memory/src/petitionHandlers.c.
use native.Mathlib.Nat.{suc-mul}
use sisop_2c.Memory.Heap.{Pager, read_piece}
use sisop_2c.Prelude.{
  same_number, other_number, take-append_left, drop-append_left, take_whole, length-drop,
  take-append_right, drop-append_right, ℕ, zero, suc, ◌+◌, ◌-◌, ◌*◌, ◌≤◌, ◌<◌, ◌≡◌, ◌≢◌, refl, sym,
  ap, ap₂, ◌∙◌, List, [], ◌++◌, arith, length, take, drop, slice,
}
use mathlib.Core.List.{append-nil}

-- Pages `i` to `i + n - 1` in a row.
abbrev pub flat : (ℕ → List ℕ) → ℕ → ℕ → List ℕ
flat view i zero = []
flat view i (suc n) = view i ++ flat view (i + 1) n

-- The bytes that the pages behind the first one give, when `rounds` of them are left.
abbrev pub tail_size : ℕ → ℕ → ℕ → ℕ
tail_size page_size finish_offset zero = 0
tail_size page_size finish_offset (suc zero) = finish_offset + 1
tail_size page_size finish_offset (suc (suc rounds)) =
    page_size + tail_size page_size finish_offset (suc rounds)

pub tail_size_lem :
    (page_size finish_offset rounds : ℕ)
    → tail_size page_size finish_offset (suc rounds) ≡ rounds * page_size + (finish_offset + 1)
tail_size_lem page_size finish_offset zero = omega arith
tail_size_lem page_size finish_offset (suc rounds) =
    omega (arith, tail_size_lem page_size finish_offset rounds, suc-mul rounds page_size)

module _ {M : Type 0} (pager : Pager M)
    (page_size start_page start_offset finish_page finish_offset : ℕ) (view : ℕ → List ℕ) where
  -- The pieces of `rounds` pages from page `i` on.
  abbrev pub pieces : ℕ → ℕ → List ℕ
  pieces zero i = []
  pieces (suc rounds) i =
      read_piece pager page_size start_page start_offset finish_page finish_offset i (view i)
      ++ pieces rounds (i + 1)

  first_piece :
      (bs : List ℕ)
      → read_piece pager page_size start_page start_offset finish_page finish_offset start_page bs
        ≡ slice bs start_offset (page_size - start_offset)
  first_piece bs = rw (same_number start_page start_page refl) refl

  middle_piece :
      (i : ℕ) (bs : List ℕ)
      → i ≢ start_page
      → i ≢ finish_page
      → read_piece pager page_size start_page start_offset finish_page finish_offset i bs
        ≡ take page_size bs
  middle_piece i bs s f = rw (other_number i start_page s, other_number i finish_page f) refl

  last_piece :
      (i : ℕ) (bs : List ℕ)
      → i ≢ start_page
      → i ≡ finish_page
      → read_piece pager page_size start_page start_offset finish_page finish_offset i bs
        ≡ take (finish_offset + 1) bs
  last_piece i bs s f = rw (other_number i start_page s, same_number i finish_page f) refl

  -- Behind the first page, the pieces are the pages from their first byte on.
  pieces_behind :
      (rounds i n : ℕ)
      → i + rounds ≡ finish_page + 1
      → start_page < i
      → rounds ≤ n
      → finish_offset < page_size
      → ((j : ℕ) → j < i + n → length (view j) ≡ page_size)
      → pieces rounds i ≡ take (tail_size page_size finish_offset rounds) (flat view i n)
  pieces_behind zero i n e s h f sized = refl
  pieces_behind (suc rounds) i zero e s h f sized = absurd (omega arith)
  pieces_behind (suc zero) i (suc n) e s h f sized =
      append-nil _
      ∙ last_piece i (view i) (λ k. omega arith) (omega arith)
      ∙ sym (
          take-append_left (finish_offset + 1) (view i) (flat view (i + 1) n)
            (omega (arith, sized i (omega arith))))
  pieces_behind (suc (suc rounds)) i (suc n) e s h f sized =
      ap₂ (◌++◌)
        (middle_piece i (view i) (λ k. omega arith) (λ k. omega arith)
          ∙ take_whole page_size (view i) (omega (arith, sized i (omega arith))))
        (pieces_behind (suc rounds) (i + 1) n (omega arith) (omega arith) (omega arith) f
          (λ j g. sized j (omega arith)))
      ∙ sym (
          take-append_right (view i) (flat view (i + 1) n) _ _
            (omega (arith, sized i (omega arith))))

  -- All the pieces are a stretch of the pages that begins in the first one.
  pub pieces_lem :
      (rounds n : ℕ)
      → start_page + suc rounds ≡ finish_page
      → suc rounds ≤ n
      → start_offset < page_size
      → finish_offset < page_size
      → ((j : ℕ) → j < start_page + suc n → length (view j) ≡ page_size)
      → pieces (suc (suc rounds)) start_page
        ≡ slice
            (flat view start_page (suc n))
            start_offset
            ((page_size - start_offset) + tail_size page_size finish_offset (suc rounds))
  pieces_lem rounds n e h so f sized =
      ap₂ (◌++◌)
        (first_piece (view start_page)
          ∙ take_whole (page_size - start_offset) (drop start_offset (view start_page))
              (omega (arith, rest)))
        (pieces_behind (suc rounds) (start_page + 1) n (omega arith) (omega arith) h f
          (λ j g. sized j (omega arith)))
      ∙ sym (
          take-append_right (drop start_offset (view start_page)) (flat view (start_page + 1) n) _ _
            (omega (arith, rest)))
      ∙ ap (take ((page_size - start_offset) + tail_size page_size finish_offset (suc rounds))) (
          sym (
            drop-append_left start_offset (view start_page) (flat view (start_page + 1) n)
              (omega (arith, sized start_page (omega arith)))))
    where
      rest : length (drop start_offset (view start_page)) ≡ page_size - start_offset
      rest =
          omega (arith, length-drop start_offset (view start_page), sized start_page (omega arith))

-- The pages before a page are skipped whole.
pub drop-flat :
    (page_size : ℕ) (view : ℕ → List ℕ) (k i n at total off first : ℕ)
    → total ≡ k + n
    → off ≡ k * page_size + at
    → first ≡ i + k
    → ((j : ℕ) → j < i + total → length (view j) ≡ page_size)
    → drop off (flat view i total) ≡ drop at (flat view first n)
drop-flat page_size view zero i n at total off first e o g sized =
    ap₂ drop {x = off} {y = at} (omega arith)
      (ap₂ (flat view) {x = i} {y = first} {u = total} {v = n} (omega arith) (omega arith))
drop-flat page_size view (suc k) i n at zero off first e o g sized = absurd (omega arith)
drop-flat page_size view (suc k) i n at (suc total) off first e o g sized =
    drop-append_right (view i) (flat view (i + 1) total) off (k * page_size + at)
      (omega (arith, suc-mul k page_size, sized i (omega arith)))
    ∙ drop-flat page_size view k (i + 1) n at total (k * page_size + at) first (omega arith) refl
        (omega arith) (λ j h. sized j (omega arith))
