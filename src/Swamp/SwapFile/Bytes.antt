-- ===== src/Swamp/SwapFile/Bytes.antt =====
-- The contents of a swap file: pages are read back as they were written, and do not overlap.
use sisop_2c.Prelude.{
  ℕ, ◌+◌, ◌*◌, ◌<◌, ◌≤◌, ◌≡◌, ◌≢◌, sym, ap, ◌∙◌, inl, inr, List, arith, length, slice, overwrite,
  slice-overwrite_self, slice-overwrite_before, slice-overwrite_after, lt-or-eq-or-gt,
}
use sisop_2c.Swamp.SwapFile.{SwapFile, read_at_index, write_at_index}
use sisop_2c.Swamp.SwapFile.Index.{IsValid}

-- A page of a file lies inside it.
page_inside : (i n p total : ℕ) → i < n → n * p ≤ total → i * p + p ≤ total
page_inside i n p total h fits = grind arith

-- An earlier page ends before a later one begins.
page_before : (i j p : ℕ) → i < j → i * p + p ≤ j * p
page_before i j p h = grind arith

-- What was written to a page is read from it.
pub read_at_index-write_at_index :
    (sf : SwapFile) (i : ℕ) (page : List ℕ)
    → IsValid sf
    → i < sf.max_pages
    → length page ≡ sf.page_size
    → read_at_index (write_at_index sf i page) i ≡ page
unfolding read_at_index write_at_index
read_at_index-write_at_index sf i page v h e =
    ap (take' i) (sym e)
    ∙ slice-overwrite_self sf.bytes (i * sf.page_size) page
        (omega (arith, page_inside i sf.max_pages sf.page_size (length sf.bytes) h v.fits))
  where
    take' : ℕ → ℕ → List ℕ
    take' i n = slice (overwrite sf.bytes (i * sf.page_size) page) (i * sf.page_size) n

-- The other pages are read as before.
pub read_at_index-write_at_index_ne :
    (sf : SwapFile) (i j : ℕ) (page : List ℕ)
    → length page ≡ sf.page_size
    → i ≢ j
    → read_at_index (write_at_index sf i page) j ≡ read_at_index sf j
unfolding read_at_index write_at_index
read_at_index-write_at_index_ne sf i j page e ne = elim (lt-or-eq-or-gt i j) [
  | inl h ↦
      slice-overwrite_after sf.bytes (i * sf.page_size) page (j * sf.page_size) sf.page_size
        (omega (arith, page_before i j sf.page_size h))
  | inr (inl h) ↦ absurd (ne h)
  | inr (inr h) ↦
      slice-overwrite_before sf.bytes (i * sf.page_size) page (j * sf.page_size) sf.page_size
        (page_before j i sf.page_size h)
]
