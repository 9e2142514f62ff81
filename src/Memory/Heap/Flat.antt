-- ===== src/Memory/Heap/Flat.antt =====
-- The heap of a process as one array of bytes, and what its pager promises: the pages of
-- memory/src/petitionHandlers.c.
use native.Mathlib.Nat.{add-mul, mod-lt, div-add-mod', suc-mul, mul-le-mul_right}
use sisop_2c.Prelude.{
  lt-or-eq-or-gt, ℕ, suc, ◌+◌, ◌-◌, ◌*◌, ◌/◌, ◌%◌, ◌≤◌, ◌<◌, ◌≡◌, ◌≢◌, sym, ap, ◌∙◌, inl, inr, some,
  List, arith, length, overwrite,
}
use sisop_2c.Memory.Heap.{Pager}
use sisop_2c.Memory.Heap.Pieces.{flat}

-- The pages of the process `pid` as the pager promises them: how many there are and what they hold,
-- in the states that are `good`.
pub record Contents (M : Type 0) : Type 1 where
  pub IsGood : M → Type 0
  pub pages : M → ℕ
  pub view : M → ℕ → List ℕ

-- Nothing that a process sees has changed.
pub record Same {M : Type 0} (c : Contents M) (m m' : M) : Type 0 where
  pub good : c.IsGood m'
  pub same_pages : c.pages m' ≡ c.pages m
  pub same_view : (i : ℕ) → c.view m' i ≡ c.view m i

-- What a pager promises of the process `pid`: each page is given a frame that holds its bytes, and
-- finding it changes nothing; a write to the frame is a write to the page, and to no other.
pub record IsPaging {M : Type 0} (pager : Pager M) (page_size pid : ℕ) (c : Contents M)
    : Type 0 where
  pub sized : (m : M) (i : ℕ) → c.IsGood m → i < c.pages m → length (c.view m i) ≡ page_size
  pub serves :
      (m : M) (i : ℕ)
      → c.IsGood m
      → i < c.pages m
      → (frame : ℕ) × (m' : M) × (pager.get_frame m pid i ≡ some (frame, m'))
        × Same c m m'
        × (pager.frame_bytes m' frame ≡ c.view m i)
  pub edits :
      (m m' : M) (i frame offset : ℕ) (bytes : List ℕ)
      → c.IsGood m
      → i < c.pages m
      → pager.get_frame m pid i ≡ some (frame, m')
      → offset + length bytes ≤ page_size
      → c.IsGood (pager.edit_frame m' offset frame bytes)
        × (c.pages (pager.edit_frame m' offset frame bytes) ≡ c.pages m)
        × (c.view (pager.edit_frame m' offset frame bytes) i ≡ overwrite (c.view m i) offset bytes)
        × ((j : ℕ) → j ≢ i → c.view (pager.edit_frame m' offset frame bytes) j ≡ c.view m j)

-- The heap as one array.
abbrev pub heap_bytes : {M : Type 0} → Contents M → M → List ℕ
heap_bytes c m = flat (c.view m) 0 (c.pages m)

pub Same-trans :
    {M : Type 0} {c : Contents M} {m m' m'' : M} → Same c m m' → Same c m' m'' → Same c m m''
Same-trans a b = record {
  good = b.good;
  same_pages = b.same_pages ∙ a.same_pages;
  same_view = λ i. b.same_view i ∙ a.same_view i;
}

-- A page number is found by comparing addresses.
pub page-le :
    (page_size a x b y : ℕ) → a * page_size + x ≤ b * page_size + y → y < page_size → a ≤ b
page-le page_size a x b y h k = elim (lt-or-eq-or-gt b a) [
  | inl less ↦
      absurd
        (omega (arith, suc-mul b page_size, mul-le-mul_right {m = suc b} {n = a} page_size less))
  | inr (inl e) ↦ omega arith
  | inr (inr more) ↦ omega arith
]

-- The addresses of two pages with `between` pages between them.
pub gap :
    (page_size a b between : ℕ)
    → a + suc between ≡ b
    → b * page_size ≡ a * page_size + (between * page_size + page_size)
gap page_size a b between e =
    ap (λ k. k * page_size) (sym e)
    ∙ add-mul a (suc between) page_size
    ∙ ap (λ k. a * page_size + k) (suc-mul between page_size)

-- Where the bytes from `address` to `address + size - 1` begin and end.
pub record Stretch (page_size pages address size : ℕ) : Type 0 where
  pub start_eq : address / page_size * page_size + address % page_size ≡ address
  pub start_inside : address % page_size < page_size
  pub finish_eq :
      (address + size - 1) / page_size * page_size + (address + size - 1) % page_size
      ≡ address + size - 1
  pub finish_inside : (address + size - 1) % page_size < page_size
  pub in_order : address / page_size ≤ (address + size - 1) / page_size
  pub in_heap : (address + size - 1) / page_size < pages

pub stretch_lem :
    (page_size pages address size : ℕ)
    → 0 < page_size
    → 0 < size
    → address + size ≤ pages * page_size
    → Stretch page_size pages address size
stretch_lem page_size pages address size p z h =
    let start_eq = div-add-mod' address page_size in
    let start_inside = mod-lt address p in
    let finish_eq = div-add-mod' (address + size - 1) page_size in
    let finish_inside = mod-lt (address + size - 1) p in
    record {
      start_eq = start_eq;
      start_inside = start_inside;
      finish_eq = finish_eq;
      finish_inside = finish_inside;
      in_order =
          page-le page_size _ (address % page_size) _ ((address + size - 1) % page_size)
            (omega (arith, start_eq, finish_eq)) finish_inside;
      in_heap = elim (lt-or-eq-or-gt ((address + size - 1) / page_size) pages) [
        | inl less ↦ less
        | inr (inl e) ↦ absurd (beyond finish_eq (omega arith))
        | inr (inr more) ↦ absurd (beyond finish_eq (omega arith))
      ];
    }
  where
    beyond :
        (address + size - 1) / page_size * page_size + (address + size - 1) % page_size
          ≡ address + size - 1
        → pages ≤ (address + size - 1) / page_size
        → ⊥
    beyond e k =
        omega (
          arith,
          e,
          mul-le-mul_right {m = pages} {n = (address + size - 1) / page_size} page_size k,
        )
