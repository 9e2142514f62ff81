-- ===== src/Memory/Petitions/FirstFit.antt =====
-- The searches through the blocks of a heap: the loop of `memallocHandler`, `getFreeAlloc` and
-- `getLastAllocAddr` of memory/src/petitionHandlers.c.
use sisop_2c.Prelude.{
  ◌++◌, All, Bool-cases, inl, inr, ℕ, zero, suc, ◌+◌, ◌^◌, ◌≤◌, ◌<◌, ap, ◌≡◌, refl, ◌∙◌, Bool, true,
  false, Option, none, some, List, [], ◌∷◌, if◌then◌else◌, ◌==◌, ◌&&◌, leb, arith, length,
  bind-some,
}
use sisop_2c.Shared.Commons.{Lists, Dictionaries}
use sisop_2c.Memory.Frames.{MemoryConfig}
use sisop_2c.Memory.Paging.{SwapServer}
use sisop_2c.Memory.Access.{Assignment, Replacement, Memory}
use sisop_2c.Memory.Heap.{HeapMetadata}
use sisop_2c.Memory.Petitions.{sub_u32}
use sisop_2c.Memory.Petitions.Allocator.{
  distance, load_block, find_alloc, get_last_alloc_addr, get_free_alloc,
}

-- A free block whose metadata and `size` bytes end before the next block starts, or there.
abbrev pub fits : ℕ → ℕ → HeapMetadata → Bool
fits size address block = block.is_free && leb (address + 9 + size) block.next_alloc

-- The test of the source says so, where the metadata ends before the next block.
fits_lem :
    (size address : ℕ) (block : HeapMetadata)
    → address + 9 ≤ block.next_alloc
    → block.next_alloc < 2 ^ 32
    → (block.is_free && leb size (distance block address)) ≡ fits size address block
fits_lem size address block h g =
    ap (λ b. block.is_free && b) (compared size address block.next_alloc h g)
  where
    compared :
        (size address next : ℕ)
        → address + 9 ≤ next
        → next < 2 ^ 32
        → leb size (sub_u32 (sub_u32 next address) 9) ≡ leb (address + 9 + size) next
    compared size address next h g = ground arith

-- A block as it is read, with the state after the read.
abbrev pub Visit : Type 0 → Type 0
Visit M = HeapMetadata × M

-- The first block that fits, among the blocks before the last one, or else the last one.
unfoldable first_fit : {M : Type 0} → ℕ → ℕ → Visit M → List (Visit M) → ℕ × Bool × M
first_fit size address v [] = (address, true, v.1)
first_fit size address v (w ∷ vs) =
    if fits size address v.0 then (address, false, v.1) else first_fit size v.0.next_alloc w vs

-- The blocks of a chain with their addresses.
abbrev pub Place : Type 0 → Type 0
Place M = ℕ × Visit M

abbrev pub places : {M : Type 0} → ℕ → Visit M → List (Visit M) → List (Place M)
places address v [] = (address, v) ∷ []
places address v (w ∷ vs) = (address, v) ∷ places v.0.next_alloc w vs

abbrev pub IsUnfit : {M : Type 0} → ℕ → Place M → Type 0
IsUnfit size p = fits size p.0 p.1.0 ≡ false

-- The result of the search: a block that fits, that is not the last one and that none before it does;
-- or the last block, where none of the others fits.
pub data Chosen {M : Type 0} (size : ℕ) (ps : List (Place M)) (r : ℕ × Bool × M) : Type 0 where
  fitting :
      (before : List (Place M)) (p q : Place M) (after : List (Place M))
      → ps ≡ before ++ p ∷ q ∷ after
      → All (IsUnfit size) before
      → fits size p.0 p.1.0 ≡ true
      → r ≡ (p.0, false, p.1.1)
      → Chosen size ps r
  last :
      (before : List (Place M)) (p : Place M)
      → ps ≡ before ++ p ∷ []
      → All (IsUnfit size) before
      → r ≡ (p.0, true, p.1.1)
      → Chosen size ps r

Chosen-later :
    {M : Type 0} (size : ℕ) (p : Place M) {ps : List (Place M)} {r : ℕ × Bool × M}
    → IsUnfit size p
    → Chosen size ps r
    → Chosen size (p ∷ ps) r
Chosen-later size p u (fitting before x y after e a f q) =
    fitting (p ∷ before) x y after (ap (◌∷◌ p) e) (u, a) f q
Chosen-later size p u (last before x e a q) = last (p ∷ before) x (ap (◌∷◌ p) e) (u, a) q

first_fit-Chosen :
    {M : Type 0} (size address : ℕ) (v : Visit M) (vs : List (Visit M))
    → Chosen size (places address v vs) (first_fit size address v vs)
unfolding first_fit
first_fit-Chosen size address v [] = last [] (address, v) refl tt refl
first_fit-Chosen {M} size address v (w ∷ vs) = elim (Bool-cases (fits size address v.0)) [
  | inl f ↦ first f vs
  | inr f ↦ rw f (Chosen-later size (address, v) f (first_fit-Chosen size v.0.next_alloc w vs))
]
  where
    first :
        fits size address v.0 ≡ true
        → (us : List (Visit M))
        → Chosen size ((address, v) ∷ places v.0.next_alloc w us) (
            if fits size address v.0
            then (address, false, v.1)
            else first_fit size v.0.next_alloc w us)
    first f [] = fitting [] (address, v) (v.0.next_alloc, w) [] refl tt f (rw f refl)
    first f (u ∷ us) =
        fitting [] (address, v) (v.0.next_alloc, w) (places w.0.next_alloc u us) refl tt f
          (rw f refl)

-- The last block.
unfoldable pub last_block : {M : Type 0} → ℕ → Visit M → List (Visit M) → ℕ × M
last_block address v [] = (address, v.1)
last_block address v (w ∷ vs) = last_block v.0.next_alloc w vs

-- The answer of `getFreeAlloc`, where there is no last block to fall back on.
abbrev pub only_free : {M : Type 0} → ℕ × Bool × M → Option ℕ × M
only_free (address, is_last, m) = (if is_last then none else some address, m)

-- A function of both branches of a test.
if-function :
    {A B : Type 0} (f : A → B) (b : Bool) (x y : A)
    → (if b then f x else f y) ≡ f (if b then x else y)
if-function f true x y = refl
if-function f false x y = refl

not_zero : (n : ℕ) → 0 < n → (n == 0) ≡ false
not_zero n p = ground arith

is_zero : (n : ℕ) → n ≡ 0 → (n == 0) ≡ true
is_zero n e = ground arith

module _ {D S : Type 0} (lib : Lists) (dicts : Dictionaries D) (string_itoa : ℕ → List ℕ)
    (server : SwapServer S) (config : MemoryConfig) (assignment : Assignment)
    (replacement : Replacement) where
  -- The blocks of the chain from the one at `address`, each read in the state that the read before
  -- it leaves, and each but the last in front of the next one.
  unfoldable pub IsChain :
      ℕ → Memory D S → ℕ → Visit (Memory D S) → List (Visit (Memory D S)) → Type 0
  IsChain pid m address v [] =
      (load_block lib dicts string_itoa server config assignment replacement m pid address ≡ some v)
      × (v.0.next_alloc ≡ 0)
  IsChain pid m address v (w ∷ vs) =
      (load_block lib dicts string_itoa server config assignment replacement m pid address ≡ some v)
      × (address + 9 ≤ v.0.next_alloc)
      × (v.0.next_alloc < 2 ^ 32)
      × IsChain pid v.1 v.0.next_alloc w vs

  searches :
      (pid size rounds : ℕ) (m : Memory D S) (address : ℕ) (v : Visit (Memory D S))
      (vs : List (Visit (Memory D S)))
      → IsChain pid m address v vs
      → length vs < rounds
      → (find_alloc lib dicts string_itoa server config assignment replacement rounds m pid size
            address
          ≡ some (first_fit size address v vs))
        × (get_free_alloc lib dicts string_itoa server config assignment replacement rounds m pid
              size address
            ≡ some (only_free (first_fit size address v vs)))
        × (get_last_alloc_addr lib dicts string_itoa server config assignment replacement rounds m
              pid address
            ≡ some (last_block address v vs))
  unfolding find_alloc get_last_alloc_addr get_free_alloc first_fit last_block IsChain
  searches pid size zero m address v vs c h = absurd (omega arith)
  searches pid size (suc rounds) m address v [] (l, e) h = (
    bind-some _ l ∙ rw (is_zero _ e) refl,
    bind-some _ l ∙ rw (is_zero _ e) refl,
    bind-some _ l ∙ rw (is_zero _ e) refl,
  )
  searches pid size (suc rounds) m address v (w ∷ vs) (l, p, g, c) h =
      let (i, j, k) = searches pid size rounds v.1 v.0.next_alloc w vs c (omega arith) in
      (
        bind-some _ l
            ∙ rw (not_zero v.0.next_alloc (omega (arith, p)), fits_lem size address v.0 p g, i)
                (if-function some _ _ _),
        bind-some _ l
            ∙ rw (not_zero v.0.next_alloc (omega (arith, p)), fits_lem size address v.0 p g, j)
                (free_or_onwards (fits size address v.0) _ _ _),
        bind-some _ l ∙ rw (not_zero v.0.next_alloc (omega (arith, p)), k) refl,
      )
    where
      free_or_onwards :
          (b : Bool) (a : ℕ) (n : Memory D S) (r : ℕ × Bool × Memory D S)
          → (if b then some (some a, n) else some (only_free r))
            ≡ some (only_free (if b then (a, false, n) else r))
      free_or_onwards true a n r = refl
      free_or_onwards false a n r = refl

  -- On a chain of blocks, each of which can be read and stands with its metadata in front of the next
  -- one, and with at least as many rounds as there are blocks, the three searches end. The search of
  -- memalloc gives the first block before the last one that is free and has `size` bytes between its
  -- 9 bytes of metadata and the next block, or else the last block, which it says is the last;
  -- `getFreeAlloc` gives the same block, and nothing where only the last one is left;
  -- `getLastAllocAddr` gives the last one. The state is the one after the reads up to that block.
  pub find_alloc-Chosen :
      (pid size rounds : ℕ) (m : Memory D S) (address : ℕ) (v : Visit (Memory D S))
      (vs : List (Visit (Memory D S)))
      → IsChain pid m address v vs
      → length vs < rounds
      → (r : ℕ × Bool × Memory D S) × (find_alloc lib dicts string_itoa server config assignment
            replacement rounds m pid size address
          ≡ some r)
        × Chosen size (places address v vs) r
        × (get_free_alloc lib dicts string_itoa server config assignment replacement rounds m pid
              size address
            ≡ some (only_free r))
        × (get_last_alloc_addr lib dicts string_itoa server config assignment replacement rounds m
              pid address
            ≡ some (last_block address v vs))
  find_alloc-Chosen pid size rounds m address v vs c h =
      let (found, free, end) = searches pid size rounds m address v vs c h in
      (first_fit size address v vs, found, first_fit-Chosen size address v vs, free, end)
