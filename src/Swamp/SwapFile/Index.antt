-- ===== src/Swamp/SwapFile/Index.antt =====
-- The page table of a swap file: every page in use is found at its own index.
use sisop_2c.Prelude.{
  ℕ, zero, suc, ◌*◌, ◌/◌, ◌<◌, ◌≤◌, ◌≡◌, refl, ap, ◌∙◌, ◌≢◌, inl, inr, Bool, true, false, none,
  some, List, [], ◌∷◌, arith, length, get_or, set, replicate, length-set, length-replicate,
  get_or-set_self, get_or-set_ne, get_or-replicate, find_index, IsFirst, some_injective,
  find_index_of_IsFirst, IsFirst-of_find_index, none_of_find_index, Bool-cases, ℕ_discrete,
}
use native.Mathlib.Nat.{div-mul-le_self}
use sisop_2c.Swamp.SwapFile.{
  SwapFile, PageMetadata, blank, matches, create, register, get_index, free_entry,
}

-- The entry at an index of the table.
abbrev pub entry : SwapFile → ℕ → PageMetadata
entry sf i = get_or sf.entries i blank

-- The table has `max_pages` entries, the pages fit in the file, and a page in use is found at its
-- own index, so that no page is in use twice.
pub record IsValid (sf : SwapFile) : Type 0 where
  pub sized : length sf.entries ≡ sf.max_pages
  pub fits : sf.max_pages * sf.page_size ≤ length sf.bytes
  pub indexed :
      (i : ℕ)
      → i < sf.max_pages
      → (entry sf i).used ≡ true
      → get_index sf (entry sf i).pid (entry sf i).page_number ≡ some i

-- `get_index` found `i`, or found nothing and `i` is an index to take.
pub data Assigned (sf : SwapFile) (pid page : ℕ) (i : ℕ) : Type 0 where
  found : get_index sf pid page ≡ some i → Assigned sf pid page i
  fresh : get_index sf pid page ≡ none → Assigned sf pid page i

abbrev registered : ℕ → ℕ → PageMetadata
registered pid page = record { pid = pid; page_number = page; used = true }

-- No entry before the assigned one has the page.
Assigned-before :
    (sf : SwapFile) (pid page i : ℕ)
    → Assigned sf pid page i
    → i < length sf.entries
    → (j : ℕ) → j < i
    → matches pid page (entry sf j) ≡ false
unfolding get_index
Assigned-before sf pid page i (found e) h =
    (IsFirst-of_find_index (matches pid page) sf.entries blank i e).earlier
Assigned-before sf pid page i (fresh e) h =
    λ j g. none_of_find_index (matches pid page) sf.entries blank e j (omega arith)

matches_self : (pid page : ℕ) → matches pid page (registered pid page) ≡ true
matches_self pid page = ground arith

-- After `register` the page is found where it was put.
pub get_index-register :
    (sf : SwapFile) (pid page i : ℕ)
    → Assigned sf pid page i
    → i < length sf.entries
    → get_index (register sf pid page i) pid page ≡ some i
unfolding get_index register
get_index-register sf pid page i a h =
    find_index_of_IsFirst (matches pid page) (set sf.entries i (registered pid page)) blank i
      (record {
        inside = omega (arith, length-set sf.entries i (registered pid page));
        passes =
            rw (get_or-set_self sf.entries i (registered pid page) blank h) (matches_self pid page);
        earlier = λ j g.
            rw (get_or-set_ne sf.entries i j (registered pid page) blank (omega arith))
              (Assigned-before sf pid page i a h j g);
      })

same_page : (q r pid page : ℕ) → matches q r (registered pid page) ≡ true → (pid ≡ q) × (page ≡ r)
same_page q r pid page h = ground arith

-- An index taken for a page is not that of another page.
Assigned-ne :
    (sf : SwapFile) (pid page i q r k : ℕ)
    → Assigned sf pid page i
    → get_index sf q r ≡ some k
    → i ≢ k
    → matches q r (registered pid page) ≡ false
Assigned-ne sf pid page i q r k a e ne = elim (Bool-cases (matches q r (registered pid page))) [
  | inr h ↦ h
  | inl h ↦ absurd (clash a (same_page q r pid page h))
]
  where
    clash : Assigned sf pid page i → (pid ≡ q) × (page ≡ r) → ⊥
    clash (found f) (x, y) = ne (some_injective (cc (f, e, x, y)))
    clash (fresh f) (x, y) = cc (f, e, x, y)

-- Any other page that is found stays where it was.
pub get_index-register_ne :
    (sf : SwapFile) (pid page i q r k : ℕ)
    → Assigned sf pid page i
    → get_index sf q r ≡ some k
    → i ≢ k
    → get_index (register sf pid page i) q r ≡ some k
unfolding get_index register
get_index-register_ne sf pid page i q r k a e ne =
    find_index_of_IsFirst (matches q r) (set sf.entries i (registered pid page)) blank k (record {
      inside = omega (arith, length-set sf.entries i (registered pid page), first.inside);
      passes = rw (get_or-set_ne sf.entries i k (registered pid page) blank ne) first.passes;
      earlier = before;
    })
  where
    first : IsFirst (matches q r) sf.entries blank k
    first = IsFirst-of_find_index (matches q r) sf.entries blank k e

    before :
        (j : ℕ)
        → j < k
        → matches q r (get_or (set sf.entries i (registered pid page)) j blank) ≡ false
    before j h = elim (ℕ_discrete i j) [
      | yes p ↦ rw (← p) (
          rw
            (get_or-set_self sf.entries i (registered pid page) blank (omega (arith, first.inside)))
            (Assigned-ne sf pid page i q r k a e ne))
      | no p ↦ rw (get_or-set_ne sf.entries i j (registered pid page) blank p) (first.earlier j h)
    ]

-- `create` builds a valid file, when the size holds whole pages.
pub create-IsValid : (size page_size : ℕ) → IsValid (create size page_size)
unfolding create
create-IsValid size page_size = record {
  sized = length-replicate (size / page_size) blank;
  fits = omega (arith, length-replicate {A = ℕ} size 0, div-mul-le_self size page_size);
  indexed = λ i h u. absurd (never i u);
}
  where
    never : (i : ℕ) → (get_or (replicate (size / page_size) blank) i blank).used ≡ true → ⊥
    never i u = cc (u, ap (λ e. e.used) (get_or-replicate (size / page_size) blank i))

-- `register` keeps a file valid, at an index assigned to the page.
pub register-IsValid :
    (sf : SwapFile) (pid page i : ℕ)
    → IsValid sf
    → Assigned sf pid page i
    → i < sf.max_pages
    → IsValid (register sf pid page i)
unfolding register
register-IsValid sf pid page i v a h = record {
  sized = length-set sf.entries i (registered pid page) ∙ v.sized;
  fits = v.fits;
  indexed = λ k g u. stays k g u (ℕ_discrete i k);
}
  where
    new : PageMetadata
    new = registered pid page

    stays :
        (k : ℕ)
        → k < sf.max_pages
        → (get_or (set sf.entries i new) k blank).used ≡ true
        → Dec (i ≡ k)
        → get_index
            (register sf pid page i)
            (get_or (set sf.entries i new) k blank).pid
            (get_or (set sf.entries i new) k blank).page_number
          ≡ some k
    stays k g u (yes p) = rw (← p) (
        rw (get_or-set_self sf.entries i new blank (omega (arith, v.sized)))
          (get_index-register sf pid page i a (omega (arith, v.sized))))
    stays k g u (no p) = rw (get_or-set_ne sf.entries i k new blank p) (
        get_index-register_ne sf pid page i _ _ k a
          (v.indexed k g (rw (get_or-set_ne sf.entries i k new blank p) at u)) p)

-- Clearing a flag that a test does not read leaves the search alone.
find_index-free :
    (p : PageMetadata → Bool)
    → ((e : PageMetadata) → p (record e { used = false }) ≡ p e)
    → (es : List PageMetadata) (i : ℕ)
    → find_index p (set es i (record (get_or es i blank) { used = false })) ≡ find_index p es
unfolding find_index
find_index-free p h [] i = refl
find_index-free p h (e ∷ es) zero = rw (h e)
find_index-free p h (e ∷ es) (suc i) = rw (find_index-free p h es i)

-- `free_entry` changes neither pid nor page number, so every search finds what it found.
pub get_index-free_entry :
    (sf : SwapFile) (i q r : ℕ) → get_index (free_entry sf i) q r ≡ get_index sf q r
unfolding get_index free_entry
get_index-free_entry sf i q r = find_index-free (matches q r) (λ e. refl) sf.entries i

-- `free_entry` keeps a file valid.
pub free_entry-IsValid : (sf : SwapFile) (i : ℕ) → IsValid sf → IsValid (free_entry sf i)
unfolding free_entry
free_entry-IsValid sf i v = record {
  sized = length-set sf.entries i freed ∙ v.sized;
  fits = v.fits;
  indexed = λ k g u. stays k g u (ℕ_discrete i k);
}
  where
    freed : PageMetadata
    freed = record (get_or sf.entries i blank) { used = false }

    stays :
        (k : ℕ)
        → k < sf.max_pages
        → (get_or (set sf.entries i freed) k blank).used ≡ true
        → Dec (i ≡ k)
        → get_index
            (free_entry sf i)
            (get_or (set sf.entries i freed) k blank).pid
            (get_or (set sf.entries i freed) k blank).page_number
          ≡ some k
    stays k g u (yes p) = absurd (clash (rw (← p) at u))
      where
        clash : (get_or (set sf.entries i freed) i blank).used ≡ true → ⊥
        clash w = cc (
          w,
          ap (λ e. e.used) (get_or-set_self sf.entries i freed blank (omega (arith, v.sized))),
        )
    stays k g u (no p) = rw (get_or-set_ne sf.entries i k freed blank p) (
        get_index-free_entry sf i _ _
        ∙ v.indexed k g (rw (get_or-set_ne sf.entries i k freed blank p) at u))
