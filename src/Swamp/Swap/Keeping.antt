-- ===== src/Swamp/Swap/Keeping.antt =====
-- Saving a page leaves the other pages in use as they were: swamp/src/swap.c.
use mathlib.Core.Option
use sisop_2c.Prelude.{
  ℕ, zero, suc, ◌≡◌, ◌≢◌, refl, sym, ap, ◌∙◌, ◌⊎◌, inl, inr, Bool, true, false, not, Option, none,
  some, List, [], ◌∷◌, if◌then◌else◌, arith, length, get_or, set, find_index, IsFirst-of_find_index,
  get_or-set_ne, Bool-cases, Option-cases, some_injective,
}
use sisop_2c.Swamp.SwapFile.{
  SwapFile, PageMetadata, blank, matches, holds_pid, is_found, has_room, is_full, has_pid,
  get_index, find_free_index, register, write_at_index, read_at_index,
}
use sisop_2c.Swamp.SwapFile.Index.{IsValid, Assigned, entry, get_index-register_ne}
use sisop_2c.Swamp.SwapFile.Bytes.{read_at_index-write_at_index_ne}
use sisop_2c.Swamp.SwapFile.Room.{find_free_index_lem}
use sisop_2c.Swamp.Swap.{free_index, or_else}

-- The index is that of the page, or of no page in use.
pub IsVacant : SwapFile → ℕ → ℕ → ℕ → Type 0
IsVacant sf pid page i = (matches pid page (entry sf i) ≡ true) ⊎ ((entry sf i).used ≡ false)

pub IsVacant-index :
    (beyond : ℕ → PageMetadata) (sf : SwapFile) (pid page i : ℕ)
    → IsValid sf
    → or_else (get_index sf pid page) (free_index beyond sf) ≡ some i
    → IsVacant sf pid page i
unfolding IsVacant free_index is_full
IsVacant-index beyond sf pid page i v e = elim (Option-cases (get_index sf pid page)) [
  | inr (j, g) ↦ inl (
      unfold get_index in
      (IsFirst-of_find_index (matches pid page) sf.entries blank i
        (g ∙ sym (ap (λ o. chosen o (has_room sf)) g) ∙ e)).passes)
  | inl g ↦ elim (Bool-cases (has_room sf)) [
    | inl r ↦
        (let (j, f, h, free, _) = find_free_index_lem beyond sf v r in
          inr (
            ap (λ n. (entry sf n).used)
              (some_injective (sym e ∙ ap (λ o. chosen o (has_room sf)) g ∙ ap (chosen none) r ∙ f))
            ∙ free))
    | inr r ↦ absurd (apart (sym (ap (λ o. chosen o (has_room sf)) g ∙ ap (chosen none) r) ∙ e))
  ]
]
  where
    apart : none ≡ some i → ⊥
    apart h = cc

    chosen : Option ℕ → Bool → Option ℕ
    chosen o r = or_else o (if not r then none else find_free_index beyond sf)

-- Writing an element that fails a test over another that fails it.
is_found-set :
    (p : PageMetadata → Bool) (xs : List PageMetadata) (i : ℕ) (v : PageMetadata)
    → p (get_or xs i blank) ≡ false
    → p v ≡ false
    → is_found (find_index p (set xs i v)) ≡ is_found (find_index p xs)
unfolding find_index
is_found-set p [] i v h g = refl
is_found-set p (x ∷ xs) zero v h g =
    ap (λ t. is_found (if t then some 0 else Option.map suc (find_index p xs))) (g ∙ sym h)
is_found-set p (x ∷ xs) (suc i) v h g =
    step (p x) (find_index p (set xs i v)) (find_index p xs) (is_found-set p xs i v h g)
  where
    shifted : (o : Option ℕ) → is_found (Option.map suc o) ≡ is_found o
    shifted none = refl
    shifted (some j) = refl

    step :
        (t : Bool) (o o' : Option ℕ)
        → is_found o ≡ is_found o'
        → is_found (if t then some 0 else Option.map suc o)
          ≡ is_found (if t then some 0 else Option.map suc o')
    step true o o' e = refl
    step false o o' e = shifted o ∙ e ∙ sym (shifted o')

-- What saving keeps of a page in use.
pub record Kept (sf sf' : SwapFile) (q r k : ℕ) : Type 0 where
  pub same_index : get_index sf' q r ≡ some k
  pub still_used : (entry sf' k).used ≡ true
  pub same_bytes : read_at_index sf' k ≡ read_at_index sf k

-- The index of a page in use is not given to another page.
index-ne :
    (sf : SwapFile) (pid page i q r k : ℕ)
    → IsVacant sf pid page i
    → get_index sf q r ≡ some k
    → (entry sf k).used ≡ true
    → ((q ≡ pid) × (r ≡ page) → ⊥)
    → i ≢ k
unfolding IsVacant get_index
index-ne sf pid page i q r k vacant e used ne same = ne (clash vacant)
  where
    mine : matches q r (entry sf k) ≡ true
    mine = (IsFirst-of_find_index (matches q r) sf.entries blank k e).passes

    both :
        (x : PageMetadata)
        → matches q r x ≡ true
        → matches pid page x ≡ true
        → (q ≡ pid) × (r ≡ page)
    both x g h = ground arith

    apart : (b : Bool) → b ≡ true → b ≡ false → ⊥
    apart b g h = cc

    clash :
        (matches pid page (entry sf i) ≡ true) ⊎ ((entry sf i).used ≡ false)
        → (q ≡ pid) × (r ≡ page)
    clash (inl h) = both (entry sf k) mine (ap (λ n. matches pid page (entry sf n)) (sym same) ∙ h)
    clash (inr h) = absurd (apart _ used (ap (λ n. (entry sf n).used) (sym same) ∙ h))

pub page-Kept :
    (sf : SwapFile) (pid page i q r k : ℕ) (content : List ℕ)
    → Assigned sf pid page i
    → IsVacant sf pid page i
    → length content ≡ sf.page_size
    → get_index sf q r ≡ some k
    → (entry sf k).used ≡ true
    → ((q ≡ pid) × (r ≡ page) → ⊥)
    → Kept sf (register (write_at_index sf i content) pid page i) q r k
unfolding register write_at_index
page-Kept sf pid page i q r k content a vacant sized e used ne = record {
  same_index =
      get_index-register_ne (write_at_index sf i content) pid page i q r k (assigned a)
        (unfold get_index in e) apart;
  still_used = ap (λ x. x.used) (get_or-set_ne sf.entries i k _ blank apart) ∙ used;
  same_bytes = unfold read_at_index in read_at_index-write_at_index_ne sf i k content sized apart;
}
  where
    apart : i ≢ k
    apart = index-ne sf pid page i q r k vacant e used ne

    assigned : Assigned sf pid page i → Assigned (write_at_index sf i content) pid page i
    assigned (Assigned.found g) = Assigned.found (unfold get_index in g)
    assigned (Assigned.fresh g) = Assigned.fresh (unfold get_index in g)

-- No other process comes to a file, or leaves it.
pub has_pid-register_ne :
    (sf : SwapFile) (pid page i q : ℕ) (content : List ℕ)
    → IsVacant sf pid page i
    → q ≢ pid
    → has_pid (register (write_at_index sf i content) pid page i) q ≡ has_pid sf q
unfolding IsVacant has_pid register write_at_index
has_pid-register_ne sf pid page i q content vacant ne =
    is_found-set (holds_pid q) sf.entries i _ (old vacant) new
  where
    other : (x : PageMetadata) → matches pid page x ≡ true → holds_pid q x ≡ false
    other x h = ground arith

    unused : (x : PageMetadata) → x.used ≡ false → holds_pid q x ≡ false
    unused x h = ground arith

    old :
        (matches pid page (entry sf i) ≡ true) ⊎ ((entry sf i).used ≡ false)
        → holds_pid q (entry sf i) ≡ false
    old (inl h) = other (entry sf i) h
    old (inr h) = unused (entry sf i) h

    new : holds_pid q (record { pid = pid; page_number = page; used = true }) ≡ false
    new = ground arith
