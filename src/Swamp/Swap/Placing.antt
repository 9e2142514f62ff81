-- ===== src/Swamp/Swap/Placing.antt =====
-- A page that is put at an assigned index of a file is found there, and its file is found for the
-- process: swamp/src/swap.c, swamp/src/swapFile.c.
use sisop_2c.Prelude.{
  ℕ, ◌*◌, ◌<◌, ◌≡◌, ◌≢◌, sym, ap, ◌∙◌, ◌⊎◌, inl, inr, Bool, true, false, not, Option, none, some,
  List, [], ◌∷◌, if◌then◌else◌, ◌==◌, arith, length, length-overwrite, get_or, get_or-set_self,
  length-set, find_index-cases, Bool-cases, Option-cases, IsFirst-of_find_index, some_injective,
  set,
}
use sisop_2c.Shared.Commons.{first, IsIn}
use sisop_2c.Swamp.SwapFile.{
  SwapFile, PageMetadata, blank, matches, holds_pid, is_found, is_full, has_room, has_pid,
  get_index, find_free_index, register, write_at_index, read_at_index,
}
use sisop_2c.Swamp.SwapFile.Index.{
  IsValid, Assigned, found, fresh, entry, get_index-register, register-IsValid,
}
use sisop_2c.Swamp.SwapFile.Bytes.{read_at_index-write_at_index}
use sisop_2c.Swamp.SwapFile.Room.{find_free_index_lem}
use sisop_2c.Swamp.Swap.{free_index, or_else}

pub first_passes :
    (p : ℕ → Bool) (xs : List ℕ) (a : ℕ) → first p xs ≡ some a → (p a ≡ true) × IsIn a xs
first_passes p [] a e = absurd (apart e)
  where
    apart : none ≡ some a → ⊥
    apart h = cc
first_passes p (x ∷ xs) a e = elim (Bool-cases (p x)) [
  | inl h ↦ (here h, inl (sym (same h)))
  | inr h ↦ let (u, v) = first_passes p xs a (later h) in (u, inr v)
]
  where
    same : p x ≡ true → x ≡ a
    same h = some_injective (sym (ap (λ b. if b then some x else first p xs) h) ∙ e)

    here : p x ≡ true → p a ≡ true
    here h = ap p (sym (same h)) ∙ h

    later : p x ≡ false → first p xs ≡ some a
    later h = sym (ap (λ b. if b then some x else first p xs) h) ∙ e

-- A test that changes at one element, which passes it now, and was the first or the only one.
pub first_stays :
    (p q : ℕ → Bool) (a : ℕ) (xs : List ℕ)
    → q a ≡ true
    → ((b : ℕ) → (b == a) ≡ false → q b ≡ p b)
    → (first p xs ≡ some a) ⊎ ((first p xs ≡ none) × IsIn a xs)
    → first q xs ≡ some a
first_stays p q a [] t other (inl e) = e
first_stays p q a [] t other (inr (e, h)) = absurd h
first_stays p q a (x ∷ xs) t other h = elim (Bool-cases (x == a)) [
  | inl same ↦
      ap (λ b. if b then some x else first q xs) (ap q (equal same) ∙ t) ∙ ap some (equal same)
  | inr ne ↦ elim (Bool-cases (p x)) [
    | inl y ↦ absurd (no_match ne y h)
    | inr n ↦
        ap (λ b. if b then some x else first q xs) (other x ne ∙ n)
        ∙ first_stays p q a xs t other (tail ne n h)
  ]
]
  where
    equal : (x == a) ≡ true → x ≡ a
    equal g = ground arith

    differ : (x == a) ≡ false → x ≢ a
    differ g e = ground arith

    step : {b : Bool} → p x ≡ b → first p (x ∷ xs) ≡ (if b then some x else first p xs)
    step g = ap (λ b. if b then some x else first p xs) g

    none≢some : none ≡ some x → ⊥
    none≢some g = cc

    no_match :
        (x == a) ≡ false
        → p x ≡ true
        → (first p (x ∷ xs) ≡ some a) ⊎ ((first p (x ∷ xs) ≡ none) × IsIn a (x ∷ xs))
        → ⊥
    no_match ne y (inl e) = differ ne (some_injective (sym (step y) ∙ e))
    no_match ne y (inr (e, _)) = none≢some (sym e ∙ step y)

    tail :
        (x == a) ≡ false
        → p x ≡ false
        → (first p (x ∷ xs) ≡ some a) ⊎ ((first p (x ∷ xs) ≡ none) × IsIn a (x ∷ xs))
        → (first p xs ≡ some a) ⊎ ((first p xs ≡ none) × IsIn a xs)
    tail ne n (inl e) = inl (sym (step n) ∙ e)
    tail ne n (inr (e, inl s)) = absurd (differ ne (sym s))
    tail ne n (inr (e, inr i)) = inr (sym (step n) ∙ e, i)

-- The process is found in a file that holds a page of it.
has_pid-register :
    (sf : SwapFile) (pid page i : ℕ)
    → i < length sf.entries
    → has_pid (register sf pid page i) pid ≡ true
unfolding has_pid register
has_pid-register sf pid page i h =
    elim (find_index-cases (holds_pid pid) (set sf.entries i new) blank) [
      | inl (n, none_holds) ↦
          absurd (clash (none_holds i (omega (arith, length-set sf.entries i new))))
      | inr (j, e, f) ↦ ap is_found e
    ]
  where
    new : PageMetadata
    new = record { pid = pid; page_number = page; used = true }

    holds_new : holds_pid pid new ≡ true
    holds_new = ground arith

    clash : holds_pid pid (get_or (set sf.entries i new) i blank) ≡ false → ⊥
    clash g =
        absurd
          (cc (sym (ap (holds_pid pid) (get_or-set_self sf.entries i new blank h)) ∙ g, holds_new))

write_at_index-IsValid :
    (sf : SwapFile) (i : ℕ) (content : List ℕ) → IsValid sf → IsValid (write_at_index sf i content)
unfolding write_at_index get_index
write_at_index-IsValid sf i content v = record {
  sized = v.sized;
  fits = omega (arith, v.fits, length-overwrite sf.bytes (i * sf.page_size) content);
  indexed = v.indexed;
}

-- What storing a page at an assigned index of a file does to the file.
pub record Stored (sf sf' : SwapFile) (pid page : ℕ) (content : List ℕ) : Type 0 where
  pub at : ℕ
  pub valid : IsValid sf'
  pub known : has_pid sf' pid ≡ true
  pub placed : get_index sf' pid page ≡ some at
  pub kept : read_at_index sf' at ≡ content

pub page-Stored :
    (sf : SwapFile) (pid page i : ℕ) (content : List ℕ)
    → IsValid sf
    → Assigned sf pid page i
    → i < sf.max_pages
    → length content ≡ sf.page_size
    → Stored sf (register (write_at_index sf i content) pid page i) pid page content
unfolding register write_at_index
page-Stored sf pid page i content v a h e = record {
  at = i;
  valid = register-IsValid w pid page i w-IsValid w-Assigned h;
  known = has_pid-register w pid page i inside;
  placed = get_index-register w pid page i w-Assigned inside;
  kept = unfold read_at_index in read_at_index-write_at_index sf i content v h e;
}
  where
    w : SwapFile
    w = write_at_index sf i content

    inside : i < length w.entries
    inside = omega (arith, v.sized)

    w-IsValid : IsValid w
    w-IsValid = write_at_index-IsValid sf i content v

    assigned : Assigned sf pid page i → Assigned w pid page i
    assigned (found g) = found (unfold get_index in g)
    assigned (fresh g) = fresh (unfold get_index in g)

    w-Assigned : Assigned w pid page i
    w-Assigned = assigned a

get_index_inside :
    (sf : SwapFile) (pid page i : ℕ) → get_index sf pid page ≡ some i → i < length sf.entries
unfolding get_index
get_index_inside sf pid page i e =
    (IsFirst-of_find_index (matches pid page) sf.entries blank i e).inside

-- The index that the global algorithm assigns to a page in a valid file.
pub Assigned-index :
    (beyond : ℕ → PageMetadata) (sf : SwapFile) (pid page i : ℕ)
    → IsValid sf
    → or_else (get_index sf pid page) (free_index beyond sf) ≡ some i
    → Assigned sf pid page i × (i < sf.max_pages)
unfolding free_index is_full
Assigned-index beyond sf pid page i v e = elim (Option-cases (get_index sf pid page)) [
  | inr (j, g) ↦ old j g
  | inl g ↦ elim (Bool-cases (has_room sf)) [
    | inl r ↦ new g r (find_free_index_lem beyond sf v r)
    | inr r ↦ absurd (apart (sym (full g r) ∙ e))
  ]
]
  where
    apart : none ≡ some i → ⊥
    apart h = cc

    chosen : Option ℕ → Bool → Option ℕ
    chosen o r = or_else o (if not r then none else find_free_index beyond sf)

    full :
        get_index sf pid page ≡ none
        → has_room sf ≡ false
        → chosen (get_index sf pid page) (has_room sf) ≡ none
    full g r = ap (λ o. chosen o (has_room sf)) g ∙ ap (chosen none) r

    old : (j : ℕ) → get_index sf pid page ≡ some j → Assigned sf pid page i × (i < sf.max_pages)
    old j g = (found at, omega (arith, v.sized, get_index_inside sf pid page i at))
      where
        at : get_index sf pid page ≡ some i
        at = g ∙ sym (ap (λ o. chosen o (has_room sf)) g) ∙ e

    new :
        get_index sf pid page ≡ none
        → has_room sf ≡ true
        → (j : ℕ) × (find_free_index beyond sf ≡ some j)
          × (j < sf.max_pages)
          × ((entry sf j).used ≡ false)
          × ((k : ℕ) → k < j → (entry sf k).used ≡ true)
        → Assigned sf pid page i × (i < sf.max_pages)
    new g r (j, f, h, _, _) = (fresh g, omega (arith, same))
      where
        same : j ≡ i
        same =
            some_injective
              (sym f ∙ sym (ap (λ o. chosen o (has_room sf)) g ∙ ap (chosen none) r) ∙ e)
