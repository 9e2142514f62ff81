-- ===== src/Memory/Tlb/Entries.antt =====
-- What the entries of the TLB answer: a page is held by one entry at most, which `dropEntry` finds.
use sisop_2c.Prelude.{
  ℕ, zero, suc, ◌+◌, ◌≡◌, refl, ap, ◌∙◌, ◌⊎◌, inl, inr, Bool, true, false, Option, none, some, List,
  [], ◌∷◌, if◌then◌else◌, ◌==◌, arith, map, replicate, set, All, Bool-cases, Option-cases,
}
use sisop_2c.Shared.Commons.{Lists}
use sisop_2c.Memory.Tlb.{
  TlbEntry, Policy, Tlb, blank, holds, names, freed, create_tlb, take_free, write_entry, add_entry,
  drop_first, drop_entry, clean_tlb, free_process_entries,
}

-- No entry holds the page.
abbrev pub IsAbsent : ℕ → ℕ → List TlbEntry → Type 0
IsAbsent pid page = All (λ e. holds pid page e ≡ false)

-- No entry holds the page that an earlier entry names, whether that one is free or not.
abbrev pub IsExact : List TlbEntry → Type 0
IsExact [] = Unit
IsExact (e ∷ es) = IsAbsent e.pid e.page es × IsExact es

abbrev pub fresh_entry : ℕ → ℕ → ℕ → TlbEntry
fresh_entry pid page frame = record { pid = pid; page = page; frame = frame; is_free = false }

-- A live entry that does not hold the page differs from a new entry for it.
other_name :
    (e : TlbEntry) (pid page frame : ℕ)
    → e.is_free ≡ false
    → holds pid page e ≡ false
    → holds e.pid e.page (fresh_entry pid page frame) ≡ false
other_name e pid page frame l h = ground arith

pub IsAbsent-freed : (pid page : ℕ) (es : List TlbEntry) → IsAbsent pid page (map freed es)
IsAbsent-freed pid page [] = tt
IsAbsent-freed pid page (e ∷ es) = (ground arith, IsAbsent-freed pid page es)

IsExact-freed : (es : List TlbEntry) → IsExact (map freed es)
IsExact-freed [] = tt
IsExact-freed (e ∷ es) = (IsAbsent-freed e.pid e.page es, IsExact-freed es)

IsAbsent-blank : (pid page n : ℕ) → IsAbsent pid page (replicate n blank)
IsAbsent-blank pid page zero = tt
IsAbsent-blank pid page (suc n) = (ground arith, IsAbsent-blank pid page n)

IsExact-blank : (n : ℕ) → IsExact (replicate n blank)
IsExact-blank zero = tt
IsExact-blank (suc n) = (IsAbsent-blank 0 0 n, IsExact-blank n)

abbrev pub without : ℕ → TlbEntry → TlbEntry
without pid e = if e.pid == pid then freed e else e

holds-without :
    (q r pid : ℕ) (e : TlbEntry) → holds q r e ≡ false → holds q r (without pid e) ≡ false
holds-without q r pid e h = ground arith

IsAbsent-without :
    (q r pid : ℕ) (es : List TlbEntry) → IsAbsent q r es → IsAbsent q r (map (without pid) es)
IsAbsent-without q r pid [] h = tt
IsAbsent-without q r pid (e ∷ es) h = (holds-without q r pid e h.0, IsAbsent-without q r pid es h.1)

same_name :
    (pid : ℕ) (e : TlbEntry) → ((without pid e).pid ≡ e.pid) × ((without pid e).page ≡ e.page)
same_name pid e = elim (Bool-cases (e.pid == pid)) [
  | inl h ↦ (rw h refl, rw h refl)
  | inr h ↦ (rw h refl, rw h refl)
]

IsExact-without : (pid : ℕ) (es : List TlbEntry) → IsExact es → IsExact (map (without pid) es)
IsExact-without pid [] h = tt
IsExact-without pid (e ∷ es) h = (
  rw (((same_name pid e).0, (same_name pid e).1)) (IsAbsent-without e.pid e.page pid es h.0),
  IsExact-without pid es h.1,
)

pub IsAbsent-mine : (pid page : ℕ) (es : List TlbEntry) → IsAbsent pid page (map (without pid) es)
IsAbsent-mine pid page [] = tt
IsAbsent-mine pid page (e ∷ es) = (ground arith, IsAbsent-mine pid page es)

-- Freeing the first entry that names a page leaves no entry that holds it.
IsAbsent-drop_first_ne :
    (q r pid page : ℕ) (es : List TlbEntry)
    → IsAbsent q r es
    → IsAbsent q r (drop_first pid page es)
unfolding drop_first
IsAbsent-drop_first_ne q r pid page [] h = tt
IsAbsent-drop_first_ne q r pid page (e ∷ es) h = elim (Bool-cases (names pid page e)) [
  | inl n ↦ rw n (ground arith, h.1)
  | inr n ↦ rw n (h.0, IsAbsent-drop_first_ne q r pid page es h.1)
]

IsExact-drop_first :
    (pid page : ℕ) (es : List TlbEntry) → IsExact es → IsExact (drop_first pid page es)
unfolding drop_first
IsExact-drop_first pid page [] h = tt
IsExact-drop_first pid page (e ∷ es) h = elim (Bool-cases (names pid page e)) [
  | inl n ↦ rw n h
  | inr n ↦
      rw n (IsAbsent-drop_first_ne e.pid e.page pid page es h.0, IsExact-drop_first pid page es h.1)
]

same_holds :
    (pid page : ℕ) (e x : TlbEntry)
    → names pid page e ≡ true
    → holds e.pid e.page x ≡ false
    → holds pid page x ≡ false
same_holds pid page e x n h = ground arith

IsAbsent-named :
    (pid page : ℕ) (e : TlbEntry) (es : List TlbEntry)
    → names pid page e ≡ true
    → IsAbsent e.pid e.page es
    → IsAbsent pid page es
IsAbsent-named pid page e [] n h = tt
IsAbsent-named pid page e (x ∷ es) n h =
    (same_holds pid page e x n h.0, IsAbsent-named pid page e es n h.1)

unnamed : (pid page : ℕ) (e : TlbEntry) → names pid page e ≡ false → holds pid page e ≡ false
unnamed pid page e h = ground arith

pub IsAbsent-drop_first :
    (pid page : ℕ) (es : List TlbEntry) → IsExact es → IsAbsent pid page (drop_first pid page es)
unfolding drop_first
IsAbsent-drop_first pid page [] h = tt
IsAbsent-drop_first pid page (e ∷ es) h = elim (Bool-cases (names pid page e)) [
  | inl n ↦ rw n (ground arith, IsAbsent-named pid page e es n h.0)
  | inr n ↦ rw n (unnamed pid page e n, IsAbsent-drop_first pid page es h.1)
]

-- The first free entry is taken.
pub data Taken (new : TlbEntry) : List TlbEntry → List TlbEntry → Type 0 where
  here : {e : TlbEntry} {es : List TlbEntry} → Taken new (e ∷ es) (new ∷ es)
  later :
      {e : TlbEntry} {es es' : List TlbEntry}
      → e.is_free ≡ false
      → Taken new es es'
      → Taken new (e ∷ es) (e ∷ es')

abbrev pub IsFull : List TlbEntry → Type 0
IsFull = All (λ e. e.is_free ≡ false)

pub data TakenOrFull (new : TlbEntry) (es : List TlbEntry) (i : ℕ) : Type 0 where
  full : take_free new es i ≡ none → IsFull es → TakenOrFull new es i
  taken :
      (es' : List TlbEntry) (p : ℕ)
      → take_free new es i ≡ some (es', p)
      → Taken new es es'
      → TakenOrFull new es i

pub take_free-cases : (new : TlbEntry) (es : List TlbEntry) (i : ℕ) → TakenOrFull new es i
unfolding take_free
take_free-cases new [] i = full refl tt
take_free-cases new (e ∷ es) i = elim (Bool-cases e.is_free) [
  | inl h ↦ taken (new ∷ es) (suc i) (rw (h, take_free) refl) here
  | inr h ↦ rest h (take_free-cases new es (i + 1))
]
  where
    put_back : Option (List TlbEntry × ℕ) → Option (List TlbEntry × ℕ)
    put_back none = none
    put_back (some (es', p)) = some (e ∷ es', p)

    chosen : Bool → Option (List TlbEntry × ℕ)
    chosen true = some (new ∷ es, suc i)
    chosen false = put_back (take_free new es (i + 1))

    not_here : e.is_free ≡ false → take_free new (e ∷ es) i ≡ put_back (take_free new es (i + 1))
    not_here h = ap chosen h

    rest : e.is_free ≡ false → TakenOrFull new es (i + 1) → TakenOrFull new (e ∷ es) i
    rest h (full n l) = full (not_here h ∙ ap put_back n) (h, l)
    rest h (taken es' p n t) = taken (e ∷ es') p (not_here h ∙ ap put_back n) (later h t)

-- A new entry brings no page but its own.
pub IsAbsent-Taken :
    {new : TlbEntry} {es es' : List TlbEntry} (q r : ℕ)
    → Taken new es es'
    → holds q r new ≡ false
    → IsAbsent q r es
    → IsAbsent q r es'
IsAbsent-Taken q r here n h = (n, h.1)
IsAbsent-Taken q r (later l t) n h = (h.0, IsAbsent-Taken q r t n h.1)

IsExact-Taken :
    (pid page frame : ℕ) {es es' : List TlbEntry}
    → Taken (fresh_entry pid page frame) es es'
    → IsAbsent pid page es
    → IsExact es
    → IsExact es'
IsExact-Taken pid page frame here a x = (a.1, x.1)
IsExact-Taken pid page frame (later {e} l t) a x = (
  IsAbsent-Taken e.pid e.page t (other_name e pid page frame l a.0) x.0,
  IsExact-Taken pid page frame t a.1 x.1,
)

IsAbsent-set :
    (q r : ℕ) (es : List TlbEntry) (i : ℕ) (new : TlbEntry)
    → holds q r new ≡ false
    → IsAbsent q r es
    → IsAbsent q r (set es i new)
IsAbsent-set q r [] i new n h = h
IsAbsent-set q r (e ∷ es) zero new n h = (n, h.1)
IsAbsent-set q r (e ∷ es) (suc i) new n h = (h.0, IsAbsent-set q r es i new n h.1)

IsExact-set :
    (pid page frame : ℕ) (es : List TlbEntry) (i : ℕ)
    → IsFull es
    → IsAbsent pid page es
    → IsExact es
    → IsExact (set es i (fresh_entry pid page frame))
IsExact-set pid page frame [] i l a x = x
IsExact-set pid page frame (e ∷ es) zero l a x = (a.1, x.1)
IsExact-set pid page frame (e ∷ es) (suc i) l a x = (
  IsAbsent-set e.pid e.page es i _ (other_name e pid page frame l.0 a.0) x.0,
  IsExact-set pid page frame es i l.1 a.1 x.1,
)

IsExact-write_entry :
    (pid page frame : ℕ) (es : List TlbEntry) (p : ℕ)
    → IsFull es
    → IsAbsent pid page es
    → IsExact es
    → IsExact (write_entry es p (fresh_entry pid page frame))
IsExact-write_entry pid page frame es zero l a x = x
IsExact-write_entry pid page frame es (suc i) l a x = IsExact-set pid page frame es i l a x

module _ (lib : Lists) {D : Type 0} where
  pub add_taken :
      (t : Tlb D) (pid page frame : ℕ) (es' : List TlbEntry) (p : ℕ)
      → take_free (fresh_entry pid page frame) t.entries 0 ≡ some (es', p)
      → (add_entry lib t pid page frame).entries ≡ es'
  unfolding add_entry
  add_taken t pid page frame es' p e = rw (e, add_entry) refl

  pub add_full :
      (t : Tlb D) (pid page frame : ℕ)
      → take_free (fresh_entry pid page frame) t.entries 0 ≡ none
      → ((add_entry lib t pid page frame).entries ≡ t.entries)
        ⊎ ((victim : ℕ) × ((add_entry lib t pid page frame).entries
              ≡ write_entry t.entries victim (fresh_entry pid page frame)))
  unfolding add_entry
  add_full t pid page frame e = elim (Option-cases (lib.list_remove_first t.victim_queue).0) [
    | inl n ↦ inl (rw (e, n, add_entry) refl)
    | inr (victim, n) ↦ inr (victim, rw (e, n, add_entry) refl)
  ]

  -- `addEntryToTLB`, for a page that no entry holds, keeps every page in one entry at most, and in
  -- none behind another that names it.
  pub add_entry-IsExact :
      (t : Tlb D) (pid page frame : ℕ)
      → IsExact t.entries
      → IsAbsent pid page t.entries
      → IsExact (add_entry lib t pid page frame).entries
  add_entry-IsExact t pid page frame x a =
      elim (take_free-cases (fresh_entry pid page frame) t.entries 0) [
        | taken es' p e k ↦
            rw (add_taken t pid page frame es' p e) (IsExact-Taken pid page frame k a x)
        | full e l ↦ elim (add_full t pid page frame e) [
          | inl n ↦ rw n x
          | inr (victim, n) ↦ rw n (IsExact-write_entry pid page frame t.entries victim l a x)
        ]
      ]

module _ {D : Type 0} where
  -- What keeps the entries exact, and what it takes from them.
  pub record KeepsExact (t : Tlb D) (pid page : ℕ) : Type 0 where
    pub dropped : IsExact (drop_entry t pid page).entries
    pub cleaned : IsExact (clean_tlb t).entries
    pub process_freed : IsExact (free_process_entries t pid).entries

  -- In a new TLB no page is held by two entries, nor held behind a free entry that names it, and
  -- `dropEntry`, `cleanTLB` and `freeProcessEntries` keep that.
  pub operations-IsExact :
      (empty : D) (size : ℕ) (policy : Policy) (t : Tlb D) (pid page : ℕ)
      → IsExact t.entries
      → IsExact (create_tlb empty size policy).entries × KeepsExact t pid page
  unfolding create_tlb drop_entry clean_tlb free_process_entries
  operations-IsExact empty size policy t pid page x = (
    IsExact-blank size,
    record {
      dropped = IsExact-drop_first pid page t.entries x;
      cleaned = IsExact-freed t.entries;
      process_freed = IsExact-without pid t.entries x;
    },
  )
