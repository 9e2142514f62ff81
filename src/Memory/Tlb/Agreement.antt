-- ===== src/Memory/Tlb/Agreement.antt =====
-- What all entries of the TLB satisfy, and what a lookup answers then: memory/src/tlb.c.
use sisop_2c.Prelude.{
  ℕ, zero, suc, ◌+◌, ◌≡◌, refl, ap, ◌⊎◌, inl, inr, true, false, Bool, Option, none, some, List, [],
  ◌∷◌, if◌then◌else◌, set, All,
}
use sisop_2c.Shared.Commons.{Lists, Dictionaries}
use sisop_2c.Memory.Tlb.{TlbEntry, Policy, Tlb, holds, lookup_loop, write_entry, add_entry}
use sisop_2c.Memory.Tlb.Entries.{
  fresh_entry, Taken, here, later, full, taken, take_free-cases, add_taken, add_full,
}
use sisop_2c.Memory.Tlb.Lookup.{answer, answer_loop}

module _ (P : TlbEntry → Type 0) where
  All-Taken :
      {new : TlbEntry} {es es' : List TlbEntry} → Taken new es es' → P new → All P es → All P es'
  All-Taken here n h = (n, h.1)
  All-Taken (later l t) n h = (h.0, All-Taken t n h.1)

  All-set : (es : List TlbEntry) (i : ℕ) (new : TlbEntry) → P new → All P es → All P (set es i new)
  All-set [] i new n h = h
  All-set (e ∷ es) zero new n h = (n, h.1)
  All-set (e ∷ es) (suc i) new n h = (h.0, All-set es i new n h.1)

  All-write_entry :
      (es : List TlbEntry) (p : ℕ) (new : TlbEntry)
      → P new
      → All P es
      → All P (write_entry es p new)
  All-write_entry es zero new n h = h
  All-write_entry es (suc i) new n h = All-set es i new n h

  pub All-add_entry :
      (lib : Lists) {D : Type 0} (t : Tlb D) (pid page frame : ℕ)
      → P (fresh_entry pid page frame)
      → All P t.entries
      → All P (add_entry lib t pid page frame).entries
  All-add_entry lib t pid page frame n h =
      elim (take_free-cases (fresh_entry pid page frame) t.entries 0) [
        | taken es' p e k ↦ rw (add_taken lib t pid page frame es' p e) (All-Taken k n h)
        | full e l ↦ elim (add_full lib t pid page frame e) [
          | inl same ↦ rw same h
          | inr (victim, written) ↦ rw written (All-write_entry t.entries victim _ n h)
        ]
      ]

-- The entry holds the page in the frame, or does not hold it.
abbrev pub Knows : ℕ → ℕ → ℕ → TlbEntry → Type 0
Knows pid page frame e = holds pid page e ≡ true → e.frame ≡ frame

abbrev NoneOr : ℕ → Option ℕ → Type 0
NoneOr frame r = (r ≡ none) ⊎ (r ≡ some frame)

module _ (lib : Lists) where
  loop-Knows :
      (policy : Policy) (pid page frame : ℕ) (es : List TlbEntry) (i : ℕ) (queue : List ℕ)
      (before : Option ℕ)
      → All (Knows pid page frame) es
      → NoneOr frame before
      → NoneOr frame (lookup_loop lib policy pid page es i queue before).1
  unfolding lookup_loop
  loop-Knows policy pid page frame [] i queue before h b = b
  loop-Knows policy pid page frame (e ∷ es) i queue before h b =
      loop-Knows policy pid page frame es (i + 1) _ _ h.1 (next (holds pid page e) h.0)
    where
      next :
          (c : Bool)
          → (c ≡ true → e.frame ≡ frame)
          → NoneOr frame (if c then some e.frame else before)
      next true k = inr (ap some (k refl))
      next false k = b

  -- If all entries know a page in a frame, a lookup answers that frame or misses.
  pub answer-Knows :
      {D : Type 0} (dicts : Dictionaries D) (itoa : ℕ → List ℕ) (t : Tlb D) (pid page frame : ℕ)
      → All (Knows pid page frame) t.entries
      → (answer lib dicts itoa t pid page ≡ none) ⊎ (answer lib dicts itoa t pid page ≡ some frame)
  answer-Knows dicts itoa t pid page frame h =
      rw (answer_loop lib dicts itoa t pid page)
        (loop-Knows t.policy pid page frame t.entries 0 t.victim_queue none h (inl refl))
