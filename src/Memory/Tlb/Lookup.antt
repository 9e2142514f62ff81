-- ===== src/Memory/Tlb/Lookup.antt =====
-- What a lookup answers after the entries have changed.
use sisop_2c.Prelude.{
  Bool, true, false, ℕ, ◌+◌, ◌≡◌, refl, sym, ap, ◌∙◌, inl, inr, Option, none, some, List, [], ◌∷◌,
  if◌then◌else◌, arith, Option-cases,
}
use sisop_2c.Shared.Commons.{Lists, Dictionaries}
use sisop_2c.Memory.Tlb.{
  TlbEntry, Policy, Tlb, holds, lookup_loop, get_frame_from_tlb, add_entry, drop_entry, clean_tlb,
  free_process_entries,
}
use sisop_2c.Memory.Tlb.Entries.{
  IsAbsent, IsExact, IsFull, fresh_entry, Taken, here, later, full, taken, take_free-cases,
  IsAbsent-freed, IsAbsent-mine, IsAbsent-drop_first, add_taken,
}

module _ (lib : Lists) {D : Type 0} (dicts : Dictionaries D) (itoa : ℕ → List ℕ) where
  abbrev pub answer : Tlb D → ℕ → ℕ → Option ℕ
  answer t pid page = (get_frame_from_tlb lib dicts itoa t pid page).0

  -- The frame that the loop ends with: the one it starts with where the page is absent.
  loop_absent :
      (policy : Policy) (pid page : ℕ) (es : List TlbEntry) (i : ℕ) (queue : List ℕ)
      (frame : Option ℕ)
      → IsAbsent pid page es
      → (lookup_loop lib policy pid page es i queue frame).1 ≡ frame
  unfolding lookup_loop
  loop_absent policy pid page [] i queue frame h = refl
  loop_absent policy pid page (e ∷ es) i queue frame h =
      loop_absent policy pid page es (i + 1) _ _ h.1
      ∙ ap (λ b. if b then some e.frame else frame) h.0

  loop-Taken :
      (policy : Policy) (pid page frame : ℕ) {es es' : List TlbEntry} (i : ℕ) (queue : List ℕ)
      (before : Option ℕ)
      → Taken (fresh_entry pid page frame) es es'
      → IsAbsent pid page es
      → (lookup_loop lib policy pid page es' i queue before).1 ≡ some frame
  unfolding lookup_loop
  loop-Taken policy pid page frame i queue before (here {e} {es}) h =
      loop_absent policy pid page es (i + 1) _ _ h.1 ∙ found_self
    where
      found_self :
          (if holds pid page (fresh_entry pid page frame) then some frame else before) ≡ some frame
      found_self = ground arith
  loop-Taken policy pid page frame i queue before (later l t) h =
      loop-Taken policy pid page frame (i + 1) _ _ t h.1

  pub answer_loop :
      (t : Tlb D) (pid page : ℕ)
      → answer t pid page ≡ (lookup_loop lib t.policy pid page t.entries 0 t.victim_queue none).1
  unfolding get_frame_from_tlb
  answer_loop t pid page =
      elim (Option-cases (lookup_loop lib t.policy pid page t.entries 0 t.victim_queue none).1) [
        | inl n ↦ shown none n ∙ sym n
        | inr (f, n) ↦ shown (some f) n ∙ sym n
      ]
    where
      shown :
          (r : Option ℕ)
          → (lookup_loop lib t.policy pid page t.entries 0 t.victim_queue none).1 ≡ r
          → answer t pid page ≡ r
      shown none n = rw (n, answer, get_frame_from_tlb) refl
      shown (some f) n = rw (n, answer, get_frame_from_tlb) refl

  -- The frame that the loop ends with does not depend on the victims.
  loop_queue :
      (policy : Policy) (pid page : ℕ) (es : List TlbEntry) (i : ℕ) (queue other : List ℕ)
      (frame : Option ℕ)
      → (lookup_loop lib policy pid page es i queue frame).1
        ≡ (lookup_loop lib policy pid page es i other frame).1
  unfolding lookup_loop
  loop_queue policy pid page [] i queue other frame = refl
  loop_queue policy pid page (e ∷ es) i queue other frame =
      loop_queue policy pid page es (i + 1) _ _ _

  -- A lookup changes no entry, and a second one gives the same answer.
  pub entries-get_frame_from_tlb :
      (t : Tlb D) (pid page : ℕ)
      → (get_frame_from_tlb lib dicts itoa t pid page).1.entries ≡ t.entries
  unfolding get_frame_from_tlb
  entries-get_frame_from_tlb t pid page =
      elim (Option-cases (lookup_loop lib t.policy pid page t.entries 0 t.victim_queue none).1) [
        | inl n ↦ rw (n, get_frame_from_tlb) refl
        | inr (f, n) ↦ rw (n, get_frame_from_tlb) refl
      ]

  policy-get_frame_from_tlb :
      (t : Tlb D) (pid page : ℕ)
      → (get_frame_from_tlb lib dicts itoa t pid page).1.policy ≡ t.policy
  unfolding get_frame_from_tlb
  policy-get_frame_from_tlb t pid page =
      elim (Option-cases (lookup_loop lib t.policy pid page t.entries 0 t.victim_queue none).1) [
        | inl n ↦ rw (n, get_frame_from_tlb) refl
        | inr (f, n) ↦ rw (n, get_frame_from_tlb) refl
      ]

  pub answer_again :
      (t : Tlb D) (pid page : ℕ)
      → answer (get_frame_from_tlb lib dicts itoa t pid page).1 pid page ≡ answer t pid page
  answer_again t pid page =
      answer_loop (get_frame_from_tlb lib dicts itoa t pid page).1 pid page
      ∙ rw (entries-get_frame_from_tlb t pid page, policy-get_frame_from_tlb t pid page)
          (loop_queue t.policy pid page t.entries 0 _ t.victim_queue none)
      ∙ sym (answer_loop t pid page)

  -- The loop ends without a frame only where the page is absent.
  loop_none :
      (policy : Policy) (pid page : ℕ) (es : List TlbEntry) (i : ℕ) (queue : List ℕ)
      (frame : Option ℕ)
      → (lookup_loop lib policy pid page es i queue frame).1 ≡ none
      → (frame ≡ none) × IsAbsent pid page es
  unfolding lookup_loop
  loop_none policy pid page [] i queue frame h = (h, tt)
  loop_none policy pid page (e ∷ es) i queue frame h =
      let (n, a) = loop_none policy pid page es (i + 1) _ _ h in kept (holds pid page e) refl n a
    where
      kept :
          (b : Bool)
          → holds pid page e ≡ b
          → (if b then some e.frame else frame) ≡ none
          → IsAbsent pid page es
          → (frame ≡ none) × IsAbsent pid page (e ∷ es)
      kept true q n a = absurd (apart n)
        where
          apart : some e.frame ≡ none → ⊥
          apart x = cc
      kept false q n a = (n, (q, a))

  pub IsAbsent-answer :
      (t : Tlb D) (pid page : ℕ) → answer t pid page ≡ none → IsAbsent pid page t.entries
  IsAbsent-answer t pid page h =
      (loop_none t.policy pid page t.entries 0 t.victim_queue none
        (sym (answer_loop t pid page) ∙ h)).1

  answer_absent :
      (t : Tlb D) (pid page : ℕ) → IsAbsent pid page t.entries → answer t pid page ≡ none
  answer_absent t pid page h =
      answer_loop t pid page ∙ loop_absent t.policy pid page t.entries 0 t.victim_queue none h

  -- After `freeProcessEntries` the TLB misses every page of the process.
  pub answer-free_process_entries :
      (t : Tlb D) (pid other : ℕ) → answer (free_process_entries t pid) pid other ≡ none
  unfolding free_process_entries
  answer-free_process_entries t pid other =
      answer_absent (free_process_entries t pid) pid other (IsAbsent-mine pid other t.entries)

  -- After `dropEntry` the TLB misses the page, after `freeProcessEntries` every page of the process,
  -- and after `cleanTLB` every page.
  pub freed_misses :
      (t : Tlb D) (pid page : ℕ)
      → IsExact t.entries
      → (answer (drop_entry t pid page) pid page ≡ none)
        × ((other : ℕ) → answer (free_process_entries t pid) pid other ≡ none)
        × ((q r : ℕ) → answer (clean_tlb t) q r ≡ none)
  unfolding drop_entry clean_tlb free_process_entries
  freed_misses t pid page x = (
    answer_absent (drop_entry t pid page) pid page (IsAbsent-drop_first pid page t.entries x),
    λ other. answer-free_process_entries t pid other,
    λ q r. answer_absent (clean_tlb t) q r (IsAbsent-freed q r t.entries),
  )

  -- Where an entry is free, a page that no entry holds is found after `addEntryToTLB`, in the frame it
  -- was given.
  pub added_hits :
      (t : Tlb D) (pid page frame : ℕ)
      → IsAbsent pid page t.entries
      → ¬ IsFull t.entries
      → answer (add_entry lib t pid page frame) pid page ≡ some frame
  added_hits t pid page frame a room =
      elim (take_free-cases (fresh_entry pid page frame) t.entries 0) [
        | taken es' p e k ↦
            answer_loop (add_entry lib t pid page frame) pid page
            ∙ rw (add_taken lib t pid page frame es' p e)
                (loop-Taken (add_entry lib t pid page frame).policy pid page frame 0 _ none k a)
        | full e l ↦ absurd (room l)
      ]
