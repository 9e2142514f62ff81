-- ===== src/Memory/Petitions/Ending.antt =====
-- A process that ends: `capiTermHandler` of memory/src/petitionHandlers.c.
use sisop_2c.Prelude.{
  ℕ, zero, suc, ◌≤◌, ◌<◌, ◌≡◌, ◌≢◌, refl, sym, ap, ◌∙◌, inl, inr, true, false, none, some, List,
  if◌then◌else◌, arith, length, get_or, modify, length-modify, get_or-modify_self, get_or-modify_ne,
  get_or_beyond, Bool-cases, bind-some, lt-or-eq-or-gt,
}
use sisop_2c.Shared.Commons.{Lists, Dictionaries}
use sisop_2c.Shared.Networking.{Header, empty_packet}
use sisop_2c.Memory.Tlb.Lookup.{answer, answer-free_process_entries}
use sisop_2c.Memory.Frames.{MemoryConfig, Frame, blank}
use sisop_2c.Memory.Paging.{SwapServer, absent_entry}
use sisop_2c.Memory.Access.{Assignment, Replacement, Memory}
use sisop_2c.Memory.Petitions.{
  release, table_of, erase_and_release, erase_pages, dismiss, capi_term,
}
use sisop_2c.Memory.Petitions.Leaving.{present_at, is_free_at}

-- What ending the process `pid` with the table at `a` does: it has no page table, and the TLB misses
-- its pages; the frames that its pages were in are free; a process whose PID has another text has the
-- page table it had.
pub record Ended {D S : Type 0} (lib : Lists) (dicts : Dictionaries D) (itoa : ℕ → List ℕ)
    (m : Memory D S) (pid a : ℕ) (m' : Memory D S) : Type 0 where
  pub no_table : dicts.dictionary_get m'.paged.page_tables (itoa pid) ≡ none
  pub misses : (page : ℕ) → answer lib dicts itoa m'.paged.tlb pid page ≡ none
  pub released :
      (i : ℕ)
      → present_at m a i ≡ true
      → is_free_at m' (get_or (m.paged.tables a).entries i absent_entry).frame ≡ true
  pub other_tables :
      (q : ℕ)
      → itoa pid ≢ itoa q
      → dicts.dictionary_get m'.paged.page_tables (itoa q)
        ≡ dicts.dictionary_get m.paged.page_tables (itoa q)
  pub same_tables : m'.paged.tables ≡ m.paged.tables
  pub same_ram : m'.paged.ram ≡ m.paged.ram

freed_frame : Frame → Frame
freed_frame e = record e { is_free = true }

-- A frame that is released is free, and one that was free stays so.
is_free-modify_self :
    (frames : List Frame) (f : ℕ)
    → (get_or (modify frames f (λ e. record e { is_free = true })) f blank).is_free ≡ true
is_free-modify_self frames f = elim (lt-or-eq-or-gt f (length frames)) [
  | inl inside ↦
      ap (λ x. x.is_free)
        (get_or-modify_self frames f (λ e. record e { is_free = true }) blank inside)
  | inr (inl l) ↦ beyond (omega (arith, length-modify frames f (λ e. record e { is_free = true })))
  | inr (inr l) ↦ beyond (omega (arith, length-modify frames f (λ e. record e { is_free = true })))
]
  where
    beyond :
        length (modify frames f (λ e. record e { is_free = true })) ≤ f
        → (get_or (modify frames f (λ e. record e { is_free = true })) f blank).is_free ≡ true
    beyond l =
        ap (λ x. x.is_free)
          (get_or_beyond (modify frames f (λ e. record e { is_free = true })) f blank l)

is_free-modify :
    (frames : List Frame) (f g : ℕ)
    → (get_or frames g blank).is_free ≡ true
    → (get_or (modify frames f (λ e. record e { is_free = true })) g blank).is_free ≡ true
is_free-modify frames f g h = elim (lt-or-eq-or-gt f g) [
  | inr (inl e) ↦
      ap (λ n. (get_or (modify frames f (λ e. record e { is_free = true })) n blank).is_free)
        (sym e)
      ∙ is_free-modify_self frames f
  | inl l ↦
      ap (λ x. x.is_free)
        (get_or-modify_ne frames f g (λ e. record e { is_free = true }) blank (λ k. omega arith))
      ∙ h
  | inr (inr l) ↦
      ap (λ x. x.is_free)
        (get_or-modify_ne frames f g (λ e. record e { is_free = true }) blank (λ k. omega arith))
      ∙ h
]

module _ {D S : Type 0} (lib : Lists) (dicts : Dictionaries D) (string_itoa : ℕ → List ℕ)
    (server : SwapServer S) (config : MemoryConfig) (assignment : Assignment)
    (replacement : Replacement) (pid a : ℕ) where
  erased_pages : ℕ → Memory D S → Memory D S
  erased_pages rounds m =
      erase_pages lib dicts string_itoa server config assignment replacement pid a rounds m

  erased_page : Memory D S → ℕ → Memory D S
  erased_page m i =
      erase_and_release lib dicts string_itoa server config assignment replacement m pid a i

  -- What the loop leaves alone, and the frames it frees.
  record Erased (m : Memory D S) (rounds : ℕ) (m' : Memory D S) : Type 0 where
    same_dictionary : m'.paged.page_tables ≡ m.paged.page_tables
    same_tables : m'.paged.tables ≡ m.paged.tables
    same_ram : m'.paged.ram ≡ m.paged.ram
    still_free : (f : ℕ) → is_free_at m f ≡ true → is_free_at m' f ≡ true
    freed :
        (i : ℕ)
        → i < rounds
        → present_at m a i ≡ true
        → is_free_at m' (get_or (m.paged.tables a).entries i absent_entry).frame ≡ true

  page_free :
      (m : Memory D S) (i : ℕ)
      → present_at m a i ≡ true
      → is_free_at (erased_page m i) (get_or (m.paged.tables a).entries i absent_entry).frame ≡ true
  unfolding erased_page
  page_free m i h =
      ap
        (λ b.
          (get_or (if b then release m.paged.metadata f else m.paged.metadata).frames f
            blank).is_free)
        h
      ∙ is_free-modify_self m.paged.metadata.frames f
    where
      f : ℕ
      f = (get_or (m.paged.tables a).entries i absent_entry).frame

  page_keeps :
      (m : Memory D S) (i g : ℕ) → is_free_at m g ≡ true → is_free_at (erased_page m i) g ≡ true
  unfolding erased_page
  page_keeps m i g h = elim (Bool-cases (present_at m a i)) [
    | inl here ↦
        ap
          (λ b.
            (get_or (if b then release m.paged.metadata f else m.paged.metadata).frames g
              blank).is_free)
          here
        ∙ is_free-modify m.paged.metadata.frames f g h
    | inr gone ↦
        ap
          (λ b.
            (get_or (if b then release m.paged.metadata f else m.paged.metadata).frames g
              blank).is_free)
          gone
        ∙ h
  ]
    where
      f : ℕ
      f = (get_or (m.paged.tables a).entries i absent_entry).frame

  erase_pages-Erased : (rounds : ℕ) (m : Memory D S) → Erased m rounds (erased_pages rounds m)
  unfolding erased_pages erase_pages erased_page
  erase_pages-Erased zero m = record {
    same_dictionary = refl;
    same_tables = refl;
    same_ram = refl;
    still_free = λ f h. h;
    freed = λ i h k. absurd (omega arith);
  }
  erase_pages-Erased (suc rounds) m =
      let r = erase_pages-Erased rounds (erased_page m rounds) in
      record {
        same_dictionary = r.same_dictionary;
        same_tables = r.same_tables;
        same_ram = r.same_ram;
        still_free = λ f h. r.still_free f (page_keeps m rounds f h);
        freed = λ i h k. elim (lt-or-eq-or-gt i rounds) [
          | inl less ↦ r.freed i less k
          | inr (inl e) ↦
              ap
                (λ n.
                  is_free_at (erased_pages rounds (erased_page m rounds))
                    (get_or (m.paged.tables a).entries n absent_entry).frame)
                e
              ∙ r.still_free _ (page_free m rounds (ap (present_at m a) (sym e) ∙ k))
          | inr (inr more) ↦ absurd (omega arith)
        ];
      }

  -- Ending a process that has a page table answers OK; afterwards the process has no page table and
  -- the TLB misses its pages, the frames that its pages were in are free, and the page tables of the
  -- processes whose PID has another text are found as before.
  pub capi_term-Ended :
      (m : Memory D S)
      → table_of lib dicts string_itoa server config assignment replacement m pid ≡ some a
      → (m' : Memory D S) × (capi_term lib dicts string_itoa server config assignment replacement m
            pid
          ≡ some (empty_packet Header.ok, m'))
        × Ended lib dicts string_itoa m pid a m'
  unfolding capi_term erased_pages
  capi_term-Ended m found =
      let n = length (m.paged.tables a).entries in
      let r = erase_pages-Erased n m in
      let out = erased_pages n m in
      (
        dismiss lib dicts string_itoa server config assignment replacement out pid,
        bind-some _ found,
        record {
          no_table = dicts.dictionary_get-remove_self out.paged.page_tables (string_itoa pid);
          misses = answer-free_process_entries lib dicts string_itoa out.paged.tlb pid;
          released = λ i h. elim (lt-or-eq-or-gt i n) [
            | inl less ↦ r.freed i less h
            | inr (inl e) ↦ absurd (missing i (omega arith) h)
            | inr (inr more) ↦ absurd (missing i (omega arith) h)
          ];
          other_tables = λ q ne.
              dicts.dictionary_get-remove_ne out.paged.page_tables (string_itoa pid) (string_itoa q)
                ne
              ∙ ap (λ d. dicts.dictionary_get d (string_itoa q)) r.same_dictionary;
          same_tables = r.same_tables;
          same_ram = r.same_ram;
        },
      )
    where
      missing : (i : ℕ) → length (m.paged.tables a).entries ≤ i → present_at m a i ≡ true → ⊥
      missing i h k = clash (
          sym (ap (λ x. x.present) (get_or_beyond (m.paged.tables a).entries i absent_entry h)) ∙ k)
        where
          clash : false ≡ true → ⊥
          clash e = cc
