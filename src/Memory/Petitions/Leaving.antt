-- ===== src/Memory/Petitions/Leaving.antt =====
-- A process that is suspended or ends: `suspendHandler` and `capiTermHandler` of
-- memory/src/petitionHandlers.c.
use mathlib.Core.Path.{subst}
use sisop_2c.Prelude.{
  ℕ, zero, suc, ◌+◌, ◌≤◌, ◌<◌, ◌≡◌, ◌≢◌, refl, sym, ap, ◌∙◌, inl, inr, Bool, false, Option, none,
  some, List, [], ◌∷◌, if◌then◌else◌, ◌==◌, arith, length, get_or, modify, map, update,
  length-modify, get_or-modify_self, get_or-modify_ne, get_or_beyond, Bool-cases, bind-some,
  other_number, same_number, lt-or-eq-or-gt,
}
use sisop_2c.Shared.Commons.{Lists, Dictionaries}
use sisop_2c.Memory.Tlb.Lookup.{answer, answer-free_process_entries}
use sisop_2c.Memory.Frames.{MemoryConfig, blank, nobody, blocks_of}
use sisop_2c.Memory.Paging.{PageTable, PageTableEntry, SwapServer, absent_entry, set_page}
use sisop_2c.Memory.Access.{Assignment, Replacement, Memory}
use sisop_2c.Memory.Petitions.{
  release_blocks, table_of, suspend_present, suspend_page, suspend_pages, forget_process,
  suspend_process,
}

-- Whether a page is in memory, by the table at `a`.
abbrev pub present_at : {D S : Type 0} → Memory D S → ℕ → ℕ → Bool
present_at m a i = (get_or (m.paged.tables a).entries i absent_entry).present

abbrev pub is_free_at : {D S : Type 0} → Memory D S → ℕ → Bool
is_free_at m frame = (get_or m.paged.metadata.frames frame blank).is_free

-- What suspending the process `pid` with the table at `a` does: none of its pages is in memory, and
-- neither the TLB nor a block of frames is its own; its number of pages, the other page tables and
-- the bytes in memory stay.
pub record Suspended {D S : Type 0} (lib : Lists) (dicts : Dictionaries D) (itoa : ℕ → List ℕ)
    (m : Memory D S) (pid a : ℕ) (m' : Memory D S) : Type 0 where
  pub absent : (i : ℕ) → present_at m' a i ≡ false
  pub same_pages : length (m'.paged.tables a).entries ≡ length (m.paged.tables a).entries
  pub same_tables : (b : ℕ) → b ≢ a → m'.paged.tables b ≡ m.paged.tables b
  pub misses : (page : ℕ) → answer lib dicts itoa m'.paged.tlb pid page ≡ none
  pub no_block : (i : ℕ) → get_or (blocks_of m'.paged.metadata.first_frame) i nobody ≢ pid
  pub same_ram : m'.paged.ram ≡ m.paged.ram

-- The part of it that the loop does, on the pages below `i`.
record Emptied {D S : Type 0} (m : Memory D S) (a i : ℕ) (m' : Memory D S) : Type 0 where
  absent : (j : ℕ) → j < i → present_at m' a j ≡ false
  same_pages : length (m'.paged.tables a).entries ≡ length (m.paged.tables a).entries
  same_tables : (b : ℕ) → b ≢ a → m'.paged.tables b ≡ m.paged.tables b
  same_ram : m'.paged.ram ≡ m.paged.ram

update_self : (t : ℕ → PageTable) (a : ℕ) (v : PageTable) → update t a v a ≡ v
update_self t a v = ap (λ b. if b then v else t a) (same_number a a refl)

update_ne : (t : ℕ → PageTable) (a : ℕ) (v : PageTable) (b : ℕ) → b ≢ a → update t a v b ≡ t b
update_ne t a v b ne = ap (λ c. if c then v else t b) (other_number a b (λ e. ne (sym e)))

freed_block :
    (pid : ℕ) (blocks : List ℕ) (i : ℕ)
    → pid ≢ nobody
    → get_or (map (λ b. if b == pid then nobody else b) blocks) i nobody ≢ pid
freed_block pid [] i ne e = ne (sym e)
freed_block pid (b ∷ bs) zero ne e = elim (Bool-cases (b == pid)) [
  | inl same ↦ ne (sym e ∙ ap (λ c. if c then nobody else b) same)
  | inr other ↦ clash other (sym (ap (λ c. if c then nobody else b) other) ∙ e)
]
  where
    clash : (b == pid) ≡ false → b ≡ pid → ⊥
    clash other e = ground arith
freed_block pid (b ∷ bs) (suc i) ne e = freed_block pid bs i ne e

-- The page `i` leaves the table.
absent-set_page :
    (es : List PageTableEntry) (i j : ℕ) (e : PageTableEntry)
    → e.present ≡ false
    → ((k : ℕ) → k < i → (get_or es k absent_entry).present ≡ false)
    → j < i + 1
    → (get_or (modify es i (λ _. e)) j absent_entry).present ≡ false
absent-set_page es i j e off below h = elim (lt-or-eq-or-gt j i) [
  | inl less ↦
      ap (λ x. x.present) (get_or-modify_ne es i j (λ _. e) absent_entry (λ k. omega arith))
      ∙ below j less
  | inr (inl k) ↦ elim (lt-or-eq-or-gt i (length es)) [
    | inl inside ↦
        ap (λ n. (get_or (modify es i (λ _. e)) n absent_entry).present) k
        ∙ ap (λ x. x.present) (get_or-modify_self es i (λ _. e) absent_entry inside)
        ∙ off
    | inr (inl l) ↦ beyond (omega (arith, length-modify es i (λ _. e)))
    | inr (inr l) ↦ beyond (omega (arith, length-modify es i (λ _. e)))
  ]
  | inr (inr more) ↦ absurd (omega arith)
]
  where
    beyond :
        length (modify es i (λ _. e)) ≤ j
        → (get_or (modify es i (λ _. e)) j absent_entry).present ≡ false
    beyond l = ap (λ x. x.present) (get_or_beyond (modify es i (λ _. e)) j absent_entry l)

module _ {D S : Type 0} (lib : Lists) (dicts : Dictionaries D) (string_itoa : ℕ → List ℕ)
    (server : SwapServer S) (config : MemoryConfig) (assignment : Assignment)
    (replacement : Replacement) (pid a : ℕ) where
  suspended_page : Memory D S → ℕ → Memory D S
  suspended_page m i =
      suspend_page lib dicts string_itoa server config assignment replacement m pid a i

  suspended_pages : ℕ → ℕ → Memory D S → Memory D S
  suspended_pages rounds i m =
      suspend_pages lib dicts string_itoa server config assignment replacement pid a rounds i m

  -- A round of the loop.
  suspend_page-Emptied :
      (m m0 : Memory D S) (i : ℕ) → Emptied m0 a i m → Emptied m0 a (i + 1) (suspended_page m i)
  unfolding suspended_page
  suspend_page-Emptied m m0 i e = elim (Bool-cases (present_at m a i)) [
    | inl here ↦
        subst (λ b. Emptied m0 a (i + 1) (if b then saved else m)) (sym here)
          (record {
            absent = λ j h.
                ap (λ t. (get_or t.entries j absent_entry).present)
                  (update_self m.paged.tables a left)
                ∙ absent-set_page (m.paged.tables a).entries i j (record entry { present = false })
                    refl e.absent h;
            same_pages =
                ap (λ t. length t.entries) (update_self m.paged.tables a left)
                ∙ length-modify (m.paged.tables a).entries i (λ _. record entry { present = false })
                ∙ e.same_pages;
            same_tables = λ b ne. update_ne m.paged.tables a left b ne ∙ e.same_tables b ne;
            same_ram = e.same_ram;
          })
    | inr gone ↦
        subst (λ b. Emptied m0 a (i + 1) (if b then saved else m)) (sym gone)
          (record {
            absent = λ j h. elim (lt-or-eq-or-gt j i) [
              | inl less ↦ e.absent j less
              | inr (inl k) ↦ ap (present_at m a) k ∙ gone
              | inr (inr more) ↦ absurd (omega arith)
            ];
            same_pages = e.same_pages;
            same_tables = e.same_tables;
            same_ram = e.same_ram;
          })
  ]
    where
      entry : PageTableEntry
      entry = get_or (m.paged.tables a).entries i absent_entry

      left : PageTable
      left = set_page (m.paged.tables a) i (record entry { present = false })

      saved : Memory D S
      saved =
          suspend_present lib dicts string_itoa server config assignment replacement m pid a i entry

  suspend_pages-Emptied :
      (rounds i : ℕ) (m m0 : Memory D S)
      → Emptied m0 a i m
      → Emptied m0 a (i + rounds) (suspended_pages rounds i m)
  unfolding suspended_pages suspend_pages suspended_page
  suspend_pages-Emptied zero i m m0 e =
      subst (λ n. Emptied m0 a n m) {x = i} {y = i + 0} (omega arith) e
  suspend_pages-Emptied (suc rounds) i m m0 e =
      subst (λ n. Emptied m0 a n (suspended_pages rounds (i + 1) (suspended_page m i)))
        {x = i + 1 + rounds} {y = i + suc rounds} (omega arith)
        (suspend_pages-Emptied rounds (i + 1) (suspended_page m i) m0
          (suspend_page-Emptied m m0 i e))

  -- Suspending a process that has a page table empties its pages from memory: afterwards none of
  -- them is present, the TLB misses all of them, and no block of frames is the process's; the number
  -- of its pages, the other page tables and the bytes in memory are as before. The PID is not the
  -- number that stands for no process.
  pub suspend_process-Suspended :
      (m : Memory D S)
      → table_of lib dicts string_itoa server config assignment replacement m pid ≡ some a
      → pid ≢ nobody
      → (m' : Memory D S) × (suspend_process lib dicts string_itoa server config assignment
            replacement m pid
          ≡ some m')
        × Suspended lib dicts string_itoa m pid a m'
  unfolding suspend_process suspended_pages
  suspend_process-Suspended m found ne =
      let n = length (m.paged.tables a).entries in
      let e = suspend_pages-Emptied n 0 m m (record {
        absent = λ j h. absurd (omega arith);
        same_pages = refl;
        same_tables = λ b k. refl;
        same_ram = refl;
      }) in
      let out = suspended_pages n 0 m in
      (
        forget_process lib dicts string_itoa server config assignment replacement out pid,
        bind-some _ found,
        record {
          absent = λ i. elim (lt-or-eq-or-gt i n) [
            | inl less ↦ e.absent i (omega arith)
            | inr (inl k) ↦ missing out i (omega (arith, e.same_pages))
            | inr (inr more) ↦ missing out i (omega (arith, e.same_pages))
          ];
          same_pages = e.same_pages;
          same_tables = e.same_tables;
          misses = answer-free_process_entries lib dicts string_itoa out.paged.tlb pid;
          no_block = blocks out.paged.metadata.first_frame;
          same_ram = e.same_ram;
        },
      )
    where
      missing :
          (out : Memory D S) (i : ℕ)
          → length (out.paged.tables a).entries ≤ i
          → present_at out a i ≡ false
      missing out i h =
          ap (λ x. x.present) (get_or_beyond (out.paged.tables a).entries i absent_entry h)

      blocks :
          (first_frame : Option (List ℕ)) (i : ℕ)
          → get_or (blocks_of (release_blocks pid first_frame)) i nobody ≢ pid
      blocks none i e = ne (sym e)
      blocks (some bs) i e = freed_block pid bs i ne e
