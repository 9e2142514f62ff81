-- ===== src/Swamp/Swap/Others.antt =====
-- Saving a page leaves the pages of all processes in use as they were: swamp/src/swap.c.
use mathlib.Core.Path.{subst}
use sisop_2c.Prelude.{
  ℕ, ◌<◌, ◌≡◌, refl, sym, ap, ◌∙◌, ◌⊎◌, inl, inr, true, false, none, some, List, if◌then◌else◌,
  ◌==◌, arith, length, update, Bool-cases, Option-cases, lt-or-eq-or-gt,
}
use sisop_2c.Shared.Commons.{Lists, IsIn}
use sisop_2c.Swamp.SwapFile.{
  SwapFile, PageMetadata, has_pid, get_index, register, write_at_index, read_at_index,
}
use sisop_2c.Swamp.SwapFile.Index.{Assigned, entry}
use sisop_2c.Swamp.Swap.{
  SwapConfig, Swap, Answer, store_page, pid_exists, free_index, or_else, global, read_page_of,
}
use sisop_2c.Swamp.Swap.Placing.{first_passes, page-Stored, Assigned-index}
use sisop_2c.Swamp.Swap.RoundTrip.{IsSwap, chosen_file, Candidate, file-Candidate, Candidate-IsIn}
use sisop_2c.Swamp.Swap.Keeping.{IsVacant, IsVacant-index, Kept, page-Kept, has_pid-register_ne}

module _ (beyond : ℕ → PageMetadata) (lib : Lists) (config : SwapConfig) where
  -- The page `r` of the process `q` is found in use at index `k` of the file at `b`.
  pub record FoundAt (s : Swap) (q r b k : ℕ) : Type 0 where
    pub file : pid_exists lib s q ≡ some b
    pub index : get_index (s.store b) q r ≡ some k
    pub used : (entry (s.store b) k).used ≡ true

  -- It stays there, and is read as before.
  pub record StaysAt (s s' : Swap) (q r b k : ℕ) : Type 0 where
    pub same_file : pid_exists lib s' q ≡ some b
    pub same_entry : get_index (s'.store b) q r ≡ some k
    pub still_used : (entry (s'.store b) k).used ≡ true
    pub same_read : read_page_of lib s' q r ≡ read_page_of lib s q r

  -- Both files are found, at the same place with the same bytes.
  same_answer :
      (s s' : Swap) (q r b k : ℕ)
      → FoundAt s q r b k
      → pid_exists lib s' q ≡ some b
      → Kept (s.store b) (s'.store b) q r k
      → StaysAt s s' q r b k
  unfolding read_page_of
  same_answer s s' q r b k live file kept = record {
    same_file = file;
    same_entry = kept.same_index;
    still_used = kept.still_used;
    same_read =
        answers s' file kept.same_index
        ∙ ap Answer.page_data kept.same_bytes
        ∙ sym (answers s live.file live.index);
  }
    where
      answers :
          (t : Swap)
          → pid_exists lib t q ≡ some b
          → get_index (t.store b) q r ≡ some k
          → read_page_of lib t q r ≡ Answer.page_data (read_at_index (t.store b) k)
      answers t e f = rw (e, f, read_page_of) refl

  -- The page is saved in the file at `a`, at an index that is its own or free.
  stored_stays :
      (s : Swap) (pid page a i q r b k : ℕ) (content : List ℕ)
      → IsSwap s (length content)
      → IsIn a s.swap_files
      → (has_pid (s.store a) pid ≡ true) ⊎ (pid_exists lib s pid ≡ none)
      → or_else (get_index (s.store a) pid page) (free_index beyond (s.store a)) ≡ some i
      → ((q ≡ pid) × (r ≡ page) → ⊥)
      → FoundAt s q r b k
      → StaysAt s (store_page s a i pid page content) q r b k
  unfolding pid_exists
  stored_stays s pid page a i q r b k content v inside chosen e ne live =
      same_answer s (store_page s a i pid page content) q r b k live
        (ap (λ p. lib.list_find p s.swap_files) (λ j c. same_pid c j) ∙ live.file)
        (kept (Bool-cases (a == b)))
    where
      new : SwapFile
      new = register (write_at_index (s.store a) i content) pid page i

      vacant : IsVacant (s.store a) pid page i
      vacant = IsVacant-index beyond (s.store a) pid page i (v.valid a inside) e

      assigned : Assigned (s.store a) pid page i × (i < (s.store a).max_pages)
      assigned = Assigned-index beyond (s.store a) pid page i (v.valid a inside) e

      known : has_pid new pid ≡ true
      known =
          (page-Stored (s.store a) pid page i content (v.valid a inside) assigned.0 assigned.1
            (sym (v.sized a inside))).known

      apart : none ≡ some b → ⊥
      apart h = cc

      same_here : has_pid new q ≡ has_pid (s.store a) q
      same_here = elim (lt-or-eq-or-gt q pid) [
        | inl l ↦ has_pid-register_ne (s.store a) pid page i q content vacant (λ x. omega arith)
        | inr (inr l) ↦
            has_pid-register_ne (s.store a) pid page i q content vacant (λ x. omega arith)
        | inr (inl x) ↦ elim chosen [
          | inl has ↦ ap (has_pid new) x ∙ known ∙ sym has ∙ ap (has_pid (s.store a)) (sym x)
          | inr absent ↦ absurd (apart (sym absent ∙ ap (pid_exists lib s) (sym x) ∙ live.file))
        ]
      ]

      number : (c d : ℕ) → (c == d) ≡ true → c ≡ d
      number c d h = ground arith

      same_pid : (c : ℕ) → has_pid (update s.store a new c) q ≡ has_pid (s.store c) q
      same_pid c = elim (Bool-cases (a == c)) [
        | inl h ↦
            ap (λ t. has_pid (if t then new else s.store c) q) h
            ∙ same_here
            ∙ ap (λ d. has_pid (s.store d) q) (number a c h)
        | inr h ↦ ap (λ t. has_pid (if t then new else s.store c) q) h
      ]

      kept :
          ((a == b) ≡ true) ⊎ ((a == b) ≡ false) → Kept (s.store b) (update s.store a new b) q r k
      kept (inr h) =
          subst (λ t. Kept (s.store b) (if t then new else s.store b) q r k) (sym h)
            (record { same_index = live.index; still_used = live.used; same_bytes = refl })
      kept (inl h) =
          subst (λ t. Kept (s.store b) (if t then new else s.store b) q r k) (sym h)
            (subst (λ d. Kept (s.store d) new q r k) (number a b h)
              (page-Kept (s.store a) pid page i q r k content assigned.0 vacant
                (sym (v.sized a inside))
                (subst (λ d. get_index (s.store d) q r ≡ some k) (sym (number a b h)) live.index)
                (subst (λ d. (entry (s.store d) k).used ≡ true) (sym (number a b h)) live.used) ne))

  -- Saving a page with global assignment, whether it is accepted or not, leaves every other page in
  -- use where it was, still in use, and read as before. The swap files are valid, and their pages
  -- have the size of the content.
  pub global-StaysAt :
      (s : Swap) (pid page q r b k : ℕ) (content : List ℕ)
      → IsSwap s (length content)
      → ((q ≡ pid) × (r ≡ page) → ⊥)
      → pid_exists lib s q ≡ some b
      → get_index (s.store b) q r ≡ some k
      → (entry (s.store b) k).used ≡ true
      → StaysAt s (global beyond lib config s pid page content).1 q r b k
  unfolding global Candidate pid_exists
  global-StaysAt s pid page q r b k content v ne file index used =
      elim (Option-cases (chosen_file beyond lib config s pid)) [
        | inl n ↦ subst (λ t. StaysAt s t.1 q r b k) (sym (no_file n)) unchanged
        | inr (a, f) ↦
            elim (Option-cases
              (or_else (get_index (s.store a) pid page) (free_index beyond (s.store a)))) [
                | inl n ↦ subst (λ t. StaysAt s t.1 q r b k) (sym (no_index a f n)) unchanged
                | inr (i, g) ↦
                    subst (λ t. StaysAt s t.1 q r b k) (sym (stored a i f g))
                      (stored_stays s pid page a i q r b k content v
                        (Candidate-IsIn beyond lib config s pid a
                          (file-Candidate beyond lib config s pid a f))
                        (owner a (file-Candidate beyond lib config s pid a f)) g ne live)
              ]
      ]
    where
      live : FoundAt s q r b k
      live = record { file = file; index = index; used = used }

      unchanged : StaysAt s s q r b k
      unchanged = record {
        same_file = file;
        same_entry = index;
        still_used = used;
        same_read = refl;
      }

      no_file :
          chosen_file beyond lib config s pid ≡ none
          → global beyond lib config s pid page content ≡ (false, s)
      no_file n = rw (n, global) refl

      no_index :
          (a : ℕ)
          → chosen_file beyond lib config s pid ≡ some a
          → or_else (get_index (s.store a) pid page) (free_index beyond (s.store a)) ≡ none
          → global beyond lib config s pid page content ≡ (false, s)
      no_index a f n = rw (f, n, global) refl

      stored :
          (a i : ℕ)
          → chosen_file beyond lib config s pid ≡ some a
          → or_else (get_index (s.store a) pid page) (free_index beyond (s.store a)) ≡ some i
          → global beyond lib config s pid page content ≡ (true, store_page s a i pid page content)
      stored a i f g = rw (f, g, global) refl

      owner :
          (a : ℕ)
          → Candidate beyond lib config s pid a
          → (has_pid (s.store a) pid ≡ true)
            ⊎ (lib.list_find (λ c. has_pid (s.store c) pid) s.swap_files ≡ none)
      owner a (inl e) = inl (first_passes _ s.swap_files a e).0
      owner a (inr (e, _)) = inr (lib.list_find_lem _ s.swap_files ∙ e)
