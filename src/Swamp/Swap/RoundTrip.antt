-- ===== src/Swamp/Swap/RoundTrip.antt =====
-- A page that was saved with global assignment is read back: swamp/src/swap.c and
-- swamp/src/petitionHandlers.c.
use mathlib.Core.Path.{subst}
use sisop_2c.Prelude.{
  ℕ, ◌<◌, ◌≤◌, ◌≡◌, refl, sym, ap, ◌∙◌, ◌⊎◌, inl, inr, Bool, true, false, Option, none, some, List,
  [], ◌∷◌, if◌then◌else◌, ◌==◌, leb, leb→le, arith, length, update, Bool-cases, Option-cases,
  some_injective,
}
use sisop_2c.Shared.Commons.{Lists, first, IsIn, Picks}
use sisop_2c.Swamp.SwapFile.{
  SwapFile, PageMetadata, has_pid, count_free_indexes, get_index, register, write_at_index,
  read_at_index,
}
use sisop_2c.Swamp.SwapFile.Index.{IsValid, Assigned}
use sisop_2c.Swamp.Swap.{
  SwapConfig, Swap, Answer, set_file, store_page, pid_exists, more_free, free_index, or_else,
  global, read_page_of,
}
use sisop_2c.Swamp.Swap.Placing.{first_passes, first_stays, Stored, page-Stored, Assigned-index}

-- Every swap file is valid, and its pages have the size of the contents.
pub record IsSwap (s : Swap) (n : ℕ) : Type 0 where
  pub valid : (a : ℕ) → IsIn a s.swap_files → IsValid (s.store a)
  pub sized : (a : ℕ) → IsIn a s.swap_files → (s.store a).page_size ≡ n

-- What saving does: the page is there, and it is read back.
pub record ReadBack (lib : Lists) (s : Swap) (pid page : ℕ) (content : List ℕ) (r : Bool × Swap)
    : Type 0 where
  pub same_files : r.1.swap_files ≡ s.swap_files
  pub still_valid : (a : ℕ) → IsIn a r.1.swap_files → IsValid (r.1.store a)
  pub read : read_page_of lib r.1 pid page ≡ Answer.page_data content

module _ (beyond : ℕ → PageMetadata) (lib : Lists) (config : SwapConfig) where
  -- The file that the algorithm chooses is in the list, and the first one with the process, if any.
  unfoldable pub Candidate : Swap → ℕ → ℕ → Type 0
  Candidate s pid a =
      (first (λ b. has_pid (s.store b) pid) s.swap_files ≡ some a)
      ⊎ ((first (λ b. has_pid (s.store b) pid) s.swap_files ≡ none) × IsIn a s.swap_files)

  pub Candidate-IsIn : (s : Swap) (pid a : ℕ) → Candidate s pid a → IsIn a s.swap_files
  unfolding Candidate
  Candidate-IsIn s pid a (inl e) = (first_passes _ s.swap_files a e).1
  Candidate-IsIn s pid a (inr (e, h)) = h

  update_other :
      (s : Swap) (a b : ℕ) (sf : SwapFile) → (b == a) ≡ false → update s.store a sf b ≡ s.store b
  update_other s a b sf ne = ap (λ t. if t then sf else s.store b) (turned a b ne)
    where
      turned : (a b : ℕ) → (b == a) ≡ false → (a == b) ≡ false
      turned a b ne = ground arith

  update_here : (s : Swap) (a : ℕ) (sf : SwapFile) → update s.store a sf a ≡ sf
  update_here s a sf = ap (λ t. if t then sf else s.store a) (same a)
    where
      same : (a : ℕ) → (a == a) ≡ true
      same a = ground arith

  stored_read :
      (s : Swap) (pid page a i : ℕ) (content : List ℕ)
      → IsSwap s (length content)
      → Candidate s pid a
      → Assigned (s.store a) pid page i × (i < (s.store a).max_pages)
      → ReadBack lib s pid page content (true, store_page s a i pid page content)
  unfolding Candidate read_page_of pid_exists
  stored_read s pid page a i content v c (assigned, h) = record {
    same_files = refl;
    still_valid = λ b k. valid_at b k (Bool-cases (b == a));
    read =
        ap (λ o. answer o) located
        ∙ ap in_file (update_here s a new)
        ∙ ap page_at t.placed
        ∙ ap Answer.page_data t.kept;
  }
    where
      new : SwapFile
      new = register (write_at_index (s.store a) i content) pid page i

      t : Stored (s.store a) new pid page content
      t =
          page-Stored (s.store a) pid page i content (v.valid a (Candidate-IsIn s pid a c)) assigned
            h (sym (v.sized a (Candidate-IsIn s pid a c)))

      in_file : SwapFile → Answer
      in_file sf = elim (get_index sf pid page) [
        | none ↦ Answer.swap_error
        | some index ↦ Answer.page_data (read_at_index sf index)
      ]

      page_at : Option ℕ → Answer
      page_at none = Answer.swap_error
      page_at (some index) = Answer.page_data (read_at_index new index)

      answer : Option ℕ → Answer
      answer none = Answer.swap_error
      answer (some b) = in_file (update s.store a new b)

      located : pid_exists lib (set_file s a new) pid ≡ some a
      located =
          lib.list_find_lem _ s.swap_files
          ∙ first_stays (λ b. has_pid (s.store b) pid) (λ b. has_pid (update s.store a new b) pid) a
              s.swap_files (ap (λ sf. has_pid sf pid) (update_here s a new) ∙ t.known)
              (λ b ne. ap (λ sf. has_pid sf pid) (update_other s a b new ne)) c

      valid_at :
          (b : ℕ)
          → IsIn b s.swap_files
          → ((b == a) ≡ true) ⊎ ((b == a) ≡ false)
          → IsValid (update s.store a new b)
      valid_at b k (inr ne) = rw (update_other s a b new ne) (v.valid b k)
      valid_at b k (inl e) = rw (equal e) (rw (update_here s a new) t.valid)
        where
          equal : (b == a) ≡ true → b ≡ a
          equal g = ground arith

  Picks-more_free : (s : Swap) → Picks (more_free s) (λ a. count_free_indexes (s.store a))
  Picks-more_free s a b =
      elim (Bool-cases (leb (count_free_indexes (s.store b)) (count_free_indexes (s.store a)))) [
        | inl h ↦ rw h (inl refl, omega arith, leb→le _ _ h)
        | inr h ↦ rw h (inr refl, lower _ _ h, omega arith)
      ]
    where
      lower : (m n : ℕ) → leb m n ≡ false → n ≤ m
      lower m n h = ground arith

  abbrev pub chosen_file : Swap → ℕ → Option ℕ
  chosen_file s pid =
      or_else (pid_exists lib s pid) (lib.list_get_maximum (more_free s) s.swap_files)

  pub from_maximum :
      (s : Swap) (a : ℕ) (xs : List ℕ) → lib.list_get_maximum (more_free s) xs ≡ some a → IsIn a xs
  from_maximum s a [] e = absurd (apart (sym (lib.list_get_maximum_nil (more_free s)) ∙ e))
    where
      apart : none ≡ some a → ⊥
      apart h = cc
  from_maximum s a (x ∷ xs) e =
      let (m, f, h, _) = lib.list_get_maximum_lem (more_free s) _ x xs (Picks-more_free s) in
      subst (λ y. IsIn y (x ∷ xs)) (some_injective (sym f ∙ e)) h

  pub file-Candidate : (s : Swap) (pid a : ℕ) → chosen_file s pid ≡ some a → Candidate s pid a
  unfolding Candidate pid_exists
  file-Candidate s pid a e = elim (Option-cases (pid_exists lib s pid)) [
    | inr (b, f) ↦ inl (
        sym (lib.list_find_lem _ s.swap_files)
        ∙ f
        ∙ sym (ap (λ o. or_else o (lib.list_get_maximum (more_free s) s.swap_files)) f)
        ∙ e)
    | inl f ↦ inr (
      sym (lib.list_find_lem _ s.swap_files) ∙ f,
      from_maximum s a s.swap_files
          (sym (ap (λ o. or_else o (lib.list_get_maximum (more_free s) s.swap_files)) f) ∙ e),
    )
  ]

  -- With valid swap files, a page that the global assignment accepts is read back as it was saved,
  -- and the files stay valid.
  pub read_page_of-global :
      (s : Swap) (pid page : ℕ) (content : List ℕ)
      → IsSwap s (length content)
      → (global beyond lib config s pid page content).0 ≡ true
      → ReadBack lib s pid page content (global beyond lib config s pid page content)
  unfolding global
  read_page_of-global s pid page content v h = elim (Option-cases (chosen_file s pid)) [
    | inl n ↦ absurd (apart (sym (ap (λ r. r.0) (no_file n)) ∙ h))
    | inr (a, f) ↦
        elim (Option-cases
          (or_else (get_index (s.store a) pid page) (free_index beyond (s.store a)))) [
            | inl n ↦ absurd (apart (sym (ap (λ r. r.0) (no_index a f n)) ∙ h))
            | inr (i, g) ↦ rw (stored a i f g) (
                stored_read s pid page a i content v (file-Candidate s pid a f) (
                  Assigned-index beyond (s.store a) pid page i
                    (v.valid a (Candidate-IsIn s pid a (file-Candidate s pid a f))) g))
          ]
  ]
    where
      apart : false ≡ true → ⊥
      apart g = cc

      no_file : chosen_file s pid ≡ none → global beyond lib config s pid page content ≡ (false, s)
      no_file n = rw (n, global) refl

      no_index :
          (a : ℕ)
          → chosen_file s pid ≡ some a
          → or_else (get_index (s.store a) pid page) (free_index beyond (s.store a)) ≡ none
          → global beyond lib config s pid page content ≡ (false, s)
      no_index a f n = rw (f, n, global) refl

      stored :
          (a i : ℕ)
          → chosen_file s pid ≡ some a
          → or_else (get_index (s.store a) pid page) (free_index beyond (s.store a)) ≡ some i
          → global beyond lib config s pid page content ≡ (true, store_page s a i pid page content)
      stored a i f g = rw (f, g, global) refl
