-- ===== src/Memory/Heap/Writing.antt =====
-- `heap_write` writes the heap as one array of bytes: memory/src/petitionHandlers.c.
use sisop_2c.Prelude.{
  ℕ, zero, suc, ◌+◌, ◌-◌, ◌*◌, ◌/◌, ◌%◌, ◌≤◌, ◌<◌, ◌≡◌, ◌≢◌, refl, sym, ap, ap₂, ◌∙◌, inl, inr,
  Option, some, List, [], ◌∷◌, ◌++◌, arith, length, take, drop, overwrite, bind-some, same_number,
  other_number, lt-or-eq-or-gt, take_whole, length-take, length-drop, take-append-drop,
}
use sisop_2c.Memory.Heap.{Pager, write_extent, write_pages, heap_write}
use sisop_2c.Memory.Heap.Pieces.{flat, tail_size, tail_size_lem}
use sisop_2c.Memory.Heap.Overwrites.{
  overwrite_none, overwrite-append, overwrite-append_left, flat-same, overwrite-flat,
}
use sisop_2c.Memory.Heap.Flat.{Contents, IsPaging, heap_bytes, stretch_lem, gap}

module _ {M : Type 0} (pager : Pager M) (page_size pid : ℕ) (c : Contents M)
    (paging : IsPaging pager page_size pid c)
    (start_page start_offset finish_page finish_offset : ℕ) where
  loop : ℕ → ℕ → List ℕ → M → Option M
  loop rounds i content m =
      write_pages pager page_size start_page start_offset finish_page finish_offset pid rounds i
        content m

  -- A round of the loop, when the page takes `len` bytes at `offset`.
  record Round (m : M) (i offset len rounds : ℕ) (content : List ℕ) : Type 0 where
    next : M
    steps : loop (suc rounds) i content m ≡ loop rounds (i + 1) (drop len content) next
    good : c.IsGood next
    same_pages : c.pages next ≡ c.pages m
    page : c.view next i ≡ overwrite (c.view m i) offset (take len content)
    others : (j : ℕ) → j ≢ i → c.view next j ≡ c.view m j

  round_lem :
      (m : M) (i offset len rounds : ℕ) (content : List ℕ)
      → c.IsGood m
      → i < c.pages m
      → write_extent pager page_size start_page start_offset finish_page finish_offset i
        ≡ (offset, len)
      → len ≤ length content
      → offset + len ≤ page_size
      → Round m i offset len rounds content
  unfolding loop write_pages
  round_lem m i offset len rounds content g h e enough fits =
      let (frame, m1, found, same, bytes) = paging.serves m i g h in
      let (good, pages, page, others) =
        paging.edits m m1 i frame offset (take len content) g h found
          (omega (arith, length-take len content enough)) in
      record {
        next = pager.edit_frame m1 offset frame (take len content);
        steps =
            bind-some _ found
            ∙ ap
                (λ x.
                  write_pages pager page_size start_page start_offset finish_page finish_offset pid
                    rounds (i + 1) (drop x.1 content)
                    (pager.edit_frame m1 x.0 frame (take x.1 content)))
                e;
        good = good;
        same_pages = pages;
        page = page;
        others = others;
      }

  -- The rounds behind the first page write the pages from their first byte on.
  record Behind (m : M) (i rounds n : ℕ) (content : List ℕ) : Type 0 where
    after : M
    result : loop rounds i content m ≡ some after
    good : c.IsGood after
    same_pages : c.pages after ≡ c.pages m
    before : (j : ℕ) → j < i → c.view after j ≡ c.view m j
    written : flat (c.view after) i n ≡ overwrite (flat (c.view m) i n) 0 content

  first_extent :
      write_extent pager page_size start_page start_offset finish_page finish_offset start_page
      ≡ (start_offset, page_size - start_offset)
  first_extent = rw (same_number start_page start_page refl) refl

  middle_extent :
      (i : ℕ)
      → i ≢ start_page
      → i ≢ finish_page
      → write_extent pager page_size start_page start_offset finish_page finish_offset i
        ≡ (0, page_size)
  middle_extent i s f = rw (other_number i start_page s, other_number i finish_page f) refl

  last_extent :
      (i : ℕ)
      → i ≢ start_page
      → i ≡ finish_page
      → write_extent pager page_size start_page start_offset finish_page finish_offset i
        ≡ (0, finish_offset + 1)
  last_extent i s f = rw (other_number i start_page s, same_number i finish_page f) refl

  -- A round and those behind it, where the round fills the rest of its page.
  join :
      (m : M) (i offset len rounds n : ℕ) (content : List ℕ)
      → c.IsGood m
      → i + suc n ≡ c.pages m
      → (r : Round m i offset len rounds content) → len ≤ length content
      → offset + len ≡ page_size
      → Behind r.next (i + 1) rounds n (drop len content)
      → (after : M) × (loop (suc rounds) i content m ≡ some after)
        × c.IsGood after
        × (c.pages after ≡ c.pages m)
        × ((j : ℕ) → j < i → c.view after j ≡ c.view m j)
        × (flat (c.view after) i (suc n) ≡ overwrite (flat (c.view m) i (suc n)) offset content)
  join m i offset len rounds n content g inside r enough full b = (
    b.after,
    r.steps ∙ b.result,
    b.good,
    b.same_pages ∙ r.same_pages,
    λ j h. b.before j (omega arith) ∙ r.others j (λ e. omega arith),
    ap₂ (◌++◌) (b.before i (omega arith) ∙ r.page) (
          b.written
          ∙ ap (λ xs. overwrite xs 0 (drop len content))
              (flat-same (c.view m) (c.view r.next) (i + 1) n
                (λ j h. r.others j (λ e. omega arith))))
        ∙ sym (
            overwrite-append (c.view m i) (flat (c.view m) (i + 1) n) offset (take len content)
              (drop len content)
              (omega (arith, length-take len content enough, paging.sized m i g (omega arith))))
        ∙ ap (overwrite (flat (c.view m) i (suc n)) offset) (take-append-drop len content),
  )

  write-Behind :
      (rounds i n : ℕ) (content : List ℕ) (m : M)
      → c.IsGood m
      → i + rounds ≡ finish_page + 1
      → start_page < i
      → i + n ≡ c.pages m
      → rounds ≤ n
      → finish_offset < page_size
      → length content ≡ tail_size page_size finish_offset rounds
      → Behind m i rounds n content
  unfolding loop write_pages
  write-Behind zero i n [] m g e s p h f sized = record {
    after = m;
    result = refl;
    good = g;
    same_pages = refl;
    before = λ j k. refl;
    written = sym (overwrite_none (flat (c.view m) i n) 0);
  }
  write-Behind zero i n (b ∷ bs) m g e s p h f sized = absurd (omega arith)
  write-Behind (suc rounds) i zero content m g e s p h f sized = absurd (omega arith)
  write-Behind (suc zero) i (suc n) content m g e s p h f sized =
      let r =
        round_lem m i 0 (finish_offset + 1) zero content g (omega arith)
          (last_extent i (λ k. omega arith) (omega arith)) (omega arith) (omega arith) in
      record {
        after = r.next;
        result = r.steps;
        good = r.good;
        same_pages = r.same_pages;
        before = λ j k. r.others j (λ l. omega arith);
        written =
            ap₂ (◌++◌) r.page (
              flat-same (c.view m) (c.view r.next) (i + 1) n (λ j k. r.others j (λ l. omega arith)))
            ∙ sym (
                overwrite-append_left (c.view m i) (flat (c.view m) (i + 1) n) 0
                  (take (finish_offset + 1) content)
                  (omega (
                    arith,
                    length-take (finish_offset + 1) content (omega arith),
                    paging.sized m i g (omega arith),
                  )))
            ∙ ap (overwrite (flat (c.view m) i (suc n)) 0)
                (take_whole (finish_offset + 1) content (omega arith));
      }
  write-Behind (suc (suc rounds)) i (suc n) content m g e s p h f sized =
      let r =
        round_lem m i 0 page_size (suc rounds) content g (omega arith)
          (middle_extent i (λ k. omega arith) (λ k. omega arith)) (omega arith) (omega arith) in
      let (after, result, good, pages, before, written) =
        join m i 0 page_size (suc rounds) n content g p r (omega arith) (omega arith) (
          write-Behind (suc rounds) (i + 1) n (drop page_size content) r.next r.good (omega arith)
            (omega arith) (omega (arith, r.same_pages)) (omega arith) f
            (omega (arith, length-drop page_size content))) in
      record {
        after = after;
        result = result;
        good = good;
        same_pages = pages;
        before = before;
        written = written;
      }

  -- A write over `suc (suc rounds)` pages.
  crossing :
      (m : M) (rounds n : ℕ) (content : List ℕ)
      → c.IsGood m
      → start_page + suc rounds ≡ finish_page
      → finish_page < c.pages m
      → start_offset < page_size
      → finish_offset < page_size
      → n ≡ suc (suc rounds)
      → length content ≡ (page_size - start_offset) + tail_size page_size finish_offset (suc rounds)
      → (m' : M) × (loop n start_page content m ≡ some m')
        × c.IsGood m'
        × (c.pages m' ≡ c.pages m)
        × (heap_bytes c m'
            ≡ overwrite (heap_bytes c m) (start_page * page_size + start_offset) content)
  crossing m rounds n content g last inside so fo fuel e =
      let r =
        round_lem m start_page start_offset (page_size - start_offset) (suc rounds) content g
          (omega arith) first_extent (omega arith) (omega arith) in
      let (after, result, good, pages, before, written) =
        join m start_page start_offset (page_size - start_offset) (suc rounds)
          (c.pages m - start_page - 1) content g (omega arith) r (omega arith) (omega arith)
          (write-Behind (suc rounds) (start_page + 1) (c.pages m - start_page - 1)
            (drop (page_size - start_offset) content) r.next r.good (omega arith) (omega arith)
            (omega (arith, r.same_pages)) (omega arith) fo
            (omega (arith, length-drop (page_size - start_offset) content))) in
      (
        after,
        ap (λ k. loop k start_page content m) fuel ∙ result,
        good,
        pages,
        ap (flat (c.view after) 0) pages
            ∙ overwrite-flat page_size (c.view m) (c.view after) start_page 0
                (suc (c.pages m - start_page - 1)) start_offset (c.pages m)
                (start_page * page_size + start_offset) start_page content (omega arith) refl
                (omega arith) (λ j h. paging.sized m j g (omega arith)) before written,
      )

module _ {M : Type 0} (pager : Pager M) (page_size pid : ℕ) (c : Contents M)
    (paging : IsPaging pager page_size pid c) where
  -- A write in one page.
  inside_page :
      (m m1 : M) (page frame offset : ℕ) (bytes : List ℕ)
      → c.IsGood m
      → page < c.pages m
      → pager.get_frame m pid page ≡ some (frame, m1)
      → offset + length bytes ≤ page_size
      → c.IsGood (pager.edit_frame m1 offset frame bytes)
        × (c.pages (pager.edit_frame m1 offset frame bytes) ≡ c.pages m)
        × (heap_bytes c (pager.edit_frame m1 offset frame bytes)
            ≡ overwrite (heap_bytes c m) (page * page_size + offset) bytes)
  inside_page m m1 page frame offset bytes g h found fits =
      let (good, pages, written, others) =
        paging.edits m m1 page frame offset bytes g h found fits in
      let long = paging.sized m page g h in
      (
        good,
        pages,
        ap (flat (c.view (pager.edit_frame m1 offset frame bytes)) 0) pages
            ∙ overwrite-flat page_size (c.view m) (c.view (pager.edit_frame m1 offset frame bytes))
                page 0 (suc (c.pages m - page - 1)) offset (c.pages m) (page * page_size + offset)
                page bytes (omega arith) refl (omega arith)
                (λ j k. paging.sized m j g (omega arith)) (λ j k. others j (λ e. omega arith))
                (ap₂ (◌++◌) written (
                    flat-same (c.view m) (c.view (pager.edit_frame m1 offset frame bytes))
                      (page + 1) (c.pages m - page - 1) (λ j k. others j (λ e. omega arith)))
                  ∙ sym
                      (overwrite-append_left (c.view m page) _ offset bytes (omega (arith, long)))),
      )

  -- A write to the heap: if the pager gives a process its pages, then `heap_write` returns, keeps
  -- the number of pages, and makes the process's heap, as one array of bytes, what a copy of the
  -- content to the address makes of it, however many pages it lies in. The content is not empty, and
  -- lies in the heap.
  pub heap_write_lem :
      (m : M) (address : ℕ) (content : List ℕ)
      → c.IsGood m
      → 0 < page_size
      → 0 < length content
      → address + length content ≤ c.pages m * page_size
      → (m' : M) × (heap_write pager page_size m pid address (length content) content ≡ some m')
        × c.IsGood m'
        × (c.pages m' ≡ c.pages m)
        × (heap_bytes c m' ≡ overwrite (heap_bytes c m) address content)
  unfolding heap_write loop
  heap_write_lem m address content g p z h =
      let size = length content in
      let t = stretch_lem page_size (c.pages m) address size p z h in
      elim (lt-or-eq-or-gt (address / page_size) ((address + size - 1) / page_size)) [
        | inl less ↦
            (let (m1, got, good, pages, written) =
                crossing pager page_size pid c paging (address / page_size) (address % page_size)
                  ((address + size - 1) / page_size) ((address + size - 1) % page_size) m
                  ((address + size - 1) / page_size - address / page_size - 1)
                  ((address + size - 1) / page_size + 1 - address / page_size) content g
                  (omega arith) t.in_heap t.start_inside t.finish_inside (omega arith)
                  (omega (
                    arith,
                    t.start_eq,
                    t.finish_eq,
                    t.start_inside,
                    gap page_size (address / page_size) ((address + size - 1) / page_size)
                        ((address + size - 1) / page_size - address / page_size - 1) (omega arith),
                    tail_size_lem page_size ((address + size - 1) % page_size)
                        ((address + size - 1) / page_size - address / page_size - 1),
                  )) in
              (
                m1,
                rw
                    (
                      other_number (address / page_size) ((address + size - 1) / page_size)
                          (λ e. omega arith),
                      heap_write,
                    )
                    got,
                good,
                pages,
                written ∙ ap (λ at. overwrite (heap_bytes c m) at content) t.start_eq,
              ))
        | inr (inl e) ↦
            (let (frame, m1, found, same, bytes) =
                paging.serves m (address / page_size) g (omega (arith, e, t.in_heap)) in
              let (good, pages, written) =
                inside_page m m1 (address / page_size) frame (address % page_size) content g
                  (omega (arith, e, t.in_heap)) found
                  (omega
                    (arith, ap (λ k. k * page_size) e, t.start_eq, t.finish_eq, t.finish_inside)) in
              (
                _,
                rw
                    (
                      same_number (address / page_size) ((address + size - 1) / page_size) e,
                      heap_write,
                    )
                    (bind-some _ found
                      ∙ ap (λ bs. some (pager.edit_frame m1 (address % page_size) frame bs))
                          (take_whole size content (omega arith))),
                good,
                pages,
                written ∙ ap (λ at. overwrite (heap_bytes c m) at content) t.start_eq,
              ))
        | inr (inr more) ↦ absurd (omega (arith, t.in_order))
      ]
