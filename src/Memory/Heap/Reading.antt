-- ===== src/Memory/Heap/Reading.antt =====
-- `heap_read` reads the heap as one array of bytes: memory/src/petitionHandlers.c.
use sisop_2c.Prelude.{
  same_number, other_number, lt-or-eq-or-gt, take-append_left, drop-append_left, length-drop,
  bind-some, ℕ, zero, suc, ◌+◌, ◌-◌, ◌*◌, ◌/◌, ◌%◌, ◌≤◌, ◌<◌, ◌≡◌, refl, sym, ap, ap₂, ◌∙◌, inl,
  inr, some, List, ◌++◌, arith, take, drop, slice,
}
use sisop_2c.Memory.Heap.{Pager, read_piece, read_pages, heap_read}
use sisop_2c.Memory.Heap.Pieces.{pieces, tail_size, tail_size_lem, pieces_lem, drop-flat}
use sisop_2c.Memory.Heap.Flat.{Contents, Same, IsPaging, heap_bytes, Same-trans, stretch_lem, gap}

module _ {M : Type 0} (pager : Pager M) (page_size pid : ℕ) (c : Contents M)
    (paging : IsPaging pager page_size pid c) where
  -- The loop copies its pieces of the pages as they were at first.
  read_pages_lem :
      (start_page start_offset finish_page finish_offset rounds i : ℕ) (m : M) (view : ℕ → List ℕ)
      → c.IsGood m
      → ((j : ℕ) → c.view m j ≡ view j)
      → i + rounds ≤ c.pages m
      → (m' : M) × (read_pages pager page_size start_page start_offset finish_page finish_offset pid
            rounds i m
          ≡ some (
            pieces pager page_size start_page start_offset finish_page finish_offset view rounds i,
            m',
          ))
        × Same c m m'
  unfolding read_pages
  read_pages_lem start_page start_offset finish_page finish_offset zero i m view g v h =
      (m, refl, record { good = g; same_pages = refl; same_view = λ j. refl })
  read_pages_lem start_page start_offset finish_page finish_offset (suc rounds) i m view g v h =
      let (frame, m1, found, same, bytes) = paging.serves m i g (omega arith) in
      let (m2, rest, same2) =
        read_pages_lem start_page start_offset finish_page finish_offset rounds (i + 1) m1 view
          same.good (λ j. same.same_view j ∙ v j) (omega (arith, same.same_pages)) in
      (
        m2,
        bind-some _ found
            ∙ bind-some _ rest
            ∙ ap
                (λ bs. some (
                  read_piece pager page_size start_page start_offset finish_page finish_offset i bs
                      ++ pieces pager page_size start_page start_offset finish_page finish_offset
                          view rounds (i + 1),
                  m2,
                ))
                (bytes ∙ v i),
        Same-trans same same2,
      )

  -- A read over `suc (suc rounds)` pages.
  crossing :
      (m : M) (start_page start_offset finish_page finish_offset rounds n size : ℕ)
      → c.IsGood m
      → start_page + suc rounds ≡ finish_page
      → finish_page < c.pages m
      → start_offset < page_size
      → finish_offset < page_size
      → n ≡ suc (suc rounds)
      → size ≡ (page_size - start_offset) + tail_size page_size finish_offset (suc rounds)
      → (m' : M) × (read_pages pager page_size start_page start_offset finish_page finish_offset pid
            n start_page m
          ≡ some (slice (heap_bytes c m) (start_page * page_size + start_offset) size, m'))
        × Same c m m'
  crossing m start_page start_offset finish_page finish_offset rounds n size g last inside so fo
        fuel e =
      let (m1, got, same) =
        read_pages_lem start_page start_offset finish_page finish_offset (suc (suc rounds))
          start_page m (c.view m) g (λ j. refl) (omega arith) in
      (
        m1,
        ap
              (λ k.
                read_pages pager page_size start_page start_offset finish_page finish_offset pid k
                  start_page m)
              fuel
            ∙ got
            ∙ ap (λ bs. some (bs, m1))
                (pieces_lem pager page_size start_page start_offset finish_page finish_offset
                    (c.view m) rounds (c.pages m - start_page - 1) last (omega arith) so fo
                    (λ j h. paging.sized m j g (omega arith))
                  ∙ ap₂ take (sym e) (
                      sym (
                        drop-flat page_size (c.view m) start_page 0
                          (suc (c.pages m - start_page - 1)) start_offset (c.pages m)
                          (start_page * page_size + start_offset) start_page (omega arith) refl
                          (omega arith) (λ j h. paging.sized m j g (omega arith))))),
        same,
      )

  -- A read in one page.
  inside_page :
      (m : M) (page offset size : ℕ)
      → c.IsGood m
      → page < c.pages m
      → offset + size ≤ page_size
      → (frame : ℕ) × (m' : M) × (pager.get_frame m pid page ≡ some (frame, m'))
        × (slice (pager.frame_bytes m' frame) offset size
            ≡ slice (heap_bytes c m) (page * page_size + offset) size)
        × Same c m m'
  inside_page m page offset size g h fits =
      let (frame, m1, found, same, bytes) = paging.serves m page g h in
      let long = paging.sized m page g h in
      (
        frame,
        m1,
        found,
        ap (λ bs. slice bs offset size) bytes
            ∙ sym (
                ap (take size) (
                  drop-flat page_size (c.view m) page 0 (suc (c.pages m - page - 1)) offset
                    (c.pages m) (page * page_size + offset) page (omega arith) refl (omega arith)
                    (λ j k. paging.sized m j g (omega arith))
                  ∙ drop-append_left offset (c.view m page) _ (omega (arith, long)))
                ∙ take-append_left size (drop offset (c.view m page)) _
                    (omega (arith, long, length-drop offset (c.view m page)))),
        same,
      )

  -- A read of the heap: if the pager gives a process its pages, then `heap_read` returns the bytes
  -- of the process's heap, as one array, from the address on, however many pages they lie in, and
  -- leaves what the process sees as it was. The size is at least 1, and the bytes lie in the heap.
  pub heap_read_lem :
      (m : M) (address size : ℕ)
      → c.IsGood m
      → 0 < page_size
      → 0 < size
      → address + size ≤ c.pages m * page_size
      → (m' : M) × (heap_read pager page_size m pid address size
          ≡ some (slice (heap_bytes c m) address size, m'))
        × Same c m m'
  unfolding heap_read
  heap_read_lem m address size g p z h =
      let t = stretch_lem page_size (c.pages m) address size p z h in
      elim (lt-or-eq-or-gt (address / page_size) ((address + size - 1) / page_size)) [
        | inl less ↦
            (let (m1, got, same) =
                crossing m (address / page_size) (address % page_size)
                  ((address + size - 1) / page_size) ((address + size - 1) % page_size)
                  ((address + size - 1) / page_size - address / page_size - 1)
                  ((address + size - 1) / page_size + 1 - address / page_size) size g (omega arith)
                  t.in_heap t.start_inside t.finish_inside (omega arith)
                  (omega (
                    arith,
                    t.start_eq,
                    t.finish_eq,
                    t.start_inside,
                    gap page_size (address / page_size) ((address + size - 1) / page_size)
                        ((address + size - 1) / page_size - address / page_size - 1) (omega arith),
                    tail_size_lem page_size ((address + size - 1) % page_size)
                        ((address + size - 1) / page_size - address / page_size - 1),
                  )) in
              (
                m1,
                rw
                    (
                      other_number (address / page_size) ((address + size - 1) / page_size)
                          (λ e. omega arith),
                      heap_read,
                    )
                    (got ∙ ap (λ at. some (slice (heap_bytes c m) at size, m1)) t.start_eq),
                same,
              ))
        | inr (inl e) ↦
            (let (frame, m1, found, bytes, same) =
                inside_page m (address / page_size) (address % page_size) size g
                  (omega (arith, e, t.in_heap))
                  (omega
                    (arith, ap (λ k. k * page_size) e, t.start_eq, t.finish_eq, t.finish_inside)) in
              (
                m1,
                rw
                    (
                      same_number (address / page_size) ((address + size - 1) / page_size) e,
                      heap_read,
                    )
                    (bind-some _ found
                      ∙ ap (λ bs. some (bs, m1)) bytes
                      ∙ ap (λ at. some (slice (heap_bytes c m) at size, m1)) t.start_eq),
                same,
              ))
        | inr (inr more) ↦ absurd (omega (arith, t.in_order))
      ]
