-- ===== src/Memory/Access/Present.antt =====
-- A page that is in memory is served without the swap server.
use sisop_2c.Prelude.{
  ℕ, ◌+◌, ◌%◌, ◌^◌, ◌<◌, ◌≡◌, ◌≢◌, refl, ap, ◌∙◌, ◌⊎◌, inl, inr, true, Option, none, some, List,
  arith, length, get_or, modify, length-modify, get_or-modify_self, get_or-modify_ne,
}
use sisop_2c.Shared.Commons.{Lists, Dictionaries}
use sisop_2c.Memory.Tlb.{Tlb, get_frame_from_tlb, add_entry}
use sisop_2c.Memory.Tlb.Entries.{IsFull}
use sisop_2c.Memory.Tlb.Lookup.{
  answer, added_hits, answer_again, IsAbsent-answer, entries-get_frame_from_tlb,
}
use sisop_2c.Memory.Frames.{MemoryConfig, Frame, blank, update_timestamp}
use sisop_2c.Memory.Paging.{Paged, SwapServer, absent_entry, get_page_table}
use sisop_2c.Memory.Access.{
  Assignment, Replacement, Memory, touched, get_frame_of, get_frame_missed, get_frame,
}

abbrev pub frame_at : {D S : Type 0} → Memory D S → ℕ → Frame
frame_at m frame = get_or m.paged.metadata.frames frame blank

-- The time stamp that `updateTimestamp` gives.
abbrev pub next_stamp : {D S : Type 0} → Memory D S → ℕ
next_stamp m = (m.paged.metadata.counter + 1) % 2 ^ 32

-- The result is the frame; it is marked as used and has a new time stamp, other frames are as before,
-- and the TLB knows the page. The memory, the page tables and the swap server are as before.
pub record Served {D S : Type 0} (lib : Lists) (dicts : Dictionaries D) (itoa : ℕ → List ℕ)
    (m : Memory D S) (pid page frame : ℕ) (r : Option (ℕ × Memory D S)) : Type 0 where
  pub after : Memory D S
  pub result : r ≡ some (frame, after)
  pub touched_frame :
      frame_at after frame ≡ record (frame_at m frame) { u = true; time_stamp = next_stamp m }
  pub counted : after.paged.metadata.counter ≡ next_stamp m
  pub other_frames : (i : ℕ) → frame ≢ i → frame_at after i ≡ frame_at m i
  pub found_again : answer lib dicts itoa after.paged.tlb pid page ≡ some frame
  pub same_ram : after.paged.ram ≡ m.paged.ram
  pub same_tables : after.paged.tables ≡ m.paged.tables
  pub same_swap : after.paged.swap ≡ m.paged.swap

abbrev used : Frame → Frame
used e = record e { u = true }

abbrev stamped : ℕ → Frame → Frame
stamped c e = record e { time_stamp = c }

module _ {D S : Type 0} (lib : Lists) (dicts : Dictionaries D) (string_itoa : ℕ → List ℕ)
    (server : SwapServer S) (config : MemoryConfig) (assignment : Assignment)
    (replacement : Replacement) (m : Memory D S) (pid page a : ℕ) where
  -- The memory after the lookup in the TLB.
  looked_up : Memory D S
  looked_up = record m {
    paged = record m.paged {
      tlb = (get_frame_from_tlb lib dicts string_itoa m.paged.tlb pid page).1;
    };
  }

  in_table : ℕ
  in_table = (get_or (m.paged.tables a).entries page absent_entry).frame

  served : Paged D S
  served =
      touched lib dicts string_itoa server config assignment replacement looked_up.paged in_table

  missed :
      (get_frame_from_tlb lib dicts string_itoa m.paged.tlb pid page).0 ≡ none
      → get_page_table lib dicts string_itoa server config m.paged pid ≡ some a
      → get_frame lib dicts string_itoa server config assignment replacement m pid page
        ≡ get_frame_of lib dicts string_itoa server config assignment replacement looked_up pid page
            a
  unfolding looked_up get_frame get_frame_missed get_page_table
  missed h t = rw (h, t, get_frame, get_frame_missed) refl

  tabled :
      (get_or (m.paged.tables a).entries page absent_entry).present ≡ true
      → get_frame_of lib dicts string_itoa server config assignment replacement looked_up pid page a
        ≡ some (
          in_table,
          record looked_up {
            paged = record served { tlb = add_entry lib served.tlb pid page in_table };
          },
        )
  unfolding looked_up in_table served get_frame_of update_timestamp add_entry
  tabled p = rw (p, get_frame_of) refl

  -- The result is the frame, whatever the TLB has room for; its entries are the old ones, or the page
  -- was added to them.
  pub record Found : Type 0 where
    pub found : Memory D S
    pub result :
        get_frame lib dicts string_itoa server config assignment replacement m pid page
        ≡ some ((get_or (m.paged.tables a).entries page absent_entry).frame, found)
    pub same_ram : found.paged.ram ≡ m.paged.ram
    pub same_tables : found.paged.tables ≡ m.paged.tables
    pub same_dictionary : found.paged.page_tables ≡ m.paged.page_tables
    pub before : Tlb D
    pub same_before : before.entries ≡ m.paged.tlb.entries
    pub entries_after :
        (found.paged.tlb.entries ≡ before.entries)
        ⊎ (found.paged.tlb.entries
            ≡ (add_entry lib before pid page
                (get_or (m.paged.tables a).entries page absent_entry).frame).entries)

  pub get_frame-Found :
      get_page_table lib dicts string_itoa server config m.paged pid ≡ some a
      → (get_or (m.paged.tables a).entries page absent_entry).present ≡ true
      → (answer lib dicts string_itoa m.paged.tlb pid page ≡ none)
        ⊎ (answer lib dicts string_itoa m.paged.tlb pid page
            ≡ some (get_or (m.paged.tables a).entries page absent_entry).frame)
      → Found
  unfolding looked_up in_table served get_frame update_timestamp
  get_frame-Found t p (inr h) = record {
    found = record looked_up { paged = served };
    result = rw (h, get_frame) refl;
    same_ram = refl;
    same_tables = refl;
    same_dictionary = refl;
    before = looked_up.paged.tlb;
    same_before = entries-get_frame_from_tlb lib dicts string_itoa m.paged.tlb pid page;
    entries_after = inl refl;
  }
  get_frame-Found t p (inl h) = record {
    found = record looked_up {
      paged = record served { tlb = add_entry lib served.tlb pid page in_table };
    };
    result = missed h t ∙ tabled p;
    same_ram = refl;
    same_tables = refl;
    same_dictionary = refl;
    before = looked_up.paged.tlb;
    same_before = entries-get_frame_from_tlb lib dicts string_itoa m.paged.tlb pid page;
    entries_after = inr refl;
  }

  -- What `touched` does to the metadata.
  marked :
      (f : ℕ)
      → f < length m.paged.metadata.frames
      → get_or (modify (modify m.paged.metadata.frames f used) f (stamped (next_stamp m))) f blank
        ≡ record (frame_at m f) { u = true; time_stamp = next_stamp m }
  marked f h =
      get_or-modify_self (modify m.paged.metadata.frames f used) f (stamped (next_stamp m)) blank
        (omega (arith, length-modify m.paged.metadata.frames f used))
      ∙ ap (stamped (next_stamp m)) (get_or-modify_self m.paged.metadata.frames f used blank h)

  unmarked :
      (f i : ℕ)
      → f ≢ i
      → get_or (modify (modify m.paged.metadata.frames f used) f (stamped (next_stamp m))) i blank
        ≡ frame_at m i
  unmarked f i ne =
      get_or-modify_ne (modify m.paged.metadata.frames f used) f i (stamped (next_stamp m)) blank ne
      ∙ get_or-modify_ne m.paged.metadata.frames f i used blank ne

  -- If the page table of the process says that a page is in a frame, and the TLB knows that frame, or
  -- misses the page and has a free entry, then `getFrame` returns the frame. The frame is then marked
  -- as used, its time stamp is the next value of the counter, which wraps, and no other frame's entry
  -- changes; the TLB knows the page; and neither the bytes of the memory, nor the page tables, nor the
  -- swap server change.
  pub get_frame-Served :
      get_page_table lib dicts string_itoa server config m.paged pid ≡ some a
      → (get_or (m.paged.tables a).entries page absent_entry).present ≡ true
      → (get_or (m.paged.tables a).entries page absent_entry).frame < length m.paged.metadata.frames
      → ((answer lib dicts string_itoa m.paged.tlb pid page ≡ none) × ¬ IsFull m.paged.tlb.entries)
        ⊎ (answer lib dicts string_itoa m.paged.tlb pid page
            ≡ some (get_or (m.paged.tables a).entries page absent_entry).frame)
      → Served lib dicts string_itoa m pid page
          (get_or (m.paged.tables a).entries page absent_entry).frame
          (get_frame lib dicts string_itoa server config assignment replacement m pid page)
  unfolding looked_up in_table served get_frame update_timestamp
  get_frame-Served t p f (inr h) = record {
    after = record looked_up { paged = served };
    result = rw (h, get_frame) refl;
    touched_frame = marked in_table f;
    counted = refl;
    other_frames = unmarked in_table;
    found_again = answer_again lib dicts string_itoa m.paged.tlb pid page ∙ h;
    same_ram = refl;
    same_tables = refl;
    same_swap = refl;
  }
  get_frame-Served t p f (inl (h, room)) = record {
    after = record looked_up {
      paged = record served { tlb = add_entry lib served.tlb pid page in_table };
    };
    result = missed h t ∙ tabled p;
    touched_frame = marked in_table f;
    counted = refl;
    other_frames = unmarked in_table;
    found_again =
        added_hits lib dicts string_itoa looked_up.paged.tlb pid page in_table
          (IsAbsent-answer lib dicts string_itoa looked_up.paged.tlb pid page
            (answer_again lib dicts string_itoa m.paged.tlb pid page ∙ h))
          (λ full.
            room (
              rw (← (entries-get_frame_from_tlb lib dicts string_itoa m.paged.tlb pid page)) full));
    same_ram = refl;
    same_tables = refl;
    same_swap = refl;
  }
