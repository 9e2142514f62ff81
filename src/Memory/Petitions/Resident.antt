-- ===== src/Memory/Petitions/Resident.antt =====
-- A process whose pages are all in memory, and what its pager does then: `getFrame` and
-- `ram_editFrame` of memory/src/memory.c as the heap calls them.
use mathlib.Core.Path.{subst}
use Prim.Native.Nat.{min}
use native.Mathlib.Nat.{suc-mul, mul-le-mul_right}
use sisop_2c.Prelude.{
  ℕ, suc, ◌+◌, ◌-◌, ◌*◌, ◌≤◌, ◌<◌, ◌≡◌, ◌≢◌, refl, sym, ap, ◌∙◌, ◌⊎◌, inl, inr, true, some, List,
  [], ◌∷◌, false, ltb, if◌then◌else◌, arith, length, get_or, slice, overwrite, length-slice,
  length-overwrite, slice-overwrite_before, slice-overwrite_after, slice-overwrite_inside, All,
  some_injective, lt-or-eq-or-gt,
}
use sisop_2c.Shared.Commons.{Lists, Dictionaries}
use sisop_2c.Memory.Tlb.{TlbEntry}
use sisop_2c.Memory.Tlb.Agreement.{Knows, All-add_entry, answer-Knows}
use sisop_2c.Memory.Tlb.Entries.{fresh_entry}
use sisop_2c.Memory.Frames.{MemoryConfig, ram_edit_frame}
use sisop_2c.Memory.Paging.{PageTable, SwapServer, absent_entry, get_page_table}
use sisop_2c.Memory.Access.{Assignment, Replacement, Memory}
use sisop_2c.Memory.Access.Present.{Found, get_frame-Found}
use sisop_2c.Memory.Heap.Flat.{Contents, IsPaging}
use sisop_2c.Memory.Petitions.{memory_pager, table_of}

-- The frame of page `i`.
abbrev pub frame_of : PageTable → ℕ → ℕ
frame_of pt i = (get_or pt.entries i absent_entry).frame

-- The entry of the TLB agrees with the page table of the process.
abbrev pub Agrees : ℕ → PageTable → TlbEntry → Type 0
Agrees pid pt e = (i : ℕ) → i < length pt.entries → Knows pid i (frame_of pt i) e

-- A new entry for page `j` agrees with the table.
fresh-Agrees :
    (pid : ℕ) (pt : PageTable) (j : ℕ) → Agrees pid pt (fresh_entry pid j (frame_of pt j))
fresh-Agrees pid pt j i h k = let e : j ≡ i = ground arith in rw e refl

All-Knows :
    (pid : ℕ) (pt : PageTable) (i : ℕ) (es : List TlbEntry)
    → i < length pt.entries
    → All (Agrees pid pt) es
    → All (Knows pid i (frame_of pt i)) es
All-Knows pid pt i [] h a = tt
All-Knows pid pt i (e ∷ es) h a = (a.0 i h, All-Knows pid pt i es h a.1)

-- Two frames lie apart.
apart_frames : (f g size : ℕ) → f ≢ g → (f * size + size ≤ g * size) ⊎ (g * size + size ≤ f * size)
apart_frames f g size ne = elim (lt-or-eq-or-gt f g) [
  | inl less ↦ inl (omega (arith, suc-mul f size, mul-le-mul_right {m = suc f} {n = g} size less))
  | inr (inl e) ↦ absurd (ne e)
  | inr (inr more) ↦
      inr (omega (arith, suc-mul g size, mul-le-mul_right {m = suc g} {n = f} size more))
]

lt-or-ge : (i n : ℕ) → (i < n) ⊎ (n ≤ i)
lt-or-ge i n = elim (lt-or-eq-or-gt i n) [
  | inl less ↦ inl less
  | inr (inl e) ↦ inr (omega arith)
  | inr (inr more) ↦ inr (omega arith)
]

module _ {D S : Type 0} (lib : Lists) (dicts : Dictionaries D) (string_itoa : ℕ → List ℕ)
    (server : SwapServer S) (config : MemoryConfig) (assignment : Assignment)
    (replacement : Replacement) (pid a : ℕ) where
  -- The process has its page table at `a`; all its pages are present, in different frames inside of the
  -- memory; and no entry of the TLB says otherwise.
  pub record IsResident (m : Memory D S) : Type 0 where
    pub has_table :
        table_of lib dicts string_itoa server config assignment replacement m pid ≡ some a
    pub present :
        (i : ℕ)
        → i < length (m.paged.tables a).entries
        → (get_or (m.paged.tables a).entries i absent_entry).present ≡ true
    pub inside :
        (i : ℕ)
        → i < length (m.paged.tables a).entries
        → frame_of (m.paged.tables a) i * config.page_size + config.page_size ≤ length m.paged.ram
    pub different :
        (i j : ℕ)
        → i < length (m.paged.tables a).entries
        → j < length (m.paged.tables a).entries
        → i ≢ j
        → frame_of (m.paged.tables a) i ≢ frame_of (m.paged.tables a) j
    pub agreed : All (Agrees pid (m.paged.tables a)) m.paged.tlb.entries

  -- The bytes of the frame that page `i` is in.
  abbrev stored : Memory D S → ℕ → List ℕ
  stored m i = slice m.paged.ram (frame_of (m.paged.tables a) i * config.page_size) config.page_size

  -- The pages of the process are the bytes of their frames.
  abbrev pub resident : Contents (Memory D S)
  resident = record {
    IsGood = IsResident;
    pages = λ m. length (m.paged.tables a).entries;
    view = λ m i. if ltb i (length (m.paged.tables a).entries) then stored m i else [];
  }

  located :
      (m : Memory D S) (i : ℕ)
      → IsResident m
      → i < length (m.paged.tables a).entries
      → Found lib dicts string_itoa server config assignment replacement m pid i a
  located m i r h =
      get_frame-Found lib dicts string_itoa server config assignment replacement m pid i a
        r.has_table (r.present i h)
        (answer-Knows lib dicts string_itoa m.paged.tlb pid i (frame_of (m.paged.tables a) i)
          (All-Knows pid (m.paged.tables a) i m.paged.tlb.entries h r.agreed))

  still_agreed :
      (m : Memory D S) (i : ℕ) (r : IsResident m)
      (f : Found lib dicts string_itoa server config assignment replacement m pid i a)
      → All (Agrees pid (m.paged.tables a)) f.found.paged.tlb.entries
  still_agreed m i r f =
      let old : All (Agrees pid (m.paged.tables a)) f.before.entries = rw f.same_before r.agreed in
      elim f.entries_after [
        | inl e ↦ rw e old
        | inr e ↦ rw e (
            All-add_entry (Agrees pid (m.paged.tables a)) lib f.before pid i
              (frame_of (m.paged.tables a) i) (fresh-Agrees pid (m.paged.tables a) i) old)
      ]

  found-IsResident :
      (m : Memory D S) (i : ℕ) (r : IsResident m)
      (f : Found lib dicts string_itoa server config assignment replacement m pid i a)
      → IsResident f.found
  unfolding get_page_table
  found-IsResident m i r f = record {
    has_table = rw f.same_dictionary r.has_table;
    present = rw f.same_tables r.present;
    inside = rw (f.same_tables, f.same_ram) r.inside;
    different = rw f.same_tables r.different;
    agreed = rw f.same_tables (still_agreed m i r f);
  }

  abbrev written : Memory D S → ℕ → ℕ → List ℕ → Memory D S
  written = (memory_pager lib dicts string_itoa server config assignment replacement).edit_frame

  page_edited :
      (m : Memory D S) (i frame offset : ℕ) (bytes : List ℕ)
      → frame ≡ frame_of (m.paged.tables a) i
      → offset + length bytes ≤ config.page_size
      → stored (written m offset frame bytes) i ≡ overwrite (stored m i) offset bytes
  unfolding ram_edit_frame
  page_edited m i frame offset bytes e h = rw e (
      slice-overwrite_inside m.paged.ram (frame_of (m.paged.tables a) i * config.page_size)
        config.page_size offset bytes h)

  page_kept :
      (m : Memory D S) (j frame offset : ℕ) (bytes : List ℕ)
      → offset + length bytes ≤ config.page_size
      → frame ≢ frame_of (m.paged.tables a) j
      → stored (written m offset frame bytes) j ≡ stored m j
  unfolding ram_edit_frame
  page_kept m j frame offset bytes h ne =
      elim (apart_frames frame (frame_of (m.paged.tables a) j) config.page_size ne) [
        | inl e ↦ slice-overwrite_after m.paged.ram _ bytes _ config.page_size (omega arith)
        | inr e ↦ slice-overwrite_before m.paged.ram _ bytes _ config.page_size (omega arith)
      ]

  written-IsResident :
      (m : Memory D S) (frame offset : ℕ) (bytes : List ℕ)
      → IsResident m
      → IsResident (written m offset frame bytes)
  unfolding ram_edit_frame get_page_table
  written-IsResident m frame offset bytes r = record {
    has_table = r.has_table;
    present = r.present;
    inside = λ i h. omega (
      arith,
      r.inside i h,
      length-overwrite m.paged.ram (frame * config.page_size + offset) bytes,
    );
    different = r.different;
    agreed = r.agreed;
  }

  found_view :
      (m : Memory D S) (i : ℕ)
      (f : Found lib dicts string_itoa server config assignment replacement m pid i a) (j : ℕ)
      → resident.view f.found j ≡ resident.view m j
  found_view m i f j = rw (f.same_tables, f.same_ram) refl

  stored_view : (m : Memory D S) (i : ℕ) → i < resident.pages m → resident.view m i ≡ stored m i
  stored_view m i h = let e : ltb i (resident.pages m) ≡ true = ground arith in rw e refl

  no_view : (m : Memory D S) (i : ℕ) → resident.pages m ≤ i → resident.view m i ≡ []
  no_view m i h = let e : ltb i (resident.pages m) ≡ false = ground arith in rw e refl

  found_pages :
      (m : Memory D S) (i : ℕ)
      (f : Found lib dicts string_itoa server config assignment replacement m pid i a)
      → resident.pages f.found ≡ resident.pages m
  found_pages m i f = rw f.same_tables refl

  found_frame :
      (m : Memory D S) (i : ℕ)
      (f : Found lib dicts string_itoa server config assignment replacement m pid i a) (j : ℕ)
      → frame_of (m.paged.tables a) j ≡ frame_of (f.found.paged.tables a) j
  found_frame m i f j = rw f.same_tables refl

  -- What `IsPaging` says of a write to the frame that was found.
  abbrev Edited : Memory D S → ℕ → ℕ → List ℕ → ℕ × Memory D S → Type 0
  Edited m i offset bytes r =
      IsResident (written r.1 offset r.0 bytes)
      × (resident.pages (written r.1 offset r.0 bytes) ≡ resident.pages m)
      × (resident.view (written r.1 offset r.0 bytes) i
          ≡ overwrite (resident.view m i) offset bytes)
      × ((j : ℕ) → j ≢ i → resident.view (written r.1 offset r.0 bytes) j ≡ resident.view m j)

  other_view :
      (m : Memory D S) (i offset : ℕ) (bytes : List ℕ) (r : IsResident m)
      → i < resident.pages m
      → offset + length bytes ≤ config.page_size
      → (f : Found lib dicts string_itoa server config assignment replacement m pid i a) (j : ℕ)
      → j ≢ i
      → resident.view (written f.found offset (frame_of (m.paged.tables a) i) bytes) j
        ≡ resident.view m j
  other_view m i offset bytes r h fits f j ne = elim (lt-or-ge j (resident.pages m)) [
    | inl k ↦
        stored_view (written f.found offset (frame_of (m.paged.tables a) i) bytes) j
          (omega (arith, k, found_pages m i f))
        ∙ page_kept f.found j (frame_of (m.paged.tables a) i) offset bytes fits
            (λ e. r.different i j h k (λ q. ne (sym q)) (e ∙ sym (found_frame m i f j)))
        ∙ sym (stored_view f.found j (omega (arith, k, found_pages m i f)))
        ∙ found_view m i f j
    | inr k ↦
        no_view (written f.found offset (frame_of (m.paged.tables a) i) bytes) j
          (omega (arith, k, found_pages m i f))
        ∙ sym (no_view m j k)
  ]

  edited :
      (m : Memory D S) (i offset : ℕ) (bytes : List ℕ) (r : IsResident m)
      → i < resident.pages m
      → offset + length bytes ≤ config.page_size
      → (f : Found lib dicts string_itoa server config assignment replacement m pid i a)
      → Edited m i offset bytes (frame_of (m.paged.tables a) i, f.found)
  edited m i offset bytes r h fits f = (
    written-IsResident f.found (frame_of (m.paged.tables a) i) offset bytes
        (found-IsResident m i r f),
    found_pages m i f,
    stored_view (written f.found offset (frame_of (m.paged.tables a) i) bytes) i
          (omega (arith, h, found_pages m i f))
        ∙ page_edited f.found i (frame_of (m.paged.tables a) i) offset bytes (found_frame m i f i)
            fits
        ∙ ap (λ bs. overwrite bs offset bytes)
            (sym (stored_view f.found i (omega (arith, h, found_pages m i f)))
              ∙ found_view m i f i),
    other_view m i offset bytes r h fits f,
  )

  -- Where the pages of a process are in memory, the memory's pager keeps what the heap relies on.
  pub memory_pager-IsPaging :
      IsPaging
        (memory_pager lib dicts string_itoa server config assignment replacement)
        config.page_size
        pid
        resident
  memory_pager-IsPaging = record {
    sized = λ m i r h.
        ap length (stored_view m i h)
        ∙ whole m.paged.ram (frame_of (m.paged.tables a) i * config.page_size) (r.inside i h);
    serves = λ m i r h.
        let f = located m i r h in
        (
          frame_of (m.paged.tables a) i,
          f.found,
          f.result,
          record {
            good = found-IsResident m i r f;
            same_pages = found_pages m i f;
            same_view = found_view m i f;
          },
          rw f.same_ram (sym (stored_view m i h)),
        );
    edits = λ m m' i frame offset bytes r h got fits.
        let f = located m i r h in
        subst (Edited m i offset bytes) (some_injective (sym f.result ∙ got))
          (edited m i offset bytes r h fits f);
  }
    where
      whole :
          (bs : List ℕ) (at : ℕ)
          → at + config.page_size ≤ length bs
          → length (slice bs at config.page_size) ≡ config.page_size
      whole bs at h =
          length-slice bs at config.page_size
          ∙ lower config.page_size (length bs - at) (omega arith)
        where
          lower : (n k : ℕ) → n ≤ k → min n k ≡ n
          lower n k h = ground arith
