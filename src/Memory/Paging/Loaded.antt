-- ===== src/Memory/Paging/Loaded.antt =====
-- What a replacement leaves: the page is in its frame, in its table and in the metadata.
use sisop_2c.Prelude.{
  ℕ, ◌+◌, ◌*◌, ◌<◌, ◌≤◌, ◌≡◌, refl, ap, ◌∙◌, ◌⊎◌, inl, inr, Bool, true, false, some, List, arith,
  if◌then◌else◌, ◌==◌, length, length-modify, get_or, get_or-modify_self, modify, slice,
  slice-overwrite_self, update, Bool-cases,
}
use sisop_2c.Shared.Commons.{Lists, Dictionaries}
use sisop_2c.Memory.Frames.{MemoryConfig, Frame, blank, is_free, write_frame}
use sisop_2c.Memory.Tlb.{add_entry}
use sisop_2c.Memory.Paging.{
  PageTableEntry, PageTable, SwapServer, Paged, absent_entry, no_frame, get_page_table, evicted,
  evict, installed, install, replace,
}

module _ {D S : Type 0} (lib : Lists) (dicts : Dictionaries D) (string_itoa : ℕ → List ℕ)
    (server : SwapServer S) (config : MemoryConfig) (m : Paged D S) (victim pid page a : ℕ)
    (content : List ℕ) where
  -- The page of the process stands in the frame, as the page table at `a` and the metadata say.
  pub record Loaded (m' : Paged D S) : Type 0 where
    pub bytes : slice m'.ram (victim * config.page_size) (length content) ≡ content
    pub entry :
        get_or (m'.tables a).entries page absent_entry ≡ record { present = true; frame = victim }
    pub owner : (get_or m'.metadata.frames victim blank).pid ≡ pid
    pub owned : (get_or m'.metadata.frames victim blank).page ≡ page
    pub taken : (get_or m'.metadata.frames victim blank).is_free ≡ false
    pub clean : (get_or m'.metadata.frames victim blank).modified ≡ false

  -- What an eviction keeps for the page that comes in.
  record Ready (k : Paged D S) : Type 0 where
    table : get_page_table lib dicts string_itoa server config k pid ≡ some a
    frames : victim < length k.metadata.frames
    pages : page < length (k.tables a).entries
    room : victim * config.page_size + length content ≤ length k.ram

  update_self : {A : Type 0} (f : ℕ → A) (v : A) → update f a v a ≡ v
  update_self f v = ap (λ t. if t then v else f a) (same a)
    where
      same : (a : ℕ) → (a == a) ≡ true
      same a = ground arith

  installed-Loaded :
      (k : Paged D S)
      → Ready k
      → Loaded (installed lib dicts string_itoa server config k victim pid page content a)
  unfolding write_frame
  installed-Loaded k r = record {
    bytes = slice-overwrite_self k.ram (victim * config.page_size) content r.room;
    entry =
        ap (λ pt. get_or pt.entries page absent_entry) (update_self k.tables _)
        ∙ get_or-modify_self (k.tables a).entries page
            (λ _. record { present = true; frame = victim }) absent_entry r.pages;
    owner = ap (λ e. e.pid) last;
    owned = ap (λ e. e.page) last;
    taken = ap (λ e. e.is_free) last;
    clean = ap (λ e. e.modified) last;
  }
    where
      marked : List Frame
      marked = modify k.metadata.frames victim (λ e. record e { modified = true; u = true })

      last :
          get_or
            (modify marked victim (λ e. record e {
              page = page;
              pid = pid;
              is_free = false;
              modified = false;
              u = true;
            }))
            victim
            blank
          ≡ record (get_or marked victim blank) {
            page = page;
            pid = pid;
            is_free = false;
            modified = false;
            u = true;
          }
      last = get_or-modify_self marked victim _ blank (
          omega (
            arith,
            length-modify k.metadata.frames victim (λ e. record e { modified = true; u = true }),
            r.frames,
          ))

  length-evicted :
      (k : Paged D S) (b : ℕ)
      → length ((evicted lib dicts string_itoa server config k victim b).tables a).entries
        ≡ length (k.tables a).entries
  length-evicted k b = elim (Bool-cases (b == a)) [
    | inl h ↦
        ap (λ t. length (chosen t).entries) h
        ∙ length-modify (k.tables b).entries (get_or k.metadata.frames victim blank).page
            (λ _. gone)
        ∙ ap (λ c. length (k.tables c).entries) (same h)
    | inr h ↦ ap (λ t. length (chosen t).entries) h
  ]
    where
      gone : PageTableEntry
      gone = record { present = false; frame = no_frame }

      chosen : Bool → PageTable
      chosen t =
          if t
          then record {
            entries =
                modify (k.tables b).entries (get_or k.metadata.frames victim blank).page
                  (λ _. gone);
          }
          else k.tables a

      same : (b == a) ≡ true → b ≡ a
      same h = ground arith

  -- `replace` returns the frame if the page could be loaded from swap, the process has a page table
  -- with that page, and the frame is free or held by a process with a page table: then the frame
  -- holds the bytes of the page, the page table says so, and the metadata name the page as not
  -- modified.
  pub replace-Loaded :
      (server.load_page m.swap pid page).0 ≡ some content
      → get_page_table lib dicts string_itoa server config m pid ≡ some a
      → (is_free m.metadata victim ≡ true)
        ⊎ ((b : ℕ) × (get_page_table lib dicts string_itoa server config m
                (get_or m.metadata.frames victim blank).pid
              ≡ some b))
      → victim < length m.metadata.frames
      → page < length (m.tables a).entries
      → victim * config.page_size + length content ≤ length m.ram
      → (m' : Paged D S) × (replace lib dicts string_itoa server config m victim pid page
          ≡ some (some victim, m'))
        × Loaded m'
  unfolding get_page_table replace write_frame add_entry
  replace-Loaded l t o f p r = go (Bool-cases (is_free m.metadata victim)) o
    where
      m1 : Paged D S
      m1 = record m { swap = (server.load_page m.swap pid page).1 }

      m1-Ready : Ready m1
      m1-Ready = record { table = t; frames = f; pages = p; room = r }

      Result : Type 0
      Result =
          (m' : Paged D S) × (replace lib dicts string_itoa server config m victim pid page
            ≡ some (some victim, m'))
          × Loaded m'

      go :
          (is_free m.metadata victim ≡ true) ⊎ (is_free m.metadata victim ≡ false)
          → (is_free m.metadata victim ≡ true)
            ⊎ ((b : ℕ) × (get_page_table lib dicts string_itoa server config m
                    (get_or m.metadata.frames victim blank).pid
                  ≡ some b))
          → Result
      go (inl h) _ = (
        installed lib dicts string_itoa server config m1 victim pid page content a,
        rw (l, h, t, replace, install) refl,
        installed-Loaded m1 m1-Ready,
      )
      go (inr h) (inl g) = absurd (clash h g)
        where
          clash : is_free m.metadata victim ≡ false → is_free m.metadata victim ≡ true → ⊥
          clash x y = cc
      go (inr h) (inr (b, g)) = (
        installed lib dicts string_itoa server config
            (evicted lib dicts string_itoa server config m1 victim b) victim pid page content a,
        rw (l, h, g, t, replace, evict, install) refl,
        installed-Loaded (evicted lib dicts string_itoa server config m1 victim b) (record {
          table = t;
          frames = f;
          pages = omega (arith, length-evicted m1 b);
          room = r;
        }),
      )
