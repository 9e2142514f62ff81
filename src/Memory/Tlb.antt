-- ===== src/Memory/Tlb.antt =====
-- The translation lookaside buffer: memory/src/tlb.c, memory/include/tlb.h.
--
-- A `t_tlbEntry*` is NULL as 0, and the address of entry `i` as `i + 1`. The metrics count the hits
-- and the misses of a process under the text of its PID, which `itoa` gives; a value of these
-- dictionaries stands for the number behind its pointer.
use sisop_2c.Prelude.{
  ℕ, zero, suc, ◌+◌, ◌%◌, ◌^◌, Bool, true, false, not, ◌&&◌, Option, none, some, List, [], ◌∷◌,
  if◌then◌else◌, ◌==◌, replicate, set, map,
}
use sisop_2c.Shared.Commons.{Lists, Dictionaries}
pub mod Entries
pub mod Lookup
pub mod Agreement

-- `t_tlbEntry`; `frame` is the bit pattern of an `int32_t`.
pub record TlbEntry : Type 0 where
  pub pid : ℕ
  pub page : ℕ
  pub frame : ℕ
  pub is_free : Bool

-- `updateVictimQueue`
pub data Policy : Type 0 where
  lru fifo : Policy

-- `t_tlb`
pub record Tlb (D : Type 0) : Type 0 where
  pub entries : List TlbEntry
  pub policy : Policy
  pub victim_queue : List ℕ
  pub hits : D
  pub misses : D

abbrev pub blank : TlbEntry
blank = record { pid = 0; page = 0; frame = 0; is_free = true }

-- `size` entries, all free; `empty` is a new dictionary.
unfoldable pub create_tlb : {D : Type 0} → D → ℕ → Policy → Tlb D
create_tlb empty size policy = record {
  entries = replicate size blank;
  policy = policy;
  victim_queue = [];
  hits = empty;
  misses = empty;
}

-- The entry holds the page of the process, and is not free.
abbrev pub holds : ℕ → ℕ → TlbEntry → Bool
holds pid page e = e.pid == pid && e.page == page && not e.is_free

-- The test of `dropEntry`, which does not look at `isFree`.
abbrev pub names : ℕ → ℕ → TlbEntry → Bool
names pid page e = e.pid == pid && e.page == page

abbrev pub or_null : Option ℕ → ℕ
or_null none = 0
or_null (some p) = p

-- The loop of `addEntryToTLB` over the entries from index `i`: the first free one is taken.
unfoldable pub take_free : TlbEntry → List TlbEntry → ℕ → Option (List TlbEntry × ℕ)
take_free new [] i = none
take_free new (e ∷ es) i = elim e.is_free [
  | true ↦ some (new ∷ es, suc i)
  | false ↦ elim (take_free new es (i + 1)) [ none ↦ none | some (es', p) ↦ some (e ∷ es', p) ]
]

-- A write through the pointer of an entry.
abbrev pub write_entry : List TlbEntry → ℕ → TlbEntry → List TlbEntry
write_entry es zero new = es
write_entry es (suc i) new = set es i new

module _ (lib : Lists) where
  open lib use {list_add, list_remove_by_condition, list_remove_first}

  unfoldable pub lru_algorithm : List ℕ → ℕ → List ℕ
  lru_algorithm queue entry =
      let (moved, rest) = list_remove_by_condition (λ victim. victim == entry) queue in
      list_add rest (or_null moved)

  unfoldable pub update_victim_queue : Policy → List ℕ → ℕ → List ℕ
  unfolding lru_algorithm
  update_victim_queue Policy.lru queue entry = lru_algorithm queue entry
  update_victim_queue Policy.fifo queue entry = queue

  -- The loop of `getFrameFromTLB` from index `i`: it goes on after a hit.
  unfoldable pub lookup_loop :
      Policy → ℕ → ℕ → List TlbEntry → ℕ → List ℕ → Option ℕ → List ℕ × Option ℕ
  lookup_loop policy pid page [] i queue frame = (queue, frame)
  lookup_loop policy pid page (e ∷ es) i queue frame =
      lookup_loop policy pid page es (i + 1)
        (if holds pid page e then update_victim_queue policy queue (suc i) else queue)
        (if holds pid page e then some e.frame else frame)

  module _ {D : Type 0} (dicts : Dictionaries D) (itoa : ℕ → List ℕ) where
    open dicts use {dictionary_get, dictionary_put}

    -- A `uint32_t` counter.
    unfoldable pub add_to_metrics : D → List ℕ → D
    add_to_metrics d key = elim (dictionary_get d key) [
      | some n ↦ dictionary_put d key ((n + 1) % 2 ^ 32)
      | none ↦ dictionary_put d key 1
    ]

    -- A found frame is never -1, which the source would count as a miss.
    unfoldable pub get_frame_from_tlb : Tlb D → ℕ → ℕ → Option ℕ × Tlb D
    unfolding lookup_loop update_victim_queue
    get_frame_from_tlb t pid page =
        let (queue, frame) = lookup_loop t.policy pid page t.entries 0 t.victim_queue none in
        let t' : Tlb D = record t { victim_queue = queue } in
        elim frame [
          | none ↦ (none, record t' { misses = add_to_metrics t'.misses (itoa pid) })
          | some f ↦ (some f, record t' { hits = add_to_metrics t'.hits (itoa pid) })
        ]

  unfoldable pub add_entry : {D : Type 0} → Tlb D → ℕ → ℕ → ℕ → Tlb D
  unfolding take_free
  add_entry t pid page frame =
      let new : TlbEntry = record { pid = pid; page = page; frame = frame; is_free = false } in
      elim (take_free new t.entries 0) [
        | some (es, p) ↦ record t { entries = es; victim_queue = list_add t.victim_queue p }
        | none ↦ elim (list_remove_first t.victim_queue).0 [
          | none ↦ t
          | some victim ↦ record t {
            entries = write_entry t.entries victim new;
            victim_queue = list_add (list_remove_first t.victim_queue).1 victim;
          }
        ]
      ]

abbrev pub freed : TlbEntry → TlbEntry
freed e = record e { is_free = true }

-- The loop of `dropEntry`: the first entry that names the page is freed.
unfoldable pub drop_first : ℕ → ℕ → List TlbEntry → List TlbEntry
drop_first pid page [] = []
drop_first pid page (e ∷ es) = if names pid page e then freed e ∷ es else e ∷ drop_first pid page es

unfoldable pub drop_entry : {D : Type 0} → Tlb D → ℕ → ℕ → Tlb D
unfolding drop_first
drop_entry t pid page = record t { entries = drop_first pid page t.entries }

unfoldable pub clean_tlb : {D : Type 0} → Tlb D → Tlb D
clean_tlb t = record t { entries = map freed t.entries }

unfoldable pub free_process_entries : {D : Type 0} → Tlb D → ℕ → Tlb D
free_process_entries t pid = record t {
  entries = map (λ e. if e.pid == pid then freed e else e) t.entries;
}
