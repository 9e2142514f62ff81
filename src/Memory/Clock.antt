-- ===== src/Memory/Clock.antt =====
-- The clock algorithm: `clock_m` of memory/src/memory.c.
--
-- The `while(1)` runs on fuel, one unit for each round of its two loops. The counter is the one of
-- the block with fixed assignment, and the variable `clock_m_Counter` (`pointer`) otherwise.
use sisop_2c.Prelude.{
  ℕ, zero, suc, ◌+◌, ◌-◌, ◌/◌, ◌%◌, ◌^◌, Bool, true, false, not, ◌&&◌, Option, none, some, List,
  if◌then◌else◌, get_or, set, modify,
}
use sisop_2c.Memory.Frames.{MemoryConfig, Frame, Metadata, blank, get_free_frame}
pub mod Walk
pub mod Choice

abbrev pub is_clean : List Frame → ℕ → Bool
is_clean fs c = not (get_or fs c blank).u && not (get_or fs c blank).modified

abbrev pub is_used : List Frame → ℕ → Bool
is_used fs c = (get_or fs c blank).u

-- `*counter = start + ((*counter + 1) % total)`
unfoldable pub next_frame : ℕ → ℕ → ℕ → ℕ
next_frame start total c = (start + (c + 1) % 2 ^ 32 % total) % 2 ^ 32

-- The first loop: a frame that is neither used nor modified.
unfoldable pub scan_clean : ℕ → ℕ → List Frame → ℕ → ℕ → Option ℕ × ℕ
scan_clean start total fs zero c = (none, c)
scan_clean start total fs (suc n) c =
    let rest = scan_clean start total fs n (next_frame start total c) in
    if is_clean fs c then (some c, next_frame start total c) else rest

abbrev pub clear_used : List Frame → ℕ → List Frame
clear_used fs c = modify fs c (λ e. record e { u = false })

-- The second loop: a frame that is not used; the frames passed over become unused.
unfoldable pub scan_used : ℕ → ℕ → ℕ → List Frame → ℕ → Option ℕ × ℕ × List Frame
scan_used start total zero fs c = (none, c, fs)
scan_used start total (suc n) fs c =
    let rest = scan_used start total n (clear_used fs c) (next_frame start total c) in
    if is_used fs c then rest else (some c, next_frame start total c, fs)

unfoldable pub clock_rounds : ℕ → ℕ → ℕ → List Frame → ℕ → Option (ℕ × ℕ × List Frame)
unfolding scan_clean scan_used
clock_rounds start total zero fs c = none
clock_rounds start total (suc fuel) fs c =
    let (clean, c') = scan_clean start total fs total c in
    elim clean [
      | some f ↦ some (f, c', fs)
      | none ↦
          let (unused, c'', fs') = scan_used start total total fs c' in
          elim unused [ some f ↦ some (f, c'', fs') | none ↦ clock_rounds start total fuel fs' c'' ]
    ]

abbrev pub clock_counter : MemoryConfig → Metadata → ℕ → ℕ → ℕ
clock_counter config m pointer start = elim m.first_frame [
  | none ↦ pointer
  | some blocks ↦ get_or m.clock_counters (start / config.frames_per_process) 0
]

-- The state with the frames and the counter that the clock leaves.
abbrev pub clock_state : MemoryConfig → Metadata → ℕ → ℕ → ℕ → List Frame → Metadata × ℕ
clock_state config m pointer start c fs = elim m.first_frame [
  | none ↦ (record m { frames = fs }, c)
  | some blocks ↦ (
    record m {
      frames = fs;
      clock_counters = set m.clock_counters (start / config.frames_per_process) c;
    },
    pointer,
  )
]

-- The victim, the metadata and the variable; `none` if the fuel does not suffice.
unfoldable pub clock_m : MemoryConfig → ℕ → Metadata → ℕ → ℕ → ℕ → Option (ℕ × Metadata × ℕ)
unfolding clock_rounds get_free_frame
clock_m config fuel m pointer start end = elim (get_free_frame m start end) [
  | some f ↦ some (f, m, pointer)
  | none ↦
      elim (clock_rounds start (end - start) fuel m.frames (clock_counter config m pointer start)) [
        | none ↦ none
        | some (f, c, fs) ↦
            let (m', pointer') = clock_state config m pointer start c fs in some (f, m', pointer')
      ]
]
