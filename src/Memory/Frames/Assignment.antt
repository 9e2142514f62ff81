-- ===== src/Memory/Frames/Assignment.antt =====
-- The blocks of frames with fixed assignment: `fijo` of memory/src/memory.c.
use native.Mathlib.Nat.{div-mul-le_self}
use sisop_2c.Prelude.{
  ℕ, ◌+◌, ◌*◌, ◌/◌, ◌<◌, ◌≤◌, ◌≡◌, ◌≢◌, refl, sym, ap, ◌∙◌, ◌⊎◌, inl, inr, true, false, Option,
  none, some, List, arith, length, length-set, get_or, set, get_or-set_self, get_or-set_ne,
  if◌then◌else◌, ◌==◌, replicate, length-replicate, get_or-replicate, find_index, IsFirst,
  find_index_of_IsFirst, find_index-cases, ℕ_discrete,
}
use sisop_2c.Memory.Frames.{
  MemoryConfig, Metadata, initialize_metadata, nobody, blocks_of, block_range, fijo,
}

-- The blocks lie in the frames, and no process has two.
pub record IsAssigned (config : MemoryConfig) (blocks : List ℕ) : Type 0 where
  pub inside : length blocks * config.frames_per_process ≤ config.frame_qty
  pub own :
      (i j : ℕ)
      → i < length blocks
      → j < length blocks
      → get_or blocks i nobody ≢ nobody
      → get_or blocks i nobody ≡ get_or blocks j nobody
      → i ≡ j

-- The result for a process: a block that is its own, of which it stays the owner.
pub record HasBlock (config : MemoryConfig) (m : Metadata) (pid : ℕ) (r : Option (ℕ × ℕ) × Metadata)
    : Type 0 where
  pub block : ℕ
  pub range : r.0 ≡ some (block_range config block)
  pub owner : get_or (blocks_of r.1.first_frame) block nobody ≡ pid
  pub fits : block * config.frames_per_process + config.frames_per_process ≤ config.frame_qty
  pub others :
      (j : ℕ)
      → get_or (blocks_of m.first_frame) j nobody ≢ pid
      → get_or (blocks_of m.first_frame) j nobody ≢ nobody
      → get_or (blocks_of r.1.first_frame) j nobody ≡ get_or (blocks_of m.first_frame) j nobody
  pub assigned : IsAssigned config (blocks_of r.1.first_frame)
  pub again : fijo config r.1 pid ≡ (some (block_range config block), r.1)

-- The result where no block is left for a process: false, and nothing is changed.
pub record HasNone (config : MemoryConfig) (m : Metadata) (pid : ℕ) : Type 0 where
  pub refused : fijo config m pid ≡ (none, m)
  pub all_owned :
      (j : ℕ)
      → j < length (blocks_of m.first_frame)
      → (get_or (blocks_of m.first_frame) j nobody ≢ nobody)
        × (get_or (blocks_of m.first_frame) j nobody ≢ pid)

abbrev with_blocks : Metadata → List ℕ → Metadata
with_blocks m bs = record m { first_frame = some bs }

same_true : (a b : ℕ) → (a == b) ≡ true → a ≡ b
same_true a b h = ground arith

same_false : (a b : ℕ) → (a == b) ≡ false → a ≢ b
same_false a b h e = ground arith

true_same : (a b : ℕ) → a ≡ b → (a == b) ≡ true
true_same a b h = ground arith

block_fits : (i n p total : ℕ) → i < n → n * p ≤ total → i * p + p ≤ total
block_fits i n p total h fits = grind arith

module _ (config : MemoryConfig) (m : Metadata) (pid : ℕ) where
  fijo_own :
      (i : ℕ)
      → find_index (λ b. b == pid) (blocks_of m.first_frame) ≡ some i
      → fijo config m pid ≡ (some (block_range config i), m)
  unfolding fijo
  fijo_own i e = rw (e, fijo) refl

  fijo_new :
      (i : ℕ)
      → find_index (λ b. b == pid) (blocks_of m.first_frame) ≡ none
      → find_index (λ b. b == nobody) (blocks_of m.first_frame) ≡ some i
      → fijo config m pid
        ≡ (some (block_range config i), with_blocks m (set (blocks_of m.first_frame) i pid))
  unfolding fijo
  fijo_new i e f = rw (e, f, fijo) refl

  fijo-none :
      find_index (λ b. b == pid) (blocks_of m.first_frame) ≡ none
      → find_index (λ b. b == nobody) (blocks_of m.first_frame) ≡ none
      → fijo config m pid ≡ (none, m)
  unfolding fijo
  fijo-none e f = rw (e, f, fijo) refl

-- A block given to a process that had none keeps the blocks apart.
IsAssigned-set :
    (config : MemoryConfig) (bs : List ℕ) (i pid : ℕ)
    → IsAssigned config bs
    → i < length bs
    → ((j : ℕ) → j < length bs → get_or bs j nobody ≢ pid)
    → IsAssigned config (set bs i pid)
IsAssigned-set config bs i pid v h absent = record {
  inside = rw (length-set bs i pid) v.inside;
  own = apart;
}
  where
    at : (k : ℕ) → k ≢ i → get_or (set bs i pid) k nobody ≡ get_or bs k nobody
    at k ne = get_or-set_ne bs i k pid nobody (λ e. ne (sym e))

    here : get_or (set bs i pid) i nobody ≡ pid
    here = get_or-set_self bs i pid nobody h

    apart :
        (j k : ℕ)
        → j < length (set bs i pid)
        → k < length (set bs i pid)
        → get_or (set bs i pid) j nobody ≢ nobody
        → get_or (set bs i pid) j nobody ≡ get_or (set bs i pid) k nobody
        → j ≡ k
    apart j k a b ne e = go (ℕ_discrete j i) (ℕ_discrete k i)
      where
        a' : j < length bs
        a' = omega (arith, length-set bs i pid)

        b' : k < length bs
        b' = omega (arith, length-set bs i pid)

        go : Dec (j ≡ i) → Dec (k ≡ i) → j ≡ k
        go (yes x) (yes y) = x ∙ sym y
        go (yes x) (no y) =
            absurd (
              absent k b'
                (sym (at k y) ∙ sym e ∙ ap (λ n. get_or (set bs i pid) n nobody) x ∙ here))
        go (no x) (yes y) =
            absurd
              (absent j a' (sym (at j x) ∙ e ∙ ap (λ n. get_or (set bs i pid) n nobody) y ∙ here))
        go (no x) (no y) = v.own j k a' b' (λ n. ne (at j x ∙ n)) (sym (at j x) ∙ e ∙ at k y)

-- `fijo` answers with the block of the process, given to it if it had none: it lies in the frames, it
-- stays the answer, and the other processes keep theirs, so that no block has two owners. It answers
-- false, changing nothing, exactly where all blocks are other processes'.
pub fijo-HasBlock :
    (config : MemoryConfig) (m : Metadata) (pid : ℕ)
    → IsAssigned config (blocks_of m.first_frame)
    → HasBlock config m pid (fijo config m pid) ⊎ HasNone config m pid
fijo-HasBlock config m pid v =
    elim (find_index-cases (λ b. b == pid) (blocks_of m.first_frame) nobody) [
      | inr (i, e, f) ↦ inl (
          rw (fijo_own config m pid i e) (record {
            block = i;
            range = refl;
            owner = same_true _ _ f.passes;
            fits = block_fits i _ _ _ f.inside v.inside;
            others = λ j a b. refl;
            assigned = v;
            again = fijo_own config m pid i e;
          }))
      | inl (e, absent) ↦
          elim (find_index-cases (λ b. b == nobody) (blocks_of m.first_frame) nobody) [
            | inl (n, owned) ↦ inr (record {
              refused = fijo-none config m pid e n;
              all_owned = λ j h. (same_false _ _ (owned j h), same_false _ _ (absent j h));
            })
            | inr (i, n, f) ↦ inl (rw (fijo_new config m pid i e n) (given i f absent))
          ]
    ]
  where
    bs : List ℕ
    bs = blocks_of m.first_frame

    given :
        (i : ℕ)
        → IsFirst (λ b. b == nobody) bs nobody i
        → ((j : ℕ) → j < length bs → (get_or bs j nobody == pid) ≡ false)
        → HasBlock config m pid (some (block_range config i), with_blocks m (set bs i pid))
    given i f absent = record {
      block = i;
      range = refl;
      owner = get_or-set_self bs i pid nobody f.inside;
      fits = block_fits i _ _ _ f.inside v.inside;
      others = λ j a b.
          get_or-set_ne bs i j pid nobody
            (λ e. b (ap (λ n. get_or bs n nobody) (sym e) ∙ same_true _ _ f.passes));
      assigned = IsAssigned-set config bs i pid v f.inside (λ j h. same_false _ _ (absent j h));
      again = fijo_own config (with_blocks m (set bs i pid)) pid i (
          find_index_of_IsFirst (λ b. b == pid) (set bs i pid) nobody i
            (record {
              inside = omega (arith, length-set bs i pid, f.inside);
              passes = true_same _ _ (get_or-set_self bs i pid nobody f.inside);
              earlier = λ j h.
                  rw (get_or-set_ne bs i j pid nobody (omega arith))
                    (absent j (omega (arith, f.inside)));
            }));
    }

-- With fixed assignment the blocks of a new memory lie in the frames, and are nobody's.
pub initialize_metadata-IsAssigned :
    (config : MemoryConfig)
    → config.is_fija ≡ true
    → IsAssigned config (blocks_of (initialize_metadata config).first_frame)
      × ((i : ℕ) → get_or (blocks_of (initialize_metadata config).first_frame) i nobody ≡ nobody)
unfolding initialize_metadata
initialize_metadata-IsAssigned config h = rw shape (
  record {
    inside =
        rw (length-replicate n nobody) (div-mul-le_self config.frame_qty config.frames_per_process);
    own = λ i j a b ne e. absurd (ne (get_or-replicate n nobody i));
  },
  λ i. get_or-replicate n nobody i,
)
  where
    n : ℕ
    n = config.frame_qty / config.frames_per_process

    shape : (initialize_metadata config).first_frame ≡ some (replicate n nobody)
    shape = ap (λ b. if b then some (replicate n nobody) else none) h
