-- ===== src/Memory/Heap/RoundTrip.antt =====
-- The length of a heap, and the metadata of its blocks as bytes: memory/src/petitionHandlers.c.
use native.Mathlib.Nat.{suc-mul}
use sisop_2c.Prelude.{
  ℕ, zero, suc, ◌+◌, ◌*◌, ◌^◌, Bool, ◌<◌, ◌≡◌, refl, ap, ap₂, ◌∙◌, not, if◌then◌else◌, ◌==◌, true,
  false, List, arith, length, length-append,
}
use sisop_2c.Shared.Stream.Codec.{u32_bytes-bytes_u32}
use sisop_2c.Memory.Heap.{HeapMetadata, bytes_metadata, metadata_bytes}
use sisop_2c.Memory.Heap.Pieces.{flat}

-- How long pages of one size are together.
pub length-flat :
    (page_size : ℕ) (view : ℕ → List ℕ) (i n : ℕ)
    → ((j : ℕ) → j < i + n → length (view j) ≡ page_size)
    → length (flat view i n) ≡ n * page_size
length-flat page_size view i zero sized = omega arith
length-flat page_size view i (suc n) sized = omega (
  arith,
  suc-mul n page_size,
  length-append (view i) (flat view (i + 1) n),
  sized i (omega arith),
  length-flat page_size view (i + 1) n (λ j h. sized j (omega arith)),
)

-- The 9 bytes of a block's metadata give it back.
pub metadata_bytes-bytes_metadata :
    (h : HeapMetadata)
    → h.prev_alloc < 2 ^ 32
    → h.next_alloc < 2 ^ 32
    → metadata_bytes (bytes_metadata h) ≡ h
metadata_bytes-bytes_metadata h p n =
    ap₂ (λ x y. block x y (not ((if h.is_free then 1 else 0) == 0)))
      (u32_bytes-bytes_u32 h.prev_alloc p) (u32_bytes-bytes_u32 h.next_alloc n)
    ∙ ap (block h.prev_alloc h.next_alloc) (flag h.is_free)
  where
    block : ℕ → ℕ → Bool → HeapMetadata
    block x y b = record { prev_alloc = x; next_alloc = y; is_free = b }

    flag : (b : Bool) → not ((if b then 1 else 0) == 0) ≡ b
    flag true = refl
    flag false = refl
