-- ===== src/Prelude/Blocks.antt =====
-- Stretches of bytes in an array: `memcpy` out of it and into it.
use Prim.Native.Nat.{ℕ, zero, suc, ◌+◌, ◌-◌, ◌≤◌, min}
use mathlib.Core.Path.{◌≡◌, refl, ap, ◌∙◌}
use mathlib.Core.List.{List, [], ◌∷◌}
use native.Mathlib.Omega.{arith}
use sisop_2c.Prelude.Lists.{length, take, drop}

-- `memcpy(dest, bytes + off, n)`, and what `dest` then holds. Past the end nothing is read.
abbrev pub slice : List ℕ → ℕ → ℕ → List ℕ
slice bytes off n = take n (drop off bytes)

-- `memcpy(bytes + off, src, length(src))`. Past the end nothing is written.
abbrev pub overwrite : List ℕ → ℕ → List ℕ → List ℕ
overwrite [] off src = []
overwrite (b ∷ bs) zero [] = b ∷ bs
overwrite (b ∷ bs) zero (x ∷ xs) = x ∷ overwrite bs zero xs
overwrite (b ∷ bs) (suc off) src = b ∷ overwrite bs off src

pub length-overwrite :
    (bs : List ℕ) (off : ℕ) (src : List ℕ) → length (overwrite bs off src) ≡ length bs
length-overwrite [] off src = refl
length-overwrite (b ∷ bs) zero [] = refl
length-overwrite (b ∷ bs) zero (x ∷ xs) = ap suc (length-overwrite bs zero xs)
length-overwrite (b ∷ bs) (suc off) src = ap suc (length-overwrite bs off src)

-- What was written is read back.
pub slice-overwrite_self :
    (bs : List ℕ) (off : ℕ) (src : List ℕ)
    → off + length src ≤ length bs
    → slice (overwrite bs off src) off (length src) ≡ src
slice-overwrite_self [] zero [] h = refl
slice-overwrite_self [] (suc off) [] h = refl
slice-overwrite_self [] off (x ∷ xs) h = absurd (omega arith)
slice-overwrite_self (b ∷ bs) zero [] h = refl
slice-overwrite_self (b ∷ bs) zero (x ∷ xs) h =
    ap (◌∷◌ x) (slice-overwrite_self bs zero xs (omega arith))
slice-overwrite_self (b ∷ bs) (suc off) src h = slice-overwrite_self bs off src (omega arith)

-- A stretch that ends before the write is left alone.
pub slice-overwrite_before :
    (bs : List ℕ) (off : ℕ) (src : List ℕ) (at n : ℕ)
    → at + n ≤ off
    → slice (overwrite bs off src) at n ≡ slice bs at n
slice-overwrite_before [] off src at n h = refl
slice-overwrite_before (b ∷ bs) zero src zero zero h = refl
slice-overwrite_before (b ∷ bs) zero src zero (suc n) h = absurd (omega arith)
slice-overwrite_before (b ∷ bs) zero src (suc at) n h = absurd (omega arith)
slice-overwrite_before (b ∷ bs) (suc off) src zero zero h = refl
slice-overwrite_before (b ∷ bs) (suc off) src zero (suc n) h =
    ap (◌∷◌ b) (slice-overwrite_before bs off src zero n (omega arith))
slice-overwrite_before (b ∷ bs) (suc off) src (suc at) n h =
    slice-overwrite_before bs off src at n (omega arith)

drop-overwrite_after :
    (bs : List ℕ) (off : ℕ) (src : List ℕ) (at : ℕ)
    → off + length src ≤ at
    → drop at (overwrite bs off src) ≡ drop at bs
drop-overwrite_after [] off src at h = refl
drop-overwrite_after (b ∷ bs) zero [] at h = refl
drop-overwrite_after (b ∷ bs) zero (x ∷ xs) zero h = absurd (omega arith)
drop-overwrite_after (b ∷ bs) zero (x ∷ xs) (suc at) h =
    drop-overwrite_after bs zero xs at (omega arith)
drop-overwrite_after (b ∷ bs) (suc off) src zero h = absurd (omega arith)
drop-overwrite_after (b ∷ bs) (suc off) src (suc at) h =
    drop-overwrite_after bs off src at (omega arith)

-- So is one that starts after the write.
pub slice-overwrite_after :
    (bs : List ℕ) (off : ℕ) (src : List ℕ) (at n : ℕ)
    → off + length src ≤ at
    → slice (overwrite bs off src) at n ≡ slice bs at n
slice-overwrite_after bs off src at n h = ap (take n) (drop-overwrite_after bs off src at h)

pub length-slice : (bs : List ℕ) (off n : ℕ) → length (slice bs off n) ≡ min n (length bs - off)
length-slice [] zero zero = omega arith
length-slice [] zero (suc n) = omega arith
length-slice [] (suc off) zero = omega arith
length-slice [] (suc off) (suc n) = omega arith
length-slice (b ∷ bs) zero zero = omega arith
length-slice (b ∷ bs) zero (suc n) = omega (arith, length-slice bs zero n)
length-slice (b ∷ bs) (suc off) n = omega (arith, length-slice bs off n)

-- A write inside of a stretch is a write to the stretch.
drop-overwrite_inside :
    (bs : List ℕ) (at off : ℕ) (src : List ℕ)
    → drop at (overwrite bs (at + off) src) ≡ overwrite (drop at bs) off src
drop-overwrite_inside [] zero off src = refl
drop-overwrite_inside [] (suc at) off src = refl
drop-overwrite_inside (b ∷ bs) zero off src =
    ap (λ i. overwrite (b ∷ bs) i src) {x = zero + off} {y = off} (omega arith)
drop-overwrite_inside (b ∷ bs) (suc at) off src =
    ap (λ i. drop (suc at) (overwrite (b ∷ bs) i src)) {x = suc at + off} {y = suc (at + off)}
      (omega arith)
    ∙ drop-overwrite_inside bs at off src

take-overwrite_inside :
    (bs : List ℕ) (n off : ℕ) (src : List ℕ)
    → off + length src ≤ n
    → take n (overwrite bs off src) ≡ overwrite (take n bs) off src
take-overwrite_inside [] zero off src h = refl
take-overwrite_inside [] (suc n) off src h = refl
take-overwrite_inside (b ∷ bs) zero zero [] h = refl
take-overwrite_inside (b ∷ bs) zero zero (x ∷ xs) h = absurd (omega arith)
take-overwrite_inside (b ∷ bs) zero (suc off) src h = absurd (omega arith)
take-overwrite_inside (b ∷ bs) (suc n) zero [] h = refl
take-overwrite_inside (b ∷ bs) (suc n) zero (x ∷ xs) h =
    ap (◌∷◌ x) (take-overwrite_inside bs n zero xs (omega arith))
take-overwrite_inside (b ∷ bs) (suc n) (suc off) src h =
    ap (◌∷◌ b) (take-overwrite_inside bs n off src (omega arith))

pub slice-overwrite_inside :
    (bs : List ℕ) (at n off : ℕ) (src : List ℕ)
    → off + length src ≤ n
    → slice (overwrite bs (at + off) src) at n ≡ overwrite (slice bs at n) off src
slice-overwrite_inside bs at n off src h =
    ap (take n) (drop-overwrite_inside bs at off src)
    ∙ take-overwrite_inside (drop at bs) n off src h
