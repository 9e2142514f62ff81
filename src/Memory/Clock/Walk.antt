-- ===== src/Memory/Clock/Walk.antt =====
-- The counter of the clock goes round the frames of its range: memory/src/memory.c.
use native.Mathlib.Nat.{mod-lt, mod-add-mod, mod-eq_of_lt, mod_self}
use sisop_2c.Prelude.{
  ℕ, zero, suc, ◌+◌, ◌-◌, ◌%◌, ◌^◌, ◌<◌, ◌≤◌, ◌≡◌, sym, ap, ◌∙◌, inl, inr, arith, lt-or-eq-or-gt,
}
use sisop_2c.Memory.Clock.{next_frame}

module _ (start total : ℕ) where
  -- The counter after `n` steps.
  unfoldable pub walk : ℕ → ℕ → ℕ
  walk zero c = c
  walk (suc n) c = walk n (next_frame start total c)

  walk_add : (a b c : ℕ) → walk (a + b) c ≡ walk b (walk a c)
  unfolding walk
  walk_add zero b c = ap (λ n. walk n c) {x = 0 + b} {y = b} (omega arith)
  walk_add (suc a) b c =
      ap (λ n. walk n c) {x = suc a + b} {y = suc (a + b)} (omega arith)
      ∙ walk_add a b (next_frame start total c)

-- The range is one of the blocks, or all the frames, and its numbers fit in 32 bits.
pub record IsRange (start total : ℕ) : Type 0 where
  pub aligned : start % total ≡ 0
  pub fits : start + total < 2 ^ 32

module _ (start total : ℕ) (v : IsRange start total) where
  offset : (q : ℕ) → (start + q) % total ≡ q % total
  offset q =
      sym (mod-add-mod start total q)
      ∙ ap (λ s. (s + q) % total) v.aligned
      ∙ ap (λ n. n % total) {x = 0 + q} {y = q} (omega arith)

  no_wrap : (n : ℕ) → n < 2 ^ 32 → n % 2 ^ 32 ≡ n
  no_wrap n h = omega arith

  next_up : (p : ℕ) → p + 1 < total → next_frame start total (start + p) ≡ start + (p + 1)
  unfolding next_frame
  next_up p h =
      rw (no_wrap (start + p + 1) (omega (arith, v.fits)), same)
        (no_wrap (start + (p + 1)) (omega (arith, v.fits)))
    where
      same : (start + p + 1) % total ≡ p + 1
      same = ap (λ n. n % total) (omega arith) ∙ offset (p + 1) ∙ mod-eq_of_lt h

  next_wrap : (p : ℕ) → p + 1 ≡ total → next_frame start total (start + p) ≡ start
  unfolding next_frame
  next_wrap p h = rw (no_wrap (start + p + 1) (omega (arith, v.fits)), same) (omega (arith, v.fits))
    where
      same : (start + p + 1) % total ≡ 0
      same =
          ap (λ n. n % total) (omega arith)
          ∙ offset (p + 1)
          ∙ ap (λ n. n % total) h
          ∙ mod_self total

  walk_up : (k p : ℕ) → p + k < total → walk start total k (start + p) ≡ start + (p + k)
  unfolding walk
  walk_up zero p h = omega arith
  walk_up (suc k) p h =
      ap (walk start total k) (next_up p (omega arith))
      ∙ walk_up k (p + 1) (omega arith)
      ∙ omega arith

  walk_to_start : (p : ℕ) → p < total → walk start total (total - p) (start + p) ≡ start
  unfolding walk
  walk_to_start p h =
      ap (λ n. walk start total n (start + p)) {x = total - p} {y = total - p - 1 + 1} (omega arith)
      ∙ walk_add start total (total - p - 1) 1 (start + p)
      ∙ ap (walk start total 1) (walk_up (total - p - 1) p (omega arith))
      ∙ next_wrap (p + (total - p - 1)) (omega arith)

  walk_from_start :
      (p k : ℕ) → p < total → k < total → walk start total (total - p + k) (start + p) ≡ start + k
  walk_from_start p k h g =
      walk_add start total (total - p) k (start + p)
      ∙ ap (walk start total k) {y = start + 0} (walk_to_start p h ∙ omega arith)
      ∙ walk_up k 0 (omega arith)
      ∙ omega arith

  -- Each frame of the range is met within `total` steps, and then the counter is back.
  pub walk_round : (c : ℕ) → start ≤ c → c < start + total → walk start total total c ≡ c
  walk_round c a b =
      ap (walk start total total) {x = c} {y = start + (c - start)} (omega arith)
      ∙ ap (λ n. walk start total n (start + (c - start))) {x = total}
          {y = total - (c - start) + (c - start)} (omega arith)
      ∙ walk_from_start (c - start) (c - start) (omega arith) (omega arith)
      ∙ omega arith

  pub walk_meets :
      (c j : ℕ)
      → start ≤ c
      → c < start + total
      → start ≤ j
      → j < start + total
      → (k : ℕ) × (k < total) × (walk start total k c ≡ j)
  walk_meets c j a b a' b' = elim (lt-or-eq-or-gt j c) [
    | inl h ↦ (
      total - (c - start) + (j - start),
      omega arith,
      ap (walk start total (total - (c - start) + (j - start))) {x = c} {y = start + (c - start)}
            (omega arith)
          ∙ walk_from_start (c - start) (j - start) (omega arith) (omega arith)
          ∙ omega arith,
    )
    | inr h ↦ (
      j - c,
      omega arith,
      ap (walk start total (j - c)) {x = c} {y = start + (c - start)} (omega arith)
          ∙ walk_up (j - c) (c - start) (omega arith)
          ∙ omega arith,
    )
  ]

  pub next-inside :
      (c : ℕ)
      → 0 < total
      → (start ≤ next_frame start total c) × (next_frame start total c < start + total)
  unfolding next_frame
  next-inside c h = (omega (arith, at, v.fits), omega (arith, at, v.fits))
    where
      at : (c + 1) % 2 ^ 32 % total < total
      at = mod-lt ((c + 1) % 2 ^ 32) h
