-- ===== src/Memory/Clock/Choice.antt =====
-- The victim of the clock: memory/src/memory.c.
use sisop_2c.Prelude.{
  ℕ, zero, suc, ◌+◌, ◌-◌, ◌<◌, ◌≤◌, ◌≡◌, refl, sym, ap, ◌∙◌, inl, inr, Bool, true, false, Option,
  none, some, List, [], ◌∷◌, if◌then◌else◌, arith, length, get_or-modify_self, Bool-cases,
}
use sisop_2c.Memory.Frames.{MemoryConfig, Frame, Metadata, blank, get_free_frame}
use sisop_2c.Memory.Clock.{
  is_clean, is_used, next_frame, scan_clean, clear_used, scan_used, clock_rounds, clock_counter,
  clock_state, clock_m,
}
use sisop_2c.Memory.Clock.Walk.{walk, IsRange, walk_round, walk_meets, next-inside}

module _ (start total : ℕ) where
  -- The first loop gives a clean frame, or meets none.
  data Scan (fs : List Frame) (n c : ℕ) (r : Option ℕ × ℕ) : Type 0 where
    hit :
        (f : ℕ)
        → r ≡ (some f, next_frame start total f)
        → start ≤ f
        → f < start + total
        → is_clean fs f ≡ true
        → Scan fs n c r
    miss :
        r ≡ (none, walk start total n c)
        → ((k : ℕ) → k < n → is_clean fs (walk start total k c) ≡ false)
        → Scan fs n c r

  scan_clean-Scan :
      (fs : List Frame) (n c : ℕ)
      → 0 < total
      → IsRange start total
      → start ≤ c
      → c < start + total
      → Scan fs n c (scan_clean start total fs n c)
  unfolding scan_clean walk
  scan_clean-Scan fs zero c p v a b = miss refl (λ k h. absurd (omega arith))
  scan_clean-Scan fs (suc n) c p v a b = elim (Bool-cases (is_clean fs c)) [
    | inl h ↦ hit c (ap here h) a b h
    | inr h ↦ go h (
        scan_clean-Scan fs n (next_frame start total c) p v (next-inside start total v c p).0
          (next-inside start total v c p).1)
  ]
    where
      rest : Option ℕ × ℕ
      rest = scan_clean start total fs n (next_frame start total c)

      here : Bool → Option ℕ × ℕ
      here t = if t then (some c, next_frame start total c) else rest

      earlier :
          is_clean fs c ≡ false
          → ((k : ℕ) → k < n → is_clean fs (walk start total k (next_frame start total c)) ≡ false)
          → (k : ℕ) → k < suc n
          → is_clean fs (walk start total k c) ≡ false
      earlier h g zero l = h
      earlier h g (suc k) l = g k (omega arith)

      go :
          is_clean fs c ≡ false
          → Scan fs n (next_frame start total c) rest
          → Scan fs (suc n) c (scan_clean start total fs (suc n) c)
      go h (hit f e x y z) = hit f (ap here h ∙ e) x y z
      go h (miss e g) = miss (ap here h ∙ e) (earlier h g)

  -- The second loop gives a frame, or the counter goes on and what it met is unused.
  data Pass (fs : List Frame) (n c : ℕ) (r : Option ℕ × ℕ × List Frame) : Type 0 where
    found :
        (f c' : ℕ) (fs' : List Frame)
        → r ≡ (some f, c', fs')
        → start ≤ f
        → f < start + total
        → Pass fs n c r
    passed :
        (fs' : List Frame)
        → r ≡ (none, walk start total n c, fs')
        → ((j : ℕ) → is_used fs j ≡ false → is_used fs' j ≡ false)
        → (1 ≤ n → c < length fs → is_used fs' c ≡ false)
        → Pass fs n c r

  still_unused :
      (fs : List Frame) (c j : ℕ) → is_used fs j ≡ false → is_used (clear_used fs c) j ≡ false
  still_unused [] c j h = h
  still_unused (f ∷ fs) zero zero h = refl
  still_unused (f ∷ fs) zero (suc j) h = h
  still_unused (f ∷ fs) (suc c) zero h = h
  still_unused (f ∷ fs) (suc c) (suc j) h = still_unused fs c j h

  cleared : (fs : List Frame) (c : ℕ) → c < length fs → is_used (clear_used fs c) c ≡ false
  cleared fs c h = ap (λ e. e.u) (get_or-modify_self fs c (λ e. record e { u = false }) blank h)

  scan_used-Pass :
      (fs : List Frame) (n c : ℕ)
      → 0 < total
      → IsRange start total
      → start ≤ c
      → c < start + total
      → Pass fs n c (scan_used start total n fs c)
  unfolding scan_used walk
  scan_used-Pass fs zero c p v a b = passed fs refl (λ j h. h) (λ k l. absurd (omega arith))
  scan_used-Pass fs (suc n) c p v a b = elim (Bool-cases (is_used fs c)) [
    | inr h ↦ found c (next_frame start total c) fs (ap here h) a b
    | inl h ↦ go h (
        scan_used-Pass (clear_used fs c) n (next_frame start total c) p v
          (next-inside start total v c p).0 (next-inside start total v c p).1)
  ]
    where
      rest : Option ℕ × ℕ × List Frame
      rest = scan_used start total n (clear_used fs c) (next_frame start total c)

      here : Bool → Option ℕ × ℕ × List Frame
      here t = if t then rest else (some c, next_frame start total c, fs)

      go :
          is_used fs c ≡ true
          → Pass (clear_used fs c) n (next_frame start total c) rest
          → Pass fs (suc n) c (scan_used start total (suc n) fs c)
      go h (found f c' fs' e x y) = found f c' fs' (ap here h ∙ e) x y
      go h (passed fs' e keep last) =
          passed fs' (ap here h ∙ e) (λ j g. keep j (still_unused fs c j g))
            (λ k l. keep c (cleared fs c l))

  -- The frame that two rounds give: in the range, and clean if a frame of the range is clean.
  pub record Chosen (fs : List Frame) (c : ℕ) (r : Option (ℕ × ℕ × List Frame)) : Type 0 where
    pub frame : ℕ
    pub after : ℕ × List Frame
    pub found_it : r ≡ some (frame, after.0, after.1)
    pub from : start ≤ frame
    pub to : frame < start + total
    pub prefers :
        (j : ℕ) → start ≤ j → j < start + total → is_clean fs j ≡ true → is_clean fs frame ≡ true

  after_used : ℕ → Option ℕ × ℕ × List Frame → Option (ℕ × ℕ × List Frame)
  after_used n (unused, c'', fs') = elim unused [
    | some f ↦ some (f, c'', fs')
    | none ↦ clock_rounds start total n fs' c''
  ]

  after_clean : ℕ → List Frame → Option ℕ × ℕ → Option (ℕ × ℕ × List Frame)
  after_clean n fs (clean, c') = elim clean [
    | some f ↦ some (f, c', fs)
    | none ↦ after_used n (scan_used start total total fs c')
  ]

  rounds_clean :
      (n f c c' : ℕ) (fs : List Frame)
      → scan_clean start total fs total c ≡ (some f, c')
      → clock_rounds start total (suc n) fs c ≡ some (f, c', fs)
  unfolding clock_rounds after_clean after_used
  rounds_clean n f c c' fs e = ap (after_clean n fs) e

  rounds_used :
      (n f c c' c'' : ℕ) (fs fs' : List Frame)
      → scan_clean start total fs total c ≡ (none, c')
      → scan_used start total total fs c' ≡ (some f, c'', fs')
      → clock_rounds start total (suc n) fs c ≡ some (f, c'', fs')
  unfolding clock_rounds after_clean after_used
  rounds_used n f c c' c'' fs fs' e g = ap (after_clean n fs) e ∙ ap (after_used n) g

  rounds_next :
      (n c c' c'' : ℕ) (fs fs' : List Frame)
      → scan_clean start total fs total c ≡ (none, c')
      → scan_used start total total fs c' ≡ (none, c'', fs')
      → clock_rounds start total (suc n) fs c ≡ clock_rounds start total n fs' c''
  unfolding clock_rounds after_clean after_used
  rounds_next n c c' c'' fs fs' e g = ap (after_clean n fs) e ∙ ap (after_used n) g

  unused_first :
      (n c : ℕ) (fs : List Frame)
      → is_used fs c ≡ false
      → 0 < n
      → scan_used start total n fs c ≡ (some c, next_frame start total c, fs)
  unfolding scan_used
  unused_first zero c fs h p = absurd (omega arith)
  unused_first (suc n) c fs h p =
      ap
        (λ t.
          if t
          then scan_used start total n (clear_used fs c) (next_frame start total c)
          else (some c, next_frame start total c, fs))
        h

  module _ (v : IsRange start total) where
    -- A round that starts at an unused frame gives a frame.
    unused_round :
        (fs : List Frame) (c : ℕ)
        → start ≤ c
        → c < start + total
        → is_used fs c ≡ false
        → (f : ℕ) × (r : ℕ × List Frame) × (clock_rounds start total 1 fs c ≡ some (f, r.0, r.1))
          × (start ≤ f)
          × (f < start + total)
    unused_round fs c a b h = go (scan_clean-Scan fs total c (omega arith) v a b)
      where
        go :
            Scan fs total c (scan_clean start total fs total c)
            → (f : ℕ) × (r : ℕ × List Frame) × (clock_rounds start total 1 fs c
                ≡ some (f, r.0, r.1))
              × (start ≤ f)
              × (f < start + total)
        go (hit f e x y z) = (f, (next_frame start total f, fs), rounds_clean 0 f c _ fs e, x, y)
        go (miss e none_clean) = (
          c,
          (next_frame start total c, fs),
          rounds_used 0 c c c _ fs fs (e ∙ ap (λ k. (none, k)) (walk_round start total v c a b))
              (unused_first total c fs h (omega arith)),
          a,
          b,
        )

    -- A frame of the range is met in a round, so that one loop that finds none leaves no clean one.
    none_clean_left :
        (fs : List Frame) (c j : ℕ)
        → start ≤ c
        → c < start + total
        → ((k : ℕ) → k < total → is_clean fs (walk start total k c) ≡ false)
        → start ≤ j
        → j < start + total
        → is_clean fs j ≡ false
    none_clean_left fs c j a b h a' b' =
        let (k, l, e) = walk_meets start total v c j a b a' b' in ap (is_clean fs) (sym e) ∙ h k l

    pub clock_rounds-Chosen :
        (fs : List Frame) (c : ℕ)
        → start ≤ c
        → c < start + total
        → start + total ≤ length fs
        → Chosen fs c (clock_rounds start total 2 fs c)
    clock_rounds-Chosen fs c a b l = go (scan_clean-Scan fs total c (omega arith) v a b)
      where
        back : walk start total total c ≡ c
        back = walk_round start total v c a b

        clash : {X : Type 0} {t : Bool} → t ≡ false → t ≡ true → X
        clash h g = absurd cc

        second :
            ((k : ℕ) → k < total → is_clean fs (walk start total k c) ≡ false)
            → scan_clean start total fs total c ≡ (none, c)
            → Pass fs total c (scan_used start total total fs c)
            → Chosen fs c (clock_rounds start total 2 fs c)
        second none_clean e (found f c' fs' g x y) = record {
          frame = f;
          after = (c', fs');
          found_it = rounds_used 1 f c c c' fs fs' e g;
          from = x;
          to = y;
          prefers = λ j a' b' k. clash (none_clean_left fs c j a b none_clean a' b') k;
        }
        second none_clean e (passed fs' g keep last) =
            let (f, r, w, x, y) = unused_round fs' c a b (last (omega arith) (omega arith)) in
            record {
              frame = f;
              after = r;
              found_it = rounds_next 1 c c c fs fs' e (g ∙ ap (λ k. (none, k, fs')) back) ∙ w;
              from = x;
              to = y;
              prefers = λ j a' b' k. clash (none_clean_left fs c j a b none_clean a' b') k;
            }

        go :
            Scan fs total c (scan_clean start total fs total c)
            → Chosen fs c (clock_rounds start total 2 fs c)
        go (hit f e x y z) = record {
          frame = f;
          after = (next_frame start total f, fs);
          found_it = rounds_clean 1 f c _ fs e;
          from = x;
          to = y;
          prefers = λ j a' b' k. z;
        }
        go (miss e none_clean) =
            second none_clean (e ∙ ap (λ k. (none, k)) back)
              (scan_used-Pass fs total c (omega arith) v a b)

-- The victim of a range in which no frame is free.
pub record Victim (m : Metadata) (start end : ℕ) (r : Option (ℕ × Metadata × ℕ)) : Type 0 where
  pub frame : ℕ
  pub after : Metadata × ℕ
  pub found_it : r ≡ some (frame, after.0, after.1)
  pub from : start ≤ frame
  pub to : frame < end
  pub prefers :
      (j : ℕ) → start ≤ j → j < end → is_clean m.frames j ≡ true → is_clean m.frames frame ≡ true

-- Where no frame of a range is free and the counter stands in the range, `clock_m` ends within two
-- rounds, with a frame of the range, which is neither used nor modified if the range has such one.
pub clock_m-Victim :
    (config : MemoryConfig) (m : Metadata) (pointer start end : ℕ)
    → IsRange start (end - start)
    → end ≤ length m.frames
    → get_free_frame m start end ≡ none
    → start ≤ clock_counter config m pointer start
    → clock_counter config m pointer start < end
    → Victim m start end (clock_m config 2 m pointer start end)
unfolding clock_m
clock_m-Victim config m pointer start end v l n a b = record {
  frame = w.frame;
  after = clock_state config m pointer start w.after.0 w.after.1;
  found_it = shown n w.found_it;
  from = w.from;
  to = omega (arith, w.to);
  prefers = λ j a' b' k. w.prefers j a' (omega arith) k;
}
  where
    shown :
        {f c : ℕ} {fs : List Frame}
        → get_free_frame m start end ≡ none
        → clock_rounds start (end - start) 2 m.frames (clock_counter config m pointer start)
          ≡ some (f, c, fs)
        → clock_m config 2 m pointer start end
          ≡ some (
            f,
            (clock_state config m pointer start c fs).0,
            (clock_state config m pointer start c fs).1,
          )
    shown x y = rw (x, y, clock_m) refl

    w :
        Chosen start
          (end - start)
          m.frames
          (clock_counter config m pointer start)
          (clock_rounds start (end - start) 2 m.frames (clock_counter config m pointer start))
    w = clock_rounds-Chosen start (end - start) v m.frames _ a (omega arith) (omega arith)
