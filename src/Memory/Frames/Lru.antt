-- ===== src/Memory/Frames/Lru.antt =====
-- The victim of LRU, and the case in which there is none.
use sisop_2c.Prelude.{
  ℕ, zero, suc, ◌+◌, ◌-◌, ◌<◌, ◌≤◌, ◌≡◌, refl, inl, inr, true, false, Option, none, some, arith,
  if◌then◌else◌, ltb, ltb→lt, Bool-cases, ℕ_discrete, ltb-false→le,
}
use sisop_2c.Memory.Frames.{
  Metadata, is_free, free_frame_from, get_free_frame, get_frame_timestamp, lru_loop, lru,
}

-- The search for a free frame gives the first free one of the range, or none is free.
data FreeFound (m : Metadata) (rounds i : ℕ) (r : Option ℕ) : Type 0 where
  absent :
      r ≡ none → ((j : ℕ) → i ≤ j → j < i + rounds → is_free m j ≡ false) → FreeFound m rounds i r
  present :
      (f : ℕ)
      → r ≡ some f
      → i ≤ f
      → f < i + rounds
      → is_free m f ≡ true
      → ((j : ℕ) → i ≤ j → j < f → is_free m j ≡ false)
      → FreeFound m rounds i r

free_frame_from-FreeFound :
    (m : Metadata) (rounds i : ℕ) → FreeFound m rounds i (free_frame_from m rounds i)
unfolding free_frame_from
free_frame_from-FreeFound m zero i = absent refl (λ j h g. absurd (omega arith))
free_frame_from-FreeFound m (suc rounds) i = elim (Bool-cases (is_free m i)) [
  | inl e ↦ rw e (present i refl (omega arith) (omega arith) e (λ j h g. absurd (omega arith)))
  | inr e ↦ rw e (further e (free_frame_from-FreeFound m rounds (i + 1)))
]
  where
    busy :
        is_free m i ≡ false
        → ((j : ℕ) → i + 1 ≤ j → j < i + 1 + rounds → is_free m j ≡ false)
        → (j : ℕ) → i ≤ j
        → j < i + suc rounds
        → is_free m j ≡ false
    busy e h j a b = elim (ℕ_discrete i j) [
      | yes p ↦ rw (← p) e
      | no p ↦ h j (omega arith) (omega arith)
    ]

    before :
        (f : ℕ)
        → is_free m i ≡ false
        → ((j : ℕ) → i + 1 ≤ j → j < f → is_free m j ≡ false)
        → (j : ℕ) → i ≤ j
        → j < f
        → is_free m j ≡ false
    before f e h j a b = elim (ℕ_discrete i j) [ yes p ↦ rw (← p) e | no p ↦ h j (omega arith) b ]

    further :
        is_free m i ≡ false
        → FreeFound m rounds (i + 1) (free_frame_from m rounds (i + 1))
        → FreeFound m (suc rounds) i (free_frame_from m rounds (i + 1))
    further e (absent n h) = absent n (busy e h)
    further e (present f s a b c d) = present f s (omega arith) (omega arith) c (before f e d)

-- What the loop has found over the frames from `first` up to `i`: the one with the smallest time
-- stamp below `top`, or that none is below it.
data Best (m : Metadata) (first top i : ℕ) (frame : Option ℕ) (least : ℕ) : Type 0 where
  none_older :
      frame ≡ none
      → least ≡ top
      → ((j : ℕ) → first ≤ j → j < i → top ≤ get_frame_timestamp m j)
      → Best m first top i frame least
  oldest :
      (f : ℕ)
      → frame ≡ some f
      → first ≤ f
      → f < i
      → get_frame_timestamp m f ≡ least
      → least < top
      → ((j : ℕ) → first ≤ j → j < i → least ≤ get_frame_timestamp m j)
      → Best m first top i frame least

module _ (m : Metadata) (first top : ℕ) where
  abbrev stamp : ℕ → ℕ
  stamp j = get_frame_timestamp m j

  kept_below :
      (i least : ℕ)
      → least ≤ stamp i
      → ((j : ℕ) → first ≤ j → j < i → least ≤ stamp j)
      → (j : ℕ) → first ≤ j
      → j < i + 1
      → least ≤ stamp j
  kept_below i least new old j a b = elim (ℕ_discrete i j) [
    | yes p ↦ rw (← p) new
    | no p ↦ old j a (omega arith)
  ]

  newest_below :
      (i least : ℕ)
      → stamp i < least
      → ((j : ℕ) → first ≤ j → j < i → least ≤ stamp j)
      → (j : ℕ) → first ≤ j
      → j < i + 1
      → stamp i ≤ stamp j
  newest_below i least new old j a b = elim (ℕ_discrete i j) [
    | yes p ↦ rw (← p) (omega arith)
    | no p ↦ omega (arith, old j a (omega arith))
  ]

  Best-step :
      (i : ℕ) (frame : Option ℕ) (least : ℕ)
      → first ≤ i
      → Best m first top i frame least
      → Best m first top
          (i + 1)
          (if ltb (stamp i) least then some i else frame)
          (if ltb (stamp i) least then stamp i else least)
  Best-step i frame least s b = elim (Bool-cases (ltb (stamp i) least)) [
    | inl e ↦ rw e (younger (ltb→lt _ _ e) b)
    | inr e ↦ rw e (same (ltb-false→le _ _ e) b)
  ]
    where
      younger :
          stamp i < least
          → Best m first top i frame least
          → Best m first top (i + 1) (some i) (stamp i)
      younger l (none_older n q h) =
          oldest i refl s (omega arith) refl (omega arith)
            (newest_below i least l (λ j a c. omega (arith, h j a c)))
      younger l (oldest f n a c t q h) =
          oldest i refl s (omega arith) refl (omega arith) (newest_below i least l h)

      same : least ≤ stamp i → Best m first top i frame least → Best m first top (i + 1) frame least
      same l (none_older n q h) = none_older n q (kept_below i top (omega arith) h)
      same l (oldest f n a c t q h) = oldest f n a (omega arith) t q (kept_below i least l h)

  Best-loop :
      (rounds i end : ℕ) (frame : Option ℕ) (least : ℕ)
      → first ≤ i
      → i + rounds ≡ end
      → Best m first top i frame least
      → (l : ℕ) × Best m first top end (lru_loop m rounds i frame least) l
  unfolding lru_loop
  Best-loop zero i end frame least s e b = let p : i ≡ end = omega arith in (least, rw (← p) b)
  Best-loop (suc rounds) i end frame least s e b =
      Best-loop rounds (i + 1) end _ _ (omega arith) (omega arith) (Best-step i frame least s b)

-- What `LRU` chooses from the frames of a range.
pub data LruChoice (m : Metadata) (start end : ℕ) : Type 0 where
  free :
      (f : ℕ)
      → lru m start end ≡ some f
      → start ≤ f
      → f < end
      → is_free m f ≡ true
      → ((j : ℕ) → start ≤ j → j < f → is_free m j ≡ false)
      → LruChoice m start end
  least_recent :
      (f : ℕ)
      → lru m start end ≡ some f
      → start ≤ f
      → f < end
      → get_frame_timestamp m f < m.counter
      → ((j : ℕ)
          → start ≤ j
          → j < end
          → (is_free m j ≡ false) × (get_frame_timestamp m f ≤ get_frame_timestamp m j))
      → LruChoice m start end
  no_victim :
      lru m start end ≡ none
      → ((j : ℕ)
          → start ≤ j
          → j < end
          → (is_free m j ≡ false) × (m.counter ≤ get_frame_timestamp m j))
      → LruChoice m start end

-- `LRU` gives the first free frame of the range; if none is free, the frame with the least time
-- stamp, if that stamp is below the counter; and no frame at all exactly where all are in use with
-- time stamps that have reached the counter, as when the range is one frame and that frame was used
-- last.
pub lru-LruChoice : (m : Metadata) (start end : ℕ) → start ≤ end → LruChoice m start end
unfolding lru get_free_frame
lru-LruChoice m start end s = by_free (free_frame_from-FreeFound m (end - start) start)
  where
    by_free :
        FreeFound m (end - start) start (free_frame_from m (end - start) start)
        → LruChoice m start end
    by_free (present f e a b c d) = free f (rw (e, lru)) a (omega arith) c d
    by_free (absent e h) =
        chosen
          (Best-loop m start m.counter (end - start) start end none m.counter (omega arith)
            (omega arith) (none_older refl refl (λ j a c. absurd (omega arith)))).1
      where
        chosen :
            {l : ℕ}
            → Best m start m.counter end (lru_loop m (end - start) start none m.counter) l
            → LruChoice m start end
        chosen (none_older n q g) =
            no_victim (rw (e, lru) n) (λ j a c. (h j a (omega arith), g j a c))
        chosen (oldest f n a c t q g) =
            least_recent f (rw (e, lru) n) a c (omega (arith, t, q))
              (λ j x y. (h j x (omega arith), omega (arith, t, g j x y)))
