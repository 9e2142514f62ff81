-- ===== src/Shared/Networking/Delivery.antt =====
-- All bytes arrive, in order, however the system cuts them into pieces: `send_all` and `recv_all` of
-- shared/src/networking.c.
use sisop_2c.Prelude.{
  take-append_right, drop-append_right, take-append-drop, length-drop, ℕ, zero, suc, ◌-◌, ◌≤◌, ◌<◌,
  ◌≡◌, ◌≢◌, ◌⊎◌, inl, inr, refl, sym, ap, ◌∙◌, true, false, some, List, [], ◌∷◌, ◌++◌, arith,
  length, take, drop, length-append, take-length-append, drop-length-append,
}
use sisop_2c.Shared.Networking.Sockets.{
  Sockets, Transfer, put_before, received, sent_some, recv_pieces, send_pieces, socket_send,
  recv_all, send_all, get_result, socket_get,
}
use mathlib.Core.List.{append_assoc, append-nil}

-- What the system documents of `recv`: of the bytes `pending` until the peer closes, a call gives
-- some that come first, at most as many as asked for; without any it gives 0.
pub record IsDelivering {K : Type 0} (sockets : Sockets K) (pending : K → List ℕ) : Type 0 where
  pub delivers :
      (k : K) (n : ℕ)
      → 0 < n
      → pending k ≢ []
      → (b : ℕ) × (bs : List ℕ) × (k' : K) × (sockets.recv k n ≡ (some (b ∷ bs), k'))
        × (length (b ∷ bs) ≤ n)
        × (pending k ≡ (b ∷ bs) ++ pending k')
  pub closes : (k : K) (n : ℕ) → pending k ≡ [] → sockets.recv k n ≡ (some [], k)

-- What the system documents of `send` on an open connection: it takes some of the bytes, from the
-- first one on, and they follow the bytes that were `sent`.
pub record IsAccepting {K : Type 0} (sockets : Sockets K) (sent : K → List ℕ) : Type 0 where
  pub accepts :
      (k : K) (b : ℕ) (bs : List ℕ)
      → (j : ℕ) × (k' : K) × (sockets.send k (b ∷ bs) ≡ (some (suc j), k'))
        × (j ≤ length bs)
        × (sent k' ≡ sent k ++ take (suc j) (b ∷ bs))

nonempty : (xs : List ℕ) → 0 < length xs → xs ≢ []
nonempty xs h e = absurd (omega (arith, ap length e))

module _ {K : Type 0} (sockets : Sockets K) (pending : K → List ℕ)
    (system : IsDelivering sockets pending) where
  -- The bytes asked for are the next pending ones.
  pub recv_pieces_lem :
      (rounds : ℕ) (k : K) (size : ℕ)
      → size ≤ rounds
      → size ≤ length (pending k)
      → (k' : K) × (recv_pieces sockets rounds k size
          ≡ (Transfer.complete, take size (pending k), k'))
        × (pending k' ≡ drop size (pending k))
  unfolding recv_pieces
  recv_pieces_lem zero k zero h g = (k, refl, refl)
  recv_pieces_lem zero k (suc n) h g = absurd (omega arith)
  recv_pieces_lem (suc rounds) k zero h g = (k, refl, refl)
  recv_pieces_lem (suc rounds) k (suc n) h g =
      let (b, bs, k1, e, fits, split) =
        system.delivers k (suc n) (omega arith) (nonempty _ (omega arith)) in
      let (k2, got, left) =
        recv_pieces_lem rounds k1 (suc n - length (b ∷ bs)) (omega arith)
          (omega (arith, ap length split, length-append (b ∷ bs) (pending k1))) in
      (
        k2,
        ap (received (recv_pieces sockets rounds) n) e
            ∙ ap (put_before (b ∷ bs)) got
            ∙ ap (λ ys. (Transfer.complete, ys, k2))
                (sym (take-append_right (b ∷ bs) (pending k1) (suc n) _ (omega arith))
                  ∙ ap (take (suc n)) (sym split)),
        left
            ∙ sym (drop-append_right (b ∷ bs) (pending k1) (suc n) _ (omega arith))
            ∙ ap (drop (suc n)) (sym split),
      )

  -- The peer closes before all of them came.
  pub recv_pieces-closed :
      (rounds : ℕ) (k : K) (size : ℕ)
      → size ≤ rounds
      → length (pending k) < size
      → (bs : List ℕ) × (k' : K) × (recv_pieces sockets rounds k size ≡ (Transfer.closed, bs, k'))
        × (pending k' ≡ [])
  unfolding recv_pieces
  recv_pieces-closed zero k size h g = absurd (omega arith)
  recv_pieces-closed (suc rounds) k zero h g = absurd (omega arith)
  recv_pieces-closed (suc rounds) k (suc n) h g = elim (empty_or (pending k)) [
    | inl none_left ↦ (
      [],
      k,
      ap (received (recv_pieces sockets rounds) n) (system.closes k (suc n) none_left),
      none_left,
    )
    | inr some_left ↦
        (let (b, bs, k1, e, fits, split) = system.delivers k (suc n) (omega arith) some_left in
          let (cs, k2, got, left) =
            recv_pieces-closed rounds k1 (suc n - length (b ∷ bs)) (omega arith)
              (omega (arith, ap length split, length-append (b ∷ bs) (pending k1))) in
          (
            (b ∷ bs) ++ cs,
            k2,
            ap (received (recv_pieces sockets rounds) n) e ∙ ap (put_before (b ∷ bs)) got,
            left,
          ))
  ]
    where
      empty_or : (xs : List ℕ) → (xs ≡ []) ⊎ (xs ≢ [])
      empty_or [] = inl refl
      empty_or (x ∷ xs) = inr (nonempty (x ∷ xs) (omega arith))

  pub socket_get_lem :
      (k : K) (xs ys : List ℕ)
      → pending k ≡ xs ++ ys
      → (k' : K) × (socket_get sockets k (length xs) ≡ (true, xs, k')) × (pending k' ≡ ys)
  unfolding socket_get recv_all
  socket_get_lem k [] ys e = (k, refl, e)
  socket_get_lem k (x ∷ xs) ys e =
      let (k1, got, left) =
        recv_pieces_lem (length (x ∷ xs)) k (length (x ∷ xs)) (omega arith)
          (omega (arith, ap length e, length-append (x ∷ xs) ys)) in
      (
        k1,
        ap get_result got
            ∙ (ap (λ bs. (true, bs, k1))
                (ap (take (length (x ∷ xs))) e ∙ take-length-append (x ∷ xs) ys)),
        left ∙ ap (drop (length (x ∷ xs))) e ∙ drop-length-append (x ∷ xs) ys,
      )

  pub socket_get-closed :
      (k : K) (size : ℕ)
      → length (pending k) < size
      → (bs : List ℕ) × (k' : K) × (socket_get sockets k size ≡ (false, bs, k')) × (pending k' ≡ [])
  unfolding socket_get recv_all
  socket_get-closed k zero h = absurd (omega arith)
  socket_get-closed k (suc n) h =
      let (bs, k1, got, left) = recv_pieces-closed (suc n) k (suc n) (omega arith) h in
      (bs, k1, ap get_result got, left)

module _ {K : Type 0} (sockets : Sockets K) (sent : K → List ℕ)
    (system : IsAccepting sockets sent) where
  send_pieces_lem :
      (rounds : ℕ) (k : K) (bs : List ℕ)
      → length bs ≤ rounds
      → ((send_pieces sockets rounds k bs).0 ≡ Transfer.complete)
        × (sent (send_pieces sockets rounds k bs).1 ≡ sent k ++ bs)
  unfolding send_pieces
  send_pieces_lem zero k [] h = (refl, sym (append-nil (sent k)))
  send_pieces_lem zero k (b ∷ bs) h = absurd (omega arith)
  send_pieces_lem (suc rounds) k [] h = (refl, sym (append-nil (sent k)))
  send_pieces_lem (suc rounds) k (b ∷ bs) h =
      let (j, k1, e, fits, grown) = system.accepts k b bs in
      let (done, all) = send_pieces_lem rounds k1 (drop j bs) (omega (arith, length-drop j bs)) in
      (
        ap (λ r. (sent_some (send_pieces sockets rounds) bs r).0) e ∙ done,
        ap (λ r. sent (sent_some (send_pieces sockets rounds) bs r).1) e
            ∙ all
            ∙ ap (λ ws. ws ++ drop j bs) grown
            ∙ append_assoc (sent k) (take (suc j) (b ∷ bs)) (drop j bs)
            ∙ ap (λ ws. sent k ++ (b ∷ ws)) (take-append-drop j bs),
      )

  pub sent-socket_send : (k : K) (bs : List ℕ) → sent (socket_send sockets k bs) ≡ sent k ++ bs
  unfolding socket_send send_all
  sent-socket_send k bs = (send_pieces_lem (length bs) k bs (omega arith)).1
