-- ===== src/Shared/Networking/Quiet.antt =====
-- Receiving sends nothing: `recv_all`, `socket_get` and `socket_getPacket` of
-- shared/src/networking.c.
use sisop_2c.Prelude.{
  ℕ, zero, suc, ◌-◌, ◌≡◌, refl, ◌∙◌, Bool, true, false, Option, none, some, List, [], ◌∷◌, length,
}
use sisop_2c.Shared.Stream.{u32_bytes}
use sisop_2c.Shared.Networking.Sockets.{
  Sockets, received, recv_pieces, recv_all, socket_get, packet_of, sized_packet, headed_packet,
  socket_get_header, socket_get_packet,
}

module _ {K : Type 0} (sockets : Sockets K) (sent : K → List ℕ)
    (quiet : (k : K) (n : ℕ) → sent (sockets.recv k n).1 ≡ sent k) where
  sent-recv_pieces :
      (rounds : ℕ) (k : K) (size : ℕ) → sent (recv_pieces sockets rounds k size).2 ≡ sent k
  unfolding recv_pieces
  sent-recv_pieces zero k size = refl
  sent-recv_pieces (suc rounds) k zero = refl
  sent-recv_pieces (suc rounds) k (suc n) =
      step (sent-recv_pieces rounds) (sockets.recv k (suc n)) ∙ quiet k (suc n)
    where
      step :
          ((k' : K) (size : ℕ) → sent (recv_pieces sockets rounds k' size).2 ≡ sent k')
          → (r : Option (List ℕ) × K)
          → sent (received (recv_pieces sockets rounds) n r).2 ≡ sent r.1
      step further (none, k') = refl
      step further (some [], k') = refl
      step further (some (b ∷ bs), k') = further k' (suc n - length (b ∷ bs))

  sent-socket_get : (k : K) (size : ℕ) → sent (socket_get sockets k size).2 ≡ sent k
  unfolding socket_get recv_all
  sent-socket_get k zero = refl
  sent-socket_get k (suc n) = sent-recv_pieces (suc n) k (suc n)

  pub sent-socket_get_packet :
      (fresh : ℕ → ℕ) (unset : ℕ) (k : K)
      → sent (socket_get_packet sockets fresh unset k).1 ≡ sent k
  unfolding socket_get_packet socket_get_header
  sent-socket_get_packet fresh unset k = headed _ (socket_get sockets k 1).2 ∙ sent-socket_get k 1
    where
      filled :
          (header size : ℕ) (r : Bool × List ℕ × K)
          → sent (packet_of sockets fresh unset header size r).1 ≡ sent r.2
      filled header size (false, bs, k') = refl
      filled header size (true, bs, k') = refl

      sized :
          (header : ℕ) (r : Bool × List ℕ × K)
          → sent (sized_packet sockets fresh unset header r).1 ≡ sent r.2
      sized header (false, bs, k') = refl
      sized header (true, bs, k') =
          filled header (u32_bytes bs) (socket_get sockets k' (u32_bytes bs))
          ∙ sent-socket_get k' (u32_bytes bs)

      headed :
          (header : ℕ) (k' : K) → sent (headed_packet sockets fresh unset (header, k')).1 ≡ sent k'
      headed header k' = sized header (socket_get sockets k' 4) ∙ sent-socket_get k' 4
