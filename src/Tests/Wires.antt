-- ===== src/Tests/Wires.antt =====
-- Connections at concrete inputs: each call of the system moves one byte.
use sisop_2c.Prelude.{
  ℕ, ◌<◌, ◌≤◌, ◌≡◌, ◌≢◌, refl, Option, none, some, List, [], ◌∷◌, ◌++◌, arith, length,
}
use sisop_2c.Shared.Stream.Laws.{unread}
use sisop_2c.Shared.Networking.Sockets.{
  Sockets, SocketPacket, socket_send_packet, socket_relay_packet, socket_get_packet,
}
use sisop_2c.Shared.Networking.Delivery.{IsDelivering, IsAccepting}
use sisop_2c.Shared.Networking.Framing.{socket_get_packet-take}
use sisop_2c.Shared.Networking.Transport.{
  socket_get_packet-socket_send_packet, socket_relay_packet-socket_get_packet,
}

-- What will still arrive at an end of a connection, and what was sent there.
abbrev pub Wire : Type 0
Wire = List ℕ × List ℕ

abbrev pub receive_one : Wire → ℕ → Option (List ℕ) × Wire
receive_one ([], out) n = (some [], ([], out))
receive_one (b ∷ bs, out) n = (some (b ∷ []), (bs, out))

abbrev pub send_one : Wire → List ℕ → Option ℕ × Wire
send_one w [] = (some 0, w)
send_one (bs, out) (x ∷ xs) = (some 1, (bs, out ++ x ∷ []))

abbrev pub wires : Sockets Wire
wires = record { recv = receive_one; send = send_one }

abbrev pub inbox : Wire → List ℕ
inbox w = w.0

abbrev pub outbox : Wire → List ℕ
outbox w = w.1

pub wires-IsDelivering : IsDelivering wires inbox
wires-IsDelivering = record { delivers = first_byte; closes = at_end }
  where
    first_byte :
        (k : Wire) (n : ℕ)
        → 0 < n
        → inbox k ≢ []
        → (b : ℕ) × (bs : List ℕ) × (k' : Wire) × (receive_one k n ≡ (some (b ∷ bs), k'))
          × (length (b ∷ bs) ≤ n)
          × (inbox k ≡ (b ∷ bs) ++ inbox k')
    first_byte ([], out) n p ne = absurd (ne refl)
    first_byte (b ∷ bs, out) n p ne = (b, [], (bs, out), refl, omega arith, refl)

    at_end : (k : Wire) (n : ℕ) → inbox k ≡ [] → receive_one k n ≡ (some [], k)
    at_end ([], out) n e = refl
    at_end (b ∷ bs, out) n e = absurd (apart e)
      where
        apart : b ∷ bs ≡ [] → ⊥
        apart h = cc

pub wires-IsAccepting : IsAccepting wires outbox
wires-IsAccepting = record {
  accepts = λ k b bs. (0, (inbox k, outbox k ++ b ∷ []), refl, omega arith, refl);
}

pub wires-IsQuiet : (w : Wire) (n : ℕ) → outbox (receive_one w n).1 ≡ outbox w
wires-IsQuiet ([], out) n = refl
wires-IsQuiet (b ∷ bs, out) n = refl

-- New memory holds zeros.
abbrev pub zeros : ℕ → ℕ
zeros i = 0

-- A packet with the bytes 8 and 9 written to it.
abbrev two_bytes : SocketPacket
two_bytes = record {
  header = 3;
  payload = record { offset = 2; malloc_size = 3; stream = 8 ∷ 9 ∷ 7 ∷ [] };
}

socket_get_packet-socket_send_packet_example :
    (q : SocketPacket) × (k' : Wire) × (socket_get_packet wires zeros 0
        (3 ∷ 2 ∷ 0 ∷ 0 ∷ 0 ∷ 8 ∷ 9 ∷ 5 ∷ [], [])
      ≡ (some q, k'))
    × (q.header ≡ 3)
    × (unread q.payload ≡ 8 ∷ 9 ∷ [])
    × (inbox k' ≡ 5 ∷ [])
unfolding socket_send_packet
socket_get_packet-socket_send_packet_example =
    socket_get_packet-socket_send_packet wires inbox wires-IsDelivering wires outbox
      wires-IsAccepting zeros 0 ([], []) (3 ∷ 2 ∷ 0 ∷ 0 ∷ 0 ∷ 8 ∷ 9 ∷ 5 ∷ [], []) two_bytes (5 ∷ [])
      (omega arith) (record { sized = refl; inside = omega arith; small = omega arith })
      (omega arith) refl refl

-- The peer closes in the middle of the payload.
socket_get_packet-take_example :
    (socket_get_packet wires zeros 0 (3 ∷ 2 ∷ 0 ∷ 0 ∷ 0 ∷ 8 ∷ [], [])).0 ≡ none
socket_get_packet-take_example =
    socket_get_packet-take wires zeros 0 inbox wires-IsDelivering (3 ∷ 2 ∷ 0 ∷ 0 ∷ 0 ∷ 8 ∷ [], []) 3
      (8 ∷ 9 ∷ []) 6 (omega arith) (omega arith) refl

socket_relay_packet-socket_get_packet_example :
    (q : SocketPacket) × (k' : Wire) × (socket_get_packet wires zeros 0
        (3 ∷ 2 ∷ 0 ∷ 0 ∷ 0 ∷ 8 ∷ 9 ∷ [], [])
      ≡ (some q, k'))
    × (outbox (socket_relay_packet wires ([], 1 ∷ []) q) ≡ 1 ∷ 3 ∷ 2 ∷ 0 ∷ 0 ∷ 0 ∷ 8 ∷ 9 ∷ [])
socket_relay_packet-socket_get_packet_example =
    socket_relay_packet-socket_get_packet wires inbox wires-IsDelivering wires outbox
      wires-IsAccepting zeros 0 (3 ∷ 2 ∷ 0 ∷ 0 ∷ 0 ∷ 8 ∷ 9 ∷ [], []) ([], 1 ∷ []) 3 (8 ∷ 9 ∷ []) []
      (omega arith) (omega arith) refl
