-- ===== src/Shared/Networking/Transport.antt =====
-- From one end of a connection to the other: `socket_sendPacket`, `socket_getPacket` and
-- `socket_relayPacket` of shared/src/networking.c.
use sisop_2c.Prelude.{
  length-take, take_whole, ℕ, ◌%◌, ◌^◌, ◌<◌, ◌≡◌, refl, ap, ◌∙◌, some, List, [], ◌++◌, arith,
  length, take,
}
use sisop_2c.Shared.Stream.Laws.{written, unread, IsStream}
use sisop_2c.Shared.Networking.Sockets.{
  Sockets, SocketPacket, whole_packet, socket_send_packet, socket_relay_packet, socket_get_packet,
}
use sisop_2c.Shared.Networking.Delivery.{IsDelivering, IsAccepting}
use sisop_2c.Shared.Networking.Framing.{
  packet_bytes, received_packet, socket_get_packet_lem, sent-socket_send_packet,
}

module _ {K L : Type 0} (sockets : Sockets K) (pending : K → List ℕ)
    (delivering : IsDelivering sockets pending) (peer : Sockets L) (sent : L → List ℕ)
    (accepting : IsAccepting peer sent) (fresh : ℕ → ℕ) (unset : ℕ) where
  -- A packet that `socket_sendPacket` sent on a connection is the packet that `socket_getPacket`
  -- gives at the other end: its header, and the bytes written to its payload, to be read from the
  -- first one on. The bytes that the connection carries behind the packet are left for the next
  -- call. The system may cut the bytes into any pieces on either side. The header is a byte, and
  -- the offset of the payload fits in 32 bits.
  pub socket_get_packet-socket_send_packet :
      (l : L) (k : K) (packet : SocketPacket) (rest : List ℕ)
      → packet.header < 256
      → IsStream packet.payload
      → packet.payload.offset < 2 ^ 32
      → sent l ≡ []
      → pending k ≡ sent (socket_send_packet peer l packet) ++ rest
      → (q : SocketPacket) × (k' : K) × (socket_get_packet sockets fresh unset k ≡ (some q, k'))
        × (q.header ≡ packet.header)
        × (unread q.payload ≡ written packet.payload)
        × (pending k' ≡ rest)
  socket_get_packet-socket_send_packet l k packet rest byte v small start e =
      let (k1, got, left) =
        socket_get_packet_lem sockets fresh unset pending delivering k packet.header
          (written packet.payload) rest
          (omega (
            arith,
            length-take packet.payload.offset packet.payload.stream
                (omega (arith, v.sized, v.inside)),
          ))
          (e
            ∙ ap (λ ws. ws ++ rest)
                (sent-socket_send_packet peer sent accepting l packet byte v
                  ∙ ap (λ ws. ws ++ packet_bytes packet.header (written packet.payload)) start)) in
      (received_packet packet.header (written packet.payload), k1, got, refl, refl, left)

  -- A packet that is received and relayed is sent on byte for byte: behind what was sent before
  -- stand the bytes that the packet came with. The header is a byte, and the size fits in 32 bits.
  pub socket_relay_packet-socket_get_packet :
      (k : K) (l : L) (header : ℕ) (body rest : List ℕ)
      → header < 256
      → length body < 2 ^ 32
      → pending k ≡ packet_bytes header body ++ rest
      → (q : SocketPacket) × (k' : K) × (socket_get_packet sockets fresh unset k ≡ (some q, k'))
        × (sent (socket_relay_packet peer l q) ≡ sent l ++ packet_bytes header body)
  unfolding socket_relay_packet
  socket_relay_packet-socket_get_packet k l header body rest byte small e =
      let (k1, got, left) =
        socket_get_packet_lem sockets fresh unset pending delivering k header body rest small e in
      (
        received_packet header body,
        k1,
        got,
        sent-socket_send_packet peer sent accepting l (whole_packet (received_packet header body))
              byte (record { sized = refl; inside = omega arith; small = omega arith })
            ∙ ap (λ bs. sent l ++ packet_bytes header bs)
                (ap (λ n. take n body) {x = length body % 2 ^ 32} (omega arith)
                  ∙ take_whole (length body) body (omega arith)),
      )
