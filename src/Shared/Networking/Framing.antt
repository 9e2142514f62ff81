-- ===== src/Shared/Networking/Framing.antt =====
-- A packet that is sent arrives whole, and a packet that is cut is refused: `socket_sendPacket`,
-- `socket_getPacket`, `socket_relayPacket` and `retry_getPacket` of shared/src/networking.c.
use mathlib.Core.List.{append_assoc}
use sisop_2c.Prelude.{
  length-take, ℕ, zero, suc, ◌%◌, ◌^◌, ◌<◌, ◌≡◌, refl, sym, ap, ap₂, ◌∙◌, none, some, List, [], ◌∷◌,
  ◌++◌, arith, length, take, overwrite,
}
use sisop_2c.Shared.Stream.{bytes_u32, create_stream}
use sisop_2c.Shared.Stream.Laws.{written, IsStream, length-allocated}
use sisop_2c.Shared.Stream.Codec.{u32_bytes-bytes_u32}
use sisop_2c.Shared.Networking.Sockets.{
  Sockets, SocketPacket, socket_get, socket_send_header, socket_send_packet, first_byte, packet_of,
  sized_packet, headed_packet, socket_get_header, socket_get_packet, get_tries, retry_get_packet,
}
use sisop_2c.Shared.Networking.Delivery.{
  IsDelivering, IsAccepting, socket_get_lem, socket_get-closed, sent-socket_send,
}

-- The bytes of a packet on the connection.
abbrev pub packet_bytes : ℕ → List ℕ → List ℕ
packet_bytes header body = header ∷ (bytes_u32 (length body) ++ body)

-- The packet as it is received.
abbrev pub received_packet : ℕ → List ℕ → SocketPacket
received_packet header body = record {
  header = header;
  payload = record { offset = 0; malloc_size = length body; stream = body };
}

overwrite_whole : (bs xs : List ℕ) → length bs ≡ length xs → overwrite bs 0 xs ≡ xs
overwrite_whole [] [] e = refl
overwrite_whole [] (x ∷ xs) e = absurd (omega arith)
overwrite_whole (b ∷ bs) [] e = absurd (omega arith)
overwrite_whole (b ∷ bs) (x ∷ xs) e = ap (◌∷◌ x) (overwrite_whole bs xs (omega arith))

module _ {K : Type 0} (sockets : Sockets K) (fresh : ℕ → ℕ) (unset : ℕ) (pending : K → List ℕ)
    (system : IsDelivering sockets pending) where
  socket_get_header_lem :
      (k : K) (header : ℕ) (rest : List ℕ)
      → pending k ≡ header ∷ rest
      → (k' : K) × (socket_get_header sockets fresh unset k ≡ (header, k')) × (pending k' ≡ rest)
  unfolding socket_get_header
  socket_get_header_lem k header rest e =
      let (k1, got, left) = socket_get_lem sockets pending system k (header ∷ []) rest e in
      (k1, ap (first_byte sockets fresh unset) got, left)

  -- A packet whose bytes are pending is received, and the bytes behind it are left.
  pub socket_get_packet_lem :
      (k : K) (header : ℕ) (body rest : List ℕ)
      → length body < 2 ^ 32
      → pending k ≡ packet_bytes header body ++ rest
      → (k' : K) × (socket_get_packet sockets fresh unset k
          ≡ (some (received_packet header body), k'))
        × (pending k' ≡ rest)
  unfolding socket_get_packet create_stream
  socket_get_packet_lem k header body rest small e =
      let (k1, headed, left1) = socket_get_header_lem k header _ e in
      let (k2, sized, left2) =
        socket_get_lem sockets pending system k1 (bytes_u32 (length body)) (body ++ rest) left1 in
      let (k3, filled, left3) = socket_get_lem sockets pending system k2 body rest left2 in
      (
        k3,
        ap (headed_packet sockets fresh unset) headed
            ∙ ap (sized_packet sockets fresh unset header) sized
            ∙ ap (λ n. packet_of sockets fresh unset header n (socket_get sockets k2 n))
                (u32_bytes-bytes_u32 (length body) small)
            ∙ ap (packet_of sockets fresh unset header (length body)) filled
            ∙ ap
                (λ bs. (
                  some (record {
                    header = header;
                    payload = record { offset = 0; malloc_size = length body; stream = bs };
                  }),
                  k3,
                ))
                (overwrite_whole _ body (length-allocated fresh 0 (length body))),
        left3,
      )

  -- The connection ends before the size of the packet came.
  unsized :
      (k : K) (header : ℕ)
      → length (pending k) < 4
      → (headed_packet sockets fresh unset (header, k)).0 ≡ none
  unsized k header h =
      let (bs, k1, cut, left) = socket_get-closed sockets pending system k 4 h in
      ap (λ r. (sized_packet sockets fresh unset header r).0) cut

  unsized_packet :
      (k : K) (header : ℕ) (rest : List ℕ)
      → pending k ≡ header ∷ rest
      → length rest < 4
      → (socket_get_packet sockets fresh unset k).0 ≡ none
  unfolding socket_get_packet
  unsized_packet k header rest e h =
      let (k1, headed, left) = socket_get_header_lem k header rest e in
      ap (λ r. (headed_packet sockets fresh unset r).0) headed
      ∙ unsized k1 header (omega (arith, ap length left))

  -- A connection that closes when only the first `n` bytes of a packet have come, and not all of
  -- them, gives no packet.
  pub socket_get_packet-take :
      (k : K) (header : ℕ) (body : List ℕ) (n : ℕ)
      → length body < 2 ^ 32
      → n < length (packet_bytes header body)
      → pending k ≡ take n (packet_bytes header body)
      → (socket_get_packet sockets fresh unset k).0 ≡ none
  unfolding socket_get_packet socket_get_header
  socket_get_packet-take k header body zero small h e =
      let (bs, k1, cut, left) =
        socket_get-closed sockets pending system k 1 (omega (arith, ap length e)) in
      ap (λ r. (headed_packet sockets fresh unset (first_byte sockets fresh unset r)).0) cut
      ∙ unsized k1 _ (omega (arith, ap length left))
  socket_get_packet-take k header body (suc zero) small h e =
      unsized_packet k header _ e (omega arith)
  socket_get_packet-take k header body (suc (suc zero)) small h e =
      unsized_packet k header _ e (omega arith)
  socket_get_packet-take k header body (suc (suc (suc zero))) small h e =
      unsized_packet k header _ e (omega arith)
  socket_get_packet-take k header body (suc (suc (suc (suc zero)))) small h e =
      unsized_packet k header _ e (omega arith)
  socket_get_packet-take k header body (suc (suc (suc (suc (suc j))))) small h e =
      let (k1, headed, left1) = socket_get_header_lem k header _ e in
      let (k2, sized, left2) =
        socket_get_lem sockets pending system k1 (bytes_u32 (length body)) (take j body) left1 in
      let (bs, k3, cut, left3) =
        socket_get-closed sockets pending system k2 (length body)
          (omega (arith, ap length left2, length-take j body (omega arith))) in
      ap (λ r. (headed_packet sockets fresh unset r).0) headed
      ∙ ap (λ r. (sized_packet sockets fresh unset header r).0) sized
      ∙ ap (λ n. (packet_of sockets fresh unset header n (socket_get sockets k2 n)).0)
          (u32_bytes-bytes_u32 (length body) small)
      ∙ ap (λ r. (packet_of sockets fresh unset header (length body) r).0) cut

  -- The first try that finds a packet is the last.
  pub retry_get_packet_lem :
      (k : K) (header : ℕ) (body rest : List ℕ)
      → length body < 2 ^ 32
      → pending k ≡ packet_bytes header body ++ rest
      → (k' : K) × (retry_get_packet sockets fresh unset k none
          ≡ (some (received_packet header body), k'))
        × (pending k' ≡ rest)
  unfolding retry_get_packet get_tries
  retry_get_packet_lem k header body rest small e =
      let (k1, got, left) = socket_get_packet_lem k header body rest small e in
      (k1, ap (λ r. get_tries sockets fresh unset 4 r.1 r.0) got, left)

module _ {K : Type 0} (sockets : Sockets K) (sent : K → List ℕ)
    (system : IsAccepting sockets sent) where
  pub sent-socket_send_packet :
      (k : K) (packet : SocketPacket)
      → packet.header < 256
      → IsStream packet.payload
      → sent (socket_send_packet sockets k packet)
        ≡ sent k ++ packet_bytes packet.header (written packet.payload)
  unfolding socket_send_packet socket_send_header
  sent-socket_send_packet k packet byte v =
      sent-socket_send sockets sent system _ (written packet.payload)
      ∙ ap (λ ws. ws ++ written packet.payload)
          (sent-socket_send sockets sent system _ (bytes_u32 packet.payload.offset)
            ∙ ap (λ ws. ws ++ bytes_u32 packet.payload.offset)
                (sent-socket_send sockets sent system k (packet.header % 256 ∷ [])))
      ∙ regroup
    where
      body : List ℕ
      body = written packet.payload

      sized : length body ≡ packet.payload.offset
      sized = length-take _ _ (omega (arith, v.sized, v.inside))

      regroup :
          ((sent k ++ (packet.header % 256 ∷ [])) ++ bytes_u32 packet.payload.offset) ++ body
          ≡ sent k ++ packet_bytes packet.header body
      regroup =
          append_assoc (sent k ++ (packet.header % 256 ∷ [])) (bytes_u32 packet.payload.offset) body
          ∙ append_assoc (sent k) (packet.header % 256 ∷ [])
              (bytes_u32 packet.payload.offset ++ body)
          ∙ ap₂ (λ h n. sent k ++ (h ∷ (bytes_u32 n ++ body))) {x = packet.header % 256}
              (omega arith) (sym sized)
