-- ===== src/Shared/Networking/Sockets.antt =====
-- Packets sent and received over a connection: shared/src/networking.c.
--
-- `recv` and `send` are the system's, and arguments of the model: a connection is a state `K` that
-- each call changes. `guard_syscall` only logs, so that a failed call goes on.
use sisop_2c.Prelude.{
  ℕ, zero, suc, ◌-◌, ◌%◌, ◌^◌, Bool, true, false, Option, none, some, List, [], ◌∷◌, ◌++◌, length,
  take, drop, get_or, overwrite,
}
use sisop_2c.Shared.Stream.{StreamBuffer, bytes_u32, u32_bytes, create_stream}

-- What `recv` gives for a size: -1 (`none`), or the bytes that came, where no byte is the result 0.
-- What `send` gives for bytes: -1 (`none`), or how many of them it took.
pub record Sockets (K : Type 0) : Type 0 where
  pub recv : K → ℕ → Option (List ℕ) × K
  pub send : K → List ℕ → Option ℕ × K

-- The results -1, 0 and 1 of `send_all` and `recv_all`.
pub data Transfer : Type 0 where
  failed closed complete : Transfer

abbrev pub is_complete : Transfer → Bool
is_complete Transfer.failed = false
is_complete Transfer.closed = false
is_complete Transfer.complete = true

-- `t_packet`, as it stands in memory.
pub record SocketPacket : Type 0 where
  pub header : ℕ
  pub payload : StreamBuffer

-- The offset set to the end of the payload.
abbrev pub whole_packet : SocketPacket → SocketPacket
whole_packet packet = record packet {
  payload = record packet.payload { offset = packet.payload.malloc_size % 2 ^ 32 };
}

abbrev pub put_before : List ℕ → {K : Type 0} → Transfer × List ℕ × K → Transfer × List ℕ × K
put_before bs r = (r.0, bs ++ r.1, r.2)

-- What a round of `recv_all` does with what `recv` gave, when `suc n` bytes are missing.
abbrev pub received :
    {K : Type 0} → (K → ℕ → Transfer × List ℕ × K) → ℕ → Option (List ℕ) × K → Transfer × List ℕ × K
received next n (none, k) = (Transfer.failed, [], k)
received next n (some [], k) = (Transfer.closed, [], k)
received next n (some (b ∷ bs), k) = put_before (b ∷ bs) (next k (suc n - length (b ∷ bs)))

-- What a round of `send_all` does with what `send` gave, when `bs` follow the first byte.
abbrev pub sent_some :
    {K : Type 0} → (K → List ℕ → Transfer × K) → List ℕ → Option ℕ × K → Transfer × K
sent_some next bs (none, k) = (Transfer.failed, k)
sent_some next bs (some zero, k) = (Transfer.closed, k)
sent_some next bs (some (suc j), k) = next k (drop j bs)

-- `socket_get`: whether all the bytes came.
abbrev pub get_result : {K : Type 0} → Transfer × List ℕ × K → Bool × List ℕ × K
get_result r = (is_complete r.0, r.1, r.2)

module _ {K : Type 0} (sockets : Sockets K) where
  open sockets use {recv, send}

  -- The loop of `recv_all` on at most `rounds` rounds, with the bytes that reach `dest`.
  unfoldable pub recv_pieces : ℕ → K → ℕ → Transfer × List ℕ × K
  recv_pieces zero k size = (Transfer.complete, [], k)
  recv_pieces (suc rounds) k zero = (Transfer.complete, [], k)
  recv_pieces (suc rounds) k (suc n) = received (recv_pieces rounds) n (recv k (suc n))

  -- Each round receives a byte, so `size` rounds are enough.
  unfoldable pub recv_all : K → ℕ → Transfer × List ℕ × K
  unfolding recv_pieces
  recv_all k size = recv_pieces size k size

  -- The loop of `send_all` on at most `rounds` rounds.
  unfoldable pub send_pieces : ℕ → K → List ℕ → Transfer × K
  send_pieces zero k bs = (Transfer.complete, k)
  send_pieces (suc rounds) k [] = (Transfer.complete, k)
  send_pieces (suc rounds) k (b ∷ bs) = sent_some (send_pieces rounds) bs (send k (b ∷ bs))

  unfoldable pub send_all : K → List ℕ → Transfer × K
  unfolding send_pieces
  send_all k buffer = send_pieces (length buffer) k buffer

  -- The result of `send_all` is only logged.
  unfoldable pub socket_send : K → List ℕ → K
  unfolding send_all
  socket_send k source = (send_all k source).1

  unfoldable pub socket_send_header : K → ℕ → K
  unfolding socket_send
  socket_send_header k header = socket_send k (header % 256 ∷ [])

  unfoldable pub socket_send_packet : K → SocketPacket → K
  unfolding socket_send_header
  socket_send_packet k packet =
      let k1 = socket_send_header k packet.header in
      let k2 = socket_send k1 (bytes_u32 packet.payload.offset) in
      socket_send k2 (take packet.payload.offset packet.payload.stream)

  unfoldable pub socket_relay_packet : K → SocketPacket → K
  unfolding socket_send_packet
  socket_relay_packet k packet = socket_send_packet k (whole_packet packet)

  unfoldable pub socket_get : K → ℕ → Bool × List ℕ × K
  unfolding recv_all
  socket_get k zero = (true, [], k)
  socket_get k (suc n) = get_result (recv_all k (suc n))

  module _ (fresh : ℕ → ℕ) (unset : ℕ) where
    abbrev pub first_byte : Bool × List ℕ × K → ℕ × K
    first_byte (done, bs, k) = (get_or bs 0 unset, k)

    -- `unset` is the value of `header` when no byte comes: the variable has no initial value.
    unfoldable pub socket_get_header : K → ℕ × K
    unfolding socket_get
    socket_get_header k = first_byte (socket_get k 1)

    -- The payload of the packet is read: `got` is what `socket_get` gave for it.
    abbrev pub packet_of : ℕ → ℕ → Bool × List ℕ × K → Option SocketPacket × K
    packet_of header size (false, bs, k) = (none, k)
    packet_of header size (true, bs, k) =
        let payload = create_stream fresh size in
        (
          some (record {
            header = header;
            payload = record payload { stream = overwrite payload.stream 0 bs };
          }),
          k,
        )

    -- The size of the packet is read.
    abbrev pub sized_packet : ℕ → Bool × List ℕ × K → Option SocketPacket × K
    sized_packet header (false, bs, k) = (none, k)
    sized_packet header (true, bs, k) =
        packet_of header (u32_bytes bs) (socket_get k (u32_bytes bs))

    abbrev pub headed_packet : ℕ × K → Option SocketPacket × K
    headed_packet (header, k) = sized_packet header (socket_get k 4)

    -- NULL is `none`.
    unfoldable pub socket_get_packet : K → Option SocketPacket × K
    unfolding socket_get_header
    socket_get_packet k = headed_packet (socket_get_header k)

    -- The loop of `retry_getPacket`.
    unfoldable pub get_tries : ℕ → K → Option SocketPacket → Option SocketPacket × K
    unfolding socket_get_packet
    get_tries zero k packet = (packet, k)
    get_tries (suc tries) k (some packet) = (some packet, k)
    get_tries (suc tries) k none =
        let (packet, k') = socket_get_packet k in get_tries tries k' packet

    unfoldable pub retry_get_packet : K → Option SocketPacket → Option SocketPacket × K
    unfolding get_tries
    retry_get_packet k packet = get_tries 5 k packet
