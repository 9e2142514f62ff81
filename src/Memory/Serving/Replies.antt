-- ===== src/Memory/Serving/Replies.antt =====
-- What the memory sends on the connection of a client: the handlers of
-- memory/src/petitionHandlers.c.
use mathlib.Core.List.{append_assoc, append-nil}
use sisop_2c.Prelude.{
  ℕ, zero, suc, ◌%◌, ◌≡◌, refl, sym, ap, ◌∙◌, Option, none, some, List, [], ◌∷◌, ◌++◌, length, drop,
}
use sisop_2c.Shared.Stream.{bytes_u32}
use sisop_2c.Shared.Networking.{Header, header_code, Packet}
use sisop_2c.Shared.Networking.Sockets.{
  Sockets, sent_some, send_pieces, send_all, socket_send, socket_send_header,
}
use sisop_2c.Shared.Networking.Delivery.{IsAccepting, sent-socket_send}
use sisop_2c.Shared.Networking.Framing.{packet_bytes}
use sisop_2c.Memory.Serving.{Reply, send_packet, send_reply}

-- The bytes of a reply on the connection.
abbrev pub reply_bytes : Reply → List ℕ
reply_bytes Reply.nothing = []
reply_bytes (Reply.answer packet) = packet_bytes (header_code packet.header) packet.payload
reply_bytes (Reply.introduction header packet) =
    header_code header ∷ packet_bytes (header_code packet.header) packet.payload
reply_bytes (Reply.farewell packet) = packet_bytes (header_code packet.header) packet.payload

-- A header is a byte.
header_code-byte : (h : Header) → header_code h % 256 ≡ header_code h
header_code-byte Header.capi_id = refl
header_code-byte Header.sem_init = refl
header_code-byte Header.sem_wait = refl
header_code-byte Header.sem_post = refl
header_code-byte Header.sem_destroy = refl
header_code-byte Header.call_io = refl
header_code-byte Header.memalloc = refl
header_code-byte Header.memfree = refl
header_code-byte Header.memread = refl
header_code-byte Header.memwrite = refl
header_code-byte Header.suspend = refl
header_code-byte Header.capi_term = refl
header_code-byte Header.disconnected = refl
header_code-byte Header.max_petitions = refl
header_code-byte Header.id_kernel = refl
header_code-byte Header.id_memoria = refl
header_code-byte Header.ok = refl
header_code-byte Header.error = refl
header_code-byte Header.pointer = refl
header_code-byte Header.mem_chunk = refl

module _ {K : Type 0} (sockets : Sockets K) (sent : K → List ℕ)
    (accepting : IsAccepting sockets sent) where
  sent-socket_send_header :
      (k : K) (h : Header)
      → sent (socket_send_header sockets k (header_code h)) ≡ sent k ++ header_code h ∷ []
  unfolding socket_send_header
  sent-socket_send_header k h =
      sent-socket_send sockets sent accepting k (header_code h % 256 ∷ [])
      ∙ ap (λ b. sent k ++ b ∷ []) (header_code-byte h)

  sent-send_packet :
      (k : K) (p : Packet)
      → sent (send_packet sockets k p) ≡ sent k ++ packet_bytes (header_code p.header) p.payload
  unfolding send_packet
  sent-send_packet k p =
      sent-socket_send sockets sent accepting _ p.payload
      ∙ ap (λ ws. ws ++ p.payload)
          (sent-socket_send sockets sent accepting _ (bytes_u32 (length p.payload))
            ∙ ap (λ ws. ws ++ bytes_u32 (length p.payload)) (sent-socket_send_header k p.header))
      ∙ append_assoc _ (bytes_u32 (length p.payload)) p.payload
      ∙ append_assoc (sent k) (header_code p.header ∷ []) _

  pub sent-send_reply :
      (k : K) (r : Reply) → sent (send_reply sockets k r) ≡ sent k ++ reply_bytes r
  unfolding send_reply
  sent-send_reply k Reply.nothing = sym (append-nil (sent k))
  sent-send_reply k (Reply.answer p) = sent-send_packet k p
  sent-send_reply k (Reply.introduction h p) =
      sent-send_packet _ p
      ∙ ap (λ ws. ws ++ packet_bytes (header_code p.header) p.payload) (sent-socket_send_header k h)
      ∙ append_assoc (sent k) (header_code h ∷ []) _
  sent-send_reply k (Reply.farewell p) = sent-send_packet k p

-- Sending takes nothing of what is still to come.
module _ {K : Type 0} (sockets : Sockets K) (pending : K → List ℕ)
    (patient : (k : K) (bs : List ℕ) → pending (sockets.send k bs).1 ≡ pending k) where
  pending-send_pieces :
      (rounds : ℕ) (k : K) (bs : List ℕ) → pending (send_pieces sockets rounds k bs).1 ≡ pending k
  unfolding send_pieces
  pending-send_pieces zero k bs = refl
  pending-send_pieces (suc rounds) k [] = refl
  pending-send_pieces (suc rounds) k (b ∷ bs) =
      step (pending-send_pieces rounds) (sockets.send k (b ∷ bs)) ∙ patient k (b ∷ bs)
    where
      step :
          ((k' : K) (ws : List ℕ) → pending (send_pieces sockets rounds k' ws).1 ≡ pending k')
          → (r : Option ℕ × K)
          → pending (sent_some (send_pieces sockets rounds) bs r).1 ≡ pending r.1
      step further (none, k') = refl
      step further (some zero, k') = refl
      step further (some (suc j), k') = further k' (drop j bs)

  pending-socket_send : (k : K) (bs : List ℕ) → pending (socket_send sockets k bs) ≡ pending k
  unfolding socket_send send_all
  pending-socket_send k bs = pending-send_pieces (length bs) k bs

  pending-send_packet : (k : K) (p : Packet) → pending (send_packet sockets k p) ≡ pending k
  unfolding send_packet socket_send_header
  pending-send_packet k p =
      pending-socket_send _ p.payload
      ∙ pending-socket_send _ (bytes_u32 (length p.payload))
      ∙ pending-socket_send k (header_code p.header % 256 ∷ [])

  pub pending-send_reply : (k : K) (r : Reply) → pending (send_reply sockets k r) ≡ pending k
  unfolding send_reply socket_send_header
  pending-send_reply k Reply.nothing = refl
  pending-send_reply k (Reply.answer p) = pending-send_packet k p
  pending-send_reply k (Reply.introduction h p) =
      pending-send_packet _ p ∙ pending-socket_send k (header_code h % 256 ∷ [])
  pending-send_reply k (Reply.farewell p) = pending-send_packet k p
