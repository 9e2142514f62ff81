-- ===== src/Memory/Serving/Sessions.antt =====
-- The petitions of a client, one after the other: `petitionHandler` of memory/src/memory.c.
use mathlib.Core.List.{append_assoc}
use sisop_2c.Prelude.{
  ℕ, zero, suc, ◌<◌, ◌^◌, ◌≡◌, refl, sym, ap, ◌∙◌, true, some, List, [], ◌∷◌, ◌++◌, if◌then◌else◌,
  arith, length,
}
use sisop_2c.Shared.Commons.{Lists, Dictionaries}
use sisop_2c.Shared.Networking.{Header, header_code, empty_packet}
use sisop_2c.Shared.Networking.Sockets.{Sockets}
use sisop_2c.Shared.Networking.Delivery.{IsDelivering, IsAccepting}
use sisop_2c.Shared.Networking.Framing.{packet_bytes, received_packet, socket_get_packet_lem}
use sisop_2c.Shared.Networking.Quiet.{sent-socket_get_packet}
use sisop_2c.Memory.Frames.{MemoryConfig}
use sisop_2c.Memory.Paging.{SwapServer}
use sisop_2c.Memory.Access.{Assignment, Replacement, Memory}
use sisop_2c.Memory.Petitions.{disconnected_handler}
use sisop_2c.Memory.Serving.{
  Reply, Round, keeps_serving, send_reply, handle, replied, handled, retried, serve_round, follow,
  serve,
}
use sisop_2c.Memory.Serving.Replies.{reply_bytes, sent-send_reply, pending-send_reply}

-- The bytes of petitions on the connection, a header and a payload each.
unfoldable pub petition_bytes : List (ℕ × List ℕ) → List ℕ
petition_bytes [] = []
petition_bytes ((header, body) ∷ ps) = packet_bytes header body ++ petition_bytes ps

module _ {D S : Type 0} (lib : Lists) (dicts : Dictionaries D) (string_itoa : ℕ → List ℕ)
    (server : SwapServer S) (config : MemoryConfig) (assignment : Assignment)
    (replacement : Replacement) (fresh_table : Memory D S → ℕ) (alloc_rounds : ℕ) where
  -- The handlers take the memory from `m` to `m'` through the petitions, none of which is a farewell,
  -- and their replies are the bytes `out`.
  unfoldable pub Answers : Memory D S → List (ℕ × List ℕ) → List ℕ → Memory D S → Type 0
  Answers m [] out m' = (out ≡ []) × (m' ≡ m)
  Answers m ((header, body) ∷ ps) out m' =
      (reply : Reply) × (m1 : Memory D S) × (later : List ℕ) × (length body < 2 ^ 32)
      × (handle lib dicts string_itoa server config assignment replacement fresh_table alloc_rounds
            m (received_packet header body)
          ≡ some (reply, m1))
      × (keeps_serving reply ≡ true)
      × (out ≡ reply_bytes reply ++ later)
      × Answers m1 ps later m'

  module _ {K : Type 0} (sockets : Sockets K) (pending sent : K → List ℕ)
      (delivering : IsDelivering sockets pending) (accepting : IsAccepting sockets sent)
      (quiet : (k : K) (n : ℕ) → sent (sockets.recv k n).1 ≡ sent k)
      (patient : (k : K) (bs : List ℕ) → pending (sockets.send k bs).1 ≡ pending k) (fresh : ℕ → ℕ)
      (unset : ℕ) where
    -- A petition that came is handled, and its reply sent.
    serve_round_lem :
        (k : K) (m : Memory D S) (header : ℕ) (body rest : List ℕ) (reply : Reply) (m' : Memory D S)
        → length body < 2 ^ 32
        → pending k ≡ packet_bytes header body ++ rest
        → handle lib dicts string_itoa server config assignment replacement fresh_table alloc_rounds
            m
            (received_packet header body)
          ≡ some (reply, m')
        → (k' : K) × (serve_round lib dicts string_itoa server config assignment replacement
              fresh_table alloc_rounds sockets fresh unset k m
            ≡ (if keeps_serving reply then Round.served k' m' else Round.left k' m'))
          × (sent k' ≡ sent k ++ reply_bytes reply)
          × (pending k' ≡ rest)
    unfolding serve_round
    serve_round_lem k m header body rest reply m' small e h =
        let (k1, got, left) =
          socket_get_packet_lem sockets fresh unset pending delivering k header body rest small e in
        (
          send_reply sockets k1 reply,
          ap
                (λ r.
                  handled lib dicts string_itoa server config assignment replacement fresh_table
                    alloc_rounds sockets fresh unset m
                    (retried lib dicts string_itoa server config assignment replacement fresh_table
                      alloc_rounds sockets fresh unset r))
                got
              ∙ ap
                  (replied lib dicts string_itoa server config assignment replacement fresh_table
                    alloc_rounds sockets fresh unset k1)
                  h,
          sent-send_reply sockets sent accepting k1 reply
              ∙ ap (λ ws. ws ++ reply_bytes reply)
                  (sym (ap (λ r. sent r.1) got)
                    ∙ sent-socket_get_packet sockets sent quiet fresh unset k),
          pending-send_reply sockets pending patient k1 reply ∙ left,
        )

    -- Whatever the pieces that the bytes of a client come in: when the petitions of a client come, and
    -- then DISCONNECTED, and the handlers take the memory through the petitions, the loop on more
    -- rounds than there are petitions ends in the state after the last of them. It has sent the
    -- replies in the order of the petitions, and then OK, and left the bytes behind DISCONNECTED
    -- unread.
    pub serve-Answers :
        (ps : List (ℕ × List ℕ)) (rounds : ℕ) (k : K) (m m' : Memory D S) (out rest : List ℕ)
        → Answers m ps out m'
        → pending k
          ≡ petition_bytes ps ++ (packet_bytes (header_code Header.disconnected) [] ++ rest)
        → length ps < rounds
        → (k' : K) × (serve lib dicts string_itoa server config assignment replacement fresh_table
              alloc_rounds sockets fresh unset rounds k m
            ≡ some (k', m'))
          × (sent k' ≡ sent k ++ (out ++ packet_bytes (header_code Header.ok) []))
          × (pending k' ≡ rest)
    unfolding serve petition_bytes Answers handle disconnected_handler
    serve-Answers ps zero k m m' out rest a e h = absurd (omega arith)
    serve-Answers [] (suc rounds) k m m' out rest (o, s) e h =
        let (k', round, said, left) =
          serve_round_lem k m (header_code Header.disconnected) [] rest
            (Reply.farewell (empty_packet Header.ok)) m (omega arith) e refl in
        (
          k',
          ap
                (follow lib dicts string_itoa server config assignment replacement fresh_table
                  alloc_rounds sockets fresh unset _ m)
                round
              ∙ ap (λ x. some (k', x)) (sym s),
          said ∙ ap (λ ws. sent k ++ (ws ++ packet_bytes (header_code Header.ok) [])) (sym o),
          left,
        )
    serve-Answers ((header, body) ∷ ps) (suc rounds) k m m' out rest
          (reply, m1, later, small, done, keeps, o, a) e h =
        let (k1, round, said, left) =
          serve_round_lem k m header body _ reply m1 small
            (e ∙ append_assoc (packet_bytes header body) (petition_bytes ps) _) done in
        let (k', ends, replies, after) =
          serve-Answers ps rounds k1 m1 m' later rest a left (omega arith) in
        (
          k',
          ap
                (follow lib dicts string_itoa server config assignment replacement fresh_table
                  alloc_rounds sockets fresh unset _ m)
                (round ∙ ap (λ b. if b then Round.served k1 m1 else Round.left k1 m1) keeps)
              ∙ ends,
          replies
              ∙ ap (λ ws. ws ++ (later ++ packet_bytes (header_code Header.ok) [])) said
              ∙ append_assoc (sent k) (reply_bytes reply) _
              ∙ ap (λ ws. sent k ++ ws)
                  (sym (append_assoc (reply_bytes reply) later _)
                    ∙ ap (λ ws. ws ++ packet_bytes (header_code Header.ok) []) (sym o)),
          after,
        )
