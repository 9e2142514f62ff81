-- ===== src/Tests/Sessions.antt =====
-- The memory on the connection of a client, at concrete petitions.
use sisop_2c.Prelude.{ℕ, ◌≡◌, refl, some, List, [], ◌∷◌, ◌++◌, arith}
use sisop_2c.Shared.Commons.{plain_lists}
use sisop_2c.Shared.Stream.{stream_take, stream_take_uint32, stream_take_int32}
use sisop_2c.Shared.Networking.{empty_packet, Header}
use sisop_2c.Memory.Paging.{get_page_table}
use sisop_2c.Memory.Access.{Assignment, Replacement, Memory}
use sisop_2c.Memory.Petitions.{capi_id_handler, valid_malloc_address}
use sisop_2c.Memory.Petitions.Allocator.{memfree_handler, memfree}
use sisop_2c.Memory.Serving.{Reply, handle, serve}
use sisop_2c.Memory.Serving.Sessions.{Answers, petition_bytes, serve-Answers}
use sisop_2c.Tests.{Table, tables, digits}
use sisop_2c.Tests.Memory.{counting_server, small_config, with_page}
use sisop_2c.Tests.Wires.{
  Wire, wires, inbox, outbox, wires-IsDelivering, wires-IsAccepting, wires-IsQuiet, zeros,
}

pub wires-IsPatient : (w : Wire) (bs : List ℕ) → inbox (wires.send w bs).1 ≡ inbox w
wires-IsPatient w [] = refl
wires-IsPatient w (b ∷ bs) = refl

-- Process 7 introduces itself, and frees address 9, but has no page.
abbrev petitions : List (ℕ × List ℕ)
petitions = (0, 7 ∷ 0 ∷ 0 ∷ 0 ∷ []) ∷ (7, 7 ∷ 0 ∷ 0 ∷ 0 ∷ 9 ∷ 0 ∷ 0 ∷ 0 ∷ []) ∷ []

abbrev known : Memory Table ℕ
unfolding capi_id_handler stream_take stream_take_uint32
known =
    (capi_id_handler plain_lists tables digits counting_server small_config Assignment.globally
      Replacement.by_lru 5 with_page
      (record { offset = 0; malloc_size = 4; stream = 7 ∷ 0 ∷ 0 ∷ 0 ∷ [] })).2

abbrev replies : List ℕ
replies = 15 ∷ 16 ∷ 0 ∷ 0 ∷ 0 ∷ 0 ∷ 17 ∷ 0 ∷ 0 ∷ 0 ∷ 0 ∷ []

answered_both :
    Answers plain_lists tables digits counting_server small_config Assignment.globally
      Replacement.by_lru
      (λ m. 5)
      1
      with_page
      petitions
      replies
      known
unfolding Answers handle capi_id_handler known memfree_handler memfree valid_malloc_address
    get_page_table stream_take stream_take_uint32 stream_take_int32 plain_lists
answered_both = (
  Reply.introduction Header.id_memoria (empty_packet Header.ok),
  known,
  17 ∷ 0 ∷ 0 ∷ 0 ∷ 0 ∷ [],
  omega arith,
  refl,
  refl,
  refl,
  (
    Reply.answer (empty_packet Header.error),
    known,
    [],
    omega arith,
    refl,
    refl,
    refl,
    (refl, refl),
  ),
)

serve-Answers_example :
    (k' : Wire) × (serve plain_lists tables digits counting_server small_config Assignment.globally
        Replacement.by_lru
        (λ m. 5)
        1
        wires
        zeros
        0
        3
        (petition_bytes petitions ++ (12 ∷ 0 ∷ 0 ∷ 0 ∷ 0 ∷ 4 ∷ []), [])
        with_page
      ≡ some (k', known))
    × (outbox k' ≡ replies ++ (16 ∷ 0 ∷ 0 ∷ 0 ∷ 0 ∷ []))
    × (inbox k' ≡ 4 ∷ [])
serve-Answers_example =
    serve-Answers plain_lists tables digits counting_server small_config Assignment.globally
      Replacement.by_lru (λ m. 5) 1 wires inbox outbox wires-IsDelivering wires-IsAccepting
      wires-IsQuiet wires-IsPatient zeros 0 petitions 3
      (petition_bytes petitions ++ (12 ∷ 0 ∷ 0 ∷ 0 ∷ 0 ∷ 4 ∷ []), []) with_page known replies
      (4 ∷ []) answered_both refl (omega arith)
