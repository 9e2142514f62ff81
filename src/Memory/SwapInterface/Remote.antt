-- ===== src/Memory/SwapInterface/Remote.antt =====
-- A request of the memory is the call of the swap server that it names: memory/src/swapInterface.c against the loop of
-- `main` in swamp/src/swap.c and the handlers of swamp/src/petitionHandlers.c.
use sisop_2c.Swamp.Swap.RoundTrip.{IsSwap, read_page_of-global}
use sisop_2c.Prelude.{
  take_whole, some_injective, sym, ℕ, ◌+◌, ◌^◌, ◌<◌, ◌≡◌, refl, ap, ◌∙◌, Bool, true, false, Option,
  none, some, List, [], ◌∷◌, zero, suc, arith, length, take, if◌then◌else◌,
}
use sisop_2c.Shared.Commons.{Lists}
use sisop_2c.Shared.Stream.{stream_take}
use sisop_2c.Shared.Networking.{SwapHeader, swap_code}
use sisop_2c.Shared.Networking.Framing.{received_packet}
use sisop_2c.Swamp.SwapFile.{PageMetadata}
use sisop_2c.Swamp.Swap.{
  SwapConfig, Swap, Answer, Assignment, assign, save_page_of, read_page_of, destroy_page_of,
}
use sisop_2c.Swamp.Swap.Serving.{handle}
use sisop_2c.Swamp.Swap.Answering.{
  request_fields, answer_body, answer_code, save_page-fields, read_page-fields, destroy_page-fields,
}
use sisop_2c.Memory.SwapInterface.Protocol.{
  save_request-Requests, page_request-Requests, Endpoint, Exchanged, exchange_lem,
}
use sisop_2c.Memory.SwapInterface.{
  page_request, save_request, saved, loaded, erased, swap_interface_save_page,
  swap_interface_load_page, swap_interface_erase_page,
}

-- What the memory makes of an answer to a load: the page, or NULL.
abbrev pub page_of : SwapConfig → Answer → Option (List ℕ)
page_of config Answer.swap_ok = none
page_of config Answer.swap_error = none
page_of config (Answer.page_data bytes) = some (take config.page_size bytes)

abbrev pub accepted : Answer → Bool
accepted Answer.swap_ok = true
accepted Answer.swap_error = false
accepted (Answer.page_data bytes) = false

take_twice : (n : ℕ) (xs : List ℕ) → take n (take n xs) ≡ take n xs
take_twice zero xs = refl
take_twice (suc n) [] = refl
take_twice (suc n) (x ∷ xs) = ap (◌∷◌ x) (take_twice n xs)

module _ {K L : Type 0} (memory : Endpoint K) (swamp : Endpoint L) (fresh : ℕ → ℕ) (unset : ℕ)
    (beyond : ℕ → PageMetadata) (lib : Lists) (config : SwapConfig) where
  -- A page that the memory saves over the connection is saved by the server with its assignment
  -- algorithm, and the memory learns whether it was accepted. The PID and the page number fit in 32
  -- bits, the page has the size that both configurations give, and a request fits in 32 bits.
  pub swap_interface_save_page-Exchanged :
      (algorithm : Assignment) (k : K) (l : L) (s s' : Swap) (pid page : ℕ) (content : List ℕ)
      → pid < 2 ^ 32
      → page < 2 ^ 32
      → length content ≡ config.page_size
      → config.page_size + 72 < 2 ^ 32
      → Exchanged memory swamp fresh unset beyond lib config algorithm k
          (save_request fresh config.page_size pid page content)
          l
          s
          s'
      → ((swap_interface_save_page memory.sockets fresh unset config.page_size k pid page content).0
          ≡ some (assign beyond lib config algorithm s pid page content).0)
        × (s' ≡ (assign beyond lib config algorithm s pid page content).1)
  unfolding swap_interface_save_page save_page_of handle
  swap_interface_save_page-Exchanged algorithm k l s s' pid page content p g sized fits x =
      let (got, same) =
        exchange_lem memory swamp fresh unset beyond lib config
          (save_request fresh config.page_size pid page content) (request_fields pid page content)
          (save_page_of beyond lib config algorithm s pid page content).0
          (save_page_of beyond lib config algorithm s pid page content).1 (omega arith)
          (omega arith) (save_request-Requests fresh config.page_size pid page content sized fits)
          read x in
      (ap saved got ∙ understood (assign beyond lib config algorithm s pid page content).0, same)
    where
      read :
          handle beyond lib config algorithm s
            (received_packet (swap_code SwapHeader.save_page) (request_fields pid page content))
          ≡ some (save_page_of beyond lib config algorithm s pid page content)
      read = ap some (
          save_page-fields beyond lib config algorithm s
            (received_packet (swap_code SwapHeader.save_page)
              (request_fields pid page content)).payload
            pid page content p g sized (omega arith) refl)

      understood :
          (rc : Bool)
          → saved (
              some (
                received_packet
                  (answer_code (if rc then Answer.swap_ok else Answer.swap_error))
                  (answer_body config (if rc then Answer.swap_ok else Answer.swap_error))))
            ≡ some rc
      understood true = refl
      understood false = refl

  -- What the memory gets for a page it loads over the connection is what the server reads for the
  -- page, and NULL where it answers with an error; the server keeps its state. The PID and the page
  -- number fit in 32 bits, and a page fits in a packet.
  pub swap_interface_load_page-Exchanged :
      (algorithm : Assignment) (k : K) (l : L) (s s' : Swap) (pid page : ℕ)
      → pid < 2 ^ 32
      → page < 2 ^ 32
      → config.page_size + 72 < 2 ^ 32
      → Exchanged memory swamp fresh unset beyond lib config algorithm k
          (page_request fresh SwapHeader.read_page pid page)
          l
          s
          s'
      → ((swap_interface_load_page memory.sockets fresh unset config.page_size k pid page).0
          ≡ some (page_of config (read_page_of lib s pid page)))
        × (s' ≡ s)
  unfolding swap_interface_load_page handle stream_take
  swap_interface_load_page-Exchanged algorithm k l s s' pid page p g fits x =
      let (got, same) =
        exchange_lem memory swamp fresh unset beyond lib config
          (page_request fresh SwapHeader.read_page pid page) (request_fields pid page [])
          (read_page_of lib s pid page) s (omega arith) (omega arith)
          (page_request-Requests fresh SwapHeader.read_page pid page) read x in
      (ap (loaded config.page_size) got ∙ understood (read_page_of lib s pid page), same)
    where
      read :
          handle beyond lib config algorithm s
            (received_packet (swap_code SwapHeader.read_page) (request_fields pid page []))
          ≡ some (read_page_of lib s pid page, s)
      read = ap some (
          read_page-fields lib s
            (received_packet (swap_code SwapHeader.read_page) (request_fields pid page [])).payload
            pid page p g (omega arith) refl)

      understood :
          (answer : Answer)
          → loaded config.page_size
              (some (received_packet (answer_code answer) (answer_body config answer)))
            ≡ some (page_of config answer)
      understood Answer.swap_ok = refl
      understood Answer.swap_error = refl
      understood (Answer.page_data bytes) =
          ap (λ bs. some (some bs)) (take_twice config.page_size bytes)

  swap_interface_erase_page-Exchanged :
      (algorithm : Assignment) (k : K) (l : L) (s s' : Swap) (pid page : ℕ)
      → pid < 2 ^ 32
      → page < 2 ^ 32
      → config.page_size + 72 < 2 ^ 32
      → Exchanged memory swamp fresh unset beyond lib config algorithm k
          (page_request fresh SwapHeader.destroy_page pid page)
          l
          s
          s'
      → ((swap_interface_erase_page memory.sockets fresh unset config.page_size k pid page).0
          ≡ some (accepted (destroy_page_of lib s pid page).0))
        × (s' ≡ (destroy_page_of lib s pid page).1)
  unfolding swap_interface_erase_page handle
  swap_interface_erase_page-Exchanged algorithm k l s s' pid page p g fits x =
      let (got, same) =
        exchange_lem memory swamp fresh unset beyond lib config
          (page_request fresh SwapHeader.destroy_page pid page) (request_fields pid page [])
          (destroy_page_of lib s pid page).0 (destroy_page_of lib s pid page).1 (omega arith)
          (omega arith) (page_request-Requests fresh SwapHeader.destroy_page pid page) read x in
      (ap erased got ∙ understood (destroy_page_of lib s pid page).0, same)
    where
      read :
          handle beyond lib config algorithm s
            (received_packet (swap_code SwapHeader.destroy_page) (request_fields pid page []))
          ≡ some (destroy_page_of lib s pid page)
      read = ap some (
          destroy_page-fields lib s
            (received_packet (swap_code SwapHeader.destroy_page)
              (request_fields pid page [])).payload
            pid page p g (omega arith) refl)

      understood :
          (answer : Answer)
          → erased (some (received_packet (answer_code answer) (answer_body config answer)))
            ≡ some (accepted answer)
      understood Answer.swap_ok = refl
      understood Answer.swap_error = refl
      understood (Answer.page_data bytes) = refl

  -- With global assignment, a page that the memory saved over the connection, and that the server
  -- accepted, is what the memory gets when it next loads that page, byte for byte. Before the save
  -- the swap files are valid and their pages have the size of the content; the PID and the page number
  -- fit in 32 bits, the page has the size that both configurations give, and a request fits in 32
  -- bits.
  pub swap_interface_load_page-swap_interface_save_page :
      (k k2 : K) (l l2 : L) (s s1 s2 : Swap) (pid page : ℕ) (content : List ℕ)
      → pid < 2 ^ 32
      → page < 2 ^ 32
      → length content ≡ config.page_size
      → config.page_size + 72 < 2 ^ 32
      → IsSwap s (length content)
      → Exchanged memory swamp fresh unset beyond lib config Assignment.globally k
          (save_request fresh config.page_size pid page content)
          l
          s
          s1
      → (swap_interface_save_page memory.sockets fresh unset config.page_size k pid page content).0
        ≡ some true
      → Exchanged memory swamp fresh unset beyond lib config Assignment.globally k2
          (page_request fresh SwapHeader.read_page pid page)
          l2
          s1
          s2
      → (swap_interface_load_page memory.sockets fresh unset config.page_size k2 pid page).0
        ≡ some (some content)
  unfolding assign
  swap_interface_load_page-swap_interface_save_page k k2 l l2 s s1 s2 pid page content p g sized
        fits v save ok load =
      let (told, after) =
        swap_interface_save_page-Exchanged Assignment.globally k l s s1 pid page content p g sized
          fits save in
      let back =
        read_page_of-global beyond lib config s pid page content v
          (some_injective (sym told ∙ ok)) in
      (swap_interface_load_page-Exchanged Assignment.globally k2 l2 s1 s2 pid page p g fits load).0
      ∙ ap (λ t. some (page_of config (read_page_of lib t pid page))) after
      ∙ ap (λ answer. some (page_of config answer)) back.read
      ∙ ap (λ bs. some (some bs))
          (ap (λ n. take n content) (sym sized) ∙ take_whole (length content) content (omega arith))
