-- ===== src/Tests/Netpack.antt =====
-- lualib-src/lua-netpack.c at work.
use ue4_background.Netpack.Stream.{
  NoneEmpty, arrive_all_lem, Divided, Piece, arrive_all, packages_of, sent,
}
use ue4_background.Netpack.Chains.{Holds}
use ue4_background.Netpack.{more, push_more, start, find_uncomplete, filter_data, new_queue, pack}
use ue4_background.Netpack.Pack.{arrive_all-pack_all, pack_all}
use ue4_background.Prelude.{ℕ, ◌≡◌, refl, some, List, [], ◌∷◌, arith}

abbrev two_streams : List Piece
two_streams = (3, 0 ∷ []) ∷ (5, 0 ∷ 1 ∷ 4 ∷ []) ∷ (3, 1 ∷ 7 ∷ 0 ∷ []) ∷ (3, 2 ∷ 8 ∷ 9 ∷ []) ∷ []

two_streams-NoneEmpty : NoneEmpty two_streams
two_streams-NoneEmpty = (omega arith, (omega arith, (omega arith, (omega arith, tt))))

abbrev two_messages : List (List ℕ)
two_messages = (7 ∷ []) ∷ (8 ∷ 9 ∷ []) ∷ []

packed : pack_all two_messages ≡ some (sent 3 two_streams)
unfolding pack_all pack
packed = refl

arrive_all-pack_all_example : packages_of 3 (arrive_all new_queue two_streams).0 ≡ two_messages
arrive_all-pack_all_example =
    arrive_all-pack_all 3 two_messages two_streams packed two_streams-NoneEmpty

new_queue-Holds : (fd : ℕ) → Holds new_queue fd []
unfolding new_queue
new_queue-Holds fd = (refl, refl)

new_queue-queue : new_queue.queue ≡ []
unfolding new_queue
new_queue-queue = refl

arrive_all_lem_example :
    ((arrive_all new_queue two_streams).1.queue ≡ [])
    × ((fd : ℕ) → Divided fd (sent fd two_streams) (arrive_all new_queue two_streams))
arrive_all_lem_example =
    arrive_all_lem new_queue (λ fd. []) two_streams new_queue-queue new_queue-Holds
      two_streams-NoneEmpty

-- A piece with a whole package and one byte more: the package is queued, the byte waits.
one_byte_waits : (filter_data new_queue 3 (0 ∷ 1 ∷ 7 ∷ 9 ∷ [])).0 ≡ more
unfolding filter_data find_uncomplete start push_more new_queue
one_byte_waits = refl
