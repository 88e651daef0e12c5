-- ===== src/Tests/Networks.antt =====
-- A network of three servers, the first of them on its own side.
use distkv.Prelude.{ℕ, ◌≡◌, refl, true, false, none, List, [], ◌∷◌}
use distkv.Node.Election.{handle_request_vote}
use distkv.Network.{
  SimNetwork, Draws, new_sim_network, register, partition, exchange, set_node, no_links,
}
use distkv.Network.Partition.{apart, partition-exchange}
use distkv.Tests.Votes.{started, ask, clock}

abbrev joined : SimNetwork
joined = register 2 started new_sim_network

abbrev sides : List (List ℕ)
sides = (1 ∷ []) ∷ (2 ∷ 3 ∷ []) ∷ []

abbrev no_fault : Draws
no_fault = record { chance = 0; delay = 0 }

apart-sides : apart sides 1 2 ≡ true
unfolding distkv.IdSet.contains distkv.Network.all_ids distkv.Network.number_groups
apart-sides = refl

partition-exchange_example :
    (apart sides 1 2 ≡ true
      → (exchange (handle_request_vote clock ask) no_fault no_fault 1 2 (partition sides joined)
          ≡ (partition sides joined, none))
        × (exchange (handle_request_vote clock ask) no_fault no_fault 2 1 (partition sides joined)
            ≡ (partition sides joined, none)))
    × (apart sides 1 2 ≡ false
        → (exchange
            (handle_request_vote clock ask)
            no_fault
            no_fault
            1
            2
            (partition sides joined)).1
          ≡ (exchange
              (handle_request_vote clock ask)
              no_fault
              no_fault
              1
              2
              (record joined { cut_links = no_links })).1)
partition-exchange_example =
    partition-exchange (handle_request_vote clock ask) sides no_fault no_fault 1 2 joined
