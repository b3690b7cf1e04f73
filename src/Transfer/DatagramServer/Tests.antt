-- ===== src/Transfer/DatagramServer/Tests.antt =====
-- The theorems about the datagram server at concrete connections.
use asinc_roulette.Base.{ℕ, ◌+◌, ◌-◌, ◌*◌, ◌≡◌, refl, arith, true, false, nat_eq, [], ◌∷◌, none}
use asinc_roulette.Base.Map.{lookup, insert}
use asinc_roulette.Failure.{ok}
use asinc_roulette.Stateful.{for_each}
use asinc_roulette.Transfer.Framing.{Bytes}
use asinc_roulette.Transfer.Udp
use asinc_roulette.Transfer.System.{Address}
use asinc_roulette.Transfer.DatagramServer.State.{
  concat, connected, DatagramSocket, TransferServer, Events,
}
use asinc_roulette.Transfer.DatagramServer.Connections.{disconnect_connections}
use asinc_roulette.Transfer.DatagramServer.Loop.{handle_datagram}
use asinc_roulette.Transfer.DatagramServer.Wire.{Wire, accept, linux_socket}
use asinc_roulette.Transfer.DatagramServer.Addresses.{local_ports_collide}
use asinc_roulette.Transfer.DatagramServer.Ending.{IsOver, closing_ends, closing_never_ends}
use asinc_roulette.Transfer.DatagramServer.Connecting.{connected_once}

-- The derived class counts its clients.
abbrev counted : Events ℕ
counted = record {
  connect_handle = λ id n. (ok tt, n + 1);
  disconnect_handle = λ id n. (ok tt, n - 1);
}

-- A network that takes every datagram, and one that is down.
abbrev up : DatagramSocket Wire
up = linux_socket (λ d. false)

abbrev down : DatagramSocket Wire
down = linux_socket (λ d. true)

-- 127.0.0.1
abbrev local : ℕ
local = 128 * 131072 + 127

-- Port 40000 and port 40256 of the machine itself, in the order of the network
abbrev one : Address
one = record { sin_port = 8 * 2067 + 4; s_addr = local }

local_ports_collide_example :
    concat (record { sin_port = 8 * 2067 + 4; s_addr = 128 * 131072 + 127 })
    ≡ concat (record { sin_port = 8 * 2067 + 5; s_addr = 128 * 131072 + 127 })
local_ports_collide_example = local_ports_collide 2067 4 5 131072 (omega arith) (omega arith)

abbrev no_clients : TransferServer Wire ℕ
no_clients = record {
  stop_requests = false;
  joinable = true;
  connections = [];
  heap = [];
  next = 0;
  tasks = [];
  app = 0;
}

abbrev one_client : TransferServer Wire ℕ
one_client = record no_clients {
  connections = (7, 0) ∷ [];
  heap = (0, connected 7 (accept one)) ∷ [];
  next = 1;
  app = 1;
}

abbrev hello : Bytes
hello = 85 ∷ 0 ∷ 0 ∷ 1 ∷ 104 ∷ 13 ∷ 10 ∷ []

connected_once_example :
    ((for_each
        (λ x. handle_datagram ⦃net = up⦄ counted x one)
        (hello ∷ (1 ∷ []) ∷ [])
        no_clients).1.connections
      ≡ (concat one, 0) ∷ [])
    × ((for_each
          (λ x. handle_datagram ⦃net = up⦄ counted x one)
          (hello ∷ (1 ∷ []) ∷ [])
          no_clients).1.app
        ≡ 1)
unfolding lookup insert
connected_once_example = connected_once ⦃net = up⦄ counted one hello ((1 ∷ []) ∷ []) no_clients refl

closing_ends_example : IsOver (disconnect_connections ⦃net = up⦄ counted 1 one_client)
unfolding lookup Udp.close Udp.raw_send
closing_ends_example =
    closing_ends ⦃net = up⦄ counted (λ k. refl) (λ id w. refl) one_client
      (λ id p entry. ground arith)

closing_never_ends_example : disconnect_connections ⦃net = down⦄ counted 1000 one_client ≡ none
unfolding lookup Udp.close Udp.raw_send
closing_never_ends_example =
    closing_never_ends ⦃net = down⦄ counted (λ k. refl) 7 0 [] one_client refl refl 1000
