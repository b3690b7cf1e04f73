-- ===== src/Transfer/DatagramServer/Wire.antt =====
-- `LinuxSocket` as the socket of the datagram server (src/transfer/udp/LinuxSocket.cpp,
-- src/transfer/udp/TransferServer.cpp).
use asinc_roulette.Base.{Bool, true, false, [], ◌∷◌}
use asinc_roulette.Failure.{Result}
use asinc_roulette.Transfer.Framing.{Bytes}
use asinc_roulette.Transfer.Udp
use asinc_roulette.Transfer.Udp.{Socket}
use asinc_roulette.Transfer.System.{Address}
use asinc_roulette.Transfer.DatagramServer.State.{DatagramSocket}

-- A socket and its peer.
pub record Wire : Type 0 where
  pub socket : Socket
  pub address : Address

abbrev pub on_socket : {A : Type 0} → (Socket → Result A × Socket) → Wire → Result A × Wire
on_socket f w = let (r, k) = f w.socket in (r, record w { socket = k })

abbrev pub accept : Address → Wire
accept address = record { socket = Udp.fresh; address = address }

abbrev pub empty : Wire → Bool
empty w = elim (w.socket.receive_buffer) [ [] ↦ true | m ∷ ms ↦ false ]

module _ (refused : Bytes → Bool) where
  -- `refused` says of which datagrams `sendto` reports a failure.
  abbrev pub linux_socket : DatagramSocket Wire
  linux_socket = record {
    accept = accept;
    update = λ m. on_socket (Udp.update refused m);
    update_timeout = λ t. on_socket (Udp.update_timeout refused t);
    empty = empty;
    receive = on_socket Udp.receive;
    send = λ m. on_socket (Udp.buffered_send refused m);
    close = on_socket (Udp.close refused);
    get_address = λ w. w.address;
  }
