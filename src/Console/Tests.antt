-- ===== src/Console/Tests.antt =====
-- The theorem about the console at a server with two connections.
use asinc_roulette.Base.{ℕ, ◌-◌, ◌+◌, ◌≡◌, refl, true, false, nat_eq, [], ◌∷◌, contains}
use asinc_roulette.Base.Map.{lookup}
use asinc_roulette.Failure.{ok}
use asinc_roulette.Permissions
use asinc_roulette.Client.Words.{codes}
use asinc_roulette.Transfer.Tcp
use asinc_roulette.Transfer.StreamServer.State.{connected, TransferServer, Events}
use asinc_roulette.Transfer.StreamServer.Wire.{Wire, linux_socket}
use asinc_roulette.Console.{done, console_line}
use asinc_roulette.Console.Killing.{kill_all-IsEmptied}

abbrev counted : Events ℕ
counted = record {
  connect_handle = λ id n. (ok tt, n + 1);
  disconnect_handle = λ id n. (ok tt, n - 1);
}

abbrev wire : ℕ → Wire
wire d = record {
  socket = Tcp.fresh;
  descriptor = d;
  address = [];
  incoming = [];
  outgoing = [];
  up = true;
}

abbrev server : TransferServer Wire ℕ
server = record {
  listening = 3;
  stop_requests = false;
  joinable = true;
  descriptors = (5, 0) ∷ (6, 1) ∷ [];
  connections = 0 ∷ 1 ∷ [];
  heap = (0, connected 0 (wire 5)) ∷ (1, connected 1 (wire 6)) ∷ [];
  max_id = 2;
  tasks = [];
  app = 2;
}

kill_all-IsEmptied_example :
    let p = console_line counted Permissions.admin (codes "kill --all") server in
    (p.0 ≡ ok done) × (contains 1 p.1.connections ≡ false)
unfolding lookup
kill_all-IsEmptied_example =
    kill_all-IsEmptied counted (λ id w. refl) server 1 ((_, refl), ((_, refl), tt))
