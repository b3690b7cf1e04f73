-- ===== src/Server/Run.antt =====
-- The life of a server (src/core/Server.cpp): the calls that the transport makes, in the order
-- in which its thread makes them.
use asinc_roulette.Base.{ℕ, String, List, [], ◌∷◌}
use asinc_roulette.Json.{Json}
use asinc_roulette.Storage.{Sqlite}
use asinc_roulette.Server.State.{Server, Link}
use asinc_roulette.Server.Dispatch.{session_handle, connect_handle, disconnect_handle}
use asinc_roulette.Server.Soundness.{IsSound}
use asinc_roulette.Server.Soundness.Events.{
  session_handle-IsSound, connect_handle-IsSound, disconnect_handle-IsSound,
}

-- A connection opens or ends, or brings a message, with what `std::rand()` returns meanwhile;
-- or the transport starts to treat messages in another way.
pub data Event : Type 0 where
  connected disconnected : ℕ → Event
  message : ℕ → ℕ → String → Event
  transport : (ℕ → Link) → Event

-- The fields that the constructor of `Server` leaves empty.
abbrev pub start : {D : Type 0} → D → (ℕ → Link) → Server D
start data_base links = record {
  data_base = data_base;
  id2name = [];
  login2id = [];
  users = [];
  sessions = [];
  clients = [];
  links = links;
  outbox = [];
}

module _ {D : Type 0} (J : Type 0) ⦃sql : Sqlite D⦄ ⦃json : Json J⦄ where
  -- Also a call that throws leaves a state behind.
  unfoldable pub step : Event → Server D → Server D
  step (connected id) s = (connect_handle id s).1
  step (disconnected id) s = (disconnect_handle id s).1
  step (message rand id text) s = (session_handle J rand id text s).1
  step (transport links) s = record s { links = links }

  unfoldable pub run : List Event → Server D → Server D
  unfolding step
  run [] s = s
  run (e ∷ events) s = run events (step e s)

module _ (D J : Type 0) ⦃sql : Sqlite D⦄ ⦃json : Json J⦄ where
  step-IsSound : (e : Event) (s : Server D) → IsSound s → IsSound (step J e s)
  unfolding step
  step-IsSound (connected id) s h = (connect_handle-IsSound id).at s h
  step-IsSound (disconnected id) s h = (disconnect_handle-IsSound id).at s h
  step-IsSound (message rand id text) s h = (session_handle-IsSound D J rand id text).at s h
  step-IsSound (transport links) s h = h

  run-IsSound : (events : List Event) (s : Server D) → IsSound s → IsSound (run J events s)
  unfolding run
  run-IsSound [] s h = h
  run-IsSound (e ∷ events) s h = run-IsSound events (step J e s) (step-IsSound e s h)

  -- After any calls of the transport, in any order, with any messages, failing sends and handlers
  -- that throw: each table is filed under its name, seats its croupier, and seats no more players
  -- than its limit, which is the server's.
  pub started-IsSound :
      (data_base : D) (links : ℕ → Link) (events : List Event)
      → IsSound (run J events (start data_base links))
  started-IsSound data_base links events = run-IsSound events (start data_base links) tt
