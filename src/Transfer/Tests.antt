-- ===== src/Transfer/Tests.antt =====
-- The theorems about the sockets at concrete messages.
use asinc_roulette.Base.{
  nat_eq, arith, ◌≡◌, refl, Bool, false, List, [], ◌∷◌, ◌++◌, length, take, All,
}
use mathlib.Core.List.Memᴰ.{head, tail}
use asinc_roulette.Failure.{ok}
use asinc_roulette.Transfer.Framing.{Bytes, delimiter, find_delimiter}
use asinc_roulette.Transfer.Udp
use asinc_roulette.Transfer.Udp.Outgoing.{IsCarried, carried, alien, send_all}
use asinc_roulette.Transfer.Udp.Network.{AreSendable}
use asinc_roulette.Transfer.Udp.Standing.{IsPrefix}
use asinc_roulette.Transfer.Udp.Unreliable.{unreliable-prefix}
use asinc_roulette.Transfer.Udp.Retransmission.{retransmission_completes}
use asinc_roulette.Transfer.Udp.Resending.{waited_for}
use asinc_roulette.Transfer.DatagramServer.State.{timeout_msec}
use mathlib.Core.List.{flatten}
use asinc_roulette.Transfer.Udp.{
  update_timeout, packages_from, fragment, buffered_send, raw_sends, raw_send, update, received,
  user_package, accept_package, take_in, acknowledged, arrive, next_char, success_byte,
}
use asinc_roulette.Transfer.Udp.Delivery.{deliver, datagram_roundtrip}

abbrev hello : Bytes
hello = 104 ∷ 101 ∷ 108 ∷ 108 ∷ 111 ∷ []

abbrev ok_message : Bytes
ok_message = 111 ∷ 107 ∷ []

abbrev refuses_none : Bytes → Bool
refuses_none d = false

abbrev first : Bytes
first = 85 ∷ 0 ∷ 0 ∷ 1 ∷ 104 ∷ 101 ∷ 108 ∷ 108 ∷ 111 ∷ 13 ∷ 10 ∷ []

datagram_roundtrip_example :
    (buffered_send refuses_none hello Udp.fresh ≡ (
      ok tt,
      record Udp.fresh { sent = first ∷ []; package_id = 1; send_buffer = (first ∷ []) ∷ [] },
    ))
    × (deliver refuses_none (first ∷ []) Udp.fresh ≡ record Udp.fresh {
      expected_id = 1;
      receive_buffer = hello ∷ [];
      sent = (success_byte ∷ []) ∷ [];
    })
unfolding find_delimiter packages_from fragment
datagram_roundtrip_example =
    datagram_roundtrip refuses_none (λ d. refl) hello (omega arith) Udp.fresh Udp.fresh
      (record { same = refl; number = refl; numbers = refl; nothing = refl }) refl

-- Two packages in the wrong order, then an acknowledgement.
abbrev disordered : List Bytes
disordered =
    fragment 1 1 (ok_message ++ delimiter) 0
    ∷ fragment 0 1 (hello ++ delimiter) 0
    ∷ (success_byte ∷ [])
    ∷ []

abbrev both-AreSendable : AreSendable (hello ∷ ok_message ∷ [])
unfolding find_delimiter
both-AreSendable = record {
  few = omega arith;
  small = (omega arith, (omega arith, tt));
  clean = (refl, (refl, tt));
}

abbrev disordered-carried :
    All (IsCarried (send_all refuses_none (hello ∷ ok_message ∷ []) Udp.fresh).sent) disordered
unfolding send_all buffered_send raw_sends raw_send packages_from fragment
disordered-carried =
    (carried _ (tail (head refl)), (carried _ (head refl), (alien success_byte [] refl, tt)))

unreliable-prefix_example :
    IsPrefix (deliver refuses_none disordered Udp.fresh).receive_buffer (hello ∷ ok_message ∷ [])
    × IsPrefix
        (take (length (deliver refuses_none disordered Udp.fresh).sent) (hello ∷ ok_message ∷ []))
        (deliver refuses_none disordered Udp.fresh).receive_buffer
unreliable-prefix_example =
    unreliable-prefix refuses_none (λ d. refl) (hello ∷ ok_message ∷ []) both-AreSendable disordered
      disordered-carried

retransmission_completes_example :
    let s = send_all refuses_none (hello ∷ ok_message ∷ []) Udp.fresh in
    let again = flatten s.send_buffer in
    let r = deliver refuses_none again (deliver refuses_none disordered Udp.fresh) in
    (update_timeout refuses_none timeout_msec (waited_for refuses_none timeout_msec 1 s) ≡ (
      ok false,
      record s { disconnect_timeout = 2000; retry_timeout = 0; sent = s.sent ++ again },
    ))
    × ((waited_for refuses_none timeout_msec 1 s).sent ≡ s.sent)
    × (r.receive_buffer ≡ hello ∷ ok_message ∷ [])
    × (length r.sent ≡ 2)
retransmission_completes_example =
    retransmission_completes refuses_none (λ d. refl) (hello ∷ ok_message ∷ []) both-AreSendable
      disordered timeout_msec 1 disordered-carried (omega arith) (omega arith) (omega arith)
