-- ===== src/EndToEnd/Tests.antt =====
-- A message on its way with a cipher that hides nothing and a text that shifts each byte, which shows
-- that the assumptions on the libraries can be met together.
use asinc_roulette.Base.{
  ℕ, ◌+◌, ◌-◌, ◌≡◌, refl, arith, Bool, true, false, nat_eq, [], ◌∷◌, some, contains, take, drop,
}
use mathlib.Core.List.{flatten}
use asinc_roulette.Base.Map.{lookup}
use asinc_roulette.Failure.{Result, ok, err}
use asinc_roulette.Session.Crypto.{Crypto, IsBase64, IsCipher, IsText}
use asinc_roulette.Session.Messages.{aes_encrypt, encrypt, pack_and_encrypt_if_needed}
use asinc_roulette.Session.Handshake.{in_state}
use asinc_roulette.Session.Server
use asinc_roulette.Session.Server.{SessionServer, set_client}
use asinc_roulette.Session.Client
use asinc_roulette.Session.Client.{SessionClient}
use asinc_roulette.Session.Exchange.{held, client_in}
use asinc_roulette.Transfer.Framing.{Bytes}
use asinc_roulette.Transfer.Tcp
use asinc_roulette.Transfer.StreamServer.State.{TransferServer}
use asinc_roulette.Transfer.StreamServer.Pool.{task, finish, forwarded}
use asinc_roulette.Transfer.StreamServer.Wire.{Wire, linux_socket}
use asinc_roulette.EndToEnd.Arriving.{arrived, taken}
use asinc_roulette.EndToEnd.{relay, message_relayed}

-- The key and the vector of the symmetric cipher.
abbrev Keys : Type 0
Keys = Bytes × Bytes

abbrev encode : Bytes → Bytes
encode [] = []
encode (x ∷ b) = (x + 14) ∷ encode b

abbrev decode : Bytes → Bytes
decode [] = []
decode (x ∷ b) = (x - 14) ∷ decode b

instance abbrev shifted_crypto : Crypto Keys
shifted_crypto = record {
  rsa_encrypt = λ c b. some (record { content = b; key = []; iv = [] });
  rsa_decrypt = λ c v. some v.content;
  aes_encrypt = λ c b. some b;
  aes_decrypt = λ c b. some b;
  aes_key = λ c. c.0;
  aes_iv = λ c. c.1;
  set_aes_key = λ c k. (k, c.1);
  set_aes_iv = λ c iv. (c.0, iv);
  remote_public_key = λ c. some (5 ∷ []);
  set_remote_public_key = λ c k. c;
  base64_encode = encode;
  base64_decode = decode;
}

shifted_IsBase64 : IsBase64 shifted_crypto
shifted_IsBase64 = record { decode-encode = back }
  where
    back : (b : Bytes) → decode (encode b) ≡ b
    back [] = refl
    back (x ∷ b) = ground (arith, back b)

shifted_IsText : IsText shifted_crypto
unfolding contains
shifted_IsText = record { no_return = none_there }
  where
    none_there : (b : Bytes) → contains b'\r' (encode b) ≡ false
    none_there [] = refl
    none_there (x ∷ b) = ground (arith, nat_eq.beq_iff b'\r' (x + 14), none_there b)

shifted_IsCipher : IsCipher shifted_crypto
shifted_IsCipher = record {
  aes = λ a c b few key iv. (b, refl, refl);
  key = λ c k iv. refl;
  iv = λ c k iv. refl;
}

abbrev keys : Keys
keys = (7 ∷ 8 ∷ [], 9 ∷ [])

abbrev client : SessionClient Keys Unit
client = record {
  session = in_state true keys;
  state = Client.ready;
  delivers = ok tt;
  sent = [];
  app = tt;
}

-- A server that keeps the last message of a client.
abbrev server : TransferServer Wire (SessionServer Keys Bytes)
server = record {
  listening = 3;
  stop_requests = false;
  joinable = true;
  descriptors = (5, 0) ∷ [];
  connections = 0 ∷ [];
  heap = [];
  max_id = 1;
  tasks = 0 ∷ [];
  app = record {
    clients = (0, held true keys Server.ready) ∷ [];
    delivers = λ id. ok tt;
    sent = [];
    connections = 0 ∷ [];
    app = [];
  };
}

abbrev keeps_last : ℕ → Bytes → SessionServer Keys Bytes → Result Bool × SessionServer Keys Bytes
keeps_last id m s = (ok false, record s { app = m })

abbrev two_bytes : Bytes
two_bytes = 104 ∷ 105 ∷ []

-- The message as the client sends it, and its parts.
abbrev sent_message : Bytes
sent_message = elim ((pack_and_encrypt_if_needed 0 two_bytes (in_state true keys)).0) [
  | err x ↦ []
  | ok e ↦ e
]

abbrev first_part : Bytes
first_part = take 3 (flatten (Tcp.send sent_message))

abbrev last_part : Bytes
last_part = drop 3 (flatten (Tcp.send sent_message))

message_relayed_example :
    (Client.send 0 two_bytes (client_in true keys Client.ready client)
      ≡ (ok tt, record (client_in true keys Client.ready client) { sent = sent_message ∷ [] }))
    × (task
          (forwarded (λ id m s. true) (relay keeps_last 0))
          2
          0
          (arrived 0 5 first_part last_part server)
        ≡ some (
            finish 0 true (record (taken 0 (arrived 0 5 first_part last_part server)) {
              app = record (set_client 0 (held true keys Server.ready) server.app) {
                app = two_bytes;
              };
            })))
unfolding lookup pack_and_encrypt_if_needed encrypt aes_encrypt Tcp.send Tcp.send_loop flatten
message_relayed_example =
    message_relayed shifted_IsBase64 shifted_IsCipher shifted_IsText keeps_last (λ id m s. true) 0 0
      0 5 keys keys two_bytes sent_message first_part last_part server client (omega arith)
      (record { key = refl; iv = refl }) refl refl refl (omega arith) refl (omega arith)
      (omega arith)
