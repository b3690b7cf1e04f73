-- ===== src/Session/Tests.antt =====
-- The session theorems with a cipher that hides nothing, which shows that the assumptions on the
-- libraries can be met.
use asinc_roulette.Base.{ℕ, ◌≡◌, refl, arith, Bool, true, false, [], ◌∷◌, ◌++◌, some}
use asinc_roulette.Base.Map.{lookup}
use asinc_roulette.Failure.{Result, ok}
use asinc_roulette.Session.Vectors.{Bytes, Vector}
use asinc_roulette.Session.Crypto.{Crypto, IsBase64, IsCipher, KnowsKey, IsKeyPair}
use asinc_roulette.Session.Messages.{
  raw_message_prefix, pack_and_encrypt_if_needed, unpack_and_decrypt_if_needed,
}
use asinc_roulette.Session.Handshake.{in_state, SharesKey, first_roundtrip}
use asinc_roulette.Session.Server
use asinc_roulette.Session.Server.{SessionServer, set_client, handle}
use asinc_roulette.Session.Client
use asinc_roulette.Session.Client.{SessionClient, output, input}
use asinc_roulette.Session.Exchange.{held, client_in, Holds}
use asinc_roulette.Session.Conversation.{handshake, server_message_arrives, raw_message_handled}

-- The key and the vector of the symmetric cipher.
abbrev Keys : Type 0
Keys = Bytes × Bytes

abbrev sealed : Bytes → Vector
sealed b = record { content = b; key = 1 ∷ []; iv = [] }

instance abbrev open_crypto : Crypto Keys
open_crypto = record {
  rsa_encrypt = λ c b. some (sealed b);
  rsa_decrypt = λ c v. some v.content;
  aes_encrypt = λ c b. some b;
  aes_decrypt = λ c b. some b;
  aes_key = λ c. c.0;
  aes_iv = λ c. c.1;
  set_aes_key = λ c k. (k, c.1);
  set_aes_iv = λ c iv. (c.0, iv);
  remote_public_key = λ c. some (5 ∷ []);
  set_remote_public_key = λ c k. c;
  base64_encode = λ b. b;
  base64_decode = λ b. b;
}

open_IsBase64 : IsBase64 open_crypto
open_IsBase64 = record { decode-encode = λ b. refl }

open_IsCipher : IsCipher open_crypto
open_IsCipher = record {
  aes = λ a c b few key iv. (b, refl, refl);
  key = λ c k iv. refl;
  iv = λ c k iv. refl;
}

open_KnowsKey : (a b : Keys) → KnowsKey open_crypto a b
open_KnowsKey a b = record { rsa = λ x few. (sealed x, refl, refl, omega arith, omega arith) }

abbrev mine : Keys
mine = (7 ∷ 8 ∷ [], 9 ∷ [])

abbrev theirs : Keys
theirs = ([], [])

abbrev two_bytes : Bytes
two_bytes = 104 ∷ 105 ∷ []

first_roundtrip_example :
    (e : Bytes) × (b' : Keys) × (pack_and_encrypt_if_needed 0 two_bytes (in_state false mine)
      ≡ (ok e, in_state true mine))
    × (unpack_and_decrypt_if_needed e (in_state false theirs) ≡ (ok two_bytes, in_state true b'))
    × SharesKey open_crypto mine b'
first_roundtrip_example =
    first_roundtrip open_IsBase64 open_IsCipher mine theirs 0 two_bytes (open_KnowsKey mine theirs)
      (omega arith)

open_IsKeyPair : IsKeyPair open_crypto
open_IsKeyPair = record { exchange = λ a b key has. open_KnowsKey a b }

-- A server that has just entered client 3 beside client 4.
abbrev server_with : Bool → Keys → Server.State → SessionServer Keys Unit
server_with ready a state = record {
  clients = (4, held true ([], []) Server.ready) ∷ (3, held ready a state) ∷ [];
  delivers = λ id. ok tt;
  sent = [];
  connections = 4 ∷ 3 ∷ [];
  app = tt;
}

abbrev new_client : SessionClient Keys Unit
new_client = record {
  session = in_state false theirs;
  state = Client.init;
  delivers = ok tt;
  sent = [];
  app = tt;
}

abbrev keeps_open : ℕ → Bytes → SessionServer Keys Unit → Result Bool × SessionServer Keys Unit
keeps_open id m s = (ok false, s)

abbrev says_nothing : SessionClient Keys Unit → Result Unit × SessionClient Keys Unit
says_nothing c = (ok tt, c)

abbrev ignores : Bytes → SessionClient Keys Unit → Result Unit × SessionClient Keys Unit
ignores m c = (ok tt, c)

handshake_example :
    (e : Bytes) × (b' : Keys) × (t : SessionServer Keys Unit) × (output says_nothing
        (client_in false theirs Client.init new_client)
      ≡ (
        ok tt,
        record (client_in false theirs Client.wait new_client) {
          sent = (raw_message_prefix ++ 5 ∷ []) ∷ [];
        },
      ))
    × (handle keeps_open 0 3 (raw_message_prefix ++ 5 ∷ []) (server_with false mine Server.init)
        ≡ (ok false, t))
    × Holds 3 (held true mine Server.ready) (server_with false mine Server.init) t
    × (t.sent ≡ (3, e) ∷ [])
    × (input ignores e (client_in false theirs Client.wait new_client)
        ≡ (ok tt, client_in true b' Client.ready new_client))
    × SharesKey open_crypto mine b'
unfolding lookup
handshake_example =
    handshake open_IsBase64 open_IsCipher open_IsKeyPair keeps_open says_nothing ignores 0 3 mine
      theirs (5 ∷ []) (server_with false mine Server.init) new_client refl refl refl refl
      (omega arith) (omega arith)

server_message_arrives_example :
    (e : Bytes) × (Server.send 0 3 two_bytes (server_with true mine Server.ready) ≡ (
      ok tt,
      record (set_client 3 (held true mine Server.ready) (server_with true mine Server.ready)) {
        sent = (3, e) ∷ [];
      },
    ))
    × (input ignores e (client_in true mine Client.ready new_client)
        ≡ ignores two_bytes (client_in true mine Client.ready new_client))
unfolding lookup
server_message_arrives_example =
    server_message_arrives open_IsBase64 open_IsCipher ignores 0 3 mine mine two_bytes
      (server_with true mine Server.ready) new_client (omega arith)
      (record { key = refl; iv = refl }) refl refl

raw_message_handled_example :
    (e : Bytes) × (Client.send 0 two_bytes (client_in true mine Client.ready new_client)
      ≡ (ok tt, record (client_in true mine Client.ready new_client) { sent = e ∷ [] }))
    × (handle keeps_open 0 3 (raw_message_prefix ++ two_bytes) (server_with true mine Server.ready)
        ≡ handle keeps_open 0 3 e (server_with true mine Server.ready))
unfolding lookup
raw_message_handled_example =
    raw_message_handled open_IsBase64 open_IsCipher keeps_open 0 0 3 mine mine two_bytes
      (server_with true mine Server.ready) new_client (omega arith)
      (record { key = refl; iv = refl }) refl refl
