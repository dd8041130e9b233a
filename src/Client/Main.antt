-- ===== src/Client/Main.antt =====
-- client/src/main.rs: the client without a window, which makes a new key each time it is started.
use craftip_crosscompiletest.Prelude.{
  ap, ℕ, ◌≡◌, refl, ◌∙◌, List, [], ◌∷◌, Option, some, Bool, true, Outcome, ok, err, panic, bytes_of,
  length,
}
use craftip_crosscompiletest.Shared.Utf8.{RustString}
use craftip_crosscompiletest.Shared.Addressing.{Channel, DistributorError}
use craftip_crosscompiletest.Shared.Proxy.{ServerPublicKey, ProxyHelloPacket}
use craftip_crosscompiletest.Shared.SocketPacket.{SocketPacket, proxy_hello}
use craftip_crosscompiletest.Shared.Crypto.{
  CryptoCrates, CryptoError, ServerPrivateKey, default_key, get_public_key, get_hostname,
}
use craftip_crosscompiletest.Server.Socket.{packet}
use craftip_crosscompiletest.Server.ProcessSocket.{finished, admit}
use craftip_crosscompiletest.Client.Structs.{Server, key, ClientError}
use craftip_crosscompiletest.Client.Connect.{
  Attempt, Answer, Connected, connect, asked, public_of_key, named_client_admitted,
}
use craftip_crosscompiletest.Client.Tunnel.{
  State, no_connections, set_stats_tx, Event, Flow, Output, handle,
}

-- The channels of the control messages, and the connection to the proxy, are left out: `Attempt` and `Event`
-- say what they give.
pub record Client : Type 0 where
  pub server : Server
  pub stats_tx : Channel
  pub state : State

-- `Client::new`
unfoldable pub client_new : Server → Channel → Client
client_new s tx = record { server = s; stats_tx = tx; state = set_stats_tx no_connections tx }

-- How `main` ends: it reports no error, and the loop may still be waiting.
pub data Ended : Type 0 where
  not_connected : ClientError → Ended
  handled : Flow → Ended
  main_panicked : Ended

pub record Ran : Type 0 where
  pub ended : Ended
  pub sent : List SocketPacket
  pub output : List Output

module _ (crypto : CryptoCrates) where
  abbrev pub hostname_of : Outcome CryptoError ServerPublicKey → Outcome CryptoError RustString
  hostname_of (ok p) = get_hostname crypto p
  hostname_of (err e) = err e
  hostname_of panic = panic

  abbrev pub server_named :
      Outcome CryptoError RustString → ServerPrivateKey → Outcome CryptoError Server
  server_named (ok hostname) k =
      ok (record { server = hostname; local = bytes_of "localhost:25564"; auth = key k })
  server_named (err e) k = err e
  server_named panic k = panic

  abbrev pub server_with : Outcome CryptoError ServerPrivateKey → Outcome CryptoError Server
  server_with (ok k) = server_named (hostname_of (get_public_key crypto k)) k
  server_with (err e) = err e
  server_with panic = panic

  -- `generated` is what the generator of key pairs gives.
  unfoldable pub main_server : Option (List ℕ) → Outcome CryptoError Server
  main_server generated = server_with (default_key generated)

  abbrev pub handle_connected : Connected → List Event → Client → Ran
  handle_connected (ok t, sent) events c =
      let t = handle true events c.state in
      record { ended = handled t.flow; sent = sent; output = t.output }
  handle_connected (err e, sent) events c = record {
    ended = not_connected e;
    sent = sent;
    output = [];
  }
  handle_connected (panic, sent) events c = record {
    ended = main_panicked;
    sent = sent;
    output = [];
  }

  abbrev pub main_with : Outcome CryptoError Server → Channel → Attempt → List Event → Ran
  main_with (ok s) tx a events =
      let c = client_new s tx in handle_connected (connect crypto c.server a) events c
  main_with (err e) tx a events = record { ended = main_panicked; sent = []; output = [] }
  main_with panic tx a events = record { ended = main_panicked; sent = []; output = [] }

  unfoldable pub main : Option (List ℕ) → Channel → Attempt → List Event → Ran
  main generated tx a events = main_with (main_server generated) tx a events

  main_server_lem :
      (generated : List ℕ) (hostname : RustString)
      → length generated ≡ 83
      → crypto.is_key_pair generated ≡ true
      → get_hostname crypto (public_of_key crypto (record { key = generated })) ≡ ok hostname
      → main_server (some generated)
        ≡ ok (record {
          server = hostname;
          local = bytes_of "localhost:25564";
          auth = key (record { key = generated });
        })
  unfolding main_server default_key get_public_key
  main_server_lem generated hostname len pair named = rw (len, pair, named)

  handle_connected-sent :
      (w : Connected) (events : List Event) (c : Client) → (handle_connected w events c).sent ≡ w.1
  handle_connected-sent (ok t, sent) events c = refl
  handle_connected-sent (err e, sent) events c = refl
  handle_connected-sent (panic, sent) events c = refl

module _ (crypto : CryptoCrates) (shown : DistributorError → RustString) where
  -- A client that is started with a new key pair, and asked to sign any challenge, sends a hello with
  -- the host name of that key and an answer with which the server admits it, where everything can
  -- be reached.
  pub generated_client_admitted :
      (generated : List ℕ) (tx : Channel) (challenge : List ℕ) (answer : Answer)
      (stats_ok error_ok : Bool) (events : List Event) (hostname : RustString)
      → length generated ≡ 83
      → crypto.is_key_pair generated ≡ true
      → get_hostname crypto (public_of_key crypto (record { key = generated })) ≡ ok hostname
      → (hello : ProxyHelloPacket) × (reply : SocketPacket) × ((main crypto
            (some generated)
            tx
            (asked challenge answer stats_ok)
            events).sent
          ≡ proxy_hello hello ∷ reply ∷ [])
        × (hello.hostname ≡ hostname)
        × ((admit crypto shown (finished (some challenge) true (packet reply)) error_ok hello).0
            ≡ ok tt)
  unfolding main client_new
  generated_client_admitted generated tx challenge answer stats_ok error_ok events hostname len pair
        named =
      let (hello, reply, sent, admitted, same) =
        named_client_admitted crypto shown (record { key = generated }) s challenge answer stats_ok
          error_ok pair named refl in
      (
        hello,
        reply,
        ap (λ m. (main_with crypto m tx a events).sent)
              (main_server_lem crypto generated hostname len pair named)
            ∙ handle_connected-sent crypto (connect crypto s a) events (client_new s tx)
            ∙ sent,
        same,
        admitted,
      )
    where
      s : Server
      s = record {
        server = hostname;
        local = bytes_of "localhost:25564";
        auth = key (record { key = generated });
      }

      a : Attempt
      a = asked challenge answer stats_ok
