-- ===== src/Client/Connect.antt =====
-- `Client::connect` of client/src/client.rs: the client's side of the authentication.
use craftip_crosscompiletest.Shared.Config.{protocol_version}
use craftip_crosscompiletest.Prelude.{
  bytes_of, ℕ, ◌≡◌, refl, List, [], ◌∷◌, Option, none, some, Bool, true, false, Outcome, ok, err,
  panic, inl, inr, Bool-cases,
}
use craftip_crosscompiletest.Shared.Utf8.{RustString}
use craftip_crosscompiletest.Shared.Proxy.{ServerPublicKey, ProxyHelloPacket, public_key}
use craftip_crosscompiletest.Shared.SocketPacket.{
  from_proxy_hello, SocketPacket, proxy_hello, proxy_auth_request, proxy_auth_response,
  proxy_hello_response, proxy_error,
}
use craftip_crosscompiletest.Shared.Crypto.{
  CryptoCrates, CryptoError, ServerPrivateKey, create_challenge, sign, get_public_key, get_host,
  get_hostname, verify,
}
use craftip_crosscompiletest.Shared.Addressing.{DistributorError}
use craftip_crosscompiletest.Server.Socket.{Received, packet, failed, ended}
use craftip_crosscompiletest.Server.ProcessSocket.{finished, admit}
use craftip_crosscompiletest.Server.ProcessSocket.Auth.{admit_iff}
use craftip_crosscompiletest.Client.Structs.{
  host_of, Control, ClientError, io, protocol_error, proxy_closed_connection,
  user_closed_connection, timeout, minecraft_server_not_found, unexpected_packet, other,
  ServerAuthentication, key, Server, from_host, new_from_key,
}
use craftip_crosscompiletest.Client.Structs

-- What the last `select!` meets.
pub data Answer : Type 0 where
  from_proxy : Received → Answer
  from_control : Option Control → Answer

-- What `connect` meets: whether the local server and the proxy can be reached, whether each send
-- succeeds, what the proxy sends first (`none` after ten seconds), and what it answers.
pub record Attempt : Type 0 where
  pub local_ok : Bool
  pub proxy_ok : Bool
  pub hello_ok : Bool
  pub request : Option Received
  pub response_ok : Bool
  pub answer : Answer
  pub stats_ok : Bool

-- The result, and the packets that were sent to the proxy.
abbrev pub Connected : Type 0
Connected = Outcome ClientError (Unit {0}) × List SocketPacket

abbrev pub answered : Answer → Outcome ClientError (Unit {0})
answered (from_proxy (packet (proxy_hello_response h))) = ok tt
answered (from_proxy (packet (proxy_error e))) = err (Structs.proxy_error e)
answered (from_proxy (packet p)) = err unexpected_packet
answered (from_proxy failed) = err protocol_error
answered (from_proxy ended) = err proxy_closed_connection
answered (from_control c) = err user_closed_connection

-- `stats_tx.send(Stats::Connected)`
abbrev pub reported : Bool → Outcome ClientError (Unit {0}) → Outcome ClientError (Unit {0})
reported true (ok t) = ok tt
reported false (ok t) = err other
reported stats_ok (err e) = err e
reported stats_ok panic = panic

abbrev pub private_key : ServerAuthentication → ServerPrivateKey
private_key (key k) = k

-- An attempt on which everything can be reached and sent, and the server asks for a signature.
abbrev pub asked : List ℕ → Answer → Bool → Attempt
asked challenge answer stats_ok = record {
  local_ok = true;
  proxy_ok = true;
  hello_ok = true;
  request = some (packet (proxy_auth_request challenge));
  response_ok = true;
  answer = answer;
  stats_ok = stats_ok;
}

module _ (crypto : CryptoCrates) where
  abbrev pub hello_with :
      Server → Outcome CryptoError ServerPublicKey → Outcome CryptoError ProxyHelloPacket
  hello_with s (ok p) =
      ok (record { version = protocol_version; hostname = s.server; auth = public_key p })
  hello_with s (err e) = err e
  hello_with s panic = panic

  unfoldable pub hello_of : Server → Outcome CryptoError ProxyHelloPacket
  hello_of s = hello_with s (get_public_key crypto (private_key s.auth))

  abbrev pub respond : Outcome CryptoError (List ℕ) → Bool → ProxyHelloPacket → Attempt → Connected
  respond (ok signature) true hello a = (
    reported a.stats_ok (answered a.answer),
    from_proxy_hello hello ∷ proxy_auth_response signature ∷ [],
  )
  respond (ok signature) false hello a = (err io, from_proxy_hello hello ∷ [])
  respond (err e) response_ok hello a = (panic, from_proxy_hello hello ∷ [])
  respond panic response_ok hello a = (panic, from_proxy_hello hello ∷ [])

  abbrev pub requested : Option Received → ProxyHelloPacket → Server → Attempt → Connected
  requested (some (packet (proxy_auth_request challenge))) hello s a =
      respond (sign crypto (private_key s.auth) challenge) a.response_ok hello a
  requested (some r) hello s a = (err unexpected_packet, from_proxy_hello hello ∷ [])
  requested none hello s a = (err timeout, from_proxy_hello hello ∷ [])

  -- A key that cannot be read makes the construction of the hello panic.
  abbrev pub greeted : Outcome CryptoError ProxyHelloPacket → Server → Attempt → Connected
  greeted (ok hello) s a = elim a.hello_ok [
    | false ↦ (err io, [])
    | true ↦ requested a.request hello s a
  ]
  greeted (err e) s a = (panic, [])
  greeted panic s a = (panic, [])

  unfoldable pub connect : Server → Attempt → Connected
  connect s a = elim a.local_ok [
    | false ↦ (err minecraft_server_not_found, [])
    | true ↦ elim a.proxy_ok [ false ↦ (err io, []) | true ↦ greeted (hello_of s) s a ]
  ]

  abbrev pub public_of_key : ServerPrivateKey → ServerPublicKey
  public_of_key k = record { key = crypto.public_key_of k.key }

  hostname_of_host :
      (o : Outcome CryptoError RustString) (k : ServerPrivateKey) (s : Server)
      → get_host crypto (public_of_key k) ≡ o
      → from_host o k ≡ ok s
      → (get_hostname crypto (public_of_key k) ≡ ok s.server) × (s.auth ≡ key k)
  unfolding get_hostname
  hostname_of_host (ok id) k s e h = (rw e (cc h), cc h)
  hostname_of_host (err x) k s e h = cc
  hostname_of_host panic k s e h = cc

  pub made_of_key_pair :
      (k : ServerPrivateKey) (s : Server)
      → new_from_key crypto k ≡ ok s
      → crypto.is_key_pair k.key ≡ true
  unfolding new_from_key get_public_key
  made_of_key_pair k s h = elim (Bool-cases (crypto.is_key_pair k.key)) [
    | inl a ↦ a
    | inr a ↦ cc (rw a at h)
  ]

  pub named_by_key :
      (k : ServerPrivateKey) (s : Server)
      → crypto.is_key_pair k.key ≡ true
      → new_from_key crypto k ≡ ok s
      → (get_hostname crypto (public_of_key k) ≡ ok s.server) × (s.auth ≡ key k)
  unfolding new_from_key get_public_key
  named_by_key k s a h = hostname_of_host (get_host crypto (public_of_key k)) k s refl (rw a at h)

  pub made_local :
      (k : ServerPrivateKey) (s : Server)
      → new_from_key crypto k ≡ ok s
      → s.local ≡ bytes_of "25565"
  unfolding new_from_key get_public_key
  made_local k s h = of_host (get_host crypto (public_of_key k)) (rw (made_of_key_pair k s h) at h)
    where
      of_host :
          (o : Outcome CryptoError RustString) → from_host o k ≡ ok s → s.local ≡ bytes_of "25565"
      of_host (ok id) e = cc e
      of_host (err x) e = cc e
      of_host panic e = cc e

  pub signs :
      (k : ServerPrivateKey) (challenge : List ℕ)
      → crypto.is_key_pair k.key ≡ true
      → verify crypto
          (public_of_key k)
          challenge
          (crypto.sign_with k.key (create_challenge challenge))
        ≡ true
  unfolding verify
  signs k challenge a = crypto.verify-sign k.key (create_challenge challenge) a

module _ (crypto : CryptoCrates) (shown : DistributorError → RustString) where
  -- A client whose server carries a key pair and is named by its public key sends, when it is asked to
  -- sign a challenge, a hello and a signature with which the server admits it.
  pub named_client_admitted :
      (k : ServerPrivateKey) (s : Server) (challenge : List ℕ) (answer : Answer)
      (stats_ok error_ok : Bool)
      → crypto.is_key_pair k.key ≡ true
      → get_hostname crypto (public_of_key crypto k) ≡ ok s.server
      → s.auth ≡ key k
      → (hello : ProxyHelloPacket) × (reply : SocketPacket) × ((connect crypto s
            (asked challenge answer stats_ok)).1
          ≡ proxy_hello hello ∷ reply ∷ [])
        × ((admit crypto shown (finished (some challenge) true (packet reply)) error_ok hello).0
            ≡ ok tt)
        × (hello.hostname ≡ s.server)
  unfolding connect hello_of get_public_key sign
  named_client_admitted k s challenge answer stats_ok error_ok a named held = (
    record {
      version = protocol_version;
      hostname = s.server;
      auth = public_key (public_of_key crypto k);
    },
    proxy_auth_response (crypto.sign_with k.key (create_challenge challenge)),
    rw (held, a, a) refl,
    (admit_iff crypto shown (some challenge) true _ error_ok _).1 (
      challenge,
      refl,
      refl,
      record {
        signature = crypto.sign_with k.key (create_challenge challenge);
        answered = refl;
        signed = signs crypto k challenge a;
        named = named;
      },
    ),
    refl,
  )
