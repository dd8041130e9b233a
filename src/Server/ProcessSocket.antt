-- ===== src/Server/ProcessSocket.antt =====
-- server/src/process_socket.rs: what becomes of a new connection.
pub mod Auth
use craftip_crosscompiletest.Prelude.{
  ℕ, List, [], ◌∷◌, ◌++◌, Option, none, some, Bool, true, false, Outcome, ok, err, panic, bytes_of,
}
use craftip_crosscompiletest.Prelude.Maps
use craftip_crosscompiletest.Prelude.Maps.{bytes_eq}
use craftip_crosscompiletest.Shared.Utf8.{RustString}
use craftip_crosscompiletest.Shared.Minecraft.{MinecraftHelloPacket}
use craftip_crosscompiletest.Shared.Proxy.{ProxyHelloPacket}
use craftip_crosscompiletest.Shared.SocketPacket.{SocketPacket, mc_hello, proxy_hello, proxy_error}
use craftip_crosscompiletest.Shared.Crypto.{CryptoCrates}
use craftip_crosscompiletest.Shared.Addressing.{
  Channel, Register, DistributorError, server_not_found, unknown_error, io_error,
}
use craftip_crosscompiletest.Server.Socket.{Received, packet, failed, ended, Output, frame}
use craftip_crosscompiletest.Server.ProxyHandler.{
  Event, Flow, go_on, break, fail, panicked, Turn, authenticate, handle, enter_register,
  close_connection,
}

-- The first packet decides.
pub data Accepted : Type 0 where
  minecraft : Channel → MinecraftHelloPacket → Accepted
  proxy_client : ProxyHelloPacket → Accepted
  unknown_protocol : Accepted

abbrev pub to_server : Option Channel → MinecraftHelloPacket → Outcome DistributorError Accepted
to_server none hello = err (server_not_found hello.hostname)
to_server (some proxy_tx) hello = ok (minecraft proxy_tx hello)

-- `peer_ok`: the peer address that the log line of a proxy client names can be read.
unfoldable pub accept : Register → (peer_ok : Bool) → Received → Outcome DistributorError Accepted
accept r peer_ok ended = err unknown_error
accept r peer_ok failed = err unknown_error
accept r peer_ok (packet (mc_hello hello)) = to_server (Maps.get hello.hostname r.servers) hello
accept r true (packet (proxy_hello hello)) = ok (proxy_client hello)
accept r false (packet (proxy_hello hello)) = err unknown_error
accept r peer_ok (packet other) = ok unknown_protocol

-- `timeout(Duration::from_secs(10), client.authenticate(..))`: what `authenticate` meets, or the end
-- of the ten seconds. The request that may have been sent until then is left out.
pub data AuthWait : Type 0 where
  finished : (random : Option (List ℕ)) (framed_ok : Bool) (reply : Received) → AuthWait
  elapsed : AuthWait

-- How the service of a proxy client ends, with the register as it is then.
pub data Served : Type 0 where
  refused : DistributorError → Register → Served
  running : Register → Served
  returned : Register → Served
  failed_with : DistributorError → Register → Served
  panicked_at : Register → Served

-- `shown` is the text that `{:?}` makes of an error.
module _ (crypto : CryptoCrates) (shown : DistributorError → RustString) where
  abbrev pub report :
      Bool
      → Outcome DistributorError (Unit {0}) × List Output
      → Outcome DistributorError (Unit {0}) × List Output
  report error_ok (ok t, out) = (ok tt, out)
  report true (err e, out) =
      (err e, out ++ frame (proxy_error (bytes_of "Error authenticating: " ++ shown e)) ∷ [])
  report false (err e, out) = (err io_error, out)
  report error_ok (panic, out) = (panic, out)

  -- The `match` on the result of the timeout: `ok` goes on to `client.handle`.
  unfoldable pub admit :
      AuthWait → Bool → ProxyHelloPacket → Outcome DistributorError (Unit {0}) × List Output
  admit (finished random framed_ok reply) error_ok hello =
      report error_ok (authenticate crypto random framed_ok reply hello)
  admit elapsed true hello = (ok tt, frame (proxy_error (bytes_of "Timeout")) ∷ [])
  admit elapsed false hello = (err io_error, [])

  -- `handle`, `close_connection`, and then the result of `handle`. `others` is what other tasks do to
  -- the register while the loop runs.
  abbrev pub after_handle : Flow → RustString → (Register → Register) → Register → Served
  after_handle go_on hostname others r = running (others r)
  after_handle break hostname others r = returned (close_connection (others r) hostname)
  after_handle (fail e) hostname others r = failed_with e (close_connection (others r) hostname)
  after_handle panicked hostname others r = panicked_at (others r)

  abbrev pub serve_admitted :
      Outcome DistributorError (Unit {0})
      → RustString
      → Channel
      → Flow
      → (Register → Register)
      → Register
      → Served
  serve_admitted (err e) hostname tx flow others r = refused e r
  serve_admitted panic hostname tx flow others r = panicked_at r
  serve_admitted (ok t) hostname tx flow others r =
      after_handle flow hostname others (enter_register r hostname tx)

  -- The service of a proxy client: authentication, and then the handler on the channel `tx`.
  unfoldable pub serve_proxy :
      AuthWait
      → (error_ok : Bool) → ProxyHelloPacket
      → Channel
      → (framed_ok : Bool) → List Event
      → (Register → Register)
      → Register
      → Served
  serve_proxy wait error_ok hello tx framed_ok events others r =
      serve_admitted (admit wait error_ok hello).0 hello.hostname tx (handle framed_ok events).flow
        others r
