-- ===== src/Gui/Port/Admitted.antt =====
-- From a new key of the window to a client that is admitted: a click on `Connect` in client-gui/src/main.rs,
-- the controller of client-gui/src/backend.rs, and `Client::connect` of client/src/client.rs.
use craftip_crosscompiletest.Prelude.{
  sym, ◌≡◌, refl, ◌∙◌, List, [], ◌∷◌, ℕ, Bool, true, false, some, ok, arith, bytes_of,
}
use craftip_crosscompiletest.Shared.SocketPacket.{SocketPacket, proxy_hello}
use craftip_crosscompiletest.Shared.Proxy.{ProxyHelloPacket}
use craftip_crosscompiletest.Shared.Utf8.{RustString}
use craftip_crosscompiletest.Shared.Addressing.{Channel, DistributorError}
use craftip_crosscompiletest.Shared.Crypto.{CryptoCrates, ServerPrivateKey}
use craftip_crosscompiletest.Server.Socket.{packet}
use craftip_crosscompiletest.Server.ProcessSocket.{finished, admit}
use craftip_crosscompiletest.Client.Structs.{Server, new_from_key}
use craftip_crosscompiletest.Client.Connect.{
  Answer, connect, asked, made_local, made_of_key_pair, named_by_key, named_client_admitted,
}
use craftip_crosscompiletest.Gui.Channel.{GuiTriggeredEvent}
use craftip_crosscompiletest.Gui.Panels.{ServerPanel, panel_of, press}
use craftip_crosscompiletest.Gui.Controller.{App, on_gui, spawn}
use craftip_crosscompiletest.Gui.Port.{localhost, decimal}
use craftip_crosscompiletest.Gui.Port.Name.{click_starts_port}

default_port : decimal 5 25565 ≡ bytes_of "25565"
unfolding decimal
default_port = refl

module _ (crypto : CryptoCrates) (shown : DistributorError → RustString) where
  -- Where the server was made by `new_from_key`: a click on the button of its panel, when no server is
  -- connected, tells the controller to start a client, whose local server is localhost:25565; and when that
  -- client reaches both servers, can send, and is asked to sign a challenge, it sends a hello and a
  -- signature with which the server admits it, for every key and challenge.
  pub window_client_admitted :
      (k : ServerPrivateKey) (s : Server) (new_tx : Channel) (send_ok : Bool) (a : App)
      (challenge : List ℕ) (answer : Answer) (stats_ok error_ok : Bool)
      → new_from_key crypto k ≡ ok s
      → (q : ServerPanel) × (e : GuiTriggeredEvent) × (t : Server) × (hello : ProxyHelloPacket)
        × (reply : SocketPacket) × (press localhost false (panel_of s) ≡ some (q, e))
        × ((on_gui new_tx send_ok (some e) a).output ≡ spawn t new_tx ∷ [])
        × (t.local ≡ bytes_of "localhost:25565")
        × ((connect crypto t (asked challenge answer stats_ok)).1 ≡ proxy_hello hello ∷ reply ∷ [])
        × ((admit crypto shown (finished (some challenge) true (packet reply)) error_ok hello).0
            ≡ ok tt)
  unfolding decimal
  window_client_admitted k s new_tx send_ok a challenge answer stats_ok error_ok h =
      let (named, held) = named_by_key crypto k s (made_of_key_pair crypto k s h) h in
      let t : Server = record {
        server = s.server;
        local = bytes_of "localhost:25565";
        auth = s.auth;
      } in
      let (hello, reply, sent, admitted, same) =
        named_client_admitted crypto shown k t challenge answer stats_ok error_ok
          (made_of_key_pair crypto k s h) named held in
      let (q, e, clicked, started) =
        click_starts_port s 25565 new_tx send_ok a (omega arith)
          (made_local crypto k s h ∙ sym default_port) in
      (q, e, t, hello, reply, clicked, started, refl, sent, admitted)
