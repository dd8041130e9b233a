-- ===== src/Tests/Starting.antt =====
-- The keys of shared/src/crypto.rs at 83 and 32 bytes, and the programs that are started with them.
use craftip_crosscompiletest.Shared.Config.{key_server_suffix}
use craftip_crosscompiletest.Prelude.{
  arith, ℕ, ◌≡◌, refl, List, [], ◌∷◌, ◌++◌, some, none, true, false, ok, bytes_of,
}
use craftip_crosscompiletest.Shared.Utf8.{RustString}
use craftip_crosscompiletest.Shared.Proxy.{ProxyHelloPacket}
use craftip_crosscompiletest.Shared.SocketPacket.{SocketPacket, proxy_hello, proxy_hello_response}
use craftip_crosscompiletest.Shared.Crypto.{
  ServerPrivateKey, get_host, get_hostname, get_public_key,
}
use craftip_crosscompiletest.Shared.Addressing.{DistributorError}
use craftip_crosscompiletest.Server.Socket.{packet}
use craftip_crosscompiletest.Server.ProcessSocket.{finished, admit}
use craftip_crosscompiletest.Client.Structs.{Server, key, new_from_key}
use craftip_crosscompiletest.Client.Connect.{Answer, asked, connect}
use craftip_crosscompiletest.Client.Connect
use craftip_crosscompiletest.Client.Main.{main, generated_client_admitted}
use craftip_crosscompiletest.Gui.Controller.{App, on_gui, spawn}
use craftip_crosscompiletest.Gui.Port.{localhost, decimal}
use craftip_crosscompiletest.Gui.Channel.{GuiTriggeredEvent}
use craftip_crosscompiletest.Gui.Panels.{ServerPanel, panel_of, press}
use craftip_crosscompiletest.Gui.Port.Name.{click_starts_port}
use craftip_crosscompiletest.Gui.Port.Admitted.{window_client_admitted}
use craftip_crosscompiletest.Tests.Crates.{crypto}

abbrev key_bytes : List ℕ
key_bytes =
    bytes_of "0123456789abcdefghijklmnopqrstuvwxyz0123456789abcdefghijklmnopqrstuvwxyz0123456789a"

abbrev private_key : ServerPrivateKey
private_key = record { key = key_bytes }

abbrev hostname : RustString
hostname = bytes_of "CraftIPServerHost012" ++ key_server_suffix

abbrev text_of : DistributorError → RustString
text_of e = bytes_of "AuthError"

abbrev welcome : Answer
welcome = Connect.from_proxy (packet (proxy_hello_response (record { version = 1 })))

hostname_of_key : get_hostname crypto (record { key = key_bytes }) ≡ ok hostname
unfolding get_hostname get_host
hostname_of_key = refl

generated_client_admitted_example :
    (hello : ProxyHelloPacket) × (reply : SocketPacket) × ((main crypto
        (some key_bytes)
        2
        (asked (5 ∷ []) welcome true)
        []).sent
      ≡ proxy_hello hello ∷ reply ∷ [])
    × (hello.hostname ≡ hostname)
    × ((admit crypto text_of (finished (some (5 ∷ [])) true (packet reply)) true hello).0 ≡ ok tt)
generated_client_admitted_example =
    generated_client_admitted crypto text_of key_bytes 2 (5 ∷ []) welcome true true [] hostname refl
      refl hostname_of_key

-- A window that shows one server, which was made with the key.
abbrev made : Server
made = record { server = hostname; local = bytes_of "25565"; auth = key private_key }

made_by_key : new_from_key crypto private_key ≡ ok made
unfolding new_from_key get_host get_public_key
made_by_key = refl

abbrev window : App
window = record {
  gui = record { loading = false; error = none; servers = some (panel_of made ∷ []) };
  control_tx = none;
}

window_client_admitted_example :
    (q : ServerPanel) × (e : GuiTriggeredEvent) × (t : Server) × (hello : ProxyHelloPacket)
    × (reply : SocketPacket) × (press localhost false (panel_of made) ≡ some (q, e))
    × ((on_gui 3 true (some e) window).output ≡ spawn t 3 ∷ [])
    × (t.local ≡ bytes_of "localhost:25565")
    × ((connect crypto t (asked (5 ∷ []) welcome true)).1 ≡ proxy_hello hello ∷ reply ∷ [])
    × ((admit crypto text_of (finished (some (5 ∷ [])) true (packet reply)) true hello).0 ≡ ok tt)
window_client_admitted_example =
    window_client_admitted crypto text_of private_key made 3 true window (5 ∷ []) welcome true true
      made_by_key

-- A server on another port.
abbrev elsewhere : Server
elsewhere = record made { local = bytes_of "8080" }

port_8080 : bytes_of "8080" ≡ decimal 5 8080
unfolding decimal
port_8080 = refl

click_starts_port_example :
    (q : ServerPanel) × (e : GuiTriggeredEvent) × (press localhost false (panel_of elsewhere)
      ≡ some (q, e))
    × ((on_gui 3 true (some e) window).output
        ≡ spawn
            (record {
              server = hostname;
              local = bytes_of "localhost:" ++ decimal 5 8080;
              auth = key private_key;
            })
            3
          ∷ [])
click_starts_port_example = click_starts_port elsewhere 8080 3 true window (omega arith) port_8080
