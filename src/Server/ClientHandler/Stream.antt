-- ===== src/Server/ClientHandler/Stream.antt =====
-- What the handler of a proxy client hears from the task of a Minecraft client (`MCClient` of
-- server/src/client_handler.rs) from its start to its drop.
use craftip_crosscompiletest.Prelude.{
  ◌≡◌, refl, ap, List, [], ◌∷◌, ◌++◌, none, some, Bool, true, false, ok,
}
use craftip_crosscompiletest.Shared.Minecraft.{MinecraftDataPacket, MinecraftHelloPacket}
use craftip_crosscompiletest.Shared.SocketPacket.{mc_data}
use craftip_crosscompiletest.Shared.Addressing.{
  Channel, SocketAddr, ClientToProxy, add_minecraft_client, remove_minecraft_client,
}
use craftip_crosscompiletest.Shared.Addressing
use craftip_crosscompiletest.Server.Socket.{
  Received, packet, failed, ended, Output, frame, to_minecraft, to_proxy,
}
use craftip_crosscompiletest.Server.ClientHandler.{
  McClient, new, Wake, from_channel, from_socket, Event, Turn, turn, turn_on, on_socket, then_run,
  handle, drop,
}

-- What the events mean, each on its own: the loop goes on, and with what it has heard; or it ends,
-- because the handler has dropped the client's channel, or for another reason.
pub data Meaning : Type 0 where
  hears : List MinecraftDataPacket → Meaning
  handler_left : Meaning
  player_left : Meaning

abbrev pub heard_from : Bool → Received → Meaning
heard_from true (packet (mc_data pkg)) = hears (pkg ∷ [])
heard_from false (packet (mc_data pkg)) = player_left
heard_from send_ok (packet other) = hears []
heard_from send_ok failed = player_left
heard_from send_ok ended = player_left

abbrev pub meaning : Wake → Bool → Meaning
meaning (from_channel none) send_ok = handler_left
meaning (from_channel (some pkg)) true = hears []
meaning (from_channel (some pkg)) false = player_left
meaning (from_socket r) send_ok = heard_from send_ok r

-- The messages that they stand for, with the one of the drop.
abbrev pub says : SocketAddr → List MinecraftDataPacket → List ClientToProxy → List ClientToProxy
says addr [] rest = rest
says addr (pkg ∷ pkgs) rest = Addressing.packet addr pkg ∷ says addr pkgs rest

abbrev pub told_by : Meaning → SocketAddr → List ClientToProxy → List ClientToProxy
told_by (hears pkgs) addr rest = says addr pkgs rest
told_by handler_left addr rest = []
told_by player_left addr rest = remove_minecraft_client addr ∷ []

abbrev pub told : List Event → SocketAddr → List ClientToProxy
told [] addr = remove_minecraft_client addr ∷ []
told (e ∷ es) addr = told_by (meaning e.wake e.send_ok) addr (told es addr)

-- The messages to the handler in what a task puts out.
abbrev pub proxied : List Output → List ClientToProxy
proxied [] = []
proxied (to_proxy tx m ∷ out) = m ∷ proxied out
proxied (frame p ∷ out) = proxied out
proxied (to_minecraft tx p ∷ out) = proxied out

-- A whole life of the task: what it puts out, and the drop at the end.
abbrev pub life : Turn → List Output
life t = t.output ++ drop t.client

-- One round, where the rounds behind it come to `ms`.
module _ (c : McClient) (open_end : c.need_for_close ≡ true) (next : McClient → Turn)
    (ms : List ClientToProxy) (rest : proxied (life (next c)) ≡ ms) where
  life-on_socket :
      (r : Received) (b : Bool)
      → proxied (life (then_run (on_socket b r c) next)) ≡ told_by (heard_from b r) c.addr ms
  life-on_socket (packet (mc_data pkg)) true = ap (λ l. Addressing.packet c.addr pkg ∷ l) rest
  life-on_socket (packet (mc_data pkg)) false = unfold drop in rw open_end
  life-on_socket failed b = unfold drop in rw open_end
  life-on_socket ended b = unfold drop in rw open_end
  life-on_socket (packet other) true = rest
  life-on_socket (packet other) false = rest

  life-turn_on :
      (w : Wake) (b : Bool)
      → proxied (life (then_run (turn_on w b c) next)) ≡ told_by (meaning w b) c.addr ms
  life-turn_on (from_channel none) b = unfold drop in refl
  life-turn_on (from_channel (some pkg)) true = rest
  life-turn_on (from_channel (some pkg)) false = unfold drop in rw open_end
  life-turn_on (from_socket r) b = life-on_socket r b

  life-turn :
      (e : Event)
      → proxied (life (then_run (turn e c) next)) ≡ told_by (meaning e.wake e.send_ok) c.addr ms
  unfolding turn
  life-turn e = life-turn_on e.wake e.send_ok

life-handle :
    (es : List Event) (c : McClient)
    → c.need_for_close ≡ true
    → proxied (life (handle es c)) ≡ told es c.addr
unfolding handle
life-handle [] c h = unfold drop in rw h
life-handle (e ∷ es) c h = life-turn c h (handle es) (told es c.addr) (life-handle es c h) e

abbrev opened : Channel → Channel → SocketAddr → McClient
opened proxy_tx rx addr = record {
  rx = rx;
  addr = addr;
  proxy_tx = proxy_tx;
  need_for_close = true;
}

-- The task of a Minecraft client, from `new` to its drop, whenever that is: the handler of the proxy
-- client hears of the new client, then gets the first packet, and then what the player sends, in
-- order, and at the end it hears once that the client is gone, unless it has dropped the client
-- itself.
pub session_lem :
    (proxy_tx rx : Channel) (addr : SocketAddr) (hello : MinecraftHelloPacket) (es : List Event)
    → (c : McClient) × ((new proxy_tx (some addr) rx hello true true).0 ≡ ok c)
      × (proxied ((new proxy_tx (some addr) rx hello true true).1 ++ life (handle es c))
          ≡ add_minecraft_client addr rx
            ∷ Addressing.packet addr (record { body = hello.body })
            ∷ told es addr)
unfolding new
session_lem proxy_tx rx addr hello es =
    let c = opened proxy_tx rx addr in
    let hears_hello = (λ (ms : List ClientToProxy).
      add_minecraft_client addr rx ∷ Addressing.packet addr (record { body = hello.body }) ∷ ms) in
    (c, refl, ap hears_hello (life-handle es c refl))
