-- ===== src/System/Agree.antt =====
-- The two tables of ids, of server/src/proxy_handler.rs and of client/src/client.rs, agree but for what
-- is on the way.
use mathlib.Core.Path.{fun_ext}
use craftip_crosscompiletest.Prelude.{
  ℕ, ◌≡◌, inl, inr, refl, sym, ap, ◌∙◌, List, [], ◌∷◌, ◌++◌, true, false, some, Bool-cases, arith,
  if◌then◌else◌,
}
use craftip_crosscompiletest.Prelude.Ids.{Ids, set_to}
use craftip_crosscompiletest.Shared.SocketPacket.{SocketPacket, proxy_join, proxy_disconnect}
use craftip_crosscompiletest.Server.Socket.{Received, packet, failed, ended}
use craftip_crosscompiletest.Server.Socket
use craftip_crosscompiletest.Server.Distributor.{empty}
use craftip_crosscompiletest.Server.ProxyHandler
use craftip_crosscompiletest.Server.ProxyHandler.View
use craftip_crosscompiletest.Client.Tunnel
use craftip_crosscompiletest.Client.Tunnel.{State, no_connections, set_stats_tx}
use craftip_crosscompiletest.Client.View as ClientView
use craftip_crosscompiletest.System.{
  System, connected, server_frames, client_frames, ServerTakes, ClientTakes, joins, leaves,
  Uncrossed, Step, server_turn, client_turn, Reach, here, next,
}

-- What the packets on the way down make of the client's ids, and those on the way up of the server's.
abbrev pub after_down : List SocketPacket → Ids → Ids
after_down [] s = s
after_down (proxy_join i ∷ ps) s = after_down ps (set_to true i s)
after_down (proxy_disconnect i ∷ ps) s = after_down ps (set_to false i s)
after_down (_ ∷ ps) s = after_down ps s

abbrev pub after_up : List SocketPacket → Ids → Ids
after_up [] s = s
after_up (proxy_disconnect i ∷ ps) s = after_up ps (set_to false i s)
after_up (_ ∷ ps) s = after_up ps s

after_down-append :
    (a b : List SocketPacket) (s : Ids) → after_down (a ++ b) s ≡ after_down b (after_down a s)
after_down-append [] b s = refl
after_down-append (proxy_join i ∷ a) b s = after_down-append a b (set_to true i s)
after_down-append (proxy_disconnect i ∷ a) b s = after_down-append a b (set_to false i s)
after_down-append (_ ∷ a) b s = after_down-append a b s

after_up-append :
    (a b : List SocketPacket) (s : Ids) → after_up (a ++ b) s ≡ after_up b (after_up a s)
after_up-append [] b s = refl
after_up-append (proxy_disconnect i ∷ a) b s = after_up-append a b (set_to false i s)
after_up-append (_ ∷ a) b s = after_up-append a b s

-- The disconnects take their ids out, and change nothing else.
after_up-leaves :
    (ps : List SocketPacket) (s : Ids) (j : ℕ)
    → after_up ps s j ≡ (if leaves ps j then false else s j)
after_up-leaves [] s j = refl
after_up-leaves (proxy_disconnect i ∷ ps) s j =
    ground (arith, after_up-leaves ps (set_to false i s) j)
after_up-leaves (_ ∷ ps) s j = after_up-leaves ps s j

after_down-same :
    (ps : List SocketPacket) (s t : Ids) (j : ℕ) → s j ≡ t j → after_down ps s j ≡ after_down ps t j
after_down-same [] s t j h = h
after_down-same (proxy_join i ∷ ps) s t j h =
    after_down-same ps (set_to true i s) (set_to true i t) j (ground arith)
after_down-same (proxy_disconnect i ∷ ps) s t j h =
    after_down-same ps (set_to false i s) (set_to false i t) j (ground arith)
after_down-same (_ ∷ ps) s t j h = after_down-same ps s t j h

after_down-false :
    (ps : List SocketPacket) (s : Ids) (j : ℕ)
    → joins ps j ≡ false
    → s j ≡ false
    → after_down ps s j ≡ false
after_down-false [] s j n h = h
after_down-false (proxy_join i ∷ ps) s j n h =
    after_down-false ps (set_to true i s) j (ground arith) (ground arith)
after_down-false (proxy_disconnect i ∷ ps) s j n h =
    after_down-false ps (set_to false i s) j n (ground arith)
after_down-false (_ ∷ ps) s j n h = after_down-false ps s j n h

-- The two directions can be taken in either order.
after_down-after_up :
    (down up : List SocketPacket) (s : Ids) (j : ℕ)
    → Uncrossed down up
    → after_down down (after_up up s) j ≡ after_up up (after_down down s) j
after_down-after_up down up s j u = elim (Bool-cases (leaves up j)) [
  | inl e ↦
      after_down-false down (after_up up s) j (u j e) (ground (arith, after_up-leaves up s j))
      ∙ ground (arith, after_up-leaves up (after_down down s) j)
  | inr e ↦
      after_down-same down (after_up up s) s j (ground (arith, after_up-leaves up s j))
      ∙ ground (arith, after_up-leaves up (after_down down s) j)
]

-- The frames of either end, as its own view reads them.
server-frames :
    (out : List Socket.Output) (s : Ids)
    → View.after_frames out s ≡ after_down (server_frames out) s
server-frames [] s = refl
server-frames (Socket.frame (proxy_join i) ∷ out) s = server-frames out (set_to true i s)
server-frames (Socket.frame (proxy_disconnect i) ∷ out) s = server-frames out (set_to false i s)
server-frames (Socket.to_minecraft tx p ∷ out) s = server-frames out s
server-frames (Socket.to_proxy tx m ∷ out) s = server-frames out s
server-frames (Socket.frame _ ∷ out) s = server-frames out s

client-frames :
    (out : List Tunnel.Output) (s : Ids)
    → ClientView.after_output out s ≡ after_up (client_frames out) s
client-frames [] s = refl
client-frames (Tunnel.frame (proxy_disconnect i) ∷ out) s = client-frames out (set_to false i s)
client-frames (Tunnel.stats tx n ∷ out) s = client-frames out s
client-frames (Tunnel.to_connection tx p ∷ out) s = client-frames out s
client-frames (Tunnel.start id tx ∷ out) s = client-frames out s
client-frames (Tunnel.frame _ ∷ out) s = client-frames out s

received_up :
    (p : SocketPacket) (rest : List SocketPacket) (s : Ids)
    → after_up (p ∷ rest) s
      ≡ after_up rest (View.after_wake (ProxyHandler.from_socket (packet p)) s)
received_up (proxy_disconnect i) rest s = refl
received_up _ rest s = refl

server_takes :
    (w : ProxyHandler.Wake) (way rest : List SocketPacket) (s : Ids)
    → ServerTakes w way rest
    → after_up way s ≡ after_up rest (View.after_wake w s)
server_takes (ProxyHandler.from_socket (packet p)) way rest s h = rw h (received_up p rest s)
server_takes (ProxyHandler.from_socket failed) way rest s h = rw h refl
server_takes (ProxyHandler.from_socket ended) way rest s h = rw h refl
server_takes (ProxyHandler.from_channel m) way rest s h = rw h refl
server_takes ProxyHandler.silent way rest s h = rw h refl

received_down :
    (p : SocketPacket) (rest : List SocketPacket) (s : Ids)
    → after_down (p ∷ rest) s
      ≡ after_down rest (ClientView.after_wake (Tunnel.from_proxy (packet p)) s)
received_down (proxy_join i) rest s = refl
received_down (proxy_disconnect i) rest s = refl
received_down _ rest s = refl

client_takes :
    (w : Tunnel.Wake) (way rest : List SocketPacket) (s : Ids)
    → ClientTakes w way rest
    → after_down way s ≡ after_down rest (ClientView.after_wake w s)
client_takes (Tunnel.from_proxy (packet p)) way rest s h = rw h (received_down p rest s)
client_takes (Tunnel.from_proxy failed) way rest s h = rw h refl
client_takes (Tunnel.from_proxy ended) way rest s h = rw h refl
client_takes (Tunnel.from_control c) way rest s h = rw h refl
client_takes (Tunnel.from_connection m) way rest s h = rw h refl
client_takes Tunnel.tick way rest s h = rw h refl

-- What is on the way down makes of the client's ids what the way up makes of the server's.
pub record Agrees (stats : ℕ) (s : System) : Type 0 where
  pub same : after_down s.down (ClientView.ids s.client) ≡ after_up s.up (View.ids s.distributor)
  pub has_stats : s.client.stats_tx ≡ some stats

server_turn-same :
    (s : System) (e : ProxyHandler.Event) (up : List SocketPacket)
    → after_down s.down (ClientView.ids s.client) ≡ after_up s.up (View.ids s.distributor)
    → ServerTakes e.wake s.up up
    → (ProxyHandler.turn e s.distributor).flow ≡ ProxyHandler.go_on
    → Uncrossed (server_frames (ProxyHandler.turn e s.distributor).output) up
    → after_down
        (s.down ++ server_frames (ProxyHandler.turn e s.distributor).output)
        (ClientView.ids s.client)
      ≡ after_up up (View.ids (ProxyHandler.turn e s.distributor).distributor)
server_turn-same s e up same takes on free =
    after_down-append s.down sent (ClientView.ids s.client)
    ∙ ap (after_down sent) (same ∙ server_takes e.wake s.up up (View.ids s.distributor) takes)
    ∙ fun_ext (λ j. after_down-after_up sent up before j free)
    ∙ ap (after_up up) (sym (server-frames t.output before))
    ∙ ap (after_up up) (sym (fun_ext (View.turn-Agrees e s.distributor on)))
  where
    t : ProxyHandler.Turn
    t = ProxyHandler.turn e s.distributor

    sent : List SocketPacket
    sent = server_frames t.output

    before : Ids
    before = View.after_wake e.wake (View.ids s.distributor)

client_turn-same :
    (s : System) (stats : ℕ) (e : Tunnel.Event) (down : List SocketPacket)
    → after_down s.down (ClientView.ids s.client) ≡ after_up s.up (View.ids s.distributor)
    → ClientTakes e.wake s.down down
    → ClientView.Keeps
        (ClientView.after_wake e.wake (ClientView.ids s.client))
        s.client
        stats
        (Tunnel.turn e s.client)
    → Uncrossed down (client_frames (Tunnel.turn e s.client).output)
    → after_down down (ClientView.ids (Tunnel.turn e s.client).state)
      ≡ after_up (s.up ++ client_frames (Tunnel.turn e s.client).output) (View.ids s.distributor)
client_turn-same s stats e down same takes k free =
    ap (after_down down) (fun_ext k.same_ids)
    ∙ ap (after_down down) (client-frames t.output before)
    ∙ fun_ext (λ j. after_down-after_up down sent before j free)
    ∙ ap (after_up sent)
        (sym (client_takes e.wake s.down down (ClientView.ids s.client) takes) ∙ same)
    ∙ sym (after_up-append s.up sent (View.ids s.distributor))
  where
    t : Tunnel.Turn
    t = Tunnel.turn e s.client

    sent : List SocketPacket
    sent = client_frames t.output

    before : Ids
    before = ClientView.after_wake e.wake (ClientView.ids s.client)

Step-Agrees : (stats : ℕ) {s t : System} → Step s t → Agrees stats s → Agrees stats t
Step-Agrees stats {s} {t} (server_turn e up takes on free q) v =
    rw q (record { same = server_turn-same s e up v.same takes on free; has_stats = v.has_stats })
Step-Agrees stats {s} {t} (client_turn e down takes on ok free q) v =
    let k = ClientView.turn-Keeps stats e s.client v.has_stats ok on in
    rw q
      (record { same = client_turn-same s stats e down v.same takes k free; has_stats = k.same_tx })

connected-Agrees : (stats : ℕ) → Agrees stats (connected stats)
unfolding connected no_connections set_stats_tx empty
connected-Agrees stats = record { same = refl; has_stats = refl }

pub Reach-Agrees : (stats : ℕ) {t : System} → Reach (connected stats) t → Agrees stats t
Reach-Agrees stats here = connected-Agrees stats
Reach-Agrees stats (next r st) = Step-Agrees stats st (Reach-Agrees stats r)

-- After any rounds of the two loops that do not end them, as long as no join and disconnect of one id
-- cross on the way, and no task of a connection ends by itself: whenever nothing is on the way, the
-- ids with a connection on the client are exactly the ids in use on the server.
pub tables_agree :
    (stats : ℕ) (s : System)
    → Reach (connected stats) s
    → s.down ≡ []
    → s.up ≡ []
    → ClientView.ids s.client ≡ View.ids s.distributor
tables_agree stats s r d u =
    ap (λ ps. after_down ps (ClientView.ids s.client)) (sym d)
    ∙ (Reach-Agrees stats r).same
    ∙ ap (λ ps. after_up ps (View.ids s.distributor)) u
