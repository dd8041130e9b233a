-- ===== src/Server/ProxyHandler/View.antt =====
-- What the proxy client is told in server/src/proxy_handler.rs: the ids that it can work out from the
-- frames that it gets and sends are the ids of the distributor.
use mathlib.Core.Path.{fun_ext}
use craftip_crosscompiletest.Prelude.{
  ℕ, ◌≡◌, refl, ap, ◌∙◌, List, [], ◌∷◌, Option, none, some, Bool, true, false, Outcome, ok, err,
  panic, arith,
}
use craftip_crosscompiletest.Prelude.Ids.{Ids, set_to}
use craftip_crosscompiletest.Prelude.Maps
use craftip_crosscompiletest.Prelude.Maps.{nat_eq, is_some}
use craftip_crosscompiletest.Shared.Minecraft.{MinecraftDataPacket}
use craftip_crosscompiletest.Shared.SocketPacket.{
  SocketPacket, proxy_join, proxy_disconnect, proxy_data, proxy_ping,
}
use craftip_crosscompiletest.Shared.Addressing.{
  SocketAddr, DistributorError, ClientToProxy, add_minecraft_client, remove_minecraft_client, close,
}
use craftip_crosscompiletest.Shared.Addressing
use craftip_crosscompiletest.Server.Socket.{packet, failed, ended, Output, frame}
use craftip_crosscompiletest.Server.Distributor.{
  MinecraftClient, Distributor, insert, remove_by_addr, remove_by_id, get_by_addr, get_by_id,
}
use craftip_crosscompiletest.Server.Distributor.Insert.{Inserts, inserted, full, insert_lem}
use craftip_crosscompiletest.Server.ProxyHandler.{
  Wake, from_channel, from_socket, silent, Event, Flow, go_on, break, fail, panicked, Turn, joined,
  forward, disconnect, deliver, on_message, on_packet, turn_on, turn, then_run, run,
}

-- A frame that the proxy client gets, in the order of the list.
abbrev pub after_frames : List Output → Ids → Ids
after_frames [] s = s
after_frames (frame (proxy_join i) ∷ out) s = after_frames out (set_to true i s)
after_frames (frame (proxy_disconnect i) ∷ out) s = after_frames out (set_to false i s)
after_frames (_ ∷ out) s = after_frames out s

-- A frame that it sends.
abbrev pub after_wake : Wake → Ids → Ids
after_wake (from_socket (packet (proxy_disconnect i))) s = set_to false i s
after_wake _ s = s

-- The ids in use on the server.
abbrev pub ids : Distributor → Ids
ids d j = Maps.contains_key j d.clients_id

-- The view after one round agrees with the distributor, if the loop goes on.
abbrev pub Agrees : Ids → Turn → Type 0
Agrees s t = t.flow ≡ go_on → (j : ℕ) → ids t.distributor j ≡ after_frames t.output s j

contains-remove :
    (d : Distributor) (i j : ℕ)
    → Maps.contains_key j (Maps.remove i d.clients_id) ≡ set_to false i (ids d) j
unfolding Maps.contains_key
contains-remove d i j = ground (arith, Maps.get-remove i j d.clients_id)

joined-Agrees :
    (b : Bool) (d : Distributor) (addr : SocketAddr) (tx : ℕ)
    (r : Outcome DistributorError MinecraftClient × Distributor)
    → Inserts d addr tx r
    → Agrees (ids d) (joined b r)
unfolding Maps.contains_key
joined-Agrees true d addr tx (ok c, e) (inserted i eq range free below p q) h j =
    ground (arith, q j)
joined-Agrees false d addr tx (ok c, e) v h j = cc
joined-Agrees b d addr tx (ok c, e) (full eq below) h j = cc (ap (λ x. x.0) eq)
joined-Agrees b d addr tx (err x, e) v h j = cc
joined-Agrees b d addr tx (panic, e) v h j = cc

disconnected-Agrees :
    (b : Bool) (o : Option MinecraftClient) (addr : SocketAddr) (d : Distributor)
    → get_by_addr d addr ≡ o
    → Agrees (ids d) (disconnect b o addr d)
disconnected-Agrees b none addr d e h j = unfold get_by_addr remove_by_addr in rw e refl
disconnected-Agrees true (some c) addr d e h j =
    unfold get_by_addr remove_by_addr in rw e (contains-remove d c.id j)
disconnected-Agrees false (some c) addr d e h j = cc

on_message-Agrees :
    (b : Bool) (m : Option ClientToProxy) (d : Distributor) → Agrees (ids d) (on_message b m d)
unfolding on_message
on_message-Agrees b none d h j = cc
on_message-Agrees b (some close) d h j = cc
on_message-Agrees b (some (add_minecraft_client addr tx)) d h j =
    joined-Agrees b d addr tx (insert d addr tx) (insert_lem d addr tx) h j
on_message-Agrees b (some (Addressing.packet addr pkg)) d h j =
    forwarded b (get_by_addr d addr) pkg d h j
  where
    forwarded :
        (b : Bool) (o : Option MinecraftClient) (pkg : MinecraftDataPacket) (d : Distributor)
        → Agrees (ids d) (forward b o pkg d)
    forwarded b none pkg d h j = cc
    forwarded true (some c) pkg d h j = refl
    forwarded false (some c) pkg d h j = cc
on_message-Agrees b (some (remove_minecraft_client addr)) d h j =
    disconnected-Agrees b (get_by_addr d addr) addr d refl h j

deliver-Agrees :
    (b : Bool) (o : Option MinecraftClient) (pkg : MinecraftDataPacket) (d : Distributor)
    → Agrees (ids d) (deliver b o pkg d)
deliver-Agrees b none pkg d h j = refl
deliver-Agrees true (some c) pkg d h j = refl
deliver-Agrees false (some c) pkg d h j = refl

on_packet-Agrees :
    (b c : Bool) (p : SocketPacket) (d : Distributor)
    → Agrees (after_wake (from_socket (packet p)) (ids d)) (on_packet b c p d)
unfolding on_packet
on_packet-Agrees b c (proxy_disconnect id) d h j = unfold remove_by_id in contains-remove d id j
on_packet-Agrees b c (proxy_data p) d h j = deliver-Agrees c (get_by_id d p.client_id) _ d h j
on_packet-Agrees true c (proxy_ping n) d h j = refl
on_packet-Agrees false c (proxy_ping n) d h j = cc
on_packet-Agrees b c _ d h j = refl

turn_on-Agrees :
    (w : Wake) (b c : Bool) (d : Distributor) → Agrees (after_wake w (ids d)) (turn_on w b c d)
unfolding turn_on
turn_on-Agrees (from_channel m) b c d h j = on_message-Agrees b m d h j
turn_on-Agrees (from_socket (packet p)) b c d h j = on_packet-Agrees b c p d h j
turn_on-Agrees (from_socket failed) b c d h j = cc
turn_on-Agrees (from_socket ended) b c d h j = cc
turn_on-Agrees silent b c d h j = cc

pub turn-Agrees : (e : Event) (d : Distributor) → Agrees (after_wake e.wake (ids d)) (turn e d)
unfolding turn
turn-Agrees e d = turn_on-Agrees e.wake e.framed_ok e.channel_ok d

-- The ids that the proxy client works out, round by round.
abbrev pub view : List Event → Distributor → Ids → Ids
view [] d s = s
view (e ∷ es) d s =
    view es (turn e d).distributor (after_frames (turn e d).output (after_wake e.wake s))

goes_on :
    (t : Turn) (rest : Distributor → Turn) {P : Type 0}
    → (then_run t rest).flow ≡ go_on
    → (t.flow ≡ go_on → (rest t.distributor).flow ≡ go_on → P)
    → P
goes_on t rest {P} h k = go t.flow refl
  where
    go : (f : Flow) → t.flow ≡ f → P
    go go_on q = k q (rw (q, then_run) at h)
    go break q = cc (q, (rw (q, then_run) at h))
    go (fail x) q = cc (q, (rw (q, then_run) at h))
    go panicked q = cc (q, (rw (q, then_run) at h))

then_run-distributor :
    (t : Turn) (rest : Distributor → Turn)
    → t.flow ≡ go_on
    → (then_run t rest).distributor ≡ (rest t.distributor).distributor
then_run-distributor t rest q = rw (q, then_run)

-- While the loop goes on, the ids that the proxy client works out from the frames it was sent and the
-- disconnects it sent are exactly the ids in use on the server.
pub view_exact :
    (es : List Event) (d : Distributor)
    → (run es d).flow ≡ go_on
    → ids (run es d).distributor ≡ view es d (ids d)
unfolding run
view_exact [] d h = refl
view_exact (e ∷ es) d h = goes_on (turn e d) (run es) h λ now later.
    ap ids (then_run-distributor (turn e d) (run es) now)
    ∙ view_exact es (turn e d).distributor later
    ∙ ap (view es (turn e d).distributor) (fun_ext (turn-Agrees e d now))
