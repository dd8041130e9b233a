-- ===== src/Server/ProxyHandler/Refines.antt =====
-- The rounds of the handler in server/src/proxy_handler.rs on the table of seats.
use craftip_crosscompiletest.Prelude.{
  ◌≡◌, refl, sym, ◌∙◌, List, [], ◌∷◌, Option, none, some, Bool, true, false, Outcome, ok,
}
use craftip_crosscompiletest.Prelude.Maps
use craftip_crosscompiletest.Prelude.Maps.{nat_eq}
use craftip_crosscompiletest.Shared.Minecraft.{MinecraftDataPacket}
use craftip_crosscompiletest.Shared.Proxy.{ProxyDataPacket, data_packet, to_data_packet}
use craftip_crosscompiletest.Shared.SocketPacket.{
  SocketPacket, proxy_disconnect, proxy_data, proxy_ping,
}
use craftip_crosscompiletest.Shared.Addressing.{
  Channel, SocketAddr, DistributorError, ClientToProxy, add_minecraft_client,
  remove_minecraft_client, close,
}
use craftip_crosscompiletest.Shared.Addressing
use craftip_crosscompiletest.Server.Socket.{packet, failed, ended}
use craftip_crosscompiletest.Server.Distributor.{
  empty, MinecraftClient, Distributor, insert, get_by_addr, get_by_id, client_at,
}
use craftip_crosscompiletest.Server.Distributor.Insert.{Inserts, inserted, full, insert_lem}
use craftip_crosscompiletest.Server.Distributor.Invariant.{empty-Inv, Inv}
use craftip_crosscompiletest.Server.ProxyHandler.{
  break, panicked, fail, Flow, then_run, run, Wake, from_channel, from_socket, silent, Event, Turn,
  go_on, joined, forward, disconnect, deliver, on_message, on_packet, turn_on, turn,
}
use craftip_crosscompiletest.Server.ProxyHandler.Routing.{turn-Inv, Fresh, FreshWake, FreshMessage}
use craftip_crosscompiletest.Server.ProxyHandler.Seats.{
  waits, goes_on, ends, all_free, AllowedRun, Seats, Changed, Allowed, seated, seated_unsent,
  all_taken, forwarded, forward_unsent, no_sender, left, leave_unsent, left_before, thrown_out,
  answered, answer_untaken, answer_unclaimed, ponged, pong_unsent, read_over, socket_failed,
  socket_ended, fell_silent, channel_ended, closed, seats,
}
use craftip_crosscompiletest.Server.ProxyHandler.Seating.{
  seat-free, seat_of-get_by_addr, no_seat, linked, taken, remove_by_addr-Same,
  remove_by_addr-Changed, remove_by_id-Changed,
}

module _ (d : Distributor) (v : Inv d) where
  -- What a round allows, told of the round.
  abbrev pub Refines : Wake → Bool → Bool → Turn → Type 0
  Refines w b c t = Allowed (seats d) (seats t.distributor) w b c t.flow t.output

  insert-Refines :
      (a : SocketAddr) (tx : Channel) (b c : Bool)
      (r : Outcome DistributorError MinecraftClient × Distributor)
      → Maps.get a d.clients_addr ≡ none
      → Inserts d a tx r
      → Refines (from_channel (some (add_minecraft_client a tx))) b c (joined b r)
  insert-Refines a tx b c r fresh (full eq below) =
      rw eq (all_taken a tx b c (λ j h. taken d v j (below j h)) (λ j. refl))
  insert-Refines a tx b c r fresh (inserted i eq range free below p q) = entered b r.0 eq
    where
      change : Changed i (some (a, tx)) (seats d) (seats r.1)
      change = linked d v r.1 a i tx fresh p q

      entered :
          (b : Bool) (o : Outcome DistributorError MinecraftClient)
          → o ≡ ok (record { tx = tx; id = i })
          → Refines (from_channel (some (add_minecraft_client a tx))) b c (joined b (o, r.1))
      entered true o h =
          rw h
            (seated a tx c i range (seat-free d v i free) (λ j lt. taken d v j (below j lt)) change)
      entered false o h = rw h (
          seated_unsent a tx c i range (seat-free d v i free) (λ j lt. taken d v j (below j lt))
            change)

  forward-Refines :
      (b c : Bool) (a : SocketAddr) (pkg : MinecraftDataPacket) (o : Option MinecraftClient)
      → get_by_addr d a ≡ o
      → Refines (from_channel (some (Addressing.packet a pkg))) b c (forward b o pkg d)
  unfolding data_packet
  forward-Refines b c a pkg none h = no_sender a b c pkg (no_seat d v a h) (λ j. refl)
  forward-Refines true c a pkg (some k) h =
      forwarded a k.tx c k.id pkg (seat_of-get_by_addr d v a k h) (λ j. refl)
  forward-Refines false c a pkg (some k) h =
      forward_unsent a k.tx c k.id pkg (seat_of-get_by_addr d v a k h) (λ j. refl)

  disconnect-Refines :
      (b c : Bool) (a : SocketAddr) (o : Option MinecraftClient)
      → get_by_addr d a ≡ o
      → Refines (from_channel (some (remove_minecraft_client a))) b c (disconnect b o a d)
  disconnect-Refines b c a none h =
      left_before a b c (no_seat d v a h) (remove_by_addr-Same d v a h)
  disconnect-Refines true c a (some k) h =
      left a k.tx c k.id (seat_of-get_by_addr d v a k h) (remove_by_addr-Changed d v a k h)
  disconnect-Refines false c a (some k) h =
      leave_unsent a k.tx c k.id (seat_of-get_by_addr d v a k h) (λ j. refl)

  on_message-Refines :
      (b c : Bool) (m : Option ClientToProxy)
      → FreshMessage m d
      → Refines (from_channel m) b c (on_message b m d)
  unfolding on_message
  on_message-Refines b c none f = channel_ended b c (λ j. refl)
  on_message-Refines b c (some close) f = closed b c (λ j. refl)
  on_message-Refines b c (some (add_minecraft_client a tx)) f =
      insert-Refines a tx b c (insert d a tx) f (insert_lem d a tx)
  on_message-Refines b c (some (Addressing.packet a pkg)) f =
      forward-Refines b c a pkg (get_by_addr d a) refl
  on_message-Refines b c (some (remove_minecraft_client a)) f =
      disconnect-Refines b c a (get_by_addr d a) refl

  deliver-Refines :
      (b c : Bool) (p : ProxyDataPacket) (o : Option SocketAddr)
      → Maps.get p.client_id d.clients_id ≡ o
      → Refines
          (from_socket (packet (proxy_data p)))
          b
          c
          (deliver c (client_at o d) (to_data_packet p) d)
  unfolding to_data_packet
  deliver-Refines b c p none h = answer_unclaimed p b c (seat-free d v p.client_id h) (λ j. refl)
  deliver-Refines b c p (some a) h = go c (Maps.get a d.clients_addr) refl
    where
      go :
          (c : Bool) (x : Option MinecraftClient)
          → Maps.get a d.clients_addr ≡ x
          → Refines (from_socket (packet (proxy_data p))) b c (deliver c x p.packet d)
      go c none k = answer_unclaimed p b c (rw (h, k) refl) (λ j. refl)
      go true (some m) k = answered p a m.tx b (rw (h, k) refl) (λ j. refl)
      go false (some m) k = answer_untaken p b (λ j. refl)

  on_packet-Refines :
      (b c : Bool) (p : SocketPacket) → Refines (from_socket (packet p)) b c (on_packet b c p d)
  unfolding on_packet get_by_id
  on_packet-Refines b c (proxy_disconnect i) = thrown_out i b c (remove_by_id-Changed d v i)
  on_packet-Refines b c (proxy_data p) =
      deliver-Refines b c p (Maps.get p.client_id d.clients_id) refl
  on_packet-Refines true c (proxy_ping n) = ponged n c (λ j. refl)
  on_packet-Refines false c (proxy_ping n) = pong_unsent n c (λ j. refl)
  on_packet-Refines b c p = read_over p b c tt (λ j. refl)

  turn_on-Refines : (w : Wake) (b c : Bool) → FreshWake w d → Refines w b c (turn_on w b c d)
  unfolding turn_on
  turn_on-Refines (from_channel m) b c f = on_message-Refines b c m f
  turn_on-Refines (from_socket (packet p)) b c f = on_packet-Refines b c p
  turn_on-Refines (from_socket failed) b c f = socket_failed b c (λ j. refl)
  turn_on-Refines (from_socket ended) b c f = socket_ended b c (λ j. refl)
  turn_on-Refines silent b c f = fell_silent b c (λ j. refl)

  pub turn-Refines :
      (e : Event) → FreshWake e.wake d → Refines e.wake e.framed_ok e.channel_ok (turn e d)
  unfolding turn
  turn-Refines e f = turn_on-Refines e.wake e.framed_ok e.channel_ok f

then_run-AllowedRun :
    (s : Seats) (e : Event) (es : List Event) (t : Turn)
    → Allowed s (seats t.distributor) e.wake e.framed_ok e.channel_ok t.flow t.output
    → (let u = run es t.distributor in
        AllowedRun (seats t.distributor) es u.flow u.output (seats u.distributor))
    → let r = then_run t (run es) in AllowedRun s (e ∷ es) r.flow r.output (seats r.distributor)
then_run-AllowedRun s e es t now later = go t.flow refl
  where
    go :
        (f : Flow)
        → t.flow ≡ f
        → let r = then_run t (run es) in AllowedRun s (e ∷ es) r.flow r.output (seats r.distributor)
    go go_on q = rw (q, then_run) (goes_on (rw q at now) later)
    go break q = rw (q, then_run) (ends now (λ h. cc (sym q ∙ h)))
    go (fail x) q = rw (q, then_run) (ends now (λ h. cc (sym q ∙ h)))
    go panicked q = rw (q, then_run) (ends now (λ h. cc (sym q ∙ h)))

run_from-AllowedRun :
    (es : List Event) (d : Distributor)
    → Inv d
    → Fresh es d
    → AllowedRun (seats d) es (run es d).flow (run es d).output (seats (run es d).distributor)
unfolding run
run_from-AllowedRun [] d v f = waits (λ j. refl)
run_from-AllowedRun (e ∷ es) d v f =
    let w = turn-Inv e d f.0 v in
    then_run-AllowedRun (seats d) e es (turn e d) (turn-Refines d v e f.0)
      (run_from-AllowedRun es (turn e d).distributor w f.1)

-- Whatever arrives, in whatever order, as long as each address is entered only while it is not in use:
-- from the empty distributor on the handler does what the table of seats allows, round by round, in
-- what it sends, in how it goes on or ends, and in who is seated where.
pub run-AllowedRun :
    (es : List Event)
    → Fresh es empty
    → let t = run es empty in AllowedRun all_free es t.flow t.output (seats t.distributor)
unfolding empty Maps.get
run-AllowedRun es f = run_from-AllowedRun es empty empty-Inv f
