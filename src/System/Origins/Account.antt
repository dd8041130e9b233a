-- ===== src/System/Origins/Account.antt =====
-- Which Minecraft client speaks on which connection of the proxy in server/src/proxy_handler.rs and
-- client/src/client.rs, in whatever order the two ends run.
use craftip_crosscompiletest.Prelude.{
  subst, ℕ, ◌≡◌, inl, refl, sym, ap, ◌∙◌, List, [], ◌∷◌, ◌++◌, some, none, append_assoc, subst,
}
use mathlib.Core.List.Memᴰ as Mem
use craftip_crosscompiletest.Prelude.Maps
use craftip_crosscompiletest.Prelude.Maps.{nat_eq}
use craftip_crosscompiletest.Shared.Minecraft.{MinecraftDataPacket}
use craftip_crosscompiletest.Shared.SocketPacket.{SocketPacket, proxy_data}
use craftip_crosscompiletest.Shared.Addressing.{Channel, SocketAddr}
use craftip_crosscompiletest.Shared.Addressing
use craftip_crosscompiletest.Server.Distributor.{empty}
use craftip_crosscompiletest.Server.Distributor.Invariant.{Inv, empty-Inv}
use craftip_crosscompiletest.Server.ProxyHandler
use craftip_crosscompiletest.Server.ProxyHandler.Routing.{turn-Inv}
use craftip_crosscompiletest.Client.Tunnel
use craftip_crosscompiletest.Client.Tunnel.{no_connections, set_stats_tx}
use craftip_crosscompiletest.System.Origins.{
  Signed, Tunnelled, opened, author, gives, starts, delivers, server_sends, Round, server_round,
  client_round, own_round, Rounds, no_round, then_round, Owners, after_packet, after_way, Way,
  Serves, Follows, nothing, turned_down, onto, Accounted, refuses, handed, payload, payloads,
}
use craftip_crosscompiletest.System.Origins.Server.{Sends, turn-Sends}
use craftip_crosscompiletest.System.Origins.Client.{Live, Hands, turn-Rests, turn-Hands}

after_way-append :
    (a b : List Signed) (o : Owners) → after_way (a ++ b) o ≡ after_way b (after_way a o)
after_way-append [] b o = refl
after_way-append ((p, c) ∷ a) b o = after_way-append a b (after_packet p c o)

Way-append : (a b : List Signed) (o : Owners) → Way a o → Way b (after_way a o) → Way (a ++ b) o
Way-append [] b o v w = w
Way-append ((p, c) ∷ a) b o v w = (v.0, Way-append a b (after_packet p c o) v.1 w)

onto-append :
    (a b old : List (SocketAddr × MinecraftDataPacket)) → onto (a ++ b) old ≡ onto b (onto a old)
onto-append [] b old = refl
onto-append (g ∷ a) b old = onto-append a b (g ∷ old)

payloads-append : (a b : List Signed) → payloads (a ++ b) ≡ payloads a ++ payloads b
payloads-append [] b = refl
payloads-append ((p, c) ∷ a) b =
    ap (λ x. payload p c ++ x) (payloads-append a b)
    ∙ sym (append_assoc (payload p c) (payloads a) (payloads b))

-- A round is given one packet at most.
onto-gives :
    (w : ProxyHandler.Wake) (old : List (SocketAddr × MinecraftDataPacket))
    → onto (gives w) old ≡ gives w ++ old
onto-gives (ProxyHandler.from_channel (some (Addressing.packet addr pkg))) old = refl
onto-gives _ old = refl

onto-payload :
    (p : SocketPacket) (a : SocketAddr) (old : List (SocketAddr × MinecraftDataPacket))
    → onto (payload p a) old ≡ payload p a ++ old
onto-payload (proxy_data p) a old = refl
onto-payload _ a old = refl

module _ {started : List (Channel × SocketAddr)} where
  Follows-more :
      (x : List (Channel × SocketAddr)) {delivered : List (Channel × MinecraftDataPacket)}
      {refused arrived : List (SocketAddr × MinecraftDataPacket)}
      → Follows started delivered refused arrived
      → Follows (x ++ started) delivered refused arrived
  Follows-more x nothing = nothing
  Follows-more x (turned_down f) = turned_down (Follows-more x f)
  Follows-more x (handed m f) = handed (Mem.append_right x m) (Follows-more x f)

  Follows-append :
      {d1 d2 : List (Channel × MinecraftDataPacket)}
      {r1 r2 a1 a2 : List (SocketAddr × MinecraftDataPacket)}
      → Follows started d1 r1 a1
      → Follows started d2 r2 a2
      → Follows started (d1 ++ d2) (r1 ++ r2) (a1 ++ a2)
  Follows-append nothing k = k
  Follows-append (turned_down f) k = turned_down (Follows-append f k)
  Follows-append (handed m f) k = handed m (Follows-append f k)

-- The ids of both ends and of the packets between them belong to the same addresses.
record Owned (s : Tunnelled) : Type 0 where
  pub owners : Owners
  pub inverse : Inv s.distributor
  pub served : Serves s.distributor (after_way s.down owners)
  pub way : Way s.down owners
  pub live : Live s.client.connections owners s.started
  pub accounted : Accounted s

opened-Owned : (stats : ℕ) → Owned (opened stats)
unfolding opened empty no_connections set_stats_tx Maps.get
opened-Owned stats = record {
  owners = λ i. none;
  inverse = empty-Inv;
  served = λ i a h. inl refl;
  way = tt;
  live = λ i tx h. cc;
  accounted = ([], refl, nothing);
}

server_round-Accounted :
    (s : Tunnelled) (o : Owners) (e : ProxyHandler.Event)
    → Sends (gives e.wake) (author e.wake) o (ProxyHandler.turn e s.distributor)
    → Accounted s
    → Accounted (record s {
      distributor = (ProxyHandler.turn e s.distributor).distributor;
      down = s.down ++ server_sends e s.distributor;
      given = gives e.wake ++ s.given;
    })
server_round-Accounted s o e r (arrived, all, f) =
    let sends = server_sends e s.distributor in
    (
      arrived,
      ap (λ g. gives e.wake ++ g) all
          ∙ sym (onto-gives e.wake (onto (payloads s.down) arrived))
          ∙ ap (λ g. onto g (onto (payloads s.down) arrived)) (sym r.sent)
          ∙ sym (onto-append (payloads s.down) (payloads sends) arrived)
          ∙ ap (λ g. onto g arrived) (sym (payloads-append s.down sends)),
      f,
    )

client_round-Accounted :
    (s : Tunnelled) (o : Owners) (e : Tunnel.Event) (p : SocketPacket) (a : SocketAddr)
    (rest : List Signed)
    → s.down ≡ (p, a) ∷ rest
    → let t = Tunnel.turn e s.client in
      Hands a o s.started (refuses e.channel_ok p a) (payload p a) t
      → Accounted s
      → Accounted (record s {
        client = t.state;
        down = rest;
        started = starts a t.output ++ s.started;
        delivered = delivers t.output ++ s.delivered;
        refused = refuses e.channel_ok p a ++ s.refused;
      })
client_round-Accounted s o e p a rest first r (arrived, all, f) = (
  payload p a ++ arrived,
  all
      ∙ ap (λ ps. onto (payloads ps) arrived) first
      ∙ onto-append (payload p a) (payloads rest) arrived
      ∙ ap (onto (payloads rest)) (onto-payload p a arrived),
  Follows-more (starts a (Tunnel.turn e s.client).output) (Follows-append r.follows f),
)

Round-Owned : {s t : Tunnelled} → Round s t → Owned s → Owned t
Round-Owned {s} {t} (server_round e fresh on q) v =
    let o = after_way s.down v.owners in
    let r = turn-Sends s.distributor o v.served e v.inverse on in
    let sends = server_sends e s.distributor in
    rw q (record {
      owners = v.owners;
      inverse = turn-Inv e s.distributor fresh v.inverse;
      served = rw (after_way-append s.down sends v.owners) r.served;
      way = Way-append s.down sends v.owners v.way r.way;
      live = v.live;
      accounted = server_round-Accounted s o e r v.accounted;
    })
Round-Owned {s} {t} (client_round e p a rest w first on q) v =
    let way = subst (λ ps. Way ps v.owners) first v.way in
    let r = turn-Hands s.client v.owners s.started e p a v.live w way.0 on in
    rw q (record {
      owners = after_packet p a v.owners;
      inverse = v.inverse;
      served = subst (λ ps. Serves s.distributor (after_way ps v.owners)) first v.served;
      way = way.1;
      live = r.live;
      accounted =
          client_round-Accounted s (after_packet p a v.owners) e p a rest first r v.accounted;
    })
Round-Owned {s} {t} (own_round e own on q) v =
    let r = turn-Rests v.owners s.started s.client v.live e own on in
    rw (q, r.none_delivered)
      (record {
        owners = v.owners;
        inverse = v.inverse;
        served = v.served;
        way = v.way;
        live = r.live;
        accounted = v.accounted;
      })

Rounds-Owned : (stats : ℕ) {s : Tunnelled} → Rounds (opened stats) s → Owned s
Rounds-Owned stats no_round = opened-Owned stats
Rounds-Owned stats (then_round r st) = Round-Owned st (Rounds-Owned stats r)

-- After any rounds of the two loops that do not end them, in whatever order, whatever the server gets
-- from the proxy client, and as long as no address joins the server that is in use: whatever the
-- Minecraft clients gave to the server has arrived at the client or is on the way, in the order in
-- which it was given. What arrived was, one by one and in this order, handed to a connection that was
-- started for the join of its giver, or refused since the task of the connection had ended.
pub Rounds-Accounted : (stats : ℕ) (s : Tunnelled) → Rounds (opened stats) s → Accounted s
Rounds-Accounted stats s r = (Rounds-Owned stats r).accounted
