-- ===== src/System/Origins/Client.antt =====
-- What a round of the loop in client/src/client.rs hands to a connection is for the connection that was
-- started for the owner of its id.
use craftip_crosscompiletest.Prelude.{
  subst, ℕ, ◌≡◌, refl, sym, ap, ◌∙◌, List, [], ◌∷◌, ◌++◌, Option, some, none, Bool, true, false,
  Memᴰ, ◌==◌, if◌then◌else◌, arith,
}
use craftip_crosscompiletest.Prelude.Maps
use craftip_crosscompiletest.Prelude.Maps.{nat_eq, HashMap}
use craftip_crosscompiletest.Shared.Minecraft.{MinecraftDataPacket}
use craftip_crosscompiletest.Shared.SocketPacket.{
  SocketPacket, proxy_join, proxy_disconnect, proxy_data, proxy_pong,
}
use craftip_crosscompiletest.Shared.Addressing.{Channel, SocketAddr}
use craftip_crosscompiletest.Server.Socket.{failed, ended}
use craftip_crosscompiletest.Server.Socket
use craftip_crosscompiletest.Client.Structs.{ClientToProxy, packet, remove_minecraft_client, death}
use craftip_crosscompiletest.Client.Tunnel.{
  State, Turn, go_on, quiet, report, add_connection, remove_connection, send_over, send_to, Wake,
  from_control, from_connection, from_proxy, tick, Event, send_then, on_connection, pinged,
  start_after, on_packet, turn_on, turn,
}
use craftip_crosscompiletest.System.Origins.{
  starts, delivers, Own, Owners, own, after_packet, NobodyBut, Carries, Follows, nothing,
  turned_down, handed, payload, refuses,
}

-- Each connection was started for the owner of its id.
abbrev pub Live : HashMap ℕ Channel → Owners → List (Channel × SocketAddr) → Type 0
Live connections o started =
    (i : ℕ) (tx : Channel)
    → Maps.get i connections ≡ some tx
    → (a : SocketAddr) × (o i ≡ some a) × Memᴰ (tx, a) started

-- A round that hands nothing to a connection and starts none.
pub record Rests (o : Owners) (started : List (Channel × SocketAddr)) (t : Turn) : Type 0 where
  pub live : Live t.state.connections o started
  pub none_started : (a : SocketAddr) → starts a t.output ≡ []
  pub none_delivered : delivers t.output ≡ []

-- A round on a packet that is signed with `a`: `gifts` is the data in it, and `refused` what of it is
-- refused.
pub record Hands (a : SocketAddr) (o : Owners) (started : List (Channel × SocketAddr))
    (refused gifts : List (SocketAddr × MinecraftDataPacket)) (t : Turn) : Type 0 where
  pub live : Live t.state.connections o (starts a t.output ++ started)
  pub follows : Follows started (delivers t.output) refused gifts

Rests-Hands :
    (a : SocketAddr) (o : Owners) (started : List (Channel × SocketAddr)) (t : Turn)
    → Rests o started t
    → Hands a o started [] [] t
Rests-Hands a o started t r = record {
  live = rw (r.none_started a) r.live;
  follows = rw r.none_delivered nothing;
}

reported :
    (o : Owners) (started : List (Channel × SocketAddr)) (x : Option Channel) (b : Bool) (r : State)
    → Live r.connections o started
    → (report x b r).flow ≡ go_on
    → Rests o started (report x b r)
reported o started none b r v h = record {
  live = v;
  none_started = λ a. refl;
  none_delivered = refl;
}
reported o started (some tx) true r v h = record {
  live = v;
  none_started = λ a. refl;
  none_delivered = refl;
}
reported o started (some tx) false r v h = cc

module _ (o : Owners) (started : List (Channel × SocketAddr)) where
  pinged-Rests :
      (b : Bool) (tx n : ℕ) (s : State)
      → Live s.connections o started
      → (pinged b tx n s).flow ≡ go_on
      → Rests o started (pinged b tx n s)
  pinged-Rests true tx n s v h = record {
    live = v;
    none_started = λ a. refl;
    none_delivered = refl;
  }
  pinged-Rests false tx n s v h = cc

  sent :
      (b : Bool) (p : SocketPacket) (s : State) (t : Turn)
      → (t.flow ≡ go_on → Rests o started t)
      → (send_then b p s t).flow ≡ go_on
      → Rests o started (send_then b p s t)
  sent true p s t k h =
      let r = k h in
      record { live = r.live; none_started = r.none_started; none_delivered = r.none_delivered }
  sent false p s t k h = cc

  module _ (s : State) (v : Live s.connections o started) where
    unchanged : Rests o started (quiet go_on s)
    unchanged = record { live = v; none_started = λ a. refl; none_delivered = refl }

    without : (id : ℕ) → Live (Maps.remove id s.connections) o started
    without id i tx h = v i tx (ground (arith, Maps.get-remove id i s.connections, h))

    entered :
        (a : SocketAddr) (id new_tx : ℕ)
        → Live (Maps.insert id new_tx s.connections) (own (some a) id o) ((new_tx, a) ∷ started)
    entered a id new_tx i tx h = go (id == i) (sym (Maps.get-insert id i new_tx s.connections) ∙ h)
      where
        go :
            (b : Bool)
            → (if b then some new_tx else Maps.get i s.connections) ≡ some tx
            → (c : SocketAddr) × ((if b then some a else o i) ≡ some c)
              × Memᴰ (tx, c) ((new_tx, a) ∷ started)
        go true h = (a, refl, Memᴰ.head (same h))
          where
            same :
                ◌≡◌ {A = Option Channel} (some new_tx) (some tx)
                → ◌≡◌ {A = Channel × SocketAddr} (tx, a) (new_tx, a)
            same h = ap (λ x. (x, a)) (cc h)
        go false h = let (c, q, m) = v i tx h in (c, q, Memᴰ.tail m)

    left : (id : ℕ) → Live (Maps.remove id s.connections) (own none id o) started
    left id i tx h = go (id == i) (sym (Maps.get-remove id i s.connections) ∙ h)
      where
        go :
            (b : Bool)
            → (if b then none else Maps.get i s.connections) ≡ some tx
            → (c : SocketAddr) × ((if b then none else o i) ≡ some c) × Memᴰ (tx, c) started
        go true h = cc
        go false h = v i tx h

    removed-Rests :
        (b : Bool) (id : ℕ)
        → (remove_connection b s id).flow ≡ go_on
        → Rests o started (remove_connection b s id)
    unfolding remove_connection
    removed-Rests b id h =
        reported o started s.stats_tx b (record s { connections = Maps.remove id s.connections })
          (without id) h

    on_connection-Rests :
        (e : Event) (m : ClientToProxy)
        → (on_connection e m s).flow ≡ go_on
        → Rests o started (on_connection e m s)
    unfolding on_connection
    on_connection-Rests e (packet id pkg) h =
        sent e.framed_ok _ s (quiet go_on s) (λ q. unchanged) h
    on_connection-Rests e (remove_minecraft_client id) h =
        sent e.framed_ok _ s (remove_connection e.stats_ok s id) (removed-Rests e.stats_ok id) h
    on_connection-Rests e (death msg) h = cc

    pub turn-Rests : (e : Event) → Own e.wake → (turn e s).flow ≡ go_on → Rests o started (turn e s)
    unfolding turn turn_on
    turn-Rests e w h = go e.wake w h
      where
        go : (w : Wake) → Own w → (turn_on w e s).flow ≡ go_on → Rests o started (turn_on w e s)
        go (from_control c) w h = cc
        go (from_connection m) w h = on_connection-Rests e m h
        go (from_proxy r) w h = absurd w
        go tick w h = sent e.framed_ok _ s (quiet go_on s) (λ q. unchanged) h

    -- A join: the new connection is started for the one who joined.
    joined-Hands :
        (x : Option Channel) (b : Bool) (a : SocketAddr) (id new_tx : ℕ)
        → let t = report x b (record s { connections = Maps.insert id new_tx s.connections }) in
          (start_after t id new_tx).flow ≡ go_on
          → Hands a (own (some a) id o) started [] [] (start_after t id new_tx)
    joined-Hands none b a id new_tx h = record { live = entered a id new_tx; follows = nothing }
    joined-Hands (some y) true a id new_tx h = record {
      live = entered a id new_tx;
      follows = nothing;
    }
    joined-Hands (some y) false a id new_tx h = cc

    owner-NobodyBut :
        (a c : SocketAddr) (x : Option SocketAddr) → NobodyBut a x → x ≡ some c → c ≡ a
    owner-NobodyBut a c x k q = ground (arith, k)

    -- Data: it is handed to the connection of its id.
    sent_over-Hands :
        (x : Option Channel) (b : Bool) (a : SocketAddr) (id : ℕ) (m : MinecraftDataPacket)
        → Maps.get id s.connections ≡ x
        → NobodyBut a (o id)
        → (send_over x b s id m).flow ≡ go_on
        → Hands a o started (if b then [] else (a, m) ∷ []) ((a, m) ∷ []) (send_over x b s id m)
    sent_over-Hands none b a id m e k h = cc
    sent_over-Hands (some y) false a id m e k h = record {
      live = without id;
      follows = turned_down nothing;
    }
    sent_over-Hands (some y) true a id m e k h = record {
      live = v;
      follows =
          let (c, of, mine) = v id y e in
          handed (subst (λ z. Memᴰ (y, z) started) (owner-NobodyBut a c (o id) k of) mine) nothing;
    }

    on_packet-Hands :
        (e : Event) (p : SocketPacket) (a : SocketAddr)
        → Carries p a o
        → (on_packet e p s).flow ≡ go_on
        → Hands a
            (after_packet p a o)
            started
            (refuses e.channel_ok p a)
            (payload p a)
            (on_packet e p s)
    unfolding on_packet add_connection send_to
    on_packet-Hands e (proxy_join id) a k h = joined-Hands s.stats_tx e.stats_ok a id e.new_tx h
    on_packet-Hands e (proxy_data p) a k h =
        sent_over-Hands (Maps.get p.client_id s.connections) e.channel_ok a p.client_id p.packet
          refl k h
    on_packet-Hands e (proxy_disconnect id) a k h =
        Rests-Hands a (own none id o) started (remove_connection e.stats_ok s id) (
          unfold remove_connection in
          reported (own none id o) started s.stats_tx e.stats_ok
            (record s { connections = Maps.remove id s.connections }) (left id)
            (unfold remove_connection in h))
    on_packet-Hands e (proxy_pong n) a k h =
        Rests-Hands a o started (pinged e.stats_ok e.client_stats _ s)
          (pinged-Rests e.stats_ok e.client_stats _ s v h)
    on_packet-Hands e _ a k h = cc

pub turn-Hands :
    (s : State) (o : Owners) (started : List (Channel × SocketAddr)) (e : Event) (p : SocketPacket)
    (a : SocketAddr)
    → Live s.connections o started
    → e.wake ≡ from_proxy (Socket.packet p)
    → Carries p a o
    → (turn e s).flow ≡ go_on
    → Hands a (after_packet p a o) started (refuses e.channel_ok p a) (payload p a) (turn e s)
unfolding turn turn_on
turn-Hands s o started e p a v w k h =
    let here = ap (λ x. turn_on x e s) w in
    rw here (on_packet-Hands o started s v e p a k (rw here at h))
