-- ===== src/System/Origins/Server.antt =====
-- What a round of the handler in server/src/proxy_handler.rs sends down is signed with the address that
-- its ids belong to.
use craftip_crosscompiletest.Prelude.{
  ℕ, ◌≡◌, ◌⊎◌, inl, inr, refl, sym, ap, ◌∙◌, List, [], ◌∷◌, Option, some, none, Bool, true, false,
  Outcome, ok, err, panic, arith, ◌==◌, if◌then◌else◌,
}
use craftip_crosscompiletest.Prelude.Maps
use craftip_crosscompiletest.Prelude.Maps.{nat_eq}
use craftip_crosscompiletest.Shared.Minecraft.{MinecraftDataPacket}
use craftip_crosscompiletest.Shared.Proxy.{data_packet}
use craftip_crosscompiletest.Shared.SocketPacket.{
  SocketPacket, proxy_disconnect, proxy_data, proxy_ping,
}
use craftip_crosscompiletest.Shared.Addressing.{
  Channel, SocketAddr, DistributorError, ClientToProxy, add_minecraft_client,
  remove_minecraft_client, close,
}
use craftip_crosscompiletest.Shared.Addressing
use craftip_crosscompiletest.Server.Socket.{packet, failed, ended}
use craftip_crosscompiletest.Server.Distributor.{
  MinecraftClient, Distributor, insert, get_by_addr, get_by_id, remove_by_addr, remove_by_id,
}
use craftip_crosscompiletest.Server.Distributor.Insert.{Inserts, inserted, full, insert_lem}
use craftip_crosscompiletest.Server.Distributor.Invariant.{Inv, id_at}
use craftip_crosscompiletest.Server.ProxyHandler.{
  Wake, from_channel, from_socket, silent, Event, Turn, go_on, joined, forward, disconnect, deliver,
  on_message, on_packet, turn_on, turn,
}
use craftip_crosscompiletest.System.{server_frames}
use craftip_crosscompiletest.System.Origins.{
  author, gives, sign, Owners, own, after_way, NobodyBut, Way, Serves, payloads,
}

-- What a round that goes on sends with the signature `a`, when it was given `gifts`: the ids of the
-- distributor stay in the hands of their addresses, and the gifts are sent under an id of the giver.
pub record Sends (gifts : List (SocketAddr × MinecraftDataPacket)) (a : SocketAddr) (o : Owners)
    (t : Turn) : Type 0 where
  pub served : Serves t.distributor (after_way (sign a (server_frames t.output)) o)
  pub way : Way (sign a (server_frames t.output)) o
  pub sent : payloads (sign a (server_frames t.output)) ≡ gifts

-- Fewer ids in use, and fewer owners.
fewer :
    (d e : Distributor) (o u : Owners)
    → ((i : ℕ) (a : SocketAddr)
        → Maps.get i e.clients_id ≡ some a
        → Maps.get i d.clients_id ≡ some a)
    → ((i : ℕ) → (u i ≡ none) ⊎ (u i ≡ o i))
    → Serves d o
    → Serves e u
fewer d e o u less fade v i a h = elim (fade i) [
  | inl z ↦ inl z
  | inr same ↦ elim (v i a (less i a h)) [ inl z ↦ inl (same ∙ z) | inr z ↦ inr (same ∙ z) ]
]

owner-fades : (i : ℕ) (o : Owners) (j : ℕ) → (own none i o j ≡ none) ⊎ (own none i o j ≡ o j)
owner-fades i o j = go (i == j)
  where
    go : (b : Bool) → ((if b then none else o j) ≡ none) ⊎ ((if b then none else o j) ≡ o j)
    go true = inl refl
    go false = inr refl

same_id :
    {c b : MinecraftClient}
    → ◌≡◌ {A = Outcome DistributorError MinecraftClient} (ok c) (ok b)
    → c.id ≡ b.id
same_id h = cc

entered :
    (addr a : SocketAddr) (i j : ℕ) (o : Owners) (old : Option SocketAddr)
    → (if i == j then some addr else old) ≡ some a
    → (old ≡ some a → NobodyBut a (o j))
    → NobodyBut a (own (some addr) i o j)
entered addr a i j o old h v = go (i == j) h
  where
    go :
        (b : Bool)
        → (if b then some addr else old) ≡ some a
        → NobodyBut a (if b then some addr else o j)
    go true h = inr h
    go false h = v h

module _ (d : Distributor) (o : Owners) (v : Serves d o) where
  joined-Sends :
      (b : Bool) (addr : SocketAddr) (tx : Channel)
      (r : Outcome DistributorError MinecraftClient × Distributor)
      → Inserts d addr tx r
      → (joined b r).flow ≡ go_on
      → Sends [] addr o (joined b r)
  joined-Sends true addr tx (ok c, e) (inserted i eq range free below p q) h = record {
    served = served;
    way = (tt, tt);
    sent = refl;
  }
    where
      served : Serves e (own (some addr) c.id o)
      served j a h =
          entered addr a c.id j o (Maps.get j d.clients_id)
            (ap (λ n. if n == j then some addr else Maps.get j d.clients_id) (same_id eq)
              ∙ sym (q j)
              ∙ h)
            (v j a)
  joined-Sends false addr tx (ok c, e) w h = cc
  joined-Sends b addr tx (ok c, e) (full eq below) h = cc (ap (λ x. x.0) eq)
  joined-Sends b addr tx (err x, e) w h = cc
  joined-Sends b addr tx (panic, e) w h = cc

  forward-Sends :
      (b : Bool) (addr : SocketAddr) (pkg : MinecraftDataPacket) (x : Option MinecraftClient)
      → Inv d
      → get_by_addr d addr ≡ x
      → (forward b x pkg d).flow ≡ go_on
      → Sends ((addr, pkg) ∷ []) addr o (forward b x pkg d)
  forward-Sends b addr pkg none k e h = cc
  forward-Sends true addr pkg (some c) k e h =
      unfold data_packet in
      record {
        served = v;
        way = (v c.id addr (k.id_of addr c.id (unfold get_by_addr in ap id_at e)), tt);
        sent = refl;
      }
  forward-Sends false addr pkg (some c) k e h = cc

  removed-less :
      (i : ℕ) (j : ℕ) (a : SocketAddr)
      → Maps.get j (Maps.remove i d.clients_id) ≡ some a
      → Maps.get j d.clients_id ≡ some a
  removed-less i j a h = ground (arith, Maps.get-remove i j d.clients_id, h)

  disconnect-Sends :
      (b : Bool) (addr : SocketAddr) (x : Option MinecraftClient)
      → get_by_addr d addr ≡ x
      → (disconnect b x addr d).flow ≡ go_on
      → Sends [] addr o (disconnect b x addr d)
  unfolding get_by_addr remove_by_addr
  disconnect-Sends b addr none e h = record {
    served = fewer d (remove_by_addr d addr) o o (λ j a q. rw e at q) (λ j. inr refl) v;
    way = tt;
    sent = refl;
  }
  disconnect-Sends true addr (some c) e h = record {
    served =
        fewer d (remove_by_addr d addr) o _ (λ j a q. removed-less c.id j a (rw e at q))
          (owner-fades c.id o) v;
    way = (tt, tt);
    sent = refl;
  }
  disconnect-Sends false addr (some c) e h = cc

  deliver-Sends :
      (b : Bool) (x : Option MinecraftClient) (pkg : MinecraftDataPacket) (a : SocketAddr)
      → Sends [] a o (deliver b x pkg d)
  deliver-Sends b none pkg a = record { served = v; way = tt; sent = refl }
  deliver-Sends true (some c) pkg a = record { served = v; way = tt; sent = refl }
  deliver-Sends false (some c) pkg a = record { served = v; way = tt; sent = refl }

  on_packet-Sends :
      (b c : Bool) (p : SocketPacket) (a : SocketAddr)
      → (on_packet b c p d).flow ≡ go_on
      → Sends [] a o (on_packet b c p d)
  unfolding on_packet
  on_packet-Sends b c (proxy_disconnect id) a h = record {
    served =
        unfold remove_by_id in fewer d (remove_by_id d id) o o (removed-less id) (λ j. inr refl) v;
    way = tt;
    sent = refl;
  }
  on_packet-Sends b c (proxy_data p) a h = deliver-Sends c (get_by_id d p.client_id) _ a
  on_packet-Sends true c (proxy_ping n) a h = record { served = v; way = (tt, tt); sent = refl }
  on_packet-Sends false c (proxy_ping n) a h = cc
  on_packet-Sends b c _ a h = record { served = v; way = tt; sent = refl }

  on_message-Sends :
      (b : Bool) (m : Option ClientToProxy)
      → Inv d
      → (on_message b m d).flow ≡ go_on
      → Sends (gives (from_channel m)) (author (from_channel m)) o (on_message b m d)
  unfolding on_message
  on_message-Sends b none k h = cc
  on_message-Sends b (some close) k h = cc
  on_message-Sends b (some (add_minecraft_client addr tx)) k h =
      joined-Sends b addr tx (insert d addr tx) (insert_lem d addr tx) h
  on_message-Sends b (some (Addressing.packet addr pkg)) k h =
      forward-Sends b addr pkg (get_by_addr d addr) k refl h
  on_message-Sends b (some (remove_minecraft_client addr)) k h =
      disconnect-Sends b addr (get_by_addr d addr) refl h

  turn_on-Sends :
      (w : Wake) (b c : Bool)
      → Inv d
      → (turn_on w b c d).flow ≡ go_on
      → Sends (gives w) (author w) o (turn_on w b c d)
  unfolding turn_on
  turn_on-Sends (from_channel m) b c k h = on_message-Sends b m k h
  turn_on-Sends (from_socket (packet p)) b c k h = on_packet-Sends b c p 0 h
  turn_on-Sends (from_socket failed) b c k h = cc
  turn_on-Sends (from_socket ended) b c k h = cc
  turn_on-Sends silent b c k h = cc

  pub turn-Sends :
      (e : Event)
      → Inv d
      → (turn e d).flow ≡ go_on
      → Sends (gives e.wake) (author e.wake) o (turn e d)
  unfolding turn
  turn-Sends e k h = turn_on-Sends e.wake e.framed_ok e.channel_ok k h
