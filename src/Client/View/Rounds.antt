-- ===== src/Client/View/Rounds.antt =====
-- One round of the loop in client/src/client.rs, and what it changes of the ids of the connections.
use craftip_crosscompiletest.Prelude.{
  ℕ, ◌%◌, ◌^◌, ◌≡◌, refl, sym, ◌∙◌, List, [], ◌∷◌, ◌++◌, Option, none, some, Bool, true, false,
  arith, length,
}
use craftip_crosscompiletest.Prelude.Ids.{Ids, set_to}
use craftip_crosscompiletest.Prelude.Maps
use craftip_crosscompiletest.Prelude.Maps.{nat_eq, is_some}
use craftip_crosscompiletest.Shared.Minecraft.{MinecraftDataPacket}
use craftip_crosscompiletest.Shared.SocketPacket.{
  SocketPacket, proxy_join, proxy_disconnect, proxy_data, proxy_pong,
}
use craftip_crosscompiletest.Shared.Addressing.{Channel}
use craftip_crosscompiletest.Server.Socket.{failed, ended}
use craftip_crosscompiletest.Server.Socket
use craftip_crosscompiletest.Client.Structs.{
  clients_connected, ClientToProxy, packet, remove_minecraft_client, death,
}
use craftip_crosscompiletest.Client.Tunnel.{
  State, Output, frame, stats, start, Flow, go_on, closed, bail, panicked, Turn, quiet, report,
  add_connection, remove_connection, start_after, send_over, send_to, Wake, from_control,
  from_connection, from_proxy, tick, Event, with_output, send_then, on_connection, pinged,
  on_packet, turn_on, turn,
}

-- A frame that comes from the server, and the frames that go to it.
abbrev pub after_wake : Wake → Ids → Ids
after_wake (from_proxy (Socket.packet (proxy_join i))) s = set_to true i s
after_wake (from_proxy (Socket.packet (proxy_disconnect i))) s = set_to false i s
after_wake _ s = s

abbrev pub after_output : List Output → Ids → Ids
after_output [] s = s
after_output (frame (proxy_disconnect i) ∷ out) s = after_output out (set_to false i s)
after_output (_ ∷ out) s = after_output out s

abbrev pub view : List Event → State → Ids → Ids
view [] s v = v
view (e ∷ es) s v = view es (turn e s).state (after_output (turn e s).output (after_wake e.wake v))

abbrev pub ids : State → Ids
ids s j = Maps.contains_key j s.connections

-- The number that was reported last.
abbrev pub last_count : List Output → ℕ → ℕ
last_count [] n = n
last_count (stats tx (clients_connected m) ∷ out) n = last_count out m
last_count (_ ∷ out) n = last_count out n

abbrev pub count : State → ℕ
count s = length s.connections % 2 ^ 16

-- Every task still takes what is sent to it.
abbrev pub Delivers : List Event → Type 0
Delivers [] = Unit
Delivers (e ∷ es) = (e.channel_ok ≡ true) × Delivers es

-- What one round keeps, if the loop goes on: `v` is the view after the frame that came.
pub record Keeps (v : Ids) (s : State) (tx : Channel) (t : Turn) : Type 0 where
  pub same_ids : (j : ℕ) → ids t.state j ≡ after_output t.output v j
  pub same_count : last_count t.output (count s) ≡ count t.state
  pub same_tx : t.state.stats_tx ≡ some tx

after_output-start :
    (out : List Output) (v : Ids) (id new_tx j : ℕ)
    → after_output (out ++ (start id new_tx ∷ [])) v j ≡ after_output out v j
after_output-start [] v id new_tx j = refl
after_output-start (frame (proxy_disconnect i) ∷ out) v id new_tx j =
    after_output-start out (set_to false i v) id new_tx j
after_output-start (_ ∷ out) v id new_tx j = after_output-start out v id new_tx j

pub last_count-append :
    (a b : List Output) (n : ℕ) → last_count (a ++ b) n ≡ last_count b (last_count a n)
last_count-append [] b n = refl
last_count-append (stats tx (clients_connected m) ∷ a) b n = last_count-append a b m
last_count-append (_ ∷ a) b n = last_count-append a b n

last_count-start :
    (out : List Output) (n id new_tx : ℕ)
    → last_count (out ++ (start id new_tx ∷ [])) n ≡ last_count out n
last_count-start out n id new_tx = last_count-append out (start id new_tx ∷ []) n

module _ (s : State) (tx : Channel) (has : s.stats_tx ≡ some tx) where
  unchanged : Keeps (ids s) s tx (quiet go_on s)
  unchanged = record { same_ids = λ j. refl; same_count = refl; same_tx = has }

  reported :
      (v : Ids) (r : State) (o : Option Channel) (b : Bool)
      → o ≡ some tx
      → r.stats_tx ≡ some tx
      → ((j : ℕ) → ids r j ≡ v j)
      → (report o b r).flow ≡ go_on
      → Keeps v s tx (report o b r)
  reported v r none b e k same h = cc
  reported v r (some x) true e k same h = record { same_ids = same; same_count = refl; same_tx = k }
  reported v r (some x) false e k same h = cc

  added :
      (b : Bool) (id new_tx : ℕ)
      → (add_connection b s id new_tx).flow ≡ go_on
      → Keeps (set_to true id (ids s)) s tx (add_connection b s id new_tx)
  unfolding add_connection Maps.contains_key
  added b id new_tx h =
      reported _ (record s { connections = Maps.insert id new_tx s.connections }) s.stats_tx b has
        has (λ j. ground (arith, Maps.get-insert id j new_tx s.connections)) h

  removed :
      (b : Bool) (id : ℕ)
      → (remove_connection b s id).flow ≡ go_on
      → Keeps (set_to false id (ids s)) s tx (remove_connection b s id)
  unfolding remove_connection Maps.contains_key
  removed b id h =
      reported _ (record s { connections = Maps.remove id s.connections }) s.stats_tx b has has
        (λ j. ground (arith, Maps.get-remove id j s.connections)) h

  started :
      (v : Ids) (t : Turn) (id new_tx : ℕ)
      → (t.flow ≡ go_on → Keeps v s tx t)
      → (start_after t id new_tx).flow ≡ go_on
      → Keeps v s tx (start_after t id new_tx)
  started v t id new_tx k h = go t.flow refl
    where
      go : (f : Flow) → t.flow ≡ f → Keeps v s tx (start_after t id new_tx)
      go go_on q = rw q (record {
        same_ids = λ j. (k q).same_ids j ∙ sym (after_output-start t.output v id new_tx j);
        same_count = last_count-start t.output (count s) id new_tx ∙ (k q).same_count;
        same_tx = (k q).same_tx;
      })
      go closed q = cc (rw q at h)
      go bail q = cc (rw q at h)
      go panicked q = cc (rw q at h)

  sent :
      (b : Bool) (p : SocketPacket) (v : Ids) (t : Turn)
      → (t.flow ≡ go_on → Keeps v s tx (with_output (frame p ∷ []) t))
      → (send_then b p s t).flow ≡ go_on
      → Keeps v s tx (send_then b p s t)
  sent true p v t k h = k h
  sent false p v t k h = cc

  from_connection-Keeps :
      (e : Event) (m : ClientToProxy)
      → (on_connection e m s).flow ≡ go_on
      → Keeps (ids s) s tx (on_connection e m s)
  unfolding on_connection
  from_connection-Keeps e (packet id pkg) h =
      sent e.framed_ok _ (ids s) (quiet go_on s)
        (λ q. record { same_ids = λ j. refl; same_count = refl; same_tx = has }) h
  from_connection-Keeps e (remove_minecraft_client id) h =
      sent e.framed_ok _ (ids s) (remove_connection e.stats_ok s id)
        (λ q.
          let k = removed e.stats_ok id q in
          record { same_ids = k.same_ids; same_count = k.same_count; same_tx = k.same_tx })
        h
  from_connection-Keeps e (death msg) h = cc

  sent_over :
      (o : Option Channel) (b : Bool) (id : ℕ) (msg : MinecraftDataPacket)
      → b ≡ true
      → (send_over o b s id msg).flow ≡ go_on
      → Keeps (ids s) s tx (send_over o b s id msg)
  sent_over none b id msg d h = cc
  sent_over (some x) true id msg d h = record {
    same_ids = λ j. refl;
    same_count = refl;
    same_tx = has;
  }
  sent_over (some x) false id msg d h = cc

  pinged-Keeps :
      (b : Bool) (x n : ℕ) → (pinged b x n s).flow ≡ go_on → Keeps (ids s) s tx (pinged b x n s)
  pinged-Keeps true x n h = record { same_ids = λ j. refl; same_count = refl; same_tx = has }
  pinged-Keeps false x n h = cc

  on_packet-Keeps :
      (e : Event) (p : SocketPacket)
      → e.channel_ok ≡ true
      → (on_packet e p s).flow ≡ go_on
      → Keeps (after_wake (from_proxy (Socket.packet p)) (ids s)) s tx (on_packet e p s)
  unfolding on_packet
  on_packet-Keeps e (proxy_join id) d h =
      started _ (add_connection e.stats_ok s id e.new_tx) id e.new_tx (added e.stats_ok id e.new_tx)
        h
  on_packet-Keeps e (proxy_data p) d h =
      unfold send_to in
      sent_over (Maps.get p.client_id s.connections) e.channel_ok p.client_id p.packet d
        (unfold send_to in h)
  on_packet-Keeps e (proxy_disconnect id) d h = removed e.stats_ok id h
  on_packet-Keeps e (proxy_pong n) d h = pinged-Keeps e.stats_ok e.client_stats _ h
  on_packet-Keeps e _ d h = cc

  turn_on-Keeps :
      (w : Wake) (e : Event)
      → e.channel_ok ≡ true
      → (turn_on w e s).flow ≡ go_on
      → Keeps (after_wake w (ids s)) s tx (turn_on w e s)
  unfolding turn_on
  turn_on-Keeps (from_control c) e d h = cc
  turn_on-Keeps (from_connection m) e d h = from_connection-Keeps e m h
  turn_on-Keeps (from_proxy (Socket.packet p)) e d h = on_packet-Keeps e p d h
  turn_on-Keeps (from_proxy failed) e d h = cc
  turn_on-Keeps (from_proxy ended) e d h = cc
  turn_on-Keeps tick e d h =
      sent e.framed_ok _ (ids s) (quiet go_on s)
        (λ q. record { same_ids = λ j. refl; same_count = refl; same_tx = has }) h

module _ (tx : Channel) where
  pub turn-Keeps :
      (e : Event) (s : State)
      → s.stats_tx ≡ some tx
      → e.channel_ok ≡ true
      → (turn e s).flow ≡ go_on
      → Keeps (after_wake e.wake (ids s)) s tx (turn e s)
  unfolding turn
  turn-Keeps e s has d h = turn_on-Keeps s tx has e.wake e d h
