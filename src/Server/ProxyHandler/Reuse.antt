-- ===== src/Server/ProxyHandler/Reuse.antt =====
-- What becomes of an id that the server of server/src/proxy_handler.rs gives to the next Minecraft
-- client while the proxy client's disconnect of the last one is under way.
use craftip_crosscompiletest.Shared.Config.{maximum_clients}
use craftip_crosscompiletest.Prelude.{
  ℕ, ◌≤◌, ◌<◌, ◌≡◌, refl, ap, ◌∙◌, [], ◌∷◌, none, some, true, Outcome, ok, err, panic, arith,
  ==_refl, ◌==◌, if◌then◌else◌,
}
use craftip_crosscompiletest.Prelude.Maps
use craftip_crosscompiletest.Prelude.Maps.{nat_eq, is_some}
use craftip_crosscompiletest.Shared.Proxy.{to_data_packet}
use craftip_crosscompiletest.Shared.SocketPacket.{proxy_join, proxy_disconnect}
use craftip_crosscompiletest.Shared.Addressing.{
  Channel, SocketAddr, DistributorError, add_minecraft_client, remove_minecraft_client,
}
use craftip_crosscompiletest.Server.Socket.{packet, frame}
use craftip_crosscompiletest.Server.Distributor.{
  MinecraftClient, Distributor, insert, remove_by_addr, get_by_addr,
}
use craftip_crosscompiletest.Server.Distributor.Insert.{InUse, Inserts, inserted, full, insert_lem}
use craftip_crosscompiletest.Server.Distributor.Invariant.{
  get_by_id-get_by_addr, Inv, id_at, remove_by_addr-Inv, insert-Inv, get_by_addr-remove_by_id,
}
use craftip_crosscompiletest.Server.ProxyHandler.{
  to_minecraft, proxy_data, MinecraftDataPacket, to_data_packet, Wake, from_channel, from_socket,
  Event, go_on, joined, on_message, on_packet, turn_on, turn, run,
}

-- An event on which every send succeeds.
abbrev pub fine : Wake → Event
fine w = record { wake = w; framed_ok = true; channel_ok = true }

joined-ok :
    (r : Outcome DistributorError MinecraftClient × Distributor) (c : MinecraftClient)
    → r.0 ≡ ok c
    → joined true r
      ≡ record { flow = go_on; distributor = r.1; output = frame (proxy_join c.id) ∷ [] }
joined-ok (ok b, e) c h = ap (λ o. joined true (o, e)) h
joined-ok (err x, e) c h = cc
joined-ok (panic, e) c h = cc

module _ (d : Distributor) (v : Inv d) (leaving : SocketAddr) (c : MinecraftClient)
    (here : get_by_addr d leaving ≡ some c) (lowest : (j : ℕ) → j < c.id → InUse j d.clients_id)
    (joining : SocketAddr) (tx : Channel) (new : get_by_addr d joining ≡ none) where
  abbrev after_leave : Distributor
  after_leave = remove_by_addr d leaving

  left_ids :
      (j : ℕ)
      → Maps.get j after_leave.clients_id ≡ (if c.id == j then none else Maps.get j d.clients_id)
  unfolding remove_by_addr get_by_addr
  left_ids j = rw here (Maps.get-remove c.id j d.clients_id)

  left_addrs : Maps.get joining after_leave.clients_addr ≡ none
  unfolding remove_by_addr get_by_addr
  left_addrs = ground (arith, Maps.get-remove leaving joining d.clients_addr, new)

  id_in_range : c.id ≤ maximum_clients
  id_in_range = v.in_range c.id leaving (v.id_of leaving c.id (unfold get_by_addr in ap id_at here))

  -- The newcomer as it is entered.
  abbrev newcomer : MinecraftClient
  newcomer = record { tx = tx; id = c.id }

  id_is_lowest :
      (i : ℕ)
      → Maps.get i after_leave.clients_id ≡ none
      → ((j : ℕ) → j < i → InUse j after_leave.clients_id)
      → i ≡ c.id
  unfolding Maps.contains_key
  id_is_lowest i free below = ground (arith, left_ids i, left_ids c.id, below c.id, lowest i)

  reused :
      ((insert after_leave joining tx).0 ≡ ok newcomer)
      × (get_by_addr (insert after_leave joining tx).1 joining ≡ some newcomer)
  reused = go (insert after_leave joining tx) (insert_lem after_leave joining tx)
    where
      go :
          (r : Outcome DistributorError MinecraftClient × Distributor)
          → Inserts after_leave joining tx r
          → (r.0 ≡ ok newcomer) × (get_by_addr r.1 joining ≡ some newcomer)
      go r (inserted i eq range free below p q) =
          let same = id_is_lowest i free below in
          (
            eq ∙ ap (λ n. ok (record { tx = tx; id = n })) same,
            unfold get_by_addr in
                p joining ∙ rw (==_refl joining) (ap (λ n. some (record { tx = tx; id = n })) same),
          )
      go r (full eq used) =
          absurd (unfold Maps.contains_key in ground (arith, left_ids c.id, used c.id id_in_range))

  -- The Minecraft client with the lowest ids below it in use leaves, and a new one joins, while a
  -- disconnect of the old one by the proxy client is under way: the newcomer gets the same id, and
  -- the late disconnect throws it out, although the proxy client has been told that it joined.
  pub stale_disconnect_drops_newcomer :
      let t =
        run
          (fine (from_channel (some (remove_minecraft_client leaving)))
            ∷ fine (from_channel (some (add_minecraft_client joining tx)))
            ∷ fine (from_socket (packet (proxy_disconnect c.id)))
            ∷ [])
          d in
      (t.flow ≡ go_on)
      × (t.output ≡ frame (proxy_disconnect c.id) ∷ frame (proxy_join c.id) ∷ [])
      × (get_by_addr t.distributor joining ≡ none)
  unfolding run turn turn_on on_message on_packet
  stale_disconnect_drops_newcomer =
      rw (here, joined-ok (insert after_leave joining tx) newcomer reused.0)
        (
          refl,
          refl,
          get_by_addr-remove_by_id (insert after_leave joining tx).1
              (insert-Inv after_leave (remove_by_addr-Inv d v leaving) joining tx left_addrs)
              joining newcomer reused.1,
        )

  -- As before, but what is under way is an answer of the Minecraft server to the client that has left:
  -- it is delivered to the newcomer, whose connection did not ask for it.
  pub late_answer_reaches_newcomer :
      (answer : MinecraftDataPacket)
      → let t =
          run
            (fine (from_channel (some (remove_minecraft_client leaving)))
              ∷ fine (from_channel (some (add_minecraft_client joining tx)))
              ∷ fine
                  (from_socket (packet (proxy_data (record { client_id = c.id; packet = answer }))))
              ∷ [])
            d in
        (t.flow ≡ go_on)
        × (t.output
            ≡ frame (proxy_disconnect c.id) ∷ frame (proxy_join c.id) ∷ to_minecraft tx answer ∷ [])
        × (get_by_addr t.distributor joining ≡ some newcomer)
  unfolding run turn turn_on on_message on_packet to_data_packet
  late_answer_reaches_newcomer answer =
      rw
        (
          here,
          joined-ok (insert after_leave joining tx) newcomer reused.0,
          get_by_id-get_by_addr (insert after_leave joining tx).1
              (insert-Inv after_leave (remove_by_addr-Inv d v leaving) joining tx left_addrs)
              joining newcomer reused.1,
        )
        (refl, refl, reused.1)
