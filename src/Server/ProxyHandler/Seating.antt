-- ===== src/Server/ProxyHandler/Seating.antt =====
-- The two maps of the distributor in server/src/proxy_handler.rs as a table of seats.
use craftip_crosscompiletest.Prelude.{
  ℕ, ◌≡◌, ◌≢◌, refl, sym, ap, ◌∙◌, Option, none, some, Bool, true, false, arith, ◌==◌,
  if◌then◌else◌, ==_refl,
}
use craftip_crosscompiletest.Prelude.Maps
use craftip_crosscompiletest.Prelude.Maps.{nat_eq}
use craftip_crosscompiletest.Shared.Addressing.{Channel, SocketAddr}
use craftip_crosscompiletest.Server.Distributor.{
  MinecraftClient, Distributor, drop_id, drop_addr, get_by_addr, remove_by_addr, remove_by_id,
}
use craftip_crosscompiletest.Server.Distributor.Insert.{InUse}
use craftip_crosscompiletest.Server.Distributor.Invariant.{Inv, id_at}
use craftip_crosscompiletest.Server.ProxyHandler.Seats.{
  Seats, Changed, Same, NoSeat, seat_of, seat_at, seats,
}

seated_there :
    {a b : SocketAddr} {x y : Channel}
    → ◌≡◌ {A = Option (SocketAddr × Channel)} (some (a, x)) (some (b, y))
    → a ≡ b
seated_there h = cc

free_anyway : (s : Seats) (i j : ℕ) → s i ≡ none → s j ≡ (if i == j then none else s j)
free_anyway s i j h = ground (arith, h)

module _ (d : Distributor) (v : Inv d) where
  -- An id that is in use is a seat that is taken.
  seat-taken : (i : ℕ) (a : SocketAddr) → Maps.get i d.clients_id ≡ some a → seats d i ≢ none
  seat-taken i a h = ground (arith, v.addr_of i a h, h)

  pub seat-free : (i : ℕ) → Maps.get i d.clients_id ≡ none → seats d i ≡ none
  seat-free i h = rw h refl

  pub seat_of-get_by_addr :
      (a : SocketAddr) (c : MinecraftClient)
      → get_by_addr d a ≡ some c
      → seats d c.id ≡ some (a, c.tx)
  unfolding get_by_addr
  seat_of-get_by_addr a c h = rw (v.id_of a c.id (ap id_at h), h) refl

  pub no_seat : (a : SocketAddr) → get_by_addr d a ≡ none → NoSeat a (seats d)
  unfolding get_by_addr
  no_seat a h i tx q = go (Maps.get i d.clients_id) refl q
    where
      go : (o : Option SocketAddr) → Maps.get i d.clients_id ≡ o → seat_at o d ≡ some (a, tx) → ⊥
      go none k q = cc
      go (some b) k q = at (Maps.get b d.clients_addr) refl q
        where
          at :
              (o : Option MinecraftClient)
              → Maps.get b d.clients_addr ≡ o
              → seat_of b o ≡ some (a, tx)
              → ⊥
          at none m q = cc
          at (some c) m q =
              let same = seated_there q in cc (sym m ∙ ap (λ x. Maps.get x d.clients_addr) same ∙ h)

  untouched :
      (e : Distributor)
      → ((a : SocketAddr) → Maps.get a e.clients_addr ≡ Maps.get a d.clients_addr)
      → ((j : ℕ) → Maps.get j e.clients_id ≡ Maps.get j d.clients_id)
      → Same (seats d) (seats e)
  untouched e p q j = go (Maps.get j d.clients_id) (q j)
    where
      go : (o : Option SocketAddr) → Maps.get j e.clients_id ≡ o → seats e j ≡ seat_at o d
      go none r = rw r refl
      go (some a) r = rw (r, p a) refl

  pub linked :
      (e : Distributor) (addr : SocketAddr) (i : ℕ) (tx : Channel)
      → Maps.get addr d.clients_addr ≡ none
      → ((a : SocketAddr)
          → Maps.get a e.clients_addr
            ≡ (if addr == a then some (record { tx = tx; id = i }) else Maps.get a d.clients_addr))
      → ((j : ℕ)
          → Maps.get j e.clients_id ≡ (if i == j then some addr else Maps.get j d.clients_id))
      → Changed i (some (addr, tx)) (seats d) (seats e)
  linked e addr i tx fresh p q j = go (i == j) (Maps.get j d.clients_id) refl (q j)
    where
      go :
          (b : Bool) (o : Option SocketAddr)
          → Maps.get j d.clients_id ≡ o
          → Maps.get j e.clients_id ≡ (if b then some addr else o)
          → seats e j ≡ (if b then some (addr, tx) else seat_at o d)
      go true o k r = rw (r, p addr, ==_refl addr) refl
      go false none k r = rw r refl
      go false (some a) k r = rw r (ground (arith, p a, v.addr_of j a k, fresh))

  unlinked :
      (e : Distributor) (addr : SocketAddr) (i : ℕ)
      → Maps.get i d.clients_id ≡ some addr
      → ((a : SocketAddr)
          → Maps.get a e.clients_addr ≡ (if addr == a then none else Maps.get a d.clients_addr))
      → ((j : ℕ) → Maps.get j e.clients_id ≡ (if i == j then none else Maps.get j d.clients_id))
      → Changed i none (seats d) (seats e)
  unlinked e addr i here p q j = go (i == j) refl (Maps.get j d.clients_id) refl (q j)
    where
      go :
          (b : Bool)
          → (i == j) ≡ b
          → (o : Option SocketAddr) → Maps.get j d.clients_id ≡ o
          → Maps.get j e.clients_id ≡ (if b then none else o)
          → seats e j ≡ (if b then none else seat_at o d)
      go true h o k r = rw r refl
      go false h none k r = rw r refl
      go false h (some a) k r =
          rw r (ground (arith, p a, v.addr_of j a k, v.addr_of i addr here, h))

  pub taken : (j : ℕ) → InUse j d.clients_id → seats d j ≢ none
  taken j h = let (a, k) = Maps.contains_key-true j d.clients_id h in seat-taken j a k

  pub remove_by_addr-Same :
      (a : SocketAddr) → get_by_addr d a ≡ none → Same (seats d) (seats (remove_by_addr d a))
  unfolding remove_by_addr get_by_addr
  remove_by_addr-Same a h =
      untouched (remove_by_addr d a) (λ x. ground (arith, h, Maps.get-remove a x d.clients_addr))
        (λ j. ap (λ o. Maps.get j (drop_id o d.clients_id)) h)

  pub remove_by_addr-Changed :
      (a : SocketAddr) (k : MinecraftClient)
      → get_by_addr d a ≡ some k
      → Changed k.id none (seats d) (seats (remove_by_addr d a))
  unfolding remove_by_addr get_by_addr
  remove_by_addr-Changed a k h =
      unlinked (remove_by_addr d a) a k.id (v.id_of a k.id (ap id_at h))
        (λ x. Maps.get-remove a x d.clients_addr)
        (λ j. ap (λ o. Maps.get j (drop_id o d.clients_id)) h ∙ Maps.get-remove k.id j d.clients_id)

  pub remove_by_id-Changed : (i : ℕ) → Changed i none (seats d) (seats (remove_by_id d i))
  unfolding remove_by_id
  remove_by_id-Changed i = go (Maps.get i d.clients_id) refl
    where
      go :
          (o : Option SocketAddr)
          → Maps.get i d.clients_id ≡ o
          → Changed i none (seats d) (seats (remove_by_id d i))
      go none h = λ j.
          untouched (remove_by_id d i) (λ x. ap (λ o. Maps.get x (drop_addr o d.clients_addr)) h)
            (λ j. ground (arith, h, Maps.get-remove i j d.clients_id)) j
          ∙ free_anyway (seats d) i j (seat-free i h)
      go (some a) h =
          unlinked (remove_by_id d i) a i h
            (λ x.
              ap (λ o. Maps.get x (drop_addr o d.clients_addr)) h
              ∙ Maps.get-remove a x d.clients_addr)
            (λ j. Maps.get-remove i j d.clients_id)
