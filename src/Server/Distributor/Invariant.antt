-- ===== src/Server/Distributor/Invariant.antt =====
-- The two maps of the distributor are each other's inverse, as long as no address is entered twice.
use craftip_crosscompiletest.Shared.Config.{maximum_clients}
use craftip_crosscompiletest.Prelude.{
  ℕ, ◌≤◌, ◌≡◌, refl, sym, ap, ◌∙◌, Option, none, some, arith, ◌==◌, if◌then◌else◌, ==_refl,
}
use craftip_crosscompiletest.Prelude.Maps
use craftip_crosscompiletest.Prelude.Maps.{HashMap, nat_eq, is_some}
use craftip_crosscompiletest.Shared.Addressing.{SocketAddr, Channel}
use craftip_crosscompiletest.Server.Distributor.{
  MinecraftClient, Distributor, empty, insert, remove_by_addr, remove_by_id, get_by_addr, get_by_id,
  drop_id, drop_addr, client_at,
}
use craftip_crosscompiletest.Server.Distributor.Insert.{inserted, full, insert_lem}

abbrev pub id_at : Option MinecraftClient → Option ℕ
id_at none = none
id_at (some c) = some c.id

-- The client under an address has an id that leads back to the address; the address under an id has
-- a client with that id; and the ids are 0 to 255.
pub record Inv (d : Distributor) : Type 0 where
  pub id_of :
      (a : SocketAddr) (i : ℕ)
      → id_at (Maps.get a d.clients_addr) ≡ some i
      → Maps.get i d.clients_id ≡ some a
  pub addr_of :
      (i : ℕ) (a : SocketAddr)
      → Maps.get i d.clients_id ≡ some a
      → id_at (Maps.get a d.clients_addr) ≡ some i
  pub in_range : (i : ℕ) (a : SocketAddr) → Maps.get i d.clients_id ≡ some a → i ≤ maximum_clients

pub empty-Inv : Inv empty
unfolding empty Maps.get
empty-Inv = record { id_of = λ a c h. cc; addr_of = λ i a h. cc; in_range = λ i a h. cc }

-- From the lookups before to those after: nothing changed, a pair left, or a pair was added.
module _ (d e : Distributor) (v : Inv d) where
  same-Inv :
      ((a : SocketAddr) → Maps.get a e.clients_addr ≡ Maps.get a d.clients_addr)
      → ((j : ℕ) → Maps.get j e.clients_id ≡ Maps.get j d.clients_id)
      → Inv e
  same-Inv p q = record {
    id_of = λ a i h. q i ∙ v.id_of a i (ap id_at (sym (p a)) ∙ h);
    addr_of = λ i a h. ap id_at (p a) ∙ v.addr_of i a (sym (q i) ∙ h);
    in_range = λ i a h. v.in_range i a (sym (q i) ∙ h);
  }

  unlink-Inv :
      (addr : SocketAddr) (i : ℕ)
      → Maps.get i d.clients_id ≡ some addr
      → ((a : SocketAddr)
          → Maps.get a e.clients_addr ≡ (if addr == a then none else Maps.get a d.clients_addr))
      → ((j : ℕ) → Maps.get j e.clients_id ≡ (if i == j then none else Maps.get j d.clients_id))
      → Inv e
  unlink-Inv addr i linked p q = record {
    id_of = λ a j h. ground (arith, p a, q j, v.id_of a j);
    addr_of = λ j a h. ground (arith, p a, q j, v.addr_of j a, v.addr_of i addr linked);
    in_range = λ j a h. ground (arith, q j, v.in_range j a);
  }

  link-Inv :
      (addr : SocketAddr) (i : ℕ) (tx : Channel)
      → Maps.get addr d.clients_addr ≡ none
      → Maps.get i d.clients_id ≡ none
      → i ≤ maximum_clients
      → ((a : SocketAddr)
          → Maps.get a e.clients_addr
            ≡ (if addr == a then some (record { tx = tx; id = i }) else Maps.get a d.clients_addr))
      → ((j : ℕ)
          → Maps.get j e.clients_id ≡ (if i == j then some addr else Maps.get j d.clients_id))
      → Inv e
  link-Inv addr i tx fresh free range p q = record {
    id_of = λ a j h. ground (arith, p a, q j, v.id_of a j);
    addr_of = λ j a h. ground (arith, p a, q j, v.addr_of j a);
    in_range = λ j a h. ground (arith, q j, v.in_range j a);
  }

module _ (d : Distributor) (v : Inv d) where
  pub insert-Inv :
      (addr : SocketAddr) (tx : Channel)
      → Maps.get addr d.clients_addr ≡ none
      → Inv (insert d addr tx).1
  insert-Inv addr tx fresh = elim (insert_lem d addr tx) [
    | inserted i e range free below p q ↦
        link-Inv d (insert d addr tx).1 v addr i tx fresh free range p q
    | full e below ↦ rw e v
  ]

  pub remove_by_addr-Inv : (addr : SocketAddr) → Inv (remove_by_addr d addr)
  unfolding remove_by_addr
  remove_by_addr-Inv addr = go (Maps.get addr d.clients_addr) refl
    where
      go :
          (o : Option MinecraftClient)
          → Maps.get addr d.clients_addr ≡ o
          → Inv (record {
            clients_addr = Maps.remove addr d.clients_addr;
            clients_id = drop_id o d.clients_id;
          })
      go none e =
          same-Inv d _ v (λ a. ground (arith, e, Maps.get-remove addr a d.clients_addr)) (λ j. refl)
      go (some c) e =
          unlink-Inv d _ v addr c.id (v.id_of addr c.id (ap id_at e))
            (λ a. Maps.get-remove addr a d.clients_addr) (λ j. Maps.get-remove c.id j d.clients_id)

  pub remove_by_id-Inv : (id : ℕ) → Inv (remove_by_id d id)
  unfolding remove_by_id
  remove_by_id-Inv id = go (Maps.get id d.clients_id) refl
    where
      go :
          (o : Option SocketAddr)
          → Maps.get id d.clients_id ≡ o
          → Inv (record {
            clients_addr = drop_addr o d.clients_addr;
            clients_id = Maps.remove id d.clients_id;
          })
      go none e =
          same-Inv d _ v (λ a. refl) (λ j. ground (arith, e, Maps.get-remove id j d.clients_id))
      go (some addr) e =
          unlink-Inv d _ v addr id e (λ a. Maps.get-remove addr a d.clients_addr)
            (λ j. Maps.get-remove id j d.clients_id)

  -- The two lookups agree: the client under an id has that id, and is the client under its address.
  pub get_by_id-eq :
      (i : ℕ) (c : MinecraftClient)
      → get_by_id d i ≡ some c
      → (a : SocketAddr) × (Maps.get i d.clients_id ≡ some a)
        × (get_by_addr d a ≡ some c)
        × (c.id ≡ i)
  unfolding get_by_id get_by_addr
  get_by_id-eq i c h = go (Maps.get i d.clients_id) refl h
    where
      go :
          (o : Option SocketAddr)
          → Maps.get i d.clients_id ≡ o
          → client_at o d ≡ some c
          → (a : SocketAddr) × (Maps.get i d.clients_id ≡ some a)
            × (Maps.get a d.clients_addr ≡ some c)
            × (c.id ≡ i)
      go none e h = cc
      go (some a) e h = (a, e, h, ground (arith, v.addr_of i a e, h))

  pub get_by_id-get_by_addr :
      (a : SocketAddr) (c : MinecraftClient) → get_by_addr d a ≡ some c → get_by_id d c.id ≡ some c
  unfolding get_by_id get_by_addr
  get_by_id-get_by_addr a c h = rw (v.id_of a c.id (ap id_at h)) h

  pub get_by_addr-remove_by_id :
      (a : SocketAddr) (c : MinecraftClient)
      → get_by_addr d a ≡ some c
      → get_by_addr (remove_by_id d c.id) a ≡ none
  unfolding get_by_addr remove_by_id
  get_by_addr-remove_by_id a c h =
      rw (v.id_of a c.id (ap id_at h))
        (ground (arith, Maps.get-remove a a d.clients_addr, ==_refl a))
