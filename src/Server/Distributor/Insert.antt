-- ===== src/Server/Distributor/Insert.antt =====
-- What `insert` does on each branch: the lowest id that is free, or a refusal.
use craftip_crosscompiletest.Shared.Config.{maximum_clients}
use craftip_crosscompiletest.Prelude.{
  ℕ, zero, suc, ◌+◌, ◌≤◌, ◌<◌, ◌≡◌, refl, Option, none, some, true, false, Outcome, ok, err, arith,
  ◌==◌, if◌then◌else◌,
}
use craftip_crosscompiletest.Prelude.Maps
use craftip_crosscompiletest.Prelude.Maps.{HashMap, nat_eq, is_some}
use craftip_crosscompiletest.Shared.Addressing.{
  SocketAddr, Channel, DistributorError, too_many_clients,
}
use craftip_crosscompiletest.Server.Distributor.{
  MinecraftClient, Distributor, free_id, insert_at, insert,
}

-- An id is in use.
abbrev pub InUse : ℕ → HashMap ℕ SocketAddr → Type 0
InUse id used = Maps.contains_key id used ≡ true

free_id-range :
    (left id i : ℕ) (used : HashMap ℕ SocketAddr)
    → free_id left id used ≡ some i
    → (Maps.contains_key i used ≡ false) × (id ≤ i) × (i < id + left)
unfolding free_id
free_id-range zero id i used h = cc
free_id-range (suc left) id i used h = ground (arith, free_id-range left (id + 1) i used)

free_id-least :
    (left id i : ℕ) (used : HashMap ℕ SocketAddr) (j : ℕ)
    → free_id left id used ≡ some i
    → id ≤ j
    → j < i
    → InUse j used
unfolding free_id
free_id-least zero id i used j h lo hi = cc
free_id-least (suc left) id i used j h lo hi = ground (arith, free_id-least left (id + 1) i used j)

free_id-none :
    (left id : ℕ) (used : HashMap ℕ SocketAddr) (j : ℕ)
    → free_id left id used ≡ none
    → id ≤ j
    → j < id + left
    → InUse j used
unfolding free_id
free_id-none zero id used j h lo hi = absurd (omega arith)
free_id-none (suc left) id used j h lo hi = ground (arith, free_id-none left (id + 1) used j)

-- The outcomes of `insert`.
pub data Inserts (d : Distributor) (addr : SocketAddr) (tx : Channel)
    (r : Outcome DistributorError MinecraftClient × Distributor) : Type 0 where
  inserted :
      (i : ℕ)
      → r.0 ≡ ok (record { tx = tx; id = i })
      → i ≤ maximum_clients
      → Maps.get i d.clients_id ≡ none
      → ((j : ℕ) → j < i → InUse j d.clients_id)
      → ((a : SocketAddr)
          → Maps.get a r.1.clients_addr
            ≡ (if addr == a then some (record { tx = tx; id = i }) else Maps.get a d.clients_addr))
      → ((j : ℕ)
          → Maps.get j r.1.clients_id ≡ (if i == j then some addr else Maps.get j d.clients_id))
      → Inserts d addr tx r
  full :
      r ≡ (err too_many_clients, d)
      → ((j : ℕ) → j ≤ maximum_clients → InUse j d.clients_id)
      → Inserts d addr tx r

-- `insert` gives the client the lowest id from 0 to 255 that is not in use, and enters it in both
-- maps and nowhere else. It refuses only when all 256 ids are in use, and then changes nothing.
pub insert_lem :
    (d : Distributor) (addr : SocketAddr) (tx : Channel) → Inserts d addr tx (insert d addr tx)
unfolding insert
insert_lem d addr tx = go (free_id (suc maximum_clients) 0 d.clients_id) refl
  where
    go :
        (o : Option ℕ)
        → free_id (suc maximum_clients) 0 d.clients_id ≡ o
        → Inserts d addr tx (insert_at o d addr tx)
    go none e = full refl (λ j h. free_id-none 256 0 d.clients_id j e (omega arith) (omega arith))
    go (some i) e =
        let (free, _, below) = free_id-range 256 0 i d.clients_id e in
        inserted i refl (omega (arith, below)) (Maps.contains_key-false i d.clients_id free)
          (λ j h. free_id-least 256 0 i d.clients_id j e (omega arith) h)
          (λ a. Maps.get-insert addr a (record { tx = tx; id = i }) d.clients_addr)
          (λ j. Maps.get-insert i j addr d.clients_id)
