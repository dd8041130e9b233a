-- ===== src/Server/Main.antt =====
-- server/src/main.rs: the address that the server listens on, and its accept loop. Sockets and logging are
-- not code of the repository.
use craftip_crosscompiletest.Prelude.{
  ℕ, List, [], ◌∷◌, Option, none, some, Bool, true, false, bytes_of,
}
use craftip_crosscompiletest.Shared.Utf8.{RustString}

-- `env::args().nth(1)`, or the default.
unfoldable pub listen_addr : List RustString → RustString
listen_addr (program ∷ addr ∷ args) = addr
listen_addr _ = bytes_of "127.0.0.1:25565"

-- What an error that ends `main` comes from.
pub data MainError : Type 0 where
  no_subscriber bind_failed no_local_addr accept_failed : MainError

-- The tasks that were spawned, each for its socket, and whether the loop waits or has ended with an
-- error.
pub record Served : Type 0 where
  pub tasks : List ℕ
  pub error : Option MainError

abbrev pub with_task : ℕ → Served → Served
with_task socket s = record s { tasks = socket ∷ s.tasks }

-- The loop over the results of `accept`: an error of one of them ends the server.
unfoldable pub accept_loop : List (Option ℕ) → Served
accept_loop [] = record { tasks = []; error = none }
accept_loop (none ∷ more) = record { tasks = []; error = some accept_failed }
accept_loop (some socket ∷ more) = with_task socket (accept_loop more)

abbrev pub stopped : MainError → Served
stopped e = record { tasks = []; error = some e }

-- `main`, for whether the address can be bound.
unfoldable pub main :
    (subscriber_ok : Bool)
    → (bind_ok : RustString → Bool) → (local_addr_ok : Bool) → List RustString
    → List (Option ℕ)
    → Served
main false bind_ok local_addr_ok args accepts = stopped no_subscriber
main true bind_ok local_addr_ok args accepts = elim (bind_ok (listen_addr args)) [
  | false ↦ stopped bind_failed
  | true ↦ elim local_addr_ok [ false ↦ stopped no_local_addr | true ↦ accept_loop accepts ]
]
