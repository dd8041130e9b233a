-- ===== src/Server/Sessions.antt =====
-- The tasks that server/src/main.rs spawns share one register: proxy clients are admitted and leave,
-- in any order (server/src/process_socket.rs and server/src/proxy_handler.rs).
pub mod Live
use craftip_crosscompiletest.Prelude.{
  ap, ◌≡◌, ◌≢◌, refl, sym, ◌∙◌, subst, subst₂, inl, inr, ◌⊎◌, List, [], ◌∷◌, ◌++◌, some, Bool, true,
  false, ok, arith,
}
use craftip_crosscompiletest.Prelude.Maps
use craftip_crosscompiletest.Prelude.Maps.{bytes_eq, bytes_beq, bytes_beq_iff}
use craftip_crosscompiletest.Shared.Utf8.{RustString}
use craftip_crosscompiletest.Shared.Proxy.{ProxyHelloPacket}
use craftip_crosscompiletest.Shared.Crypto.{CryptoCrates}
use craftip_crosscompiletest.Shared.Addressing.{Channel, Register, register_new, DistributorError}
use craftip_crosscompiletest.Server.ProxyHandler.{
  Event, Flow, go_on, break, fail, panicked, handle, enter_register, close_connection,
}
use craftip_crosscompiletest.Server.ProxyHandler.NoPanic.{handle-flow}
use craftip_crosscompiletest.Server.ProcessSocket.{AuthWait, admit, after_handle}
use craftip_crosscompiletest.Server.ProcessSocket.Auth.{register_of}

-- A proxy client that was admitted, with the channel of its handler.
pub record Session : Type 0 where
  pub hostname : RustString
  pub tx : Channel

-- A session whose handler is over: it has run on some events and does not wait for more. Its
-- `close_connection` waits for the lock of the register.
pub record Ended : Type 0 where
  pub session : Session
  pub framed_ok : Bool
  pub events : List Event
  pub over : (handle framed_ok events).flow ≢ go_on

pub record World : Type 0 where
  pub register : Register
  pub sessions : List Session
  pub closing : List Ended

-- `Register::new`, and no client.
abbrev pub started : World
started = record { register = register_new; sessions = []; closing = [] }

-- A client is admitted and its handler starts; the handler of a session is over; or a session whose
-- handler is over gets the lock of the register and is closed.
pub data Step (crypto : CryptoCrates) (shown : DistributorError → RustString) (s t : World)
    : Type 0 where
  enters :
      (wait : AuthWait) (error_ok : Bool) (hello : ProxyHelloPacket) (tx : Channel)
      → (admit crypto shown wait error_ok hello).0 ≡ ok tt
      → t.register ≡ enter_register s.register hello.hostname tx
      → t.sessions ≡ record { hostname = hello.hostname; tx = tx } ∷ s.sessions
      → t.closing ≡ s.closing
      → Step crypto shown s t
  ends :
      (before after : List Session) (e : Ended)
      → s.sessions ≡ before ++ (e.session ∷ after)
      → t.register ≡ s.register
      → t.sessions ≡ before ++ after
      → t.closing ≡ e ∷ s.closing
      → Step crypto shown s t
  closes :
      (before after : List Ended) (e : Ended)
      → s.closing ≡ before ++ (e ∷ after)
      → t.register
        ≡ register_of (
            after_handle crypto shown
              (handle e.framed_ok e.events).flow
              e.session.hostname
              (λ r. r)
              s.register)
      → t.sessions ≡ s.sessions
      → t.closing ≡ before ++ after
      → Step crypto shown s t

pub data Reach (crypto : CryptoCrates) (shown : DistributorError → RustString) (s : World)
    : World → Type 0 where
  here : Reach crypto shown s s
  next : {t u : World} → Reach crypto shown s t → Step crypto shown t u → Reach crypto shown s u
