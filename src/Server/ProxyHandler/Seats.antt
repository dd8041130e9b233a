-- ===== src/Server/ProxyHandler/Seats.antt =====
-- What the handler of server/src/proxy_handler.rs promises, without its two maps: each Minecraft client
-- has a seat, whose number is its id.
use craftip_crosscompiletest.Prelude.{
  ℕ, ◌≤◌, ◌<◌, ◌≡◌, ◌≢◌, List, [], ◌∷◌, ◌++◌, Option, none, some, Bool, true, false, ◌==◌,
  if◌then◌else◌,
}
use craftip_crosscompiletest.Prelude.Maps
use craftip_crosscompiletest.Prelude.Maps.{nat_eq}
use craftip_crosscompiletest.Shared.Config.{maximum_clients}
use craftip_crosscompiletest.Shared.Minecraft.{MinecraftDataPacket}
use craftip_crosscompiletest.Shared.Proxy.{ProxyDataPacket}
use craftip_crosscompiletest.Shared.SocketPacket.{
  SocketPacket, proxy_join, proxy_disconnect, proxy_data, proxy_ping, proxy_pong,
}
use craftip_crosscompiletest.Shared.Addressing.{
  Channel, SocketAddr, too_many_clients, wrong_packet, io_error, add_minecraft_client,
  remove_minecraft_client, close,
}
use craftip_crosscompiletest.Shared.Addressing
use craftip_crosscompiletest.Server.Socket.{packet, failed, ended, Output, frame, to_minecraft}
use craftip_crosscompiletest.Server.Distributor.{Distributor, MinecraftClient}
use craftip_crosscompiletest.Server.ProxyHandler.{
  Event, Wake, from_channel, from_socket, silent, Flow, go_on, break, fail,
}

-- Who sits on a seat, and the channel to that client.
abbrev pub Seats : Type 0
Seats = ℕ → Option (SocketAddr × Channel)

abbrev pub all_free : Seats
all_free i = none

abbrev pub Changed : ℕ → Option (SocketAddr × Channel) → Seats → Seats → Type 0
Changed i x s t = (j : ℕ) → t j ≡ (if i == j then x else s j)

abbrev pub Same : Seats → Seats → Type 0
Same s t = (j : ℕ) → t j ≡ s j

abbrev pub NoSeat : SocketAddr → Seats → Type 0
NoSeat a s = (i : ℕ) (tx : Channel) → s i ≢ some (a, tx)

-- The packets that the handler reads over.
abbrev pub Ignored : SocketPacket → Type 0
Ignored (proxy_disconnect i) = ⊥
Ignored (proxy_data p) = ⊥
Ignored (proxy_ping n) = ⊥
Ignored _ = Unit

-- From the seats `s` to `t`, what a round may send and how it may go on: for what woke it, whether the
-- socket takes a frame, and whether the task of a Minecraft client still listens.
pub data Allowed (s t : Seats) : Wake → Bool → Bool → Flow → List Output → Type 0 where
  seated :
      (a : SocketAddr) (tx : Channel) (c : Bool) (i : ℕ)
      → i ≤ maximum_clients
      → s i ≡ none
      → ((j : ℕ) → j < i → s j ≢ none)
      → Changed i (some (a, tx)) s t
      → Allowed s t
          (from_channel (some (add_minecraft_client a tx)))
          true
          c
          go_on
          (frame (proxy_join i) ∷ [])
  -- The client is entered before the frame is sent.
  seated_unsent :
      (a : SocketAddr) (tx : Channel) (c : Bool) (i : ℕ)
      → i ≤ maximum_clients
      → s i ≡ none
      → ((j : ℕ) → j < i → s j ≢ none)
      → Changed i (some (a, tx)) s t
      → Allowed s t (from_channel (some (add_minecraft_client a tx))) false c (fail io_error) []
  all_taken :
      (a : SocketAddr) (tx : Channel) (b c : Bool)
      → ((j : ℕ) → j ≤ maximum_clients → s j ≢ none)
      → Same s t
      → Allowed s t (from_channel (some (add_minecraft_client a tx))) b c (fail too_many_clients) []
  forwarded :
      (a : SocketAddr) (tx : Channel) (c : Bool) (i : ℕ) (pkg : MinecraftDataPacket)
      → s i ≡ some (a, tx)
      → Same s t
      → Allowed s t
          (from_channel (some (Addressing.packet a pkg)))
          true
          c
          go_on
          (frame (proxy_data (record { client_id = i; packet = pkg })) ∷ [])
  forward_unsent :
      (a : SocketAddr) (tx : Channel) (c : Bool) (i : ℕ) (pkg : MinecraftDataPacket)
      → s i ≡ some (a, tx)
      → Same s t
      → Allowed s t (from_channel (some (Addressing.packet a pkg))) false c (fail io_error) []
  no_sender :
      (a : SocketAddr) (b c : Bool) (pkg : MinecraftDataPacket)
      → NoSeat a s
      → Same s t
      → Allowed s t (from_channel (some (Addressing.packet a pkg))) b c (fail wrong_packet) []
  left :
      (a : SocketAddr) (tx : Channel) (c : Bool) (i : ℕ)
      → s i ≡ some (a, tx)
      → Changed i none s t
      → Allowed s t
          (from_channel (some (remove_minecraft_client a)))
          true
          c
          go_on
          (frame (proxy_disconnect i) ∷ [])
  -- The client is taken out behind the frame.
  leave_unsent :
      (a : SocketAddr) (tx : Channel) (c : Bool) (i : ℕ)
      → s i ≡ some (a, tx)
      → Same s t
      → Allowed s t (from_channel (some (remove_minecraft_client a))) false c (fail io_error) []
  left_before :
      (a : SocketAddr) (b c : Bool)
      → NoSeat a s
      → Same s t
      → Allowed s t (from_channel (some (remove_minecraft_client a))) b c go_on []
  thrown_out :
      (i : ℕ) (b c : Bool)
      → Changed i none s t
      → Allowed s t (from_socket (packet (proxy_disconnect i))) b c go_on []
  answered :
      (p : ProxyDataPacket) (a : SocketAddr) (tx : Channel) (b : Bool)
      → s p.client_id ≡ some (a, tx)
      → Same s t
      → Allowed s t
          (from_socket (packet (proxy_data p)))
          b
          true
          go_on
          (to_minecraft tx p.packet ∷ [])
  answer_untaken :
      (p : ProxyDataPacket) (b : Bool)
      → Same s t
      → Allowed s t (from_socket (packet (proxy_data p))) b false go_on []
  answer_unclaimed :
      (p : ProxyDataPacket) (b c : Bool)
      → s p.client_id ≡ none
      → Same s t
      → Allowed s t (from_socket (packet (proxy_data p))) b c go_on []
  ponged :
      (n : ℕ) (c : Bool)
      → Same s t
      → Allowed s t (from_socket (packet (proxy_ping n))) true c go_on (frame (proxy_pong n) ∷ [])
  pong_unsent :
      (n : ℕ) (c : Bool)
      → Same s t
      → Allowed s t (from_socket (packet (proxy_ping n))) false c (fail io_error) []
  read_over :
      (p : SocketPacket) (b c : Bool)
      → Ignored p
      → Same s t
      → Allowed s t (from_socket (packet p)) b c go_on []
  socket_failed : (b c : Bool) → Same s t → Allowed s t (from_socket failed) b c break []
  socket_ended : (b c : Bool) → Same s t → Allowed s t (from_socket ended) b c break []
  fell_silent : (b c : Bool) → Same s t → Allowed s t silent b c break []
  channel_ended : (b c : Bool) → Same s t → Allowed s t (from_channel none) b c break []
  closed : (b c : Bool) → Same s t → Allowed s t (from_channel (some close)) b c break []

-- The same for the rounds on a list of events: the loop ends with the first round that does not go on.
pub data AllowedRun : Seats → List Event → Flow → List Output → Seats → Type 0 where
  waits : {s t : Seats} → Same s t → AllowedRun s [] go_on [] t
  goes_on :
      {s t u : Seats} {e : Event} {es : List Event} {flow : Flow} {out more : List Output}
      → Allowed s t e.wake e.framed_ok e.channel_ok go_on out
      → AllowedRun t es flow more u
      → AllowedRun s (e ∷ es) flow (out ++ more) u
  ends :
      {s t : Seats} {e : Event} {es : List Event} {flow : Flow} {out : List Output}
      → Allowed s t e.wake e.framed_ok e.channel_ok flow out
      → flow ≢ go_on
      → AllowedRun s (e ∷ es) flow out t

-- The seats as the two maps of the distributor have them.
abbrev pub seat_of : SocketAddr → Option MinecraftClient → Option (SocketAddr × Channel)
seat_of a none = none
seat_of a (some c) = some (a, c.tx)

abbrev pub seat_at : Option SocketAddr → Distributor → Option (SocketAddr × Channel)
seat_at none d = none
seat_at (some a) d = seat_of a (Maps.get a d.clients_addr)

abbrev pub seats : Distributor → Seats
seats d i = seat_at (Maps.get i d.clients_id) d
