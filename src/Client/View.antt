-- ===== src/Client/View.antt =====
-- What the proxy server is told in client/src/client.rs, and what the window is told: the ids of the
-- connections, and how many there are.
mod Rounds
pub use Rounds.{after_wake, after_output, view, ids, last_count, count, Delivers, Keeps, turn-Keeps}
use Rounds.{last_count-append}
use mathlib.Core.Path.{fun_ext}
use craftip_crosscompiletest.Prelude.{
  ℕ, ◌%◌, ◌^◌, ◌≡◌, refl, sym, ap, ◌∙◌, List, [], ◌∷◌, ◌++◌, Option, none, some, Bool, true, false,
  arith, length, ◌==◌, if◌then◌else◌,
}
use craftip_crosscompiletest.Prelude.Ids.{Ids, set_to}
use craftip_crosscompiletest.Prelude.Maps
use craftip_crosscompiletest.Prelude.Maps.{nat_eq, is_some}
use craftip_crosscompiletest.Shared.Minecraft.{MinecraftDataPacket}
use craftip_crosscompiletest.Shared.SocketPacket.{
  SocketPacket, proxy_join, proxy_disconnect, proxy_data, proxy_pong,
}
use craftip_crosscompiletest.Shared.Addressing.{Channel}
use craftip_crosscompiletest.Server.Socket.{failed, ended}
use craftip_crosscompiletest.Server.Socket
use craftip_crosscompiletest.Client.Structs.{
  clients_connected, ClientToProxy, packet, remove_minecraft_client, death,
}
use craftip_crosscompiletest.Client.Tunnel.{
  State, Output, frame, stats, start, Flow, go_on, closed, bail, panicked, Turn, quiet, report,
  add_connection, remove_connection, start_after, send_over, send_to, Wake, from_control,
  from_connection, from_proxy, tick, Event, with_output, send_then, on_connection, pinged,
  on_packet, turn_on, turn, then_run, run,
}

goes_on :
    (t : Turn) (rest : State → Turn) {P : Type 0}
    → (then_run t rest).flow ≡ go_on
    → (t.flow ≡ go_on → (rest t.state).flow ≡ go_on → P)
    → P
goes_on t rest {P} h k = go t.flow refl
  where
    go : (f : Flow) → t.flow ≡ f → P
    go go_on q = k q (rw (q, then_run) at h)
    go closed q = cc (rw (q, then_run) at h)
    go bail q = cc (rw (q, then_run) at h)
    go panicked q = cc (rw (q, then_run) at h)

then_run-go_on :
    (t : Turn) (rest : State → Turn)
    → t.flow ≡ go_on
    → then_run t rest ≡ with_output t.output (rest t.state)
then_run-go_on t rest q = rw (q, then_run)

module _ (tx : Channel) where
  -- While the loop goes on and no task of a connection has ended by itself, the ids with a connection
  -- are exactly those that the frames in both directions tell: entered by a join, and left by a
  -- disconnect of either side.
  pub connections_exact :
      (es : List Event) (s : State)
      → s.stats_tx ≡ some tx
      → Delivers es
      → (run es s).flow ≡ go_on
      → ids (run es s).state ≡ view es s (ids s)
  unfolding run
  connections_exact [] s has d h = refl
  connections_exact (e ∷ es) s has d h = goes_on (turn e s) (run es) h λ now later.
      let k = turn-Keeps tx e s has d.0 now in
      ap (λ t. ids t.state) (then_run-go_on (turn e s) (run es) now)
      ∙ connections_exact es (turn e s).state k.same_tx d.1 later
      ∙ ap (view es (turn e s).state) (fun_ext k.same_ids)

  -- While the loop goes on and no task of a connection has ended by itself, the last number of clients
  -- that the window was told is the number of connections, as a `u16`.
  pub last_count_exact :
      (es : List Event) (s : State)
      → s.stats_tx ≡ some tx
      → Delivers es
      → (run es s).flow ≡ go_on
      → last_count (run es s).output (count s) ≡ count (run es s).state
  unfolding run
  last_count_exact [] s has d h = refl
  last_count_exact (e ∷ es) s has d h = goes_on (turn e s) (run es) h λ now later.
      let k = turn-Keeps tx e s has d.0 now in
      rw
        (
          then_run-go_on (turn e s) (run es) now,
          last_count-append (turn e s).output (run es (turn e s).state).output (count s),
          k.same_count,
        )
        (last_count_exact es (turn e s).state k.same_tx d.1 later)
