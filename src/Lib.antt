-- ===== src/Lib.antt =====
-- CraftIP: a tunnel that makes a Minecraft server behind a NAT reachable under a public host name.
--
-- The server (server/src) accepts two kinds of connections. A proxy client says hello, proves that it
-- has the key that its host name is made of, and stays. A Minecraft client names a host name in its
-- first packet, and from then on its bytes are carried to the proxy client of that name inside of
-- `ProxyData` frames with an id for the Minecraft client. The first bytes of a connection decide which
-- of the two it is (shared/src).
--
-- Prelude: Boolean tests, lists over the native numbers, outcomes (`ok`, `err`, `panic`), bits, sets
-- of ids, and hash maps as association lists.
-- Shared, for shared/src:
--   Config: config.rs.
--   Datatypes: datatypes.rs, the errors and the varint loop; Reference: the encoding that it reads.
--   Bytes: what is used of the crate `bytes`, as a parameter with laws.
--   Utf8: the conversions of strings of the standard library that the readers use.
--   Cursor: cursor.rs. A reader takes a cursor and returns an outcome and the cursor after it.
--   Minecraft: minecraft.rs, the first packet of a Minecraft client in three shapes; Handshake, OldPing
--     and OldConnect: the packets as the protocol writes them.
--   Proxy, Addressing: proxy.rs, addressing.rs and `ClientToProxy` of socket_packet.rs.
--   Crypto: crypto.rs. The crates `ring`, `base-x` and `hex` are a parameter with laws; random bytes
--     and new key pairs are arguments.
--   SocketPacket: socket_packet.rs, frames with a length of 16 bits. `bincode` is a parameter.
--   PacketCodec: packet_codec.rs, the decoder with the protocol that it has found; Drain calls it
--     until it gives no packet, as a framed socket does. Stream and Raw: a socket whose bytes arrive
--     in pieces, behind the first packet. First: before it. Long: a frame whose length field wraps.
-- Server, for server/src:
--   Socket: what a socket gives, and what a handler puts out.
--   Distributor: `Distribiutor` of proxy_handler.rs, which Minecraft client has which id.
--   ProxyHandler: `ProxyClient` of proxy_handler.rs. The loop is `run` over a list of events; an event
--     says which branch of the `select!` is taken and whether the sends that it causes succeed.
--     Seats: what it promises, as a relation on a table of seats.
--   ClientHandler: client_handler.rs, in the same way.
--   ProcessSocket: process_socket.rs, with the timeout of the authentication as a case of its input.
--   Main: main.rs. Sessions: the tasks that it spawns, as steps on the register that they share: a
--     handler starts, is over, and later gets the lock and closes its connection.
-- Client, for client/src:
--   Structs: structs.rs. Connect: `Client::connect` of client.rs, over what the attempt meets.
--   Tunnel: `State` and `Client::handle` of client.rs, in the same way as the server's handlers.
--   Connection: connection_handler.rs, and the task of client.rs that runs it.
--   Main: main.rs and `Client::new`, from the new key to the loop.
-- Gui, for client-gui/src:
--   Channel: gui_channel.rs. Panels: `GuiState` and `ServerPanel` of main.rs, with the click on the
--     button of a server. There is one click in a frame.
--   Controller: backend.rs. The controller's loop, the tasks that it spawns and the clicks change one
--     state, so a run is a list of actions of all of them.
--   Storage: `MyApp::new` and `save`, over the format of `serde_json`. Port: what `parse::<u16>` makes
--     of the local address, up to the client that is started with it. Editing: the row of the local address.
--   Drawing: what a frame of the window shows, as the list of the calls to `egui`, and which buttons
--     can be clicked.
--   Updater: updater.rs and the thread of main.rs that runs it, over what the network and the file
--     system answer.
-- System: the handler of the server and the loop of the client, joined by the two queues of frames
-- between them, as steps of either end. Origins: the way down alone, with a log of what the Minecraft
-- clients gave to the server and of what the client handed to its connections; each packet on the way
-- is signed with the address of the Minecraft client on whose behalf the server sent it.
-- Tests: the parameters at concrete functions, test vectors of shared/src/test.rs, and examples of the
-- results.
--
-- Bounds and fuel: bytes are native numbers, and 16 and 32 bit words keep their wrap-around. An i32 is
-- its bits, a number below 2 ^ 32. The varint loop has fuel for its five rounds, and the search for
-- a free id the 256 rounds of `0..=MAXIMUM_CLIENTS`; both are the bounds that the code has. A buffer
-- is as long as it is, since `max_length` is not read by the code. `drain` has fuel,
-- and one more than the bytes of the buffer is enough; the text of a port has at most five digits,
-- which are enough for 16 bits. All other functions are structural.
--
-- Channels and socket addresses are numbers, and the channels are unbounded, as in the code. Logging,
-- the texts of unknown errors, and `reserve` are left out. The `select!` is any order of events.
--
-- Not modelled: the layout, the icon and the start of the window system, which only call egui and
-- eframe; serde; the build script client-gui/build.rs; and the macro of shared/src/util.rs.
pub mod Prelude
pub mod Shared
pub mod Server
pub mod Client
pub mod Gui
pub mod System
pub mod Tests
