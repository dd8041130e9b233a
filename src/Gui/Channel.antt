-- ===== src/Gui/Channel.antt =====
-- client-gui/src/gui_channel.rs.
use craftip_crosscompiletest.Client.Structs.{Server}

pub data GuiTriggeredEvent : Type 0 where
  connect : Server → GuiTriggeredEvent
  disconnect : GuiTriggeredEvent

pub data ServerState : Type 0 where
  disconnected connecting connected disconnecting : ServerState
