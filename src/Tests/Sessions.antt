-- ===== src/Tests/Sessions.antt =====
-- Two proxy clients of server/src in one register, and the ids on the wire.
use craftip_crosscompiletest.Prelude.{◌≡◌, ◌≢◌, ◌⊎◌, refl, List, [], ◌∷◌, some, true, bytes_of, All}
use craftip_crosscompiletest.Prelude.Maps
use craftip_crosscompiletest.Prelude.Maps.{bytes_eq, bytes_beq, nat_eq}
use craftip_crosscompiletest.Shared.Utf8.{RustString}
use craftip_crosscompiletest.Shared.Proxy.{ProxyHelloPacket, public_key}
use craftip_crosscompiletest.Shared.Addressing.{
  register_new, DistributorError, add_minecraft_client,
}
use craftip_crosscompiletest.Server.ProxyHandler.{
  close_connection, Event, from_channel, silent, handle, enter_register, run, turn, turn_on, go_on,
}
use craftip_crosscompiletest.Server.ProxyHandler.Bounds.{IdFits, handle-IdFits}
use craftip_crosscompiletest.Server.ProcessSocket.{elapsed, admit}
use craftip_crosscompiletest.Server.Sessions.{
  World, started, Step, Reach, here, next, enters, ends, closes, Ended,
}
use craftip_crosscompiletest.Server.Sessions.Live.{Runs, Closing, register_live}
use craftip_crosscompiletest.Tests.Crates.{crypto}

abbrev join : Event
join = record {
  wake = from_channel (some (add_minecraft_client 40 3));
  framed_ok = true;
  channel_ok = true;
}

handle-IdFits_example : All IdFits (handle true (join ∷ [])).output
handle-IdFits_example = handle-IdFits true (join ∷ [])

abbrev text_of : DistributorError → RustString
text_of e = bytes_of "AuthError"

abbrev hello_for : RustString → ProxyHelloPacket
hello_for name = record {
  version = 1;
  hostname = name;
  auth = public_key (record { key = 1 ∷ [] });
}

-- `a` enters, `b` enters, and the handler of `a` is over after a silence.
abbrev a_name : RustString
a_name = bytes_of "a"

abbrev b_name : RustString
b_name = bytes_of "b"

abbrev silence : List Event
silence = record { wake = silent; framed_ok = true; channel_ok = true } ∷ []

abbrev with_a : World
with_a = record {
  register = enter_register register_new a_name 3;
  sessions = record { hostname = a_name; tx = 3 } ∷ [];
  closing = [];
}

abbrev with_both : World
with_both = record {
  register = enter_register with_a.register b_name 4;
  sessions = record { hostname = b_name; tx = 4 } ∷ with_a.sessions;
  closing = [];
}

silence_ends : (handle true silence).flow ≢ go_on
unfolding handle run turn turn_on
silence_ends h = cc

abbrev a_over : Ended
a_over = record {
  session = record { hostname = a_name; tx = 3 };
  framed_ok = true;
  events = silence;
  over = silence_ends;
}

-- The handler of `a` is over, and its name is still in the register.
abbrev a_ended : World
a_ended = record {
  register = with_both.register;
  sessions = record { hostname = b_name; tx = 4 } ∷ [];
  closing = a_over ∷ [];
}

abbrev b_left : World
b_left = record {
  register = close_connection with_both.register a_name;
  sessions = record { hostname = b_name; tx = 4 } ∷ [];
  closing = [];
}

both_come : Reach crypto text_of started with_both
unfolding admit
both_come =
    next (next here (enters elapsed true (hello_for a_name) 3 refl refl refl refl))
      (enters elapsed true (hello_for b_name) 4 refl refl refl refl)

a_ends : Step crypto text_of with_both a_ended
a_ends = ends (record { hostname = b_name; tx = 4 } ∷ []) [] a_over refl refl refl refl

a_goes : Step crypto text_of a_ended b_left
unfolding handle run turn turn_on
a_goes = closes [] [] a_over refl refl refl refl

b_is_entered : Maps.get b_name b_left.register.servers ≡ some 4
unfolding enter_register close_connection register_new Maps.get Maps.insert Maps.remove
b_is_entered = refl

-- After the handler of `a` is over and before it is closed, its name is in the register.
a_is_closing : Maps.get a_name a_ended.register.servers ≡ some 3
unfolding enter_register register_new Maps.get Maps.insert
a_is_closing = refl

register_live_example : Runs b_name 4 b_left.sessions ⊎ Closing b_name 4 b_left.closing
register_live_example =
    register_live crypto text_of b_left b_name 4 (next (next both_come a_ends) a_goes) b_is_entered
