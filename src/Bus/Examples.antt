-- ===== src/Bus/Examples.antt =====
-- Runs of pkg/bus/bus.go, and the theorems at concrete inputs.
use operator_os.Base.{◌≡◌, refl, true, false, List, [], ◌∷◌, Text, codes}
use operator_os.Bus.Types.{InboundMessage, OutboundMessage}
use operator_os.Bus.MessageBus.{
  delivered, drained, channel_case, enter, leave, consume, MessageBus, finished, Action, on_inbound,
  on_outbound, step, run, new_message_bus,
}
use operator_os.Bus.Reached.{IsBus, run-IsBus, LosesNothing, open_bus-LosesNothing}
use operator_os.Bus.Close.{drain_lane, close_alone, close_drops_buffers}
use operator_os.Bus.Late.{AdmitsNoMore, closed_bus-AdmitsNoMore}

abbrev hello : Text → InboundMessage
hello t = record {
  channel = codes "telegram";
  sender_id = codes "7";
  sender = record {
    platform = codes "telegram";
    platform_id = codes "7";
    canonical_id = codes "telegram:7";
    username = codes "ann";
    display_name = codes "Ann";
  };
  chat_id = codes "c1";
  content = t;
  media = [];
  peer = record { kind = codes "direct"; id = codes "7" };
  message_id = [];
  media_scope = [];
  session_key = [];
  metadata = [];
}

abbrev reply : OutboundMessage
reply = record { channel = codes "telegram"; chat_id = codes "c1"; content = codes "hi" }

-- Two messages, of which one is consumed, an answer, and a third message whose publisher waits.
abbrev morning : List Action
morning =
    on_inbound (enter (hello (codes "a")) false)
    ∷ on_inbound (enter (hello (codes "b")) false)
    ∷ on_inbound (leave channel_case 0 false)
    ∷ on_inbound (leave channel_case 0 false)
    ∷ on_inbound (consume channel_case false)
    ∷ on_outbound (enter reply false)
    ∷ on_outbound (leave channel_case 0 false)
    ∷ on_inbound (enter (hello (codes "c")) false)
    ∷ []

abbrev at_noon : MessageBus
at_noon = run morning new_message_bus

noon : at_noon.inbound ≡ record {
  buffer = hello (codes "b") ∷ [];
  waiting = hello (codes "c") ∷ [];
  accepted = hello (codes "a") ∷ hello (codes "b") ∷ [];
  removed = delivered (hello (codes "a")) ∷ [];
}
unfolding step new_message_bus
noon = refl

run-IsBus_example : IsBus (run morning new_message_bus)
run-IsBus_example = run-IsBus morning

open_bus-LosesNothing_example :
    LosesNothing (run morning new_message_bus).inbound
    × LosesNothing (run morning new_message_bus).outbound
    × LosesNothing (run morning new_message_bus).outbound_media
open_bus-LosesNothing_example = open_bus-LosesNothing morning (unfold step new_message_bus in refl)

close_drops_buffers_example : run (close_alone at_noon) at_noon ≡ record {
  inbound = drain_lane at_noon.inbound;
  outbound = drain_lane at_noon.outbound;
  outbound_media = drain_lane at_noon.outbound_media;
  done = true;
  closed = true;
  closing = finished;
}
close_drops_buffers_example = close_drops_buffers at_noon (unfold step new_message_bus in refl)

abbrev at_night : MessageBus
at_night = run (close_alone at_noon) at_noon

night : at_night.inbound ≡ record {
  buffer = [];
  waiting = hello (codes "c") ∷ [];
  accepted = hello (codes "a") ∷ hello (codes "b") ∷ [];
  removed = delivered (hello (codes "a")) ∷ drained (hello (codes "b")) ∷ [];
}
unfolding step new_message_bus
night = refl

closed_bus-AdmitsNoMore_example : AdmitsNoMore at_night (run morning at_night)
closed_bus-AdmitsNoMore_example =
    closed_bus-AdmitsNoMore morning at_night (unfold step new_message_bus in refl)
