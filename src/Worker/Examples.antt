-- ===== src/Worker/Examples.antt =====
-- Runs of pkg/worker, and the theorems at concrete inputs; the bus is the one of pkg/bus/bus.go.
use operator_os.Base.{
  ◌≡◌, refl, true, false, Option, none, some, List, [], ◌∷◌, ◌++◌, Text, codes, pos, negsuc, ◌+◌,
  if◌then◌else◌, arith,
}
use operator_os.Bus.Types.{InboundMessage, OutboundMessage}
use operator_os.Bus.MessageBus.{
  delivered, channel_case, consume_select, enter, leave, MessageBus, on_outbound, step,
  new_message_bus,
}
use operator_os.Worker.Config.{default_config, Result, new_pool}
use operator_os.Worker.Process.{Reply, response, error, Env, Worker, consume_loop}
use operator_os.Worker.Runs.{Serves, served, exhausted, after, consume_loop-Serves}
use operator_os.Worker.Lifecycle.{
  LifeAction, run_called, run_continued, stop_called, stop_continued, life_step, live, new_life,
}
use operator_os.Worker.Stops.{inside, one_run_inside, IsUnstopped, lost_stop}

abbrev from_chat : Text → Text → InboundMessage
from_chat chat t = record {
  channel = codes "slack";
  sender_id = codes "7";
  sender = record {
    platform = codes "slack";
    platform_id = codes "7";
    canonical_id = codes "slack:7";
    username = codes "ann";
    display_name = codes "Ann";
  };
  chat_id = chat;
  content = t;
  media = [];
  peer = record { kind = codes "direct"; id = codes "7" };
  message_id = [];
  media_scope = [];
  session_key = [];
  metadata = [];
}

abbrev take_inbound : MessageBus → Option InboundMessage × MessageBus
take_inbound b = elim (consume_select channel_case b.done false b.inbound) [
  | none ↦ (none, b)
  | some (q, m) ↦ (m, record b { inbound = q })
]

-- Answers with the message's text, and fails at an empty one.
abbrev echo : InboundMessage → MessageBus → Reply × MessageBus
echo m b = elim m.content [ [] ↦ (error (codes "empty"), b) | c ∷ t ↦ (response (c ∷ t), b) ]

abbrev on_bus : Env
on_bus = record {
  World = MessageBus;
  cancelled = λ b. false;
  consume = take_inbound;
  process = echo;
  publish =
      λ m b. step (on_outbound (leave channel_case 0 false)) (step (on_outbound (enter m false)) b);
}

abbrev with_buffer : List InboundMessage → MessageBus
with_buffer l = record new_message_bus {
  inbound = record { buffer = l; waiting = []; accepted = l; removed = [] };
}

abbrev fresh : Worker MessageBus
fresh = record {
  processed = 0;
  failed = 0;
  published = [];
  world =
      with_buffer
        (from_chat (codes "c1") (codes "hi") ∷ from_chat (codes "c2") [] ∷ from_chat [] [] ∷ []);
}

abbrev sent_answers : List OutboundMessage
sent_answers =
    record { channel = codes "slack"; chat_id = codes "c1"; content = codes "hi" }
    ∷ record {
      channel = codes "slack";
      chat_id = codes "c2";
      content = codes "Error processing message: empty";
    }
    ∷ []

abbrev served_bus : MessageBus
served_bus = record new_message_bus {
  inbound = record {
    buffer = [];
    waiting = [];
    accepted = fresh.world.inbound.buffer;
    removed =
        delivered (from_chat (codes "c1") (codes "hi"))
        ∷ delivered (from_chat (codes "c2") [])
        ∷ delivered (from_chat [] [])
        ∷ [];
  };
  outbound = record { buffer = sent_answers; waiting = []; accepted = sent_answers; removed = [] };
}

abbrev handled : List (InboundMessage × Reply)
handled =
    (from_chat (codes "c1") (codes "hi"), response (codes "hi"))
    ∷ (from_chat (codes "c2") [], error (codes "empty"))
    ∷ (from_chat [] [], error (codes "empty"))
    ∷ []

three_served : Serves on_bus fresh.world handled served_bus
unfolding step consume_select new_message_bus
three_served =
    served refl refl refl (served refl refl refl (served refl refl refl (exhausted refl refl)))

consume_loop-Serves_example :
    consume_loop on_bus 4 fresh ≡ some (after on_bus fresh handled served_bus)
consume_loop-Serves_example = consume_loop-Serves on_bus 4 fresh three_served (omega arith)

after_three :
    after on_bus fresh handled served_bus
    ≡ record { processed = 1; failed = 2; published = sent_answers; world = served_bus }
after_three = refl

abbrev two_runs : List LifeAction
two_runs =
    run_called
    ∷ run_called
    ∷ run_continued 0 false
    ∷ run_continued 1 false
    ∷ run_continued 0 false
    ∷ run_continued 1 false
    ∷ run_continued 0 false
    ∷ []

one_is_inside : inside (live two_runs new_life).runners ≡ 1
unfolding life_step new_life
one_is_inside = refl

abbrev later : List LifeAction
later =
    run_continued 0 false
    ∷ run_continued 0 false
    ∷ stop_called
    ∷ stop_continued
    ∷ run_continued 0 false
    ∷ []

lost_stop_example :
    IsUnstopped
      (live (run_called ∷ run_continued 0 false ∷ stop_called ∷ stop_continued ∷ later) new_life)
    × IsUnstopped (
        live
          (run_called
            ∷ run_continued 0 false
            ∷ stop_called
            ∷ run_continued 0 false
            ∷ stop_continued
            ∷ later)
          new_life)
    × IsUnstopped (
        live
          (run_called
            ∷ run_continued 0 false
            ∷ run_continued 0 false
            ∷ stop_called
            ∷ stop_continued
            ∷ later)
          new_life)
lost_stop_example = lost_stop later (refl, (refl, (tt, (tt, (refl, tt)))))

-- Two calls of Run that pass the first check before one of them claims the worker.
abbrev racing_runs : List LifeAction
racing_runs =
    run_called
    ∷ run_called
    ∷ run_continued 0 false
    ∷ run_continued 1 false
    ∷ run_continued 1 false
    ∷ run_continued 0 false
    ∷ []

one_run_inside_example :
    inside (live racing_runs new_life).runners
    ≡ (if (live racing_runs new_life).running then 1 else 0)
one_run_inside_example = one_run_inside racing_runs

pool_of_two :
    new_pool
      (λ i. codes "-" ++ (48 + i) ∷ [])
      (pos 2)
      (record (default_config (codes "w")) { concurrency = negsuc 0 })
      true
      true
    ≡ Result.ok (default_config (codes "w-0") ∷ default_config (codes "w-1") ∷ [])
unfolding new_pool default_config
pool_of_two = refl
