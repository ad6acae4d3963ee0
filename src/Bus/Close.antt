-- ===== src/Bus/Close.antt =====
-- What `Close` of pkg/bus/bus.go does to messages and publishers.
use mathlib.Core.List.{append_assoc, append-nil}
use operator_os.Base.{
  ℕ, suc, ◌≡◌, refl, sym, ap, ◌∙◌, Bool, true, false, List, [], ◌∷◌, ◌++◌, map, length, replicate,
  arith,
}
use operator_os.Bus.Types.{InboundMessage, OutboundMessage, OutboundMediaMessage}
use operator_os.Bus.MessageBus.{
  Lane, Removal, drained, MessageBus, Closing, draining_inbound, draining_outbound, draining_media,
  finished, Action, close_called, close_continued, step, run, begin_close,
}

-- The channel with its buffer drained: the messages are dropped, the oldest first.
abbrev pub drain_lane {ℓ} : {M : Type ℓ} → Lane M → Lane M
drain_lane q = record q { buffer = []; removed = q.removed ++ map drained q.buffer }

abbrev pub continue_close : ℕ → List Action
continue_close n = replicate n close_continued

run-append : (xs ys : List Action) (b : MessageBus) → run (xs ++ ys) b ≡ run ys (run xs b)
run-append [] ys b = refl
run-append (x ∷ xs) ys b = run-append xs ys (step x b)

module _ {ℓ} {M : Type ℓ} where
  abbrev lane : List M → List M → List M → List (Removal M) → Lane M
  lane b w a r = record { buffer = b; waiting = w; accepted = a; removed = r }

  drain_lane_empty :
      (w a : List M) (r : List (Removal M)) → lane [] w a r ≡ drain_lane (lane [] w a r)
  drain_lane_empty w a r = ap (lane [] w a) (sym (append-nil r))

  drain_lane_step :
      (x : M) (b w a : List M) (r : List (Removal M))
      → drain_lane (lane b w a (r ++ drained x ∷ [])) ≡ drain_lane (lane (x ∷ b) w a r)
  drain_lane_step x b w a r = ap (lane [] w a) (append_assoc r (drained x ∷ []) (map drained b))

module _ (d c : Bool) where
  abbrev bus :
      Lane InboundMessage → Lane OutboundMessage → Lane OutboundMediaMessage → Closing → MessageBus
  bus i o m k = record {
    inbound = i;
    outbound = o;
    outbound_media = m;
    done = d;
    closed = c;
    closing = k;
  }

  run-inbound :
      (b w a : List InboundMessage) (r : List (Removal InboundMessage)) (o : Lane OutboundMessage)
      (m : Lane OutboundMediaMessage)
      → run (continue_close (suc (length b))) (bus (lane b w a r) o m draining_inbound)
        ≡ bus (drain_lane (lane b w a r)) o m draining_outbound
  unfolding step
  run-inbound [] w a r o m = ap (λ q. bus q o m draining_outbound) (drain_lane_empty w a r)
  run-inbound (x ∷ b) w a r o m =
      run-inbound b w a (r ++ drained x ∷ []) o m
      ∙ ap (λ q. bus q o m draining_outbound) (drain_lane_step x b w a r)

  run-outbound :
      (b w a : List OutboundMessage) (r : List (Removal OutboundMessage)) (i : Lane InboundMessage)
      (m : Lane OutboundMediaMessage)
      → run (continue_close (suc (length b))) (bus i (lane b w a r) m draining_outbound)
        ≡ bus i (drain_lane (lane b w a r)) m draining_media
  unfolding step
  run-outbound [] w a r i m = ap (λ q. bus i q m draining_media) (drain_lane_empty w a r)
  run-outbound (x ∷ b) w a r i m =
      run-outbound b w a (r ++ drained x ∷ []) i m
      ∙ ap (λ q. bus i q m draining_media) (drain_lane_step x b w a r)

  run-media :
      (b w a : List OutboundMediaMessage) (r : List (Removal OutboundMediaMessage))
      (i : Lane InboundMessage) (o : Lane OutboundMessage)
      → run (continue_close (suc (length b))) (bus i o (lane b w a r) draining_media)
        ≡ bus i o (drain_lane (lane b w a r)) finished
  unfolding step
  run-media [] w a r i o = ap (λ q. bus i o q finished) (drain_lane_empty w a r)
  run-media (x ∷ b) w a r i o =
      run-media b w a (r ++ drained x ∷ []) i o
      ∙ ap (λ q. bus i o q finished) (drain_lane_step x b w a r)

-- The steps of a `Close` that nothing interrupts.
abbrev pub close_alone : MessageBus → List Action
close_alone b =
    close_called
    ∷ close_continued
    ∷ (continue_close (suc (length b.inbound.buffer))
        ++ (continue_close (suc (length b.outbound.buffer))
            ++ continue_close (suc (length b.outbound_media.buffer))))

-- On an open bus a `Close` that nothing interrupts ends, after two steps and one more than its
-- messages for each channel, and delivers nothing: every message in a buffer is dropped.
pub close_drops_buffers :
    (b : MessageBus)
    → b.closed ≡ false
    → run (close_alone b) b ≡ record {
      inbound = drain_lane b.inbound;
      outbound = drain_lane b.outbound;
      outbound_media = drain_lane b.outbound_media;
      done = true;
      closed = true;
      closing = finished;
    }
unfolding step begin_close
close_drops_buffers b open_ =
    let i = b.inbound in
    let o = b.outbound in
    let m = b.outbound_media in
    let ni = continue_close (suc (length i.buffer)) in
    let no_ = continue_close (suc (length o.buffer)) in
    let nm = continue_close (suc (length m.buffer)) in
    let started : run (close_called ∷ close_continued ∷ []) b
        ≡ bus true true i o m draining_inbound =
      ground arith in
    ap (run (ni ++ (no_ ++ nm))) started
    ∙ run-append ni (no_ ++ nm) (bus true true i o m draining_inbound)
    ∙ ap (run (no_ ++ nm)) (run-inbound true true i.buffer i.waiting i.accepted i.removed o m)
    ∙ run-append no_ nm (bus true true (drain_lane i) o m draining_outbound)
    ∙ ap (run nm) (run-outbound true true o.buffer o.waiting o.accepted o.removed (drain_lane i) m)
    ∙ run-media true true m.buffer m.waiting m.accepted m.removed (drain_lane i) (drain_lane o)
