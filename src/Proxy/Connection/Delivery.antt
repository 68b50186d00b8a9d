-- ===== src/Proxy/Connection/Delivery.antt =====
-- The wallet gets the frames of the channel of src/proxy.rs in the order in which they were sent.
use electrum_private_relay.Prelude.{
  ◌≡◌, refl, sym, ◌∙◌, ap, subst, true, false, List, [], ◌∷◌, ◌++◌, map, Bytes, arith,
}
use mathlib.Core.List.{append-nil, append_assoc}
use electrum_private_relay.Wire.{SerdeJson}
use electrum_private_relay.Proxy.Framing.{Input}
use electrum_private_relay.Proxy.State.{
  ConnectionLimits, returned, WriterTask, frame_of, Connection, is_open, send, from_proxy,
  from_upstream,
}
use electrum_private_relay.Proxy.Writer.{
  writer_received, writer_drained, writer_wrote, writer_closed,
}
use electrum_private_relay.Proxy.Connection.{
  client_shutdown, client_written, client_replied, client_rejected, upstream_sent,
  proxy_streams_until,
}
use electrum_private_relay.Proxy.Connection.Measure.Client.{
  client_read-LowersClient, relay_returned-LowersClient,
}
use electrum_private_relay.Proxy.Connection.Measure.Upstream.{upstream_read-LowersUpstream}
use electrum_private_relay.Proxy.Connection.Steps.{
  Step, client_reads, client_stops, client_writes, relay_answers, client_replies, client_rejects,
  upstream_reads, upstream_sends, writer_receives, writer_drains, writer_writes, writer_closes,
  is_aborted, turns, Reach, here, next,
}
use electrum_private_relay.Proxy.Connection.Fifo.{
  in_flight, InOrder, IsFifo, send-InOrder, start-IsFifo, open_client, open_upstream, not_closing,
  abort_task-IsFifo,
}

module _ (j : SerdeJson) (limits : ConnectionLimits) where
  open j use {Number}

  Step-IsFifo : {c d : Connection Number} → Step j limits c d → IsFifo c → IsFifo d
  unfolding client_shutdown client_written client_replied client_rejected upstream_sent
      writer_received writer_drained writer_wrote writer_closed
  Step-IsFifo {c} (client_reads at) v =
      let e = (client_read-LowersClient j limits c at).channel in
      record {
        in_order = subst InOrder (sym e) v.in_order;
        drained =
            open_client j limits c _ (λ end q. ground (arith, at, q)) (ap (λ s. s.writer) e)
              v.drained;
      }
  Step-IsFifo {c} (client_stops at) v = record {
    in_order = v.in_order;
    drained = open_client j limits c _ (λ end q. ground (arith, at, q)) refl v.drained;
  }
  Step-IsFifo {c} (client_writes frame true at) v = record {
    in_order = v.in_order;
    drained = open_client j limits c _ (λ end q. ground (arith, at, q)) refl v.drained;
  }
  Step-IsFifo {c} (client_writes frame false at) v = record {
    in_order = v.in_order;
    drained = open_client j limits c _ (λ end q. ground (arith, at, q)) refl v.drained;
  }
  Step-IsFifo {c} (relay_answers id key raw result at) v =
      let e = (relay_returned-LowersClient j limits id key raw result c at).channel in
      record {
        in_order = subst InOrder (sym e) v.in_order;
        drained =
            open_client j limits c _ (λ end q. ground (arith, at, q)) (ap (λ s. s.writer) e)
              v.drained;
      }
  Step-IsFifo {c} (client_replies frame at room) v = record {
    in_order = send-InOrder (from_proxy frame) c v.in_order;
    drained =
        open_client j limits c _ (λ end q. ground (arith, at, q)) (unfold send in refl) v.drained;
  }
  Step-IsFifo {c} (client_rejects frame at room) v = record {
    in_order = send-InOrder (from_proxy frame) c v.in_order;
    drained =
        open_client j limits c _ (λ end q. ground (arith, at, q)) (unfold send in refl) v.drained;
  }
  Step-IsFifo {c} (upstream_reads at) v =
      let e = (upstream_read-LowersUpstream j limits c at).channel in
      record {
        in_order = subst InOrder (sym e) v.in_order;
        drained =
            open_upstream j limits c _ (λ end q. ground (arith, at, q)) (ap (λ s. s.writer) e)
              v.drained;
      }
  Step-IsFifo {c} (upstream_sends frame at room) v = record {
    in_order = send-InOrder (from_upstream frame) c v.in_order;
    drained =
        open_upstream j limits c _ (λ end q. ground (arith, at, q)) (unfold send in refl) v.drained;
  }
  Step-IsFifo {c} (writer_receives frame rest at queued) v =
      let held = v.in_order.carried (ap is_open at) ∙ ap in_flight at in
      record {
        in_order = record {
          apart = frame ∷ [];
          order =
              v.in_order.order
              ∙ ap (λ l. c.delivered ++ (l ++ c.queue)) held
              ∙ ap (λ q. c.delivered ++ q) queued;
          carried = λ h. refl;
          whole = λ h. absurd cc;
        };
        drained = not_closing j limits _ (λ h. absurd cc);
      }
  Step-IsFifo {c} (writer_drains at empty client upstream) v = record {
    in_order = record {
      apart = v.in_order.apart;
      order = v.in_order.order;
      carried = λ h. v.in_order.carried (ap is_open at) ∙ ap in_flight at;
      whole = λ h. absurd cc;
    };
    drained = record { empty = λ h. empty; client = λ h. client; upstream = λ h. upstream };
  }
  Step-IsFifo {c} (writer_writes frame true at) v =
      let held = v.in_order.carried (ap is_open at) ∙ ap in_flight at in
      record {
        in_order = record {
          apart = [];
          order =
              v.in_order.order
              ∙ ap (λ l. c.delivered ++ (l ++ c.queue)) held
              ∙ sym (append_assoc c.delivered (frame ∷ []) c.queue);
          carried = λ h. refl;
          whole = λ h. absurd cc;
        };
        drained = not_closing j limits _ (λ h. absurd cc);
      }
  Step-IsFifo {c} (writer_writes frame false at) v = record {
    in_order = record {
      apart = v.in_order.apart;
      order = v.in_order.order;
      carried = λ h. absurd cc;
      whole = λ h. absurd cc;
    };
    drained = not_closing j limits _ (λ h. absurd cc);
  }
  Step-IsFifo {c} (writer_closes true at) v = record {
    in_order = record {
      apart = v.in_order.apart;
      order = v.in_order.order;
      carried = λ h. absurd cc;
      whole = λ h. (v.in_order.carried (ap is_open at) ∙ ap in_flight at, v.drained.empty at);
    };
    drained = not_closing j limits _ (λ h. absurd cc);
  }
  Step-IsFifo {c} (writer_closes false at) v = record {
    in_order = record {
      apart = v.in_order.apart;
      order = v.in_order.order;
      carried = λ h. absurd cc;
      whole = λ h. absurd cc;
    };
    drained = not_closing j limits _ (λ h. absurd cc);
  }
  Step-IsFifo {c} (is_aborted task told alive) v = abort_task-IsFifo j limits task c alive v
  Step-IsFifo {c} (turns turn) v = record {
    in_order = record {
      apart = v.in_order.apart;
      order = v.in_order.order;
      carried = v.in_order.carried;
      whole = v.in_order.whole;
    };
    drained = record {
      empty = v.drained.empty;
      client = v.drained.client;
      upstream = v.drained.upstream;
    };
  }

  Reach-IsFifo :
      (client upstream : Input) {c : Connection Number}
      → Reach j limits (proxy_streams_until j client upstream) c
      → IsFifo c
  Reach-IsFifo client upstream here = start-IsFifo j limits client upstream
  Reach-IsFifo client upstream (next r step) = Step-IsFifo step (Reach-IsFifo client upstream r)

  -- In every reachable state the frames that were written to the wallet are the first of those that
  -- the channel has taken, each once and in the order in which the tasks sent them; and they are all
  -- of them when the writer task has returned without an error.
  pub delivered_in_order :
      (client upstream : Input) (c : Connection Number)
      → Reach j limits (proxy_streams_until j client upstream) c
      → ((rest : List Bytes) × (map frame_of c.client_output ≡ c.delivered ++ rest))
        × (c.writer ≡ WriterTask.finished returned → c.delivered ≡ map frame_of c.client_output)
  delivered_in_order client upstream c r =
      let v = (Reach-IsFifo client upstream r).in_order in
      (
        (v.apart ++ c.queue, v.order),
        λ h.
            let (none_apart, none_queued) = v.whole h in
            sym (
              v.order
              ∙ ap (λ l. c.delivered ++ (l ++ c.queue)) none_apart
              ∙ ap (λ q. c.delivered ++ q) none_queued
              ∙ append-nil c.delivered),
      )
