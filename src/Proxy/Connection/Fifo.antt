-- ===== src/Proxy/Connection/Fifo.antt =====
-- The order of the frames in the channel to the wallet of src/proxy.rs, and what keeps it.
use electrum_private_relay.Prelude.{
  ◌≡◌, ◌≢◌, inl, inr, refl, sym, ◌∙◌, true, false, List, [], ◌∷◌, ◌++◌, map, Bytes, Bool-cases,
  arith,
}
use mathlib.Core.List.{append_assoc, map-append}
use electrum_private_relay.Wire.{SerdeJson}
use electrum_private_relay.Proxy.Framing.{Input}
use electrum_private_relay.Proxy.State.{
  ConnectionLimits, TaskEnd, returned, ClientTask, UpstreamTask, WriterTask, receiving, delivering,
  closing, Output, frame_of, Connection, is_open, send, abort_writer, FinishedTask, writer_task,
  upstream_task, client_task,
}
use electrum_private_relay.Proxy.Writer.{abort_task}
use electrum_private_relay.Proxy.Connection.{proxy_streams_until}
use electrum_private_relay.Proxy.Connection.Measure.{Channel, channel_of}
use electrum_private_relay.Proxy.Connection.Steps.{ClientEnded, UpstreamEnded, HasEnded}

abbrev pub in_flight : WriterTask → List Bytes
in_flight (delivering frame) = frame ∷ []
in_flight _ = []

-- What the channel has taken was delivered, is in flight or was lost with the writer, or waits.
pub record InOrder (s : Channel) : Type 0 where
  pub apart : List Bytes
  pub order : map frame_of s.client_output ≡ s.delivered ++ (apart ++ s.queue)
  pub carried : is_open s.writer ≡ true → apart ≡ in_flight s.writer
  pub whole : s.writer ≡ WriterTask.finished returned → (apart ≡ []) × (s.queue ≡ [])

-- The writer closes the stream only when nobody can send any more.
pub record IsDrained {N : Type 0} (c : Connection N) : Type 0 where
  pub empty : c.writer ≡ closing → c.queue ≡ []
  pub client : c.writer ≡ closing → ClientEnded c
  pub upstream : c.writer ≡ closing → UpstreamEnded c

pub record IsFifo {N : Type 0} (c : Connection N) : Type 0 where
  pub in_order : InOrder (channel_of c)
  pub drained : IsDrained c

pub send-InOrder :
    {N : Type 0} (output : Output) (c : Connection N)
    → InOrder (channel_of c)
    → InOrder (channel_of (send output c))
unfolding send
send-InOrder output c v = elim (Bool-cases (is_open c.writer)) [
  | inr shut ↦ record {
    apart = v.apart;
    order = rw shut v.order;
    carried = λ h. absurd (ground (arith, shut, h));
    whole = λ h. ((v.whole h).0, rw shut (v.whole h).1);
  }
  | inl alive ↦ record {
    apart = v.apart;
    order = rw alive (sent v);
    carried = v.carried;
    whole = λ h. absurd (ground (arith, alive, h));
  }
]
  where
    sent :
        (v : InOrder (channel_of c))
        → map frame_of (c.client_output ++ output ∷ [])
          ≡ c.delivered ++ (v.apart ++ (c.queue ++ frame_of output ∷ []))
    sent v = simp (map-append, v.order, append_assoc)

module _ (j : SerdeJson) (limits : ConnectionLimits) where
  open j use {Number}

  pub start-IsFifo : (client upstream : Input) → IsFifo (proxy_streams_until j client upstream)
  unfolding proxy_streams_until
  start-IsFifo client upstream = record {
    in_order = record { apart = []; order = refl; carried = λ h. refl; whole = λ h. absurd cc };
    drained = record { empty = λ h. absurd cc; client = λ h. absurd cc; upstream = λ h. absurd cc };
  }

  -- A step of a task that had not ended: the writer is not closing.
  pub open_client :
      (c d : Connection Number)
      → ((end : TaskEnd) → c.client ≢ ClientTask.finished end)
      → d.writer ≡ c.writer
      → IsDrained c
      → IsDrained d
  open_client c d alive same v =
      let shut =
        λ (h : d.writer ≡ closing). let (end, e) = v.client (sym same ∙ h) in alive end e in
      record {
        empty = λ h. absurd (shut h);
        client = λ h. absurd (shut h);
        upstream = λ h. absurd (shut h);
      }

  pub open_upstream :
      (c d : Connection Number)
      → ((end : TaskEnd) → c.upstream ≢ UpstreamTask.finished end)
      → d.writer ≡ c.writer
      → IsDrained c
      → IsDrained d
  open_upstream c d alive same v =
      let shut =
        λ (h : d.writer ≡ closing). let (end, e) = v.upstream (sym same ∙ h) in alive end e in
      record {
        empty = λ h. absurd (shut h);
        client = λ h. absurd (shut h);
        upstream = λ h. absurd (shut h);
      }

  -- A writer that does not close.
  pub not_closing : (c : Connection Number) → c.writer ≢ closing → IsDrained c
  not_closing c ne = record {
    empty = λ h. absurd (ne h);
    client = λ h. absurd (ne h);
    upstream = λ h. absurd (ne h);
  }

  pub finished-ne-closing : (writer : WriterTask) → abort_writer writer ≢ closing
  finished-ne-closing receiving h = absurd cc
  finished-ne-closing (delivering frame) h = absurd cc
  finished-ne-closing closing h = absurd cc
  finished-ne-closing (WriterTask.finished end) h = absurd cc

  pub abort_writer-returned :
      (writer : WriterTask)
      → abort_writer writer ≡ WriterTask.finished returned
      → writer ≡ WriterTask.finished returned
  abort_writer-returned receiving h = absurd cc
  abort_writer-returned (delivering frame) h = absurd cc
  abort_writer-returned closing h = absurd cc
  abort_writer-returned (WriterTask.finished end) h = h

  pub abort_writer-shut : (writer : WriterTask) → is_open (abort_writer writer) ≡ false
  abort_writer-shut receiving = refl
  abort_writer-shut (delivering frame) = refl
  abort_writer-shut closing = refl
  abort_writer-shut (WriterTask.finished end) = refl

  pub abort_task-IsFifo :
      (task : FinishedTask) (c : Connection Number)
      → ¬ HasEnded c task
      → IsFifo c
      → IsFifo (abort_task task c)
  unfolding abort_task
  abort_task-IsFifo writer_task c alive v = record {
    in_order = record {
      apart = v.in_order.apart;
      order = v.in_order.order;
      carried = λ h. absurd (ground (arith, abort_writer-shut c.writer, h));
      whole = λ h. v.in_order.whole (abort_writer-returned c.writer h);
    };
    drained = not_closing _ (finished-ne-closing c.writer);
  }
  abort_task-IsFifo upstream_task c alive v = record {
    in_order = v.in_order;
    drained = open_upstream c _ (λ end e. alive (end, e)) refl v.drained;
  }
  abort_task-IsFifo client_task c alive v = record {
    in_order = v.in_order;
    drained = open_client c _ (λ end e. alive (end, e)) refl v.drained;
  }
