-- ===== src/Proxy/Connection/Verbatim/Kept.antt =====
-- Every step of a connection of src/proxy.rs keeps what is written upstream as the wallet sent it.
use electrum_private_relay.Prelude.{
  ◌≡◌, inl, inr, refl, sym, ◌∙◌, ap, subst, true, false, Option, none, some, List, [], ◌∷◌, ◌++◌,
  All, All-append, Bytes, Str, Result, ok, err,
}
use mathlib.Core.List.{append_assoc}
use electrum_private_relay.Wire.{SerdeJson, Value, UpstreamEnvelope}
use electrum_private_relay.Protocol.{classify, invalid_frame_response}
use electrum_private_relay.Proxy.Pending.{PendingRequest, get}
use electrum_private_relay.Proxy.Framing.{IoErrorKind, invalid_data, other, Input, read_frame}
use electrum_private_relay.Proxy.Framing.Laws.{read_frame_sound}
use electrum_private_relay.Proxy.Framing.Taken.{read_frame_end}
use electrum_private_relay.Proxy.State.{
  ConnectionLimits, Connection, send, writer_task, upstream_task, client_task,
}
use electrum_private_relay.Proxy.Writer.{
  writer_received, writer_drained, writer_wrote, writer_closed, abort_task,
}
use electrum_private_relay.Proxy.Connection.{
  request_id_key, reject, on_client_read, client_read, client_shutdown, client_written,
  relay_response, on_relay_response, relay_returned, client_replied, client_rejected, on_correlated,
  on_response_key, on_envelope, on_upstream_frame, on_upstream_read, upstream_read, upstream_sent,
  proxy_streams_until,
}
use electrum_private_relay.Proxy.Connection.Invariant.{IsFrame}
use electrum_private_relay.Proxy.Connection.Steps.{
  Step, client_reads, client_stops, client_writes, relay_answers, client_replies, client_rejects,
  upstream_reads, upstream_sends, writer_receives, writer_drains, writer_writes, writer_closes,
  is_aborted, turns, Reach, here, next,
}
use electrum_private_relay.Proxy.Connection.Verbatim.{
  IsSubsequence, nothing, keeps, skips, concat, concat-append, on_classified-MayWrite,
}

module _ (j : SerdeJson) (limits : ConnectionLimits) where
  open j use {Number, envelope_from_slice}

  -- The frames that were read make up what the stream has given, and those written are among them.
  record IsVerbatim (sent : Bytes) (c : Connection Number) : Type 0 where
    frames : List Bytes
    given : sent ≡ concat frames ++ c.client_input.unread
    written : IsSubsequence c.upstream_writes frames
    lines : All (IsFrame limits.max_frame_bytes) frames

  unmoved :
      {sent : Bytes} {c d : Connection Number}
      → IsVerbatim sent c
      → d.client_input ≡ c.client_input
      → d.upstream_writes ≡ c.upstream_writes
      → IsVerbatim sent d
  unmoved {c} v input writes = record {
    frames = v.frames;
    given = v.given ∙ ap (λ (i : Input). concat v.frames ++ i.unread) (sym input);
    written = subst (λ l. IsSubsequence l v.frames) (sym writes) v.written;
    lines = v.lines;
  }

  client_read-IsVerbatim :
      (sent : Bytes) (c : Connection Number)
      → IsVerbatim sent c
      → IsVerbatim sent (client_read j limits c)
  unfolding client_read on_client_read reject
  client_read-IsVerbatim sent c v = go (read_frame limits.max_frame_bytes c.client_input) refl
    where
      go :
          (r : Result IoErrorKind (Option Bytes × Input))
          → read_frame limits.max_frame_bytes c.client_input ≡ r
          → IsVerbatim sent (on_client_read j limits r c)
      go (ok (none, rest)) e = record {
        frames = v.frames;
        given =
            v.given
            ∙ ap (λ t. concat v.frames ++ t)
                (read_frame_end limits.max_frame_bytes c.client_input rest e);
        written = v.written;
        lines = v.lines;
      }
      go (ok (some frame, rest)) e =
          let (body, plain, same, fits, split, ending) =
            read_frame_sound limits.max_frame_bytes c.client_input rest frame e in
          let m =
            on_classified-MayWrite j limits frame (classify j frame)
              (record c { client_input = rest }) in
          record {
            frames = v.frames ++ frame ∷ [];
            given =
                v.given
                ∙ ap (λ t. concat v.frames ++ t) split
                ∙ sym (append_assoc (concat v.frames) frame rest.unread)
                ∙ ap (λ t. t ++ rest.unread) (sym (concat-append v.frames frame))
                ∙ ap (λ (i : Input). concat (v.frames ++ frame ∷ []) ++ i.unread) (sym m.input);
            written = elim m.writes [
              | inl w ↦
                  subst (λ l. IsSubsequence l (v.frames ++ frame ∷ [])) (sym w)
                    (keeps frame v.written)
              | inr w ↦
                  subst (λ l. IsSubsequence l (v.frames ++ frame ∷ [])) (sym w)
                    (skips frame v.written)
            ];
            lines =
                All-append (IsFrame limits.max_frame_bytes) v.frames (frame ∷ []) v.lines
                  ((body, plain, same, fits), tt);
          }
      go (err invalid_data) e = refused (invalid_frame_response j)
        where
          refused : (answer : Option Bytes) → IsVerbatim sent (reject j answer c)
          refused none = unmoved v refl refl
          refused (some answer) = unmoved v refl refl
      go (err other) e = unmoved v refl refl

  -- The upstream task and the relay's answer leave both as they are.
  on_correlated-IsVerbatim :
      (sent frame : Bytes) (key : Str) (found : Option PendingRequest) (c : Connection Number)
      → IsVerbatim sent c
      → IsVerbatim sent (on_correlated j frame key found c)
  unfolding on_correlated
  on_correlated-IsVerbatim sent frame key none c v = v
  on_correlated-IsVerbatim sent frame key (some PendingRequest.broadcast) c v = v
  on_correlated-IsVerbatim sent frame key (some PendingRequest.upstream) c v = unmoved v refl refl

  on_envelope-IsVerbatim :
      (sent frame : Bytes) (id : Option (Value Number)) (method : Option Str)
      (c : Connection Number)
      → IsVerbatim sent c
      → IsVerbatim sent (on_envelope j frame id method c)
  unfolding on_envelope
  on_envelope-IsVerbatim sent frame (some id) none c v = keyed (request_id_key j id)
    where
      keyed : (key : Option Str) → IsVerbatim sent (on_response_key j frame key c)
      keyed none = unfold on_response_key in unmoved v refl refl
      keyed (some key) =
          unfold on_response_key in on_correlated-IsVerbatim sent frame key (get key c.pending) c v
  on_envelope-IsVerbatim sent frame none (some method) c v = unmoved v refl refl
  on_envelope-IsVerbatim sent frame none none c v = unmoved v refl refl
  on_envelope-IsVerbatim sent frame (some id) (some method) c v = unmoved v refl refl

  on_upstream_read-IsVerbatim :
      (sent : Bytes) (r : Result IoErrorKind (Option Bytes × Input)) (c : Connection Number)
      → IsVerbatim sent c
      → IsVerbatim sent (on_upstream_read j r c)
  unfolding on_upstream_read
  on_upstream_read-IsVerbatim sent (ok (none, rest)) c v = unmoved v refl refl
  on_upstream_read-IsVerbatim sent (ok (some frame, rest)) c v = parsed (envelope_from_slice frame)
    where
      parsed :
          (envelope : Option (UpstreamEnvelope Number))
          → IsVerbatim sent
              (on_upstream_frame j frame envelope (record c { upstream_input = rest }))
      parsed none = unfold on_upstream_frame in unmoved v refl refl
      parsed (some e) =
          unfold on_upstream_frame in
          on_envelope-IsVerbatim sent frame e.id e.method (record c { upstream_input = rest })
            (unmoved v refl refl)
  on_upstream_read-IsVerbatim sent (err error) c v = unmoved v refl refl

  on_relay_response-IsVerbatim :
      (sent : Bytes) (key : Option Str) (frame : Option Bytes) (c : Connection Number)
      → IsVerbatim sent c
      → IsVerbatim sent (on_relay_response j key frame c)
  unfolding on_relay_response
  on_relay_response-IsVerbatim sent key none c v = unmoved v refl refl
  on_relay_response-IsVerbatim sent key (some frame) c v = unmoved v refl refl

  Step-IsVerbatim :
      {sent : Bytes} {c d : Connection Number}
      → Step j limits c d
      → IsVerbatim sent c
      → IsVerbatim sent d
  unfolding client_shutdown client_written relay_returned client_replied client_rejected
      upstream_read upstream_sent writer_received writer_drained writer_wrote writer_closed
      abort_task send
  Step-IsVerbatim (client_stops at) v = unmoved v refl refl
  Step-IsVerbatim (client_writes frame true at) v = unmoved v refl refl
  Step-IsVerbatim (client_writes frame false at) v = unmoved v refl refl
  Step-IsVerbatim (client_replies frame at room) v = unmoved v refl refl
  Step-IsVerbatim (client_rejects frame at room) v = unmoved v refl refl
  Step-IsVerbatim (upstream_sends frame at room) v = unmoved v refl refl
  Step-IsVerbatim (writer_receives frame rest at queued) v = unmoved v refl refl
  Step-IsVerbatim (writer_drains at empty client upstream) v = unmoved v refl refl
  Step-IsVerbatim (writer_writes frame true at) v = unmoved v refl refl
  Step-IsVerbatim (writer_writes frame false at) v = unmoved v refl refl
  Step-IsVerbatim (writer_closes true at) v = unmoved v refl refl
  Step-IsVerbatim (writer_closes false at) v = unmoved v refl refl
  Step-IsVerbatim (is_aborted writer_task told alive) v = unmoved v refl refl
  Step-IsVerbatim (is_aborted upstream_task told alive) v = unmoved v refl refl
  Step-IsVerbatim (is_aborted client_task told alive) v = unmoved v refl refl
  Step-IsVerbatim (turns turn) v = unmoved v refl refl
  Step-IsVerbatim {sent} {c} (client_reads at) v = client_read-IsVerbatim sent c v
  Step-IsVerbatim {sent} {c} (relay_answers id key raw result at) v =
      on_relay_response-IsVerbatim sent key (relay_response j id result) c v
  Step-IsVerbatim {sent} {c} (upstream_reads at) v =
      on_upstream_read-IsVerbatim sent (read_frame limits.max_frame_bytes c.upstream_input) c v

  Reach-IsVerbatim :
      (client upstream : Input) {c : Connection Number}
      → Reach j limits (proxy_streams_until j client upstream) c
      → IsVerbatim client.unread c
  unfolding proxy_streams_until
  Reach-IsVerbatim client upstream here = record {
    frames = [];
    given = refl;
    written = nothing;
    lines = tt;
  }
  Reach-IsVerbatim client upstream (next r step) =
      Step-IsVerbatim step (Reach-IsVerbatim client upstream r)

  -- In every reachable state what the wallet's stream has given so far is a sequence of lines within
  -- the frame limit, and the frames that were written upstream are some of them: each unchanged, at
  -- most once, and in the order in which the wallet sent them.
  pub written_verbatim :
      (client upstream : Input) (c : Connection Number)
      → Reach j limits (proxy_streams_until j client upstream) c
      → (frames : List Bytes) × (client.unread ≡ concat frames ++ c.client_input.unread)
        × IsSubsequence c.upstream_writes frames
        × All (IsFrame limits.max_frame_bytes) frames
  written_verbatim client upstream c r =
      let v = Reach-IsVerbatim client upstream r in (v.frames, v.given, v.written, v.lines)
