-- ===== src/Proxy/Connection/Verbatim/Answers.antt =====
-- What src/proxy.rs passes on from the upstream server is what that server sent: whole frames,
-- unchanged and in order.
use electrum_private_relay.Prelude.{
  ◌≡◌, inl, inr, refl, sym, ◌∙◌, ap, subst, true, false, Option, none, some, List, [], ◌∷◌, ◌++◌,
  All, Bytes, Str, Bool-cases, Result, ok, err,
}
use mathlib.Core.List.{append-nil}
use electrum_private_relay.Wire.{SerdeJson}
use electrum_private_relay.Proxy.Framing.{IoErrorKind, Input, read_frame}
use electrum_private_relay.Proxy.Framing.Laws.{read_frame_sound}
use electrum_private_relay.Proxy.Framing.Taken.{read_frame_end}
use electrum_private_relay.Proxy.State.{
  ConnectionLimits, TaskEnd, UpstreamTask, forwarding, from_proxy, from_upstream, Connection,
  is_open, send, abort_upstream, writer_task, upstream_task, client_task,
}
use electrum_private_relay.Proxy.Writer.{
  writer_received, writer_drained, writer_wrote, writer_closed, abort_task,
}
use electrum_private_relay.Proxy.Connection.{
  client_shutdown, client_written, relay_response, on_relay_response, relay_returned,
  client_replied, client_rejected, on_upstream_read, upstream_read, upstream_sent,
  proxy_streams_until,
}
use electrum_private_relay.Proxy.Connection.Invariant.{IsFrame}
use electrum_private_relay.Proxy.Connection.Queries.Table.{client_read-WritesQueries}
use electrum_private_relay.Proxy.Connection.Steps.{
  Step, client_reads, client_stops, client_writes, relay_answers, client_replies, client_rejects,
  upstream_reads, upstream_sends, writer_receives, writer_drains, writer_writes, writer_closes,
  is_aborted, turns, Reach, here, next,
}
use electrum_private_relay.Proxy.Connection.Verbatim.{IsSubsequence, nothing, concat}
use electrum_private_relay.Proxy.Connection.Verbatim.Held.{
  upstream_frames, upstream_frames-append, Holds, IsPassedOn, on_upstream_frame-MayHold,
  read-IsPassedOn,
}

module _ (j : SerdeJson) (limits : ConnectionLimits) where
  open j use {Number, envelope_from_slice}

  -- No frame was read: what was taken or is held is what it was.
  settled :
      {sent : Bytes} {c d : Connection Number} (v : IsPassedOn j limits sent c) (rest : List Bytes)
      → upstream_frames d.client_output ++ rest ≡ upstream_frames c.client_output ++ v.rest
      → d.upstream_input ≡ c.upstream_input
      → Holds d.upstream rest
      → IsPassedOn j limits sent d
  settled v rest same input held = record {
    frames = v.frames;
    rest = rest;
    given = v.given ∙ ap (λ (i : Input). concat v.frames ++ i.unread) (sym input);
    taken = subst (λ l. IsSubsequence l v.frames) (sym same) v.taken;
    held = held;
    lines = v.lines;
  }

  ended_read :
      {sent : Bytes} {c : Connection Number} (v : IsPassedOn j limits sent c) (rest : Input)
      → c.upstream_input.unread ≡ rest.unread
      → IsPassedOn j limits sent
          (record c { upstream_input = rest; upstream = UpstreamTask.finished TaskEnd.returned })
  ended_read v rest same = record {
    frames = v.frames;
    rest = v.rest;
    given = v.given ∙ ap (λ t. concat v.frames ++ t) same;
    taken = v.taken;
    held = tt;
    lines = v.lines;
  }

  on_upstream_read-IsPassedOn :
      (sent : Bytes) (c : Connection Number) (r : Result IoErrorKind (Option Bytes × Input))
      → read_frame limits.max_frame_bytes c.upstream_input ≡ r
      → c.upstream ≡ UpstreamTask.reading
      → IsPassedOn j limits sent c
      → IsPassedOn j limits sent (on_upstream_read j r c)
  unfolding on_upstream_read
  on_upstream_read-IsPassedOn sent c (ok (none, rest)) e at v =
      ended_read v rest (read_frame_end limits.max_frame_bytes c.upstream_input rest e)
  on_upstream_read-IsPassedOn sent c (ok (some frame, rest)) e at v =
      let (body, plain, same, fits, split, ending) =
        read_frame_sound limits.max_frame_bytes c.upstream_input rest frame e in
      read-IsPassedOn j limits sent frame rest c _ (body, plain, same, fits) split at
        (on_upstream_frame-MayHold j limits frame (envelope_from_slice frame)
          (record c { upstream_input = rest }) at)
        v
  on_upstream_read-IsPassedOn sent c (err error) e at v = settled v v.rest refl refl tt

  abort_upstream-Holds :
      (task : UpstreamTask) (rest : List Bytes) → Holds task rest → Holds (abort_upstream task) rest
  abort_upstream-Holds UpstreamTask.reading rest h = tt
  abort_upstream-Holds (forwarding frame) rest h = tt
  abort_upstream-Holds (UpstreamTask.finished end) rest h = tt

  -- A frame of the proxy itself is no frame of the upstream.
  sent_own :
      (frame : Bytes) (c : Connection Number)
      → upstream_frames (send (from_proxy frame) c).client_output ≡ upstream_frames c.client_output
  unfolding send
  sent_own frame c = elim (Bool-cases (is_open c.writer)) [
    | inl alive ↦ rw alive (
        upstream_frames-append c.client_output (from_proxy frame ∷ [])
        ∙ append-nil (upstream_frames c.client_output))
    | inr shut ↦ rw shut refl
  ]

  -- The frame that was held has been sent, or the channel was closed and the task has ended.
  upstream_sent-IsPassedOn :
      (sent frame : Bytes) (c : Connection Number)
      → c.upstream ≡ forwarding frame
      → IsPassedOn j limits sent c
      → IsPassedOn j limits sent (upstream_sent j frame c)
  unfolding upstream_sent send
  upstream_sent-IsPassedOn sent frame c at v = elim (Bool-cases (is_open c.writer)) [
    | inl alive ↦
        settled v []
          (rw alive (
            append-nil (upstream_frames (c.client_output ++ from_upstream frame ∷ []))
            ∙ upstream_frames-append c.client_output (from_upstream frame ∷ [])
            ∙ ap (λ t. upstream_frames c.client_output ++ t)
                (sym (subst (λ t. Holds t v.rest) at v.held))))
          refl (rw alive refl)
    | inr shut ↦ settled v v.rest (rw shut refl) refl (rw shut tt)
  ]

  on_relay_response-IsPassedOn :
      (sent : Bytes) (key : Option Str) (frame : Option Bytes) (c : Connection Number)
      → IsPassedOn j limits sent c
      → IsPassedOn j limits sent (on_relay_response j key frame c)
  unfolding on_relay_response
  on_relay_response-IsPassedOn sent key none c v = settled v v.rest refl refl v.held
  on_relay_response-IsPassedOn sent key (some frame) c v = settled v v.rest refl refl v.held

  Step-IsPassedOn :
      {sent : Bytes} {c d : Connection Number}
      → Step j limits c d
      → IsPassedOn j limits sent c
      → IsPassedOn j limits sent d
  unfolding client_shutdown client_written relay_returned client_replied client_rejected
      upstream_read writer_received writer_drained writer_wrote writer_closed abort_task send
  Step-IsPassedOn {sent} {c} (client_reads at) v =
      let m = client_read-WritesQueries j limits c in
      settled v v.rest (ap (λ l. upstream_frames l ++ v.rest) m.output) m.input
        (subst (λ t. Holds t v.rest) (sym m.upstream) v.held)
  Step-IsPassedOn {sent} {c} (relay_answers id key raw result at) v =
      on_relay_response-IsPassedOn sent key (relay_response j id result) c v
  Step-IsPassedOn {sent} {c} (client_replies frame at room) v =
      settled v v.rest (ap (λ l. l ++ v.rest) (sent_own frame c)) refl v.held
  Step-IsPassedOn {sent} {c} (client_rejects frame at room) v =
      settled v v.rest (ap (λ l. l ++ v.rest) (sent_own frame c)) refl v.held
  Step-IsPassedOn {sent} {c} (upstream_reads at) v =
      on_upstream_read-IsPassedOn sent c (read_frame limits.max_frame_bytes c.upstream_input) refl
        at v
  Step-IsPassedOn {sent} {c} (upstream_sends frame at room) v =
      upstream_sent-IsPassedOn sent frame c at v
  Step-IsPassedOn {sent} {c} (is_aborted upstream_task told alive) v =
      settled v v.rest refl refl (abort_upstream-Holds c.upstream v.rest v.held)
  Step-IsPassedOn (is_aborted writer_task told alive) v = settled v v.rest refl refl v.held
  Step-IsPassedOn (is_aborted client_task told alive) v = settled v v.rest refl refl v.held
  Step-IsPassedOn (client_stops at) v = settled v v.rest refl refl v.held
  Step-IsPassedOn (client_writes frame true at) v = settled v v.rest refl refl v.held
  Step-IsPassedOn (client_writes frame false at) v = settled v v.rest refl refl v.held
  Step-IsPassedOn (writer_receives frame rest at queued) v = settled v v.rest refl refl v.held
  Step-IsPassedOn (writer_drains at none_left client upstream) v = settled v v.rest refl refl v.held
  Step-IsPassedOn (writer_writes frame true at) v = settled v v.rest refl refl v.held
  Step-IsPassedOn (writer_writes frame false at) v = settled v v.rest refl refl v.held
  Step-IsPassedOn (writer_closes true at) v = settled v v.rest refl refl v.held
  Step-IsPassedOn (writer_closes false at) v = settled v v.rest refl refl v.held
  Step-IsPassedOn (turns turn) v = settled v v.rest refl refl v.held

  Reach-IsPassedOn :
      (client upstream : Input) {c : Connection Number}
      → Reach j limits (proxy_streams_until j client upstream) c
      → IsPassedOn j limits upstream.unread c
  unfolding proxy_streams_until
  Reach-IsPassedOn client upstream here = record {
    frames = [];
    rest = [];
    given = refl;
    taken = nothing;
    held = refl;
    lines = tt;
  }
  Reach-IsPassedOn client upstream (next r step) =
      Step-IsPassedOn step (Reach-IsPassedOn client upstream r)

  -- In every reachable state what the upstream's stream has given so far is a sequence of lines
  -- within the frame limit, and the frames of the upstream that the channel to the wallet has taken,
  -- perhaps followed by others, are some of these lines: each unchanged, at most once, and in the
  -- order in which the upstream sent them.
  pub passed_on_verbatim :
      (client upstream : Input) (c : Connection Number)
      → Reach j limits (proxy_streams_until j client upstream) c
      → (frames rest : List Bytes) × (upstream.unread ≡ concat frames ++ c.upstream_input.unread)
        × IsSubsequence (upstream_frames c.client_output ++ rest) frames
        × All (IsFrame limits.max_frame_bytes) frames
  passed_on_verbatim client upstream c r =
      let v = Reach-IsPassedOn client upstream r in (v.frames, v.rest, v.given, v.taken, v.lines)
