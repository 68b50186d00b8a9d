-- ===== src/Proxy/Connection/RunTests.antt =====
-- The theorems about whole runs, at those of the sample connection.
use electrum_private_relay.Prelude.{
  inl, ◌+◌, ◌*◌, List, map, Bytes, ◌≡◌, refl, true, some, [], ◌∷◌, ◌++◌, All, codes, length, ◌≤◌,
  err, arith,
}
use electrum_private_relay.Relay.{disabled}
use electrum_private_relay.Proxy.Framing.{Input, closed}
use electrum_private_relay.Proxy.State.{
  Connection, from_upstream, UpstreamTask, frame_of, WriterTask, returned,
}
use electrum_private_relay.Proxy.Connection.{
  proxy_streams_until, upstream_read, upstream_sent, client_read, client_written, relay_returned,
  client_replied,
}
use electrum_private_relay.Proxy.Connection.Steps.{
  upstream_reads, upstream_sends, Run, none_yet, one_more, Reach, here, next, client_reads,
  client_writes, client_replies, relay_answers, writer_receives, writer_writes,
}
use electrum_private_relay.Proxy.Connection.Ending.{run_is_bounded}
use electrum_private_relay.Proxy.Connection.Queries.{answers, answer_in_hand, open_queries}
use electrum_private_relay.Proxy.Connection.Queries.Bounded.{answers_bounded}
use electrum_private_relay.Proxy.Connection.Invariant.{IsFrame}
use electrum_private_relay.Proxy.Connection.Verbatim.{IsSubsequence, concat}
use electrum_private_relay.Proxy.Connection.Verbatim.Held.{upstream_frames}
use electrum_private_relay.Proxy.Connection.Verbatim.Answers.{passed_on_verbatim}
use electrum_private_relay.Proxy.Connection.Verbatim.Kept.{written_verbatim}
use electrum_private_relay.Proxy.Connection.Delivery.{delivered_in_order}
use electrum_private_relay.Proxy.Writer.{writer_received, writer_wrote}
use electrum_private_relay.Samples.{sample, frame, id_of, raw_sample, SampleNumber}
use electrum_private_relay.Proxy.Connection.Samples.{
  tasks, limits, wallet, silent, start, waiting, waiting-Reach,
}

waiting-Run : Run sample limits start 3 waiting
unfolding tasks
waiting-Run =
    one_more
      (one_more (one_more none_yet (client_reads refl))
        (client_writes (frame (codes "query")) true refl))
      (client_reads refl)

run_is_bounded_example :
    3 ≤ 8 * (length (frame (codes "query") ++ frame (codes "broadcast")) + 0) + 12
run_is_bounded_example = run_is_bounded sample limits wallet silent 3 waiting waiting-Run

-- The relay has answered, and the writer has given the answer to the wallet.
abbrev answer_sent : Connection SampleNumber
answer_sent =
    client_replied sample (frame (codes "answer"))
      (relay_returned sample (id_of 2) (some (codes "2")) (err disabled) waiting)

abbrev answer_written : Connection SampleNumber
answer_written =
    writer_wrote (frame (codes "answer")) true
      (writer_received (frame (codes "answer")) [] answer_sent)

answer_written-Reach : Reach sample limits start answer_written
unfolding tasks
answer_written-Reach =
    next
      (next
        (next
          (next waiting-Reach
            (relay_answers (id_of 2) (some (codes "2")) raw_sample (err disabled) refl))
          (client_replies (frame (codes "answer")) refl (inl (omega arith))))
        (writer_receives (frame (codes "answer")) [] refl refl))
      (writer_writes (frame (codes "answer")) true refl)

answer_written_log : answer_written.delivered ≡ frame (codes "answer") ∷ []
unfolding tasks
answer_written_log = refl

delivered_in_order_example :
    ((rest : List Bytes) × (map frame_of answer_written.client_output
        ≡ answer_written.delivered ++ rest))
    × (answer_written.writer ≡ WriterTask.finished returned
        → answer_written.delivered ≡ map frame_of answer_written.client_output)
delivered_in_order_example =
    delivered_in_order sample limits wallet silent answer_written answer_written-Reach

-- The upstream answers the query, and then answers it again.
abbrev repeated : Input
repeated = record { unread = frame (codes "noise") ++ frame (codes "noise"); ending = closed }

abbrev answered_twice : Connection SampleNumber
answered_twice =
    let asked_again =
      client_written sample true
        (client_read sample limits (proxy_streams_until sample wallet repeated)) in
    upstream_read sample limits
      (upstream_sent sample (frame (codes "noise")) (upstream_read sample limits asked_again))

answered_twice-Reach :
    Reach sample limits (proxy_streams_until sample wallet repeated) answered_twice
unfolding tasks
answered_twice-Reach =
    next
      (next
        (next
          (next (next here (client_reads refl)) (client_writes (frame (codes "query")) true refl))
          (upstream_reads refl))
        (upstream_sends (frame (codes "noise")) refl (inl (omega arith))))
      (upstream_reads refl)

answered_twice_log :
    (answered_twice.client_output ≡ from_upstream (frame (codes "noise")) ∷ [])
    × (answered_twice.upstream ≡ UpstreamTask.reading)
unfolding tasks
answered_twice_log = (refl, refl)

answers_bounded_example :
    answers sample answered_twice.client_output
      + answer_in_hand sample answered_twice.upstream
      + open_queries answered_twice.pending
    ≤ length answered_twice.upstream_writes
answers_bounded_example =
    answers_bounded sample limits wallet repeated answered_twice answered_twice-Reach

written_verbatim_example :
    (frames : List Bytes) × (wallet.unread ≡ concat frames ++ waiting.client_input.unread)
    × IsSubsequence waiting.upstream_writes frames
    × All (IsFrame 64) frames
written_verbatim_example = written_verbatim sample limits wallet silent waiting waiting-Reach

passed_on_verbatim_example :
    (frames rest : List Bytes) × (repeated.unread
      ≡ concat frames ++ answered_twice.upstream_input.unread)
    × IsSubsequence (upstream_frames answered_twice.client_output ++ rest) frames
    × All (IsFrame 64) frames
passed_on_verbatim_example =
    passed_on_verbatim sample limits wallet repeated answered_twice answered_twice-Reach
