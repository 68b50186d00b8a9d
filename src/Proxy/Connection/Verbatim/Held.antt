-- ===== src/Proxy/Connection/Verbatim/Held.antt =====
-- The frames that the upstream task of src/proxy.rs has read and passes on.
use electrum_private_relay.Prelude.{
  ◌≡◌, ◌⊎◌, inl, inr, refl, sym, ◌∙◌, ap, subst, Option, none, some, List, [], ◌∷◌, ◌++◌, All,
  All-append, Bytes, Str,
}
use mathlib.Core.List.{append-nil, append_assoc}
use electrum_private_relay.Wire.{SerdeJson, Value, UpstreamEnvelope}
use electrum_private_relay.Proxy.Pending.{PendingRequest, get}
use electrum_private_relay.Proxy.Framing.{Input}
use electrum_private_relay.Proxy.State.{
  ConnectionLimits, UpstreamTask, forwarding, Output, from_proxy, from_upstream, Connection,
}
use electrum_private_relay.Proxy.Connection.{
  request_id_key, on_correlated, on_response_key, on_envelope, on_upstream_frame,
}
use electrum_private_relay.Proxy.Connection.Invariant.{IsFrame}
use electrum_private_relay.Proxy.Connection.Verbatim.{
  IsSubsequence, keeps, skips, concat, concat-append,
}

-- The frames of the upstream among those that the channel has taken.
abbrev pub upstream_frames : List Output → List Bytes
upstream_frames [] = []
upstream_frames (from_proxy frame ∷ rest) = upstream_frames rest
upstream_frames (from_upstream frame ∷ rest) = frame ∷ upstream_frames rest

pub upstream_frames-append :
    (l k : List Output) → upstream_frames (l ++ k) ≡ upstream_frames l ++ upstream_frames k
upstream_frames-append [] k = refl
upstream_frames-append (from_proxy frame ∷ l) k = upstream_frames-append l k
upstream_frames-append (from_upstream frame ∷ l) k =
    ap (λ t. frame ∷ t) (upstream_frames-append l k)

-- The frames that the upstream task has read and not yet sent; an ended task may have lost some.
abbrev pub Holds : UpstreamTask → List Bytes → Type 0
Holds UpstreamTask.reading rest = rest ≡ []
Holds (forwarding frame) rest = rest ≡ frame ∷ []
Holds (UpstreamTask.finished end) rest = Unit

module _ (j : SerdeJson) (limits : ConnectionLimits) where
  open j use {Number, envelope_from_slice}

  pub record IsPassedOn (sent : Bytes) (c : Connection Number) : Type 0 where
    pub frames : List Bytes
    pub rest : List Bytes
    pub given : sent ≡ concat frames ++ c.upstream_input.unread
    pub taken : IsSubsequence (upstream_frames c.client_output ++ rest) frames
    pub held : Holds c.upstream rest
    pub lines : All (IsFrame limits.max_frame_bytes) frames

  -- The frame that was read is held, or it is dropped, or the task has ended.
  pub record MayHold (frame : Bytes) (c d : Connection Number) : Type 0 where
    pub output : d.client_output ≡ c.client_output
    pub input : d.upstream_input ≡ c.upstream_input
    pub held : Holds d.upstream (frame ∷ []) ⊎ Holds d.upstream []

  on_correlated-MayHold :
      (frame : Bytes) (key : Str) (found : Option PendingRequest) (c : Connection Number)
      → c.upstream ≡ UpstreamTask.reading
      → MayHold frame c (on_correlated j frame key found c)
  unfolding on_correlated
  on_correlated-MayHold frame key none c at = record {
    output = refl;
    input = refl;
    held = inr (subst (λ t. Holds t []) (sym at) refl);
  }
  on_correlated-MayHold frame key (some PendingRequest.broadcast) c at = record {
    output = refl;
    input = refl;
    held = inr (subst (λ t. Holds t []) (sym at) refl);
  }
  on_correlated-MayHold frame key (some PendingRequest.upstream) c at = record {
    output = refl;
    input = refl;
    held = inl refl;
  }

  on_envelope-MayHold :
      (frame : Bytes) (id : Option (Value Number)) (method : Option Str) (c : Connection Number)
      → c.upstream ≡ UpstreamTask.reading
      → MayHold frame c (on_envelope j frame id method c)
  unfolding on_envelope
  on_envelope-MayHold frame (some id) none c at = keyed (request_id_key j id)
    where
      keyed : (key : Option Str) → MayHold frame c (on_response_key j frame key c)
      keyed none = unfold on_response_key in record { output = refl; input = refl; held = inr tt }
      keyed (some key) =
          unfold on_response_key in on_correlated-MayHold frame key (get key c.pending) c at
  on_envelope-MayHold frame none (some method) c at = record {
    output = refl;
    input = refl;
    held = inl refl;
  }
  on_envelope-MayHold frame none none c at = record { output = refl; input = refl; held = inr tt }
  on_envelope-MayHold frame (some id) (some method) c at = record {
    output = refl;
    input = refl;
    held = inr tt;
  }

  pub on_upstream_frame-MayHold :
      (frame : Bytes) (envelope : Option (UpstreamEnvelope Number)) (c : Connection Number)
      → c.upstream ≡ UpstreamTask.reading
      → MayHold frame c (on_upstream_frame j frame envelope c)
  unfolding on_upstream_frame
  on_upstream_frame-MayHold frame none c at = record { output = refl; input = refl; held = inr tt }
  on_upstream_frame-MayHold frame (some e) c at = on_envelope-MayHold frame e.id e.method c at

  -- One more frame was read by a task that held none.
  pub read-IsPassedOn :
      (sent frame : Bytes) (rest : Input) (c d : Connection Number)
      → IsFrame limits.max_frame_bytes frame
      → c.upstream_input.unread ≡ frame ++ rest.unread
      → c.upstream ≡ UpstreamTask.reading
      → MayHold frame (record c { upstream_input = rest }) d
      → IsPassedOn sent c
      → IsPassedOn sent d
  read-IsPassedOn sent frame rest c d is_frame split at m v = record {
    frames = v.frames ++ frame ∷ [];
    rest = elim m.held [ inl h ↦ frame ∷ [] | inr h ↦ [] ];
    given =
        v.given
        ∙ ap (λ t. concat v.frames ++ t) split
        ∙ sym (append_assoc (concat v.frames) frame rest.unread)
        ∙ ap (λ t. t ++ rest.unread) (sym (concat-append v.frames frame))
        ∙ ap (λ (i : Input). concat (v.frames ++ frame ∷ []) ++ i.unread) (sym m.input);
    taken = taken m.held;
    held = held m.held;
    lines =
        All-append (IsFrame limits.max_frame_bytes) v.frames (frame ∷ []) v.lines (is_frame, tt);
  }
    where
      before : IsSubsequence (upstream_frames c.client_output) v.frames
      before =
          subst (λ l. IsSubsequence l v.frames)
            (ap (λ t. upstream_frames c.client_output ++ t) (subst (λ t. Holds t v.rest) at v.held)
              ∙ append-nil (upstream_frames c.client_output))
            v.taken

      same : upstream_frames c.client_output ≡ upstream_frames d.client_output
      same = ap upstream_frames (sym m.output)

      taken :
          (h : Holds d.upstream (frame ∷ []) ⊎ Holds d.upstream [])
          → IsSubsequence
              (upstream_frames d.client_output ++ elim h [ inl _ ↦ frame ∷ [] | inr _ ↦ [] ])
              (v.frames ++ frame ∷ [])
      taken (inl h) =
          subst (λ l. IsSubsequence (l ++ frame ∷ []) (v.frames ++ frame ∷ [])) same
            (keeps frame before)
      taken (inr h) =
          subst (λ l. IsSubsequence l (v.frames ++ frame ∷ []))
            (same ∙ sym (append-nil (upstream_frames d.client_output))) (skips frame before)

      held :
          (h : Holds d.upstream (frame ∷ []) ⊎ Holds d.upstream [])
          → Holds d.upstream (elim h [ inl _ ↦ frame ∷ [] | inr _ ↦ [] ])
      held (inl h) = h
      held (inr h) = h
