-- ===== src/Session/Choice.antt =====
-- `setCurrentWriteStreams` of helper/WebTransportWS.js before `connect` has made the streams.
use webtransport_gos.Prelude.{ℕ, ◌≡◌, refl, Bool, true, [], arith, ap, ◌∙◌, inl, inr, Bool-cases}
use webtransport_gos.Prelude.Int.{ℤ, pos, ◌≤ℤ◌}
use webtransport_gos.Js.Bytes.{Bytes}
use webtransport_gos.Session.Commands.{targets, send_lem}
use webtransport_gos.Session.{
  Options, Session, Outcome, is_stream, new_session, connected, set_current_write_streams, restrain,
  send, write_each,
}

send-none_chosen :
    (o : Options) (message : Bytes) (s : Session)
    → o.auto_stream ≡ true
    → s.has_encoder ≡ true
    → s.current_write_streams ≡ pos 0
    → (send o message s).1 ≡ []
unfolding send
send-none_chosen o message s auto encoder none_chosen = elim (Bool-cases (is_stream o.mode)) [
  | inl stream ↦ rw stream refl
  | inr other ↦
      let n = targets o s in
      let no_target : n ≡ 0 = ground (arith, auto, none_chosen) in
      let nothing : (k : ℕ) (buffer : Bytes) → k ≡ 0 → write_each 0 k buffer ≡ [] =
        λ k buffer e. rw e refl in
      ap (λ (r : Outcome). r.1) (send_lem o message s other encoder) ∙ nothing n _ no_target
]

-- With a positive number, `autoStream` and an encoder: the number becomes 0, as there are no streams yet,
-- and when all streams are there `send` writes to none of them and tells the owner of no error.
pub chosen_too_early :
    (o : Options) (value : ℤ) (use_datagrams has_decoder : Bool) (message : Bytes)
    → pos 1 ≤ℤ value
    → o.auto_stream ≡ true
    → let s = set_current_write_streams value (new_session o has_decoder true) in
      (s.current_write_streams ≡ pos 0) × ((send o message (connected use_datagrams o s)).1 ≡ [])
unfolding set_current_write_streams restrain new_session connected
chosen_too_early o value use_datagrams has_decoder message h auto =
    let zero_chosen : restrain value (pos 1) (pos 0) ≡ pos 0 = ground (arith, h) in
    (zero_chosen, send-none_chosen o message _ auto refl zero_chosen)
