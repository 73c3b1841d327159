-- ===== src/Tests/Lifecycles.antt =====
-- A session of one stream that opens, and whose stream and transport end.
use webtransport_gos.Prelude.{◌≡◌, refl, true, false, List, [], ◌∷◌, ◌++◌}
use webtransport_gos.Session.Lifecycle.{
  Options, Life, Effect, closes_transport, calls_onopen, new_life, on_ready, on_stream, on_writers,
  on_tick, on_read_end, on_transport_closed, on_send, close, next_stream,
}
use webtransport_gos.Session.Lifecycle.Handlers.{Reach, begin, step, gets_ready, gets_stream}
use webtransport_gos.Session.Lifecycle.Late.{opens_after_close}

abbrev options : Options
options = record {
  stream_mode = false;
  use_datagrams = false;
  stream_count = 1;
  enable_ping = true;
}

-- All streams are there.
abbrev waiting : Life
waiting = on_stream options 0 (on_ready options new_life)

abbrev in_use : Life
in_use = (on_tick options (on_writers waiting).0).0

abbrev over : Life
over = (on_transport_closed true (on_read_end 0 in_use).0).0

-- A message is sent after `close`.
abbrev ended : Life
ended = (on_send options false (close over).0).0

waiting_reached : Reach options waiting []
unfolding new_life on_ready on_stream next_stream
waiting_reached = step (step begin (gets_ready refl)) (gets_stream 0 refl)

abbrev done : List Effect
done =
    (((((on_writers waiting).1 ++ (on_tick options (on_writers waiting).0).1)
          ++ (on_read_end 0 in_use).1)
        ++ (on_transport_closed true (on_read_end 0 in_use).0).1)
      ++ (close over).1)
    ++ (on_send options false (close over).0).1

opens_after_close_example :
    (l' : Life) × Reach options l' (closes_transport ∷ calls_onopen ∷ []) × (l'.closed ≡ true)
unfolding new_life on_ready on_stream next_stream
opens_after_close_example = opens_after_close waiting_reached refl refl
