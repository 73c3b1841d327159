-- ===== src/Tests/Transports.antt =====
-- Concrete runs of a transport with two servers.
use webtransport_gos.Prelude.{
  ℕ, ◌≡◌, refl, true, false, some, none, List, [], ◌∷◌, ◌++◌, ◌+◌, get_elem?, arith,
}
use webtransport_gos.Transport.{
  Transport, TransportStatus, Outcome, Options, Session, Server, Effect, new_transport, connect,
  send, complete, socket_closed, close, opened, error, timed_out, unset,
}
use webtransport_gos.Transport.Queue.{IsSound}
use webtransport_gos.Transport.Steps.{Reach, Reach-IsSound, start, step, connects, sends, completes}
use webtransport_gos.Transport.Rounds.{attempts}
use webtransport_gos.Transport.Retry.{GaveUp, connect_gives_up, connect_after_giving_up}
use webtransport_gos.Transport.Opening.{IsOpened, connect_opens}
use webtransport_gos.Transport.Traces.{Action, to_send, to_connect, to_complete, to_lose, run}
use mathlib.Core.List.{Sublist}
use webtransport_gos.Transport.Fifo.{run_in_order}
use webtransport_gos.Transport.Closing.{close_while_reconnecting, close_without_socket}

abbrev options : Options
options = record {
  retry_count = 2;
  queue_max = 1;
  interval = 0;
  connect_on_close = true;
  refresh_queue_on_close = true;
}

abbrev session : Session
session = record { proxys = 8 ∷ []; servers = 7 ∷ 8 ∷ []; tried = 1 }

abbrev fresh : Transport ℕ
fresh = record {
  status = unset;
  queue = [];
  is_reconnect = false;
  retry_index = 0;
  socket = none;
  server = none;
  proxys = [];
  next_start_timer = false;
}

abbrev connected : Transport ℕ
connected = record fresh { status = opened; socket = some 1 }

-- Two messages are queued, the older one is dropped, and the first socket opens.
abbrev after_send : Transport ℕ
after_send = (send options 4 (send options 3 (connect 7 (8 ∷ []) (new_transport {D = ℕ})).0).0).0

abbrev reached : Reach options (complete options session 1 7 opened after_send).0
reached =
    step (step (step (step start (connects 7 (8 ∷ []) refl)) (sends 3 refl)) (sends 4 refl))
      (completes session 1 7 opened refl)

Reach-IsSound_example : IsSound options (complete options session 1 7 opened after_send).0
Reach-IsSound_example = Reach-IsSound reached

abbrev failures : List TransportStatus
failures = error ∷ timed_out ∷ error ∷ timed_out ∷ []

connect_gives_up_example :
    GaveUp options
      (7 ∷ 8 ∷ 7 ∷ 8 ∷ [])
      failures
      (attempts options 1 failures (connect 7 (8 ∷ []) fresh))
connect_gives_up_example =
    connect_gives_up failures options 1 7 (8 ∷ []) fresh refl (refl, (refl, (refl, (refl, tt))))
      refl

connect_after_giving_up_example :
    let t₁ = (attempts options 1 failures (connect 7 (8 ∷ []) fresh)).1.0 in
    GaveUp options (9 ∷ []) (error ∷ []) (attempts options 5 (error ∷ []) (connect 9 [] t₁))
connect_after_giving_up_example =
    connect_after_giving_up failures (error ∷ []) options 1 5 7 9 (8 ∷ []) [] fresh refl
      (refl, (refl, (refl, (refl, tt)))) refl refl (refl, tt) refl

close_while_reconnecting_example :
    close 9 options (send options 3 (socket_closed options session 1 7 connected).0).0 ≡ none
close_while_reconnecting_example =
    close_while_reconnecting 9 options session 1 7 3 connected refl refl refl refl

close_without_socket_example :
    (t' : Transport ℕ) × (out : List (Effect ℕ)) × (close 9 options fresh ≡ some (t', out))
    × (t'.next_start_timer ≡ false)
    × ((server : Server) (proxys : List Server)
        → connect server proxys t' ≡ (record t' { server = some server; proxys = proxys }, []))
close_without_socket_example = close_without_socket 9 options fresh refl

abbrev waiting : Transport ℕ
waiting = record fresh { queue = 5 ∷ 6 ∷ [] }

-- The proxy opens in the second round, on the fourth socket.
connect_opens_example :
    (winner : Server) × (get_elem? (7 ∷ 8 ∷ 7 ∷ 8 ∷ []) 3 ≡ some winner)
    × IsOpened options
        (7 ∷ 8 ∷ 7 ∷ 8 ∷ [])
        winner
        (1 + 3)
        waiting
        (attempts options 1 (error ∷ timed_out ∷ error ∷ opened ∷ []) (connect 7 (8 ∷ []) waiting))
connect_opens_example =
    connect_opens (error ∷ timed_out ∷ error ∷ []) options 1 7 (8 ∷ []) waiting refl
      (refl, (refl, (refl, tt))) (omega arith)

-- Two messages wait for the socket, of which the queue drops the first, the third goes out at once, and
-- the fourth waits for the next socket.
abbrev actions : List (Action ℕ)
actions =
    to_send 3
    ∷ to_connect 7 (8 ∷ [])
    ∷ to_send 4
    ∷ to_complete session 1 7 opened
    ∷ to_send 5
    ∷ to_lose session 1 7
    ∷ to_send 6
    ∷ []

abbrev result : Outcome ℕ
result = elim (run options actions new_transport) [ none ↦ (new_transport, []) | some r ↦ r ]

run_ends : run options actions new_transport ≡ some (result.0, result.1)
unfolding run new_transport
run_ends = refl

run_in_order_example :
    Sublist {A = ℕ} (4 ∷ 5 ∷ 6 ∷ []) (3 ∷ 4 ∷ 5 ∷ 6 ∷ [])
    × (3 + 1 ≡ 4)
    × ((before : List ℕ) × (3 ∷ 4 ∷ 5 ∷ 6 ∷ [] ≡ before ++ 6 ∷ []))
unfolding new_transport run send connect complete socket_closed
run_in_order_example = run_in_order options actions result.0 result.1 run_ends
