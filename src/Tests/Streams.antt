-- ===== src/Tests/Streams.antt =====
-- Two messages over two streams, the second of which ends after the first message.
use webtransport_gos.Prelude.{
  ℕ, zero, suc, ◌≤◌, ◌≡◌, refl, true, some, List, [], ◌∷◌, arith, map, take,
}
use webtransport_gos.Prelude.Int.{pos}
use webtransport_gos.Js.Exn.{ok}
use webtransport_gos.Js.Bytes.{Bytes}
use webtransport_gos.Avrage
use webtransport_gos.NetString.{Frame}
use webtransport_gos.Session.{Options, Session, default_options}
use webtransport_gos.Session.Receive.{message_of}
use webtransport_gos.Session.Dedup.{Arrival, handle_all, frames}
use webtransport_gos.Session.Order.{Distinct, Arrives, silent, arrive, advance, handle_all-in_order}

abbrev pub options : Options
options = record default_options { enable_command = true; stream_count = 2 }

abbrev pub session : Session
session = record {
  text_command_pointer = 20;
  command_map = [];
  command_queue = [];
  ping_start_timestamp = [];
  rtt = Avrage.new_avrage 5;
  writers = 2;
  net_strings = 2;
  current_write_streams = pos 1;
  has_decoder = true;
  has_encoder = true;
}

abbrev pub no_float : Bytes → ℕ
no_float xs = 0

abbrev message : ℕ → Frame
message cmd = record { payload = some (104 ∷ []); serialized = []; cmd = some cmd }

abbrev fs : List Frame
fs = message 21 ∷ message 22 ∷ []

abbrev arrival : ℕ → ℕ → Arrival
arrival index cmd = record { clock = λ k. 9; index = index; frame = message cmd }

abbrev arrivals : List Arrival
arrivals = arrival 0 21 ∷ arrival 1 21 ∷ arrival 0 22 ∷ []

abbrev pub end : ℕ → ℕ
end = advance no_float options 0 (advance no_float options 1 (advance no_float options 0 (λ i. 0)))

fs-Distinct : Distinct no_float options fs
fs-Distinct zero zero f g a b e = refl
fs-Distinct zero (suc zero) f g a b e = ground arith
fs-Distinct (suc zero) zero f g a b e = ground arith
fs-Distinct (suc zero) (suc zero) f g a b e = refl
fs-Distinct zero (suc (suc j)) f g a b e = cc
fs-Distinct (suc zero) (suc (suc j)) f g a b e = cc
fs-Distinct (suc (suc i)) j f g a b e = cc

arrivals-Arrives : Arrives no_float options fs (λ i. 0) (frames no_float options arrivals) end
arrivals-Arrives = arrive 0 refl (arrive 1 refl (arrive 0 refl silent))

handle_all-in_order_example :
    (n : ℕ) × (s' : Session) × (handle_all no_float options arrivals session
      ≡ ok (s', map (message_of options session) (take n fs)))
    × ((i : ℕ) → end i ≤ n)
handle_all-in_order_example =
    handle_all-in_order no_float options fs end arrivals 5 session (omega arith) refl refl
      fs-Distinct refl arrivals-Arrives
      (
        λ k. (omega arith, omega arith),
        (λ k. (omega arith, omega arith), (λ k. (omega arith, omega arith), refl)),
      )
