-- ===== src/Tests/Sessions.antt =====
-- Concrete runs of a session over two streams.
use webtransport_gos.Prelude.{
  zero, suc, ◌+◌, ◌*◌, ◌/◌, ◌%◌, ◌^◌, ◌<◌, All, ℕ, ◌≡◌, refl, true, some, List, [], ◌∷◌, arith, map,
  length,
}
use native.Mathlib.Nat.{pow-suc}
use webtransport_gos.Prelude.Int.{pos, sub_ℕ, ◌≤ℤ◌}
use webtransport_gos.Js.Exn.{ok}
use webtransport_gos.Js.Bytes.{Bytes}
use webtransport_gos.Avrage
use webtransport_gos.Util.Base64.Groups.{IsByte}
use webtransport_gos.NetString.{Frame}
use webtransport_gos.NetString.Encode.{netstring}
use webtransport_gos.Session.{
  Options, Session, default_options, set_current_write_streams, send, write, set_ping_timer,
  clear_ping_timer, on_ping,
}
use webtransport_gos.Session.Receive.{message_of, on_decode_message, ping}
use webtransport_gos.Session.Commands.{
  IsRange, commands_differ, current_write_streams_bounds, written_to, send_auto_stream,
}
use webtransport_gos.Session.Dedup.{Arrival, handle_all, handle_all_lem, binary_only_once}
use webtransport_gos.Session.Expiry.{on_decode_message_forgets}
use webtransport_gos.Session.Ping.{IsFloatView, ping_round_trip}

abbrev pub options : Options
options = record default_options {
  enable_command = true;
  stream_count = 2;
  auto_stream = true;
  enable_ping = true;
}

-- The last command but one is next; command 20 was received at 5.
abbrev pub session : Session
session = record {
  text_command_pointer = 2147483646;
  command_map = 20 ∷ [];
  command_queue = record { cmd = 20; timestamp = 5 } ∷ [];
  ping_start_timestamp = [];
  rtt = Avrage.new_avrage 5;
  writers = 2;
  net_strings = 2;
  current_write_streams = pos 1;
  has_decoder = true;
  has_encoder = true;
}

session-IsRange : IsRange options session
session-IsRange = (omega arith, omega arith)

commands_differ_example : ◌≡◌ {A = ℕ} 2 2
commands_differ_example =
    commands_differ options 2 2 session refl session-IsRange (omega arith) (omega arith) refl

current_write_streams_bounds_example :
    (pos 1 ≤ℤ (set_current_write_streams (pos 7) session).current_write_streams)
    × ((set_current_write_streams (pos 7) session).current_write_streams ≤ℤ pos 2)
current_write_streams_bounds_example = current_write_streams_bounds (pos 7) session (omega arith)

send_auto_stream_example :
    length
      (written_to 1 (send options (104 ∷ 105 ∷ []) (set_current_write_streams (pos 2) session)).1)
    ≡ 1
send_auto_stream_example =
    send_auto_stream options (104 ∷ 105 ∷ []) (pos 2) session 1 refl refl refl (omega arith)
      (omega arith)

-- A message with a command, and two copies of another one.
abbrev message : ℕ → Frame
message cmd = record { payload = some (104 ∷ []); serialized = []; cmd = some cmd }

abbrev clock : ℕ → ℕ
clock k = 9

abbrev no_float : Bytes → ℕ
no_float xs = 0

abbrev arrivals : List Arrival
arrivals =
    record { clock = clock; index = 0; frame = message 20 }
    ∷ record { clock = clock; index = 0; frame = message 21 }
    ∷ record { clock = clock; index = 1; frame = message 21 }
    ∷ []

abbrev binaries : List Arrival
binaries =
    record { clock = clock; index = 0; frame = message 19 }
    ∷ record { clock = λ k. 9000000; index = 1; frame = message 19 }
    ∷ []

handle_all_lem_example :
    (s' : Session) × (handle_all no_float options arrivals session
      ≡ ok (s', map (message_of options session) (message 21 ∷ [])))
handle_all_lem_example =
    handle_all_lem no_float options arrivals 5 session (omega arith) refl refl (
      λ k. (omega arith, omega arith),
      (λ k. (omega arith, omega arith), (λ k. (omega arith, omega arith), refl)),
    )

-- Commands received at 5 and at 9000, one of which is too old at 10000.
abbrev older : Session
older = record session {
  command_map = 20 ∷ 21 ∷ [];
  command_queue = record { cmd = 20; timestamp = 5 } ∷ record { cmd = 21; timestamp = 9000 } ∷ [];
}

abbrev brief : Options
brief = record options { command_timeout = 5000 }

on_decode_message_forgets_example :
    (s' : Session) × (on_decode_message no_float brief (λ i. 10000) 0 (message 22) older
      ≡ ok (s', message_of brief older (message 22) ∷ []))
    × (s'.command_queue
        ≡ record { cmd = 21; timestamp = 9000 } ∷ record { cmd = 22; timestamp = 10000 } ∷ [])
    × (s'.command_map ≡ 21 ∷ 22 ∷ [])
on_decode_message_forgets_example =
    on_decode_message_forgets no_float brief 10000 0 0 (message 22) older (omega arith) refl refl
      refl refl

abbrev remembered : Session
remembered = record session { command_map = 19 ∷ [] }

binary_only_once_example : handle_all no_float options binaries remembered ≡ ok (remembered, [])
binary_only_once_example =
    binary_only_once no_float options binaries remembered (omega arith) refl refl refl

-- A number in bytes, the lowest first, as a view that stands for that of the runtime.
abbrev low_first : ℕ → ℕ → Bytes
low_first zero n = []
low_first (suc k) n = (n % 256) ∷ low_first k (n / 256)

abbrev view_bytes : ℕ → Bytes
view_bytes n = low_first 8 n

abbrev view_float : Bytes → ℕ
view_float [] = 0
view_float (x ∷ xs) = x + 256 * view_float xs

low_first_are_bytes : (k n : ℕ) → All IsByte (low_first k n)
low_first_are_bytes zero n = tt
low_first_are_bytes (suc k) n = (omega arith, low_first_are_bytes k (n / 256))

view_float-low_first : (k n : ℕ) → n < 256 ^ k → view_float (low_first k n) ≡ n
view_float-low_first zero n h = omega arith
view_float-low_first (suc k) n h =
    let higher = view_float-low_first k (n / 256) (omega (arith, pow-suc 256 k)) in
    omega (arith, higher)

is_view : IsFloatView view_float view_bytes
is_view n small = (low_first_are_bytes 8 n, refl, view_float-low_first 8 n (omega arith))

ping_round_trip_example :
    (s' : Session) × (ping view_bytes options clock session
      ≡ ok (s', set_ping_timer 9 ∷ write 0 (netstring (some 1) (view_bytes 9)) ∷ []))
    × (on_decode_message view_float options
          (λ k. 30)
          0
          (record { payload = some (view_bytes 9); serialized = []; cmd = some 1 })
          s'
        ≡ ok (
          record session { rtt = Avrage.push session.rtt (sub_ℕ 30 9) },
          clear_ping_timer 9 ∷ on_ping (sub_ℕ 30 9) ∷ [],
        ))
ping_round_trip_example =
    ping_round_trip view_float view_bytes options clock (λ k. 30) 0 [] session is_view (omega arith)
      refl (omega arith) refl
