-- ===== src/Session.antt =====
-- example/bjy-common/lib/helper/WebTransportWS.js: the object that makes a message socket of the
-- streams of a WebTransport. Its reader of one stream is in Reader.antt. A handler returns the new
-- object and what it does to the outside, in order. `getTimestamp` is a clock whose readings a handler
-- takes in order: `clock 0`, `clock 1`, ... A text message is the bytes that the `textDecoder` is given.
pub mod Commands
pub mod Receive
pub mod Kept
pub mod Dedup
pub mod Expiry
pub mod Order
pub mod EndToEnd
pub mod Delivery
pub mod Reading
pub mod Teardown
pub mod Lifecycle
pub mod Ping
pub mod Traces
pub mod Rtt
pub mod WellFormed
pub mod Choice
pub mod Pings
pub mod Asking
use webtransport_gos.Prelude.{
  ℕ, zero, suc, ◌+◌, ◌-◌, ◌%◌, Bool, true, false, ◌&&◌, ◌||◌, not, Option, none, some, List, [],
  ◌∷◌, ◌++◌, ltb, leb, ◌==◌, if◌then◌else◌, length, take,
}
use webtransport_gos.Prelude.Int.{ℤ, pos, negsuc, sub_ℕ, ltb_ℤ}
use webtransport_gos.Js.Exn.{Result, ok, err, type_error, range_error}
use webtransport_gos.Js.Bytes.{Bytes}
use webtransport_gos.Avrage
use webtransport_gos.Avrage.{Avrage}
use webtransport_gos.NetString.{Frame}
use webtransport_gos.NetString.Encode.{encode}

pub data Mode : Type 0 where
  text binary stream : Mode

abbrev pub is_text : Mode → Bool
is_text text = true
is_text _ = false

abbrev pub is_stream : Mode → Bool
is_stream stream = true
is_stream _ = false

-- The options that the methods read.
pub record Options : Type 0 where
  pub mode : Mode
  pub enable_command : Bool
  pub binary_command : ℕ
  pub ping_command : ℕ
  pub server_ping_command : ℕ
  pub stream_count : ℕ
  pub text_command_start : ℕ
  pub text_command_end : ℕ
  pub command_timeout : ℕ
  pub auto_stream : Bool
  pub enable_ping : Bool

-- `defaultOptions`; the end of the commands is 2³¹ - 1.
abbrev pub default_options : Options
default_options = record {
  mode = text;
  enable_command = false;
  binary_command = 19;
  ping_command = 1;
  server_ping_command = 2;
  stream_count = 1;
  text_command_start = 20;
  text_command_end = 2147483647;
  command_timeout = 30000;
  auto_stream = false;
  enable_ping = false;
}

-- What the constructor does to the options.
unfoldable pub settle_options : Options → Options
settle_options o =
    let single = if is_stream o.mode then record o { stream_count = 1 } else o in
    let commands =
      if ltb 1 single.stream_count then record single { enable_command = true } else single in
    if leb commands.stream_count 1 then record commands { auto_stream = false } else commands

-- An entry of `commandQueue`.
pub record Command : Type 0 where
  pub cmd : ℕ
  pub timestamp : ℕ

-- `commandMap` and `pingStartTimestamp` are the lists of their keys, in the order of insertion;
-- `writers` and `net_strings` are the lengths of these arrays.
pub record Session : Type 0 where
  pub text_command_pointer : ℕ
  pub command_map : List ℕ
  pub command_queue : List Command
  pub ping_start_timestamp : List ℕ
  pub rtt : Avrage
  pub writers : ℕ
  pub net_strings : ℕ
  pub current_write_streams : ℤ
  pub has_decoder : Bool
  pub has_encoder : Bool

-- The object after the constructor, before it is connected.
unfoldable pub new_session : Options → Bool → Bool → Session
new_session o has_decoder has_encoder = record {
  text_command_pointer = o.text_command_start;
  command_map = [];
  command_queue = [];
  ping_start_timestamp = [];
  rtt = Avrage.new_avrage 5;
  writers = 0;
  net_strings = 0;
  current_write_streams = pos 1;
  has_decoder = has_decoder;
  has_encoder = has_encoder;
}

-- `connect` when one stream, or the one for datagrams, is there. Other calls may come between two streams.
unfoldable pub add_stream : Session → Session
add_stream s = record s { writers = s.writers + 1 }

-- `handleRead`: the readers are as many as the writers.
unfoldable pub start_reading : Options → Session → Session
start_reading o s = record s { net_strings = if is_text o.mode then s.writers else s.net_strings }

-- All streams of `connect` and then `handleRead`, with no other call between.
unfoldable pub connected : Bool → Options → Session → Session
connected use_datagrams o s =
    let n = if use_datagrams then 1 else o.stream_count in
    record s {
      writers = s.writers + n;
      net_strings = if is_text o.mode then s.writers + n else s.net_strings;
    }

-- `on_message payload binary`: what is not binary went through the `textDecoder`.
pub data Effect : Type 0 where
  write : ℕ → Bytes → Effect
  on_message : Option Bytes → Bool → Effect
  on_ping : ℤ → Effect
  on_close : Effect
  set_ping_timer : ℕ → Effect
  clear_ping_timer : ℕ → Effect

abbrev pub Outcome : Type 0
Outcome = Session × List Effect

-- `Map` by its keys: `has`, `set`, `delete`.
abbrev pub has_key : List ℕ → ℕ → Bool
has_key [] k = false
has_key (x ∷ xs) k = (x == k) || has_key xs k

abbrev pub add_key : List ℕ → ℕ → List ℕ
add_key xs k = if has_key xs k then xs else xs ++ k ∷ []

abbrev pub delete_key : List ℕ → ℕ → List ℕ
delete_key [] k = []
delete_key (x ∷ xs) k = if x == k then xs else x ∷ delete_key xs k

-- `getTextCommand()`: -1 when there are no commands.
unfoldable pub get_text_command : Options → Session → Session × ℤ
get_text_command o s =
    if not o.enable_command
    then (s, negsuc 0)
    else (let next = s.text_command_pointer + 1 in
        (
          record s {
            text_command_pointer =
                if ltb o.text_command_end next then o.text_command_start else next;
          },
          pos s.text_command_pointer,
        ))

-- function/restrain.js
unfoldable pub restrain : ℤ → ℤ → ℤ → ℤ
restrain value min max = if ltb_ℤ value min then min else if ltb_ℤ max value then max else value

unfoldable pub set_current_write_streams : ℤ → Session → Session
unfolding restrain
set_current_write_streams value s = record s {
  current_write_streams = restrain value (pos 1) (pos s.writers);
}

-- The length of `writers.slice(0, end)`, out of `n` writers.
abbrev pub slice_end : ℕ → ℤ → ℕ
slice_end n (pos k) = if ltb n k then n else k
slice_end n (negsuc k) = n - suc k

-- `writer.write(buffer)` for each of `n` writers, from the i-th on.
abbrev pub write_each : ℕ → ℕ → Bytes → List Effect
write_each i zero buffer = []
write_each i (suc n) buffer = write i buffer ∷ write_each (i + 1) n buffer

-- `send(data)`, for the bytes that `textEncoder` makes of the message. What is thrown is caught and
-- goes to `onclose`; the command is taken before `encode` runs.
unfoldable pub send : Options → Bytes → Session → Outcome
send o message s =
    let (s', cmd) = get_text_command o s in
    let n = if o.auto_stream then slice_end s.writers s.current_write_streams else s.writers in
    if is_stream o.mode
    then (s, [])
    else if not s.has_encoder
    then (s, on_close ∷ [])
    else elim (encode message (some cmd)) [
      | ok buffer ↦ (s', write_each 0 n buffer)
      | err e ↦ (s', on_close ∷ [])
    ]

-- `sendBinary(buffer)`
unfoldable pub send_binary : Options → Bytes → Session → Result Outcome
send_binary o buffer s =
    if is_text o.mode && ltb 0 s.writers
    then elim (encode buffer (some (pos o.binary_command))) [
      | ok framed ↦ ok (s, write_each 0 s.writers framed)
      | err e ↦ err e
    ]
    else ok (s, write_each 0 s.writers buffer)
