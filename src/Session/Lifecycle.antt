-- ===== src/Session/Lifecycle.antt =====
-- `connect`, `handleRead`, `close` and the failures of `send` of helper/WebTransportWS.js in time:
-- the awaits of `connect`, the callbacks of its promises, the read loops that it starts, and
-- `close` at any point between. What a loop reads is in Reading.antt, and the arguments of
-- `WebTransport` and the fields in Teardown.antt.
pub mod Handlers
pub mod Late
use webtransport_gos.Prelude.{
  ℕ, zero, suc, ◌+◌, ◌≡◌, refl, Bool, true, false, not, ◌||◌, ◌&&◌, List, [], ◌∷◌, ◌++◌, ltb, ◌==◌,
  if◌then◌else◌, length, arith,
}
use webtransport_gos.Util.Array.{up}

-- The options that are read; `stream_mode` says that the mode is `stream`.
pub record Options : Type 0 where
  pub stream_mode : Bool
  pub use_datagrams : Bool
  pub stream_count : ℕ
  pub enable_ping : Bool

-- Where `connect` stands: at `transport.ready`, at `createBidirectionalStream` for the i-th stream, at
-- `writer.ready` of all writers, behind its end, or rejected.
pub data Phase : Type 0 where
  waits_ready : Phase
  waits_stream : ℕ → Phase
  waits_writers : Phase
  connected : Phase
  rejected : Phase

-- `closed` says that `close` has set the fields to null. `readers` is the length of the three arrays,
-- `reading` the loops that run, `open_due` that the callback of `nextTick` is due, and `transport_over`
-- that `transport.closed` is settled.
pub record Life : Type 0 where
  pub phase : Phase
  pub closed : Bool
  pub readers : ℕ
  pub reading : List ℕ
  pub open_due : Bool
  pub transport_over : Bool

-- What `onclose` is given: the error of `read`, `{}`, the error of the transport, or that of `send`.
pub data Reason : Type 0 where
  stream_closed : Reason
  gracefully : Reason
  failed : Reason
  send_failed : Reason

pub data Effect : Type 0 where
  starts_reading : ℕ → Effect
  calls_onopen : Effect
  calls_onclose : Reason → Effect
  starts_ping : Effect
  closes_transport : Effect

abbrev pub Outcome : Type 0
Outcome = Life × List Effect

-- The object behind the constructor, whose `connect` has made the transport.
unfoldable pub new_life : Life
new_life = record {
  phase = waits_ready;
  closed = false;
  readers = 0;
  reading = [];
  open_due = false;
  transport_over = false;
}

-- The head of the loop over the streams. What `close` set to null makes its body throw.
unfoldable pub next_stream : Options → ℕ → Life → Life
next_stream o i l =
    if l.closed
    then record l { phase = rejected }
    else record l { phase = if ltb i o.stream_count then waits_stream i else waits_writers }

-- `await this.transport.ready`
unfoldable pub on_ready : Options → Life → Life
unfolding next_stream
on_ready o l =
    if l.closed
    then record l { phase = rejected }
    else if o.use_datagrams
    then record l { readers = l.readers + 1; phase = waits_writers }
    else next_stream o 0 l

-- `await this.transport.createBidirectionalStream()`
unfoldable pub on_stream : Options → ℕ → Life → Life
unfolding next_stream
on_stream o i l =
    if l.closed
    then record l { phase = rejected }
    else next_stream o (i + 1) (record l { readers = l.readers + 1 })

abbrev pub start_all : List ℕ → List Effect
start_all [] = []
start_all (i ∷ is) = starts_reading i ∷ start_all is

-- `handleRead()`; of null `array.each` does nothing.
unfoldable pub handle_read : Life → Outcome
handle_read l =
    let indices = if l.closed then [] else up 0 l.readers in
    (record l { reading = indices }, start_all indices)

-- What follows `await Promise.all(…)`.
unfoldable pub on_writers : Life → Outcome
unfolding handle_read
on_writers l = handle_read (record l { phase = connected; open_due = true })

-- The callback of `nextTick`; `close` has set the ping timer to null.
unfoldable pub on_tick : Options → Life → Outcome
on_tick o l = (
  record l { open_due = false },
  calls_onopen ∷ (if o.enable_ping && not l.closed then starts_ping ∷ [] else []),
)

abbrev pub without : ℕ → List ℕ → List ℕ
without i [] = []
without i (j ∷ js) = if i == j then js else j ∷ without i js

-- The end of `read`, for the i-th reader.
unfoldable pub on_read_end : ℕ → Life → Outcome
on_read_end i l = (record l { reading = without i l.reading }, calls_onclose stream_closed ∷ [])

-- `transport.closed`, fulfilled or rejected.
unfoldable pub on_transport_closed : Bool → Life → Outcome
on_transport_closed fulfilled l = (
  record l { transport_over = true },
  calls_onclose (if fulfilled then gracefully else failed) ∷ [],
)

-- `send(data)`: `throws` says that `encode` or a writer throws; once `close` has set the encoder to null,
-- every call does. (The command that it takes and what it writes are in Session.antt.)
unfoldable pub on_send : Options → Bool → Life → Outcome
on_send o throws l =
    (l, if not o.stream_mode && (l.closed || throws) then calls_onclose send_failed ∷ [] else [])

-- `close()`
unfoldable pub close : Life → Outcome
close l = (record l { closed = true }, if l.closed then [] else closes_transport ∷ [])
