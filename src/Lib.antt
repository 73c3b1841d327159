-- ===== src/Lib.antt =====
-- The JavaScript client of a WebTransport signalling library: frames over byte streams, a message
-- socket made of several streams, and a connection with retries. Paths are from the repository's
-- root; the client is under example/bjy-common/lib, written lib/ here.
--
-- The parts and how they interact. The browser's reader of a stream yields chunks, which
-- lib/helper/WebTransportWS.js gives to a NetString of that stream (lib/helper/NetString.js). It
-- writes them into a circular buffer (lib/helper/RingBuffer.js), takes frames off, and calls
-- `onDecodeMessage` for each, which drops the copies that come over several streams, measures pings
-- (lib/helper/Avrage.js) and hands messages to the owner. `send` goes the other way: it encodes a
-- message with the next command and writes it to the streams. lib/helper/Transport.js stands beside
-- this: it opens sockets to a list of servers, retries, queues, reconnects and closes.
--
-- Which file models which part:
--   Ring.antt       RingBuffer: a record of its fields; one function per method, with its name.
--   NetString.antt  NetString.decode, in the pieces that its `while` loops and branches are;
--                   NetString/Encode.antt has `encode`, and NetString/Decimal.antt what a number is
--                   in a template literal. NetString/Grammar.antt is the specification: the frame at
--                   the front of a byte string.
--   Reader.antt     the loop of WebTransportWS.read.
--   Session.antt    the object of WebTransportWS and what it sends, with lib/function/restrain.js;
--                   Session/Receive.antt has `onDecodeMessage` and the pings,
--                   Session/Reading.antt the whole of `read`, Session/Teardown.antt the
--                   certificate hashes of `connect` and `close`, and Session/Lifecycle.antt the
--                   awaits and callbacks of `connect`, with `close` at any time between.
--                   Session/Asking.antt has what `connect` gives to the browser, and
--                   Session/Traces.antt the runs of methods and callbacks before `close`, in any order.
--   Avrage.antt     Avrage.
--   Timer.antt      lib/helper/Timer.js, which repeats the pings, with the timeouts of the runtime.
--   Transport.antt  Transport: a function for each method and for each callback that it registers,
--                   which is given the variables of its closure. Transport/Traces.antt has the runs
--                   of these, in any order, and Transport/Rounds.antt the attempts of one `connect`,
--                   each completed with a result for the server and the socket that it was made with.
--   Functions.antt  lib/function: how functions are called, which timer `nextTick` is, and small
--                   tests and conversions.
--   Util.antt       lib/util, a module for each file: Util/Base64.antt, Util/Array.antt,
--                   Util/String.antt, Util/Keypath.antt, Util/Logger.antt and Util/Object.antt, with
--                   the tests of lib/util/is.js. Util/Value.antt has the values of JavaScript that
--                   these tell apart, and Util/Bits.antt the masks and shifts as arithmetic.
--   Js.antt         exceptions as values, and typed arrays of bytes.
--   Prelude.antt    numbers, tests, lists and integers. Tests.antt has concrete runs.
--
-- State and effects. A method returns the new object, and where it acts on the outside the list of
-- these acts in order (sockets, timers, writers, the owner's handlers). A throw is a value; the object
-- as it is after a throw in `decode` is not modelled, since the only caller drops it.
--
-- Text and values. In lib/util text is the list of its UTF-16 code units. The values of
-- lib/util/object.js are trees of plain data whose fields have the order of insertion, so that nothing
-- is shared between two objects; the callbacks of a walk are given what they change as a state.
--
-- Bounds and fuel. Numbers are exact: lengths have at most ten digits by the check in `decode`, and a
-- command is exact in the source below 2^53. The loops of `decode` run on as much fuel as there are
-- bytes in the buffer, which each round lowers; running out of it is never reached, as the theorems on
-- whole runs show, since they say what is delivered. The loop of `Transport.close` and `extend` of
-- lib/util/object.js run on any fuel, and `none` means that they did not end. The loop that pads base64
-- text has three rounds, the most that bring a length to a multiple of four, and the loop of
-- `utf8Decode` as many as there are characters; Util/Base64/Fuel.antt shows that this is enough.
--
-- Not modelled: the browser's streams, sockets and timers themselves (their callbacks are functions
-- that may come in any order), JSON, the text codec (a text message is the bytes given to it), the
-- floating-point view of bytes (a parameter), rounding of the average, the calls of the logger, a
-- handler of the owner that throws or calls back into the object, handlers that are not set, the methods
-- of a session on fields that `close` has set to null, but for `send`, what JSON.parse throws and binary
-- messages in Transport, the caches of lib/util/keypath.js and lib/util/string.js, upper and lower case,
-- array-likes, the clock, and the Go server. How the runtime reads numbers, encodes URIs, matches regular
-- expressions and tells white space are parameters of the functions of lib/util that ask it.
pub mod Prelude
pub mod Js
pub mod Functions
pub mod Ring
pub mod NetString
pub mod Reader
pub mod Transport
pub mod Avrage
pub mod Timer
pub mod Session
pub mod Util
pub mod Tests
