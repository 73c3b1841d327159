-- ===== src/NetString.antt =====
-- example/bjy-common/lib/helper/NetString.js: frames `<length>:<command> <payload>,` over a circular
-- buffer. The children prove what `decode` reads off the buffer.
pub mod Decimal
pub mod Digits
pub mod Grammar
pub mod Loops
pub mod Payload
pub mod Round
pub mod Encode
pub mod RoundTrip
pub mod Prefix
pub mod Refusal
pub mod Stream
pub mod Spelling
use webtransport_gos.Prelude.{
  ℕ, zero, suc, ◌+◌, ◌-◌, ◌*◌, Bool, true, false, ◌&&◌, not, Option, none, some, List, [], ◌∷◌, ltb,
  leb, ◌==◌, if◌then◌else◌, length,
}
use webtransport_gos.Prelude.Int.{ℤ, pos, ◌-ℤ◌}
use webtransport_gos.Js.Exn.{
  Result, ok, err, ◌>>=◌, find_leading_zeros, must_start_with_a_number, more_than_9_digits,
  miss_the_colon, miss_the_space, miss_the_comma,
}
use webtransport_gos.Js.Bytes.{Bytes}
use webtransport_gos.Ring
use webtransport_gos.Ring.{Ring}

-- The constants of `Token`.
abbrev pub colon : ℕ
colon = 58

abbrev pub comma : ℕ
comma = 44

abbrev pub space : ℕ
space = 32

-- What is handed to `onDecodeText`; `payload` is what `RingBuffer.read` returned, and `cmd` is
-- `undefined` when the option enableCommand is off.
pub record Frame : Type 0 where
  pub payload : Option Bytes
  pub serialized : Bytes
  pub cmd : Option ℕ

-- `isDigit` of a byte or of `undefined`.
abbrev pub is_digit : Option ℕ → Bool
is_digit none = false
is_digit (some b) = leb 0x30 b && leb b 0x39

-- `=== token`, where the left side may be `undefined`.
abbrev pub is_byte : ℕ → Option ℕ → Bool
is_byte token none = false
is_byte token (some b) = b == token

-- `readByte() - 0x30`, made only of a byte that `isDigit` has let through.
abbrev pub digit_value : Option ℕ → ℕ
digit_value none = 0
digit_value (some b) = b - 0x30

-- The loop over the digits of the length, with `len` and `i`. A round takes a byte off, so
-- `getLength()` rounds are enough.
unfoldable pub length_loop : ℕ → Ring → ℕ → ℕ → Result (ℕ × ℕ × Ring)
length_loop zero r len i = ok (len, i, r)
length_loop (suc fuel) r len i =
    let (b, r') = Ring.read_byte r in
    let rest = length_loop fuel r' (len * 10 + digit_value b) (i + 1) in
    if not (Ring.get_length r == 0) && is_digit (Ring.get_byte_by_index r (pos 0))
    then (if ltb 9 i then err more_than_9_digits else rest)
    else ok (len, i, r)

-- The loop over the digits of the command, with `cmd` and `payloadLen`, which may fall below 0.
unfoldable pub command_loop : ℕ → Ring → ℕ → ℤ → ℕ × ℤ × Ring
command_loop zero r cmd payload_len = (cmd, payload_len, r)
command_loop (suc fuel) r cmd payload_len =
    let (b, r') = Ring.read_byte r in
    let rest = command_loop fuel r' (cmd * 10 + digit_value b) (payload_len -ℤ pos 1) in
    if not (Ring.get_length r == 0) && is_digit (Ring.get_byte_by_index r (pos 0))
    then rest
    else (cmd, payload_len, r)

-- `if (this.options.enableCommand)`: the command, the length of the payload behind it, the buffer.
unfoldable pub read_command : Bool → ℕ → Ring → Result (Option ℕ × ℤ × Ring)
unfolding command_loop
read_command false len r = ok (none, pos len, r)
read_command true len r =
    let (cmd, payload_len, r') = command_loop (Ring.get_length r) r 0 (pos len) in
    let (b, r'') = Ring.read_byte r' in
    if is_byte space b then ok (some cmd, payload_len -ℤ pos 1, r'') else err miss_the_space

-- One call of `decode()`: it waits for more bytes, or delivers a frame and calls itself.
pub data Step : Type 0 where
  wait : Ring → Step
  deliver : Frame → Ring → Step

-- From the check of the comma to the call of `onDecodeText`.
unfoldable pub read_payload : ℕ → Option ℕ → ℤ → Ring → Result Step
read_payload start cmd payload_len r =
    if is_byte comma (Ring.get_byte_by_index r payload_len)
    then (do
      (payload, r') ← Ring.read r payload_len
      let r'' = Ring.skip r' 1
      serialized ← Ring.read_by_range r'' start (Ring.get_current_pointer r'')
      ok (deliver (record { payload = payload; serialized = serialized; cmd = cmd }) r''))
    else err miss_the_comma

-- From the colon on: `i` bytes of the length were read.
unfoldable pub read_body : Bool → ℕ → ℕ → ℕ → Ring → Result Step
unfolding read_command read_payload
read_body enable_command start len i r =
    if Ring.get_length r == 0
    then ok (wait (Ring.back r i))
    else (let (b, r') = Ring.read_byte r in
        if not (is_byte colon b)
        then err miss_the_colon
        else if leb (len + 1) (Ring.get_length r')
        then (do
          (cmd, payload_len, r'') ← read_command enable_command len r'
          read_payload start cmd payload_len r'')
        else ok (wait (Ring.back r' (i + 1))))

unfoldable pub round : Bool → Ring → Result Step
unfolding length_loop read_body
round enable_command r =
    let first = Ring.get_byte_by_index r (pos 0) in
    if leb 3 (Ring.get_length r)
    then (if is_byte 0x30 first && is_digit (Ring.get_byte_by_index r (pos 1))
        then err find_leading_zeros
        else if not (is_digit first)
        then err must_start_with_a_number
        else (do
          (len, i, r') ← length_loop (Ring.get_length r) r 0 0
          read_body enable_command (Ring.get_current_pointer r) len i r'))
    else ok (wait r)

-- The calls of `onDecodeText`, in order, and how the call of `decode` ends: it returns, with the
-- buffer as it is then, or it throws.
pub record Decoded : Type 0 where
  pub frames : List Frame
  pub outcome : Result Ring

-- `decode()`, calling itself behind each frame. A frame takes bytes off, so more rounds than there
-- are bytes are never made.
unfoldable pub drain : ℕ → Bool → Ring → Decoded
drain zero enable_command r = record { frames = []; outcome = ok r }
drain (suc fuel) enable_command r = elim (round enable_command r) [
  | err e ↦ record { frames = []; outcome = err e }
  | ok (wait r') ↦ record { frames = []; outcome = ok r' }
  | ok (deliver f r') ↦
      let rest = drain fuel enable_command r' in
      record { frames = f ∷ rest.frames; outcome = rest.outcome }
]

-- `decode(buffer)`, and `decode()` for `none`.
unfoldable pub decode : Bool → Ring → Option Bytes → Decoded
unfolding drain
decode enable_command r none = drain (suc (Ring.get_length r)) enable_command r
decode enable_command r (some buffer) = elim (Ring.write r buffer) [
  | err e ↦ record { frames = []; outcome = err e }
  | ok r' ↦ drain (suc (Ring.get_length r')) enable_command r'
]
