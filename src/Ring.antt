-- ===== src/Ring.antt =====
-- example/bjy-common/lib/helper/RingBuffer.js: the circular byte buffer behind NetString. A method
-- that changes `this` returns the new record; one that may throw returns a `Result`. The typed array
-- `this.data` is `bytes`; `this.constructorFunction` is Uint8Array, the only one the sources pass.
-- The children prove what the methods do to the bytes that the buffer holds.
pub mod Bounds
pub mod Slots
pub mod Contents
pub mod Consume
pub mod Write
pub mod Range
use webtransport_gos.Prelude.{
  ℕ, ◌+◌, ◌-◌, Option, none, some, ltb, leb, ◌==◌, if◌then◌else◌, length, get_elem?,
}
use webtransport_gos.Prelude.Int.{ℤ, pos, negsuc, ◌+ℤ◌, ◌-ℤ◌, leb_ℤ, ltb_ℤ}
use webtransport_gos.Js.Exn.{Result, ok, err, ◌>>=◌, range_error}
use webtransport_gos.Js.Bytes.{Bytes, subarray, set_bytes, zeros}

-- `pos`, the count of bytes read so far, is lowered by `back` and may fall below 0.
pub record Ring : Type 0 where
  pub bytes : Bytes
  pub valid : ℕ
  pub tail : ℕ
  pub len : ℕ
  pub at : ℤ
  pub size : ℕ

-- `constructor(size, Uint8Array)`
unfoldable pub new_ring : ℕ → Ring
new_ring size = record { bytes = zeros size; valid = 0; tail = 0; len = 0; at = pos 0; size = size }

-- The first `if` of `write`: copy `xs` in at the tail, in two parts if it runs over the end.
-- (`size - tail` is not negative: `Bounds.IsValid`.)
unfoldable pub store : Ring → Bytes → Result Ring
store r xs =
    if ltb r.size (r.tail + length xs)
    then (do
      let len1 = r.size - r.tail
      let len2 = length xs - len1
      first ← set_bytes r.bytes (subarray xs 0 len1) r.tail
      both ← set_bytes first (subarray xs len1 (length xs)) 0
      ok (record r { bytes = both; tail = len2 }))
    else (do
      all ← set_bytes r.bytes xs r.tail
      ok (record r { bytes = all; tail = r.tail + length xs }))

-- The second `if` of `write`: `n` new bytes push the oldest ones out when the buffer overflows.
unfoldable pub account : Ring → ℕ → Ring
account r n =
    let move_len = r.len + n - r.size in
    if ltb r.size (r.len + n)
    then (if ltb r.size (r.valid + move_len)
        then record r { valid = move_len - (r.size - r.valid); len = r.size }
        else record r { valid = r.valid + move_len; len = r.size })
    else record r { len = r.len + n }

unfoldable pub write : Ring → Bytes → Result Ring
unfolding store account
write r xs =
    if ltb r.size (length xs) then ok r else (do r' ← store r xs; ok (account r' (length xs)))

-- `read`, after `length` has been cut down to `this.length`.
unfoldable pub read_within : Ring → ℕ → Result (Option Bytes × Ring)
read_within r n =
    let fresh = zeros n in
    let done = record r { len = r.len - n; at = r.at +ℤ pos n } in
    if ltb r.size (r.valid + n)
    then (do
      let len1 = r.size - r.valid
      let len2 = n - len1
      first ← set_bytes fresh (subarray r.bytes r.valid (r.valid + len1)) 0
      both ← set_bytes first (subarray r.bytes 0 len2) len1
      ok (some both, record done { valid = len2 }))
    else (do
      all ← set_bytes fresh (subarray r.bytes r.valid (r.valid + n)) 0
      ok (some all, record done { valid = r.valid + n }))

-- `read(length)`; the typed array's constructor throws on a negative length.
unfoldable pub read : Ring → ℤ → Result (Option Bytes × Ring)
unfolding read_within
read r (pos n) =
    if r.len == 0 then ok (none, r) else read_within r (if ltb r.len n then r.len else n)
read r (negsuc k) = if r.len == 0 then ok (none, r) else err range_error

unfoldable pub read_by_range : Ring → ℕ → ℕ → Result Bytes
read_by_range r start end =
    if leb start end then set_bytes (zeros (end - start)) (subarray r.bytes start end) 0 else (do
      first ← set_bytes (zeros (r.size - start + end)) (subarray r.bytes start (length r.bytes)) 0
      set_bytes first (subarray r.bytes 0 end) (r.size - start))

-- `getCurrentPointer`
unfoldable pub get_current_pointer : Ring → ℕ
get_current_pointer r = r.valid

unfoldable pub read_byte : Ring → Option ℕ × Ring
read_byte r =
    let done = record r { len = r.len - 1; at = r.at +ℤ pos 1 } in
    if ltb 0 r.len
    then (if leb r.size r.valid
        then (get_elem? r.bytes 0, record done { valid = 1 })
        else (get_elem? r.bytes r.valid, record done { valid = r.valid + 1 }))
    else (none, r)

-- `this.data[i]`; `undefined` is `none`.
abbrev element : Bytes → ℤ → Option ℕ
element xs (pos i) = get_elem? xs i
element xs (negsuc k) = none

-- `getByteByIndex(index)`; nothing stops a caller from asking for a negative index.
unfoldable pub get_byte_by_index : Ring → ℤ → Option ℕ
get_byte_by_index r index =
    if ltb_ℤ index (pos r.len)
    then (if leb_ℤ (pos r.size) (pos r.valid +ℤ index)
        then element r.bytes (index -ℤ (pos r.size -ℤ pos r.valid))
        else element r.bytes (pos r.valid +ℤ index))
    else none

unfoldable pub get_size : Ring → ℕ
get_size r = r.size

unfoldable pub get_length : Ring → ℕ
get_length r = r.len

unfoldable pub get_pos : Ring → ℤ
get_pos r = r.at

unfoldable pub get_remaining_size : Ring → ℕ
get_remaining_size r = r.size - r.len

unfoldable pub back : Ring → ℕ → Ring
back r n =
    if ltb (r.size - r.len) n
    then record r { at = r.at -ℤ pos (r.size - r.len); valid = r.tail; len = r.size }
    else record r {
      valid = if ltb r.valid n then r.size - (n - r.valid) else r.valid - n;
      len = r.len + n;
      at = r.at -ℤ pos n;
    }

unfoldable pub skip : Ring → ℕ → Ring
skip r n =
    if ltb r.len n
    then record r { valid = 0; tail = 0; at = r.at +ℤ pos r.len; len = 0 }
    else record r {
      valid = if ltb r.size (r.valid + n) then n - (r.size - r.valid) else r.valid + n;
      len = r.len - n;
      at = r.at +ℤ pos n;
    }

unfoldable pub clear : Ring → Ring
clear r = record r { valid = 0; tail = 0; len = 0; at = pos 0 }
