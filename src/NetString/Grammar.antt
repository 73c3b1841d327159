-- ===== src/NetString/Grammar.antt =====
-- The frame at the front of a byte string, with no buffer and no pointers: what one round of
-- `decode` in helper/NetString.js should make of the bytes that it holds.
use webtransport_gos.Prelude.{
  ℕ, ◌+◌, ◌-◌, Bool, true, false, ◌&&◌, not, Option, none, some, [], ◌∷◌, ltb, leb, ◌==◌,
  if◌then◌else◌, length, get_elem?, take,
}
use webtransport_gos.Js.Exn.{
  Error, find_leading_zeros, must_start_with_a_number, more_than_9_digits, miss_the_colon,
  miss_the_space, miss_the_comma,
}
use webtransport_gos.Js.Bytes.{Bytes}
use webtransport_gos.NetString.{colon, comma, space, is_digit, is_byte}
use webtransport_gos.NetString.Digits.{digits, value, after_digits}

-- `got payload cmd n`: a frame of `n` bytes.
pub data Parsed : Type 0 where
  more : Parsed
  bad : Error → Parsed
  got : Bytes → Option ℕ → ℕ → Parsed

-- `len` bytes and a comma; `i` bytes of the frame stand in front.
unfoldable pub parse_payload : Option ℕ → ℕ → ℕ → Bytes → Parsed
parse_payload cmd len i q =
    if is_byte comma (get_elem? q len)
    then got (take len q) cmd (i + len + 1)
    else bad miss_the_comma

-- The space behind the `d` digits of a command. A command longer than the body is an error.
unfoldable pub parse_space : ℕ → ℕ → ℕ → ℕ → Bytes → Parsed
parse_space cmd len d i [] = bad miss_the_space
parse_space cmd len d i (b ∷ q) =
    if b == space
    then (if leb (d + 1) len
        then parse_payload (some cmd) (len - (d + 1)) (i + (d + 1)) q
        else bad miss_the_comma)
    else bad miss_the_space

unfoldable pub parse_command : Bool → ℕ → ℕ → Bytes → Parsed
parse_command false len i q = parse_payload none len i q
parse_command true len i q =
    parse_space (value 0 (digits q)) len (length (digits q)) i (after_digits q)

-- The colon behind the `i` digits of the length.
unfoldable pub parse_body : Bool → ℕ → ℕ → Bytes → Parsed
parse_body e len i [] = more
parse_body e len i (b ∷ q) =
    if b == colon
    then (if leb (len + 1) (length q) then parse_command e len (i + 1) q else more)
    else bad miss_the_colon

unfoldable pub parse : Bool → Bytes → Parsed
parse e q =
    if leb 3 (length q)
    then (if is_byte 0x30 (get_elem? q 0) && is_digit (get_elem? q 1)
        then bad find_leading_zeros
        else if not (is_digit (get_elem? q 0))
        then bad must_start_with_a_number
        else if ltb 10 (length (digits q))
        then bad more_than_9_digits
        else parse_body e (value 0 (digits q)) (length (digits q)) (after_digits q))
    else more
