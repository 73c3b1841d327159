-- ===== src/Tests/Frames.antt =====
-- Concrete runs on encoded messages.
use webtransport_gos.Prelude.{
  ◌+◌, ◌<◌, ◌≤◌, ◌^◌, ◌≡◌, refl, true, some, List, [], ◌∷◌, ◌++◌, arith, length, map,
}
use webtransport_gos.Prelude.Int.{pos}
use webtransport_gos.Js.Exn.{ok}
use webtransport_gos.Js.Bytes.{Bytes, tabulate}
use webtransport_gos.Ring.{Ring, new_ring}
use webtransport_gos.Ring.Bounds.{IsValid, new_ring-IsValid}
use webtransport_gos.Ring.Contents.{contents, contents-new_ring}
use webtransport_gos.NetString.{deliver, round, decode}
use webtransport_gos.NetString.Digits.{digits, value}
use webtransport_gos.NetString.Decimal.{decimal, decimal_loop}
use webtransport_gos.NetString.Encode.{encode, encode-netstring, netstring, body}
use webtransport_gos.NetString.Grammar.{
  parse, got, more, parse_body, parse_command, parse_space, parse_payload,
}
use webtransport_gos.NetString.Round.{round_refines, round_whole_buffer}
use webtransport_gos.NetString.Payload.{Agrees}
use webtransport_gos.NetString.RoundTrip.{parse-netstring}
use webtransport_gos.NetString.Stream.{Spells, message, ending, left, decode_lem, LeftOf}
use webtransport_gos.NetString.Spelling.{Sent, text, sent, Sendable, text-Spells}
use webtransport_gos.Reader.{read_chunks}
use webtransport_gos.Reader.Chunks.{read_chunks_lem, read_chunks-encode, encode_all, concat}

-- "hi" with the command 20: `5:20 hi,`.
abbrev hello : Bytes
hello = 53 ∷ 58 ∷ 50 ∷ 48 ∷ 32 ∷ 104 ∷ 105 ∷ 44 ∷ []

-- Eight slots that hold the frame from slot 3 on, and no more.
abbrev full : Ring
full = record {
  bytes = 104 ∷ 105 ∷ 44 ∷ 53 ∷ 58 ∷ 50 ∷ 48 ∷ 32 ∷ [];
  valid = 3;
  tail = 3;
  len = 8;
  at = pos 3;
  size = 8;
}

full-IsValid : IsValid full
full-IsValid = omega arith

encoded : netstring (some 20) (104 ∷ 105 ∷ []) ≡ hello
unfolding netstring body decimal decimal_loop
encoded = refl

held : contents full ≡ hello
unfolding contents tabulate
held = refl

parsed : parse true hello ≡ got (104 ∷ 105 ∷ []) (some 20) 8
unfolding parse parse_body parse_command parse_space parse_payload digits value
parsed = refl

round_refines_example : Agrees full (parse true (contents full)) (round true full)
round_refines_example = round_refines true full full-IsValid

round_whole_buffer_example :
    (r' : Ring) × (round true full
      ≡ ok
          (deliver (record { payload = some (104 ∷ 105 ∷ []); serialized = []; cmd = some 20 }) r'))
round_whole_buffer_example =
    round_whole_buffer true full (104 ∷ 105 ∷ []) (some 20) full-IsValid (omega arith) (omega arith)
      (rw held parsed)

encode-netstring_example :
    encode (104 ∷ 105 ∷ []) (some (pos 20)) ≡ ok (netstring (some 20) (104 ∷ 105 ∷ []))
encode-netstring_example = encode-netstring (104 ∷ 105 ∷ []) (some (pos 20))

small : length (body (some 20) (104 ∷ 105 ∷ [])) < 10 ^ 10
unfolding body decimal decimal_loop
small = omega arith

parse-netstring_example :
    parse true (netstring (some 20) (104 ∷ 105 ∷ []) ++ 53 ∷ [])
    ≡ got (104 ∷ 105 ∷ []) (some 20) (length (netstring (some 20) (104 ∷ 105 ∷ [])))
parse-netstring_example = parse-netstring (some 20) (104 ∷ 105 ∷ []) (53 ∷ []) small

fits : (new_ring 16).len + length hello ≤ (new_ring 16).size
unfolding new_ring
fits = omega arith

decode_lem_example :
    let d = decode true (new_ring 16) (some hello) in
    Spells true (contents (new_ring 16) ++ hello) (map message d.frames) (ending d.outcome)
    × LeftOf (new_ring 16) hello d.outcome
decode_lem_example = decode_lem true (new_ring 16) hello (new_ring-IsValid 16) fits

abbrev messages : List Sent
messages = (104 ∷ 105 ∷ [], some 20) ∷ (104 ∷ 105 ∷ [], some 20) ∷ []

-- The two frames, cut inside the first length prefix and inside the second payload.
abbrev chunks : List Bytes
chunks =
    (53 ∷ [])
    ∷ (58 ∷ 50 ∷ 48 ∷ 32 ∷ 104 ∷ 105 ∷ 44 ∷ 53 ∷ 58 ∷ 50 ∷ 48 ∷ 32 ∷ 104 ∷ [])
    ∷ (105 ∷ 44 ∷ [])
    ∷ []

joined : concat chunks ≡ text messages
unfolding netstring body decimal decimal_loop
joined = refl

encoded_all : encode_all messages ≡ ok (concat chunks)
unfolding encode_all
encoded_all = let e = encode-netstring (104 ∷ 105 ∷ []) (some (pos 20)) in rw (e, encoded) refl

sendable : Sendable true messages
sendable = (refl, small, (refl, small, tt))

read_chunks-encode_example :
    (map message (read_chunks true (new_ring 32) chunks).frames ≡ map sent messages)
    × (ending (read_chunks true (new_ring 32) chunks).outcome ≡ left [])
read_chunks-encode_example =
    read_chunks-encode true 32 chunks messages sendable encoded_all (omega arith)

new_fits : (new_ring 32).len + length (concat chunks) ≤ (new_ring 32).size
unfolding new_ring
new_fits = omega arith

waits : parse true (contents (new_ring 32)) ≡ more
unfolding parse
waits = rw (contents-new_ring 32) refl

spells : Spells true (contents (new_ring 32) ++ concat chunks) (map sent messages) (left [])
spells = rw (contents-new_ring 32, joined) (text-Spells true messages sendable)

read_chunks_lem_example :
    (map message (read_chunks true (new_ring 32) chunks).frames ≡ map sent messages)
    × (ending (read_chunks true (new_ring 32) chunks).outcome ≡ left [])
read_chunks_lem_example =
    read_chunks_lem true chunks (new_ring 32) [] (map sent messages) (new_ring-IsValid 32) new_fits
      waits spells
