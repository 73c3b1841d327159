-- ===== src/Tests/Deliveries.antt =====
-- Two messages over two streams from `send` to the owner; the first comes over both streams.
use webtransport_gos.Prelude.{
  ℕ, zero, suc, ◌≤◌, ◌<◌, ◌≡◌, refl, sym, ◌∙◌, true, some, List, [], ◌∷◌, arith, map, take, length,
  get_elem?,
}
use webtransport_gos.Prelude.Int.{pos}
use webtransport_gos.Js.Exn.{ok}
use webtransport_gos.Js.Bytes.{Bytes}
use webtransport_gos.Ring.{new_ring}
use webtransport_gos.NetString.{Frame}
use webtransport_gos.NetString.Encode.{netstring, body}
use webtransport_gos.NetString.Decimal.{decimal}
use webtransport_gos.NetString.Spelling.{text}
use webtransport_gos.Reader.{read_chunks}
use webtransport_gos.Reader.Chunks.{concat}
use webtransport_gos.Session.{Session, get_text_command}
use webtransport_gos.Session.Dedup.{Arrival, handle_all, frames}
use webtransport_gos.Session.Order.{advance}
use webtransport_gos.Session.EndToEnd.{labelled, written_each}
use webtransport_gos.Session.Delivery.{
  Interleaves, rest, comes, given, frames_read, delivered_in_order,
}
use webtransport_gos.Tests.Streams.{options, session, no_float}

-- "hi" and "o"
abbrev messages : List Bytes
messages = (104 ∷ 105 ∷ []) ∷ (111 ∷ []) ∷ []

-- "5:20 hi,4:21 o,", in one piece.
abbrev chunks : ℕ → List Bytes
chunks i = (53 ∷ 58 ∷ 50 ∷ 48 ∷ 32 ∷ 104 ∷ 105 ∷ 44 ∷ 52 ∷ 58 ∷ 50 ∷ 49 ∷ 32 ∷ 111 ∷ 44 ∷ []) ∷ []

wire : concat (chunks 0) ≡ text (labelled options messages session)
unfolding labelled get_text_command netstring decimal body
wire = refl

abbrev frame : Frame
frame = record {
  payload = some (104 ∷ 105 ∷ []);
  serialized = 53 ∷ 58 ∷ 50 ∷ 48 ∷ 32 ∷ 104 ∷ 105 ∷ 44 ∷ [];
  cmd = some 20;
}

first_frame : get_elem? (frames_read options 64 (chunks 0)) 0 ≡ some frame
unfolding frames_read webtransport_gos.NetString.decode webtransport_gos.Ring.write new_ring
    webtransport_gos.Js.Bytes.set_bytes read_chunks webtransport_gos.NetString.round
    webtransport_gos.Ring.get_length webtransport_gos.Ring.get_byte_by_index
    webtransport_gos.Prelude.Int.◌+ℤ◌ webtransport_gos.Js.Bytes.overlay
    webtransport_gos.Ring.read_byte webtransport_gos.Prelude.Int.◌-ℤ◌ webtransport_gos.Ring.read
    webtransport_gos.Ring.read_by_range webtransport_gos.Ring.get_current_pointer
    webtransport_gos.Ring.skip
first_frame = refl

abbrev arrivals : List Arrival
arrivals =
    record { clock = λ k. 5; index = 0; frame = frame }
    ∷ record { clock = λ k. 6; index = 1; frame = frame }
    ∷ []

abbrev ends : ℕ → ℕ
ends = advance no_float options 1 (advance no_float options 0 (λ i. 0))

arrivals-Interleaves :
    Interleaves no_float options 2
      (λ i. frames_read options 64 (chunks i))
      (λ i. 0)
      (frames no_float options arrivals)
      ends
arrivals-Interleaves = comes 0 (omega arith) first_frame (comes 1 (omega arith) first_frame rest)

delivered_in_order_example :
    (n : ℕ) × (r' : Session) × (handle_all no_float options arrivals session
      ≡ ok (r', map (given session) (take n messages)))
    × ((i : ℕ) → ends i ≤ n)
delivered_in_order_example =
    delivered_in_order no_float options messages session session 64 chunks ends arrivals 5 refl refl
      refl (omega arith) (omega arith, omega arith, omega arith)
      ((omega arith, omega arith), omega arith) (omega arith) (omega arith, (omega arith, tt)) refl
      refl (λ i p. (wire ∙ sym (written_each options messages session i refl refl p), omega arith))
      arrivals-Interleaves
      (λ k. (omega arith, omega arith), (λ k. (omega arith, omega arith), refl))
