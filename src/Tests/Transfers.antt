-- ===== src/Tests/Transfers.antt =====
-- A concrete run of both ends of a session.
use webtransport_gos.Prelude.{◌≡◌, refl, sym, ◌∙◌, false, some, List, [], ◌∷◌, arith, take, drop}
use webtransport_gos.Js.Bytes.{Bytes}
use webtransport_gos.NetString.Encode.{netstring, body}
use webtransport_gos.NetString.Decimal.{decimal}
use webtransport_gos.NetString.Spelling.{text}
use webtransport_gos.Reader.Chunks.{concat}
use webtransport_gos.Session.{Options, on_message, on_close, get_text_command}
use webtransport_gos.Session.EndToEnd.{written_each, labelled}
use webtransport_gos.Session.Reading.{read_stream, read_stream-send_each}
use webtransport_gos.Tests.Streams.{no_float}
use webtransport_gos.Tests.Sessions.{options, session}

-- "hi" and "o"
abbrev messages : List Bytes
messages = (104 ∷ 105 ∷ []) ∷ (111 ∷ []) ∷ []

abbrev single : Options
single = record options { stream_count = 1 }

-- "13:2147483646 hi,12:2147483647 o,"
abbrev wire : Bytes
wire =
    49 ∷ 51 ∷ 58 ∷ 50 ∷ 49 ∷ 52 ∷ 55 ∷ 52 ∷ 56 ∷ 51 ∷ 54 ∷ 52 ∷ 54 ∷ 32 ∷ 104 ∷ 105 ∷ 44 ∷ 49 ∷ 50
    ∷ 58 ∷ 50 ∷ 49 ∷ 52 ∷ 55 ∷ 52 ∷ 56 ∷ 51 ∷ 54 ∷ 52 ∷ 55 ∷ 32 ∷ 111 ∷ 44 ∷ []

abbrev chunks : List Bytes
chunks = take 9 wire ∷ drop 9 wire ∷ []

same_wire : concat chunks ≡ text (labelled single messages session)
unfolding labelled get_text_command netstring decimal body
same_wire = refl

read_stream-send_each_example : read_stream no_float single 0 (λ i k. 5) 64 chunks session ≡ (
  session,
  on_message (some (104 ∷ 105 ∷ [])) false ∷ on_message (some (111 ∷ [])) false ∷ on_close ∷ [],
)
read_stream-send_each_example =
    read_stream-send_each no_float single 0 (λ i k. 5) messages session session 64 chunks refl refl
      refl (omega arith, omega arith, omega arith) ((omega arith, omega arith), omega arith)
      (omega arith, (omega arith, tt)) (ground arith)
      (same_wire ∙ sym (written_each single messages session 0 refl refl (ground arith)))
      (omega arith)
