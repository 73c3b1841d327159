-- ===== src/Reader.antt =====
-- The loop of `read` in example/bjy-common/lib/helper/WebTransportWS.js over one stream in text mode:
-- each chunk that the reader yields goes to `decode`; the first throw is caught and ends the loop.
pub mod Chunks
use webtransport_gos.Prelude.{Bool, List, [], ◌∷◌, ◌++◌, some}
use webtransport_gos.Js.Exn.{Result, ok, err}
use webtransport_gos.Js.Bytes.{Bytes}
use webtransport_gos.Ring.{Ring}
use webtransport_gos.NetString.{Decoded, decode}

-- `while (true) { try { … decode(value) … } catch { break } }`, over the chunks that the reader
-- yields before it is done. What follows the loop is `onclose`, in either case.
unfoldable pub read_chunks : Bool → Ring → List Bytes → Decoded
read_chunks enable_command r [] = record { frames = []; outcome = ok r }
read_chunks enable_command r (value ∷ chunks) =
    let d = decode enable_command r (some value) in
    elim d.outcome [
      | err e ↦ d
      | ok r' ↦
          let rest = read_chunks enable_command r' chunks in
          record { frames = d.frames ++ rest.frames; outcome = rest.outcome }
    ]
