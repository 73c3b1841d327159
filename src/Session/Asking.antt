-- ===== src/Session/Asking.antt =====
-- The address and the options that `connect` of helper/WebTransportWS.js gives to a new WebTransport.
use webtransport_gos.Prelude.{
  Bool, Option, none, some, List, ◌++◌, if◌then◌else◌, take, drop, length,
}
use webtransport_gos.Js.Bytes.{Bytes}
use webtransport_gos.Util.{Text, same_text}
use webtransport_gos.Util.Literal.{codes}
use webtransport_gos.Util.Value.{Value, boolean}
use webtransport_gos.Session.Teardown.{Hash, certificate_hashes}

-- `url.replace(/^webtransport:/, 'https:')`
unfoldable pub transport_url : Text → Text
transport_url url =
    let scheme = codes "webtransport:" in
    if same_text (take (length scheme) url) scheme
    then codes "https:" ++ drop (length scheme) url
    else url

-- `opts`
pub record TransportOptions : Type 0 where
  pub allow_pooling : Option Bool
  pub server_certificate_hashes : Option (List (Text × Bytes))

-- From the options `allowPooling`, any value, and `serverCertificateHashes`, `none` if it is no array.
unfoldable pub transport_options : Value → Option (List Hash) → TransportOptions
transport_options allow_pooling hashes = record {
  allow_pooling = elim allow_pooling [ boolean b ↦ some b | _ ↦ none ];
  server_certificate_hashes = elim hashes [
    | none ↦ none
    | some items ↦ some (certificate_hashes items)
  ];
}
