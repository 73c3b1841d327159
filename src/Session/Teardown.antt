-- ===== src/Session/Teardown.antt =====
-- What helper/WebTransportWS.js asks of a WebTransport in `connect`, and `close`, which drops every
-- field. A field that `close` sets to null is an option here, and `none` is null.
use webtransport_gos.Prelude.{
  ℕ, ◌≡◌, refl, Bool, true, false, ◌||◌, ◌&&◌, Option, none, some, List, [], ◌∷◌, ◌++◌,
  if◌then◌else◌, length, map, All, filter, ◌⊎◌,
}
use webtransport_gos.Js.Bytes.{Bytes}
use webtransport_gos.Util.{Text}
use webtransport_gos.Util.Base64.{base642_uint8_array, is_base64}
use webtransport_gos.Util.Base64.Groups.{IsByte, base64_of}
use webtransport_gos.Util.Base64.RoundTrip.{unpadded, base642_uint8_array_lem}
use webtransport_gos.Session.{Mode, Session, Command, is_text}

-- `textDecoder` and `textEncoder` in the constructor: one that the options give, or that of the runtime.
-- That the test of a name that the runtime does not declare throws is not modelled.
unfoldable pub has_text_decoder : Bool → Bool → Bool
has_text_decoder given native = given || native

unfoldable pub has_text_encoder : Bool → Bool → Mode → Bool
has_text_encoder given native mode = given || (native && is_text mode)

-- `item.value` of `serverCertificateHashes`: text in base64, or the bytes themselves.
pub data HashValue : Type 0 where
  spelt : Text → HashValue
  raw : Bytes → HashValue

pub record Hash : Type 0 where
  pub algorithm : Text
  pub value : HashValue

unfoldable pub hash_bytes : HashValue → Bytes
hash_bytes (spelt text) = base642_uint8_array text
hash_bytes (raw bytes) = bytes

-- `opts.serverCertificateHashes`
unfoldable pub certificate_hashes : List Hash → List (Text × Bytes)
unfolding hash_bytes
certificate_hashes [] = []
certificate_hashes (item ∷ items) =
    (item.algorithm, hash_bytes item.value) ∷ certificate_hashes items

-- The base64 text of a hash of 32 bytes, as SHA-256 makes them, becomes 33 bytes.
pub certificate_hash_grows :
    (algorithm text : Text) (hash : Bytes)
    → All IsByte hash
    → length hash ≡ 32
    → (filter is_base64 text ≡ base64_of hash) ⊎ (filter is_base64 text ≡ unpadded hash)
    → certificate_hashes (record { algorithm = algorithm; value = spelt text } ∷ [])
      ≡ (algorithm, hash ++ 0 ∷ []) ∷ []
unfolding certificate_hashes
certificate_hash_grows algorithm text hash bytes size spelling =
    rw (base642_uint8_array_lem text hash bytes spelling, size) refl

-- The fields that `close` reads and drops; the timers of `pingStartTimestamp` stand by their keys.
pub record Connection : Type 0 where
  pub transport : Bool
  pub net_strings : Option ℕ
  pub ping_timer : Bool
  pub has_encoder : Bool
  pub has_decoder : Bool
  pub ping_start_timestamp : Option (List ℕ)
  pub command_map : Option (List ℕ)
  pub command_queue : Option (List Command)
  pub writers : Option ℕ

-- The fields of an object that is connected.
unfoldable pub connection_of : Bool → Session → Connection
connection_of ping_timer s = record {
  transport = true;
  net_strings = some s.net_strings;
  ping_timer = ping_timer;
  has_encoder = s.has_encoder;
  has_decoder = s.has_decoder;
  ping_start_timestamp = some s.ping_start_timestamp;
  command_map = some s.command_map;
  command_queue = some s.command_queue;
  writers = some s.writers;
}

pub data Act : Type 0 where
  close_transport : Act
  destroy_net_strings : ℕ → Act
  destroy_ping_timer : Act
  clear_ping : ℕ → Act

abbrev pub clear_pings : Option (List ℕ) → List Act
clear_pings none = []
clear_pings (some timestamps) = map clear_ping timestamps

abbrev pub destroy_all : Option ℕ → List Act
destroy_all none = []
destroy_all (some n) = destroy_net_strings n ∷ []

-- `close()`, and `clear()`, which only calls it.
unfoldable pub close : Connection → Connection × List Act
close c = (
  record {
    transport = false;
    net_strings = none;
    ping_timer = false;
    has_encoder = false;
    has_decoder = false;
    ping_start_timestamp = none;
    command_map = none;
    command_queue = none;
    writers = none;
  },
  (if c.transport then close_transport ∷ [] else [])
      ++ (destroy_all c.net_strings
          ++ ((if c.ping_timer then destroy_ping_timer ∷ [] else [])
              ++ clear_pings c.ping_start_timestamp)),
)

-- `close` of a connected object closes the transport and clears the timer of every ping that waits for
-- its answer; a second `close` does nothing.
pub close_lem :
    (ping_timer : Bool) (s : Session)
    → ((close (connection_of ping_timer s)).1
        ≡ close_transport
          ∷ destroy_net_strings s.net_strings
          ∷ ((if ping_timer then destroy_ping_timer ∷ [] else [])
              ++ map clear_ping s.ping_start_timestamp))
      × (close (close (connection_of ping_timer s)).0
          ≡ ((close (connection_of ping_timer s)).0, []))
unfolding close connection_of
close_lem ping_timer s = (refl, refl)
