-- ===== src/Session/Ping.antt =====
-- The pings of helper/WebTransportWS.js: what `ping` sends comes back as a measured round trip.
use webtransport_gos.Prelude.{
  ℕ, zero, suc, ◌<◌, ◌≡◌, refl, ap, true, false, some, List, [], ◌∷◌, ◌++◌, arith, length, take,
  All,
}
use webtransport_gos.Prelude.Int.{pos, sub_ℕ}
use webtransport_gos.Js.Exn.{ok}
use webtransport_gos.Js.Bytes.{Bytes}
use webtransport_gos.NetString.Encode.{encode-netstring, netstring}
use webtransport_gos.Avrage
use webtransport_gos.Util.Base64.Groups.{IsByte}
use webtransport_gos.Session.{
  Options, Session, has_key, add_key, delete_key, write, on_ping, set_ping_timer, clear_ping_timer,
}
use webtransport_gos.Session.Receive.{ping, on_decode_message, receive_pong, first_float}

has_key-append : (xs : List ℕ) (k : ℕ) → has_key (xs ++ k ∷ []) k ≡ true
has_key-append [] k = ground arith
has_key-append (x ∷ xs) k = ground (arith, has_key-append xs k)

has_key-add_key : (xs : List ℕ) (k : ℕ) → has_key (add_key xs k) k ≡ true
has_key-add_key xs k = ground (arith, has_key-append xs k)

delete_key-append : (xs : List ℕ) (k : ℕ) → has_key xs k ≡ false → delete_key (xs ++ k ∷ []) k ≡ xs
delete_key-append [] k h = ground arith
delete_key-append (x ∷ xs) k h = ground (arith, delete_key-append xs k)

-- `Float64Array` as a view of bytes: a natural number below 2⁵³ is eight bytes, and reading them gives the
-- number back.
abbrev pub IsFloatView : (Bytes → ℕ) → (ℕ → Bytes) → Type 0
IsFloatView float_of float_bytes =
    (n : ℕ)
    → n < 9007199254740992
    → All IsByte (float_bytes n) × (length (float_bytes n) ≡ 8) × (float_of (float_bytes n) ≡ n)

take_all : (xs : Bytes) (n : ℕ) → length xs ≡ n → take n xs ≡ xs
take_all [] zero h = refl
take_all [] (suc n) h = refl
take_all (x ∷ xs) zero h = absurd (omega arith)
take_all (x ∷ xs) (suc n) h = ap (λ ys. x ∷ ys) (take_all xs n (omega arith))

first_float-bytes :
    (float_of : Bytes → ℕ) (float_bytes : ℕ → Bytes) (n : ℕ)
    → IsFloatView float_of float_bytes
    → n < 9007199254740992
    → first_float float_of (some (float_bytes n)) ≡ ok (some n)
first_float-bytes float_of float_bytes n v small =
    let (bytes, size, back) = v n small in
    let all = take_all (float_bytes n) 8 size in rw (all, size, back) refl

-- With pings enabled, a writer, no other ping of the same time pending, a time below 2⁵³, and a
-- view that reads such a number back from its eight bytes: a ping writes a frame to the first
-- stream and sets a timer. If its answer comes first, the timer is cleared, the time between the
-- two is averaged in and reported, and the ping is forgotten.
pub ping_round_trip :
    (float_of : Bytes → ℕ) (float_bytes : ℕ → Bytes) (o : Options) (sent answered : ℕ → ℕ)
    (index : ℕ) (serialized : Bytes) (s : Session)
    → IsFloatView float_of float_bytes
    → sent 0 < 9007199254740992
    → o.enable_ping ≡ true
    → 0 < s.writers
    → has_key s.ping_start_timestamp (sent 0) ≡ false
    → (s' : Session) × (ping float_bytes o sent s
        ≡ ok (
          s',
          set_ping_timer (sent 0)
              ∷ write 0 (netstring (some o.ping_command) (float_bytes (sent 0)))
              ∷ [],
        ))
      × (on_decode_message float_of o answered index
            (record {
              payload = some (float_bytes (sent 0));
              serialized = serialized;
              cmd = some o.ping_command;
            })
            s'
          ≡ ok (
            record s { rtt = Avrage.push s.rtt (sub_ℕ (answered 0) (sent 0)) },
            clear_ping_timer (sent 0) ∷ on_ping (sub_ℕ (answered 0) (sent 0)) ∷ [],
          ))
unfolding ping on_decode_message receive_pong
ping_round_trip float_of float_bytes o sent answered index serialized s v small enabled w fresh =
    let encoded = encode-netstring (float_bytes (sent 0)) (some (pos o.ping_command)) in
    let now = first_float-bytes float_of float_bytes (sent 0) v small in
    let known = has_key-append s.ping_start_timestamp (sent 0) in
    let forgotten = delete_key-append s.ping_start_timestamp (sent 0) fresh in
    (
      record s { ping_start_timestamp = s.ping_start_timestamp ++ sent 0 ∷ [] },
      ground (arith, encoded),
      ground (arith, now, known, forgotten),
    )
