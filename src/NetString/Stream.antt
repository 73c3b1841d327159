-- ===== src/NetString/Stream.antt =====
-- A whole call of `decode` in helper/NetString.js, with its calls of itself, against the frames that
-- the bytes spell; and a stream that arrives in pieces.
use webtransport_gos.Prelude.{
  ℕ, zero, suc, ◌+◌, ◌-◌, ◌≤◌, ◌<◌, ◌≡◌, refl, ap, ◌∙◌, Bool, Option, none, some, List, [], ◌∷◌,
  ◌++◌, arith, length, drop, map, length-append,
}
use webtransport_gos.Js.Exn.{Error, Result, ok, err}
use webtransport_gos.Js.Bytes.{Bytes}
use webtransport_gos.Ring.{Ring, write, get_length}
use webtransport_gos.Ring.Bounds.{IsValid}
use webtransport_gos.Ring.Contents.{contents, length-contents}
use webtransport_gos.Ring.Consume.{Consumed, Consumed-IsValid, contents-Consumed}
use webtransport_gos.Ring.Write.{write_lem}
use webtransport_gos.NetString.{Frame, Step, wait, deliver, round, Decoded, drain, decode}
use webtransport_gos.NetString.Grammar.{Parsed, more, bad, got, parse}
use webtransport_gos.NetString.Round.{round_refines}
use webtransport_gos.NetString.Payload.{Agrees}
use webtransport_gos.NetString.Prefix.{parse-prefix}

-- The part of a frame that its receiver acts on.
abbrev pub Message : Type 0
Message = Option Bytes × Option ℕ

abbrev pub message : Frame → Message
message f = (f.payload, f.cmd)

-- How a call of `decode` ends: with bytes left that spell no whole frame yet, or with a throw.
pub data Ending : Type 0 where
  left : Bytes → Ending
  failed : Error → Ending

abbrev pub ending : Result Ring → Ending
ending (ok r) = left (contents r)
ending (err e) = failed e

-- The messages that a byte string spells, one behind the other.
pub data Spells (e : Bool) : Bytes → List Message → Ending → Type 0 where
  stop : {q : Bytes} → parse e q ≡ more → Spells e q [] (left q)
  fail : {q : Bytes} {x : Error} → parse e q ≡ bad x → Spells e q [] (failed x)
  next :
      {q p : Bytes} {c : Option ℕ} {n : ℕ} {ms : List Message} {end : Ending}
      → parse e q ≡ got p c n
      → Spells e (drop n q) ms end
      → Spells e q ((some p, c) ∷ ms) end

-- The buffer after a call that did not throw is valid, of the same size, and holds no more.
abbrev Left : Ring → Result Ring → Type 0
Left r (ok r') = IsValid r' × (r'.size ≡ r.size) × (r'.len ≤ r.len)
Left r (err e) = Unit {0}

Left-Consumed : (r r' : Ring) (n : ℕ) (o : Result Ring) → Consumed r r' n → Left r' o → Left r o
Left-Consumed r r' n (err e) c l = tt
Left-Consumed r r' n (ok s) c (v, size, len) = (v, size ∙ c.same_size, omega (arith, c.fewer, len))

abbrev Drained : Bool → Ring → Decoded → Type 0
Drained e r d = Spells e (contents r) (map message d.frames) (ending d.outcome) × Left r d.outcome

-- `drain` by what its round does.
after_round : ℕ → Bool → Result Step → Decoded
after_round fuel e (err x) = record { frames = []; outcome = err x }
after_round fuel e (ok (wait r)) = record { frames = []; outcome = ok r }
after_round fuel e (ok (deliver f r)) =
    let rest = drain fuel e r in record { frames = f ∷ rest.frames; outcome = rest.outcome }

drain_after :
    (fuel : ℕ) (e : Bool) (r : Ring) → drain (suc fuel) e r ≡ after_round fuel e (round e r)
unfolding drain after_round
drain_after fuel e r = elim (round e r) as (λ s. split s ≡ after_round fuel e s) [
  | err x ↦ refl
  | ok (wait r') ↦ refl
  | ok (deliver f r') ↦ refl
]
  where
    split : Result Step → Decoded
    split s = elim s [
      | err x ↦ record { frames = []; outcome = err x }
      | ok (wait r') ↦ record { frames = []; outcome = ok r' }
      | ok (deliver f r') ↦
          let rest = drain fuel e r' in record { frames = f ∷ rest.frames; outcome = rest.outcome }
    ]

drain_step :
    (fuel : ℕ) (e : Bool) (r : Ring) (p : Parsed)
    → IsValid r
    → parse e (contents r) ≡ p
    → Agrees r p (round e r)
    → ((r' : Ring) (n : ℕ) → Consumed r r' n → 0 < n → Drained e r' (drain fuel e r'))
    → Drained e r (drain (suc fuel) e r)
unfolding after_round
drain_step fuel e r more v h (r', s, c) ih =
    let same : contents r' ≡ contents r = contents-Consumed r r' 0 v c in
    rw (drain_after, s, same)
      (stop h, (Consumed-IsValid r r' 0 v c, c.same_size, omega (arith, c.fewer)))
drain_step fuel e r (bad x) v h s ih = rw (drain_after, s) (fail h, tt)
drain_step fuel e r (got p c n) v h (r', xs, s, k, _, _) ih =
    let (spelt, kept) = ih r' n k (parse-prefix e c n (contents r) [] p h).0 in
    rw (drain_after, s)
      (
        next h (rw (contents-Consumed r r' n v k) at spelt),
        Left-Consumed r r' n (drain fuel e r').outcome k kept,
      )

drain_lem :
    (fuel : ℕ) (e : Bool) (r : Ring) → IsValid r → r.len < fuel → Drained e r (drain fuel e r)
drain_lem zero e r v h = absurd (omega arith)
drain_lem (suc fuel) e r v h =
    drain_step fuel e r (parse e (contents r)) v refl (round_refines e r v)
      λ r' n c some_read. drain_lem fuel e r' (Consumed-IsValid r r' n v c) (omega (arith, c.fewer))

-- `decode()` on a valid buffer ends, and delivers exactly the messages that the held bytes spell;
-- what it leaves in the buffer, or the error it throws, is what comes behind them.
decode_nothing :
    (e : Bool) (r : Ring)
    → IsValid r
    → let d = decode e r none in Spells e (contents r) (map message d.frames) (ending d.outcome)
unfolding decode get_length
decode_nothing e r v = (drain_lem (suc r.len) e r v (omega arith)).0

-- What `decode(buffer)` leaves is valid, and holds no more than before the call and `buffer` together.
abbrev pub LeftOf : Ring → Bytes → Result Ring → Type 0
LeftOf r xs (ok r') = IsValid r' × (r'.size ≡ r.size) × (r'.len ≤ r.len + length xs)
LeftOf r xs (err e) = Unit {0}

decode-drain :
    (e : Bool) (r r' : Ring) (xs : Bytes)
    → write r xs ≡ ok r'
    → decode e r (some xs) ≡ drain (suc (get_length r')) e r'
unfolding decode
decode-drain e r r' xs h = rw (h, decode)

-- `decode(buffer)` on a valid buffer that has room for the new bytes delivers the messages that the
-- held bytes and the new ones spell together, and leaves or throws what comes behind them. If it
-- does not throw, the buffer is valid, of the same size, and holds no more than both.
pub decode_lem :
    (e : Bool) (r : Ring) (xs : Bytes)
    → IsValid r
    → r.len + length xs ≤ r.size
    → let d = decode e r (some xs) in
      Spells e (contents r ++ xs) (map message d.frames) (ending d.outcome) × LeftOf r xs d.outcome
unfolding get_length
decode_lem e r xs v fits =
    let (r', wrote, v', size, holds) = write_lem r xs v (omega arith) in
    let nothing_lost : r.len + length xs - r.size ≡ 0 = omega arith in
    let all : contents r' ≡ contents r ++ xs = rw nothing_lost at holds in
    let len : r'.len ≡ r.len + length xs = omega (
      arith,
      length-contents r',
      length-contents r,
      length-append (contents r) xs,
      ap length all,
    ) in
    let (spelt, kept) = drain_lem (suc r'.len) e r' v' (omega arith) in
    rw (decode-drain e r r' xs wrote)
      (rw all at spelt, weaken r' (drain (suc r'.len) e r').outcome size len kept)
  where
    weaken :
        (s : Ring) (o : Result Ring)
        → s.size ≡ r.size
        → s.len ≡ r.len + length xs
        → Left s o
        → LeftOf r xs o
    weaken s (err e) size len k = tt
    weaken s (ok t) size len (w, same, le) = (w, same ∙ size, omega arith)
