-- ===== src/NetString/Round.antt =====
-- One round of `decode` in helper/NetString.js does to the buffer what the grammar says of the bytes
-- that the buffer holds.
use mathlib.Core.Path.{subst}
use native.Mathlib.Nat.{zero-add}
use webtransport_gos.Prelude.{
  ℕ, ◌<◌, ◌≡◌, refl, some, [], arith, length, get_elem?, Bool-cases, inl, inr, ltb, leb, Bool,
  Option, ◌&&◌,
}
use webtransport_gos.Prelude.Int.{pos}
use webtransport_gos.Js.Exn.{ok}
use webtransport_gos.Js.Bytes.{Bytes}
use webtransport_gos.Ring.{Ring, get_byte_by_index, get_length, get_current_pointer}
use webtransport_gos.Ring.Bounds.{IsValid}
use webtransport_gos.Ring.Contents.{contents, get_byte_by_index-pos}
use webtransport_gos.Ring.Consume.{Consumed-refl}
use webtransport_gos.Ring.Range.{read_by_range_whole_buffer}
use webtransport_gos.NetString.{deliver, is_digit, is_byte, round}
use webtransport_gos.NetString.Digits.{digits, value, after_digits}
use webtransport_gos.NetString.Grammar.{got, parse}
use webtransport_gos.NetString.Loops.{
  Reading, Reading-get_length, length_loop_lem, length_loop_too_long,
}
use webtransport_gos.NetString.Payload.{Agrees, read_body_lem}

-- On a valid buffer one round does what the grammar says of the contents, on every branch: it waits
-- with no byte taken off, throws the same error, or delivers the same payload and command, takes
-- the bytes of the frame off, and copies them out as `serialized` unless they are as many as the
-- buffer has slots.
pub round_refines : (e : Bool) (r : Ring) → IsValid r → Agrees r (parse e (contents r)) (round e r)
unfolding round parse get_current_pointer
round_refines e r v =
    rw (same_length, first, second)
      (elim (Bool-cases (leb 3 (length q))) [
        | inr few ↦ rw few (r, refl, at.consumed)
        | inl three ↦
            rw three (elim (Bool-cases (is_byte 0x30 (get_elem? q 0) && is_digit (get_elem? q 1))) [
              | inl zeros ↦ rw zeros
              | inr fine ↦ rw fine (elim (Bool-cases (is_digit (get_elem? q 0))) [
                | inr other ↦ rw other
                | inl digit ↦ rw digit (elim (Bool-cases (ltb 10 (length (digits q)))) [
                  | inl many ↦ rw (
                    many,
                    length_loop_too_long (length q) q r r 0 0 0 v at (omega arith) (omega arith)
                        (ground arith),
                  )
                  | inr fits ↦
                      let (r', run, at') =
                        length_loop_lem (length q) q r r 0 0 0 v at (omega arith) (ground arith) in
                      rw (fits, run, zero-add)
                        (read_body_lem r v r' (length (digits q)) (after_digits q) e
                          (value 0 (digits q)) (rw zero-add at at'))
                ])
              ])
            ])
      ])
  where
    q : Bytes
    q = contents r

    at : Reading r r 0 (contents r)
    at = record { consumed = Consumed-refl r v; holds = refl }

    same_length : get_length r ≡ length (contents r)
    same_length = Reading-get_length r r 0 (contents r) v at

    first : get_byte_by_index r (pos 0) ≡ get_elem? (contents r) 0
    first = get_byte_by_index-pos r 0 v

    second : get_byte_by_index r (pos 1) ≡ get_elem? (contents r) 1
    second = get_byte_by_index-pos r 1 v

-- On a valid buffer a frame that fills all of it, and does not start at either end of the array, is
-- delivered with an empty `serialized`.
pub round_whole_buffer :
    (e : Bool) (r : Ring) (p : Bytes) (c : Option ℕ)
    → IsValid r
    → 0 < r.valid
    → r.valid < r.size
    → parse e (contents r) ≡ got p c r.size
    → (r' : Ring) × (round e r
        ≡ ok (deliver (record { payload = some p; serialized = []; cmd = c }) r'))
round_whole_buffer e r p c v after before h =
    let (r', xs, run, k, copied, _) = subst (λ g. Agrees r g (round e r)) h (round_refines e r v) in
    let back_again : r'.valid ≡ r.valid = ground (arith, k.moved, k.moved_in) in
    let nothing : xs ≡ [] = cc (copied, read_by_range_whole_buffer r r' v k back_again) in
    (r', rw nothing at run)
