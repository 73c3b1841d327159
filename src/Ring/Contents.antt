-- ===== src/Ring/Contents.antt =====
-- The bytes that a buffer holds, oldest first, and the methods that only look at them.
use webtransport_gos.Prelude.{
  ℕ, zero, suc, ◌+◌, ◌-◌, ◌<◌, ◌≡◌, none, some, arith, leb, ltb, if◌then◌else◌, refl, length,
  get_elem?, [], ◌∷◌,
}
use webtransport_gos.Prelude.Int.{pos, negsuc, ◌+ℤ◌, ◌-ℤ◌}
use webtransport_gos.Js.Bytes.{Bytes, byte_at, tabulate, length-tabulate, byte_at-tabulate}
use webtransport_gos.Ring.{Ring, new_ring, get_byte_by_index}
use webtransport_gos.Ring.Bounds.{IsValid}
use webtransport_gos.Ring.Slots.{slot}

unfoldable pub contents : Ring → Bytes
contents r = tabulate (λ i. byte_at r.bytes (slot r.size r.valid i)) r.len

pub length-contents : (r : Ring) → length (contents r) ≡ r.len
unfolding contents
length-contents r = length-tabulate _ r.len

pub byte_at-contents :
    (r : Ring) (i : ℕ)
    → i < r.len
    → byte_at (contents r) i ≡ byte_at r.bytes (slot r.size r.valid i)
unfolding contents
byte_at-contents r i h = byte_at-tabulate _ r.len i h

pub get_elem?-byte_at :
    (xs : Bytes) (i : ℕ)
    → get_elem? xs i ≡ (if ltb i (length xs) then some (byte_at xs i) else none)
get_elem?-byte_at [] i = ground arith
get_elem?-byte_at (x ∷ xs) zero = ground arith
get_elem?-byte_at (x ∷ xs) (suc i) = ground (arith, get_elem?-byte_at xs i)

-- On a valid buffer `getByteByIndex` reads the contents at an index that is not negative, and gives
-- `undefined` past them.
pub get_byte_by_index-pos :
    (r : Ring) (i : ℕ) → IsValid r → get_byte_by_index r (pos i) ≡ get_elem? (contents r) i
unfolding get_byte_by_index ◌+ℤ◌ ◌-ℤ◌
get_byte_by_index-pos r i v = ground (
  arith,
  get_elem?-byte_at (contents r) i,
  length-contents r,
  byte_at-contents r i,
  get_elem?-byte_at r.bytes (r.valid + i),
  get_elem?-byte_at r.bytes (r.valid + i - r.size),
  get_elem?-byte_at r.bytes (i - (r.size - r.valid)),
)

-- At a negative index it looks at the bytes before the oldest one.
pub get_byte_by_index-negsuc :
    (r : Ring) (k : ℕ)
    → IsValid r
    → get_byte_by_index r (negsuc k)
      ≡ (if leb (suc k) r.valid then some (byte_at r.bytes (r.valid - suc k)) else none)
unfolding get_byte_by_index ◌+ℤ◌ ◌-ℤ◌
get_byte_by_index-negsuc r k v = ground (arith, get_elem?-byte_at r.bytes (r.valid - suc k))

pub contents-new_ring : (size : ℕ) → contents (new_ring size) ≡ []
unfolding contents new_ring tabulate
contents-new_ring size = refl
