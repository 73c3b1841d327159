-- ===== src/Ring/Consume.antt =====
-- Reading: `readByte`, `read` and `skip` take bytes off the front, and `back` puts them back.
use webtransport_gos.Prelude.{
  ℕ, ◌+◌, ◌-◌, ◌≤◌, ◌<◌, ◌≡◌, refl, none, some, arith, drop, get_elem?, length-drop, suc, ◌⊎◌,
}
use webtransport_gos.Prelude.Int.{pos, negsuc, ◌+ℤ◌, ◌-ℤ◌, int_laws}
use webtransport_gos.Js.Bytes.{byte_at, byte_at-drop, bytes_ext}
use webtransport_gos.Ring.{Ring, read_byte, get_byte_by_index, back, skip}
use webtransport_gos.Ring.Bounds.{IsValid, SameSlot}
use webtransport_gos.Ring.Contents.{
  contents, length-contents, byte_at-contents, get_elem?-byte_at, get_byte_by_index-negsuc,
}

-- `r` is `r₀` with its first `k` bytes taken off, and nothing else changed.
pub record Consumed (r₀ r : Ring) (k : ℕ) : Type 0 where
  pub same_bytes : r.bytes ≡ r₀.bytes
  pub same_size : r.size ≡ r₀.size
  pub same_tail : r.tail ≡ r₀.tail
  pub fewer : r.len + k ≡ r₀.len
  pub further : r.at ≡ r₀.at +ℤ pos k
  pub moved : SameSlot r₀.size (r₀.valid + k) r.valid
  pub moved_in : r.valid ≤ r₀.size

pub Consumed-refl : (r : Ring) → IsValid r → Consumed r r 0
Consumed-refl r v = record {
  same_bytes = refl;
  same_size = refl;
  same_tail = refl;
  fewer = omega arith;
  further = omega int_laws;
  moved = omega arith;
  moved_in = v.valid_in;
}

module _ (r₀ r : Ring) (k : ℕ) (v : IsValid r₀) (c : Consumed r₀ r k) where
  pub Consumed-IsValid : IsValid r
  Consumed-IsValid = ground (arith, v, c)

  pub contents-Consumed : contents r ≡ drop k (contents r₀)
  contents-Consumed =
      bytes_ext (contents r) (drop k (contents r₀))
        (omega (arith, c.fewer, length-contents r, length-contents r₀, length-drop k (contents r₀)))
        λ i h. ground (
          arith,
          length-contents r,
          byte_at-contents r i,
          byte_at-drop k (contents r₀) i,
          byte_at-contents r₀ (k + i),
          c.same_bytes,
          c.same_size,
          c.fewer,
          c.moved,
          c.moved_in,
          v.len_in,
          v.valid_in,
        )

  pub Consumed-read_byte : 0 < r.len → Consumed r₀ (read_byte r).1 (k + 1)
  unfolding read_byte
  Consumed-read_byte h = record {
    same_bytes = ground (arith, c.same_bytes);
    same_size = ground (arith, c.same_size);
    same_tail = ground (arith, c.same_tail);
    fewer = ground (arith, c.fewer);
    further = ground (arith, c.further, int_sum);
    moved = ground (arith, c.moved, c.moved_in, c.same_size, v.valid_in);
    moved_in = ground (arith, c.moved_in, c.same_size, c.fewer, v.len_in);
  }
    where
      int_sum : r₀.at +ℤ pos k +ℤ pos 1 ≡ r₀.at +ℤ pos (k + 1)
      int_sum = omega int_laws

  pub Consumed-skip : (n : ℕ) → n ≤ r.len → Consumed r₀ (skip r n) (k + n)
  unfolding skip
  Consumed-skip n h = record {
    same_bytes = ground (arith, c.same_bytes);
    same_size = ground (arith, c.same_size);
    same_tail = ground (arith, c.same_tail);
    fewer = ground (arith, c.fewer);
    further = ground (arith, c.further, int_sum);
    moved = ground (arith, c.moved, c.moved_in, c.same_size, c.fewer, v.valid_in, v.len_in);
    moved_in = ground (arith, c.moved_in, c.same_size, c.fewer, v.len_in);
  }
    where
      int_sum : r₀.at +ℤ pos k +ℤ pos n ≡ r₀.at +ℤ pos (k + n)
      int_sum = omega int_laws

  -- `back(k)` undoes the reading of `k` bytes: what it leaves differs from the valid buffer before
  -- by nothing taken off.
  pub back-Consumed : Consumed r₀ (back r k) 0
  unfolding back
  back-Consumed = record {
    same_bytes = ground (arith, c.same_bytes);
    same_size = ground (arith, c.same_size);
    same_tail = ground (arith, c.same_tail);
    fewer = ground (arith, c.fewer, c.same_size, v.len_in);
    further = ground (arith, c.further, c.fewer, c.same_size, v.len_in, int_diff);
    moved = ground (arith, c.moved, c.moved_in, c.same_size, c.fewer, v.valid_in, v.len_in);
    moved_in = ground (arith, c.moved_in, c.same_size, c.fewer, v.len_in);
  }
    where
      int_diff : r₀.at +ℤ pos k -ℤ pos k ≡ r₀.at +ℤ pos 0
      int_diff = omega int_laws

-- `readByte` of a valid buffer returns the oldest byte, or `undefined` when there is none.
pub read_byte-head : (r : Ring) → IsValid r → (read_byte r).0 ≡ get_elem? (contents r) 0
unfolding read_byte
read_byte-head r v = ground (
  arith,
  get_elem?-byte_at (contents r) 0,
  length-contents r,
  byte_at-contents r 0,
  get_elem?-byte_at r.bytes r.valid,
  get_elem?-byte_at r.bytes 0,
)

-- At a negative index `getByteByIndex` sees `undefined`, or a byte that was read before.
pub get_byte_behind :
    (r₀ r : Ring) (n j : ℕ)
    → IsValid r₀
    → Consumed r₀ r n
    → suc j ≤ n
    → (get_byte_by_index r (negsuc j) ≡ none)
      ⊎ (get_byte_by_index r (negsuc j) ≡ some (byte_at (contents r₀) (n - suc j)))
get_byte_behind r₀ r n j v c h = ground (
  arith,
  get_byte_by_index-negsuc r j (Consumed-IsValid r₀ r n v c),
  byte_at-contents r₀ (n - suc j),
  v,
  c,
)
