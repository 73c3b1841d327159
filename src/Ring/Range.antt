-- ===== src/Ring/Range.antt =====
-- The bytes that `read` and `readByRange` copy out.
use webtransport_gos.Prelude.{
  ℕ, ◌+◌, ◌-◌, ◌≤◌, ◌<◌, ◌≡◌, refl, ◌∙◌, some, arith, ltb, leb, length, take, [], length-take,
  Bool-cases, inl, inr, ap, true,
}
use webtransport_gos.Prelude.Int.{pos}
use webtransport_gos.Js.Exn.{ok, Result, ◌>>=◌, >>=-ok}
use webtransport_gos.Js.Bytes.{
  Bytes, byte_at, bytes_ext, byte_at-take, zeros, length-zeros, overlay, subarray, length-overlay,
  byte_at-overlay, byte_at-subarray, length-subarray, set_bytes_fits, set_bytes,
}
use webtransport_gos.Ring.{Ring, read, read_within, read_by_range, skip}
use webtransport_gos.Ring.Bounds.{IsValid}
use webtransport_gos.Ring.Slots.{slot}
use webtransport_gos.Ring.Contents.{contents, length-contents, byte_at-contents}
use webtransport_gos.Ring.Consume.{Consumed}

-- A new array filled from one part, or from two parts that make up its length.
set_bytes_whole : (n : ℕ) (xs : Bytes) → length xs ≡ n → set_bytes (zeros n) xs 0 ≡ ok xs
set_bytes_whole n xs e =
    set_bytes_fits (zeros n) xs 0 (omega (arith, length-zeros n))
    ∙ ap ok (
        bytes_ext (overlay (zeros n) xs 0) xs
          (omega
            (arith, length-zeros n, length-overlay (zeros n) xs 0 (omega (arith, length-zeros n))))
          λ i h. ground (
            arith,
            length-zeros n,
            length-overlay (zeros n) xs 0 (omega (arith, length-zeros n)),
            byte_at-overlay (zeros n) xs 0 i (omega (arith, length-zeros n)),
          ))

-- `new Uint8Array(n)`, then `set(xs, 0)` and `set(ys, at)`.
abbrev fill_two : ℕ → Bytes → Bytes → ℕ → Result Bytes
fill_two n xs ys at = set_bytes (zeros n) xs 0 >>= λ first. set_bytes first ys at

fill_two_parts :
    (n : ℕ) (xs ys zs : Bytes) (at : ℕ)
    → length xs ≡ at
    → length zs ≡ n
    → at + length ys ≡ n
    → ((i : ℕ) → i < at → byte_at xs i ≡ byte_at zs i)
    → ((i : ℕ) → i < length ys → byte_at ys i ≡ byte_at zs (at + i))
    → fill_two n xs ys at ≡ ok zs
fill_two_parts n xs ys zs at hx hz hy front behind =
    rw
      (
        set_bytes_fits (zeros n) xs 0 (omega (arith, length-zeros n)),
        set_bytes_fits (overlay (zeros n) xs 0) ys at (omega (arith, first)),
      )
      (ap ok (
        bytes_ext (overlay (overlay (zeros n) xs 0) ys at) zs (omega (arith, first, second)) λ i h.
          ground (
            arith,
            first,
            second,
            byte_at-overlay (overlay (zeros n) xs 0) ys at i (omega (arith, first)),
            byte_at-overlay (zeros n) xs 0 i (omega (arith, length-zeros n)),
            front i,
            behind (i - at),
          )))
  where
    first : length (overlay (zeros n) xs 0) ≡ n
    first =
        omega (arith, length-zeros n, length-overlay (zeros n) xs 0 (omega (arith, length-zeros n)))

    second : length (overlay (overlay (zeros n) xs 0) ys at) ≡ n
    second =
        omega (arith, first, length-overlay (overlay (zeros n) xs 0) ys at (omega (arith, first)))

-- The contents from the oldest byte on, in one piece or in two.
module _ (r : Ring) (n : ℕ) (v : IsValid r) (h : n ≤ r.len) where
  length-front : length (take n (contents r)) ≡ n
  length-front = omega (arith, length-take n (contents r), length-contents r)

  byte_at-front :
      (i : ℕ) → i < n → byte_at (take n (contents r)) i ≡ byte_at r.bytes (slot r.size r.valid i)
  byte_at-front i k = byte_at-take n (contents r) i k ∙ byte_at-contents r i (omega arith)

  one_piece : r.valid + n ≤ r.size → subarray r.bytes r.valid (r.valid + n) ≡ take n (contents r)
  one_piece k =
      let l = length-subarray r.bytes r.valid (r.valid + n) (omega arith) (omega arith) in
      bytes_ext (subarray r.bytes r.valid (r.valid + n)) (take n (contents r))
        (omega (arith, l, length-front))
        λ i p. ground (arith, l, byte_at-front i, byte_at-subarray r.bytes r.valid (r.valid + n) i)

  two_pieces :
      (m end : ℕ)
      → r.size ≤ r.valid + n
      → m ≡ r.size - r.valid
      → end ≡ n - m
      → fill_two n (subarray r.bytes r.valid r.size) (subarray r.bytes 0 end) m
        ≡ ok (take n (contents r))
  two_pieces m end k em ee =
      let l = length-subarray r.bytes r.valid r.size (omega arith) (omega arith) in
      let l' = length-subarray r.bytes 0 end (omega arith) (omega arith) in
      fill_two_parts n (subarray r.bytes r.valid r.size) (subarray r.bytes 0 end)
        (take n (contents r)) m (omega (arith, l)) length-front (omega (arith, l'))
        (λ i p. ground (arith, l, byte_at-front i, byte_at-subarray r.bytes r.valid r.size i))
        λ i p. ground (arith, l', byte_at-front (m + i), byte_at-subarray r.bytes 0 end i)

  read_within_lem : read_within r n ≡ ok (some (take n (contents r)), skip r n)
  unfolding read_within skip
  read_within_lem = elim (Bool-cases (ltb r.size (r.valid + n))) [
    | inl w ↦
        let e : r.valid + (r.size - r.valid) ≡ r.size = omega arith in
        rw (w, e)
          (>>=-ok (set_bytes (zeros n) (subarray r.bytes r.valid r.size) 0)
              (λ first.
                set_bytes first (subarray r.bytes 0 (n - (r.size - r.valid))) (r.size - r.valid))
              _ (two_pieces (r.size - r.valid) (n - (r.size - r.valid)) (ground arith) refl refl)
            ∙ ground arith)
    | inr w ↦
        rw (w, one_piece (ground arith), set_bytes_whole n (take n (contents r)) length-front)
          (ground arith)
  ]

-- `read(n)` of a valid buffer that holds something, for n up to what it holds, returns the oldest n
-- bytes and does what `skip(n)` does.
pub read_lem :
    (r : Ring) (n : ℕ)
    → IsValid r
    → 0 < r.len
    → n ≤ r.len
    → read r (pos n) ≡ ok (some (take n (contents r)), skip r n)
unfolding read
read_lem r n v some_left h = ground (arith, read_within_lem r n v h)

-- `readByRange` from the position before `k` bytes were read to the position after them copies those
-- bytes out, if they are not as many as the whole buffer.
pub read_by_range-Consumed :
    (r₀ r : Ring) (k : ℕ)
    → IsValid r₀
    → Consumed r₀ r k
    → 0 < k
    → k < r₀.size
    → read_by_range r r₀.valid r.valid ≡ ok (take k (contents r₀))
unfolding read_by_range
read_by_range-Consumed r₀ r k v c some_read not_all = elim (Bool-cases (leb r₀.valid r.valid)) [
  | inl w ↦
      let size_of : r.valid - r₀.valid ≡ k = ground (arith, c, v) in
      let end_of : r.valid ≡ r₀.valid + k = ground (arith, c, v) in
      let none_over : r₀.valid + k - r₀.valid ≡ k = omega arith in
      let piece = rw none_over at (one_piece r₀ k v fewer (omega (arith, c.moved_in, end_of))) in
      rw (w, size_of, c.same_bytes, piece)
        (set_bytes_whole k (take k (contents r₀)) (length-front r₀ k v fewer))
  | inr w ↦
      let size_of : r.size - r₀.valid + r.valid ≡ k = ground (arith, c, v) in
      rw (w, size_of, c.same_bytes, v.stored, c.same_size)
        (two_pieces r₀ k v fewer (r₀.size - r₀.valid) r.valid (ground (arith, c, v)) refl
          (ground (arith, c, v)))
]
  where
    fewer : k ≤ r₀.len
    fewer = omega (arith, c.fewer)

-- When the bytes read are as many as the buffer is long, the two positions are the same slot, and
-- `readByRange` copies nothing out.
pub read_by_range_whole_buffer :
    (r₀ r : Ring)
    → IsValid r₀
    → Consumed r₀ r r₀.size
    → r.valid ≡ r₀.valid
    → read_by_range r r₀.valid r.valid ≡ ok []
unfolding read_by_range
read_by_range_whole_buffer r₀ r v c e =
    let starts : leb r₀.valid r.valid ≡ true = ground arith in
    let nothing : r.valid - r₀.valid ≡ 0 = omega arith in
    rw (starts, nothing) (set_bytes_whole 0 [] refl)

-- `readByRange` does not throw at positions of the buffer.
pub read_by_range_total :
    (r : Ring) (start end : ℕ)
    → IsValid r
    → start ≤ r.size
    → end ≤ r.size
    → (xs : Bytes) × (read_by_range r start end ≡ ok xs)
unfolding read_by_range
read_by_range_total r start end v hs he = elim (Bool-cases (leb start end)) [
  | inl w ↦
      let l = length-subarray r.bytes start end (ground arith) (omega (arith, v.stored)) in
      (
        subarray r.bytes start end,
        rw w (set_bytes_whole (end - start) (subarray r.bytes start end) l),
      )
  | inr w ↦
      let l =
        length-subarray r.bytes start (length r.bytes) (omega (arith, v.stored))
          (omega (arith, v.stored)) in
      let m = length-subarray r.bytes 0 end (omega arith) (omega (arith, v.stored)) in
      let n = r.size - start + end in
      let first = overlay (zeros n) (subarray r.bytes start (length r.bytes)) 0 in
      let fits : 0 + length (subarray r.bytes start (length r.bytes)) ≤ length (zeros n) =
        omega (arith, l, length-zeros n, v.stored) in
      let fits' : r.size - start + length (subarray r.bytes 0 end) ≤ length first = omega (
        arith,
        m,
        length-zeros n,
        length-overlay (zeros n) (subarray r.bytes start (length r.bytes)) 0 fits,
      ) in
      (
        overlay first (subarray r.bytes 0 end) (r.size - start),
        rw (
          w,
          set_bytes_fits (zeros n) (subarray r.bytes start (length r.bytes)) 0 fits,
          set_bytes_fits first (subarray r.bytes 0 end) (r.size - start) fits',
        ),
      )
]
