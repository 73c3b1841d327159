-- ===== src/Ring/Write.antt =====
-- `write` keeps the newest bytes: what it appends, what it pushes out, and what it refuses.
use webtransport_gos.Prelude.{
  ℕ, ◌+◌, ◌-◌, ◌≤◌, ◌<◌, ◌≡◌, arith, ltb, if◌then◌else◌, length, drop, ◌++◌, length-append,
  length-drop, ltb→lt, Bool-cases, inl, inr, ◌∙◌,
}
use webtransport_gos.Js.Exn.{ok}
use webtransport_gos.Js.Bytes.{
  Bytes, byte_at, overlay, subarray, length-overlay, byte_at-overlay, byte_at-append, byte_at-drop,
  bytes_ext, set_bytes_fits, length-subarray, byte_at-subarray,
}
use webtransport_gos.Ring.{Ring, store, account, write}
use webtransport_gos.Ring.Bounds.{IsValid}
use webtransport_gos.Ring.Slots.{slot, valid_after, slot_after, old_slot, new_slot}
use webtransport_gos.Ring.Contents.{contents, length-contents, byte_at-contents}

-- The array and the tail that `store` leaves.
pub stored : Ring → Bytes → Bytes
stored r xs =
    let len1 = r.size - r.tail in
    if ltb r.size (r.tail + length xs)
    then overlay (overlay r.bytes (subarray xs 0 len1) r.tail) (subarray xs len1 (length xs)) 0
    else overlay r.bytes xs r.tail

stored_tail : Ring → ℕ → ℕ
stored_tail r n = if ltb r.size (r.tail + n) then n - (r.size - r.tail) else r.tail + n

module _ (r : Ring) (xs : Bytes) (v : IsValid r) (fits : length xs ≤ r.size) where
  wraps_lengths :
      r.size < r.tail + length xs
      → let len1 = r.size - r.tail in
        (length (subarray xs 0 len1) ≡ len1)
        × (length (subarray xs len1 (length xs)) ≡ length xs - len1)
        × (length (overlay r.bytes (subarray xs 0 len1) r.tail) ≡ r.size)
  wraps_lengths h =
      let len1 = r.size - r.tail in
      let first = length-subarray xs 0 len1 (omega arith) (omega arith) in
      let second = length-subarray xs len1 (length xs) (omega arith) (omega arith) in
      (
        omega (arith, first),
        second,
        omega (arith, length-overlay r.bytes (subarray xs 0 len1) r.tail (omega (arith, first))),
      )

  length-stored : length (stored r xs) ≡ r.size
  unfolding stored
  length-stored = elim (Bool-cases (ltb r.size (r.tail + length xs))) [
    | inl w ↦
        let len1 = r.size - r.tail in
        let l = wraps_lengths (ltb→lt _ _ w) in
        rw w (
          omega (
            arith,
            l,
            length-overlay (overlay r.bytes (subarray xs 0 len1) r.tail)
                (subarray xs len1 (length xs)) 0 (omega (arith, l)),
          ))
    | inr w ↦ rw w (omega (arith, length-overlay r.bytes xs r.tail (ground arith)))
  ]

  store-stored :
      store r xs ≡ ok (record r { bytes = stored r xs; tail = stored_tail r (length xs) })
  unfolding store stored stored_tail
  store-stored = elim (Bool-cases (ltb r.size (r.tail + length xs))) [
    | inl w ↦
        let len1 = r.size - r.tail in
        let l = wraps_lengths (ltb→lt _ _ w) in
        rw (
          w,
          set_bytes_fits r.bytes (subarray xs 0 len1) r.tail (omega (arith, l)),
          set_bytes_fits (overlay r.bytes (subarray xs 0 len1) r.tail)
              (subarray xs len1 (length xs)) 0 (omega (arith, l)),
        )
    | inr w ↦ rw (w, set_bytes_fits r.bytes xs r.tail (ground arith))
  ]

  -- Byte `p` of the array afterwards.
  byte_at-stored :
      (p : ℕ)
      → p < r.size
      → byte_at (stored r xs) p ≡ (
          if ltb (p + r.size) (r.tail + length xs)
          then byte_at xs (p + r.size - r.tail)
          else if ltb p r.tail
          then byte_at r.bytes p
          else if ltb p (r.tail + length xs)
          then byte_at xs (p - r.tail)
          else byte_at r.bytes p)
  unfolding stored
  byte_at-stored p h = elim (Bool-cases (ltb r.size (r.tail + length xs))) [
    | inl w ↦
        let len1 = r.size - r.tail in
        let l = wraps_lengths (ltb→lt _ _ w) in
        rw w (
          ground (
            arith,
            l,
            byte_at-overlay (overlay r.bytes (subarray xs 0 len1) r.tail)
                (subarray xs len1 (length xs)) 0 p (omega (arith, l)),
            byte_at-overlay r.bytes (subarray xs 0 len1) r.tail p (omega (arith, l)),
            byte_at-subarray xs 0 len1 (p - r.tail),
            byte_at-subarray xs len1 (length xs) p,
          ))
    | inr w ↦ rw w (ground (arith, byte_at-overlay r.bytes xs r.tail p (ground arith)))
  ]

  -- What `write` leaves behind.
  pub written : Ring
  unfolding stored stored_tail account
  written = account (record r { bytes = stored r xs; tail = stored_tail r (length xs) }) (length xs)

  pub write-written : write r xs ≡ ok written
  unfolding write written
  write-written = ground (arith, store-stored)

  pub written_fields :
      (written.len ≡ (if ltb r.size (r.len + length xs) then r.size else r.len + length xs))
      × (written.size ≡ r.size)
      × (written.bytes ≡ stored r xs)
      × (written.at ≡ r.at)
  unfolding written account
  written_fields = ground arith

  pub written-IsValid : IsValid written
  unfolding written account stored_tail
  written-IsValid = ground (arith, length-stored)

  -- How many of the oldest bytes go.
  abbrev dropped : ℕ
  dropped = r.len + length xs - r.size

  valid-written : written.valid ≡ valid_after r.size r.valid dropped
  unfolding written account stored_tail
  valid-written = ground arith

  byte_at-written_old :
      (i : ℕ)
      → dropped + i < r.len
      → byte_at (stored r xs) (slot r.size (valid_after r.size r.valid dropped) i)
        ≡ byte_at r.bytes (slot r.size r.valid (dropped + i))
  byte_at-written_old i h =
      let p = slot r.size (valid_after r.size r.valid dropped) i in
      let same = slot_after r.size r.valid dropped i (omega arith) (omega arith) in
      let kept =
        old_slot r.size r.valid r.tail r.len (length xs) (dropped + i) v.valid_in v.tail_in v.len_in
          fits v.linked h (omega arith) in
      rw same (ground (arith, kept, byte_at-stored (slot r.size r.valid (dropped + i))))

  byte_at-written_new :
      (i : ℕ)
      → r.len ≤ dropped + i
      → dropped + i < r.len + length xs
      → i < r.size
      → byte_at (stored r xs) (slot r.size (valid_after r.size r.valid dropped) i)
        ≡ byte_at xs (dropped + i - r.len)
  byte_at-written_new i h k l =
      let p = slot r.size (valid_after r.size r.valid dropped) i in
      let e : dropped + i - dropped ≡ i = omega arith in
      let new =
        new_slot r.size r.valid r.tail r.len (length xs) (dropped + i) v.valid_in v.tail_in v.len_in
          fits v.linked h k (omega arith) (omega arith) in
      let new' = rw e at new in ground (arith, new', byte_at-stored p (ground (arith, new')))

  byte_at-written :
      (i : ℕ)
      → i < written.len
      → byte_at (contents written) i ≡ byte_at (contents r ++ xs) (dropped + i)
  byte_at-written i h =
      byte_at-contents written i h
      ∙ (rw (written_fields.1, written_fields.2, valid-written)
          (ground (
            arith,
            byte_at-append (contents r) xs (dropped + i),
            length-contents r,
            byte_at-contents r (dropped + i),
            byte_at-written_old i,
            byte_at-written_new i,
            written_fields.0,
          )))

  contents-written : contents written ≡ drop (r.len + length xs - r.size) (contents r ++ xs)
  contents-written =
      bytes_ext (contents written) (drop (r.len + length xs - r.size) (contents r ++ xs))
        (ground (
          arith,
          length-contents written,
          written_fields,
          length-drop (r.len + length xs - r.size) (contents r ++ xs),
          length-append (contents r) xs,
          length-contents r,
        ))
        λ i h. ground (
          arith,
          length-contents written,
          byte_at-written i,
          byte_at-drop (r.len + length xs - r.size) (contents r ++ xs) i,
        )

-- A write that fits in the buffer's size succeeds, keeps the invariant, and leaves the last `size`
-- bytes of what was held before followed by what was written.
pub write_lem :
    (r : Ring) (xs : Bytes)
    → IsValid r
    → length xs ≤ r.size
    → (r' : Ring) × (write r xs ≡ ok r')
      × IsValid r'
      × (r'.size ≡ r.size)
      × (contents r' ≡ drop (r.len + length xs - r.size) (contents r ++ xs))
write_lem r xs v h = (
  written r xs v h,
  write-written r xs v h,
  written-IsValid r xs v h,
  (written_fields r xs v h).1,
  contents-written r xs v h,
)

-- A write longer than the buffer is dropped whole, without an error.
pub write_too_long : (r : Ring) (xs : Bytes) → r.size < length xs → write r xs ≡ ok r
unfolding write
write_too_long r xs h = ground arith
