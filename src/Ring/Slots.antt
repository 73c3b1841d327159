-- ===== src/Ring/Slots.antt =====
-- Positions in the circular array of helper/RingBuffer.js, as arithmetic on the pointers alone.
use webtransport_gos.Prelude.{ℕ, ◌+◌, ◌-◌, ◌≤◌, ◌<◌, ◌≡◌, ◌⊎◌, arith, ltb, leb, if◌then◌else◌}
use webtransport_gos.Ring.Bounds.{SameSlot}

-- The index `i` bytes behind `from`, going round at `size`.
abbrev pub slot : ℕ → ℕ → ℕ → ℕ
slot size from i = if leb size (from + i) then from + i - size else from + i

-- The position of the oldest byte once `d` bytes have gone.
abbrev pub valid_after : ℕ → ℕ → ℕ → ℕ
valid_after size valid d = if ltb size (valid + d) then valid + d - size else valid + d

pub slot_after :
    (size valid d i : ℕ)
    → valid ≤ size
    → d + i < size
    → slot size (valid_after size valid d) i ≡ slot size valid (d + i)
slot_after size valid d i h k = ground arith

-- A byte that stays is not written over.
pub old_slot :
    (size valid tail len n j : ℕ)
    → valid ≤ size
    → tail ≤ size
    → len ≤ size
    → n ≤ size
    → SameSlot size (valid + len) tail
    → j < len
    → len + n ≤ size + j
    → let p = slot size valid j in
      (p < size) × (tail + n ≤ p + size) × ((p < tail) ⊎ (tail + n ≤ p))
old_slot size valid tail len n j hv ht hl hn link hj hd = ground arith

-- A byte that is new stands in the part that is written.
pub new_slot :
    (size valid tail len n j : ℕ)
    → valid ≤ size
    → tail ≤ size
    → len ≤ size
    → n ≤ size
    → SameSlot size (valid + len) tail
    → len ≤ j
    → j < len + n
    → len + n ≤ size + j
    → j - (len + n - size) < size
    → let p = slot size (valid_after size valid (len + n - size)) (j - (len + n - size)) in
      (p < size)
      × ((p + size < tail + n) × (p + size - tail ≡ j - len)
          ⊎ (tail + n ≤ p + size) × (tail ≤ p) × (p < tail + n) × (p - tail ≡ j - len))
new_slot size valid tail len n j hv ht hl hn link hj hd _ hk = ground arith
