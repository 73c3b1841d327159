-- ===== src/Ring/Bounds.antt =====
-- The representation invariant of helper/RingBuffer.js, and that every method keeps it.
use webtransport_gos.Prelude.{ℕ, ◌+◌, ◌≤◌, ◌≡◌, ◌⊎◌, arith, length}
use webtransport_gos.Js.Bytes.{length-zeros}
use webtransport_gos.Ring.{Ring, new_ring, read_byte, back, skip, clear}

-- Two positions in `0..size` that name the same slot of the buffer, going round.
abbrev pub SameSlot : ℕ → ℕ → ℕ → Type 0
SameSlot size a b = (a ≡ b) ⊎ (a ≡ b + size) ⊎ (a ≡ b + size + size) ⊎ (a + size ≡ b)

-- The pointers lie in the array (each may stand one past its end), and the tail is `len` bytes
-- behind `valid`, going round.
pub record IsValid (r : Ring) : Type 0 where
  pub stored : length r.bytes ≡ r.size
  pub valid_in : r.valid ≤ r.size
  pub tail_in : r.tail ≤ r.size
  pub len_in : r.len ≤ r.size
  pub linked : SameSlot r.size (r.valid + r.len) r.tail

pub new_ring-IsValid : (size : ℕ) → IsValid (new_ring size)
unfolding new_ring
new_ring-IsValid size = omega (arith, length-zeros size)

pub read_byte-IsValid : (r : Ring) → IsValid r → IsValid (read_byte r).1
unfolding read_byte
read_byte-IsValid r v = ground arith

pub back-IsValid : (r : Ring) (n : ℕ) → IsValid r → IsValid (back r n)
unfolding back
back-IsValid r n v = ground arith

pub skip-IsValid : (r : Ring) (n : ℕ) → IsValid r → IsValid (skip r n)
unfolding skip
skip-IsValid r n v = ground arith

pub clear-IsValid : (r : Ring) → IsValid r → IsValid (clear r)
unfolding clear
clear-IsValid r v = omega arith
