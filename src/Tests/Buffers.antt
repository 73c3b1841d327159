-- ===== src/Tests/Buffers.antt =====
-- Concrete runs on a buffer of four bytes and on averages.
use webtransport_gos.Prelude.{◌≡◌, refl, [], ◌∷◌, arith, take, drop, ◌++◌}
use webtransport_gos.Prelude.Int.{pos}
use webtransport_gos.Js.Exn.{ok}
use webtransport_gos.Js.Bytes.{tabulate}
use webtransport_gos.Ring.{Ring, write, skip, back, read_by_range}
use webtransport_gos.Ring.Bounds.{IsValid}
use webtransport_gos.Ring.Contents.{contents}
use webtransport_gos.Ring.Consume
use webtransport_gos.Ring.Consume.{Consumed, Consumed-refl, Consumed-skip, read_byte-head}
use webtransport_gos.Ring.Write.{write_lem}
use webtransport_gos.Ring.Range.{read_by_range-Consumed}

-- Four slots that hold 7, 8 and 9 from the last slot on, going round.
abbrev wrapped : Ring
wrapped = record { bytes = 8 ∷ 9 ∷ 0 ∷ 7 ∷ []; valid = 3; tail = 2; len = 3; at = pos 3; size = 4 }

wrapped-IsValid : IsValid wrapped
wrapped-IsValid = omega arith

wrapped-contents : contents wrapped ≡ 7 ∷ 8 ∷ 9 ∷ []
unfolding contents tabulate
wrapped-contents = refl

write_lem_example :
    (r' : Ring) × (write wrapped (1 ∷ 2 ∷ 3 ∷ []) ≡ ok r')
    × IsValid r'
    × (r'.size ≡ 4)
    × (contents r' ≡ drop 2 (contents wrapped ++ 1 ∷ 2 ∷ 3 ∷ []))
write_lem_example = write_lem wrapped (1 ∷ 2 ∷ 3 ∷ []) wrapped-IsValid (omega arith)

-- `wrapped` with two bytes taken off, going round the end.
taken : Consumed wrapped (skip wrapped 2) 2
taken =
    Consumed-skip wrapped wrapped 0 wrapped-IsValid (Consumed-refl wrapped wrapped-IsValid) 2
      (omega arith)

read_by_range-Consumed_example :
    read_by_range (skip wrapped 2) 3 (skip wrapped 2).valid ≡ ok (take 2 (contents wrapped))
read_by_range-Consumed_example =
    read_by_range-Consumed wrapped (skip wrapped 2) 2 wrapped-IsValid taken (omega arith)
      (omega arith)

back-Consumed_example : Consumed wrapped (back (skip wrapped 2) 2) 0
back-Consumed_example = Consume.back-Consumed wrapped (skip wrapped 2) 2 wrapped-IsValid taken
