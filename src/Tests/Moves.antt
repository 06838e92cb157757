-- ===== src/Tests/Moves.antt =====
-- A request of six bytes over two buffers.
use os22_crisologo_minichell.Base.{◌≡◌, refl, arith, true, List, [], ◌∷◌}
use os22_crisologo_minichell.Uio.{Iovec, Copy, Move, sys_space, uiomove}
use os22_crisologo_minichell.Uio.Whole.{uio_of, Whole, uiomove-Whole}

abbrev buffers : List Iovec
buffers = record { base = 0x80001000; len = 4 } ∷ record { base = 0x80002000; len = 8 } ∷ []

-- no move of kernel memory fails
abbrev copy : Copy
copy w m = 0

copy-good : (m : Move) → copy true m ≡ 0
copy-good m = refl

uiomove-Whole_example :
    Whole copy sys_space true copy-good buffers 100 12 0x80003000 6 []
      (uiomove true 5 copy 0x80003000 6 (uio_of copy sys_space true buffers 100 12) [])
uiomove-Whole_example =
    uiomove-Whole copy sys_space true copy-good 5 0x80003000 6 100 12 buffers [] (omega arith)
      (omega arith) (omega arith) (omega arith) (omega arith)
