-- ===== src/Bytes/Swaps.antt =====
-- What the byte swaps keep, and what bswap64 loses.
use os22_crisologo_minichell.Base.{ℕ, ◌+◌, ◌*◌, ◌%◌, ◌^◌, ◌<◌, ◌≡◌, arith}
use os22_crisologo_minichell.Bytes.{byte, bswap16, bswap32, bswap64, join32to64, split64to32}

-- bswap16 and bswap32 of words of their size are their own inverses.
pub bswap-bswap :
    (a b : ℕ) → a < 2 ^ 16 → b < 2 ^ 32 → (bswap16 (bswap16 a) ≡ a) × (bswap32 (bswap32 b) ≡ b)
unfolding bswap16 bswap32
bswap-bswap a b h k = (omega arith, omega arith)

-- split64to32 and join32to64 are inverse on words of their sizes.
pub split-join :
    (x1 x2 y : ℕ)
    → x1 < 2 ^ 32
    → x2 < 2 ^ 32
    → y < 2 ^ 64
    → (split64to32 (join32to64 x1 x2) ≡ (x1, x2))
      × (join32to64 (split64to32 y).0 (split64to32 y).1 ≡ y)
unfolding split64to32 join32to64
split-join x1 x2 y h k l = (ground arith, omega arith)

-- bswap64 ignores the byte 5 of its argument: words that differ in that byte alone are swapped to the
-- same word.
pub bswap64-forgets :
    (high b low : ℕ)
    → b < 256
    → low < 2 ^ 40
    → bswap64 (high * 2 ^ 48 + b * 2 ^ 40 + low) ≡ bswap64 (high * 2 ^ 48 + low)
unfolding bswap64
bswap64-forgets high b low h l =
    let v = high * 2 ^ 48 + b * 2 ^ 40 + low in
    let u = high * 2 ^ 48 + low in
    let e0 : byte 0 v ≡ byte 0 u = omega arith in
    let e1 : byte 1 v ≡ byte 1 u = omega arith in
    let e2 : byte 2 v ≡ byte 2 u = omega arith in
    let e3 : byte 3 v ≡ byte 3 u = omega arith in
    let e4 : byte 4 v ≡ byte 4 u = omega arith in
    let e5 : byte 5 v * 2 ^ 40 * 2 ^ 24 % 2 ^ 64 ≡ byte 5 u * 2 ^ 40 * 2 ^ 24 % 2 ^ 64 =
      omega arith in
    let e6 : byte 6 v ≡ byte 6 u = omega arith in
    let e7 : byte 7 v ≡ byte 7 u = omega arith in cc (e0, e1, e2, e3, e4, e5, e6, e7)
