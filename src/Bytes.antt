-- ===== src/Bytes.antt =====
-- lib/bswap.c: swapping the bytes of a word, and pairs of 32-bit words as one of 64 bits, on a
-- big-endian machine. Where the parts of a word do not overlap, `|` is `+`.
pub mod Swaps
use os22_crisologo_minichell.Base.{ℕ, ◌+◌, ◌*◌, ◌/◌, ◌%◌, ◌^◌}
use Prim.Native.Nat.{bit_or}

-- `(val >> 8 * k) & 0xff`
abbrev pub byte : ℕ → ℕ → ℕ
byte k val = val / 2 ^ (8 * k) % 256

unfoldable pub bswap16 : ℕ → ℕ
bswap16 val = byte 0 val * 2 ^ 8 + byte 1 val

unfoldable pub bswap32 : ℕ → ℕ
bswap32 val = byte 0 val * 2 ^ 24 + byte 1 val * 2 ^ 16 + byte 2 val * 2 ^ 8 + byte 3 val

-- The bytes 4 and 5 are shifted to the left, as in the source: the one by 8 and the other by 24.
unfoldable pub bswap64 : ℕ → ℕ
bswap64 val = bit_or (byte 0 val * 2 ^ 56) (
    bit_or (byte 1 val * 2 ^ 8 * 2 ^ 40) (
      bit_or (byte 2 val * 2 ^ 16 * 2 ^ 24) (
        bit_or (byte 3 val * 2 ^ 24 * 2 ^ 8) (
          bit_or (byte 4 val * 2 ^ 32 * 2 ^ 8) (
            bit_or (byte 5 val * 2 ^ 40 * 2 ^ 24 % 2 ^ 64)
              (bit_or (byte 6 val * 2 ^ 48 / 2 ^ 40) (byte 7 val * 2 ^ 56 / 2 ^ 56)))))))

unfoldable pub join32to64 : ℕ → ℕ → ℕ
join32to64 x1 x2 = x1 * 2 ^ 32 + x2

unfoldable pub split64to32 : ℕ → ℕ × ℕ
split64to32 x = (x / 2 ^ 32, x % 2 ^ 32)
