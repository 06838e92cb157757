-- ===== src/Segments/Range.antt =====
-- The ranges that the segment tests accept.
use os22_crisologo_minichell.Base.{ℕ, ◌+◌, ◌*◌, ◌^◌, ◌<◌, ◌≡◌, true, false, arith}
use os22_crisologo_minichell.Segments.{AddrSpace, is_code_segment, is_data_segment}

-- Where code lies below data with at least one page between the two, no address is in both.
pub code_data_disjoint :
    (v : ℕ) (space : AddrSpace)
    → space.vbase_code + space.npages_code * 4096 < space.vbase_data
    → space.vbase_data < 2 ^ 32
    → is_code_segment v space ≡ true
    → is_data_segment v space ≡ false
unfolding is_code_segment is_data_segment
code_data_disjoint v space h k e = ground arith

-- The first address past the code segment's pages is still accepted, whatever the segment.
pub code_end_accepted :
    (space : AddrSpace)
    → space.vbase_code + space.npages_code * 4096 < 2 ^ 32
    → is_code_segment (space.vbase_code + space.npages_code * 4096) space ≡ true
unfolding is_code_segment
code_end_accepted space h = ground arith
