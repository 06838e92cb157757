-- ===== src/Segments.antt =====
-- struct addrspace (include/addrspace.h) and vm/segments.c: which addresses count as the code, data
-- and bss segments of a process.
pub mod Range
use os22_crisologo_minichell.Base.{ℕ, ◌*◌, Bool, false, add32, leb, if◌then◌else◌}

pub record AddrSpace : Type 0 where
  pub vbase_code : ℕ
  pub npages_code : ℕ
  pub npages_code_loaded : ℕ
  pub vbase_data : ℕ
  pub npages_data : ℕ
  pub npages_data_loaded : ℕ
  pub vbase_bss : ℕ
  pub vbase_stack : ℕ

-- The common test of the three functions: `base <= v <= base + (npages << 12)`.
unfoldable pub in_segment : ℕ → ℕ → ℕ → Bool
in_segment base npages v = if leb v (add32 base (npages * 4096)) then leb base v else false

unfoldable pub is_code_segment : ℕ → AddrSpace → Bool
unfolding in_segment
is_code_segment v space = in_segment space.vbase_code space.npages_code v

unfoldable pub is_data_segment : ℕ → AddrSpace → Bool
unfolding in_segment
is_data_segment v space = in_segment space.vbase_data space.npages_data v

-- The length is that of the data segment, as in the source.
unfoldable pub is_bss_segment : ℕ → AddrSpace → Bool
unfolding in_segment
is_bss_segment v space = in_segment space.vbase_bss space.npages_data v
