-- ===== src/Tests/Volume.antt =====
-- A volume of 16 blocks with a file of one block.
use os22_crisologo_minichell.Base.{
  ℕ, zero, suc, ◌<◌, ◌≡◌, ◌≢◌, ◌%◌, ◌^◌, refl, arith, true, false, some, [], ◌∷◌, get_elem?, ◌==◌,
  if◌then◌else◌, ok, got, Got,
}
use os22_crisologo_minichell.Bitmap.{
  has_bit, bitmap_alloc, alloc_from, alloc_in, free_offset, with_bit, bitmap_isset,
}
use os22_crisologo_minichell.Bitmap.Alloc.{IsWf, bit_at}
use os22_crisologo_minichell.Tests.State.{result_or}
use os22_crisologo_minichell.Sfs.{
  Device, Volume, Inode, Mapped, sfs_bmap, map_direct, new_direct, map_indirect, load_indirect,
  new_indirect, map_loaded, add_entry, hand_back, sfs_bused, sfs_balloc, clear_new, sfs_clearblock,
  sfs_readblock, sfs_writeblock, sfs_rwblock,
}
use os22_crisologo_minichell.Sfs.Truncate.{sfs_itrunc, blocks_for}
use os22_crisologo_minichell.Sfs.Blocks.{bit, IsVolume, InRange}
use os22_crisologo_minichell.Sfs.File.{holds, IsFile}
use os22_crisologo_minichell.Sfs.Map.{Returns}
use os22_crisologo_minichell.Sfs.Indirect.{sfs_bmap-Returns}
use os22_crisologo_minichell.Sfs.Itrunc.{Shortened, sfs_itrunc-Shortened}
use os22_crisologo_minichell.Sfs.Again.{sfs_bmap-again, sfs_bmap-apart}

-- Blocks 0 to 2 are the superblock, the root directory and the free map itself; the file has block 3.
abbrev disk : Volume
disk = record {
  sb_nblocks = 16;
  freemap = record { nbits = 16; v = 15 ∷ 0 ∷ [] };
  freemapdirty = false;
  words = λ b w. b;
  transfers = 0;
}

abbrev inode : Inode
inode = record { size = 100; direct = λ k. if k == 0 then 3 else 0; indirect = 0; dirty = false }

-- a device without errors
abbrev device : Device
device w b n = 0

device-InRange : InRange device 16
device-InRange w b n l e = ground (arith, e)

map-IsWf : IsWf disk.freemap
unfolding bit_at
map-IsWf = record { size = refl; bytes = small; leftover = λ i l. ground (arith, l) }
  where
    small : (k word : ℕ) → get_elem? disk.freemap.v k ≡ some word → word < 256
    small zero word g = ground arith
    small (suc zero) word g = ground arith
    small (suc (suc k)) word g = ground arith

disk-IsVolume : IsVolume disk
unfolding bit bit_at has_bit
disk-IsVolume = record {
  map = map-IsWf;
  room = omega arith;
  past = λ b l. ground (arith, l);
  super = refl;
}

one_block : (k : ℕ) → holds inode disk k ≡ (if k == 0 then 3 else 0)
unfolding holds
one_block k = ground arith

inode-IsFile : IsFile inode disk
unfolding bit bit_at has_bit
inode-IsFile = record {
  used = λ k n.
      let e : holds inode disk k ≡ 3 = ground (arith, one_block k, n) in rw e (refl, omega arith);
  once = λ j k n e. ground (arith, one_block j, one_block k, n, e);
}

sfs_bmap-Returns_example :
    (g : Got ℕ) × (sv' : Inode) × (s' : Volume) × (sfs_bmap device 15 true inode disk
      ≡ ok (g, sv', s'))
    × Returns 15 true inode disk g sv' s'
sfs_bmap-Returns_example =
    sfs_bmap-Returns disk-IsVolume inode-IsFile device device-InRange 15 true (omega arith)

sfs_itrunc-Shortened_example :
    (r : ℕ) × (sv' : Inode) × (s' : Volume) × (sfs_itrunc device 0 inode disk ≡ ok (r, sv', s'))
    × (r ≡ 0 → (sv'.size ≡ 0 % 2 ^ 32) × Shortened (blocks_for 0) inode disk sv' s')
sfs_itrunc-Shortened_example =
    sfs_itrunc-Shortened device 0 inode disk device-InRange disk-IsVolume inode-IsFile

-- the file after its first indirect block has been allocated, then the one after
abbrev first_call : Mapped
first_call = result_or (sfs_bmap device 15 true inode disk) (got 0, inode, disk)

abbrev second_call : Mapped
second_call = result_or (sfs_bmap device 16 true first_call.1 first_call.2) (got 0, inode, disk)

abbrev same_call : Mapped
same_call = result_or (sfs_bmap device 15 false first_call.1 first_call.2) (got 0, inode, disk)

first_ok : sfs_bmap device 15 true inode disk ≡ ok (got 5, first_call.1, first_call.2)
unfolding sfs_bmap map_direct new_direct map_indirect load_indirect new_indirect map_loaded
    add_entry hand_back sfs_bused sfs_balloc clear_new sfs_clearblock sfs_readblock sfs_writeblock
    sfs_rwblock bitmap_alloc alloc_from alloc_in free_offset has_bit with_bit bitmap_isset
first_ok = refl

second_ok :
    sfs_bmap device 16 true first_call.1 first_call.2 ≡ ok (got 6, second_call.1, second_call.2)
unfolding sfs_bmap map_direct new_direct map_indirect load_indirect new_indirect map_loaded
    add_entry hand_back sfs_bused sfs_balloc clear_new sfs_clearblock sfs_readblock sfs_writeblock
    sfs_rwblock bitmap_alloc alloc_from alloc_in free_offset has_bit with_bit bitmap_isset
second_ok = refl

same_ok : sfs_bmap device 15 false first_call.1 first_call.2 ≡ ok (got 5, same_call.1, same_call.2)
unfolding sfs_bmap map_direct new_direct map_indirect load_indirect new_indirect map_loaded
    add_entry hand_back sfs_bused sfs_balloc clear_new sfs_clearblock sfs_readblock sfs_writeblock
    sfs_rwblock bitmap_alloc alloc_from alloc_in free_offset has_bit with_bit bitmap_isset
same_ok = refl

sfs_bmap-again_example :
    (◌≡◌ {A = ℕ} 5 5)
    × ((j : ℕ) → j < 143 → holds same_call.1 same_call.2 j ≡ holds first_call.1 first_call.2 j)
sfs_bmap-again_example =
    sfs_bmap-again device 15 5 5 false inode first_call.1 same_call.1 disk first_call.2 same_call.2
      device-InRange disk-IsVolume inode-IsFile (omega arith) first_ok same_ok

sfs_bmap-apart_example : ◌≢◌ {A = ℕ} 5 6
sfs_bmap-apart_example =
    sfs_bmap-apart device 15 16 5 6 inode first_call.1 second_call.1 disk first_call.2 second_call.2
      device-InRange disk-IsVolume inode-IsFile (omega arith) (omega arith) (λ e. omega (arith, e))
      first_ok second_ok
