-- ===== src/Sfs.antt =====
-- The blocks of an SFS volume: the transfers of fs/sfs/sfs_io.c, the free map of
-- fs/sfs/sfs_balloc.c and the block map of fs/sfs/sfs_bmap.c, over the bitmap of lib/bitmap.c. The
-- device is a parameter.
pub mod Marks
pub mod Blocks
pub mod File
pub mod Map
pub mod Chain
pub mod Indirect
pub mod Truncate
pub mod Drop
pub mod Cut
pub mod Shorten
pub mod Itrunc
pub mod Again
use os22_crisologo_minichell.Base.{
  ℕ, zero, suc, ◌+◌, ◌-◌, ◌/◌, ◌%◌, ◌^◌, Bool, true, false, not, ◌&&◌, ◌||◌, none, some, ltb, leb,
  ◌==◌, if◌then◌else◌, Outcome, ok, panic, fault, ◌>>=◌, Got, err, got, einval, eio, enospc, efbig,
}
use os22_crisologo_minichell.Bitmap.{Bitmap, bitmap_alloc, bitmap_unmark, bitmap_isset}

-- DEVOP_IO: the result of the transfer of a block, of which so many came before.
abbrev pub Device : Type 0
Device = (writing : Bool) (block before : ℕ) → ℕ

-- struct sfs_fs, with the words of every block of the device and the number of transfers so far
pub record Volume : Type 0 where
  pub sb_nblocks : ℕ
  pub freemap : Bitmap
  pub freemapdirty : Bool
  pub words : ℕ → ℕ → ℕ
  pub transfers : ℕ

-- struct sfs_vnode: the inode's fields that the block map uses
pub record Inode : Type 0 where
  pub size : ℕ
  pub direct : ℕ → ℕ
  pub indirect : ℕ
  pub dirty : Bool

abbrev pub ndirect : ℕ
ndirect = 15

abbrev pub nindirect : ℕ
nindirect = 1

abbrev pub dbperidb : ℕ
dbperidb = 128

abbrev pub blocksize : ℕ
blocksize = 512

-- f[i] = x
abbrev pub put_at : {A : Type 0} → (ℕ → A) → ℕ → A → ℕ → A
put_at f i x j = if i == j then x else f j

-- sfs_rwblock with `tries` retries left
unfoldable pub sfs_rwblock : Device → Bool → ℕ → (tries : ℕ) → Volume → Outcome (ℕ × Volume)
sfs_rwblock dev writing block zero sfs =
    let result = dev writing block sfs.transfers in
    if result == einval then panic else ok (result, record sfs { transfers = sfs.transfers + 1 })
sfs_rwblock dev writing block (suc tries) sfs =
    let result = dev writing block sfs.transfers in
    let retry =
      sfs_rwblock dev writing block tries (record sfs { transfers = sfs.transfers + 1 }) in
    if result == einval
    then panic
    else if result == eio
    then retry
    else ok (result, record sfs { transfers = sfs.transfers + 1 })

unfoldable pub sfs_readblock : Device → ℕ → Volume → Outcome (Got (ℕ → ℕ) × Volume)
unfolding sfs_rwblock
sfs_readblock dev block sfs = sfs_rwblock dev false block 10 sfs >>= λ (result, sfs').
    ok (if result == 0 then got (sfs'.words block) else err result, sfs')

unfoldable pub sfs_writeblock : Device → ℕ → (ℕ → ℕ) → Volume → Outcome (ℕ × Volume)
unfolding sfs_rwblock
sfs_writeblock dev block contents sfs = sfs_rwblock dev true block 10 sfs >>= λ (result, sfs').
    ok (
      result,
      if result == 0 then record sfs' { words = put_at sfs'.words block contents } else sfs',
    )

unfoldable pub sfs_clearblock : Device → ℕ → Volume → Outcome (ℕ × Volume)
unfolding sfs_writeblock
sfs_clearblock dev block sfs = sfs_writeblock dev block (λ w. 0) sfs

-- sfs_balloc, once a bit has been found
unfoldable pub clear_new : Device → ℕ → Volume → Outcome (Got ℕ × Volume)
unfolding sfs_clearblock
clear_new dev block sfs =
    if leb sfs.sb_nblocks block
    then panic
    else sfs_clearblock dev block sfs >>= λ (result, sfs').
        if result == 0
        then ok (got block, sfs')
        else bitmap_unmark block sfs'.freemap >>= λ map.
            ok (err result, record sfs' { freemap = map })

unfoldable pub sfs_balloc : Device → Volume → Outcome (Got ℕ × Volume)
unfolding clear_new
sfs_balloc dev sfs = bitmap_alloc sfs.freemap >>= λ (found, map). elim found [
  | none ↦ ok (err enospc, record sfs { freemap = map })
  | some block ↦ clear_new dev block (record sfs { freemap = map; freemapdirty = true })
]

unfoldable pub sfs_bfree : ℕ → Volume → Outcome Volume
sfs_bfree block sfs = bitmap_unmark block sfs.freemap >>= λ map.
    ok (record sfs { freemap = map; freemapdirty = true })

unfoldable pub sfs_bused : ℕ → Volume → Outcome Bool
sfs_bused block sfs = if leb sfs.sb_nblocks block then panic else bitmap_isset block sfs.freemap

-- What sfs_bmap returns: an error or the block, 0 for none.
abbrev pub Mapped : Type 0
Mapped = Got ℕ × Inode × Volume

-- the end of sfs_bmap
unfoldable pub hand_back : ℕ → Inode → Volume → Outcome Mapped
unfolding sfs_bused
hand_back block sv sfs =
    if block == 0
    then ok (got block, sv, sfs)
    else sfs_bused block sfs >>= λ used. if used then ok (got block, sv, sfs) else panic

-- a direct block that is allocated now
unfoldable pub new_direct : Device → ℕ → Inode → Volume → Outcome Mapped
unfolding sfs_balloc hand_back
new_direct dev fileblock sv sfs = sfs_balloc dev sfs >>= λ (g, sfs'). elim g [
  | err e ↦ ok (err e, sv, sfs')
  | got block ↦
      hand_back block (record sv { direct = put_at sv.direct fileblock block; dirty = true }) sfs'
]

unfoldable pub map_direct : Device → ℕ → Bool → Inode → Volume → Outcome Mapped
unfolding new_direct hand_back
map_direct dev fileblock doalloc sv sfs =
    if sv.direct fileblock == 0 && doalloc
    then new_direct dev fileblock sv sfs
    else hand_back (sv.direct fileblock) sv sfs

-- the indirect block's number and contents
abbrev pub Indirect : Type 0
Indirect = Got (ℕ × (ℕ → ℕ)) × Inode × Volume

-- an indirect block that is allocated now
unfoldable pub new_indirect : Device → Inode → Volume → Outcome Indirect
unfolding sfs_balloc
new_indirect dev sv sfs = sfs_balloc dev sfs >>= λ (g, sfs'). elim g [
  | err e ↦ ok (err e, sv, sfs')
  | got block ↦ ok (got (block, λ w. 0), record sv { indirect = block; dirty = true }, sfs')
]

unfoldable pub load_indirect : Device → Inode → Volume → Outcome Indirect
unfolding new_indirect sfs_readblock
load_indirect dev sv sfs =
    if sv.indirect == 0
    then new_indirect dev sv sfs
    else (sfs_readblock dev sv.indirect sfs >>= λ (g, sfs'). elim g [
      | err e ↦ ok (err e, sv, sfs')
      | got idbuf ↦ ok (got (sv.indirect, idbuf), sv, sfs')
    ])

-- the new block of an entry, which is written back
unfoldable pub add_entry :
    Device → (idblock : ℕ) → (idbuf : ℕ → ℕ) → (idoff : ℕ) → Inode → Volume → Outcome Mapped
unfolding sfs_balloc sfs_writeblock hand_back
add_entry dev idblock idbuf idoff sv sfs = sfs_balloc dev sfs >>= λ (g, sfs'). elim g [
  | err e ↦ ok (err e, sv, sfs')
  | got block ↦ sfs_writeblock dev idblock (put_at idbuf idoff block) sfs' >>= λ (result, sfs'').
      if result == 0 then hand_back block sv sfs'' else ok (err result, sv, sfs'')
]

-- an entry of the indirect block, once that is in memory
unfoldable pub map_loaded : Device → (idoff : ℕ) → Bool → Indirect → Outcome Mapped
unfolding add_entry hand_back
map_loaded dev idoff doalloc (g, sv, sfs) = elim g [
  | err e ↦ ok (err e, sv, sfs)
  | got (idblock, idbuf) ↦
      if idbuf idoff == 0 && doalloc
      then add_entry dev idblock idbuf idoff sv sfs
      else hand_back (idbuf idoff) sv sfs
]

unfoldable pub map_indirect : Device → (idoff : ℕ) → Bool → Inode → Volume → Outcome Mapped
unfolding load_indirect map_loaded
map_indirect dev idoff doalloc sv sfs =
    if sv.indirect == 0 && not doalloc
    then ok (got 0, sv, sfs)
    else load_indirect dev sv sfs >>= map_loaded dev idoff doalloc

unfoldable pub sfs_bmap : Device → (fileblock : ℕ) → Bool → Inode → Volume → Outcome Mapped
unfolding map_direct map_indirect
sfs_bmap dev fileblock doalloc sv sfs =
    if ltb fileblock ndirect
    then map_direct dev fileblock doalloc sv sfs
    else if leb nindirect ((fileblock - ndirect) / dbperidb)
    then ok (err efbig, sv, sfs)
    else map_indirect dev ((fileblock - ndirect) % dbperidb) doalloc sv sfs
