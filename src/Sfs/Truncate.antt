-- ===== src/Sfs/Truncate.antt =====
-- sfs_itrunc of fs/sfs/sfs_bmap.c.
use os22_crisologo_minichell.Base.{
  ℕ, zero, suc, ◌+◌, ◌-◌, ◌/◌, ◌%◌, ◌^◌, Bool, true, false, not, ◌&&◌, ◌||◌, ltb, leb, ◌==◌,
  if◌then◌else◌, Outcome, ok, ◌>>=◌, err, got,
}
use os22_crisologo_minichell.Sfs.{
  Device, Volume, Inode, put_at, sfs_bfree, sfs_readblock, sfs_writeblock, ndirect, dbperidb,
  blocksize,
}

-- DIVROUNDUP(len, SFS_BLOCKSIZE) in 32 bits
abbrev pub blocks_for : ℕ → ℕ
blocks_for len = (len + (blocksize - 1)) / blocksize % 2 ^ 32

-- one turn of the loop over the direct blocks
unfoldable pub drop_direct : (blocklen i : ℕ) → Inode → Volume → Outcome (Inode × Volume)
unfolding sfs_bfree
drop_direct blocklen i sv sfs =
    if leb blocklen i && not (sv.direct i == 0)
    then (sfs_bfree (sv.direct i) sfs >>= λ sfs'.
        ok (record sv { direct = put_at sv.direct i 0; dirty = true }, sfs'))
    else ok (sv, sfs)

-- the direct blocks `i`, ..., `i + n - 1`
unfoldable pub drop_directs : (blocklen i n : ℕ) → Inode → Volume → Outcome (Inode × Volume)
unfolding drop_direct
drop_directs blocklen i zero sv sfs = ok (sv, sfs)
drop_directs blocklen i (suc n) sv sfs =
    drop_direct blocklen i sv sfs >>= λ (sv', sfs'). drop_directs blocklen (i + 1) n sv' sfs'

-- the variables of the loop over the indirect block
pub record Scan : Type 0 where
  pub idbuf : ℕ → ℕ
  pub iddirty : Bool
  pub hasnonzero : Bool

-- the entry `j`, if it is past the new end
unfoldable pub drop_entry : (blocklen j : ℕ) → Scan → Volume → Outcome (Scan × Volume)
unfolding sfs_bfree
drop_entry blocklen j scan sfs =
    if ltb blocklen (ndirect + j) && not (scan.idbuf j == 0)
    then (sfs_bfree (scan.idbuf j) sfs >>= λ sfs'.
        ok (record scan { idbuf = put_at scan.idbuf j 0; iddirty = true }, sfs'))
    else ok (scan, sfs)

abbrev pub note_nonzero : ℕ → Scan → Scan
note_nonzero j scan = record scan { hasnonzero = scan.hasnonzero || not (scan.idbuf j == 0) }

-- the entries `j`, ..., `j + n - 1`
unfoldable pub drop_entries : (blocklen j n : ℕ) → Scan → Volume → Outcome (Scan × Volume)
unfolding drop_entry
drop_entries blocklen j zero scan sfs = ok (scan, sfs)
drop_entries blocklen j (suc n) scan sfs = drop_entry blocklen j scan sfs >>= λ (scan', sfs').
    drop_entries blocklen (j + 1) n (note_nonzero j scan') sfs'

abbrev pub start_scan : (ℕ → ℕ) → Scan
start_scan idbuf = record { idbuf = idbuf; iddirty = false; hasnonzero = false }

-- what is done with the indirect block after the loop
unfoldable pub end_scan : Device → Inode → Scan → Volume → Outcome (ℕ × Inode × Volume)
unfolding sfs_bfree sfs_writeblock
end_scan dev sv scan sfs =
    if not scan.hasnonzero
    then (sfs_bfree sv.indirect sfs >>= λ sfs'.
        ok (0, record sv { indirect = 0; dirty = true }, sfs'))
    else if scan.iddirty
    then (sfs_writeblock dev sv.indirect scan.idbuf sfs >>= λ (result, sfs'). ok (result, sv, sfs'))
    else ok (0, sv, sfs)

unfoldable pub drop_indirect :
    Device → (blocklen : ℕ) → Inode → Volume → Outcome (ℕ × Inode × Volume)
unfolding drop_entries end_scan sfs_readblock
drop_indirect dev blocklen sv sfs =
    if ltb blocklen (ndirect + dbperidb - 1) && not (sv.indirect == 0)
    then (sfs_readblock dev sv.indirect sfs >>= λ (g, sfs'). elim g [
      | err e ↦ ok (e, sv, sfs')
      | got idbuf ↦ drop_entries blocklen 0 dbperidb (start_scan idbuf) sfs' >>= λ (scan, sfs'').
          end_scan dev sv scan sfs''
    ])
    else ok (0, sv, sfs)

-- The new size is set only when all went well.
unfoldable pub sfs_itrunc : Device → (len : ℕ) → Inode → Volume → Outcome (ℕ × Inode × Volume)
unfolding drop_directs drop_indirect
sfs_itrunc dev len sv sfs = drop_directs (blocks_for len) 0 ndirect sv sfs >>= λ (sv1, sfs1).
    drop_indirect dev (blocks_for len) sv1 sfs1 >>= λ (result, sv2, sfs2).
    ok (result, if result == 0 then record sv2 { size = len % 2 ^ 32; dirty = true } else sv2, sfs2)
