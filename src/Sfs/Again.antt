-- ===== src/Sfs/Again.antt =====
-- Two calls of sfs_bmap one after the other.
use os22_crisologo_minichell.Base.{
  ℕ, ◌<◌, ◌≡◌, ◌≢◌, refl, sym, subst, ◌∙◌, Bool, true, ok, Got, got, Outcome,
}
use native.Mathlib.Decide.{ℕ_discrete}
use os22_crisologo_minichell.Sfs.{Device, Volume, Inode, Mapped, sfs_bmap}
use os22_crisologo_minichell.Sfs.Blocks.{IsVolume, InRange}
use os22_crisologo_minichell.Sfs.File.{holds, IsFile}
use os22_crisologo_minichell.Sfs.Map.{Returns}
use os22_crisologo_minichell.Sfs.Indirect.{sfs_bmap-Returns}

ok-parts :
    {g g' : Got ℕ} {x x' : Inode} {y y' : Volume}
    → ◌≡◌ {A = Outcome Mapped} (ok (g, x, y)) (ok (g', x', y'))
    → (g ≡ g') × (x ≡ x') × (y ≡ y')
ok-parts e = (cc, cc, cc)

module _ (dev : Device) where
  -- what a call that returned has returned
  returned :
      {sv sv' : Inode} {s s' : Volume} {g : Got ℕ} (k : ℕ) (doalloc : Bool)
      → InRange dev s.sb_nblocks
      → IsVolume s
      → IsFile sv s
      → k < 143
      → sfs_bmap dev k doalloc sv s ≡ ok (g, sv', s')
      → Returns k doalloc sv s g sv' s'
  returned {sv} {sv'} {s} {s'} {g} k doalloc d v f l h =
      let (g1, sv1, s1, e, r) = sfs_bmap-Returns v f dev d k doalloc l in
      let (p, q, t) = ok-parts (sym e ∙ h) in
      subst (λ x. Returns k doalloc sv s x sv' s') p
        (subst (λ x. Returns k doalloc sv s g1 x s') q
          (subst (λ x. Returns k doalloc sv s g1 sv1 x) t r))

-- In a volume and a file that are in order, on a device that never answers EINVAL for a block of
-- the volume: once sfs_bmap, for a block that a file can have and asked to allocate it if need be,
-- has returned a block, a second call of it for the same block of the file, whether it may
-- allocate or not, returns that block if it returns one, and leaves all blocks of the file as they
-- are.
pub sfs_bmap-again :
    (dev : Device) (k b b' : ℕ) (doalloc : Bool) (sv sv' sv'' : Inode) (s s' s'' : Volume)
    → InRange dev s.sb_nblocks
    → IsVolume s
    → IsFile sv s
    → k < 143
    → sfs_bmap dev k true sv s ≡ ok (got b, sv', s')
    → sfs_bmap dev k doalloc sv' s' ≡ ok (got b', sv'', s'')
    → (b' ≡ b) × ((j : ℕ) → j < 143 → holds sv'' s'' j ≡ holds sv' s' j)
sfs_bmap-again dev k b b' doalloc sv sv' sv'' s s' s'' d v f l h h' =
    let first = returned dev k true d v f l h in
    let d1 = subst (InRange dev) (sym first.fine.grows.nblocks) d in
    let second = returned dev k doalloc d1 first.fine.volume first.fine.file l h' in
    let there : holds sv' s' k ≢ 0 = λ z. first.answer.allocated refl (sym first.answer.held ∙ z) in
    let same : b' ≡ b = second.answer.before there ∙ first.answer.held in
    (
      same,
      λ j m. elim (ℕ_discrete j k) [
        | yes e ↦
            subst (λ x. holds sv'' s'' x ≡ holds sv' s' x) (sym e)
              (second.answer.held ∙ (same ∙ sym first.answer.held))
        | no n ↦ second.others j m n
      ],
    )

-- In a volume and a file that are in order, on a device that never answers EINVAL for a block of
-- the volume, two calls of sfs_bmap that may allocate, one after the other, for two different
-- blocks that a file can have, do not return the same disk block.
pub sfs_bmap-apart :
    (dev : Device) (j k b c : ℕ) (sv sv' sv'' : Inode) (s s' s'' : Volume)
    → InRange dev s.sb_nblocks
    → IsVolume s
    → IsFile sv s
    → j < 143
    → k < 143
    → j ≢ k
    → sfs_bmap dev j true sv s ≡ ok (got b, sv', s')
    → sfs_bmap dev k true sv' s' ≡ ok (got c, sv'', s'')
    → b ≢ c
sfs_bmap-apart dev j k b c sv sv' sv'' s s' s'' d v f lj lk n h h' e =
    let first = returned dev j true d v f lj h in
    let d1 = subst (InRange dev) (sym first.fine.grows.nblocks) d in
    let second = returned dev k true d1 first.fine.volume first.fine.file lk h' in
    let at_j : holds sv'' s'' j ≡ b = second.others j lj n ∙ first.answer.held in
    n (
      second.fine.file.once j k (λ z. first.answer.allocated refl (sym at_j ∙ z))
        (at_j ∙ (e ∙ sym second.answer.held)))
