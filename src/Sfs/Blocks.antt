-- ===== src/Sfs/Blocks.antt =====
-- Transfers of blocks, and sfs_balloc over a volume whose free map is in order.
use os22_crisologo_minichell.Base.{
  ℕ, zero, suc, ◌+◌, ◌<◌, ◌≤◌, ◌≡◌, ◌≢◌, refl, sym, ap, subst, ◌∙◌, Bool, true, false, ◌⊎◌, inl,
  inr, arith, ltb, leb, ◌==◌, if◌then◌else◌, ok, err, got, einval, eio, Bool-cases, enospc,
  ne_of_==,
}
use os22_crisologo_minichell.Bitmap.{Bitmap}
use os22_crisologo_minichell.Bitmap.Alloc.{IsWf, bit_at, Allocated, bitmap_alloc_lem}
use os22_crisologo_minichell.Sfs.{
  Device, Volume, sfs_rwblock, sfs_readblock, sfs_writeblock, sfs_clearblock, clear_new, sfs_balloc,
  put_at,
}
use os22_crisologo_minichell.Sfs.Marks.{Unmarked, bitmap_unmark_lem}

-- The bit of a block in the free map.
unfoldable pub bit : Volume → ℕ → Bool
bit sfs block = bit_at sfs.freemap.v block

-- Blocks past the volume and block 0 are in use, and every block has a bit.
pub record IsVolume (sfs : Volume) : Type 0 where
  pub map : IsWf sfs.freemap
  pub room : sfs.sb_nblocks ≤ sfs.freemap.nbits
  pub past : (b : ℕ) → sfs.sb_nblocks ≤ b → bit sfs b ≡ true
  pub super : bit sfs 0 ≡ true

-- The device has every block of a volume of `nblocks` blocks: it finds none of them out of range.
abbrev pub InRange : Device → ℕ → Type 0
InRange dev nblocks =
    (writing : Bool) (block before : ℕ) → block < nblocks → dev writing block before ≢ einval

-- A block that is free is one of the volume's.
pub in_range :
    {sfs : Volume} (b : ℕ) → IsVolume sfs → bit sfs b ≡ false → (b < sfs.sb_nblocks) × (b ≢ 0)
in_range {sfs} b v c = (in_volume, not_super)
  where
    in_volume : b < sfs.sb_nblocks
    in_volume = elim (Bool-cases (ltb b sfs.sb_nblocks)) [
      | inl y ↦ ground (arith, y)
      | inr n ↦ absurd (ground (arith, c, v.past b (ground (arith, n))))
    ]

    not_super : b ≢ 0
    not_super z = absurd (ground (arith, subst (λ x. bit sfs x ≡ false) z c, v.super))

-- Every transfer ends, with a number of attempts and a result.
pub sfs_rwblock_lem :
    (dev : Device) (writing : Bool) (block tries : ℕ) (sfs : Volume)
    → InRange dev sfs.sb_nblocks
    → block < sfs.sb_nblocks
    → (r n : ℕ) × (sfs_rwblock dev writing block tries sfs ≡ ok (r, record sfs { transfers = n }))
unfolding sfs_rwblock
sfs_rwblock_lem dev writing block zero sfs d l =
    let ne : (dev writing block sfs.transfers == einval) ≡ false =
      ground (arith, d writing block sfs.transfers l) in
    (dev writing block sfs.transfers, sfs.transfers + 1, rw ne refl)
sfs_rwblock_lem dev writing block (suc tries) sfs d l =
    let ne : (dev writing block sfs.transfers == einval) ≡ false =
      ground (arith, d writing block sfs.transfers l) in
    elim (Bool-cases (dev writing block sfs.transfers == eio)) [
      | inl y ↦
          let (r, n, e) =
            sfs_rwblock_lem dev writing block tries (record sfs { transfers = sfs.transfers + 1 }) d
              l in
          (r, n, rw ne (rw y e))
      | inr y ↦ (dev writing block sfs.transfers, sfs.transfers + 1, rw ne (rw y refl))
    ]

-- Nothing has changed but the number of transfers.
pub record Same (sfs sfs' : Volume) : Type 0 where
  pub nblocks : sfs'.sb_nblocks ≡ sfs.sb_nblocks
  pub bits : (b : ℕ) → bit sfs' b ≡ bit sfs b
  pub words : (b w : ℕ) → sfs'.words b w ≡ sfs.words b w
  pub volume : IsVolume sfs'

-- Block `b` was free and is now in use, and all its words are 0.
pub record New (sfs : Volume) (b : ℕ) (sfs' : Volume) : Type 0 where
  pub nblocks : sfs'.sb_nblocks ≡ sfs.sb_nblocks
  pub was_free : bit sfs b ≡ false
  pub bits : (c : ℕ) → bit sfs' c ≡ (if b == c then true else bit sfs c)
  pub words : (c w : ℕ) → sfs'.words c w ≡ (if b == c then 0 else sfs.words c w)
  pub volume : IsVolume sfs'

pub counted-IsVolume :
    {sfs : Volume} (n : ℕ) → IsVolume sfs → IsVolume (record sfs { transfers = n })
unfolding bit
counted-IsVolume n v = record { map = v.map; room = v.room; past = v.past; super = v.super }

pub sfs_readblock_lem :
    (dev : Device) (block : ℕ) (sfs : Volume)
    → InRange dev sfs.sb_nblocks
    → block < sfs.sb_nblocks
    → IsVolume sfs
    → (sfs' : Volume) × Same sfs sfs'
      × (((e : ℕ) × (sfs_readblock dev block sfs ≡ ok (err e, sfs')) × (e ≢ 0))
          ⊎ (sfs_readblock dev block sfs ≡ ok (got (sfs.words block), sfs')))
unfolding sfs_readblock bit
sfs_readblock_lem dev block sfs d l v =
    let (r, n, e) = sfs_rwblock_lem dev false block 10 sfs d l in
    (
      record sfs { transfers = n },
      record {
        nblocks = refl;
        bits = λ b. refl;
        words = λ b w. refl;
        volume = counted-IsVolume n v;
      },
      elim (Bool-cases (r == 0)) [
        | inl z ↦ inr (rw e (rw z refl))
        | inr z ↦ inl (r, rw e (rw z refl), ne_of_== r 0 z)
      ],
    )

abbrev pub written : ℕ → (ℕ → ℕ) → ℕ → Volume → Volume
written block contents n sfs = record sfs { words = put_at sfs.words block contents; transfers = n }

pub written-IsVolume :
    {sfs : Volume} (block : ℕ) (contents : ℕ → ℕ) (n : ℕ)
    → IsVolume sfs
    → IsVolume (written block contents n sfs)
unfolding bit
written-IsVolume block contents n v = record {
  map = v.map;
  room = v.room;
  past = v.past;
  super = v.super;
}

pub sfs_writeblock_lem :
    (dev : Device) (block : ℕ) (contents : ℕ → ℕ) (sfs : Volume)
    → InRange dev sfs.sb_nblocks
    → block < sfs.sb_nblocks
    → (n : ℕ) × (((r : ℕ) × (sfs_writeblock dev block contents sfs
            ≡ ok (r, record sfs { transfers = n }))
          × ((r == 0) ≡ false))
        ⊎ (sfs_writeblock dev block contents sfs ≡ ok (0, written block contents n sfs)))
unfolding sfs_writeblock
sfs_writeblock_lem dev block contents sfs d l =
    let (r, n, e) = sfs_rwblock_lem dev true block 10 sfs d l in
    (
      n,
      elim (Bool-cases (r == 0)) [
        | inl z ↦
            inr (rw e (rw z (ap (λ x. ok (x, written block contents n sfs)) (ground (arith, z)))))
        | inr z ↦ inl (r, rw e (rw z refl), z)
      ],
    )

-- The volume between bitmap_alloc and sfs_clearblock.
abbrev marked : Bitmap → Volume → Volume
marked map sfs = record sfs { freemap = map; freemapdirty = true }

module _ (dev : Device) (sfs : Volume) (d : InRange dev sfs.sb_nblocks) (v : IsVolume sfs) where
  -- A bit that was clear, set and cleared again.
  restored :
      (b : ℕ) (map map' : Bitmap)
      → Allocated sfs.freemap b map
      → Unmarked map b map'
      → (c : ℕ) → bit_at map'.v c ≡ bit sfs c
  unfolding bit
  restored b map map' a m c = elim (Bool-cases (b == c)) [
    | inl y ↦
        m.now c
        ∙ rw y (sym (subst (λ x. bit_at sfs.freemap.v x ≡ false) (ground (arith, y)) a.was_clear))
    | inr n ↦ m.now c ∙ rw n (a.now c ∙ rw n refl)
  ]

  clear_new_lem :
      (b : ℕ) (map : Bitmap)
      → Allocated sfs.freemap b map
      → (sfs' : Volume) × (((e : ℕ) × (clear_new dev b (marked map sfs) ≡ ok (err e, sfs'))
            × Same sfs sfs')
          ⊎ ((clear_new dev b (marked map sfs) ≡ ok (got b, sfs')) × New sfs b sfs'))
  unfolding clear_new sfs_clearblock bit
  clear_new_lem b map a =
      let (in_volume, not_super) = in_range b v a.was_clear in
      let small : leb sfs.sb_nblocks b ≡ false = ground (arith, in_volume) in
      let (n, result) = sfs_writeblock_lem dev b (λ w. 0) (marked map sfs) d in_volume in
      elim result [
        | inr e ↦ (
          written b (λ w. 0) n (marked map sfs),
          inr (
            rw small (rw e refl),
            record {
              nblocks = refl;
              was_free = a.was_clear;
              bits = a.now;
              words = λ c w. ground arith;
              volume = record {
                map = a.wf;
                room = subst (λ x. sfs.sb_nblocks ≤ x) (sym a.size) v.room;
                past = λ c l. a.now c ∙ ground (arith, v.past c l);
                super = a.now 0 ∙ ground (arith, v.super);
              };
            },
          ),
        )
        | inl (r, e, z) ↦
            let (map', u, m) =
              bitmap_unmark_lem a.wf b (subst (λ x. b < x) (sym a.size) a.in_range)
                (a.now b ∙ ground arith) in
            let back : (c : ℕ) → bit_at map'.v c ≡ bit sfs c = λ c. restored b map map' a m c in
            (
              record (marked map' sfs) { transfers = n },
              inl (
                r,
                rw small (rw e (rw z (rw u refl))),
                record {
                  nblocks = refl;
                  bits = back;
                  words = λ c w. refl;
                  volume = record {
                    map = m.wf;
                    room = subst (λ x. sfs.sb_nblocks ≤ x) (sym (m.size ∙ a.size)) v.room;
                    past = λ c l. back c ∙ v.past c l;
                    super = back 0 ∙ v.super;
                  };
                },
              ),
            )
      ]

  pub sfs_balloc_lem :
      (sfs' : Volume) × (((e : ℕ) × (sfs_balloc dev sfs ≡ ok (err e, sfs')) × Same sfs sfs')
        ⊎ ((b : ℕ) × (sfs_balloc dev sfs ≡ ok (got b, sfs')) × New sfs b sfs'))
  unfolding sfs_balloc
  sfs_balloc_lem = elim (bitmap_alloc_lem v.map) [
    | inl (e, full) ↦ (
      sfs,
      inl (
        enospc,
        rw e refl,
        record { nblocks = refl; bits = λ c. refl; words = λ c w. refl; volume = v },
      ),
    )
    | inr (b, map, e, a) ↦
        let (sfs', cleared) = clear_new_lem b map a in
        elim cleared [
          | inl (r, f, s) ↦ (sfs', inl (r, rw e f, s))
          | inr (f, s) ↦ (sfs', inr (b, rw e f, s))
        ]
  ]
