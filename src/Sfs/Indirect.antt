-- ===== src/Sfs/Indirect.antt =====
-- sfs_bmap over the entries of the indirect block, and over all blocks of a file.
use os22_crisologo_minichell.Base.{
  ℕ, ◌+◌, ◌-◌, ◌/◌, ◌%◌, ◌<◌, ◌≡◌, ◌≢◌, refl, sym, ap, subst, ◌∙◌, ◌⊎◌, inl, inr, Bool, true, false,
  arith, ltb, leb, ◌==◌, ◌&&◌, not, if◌then◌else◌, ok, Got, err, got, Bool-cases,
}
use os22_crisologo_minichell.Sfs.{
  Device, Volume, Inode, put_at, sfs_bmap, map_indirect, add_entry, hand_back, map_loaded,
}
use os22_crisologo_minichell.Sfs.Blocks.{
  bit, IsVolume, InRange, New, written, written-IsVolume, sfs_balloc_lem, sfs_writeblock_lem,
  counted-IsVolume,
}
use os22_crisologo_minichell.Sfs.File.{
  holds, IsFile, Grows, Added-IsFile, Same-IsFile, hand_back_lem, entry-holds, entry-Added,
}
use os22_crisologo_minichell.Sfs.Chain.{Returns-after}
use os22_crisologo_minichell.Sfs.Map.{
  Returns, Loads, map_direct_lem, load_indirect_lem, found-Returns, Added-Returns, failed,
  New-Grows, both_of, in_volume,
}

module _ {sv : Inode} {s : Volume} (v : IsVolume s) (f : IsFile sv s) (dev : Device)
    (d : InRange dev s.sb_nblocks) where
  entry_of :
      (off : ℕ) → off < 128 → sv.indirect ≢ 0 → holds sv s (15 + off) ≡ s.words sv.indirect off
  unfolding holds
  entry_of off l n = ground (arith, l, n)

  -- A transfer of the indirect block with a new entry.
  written-Grows :
      {b : ℕ} {s' : Volume} (contents : ℕ → ℕ) (t : ℕ)
      → New s b s'
      → Grows sv s (written sv.indirect contents t s')
  unfolding bit
  written-Grows {b} {s'} contents t n =
      let g = New-Grows v f n in
      record {
        nblocks = g.nblocks;
        bits = g.bits;
        words = λ c w u ne.
            let e : (sv.indirect == c) ≡ false = ground (arith, ne) in rw e (g.words c w u ne);
      }

  -- The new block's entry could not be written.
  lost :
      (k t : ℕ) {b e : ℕ} {s' : Volume}
      → New s b s'
      → Returns k true sv s (err e) sv (record s' { transfers = t })
  unfolding bit holds
  lost k t {b} {e} {s'} n =
      let same = entry-holds v f n in
      let g = New-Grows v f n in
      record {
        fine = record {
          volume = counted-IsVolume t n.volume;
          file = Same-IsFile v f n.nblocks g.bits same;
          grows = record { nblocks = g.nblocks; bits = g.bits; words = g.words };
        };
        others = λ j l ne. same j;
        answer = same k;
      }

  add_entry_lem :
      (off : ℕ) (idbuf : ℕ → ℕ)
      → off < 128
      → sv.indirect ≢ 0
      → ((w : ℕ) → idbuf w ≡ s.words sv.indirect w)
      → holds sv s (15 + off) ≡ 0
      → (g : Got ℕ) × (sv' : Inode) × (s' : Volume) × (add_entry dev sv.indirect idbuf off sv s
          ≡ ok (g, sv', s'))
        × Returns (15 + off) true sv s g sv' s'
  unfolding add_entry
  add_entry_lem off idbuf l n same z =
      let (s1, result) = sfs_balloc_lem dev s d v in
      elim result [
        | inl (e, q, m) ↦ (err e, sv, s1, rw q refl, failed v f (15 + off) true m)
        | inr (b, q, new) ↦
            let (t, wrote) =
              sfs_writeblock_lem dev sv.indirect (put_at idbuf off b) s1
                (subst (InRange dev) (sym new.nblocks) d)
                (subst (λ x. sv.indirect < x) (sym new.nblocks) (in_volume v f dev d n)) in
            elim wrote [
              | inl (r, w, bad) ↦ (
                err r,
                sv,
                record s1 { transfers = t },
                rw q (rw w (rw bad refl)),
                lost (15 + off) t new,
              )
              | inr w ↦
                  let s2 = written sv.indirect (put_at idbuf off b) t s1 in
                  let a = entry-Added v f new off t idbuf n l same in
                  let f' = Added-IsFile v f a in
                  let v' : IsVolume s2 =
                    written-IsVolume sv.indirect (put_at idbuf off b) t new.volume in
                  let h =
                    hand_back_lem v' f' b (15 + off) (sym (a.now (15 + off) ∙ ground arith)) in
                  (
                    got b,
                    sv,
                    s2,
                    rw q (rw w h),
                    Added-Returns v f a
                        (record {
                          volume = v';
                          file = f';
                          grows = written-Grows (put_at idbuf off b) t new;
                        })
                        z,
                  )
            ]
      ]

  -- an entry of the indirect block that is in hand
  in_hand_lem :
      (off : ℕ) (doalloc : Bool) (idbuf : ℕ → ℕ)
      → off < 128
      → sv.indirect ≢ 0
      → ((w : ℕ) → idbuf w ≡ s.words sv.indirect w)
      → (g : Got ℕ) × (sv' : Inode) × (s' : Volume) × ((if idbuf off == 0 && doalloc
            then add_entry dev sv.indirect idbuf off sv s
            else hand_back (idbuf off) sv s)
          ≡ ok (g, sv', s'))
        × Returns (15 + off) doalloc sv s g sv' s'
  in_hand_lem off doalloc idbuf l n same =
      let at : holds sv s (15 + off) ≡ idbuf off = entry_of off l n ∙ sym (same off) in
      elim (Bool-cases (idbuf off == 0 && doalloc)) [
        | inl y ↦
            let (z, q) = both_of (idbuf off) doalloc y in
            let (g, sv', s', e, r) = add_entry_lem off idbuf l n same (at ∙ z) in
            (g, sv', s', rw y e, subst (λ x. Returns (15 + off) x sv s g sv' s') (sym q) r)
        | inr y ↦ (
          got (idbuf off),
          sv,
          s,
          rw y (hand_back_lem v f (idbuf off) (15 + off) (sym at)),
          subst (λ x. Returns (15 + off) doalloc sv s (got x) sv s) at
              (found-Returns v f (15 + off) doalloc (λ q z. ground (arith, y, q, z, at))),
        )
      ]

module _ {sv : Inode} {s : Volume} (v : IsVolume s) (f : IsFile sv s) (dev : Device)
    (d : InRange dev s.sb_nblocks) where
  no_indirect : (off : ℕ) → sv.indirect ≡ 0 → off < 128 → holds sv s (15 + off) ≡ 0
  unfolding holds
  no_indirect off z l = ground (arith, z, l)

  loaded_lem :
      (off : ℕ) (doalloc : Bool)
      → off < 128
      → (g1 : Got (ℕ × (ℕ → ℕ))) (sv1 : Inode) (s1 : Volume) → Loads v f dev d g1 sv1 s1
      → (g : Got ℕ) × (sv' : Inode) × (s' : Volume) × (map_loaded dev off doalloc (g1, sv1, s1)
          ≡ ok (g, sv', s'))
        × Returns (15 + off) doalloc sv s g sv' s'
  unfolding map_loaded
  loaded_lem off doalloc l (err e) sv1 s1 (fine, same) = (
    err e,
    sv1,
    s1,
    refl,
    record { fine = fine; others = λ j m n. same j; answer = same (15 + off) },
  )
  loaded_lem off doalloc l (got (id, idbuf)) sv1 s1 h =
      let n : sv1.indirect ≢ 0 = λ z. h.there (sym h.at ∙ z) in
      let link = subst (λ x. (x ≡ sv.indirect) ⊎ (bit s x ≡ false)) (sym h.at) h.link in
      let same : (w : ℕ) → idbuf w ≡ s1.words sv1.indirect w =
        λ w. h.contents w ∙ ap (λ x. s1.words x w) (sym h.at) in
      let (g, sv', s', e, r) =
        in_hand_lem h.fine.volume h.fine.file dev (subst (InRange dev) (sym h.fine.grows.nblocks) d)
          off doalloc idbuf l n same in
      (
        g,
        sv',
        s',
        subst
            (λ x.
              (if idbuf off == 0 && doalloc
                then add_entry dev x idbuf off sv1 s1
                else hand_back (idbuf off) sv1 s1)
              ≡ ok (g, sv', s'))
            h.at e,
        Returns-after sv sv1 sv' s s1 s' (15 + off) doalloc g (omega (arith, l)) link h.fine h.same
            r,
      )

  map_indirect_lem :
      (off : ℕ) (doalloc : Bool)
      → off < 128
      → (g : Got ℕ) × (sv' : Inode) × (s' : Volume) × (map_indirect dev off doalloc sv s
          ≡ ok (g, sv', s'))
        × Returns (15 + off) doalloc sv s g sv' s'
  unfolding map_indirect
  map_indirect_lem off doalloc l = elim (Bool-cases (sv.indirect == 0 && not doalloc)) [
    | inl y ↦
        let z = no_indirect off (ground (arith, y)) l in
        let q : doalloc ≡ false = ground (arith, y) in
        (
          got 0,
          sv,
          s,
          rw y refl,
          subst (λ x. Returns (15 + off) doalloc sv s (got x) sv s) z
              (found-Returns v f (15 + off) doalloc (λ p n. ground (arith, p, q))),
        )
    | inr y ↦
        let (g1, sv1, s1, e, loads) = load_indirect_lem v f dev d in
        let (g, sv', s', q, r) = loaded_lem off doalloc l g1 sv1 s1 loads in
        (g, sv', s', rw y (rw e q), r)
  ]

  -- In a volume and a file that are in order, on a device that never answers EINVAL for a block of
  -- the volume, sfs_bmap of a block that a file can have always returns. An error leaves the
  -- file's blocks as they were; otherwise the answer is the block that the file now holds there,
  -- which is the one that it held before, if any, and is one if it was to be allocated, and
  -- without that the file is as before. The file's other blocks are as they were, what is in use
  -- stays in use, and its words do not change but in the file's indirect block. The volume and the
  -- file are in order again: every block that the file holds is in use and none is held twice.
  pub sfs_bmap-Returns :
      (fileblock : ℕ) (doalloc : Bool)
      → fileblock < 143
      → (g : Got ℕ) × (sv' : Inode) × (s' : Volume) × (sfs_bmap dev fileblock doalloc sv s
          ≡ ok (g, sv', s'))
        × Returns fileblock doalloc sv s g sv' s'
  unfolding sfs_bmap
  sfs_bmap-Returns k doalloc l = elim (Bool-cases (ltb k 15)) [
    | inl y ↦
        let (g, sv', s', e, r) = map_direct_lem v f dev d k doalloc (ground (arith, y)) in
        (g, sv', s', rw y e, r)
    | inr y ↦
        let n : leb 1 ((k - 15) / 128) ≡ false = ground (arith, l) in
        let off : (k - 15) % 128 ≡ k - 15 = omega (arith, l) in
        let (g, sv', s', e, r) = map_indirect_lem (k - 15) doalloc (omega (arith, l)) in
        (
          g,
          sv',
          s',
          rw y (rw n (rw off e)),
          subst (λ x. Returns x doalloc sv s g sv' s') (ground (arith, y)) r,
        )
  ]
