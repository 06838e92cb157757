-- ===== src/Sfs/Itrunc.antt =====
-- sfs_itrunc over a whole file.
use os22_crisologo_minichell.Base.{
  ℕ, ◌+◌, ◌-◌, ◌<◌, ◌≤◌, ◌≡◌, ◌≢◌, ◌%◌, ◌^◌, refl, sym, ap, subst, ◌∙◌, inl, inr, Bool, true, false,
  not, ◌&&◌, arith, ◌==◌, leb, ltb, if◌then◌else◌, ok, Bool-cases,
}
use os22_crisologo_minichell.Sfs.{Device, Volume, Inode}
use os22_crisologo_minichell.Sfs.Blocks.{bit, IsVolume, InRange, Same, sfs_readblock_lem}
use os22_crisologo_minichell.Sfs.File.{holds, IsFile}
use os22_crisologo_minichell.Sfs.Truncate.{start_scan, drop_indirect, sfs_itrunc, blocks_for}
use os22_crisologo_minichell.Sfs.Drop.{Slots, Slots-resp, Dropped, Dropped-refl, Dropped-trans}
use os22_crisologo_minichell.Sfs.Cut.{
  slots, Directs, drop_directs_lem, drop_entries_lem, Dropped-resp,
}
use os22_crisologo_minichell.Sfs.Shorten.{Ended, end_scan_lem}

Same-holds : (sv : Inode) {s s' : Volume} → Same s s' → (k : ℕ) → holds sv s' k ≡ holds sv s k
unfolding holds
Same-holds sv m k = let w = m.words sv.indirect (k - 15) in rw w refl

Same-Dropped : (sv : Inode) {s s' : Volume} → Same s s' → Dropped (holds sv s) s (holds sv s') s'
Same-Dropped sv m = record {
  nblocks = m.nblocks;
  words = m.words;
  each = λ k. inl (Same-holds sv m k);
  down = λ c u. m.bits c ∙ u;
  rest = λ c u. m.bits c;
}

Same-Slots :
    (sv : Inode) {s s' : Volume} → Same s s' → Slots (holds sv s) s → Slots (holds sv s') s'
Same-Slots sv {s} {s'} m f = Slots-resp (Same-holds sv m) (record {
  volume = m.volume;
  used = λ k n.
      let (u, l) = f.used k n in
      (m.bits (holds sv s k) ∙ u, subst (λ x. holds sv s k < x) (sym m.nblocks) l);
  once = f.once;
})

Same-Ended :
    {bl : ℕ} {sv sv' : Inode} {s s0 s' : Volume}
    → Same s s0
    → Ended bl sv s0 sv' s'
    → Ended bl sv s sv' s'
Same-Ended {bl} {sv} m e = record {
  middle = e.middle;
  dropped = Dropped-trans (Same-Dropped sv m) e.dropped;
  slotted = e.slotted;
  bits = e.bits;
  words = e.words;
  direct = e.direct;
  entry =
      λ j l. e.entry j l ∙ ap (λ x. if ltb bl (15 + j) then 0 else x) (Same-holds sv m (15 + j));
}

module _ (dev : Device) (bl : ℕ) (sv : Inode) (s : Volume) (d : InRange dev s.sb_nblocks)
    (f : Slots (holds sv s) s) where
  not_scanned :
      (ltb bl 142 && not (sv.indirect == 0)) ≡ false
      → (j : ℕ) → j < 128
      → holds sv s (15 + j) ≡ (if ltb bl (15 + j) then 0 else holds sv s (15 + j))
  unfolding holds
  not_scanned y j l = ground (arith, l, y)

  -- Where the loop over the indirect block is not run, there is nothing for it to do.
  no_scan : (ltb bl 142 && not (sv.indirect == 0)) ≡ false → Ended bl sv s sv s
  no_scan y = record {
    middle = s;
    dropped = Dropped-refl (λ k. refl);
    slotted = f;
    bits = λ c. refl;
    words = λ c w n. refl;
    direct = λ k. refl;
    entry = not_scanned y;
  }

  slots-holds :
      (t : Volume) → sv.indirect ≢ 0 → (k : ℕ) → slots sv (t.words sv.indirect) k ≡ holds sv t k
  unfolding slots holds
  slots-holds t n k = ground (arith, n)

  in_volume : sv.indirect ≢ 0 → sv.indirect < s.sb_nblocks
  unfolding holds
  in_volume n = (f.used 143 n).1

  drop_indirect_lem :
      (r : ℕ) × (sv' : Inode) × (s' : Volume) × (drop_indirect dev bl sv s ≡ ok (r, sv', s'))
      × (r ≡ 0 → Ended bl sv s sv' s')
  unfolding drop_indirect
  drop_indirect_lem = elim (Bool-cases (ltb bl 142 && not (sv.indirect == 0))) [
    | inr y ↦ (0, sv, s, rw y refl, λ z. no_scan y)
    | inl y ↦
        let n : sv.indirect ≢ 0 = λ z. ground (arith, y, z) in
        let (s0, m, result) = sfs_readblock_lem dev sv.indirect s d (in_volume n) f.volume in
        elim result [
          | inl (e, q, bad) ↦ (e, sv, s0, rw y (rw q refl), λ z. absurd (bad z))
          | inr q ↦
              let idbuf = s.words sv.indirect in
              let same : (w : ℕ) → idbuf w ≡ s0.words sv.indirect w =
                λ w. sym (m.words sv.indirect w) in
              let f0 =
                Slots-resp (λ k. slots-holds s n k ∙ sym (Same-holds sv m k)) (Same-Slots sv m f) in
              let (scan, s1, e1, a, c) =
                drop_entries_lem bl 0 128 sv (start_scan idbuf) s0 (omega arith) f0 in
              let (r, sv', s', e2, done) =
                end_scan_lem dev bl sv s0 (subst (InRange dev) (sym m.nblocks) d) n idbuf same scan
                  s1 a c in
              (r, sv', s', rw y (rw q (rw e1 e2)), λ z. Same-Ended m (done z))
        ]
  ]

-- Which of its blocks a file keeps that is cut to `bl` blocks.
abbrev pub kept : ℕ → ℕ → Bool
kept bl k = if ltb k 15 then ltb k bl else leb k bl

-- The file has been cut to `bl` blocks.
pub record Shortened (bl : ℕ) (sv : Inode) (s : Volume) (sv' : Inode) (s' : Volume) : Type 0 where
  pub volume : IsVolume s'
  pub file : IsFile sv' s'
  pub now : (k : ℕ) → k < 143 → holds sv' s' k ≡ (if kept bl k then holds sv s k else 0)
  pub freed :
      (k : ℕ) → k < 143 → kept bl k ≡ false → holds sv s k ≢ 0 → bit s' (holds sv s k) ≡ false
  pub rest : (c : ℕ) → ((k : ℕ) → holds sv s k ≢ 0 → holds sv s k ≢ c) → bit s' c ≡ bit s c
  pub words : (c w : ℕ) → c ≢ sv.indirect → s'.words c w ≡ s.words c w

-- the contents of the indirect block, all 0 if there is none
abbrev contents : Inode → Volume → ℕ → ℕ
contents sv s w = if sv.indirect == 0 then 0 else s.words sv.indirect w

holds-contents :
    (sv sv1 : Inode) (s s1 : Volume)
    → sv1.indirect ≡ sv.indirect
    → ((b w : ℕ) → s1.words b w ≡ s.words b w)
    → (k : ℕ) → holds sv1 s1 k ≡ slots sv1 (contents sv s) k
unfolding holds slots
holds-contents sv sv1 s s1 same words k = let w = words sv.indirect (k - 15) in rw (same, w) refl

IsFile-Slots : {sv : Inode} {s : Volume} → IsVolume s → IsFile sv s → Slots (holds sv s) s
IsFile-Slots v f = record { volume = v; used = f.used; once = f.once }

Slots-IsFile : (sv : Inode) (s : Volume) → Slots (holds sv s) s → IsFile sv s
Slots-IsFile sv s f = record { used = f.used; once = f.once }

module _ (bl : ℕ) (sv : Inode) (s : Volume) (sv1 : Inode) (s1 : Volume)
    (a : Directs bl 0 15 (contents sv s) sv s sv1 s1) where
  after_directs : (k : ℕ) → holds sv1 s1 k ≡ slots sv1 (contents sv s) k
  after_directs = holds-contents sv sv1 s s1 a.indirect a.dropped.words

  directs-Dropped : Dropped (holds sv s) s (holds sv1 s1) s1
  directs-Dropped =
      Dropped-trans (Dropped-refl (λ k. sym (holds-contents sv sv s s refl (λ b w. refl) k)))
        (Dropped-resp after_directs a.dropped)

  past_directs : (k : ℕ) → 15 ≤ k → k < 143 → holds sv1 s1 k ≡ holds sv s k
  unfolding holds
  past_directs k g l =
      let w = a.dropped.words sv.indirect (k - 15) in rw (a.indirect, w) (ground (arith, g, l))

  module _ (sv' : Inode) (s' : Volume) (b : Ended bl sv1 s1 sv' s') where
    all-Dropped : Dropped (holds sv s) s (holds sv' s') b.middle
    all-Dropped = Dropped-trans directs-Dropped b.dropped

    now_direct : (k : ℕ) → k < 15 → holds sv' s' k ≡ (if kept bl k then holds sv s k else 0)
    unfolding holds
    now_direct k l = ground (arith, l, a.direct k, b.direct k)

    now_entry :
        (k : ℕ) → 15 ≤ k → k < 143 → holds sv' s' k ≡ (if kept bl k then holds sv s k else 0)
    now_entry k g l =
        let e : holds sv' s' k ≡ (if ltb bl k then 0 else holds sv1 s1 k) =
          subst (λ x. holds sv' s' x ≡ (if ltb bl x then 0 else holds sv1 s1 x)) (omega (arith, g))
            (b.entry (k - 15) (omega (arith, g, l))) in
        e ∙ ground (arith, g, past_directs k g l)

    now_lem : (k : ℕ) → k < 143 → holds sv' s' k ≡ (if kept bl k then holds sv s k else 0)
    now_lem k l = elim (Bool-cases (ltb k 15)) [
      | inl y ↦ now_direct k (ground (arith, y))
      | inr y ↦ now_entry k (ground (arith, y)) l
    ]

    freed_lem :
        (k : ℕ) → k < 143 → kept bl k ≡ false → holds sv s k ≢ 0 → bit s' (holds sv s k) ≡ false
    freed_lem k l out n =
        let z : holds sv' s' k ≡ 0 = now_lem k l ∙ rw out refl in
        elim (all-Dropped.each k) [
          | inl e ↦ absurd (n (sym e ∙ z))
          | inr (y, c) ↦ b.bits (holds sv s k) ∙ c
        ]

    both-Shortened : Shortened bl sv s sv' s'
    both-Shortened = record {
      volume = b.slotted.volume;
      file = Slots-IsFile sv' s' b.slotted;
      now = now_lem;
      freed = freed_lem;
      rest = λ c u. b.bits c ∙ all-Dropped.rest c u;
      words = λ c w n. b.words c w (λ e. n (e ∙ a.indirect)) ∙ all-Dropped.words c w;
    }

resized :
    {bl : ℕ} {sv sv' : Inode} {s s' : Volume} (len : ℕ)
    → Shortened bl sv s sv' s'
    → Shortened bl sv s (record sv' { size = len % 2 ^ 32; dirty = true }) s'
unfolding holds
resized len c = record {
  volume = c.volume;
  file = record { used = c.file.used; once = c.file.once };
  now = c.now;
  freed = c.freed;
  rest = c.rest;
  words = c.words;
}

-- In a volume and a file that are in order, on a device that never answers EINVAL for a block of
-- the volume, sfs_itrunc always returns. If it returns 0, the file has the new size, its direct
-- blocks from the new length in blocks on are gone, and those of the indirect block after that
-- length, while the block at that length itself stays; the other blocks of the file are as before.
-- Blocks that are gone are free, every block that the file did not hold is as it was, and the
-- volume and the file are in order again.
pub sfs_itrunc-Shortened :
    (dev : Device) (len : ℕ) (sv : Inode) (s : Volume)
    → InRange dev s.sb_nblocks
    → IsVolume s
    → IsFile sv s
    → (r : ℕ) × (sv' : Inode) × (s' : Volume) × (sfs_itrunc dev len sv s ≡ ok (r, sv', s'))
      × (r ≡ 0 → (sv'.size ≡ len % 2 ^ 32) × Shortened (blocks_for len) sv s sv' s')
unfolding sfs_itrunc
sfs_itrunc-Shortened dev len sv s d v f =
    let bl : ℕ = blocks_for len in
    let f0 =
      Slots-resp (λ k. sym (holds-contents sv sv s s refl (λ b w. refl) k)) (IsFile-Slots v f) in
    let (sv1, s1, e1, a) = drop_directs_lem bl 0 15 (contents sv s) sv s (omega arith) f0 in
    let f1 = Slots-resp (after_directs bl sv s sv1 s1 a) a.slotted in
    let (r, sv2, s2, e2, done) =
      drop_indirect_lem dev bl sv1 s1 (subst (InRange dev) (sym a.dropped.nblocks) d) f1 in
    (
      r,
      (if r == 0 then record sv2 { size = len % 2 ^ 32; dirty = true } else sv2),
      s2,
      rw e1 (rw e2 refl),
      λ z.
          let y : (r == 0) ≡ true = ground (arith, z) in
          rw y (refl, resized len (both-Shortened bl sv s sv1 s1 a sv2 s2 (done z))),
    )
