-- ===== src/Sfs/Shorten.antt =====
-- sfs_itrunc: the blocks that a file keeps, and those that are given back.
use os22_crisologo_minichell.Base.{
  ℕ, ◌+◌, ◌-◌, ◌<◌, ◌≤◌, ◌≡◌, ◌≢◌, refl, sym, subst, ◌∙◌, inl, inr, true, false, arith, ◌==◌, ltb,
  if◌then◌else◌, ok, Bool-cases,
}
use os22_crisologo_minichell.Sfs.{Device, Volume, Inode, put_at, sfs_bfree}
use os22_crisologo_minichell.Sfs.Blocks.{
  bit, IsVolume, InRange, sfs_writeblock_lem, written, written-IsVolume,
}
use os22_crisologo_minichell.Sfs.File.{holds}
use os22_crisologo_minichell.Sfs.Truncate.{Scan, start_scan, end_scan}
use os22_crisologo_minichell.Sfs.Drop.{
  Slots, Slots-resp, Dropped, Dropped-refl, Dropped-trans, sfs_bfree-slot,
}
use os22_crisologo_minichell.Sfs.Cut.{slots, Entries, Noted, Dropped-resp}

-- What follows the loop over the direct blocks has emptied the entries past the new end.
pub record Ended (bl : ℕ) (sv : Inode) (s : Volume) (sv' : Inode) (s' : Volume) : Type 0 where
  pub middle : Volume
  pub dropped : Dropped (holds sv s) s (holds sv' s') middle
  pub slotted : Slots (holds sv' s') s'
  pub bits : (c : ℕ) → bit s' c ≡ bit middle c
  pub words : (c w : ℕ) → c ≢ sv.indirect → s'.words c w ≡ middle.words c w
  pub direct : (k : ℕ) → sv'.direct k ≡ sv.direct k
  pub entry :
      (j : ℕ)
      → j < 128
      → holds sv' s' (15 + j) ≡ (if ltb bl (15 + j) then 0 else holds sv s (15 + j))

module _ (dev : Device) (bl : ℕ) (sv : Inode) (s : Volume) (d : InRange dev s.sb_nblocks)
    (n : sv.indirect ≢ 0) where
  pub holds-slots :
      (t : Volume) (idbuf : ℕ → ℕ)
      → ((w : ℕ) → idbuf w ≡ t.words sv.indirect w)
      → (k : ℕ) → holds sv t k ≡ slots sv idbuf k
  unfolding holds slots
  holds-slots t idbuf same k = ground (arith, n, same (k - 15))

  at_entry : (idbuf : ℕ → ℕ) (j : ℕ) → j < 128 → slots sv idbuf (15 + j) ≡ idbuf j
  unfolding slots
  at_entry idbuf j l = ground (arith, l)

  no_entries :
      (idbuf : ℕ → ℕ) (t : Volume)
      → ((k : ℕ) → 0 ≤ k → k < 0 + 128 → idbuf k ≡ 0)
      → (k : ℕ)
      → holds (record sv { indirect = 0; dirty = true }) t k ≡ put_at (slots sv idbuf) 143 0 k
  unfolding holds slots
  no_entries idbuf t z k = elim (Bool-cases (ltb k 143)) [
    | inl y ↦ elim (Bool-cases (ltb k 15)) [
      | inl q ↦ ground (arith, y, q)
      | inr q ↦ ground (arith, y, q, z (k - 15) (omega arith) (ground (arith, y, q)))
    ]
    | inr y ↦ ground (arith, y)
  ]

  at_indirect : (idbuf : ℕ → ℕ) → slots sv idbuf 143 ≡ sv.indirect
  unfolding slots
  at_indirect idbuf = refl

  module _ (idbuf : ℕ → ℕ) (same : (w : ℕ) → idbuf w ≡ s.words sv.indirect w) (scan : Scan)
      (s1 : Volume) (e : Entries bl 0 128 sv (start_scan idbuf) s scan s1) where
    from_start : Dropped (holds sv s) s (slots sv scan.idbuf) s1
    from_start = Dropped-trans (Dropped-refl (λ k. sym (holds-slots s idbuf same k))) e.dropped

    entries :
        (j : ℕ)
        → j < 128
        → slots sv scan.idbuf (15 + j) ≡ (if ltb bl (15 + j) then 0 else holds sv s (15 + j))
    entries j l =
        let a = at_entry scan.idbuf j l in
        let b = holds-slots s idbuf same (15 + j) ∙ at_entry idbuf j l in
        a ∙ (e.entry j ∙ rw b (ground (arith, l)))

    -- The file's slots are what the loop left of them.
    as_left :
        (s' : Volume)
        → ((k : ℕ) → holds sv s' k ≡ slots sv scan.idbuf k)
        → IsVolume s'
        → s'.sb_nblocks ≡ s1.sb_nblocks
        → ((c : ℕ) → bit s' c ≡ bit s1 c)
        → ((c w : ℕ) → c ≢ sv.indirect → s'.words c w ≡ s1.words c w)
        → Ended bl sv s sv s'
    as_left s' h v same_size same_bits same_words = record {
      middle = s1;
      dropped = Dropped-resp h from_start;
      slotted = record {
        volume = v;
        used = λ k ne.
            let (u, l) = e.slotted.used k (λ z. ne (h k ∙ z)) in
            rw (h k) (
              same_bits (slots sv scan.idbuf k) ∙ u,
              subst (λ x. slots sv scan.idbuf k < x) (sym same_size) l,
            );
        once = λ i j ne q. e.slotted.once i j (λ z. ne (h i ∙ z)) (sym (h i) ∙ (q ∙ h j));
      };
      bits = same_bits;
      words = same_words;
      direct = λ k. refl;
      entry = λ j l. h (15 + j) ∙ entries j l;
    }

    -- The indirect block has been given back too.
    without_indirect :
        (s2 : Volume)
        → ((k : ℕ) → 0 ≤ k → k < 0 + 128 → scan.idbuf k ≡ 0)
        → Slots (put_at (slots sv scan.idbuf) 143 0) s2
        → Dropped (slots sv scan.idbuf) s1 (put_at (slots sv scan.idbuf) 143 0) s2
        → Ended bl sv s (record sv { indirect = 0; dirty = true }) s2
    without_indirect s2 z f dropped =
        let h = no_entries scan.idbuf s2 z in
        record {
          middle = s2;
          dropped = Dropped-resp h (Dropped-trans from_start dropped);
          slotted = Slots-resp h f;
          bits = λ c. refl;
          words = λ c w ne. refl;
          direct = λ k. refl;
          entry = λ j l.
              let other : (143 == 15 + j) ≡ false = ground (arith, l) in
              h (15 + j) ∙ rw other (entries j l);
        }

    left_words : (w : ℕ) → s1.words sv.indirect w ≡ idbuf w
    left_words w = e.dropped.words sv.indirect w ∙ sym (same w)

    written_back : (t : ℕ) → Ended bl sv s sv (written sv.indirect scan.idbuf t s1)
    unfolding bit
    written_back t =
        as_left (written sv.indirect scan.idbuf t s1)
          (holds-slots (written sv.indirect scan.idbuf t s1) scan.idbuf (λ w. ground arith))
          (written-IsVolume sv.indirect scan.idbuf t e.slotted.volume) refl (λ c. refl)
          (λ c w ne. let o : (sv.indirect == c) ≡ false = ground (arith, ne) in rw o refl)

    pub end_scan_lem :
        Noted 0 128 (start_scan idbuf) scan
        → (r : ℕ) × (sv' : Inode) × (s' : Volume) × (end_scan dev sv scan s1 ≡ ok (r, sv', s'))
          × (r ≡ 0 → Ended bl sv s sv' s')
    unfolding end_scan
    end_scan_lem m =
        let held : slots sv scan.idbuf 143 ≢ 0 = λ z. n (sym (at_indirect scan.idbuf) ∙ z) in
        let there : sv.indirect < s1.sb_nblocks =
          subst (λ x. x < s1.sb_nblocks) (at_indirect scan.idbuf) ((e.slotted.used 143 held).1) in
        elim (Bool-cases scan.hasnonzero) [
          | inr y ↦
              let (s2, f, slotted, dropped) = sfs_bfree-slot 143 e.slotted held in
              let freed : sfs_bfree sv.indirect s1 ≡ ok s2 =
                subst (λ x. sfs_bfree x s1 ≡ ok s2) (at_indirect scan.idbuf) f in
              (
                0,
                record sv { indirect = 0; dirty = true },
                s2,
                rw y (rw freed refl),
                λ z. without_indirect s2 (m.all_zero y) slotted dropped,
              )
          | inl y ↦ elim (Bool-cases scan.iddirty) [
            | inl q ↦
                let (t, wrote) =
                  sfs_writeblock_lem dev sv.indirect scan.idbuf s1
                    (subst (InRange dev) (sym e.dropped.nblocks) d) there in
                elim wrote [
                  | inl (r, w, bad) ↦ (
                    r,
                    sv,
                    record s1 { transfers = t },
                    rw y (rw q (rw w refl)),
                    λ z. absurd (ground (arith, bad, z)),
                  )
                  | inr w ↦ (
                    0,
                    sv,
                    written sv.indirect scan.idbuf t s1,
                    rw y (rw q (rw w refl)),
                    λ z. written_back t,
                  )
                ]
            | inr q ↦ (
              0,
              sv,
              s1,
              rw y (rw q refl),
              λ z.
                  as_left s1 (holds-slots s1 scan.idbuf (λ w. e.clean q w ∙ sym (left_words w)))
                    e.slotted.volume refl (λ c. refl) (λ c w ne. refl),
            )
          ]
        ]
