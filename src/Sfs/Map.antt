-- ===== src/Sfs/Map.antt =====
-- sfs_bmap: the block that it returns, and what it leaves as it was.
use os22_crisologo_minichell.Base.{
  ℕ, ◌-◌, ◌<◌, ◌≡◌, ◌≢◌, refl, sym, subst, ◌∙◌, ◌⊎◌, inl, inr, Bool, true, false, arith, ◌==◌, ◌&&◌,
  if◌then◌else◌, ok, Got, err, got, Bool-cases, eq_of_==,
}
use os22_crisologo_minichell.Sfs.{
  Device, Volume, Inode, put_at, map_direct, new_direct, new_indirect, load_indirect,
}
use os22_crisologo_minichell.Sfs.Blocks.{
  bit, IsVolume, InRange, New, Same, sfs_balloc_lem, sfs_readblock_lem, in_range,
}
use os22_crisologo_minichell.Sfs.File.{
  holds, IsFile, Grows, Added, Added-IsFile, Same-IsFile, hand_back_lem, direct-Added,
  indirect-Added,
}

-- The volume and the file are in order again, and other files have been left alone.
pub record Fine (sv : Inode) (s : Volume) (sv' : Inode) (s' : Volume) : Type 0 where
  pub volume : IsVolume s'
  pub file : IsFile sv' s'
  pub grows : Grows sv s s'

pub both_of : (x : ℕ) (b : Bool) → (x == 0 && b) ≡ true → (x ≡ 0) × (b ≡ true)
both_of x b h = (ground (arith, h), ground (arith, h))

-- What the answer says of the block: an error leaves it as it was; else it is the file's, the same
-- as before if there was one, and there is one if it was to be allocated.
pub record Answer (k : ℕ) (doalloc : Bool) (sv : Inode) (s : Volume) (b : ℕ) (sv' : Inode)
    (s' : Volume) : Type 0 where
  pub held : holds sv' s' k ≡ b
  pub before : holds sv s k ≢ 0 → b ≡ holds sv s k
  pub allocated : doalloc ≡ true → b ≢ 0
  pub asked : doalloc ≡ false → b ≡ holds sv s k

abbrev pub Answers : ℕ → Bool → Inode → Volume → Got ℕ → Inode → Volume → Type 0
Answers k doalloc sv s (err e) sv' s' = holds sv' s' k ≡ holds sv s k
Answers k doalloc sv s (got b) sv' s' = Answer k doalloc sv s b sv' s'

-- sfs_bmap returned, all is in order, the other blocks are as before, and the answer is right.
pub record Returns (k : ℕ) (doalloc : Bool) (sv : Inode) (s : Volume) (g : Got ℕ) (sv' : Inode)
    (s' : Volume) : Type 0 where
  pub fine : Fine sv s sv' s'
  pub others : (j : ℕ) → j < 143 → j ≢ k → holds sv' s' j ≡ holds sv s j
  pub answer : Answers k doalloc sv s g sv' s'

module _ {sv : Inode} {s : Volume} (v : IsVolume s) (f : IsFile sv s) where
  pub Same-Grows : {s' : Volume} → Same s s' → Grows sv s s'
  Same-Grows m = record {
    nblocks = m.nblocks;
    bits = λ b u. m.bits b ∙ u;
    words = λ b w u n. m.words b w;
  }

  pub New-Grows : {b : ℕ} {s' : Volume} → New s b s' → Grows sv s s'
  New-Grows {b} {s'} n = record {
    nblocks = n.nblocks;
    bits = λ c u. n.bits c ∙ ground (arith, u);
    words = λ c w u ne. n.words c w ∙ old c w u;
  }
    where
      old : (c w : ℕ) → bit s c ≡ true → (if b == c then 0 else s.words c w) ≡ s.words c w
      old c w u = elim (Bool-cases (b == c)) [
        | inl y ↦
            absurd
              (ground (arith, n.was_free, subst (λ x. bit s x ≡ true) (sym (eq_of_== b c y)) u))
        | inr y ↦ rw y refl
      ]

  pub Same-holds : {s' : Volume} → Same s s' → (j : ℕ) → holds sv s' j ≡ holds sv s j
  unfolding holds
  Same-holds m j = let w = m.words sv.indirect (j - 15) in rw w refl

  pub Same-Fine : {s' : Volume} → Same s s' → Fine sv s sv s'
  Same-Fine m = record {
    volume = m.volume;
    file = Same-IsFile v f m.nblocks (λ c u. m.bits c ∙ u) (Same-holds m);
    grows = Same-Grows m;
  }

  -- nothing was done
  none-Fine : Fine sv s sv s
  none-Fine = record {
    volume = v;
    file = f;
    grows = record { nblocks = refl; bits = λ b u. u; words = λ b w u n. refl };
  }

  -- The block is handed back as it is.
  pub found-Returns :
      (k : ℕ) (doalloc : Bool)
      → (doalloc ≡ true → holds sv s k ≢ 0)
      → Returns k doalloc sv s (got (holds sv s k)) sv s
  found-Returns k doalloc n = record {
    fine = none-Fine;
    others = λ j l ne. refl;
    answer = record { held = refl; before = λ q. refl; allocated = n; asked = λ q. refl };
  }

  -- A new block has been added.
  pub Added-Returns :
      {k b : ℕ} {sv' : Inode} {s' : Volume}
      → Added sv s k b sv' s'
      → Fine sv s sv' s'
      → holds sv s k ≡ 0
      → Returns k true sv s (got b) sv' s'
  Added-Returns {k} {b} a fine z =
      let (below, not_super) = in_range b v a.was_free in
      record {
        fine = fine;
        others = λ j l ne. a.now j ∙ ground (arith, ne);
        answer = record {
          held = a.now k ∙ ground arith;
          before = λ ne. absurd (ne z);
          allocated = λ q. not_super;
          asked = λ q. ground (arith, q);
        };
      }

  direct_at : (k : ℕ) → k < 15 → holds sv s k ≡ sv.direct k
  unfolding holds
  direct_at k l = ground (arith, l)

  -- An error after which nothing has changed.
  pub failed :
      (k : ℕ) (doalloc : Bool) {e : ℕ} {s' : Volume}
      → Same s s'
      → Returns k doalloc sv s (err e) sv s'
  failed k doalloc m = record {
    fine = Same-Fine m;
    others = λ j l ne. Same-holds m j;
    answer = Same-holds m k;
  }

  module _ (dev : Device) (d : InRange dev s.sb_nblocks) where
    new_direct_lem :
        (k : ℕ)
        → k < 15
        → holds sv s k ≡ 0
        → (g : Got ℕ) × (sv' : Inode) × (s' : Volume) × (new_direct dev k sv s ≡ ok (g, sv', s'))
          × Returns k true sv s g sv' s'
    unfolding new_direct
    new_direct_lem k l z =
        let (s', result) = sfs_balloc_lem dev s d v in
        elim result [
          | inl (e, q, m) ↦ (err e, sv, s', rw q refl, failed k true m)
          | inr (b, q, n) ↦
              let a = direct-Added v f n k l in
              let f' = Added-IsFile v f a in
              let sv' : Inode = record sv { direct = put_at sv.direct k b; dirty = true } in
              let h = hand_back_lem n.volume f' b k (sym (a.now k ∙ ground arith)) in
              (
                got b,
                sv',
                s',
                rw q h,
                Added-Returns a (record { volume = n.volume; file = f'; grows = New-Grows n }) z,
              )
        ]

    pub map_direct_lem :
        (k : ℕ) (doalloc : Bool)
        → k < 15
        → (g : Got ℕ) × (sv' : Inode) × (s' : Volume) × (map_direct dev k doalloc sv s
            ≡ ok (g, sv', s'))
          × Returns k doalloc sv s g sv' s'
    unfolding map_direct
    map_direct_lem k doalloc l =
        let at : holds sv s k ≡ sv.direct k = direct_at k l in
        elim (Bool-cases (sv.direct k == 0 && doalloc)) [
          | inl y ↦
              let (z, q) = both_of (sv.direct k) doalloc y in
              let (g, sv', s', e, r) = new_direct_lem k l (at ∙ z) in
              (g, sv', s', rw y e, subst (λ x. Returns k x sv s g sv' s') (sym q) r)
          | inr y ↦ (
            got (sv.direct k),
            sv,
            s,
            rw y (hand_back_lem v f (sv.direct k) k (sym at)),
            subst (λ x. Returns k doalloc sv s (got x) sv s) at
                (found-Returns k doalloc (λ q z. ground (arith, y, q, z, at))),
          )
        ]

    pub in_volume : sv.indirect ≢ 0 → sv.indirect < s.sb_nblocks
    unfolding holds
    in_volume n = (f.used 143 n).1

    -- the indirect block in hand
    pub record InHand (id : ℕ) (idbuf : ℕ → ℕ) (sv' : Inode) (s' : Volume) : Type 0 where
      pub fine : Fine sv s sv' s'
      pub same : (j : ℕ) → j < 143 → holds sv' s' j ≡ holds sv s j
      pub at : sv'.indirect ≡ id
      pub there : id ≢ 0
      pub contents : (w : ℕ) → idbuf w ≡ s'.words id w
      pub link : (id ≡ sv.indirect) ⊎ (bit s id ≡ false)

    abbrev pub Loads : Got (ℕ × (ℕ → ℕ)) → Inode → Volume → Type 0
    Loads (err e) sv' s' = Fine sv s sv' s' × ((j : ℕ) → holds sv' s' j ≡ holds sv s j)
    Loads (got (id, idbuf)) sv' s' = InHand id idbuf sv' s'

    pub load_indirect_lem :
        (g : Got (ℕ × (ℕ → ℕ))) × (sv' : Inode) × (s' : Volume) × (load_indirect dev sv s
          ≡ ok (g, sv', s'))
        × Loads g sv' s'
    unfolding load_indirect new_indirect
    load_indirect_lem = elim (Bool-cases (sv.indirect == 0)) [
      | inl y ↦
          let z : sv.indirect ≡ 0 = ground (arith, y) in
          let (s', result) = sfs_balloc_lem dev s d v in
          elim result [
            | inl (e, q, m) ↦ (err e, sv, s', rw y (rw q refl), (Same-Fine m, Same-holds m))
            | inr (b, q, n) ↦
                let a = indirect-Added v f n z in
                let (below, not_super) = in_range b v n.was_free in
                (
                  got (b, λ w. 0),
                  record sv { indirect = b; dirty = true },
                  s',
                  rw y (rw q refl),
                  record {
                    fine = record {
                      volume = n.volume;
                      file = Added-IsFile v f a;
                      grows = New-Grows n;
                    };
                    same = λ j l. a.now j ∙ ground (arith, l);
                    at = refl;
                    there = not_super;
                    contents = λ w. sym (n.words b w ∙ ground arith);
                    link = inr n.was_free;
                  },
                )
          ]
      | inr y ↦
          let (s', m, result) =
            sfs_readblock_lem dev sv.indirect s d (in_volume (ground (arith, y))) v in
          elim result [
            | inl (e, q, bad) ↦ (err e, sv, s', rw y (rw q refl), (Same-Fine m, Same-holds m))
            | inr q ↦ (
              got (sv.indirect, s.words sv.indirect),
              sv,
              s',
              rw y (rw q refl),
              record {
                fine = Same-Fine m;
                same = λ j l. Same-holds m j;
                at = refl;
                there = ground (arith, y);
                contents = λ w. sym (m.words sv.indirect w);
                link = inl refl;
              },
            )
          ]
    ]
