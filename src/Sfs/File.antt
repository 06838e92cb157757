-- ===== src/Sfs/File.antt =====
-- The blocks that a file holds, and the steps of sfs_bmap that give it one more.
use os22_crisologo_minichell.Base.{
  ℕ, ◌+◌, ◌-◌, ◌<◌, ◌≡◌, ◌≢◌, refl, sym, subst, ◌∙◌, true, false, inl, inr, arith, ltb, leb, ◌==◌,
  if◌then◌else◌, ok, got, Bool-cases, ==-of_ne,
}
use os22_crisologo_minichell.Sfs.{Volume, Inode, put_at, sfs_bused, hand_back}
use os22_crisologo_minichell.Sfs.Marks.{bitmap_isset_lem}
use os22_crisologo_minichell.Sfs.Blocks.{bit, IsVolume, New, written, in_range}

-- The block that the file holds as its block `k`, 0 for none; the number 143 is the indirect block's.
unfoldable pub holds : Inode → Volume → ℕ → ℕ
holds sv sfs k =
    if ltb k 15
    then sv.direct k
    else if ltb k 143
    then (if sv.indirect == 0 then 0 else sfs.words sv.indirect (k - 15))
    else if k == 143
    then sv.indirect
    else 0

-- What the file holds is in use, and no block twice.
pub record IsFile (sv : Inode) (sfs : Volume) : Type 0 where
  pub used :
      (k : ℕ)
      → holds sv sfs k ≢ 0
      → (bit sfs (holds sv sfs k) ≡ true) × (holds sv sfs k < sfs.sb_nblocks)
  pub once : (j k : ℕ) → holds sv sfs j ≢ 0 → holds sv sfs j ≡ holds sv sfs k → j ≡ k

-- What is in use stays so, and the words of what is in use do not change but in the file's indirect
-- block.
pub record Grows (sv : Inode) (s s' : Volume) : Type 0 where
  pub nblocks : s'.sb_nblocks ≡ s.sb_nblocks
  pub bits : (b : ℕ) → bit s b ≡ true → bit s' b ≡ true
  pub words : (b w : ℕ) → bit s b ≡ true → b ≢ sv.indirect → s'.words b w ≡ s.words b w

-- The file has block `b`, which was free, as its block `k`, and its other blocks as before.
pub record Added (sv : Inode) (s : Volume) (k b : ℕ) (sv' : Inode) (s' : Volume) : Type 0 where
  pub nblocks : s'.sb_nblocks ≡ s.sb_nblocks
  pub was_free : bit s b ≡ false
  pub bits : (c : ℕ) → bit s' c ≡ (if b == c then true else bit s c)
  pub now : (j : ℕ) → holds sv' s' j ≡ (if k == j then b else holds sv s j)

pub indirect_used :
    {sv : Inode} {s : Volume} → IsFile sv s → sv.indirect ≢ 0 → bit s sv.indirect ≡ true
unfolding holds
indirect_used f n = (f.used 143 n).0

-- A free block is not one that the file holds.
pub fresh :
    {sv : Inode} {s : Volume} (b k : ℕ) → IsFile sv s → bit s b ≡ false → b ≢ 0 → holds sv s k ≢ b
fresh {sv} {s} b k f c n e =
    absurd (ground (arith, c, subst (λ x. bit s x ≡ true) e (f.used k (λ z. n (sym e ∙ z))).0))

module _ {sv : Inode} {s : Volume} (v : IsVolume s) (f : IsFile sv s) where
  module _ {k b : ℕ} {sv' : Inode} {s' : Volume} (a : Added sv s k b sv' s') where
    at_new : (j : ℕ) → (k == j) ≡ true → holds sv' s' j ≡ b
    at_new j y = a.now j ∙ rw y refl

    at_old : (j : ℕ) → (k == j) ≡ false → holds sv' s' j ≡ holds sv s j
    at_old j y = a.now j ∙ rw y refl

    still : (c : ℕ) → bit s c ≡ true → bit s' c ≡ true
    still c u = a.bits c ∙ ground (arith, u)

    pub Added-IsFile : IsFile sv' s'
    Added-IsFile =
        let (below, not_super) = in_range b v a.was_free in
        record {
          used = λ j ne. elim (Bool-cases (k == j)) [
            | inl y ↦
                rw (at_new j y) (a.bits b ∙ ground arith, subst (λ x. b < x) (sym a.nblocks) below)
            | inr y ↦
                let (u, l) = f.used j (λ z. ne (at_old j y ∙ z)) in
                rw (at_old j y)
                  (still (holds sv s j) u, subst (λ x. holds sv s j < x) (sym a.nblocks) l)
          ];
          once = λ i j ne e. elim (Bool-cases (k == i)) [
            | inl y ↦ elim (Bool-cases (k == j)) [
              | inl z ↦ ground (arith, y, z)
              | inr z ↦
                  absurd
                    (fresh b j f a.was_free not_super (sym (at_old j z) ∙ (sym e ∙ at_new i y)))
            ]
            | inr y ↦ elim (Bool-cases (k == j)) [
              | inl z ↦
                  absurd (fresh b i f a.was_free not_super (sym (at_old i y) ∙ (e ∙ at_new j z)))
              | inr z ↦ f.once i j (λ q. ne (at_old i y ∙ q)) (sym (at_old i y) ∙ (e ∙ at_old j z))
            ]
          ];
        }

  pub Same-IsFile :
      {sv' : Inode} {s' : Volume}
      → s'.sb_nblocks ≡ s.sb_nblocks
      → ((c : ℕ) → bit s c ≡ true → bit s' c ≡ true)
      → ((j : ℕ) → holds sv' s' j ≡ holds sv s j)
      → IsFile sv' s'
  Same-IsFile {sv'} {s'} n bits now = record {
    used = λ j ne.
        let (u, l) = f.used j (λ z. ne (now j ∙ z)) in
        rw (now j) (bits (holds sv s j) u, subst (λ x. holds sv s j < x) (sym n) l);
    once = λ i j ne e. f.once i j (λ q. ne (now i ∙ q)) (sym (now i) ∙ (e ∙ now j));
  }

  pub hand_back_lem : (b k : ℕ) → b ≡ holds sv s k → hand_back b sv s ≡ ok (got b, sv, s)
  unfolding hand_back sfs_bused bit
  hand_back_lem b k e = elim (Bool-cases (b == 0)) [
    | inl z ↦ rw z refl
    | inr z ↦
        let (u, l) = f.used k (λ q. absurd (ground (arith, z, e, q))) in
        let below : leb s.sb_nblocks b ≡ false = ground (arith, e, l) in
        let set : bit s b ≡ true = subst (λ x. bit s x ≡ true) (sym e) u in
        let isset = bitmap_isset_lem v.map b (omega (arith, below_of below, v.room)) in
        rw z (rw below (rw isset (rw set refl)))
  ]
    where
      below_of : leb s.sb_nblocks b ≡ false → b < s.sb_nblocks
      below_of h = ground (arith, h)

  module _ {b : ℕ} {s' : Volume} (n : New s b s') where
    not_indirect : sv.indirect ≢ 0 → (b == sv.indirect) ≡ false
    not_indirect z =
        ==-of_ne b sv.indirect
          (λ e. ground (arith, n.was_free, subst (λ x. bit s x ≡ true) (sym e) (indirect_used f z)))

    -- the words of the indirect block are as before
    indirect_words : sv.indirect ≢ 0 → (w : ℕ) → s'.words sv.indirect w ≡ s.words sv.indirect w
    indirect_words z w = let other = not_indirect z in n.words sv.indirect w ∙ rw other refl

    -- an entry of the indirect block, before it is written
    pub entry-holds : (j : ℕ) → holds sv s' j ≡ holds sv s j
    unfolding holds
    entry-holds j = elim (Bool-cases (sv.indirect == 0)) [
      | inl z ↦ rw z refl
      | inr z ↦ let w = indirect_words (ground (arith, z)) (j - 15) in rw w refl
    ]

    -- a direct block
    pub direct-Added :
        (k : ℕ)
        → k < 15
        → Added sv s k b (record sv { direct = put_at sv.direct k b; dirty = true }) s'
    unfolding holds
    direct-Added k l = record {
      nblocks = n.nblocks;
      was_free = n.was_free;
      bits = n.bits;
      now = λ j. ground (arith, l, entry-holds j);
    }

    -- the indirect block
    pub indirect-Added :
        sv.indirect ≡ 0 → Added sv s 143 b (record sv { indirect = b; dirty = true }) s'
    unfolding holds
    indirect-Added z = record {
      nblocks = n.nblocks;
      was_free = n.was_free;
      bits = n.bits;
      now = λ j. ground (arith, z, n.words b (j - 15));
    }

    pub entry-Added :
        (off t : ℕ) (idbuf : ℕ → ℕ)
        → sv.indirect ≢ 0
        → off < 128
        → ((w : ℕ) → idbuf w ≡ s.words sv.indirect w)
        → Added sv s (15 + off) b sv (written sv.indirect (put_at idbuf off b) t s')
    unfolding holds bit
    entry-Added off t idbuf z l same = record {
      nblocks = n.nblocks;
      was_free = n.was_free;
      bits = n.bits;
      now = λ j. ground (arith, z, l, same (j - 15), indirect_words z (j - 15));
    }
