-- ===== src/Sfs/Drop.antt =====
-- Giving blocks back: what becomes of the slots of a file when sfs_bfree frees what they hold.
use os22_crisologo_minichell.Base.{
  ℕ, ◌<◌, ◌≤◌, ◌≡◌, ◌≢◌, refl, sym, subst, ◌∙◌, ◌⊎◌, inl, inr, true, false, arith, ◌==◌,
  if◌then◌else◌, ok, Bool-cases, ==-of_ne, eq_of_==, ne_of_==,
}
use os22_crisologo_minichell.Sfs.{Volume, put_at, sfs_bfree}
use os22_crisologo_minichell.Sfs.Marks.{bitmap_unmark_lem}
use os22_crisologo_minichell.Sfs.Blocks.{bit, IsVolume}

-- The slots hold blocks of the volume that are in use, and no block twice.
pub record Slots (h : ℕ → ℕ) (s : Volume) : Type 0 where
  pub volume : IsVolume s
  pub used : (k : ℕ) → h k ≢ 0 → (bit s (h k) ≡ true) × (h k < s.sb_nblocks)
  pub once : (j k : ℕ) → h j ≢ 0 → h j ≡ h k → j ≡ k

pub Slots-resp : {h h' : ℕ → ℕ} {s : Volume} → ((k : ℕ) → h' k ≡ h k) → Slots h s → Slots h' s
Slots-resp same f = record {
  volume = f.volume;
  used = λ k n. rw (same k) (f.used k (λ z. n (same k ∙ z)));
  once = λ j k n e. f.once j k (λ z. n (same j ∙ z)) (sym (same j) ∙ (e ∙ same k));
}

-- Some slots have been emptied and their blocks given back; all else is as before.
pub record Dropped (h : ℕ → ℕ) (s : Volume) (h' : ℕ → ℕ) (s' : Volume) : Type 0 where
  pub nblocks : s'.sb_nblocks ≡ s.sb_nblocks
  pub words : (b w : ℕ) → s'.words b w ≡ s.words b w
  pub each : (k : ℕ) → (h' k ≡ h k) ⊎ ((h' k ≡ 0) × (bit s' (h k) ≡ false))
  pub down : (c : ℕ) → bit s c ≡ false → bit s' c ≡ false
  pub rest : (c : ℕ) → ((k : ℕ) → h k ≢ 0 → h k ≢ c) → bit s' c ≡ bit s c

pub Dropped-refl : {h h' : ℕ → ℕ} {s : Volume} → ((k : ℕ) → h' k ≡ h k) → Dropped h s h' s
Dropped-refl same = record {
  nblocks = refl;
  words = λ b w. refl;
  each = λ k. inl (same k);
  down = λ c u. u;
  rest = λ c u. refl;
}

pub Dropped-trans :
    {h1 h2 h3 : ℕ → ℕ} {s1 s2 s3 : Volume}
    → Dropped h1 s1 h2 s2
    → Dropped h2 s2 h3 s3
    → Dropped h1 s1 h3 s3
Dropped-trans {h1} {h2} {h3} {s1} {s2} {s3} a b = record {
  nblocks = b.nblocks ∙ a.nblocks;
  words = λ c w. b.words c w ∙ a.words c w;
  each = each;
  down = λ c u. b.down c (a.down c u);
  rest = λ c u. b.rest c (still c u) ∙ a.rest c u;
}
  where
    each : (k : ℕ) → (h3 k ≡ h1 k) ⊎ ((h3 k ≡ 0) × (bit s3 (h1 k) ≡ false))
    each k = elim (a.each k) [
      | inl e ↦ elim (b.each k) [
        | inl q ↦ inl (q ∙ e)
        | inr (z, c) ↦ inr (z, subst (λ x. bit s3 x ≡ false) e c)
      ]
      | inr (z, c) ↦ elim (b.each k) [
        | inl q ↦ inr (q ∙ z, b.down (h1 k) c)
        | inr (y, u) ↦ inr (y, b.down (h1 k) c)
      ]
    ]

    still : (c : ℕ) → ((k : ℕ) → h1 k ≢ 0 → h1 k ≢ c) → (k : ℕ) → h2 k ≢ 0 → h2 k ≢ c
    still c u k n e = elim (a.each k) [
      | inl q ↦ u k (λ z. n (q ∙ z)) (sym q ∙ e)
      | inr (z, y) ↦ n z
    ]

-- Block `b` has been given back.
record Freed (s : Volume) (b : ℕ) (s' : Volume) : Type 0 where
  nblocks : s'.sb_nblocks ≡ s.sb_nblocks
  words : (c w : ℕ) → s'.words c w ≡ s.words c w
  bits : (c : ℕ) → bit s' c ≡ (if b == c then false else bit s c)
  volume : IsVolume s'

sfs_bfree-Freed :
    {s : Volume} (b : ℕ)
    → IsVolume s
    → bit s b ≡ true
    → b < s.sb_nblocks
    → b ≢ 0
    → (s' : Volume) × (sfs_bfree b s ≡ ok s') × Freed s b s'
unfolding sfs_bfree bit
sfs_bfree-Freed {s} b v u l n =
    let (map, e, m) = bitmap_unmark_lem v.map b (omega (arith, l, v.room)) u in
    (
      record s { freemap = map; freemapdirty = true },
      rw e refl,
      record {
        nblocks = refl;
        words = λ c w. refl;
        bits = m.now;
        volume = record {
          map = m.wf;
          room = subst (λ x. s.sb_nblocks ≤ x) (sym m.size) v.room;
          past = λ c q. m.now c ∙ ground (arith, l, q, v.past c q);
          super = m.now 0 ∙ ground (arith, n, v.super);
        };
      },
    )

module _ {h : ℕ → ℕ} {s : Volume} (f : Slots h s) {s' : Volume} (i : ℕ) (n : h i ≢ 0)
    (r : Freed s (h i) s') where
  at_slot : (k : ℕ) → (i == k) ≡ true → put_at h i 0 k ≡ 0
  at_slot k y = rw y refl

  at_other : (k : ℕ) → (i == k) ≡ false → put_at h i 0 k ≡ h k
  at_other k y = rw y refl

  still_held : (k : ℕ) → (i == k) ≡ false → put_at h i 0 k ≢ 0 → h k ≢ 0
  still_held k y m z = m (at_other k y ∙ z)

  -- another slot holds another block
  other_block : (k : ℕ) → (i == k) ≡ false → h k ≢ 0 → (h i == h k) ≡ false
  other_block k y m = ==-of_ne (h i) (h k) (λ e. ne_of_== i k y (f.once i k n e))

  emptied-Slots : Slots (put_at h i 0) s'
  emptied-Slots = record {
    volume = r.volume;
    used = λ k m. elim (Bool-cases (i == k)) [
      | inl y ↦ absurd (m (at_slot k y))
      | inr y ↦
          let k_used = still_held k y m in
          let (u, l) = f.used k k_used in
          let o = other_block k y k_used in
          rw y (r.bits (h k) ∙ rw o u, subst (λ x. h k < x) (sym r.nblocks) l)
    ];
    once = λ j k m e. elim (Bool-cases (i == j)) [
      | inl y ↦ absurd (m (at_slot j y))
      | inr y ↦
          let j_used = still_held j y m in
          elim (Bool-cases (i == k)) [
            | inl z ↦ absurd (m (e ∙ at_slot k z))
            | inr z ↦ f.once j k j_used (sym (at_other j y) ∙ (e ∙ at_other k z))
          ]
    ];
  }

  emptied-Dropped : Dropped h s (put_at h i 0) s'
  emptied-Dropped = record {
    nblocks = r.nblocks;
    words = r.words;
    each = λ k. elim (Bool-cases (i == k)) [
      | inl y ↦
          let e : i ≡ k = eq_of_== i k y in
          inr (at_slot k y, subst (λ x. bit s' (h x) ≡ false) e (r.bits (h i) ∙ ground arith))
      | inr y ↦ inl (at_other k y)
    ];
    down = λ c u. r.bits c ∙ ground (arith, u);
    rest = λ c u. let o = ==-of_ne (h i) c (u i n) in r.bits c ∙ rw o refl;
  }

-- sfs_bfree of what a slot holds
pub sfs_bfree-slot :
    {h : ℕ → ℕ} {s : Volume} (i : ℕ)
    → Slots h s
    → h i ≢ 0
    → (s' : Volume) × (sfs_bfree (h i) s ≡ ok s')
      × Slots (put_at h i 0) s'
      × Dropped h s (put_at h i 0) s'
sfs_bfree-slot {h} i f n =
    let (u, l) = f.used i n in
    let (s', e, r) = sfs_bfree-Freed (h i) f.volume u l n in
    (s', e, emptied-Slots f i n r, emptied-Dropped f i n r)
