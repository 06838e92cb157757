-- ===== src/Sfs/Cut.antt =====
-- The two loops of sfs_itrunc: which slots they empty.
use os22_crisologo_minichell.Base.{
  ℕ, zero, suc, ◌+◌, ◌-◌, ◌<◌, ◌≤◌, ◌≡◌, refl, subst, ◌∙◌, inl, inr, Bool, true, false, not, ◌&&◌,
  arith, ◌==◌, leb, ltb, if◌then◌else◌, ok, Bool-cases, eq_of_==,
}
use os22_crisologo_minichell.Sfs.{Volume, Inode, put_at, sfs_bfree}
use os22_crisologo_minichell.Sfs.Truncate.{
  Scan, drop_direct, drop_directs, drop_entry, drop_entries, note_nonzero,
}
use os22_crisologo_minichell.Sfs.Drop.{
  Slots, Slots-resp, Dropped, Dropped-refl, Dropped-trans, sfs_bfree-slot,
}

-- The slots of a file whose indirect block has the contents `idbuf`.
unfoldable pub slots : Inode → (ℕ → ℕ) → ℕ → ℕ
slots sv idbuf k =
    if ltb k 15
    then sv.direct k
    else if ltb k 143
    then idbuf (k - 15)
    else if k == 143
    then sv.indirect
    else 0

slots-direct :
    (sv : Inode) (idbuf : ℕ → ℕ) (i : ℕ)
    → i < 15
    → (k : ℕ)
    → slots (record sv { direct = put_at sv.direct i 0; dirty = true }) idbuf k
      ≡ put_at (slots sv idbuf) i 0 k
unfolding slots
slots-direct sv idbuf i l k = ground (arith, l)

slots-entry :
    (sv : Inode) (idbuf : ℕ → ℕ) (j : ℕ)
    → j < 128
    → (k : ℕ) → slots sv (put_at idbuf j 0) k ≡ put_at (slots sv idbuf) (15 + j) 0 k
unfolding slots
slots-entry sv idbuf j l k = ground (arith, l)

slots-at : (sv : Inode) (idbuf : ℕ → ℕ) (i : ℕ) → i < 15 → slots sv idbuf i ≡ sv.direct i
unfolding slots
slots-at sv idbuf i l = ground (arith, l)

slots-past : (sv : Inode) (idbuf : ℕ → ℕ) (j : ℕ) → j < 128 → slots sv idbuf (15 + j) ≡ idbuf j
unfolding slots
slots-past sv idbuf j l = ground (arith, l)

pub Dropped-resp :
    {h h' h'' : ℕ → ℕ} {s s' : Volume}
    → ((k : ℕ) → h'' k ≡ h' k)
    → Dropped h s h' s'
    → Dropped h s h'' s'
Dropped-resp same d = Dropped-trans d (Dropped-refl same)

-- A turn that empties nothing, at an index that is to be kept or holds 0.
kept :
    (f : ℕ → ℕ) (i : ℕ) (past : ℕ → Bool)
    → (past i && not (f i == 0)) ≡ false
    → (k : ℕ) → f k ≡ (if leb i k && ltb k (i + 1) && past k then 0 else f k)
kept f i past y k = elim (Bool-cases (i == k)) [
  | inl e ↦
      subst (λ x. f x ≡ (if leb i x && ltb x (i + 1) && past x then 0 else f x)) (eq_of_== i k e)
        (ground (arith, y))
  | inr n ↦ ground (arith, n)
]

-- The direct blocks from `i` to below `e` that are past the new end have been dropped.
pub record Directs (bl i e : ℕ) (idbuf : ℕ → ℕ) (sv : Inode) (s : Volume) (sv' : Inode)
    (s' : Volume) : Type 0 where
  pub slotted : Slots (slots sv' idbuf) s'
  pub dropped : Dropped (slots sv idbuf) s (slots sv' idbuf) s'
  pub indirect : sv'.indirect ≡ sv.indirect
  pub direct : (k : ℕ) → sv'.direct k ≡ (if leb i k && ltb k e && leb bl k then 0 else sv.direct k)

drop_direct_lem :
    (bl i : ℕ) (idbuf : ℕ → ℕ) (sv : Inode) (s : Volume)
    → i < 15
    → Slots (slots sv idbuf) s
    → (sv' : Inode) × (s' : Volume) × (drop_direct bl i sv s ≡ ok (sv', s'))
      × Directs bl i (i + 1) idbuf sv s sv' s'
unfolding drop_direct
drop_direct_lem bl i idbuf sv s l f = elim (Bool-cases (leb bl i && not (sv.direct i == 0))) [
  | inl y ↦
      let at = slots-at sv idbuf i l in
      let (s', e, f', d) = sfs_bfree-slot i f (λ z. ground (arith, y, at, z)) in
      let same = slots-direct sv idbuf i l in
      (
        record sv { direct = put_at sv.direct i 0; dirty = true },
        s',
        rw y (rw (subst (λ x. sfs_bfree x s ≡ ok s') at e) refl),
        record {
          slotted = Slots-resp same f';
          dropped = Dropped-resp same d;
          indirect = refl;
          direct = λ k. ground (arith, y);
        },
      )
  | inr y ↦ (
    sv,
    s,
    rw y refl,
    record {
      slotted = f;
      dropped = Dropped-refl (λ k. refl);
      indirect = refl;
      direct = λ k. kept sv.direct i (leb bl) y k;
    },
  )
]

pub drop_directs_lem :
    (bl i n : ℕ) (idbuf : ℕ → ℕ) (sv : Inode) (s : Volume)
    → i + n ≤ 15
    → Slots (slots sv idbuf) s
    → (sv' : Inode) × (s' : Volume) × (drop_directs bl i n sv s ≡ ok (sv', s'))
      × Directs bl i (i + n) idbuf sv s sv' s'
unfolding drop_directs
drop_directs_lem bl i zero idbuf sv s l f = (
  sv,
  s,
  refl,
  record {
    slotted = f;
    dropped = Dropped-refl (λ k. refl);
    indirect = refl;
    direct = λ k. ground arith;
  },
)
drop_directs_lem bl i (suc n) idbuf sv s l f =
    let (sv1, s1, e1, a) = drop_direct_lem bl i idbuf sv s (omega (arith, l)) f in
    let (sv2, s2, e2, b) =
      drop_directs_lem bl (i + 1) n idbuf sv1 s1 (omega (arith, l)) a.slotted in
    (
      sv2,
      s2,
      rw e1 e2,
      record {
        slotted = b.slotted;
        dropped = Dropped-trans a.dropped b.dropped;
        indirect = b.indirect ∙ a.indirect;
        direct = λ k. b.direct k ∙ ground (arith, a.direct k);
      },
    )

-- The entries from `j` to below `e` that are past the new end have been dropped.
pub record Entries (bl j e : ℕ) (sv : Inode) (scan : Scan) (s : Volume) (scan' : Scan) (s' : Volume)
    : Type 0 where
  pub slotted : Slots (slots sv scan'.idbuf) s'
  pub dropped : Dropped (slots sv scan.idbuf) s (slots sv scan'.idbuf) s'
  pub entry :
      (k : ℕ) → scan'.idbuf k ≡ (if leb j k && ltb k e && ltb bl (15 + k) then 0 else scan.idbuf k)
  pub clean : scan'.iddirty ≡ false → (k : ℕ) → scan'.idbuf k ≡ scan.idbuf k
  pub was_clean : scan'.iddirty ≡ false → scan.iddirty ≡ false

pub record Noted (j e : ℕ) (scan scan' : Scan) : Type 0 where
  pub none_before : scan'.hasnonzero ≡ false → scan.hasnonzero ≡ false
  pub all_zero : scan'.hasnonzero ≡ false → (k : ℕ) → j ≤ k → k < e → scan'.idbuf k ≡ 0

drop_entry_lem :
    (bl j : ℕ) (sv : Inode) (scan : Scan) (s : Volume)
    → j < 128
    → Slots (slots sv scan.idbuf) s
    → (scan' : Scan) × (s' : Volume) × (drop_entry bl j scan s ≡ ok (scan', s'))
      × Entries bl j (j + 1) sv scan s scan' s'
      × (scan'.hasnonzero ≡ scan.hasnonzero)
unfolding drop_entry
drop_entry_lem bl j sv scan s l f = elim (Bool-cases (ltb bl (15 + j) && not (scan.idbuf j == 0))) [
  | inl y ↦
      let at = slots-past sv scan.idbuf j l in
      let (s', e, f', d) = sfs_bfree-slot (15 + j) f (λ z. ground (arith, y, at, z)) in
      let same = slots-entry sv scan.idbuf j l in
      (
        record scan { idbuf = put_at scan.idbuf j 0; iddirty = true },
        s',
        rw y (rw (subst (λ x. sfs_bfree x s ≡ ok s') at e) refl),
        record {
          slotted = Slots-resp same f';
          dropped = Dropped-resp same d;
          entry = λ k. ground (arith, y);
          clean = λ q. ground (arith, q);
          was_clean = λ q. ground (arith, q);
        },
        refl,
      )
  | inr y ↦ (
    scan,
    s,
    rw y refl,
    record {
      slotted = f;
      dropped = Dropped-refl (λ k. refl);
      entry = λ k. kept scan.idbuf j (λ k'. ltb bl (15 + k')) y k;
      clean = λ q k. refl;
      was_clean = λ q. q;
    },
    refl,
  )
]

pub drop_entries_lem :
    (bl j n : ℕ) (sv : Inode) (scan : Scan) (s : Volume)
    → j + n ≤ 128
    → Slots (slots sv scan.idbuf) s
    → (scan' : Scan) × (s' : Volume) × (drop_entries bl j n scan s ≡ ok (scan', s'))
      × Entries bl j (j + n) sv scan s scan' s'
      × Noted j (j + n) scan scan'
unfolding drop_entries
drop_entries_lem bl j zero sv scan s l f = (
  scan,
  s,
  refl,
  record {
    slotted = f;
    dropped = Dropped-refl (λ k. refl);
    entry = λ k. ground arith;
    clean = λ q k. refl;
    was_clean = λ q. q;
  },
  record { none_before = λ q. q; all_zero = λ q k a b. absurd (omega (arith, a, b)) },
)
drop_entries_lem bl j (suc n) sv scan s l f =
    let (scan1, s1, e1, a, h) = drop_entry_lem bl j sv scan s (omega (arith, l)) f in
    let (scan2, s2, e2, b, m) =
      drop_entries_lem bl (j + 1) n sv (note_nonzero j scan1) s1 (omega (arith, l)) a.slotted in
    (
      scan2,
      s2,
      rw e1 e2,
      record {
        slotted = b.slotted;
        dropped = Dropped-trans a.dropped b.dropped;
        entry = λ k. b.entry k ∙ ground (arith, a.entry k);
        clean = λ q k. b.clean q k ∙ a.clean (b.was_clean q) k;
        was_clean = λ q. a.was_clean (b.was_clean q);
      },
      record {
        none_before = λ q. ground (arith, m.none_before q, h);
        all_zero = λ q k x y. elim (Bool-cases (j == k)) [
          | inl e ↦
              subst (λ z. scan2.idbuf z ≡ 0) (eq_of_== j k e)
                (b.entry j ∙ ground (arith, m.none_before q))
          | inr o ↦ m.all_zero q k (ground (arith, o, x)) (omega (arith, y))
        ];
      },
    )
