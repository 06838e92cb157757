-- ===== src/Sfs/Chain.antt =====
-- One part of sfs_bmap after another: what both leave in order is in order.
use os22_crisologo_minichell.Base.{
  ℕ, ◌<◌, ◌≡◌, ◌≢◌, sym, subst, ◌∙◌, ◌⊎◌, inl, inr, Bool, true, false, arith, Got, err, got,
}
use os22_crisologo_minichell.Sfs.{Volume, Inode}
use os22_crisologo_minichell.Sfs.Blocks.{bit}
use os22_crisologo_minichell.Sfs.File.{holds}
use os22_crisologo_minichell.Sfs.Map.{Fine, Answers, Returns}

Fine-trans :
    {sv sv1 sv2 : Inode} {s s1 s2 : Volume}
    → ((sv1.indirect ≡ sv.indirect) ⊎ (bit s sv1.indirect ≡ false))
    → Fine sv s sv1 s1
    → Fine sv1 s1 sv2 s2
    → Fine sv s sv2 s2
Fine-trans {sv} {sv1} {sv2} {s} {s1} {s2} link a b = record {
  volume = b.volume;
  file = b.file;
  grows = record {
    nblocks = b.grows.nblocks ∙ a.grows.nblocks;
    bits = λ c u. b.grows.bits c (a.grows.bits c u);
    words = λ c w u n. b.grows.words c w (a.grows.bits c u) (other c u n) ∙ a.grows.words c w u n;
  };
}
  where
    other : (c : ℕ) → bit s c ≡ true → c ≢ sv.indirect → c ≢ sv1.indirect
    other c u n e = elim link [
      | inl q ↦ n (e ∙ q)
      | inr q ↦ ground (arith, u, q, subst (λ x. bit s x ≡ true) e u)
    ]

after :
    (sv sv1 sv2 : Inode) (s s1 s2 : Volume) (k : ℕ) (doalloc : Bool) (g : Got ℕ)
    → k < 143
    → ((j : ℕ) → j < 143 → holds sv1 s1 j ≡ holds sv s j)
    → Answers k doalloc sv1 s1 g sv2 s2
    → Answers k doalloc sv s g sv2 s2
after sv sv1 sv2 s s1 s2 k doalloc (err e) l same a = a ∙ same k l
after sv sv1 sv2 s s1 s2 k doalloc (got b) l same a = record {
  held = a.held;
  before = λ n. a.before (λ z. n (sym (same k l) ∙ z)) ∙ same k l;
  allocated = a.allocated;
  asked = λ q. a.asked q ∙ same k l;
}

pub Returns-after :
    (sv sv1 sv2 : Inode) (s s1 s2 : Volume) (k : ℕ) (doalloc : Bool) (g : Got ℕ)
    → k < 143
    → ((sv1.indirect ≡ sv.indirect) ⊎ (bit s sv1.indirect ≡ false))
    → Fine sv s sv1 s1
    → ((j : ℕ) → j < 143 → holds sv1 s1 j ≡ holds sv s j)
    → Returns k doalloc sv1 s1 g sv2 s2
    → Returns k doalloc sv s g sv2 s2
Returns-after sv sv1 sv2 s s1 s2 k doalloc g l link fine same r = record {
  fine = Fine-trans link fine r.fine;
  others = λ j m n. r.others j m n ∙ same j m;
  answer = after sv sv1 sv2 s s1 s2 k doalloc g l same r.answer;
}
