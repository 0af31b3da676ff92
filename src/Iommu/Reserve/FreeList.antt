-- ===== src/Iommu/Reserve/FreeList.antt =====
-- The list of free ranges in src/iommu/vfio.c as a set of addresses: what `__iova_put_free` does.
use libvfn.Base.{
  ℕ, suc, ◌+◌, ◌≤◌, ◌<◌, ◌≡◌, ◌⊎◌, refl, sym, ap, subst, ◌∙◌, false, ◌||◌, List, [], ◌∷◌, arith,
  inl, inr, eq-cases, le-cases, eq→==, ne→==, le→leb, lt→leb,
}
use libvfn.Support.Word.{u64, add64}
use libvfn.Iommu.Reserve.{FreeRange, put_before, extend_prev, put_at, put_behind, put_free}
use libvfn.Iommu.Reserve.Bytes.{
  within, covers, Spaced, Apart, Ahead, Added, add64_small, or_swap, grown,
}

put_before-Added :
    (lo lo' start len : ℕ) (ns : List FreeRange)
    → lo ≤ start
    → 0 < len
    → start + len < u64
    → Spaced lo' ns
    → Ahead (start + len) ns
    → Added lo start len ns (put_before ns start len)
unfolding put_before
put_before-Added lo lo' start len [] a b c d h = record {
  spaced = ((a, b), (c, tt));
  covers_lem = λ u. refl;
}
put_before-Added lo lo' start len (n ∷ ns) a b c d h = elim (eq-cases (start + len) n.start) [
  | inl e ↦
      let w : add64 n.len len ≡ len + n.len = omega (arith, d.1.0) in
      rw (put_before, eq→== (add64 start len) n.start (add64_small start len c ∙ e))
        (record {
          spaced = (
            (a, omega (arith, w)),
            (omega (arith, w, d.1.0), subst (λ x. Spaced (suc x) ns) (omega (arith, w)) d.1.1),
          );
          covers_lem = λ u. grown u start len n.len (add64 n.len len) n.start (covers u ns) w e;
        })
  | inr e ↦
      rw (put_before, ne→== (add64 start len) n.start (λ q. e (sym (add64_small start len c) ∙ q)))
        (record { spaced = ((a, b), (c, ((omega arith, d.0.1), d.1))); covers_lem = λ u. refl })
]

-- The range before the bytes, which end at its end.
extend_prev-Added :
    (lo len : ℕ) (p : FreeRange) (ns : List FreeRange)
    → Spaced lo (p ∷ ns)
    → 0 < len
    → p.start + p.len + len < u64
    → Ahead (p.start + p.len + len) ns
    → Added lo (p.start + p.len) len (p ∷ ns) (extend_prev p ns len)
unfolding extend_prev
extend_prev-Added lo len p [] d b c h =
    let w : add64 p.len len ≡ p.len + len = omega arith in
    record {
      spaced = ((d.0.0, omega (arith, w)), (omega (arith, w), tt));
      covers_lem = λ u.
          grown u p.start p.len len (add64 p.len len) (p.start + p.len) false w refl
          ∙ or_swap (within u p.start p.len) (within u (p.start + p.len) len) false;
    }
extend_prev-Added lo len p (n ∷ ns) d b c h =
    let w : add64 p.len len ≡ p.len + len = omega arith in
    let at : add64 p.start (add64 p.len len) ≡ p.start + p.len + len = omega (arith, w) in
    elim (eq-cases (p.start + p.len + len) n.start) [
      | inl e ↦
          let v : add64 (add64 p.len len) n.len ≡ p.len + len + n.len =
            omega (arith, w, d.1.1.1.0) in
          rw (extend_prev, eq→== (add64 p.start (add64 p.len len)) n.start (at ∙ e))
            (record {
              spaced = (
                (d.0.0, omega (arith, v, d.0.1)),
                (
                  omega (arith, v, d.1.1.1.0),
                  subst (λ x. Spaced (suc x) ns) (omega (arith, v)) d.1.1.1.1,
                ),
              );
              covers_lem = λ u.
                  grown u p.start p.len (len + n.len) (add64 (add64 p.len len) n.len)
                    (p.start + p.len) (covers u ns) (omega (arith, v)) refl
                  ∙ ap (λ x. within u p.start p.len || x)
                      (grown u (p.start + p.len) len n.len (len + n.len) n.start (covers u ns) refl
                        e)
                  ∙ or_swap (within u p.start p.len) (within u (p.start + p.len) len)
                      (within u n.start n.len || covers u ns);
            })
      | inr e ↦
          rw (extend_prev, ne→== (add64 p.start (add64 p.len len)) n.start (λ q. e (sym at ∙ q)))
            (record {
              spaced = (
                (d.0.0, omega (arith, w, d.0.1)),
                (omega (arith, w), ((omega (arith, w), d.1.1.0.1), d.1.1.1)),
              );
              covers_lem = λ u.
                  let rest = within u n.start n.len || covers u ns in
                  grown u p.start p.len len (add64 p.len len) (p.start + p.len) rest w refl
                  ∙ or_swap (within u p.start p.len) (within u (p.start + p.len) len) rest;
            })
    ]

Added-cons :
    (lo start len : ℕ) (p : FreeRange) (ns out : List FreeRange)
    → Spaced lo (p ∷ ns)
    → Added (suc (p.start + p.len)) start len ns out
    → Added lo start len (p ∷ ns) (p ∷ out)
Added-cons lo start len p ns out d a = record {
  spaced = (d.0, (d.1.0, a.spaced));
  covers_lem = λ u.
      ap (λ x. within u p.start p.len || x) (a.covers_lem u)
      ∙ or_swap (within u p.start p.len) (within u start len) (covers u ns);
}

put_at-Added :
    (lo start len : ℕ) (p : FreeRange) (ns : List FreeRange)
    → Spaced lo (p ∷ ns)
    → 0 < len
    → start + len < u64
    → p.start + p.len ≤ start
    → Ahead (start + len) ns
    → Added lo start len (p ∷ ns) (put_at p ns start len)
unfolding put_at
put_at-Added lo start len p ns d b c e h = elim (eq-cases (p.start + p.len) start) [
  | inl q ↦
      rw (put_at, eq→== (add64 p.start p.len) start (add64_small p.start p.len d.1.0 ∙ q))
        (subst (λ x. Added lo x len (p ∷ ns) (extend_prev p ns len)) q
          (extend_prev-Added lo len p ns d b (omega arith)
            (subst (λ x. Ahead (x + len) ns) (sym q) h)))
  | inr q ↦
      rw
        (
          put_at,
          ne→== (add64 p.start p.len) start (λ r. q (sym (add64_small p.start p.len d.1.0) ∙ r)),
          ne→== p.start start (λ r. omega (arith, r, d.0.1)),
        )
        (Added-cons lo start len p ns (put_before ns start len) d (
          put_before-Added (suc (p.start + p.len)) (suc (p.start + p.len)) start len ns
            (omega arith) b c d.1.1 h))
]

-- Where bytes that are not in a range stand to it.
is_before :
    (start len : ℕ) (r : FreeRange)
    → (start + len ≤ r.start) ⊎ (r.start + r.len ≤ start)
    → start < r.start
    → start + len ≤ r.start
is_before start len r h lt = omega arith

is_after :
    (start len : ℕ) (r : FreeRange)
    → (start + len ≤ r.start) ⊎ (r.start + r.len ≤ start)
    → 0 < len
    → r.start ≤ start
    → r.start + r.len ≤ start
is_after start len r h hl le = omega arith

put_behind-Added :
    (lo start len : ℕ) (p : FreeRange) (ns : List FreeRange)
    → Spaced lo (p ∷ ns)
    → 0 < len
    → start + len < u64
    → p.start + p.len ≤ start
    → Apart start len ns
    → Added lo start len (p ∷ ns) (put_behind p ns start len)
unfolding put_behind
put_behind-Added lo start len p [] d b c e a = put_at-Added lo start len p [] d b c e tt
put_behind-Added lo start len p (n ∷ ns) d b c e a = elim (le-cases n.start start) [
  | inl q ↦
      rw (put_behind, le→leb n.start start q)
        (Added-cons lo start len p (n ∷ ns) (put_behind n ns start len) d (
          put_behind-Added (suc (p.start + p.len)) start len n ns d.1.1 b c
            (is_after start len n a.0 b q) a.1))
  | inr q ↦
      rw (put_behind, lt→leb n.start start q)
        (put_at-Added lo start len p (n ∷ ns) d b c e (is_before start len n a.0 q))
]

-- `__iova_put_free` of at least one byte, of which none is free, to free ranges that are in order
-- with a gap between each two: they stay so, so that neighbours have been joined, and the free
-- addresses are those that were free and the bytes given back. The ranges do not reach the last
-- 64-bit address.
pub put_free-Added :
    (start len : ℕ) (free : List FreeRange)
    → Spaced 0 free
    → 0 < len
    → start + len < u64
    → Apart start len free
    → Added 0 start len free (put_free free start len)
unfolding put_free
put_free-Added start len [] d b c a = put_before-Added 0 0 start len [] (omega arith) b c tt tt
put_free-Added start len (n ∷ ns) d b c a = elim (le-cases n.start start) [
  | inl q ↦
      rw (put_free, le→leb n.start start q)
        (put_behind-Added 0 start len n ns d b c (is_after start len n a.0 b q) a.1)
  | inr q ↦
      rw (put_free, lt→leb n.start start q)
        (put_before-Added 0 0 start len (n ∷ ns) (omega arith) b c d (is_before start len n a.0 q))
]
