-- ===== src/Iommu/Dma/Reverse.antt =====
-- `iommu_translate_iova` of src/iommu/dma.c.
use libvfn.Base.{
  ℕ, ◌+◌, ◌-◌, ◌≤◌, ◌<◌, ◌≡◌, refl, sym, ap, ◌∙◌, true, false, some, List, [], ◌∷◌, arith, inl, inr,
  Bool-cases, leb, ltb, ◌&&◌, Result, ok, err,
}
use libvfn.Iommu.Dma.{Mapping, Backend, Ctx, translate_vaddr, first_holding, translate_iova}
use libvfn.Iommu.Dma.Places.{holds, first_in, Disjoint, if_true, if_false, holds_in, holds_behind}
use libvfn.Iommu.Dma.Map.{holds→in}
use libvfn.Iommu.Dma.Remove.{first_in-above_end}
use libvfn.Iommu.Dma.Translate.{not_ok, offset, translate-first_in}

within :
    (x : ℕ) (m : Mapping)
    → (leb m.iova x && ltb x (m.iova + m.len)) ≡ true
    → (m.iova ≤ x) × (x < m.iova + m.len)
within x m h = ground arith

nothing_within :
    (x : ℕ) (m : Mapping) → m.len ≡ 0 → (leb m.iova x && ltb x (m.iova + m.len)) ≡ false
nothing_within x m h = ground arith

pair_inj : {p q : ℕ × ℕ} → ok p ≡ ok q → p ≡ q
pair_inj {p = p} h = ap (λ (r : Result (ℕ × ℕ)). elim r [ ok x ↦ x | err e ↦ p ]) h

record Holding (ms : List Mapping) (iova v left : ℕ) : Type 0 where
  m : Mapping
  from : m.iova ≤ iova
  to : iova < m.iova + m.len
  v_lem : v ≡ m.vaddr + (iova - m.iova)
  left_lem : left ≡ m.len - (iova - m.iova)
  first : (u : ℕ) → holds u m ≡ true → first_in u ms ≡ some m

first_holding-Holding :
    (ms : List Mapping) (iova v left : ℕ)
    → Disjoint ms
    → first_holding ms iova ≡ ok (v, left)
    → Holding ms iova v left
unfolding first_holding
first_holding-Holding [] iova v left d e = absurd (not_ok e)
first_holding-Holding (m ∷ ms) iova v left d e =
    elim (Bool-cases (leb m.iova iova && ltb iova (m.iova + m.len))) [
      | inl t ↦
          let r : first_holding (m ∷ ms) iova
              ≡ ok (m.vaddr + (iova - m.iova), m.len - (iova - m.iova)) =
            rw t refl in
          let w : (m.vaddr + (iova - m.iova), m.len - (iova - m.iova)) ≡ (v, left) =
            pair_inj (sym r ∙ e) in
          record {
            m = m;
            from = (within iova m t).0;
            to = (within iova m t).1;
            v_lem = sym (ap (λ (p : ℕ × ℕ). p.0) w);
            left_lem = sym (ap (λ (p : ℕ × ℕ). p.1) w);
            first = λ u h. if_true (holds u m) (some m) (first_in u ms) h;
          }
      | inr t ↦
          let r : first_holding (m ∷ ms) iova ≡ first_holding ms iova = rw t refl in
          let h = first_holding-Holding ms iova v left d.1.1 (sym r ∙ e) in
          let start =
            h.first h.m.vaddr
              (holds_in h.m.vaddr h.m (omega arith) (omega (arith, h.from, h.to))) in
          let end = first_in-above_end (m.vaddr + m.len) h.m.vaddr h.m ms d.1.0 start in
          record {
            m = h.m;
            from = h.from;
            to = h.to;
            v_lem = h.v_lem;
            left_lem = h.left_lem;
            first = λ u q.
                if_false (holds u m) (some m) (first_in u ms)
                  (holds_behind u m (omega (arith, end, (holds→in u h.m q).0)))
                ∙ h.first u q;
          }
    ]

module _ (backend : Backend) where
  -- `iommu_translate_iova` in a map of disjoint mappings, where it succeeds and the bytes in front
  -- of the sentinel read as a mapping of length 0: the address and the count that it returns are a
  -- part of a mapping, of at least one byte, which `iommu_translate_vaddr` translates back.
  pub translate_iova-translate_vaddr :
      (ctx : Ctx backend) (front : Mapping) (iova v left : ℕ)
      → Disjoint ctx.map
      → front.len ≡ 0
      → translate_iova front ctx.map iova ≡ ok (v, left)
      → (0 < left) × ((k : ℕ) → k < left → translate_vaddr backend ctx (v + k) ≡ some (iova + k))
  unfolding translate_iova
  translate_iova-translate_vaddr ctx front iova v left d hf e =
      let no : (leb front.iova iova && ltb iova (front.iova + front.len)) ≡ false =
        nothing_within iova front hf in
      let r : translate_iova front ctx.map iova ≡ first_holding ctx.map iova =
        rw (translate_iova, first_holding, no) refl in
      let h = first_holding-Holding ctx.map iova v left d (sym r ∙ e) in
      (
        omega (arith, h.from, h.to, h.left_lem),
        λ k hk.
            translate-first_in backend ctx (v + k) d
            ∙ ap (offset (v + k)) (
                h.first (v + k) (
                  holds_in (v + k) h.m (omega (arith, h.v_lem))
                    (omega (arith, h.v_lem, h.left_lem, h.to, h.from))))
            ∙ ap some (omega (arith, h.v_lem, h.from)),
      )
