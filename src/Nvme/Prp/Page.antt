-- ===== src/Nvme/Prp/Page.antt =====
-- The page arithmetic of `__map_prp_first`: its count is the number of pages that the buffer
-- touches, and its base is the page that the buffer begins in.
use native.Mathlib.Nat.{mod-lt, div-add-mod', mul-div_cancel, div-eq_of_lt-le, add-mul-div_right}
use libvfn.Base.{
  ℕ, suc, ◌+◌, ◌-◌, ◌*◌, ◌/◌, ◌%◌, ◌^◌, ◌≤◌, ◌<◌, ◌≡◌, sym, ap, ◌∙◌, arith, inl, inr, eq-cases,
  le-cases, eq→==, ne→==, lt→ltb,
}
use libvfn.Support.Word.{u64}
use libvfn.Support.Bits.{pow_pos}
use libvfn.Support.Int.{pos, int32, shr_ℤ, succ_ℤ, int32_small}
use libvfn.Support.Align.{align_up, align_up_lem, align_down_lem, aligned_lem}
use libvfn.Nvme.Prp.Spec.{page_count}
use libvfn.Nvme.Prp.{residual, prp_count, list_base}

ceil_shr :
    (r s : ℕ)
    → s < 31
    → r + 2 ^ s ≤ 2 ^ 31
    → shr_ℤ (int32 (align_up r (2 ^ s))) s ≡ pos ((r + 2 ^ s - 1) / 2 ^ s)
unfolding shr_ℤ
ceil_shr r s hs h =
    rw (align_up_lem r s (omega arith) (omega arith), int32_small _ small)
      (ap pos (mul-div_cancel ((r + 2 ^ s - 1) / 2 ^ s) (pow_pos s)))
  where
    small : (r + 2 ^ s - 1) / 2 ^ s * 2 ^ s < 2 ^ 31
    small = omega (arith, div-add-mod' (r + 2 ^ s - 1) (2 ^ s), pow_pos s)

-- The two cases of the count: all within the first page, and a residual behind it.
one_page : (o len m : ℕ) → o < m → 0 < len → o + len ≤ m → (o + len + m - 1) / m ≡ 1
one_page o len m ho hl h = div-eq_of_lt-le {k = 1} m (omega arith) (omega arith)

more_pages :
    (o len m : ℕ) → o < m → m < o + len → (o + len + m - 1) / m ≡ suc ((len - (m - o) + m - 1) / m)
more_pages o len m ho h =
    ap (λ t. t / m) split ∙ add-mul-div_right (len - (m - o) + m - 1) 1 (omega arith) ∙ omega arith
  where
    split : o + len + m - 1 ≡ len - (m - o) + m - 1 + 1 * m
    split = omega arith

module _ (iova len s : ℕ) (hs : s < 31) (h0 : 0 < len) (h : len + 2 ^ s ≤ 2 ^ 31) where
  pub prp_count-page_count :
      prp_count (residual iova len (2 ^ s)) s ≡ pos (page_count iova len (2 ^ s))
  unfolding prp_count residual page_count succ_ℤ
  prp_count-page_count = elim (le-cases (o + len) p) [
    | inl fits ↦
        rw (eq→== (len - (p - o)) 0 (omega arith)) (ap pos (sym (one_page o len p ho h0 fits)))
    | inr over ↦
        rw (ne→== (len - (p - o)) 0 (omega arith), ceil_shr (len - (p - o)) s hs (omega arith))
          (ap pos (sym (more_pages o len p ho over)))
  ]
    where
      p : ℕ
      p = 2 ^ s

      o : ℕ
      o = iova % p

      ho : o < p
      ho = mod-lt iova (pow_pos s)

  pub page_count_pos : 0 < page_count iova len (2 ^ s)
  unfolding page_count
  page_count_pos = elim (le-cases (iova % 2 ^ s + len) (2 ^ s)) [
    | inl fits ↦
        omega (arith, one_page (iova % 2 ^ s) len (2 ^ s) (mod-lt iova (pow_pos s)) h0 fits)
    | inr over ↦ omega (arith, more_pages (iova % 2 ^ s) len (2 ^ s) (mod-lt iova (pow_pos s)) over)
  ]

-- The loop counts from the start of the page, wherever it runs at all.
pub list_base_lem :
    (iova s n : ℕ)
    → s < 64
    → iova < u64
    → 1 < n
    → list_base iova (2 ^ s) (pos n) ≡ iova / 2 ^ s * 2 ^ s
unfolding list_base
list_base_lem iova s n hs hi hn =
    rw (lt→ltb 1 n hn, aligned_lem iova s hs, align_down_lem iova s hs hi)
      (elim (eq-cases (iova % 2 ^ s) 0) [
        | inl z ↦ rw (eq→== _ 0 z) (omega (arith, div-add-mod' iova (2 ^ s)))
        | inr nz ↦ rw (ne→== _ 0 nz)
      ])
