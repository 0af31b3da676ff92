-- ===== src/Nvme/Prp/Single.antt =====
-- `nvme_map_prp`: one contiguous buffer.
use native.Mathlib.Nat.{pow-le-pow_right}
use libvfn.Base.{
  ℕ, zero, suc, ◌+◌, ◌-◌, ◌*◌, ◌/◌, ◌^◌, ◌≤◌, ◌<◌, ◌≡◌, refl, sym, ap, ◌∙◌, Bool, true, Option,
  some, [], ◌∷◌, arith, ok, err, einval, le→ltb, lt→ltb, subst,
}
use libvfn.Support.Word.{u64}
use libvfn.Support.Bits.{pow_pos}
use libvfn.Support.Int.{pos}
use libvfn.Nvme.Cmd.{Cmd}
use libvfn.Nvme.Prp.Spec.{walk, page_addresses, described, pages, page_count, read}
use libvfn.Nvme.Prp.Entries.{page_address}
use libvfn.Nvme.Prp.Cursor.{Filled, put_from-Filled}
use libvfn.Nvme.Prp.Page.{prp_count-page_count, page_count_pos, list_base_lem}
use libvfn.Nvme.Prp.{
  PrpCursor, First, prp_cursor_init, prplist_capacity, put_from, list_base, map_prp_first, set_prp2,
  map_prp, mps_to_pageshift, first_failed, finish_prp,
}

walk_one : (lists : ℕ → ℕ) (base m a : ℕ) → walk lists base m 1 a 0 ≡ read lists base a 0 ∷ []
unfolding walk
walk_one lists base m a = ground arith

-- What a controller reads from the data pointer, once the list holds the pages after the first.
described-set_prp2 :
    (lists : ℕ → ℕ) (l m s iova base k : ℕ)
    → l < u64
    → walk lists l m k l 0 ≡ page_addresses base s 1 k
    → described lists l m (record { prp1 = iova; prp2 = set_prp2 l lists (pos (suc k)) }) (suc k)
      ≡ iova ∷ page_addresses base s 1 k
unfolding described set_prp2 walk
described-set_prp2 lists l m s iova base zero hl h = ap (◌∷◌ iova) h
described-set_prp2 lists l m s iova base (suc zero) hl h =
    ap (◌∷◌ iova) (ap (λ t. lists t ∷ []) (omega arith) ∙ sym (walk_one lists l m l) ∙ h)
described-set_prp2 lists l m s iova base (suc (suc k)) hl h = ap (◌∷◌ iova) h

suc-sub : (m : ℕ) → suc m - 1 ≡ m
suc-sub m = omega arith

-- The same for a count `n` that is not written as a successor.
described-pages :
    (lists : ℕ → ℕ) (l m s iova base n : ℕ)
    → l < u64
    → 0 < n
    → walk lists l m (n - 1) l 0 ≡ page_addresses base s 1 (n - 1)
    → (1 < n → base ≡ iova / 2 ^ s * 2 ^ s)
    → described lists l m (record { prp1 = iova; prp2 = set_prp2 l lists (pos n) }) n
      ≡ pages iova s n
unfolding pages page_addresses
described-pages lists l m s iova base zero hl hn h hb = absurd (omega arith)
described-pages lists l m s iova base (suc k) hl hn h hb =
    described-set_prp2 lists l m s iova base k hl
      (subst (λ t. walk lists l m t l 0 ≡ page_addresses base s 1 t) (suc-sub k) h)
    ∙ ap (◌∷◌ iova) (same k hb)
  where
    same :
        (k : ℕ)
        → (1 < suc k → base ≡ iova / 2 ^ s * 2 ^ s)
        → page_addresses base s 1 k ≡ page_addresses (iova / 2 ^ s * 2 ^ s) s 1 k
    same zero h = refl
    same (suc k) h = ap (λ t. page_addresses t s 1 (suc k)) (h (omega arith))

slots : (s : ℕ) → 12 ≤ s → (m : ℕ) × (2 ^ (s - 3) ≡ suc m) × (0 < m)
slots s h = (2 ^ (s - 3) - 1, omega (arith, pow_pos (s - 3)), omega (arith, two))
  where
    two : 2 ^ 1 ≤ 2 ^ (s - 3)
    two = pow-le-pow_right {n = 2} (omega arith) {i = 1} (omega arith)

module _ (s iova len nprplists l : ℕ) (lists : ℕ → ℕ) (h_low : 12 ≤ s) (h_high : s < 31)
    (h_iova : iova < u64) (h_pos : 0 < len) (h_len : len + 2 ^ s ≤ 2 ^ 31) (h_lists : 0 < nprplists)
    (h_l : l < u64) (h_space : nprplists * 2 ^ s ≤ u64) where
  abbrev n : ℕ
  n = page_count iova len (2 ^ s)

  abbrev base : ℕ
  base = list_base iova (2 ^ s) (pos n)

  abbrev out : PrpCursor × Bool
  out = put_from (n - 1) 1 n base (2 ^ (s - 3)) s true (prp_cursor_init lists l nprplists)

  out-Filled :
      n - 1 ≤ prplist_capacity nprplists (2 ^ (s - 3))
      → Filled s base 1 (n - 1) (prp_cursor_init lists l nprplists) out
  unfolding prp_cursor_init prplist_capacity
  out-Filled room =
      let (m, e, hm) = slots s h_low in
      put_from-Filled s m base (omega arith) hm e (n - 1) 1 n (nprplists - 1)
        (prp_cursor_init lists l nprplists)
        (omega (arith, page_count_pos iova len s h_high h_pos h_len)) h_l h_space (omega arith)
        (λ _. omega arith)
        (omega (
          arith,
          e,
          ap (λ t. (nprplists - 1) * (t - 1)) e,
          ap (λ t. (nprplists - 1) * t) (suc-sub m),
        ))

  first_ok :
      n - 1 ≤ prplist_capacity nprplists (2 ^ (s - 3))
      → map_prp_first (prp_cursor_init lists l nprplists) iova len s true
        ≡ record { prp1 = iova; cursor = out.0; count = pos n }
  unfolding map_prp_first prp_cursor_init
  first_ok room = rw (
    prp_count-page_count iova len s h_high h_pos h_len,
    le→ltb (prplist_capacity nprplists (2 ^ (s - 3))) (n - 1) room,
    (out-Filled room).done,
  )

  first_refused :
      prplist_capacity nprplists (2 ^ (s - 3)) < n - 1
      → map_prp_first (prp_cursor_init lists l nprplists) iova len s true
        ≡ first_failed iova (prp_cursor_init lists l nprplists)
  unfolding map_prp_first prp_cursor_init
  first_refused over = rw (
    prp_count-page_count iova len s h_high h_pos h_len,
    lt→ltb (prplist_capacity nprplists (2 ^ (s - 3))) (n - 1) over,
  )

  -- The data pointer that is written, and what a controller reads from it.
  described_out :
      n - 1 ≤ prplist_capacity nprplists (2 ^ (s - 3))
      → described out.0.prplists l
          (2 ^ (s - 3))
          (record { prp1 = iova; prp2 = set_prp2 l out.0.prplists (pos n) })
          n
        ≡ pages iova s n
  unfolding prp_cursor_init
  described_out room =
      described-pages out.0.prplists l (2 ^ (s - 3)) s iova base n h_l
        (page_count_pos iova len s h_high h_pos h_len)
        (subst
          (λ t. walk out.0.prplists l (2 ^ (s - 3)) (n - 1) t 0 ≡ page_addresses base s 1 (n - 1))
          first_page (out-Filled room).read_back)
        (list_base_lem iova s n (omega arith) h_iova)
    where
      first_page : page_address l s 0 ≡ l
      first_page = omega arith

module _ (mps iova len nprplists vaddr l : ℕ) (lists : ℕ → ℕ) (translate : ℕ → Option ℕ) (cmd : Cmd)
    (h_mps : mps ≤ 15) (h_iova : iova < u64) (h_pos : 0 < len)
    (h_len : len + 2 ^ mps_to_pageshift mps ≤ 2 ^ 31) (h_lists : 0 < nprplists) (h_l : l < u64)
    (h_space : nprplists * 2 ^ mps_to_pageshift mps ≤ u64)
    (h_translate : translate vaddr ≡ some l) where
  -- `nvme_map_prp` on a buffer of at least one byte, with a page less than 2 GiB, that the list
  -- pages have room for, at a page size of at most 128 MiB and where the list pages are mapped and
  -- do not go round the address space: the call succeeds, changes nothing of the command but its
  -- data pointer, and a controller that follows PRP1, PRP2 and the chained list pages is led to
  -- exactly the pages of the buffer, in order: the first from the address of the buffer on, the
  -- others whole.
  pub map_prp-described :
      page_count iova len (2 ^ mps_to_pageshift mps) - 1
        ≤ prplist_capacity nprplists (2 ^ (mps_to_pageshift mps - 3))
      → let s = mps_to_pageshift mps in
        let n = page_count iova len (2 ^ s) in
        let m = map_prp mps translate vaddr lists nprplists cmd iova len in
        (m.result ≡ ok tt)
        × (described m.prplists l (2 ^ (s - 3)) m.cmd.dptr n ≡ pages iova s n)
        × (m.cmd ≡ record cmd { dptr = m.cmd.dptr })
  unfolding map_prp
  map_prp-described room =
      rw (h_translate, le→ltb nprplists 1 h_lists)
        (subst
          (λ (f : First).
            let m = finish_prp cmd l f.prp1 f.cursor.prplists f.count in
            (m.result ≡ ok tt)
            × (described m.prplists l (2 ^ (s - 3)) m.cmd.dptr n ≡ pages iova s n)
            × (m.cmd ≡ record cmd { dptr = m.cmd.dptr }))
          (sym (
            first_ok s iova len nprplists l lists (omega arith) (omega arith) h_iova h_pos h_len
              h_lists h_l h_space room))
          (
            refl,
            described_out s iova len nprplists l lists (omega arith) (omega arith) h_iova h_pos
                h_len h_lists h_l h_space room,
            refl,
          ))
    where
      s : ℕ
      s = mps_to_pageshift mps

      n : ℕ
      n = page_count iova len (2 ^ s)

  -- `nvme_map_prp` on a buffer that the list pages have no room for, under the same bounds on the
  -- buffer, the page size and the list pages, fails with EINVAL and leaves the list pages alone.
  pub map_prp_full :
      prplist_capacity nprplists (2 ^ (mps_to_pageshift mps - 3))
        < page_count iova len (2 ^ mps_to_pageshift mps) - 1
      → let m = map_prp mps translate vaddr lists nprplists cmd iova len in
        (m.result ≡ err einval) × (m.prplists ≡ lists)
  unfolding map_prp prp_cursor_init
  map_prp_full over =
      rw (h_translate, le→ltb nprplists 1 h_lists)
        (subst
          (λ (f : First).
            let m = finish_prp cmd l f.prp1 f.cursor.prplists f.count in
            (m.result ≡ err einval) × (m.prplists ≡ lists))
          (sym (
            first_refused s iova len nprplists l lists (omega arith) (omega arith) h_iova h_pos
              h_len h_lists h_l h_space over))
          (refl, refl))
    where
      s : ℕ
      s = mps_to_pageshift mps
