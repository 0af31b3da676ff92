-- ===== src/Nvme/Prp/Cursor.antt =====
-- The chain that `__prp_cursor_put` builds is the one that the controller reads back.
use native.Mathlib.Nat.{mul-le-mul_right}
use libvfn.Support.Bits.{pow_pos}
use libvfn.Base.{
  ℕ, zero, suc, ◌+◌, ◌-◌, ◌*◌, ◌%◌, ◌^◌, ◌≤◌, ◌<◌, ◌≡◌, ◌≢◌, refl, ap, ap₂, ◌∙◌, Bool, true, false,
  ◌∷◌, arith, update, update_self, update_ne, inl, inr, eq-cases, ◌==◌, ◌⊎◌,
}
use libvfn.Support.Word.{u64, add64}
use libvfn.Nvme.Prp.Spec.{read, walk, page_addresses}
use libvfn.Nvme.Prp.{PrpCursor, entry, link, store, prp_cursor_put, put_from}
use libvfn.Nvme.Prp.Entries.{
  page_address, read_at, entry_suc, entry_last, mul_pred, walk_plain, walk_chain,
}

-- The two ways in which a put succeeds, for pages of `suc m` slots.
module _ (s m : ℕ) (e : 2 ^ (s - 3) ≡ suc m) (c : PrpCursor) (v : ℕ) where
  put_plain :
      (last : Bool)
      → c.page < c.nprplists
      → c.slot ≤ m
      → (c.slot ≢ m) ⊎ (last ≡ true)
      → prp_cursor_put c v (2 ^ (s - 3)) s last ≡ (store c v s, true)
  unfolding prp_cursor_put link
  put_plain last hp hs h = ground (arith, e)

  put_chain :
      c.page + 1 < c.nprplists
      → c.slot ≡ m
      → 0 < m
      → prp_cursor_put c v (2 ^ (s - 3)) s false ≡ (store (link c (2 ^ (s - 3)) s) v s, true)
  unfolding prp_cursor_put link
  put_chain hp hs hm = ground (arith, e)

-- What the loop leaves, started at `c` with `rest` entries to put, the last of them the last of
-- the list: it ends well, keeps what lies before the cursor, and the controller reads the entries.
pub record Filled (s iova i rest : ℕ) (c : PrpCursor) (out : PrpCursor × Bool) : Type 0 where
  pub done : out.1 ≡ true
  pub kept : (j : ℕ) → j < entry s c.page c.slot → out.0.prplists j ≡ c.prplists j
  pub read_back :
      walk out.0.prplists c.prplist_iova
        (2 ^ (s - 3))
        rest
        (page_address c.prplist_iova s c.page)
        c.slot
      ≡ page_addresses iova s i rest

module _ (s m iova : ℕ) (hs : 3 ≤ s) (hm : 0 < m) (e : 2 ^ (s - 3) ≡ suc m) where
  -- One put that needs no link, then the rest.
  step_plain :
      (i rest : ℕ) (c : PrpCursor) (out : PrpCursor × Bool)
      → c.prplist_iova < u64
      → c.page * 2 ^ s < u64
      → c.slot ≤ m
      → (c.slot ≢ m) ⊎ (rest ≡ 0)
      → Filled s iova (i + 1) rest (store c (add64 iova (i * 2 ^ s % u64)) s) out
      → Filled s iova i (suc rest) c out
  unfolding store page_addresses
  step_plain i rest c out hb hp hk h f = record { done = f.done; kept = kept; read_back = back }
    where
      v : ℕ
      v = add64 iova (i * 2 ^ s % u64)

      here : ℕ
      here = entry s c.page c.slot

      kept : (j : ℕ) → j < here → out.0.prplists j ≡ c.prplists j
      kept j lt =
          f.kept j (omega (arith, entry_suc s c.page c.slot))
          ∙ update_ne c.prplists here j v (omega arith)

      put : out.0.prplists here ≡ v
      put = f.kept here (omega (arith, entry_suc s c.page c.slot)) ∙ update_self c.prplists here v

      back :
          walk out.0.prplists c.prplist_iova
            (2 ^ (s - 3))
            (suc rest)
            (page_address c.prplist_iova s c.page)
            c.slot
          ≡ page_addresses iova s i (suc rest)
      back =
          walk_plain out.0.prplists c.prplist_iova (2 ^ (s - 3)) rest
            (page_address c.prplist_iova s c.page) c.slot (ground (arith, e))
          ∙ ap₂ ◌∷◌ (read_at out.0.prplists c.prplist_iova s c.page c.slot hs hb hp ∙ put)
              f.read_back

  step_chain :
      (i rest : ℕ) (c : PrpCursor) (out : PrpCursor × Bool)
      → c.prplist_iova < u64
      → (c.page + 1) * 2 ^ s < u64
      → c.slot ≡ m
      → 0 < rest
      → Filled s iova
          (i + 1)
          rest
          (store (link c (2 ^ (s - 3)) s) (add64 iova (i * 2 ^ s % u64)) s)
          out
      → Filled s iova i (suc rest) c out
  unfolding store link page_addresses
  step_chain i rest c out hb hp hk h f = record { done = f.done; kept = kept; read_back = back }
    where
      w : ℕ
      w = 2 ^ (s - 3)

      v : ℕ
      v = add64 iova (i * 2 ^ s % u64)

      l : ℕ
      l = page_address c.prplist_iova s (c.page + 1)

      at_link : ℕ
      at_link = entry s c.page (w - 1)

      at_data : ℕ
      at_data = entry s (c.page + 1) 0

      linked : ℕ → ℕ
      linked = update c.prplists at_link l

      order :
          (at_link < at_data)
          × (at_data < entry s (c.page + 1) 1)
          × (entry s c.page c.slot ≡ at_link)
      order = (
        omega (arith, entry_last s m c.page e),
        omega (arith, entry_suc s (c.page + 1) 0),
        ap (entry s c.page) (omega (arith, e)),
      )

      kept : (j : ℕ) → j < entry s c.page c.slot → out.0.prplists j ≡ c.prplists j
      kept j lt =
          f.kept j (omega (arith, order))
          ∙ update_ne linked at_data j v (omega (arith, order))
          ∙ update_ne c.prplists at_link j l (omega (arith, order))

      put : out.0.prplists at_data ≡ v
      put = f.kept at_data (omega (arith, order)) ∙ update_self linked at_data v

      put_link : out.0.prplists at_link ≡ l
      put_link =
          f.kept at_link (omega (arith, order))
          ∙ update_ne linked at_data at_link v (omega (arith, order))
          ∙ update_self c.prplists at_link l

      next : read out.0.prplists c.prplist_iova (page_address c.prplist_iova s c.page) (w - 1) ≡ l
      next = read_at out.0.prplists c.prplist_iova s c.page (w - 1) hs hb (omega arith) ∙ put_link

      back :
          walk out.0.prplists c.prplist_iova w
            (suc rest)
            (page_address c.prplist_iova s c.page)
            c.slot
          ≡ page_addresses iova s i (suc rest)
      back =
          walk_chain out.0.prplists c.prplist_iova w rest (page_address c.prplist_iova s c.page)
            c.slot (ground (arith, e))
          ∙ rw next (
              ap₂ ◌∷◌ (read_at out.0.prplists c.prplist_iova s (c.page + 1) 0 hs hb hp ∙ put)
                f.read_back)

  in_space : (page n : ℕ) → page < n → n * 2 ^ s ≤ u64 → page * 2 ^ s < u64
  in_space page n lt h = omega (arith, mul-le-mul_right (2 ^ s) lt, pow_pos s)

  pub put_from-Filled :
      (rest i n q : ℕ) (c : PrpCursor)
      → i + rest ≡ n
      → c.prplist_iova < u64
      → c.nprplists * 2 ^ s ≤ u64
      → c.page + suc q ≡ c.nprplists
      → (0 < rest → c.slot ≤ m)
      → rest + c.slot ≤ q * m + suc m
      → Filled s iova i rest c (put_from rest i n iova (2 ^ (s - 3)) s true c)
  unfolding put_from walk page_addresses store link
  put_from-Filled zero i n q c hn hb ha hq hk room = record {
    done = refl;
    kept = λ j h. refl;
    read_back = refl;
  }
  put_from-Filled (suc rest) i n q c hn hb ha hq hk room = elim (eq-cases c.slot m) [
    | inr ne ↦ rw (put_plain s m e c v (i + 1 == n) (omega arith) (hk (omega arith)) (inl ne)) (
        step_plain i rest c _ hb (in_space c.page c.nprplists (omega arith) ha) (hk (omega arith))
          (inl ne)
          (put_from-Filled rest (i + 1) n q (store c v s) (omega arith) hb ha hq
            (λ h. omega (arith, hk (omega arith))) (omega arith)))
    | inl full ↦ elim (eq-cases rest 0) [
      | inl last ↦
          rw (put_plain s m e c v (i + 1 == n) (omega arith) (omega arith) (inr (ground arith))) (
            step_plain i rest c _ hb (in_space c.page c.nprplists (omega arith) ha) (omega arith)
              (inr last)
              (put_from-Filled rest (i + 1) n q (store c v s) (omega arith) hb ha hq
                (λ h. absurd (omega arith)) (omega arith)))
      | inr more ↦
          let test : (i + 1 == n) ≡ false = ground arith in
          elim (eq-cases q 0) [
            | inl z ↦ absurd (omega (arith, ap (λ t. t * m) z))
            | inr nz ↦
                let fact = mul_pred q m nz in
                rw (test, put_chain s m e c v (omega arith) full hm)
                  (step_chain i rest c _ hb (in_space (c.page + 1) c.nprplists (omega arith) ha)
                    full (omega arith)
                    (put_from-Filled rest (i + 1) n (q - 1) (store (link c (2 ^ (s - 3)) s) v s)
                      (omega arith) hb ha (omega arith) (λ _. omega arith) (omega arith)))
          ]
    ]
  ]
    where
      v : ℕ
      v = add64 iova (i * 2 ^ s % u64)
