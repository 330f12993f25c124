-- ===== src/Mm/Vmm/Step.antt =====
-- One level of `vmm_map_page`: the table it leads to, and the pages it leaves alone.
use chef_os.Prelude.{
  ℕ, ◌+◌, ◌*◌, ◌^◌, ◌≤◌, ◌<◌, ◌≡◌, ◌≢◌, refl, true, false, List, [], ◌∷◌, arith, bit_or, u64, ap,
  ◌∙◌, sym, Bool-cases, inl, inr,
}
use chef_os.Mm.Pmm.{Pmm, page_size, alloc_page}
use chef_os.Mm.Pmm.Count.{used, IsValid, count_free_none}
use chef_os.Mm.Pmm.Single.{Took, alloc_page_lem}
use chef_os.Mm.Vmm.{
  Words, write_word, zero_page, entry_at, is_present, table_of, wants_user, table_flags, new_table,
  old_table, next_table,
}
use chef_os.Mm.Vmm.Walk.{
  NotIn, IsTable, IsWay, SamePage, AllSame, AllSame-refl, AllSame-trans, write_word-SamePage,
  write_word-AllSame, zero_page-AllSame, AllSmall, entry_at-eq, IsWay-same, entry_flags, present_or,
  present_user, table_user,
}
use chef_os.Mm.Vmm.Stepped.{AllUsed, NotIn-free, AllUsed-more, Stepped, read_back, zero_page_lem}

module _ (hhdm flags : ℕ) (m : Words) (pmm : Pmm) (seen : List ℕ) (k j : ℕ) (js : List ℕ)
    (table : ℕ) (v : IsValid pmm) (busy : AllUsed pmm seen) (t : IsTable hhdm pmm seen table k)
    (room : pmm.total_pages * page_size + hhdm ≤ 2 ^ 64) (small : j < 512)
    (smalls : AllSmall js) where
  at_eq : entry_at table j ≡ k * page_size + hhdm + 8 * j
  at_eq = entry_at-eq hhdm pmm.total_pages table k j t.at_page t.exists room small

  write_entry-AllSame :
      (n : Words) (e : ℕ) → AllSame hhdm n (write_word n (entry_at table j) e) seen
  write_entry-AllSame n e =
      rw at_eq (write_word-AllSame hhdm n k (8 * j) e seen t.new (omega (arith, small)))

  write_entry-SamePage :
      (n : Words) (c e : ℕ) → c ≢ k → SamePage hhdm n (write_word n (entry_at table j) e) c
  write_entry-SamePage n c e ne =
      rw at_eq (write_word-SamePage hhdm n c k (8 * j) e ne (omega (arith, small)))

  -- The entry was present: its word may have changed, in page `k`.
  old_table-Stepped :
      is_present (m (entry_at table j)) ≡ true
      → IsWay hhdm pmm m (k ∷ seen) js (table_of hhdm (m (entry_at table j)))
      → Stepped hhdm m pmm seen k
          (entry_at table j)
          js
          (old_table hhdm flags m pmm (entry_at table j))
  old_table-Stepped there w = elim (Bool-cases (wants_user flags)) [
    | inr plain ↦ rw plain (record {
      valid = v;
      total = refl;
      in_use = (t.in_use, busy);
      left = omega arith;
      entry = there;
      leads = refl;
      same = AllSame-refl hhdm m seen;
      way = w;
    })
    | inl user ↦
        let e = bit_or (m (entry_at table j)) 4 in
        let back = read_back m (entry_at table j) e in
        rw user (record {
          valid = v;
          total = refl;
          in_use = (t.in_use, busy);
          left = omega arith;
          entry = ap is_present back ∙ present_user (m (entry_at table j)) there;
          leads = ap (table_of hhdm) back;
          same = write_entry-AllSame m e;
          way = rw (table_user hhdm (m (entry_at table j))) (kept e);
        })
  ]
    where
      kept :
          (e : ℕ)
          → IsWay hhdm pmm
              (write_word m (entry_at table j) e)
              (k ∷ seen)
              js
              (table_of hhdm (m (entry_at table j)))
      kept e =
          IsWay-same hhdm pmm m (write_word m (entry_at table j) e) (k ∷ seen) js
            (table_of hhdm (m (entry_at table j))) (λ c apart. write_entry-SamePage m c e apart.0)
            smalls room w

  -- The entry was not present: a free page `p` is the table now, and all its entries are 0.
  module _ (p : ℕ) (took : Took pmm 0 (alloc_page pmm) p) where
    apart : NotIn p (k ∷ seen)
    apart = NotIn-free pmm p (k ∷ seen) took.was_free (t.in_use, busy)

    fresh_place : u64 ((alloc_page pmm).0 + hhdm) ≡ p * page_size + hhdm
    fresh_place = omega (arith, took.pointer, took.in_range, room)

    table_link : ℕ
    table_link = bit_or (alloc_page pmm).0 (table_flags flags)

    table_link_present : is_present table_link ≡ true
    unfolding table_link
    table_link_present = present_or (alloc_page pmm).0 (table_flags flags) (ground arith)

    table_link_target : table_of hhdm table_link ≡ p * page_size + hhdm
    unfolding table_link
    table_link_target =
        ap (λ a. table_of hhdm (bit_or a (table_flags flags))) took.pointer
        ∙ entry_flags hhdm p (table_flags flags) (ground arith)
        ∙ omega (arith, took.in_range, room)

    cleared : Words
    cleared = zero_page m (u64 ((alloc_page pmm).0 + hhdm))

    cleared-AllSame : AllSame hhdm m cleared seen
    unfolding cleared
    cleared-AllSame = rw fresh_place (zero_page-AllSame hhdm m p seen apart.1)

    -- An entry of the new table.
    fresh_entry :
        (i : ℕ)
        → i < 512
        → write_word cleared (entry_at table j) table_link (entry_at (p * page_size + hhdm) i) ≡ 0
    unfolding cleared
    fresh_entry i lt =
        let at =
          entry_at-eq hhdm pmm.total_pages (p * page_size + hhdm) p i refl took.in_range room lt in
        ap (write_word cleared (entry_at table j) table_link) at
        ∙ write_entry-SamePage cleared p table_link apart.0 (8 * i) (omega (arith, lt))
        ∙ rw fresh_place (zero_page_lem m (p * page_size + hhdm) (8 * i) (omega (arith, lt)))

    fresh-IsTable : IsTable hhdm (alloc_page pmm).1 (k ∷ seen) (p * page_size + hhdm) p
    fresh-IsTable = record {
      at_page = refl;
      exists = omega (arith, took.in_range, took.same_total);
      in_use = ground (arith, took.now_used p);
      new = apart;
    }

    fresh-IsWay :
        (ks : List ℕ)
        → AllSmall ks
        → IsWay hhdm
            (alloc_page pmm).1
            (write_word cleared (entry_at table j) table_link)
            (k ∷ seen)
            ks
            (p * page_size + hhdm)
    unfolding IsWay
    fresh-IsWay [] h = (p, fresh-IsTable)
    fresh-IsWay (i ∷ ks) h = (
      p,
      fresh-IsTable,
      λ there. absurd (absent (ap is_present (sym (fresh_entry i h.0)) ∙ there)),
    )
      where
        absent : false ≡ true → ⊥
        absent e = cc

    new_table-Stepped :
        Stepped hhdm m pmm seen k
          (entry_at table j)
          js
          (new_table hhdm flags m (alloc_page pmm) (entry_at table j))
    unfolding cleared table_link
    new_table-Stepped =
        let back = read_back cleared (entry_at table j) table_link in
        record {
          valid = took.valid;
          total = took.same_total;
          in_use = AllUsed-more pmm (alloc_page pmm).1 (k ∷ seen) still_used (t.in_use, busy);
          left = omega (arith, took.one_less);
          entry = ap is_present back ∙ table_link_present;
          leads = ap (table_of hhdm) back;
          same =
              AllSame-trans hhdm m cleared (write_word cleared (entry_at table j) table_link) seen
                cleared-AllSame (write_entry-AllSame cleared table_link);
          way = rw table_link_target (fresh-IsWay js smalls);
        }
      where
        still_used : (c : ℕ) → used pmm c ≡ true → used (alloc_page pmm).1 c ≡ true
        still_used c u = ground (arith, took.now_used c)

  pub next_table-Stepped :
      0 < pmm.free_pages
      → (is_present (m (entry_at table j)) ≡ true
          → IsWay hhdm pmm m (k ∷ seen) js (table_of hhdm (m (entry_at table j))))
      → Stepped hhdm m pmm seen k (entry_at table j) js (next_table hhdm flags j m pmm table)
  unfolding next_table
  next_table-Stepped enough w = elim (Bool-cases (is_present (m (entry_at table j)))) [
    | inl there ↦ rw there (old_table-Stepped there (w there))
    | inr absent ↦ rw absent (elim (alloc_page_lem pmm v) [
      | inl (p, took) ↦ new_table-Stepped p took
      | inr none_left ↦ absurd (
          omega (
            arith,
            v.counted,
            enough,
            count_free_none (used pmm) pmm.total_pages
                (λ c lt. none_left.all_used c (omega arith) lt),
          ))
    ])
  ]
