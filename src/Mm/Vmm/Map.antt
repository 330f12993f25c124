-- ===== src/Mm/Vmm/Map.antt =====
-- Where the walk of the tables leads after `vmm_map_page`.
use chef_os.Prelude.{
  ℕ, ◌+◌, ◌*◌, ◌/◌, ◌^◌, ◌≤◌, ◌<◌, ◌≡◌, refl, true, List, [], ◌∷◌, some, arith, bit_or, ap, ◌∙◌,
  sym, length,
}
use chef_os.Prelude.Bitwise.{bit_or-high}
use chef_os.Mm.Pmm.{Pmm, page_size}
use chef_os.Mm.Pmm.Count.{IsValid}
use chef_os.Mm.Vmm.{
  Words, entry_at, is_present, table_of, table_index, next_table, map_levels, leaf, vmm_map_page,
}
use chef_os.Mm.Vmm.Walk.{
  walk, translate, IsWay, AllSame, AllSame-trans, write_word-AllSame, AllSmall, entry_at-eq,
  present_or,
}
use chef_os.Mm.Vmm.Step.{next_table-Stepped}
use chef_os.Mm.Vmm.Stepped.{AllUsed, read_back}

-- The entry that was written is the one that the walk finds, and the tables above are as they were.
record Mapped (hhdm : ℕ) (m n : Words) (seen js : List ℕ) (i table v : ℕ) : Type 0 where
  found : walk hhdm n js i table ≡ some v
  same : AllSame hhdm m n seen

-- A level whose entry leads to a table where the walk finds the entry.
walk-step :
    (hhdm : ℕ) (n : Words) (j : ℕ) (js : List ℕ) (i table below v : ℕ)
    → is_present (n (entry_at table j)) ≡ true
    → table_of hhdm (n (entry_at table j)) ≡ below
    → walk hhdm n js i below ≡ some v
    → walk hhdm n (j ∷ js) i table ≡ some v
unfolding walk
walk-step hhdm n j js i table below v there leads found = rw there (rw leads found)

map_levels-Mapped :
    (hhdm flags v : ℕ) (js : List ℕ) (i : ℕ) (m : Words) (pmm : Pmm) (table : ℕ) (seen : List ℕ)
    → IsValid pmm
    → AllUsed pmm seen
    → IsWay hhdm pmm m seen js table
    → length js ≤ pmm.free_pages
    → pmm.total_pages * page_size + hhdm ≤ 2 ^ 64
    → AllSmall js
    → i < 512
    → is_present v ≡ true
    → Mapped hhdm m (map_levels hhdm flags v js i m pmm table).0 seen js i table v
unfolding map_levels walk IsWay
map_levels-Mapped hhdm flags v [] i m pmm table seen ok busy (k, t) enough room smalls small there =
    let at = entry_at-eq hhdm pmm.total_pages table k i t.at_page t.exists room small in
    let back = read_back m (entry_at table i) v in
    record {
      found = rw back (rw there refl);
      same = rw at (write_word-AllSame hhdm m k (8 * i) v seen t.new (omega (arith, small)));
    }
map_levels-Mapped hhdm flags v (j ∷ js) i m pmm table seen ok busy (k, t, w) enough room smalls
      small there =
    let l = next_table hhdm flags j m pmm table in
    let s =
      next_table-Stepped hhdm flags m pmm seen k j js table ok busy t room smalls.0 smalls.1
        (omega (arith, enough)) w in
    let r =
      map_levels-Mapped hhdm flags v js i l.mem l.pmm l.table (k ∷ seen) s.valid s.in_use s.way
        (omega (arith, enough, s.left)) (omega (arith, room, s.total)) smalls.1 small there in
    let at = entry_at-eq hhdm pmm.total_pages table k j t.at_page t.exists room smalls.0 in
    let out = (map_levels hhdm flags v js i l.mem l.pmm l.table).0 in
    let kept : out (entry_at table j) ≡ l.mem (entry_at table j) =
      ap out at ∙ r.same.0 (8 * j) (omega (arith, smalls.0)) ∙ sym (ap l.mem at) in
    record {
      found =
          walk-step hhdm out j js i table l.table v (ap is_present kept ∙ s.entry)
            (ap (table_of hhdm) kept ∙ s.leads) r.found;
      same = AllSame-trans hhdm m l.mem out seen s.same r.same.1;
    }

leaf_place : (n flags : ℕ) → flags < page_size → leaf (n * page_size) flags / page_size ≡ n
leaf_place n flags few =
    bit_or-high 12 (bit_or (n * page_size) flags) 1 (omega arith)
    ∙ bit_or-high 12 (n * page_size) flags few
    ∙ omega arith

leaf_present : (phys flags : ℕ) → is_present (leaf phys flags) ≡ true
leaf_present phys flags = present_or (bit_or phys flags) 1 refl

-- The indices are those of the page.
index_39 :
    (a o : ℕ) → o < page_size → table_index (a / page_size * page_size + o) 39 ≡ table_index a 39
index_39 a o lt = omega (arith, lt)

index_30 :
    (a o : ℕ) → o < page_size → table_index (a / page_size * page_size + o) 30 ≡ table_index a 30
index_30 a o lt = omega (arith, lt)

index_21 :
    (a o : ℕ) → o < page_size → table_index (a / page_size * page_size + o) 21 ≡ table_index a 21
index_21 a o lt = omega (arith, lt)

index_12 :
    (a o : ℕ) → o < page_size → table_index (a / page_size * page_size + o) 12 ≡ table_index a 12
index_12 a o lt = omega (arith, lt)

translate-found :
    (hhdm : ℕ) (mem : Words) (pml4 a n flags o : ℕ)
    → flags < page_size
    → o < page_size
    → walk hhdm mem
        (table_index a 39 ∷ table_index a 30 ∷ table_index a 21 ∷ [])
        (table_index a 12)
        pml4
      ≡ some (leaf (n * page_size) flags)
    → translate hhdm mem pml4 (a / page_size * page_size + o) ≡ some (n * page_size + o)
unfolding translate
translate-found hhdm mem pml4 a n flags o few lt found =
    rw
      (
        index_39 a o lt,
        index_30 a o lt,
        index_21 a o lt,
        index_12 a o lt,
        found,
        leaf_place n flags few,
      )
      (ap some (omega (arith, lt)))

-- After `vmm_map_page` maps the page `phys` at `virt`, the processor that walks the tables from
-- `pml4` goes from any address in the page of `virt` to the same offset in `phys`. This holds when the allocator is valid and has three
-- free pages, its pages fit the direct map, `phys` is the address of a page, the flags are below
-- 4096, and the tables that are there already on the way lie in different pages in use.
pub translate-vmm_map_page :
    (hhdm : ℕ) (m : Words) (pmm : Pmm) (pml4 virt n flags : ℕ)
    → IsValid pmm
    → 3 ≤ pmm.free_pages
    → pmm.total_pages * page_size + hhdm ≤ 2 ^ 64
    → flags < page_size
    → IsWay hhdm pmm m []
        (table_index virt 39 ∷ table_index virt 30 ∷ table_index virt 21 ∷ [])
        pml4
    → (o : ℕ) → o < page_size
    → translate hhdm
        (vmm_map_page hhdm m pmm pml4 virt (n * page_size) flags).0
        pml4
        (virt / page_size * page_size + o)
      ≡ some (n * page_size + o)
unfolding vmm_map_page
translate-vmm_map_page hhdm m pmm pml4 virt n flags ok enough room few w o lt =
    let r =
      map_levels-Mapped hhdm flags (leaf (n * page_size) flags)
        (table_index virt 39 ∷ table_index virt 30 ∷ table_index virt 21 ∷ []) (table_index virt 12)
        m pmm pml4 [] ok tt w enough room (omega arith, (omega arith, (omega arith, tt)))
        (omega arith) (leaf_present (n * page_size) flags) in
    translate-found hhdm (vmm_map_page hhdm m pmm pml4 virt (n * page_size) flags).0 pml4 virt n
      flags o few lt r.found
