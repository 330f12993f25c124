-- ===== src/Mm/Vmm.antt =====
-- The page tables, kernel/src/mm/vmm.c. Memory holds a 64-bit word at each address that is a multiple
-- of 8, seen through the direct map: the word at physical address p is at p + hhdm. The pages that
-- `pmm_alloc_page` gives come with the allocator's state.
pub mod Walk
pub mod Stepped
pub mod Step
pub mod Map
pub mod Tests
use chef_os.Prelude.{
  ℕ, ◌+◌, ◌*◌, ◌/◌, ◌%◌, ◌^◌, ◌==◌, leb, ltb, ◌&&◌, not, Bool, true, false, if◌then◌else◌, List, [],
  ◌∷◌, bit_and, bit_or, shr, u64, Option, none, some,
}
use chef_os.Mm.Pmm.{Pmm, page_size, alloc_page}

abbrev pub Words : Type 0
Words = ℕ → ℕ

abbrev pub pte_present : ℕ
pte_present = 1

abbrev pub pte_writable : ℕ
pte_writable = 2

abbrev pub pte_user : ℕ
pte_user = 4

-- `table[i] = v`
unfoldable pub write_word : Words → (address v : ℕ) → Words
write_word m address v a = if a == address then v else m a

-- `memset(page, 0, PAGE_SIZE)`
unfoldable pub zero_page : Words → (address : ℕ) → Words
zero_page m address a = if leb address a && ltb a (address + page_size) then 0 else m a

-- The index of `virt` in the table of each level, and in its page table.
abbrev pub table_index : (virt shift : ℕ) → ℕ
table_index virt shift = shr virt shift % 0x200

abbrev pub entry_at : (table i : ℕ) → ℕ
entry_at table i = u64 (table + 8 * i)

-- `entry & PTE_PRESENT`
abbrev pub is_present : ℕ → Bool
is_present e = not (e % 2 == 0)

-- `(entry & ~0xFFF) + s_hhdm`
abbrev pub table_of : (hhdm e : ℕ) → ℕ
table_of hhdm e = u64 (e / page_size * page_size + hhdm)

abbrev pub wants_user : (flags : ℕ) → Bool
wants_user flags = not (bit_and flags pte_user == 0)

abbrev pub table_flags : (flags : ℕ) → ℕ
table_flags flags = if wants_user flags then 7 else 3

-- The memory and the allocator, and the table that a level leads to.
pub record Level : Type 0 where
  pub mem : Words
  pub pmm : Pmm
  pub table : ℕ

-- A new table, where the entry is not present.
abbrev pub new_table : (hhdm flags : ℕ) → Words → ℕ × Pmm → (at : ℕ) → Level
new_table hhdm flags m page at = record {
  mem = write_word (zero_page m (u64 (page.0 + hhdm))) at (bit_or page.0 (table_flags flags));
  pmm = page.1;
  table = table_of hhdm (bit_or page.0 (table_flags flags));
}

-- The table that is there, whose entry the user may use from now on if `flags` say so.
abbrev pub old_table : (hhdm flags : ℕ) → Words → Pmm → (at : ℕ) → Level
old_table hhdm flags m pmm at =
    if wants_user flags
    then record {
      mem = write_word m at (bit_or (m at) pte_user);
      pmm = pmm;
      table = table_of hhdm (bit_or (m at) pte_user);
    }
    else record { mem = m; pmm = pmm; table = table_of hhdm (m at) }

-- One level of `vmm_map_page`: the table below entry `i` of `table`.
unfoldable pub next_table : (hhdm flags i : ℕ) → Words → Pmm → (table : ℕ) → Level
unfolding write_word zero_page alloc_page
next_table hhdm flags i m pmm table =
    if is_present (m (entry_at table i))
    then old_table hhdm flags m pmm (entry_at table i)
    else new_table hhdm flags m (alloc_page pmm) (entry_at table i)

-- `pt[pt_idx] = phys | flags | PTE_PRESENT`
abbrev pub leaf : (phys flags : ℕ) → ℕ
leaf phys flags = bit_or (bit_or phys flags) pte_present

-- The levels in turn, for the indices that lead from `table` to the entry of the page.
unfoldable pub map_levels :
    (hhdm flags v : ℕ) → List ℕ → (i : ℕ) → Words → Pmm → (table : ℕ) → Words × Pmm
unfolding next_table write_word
map_levels hhdm flags v [] i m pmm table = (write_word m (entry_at table i) v, pmm)
map_levels hhdm flags v (j ∷ js) i m pmm table =
    let l = next_table hhdm flags j m pmm table in map_levels hhdm flags v js i l.mem l.pmm l.table

-- The code writes the three levels out.
unfoldable pub vmm_map_page : (hhdm : ℕ) → Words → Pmm → (pml4 virt phys flags : ℕ) → Words × Pmm
unfolding map_levels
vmm_map_page hhdm m pmm pml4 virt phys flags =
    map_levels hhdm flags (leaf phys flags)
      (table_index virt 39 ∷ table_index virt 30 ∷ table_index virt 21 ∷ []) (table_index virt 12) m
      pmm pml4
