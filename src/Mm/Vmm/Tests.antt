-- ===== src/Mm/Vmm/Tests.antt =====
-- The page table theorem at a concrete state, and a run of `vmm_map_page`.
use chef_os.Prelude.{
  ℕ, ◌+◌, ◌*◌, ◌/◌, ◌≡◌, refl, true, false, ◌==◌, if◌then◌else◌, [], ◌∷◌, some, none, arith,
}
use chef_os.Mm.Bitmap.{Bitmap, bitmap_set, byte_set, bitmap_test, byte_test}
use chef_os.Mm.Pmm.{Pmm, page_size, alloc_page}
use chef_os.Mm.Pmm.Count.{IsValid, count_free}
use chef_os.Mm.Vmm.{Words, table_index, vmm_map_page, write_word, zero_page}
use chef_os.Mm.Vmm.Walk.{translate, walk, IsTable, IsWay}
use chef_os.Mm.Vmm.Map.{translate-vmm_map_page}

-- Sixteen pages, the lowest four in use, and the empty top table in page 1.
abbrev direct_map : ℕ
direct_map = 0xFFFF800000000000

abbrev low_used : Bitmap
low_used i = if i == 0 then 0x0F else 0

abbrev sixteen : Pmm
sixteen = record { bitmap = low_used; total_pages = 16; free_pages = 12 }

sixteen-IsValid : IsValid sixteen
unfolding count_free bitmap_test byte_test
sixteen-IsValid = record { bytes = λ i. ground arith; small = omega arith; counted = refl }

abbrev top_table : ℕ
top_table = 1 * page_size + direct_map

abbrev empty_words : Words
empty_words a = 0

top_table-IsTable : IsTable direct_map sixteen [] top_table 1
unfolding bitmap_test byte_test
top_table-IsTable = record { at_page = refl; exists = omega arith; in_use = refl; new = tt }

top_table-IsWay :
    IsWay direct_map sixteen empty_words []
      (table_index 0x400123 39 ∷ table_index 0x400123 30 ∷ table_index 0x400123 21 ∷ [])
      top_table
unfolding IsWay
top_table-IsWay = (1, top_table-IsTable, λ there. absurd (absent there))
  where
    absent : false ≡ true → ⊥
    absent e = cc

-- The user code page of `user_mode_enter_test`, at physical page 9.
translate-vmm_map_page_example :
    translate direct_map
      (vmm_map_page direct_map empty_words sixteen top_table 0x400123 (9 * page_size) 7).0
      top_table
      (0x400123 / page_size * page_size + 0xABC)
    ≡ some (9 * page_size + 0xABC)
translate-vmm_map_page_example =
    translate-vmm_map_page direct_map empty_words sixteen top_table 0x400123 9 7 sixteen-IsValid
      (omega arith) (omega arith) (omega arith) top_table-IsWay 0xABC (omega arith)

translate_before : translate direct_map empty_words top_table 0x400123 ≡ none
unfolding translate walk
translate_before = refl

vmm_map_page_pages :
    (vmm_map_page direct_map empty_words sixteen top_table 0x400123 0x9000 7).1.free_pages ≡ 9
unfolding vmm_map_page alloc_page bitmap_test byte_test write_word zero_page bitmap_set byte_set
vmm_map_page_pages = refl
