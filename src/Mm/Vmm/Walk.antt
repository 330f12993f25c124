-- ===== src/Mm/Vmm/Walk.antt =====
-- How the processor reads the page tables, and which tables `vmm_map_page` may touch.
use chef_os.Prelude.{
  ℕ, ◌+◌, ◌*◌, ◌/◌, ◌%◌, ◌^◌, ◌≤◌, ◌<◌, ◌≡◌, ◌≢◌, refl, true, if◌then◌else◌, List, [], ◌∷◌, Option,
  none, some, arith, bit_or, u64, ap, ◌∙◌, sym,
}
use chef_os.Prelude.Bitwise.{bit_or-high, bit_or-odd}
use chef_os.Mm.Pmm.{Pmm, page_size}
use chef_os.Mm.Pmm.Count.{used}
use chef_os.Mm.Vmm.{Words, write_word, zero_page, entry_at, is_present, table_of, table_index}

-- The entry at the end of the levels; `none` if one on the way is not present.
unfoldable pub walk : (hhdm : ℕ) → Words → List ℕ → (i table : ℕ) → Option ℕ
walk hhdm m [] i table =
    if is_present (m (entry_at table i)) then some (m (entry_at table i)) else none
walk hhdm m (j ∷ js) i table =
    let rest = walk hhdm m js i (table_of hhdm (m (entry_at table j))) in
    if is_present (m (entry_at table j)) then rest else none

abbrev pub physical : (virt : ℕ) → Option ℕ → Option ℕ
physical virt none = none
physical virt (some e) = some (e / page_size * page_size + virt % page_size)

-- The physical address that the processor uses for `virt`, where no entry on the way has the bit that
-- makes it map a large page.
unfoldable pub translate : (hhdm : ℕ) → Words → (pml4 virt : ℕ) → Option ℕ
unfolding walk
translate hhdm m pml4 virt = physical virt (
    walk hhdm m (table_index virt 39 ∷ table_index virt 30 ∷ table_index virt 21 ∷ [])
      (table_index virt 12) pml4)

-- The table lies in a page that exists and is in use, and not in one of the list.
abbrev pub NotIn : ℕ → List ℕ → Type 0
NotIn k [] = Unit
NotIn k (p ∷ ps) = (k ≢ p) × NotIn k ps

pub record IsTable (hhdm : ℕ) (pmm : Pmm) (seen : List ℕ) (table k : ℕ) : Type 0 where
  pub at_page : table ≡ k * page_size + hhdm
  pub exists : k < pmm.total_pages
  pub in_use : used pmm k ≡ true
  pub new : NotIn k seen

-- The tables that are there on the way lie in different pages, none of them in the list.
unfoldable pub IsWay : (hhdm : ℕ) → Pmm → Words → (seen js : List ℕ) → (table : ℕ) → Type 0
IsWay hhdm pmm m seen [] table = (k : ℕ) × IsTable hhdm pmm seen table k
IsWay hhdm pmm m seen (j ∷ js) table =
    (k : ℕ) × IsTable hhdm pmm seen table k
    × (is_present (m (entry_at table j)) ≡ true
        → IsWay hhdm pmm m (k ∷ seen) js (table_of hhdm (m (entry_at table j))))

-- Two memories hold the same words in a page, and in each page of a list.
abbrev pub SamePage : (hhdm : ℕ) → (m n : Words) → (k : ℕ) → Type 0
SamePage hhdm m n k =
    (o : ℕ) → o < page_size → n (k * page_size + hhdm + o) ≡ m (k * page_size + hhdm + o)

abbrev pub AllSame : (hhdm : ℕ) → (m n : Words) → List ℕ → Type 0
AllSame hhdm m n [] = Unit
AllSame hhdm m n (k ∷ ks) = SamePage hhdm m n k × AllSame hhdm m n ks

pub AllSame-refl : (hhdm : ℕ) (m : Words) (ks : List ℕ) → AllSame hhdm m m ks
AllSame-refl hhdm m [] = tt
AllSame-refl hhdm m (k ∷ ks) = ((λ o lt. refl), AllSame-refl hhdm m ks)

pub AllSame-trans :
    (hhdm : ℕ) (l m n : Words) (ks : List ℕ)
    → AllSame hhdm l m ks
    → AllSame hhdm m n ks
    → AllSame hhdm l n ks
AllSame-trans hhdm l m n [] p q = tt
AllSame-trans hhdm l m n (k ∷ ks) p q =
    ((λ o lt. q.0 o lt ∙ p.0 o lt), AllSame-trans hhdm l m n ks p.1 q.1)

-- A write in a page leaves the other pages alone.
pub write_word-SamePage :
    (hhdm : ℕ) (m : Words) (k c o v : ℕ)
    → k ≢ c
    → o < page_size
    → SamePage hhdm m (write_word m (c * page_size + hhdm + o) v) k
unfolding write_word
write_word-SamePage hhdm m k c o v ne lt p hp = ground arith

pub zero_page-SamePage :
    (hhdm : ℕ) (m : Words) (k c : ℕ)
    → k ≢ c
    → SamePage hhdm m (zero_page m (c * page_size + hhdm)) k
unfolding zero_page
zero_page-SamePage hhdm m k c ne p hp = ground arith

pub write_word-AllSame :
    (hhdm : ℕ) (m : Words) (c o v : ℕ) (ks : List ℕ)
    → NotIn c ks
    → o < page_size
    → AllSame hhdm m (write_word m (c * page_size + hhdm + o) v) ks
write_word-AllSame hhdm m c o v [] new lt = tt
write_word-AllSame hhdm m c o v (k ∷ ks) new lt = (
  write_word-SamePage hhdm m k c o v (λ e. new.0 (sym e)) lt,
  write_word-AllSame hhdm m c o v ks new.1 lt,
)

pub zero_page-AllSame :
    (hhdm : ℕ) (m : Words) (c : ℕ) (ks : List ℕ)
    → NotIn c ks
    → AllSame hhdm m (zero_page m (c * page_size + hhdm)) ks
zero_page-AllSame hhdm m c [] new = tt
zero_page-AllSame hhdm m c (k ∷ ks) new =
    (zero_page-SamePage hhdm m k c (λ e. new.0 (sym e)), zero_page-AllSame hhdm m c ks new.1)

-- The indices of a way are below the 512 entries of a table.
abbrev pub AllSmall : List ℕ → Type 0
AllSmall [] = Unit
AllSmall (j ∷ js) = (j < 512) × AllSmall js

-- The address of an entry, in the page of its table.
pub entry_at-eq :
    (hhdm total table k j : ℕ)
    → table ≡ k * page_size + hhdm
    → k < total
    → total * page_size + hhdm ≤ 2 ^ 64
    → j < 512
    → entry_at table j ≡ k * page_size + hhdm + 8 * j
entry_at-eq hhdm total table k j e lt room small = omega arith

-- A memory that differs in pages of the list only has the same way.
pub IsWay-same :
    (hhdm : ℕ) (pmm : Pmm) (m n : Words) (seen js : List ℕ) (table : ℕ)
    → ((k : ℕ) → NotIn k seen → SamePage hhdm m n k)
    → AllSmall js
    → pmm.total_pages * page_size + hhdm ≤ 2 ^ 64
    → IsWay hhdm pmm m seen js table
    → IsWay hhdm pmm n seen js table
unfolding IsWay
IsWay-same hhdm pmm m n seen [] table h small room w = w
IsWay-same hhdm pmm m n seen (j ∷ js) table h small room (k, t, w) =
    let at = entry_at-eq hhdm pmm.total_pages table k j t.at_page t.exists room small.0 in
    let same : n (entry_at table j) ≡ m (entry_at table j) =
      ap n at ∙ h k t.new (8 * j) (omega (arith, small.0)) ∙ sym (ap m at) in
    (
      k,
      t,
      λ p. rw same (
          IsWay-same hhdm pmm m n (k ∷ seen) js (table_of hhdm (m (entry_at table j)))
            (λ c apart. h c apart.1) small.1 room (w (ap is_present (sym same) ∙ p))),
    )

-- An entry of a table and some flags leads to the table, and is present if the flags say so.
pub entry_flags :
    (hhdm k flags : ℕ)
    → flags < page_size
    → table_of hhdm (bit_or (k * page_size) flags) ≡ u64 (k * page_size + hhdm)
entry_flags hhdm k flags lt =
    let whole : k * page_size / page_size ≡ k = omega arith in
    ap (λ (p : ℕ). u64 (p * page_size + hhdm)) (bit_or-high 12 (k * page_size) flags lt ∙ whole)

pub present_or : (e flags : ℕ) → flags % 2 ≡ 1 → is_present (bit_or e flags) ≡ true
present_or e flags odd = ground (arith, bit_or-odd e flags)

pub present_user : (e : ℕ) → is_present e ≡ true → is_present (bit_or e 4) ≡ true
present_user e p = ground (arith, bit_or-odd e 4)

pub table_user : (hhdm e : ℕ) → table_of hhdm (bit_or e 4) ≡ table_of hhdm e
table_user hhdm e = ap (λ (p : ℕ). u64 (p * page_size + hhdm)) (bit_or-high 12 e 4 (omega arith))
