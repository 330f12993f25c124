-- ===== src/Mm/Vmm/Stepped.antt =====
-- What one level of `vmm_map_page` has to leave.
use chef_os.Prelude.{
  ℕ, ◌+◌, ◌≤◌, ◌<◌, ◌≡◌, refl, true, false, List, [], ◌∷◌, arith, ◌==◌, ap, ◌∙◌, sym,
}
use chef_os.Mm.Pmm.{Pmm, page_size}
use chef_os.Mm.Pmm.Count.{used, IsValid}
use chef_os.Mm.Vmm.{Words, Level, write_word, zero_page, is_present, table_of}
use chef_os.Mm.Vmm.Walk.{NotIn, IsWay, AllSame}

abbrev pub AllUsed : Pmm → List ℕ → Type 0
AllUsed pmm [] = Unit
AllUsed pmm (k ∷ ks) = (used pmm k ≡ true) × AllUsed pmm ks

pub NotIn-free :
    (pmm : Pmm) (k : ℕ) (ks : List ℕ) → used pmm k ≡ false → AllUsed pmm ks → NotIn k ks
NotIn-free pmm k [] free h = tt
NotIn-free pmm k (p ∷ ps) free h = (
  (λ e. absurd (true_false (sym h.0 ∙ ap (used pmm) (sym e) ∙ free))),
  NotIn-free pmm k ps free h.1,
)
  where
    true_false : true ≡ false → ⊥
    true_false e = cc

pub AllUsed-more :
    (p q : Pmm) (ks : List ℕ)
    → ((k : ℕ) → used p k ≡ true → used q k ≡ true)
    → AllUsed p ks
    → AllUsed q ks
AllUsed-more p q [] more h = tt
AllUsed-more p q (k ∷ ks) more h = (more k h.0, AllUsed-more p q ks more h.1)

-- What one level leaves behind entry `j` of the table in page `k`.
pub record Stepped (hhdm : ℕ) (m : Words) (pmm : Pmm) (seen : List ℕ) (k at : ℕ) (js : List ℕ)
    (l : Level) : Type 0 where
  pub valid : IsValid l.pmm
  pub total : l.pmm.total_pages ≡ pmm.total_pages
  pub in_use : AllUsed l.pmm (k ∷ seen)
  pub left : pmm.free_pages ≤ l.pmm.free_pages + 1
  pub entry : is_present (l.mem at) ≡ true
  pub leads : table_of hhdm (l.mem at) ≡ l.table
  pub same : AllSame hhdm m l.mem seen
  pub way : IsWay hhdm l.pmm l.mem (k ∷ seen) js l.table

pub read_back : (m : Words) (at v : ℕ) → write_word m at v at ≡ v
unfolding write_word
read_back m at v = let here : (at == at) ≡ true = ground arith in rw here refl

pub zero_page_lem :
    (m : Words) (address o : ℕ) → o < page_size → zero_page m address (address + o) ≡ 0
unfolding zero_page
zero_page_lem m address o lt = ground arith
