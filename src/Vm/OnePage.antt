-- ===== src/Vm/OnePage.antt =====
-- One round of the loop of `vm_alloc_kpages`: a page gets a frame.
use ma_os.Base.{
  ℕ, suc, ◌+◌, ◌*◌, ◌/◌, ◌%◌, ◌^◌, ◌<◌, ◌≡◌, ◌≢◌, refl, ap, ◌∙◌, ◌⊎◌, false, some, List, [], ◌∷◌,
  arith, ◌==◌, get_elem?, if◌then◌else◌, u32,
}
use ma_os.Bitset.{Bitset}
use ma_os.Bitset.Member.{contains}
use ma_os.Pmm
use ma_os.Pmm.{Pmm, e_ok, e_nomem, page_size, log2, log2_loop}
use ma_os.Pmm.Cover.{free_blocks}
use ma_os.Pmm.Managed.{IsManaged, IsFree, Granted, Refused}
use ma_os.Pmm.Alloc.{alloc-result}
use ma_os.Paging.{dir_index, tab_index}
use ma_os.Paging.Translate.{translate, TablesApart}
use ma_os.Paging.Map.{with_entry, entry_for, with_entry-Retargeted, vm_map_page-ok}
use ma_os.Vm.{Vm, map_pages}

-- No level has a free block, so no frame is free.
pub no_block-free_blocks :
    (k : ℕ) (bs : List Bitset) (f : ℕ)
    → ((l j : ℕ) (b : Bitset) → get_elem? bs l ≡ some b → contains b j ≡ false)
    → free_blocks k bs f ≡ 0
unfolding free_blocks
no_block-free_blocks k [] f none_there = refl
no_block-free_blocks k (b ∷ bs) f none_there =
    let first : contains b (f / 2 ^ k) ≡ false = none_there 0 (f / 2 ^ k) b refl in
    let rest = no_block-free_blocks (suc k) bs f (λ l j b' g. none_there (suc l) j b' g) in
    rw first (omega (arith, rest))

log2_one : log2 1 ≡ 0
unfolding log2 log2_loop
log2_one = refl

pub one_frame :
    (frames : ℕ) (p : Pmm)
    → IsManaged frames p
    → Granted frames 0 1 p (Pmm.alloc 1 p) ⊎ Refused 0 p (Pmm.alloc 1 p)
one_frame frames p v =
    let start = log2_one in rw start at (alloc-result frames p v 1 (rw start (omega arith)))

-- The frame that page `pageno` gets, and the state behind the first round.
pub record Mapped (pageno frames : ℕ) (v : Vm) (next : Vm) (f : ℕ) : Type 0 where
  pub was_free : IsFree v.pmm f
  pub managed : IsManaged frames next.pmm
  pub same_base : next.pmm.buddy_base ≡ v.pmm.buddy_base
  pub blocks :
      (x : ℕ)
      → free_blocks 0 next.pmm.buddies x ≡ (if f == x then 0 else free_blocks 0 v.pmm.buddies x)
  pub leads : translate next.current_as (pageno * 4096) ≡ some (v.pmm.buddy_base / 4096 + f)
  pub others : (w : ℕ) → w / 4096 ≢ pageno → translate next.current_as w ≡ translate v.current_as w
  pub directory : next.current_as.directory ≡ v.current_as.directory
  pub tables : next.current_as.tables ≡ v.current_as.tables
  pub rest : next ≡ record v { current_as = next.current_as; pmm = next.pmm }

pub first_round :
    (count pageno frames table : ℕ) (v : Vm)
    → Granted frames 0 1 v.pmm (Pmm.alloc 1 v.pmm)
    → IsManaged frames v.pmm
    → TablesApart v.current_as
    → (v.current_as.directory (dir_index (pageno * 4096))).present ≡ 1
    → v.current_as.tables (dir_index (pageno * 4096)) ≡ some table
    → v.pmm.buddy_base % 4096 ≡ 0
    → pageno < 2 ^ 20
    → (next : Vm) × (f : ℕ) × (map_pages (suc count) pageno v ≡ map_pages count (pageno + 1) next)
      × Mapped pageno frames v next f
unfolding map_pages
first_round count pageno frames table v g m apart present at_dir aligned fits =
    let f = g.index * 2 ^ 0 in
    let addr = v.pmm.buddy_base + page_size * f in
    let vaddr : u32 (pageno * page_size) ≡ pageno * 4096 = omega arith in
    let following : u32 (pageno + 1) ≡ pageno + 1 = omega arith in
    let tab = tab_index (pageno * 4096) in
    let entry = entry_for addr (v.current_as.page_tables table tab) in
    let space = with_entry v.current_as table tab entry in
    let (leads, others) =
      with_entry-Retargeted v.current_as (pageno * 4096) table entry apart at_dir in
    let frame : addr / 4096 ≡ v.pmm.buddy_base / 4096 + f = omega arith in
    let below : addr < 2 ^ 32 = omega (arith, g.in_range, m.addressable) in
    (
      record v { current_as = space; pmm = g.out },
      f,
      rw
          (
            g.returns,
            vaddr,
            following,
            vm_map_page-ok v.current_as addr (pageno * 4096) table present at_dir (omega arith)
                below,
          )
          refl,
      record {
        was_free = g.was_free f (omega arith) (omega arith);
        managed = g.managed;
        same_base = g.same_base;
        blocks = λ x. ground (arith, g.blocks x);
        leads = leads ∙ ap (λ (t : ℕ). some t) frame;
        others = λ w ne. others w (λ e. ne (omega arith));
        directory = refl;
        tables = refl;
        rest = refl;
      },
    )
