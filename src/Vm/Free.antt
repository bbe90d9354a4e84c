-- ===== src/Vm/Free.antt =====
-- `vm_free_kpages`: the page tables, the free pages and the frames together.
use ma_os.Base.{
  ℕ, zero, suc, ◌+◌, ◌*◌, ◌/◌, ◌^◌, ◌≤◌, ◌<◌, ◌≡◌, ◌≢◌, refl, sym, ap, ◌∙◌, true, Option, none,
  some, List, [], ◌∷◌, ◌++◌, Outcome, ok, ok-injective, arith, length, leb, ltb, ◌&&◌, ◌==◌,
  if◌then◌else◌, u32, ◌>>>◌, ℕ_discrete,
}
use mathlib.Core.Path.{subst}
use ma_os.Pmm
use ma_os.Pmm.{Pmm, log2, page_bits, page_size}
use ma_os.Pmm.Cover.{free_blocks}
use ma_os.Pmm.Mark.{IsTaken}
use ma_os.Pmm.Managed.{IsManaged}
use ma_os.Pmm.Free.{Released, frame_of, free-result}
use ma_os.Paging.{AddressSpace, Unmapped, dir_index, vm_unmap_page}
use ma_os.Paging.Translate.{translate, TablesApart}
use ma_os.Paging.Map.{vm_unmap_page-Retargeted}
use ma_os.Paging.Dma.{same_page}
use ma_os.FreeList.Chain.{Without}
use ma_os.Vm.{Vm, sizeof_bucket}
use ma_os.Vm.Lists.{IsLists}
use ma_os.Vm.Pages.{within, holders}
use ma_os.Vm.Optimize.{AllBelow}
use ma_os.Vm.Last.{AllBefore}
use ma_os.Vm.Return.{vm_return_pages-Returns}
use ma_os.Vm.Reclaim.{Freed, unmap_pages, vm_return_pages, vm_free_kpages}

-- Page `k` of `count` pages from number `pageno` on has a table and leads to frame `frame k`.
abbrev pub PagesMapped : AddressSpace → ℕ → ℕ → (ℕ → ℕ) → Type 0
PagesMapped space pageno count frame =
    (k : ℕ)
    → k < count
    → ((table : ℕ) × (space.tables (dir_index ((pageno + k) * 4096)) ≡ some table))
      × (translate space ((pageno + k) * 4096) ≡ some (frame k))
      × (frame k < 2 ^ 20)

-- The pages lead nowhere, and no other page has changed.
abbrev pub Cleared : AddressSpace → ℕ → ℕ → AddressSpace → Type 0
Cleared space pageno count space' =
    (w : ℕ)
    → translate space' w ≡ (
        if leb pageno (w / 4096) && ltb (w / 4096) (pageno + count)
        then none
        else translate space w)

-- The pages are unmapped, the first one last: its frame is the address that is left.
record Unmaps (count pageno : ℕ) (frame : ℕ → ℕ) (space : AddressSpace) (paddr : Option ℕ)
    (r : Outcome Freed) : Type 0 where
  out : Freed
  returns : r ≡ ok out
  cleared : Cleared space pageno count out.space
  address : out.paddr ≡ (if ltb 0 count then some (frame 0 * 4096) else paddr)

unmapped_tables :
    (space : AddressSpace) (vaddr table : ℕ) (u : Unmapped)
    → space.tables (dir_index vaddr) ≡ some table
    → vm_unmap_page space vaddr ≡ ok u
    → u.space.tables ≡ space.tables
unfolding vm_unmap_page
unmapped_tables space vaddr table u at_dir e =
    let e' = rw at_dir at e in ap (λ (t : Unmapped). t.space.tables) (sym (ok-injective e'))

unmap_round :
    (count pageno : ℕ) (space : AddressSpace) (paddr : Option ℕ) (u : Unmapped)
    → vm_unmap_page space ((pageno + count) * 4096) ≡ ok u
    → pageno + suc count ≤ 2 ^ 20
    → unmap_pages (suc count) (pageno * 4096) space paddr
      ≡ unmap_pages count (pageno * 4096) u.space (some u.paddr)
unfolding unmap_pages
unmap_round count pageno space paddr u e fits =
    let vaddr : u32 (pageno * 4096 + count * page_size) ≡ (pageno + count) * 4096 = omega arith in
    rw (vaddr, e) refl

-- What the page in front of the others leaves.
cleared_after :
    (first count w : ℕ) (now next before : Option ℕ)
    → now ≡ (if leb first w && ltb w (first + count) then none else next)
    → (w ≡ first + count → next ≡ none)
    → (w ≢ first + count → next ≡ before)
    → now ≡ (if leb first w && ltb w (first + suc count) then none else before)
cleared_after first count w now next before e at others = elim (ℕ_discrete w (first + count)) [
  | yes same ↦ ground (arith, at same)
  | no ne ↦ ground (arith, others ne)
]

address_after :
    (count : ℕ) (frame : ℕ → ℕ) (paddr address : Option ℕ) (last : ℕ)
    → address ≡ (if ltb 0 count then some (frame 0 * 4096) else some last)
    → last ≡ frame count * 4096
    → address ≡ some (frame 0 * 4096)
address_after zero frame paddr address last e e' = e ∙ ap (λ (t : ℕ). some t) e'
address_after (suc count) frame paddr address last e e' =
    let pos : ltb 0 (suc count) ≡ true = ground arith in rw pos at e

unmap_pages-Unmaps :
    (count pageno : ℕ) (frame : ℕ → ℕ) (space : AddressSpace) (paddr : Option ℕ)
    → TablesApart space
    → PagesMapped space pageno count frame
    → pageno + count ≤ 2 ^ 20
    → Unmaps count pageno frame space paddr (unmap_pages count (pageno * 4096) space paddr)
unfolding unmap_pages
unmap_pages-Unmaps zero pageno frame space paddr apart mapped fits = record {
  out = record { space = space; paddr = paddr };
  returns = refl;
  cleared = λ w. ground arith;
  address = refl;
}
unmap_pages-Unmaps (suc count) pageno frame space paddr apart mapped fits =
    let ((table, at_dir), leads, below) = mapped count (omega arith) in
    let vaddr = (pageno + count) * 4096 in
    let (u, done, address, (gone, kept)) =
      vm_unmap_page-Retargeted space vaddr table (frame count) apart at_dir leads below in
    let tables = unmapped_tables space vaddr table u at_dir done in
    let r =
      unmap_pages-Unmaps count pageno frame u.space (some u.paddr) (rw tables apart)
        (λ k h.
          let (has_table, leads_k, below_k) = mapped k (omega arith) in
          (rw tables has_table, kept ((pageno + k) * 4096) (omega arith) ∙ leads_k, below_k))
        (omega arith) in
    record {
      out = r.out;
      returns = unmap_round count pageno space paddr u done fits ∙ r.returns;
      cleared = λ w.
          cleared_after pageno count (w / 4096) (translate r.out.space w) (translate u.space w)
            (translate space w) (r.cleared w) (λ e. same_page u.space w vaddr (omega arith) ∙ gone)
            (λ ne. kept w (omega arith));
      address =
          let pos : ltb 0 (suc count) ≡ true = ground arith in
          rw pos (address_after count frame paddr r.out.paddr u.paddr r.address address);
    }

-- The pages lead nowhere and are free, and the frames of one block are free.
pub record Frees (pages pageno frames idx : ℕ) (v : Vm) (xs : List ℕ) (r : Outcome Vm)
    : Type 0 where
  pub out : Vm
  pub returns : r ≡ ok out
  pub cleared : Cleared v.current_as pageno pages out.current_as
  pub free : List ℕ
  pub waiting : List ℕ
  pub lists : IsLists out free waiting
  pub returned : (p : ℕ) → holders out.heap free p ≡ holders v.heap xs p + within pageno pages p
  pub managed : IsManaged frames out.pmm
  pub blocks :
      (f : ℕ)
      → free_blocks 0 out.pmm.buddies f
        ≡ (if f / 2 ^ log2 pages == idx then 1 else free_blocks 0 v.pmm.buddies f)

freed_then :
    (rounds pages pageno addr : ℕ) (v v' : Vm) (freed : Freed) (p : Pmm)
    → unmap_pages pages (pageno * 4096) v.current_as none ≡ ok freed
    → freed.paddr ≡ some addr
    → vm_return_pages rounds pages pageno (record v { current_as = freed.space }) ≡ ok v'
    → Pmm.free pages addr v'.pmm ≡ ok p
    → vm_free_kpages rounds pages (pageno * 4096) v ≡ ok (record v' { pmm = p })
unfolding vm_free_kpages
freed_then rounds pages pageno addr v v' freed p unmapped address done e =
    let number : (pageno * 4096) >>> page_bits ≡ pageno = omega arith in
    rw (unmapped, number, done, address, e) refl

-- `vm_free_kpages` of one page or more, which lead to frames and come before a free bucket, with an
-- empty waiting list, room for a new bucket and no free frame in the block: it returns, the pages
-- lead nowhere and are free, and no other page changes. Of the frames it gives back the aligned
-- block of 2 ^ log2(pages) frames round the frame of the first page, whatever frames the other
-- pages led to.
pub vm_free_kpages-Frees :
    (rounds pages pageno frames f : ℕ) (frame : ℕ → ℕ) (v : Vm) (ls : List ℕ) (x : ℕ) (rs : List ℕ)
    → 0 < pages
    → pageno + pages ≤ 2 ^ 20
    → TablesApart v.current_as
    → PagesMapped v.current_as pageno pages frame
    → IsLists v (ls ++ x ∷ rs) []
    → AllBelow v.heap (ls ++ x ∷ rs)
    → AllBefore v.heap pageno ls
    → pageno < (v.heap x).pageno
    → length ls < rounds
    → sizeof_bucket ≤ v.steal_remaining
    → v.steal_next ≢ 0
    → Without v.steal_next (ls ++ x ∷ rs)
    → IsManaged frames v.pmm
    → frame 0 * 4096 ≡ v.pmm.buddy_base + page_size * f
    → log2 pages < 7
    → (f / 2 ^ log2 pages + 1) * 2 ^ log2 pages ≤ frames
    → IsTaken v.pmm.buddies (log2 pages) (f / 2 ^ log2 pages)
    → Frees pages pageno frames
        (f / 2 ^ log2 pages)
        v
        (ls ++ x ∷ rs)
        (vm_free_kpages rounds pages (pageno * 4096) v)
vm_free_kpages-Frees rounds pages pageno frames f frame v ls x rs pos fits apart mapped lists below
      all later enough room real w m first low inside taken =
    let u = unmap_pages-Unmaps pages pageno frame v.current_as none apart mapped fits in
    let v1 = record v { current_as = u.out.space } in
    let r =
      vm_return_pages-Returns rounds pages pageno v1 ls x rs
        record { free = lists.free; waiting = lists.waiting; distinct = lists.distinct } below all
        later (omega arith) enough room real w in
    let number : frame_of v.pmm (frame 0 * 4096) ≡ f = omega (arith, first) in
    let l : ℕ = log2 pages in
    let released =
      subst (λ (i : ℕ). Released frames l (i / 2 ^ l) v.pmm (Pmm.free pages (frame 0 * 4096) v.pmm))
        number
        (free-result frames v.pmm m pages (frame 0 * 4096) (omega (arith, first)) low
          (rw number inside) (rw number taken)) in
    let address : u.out.paddr ≡ some (frame 0 * 4096) =
      let some_page : ltb 0 pages ≡ true = ground arith in rw some_page at u.address in
    let v' = record r.out { pmm = released.out } in
    record {
      out = v';
      returns =
          freed_then rounds pages pageno (frame 0 * 4096) v r.out u.out released.out u.returns
            address r.returns (rw r.untouched.1 released.returns);
      cleared = rw r.untouched.0 u.cleared;
      free = r.free;
      waiting = r.waiting;
      lists = record {
        free = r.lists.free;
        waiting = r.lists.waiting;
        distinct = r.lists.distinct;
      };
      returned = r.returned;
      managed = released.managed;
      blocks = released.blocks;
    }
