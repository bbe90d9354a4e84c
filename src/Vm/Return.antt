-- ===== src/Vm/Return.antt =====
-- `vm_return_pages` in front of a bucket that is free.
use ma_os.Base.{
  ℕ, zero, suc, ◌+◌, ◌-◌, ◌^◌, ◌≤◌, ◌<◌, ◌≡◌, ◌≢◌, refl, sym, ap, ◌∙◌, true, false, Option, none,
  some, List, [], ◌∷◌, ◌++◌, Outcome, ok, arith, length, leb, ltb, ge→ltb, u32, ◌==◌,
}
use ma_os.FreeList.{Bucket, Heap, store, ll_insert_before}
use ma_os.FreeList.Chain.{Run, Chain, Without, Distinct, store_self, store_ne, Run-store}
use ma_os.FreeList.Segment.{Without-++}
use ma_os.FreeList.Remove.{join-Without}
use ma_os.FreeList.Insert.{ll_insert_before-Chain}
use ma_os.FreeList.Frame.{SamePages}
use ma_os.FreeList.Inserted.{ll_insert_before-SamePages, ll_insert_before-outside}
use ma_os.Vm.{Vm, vm_item, steal_bucket, sizeof_bucket, zero_bucket}
use ma_os.Vm.Lists.{IsLists, Untouched, left-Distinct, Run-agree}
use ma_os.Vm.Pages.{within, holders, holders-store, holders-between, holders-SamePages}
use ma_os.Vm.Optimize.{AllBelow, vm_optimize-Keeps}
use ma_os.Vm.Last.{AllBefore, AllBefore-store}
use ma_os.Vm.Reclaim.{find_behind, link_item, return_item, vm_return_pages}

find_behind-some :
    (rounds pageno : ℕ) (back found : Option ℕ) (h : Heap) (ls : List ℕ) (x : ℕ) (rs : List ℕ)
    → Run h back found (ls ++ x ∷ rs) none
    → AllBefore h pageno ls
    → pageno < (h x).pageno
    → length ls < rounds
    → find_behind rounds pageno found h ≡ ok (some x)
unfolding find_behind
find_behind-some zero pageno back found h ls x rs run all later enough = absurd (omega arith)
find_behind-some (suc rounds) pageno back found h [] x rs (at_x, _, run) all later enough =
    let behind : leb (h x).pageno pageno ≡ false = ground arith in rw (at_x, behind) refl
find_behind-some (suc rounds) pageno back found h (a ∷ ls) x rs (at_a, _, run) (le, all) later
      enough =
    let before : leb (h a).pageno pageno ≡ true = ground arith in
    rw (at_a, before)
      (find_behind-some rounds pageno (some a) (h a).next h ls x rs run all later (omega arith))

-- The free buckets of `v`, and `pages` pages from `pageno` on, in well-formed lists.
pub record Returns (pages pageno : ℕ) (v : Vm) (xs : List ℕ) (r : Outcome Vm) : Type 0 where
  pub out : Vm
  pub returns : r ≡ ok out
  pub free : List ℕ
  pub waiting : List ℕ
  pub lists : IsLists out free waiting
  pub untouched : Untouched out v
  pub returned : (p : ℕ) → holders out.heap free p ≡ holders v.heap xs p + within pageno pages p

inserted-Distinct :
    (ls : List ℕ) (n : ℕ) (rs ws : List ℕ)
    → Distinct ((ls ++ rs) ++ ws)
    → Without n ((ls ++ rs) ++ ws)
    → Distinct ((ls ++ n ∷ rs) ++ ws)
inserted-Distinct [] n rs ws d w = (w, d)
inserted-Distinct (a ∷ ls) n rs ws (apart, d) (ne, w) =
    let (first, last) = Without-++ a (ls ++ rs) ws apart in
    let (left, right) = Without-++ a ls rs first in
    (
      join-Without a (ls ++ n ∷ rs) ws (join-Without a ls (n ∷ rs) left (λ e. ne (sym e), right))
          last,
      inserted-Distinct ls n rs ws d w,
    )

-- A bucket is put between free ones.
linked-IsLists :
    (v : Vm) (ls : List ℕ) (n x : ℕ) (rs ws : List ℕ)
    → IsLists v (ls ++ x ∷ rs) ws
    → Without n ((ls ++ x ∷ rs) ++ ws)
    → let l = ll_insert_before v.kernel_buckets n x v.heap in
      IsLists (record v { heap = l.heap; kernel_buckets = l.first }) (ls ++ n ∷ x ∷ rs) ws
linked-IsLists v ls n x rs ws lists w =
    let xs = ls ++ x ∷ rs in
    let (w_xs, _) = Without-++ n xs ws w in
    let l = ll_insert_before v.kernel_buckets n x v.heap in
    let d = left-Distinct xs ws lists.distinct in
    record {
      free = ll_insert_before-Chain v.heap v.kernel_buckets n ls x rs lists.free d w_xs;
      waiting =
          Run-agree l.heap v.heap none v.waiting_list (n ∷ xs) ws none (w, lists.distinct)
            (λ y apart.
              ll_insert_before-outside v.heap v.kernel_buckets n ls x rs y lists.free w_xs apart)
            lists.waiting;
      distinct = inserted-Distinct ls n (x ∷ rs) ws lists.distinct w;
    }

below_same : (g h : Heap) (xs : List ℕ) → SamePages g h → AllBelow h xs → AllBelow g xs
below_same g h [] same below = tt
below_same g h (a ∷ xs) same (first, below) =
    (rw ((same a).0, (same a).1) first, below_same g h xs same below)

below_inserted :
    (g h : Heap) (ls : List ℕ) (n : ℕ) (rs : List ℕ)
    → SamePages g h
    → AllBelow h (ls ++ rs)
    → (h n).pageno + (h n).size < 2 ^ 32
    → AllBelow g (ls ++ n ∷ rs)
below_inserted g h [] n rs same below fits =
    (rw ((same n).0, (same n).1) fits, below_same g h rs same below)
below_inserted g h (a ∷ ls) n rs same (first, below) fits =
    (rw ((same a).0, (same a).1) first, below_inserted g h ls n rs same below fits)

below_store :
    (a : ℕ) (b : Bucket) (h : Heap) (xs : List ℕ)
    → Without a xs
    → AllBelow h xs
    → AllBelow (store a b h) xs
below_store a b h [] w below = tt
below_store a b h (x ∷ xs) (ne, w) (first, below) =
    (rw (store_ne a b h x ne) first, below_store a b h xs w below)

first_some :
    (h : Heap) (first : Option ℕ) (ls : List ℕ) (x : ℕ) (rs : List ℕ)
    → Chain h first (ls ++ x ∷ rs)
    → (f : ℕ) × (first ≡ some f)
first_some h first [] x rs (e, _, _) = (x, e)
first_some h first (a ∷ ls) x rs (e, _, _) = (a, e)

abbrev written : ℕ → ℕ → ℕ → Vm → Heap
written pages pageno item v =
    store item (record (v.heap item) { pageno = pageno; size = pages }) v.heap

return_item_lem :
    (rounds pages pageno item f x : ℕ) (v v1 : Vm)
    → v.kernel_buckets ≡ some f
    → find_behind rounds pageno (some f) (written pages pageno item v) ≡ ok (some x)
    → record v { heap = written pages pageno item v } ≡ v1
    → return_item rounds pages pageno item v ≡ link_item item (some x) v1
unfolding return_item
return_item_lem rounds pages pageno item f x v v1 at_f found e =
    rw (return_item, at_f, found) (ap (λ (t : Vm). link_item item (some x) t) e)

return_item-Returns :
    (rounds pages pageno item : ℕ) (v : Vm) (ls : List ℕ) (x : ℕ) (rs ws : List ℕ)
    → IsLists v (ls ++ x ∷ rs) ws
    → AllBelow v.heap (ls ++ x ∷ rs)
    → Without item ((ls ++ x ∷ rs) ++ ws)
    → AllBefore v.heap pageno ls
    → pageno < (v.heap x).pageno
    → pageno + pages < 2 ^ 32
    → length ls < rounds
    → Returns pages pageno v (ls ++ x ∷ rs) (return_item rounds pages pageno item v)
unfolding link_item
return_item-Returns rounds pages pageno item v ls x rs ws lists below w all later fits enough =
    let xs = ls ++ x ∷ rs in
    let new = record (v.heap item) { pageno = pageno; size = pages } in
    let h = written pages pageno item v in
    let v1 = record v { heap = h } in
    let (w_xs, w_ws) = Without-++ item xs ws w in
    let (w_ls, (ne, _)) = Without-++ item ls (x ∷ rs) w_xs in
    let at_x = store_ne item new v.heap x ne in
    let at_item = store_self item new v.heap in
    let lists1 : IsLists v1 xs ws = record {
      free = Run-store item new v.heap none v.kernel_buckets xs none w_xs lists.free;
      waiting = Run-store item new v.heap none v.waiting_list ws none w_ws lists.waiting;
      distinct = lists.distinct;
    } in
    let (f, at_f) = first_some v.heap v.kernel_buckets ls x rs lists.free in
    let found =
      find_behind-some rounds pageno none (some f) h ls x rs (rw at_f at lists1.free)
        (AllBefore-store item new v.heap pageno ls w_ls all) (rw at_x later) enough in
    let linked = ll_insert_before v.kernel_buckets item x h in
    let v2 = record v1 { heap = linked.heap; kernel_buckets = linked.first } in
    let same = ll_insert_before-SamePages v.kernel_buckets item x h in
    let lists2 = linked-IsLists v1 ls item x rs ws lists1 w in
    let k = vm_optimize-Keeps v2 ls item x rs ws lists2 (
      below_inserted linked.heap h ls item (x ∷ rs) same (below_store item new v.heap xs w_xs below)
        (rw at_item fits)) in
    record {
      out = k.out;
      returns = return_item_lem rounds pages pageno item f x v v1 at_f found refl ∙ k.returns;
      free = k.free;
      waiting = k.waiting;
      lists = k.lists;
      untouched = k.untouched;
      returned = λ p.
          let d = left-Distinct (ls ++ item ∷ x ∷ rs) ws lists2.distinct in
          let (_, _, after) = holders-between item new v.heap ls (x ∷ rs) p d in
          k.same p ∙ holders-SamePages linked.heap h (ls ++ item ∷ x ∷ rs) p same ∙ after;
    }

-- `vm_return_pages` of pages that begin before some free bucket does, with an empty waiting list
-- and a bucket at hand in the stolen memory, which is in no list: it returns, both lists stay well
-- formed, and exactly the pages that are returned are held by one free bucket more than before.
pub vm_return_pages-Returns :
    (rounds pages pageno : ℕ) (v : Vm) (ls : List ℕ) (x : ℕ) (rs : List ℕ)
    → IsLists v (ls ++ x ∷ rs) []
    → AllBelow v.heap (ls ++ x ∷ rs)
    → AllBefore v.heap pageno ls
    → pageno < (v.heap x).pageno
    → pageno + pages < 2 ^ 32
    → length ls < rounds
    → sizeof_bucket ≤ v.steal_remaining
    → v.steal_next ≢ 0
    → Without v.steal_next (ls ++ x ∷ rs)
    → Returns pages pageno v (ls ++ x ∷ rs) (vm_return_pages rounds pages pageno v)
unfolding vm_return_pages vm_item steal_bucket
vm_return_pages-Returns rounds pages pageno v ls x rs lists below all later fits enough room real
      w =
    let xs = ls ++ x ∷ rs in
    let steal = v.steal_next in
    let enough_room : ltb v.steal_remaining sizeof_bucket ≡ false =
      ge→ltb v.steal_remaining sizeof_bucket room in
    let real' : (steal == 0) ≡ false = ground arith in
    let (w_ls, (ne, _)) = Without-++ steal ls (x ∷ rs) w in
    let w' = join-Without steal xs [] w tt in
    let v' : Vm = record v {
      heap = store steal zero_bucket v.heap;
      waiting_list = none;
      steal_next = u32 (steal + sizeof_bucket);
      steal_remaining = v.steal_remaining - sizeof_bucket;
    } in
    let lists' : IsLists v' xs [] = record {
      free = Run-store steal zero_bucket v.heap none v.kernel_buckets xs none w lists.free;
      waiting = refl;
      distinct = lists.distinct;
    } in
    let r =
      return_item-Returns rounds pages pageno steal v' ls x rs [] lists'
        (below_store steal zero_bucket v.heap xs w below) w'
        (AllBefore-store steal zero_bucket v.heap pageno ls w_ls all)
        (rw (store_ne steal zero_bucket v.heap x ne) later) fits enough in
    rw (lists.waiting, enough_room, real')
      record {
        out = r.out;
        returns = r.returns;
        free = r.free;
        waiting = r.waiting;
        lists = r.lists;
        untouched = r.untouched;
        returned = λ p. r.returned p ∙ rw (holders-store steal zero_bucket v.heap xs p w) refl;
      }
