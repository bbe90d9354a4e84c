-- ===== src/Vm/Last.antt =====
-- Pages that lie behind all free ones cannot be returned.
use ma_os.Base.{
  ℕ, zero, suc, ◌≤◌, ◌≡◌, ◌≢◌, refl, Option, none, some, List, [], ◌∷◌, ok, panic, arith, length,
  leb, ltb, ge→ltb, u32, ◌+◌, ◌-◌, ◌==◌, true, false,
}
use ma_os.FreeList.{Bucket, Heap, store, ll_append_notempty}
use ma_os.FreeList.Chain.{Run, Chain, Without, store_ne, Run-store}
use ma_os.Vm.{Vm, vm_item, steal_bucket, sizeof_bucket, zero_bucket}
use ma_os.Vm.Reclaim.{find_behind, link_item, return_item, vm_return_pages}

-- Every bucket of a list begins at `pageno` or before.
abbrev pub AllBefore : Heap → ℕ → List ℕ → Type 0
AllBefore h pageno [] = Unit
AllBefore h pageno (a ∷ xs) = ((h a).pageno ≤ pageno) × AllBefore h pageno xs

pub AllBefore-store :
    (a : ℕ) (b : Bucket) (h : Heap) (pageno : ℕ) (xs : List ℕ)
    → Without a xs
    → AllBefore h pageno xs
    → AllBefore (store a b h) pageno xs
AllBefore-store a b h pageno [] w all = tt
AllBefore-store a b h pageno (x ∷ xs) (ne, w) (le, all) =
    (rw (store_ne a b h x ne) le, AllBefore-store a b h pageno xs w all)

find_behind-none :
    (rounds pageno : ℕ) (back found : Option ℕ) (h : Heap) (xs : List ℕ)
    → Run h back found xs none
    → AllBefore h pageno xs
    → length xs ≤ rounds
    → find_behind rounds pageno found h ≡ ok none
unfolding find_behind
find_behind-none rounds pageno back found h [] run all enough = rw run refl
find_behind-none zero pageno back found h (a ∷ xs) run all enough = absurd (omega arith)
find_behind-none (suc rounds) pageno back found h (a ∷ xs) (at_a, _, run) (le, all) enough =
    let before : leb (h a).pageno pageno ≡ true = ground arith in
    rw (at_a, before)
      (find_behind-none rounds pageno (some a) (h a).next h xs run all (omega arith))

return_item-panic :
    (rounds pages pageno item : ℕ) (v : Vm) (a : ℕ) (xs : List ℕ)
    → Chain v.heap v.kernel_buckets (a ∷ xs)
    → Without item (a ∷ xs)
    → AllBefore v.heap pageno (a ∷ xs)
    → length (a ∷ xs) ≤ rounds
    → return_item rounds pages pageno item v ≡ panic
unfolding return_item link_item ll_append_notempty
return_item-panic rounds pages pageno item v a xs (at_a, prev_a, rest) w all enough =
    let new = record (v.heap item) { pageno = pageno; size = pages } in
    let h = store item new v.heap in
    let none_behind =
      find_behind-none rounds pageno none (some a) h (a ∷ xs)
        (Run-store item new v.heap none (some a) (a ∷ xs) none w (refl, prev_a, rest))
        (AllBefore-store item new v.heap pageno (a ∷ xs) w all) enough in
    rw (at_a, none_behind) refl

-- `vm_return_pages` panics when there are free buckets and all of them begin at the first page
-- that is returned or before it: here with an empty waiting list and a bucket at hand in the
-- stolen memory, which is in no list.
pub vm_return_pages-panic :
    (rounds pages pageno : ℕ) (v : Vm) (a : ℕ) (xs : List ℕ)
    → Chain v.heap v.kernel_buckets (a ∷ xs)
    → AllBefore v.heap pageno (a ∷ xs)
    → length (a ∷ xs) ≤ rounds
    → v.waiting_list ≡ none
    → sizeof_bucket ≤ v.steal_remaining
    → v.steal_next ≢ 0
    → Without v.steal_next (a ∷ xs)
    → vm_return_pages rounds pages pageno v ≡ panic
unfolding vm_return_pages vm_item steal_bucket
vm_return_pages-panic rounds pages pageno v a xs chain all enough empty room real w =
    let fits : ltb v.steal_remaining sizeof_bucket ≡ false = ge→ltb v.steal_remaining 16 room in
    let real' : (v.steal_next == 0) ≡ false = ground arith in
    let v' : Vm = record v {
      heap = store v.steal_next zero_bucket v.heap;
      waiting_list = none;
      steal_next = u32 (v.steal_next + sizeof_bucket);
      steal_remaining = v.steal_remaining - sizeof_bucket;
    } in
    rw (empty, fits, real')
      (return_item-panic rounds pages pageno v.steal_next v' a xs
        (Run-store v.steal_next zero_bucket v.heap none v.kernel_buckets (a ∷ xs) none w chain) w
        (AllBefore-store v.steal_next zero_bucket v.heap pageno (a ∷ xs) w all) enough)
