-- ===== src/Vm/Lists.antt =====
-- The two lists of the memory manager, the free buckets and the waiting ones, side by side.
use ma_os.Base.{ℕ, ◌≡◌, refl, sym, ◌∙◌, Option, none, some, List, [], ◌∷◌, ◌++◌, ok}
use ma_os.FreeList.{Heap, ll_remove_item}
use ma_os.FreeList.Chain.{Run, Chain, Without, Distinct}
use ma_os.FreeList.Segment.{Without-++, Distinct-between}
use ma_os.FreeList.Remove.{ll_remove_item-Chain, join-Without}
use ma_os.FreeList.Frame.{
  SamePages, ll_remove_item-SamePages, ll_remove_item-outside, ll_push_item-Frame,
}
use ma_os.Vm.{Vm, retire}

-- `xs` are the free buckets, `ws` the waiting ones, and no bucket stands twice.
pub record IsLists (v : Vm) (xs ws : List ℕ) : Type 0 where
  pub free : Chain v.heap v.kernel_buckets xs
  pub waiting : Chain v.heap v.waiting_list ws
  pub distinct : Distinct (xs ++ ws)

drop-Distinct : (zs : List ℕ) (w : ℕ) (ws : List ℕ) → Distinct (zs ++ w ∷ ws) → Distinct (zs ++ ws)
drop-Distinct [] w ws (_, d) = d
drop-Distinct (a ∷ zs) w ws (apart, d) =
    let (left, (_, right)) = Without-++ a zs (w ∷ ws) apart in
    (join-Without a zs ws left right, drop-Distinct zs w ws d)

pub add-Distinct :
    (zs : List ℕ) (w : ℕ) (ws : List ℕ)
    → Without w zs
    → Without w ws
    → Distinct (zs ++ ws)
    → Distinct (zs ++ w ∷ ws)
add-Distinct [] w ws left right d = (right, d)
add-Distinct (a ∷ zs) w ws (ne, left) right (apart, d) =
    let (apart', apart'') = Without-++ a zs ws apart in
    (
      join-Without a zs (w ∷ ws) apart' (λ e. ne (sym e), apart''),
      add-Distinct zs w ws left right d,
    )

-- The lists after a bucket has gone from the first to the second one.
moved-Distinct :
    (xs : List ℕ) (x : ℕ) (ys ws : List ℕ)
    → Distinct ((xs ++ x ∷ ys) ++ ws)
    → Distinct ((xs ++ ys) ++ x ∷ ws)
moved-Distinct [] x ys ws (apart, d) =
    let (left, right) = Without-++ x ys ws apart in add-Distinct ys x ws left right d
moved-Distinct (a ∷ xs) x ys ws (apart, d) =
    let (first, last) = Without-++ a (xs ++ x ∷ ys) ws apart in
    let (left, (ne, right)) = Without-++ a xs (x ∷ ys) first in
    (
      join-Without a (xs ++ ys) (x ∷ ws) (join-Without a xs ys left right) (ne, last),
      moved-Distinct xs x ys ws d,
    )

-- The page tables and the frames are as they were.
abbrev pub Untouched : Vm → Vm → Type 0
Untouched v' v = (v'.current_as ≡ v.current_as) × (v'.pmm ≡ v.pmm)

-- A run is the same in a heap that has the same buckets on it.
pub Run-agree :
    (g h : Heap) (back p : Option ℕ) (zs ws : List ℕ) (q : Option ℕ)
    → Distinct (zs ++ ws)
    → ((y : ℕ) → Without y zs → g y ≡ h y)
    → Run h back p ws q
    → Run g back p ws q
Run-agree g h back p zs [] q d same run = run
Run-agree g h back p zs (w ∷ ws) q d same (e, e', run) =
    let (_, apart, _) = Distinct-between zs w ws d in
    rw (same w apart)
      (e, e', Run-agree g h (some w) (h w).next zs ws q (drop-Distinct zs w ws d) same run)

pub left-Distinct : (xs ys : List ℕ) → Distinct (xs ++ ys) → Distinct xs
left-Distinct [] ys d = tt
left-Distinct (a ∷ xs) ys (w, d) = ((Without-++ a xs ys w).0, left-Distinct xs ys d)

pub right-Distinct : (xs ys : List ℕ) → Distinct (xs ++ ys) → Distinct ys
right-Distinct [] ys d = d
right-Distinct (a ∷ xs) ys (w, d) = right-Distinct xs ys d

pub swap-Distinct : (xs ys : List ℕ) → Distinct (xs ++ ys) → Distinct (ys ++ xs)
swap-Distinct [] [] d = tt
swap-Distinct [] (b ∷ ys) (apart, d) = (join-Without b ys [] apart tt, swap-Distinct [] ys d)
swap-Distinct (a ∷ xs) ys (apart, d) =
    let (left, right) = Without-++ a xs ys apart in
    add-Distinct ys a xs right left (swap-Distinct xs ys d)

-- A free bucket becomes a waiting one. All buckets keep their pages.
pub retire-IsLists :
    (v : Vm) (xs : List ℕ) (x : ℕ) (ys ws : List ℕ)
    → IsLists v (xs ++ x ∷ ys) ws
    → (v' : Vm) × (retire x v ≡ ok v')
      × IsLists v' (xs ++ ys) (x ∷ ws)
      × SamePages v'.heap v.heap
      × Untouched v' v
unfolding retire
retire-IsLists v xs x ys ws lists =
    let d = left-Distinct (xs ++ x ∷ ys) ws lists.distinct in
    let removed = ll_remove_item v.kernel_buckets x v.heap in
    let (free, next, prev) = ll_remove_item-Chain v.heap v.kernel_buckets xs x ys lists.free d in
    let waiting =
      Run-agree removed.heap v.heap none v.waiting_list (xs ++ x ∷ ys) ws none lists.distinct
        (λ y w. ll_remove_item-outside v.heap v.kernel_buckets xs x ys y lists.free d w)
        lists.waiting in
    let distinct = moved-Distinct xs x ys ws lists.distinct in
    let (pushed, done, front, pages, others) =
      ll_push_item-Frame removed.heap v.waiting_list x ws waiting
        (right-Distinct (xs ++ ys) (x ∷ ws) distinct) prev next in
    (
      record v { heap = pushed.heap; kernel_buckets = removed.first; waiting_list = pushed.first },
      rw done refl,
      record {
        free =
            Run-agree pushed.heap removed.heap none removed.first (x ∷ ws) (xs ++ ys) none
              (swap-Distinct (xs ++ ys) (x ∷ ws) distinct) others free;
        waiting = front;
        distinct = distinct;
      },
      λ a.
          let (p, s) = ll_remove_item-SamePages v.kernel_buckets x v.heap a in
          let (p', s') = pages a in (p' ∙ p, s' ∙ s),
      (refl, refl),
    )
