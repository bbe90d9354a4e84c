-- ===== src/Vm/Merge.antt =====
-- `vm_optimize` joins a bucket with its neighbours and keeps the free pages as they are.
use ma_os.Base.{
  ℕ, ◌+◌, ◌^◌, ◌<◌, ◌≡◌, refl, ap, ◌∙◌, none, some, List, [], ◌∷◌, ◌++◌, Outcome, ok, arith, u32,
}
use ma_os.FreeList.{Bucket, Heap, store}
use ma_os.FreeList.Chain.{Distinct}
use ma_os.FreeList.Segment.{Run-split}
use ma_os.FreeList.Frame.{SamePages}
use ma_os.Vm.{Vm}
use ma_os.Vm.Lists.{IsLists, Untouched, left-Distinct, retire-IsLists}
use ma_os.Vm.Pages.{within, holders, holders-between, holders-SamePages, store-IsLists}
use ma_os.Vm.Reclaim.{merge_front, merge_behind, merge_back}

-- The free pages are the same, in well-formed lists.
pub record Keeps (v : Vm) (xs : List ℕ) (r : Outcome Vm) : Type 0 where
  pub out : Vm
  pub returns : r ≡ ok out
  pub free : List ℕ
  pub waiting : List ℕ
  pub lists : IsLists out free waiting
  pub untouched : Untouched out v
  pub same : (p : ℕ) → holders out.heap free p ≡ holders v.heap xs p

-- Two neighbouring ranges of pages are one.
join_within :
    (first size next size' total p : ℕ)
    → first + size ≡ next
    → total ≡ size + size'
    → within first total p ≡ within first size p + within next size' p
join_within first size next size' total p meet sum = ground arith

pub append_assoc : (xs : List ℕ) (y : ℕ) (zs : List ℕ) → (xs ++ y ∷ []) ++ zs ≡ xs ++ y ∷ zs
append_assoc [] y zs = refl
append_assoc (x ∷ xs) y zs = ap (λ (t : List ℕ). x ∷ t) (append_assoc xs y zs)

-- The bucket `t` ends where its neighbour `i` behind it begins.
abbrev pub Meet : Heap → ℕ → ℕ → Type 0
Meet h t i = (h t).pageno + (h t).size ≡ (h i).pageno

-- What a merge into `i` leaves: the other buckets have the pages that they had.
pub record Merged (v : Vm) (i : ℕ) (b : Bucket) (xs ys : List ℕ) (r : Outcome Vm) : Type 0 where
  pub out : Vm
  pub returns : r ≡ ok out
  pub waiting : List ℕ
  pub lists : IsLists out ys waiting
  pub pages : SamePages out.heap (store i b v.heap)
  pub untouched : Untouched out v
  pub same : (p : ℕ) → holders out.heap ys p ≡ holders v.heap xs p

pub merge_front-Merged :
    (v : Vm) (ls : List ℕ) (t i : ℕ) (rs ws : List ℕ)
    → IsLists v (ls ++ t ∷ i ∷ rs) ws
    → Meet v.heap t i
    → (v.heap i).pageno + (v.heap i).size < 2 ^ 32
    → Merged v i
        (record (v.heap i) { pageno = (v.heap t).pageno; size = (v.heap i).size + (v.heap t).size })
        (ls ++ t ∷ i ∷ rs)
        (ls ++ i ∷ rs)
        (merge_front i t v)
unfolding merge_front
merge_front-Merged v ls t i rs ws lists meet fits =
    let b : Bucket = record (v.heap i) {
      pageno = (v.heap t).pageno;
      size = (v.heap i).size + (v.heap t).size;
    } in
    let no_wrap : u32 ((v.heap i).size + (v.heap t).size) ≡ (v.heap i).size + (v.heap t).size =
      omega arith in
    let v1 = record v { heap = store i b v.heap } in
    let (v', done, lists', pages, kept_rest) =
      retire-IsLists v1 ls t (i ∷ rs) ws
        (store-IsLists v i b (ls ++ t ∷ i ∷ rs) ws refl refl lists) in
    let d = left-Distinct (ls ++ t ∷ i ∷ rs) ws lists.distinct in
    let d' = left-Distinct (ls ++ i ∷ rs) (t ∷ ws) lists'.distinct in
    record {
      out = v';
      returns = rw no_wrap done;
      waiting = t ∷ ws;
      lists = lists';
      pages = pages;
      untouched = kept_rest;
      same = λ p.
          let (whole, _, _) = holders-between t b v.heap ls (i ∷ rs) p d in
          let (before, _, after) = holders-between i b v.heap ls rs p d' in
          let kept = holders-SamePages v'.heap v1.heap (ls ++ i ∷ rs) p pages in
          let both =
            join_within (v.heap t).pageno (v.heap t).size (v.heap i).pageno (v.heap i).size b.size p
              meet (omega arith) in
          kept ∙ omega (arith, whole, before, after, both);
    }

merge_back_lem : (v : Vm) (i u : ℕ) → (v.heap i).next ≡ some u → merge_back i v ≡ merge_behind i u v
unfolding merge_back
merge_back_lem v i u at_u = rw (merge_back, at_u) refl

pub merge_back-Keeps :
    (v : Vm) (ls : List ℕ) (i u : ℕ) (rs ws : List ℕ)
    → IsLists v (ls ++ i ∷ u ∷ rs) ws
    → Meet v.heap i u
    → (v.heap u).pageno + (v.heap u).size < 2 ^ 32
    → Keeps v (ls ++ i ∷ u ∷ rs) (merge_back i v)
unfolding merge_behind
merge_back-Keeps v ls i u rs ws lists meet fits =
    let b : Bucket = record (v.heap i) { size = (v.heap i).size + (v.heap u).size } in
    let no_wrap : u32 ((v.heap i).size + (v.heap u).size) ≡ (v.heap i).size + (v.heap u).size =
      omega arith in
    let (m, _, (_, _, (at_u, _, _))) =
      Run-split v.heap none v.kernel_buckets ls (i ∷ u ∷ rs) none lists.free in
    let v1 = record v { heap = store i b v.heap } in
    let split = append_assoc ls i (u ∷ rs) in
    let l1 : IsLists v1 ((ls ++ i ∷ []) ++ u ∷ rs) ws =
      rw split (store-IsLists v i b (ls ++ i ∷ u ∷ rs) ws refl refl lists) in
    let (v', done, lists', pages, kept_rest) = retire-IsLists v1 (ls ++ i ∷ []) u rs ws l1 in
    let lists'' : IsLists v' (ls ++ i ∷ rs) (u ∷ ws) = rw (append_assoc ls i rs) at lists' in
    let d : Distinct ((ls ++ i ∷ []) ++ u ∷ rs) =
      rw split (left-Distinct (ls ++ i ∷ u ∷ rs) ws lists.distinct) in
    let d' = left-Distinct (ls ++ i ∷ rs) (u ∷ ws) lists''.distinct in
    record {
      out = v';
      returns = merge_back_lem v i u at_u ∙ rw no_wrap done;
      free = ls ++ i ∷ rs;
      waiting = u ∷ ws;
      lists = lists'';
      untouched = kept_rest;
      same = λ p.
          let (whole, _, _) = holders-between u b v.heap (ls ++ i ∷ []) rs p d in
          let whole' = rw (split, append_assoc ls i rs) at whole in
          let (before, _, after) = holders-between i b v.heap ls rs p d' in
          let kept = holders-SamePages v'.heap v1.heap (ls ++ i ∷ rs) p pages in
          let both =
            join_within (v.heap i).pageno (v.heap i).size (v.heap u).pageno (v.heap u).size b.size p
              meet refl in
          kept ∙ omega (arith, whole', before, after, both);
    }
