-- ===== src/Vm/Optimize.antt =====
-- `vm_optimize` on a bucket with another one behind it.
use ma_os.Base.{
  ℕ, ◌+◌, ◌^◌, ◌<◌, ◌≡◌, refl, sym, ap, ◌∙◌, Bool, true, false, none, some, List, [], ◌∷◌, ◌++◌,
  Outcome, ok, arith, ==_iff, if◌then◌else◌, Bool-cases, inl, inr, u32, ◌>>=◌,
}
use mathlib.Core.Path.{subst}
use ma_os.FreeList.{Bucket, Heap}
use ma_os.FreeList.Chain.{store_self, store_ne}
use ma_os.FreeList.Segment.{Run-split, Distinct-between}
use ma_os.Vm.{Vm}
use ma_os.Vm.Lists.{IsLists, left-Distinct}
use ma_os.Vm.Merge.{Keeps, Meet, merge_front-Merged, merge_back-Keeps, append_assoc}
use ma_os.Vm.Reclaim.{merge_front, merge_back, adjacent, vm_optimize}

-- Every bucket ends before the last page number.
abbrev pub AllBelow : Heap → List ℕ → Type 0
AllBelow h [] = Unit
AllBelow h (a ∷ xs) = ((h a).pageno + (h a).size < 2 ^ 32) × AllBelow h xs

below_middle :
    (h : Heap) (ls : List ℕ) (x : ℕ) (rs : List ℕ)
    → AllBelow h (ls ++ x ∷ rs)
    → ((h x).pageno + (h x).size < 2 ^ 32) × AllBelow h rs
below_middle h [] x rs below = below
below_middle h (a ∷ ls) x rs (_, below) = below_middle h ls x rs below

adjacent-Meet :
    (h : Heap) (t i : ℕ)
    → (h t).pageno + (h t).size < 2 ^ 32
    → adjacent (h t) (h i) ≡ true
    → Meet h t i
unfolding adjacent
adjacent-Meet h t i fits e =
    let sum : u32 ((h t).pageno + (h t).size) ≡ (h i).pageno =
      (==_iff (u32 ((h t).pageno + (h t).size)) (h i).pageno).0 e in
    omega arith

-- Without a bucket in front, and with one.
optimize_first :
    (v : Vm) (i u : ℕ)
    → (v.heap i).prev ≡ none
    → (v.heap i).next ≡ some u
    → vm_optimize i v ≡ (if adjacent (v.heap i) (v.heap u) then merge_back i v else ok v)
unfolding vm_optimize adjacent
optimize_first v i u prev next = rw (vm_optimize, prev, next) refl

optimize_inner :
    (v : Vm) (t i u : ℕ)
    → (v.heap i).prev ≡ some t
    → (v.heap i).next ≡ some u
    → vm_optimize i v ≡ (
        (if adjacent (v.heap t) (v.heap i) then merge_front i t v else ok v) >>= λ v'.
        if adjacent (v.heap i) (v.heap u) then merge_back i v' else ok v')
unfolding vm_optimize adjacent
optimize_inner v t i u prev next = rw (vm_optimize, prev, next) refl

-- The second merge, when the test says that the two buckets meet.
back-Keeps :
    (test : Bool) (v : Vm) (ls : List ℕ) (i u : ℕ) (rs ws : List ℕ)
    → IsLists v (ls ++ i ∷ u ∷ rs) ws
    → (test ≡ true → Meet v.heap i u)
    → (v.heap u).pageno + (v.heap u).size < 2 ^ 32
    → Keeps v (ls ++ i ∷ u ∷ rs) (if test then merge_back i v else ok v)
back-Keeps true v ls i u rs ws lists meet fits =
    merge_back-Keeps v ls i u rs ws lists (meet refl) fits
back-Keeps false v ls i u rs ws lists meet fits = record {
  out = v;
  returns = refl;
  free = ls ++ i ∷ u ∷ rs;
  waiting = ws;
  lists = lists;
  untouched = (refl, refl);
  same = λ p. refl;
}

-- After the first merge the bucket still ends where it ended.
inner-Keeps :
    (v : Vm) (ls : List ℕ) (t i u : ℕ) (rs ws : List ℕ)
    → IsLists v (ls ++ t ∷ i ∷ u ∷ rs) ws
    → AllBelow v.heap (ls ++ t ∷ i ∷ u ∷ rs)
    → Keeps v (ls ++ t ∷ i ∷ u ∷ rs) (vm_optimize i v)
inner-Keeps v ls t i u rs ws lists below =
    let (_, _, (_, _, (_, prev, (next, _, _)))) =
      Run-split v.heap none v.kernel_buckets ls (t ∷ i ∷ u ∷ rs) none lists.free in
    let (below_t, (below_i, (below_u, _))) = below_middle v.heap ls t (i ∷ u ∷ rs) below in
    let test = adjacent (v.heap i) (v.heap u) in
    subst (λ (r : Outcome Vm). Keeps v (ls ++ t ∷ i ∷ u ∷ rs) r)
      (sym (optimize_inner v t i u prev next))
      (elim (Bool-cases (adjacent (v.heap t) (v.heap i))) [
        | inl front ↦
            let h = v.heap in
            let m =
              merge_front-Merged v ls t i (u ∷ rs) ws lists (adjacent-Meet h t i below_t front)
                below_i in
            let d = left-Distinct (ls ++ t ∷ i ∷ u ∷ rs) ws lists.distinct in
            let (_, _, (_, ((ne, _), _))) = Distinct-between ls t (i ∷ u ∷ rs) d in
            let (first_i, size_i) = m.pages i in
            let (first_u, size_u) = m.pages u in
            let at_i = store_self i _ h in
            let at_u = store_ne i _ h u ne in
            let i_first = first_i ∙ ap (λ (b : Bucket). b.pageno) at_i in
            let i_size = size_i ∙ ap (λ (b : Bucket). b.size) at_i in
            let u_first = first_u ∙ ap (λ (b : Bucket). b.pageno) at_u in
            let u_size = size_u ∙ ap (λ (b : Bucket). b.size) at_u in
            let meet = adjacent-Meet h t i below_t front in
            let k =
              back-Keeps test m.out ls i u rs m.waiting m.lists
                (λ e. omega (arith, i_first, i_size, u_first, meet, adjacent-Meet h i u below_i e))
                (omega (arith, u_first, u_size, below_u)) in
            record {
              out = k.out;
              returns = rw (front, m.returns) k.returns;
              free = k.free;
              waiting = k.waiting;
              lists = k.lists;
              untouched = (k.untouched.0 ∙ m.untouched.0, k.untouched.1 ∙ m.untouched.1);
              same = λ p. k.same p ∙ m.same p;
            }
        | inr apart ↦
            let split = append_assoc ls t (i ∷ u ∷ rs) in
            let lists' : IsLists v ((ls ++ t ∷ []) ++ i ∷ u ∷ rs) ws = rw split lists in
            let k =
              back-Keeps test v (ls ++ t ∷ []) i u rs ws lists' (adjacent-Meet v.heap i u below_i)
                below_u in
            rw apart (rw split at k)
      ])

-- The last bucket of a list that is not empty.
snoc : (a : ℕ) (xs : List ℕ) → (ys : List ℕ) × (t : ℕ) × (a ∷ xs ≡ ys ++ t ∷ [])
snoc a [] = ([], a, refl)
snoc a (b ∷ xs) = let (ys, t, e) = snoc b xs in (a ∷ ys, t, ap (λ (l : List ℕ). a ∷ l) e)

-- `vm_optimize` of a free bucket `i` that is not the last one returns: whichever neighbours it is
-- joined with, both lists stay well formed, and every page is held by as many free buckets as
-- before.
pub vm_optimize-Keeps :
    (v : Vm) (ls : List ℕ) (i u : ℕ) (rs ws : List ℕ)
    → IsLists v (ls ++ i ∷ u ∷ rs) ws
    → AllBelow v.heap (ls ++ i ∷ u ∷ rs)
    → Keeps v (ls ++ i ∷ u ∷ rs) (vm_optimize i v)
vm_optimize-Keeps v [] i u rs ws lists below =
    let (_, prev, (next, _, _)) = lists.free in
    let (below_i, (below_u, _)) = below in
    subst (λ (r : Outcome Vm). Keeps v (i ∷ u ∷ rs) r) (sym (optimize_first v i u prev next))
      (back-Keeps (adjacent (v.heap i) (v.heap u)) v [] i u rs ws lists
        (adjacent-Meet v.heap i u below_i) below_u)
vm_optimize-Keeps v (a ∷ ls) i u rs ws lists below =
    let (ys, t, e) = snoc a ls in
    let split : (a ∷ ls) ++ i ∷ u ∷ rs ≡ ys ++ t ∷ i ∷ u ∷ rs =
      ap (λ (l : List ℕ). l ++ i ∷ u ∷ rs) e ∙ append_assoc ys t (i ∷ u ∷ rs) in
    subst (λ (l : List ℕ). Keeps v l (vm_optimize i v)) (sym split)
      (inner-Keeps v ys t i u rs ws (subst (λ (l : List ℕ). IsLists v l ws) split lists)
        (subst (λ (l : List ℕ). AllBelow v.heap l) split below))
