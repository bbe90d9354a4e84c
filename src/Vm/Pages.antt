-- ===== src/Vm/Pages.antt =====
-- The pages that the free buckets hold, and what `vm_reserve_pages` takes of them.
use ma_os.Base.{
  ℕ, ◌+◌, ◌-◌, ◌^◌, ◌≤◌, ◌<◌, ◌≡◌, refl, ap, ◌∙◌, Option, none, some, List, [], ◌∷◌, ◌++◌, ◌⊎◌, inl,
  inr, true, ◌||◌, Outcome, ok, arith, length, leb, ltb, ◌&&◌, ◌==◌, ==_iff, if◌then◌else◌,
  Bool-cases, u32,
}
use ma_os.Pmm.{e_ok, e_nomem}
use ma_os.FreeList.{Bucket, Heap, store}
use ma_os.FreeList.Chain.{Run, Without, Distinct, store_self, store_ne}
use ma_os.FreeList.Segment.{Distinct-between}
use ma_os.FreeList.Remove.{join-Without}
use ma_os.FreeList.Frame.{SamePages}
use ma_os.Vm.{Vm, Reserved, take_pages, vm_reserve_pages}
use ma_os.Vm.Lists.{IsLists, Untouched, left-Distinct, retire-IsLists}
use ma_os.Vm.Frames.{member}
use ma_os.Vm.Reserve.{AllSmaller, vm_reserve_pages-FirstFit}

-- 1 if page `p` is one of `size` pages from `pageno` on, otherwise 0.
abbrev pub within : ℕ → ℕ → ℕ → ℕ
within pageno size p = if leb pageno p && ltb p (pageno + size) then 1 else 0

-- The number of buckets that hold page `p`.
abbrev pub holders : Heap → List ℕ → ℕ → ℕ
holders h [] p = 0
holders h (a ∷ xs) p = within (h a).pageno (h a).size p + holders h xs p

pub holders-append :
    (h : Heap) (xs ys : List ℕ) (p : ℕ) → holders h (xs ++ ys) p ≡ holders h xs p + holders h ys p
holders-append h [] ys p = omega arith
holders-append h (a ∷ xs) ys p = omega (arith, holders-append h xs ys p)

pub holders-store :
    (x : ℕ) (b : Bucket) (h : Heap) (xs : List ℕ) (p : ℕ)
    → Without x xs
    → holders (store x b h) xs p ≡ holders h xs p
holders-store x b h [] p w = refl
holders-store x b h (a ∷ xs) p (ne, w) = rw (store_ne x b h a ne, holders-store x b h xs p w) refl

pub holders-SamePages :
    (g h : Heap) (xs : List ℕ) (p : ℕ) → SamePages g h → holders g xs p ≡ holders h xs p
holders-SamePages g h [] p same = refl
holders-SamePages g h (a ∷ xs) p same =
    rw ((same a).0, (same a).1, holders-SamePages g h xs p same) refl

-- The pages of a bucket in the middle of a list, of which the others are left as they are.
pub holders-between :
    (x : ℕ) (b : Bucket) (h : Heap) (ls rs : List ℕ) (p : ℕ)
    → Distinct (ls ++ x ∷ rs)
    → (holders h (ls ++ x ∷ rs) p ≡ holders h (ls ++ rs) p + within (h x).pageno (h x).size p)
      × (holders (store x b h) (ls ++ rs) p ≡ holders h (ls ++ rs) p)
      × (holders (store x b h) (ls ++ x ∷ rs) p ≡ holders h (ls ++ rs) p + within b.pageno b.size p)
holders-between x b h ls rs p d =
    let (_, left, (right, _)) = Distinct-between ls x rs d in
    let g = store x b h in
    let others : holders g (ls ++ rs) p ≡ holders h (ls ++ rs) p =
      holders-store x b h (ls ++ rs) p (join-Without x ls rs left right) in
    let before = holders-append h ls (x ∷ rs) p in
    let rest = holders-append h ls rs p in
    let rest' = holders-append g ls rs p in
    let after : holders g (ls ++ x ∷ rs) p
        ≡ holders g ls p + (within b.pageno b.size p + holders g rs p) =
      holders-append g ls (x ∷ rs) p ∙ rw (store_self x b h) refl in
    (omega (arith, before, rest), others, omega (arith, after, rest', others))

Run-links :
    (g h : Heap) (back p : Option ℕ) (xs : List ℕ) (q : Option ℕ)
    → ((a : ℕ) → ((g a).next ≡ (h a).next) × ((g a).prev ≡ (h a).prev))
    → Run h back p xs q
    → Run g back p xs q
Run-links g h back p [] q same run = run
Run-links g h back p (a ∷ xs) q same (e, e', run) =
    (e, (same a).1 ∙ e', rw (same a).0 (Run-links g h (some a) (h a).next xs q same run))

store-links :
    (x : ℕ) (b : Bucket) (h : Heap) (a : ℕ)
    → b.next ≡ (h x).next
    → b.prev ≡ (h x).prev
    → ((store x b h a).next ≡ (h a).next) × ((store x b h a).prev ≡ (h a).prev)
unfolding store
store-links x b h a e e' = elim (Bool-cases (x == a)) [
  | inl same ↦
      let at_a : x ≡ a = (==_iff x a).0 same in
      rw same (e ∙ ap (λ (t : ℕ). (h t).next) at_a, e' ∙ ap (λ (t : ℕ). (h t).prev) at_a)
  | inr other ↦ rw other (refl, refl)
]

-- The pages of a bucket are written, and its links are kept.
pub store-IsLists :
    (v : Vm) (x : ℕ) (b : Bucket) (xs ws : List ℕ)
    → b.next ≡ (v.heap x).next
    → b.prev ≡ (v.heap x).prev
    → IsLists v xs ws
    → IsLists (record v { heap = store x b v.heap }) xs ws
store-IsLists v x b xs ws e e' lists = record {
  free =
      Run-links (store x b v.heap) v.heap none v.kernel_buckets xs none
        (λ a. store-links x b v.heap a e e') lists.free;
  waiting =
      Run-links (store x b v.heap) v.heap none v.waiting_list ws none
        (λ a. store-links x b v.heap a e e') lists.waiting;
  distinct = lists.distinct;
}

-- Pages have been taken: `xs'` are the free buckets that are left, and each page is held by as many
-- of them as before, but for the pages that are returned, which one bucket less holds. No bucket
-- comes to the lists.
pub record Takes (pages : ℕ) (v : Vm) (xs ws : List ℕ) (r : Outcome Reserved) : Type 0 where
  pub out : Reserved
  pub returns : r ≡ ok out
  pub success : out.err ≡ e_ok
  pub free : List ℕ
  pub waiting : List ℕ
  pub lists : IsLists out.vm free waiting
  pub stay : (a : ℕ) → member (free ++ waiting) a ≡ true → member (xs ++ ws) a ≡ true
  pub untouched : Untouched out.vm v
  pub taken : (p : ℕ) → holders v.heap xs p ≡ holders out.vm.heap free p + within out.pageno pages p

split_within :
    (first size pages p : ℕ)
    → pages ≤ size
    → within first size p ≡ within (first + pages) (size - pages) p + within first pages p
split_within first size pages p le = ground arith

pub member-append : (xs ys : List ℕ) (a : ℕ) → member (xs ++ ys) a ≡ (member xs a || member ys a)
member-append [] ys a = refl
member-append (x ∷ xs) ys a = ground (arith, member-append xs ys a)

moved-member :
    (ls : List ℕ) (x : ℕ) (rs ws : List ℕ) (a : ℕ)
    → member ((ls ++ rs) ++ x ∷ ws) a ≡ true
    → member ((ls ++ x ∷ rs) ++ ws) a ≡ true
moved-member ls x rs ws a i =
    let after = member-append (ls ++ rs) (x ∷ ws) a in
    let left = member-append ls rs a in
    let before = member-append (ls ++ x ∷ rs) ws a in
    let left' = member-append ls (x ∷ rs) a in ground (arith, i, after, left, before, left')

take_pages-Takes :
    (pages : ℕ) (v : Vm) (ls : List ℕ) (x : ℕ) (rs ws : List ℕ)
    → IsLists v (ls ++ x ∷ rs) ws
    → pages ≤ (v.heap x).size
    → (v.heap x).pageno + (v.heap x).size ≤ 2 ^ 32
    → Takes pages v (ls ++ x ∷ rs) ws (take_pages pages x v)
unfolding take_pages
take_pages-Takes pages v ls x rs ws lists large fits =
    let b = v.heap x in
    let d = left-Distinct (ls ++ x ∷ rs) ws lists.distinct in
    elim (Bool-cases (b.size == pages)) [
      | inl exact ↦
          let empty = record b { pageno = 0; size = 0 } in
          let v1 = record v { heap = store x empty v.heap } in
          let (v', done, lists', same, kept_rest) =
            retire-IsLists v1 ls x rs ws
              (store-IsLists v x empty (ls ++ x ∷ rs) ws refl refl lists) in
          let size : b.size ≡ pages = (==_iff b.size pages).0 exact in
          record {
            out = record { vm = v'; err = e_ok; pageno = b.pageno };
            returns = rw (exact, done) refl;
            success = refl;
            free = ls ++ rs;
            waiting = x ∷ ws;
            lists = lists';
            stay = moved-member ls x rs ws;
            untouched = kept_rest;
            taken = λ p.
                let (before, others, _) = holders-between x empty v.heap ls rs p d in
                let kept = holders-SamePages v'.heap v1.heap (ls ++ rs) p same in
                before ∙ rw (size, kept, others) refl;
          }
      | inr more ↦
          let rest = record b { pageno = u32 (b.pageno + pages); size = b.size - pages } in
          let smaller : pages < b.size = ground arith in
          let no_wrap : u32 (b.pageno + pages) ≡ b.pageno + pages = omega arith in
          record {
            out = record {
              vm = record v { heap = store x rest v.heap };
              err = e_ok;
              pageno = b.pageno;
            };
            returns = rw more refl;
            success = refl;
            free = ls ++ x ∷ rs;
            waiting = ws;
            lists = store-IsLists v x rest (ls ++ x ∷ rs) ws refl refl lists;
            stay = λ a i. i;
            untouched = (refl, refl);
            taken = λ p.
                let (before, _, after) = holders-between x rest v.heap ls rs p d in
                let two : within b.pageno b.size p
                    ≡ within rest.pageno rest.size p + within b.pageno pages p =
                  rw no_wrap (split_within b.pageno b.size pages p large) in
                omega (arith, before, two, after);
          }
    ]

-- No bucket reaches beyond the last page number.
abbrev pub AllFit : Heap → List ℕ → Type 0
AllFit h [] = Unit
AllFit h (a ∷ xs) = ((h a).pageno + (h a).size ≤ 2 ^ 32) × AllFit h xs

AllFit-middle :
    (h : Heap) (ls : List ℕ) (x : ℕ) (rs : List ℕ)
    → AllFit h (ls ++ x ∷ rs)
    → (h x).pageno + (h x).size ≤ 2 ^ 32
AllFit-middle h [] x rs (fits, _) = fits
AllFit-middle h (a ∷ ls) x rs (_, all) = AllFit-middle h ls x rs all

-- On two well-formed lists, with at least as many rounds as there are free buckets,
-- `vm_reserve_pages` ends. If every free bucket is too small, it returns E_NOMEM and changes
-- nothing. Otherwise it succeeds, leaves two well-formed lists, and takes exactly the pages that
-- it returns from one free bucket: each other page is held by as many free buckets as before.
pub vm_reserve_pages-Takes :
    (rounds pages : ℕ) (v : Vm) (xs ws : List ℕ)
    → IsLists v xs ws
    → AllFit v.heap xs
    → length xs ≤ rounds
    → (AllSmaller v.heap pages xs
        × (vm_reserve_pages rounds pages v ≡ ok record { vm = v; err = e_nomem; pageno = 0 }))
      ⊎ Takes pages v xs ws (vm_reserve_pages rounds pages v)
vm_reserve_pages-Takes rounds pages v xs ws lists fits enough =
    elim (vm_reserve_pages-FirstFit rounds pages v xs lists.free enough) [
      | inl refused ↦ inl refused
      | inr (ls, x, rs, split, _, large, found) ↦
          let lists' : IsLists v (ls ++ x ∷ rs) ws = rw (← split) lists in
          let fits' = AllFit-middle v.heap ls x rs (rw split at fits) in
          inr (rw (found, split) (take_pages-Takes pages v ls x rs ws lists' large fits'))
    ]
