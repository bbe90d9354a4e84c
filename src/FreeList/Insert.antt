-- ===== src/FreeList/Insert.antt =====
-- `ll_insert_before` on a list.
use ma_os.Base.{ℕ, ◌≡◌, ◌≢◌, refl, sym, ap, ◌∙◌, Option, none, some, List, [], ◌∷◌, ◌++◌}
use mathlib.Core.Path.{subst}
use ma_os.FreeList.{Bucket, Heap, store, set_next, set_prev, Links, link_before, ll_insert_before}
use ma_os.FreeList.Chain.{Run, Chain, Without, Distinct, store_self, store_ne, Run-store}
use ma_os.FreeList.Segment.{
  last_or, last_or-some, last_or-ne, last_or-Without, Run-++, Run-split, Without-++,
  Distinct-between, Run-redirect, Run-back,
}

pub link_before-none :
    (g : Heap) (first : Option ℕ) (n x : ℕ)
    → (g x).prev ≡ none
    → link_before first n x g ≡ record { first = some n; heap = g }
unfolding link_before
link_before-none g first n x e = rw (link_before, e) refl

pub link_before-some :
    (g : Heap) (first : Option ℕ) (n x z : ℕ)
    → (g x).prev ≡ some z
    → link_before first n x g ≡ record { first = first; heap = set_next z (some n) g }
unfolding link_before set_next
link_before-some g first n x z e = rw (link_before, e) refl

-- The buckets `xs` lead to `n`, those behind and `n` itself are as they were.
abbrev Linked : Heap → ℕ → List ℕ → ℕ → List ℕ → Links → Type 0
Linked g n xs x ys l =
    Run l.heap none l.first xs (some n)
    × Run l.heap (last_or none xs) (some x) (x ∷ ys) none
    × (l.heap n ≡ g n)

link_before-Linked :
    (g : Heap) (first : Option ℕ) (n : ℕ) (xs : List ℕ) (x : ℕ) (ys : List ℕ)
    → Distinct (xs ++ x ∷ ys)
    → Without n xs
    → Run g none first xs (some x)
    → Run g (last_or none xs) (some x) (x ∷ ys) none
    → Linked g n xs x ys (link_before first n x g)
unfolding set_next
link_before-Linked g first n [] x ys d w left (at_x, prev_x, right) =
    subst (λ (l : Links). Linked g n [] x ys l) (sym (link_before-none g first n x prev_x))
      (refl, (at_x, prev_x, right), refl)
link_before-Linked g first n (a ∷ xs) x ys d (ne, w) left (at_x, prev_x, right) =
    let (z, last) = last_or-some a xs in
    let (dx, _, _) = Distinct-between (a ∷ xs) x ys d in
    let written = record (g z) { next = some n } in
    subst (λ (l : Links). Linked g n (a ∷ xs) x ys l)
      (sym (link_before-some g first n x z (prev_x ∙ last)))
      (
        Run-redirect g none first a xs (some x) z (some n) dx last left,
        Run-store z written g (last_or (some a) xs) (some x) (x ∷ ys) none
            (last_or-Without a xs z (x ∷ ys) d last) (at_x, prev_x, right),
        store_ne z written g n (λ e. last_or-ne n a z xs ne w last (sym e)),
      )

-- A bucket that is in no list, with its two pointers written.
pointed :
    (h : Heap) (n : ℕ) (next prev : Option ℕ)
    → let g = set_prev n prev (set_next n next h) in
      ((g n).next ≡ next)
      × ((g n).prev ≡ prev)
      × ((back p : Option ℕ) (xs : List ℕ) (q : Option ℕ)
          → Without n xs
          → Run h back p xs q
          → Run g back p xs q)
unfolding set_prev set_next
pointed h n next prev =
    let first = record (h n) { next = next } in
    let h' = store n first h in
    let second = record (h' n) { prev = prev } in
    (
      ap (λ (b : Bucket). b.next) (store_self n second h')
          ∙ ap (λ (b : Bucket). b.next) (store_self n first h),
      ap (λ (b : Bucket). b.prev) (store_self n second h'),
      λ back p xs q w r. Run-store n second h' back p xs q w (Run-store n first h back p xs q w r),
    )

-- Linking the old bucket back to the new one, between the two parts of the list.
joined :
    (g : Heap) (first : Option ℕ) (n : ℕ) (xs : List ℕ) (x : ℕ) (ys : List ℕ)
    → Distinct (xs ++ x ∷ ys)
    → n ≢ x
    → Run g none first xs (some n)
    → Run g (last_or none xs) (some x) (x ∷ ys) none
    → (g n).next ≡ some x
    → (g n).prev ≡ last_or none xs
    → Chain (set_prev x (some n) g) first (xs ++ n ∷ x ∷ ys)
unfolding set_prev
joined g first n xs x ys d ne left right next prev =
    let (_, apart, (w, _)) = Distinct-between xs x ys d in
    let written = record (g x) { prev = some n } in
    let kept = store_ne x written g n (λ e. ne (sym e)) in
    Run-++ (set_prev x (some n) g) none first (some n) xs (n ∷ x ∷ ys) none
      (Run-store x written g none first xs (some n) apart left)
      (
        refl,
        ap (λ (b : Bucket). b.prev) kept ∙ prev,
        rw (ap (λ (b : Bucket). b.next) kept ∙ next)
            (Run-back g (last_or none xs) (some n) (some x) x ys none w right),
      )

-- Inserting a bucket that is not in the list puts it right before the one that is named.
pub ll_insert_before-Chain :
    (h : Heap) (first : Option ℕ) (n : ℕ) (xs : List ℕ) (x : ℕ) (ys : List ℕ)
    → Chain h first (xs ++ x ∷ ys)
    → Distinct (xs ++ x ∷ ys)
    → Without n (xs ++ x ∷ ys)
    → let l = ll_insert_before first n x h in Chain l.heap l.first (xs ++ n ∷ x ∷ ys)
unfolding ll_insert_before set_next
ll_insert_before-Chain h first n xs x ys chain d w =
    let (m, left, (at_x, prev_x, right)) = Run-split h none first xs (x ∷ ys) none chain in
    let left' : Run h none first xs (some x) = rw (← at_x) left in
    let (w_xs, (ne, w_ys)) = Without-++ n xs (x ∷ ys) w in
    let back = last_or none xs in
    let prev : (set_next n (some x) h x).prev ≡ back =
      ap (λ (b : Bucket). b.prev) (store_ne n (record (h n) { next = some x }) h x ne) ∙ prev_x in
    let g = set_prev n back (set_next n (some x) h) in
    let (next_n, prev_n, keep) = pointed h n (some x) back in
    let (to_n, from_x, same) =
      link_before-Linked g first n xs x ys d w_xs (keep none first xs (some x) w_xs left')
        (keep back (some x) (x ∷ ys) none (ne, w_ys) (refl, prev_x, right)) in
    let l = link_before first n x g in
    rw prev (
      joined l.heap l.first n xs x ys d ne to_n from_x (ap (λ (b : Bucket). b.next) same ∙ next_n)
        (ap (λ (b : Bucket). b.prev) same ∙ prev_n))
