-- ===== src/FreeList/Inserted.antt =====
-- What `ll_insert_before` leaves as it is.
use ma_os.Base.{ℕ, ◌≡◌, refl, sym, ap, ◌∙◌, Option, none, some, List, [], ◌∷◌, ◌++◌}
use ma_os.FreeList.{Bucket, Heap, store, set_next, set_prev, Links, link_before, ll_insert_before}
use ma_os.FreeList.Chain.{Chain, Without, store_ne}
use ma_os.FreeList.Segment.{last_or, last_or-some, last_or-ne, Run-split, Without-++}
use ma_os.FreeList.Frame.{SamePages, set_next-SamePages, set_prev-SamePages, SamePages-trans}
use ma_os.FreeList.Insert.{link_before-none, link_before-some}

link_before-SamePages :
    (first : Option ℕ) (n x : ℕ) (h : Heap) → SamePages (link_before first n x h).heap h
unfolding link_before
link_before-SamePages first n x h =
    elim (h x).prev
      as (λ (o : Option ℕ).
        SamePages
          (elim o as (λ _. Links) [
            | none ↦ record { first = some n; heap = h }
            | some prev ↦ record { first = first; heap = set_next prev (some n) h }
          ]).heap
          h) [ none ↦ λ a. (refl, refl) | some prev ↦ set_next-SamePages prev (some n) h ]

pub ll_insert_before-SamePages :
    (first : Option ℕ) (n x : ℕ) (h : Heap) → SamePages (ll_insert_before first n x h).heap h
unfolding ll_insert_before
ll_insert_before-SamePages first n x h =
    let pointed = set_next n (some x) h in
    let linked = set_prev n (pointed x).prev pointed in
    let f = (link_before first n x linked).heap in
    SamePages-trans (set_prev x (some n) f) f h (set_prev-SamePages x (some n) f) (
      SamePages-trans f linked h (link_before-SamePages first n x linked) (
        SamePages-trans linked pointed h (set_prev-SamePages n (pointed x).prev pointed)
          (set_next-SamePages n (some x) h)))

link_before-outside :
    (g : Heap) (first : Option ℕ) (n x y : ℕ) (xs : List ℕ)
    → (g x).prev ≡ last_or none xs
    → Without y xs
    → (link_before first n x g).heap y ≡ g y
unfolding set_next
link_before-outside g first n x y [] prev w =
    ap (λ (l : Links). l.heap y) (link_before-none g first n x prev)
link_before-outside g first n x y (a ∷ xs) prev (ne, w) =
    let (z, last) = last_or-some a xs in
    ap (λ (l : Links). l.heap y) (link_before-some g first n x z (prev ∙ last))
    ∙ store_ne z (record (g z) { next = some n }) g y (λ e. last_or-ne y a z xs ne w last (sym e))

-- The buckets that are neither in the list nor the new one.
pub ll_insert_before-outside :
    (h : Heap) (first : Option ℕ) (n : ℕ) (xs : List ℕ) (x : ℕ) (ys : List ℕ) (y : ℕ)
    → Chain h first (xs ++ x ∷ ys)
    → Without n (xs ++ x ∷ ys)
    → Without y (n ∷ xs ++ x ∷ ys)
    → (ll_insert_before first n x h).heap y ≡ h y
unfolding ll_insert_before set_next set_prev
ll_insert_before-outside h first n xs x ys y chain w_n (ne_n, w) =
    let (_, _, (_, prev_x, _)) = Run-split h none first xs (x ∷ ys) none chain in
    let (_, (n_x, _)) = Without-++ n xs (x ∷ ys) w_n in
    let (w_xs, (ne, _)) = Without-++ y xs (x ∷ ys) w in
    let b = record (h n) { next = some x } in
    let g = store n b h in
    let g' = set_prev n (g x).prev g in
    let same_x : g' x ≡ h x = store_ne n _ g x n_x ∙ store_ne n b h x n_x in
    store_ne x _ (link_before first n x g').heap y (λ e. ne (sym e))
    ∙ link_before-outside g' first n x y xs (ap (λ (c : Bucket). c.prev) same_x ∙ prev_x) w_xs
    ∙ store_ne n _ g y (λ e. ne_n (sym e))
    ∙ store_ne n b h y (λ e. ne_n (sym e))
