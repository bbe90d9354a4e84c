-- ===== src/FreeList/Frame.antt =====
-- What the operations on a list leave as it is: the buckets outside the list, and the pages of all
-- buckets.
use ma_os.Base.{
  ℕ, ◌≡◌, refl, sym, ap, ◌∙◌, Option, none, some, List, [], ◌∷◌, ◌++◌, Outcome, ok, ==_iff, ◌==◌,
  Bool-cases, inl, inr,
}
use mathlib.Core.Path.{subst}
use ma_os.FreeList.{
  Bucket, Heap, store, set_next, set_prev, Links, unlink_behind, unlink_before, ll_remove_item,
  ll_push_item,
}
use ma_os.FreeList.Chain.{Run, Chain, Without, Distinct, store_ne}
use ma_os.FreeList.Segment.{last_or, last_or-some, last_or-ne, Run-split, Without-++}
use ma_os.FreeList.Remove.{
  unlink_behind-none, unlink_behind-some, unlink_before-none, unlink_before-some, behind-Run,
}
use ma_os.FreeList.Push.{ll_push_item-Chain}

-- Each bucket has the same pages in both heaps.
abbrev pub SamePages : Heap → Heap → Type 0
SamePages g h = (a : ℕ) → ((g a).pageno ≡ (h a).pageno) × ((g a).size ≡ (h a).size)

-- A bucket that is written with the pages it has.
store-SamePages :
    (x : ℕ) (b : Bucket) (h : Heap)
    → b.pageno ≡ (h x).pageno
    → b.size ≡ (h x).size
    → SamePages (store x b h) h
unfolding store
store-SamePages x b h e e' a = elim (Bool-cases (x == a)) [
  | inl same ↦
      let at_a : x ≡ a = (==_iff x a).0 same in
      rw same (e ∙ ap (λ (t : ℕ). (h t).pageno) at_a, e' ∙ ap (λ (t : ℕ). (h t).size) at_a)
  | inr other ↦ rw other (refl, refl)
]

pub set_next-SamePages : (x : ℕ) (q : Option ℕ) (h : Heap) → SamePages (set_next x q h) h
unfolding set_next
set_next-SamePages x q h = store-SamePages x (record (h x) { next = q }) h refl refl

pub set_prev-SamePages : (x : ℕ) (q : Option ℕ) (h : Heap) → SamePages (set_prev x q h) h
unfolding set_prev
set_prev-SamePages x q h = store-SamePages x (record (h x) { prev = q }) h refl refl

pub SamePages-trans : (f g h : Heap) → SamePages f g → SamePages g h → SamePages f h
SamePages-trans f g h s t a = ((s a).0 ∙ (t a).0, (s a).1 ∙ (t a).1)

unlink_behind-SamePages : (x : ℕ) (h : Heap) → SamePages (unlink_behind x h) h
unfolding unlink_behind
unlink_behind-SamePages x h =
    elim (h x).next
      as (λ (o : Option ℕ).
        SamePages (elim o [ none ↦ h | some next ↦ set_prev next (h x).prev h ]) h) [
          | none ↦ λ a. (refl, refl)
          | some next ↦ set_prev-SamePages next (h x).prev h
        ]

unlink_before-SamePages :
    (first : Option ℕ) (x : ℕ) (h : Heap) → SamePages (unlink_before first x h).heap h
unfolding unlink_before
unlink_before-SamePages first x h =
    elim (h x).prev
      as (λ (o : Option ℕ).
        SamePages
          (elim o as (λ _. Links) [
            | none ↦ record { first = (h x).next; heap = h }
            | some prev ↦ record { first = first; heap = set_next prev (h x).next h }
          ]).heap
          h) [ none ↦ λ a. (refl, refl) | some prev ↦ set_next-SamePages prev (h x).next h ]

pub ll_remove_item-SamePages :
    (first : Option ℕ) (x : ℕ) (h : Heap) → SamePages (ll_remove_item first x h).heap h
unfolding ll_remove_item
ll_remove_item-SamePages first x h =
    let g = unlink_behind x h in
    let f = (unlink_before first x g).heap in
    let e = set_next x none f in
    SamePages-trans (set_prev x none e) e h (set_prev-SamePages x none e) (
      SamePages-trans e f h (set_next-SamePages x none f)
        (SamePages-trans f g h (unlink_before-SamePages first x g) (unlink_behind-SamePages x h)))

unlink_behind-outside :
    (h : Heap) (x y : ℕ) (ys : List ℕ)
    → Run h (some x) (h x).next ys none
    → Without y ys
    → unlink_behind x h y ≡ h y
unfolding set_prev
unlink_behind-outside h x y [] run w = rw (unlink_behind-none h x run) refl
unlink_behind-outside h x y (b ∷ ys) (at_b, _, run) (ne, w) =
    ap (λ (g : Heap). g y) (unlink_behind-some h x b at_b)
    ∙ store_ne b (record (h b) { prev = (h x).prev }) h y (λ e. ne (sym e))

unlink_before-outside :
    (h : Heap) (first : Option ℕ) (x y : ℕ) (xs : List ℕ)
    → (h x).prev ≡ last_or none xs
    → Without y xs
    → (unlink_before first x h).heap y ≡ h y
unfolding set_next
unlink_before-outside h first x y [] prev w = rw (unlink_before-none h first x prev) refl
unlink_before-outside h first x y (a ∷ xs) prev (ne, w) =
    let (z, last) = last_or-some a xs in
    ap (λ (l : Links). l.heap y) (unlink_before-some h first x z (prev ∙ last))
    ∙ store_ne z (record (h z) { next = (h x).next }) h y
        (λ e. last_or-ne y a z xs ne w last (sym e))

pub ll_remove_item-outside :
    (h : Heap) (first : Option ℕ) (xs : List ℕ) (x : ℕ) (ys : List ℕ) (y : ℕ)
    → Chain h first (xs ++ x ∷ ys)
    → Distinct (xs ++ x ∷ ys)
    → Without y (xs ++ x ∷ ys)
    → (ll_remove_item first x h).heap y ≡ h y
unfolding ll_remove_item set_next set_prev
ll_remove_item-outside h first xs x ys y chain d w =
    let (m, left, (at_x, prev_x, right)) = Run-split h none first xs (x ∷ ys) none chain in
    let (w_xs, (ne, w_ys)) = Without-++ y xs (x ∷ ys) w in
    let left' : Run h none first xs (some x) = rw (← at_x) left in
    let (same, _, _) = behind-Run h first xs x ys d left' right in
    let g = unlink_behind x h in
    let f = (unlink_before first x g).heap in
    let cut = record (f x) { next = none } in
    store_ne x _ (store x cut f) y (λ e. ne (sym e))
    ∙ store_ne x cut f y (λ e. ne (sym e))
    ∙ unlink_before-outside g first x y xs (ap (λ (b : Bucket). b.prev) same ∙ prev_x) w_xs
    ∙ unlink_behind-outside h x y ys right w_ys

-- The heap after a push.
abbrev pushed : Option ℕ → ℕ → Heap → Heap
pushed none item h = h
pushed (some old_first) item h = set_next item (some old_first) (set_prev old_first (some item) h)

ll_push_item_lem :
    (first : Option ℕ) (item : ℕ) (h : Heap)
    → (h item).prev ≡ none
    → (h item).next ≡ none
    → ll_push_item first item h ≡ ok record { first = some item; heap = pushed first item h }
unfolding ll_push_item
ll_push_item_lem none item h e e' = rw (e, e') refl
ll_push_item_lem (some a) item h e e' = rw (e, e') refl

pushed-SamePages : (first : Option ℕ) (item : ℕ) (h : Heap) → SamePages (pushed first item h) h
pushed-SamePages none item h = λ a. (refl, refl)
pushed-SamePages (some b) item h =
    let g = set_prev b (some item) h in
    SamePages-trans (set_next item (some b) g) g h (set_next-SamePages item (some b) g)
      (set_prev-SamePages b (some item) h)

pushed-outside :
    (first : Option ℕ) (item : ℕ) (h : Heap) (xs : List ℕ) (y : ℕ)
    → Chain h first xs
    → Without y (item ∷ xs)
    → pushed first item h y ≡ h y
unfolding set_next set_prev
pushed-outside first item h [] y run w = rw run refl
pushed-outside first item h (a ∷ xs) y (at_a, _, run) (ne, (ne', w)) =
    rw at_a
      (store_ne item _ (store a _ h) y (λ e. ne (sym e)) ∙ store_ne a _ h y (λ e. ne' (sym e)))

abbrev links_or : Links → Outcome Links → Links
links_or l (ok l') = l'
links_or l r = l

-- A push, with all that it leaves as it is.
pub ll_push_item-Frame :
    (h : Heap) (first : Option ℕ) (item : ℕ) (xs : List ℕ)
    → Chain h first xs
    → Distinct (item ∷ xs)
    → (h item).prev ≡ none
    → (h item).next ≡ none
    → (l : Links) × (ll_push_item first item h ≡ ok l)
      × Chain l.heap l.first (item ∷ xs)
      × SamePages l.heap h
      × ((y : ℕ) → Without y (item ∷ xs) → l.heap y ≡ h y)
ll_push_item-Frame h first item xs chain d prev next =
    let (l, done, chain') = ll_push_item-Chain h first item xs chain d prev next in
    let known = ll_push_item_lem first item h prev next in
    (
      record { first = some item; heap = pushed first item h },
      known,
      subst (λ (l' : Links). Chain l'.heap l'.first (item ∷ xs))
          (ap (λ (r : Outcome Links). links_or l r) (sym done ∙ known)) chain',
      pushed-SamePages first item h,
      λ y w. pushed-outside first item h xs y chain w,
    )
