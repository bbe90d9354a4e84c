-- ===== src/FreeList/Remove.antt =====
-- `ll_remove_item` on a list.
use ma_os.Base.{ℕ, ◌≡◌, refl, sym, ap, ◌∙◌, Option, none, some, List, [], ◌∷◌, ◌++◌}
use mathlib.Core.Path.{subst}
use ma_os.FreeList.{
  Bucket, Heap, store, set_next, set_prev, Links, unlink_behind, unlink_before, ll_remove_item,
}
use ma_os.FreeList.Chain.{Run, Chain, Without, Distinct, store_self, store_ne, Run-store}
use ma_os.FreeList.Segment.{
  last_or, last_or-some, last_or-Without, Run-++, Run-split, Without-++, Distinct-between,
  Run-redirect, Run-back,
}

second-Without : (xs : List ℕ) (x y : ℕ) (ys : List ℕ) → Distinct (xs ++ x ∷ y ∷ ys) → Without y xs
second-Without [] x y ys d = tt
second-Without (a ∷ xs) x y ys (w, d) =
    let (_, (_, (ne, _))) = Without-++ a xs (x ∷ y ∷ ys) w in
    (λ e. ne (sym e), second-Without xs x y ys d)

pub unlink_behind-none : (h : Heap) (x : ℕ) → (h x).next ≡ none → unlink_behind x h ≡ h
unfolding unlink_behind
unlink_behind-none h x e = rw (unlink_behind, e) refl

pub unlink_behind-some :
    (h : Heap) (x y : ℕ) → (h x).next ≡ some y → unlink_behind x h ≡ set_prev y (h x).prev h
unfolding unlink_behind set_prev
unlink_behind-some h x y e = rw (unlink_behind, e) refl

pub unlink_before-none :
    (h : Heap) (first : Option ℕ) (x : ℕ)
    → (h x).prev ≡ none
    → unlink_before first x h ≡ record { first = (h x).next; heap = h }
unfolding unlink_before
unlink_before-none h first x e = rw (unlink_before, e) refl

pub unlink_before-some :
    (h : Heap) (first : Option ℕ) (x z : ℕ)
    → (h x).prev ≡ some z
    → unlink_before first x h ≡ record { first = first; heap = set_next z (h x).next h }
unfolding unlink_before set_next
unlink_before-some h first x z e = rw (unlink_before, e) refl

-- What comes behind is linked back past `x`.
pub behind-Run :
    (h : Heap) (first : Option ℕ) (xs : List ℕ) (x : ℕ) (ys : List ℕ)
    → Distinct (xs ++ x ∷ ys)
    → Run h none first xs (some x)
    → Run h (some x) (h x).next ys none
    → (unlink_behind x h x ≡ h x)
      × Run (unlink_behind x h) none first xs (some x)
      × Run (unlink_behind x h) (h x).prev (h x).next ys none
unfolding set_prev
behind-Run h first xs x [] d left right = rw (unlink_behind-none h x right) (refl, left, right)
behind-Run h first xs x (y ∷ ys) d left (at_y, prev_y, right) =
    let (_, _, ((ne, _), (w, _))) = Distinct-between xs x (y ∷ ys) d in
    let back = record (h y) { prev = (h x).prev } in
    subst
      (λ (g : Heap).
        (g x ≡ h x) × Run g none first xs (some x) × Run g (h x).prev (h x).next (y ∷ ys) none)
      (sym (unlink_behind-some h x y at_y))
      (
        store_ne y back h x (λ e. ne (sym e)),
        Run-store y back h none first xs (some x) (second-Without xs x y ys d) left,
        Run-back h (some x) (h x).prev (h x).next y ys none w (at_y, prev_y, right),
      )

-- What comes before is linked on past `x`.
before-Run :
    (h : Heap) (first : Option ℕ) (xs : List ℕ) (x : ℕ) (ys : List ℕ)
    → Distinct (xs ++ x ∷ ys)
    → Run h none first xs (some x)
    → (h x).prev ≡ last_or none xs
    → Run h (last_or none xs) (h x).next ys none
    → Chain (unlink_before first x h).heap (unlink_before first x h).first (xs ++ ys)
unfolding set_next
before-Run h first [] x ys d left prev_x right = rw (unlink_before-none h first x prev_x) right
before-Run h first (a ∷ xs) x ys d left prev_x right =
    let (z, last) = last_or-some a xs in
    let (dx, _, _) = Distinct-between (a ∷ xs) x ys d in
    let written = record (h z) { next = (h x).next } in
    let behind = last_or (some a) xs in
    subst (λ (l : Links). Chain l.heap l.first ((a ∷ xs) ++ ys))
      (sym (unlink_before-some h first x z (prev_x ∙ last)))
      (Run-++ (set_next z (h x).next h) none first (h x).next (a ∷ xs) ys none
        (Run-redirect h none first a xs (some x) z (h x).next dx last left)
        (Run-store z written h behind (h x).next ys none (last_or-Without a xs z (x ∷ ys) d last).1
          right))

-- Writing both pointers of a bucket that is in no list.
detached :
    (g : Heap) (first : Option ℕ) (x : ℕ) (xs : List ℕ)
    → Without x xs
    → Chain g first xs
    → let g' = set_prev x none (set_next x none g) in
      Chain g' first xs × ((g' x).next ≡ none) × ((g' x).prev ≡ none)
unfolding set_prev set_next
detached g first x xs w chain =
    let cut = record (g x) { next = none } in
    let g' = store x cut g in
    let free = record (g' x) { prev = none } in
    (
      Run-store x free g' none first xs none w (Run-store x cut g none first xs none w chain),
      ap (λ (b : Bucket). b.next) (store_self x free g')
          ∙ ap (λ (b : Bucket). b.next) (store_self x cut g),
      ap (λ (b : Bucket). b.prev) (store_self x free g'),
    )

pub join-Without : (x : ℕ) (xs ys : List ℕ) → Without x xs → Without x ys → Without x (xs ++ ys)
join-Without x [] ys w w' = w'
join-Without x (a ∷ xs) ys (ne, w) w' = (ne, join-Without x xs ys w w')

-- Removing a bucket leaves the others in their order, and the bucket in no list.
pub ll_remove_item-Chain :
    (h : Heap) (first : Option ℕ) (xs : List ℕ) (x : ℕ) (ys : List ℕ)
    → Chain h first (xs ++ x ∷ ys)
    → Distinct (xs ++ x ∷ ys)
    → let l = ll_remove_item first x h in
      Chain l.heap l.first (xs ++ ys) × ((l.heap x).next ≡ none) × ((l.heap x).prev ≡ none)
unfolding ll_remove_item
ll_remove_item-Chain h first xs x ys chain d =
    let (m, left, (at_x, prev_x, right)) = Run-split h none first xs (x ∷ ys) none chain in
    let (_, apart, (apart', _)) = Distinct-between xs x ys d in
    let left' : Run h none first xs (some x) = rw (← at_x) left in
    let (same, left2, right2) = behind-Run h first xs x ys d left' right in
    let g = unlink_behind x h in
    let right3 : Run g (last_or none xs) (g x).next ys none = rw (same, ← prev_x) right2 in
    let before = unlink_before first x g in
    detached before.heap before.first x (xs ++ ys) (join-Without x xs ys apart apart')
      (before-Run g first xs x ys d left2 (ap (λ (b : Bucket). b.prev) same ∙ prev_x) right3)
