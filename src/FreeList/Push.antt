-- ===== src/FreeList/Push.antt =====
-- `ll_push_item` and `ll_pop_item` on a list.
use ma_os.Base.{
  ℕ, ◌≡◌, refl, sym, ap, ◌∙◌, ◌≢◌, Option, none, some, List, [], ◌∷◌, ok, panic, ◌>>=◌,
}
use ma_os.FreeList.{Bucket, Heap, store, set_next, set_prev, Links, ll_push_item, ll_pop_item}
use ma_os.FreeList.Chain.{Run, Chain, Distinct, store_self, store_ne, Run-store}

-- Pushing a bucket that is in no list puts it in front of the list.
pub ll_push_item-Chain :
    (h : Heap) (first : Option ℕ) (item : ℕ) (xs : List ℕ)
    → Chain h first xs
    → Distinct (item ∷ xs)
    → (h item).prev ≡ none
    → (h item).next ≡ none
    → (l : Links) × (ll_push_item first item h ≡ ok l) × Chain l.heap l.first (item ∷ xs)
unfolding ll_push_item set_next set_prev
ll_push_item-Chain h first item [] chain distinct no_prev no_next =
    rw (chain, no_prev, no_next) (_, refl, (refl, no_prev, no_next))
ll_push_item-Chain h first item (a ∷ xs) (at_a, prev_a, rest) ((ne, w), (w', d)) no_prev no_next =
    let back = record (h a) { prev = some item } in
    let linked = store a back h in
    let front = record (linked item) { next = some a } in
    let item_kept : linked item ≡ h item = store_ne a back h item (λ e. ne (sym e)) in
    let rest' : Run (store item front linked) (some a) (h a).next xs none =
      Run-store item front linked (some a) (h a).next xs none w
        (Run-store a back h (some a) (h a).next xs none w' rest) in
    let at_item : store item front linked item ≡ front = store_self item front linked in
    let at_second : store item front linked a ≡ back =
      store_ne item front linked a ne ∙ store_self a back h in
    rw (at_a, no_prev, no_next)
      (
        _,
        refl,
        (
          refl,
          ap (λ (x : Bucket). x.prev) at_item ∙ ap (λ (x : Bucket). x.prev) item_kept ∙ no_prev,
          (
            ap (λ (x : Bucket). x.next) at_item,
            ap (λ (x : Bucket). x.prev) at_second,
            rw at_second rest',
          ),
        ),
      )

pop_refused : (h : Heap) (b a : ℕ) → (h b).prev ≡ some a → ll_pop_item (some b) h ≡ panic
unfolding ll_pop_item
pop_refused h b a e = rw e refl

-- A second pop is refused: the first one leaves `prev` of the new first bucket as it is.
pub pop-pop_panic :
    (h : Heap) (first : Option ℕ) (a b : ℕ) (xs : List ℕ)
    → Chain h first (a ∷ b ∷ xs)
    → a ≢ b
    → (ll_pop_item first h >>= λ p. ll_pop_item p.first p.heap) ≡ panic
unfolding ll_pop_item set_next
pop-pop_panic h first a b xs (at_a, prev_a, (at_b, prev_b, rest)) ne =
    let cut : Bucket = record {
      pageno = (h a).pageno;
      size = (h a).size;
      next = none;
      prev = none;
    } in
    rw (at_a, prev_a, at_b)
      (pop_refused (store a cut h) b a
        (ap (λ (x : Bucket). x.prev) (store_ne a cut h b ne) ∙ prev_b))
