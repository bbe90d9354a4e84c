-- ===== src/FreeList/Chain.antt =====
-- What it means that a pointer leads to a doubly linked list, and which writes keep it so.
use ma_os.Base.{
  ℕ, ◌≡◌, refl, ◌≢◌, Option, none, some, List, [], ◌∷◌, ==_iff, ◌==◌, Bool-cases, inl, inr,
}
use ma_os.FreeList.{Bucket, Heap, store}

-- From `p` on, `next` leads through the buckets `xs` to the pointer `q`; `prev` leads back, and
-- that of the first bucket is `back`.
abbrev pub Run : Heap → Option ℕ → Option ℕ → List ℕ → Option ℕ → Type 0
Run h back p [] q = p ≡ q
Run h back p (a ∷ xs) q = (p ≡ some a) × ((h a).prev ≡ back) × Run h (some a) (h a).next xs q

-- `first` is a list with the buckets `xs`.
abbrev pub Chain : Heap → Option ℕ → List ℕ → Type 0
Chain h first xs = Run h none first xs none

abbrev pub Without : ℕ → List ℕ → Type 0
Without a [] = Unit
Without a (b ∷ bs) = (a ≢ b) × Without a bs

abbrev pub Distinct : List ℕ → Type 0
Distinct [] = Unit
Distinct (a ∷ xs) = Without a xs × Distinct xs

pub store_self : (a : ℕ) (b : Bucket) (h : Heap) → store a b h a ≡ b
unfolding store
store_self a b h = rw ((==_iff a a).1 refl) refl

pub store_ne : (a : ℕ) (b : Bucket) (h : Heap) (x : ℕ) → a ≢ x → store a b h x ≡ h x
unfolding store
store_ne a b h x ne = elim (Bool-cases (a == x)) [
  | inl e ↦ absurd (ne ((==_iff a x).0 e))
  | inr e ↦ rw e refl
]

pub Run-store :
    (a : ℕ) (b : Bucket) (h : Heap) (back p : Option ℕ) (xs : List ℕ) (q : Option ℕ)
    → Without a xs
    → Run h back p xs q
    → Run (store a b h) back p xs q
Run-store a b h back p [] q w r = r
Run-store a b h back p (y ∷ xs) q (ne, w) (e, e', r) =
    rw (store_ne a b h y ne) (e, e', Run-store a b h (some y) (h y).next xs q w r)
