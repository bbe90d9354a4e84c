-- ===== src/FreeList/Segment.antt =====
-- A run is taken apart and put together, and its two ends are linked anew.
use ma_os.Base.{ℕ, ◌≡◌, refl, sym, ◌≢◌, Option, some, List, [], ◌∷◌, ◌++◌}
use ma_os.FreeList.{Heap, set_next, set_prev}
use ma_os.FreeList.Chain.{Run, Without, Distinct, store_self, store_ne, Run-store}

-- The last bucket of a run, or what `prev` of the first one is.
abbrev pub last_or : Option ℕ → List ℕ → Option ℕ
last_or back [] = back
last_or back (a ∷ xs) = last_or (some a) xs

pub Run-++ :
    (h : Heap) (back p m : Option ℕ) (xs ys : List ℕ) (q : Option ℕ)
    → Run h back p xs m
    → Run h (last_or back xs) m ys q
    → Run h back p (xs ++ ys) q
Run-++ h back p m [] ys q e r = rw e r
Run-++ h back p m (a ∷ xs) ys q (e, e', r) r' = (e, e', Run-++ h (some a) (h a).next m xs ys q r r')

pub Run-split :
    (h : Heap) (back p : Option ℕ) (xs ys : List ℕ) (q : Option ℕ)
    → Run h back p (xs ++ ys) q
    → (m : Option ℕ) × Run h back p xs m × Run h (last_or back xs) m ys q
Run-split h back p [] ys q r = (p, refl, r)
Run-split h back p (a ∷ xs) ys q (e, e', r) =
    let (m, left, right) = Run-split h (some a) (h a).next xs ys q r in (m, (e, e', left), right)

pub Without-++ : (x : ℕ) (xs ys : List ℕ) → Without x (xs ++ ys) → Without x xs × Without x ys
Without-++ x [] ys w = (tt, w)
Without-++ x (a ∷ xs) ys (ne, w) = let (left, right) = Without-++ x xs ys w in ((ne, left), right)

-- The buckets of two parts of a list, and one between them.
pub Distinct-between :
    (xs : List ℕ) (x : ℕ) (ys : List ℕ)
    → Distinct (xs ++ x ∷ ys)
    → Distinct xs × Without x xs × Distinct (x ∷ ys)
Distinct-between [] x ys d = (tt, tt, d)
Distinct-between (a ∷ xs) x ys (w, d) =
    let (left, apart, right) = Distinct-between xs x ys d in
    let (w', (ne, _)) = Without-++ a xs (x ∷ ys) w in ((w', left), (λ e. ne (sym e), apart), right)

pub last_or-ne :
    (a b z : ℕ) (xs : List ℕ) → a ≢ b → Without a xs → last_or (some b) xs ≡ some z → a ≢ z
last_or-ne a b z [] ne w e = λ same. ne cc
last_or-ne a b z (x ∷ xs) ne (ne', w) e = last_or-ne a x z xs ne' w e

pub last_or-some : (a : ℕ) (xs : List ℕ) → (z : ℕ) × (last_or (some a) xs ≡ some z)
last_or-some a [] = (a, refl)
last_or-some a (b ∷ xs) = last_or-some b xs

-- The last bucket of a run is not among those that come behind it.
pub last_or-Without :
    (a : ℕ) (xs : List ℕ) (z : ℕ) (ys : List ℕ)
    → Distinct ((a ∷ xs) ++ ys)
    → last_or (some a) xs ≡ some z
    → Without z ys
last_or-Without a [] z ys (w, d) e = let same : a ≡ z = cc in rw (← same) w
last_or-Without a (b ∷ xs) z ys (w, d) e = last_or-Without b xs z ys d e

-- Writing `next` of the last bucket leads the run to another end.
pub Run-redirect :
    (h : Heap) (back p : Option ℕ) (a : ℕ) (xs : List ℕ) (m : Option ℕ) (z : ℕ) (q : Option ℕ)
    → Distinct (a ∷ xs)
    → last_or (some a) xs ≡ some z
    → Run h back p (a ∷ xs) m
    → Run (set_next z q h) back p (a ∷ xs) q
unfolding set_next
Run-redirect h back p a [] m z q d e (e', e'', r) =
    let same : a ≡ z = cc in rw (← same, store_self a (record (h a) { next = q }) h) (e', e'', refl)
Run-redirect h back p a (b ∷ xs) m z q ((ne, w), d) e (e', e'', r) =
    let other =
      store_ne z (record (h z) { next = q }) h a (λ same. last_or-ne a b z xs ne w e (sym same)) in
    rw other (e', e'', Run-redirect h (some a) (h a).next b xs m z q d e r)

-- Writing `prev` of the first bucket.
pub Run-back :
    (h : Heap) (back back' p : Option ℕ) (a : ℕ) (xs : List ℕ) (q : Option ℕ)
    → Without a xs
    → Run h back p (a ∷ xs) q
    → Run (set_prev a back' h) back' p (a ∷ xs) q
unfolding set_prev
Run-back h back back' p a xs q w (e, e', r) =
    rw (store_self a (record (h a) { prev = back' }) h)
      (e, refl, Run-store a (record (h a) { prev = back' }) h (some a) (h a).next xs q w r)
