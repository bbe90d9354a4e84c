-- ===== src/Pmm/Oversize.antt =====
-- `pmm_alloc` of a number of frames that is no power of two: the search begins at a level whose
-- blocks are too small.
use ma_os.Base.{
  ℕ, zero, suc, ◌+◌, ◌-◌, ◌*◌, ◌^◌, ◌<◌, ◌≡◌, refl, ap, ◌∙◌, false, some, List, Outcome, ok, panic,
  fault, unfinished, Option, none, Bool, true, access, ◌>>=◌, arith, get_elem?, ◌==◌, ltb,
  if◌then◌else◌, min, u32, ◌<<<◌,
}
use native.Mathlib.Nat.{pow-suc, one-le-pow}
use ma_os.Bitset
use ma_os.Bitset.{Bitset, bit_slot}
use ma_os.Pmm.Alloc.{at_found, alloc_from-suc}
use ma_os.Pmm.{
  Pmm, pmm_num_buddies, at_level, mark_used, take_block, alloc_from, alloc_buddy, alloc, log2,
}

-- Neither a panic nor a loop that goes on.
abbrev Settles : {A : Type 0} → Outcome A → Type 0
Settles (ok a) = Unit
Settles panic = ⊥
Settles fault = Unit
Settles unfinished = ⊥

bind-Settles :
    {A B : Type 0} (m : Outcome A) (k : A → Outcome B)
    → Settles m
    → ((a : A) → Settles (k a))
    → Settles (m >>= k)
bind-Settles (ok a) k h g = g a
bind-Settles panic k h g = absurd h
bind-Settles fault k h g = tt
bind-Settles unfinished k h g = absurd h

if-Settles :
    {A : Type 0} (b : Bool) (m n : Outcome A) → Settles m → Settles n → Settles (if b then m else n)
if-Settles true m n h g = h
if-Settles false m n h g = g

-- A step after which the second call cannot go on.
bind-fault :
    {A B : Type 0} (m : Outcome A) (k : A → Outcome B)
    → Settles m
    → ((a : A) → k a ≡ fault)
    → (m >>= k) ≡ fault
bind-fault (ok a) k h g = g a
bind-fault panic k h g = absurd h
bind-fault fault k h g = refl
bind-fault unfinished k h g = absurd h

access-Settles :
    {A B : Type 0} (o : Option A) (k : A → Outcome B)
    → ((a : A) → Settles (k a))
    → Settles (access o >>= k)
access-Settles none k h = tt
access-Settles (some a) k h = h a

at_level-Settles :
    (bs : List Bitset) (l : ℕ) (update : Bitset → Outcome Bitset)
    → ((b : Bitset) → Settles (update b))
    → Settles (at_level bs l update)
unfolding at_level
at_level-Settles bs l update h =
    access-Settles (get_elem? bs l) _ (λ b. bind-Settles (update b) _ (h b) (λ b'. tt))

clear-Settles : (bs : List Bitset) (l idx : ℕ) → Settles (at_level bs l (λ b. Bitset.clear b idx))
unfolding Bitset.clear
clear-Settles bs l idx =
    at_level-Settles bs l (λ b. Bitset.clear b idx)
      (λ b. access-Settles (get_elem? b.dwords (bit_slot idx)) _ (λ item. tt))

set-Settles : (bs : List Bitset) (l idx : ℕ) → Settles (at_level bs l (λ b. Bitset.set b idx))
unfolding Bitset.set
set-Settles bs l idx =
    at_level-Settles bs l (λ b. Bitset.set b idx)
      (λ b. access-Settles (get_elem? b.dwords (bit_slot idx)) _ (λ item. tt))

mark_used-Settles : (level n idx : ℕ) (bs : List Bitset) → Settles (mark_used level n idx bs)
unfolding mark_used
mark_used-Settles zero n idx bs =
    if-Settles (n == 1) _ _ (clear-Settles bs 0 idx)
      (if-Settles (n == 0) _ fault (set-Settles bs 0 idx) tt)
mark_used-Settles (suc level) n idx bs =
    let rest = if ltb (1 <<< level) n then n - (1 <<< level) else 0 in
    let halves : Settles (
        mark_used level (min n (1 <<< level)) (u32 (idx * 2)) bs
        >>= mark_used level rest (u32 (idx * 2 + 1))) =
      bind-Settles _ (mark_used level rest (u32 (idx * 2 + 1)))
        (mark_used-Settles level (min n (1 <<< level)) (u32 (idx * 2)) bs)
        (mark_used-Settles level rest (u32 (idx * 2 + 1))) in
    if-Settles (n == 1 <<< suc level) _ _ (clear-Settles bs (suc level) idx)
      (if-Settles (n == 0) _ _ (set-Settles bs (suc level) idx) halves)

-- More frames than the block has lead to level -1.
mark_used-fault :
    (level n idx : ℕ) (bs : List Bitset) → 2 ^ level < n → mark_used level n idx bs ≡ fault
unfolding mark_used
mark_used-fault zero n idx bs h = ground arith
mark_used-fault (suc level) n idx bs h =
    let wide : 2 ^ suc level ≡ 2 ^ level * 2 = pow-suc 2 level in
    let rest : (if ltb (1 <<< level) n then n - (1 <<< level) else 0) ≡ n - 2 ^ level =
      ground arith in
    let left = mark_used level (min n (1 <<< level)) (u32 (idx * 2)) bs in
    let halves : (left >>= mark_used level (n - 2 ^ level) (u32 (idx * 2 + 1))) ≡ fault =
      bind-fault left (mark_used level (n - 2 ^ level) (u32 (idx * 2 + 1)))
        (mark_used-Settles level (min n (1 <<< level)) (u32 (idx * 2)) bs)
        (λ a. mark_used-fault level (n - 2 ^ level) (u32 (idx * 2 + 1)) a (omega arith)) in
    let full : (n == 1 <<< suc level) ≡ false = ground (arith, one-le-pow level 2) in
    let empty : (n == 0) ≡ false = ground arith in rw (full, empty, rest, halves)

take_block-fault : (level n idx : ℕ) (p : Pmm) → 2 ^ level < n → take_block level n idx p ≡ fault
unfolding take_block
take_block-fault level n idx p over =
    bind-fault (at_level p.buddies level (λ c. Bitset.clear c idx)) _
      (clear-Settles p.buddies level idx) (λ c. rw (mark_used-fault level n idx c over))

-- With a free block at the level where the search starts, a request for more frames than the
-- block has never returns: it runs into undefined behaviour.
pub alloc-fault :
    (n idx : ℕ) (p : Pmm) (b : Bitset)
    → 2 ^ log2 n < n
    → log2 n < pmm_num_buddies
    → get_elem? p.buddies (log2 n) ≡ some b
    → Bitset.find b ≡ some idx
    → alloc n p ≡ fault
unfolding alloc alloc_buddy
alloc-fault n idx p b over low g found =
    let rounds : 7 - log2 n ≡ suc (7 - log2 n - 1) = omega arith in
    let next = alloc_from (7 - log2 n - 1) (log2 n + 1) n p in
    rw rounds (
      alloc_from-suc (7 - log2 n - 1) (log2 n) n p b g
      ∙ ap (at_found (log2 n) n p next) found
      ∙ take_block-fault (log2 n) n idx p over)
