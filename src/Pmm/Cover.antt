-- ===== src/Pmm/Cover.antt =====
-- The frames that the levels of the buddy system stand for, and what a change of one bit does.
use ma_os.Base.{
  ℕ, zero, suc, ◌+◌, ◌*◌, ◌/◌, ◌^◌, ◌≤◌, ◌≡◌, ◌∙◌, Bool, true, false, some, List, [], ◌∷◌, Outcome,
  ok, arith, get_elem?, length, length-set, ◌==◌, if◌then◌else◌,
}
use ma_os.Base.{set as set_elem}
use ma_os.Bitset
use ma_os.Bitset.{Bitset}
use ma_os.Bitset.Member
use ma_os.Bitset.Member.{contains, capacity, Updated}
use ma_os.Pmm.{at_level}

abbrev pub weight : Bool → ℕ
weight true = 1
weight false = 0

-- In how many free blocks the frame `f` lies, at the levels from `k` on.
unfoldable pub free_blocks : ℕ → List Bitset → ℕ → ℕ
free_blocks k [] f = 0
free_blocks k (b ∷ bs) f = weight (contains b (f / 2 ^ k)) + free_blocks (suc k) bs f

-- Every level is a bit set of dwords, and has a bit for each of its blocks of the `frames` frames.
abbrev pub Levels : ℕ → ℕ → List Bitset → Type 0
Levels k frames [] = Unit {0}
Levels k frames (b ∷ bs) =
    Member.IsValid b × (capacity b * 2 ^ k ≡ frames) × Levels (suc k) frames bs

pub Levels-get :
    (k m frames : ℕ) (bs : List Bitset) (l : ℕ) {b : Bitset}
    → m ≡ k + l
    → Levels k frames bs
    → get_elem? bs l ≡ some b
    → Member.IsValid b × (capacity b * 2 ^ m ≡ frames)
Levels-get k m frames [] l e v g = absurd (cc)
Levels-get k m frames (c ∷ bs) zero {b} e v g =
    let same : b ≡ c = cc in let level : m ≡ k = omega arith in rw (same, level) (v.0, v.1)
Levels-get k m frames (c ∷ bs) (suc l) e v g = Levels-get (suc k) m frames bs l (omega arith) v.2 g

Levels-set :
    (k frames : ℕ) (bs : List Bitset) (l : ℕ) (b b' : Bitset)
    → Levels k frames bs
    → get_elem? bs l ≡ some b
    → Member.IsValid b'
    → Bitset.len b' ≡ Bitset.len b
    → Levels k frames (set_elem bs l b')
Levels-set k frames [] l b b' v g w e = tt
Levels-set k frames (c ∷ bs) zero b b' v g w e =
    let same : c ≡ b = cc in
    let kept : Bitset.len b' ≡ Bitset.len c = rw (same, e) in (w, rw kept v.1, v.2)
Levels-set k frames (c ∷ bs) (suc l) b b' v g w e =
    (v.0, v.1, Levels-set (suc k) frames bs l b b' v.2 g w e)

-- A free block counts for each of its frames.
pub weight-le-free_blocks :
    (k m : ℕ) (bs : List Bitset) (l : ℕ) (b : Bitset) (f : ℕ)
    → m ≡ k + l
    → get_elem? bs l ≡ some b
    → weight (contains b (f / 2 ^ m)) ≤ free_blocks k bs f
unfolding free_blocks
weight-le-free_blocks k m [] l b f e g = absurd (cc)
weight-le-free_blocks k m (c ∷ bs) zero b f e g =
    let same : b ≡ c = cc in let level : m ≡ k = omega arith in rw (same, level) (omega arith)
weight-le-free_blocks k m (c ∷ bs) (suc l) b f e g =
    omega (arith, weight-le-free_blocks (suc k) m bs l b f (omega arith) g)

-- Replacing the bit set of one level changes the count by the difference of the two bits.
free_blocks-set :
    (k m : ℕ) (bs : List Bitset) (l : ℕ) (b b' : Bitset) (f : ℕ)
    → m ≡ k + l
    → get_elem? bs l ≡ some b
    → free_blocks k (set_elem bs l b') f + weight (contains b (f / 2 ^ m))
      ≡ free_blocks k bs f + weight (contains b' (f / 2 ^ m))
unfolding free_blocks
free_blocks-set k m [] l b b' f e g = absurd (cc)
free_blocks-set k m (c ∷ bs) zero b b' f e g =
    let same : b ≡ c = cc in let level : m ≡ k = omega arith in rw (same, level) (omega arith)
free_blocks-set k m (c ∷ bs) (suc l) b b' f e g =
    omega (arith, free_blocks-set (suc k) m bs l b b' f (omega arith) g)

-- A result with the same levels, in which each frame lies in `value f` free blocks.
pub record Changed (frames : ℕ) (bs : List Bitset) (value : ℕ → ℕ) (result : Outcome (List Bitset))
    : Type 0 where
  pub out : List Bitset
  pub returns : result ≡ ok out
  pub same_length : length out ≡ length bs
  pub levels : Levels 0 frames out
  pub blocks : (f : ℕ) → free_blocks 0 out f ≡ value f

pub Changed-mono :
    {frames : ℕ} {bs : List Bitset} {value value' : ℕ → ℕ} {result : Outcome (List Bitset)}
    → Changed frames bs value result
    → ((f : ℕ) → value f ≡ value' f)
    → Changed frames bs value' result
Changed-mono c e = record {
  out = c.out;
  returns = c.returns;
  same_length = c.same_length;
  levels = c.levels;
  blocks = λ f. c.blocks f ∙ e f;
}

-- The bit of a block whose frames lie in no other free block: setting or clearing it changes
-- the count of exactly those frames.
pub at_level-Changed :
    (frames : ℕ) (bs : List Bitset) (l idx : ℕ) (state : Bool) (b : Bitset)
    (update : Bitset → Outcome Bitset)
    → Levels 0 frames bs
    → get_elem? bs l ≡ some b
    → Updated b idx state (update b)
    → ((f : ℕ) → f / 2 ^ l ≡ idx → free_blocks 0 bs f ≡ weight (contains b idx))
    → Changed frames bs
        (λ f. if f / 2 ^ l == idx then weight state else free_blocks 0 bs f)
        (at_level bs l update)
unfolding at_level
at_level-Changed frames bs l idx state b update v g u alone = record {
  out = set_elem bs l u.out;
  returns = rw (g, u.returns);
  same_length = length-set bs l u.out;
  levels = Levels-set 0 frames bs l b u.out v g u.valid u.len;
  blocks = λ f.
      ground
        (arith, free_blocks-set 0 l bs l b u.out f (omega arith) g, u.member (f / 2 ^ l), alone f);
}
