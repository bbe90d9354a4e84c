-- ===== src/Pmm/History.antt =====
-- The physical memory manager and those who use it: who has which frames, over any sequence of calls.
pub mod Partition
use ma_os.Base.{
  ℕ, ◌+◌, ◌-◌, ◌*◌, ◌/◌, ◌^◌, ◌≤◌, ◌<◌, ◌≡◌, refl, sym, ap, ◌∙◌, ◌⊎◌, inl, inr, List, [], ◌∷◌, ◌++◌,
  Outcome, ok, ok-injective, arith, ltb, ◌==◌, if◌then◌else◌, dec_lt,
}
use mathlib.Core.Path.{subst}
use native.Mathlib.Nat.{one-le-pow, pow-le-pow_right, mul-div_cancel}
use ma_os.Pmm.{Pmm, Allocation, Err, e_ok, e_nomem, page_size, alloc, free, log2}
use ma_os.Pmm.Cover.{free_blocks}
use ma_os.Pmm.Mark.{IsTaken, block_bounds, block_index}
use ma_os.Pmm.Managed.{IsManaged, within, Granted, Refused}
use ma_os.Pmm.Alloc.{alloc-result}
use ma_os.Pmm.Free.{Released, frame_of, free-result, granted-block, low_level}

-- `count` frames that `pmm_alloc` has returned at `addr`.
pub record Holding : Type 0 where
  pub addr : ℕ
  pub count : ℕ

-- The allocator, and what its users hold.
pub record Shared : Type 0 where
  pub pmm : Pmm
  pub held : List Holding

-- A call of `pmm_alloc` for 1, 2, 4 ... or 64 frames, or a call of `pmm_free` with what one of them
-- has returned.
pub data Call : Shared → Shared → Type 0 where
  allocated :
      (n : ℕ) (p p' : Pmm) (addr : ℕ) (held : List Holding)
      → n ≡ 2 ^ log2 n
      → n ≤ 64
      → alloc n p ≡ ok record { pmm = p'; err = e_ok; addr = addr }
      → Call
          record { pmm = p; held = held }
          record { pmm = p'; held = record { addr = addr; count = n } ∷ held }
  refused :
      (n : ℕ) (p p' : Pmm) (addr : ℕ) (held : List Holding)
      → n ≡ 2 ^ log2 n
      → n ≤ 64
      → alloc n p ≡ ok record { pmm = p'; err = e_nomem; addr = addr }
      → Call record { pmm = p; held = held } record { pmm = p'; held = held }
  freed :
      (p p' : Pmm) (ls : List Holding) (h : Holding) (rs : List Holding)
      → free h.count h.addr p ≡ ok p'
      → Call record { pmm = p; held = ls ++ h ∷ rs } record { pmm = p'; held = ls ++ rs }

-- The states after any number of calls.
pub data Reaches (start : Shared) : Shared → Type 0 where
  begun : Reaches start start
  called : (s s' : Shared) → Reaches start s → Call s s' → Reaches start s'

-- Whether a holding has frame `f`, and the number of holdings that have it.
abbrev pub has : ℕ → Holding → ℕ → ℕ
has base h f = if within ((h.addr - base) / page_size) h.count f then 1 else 0

abbrev pub holders : ℕ → List Holding → ℕ → ℕ
holders base [] f = 0
holders base (h ∷ hs) f = has base h f + holders base hs f

-- A holding is an aligned block of the managed frames.
pub record IsHolding (frames base : ℕ) (h : Holding) : Type 0 where
  pub power : h.count ≡ 2 ^ log2 h.count
  pub small : h.count ≤ 64
  pub index : ℕ
  pub at : h.addr ≡ base + page_size * (index * 2 ^ log2 h.count)
  pub in_range : index * 2 ^ log2 h.count + h.count ≤ frames

abbrev pub AllHoldings : ℕ → ℕ → List Holding → Type 0
AllHoldings frames base [] = Unit
AllHoldings frames base (h ∷ hs) = IsHolding frames base h × AllHoldings frames base hs

-- Each managed frame is free or has exactly one holder, and no other frame is either.
pub record IsShared (frames base : ℕ) (s : Shared) : Type 0 where
  pub managed : IsManaged frames s.pmm
  pub same_base : s.pmm.buddy_base ≡ base
  pub holdings : AllHoldings frames base s.held
  pub partition :
      (f : ℕ)
      → free_blocks 0 s.pmm.buddies f + holders base s.held f ≡ (if ltb f frames then 1 else 0)

-- The next call: frames that are wanted, or a holding that is given back.
pub data Request (s : Shared) : Type 0 where
  want : (n : ℕ) → n ≡ 2 ^ log2 n → n ≤ 64 → Request s
  give : (ls : List Holding) (h : Holding) (rs : List Holding) → s.held ≡ ls ++ h ∷ rs → Request s

abbrev pub Returns : (s : Shared) → Request s → Type 0
Returns s (want n power small) = (a : Allocation) × (alloc n s.pmm ≡ ok a)
Returns s (give ls h rs e) = (p : Pmm) × (free h.count h.addr s.pmm ≡ ok p)
