-- ===== src/Pmm/Managed.antt =====
-- What holds of the allocator between its operations, and the two ways in which an allocation ends.
use ma_os.Base.{
  ℕ, ◌+◌, ◌*◌, ◌^◌, ◌≤◌, ◌<◌, ◌≡◌, ◌&&◌, Bool, false, some, Outcome, ok, get_elem?, length, leb,
  ltb, if◌then◌else◌,
}
use ma_os.Bitset.{Bitset}
use ma_os.Bitset.Member.{contains}
use ma_os.Pmm.{Pmm, Allocation, e_ok, e_nomem, page_size, pmm_num_buddies}
use ma_os.Pmm.Cover.{free_blocks, Levels}

-- The seven levels describe the same `frames` frames, whose addresses are below 2 ^ 32, and no
-- frame lies in two free blocks.
pub record IsManaged (frames : ℕ) (p : Pmm) : Type 0 where
  pub count : length p.buddies ≡ pmm_num_buddies
  pub levels : Levels 0 frames p.buddies
  pub single : (f : ℕ) → free_blocks 0 p.buddies f ≤ 1
  pub addressable : p.buddy_base + page_size * frames ≤ 2 ^ 32

abbrev pub IsFree : Pmm → ℕ → Type 0
IsFree p f = free_blocks 0 p.buddies f ≡ 1

-- Whether `f` is one of the `n` frames from `first` on.
abbrev pub within : ℕ → ℕ → ℕ → Bool
within first n f = leb first f && ltb f (first + n)

-- The `n` frames from `first` on, which is a multiple of 2 ^ level, were free and are not any
-- more; no other frame changes.
pub record Granted (frames level n : ℕ) (p : Pmm) (result : Outcome Allocation) : Type 0 where
  pub out : Pmm
  pub index : ℕ
  pub returns :
      result
      ≡ ok record { pmm = out; err = e_ok; addr = p.buddy_base + page_size * (index * 2 ^ level) }
  pub managed : IsManaged frames out
  pub same_base : out.buddy_base ≡ p.buddy_base
  pub in_range : index * 2 ^ level + n ≤ frames
  pub was_free : (f : ℕ) → index * 2 ^ level ≤ f → f < index * 2 ^ level + n → IsFree p f
  pub blocks :
      (f : ℕ)
      → free_blocks 0 out.buddies f
        ≡ (if within (index * 2 ^ level) n f then 0 else free_blocks 0 p.buddies f)

-- Nothing changes, since no level from `level` on has a free block.
pub record Refused (level : ℕ) (p : Pmm) (result : Outcome Allocation) : Type 0 where
  pub returns : result ≡ ok record { pmm = p; err = e_nomem; addr = 0 }
  pub no_block :
      (l j : ℕ) (b : Bitset) → level ≤ l → get_elem? p.buddies l ≡ some b → contains b j ≡ false
