-- ===== src/Tests/Frames.antt =====
-- pmm.c on 16 MiB of memory, of which the kernel takes the first.
use ma_os.Base.{
  ℕ, zero, suc, ◌+◌, ◌*◌, ◌/◌, ◌^◌, ◌≡◌, refl, sym, ap, ◌∙◌, ◌⊎◌, inl, inr, some, List, [], ◌∷◌, ok,
  fault, ok-injective, arith, ltb, if◌then◌else◌,
}
use mathlib.Core.Path.{subst}
use ma_os.Bitset
use ma_os.Bitset.{Bitset}
use ma_os.Pmm
use ma_os.Pmm.{Pmm, Allocation, e_ok, e_nomem, log2, log2_loop}
use ma_os.Pmm.Cover.{free_blocks, Changed}
use ma_os.Pmm.Mark.{taken, IsTaken, mark_used-Changed}
use ma_os.Pmm.History.{IsShared, Returns, give, begun, called, allocated}
use ma_os.Pmm.History.Partition.{Reaches-Sound}
use ma_os.Pmm.Managed.{IsManaged, Granted, Refused}
use ma_os.Pmm.Alloc.{alloc-result}
use ma_os.Pmm.Free.{Released, Restored, frame_of, free-result, alloc-free}
use ma_os.Pmm.Oversize.{alloc-fault}
use ma_os.Pmm.Init.{Initialised, init-Initialised}

abbrev zeros : ℕ → List ℕ
zeros zero = []
zeros (suc n) = 0 ∷ zeros n

abbrev level : ℕ → List ℕ → Bitset
level address items = record { address = address; dwords = items }

-- The buddies with the given first dword at each level, and no other free block.
abbrev state : (a b c d e f g : ℕ) → Pmm
state a b c d e f g = record {
  managed_first = 0x101000;
  managed_last = 0x1000000;
  buddies =
      level 0xC0100000 (a ∷ zeros 63)
      ∷ level 0xC0100100 (b ∷ zeros 31)
      ∷ level 0xC0100180 (c ∷ zeros 15)
      ∷ level 0xC01001C0 (d ∷ zeros 7)
      ∷ level 0xC01001E0 (e ∷ zeros 3)
      ∷ level 0xC01001F0 (f ∷ zeros 1)
      ∷ level 0xC01001F8 (g ∷ [])
      ∷ [];
  buddy_base = 0x101000;
}

abbrev pub fresh : Pmm
fresh = state 0 0 0 0 0 0 0xFFFFFFFF

boot : Pmm.init (λ _. 0xABCD) 0x100000 0x1000000 ≡ ok fresh
unfolding Pmm.init Pmm.estimate_bytes_required Pmm.page_align Pmm.align_bits_up Pmm.align_bits_down
    Pmm.mask Pmm.phys2virtual Pmm.lay_out Pmm.dwords_at Pmm.fill_levels Bitset.fill
boot = refl

init-Initialised_example :
    Initialised 0x100000 0x1000000 (Pmm.init (λ _. 0xABCD) 0x100000 0x1000000)
init-Initialised_example =
    init-Initialised (λ _. 0xABCD) 0x100000 0x1000000 (omega arith) (omega arith) (omega arith)
      (omega arith)

booted : Initialised 0x100000 0x1000000 (Pmm.init (λ _. 0xABCD) 0x100000 0x1000000)
booted =
    init-Initialised (λ _. 0xABCD) 0x100000 0x1000000 (omega arith) (omega arith) (omega arith)
      (omega arith)

booted-fresh : booted.out ≡ fresh
booted-fresh = ok-injective (sym booted.returns ∙ boot)

pub fresh-IsManaged : IsManaged 2048 fresh
fresh-IsManaged = subst (IsManaged 2048) booted-fresh booted.managed

fresh-free : (f : ℕ) → free_blocks 0 fresh.buddies f ≡ (if ltb f 2048 then 1 else 0)
fresh-free f =
    subst (λ (p : Pmm). free_blocks 0 p.buddies f ≡ (if ltb f 2048 then 1 else 0)) booted-fresh
      (booted.all_free f)

-- The state after the first four frames are taken.
abbrev pub four_used : Pmm
four_used = state 0 0 2 2 2 2 0xFFFFFFFE

four : Pmm.alloc 4 fresh ≡ ok (record { pmm = four_used; err = e_ok; addr = 0x101000 })
unfolding Pmm.alloc Pmm.alloc_buddy Pmm.alloc_from Pmm.take_block Pmm.at_level Pmm.mark_used
    Pmm.log2 Pmm.log2_loop Bitset.find Bitset.find_from Bitset.find_bit Bitset.clear Bitset.set
four = refl

four_back : Pmm.free 4 0x101000 four_used ≡ ok (state 0 0 3 2 2 2 0xFFFFFFFE)
unfolding Pmm.free Pmm.at_level Pmm.log2 Pmm.log2_loop Bitset.set
four_back = refl

pub log2_four : log2 4 ≡ 2
unfolding log2 log2_loop
log2_four = refl

alloc-result_example :
    Granted 2048 (log2 4) 4 fresh (Pmm.alloc 4 fresh) ⊎ Refused (log2 4) fresh (Pmm.alloc 4 fresh)
alloc-result_example = alloc-result 2048 fresh fresh-IsManaged 4 (rw log2_four (omega arith))

alloc-free_example : Restored 2048 fresh (Pmm.free 4 0x101000 four_used)
alloc-free_example =
    alloc-free 2048 fresh 4 (rw log2_four (omega arith)) (omega arith) fresh-IsManaged
      (record { pmm = four_used; err = e_ok; addr = 0x101000 }) four refl

four_granted : Granted 2048 2 4 fresh (Pmm.alloc 4 fresh)
four_granted = elim (alloc-result 2048 fresh fresh-IsManaged 4 (rw log2_four (omega arith))) [
  | inl g ↦ rw log2_four at g
  | inr r ↦
      let same = ok-injective (sym four ∙ r.returns) in
      let failed : e_ok ≡ e_nomem = ap (λ (c : Allocation). c.err) same in absurd (cc)
]

four_out : four_granted.out ≡ four_used
four_out = ap (λ (c : Allocation). c.pmm) (ok-injective (sym four_granted.returns ∙ four))

four_index : four_granted.index ≡ 0
four_index =
    let address : 0x101000 + 4096 * (four_granted.index * 2 ^ 2) ≡ 0x101000 =
      ap (λ (c : Allocation). c.addr) (ok-injective (sym four_granted.returns ∙ four)) in
    omega arith

pub four_used-IsManaged : IsManaged 2048 four_used
four_used-IsManaged = subst (IsManaged 2048) four_out four_granted.managed

pub four_used-IsTaken : IsTaken four_used.buddies 2 0
four_used-IsTaken f e =
    subst (λ (p : Pmm). free_blocks 0 p.buddies f ≡ 0) four_out
      (ground (arith, four_granted.blocks f, four_index))

mark_used-Changed_example :
    Changed 2048 four_used.buddies
      (taken four_used.buddies 2 1 0)
      (Pmm.mark_used 2 1 0 four_used.buddies)
mark_used-Changed_example =
    mark_used-Changed 2048 2 1 0 four_used.buddies (omega arith) four_used-IsManaged.levels
      (omega arith) (omega arith) (omega arith) four_used-IsTaken

free-result_example :
    Released 2048
      (log2 4)
      (frame_of four_used 0x101000 / 2 ^ log2 4)
      four_used
      (Pmm.free 4 0x101000 four_used)
free-result_example =
    free-result 2048 four_used four_used-IsManaged 4 0x101000 (omega arith)
      (rw log2_four (omega arith)) (rw log2_four (omega arith)) (rw log2_four four_used-IsTaken)

-- One block of two frames is free.
abbrev pair_free : Pmm
pair_free = state 0 1 0 0 0 0 0

log2_three : log2 3 ≡ 1
unfolding log2 log2_loop
log2_three = refl

pair_found : Bitset.find (level 0xC0100100 (1 ∷ zeros 31)) ≡ some 0
unfolding Bitset.find Bitset.find_from Bitset.find_bit
pair_found = refl

alloc-fault_example : Pmm.alloc 3 pair_free ≡ fault
alloc-fault_example =
    alloc-fault 3 0 pair_free (level 0xC0100100 (1 ∷ zeros 31)) (rw log2_three (omega arith))
      (rw log2_three (omega arith)) (rw log2_three refl) pair_found

-- Four frames are taken, and given back.
Reaches-Sound_example :
    IsShared 2048 0x101000
      record { pmm = four_used; held = record { addr = 0x101000; count = 4 } ∷ [] }
    × Returns
        record { pmm = four_used; held = record { addr = 0x101000; count = 4 } ∷ [] }
        (give [] record { addr = 0x101000; count = 4 } [] refl)
Reaches-Sound_example =
    Reaches-Sound 2048 fresh
      record { pmm = four_used; held = record { addr = 0x101000; count = 4 } ∷ [] } fresh-IsManaged
      fresh-free
      (called record { pmm = fresh; held = [] }
        record { pmm = four_used; held = record { addr = 0x101000; count = 4 } ∷ [] } begun
        (allocated 4 fresh four_used 0x101000 [] (rw log2_four (omega arith)) (omega arith) four))
      (give [] record { addr = 0x101000; count = 4 } [] refl)
