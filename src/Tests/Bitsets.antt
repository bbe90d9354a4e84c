-- ===== src/Tests/Bitsets.antt =====
-- bitset.c on a set of two dwords.
use ma_os.Base.{◌≡◌, refl, true, some, ok, fault, [], ◌∷◌, arith}
use ma_os.Bitset
use ma_os.Bitset.{Bitset}
use ma_os.Bitset.Member.{IsValid}
use ma_os.Bitset.Find.{IsLeast, find-IsLeast}

-- The indices 5 and 33 of 64.
abbrev two : Bitset
two = record { address = 0x1000; dwords = 32 ∷ 2 ∷ [] }

runs :
    (Bitset.find two ≡ some 5)
    × (Bitset.read two 33 ≡ ok true)
    × (Bitset.clear two 5 ≡ ok (record { address = 0x1000; dwords = 0 ∷ 2 ∷ [] }))
    × (Bitset.set two 63 ≡ ok (record { address = 0x1000; dwords = 32 ∷ 0x80000002 ∷ [] }))
    × (Bitset.set two 64 ≡ fault)
unfolding Bitset.find Bitset.find_from Bitset.find_bit Bitset.read Bitset.clear Bitset.set
runs = (refl, refl, refl, refl, refl)

two-IsValid : IsValid two
two-IsValid = omega arith

find-IsLeast_example : IsLeast two (Bitset.find two)
find-IsLeast_example = find-IsLeast two (omega arith)
