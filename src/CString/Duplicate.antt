-- ===== src/CString/Duplicate.antt =====
-- `strlen` and `strdup` of a string that ends.
use ma_os.Base.{
  ℕ, zero, suc, ◌+◌, ◌^◌, ◌≤◌, ◌<◌, ◌≡◌, ◌≢◌, refl, ap, ◌∙◌, ◌⊎◌, true, false, Outcome, ok, arith,
  u32, ◌==◌,
}
use ma_os.CString.{Memory, Placed, strlen_from, strlen, memcpy, duplicate, strdup}
use ma_os.CString.Copy.{Apart, Copied, memcpy-Copied}

-- The first zero at or behind `s` is at `s + n`.
pub record IsString (m : Memory) (s n : ℕ) : Type 0 where
  pub bytes : (k : ℕ) → k < n → m (s + k) ≢ 0
  pub end : m (s + n) ≡ 0

-- From a place in the string on.
strlen_from_lem :
    (rounds s len left : ℕ) (m : Memory)
    → IsString m s (len + left)
    → len + left < 2 ^ 32
    → left < rounds
    → strlen_from rounds s len m ≡ ok (len + left)
unfolding strlen_from
strlen_from_lem zero s len left m string fits enough = absurd (omega arith)
strlen_from_lem (suc rounds) s len zero m string fits enough =
    let here : len + 0 ≡ len = omega arith in
    let end : m (s + len) ≡ 0 = rw here at string.end in rw (end, here) refl
strlen_from_lem (suc rounds) s len (suc left) m string fits enough =
    let byte = string.bytes len (omega arith) in
    let other : (m (s + len) == 0) ≡ false = ground (arith, byte) in
    let next : u32 (len + 1) ≡ len + 1 = omega arith in
    let total : len + suc left ≡ len + 1 + left = omega arith in
    let string' : IsString m s (len + 1 + left) = rw total at string in
    rw (other, next, total)
      (strlen_from_lem rounds s (len + 1) left m string' (omega arith) (omega arith))

-- A block that is copied whole holds the same string.
Copied-IsString :
    (d s n : ℕ) (m m' : Memory) → Copied d s (n + 1) m m' → IsString m s n → IsString m' d n
Copied-IsString d s n m m' (copied, kept) string = record {
  bytes = λ k h. rw (copied k (omega arith)) (string.bytes k h);
  end = copied n (omega arith) ∙ string.end;
}

-- What `strdup` returns, where `malloc` returned `dest`.
pub record Duplicates (s n : ℕ) (m : Memory) (dest : Placed) (r : Outcome Placed) : Type 0 where
  pub refused : dest.pointer ≡ 0 → r ≡ ok record { pointer = 0; memory = dest.memory }
  pub copied :
      dest.pointer ≢ 0
      → (m' : Memory) × (r ≡ ok record { pointer = dest.pointer; memory = m' })
        × IsString m' dest.pointer n
        × ((k : ℕ) → k ≤ n → m' (dest.pointer + k) ≡ m (s + k))
        × ((x : ℕ) → (x < dest.pointer) ⊎ (dest.pointer + (n + 1) ≤ x) → m' x ≡ dest.memory x)

-- `strdup` of a string of less than 2 ^ 32 - 1 bytes returns, with NULL if `malloc` gives no memory,
-- and otherwise a new string with the same bytes, where nothing outside the new block is changed.
-- `malloc` is asked for room for the string and its end; it leaves both as they are, and gives no
-- memory that overlaps them.
pub strdup-Duplicates :
    (malloc : ℕ → Memory → Placed) (rounds s n : ℕ) (m : Memory)
    → IsString m s n
    → n + 1 < 2 ^ 32
    → n < rounds
    → ((k : ℕ) → k ≤ n → (malloc (n + 1) m).memory (s + k) ≡ m (s + k))
    → ((malloc (n + 1) m).pointer ≢ 0 → Apart (malloc (n + 1) m).pointer s (n + 1))
    → Duplicates s n m (malloc (n + 1) m) (strdup malloc rounds s m)
unfolding strdup strlen duplicate
strdup-Duplicates malloc rounds s n m string fits enough kept apart =
    let dest = malloc (n + 1) m in
    let none_on : 0 + n ≡ n = omega arith in
    let string' : IsString m s (0 + n) = rw none_on string in
    let found : strlen_from rounds s 0 m ≡ ok n =
      strlen_from_lem rounds s 0 n m string' (omega arith) enough ∙ ap (λ (t : ℕ). ok t) none_on in
    let size : u32 (n + 1) ≡ n + 1 = omega arith in
    let there : IsString dest.memory s n = record {
      bytes = λ k h. rw (kept k (omega arith)) (string.bytes k h);
      end = kept n (omega arith) ∙ string.end;
    } in
    record {
      refused = λ e.
          let null : (dest.pointer == 0) ≡ true = ground (arith, e) in rw (found, size, null) refl;
      copied = λ ne.
          let given : (dest.pointer == 0) ≡ false = ground (arith, ne) in
          let done = memcpy-Copied dest.pointer s (n + 1) dest.memory fits (apart ne) in
          (
            memcpy dest.pointer s (n + 1) dest.memory,
            rw (found, size, given) refl,
            Copied-IsString dest.pointer s n dest.memory (memcpy dest.pointer s (n + 1) dest.memory)
                done there,
            λ k h. done.0 k (omega arith) ∙ kept k h,
            done.1,
          );
    }
