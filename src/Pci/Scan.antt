-- ===== src/Pci/Scan.antt =====
-- The scan of `pci_init` ends, and touches nothing but the ports of the configuration space.
use ma_os.Base.{
  ℕ, zero, suc, ◌+◌, ◌*◌, ◌≤◌, ◌≡◌, refl, ◌∙◌, List, [], ◌∷◌, ok, arith, length, Bool-cases, inl,
  inr, u8, u32, ◌==◌,
}
use ma_os.Machine.{Machine, Io, ◌>>=◌, then_ok, pure, outl, inl as in_long}
use ma_os.Serial.Wait.{outputs}
use ma_os.Console.Output.{AllReady}
use ma_os.Tables.Pic.{Pics, replay}
use ma_os.Pci.Address.{answered}
use ma_os.Pci.{
  config_address, pci_config_read_long, pci_config_read_word, pci_config_read_byte, probe,
  probe_slots, pci_init,
}

-- The interrupt controllers and the variables of the drivers stay as they are, and the answers that
-- are left are the last ones.
pub record Quiet (m m' : Machine) : Type 0 where
  pub handlers : (k : ℕ) → m'.handlers k ≡ m.handlers k
  pub port : m'.active_port ≡ m.active_port
  pub tty : m'.tty ≡ m.tty
  pub clock : m'.ns_since_boot ≡ m.ns_since_boot
  pub ready : AllReady m.answers → AllReady m'.answers
  pub pics : (start : Pics) → replay start (outputs m'.trace) ≡ replay start (outputs m.trace)

Quiet-trans : (m m1 m2 : Machine) → Quiet m m1 → Quiet m1 m2 → Quiet m m2
Quiet-trans m m1 m2 q r = record {
  handlers = λ k. r.handlers k ∙ q.handlers k;
  port = r.port ∙ q.port;
  tty = r.tty ∙ q.tty;
  clock = r.clock ∙ q.clock;
  ready = λ all. r.ready (q.ready all);
  pics = λ start. r.pics start ∙ q.pics start;
}

-- A call that returns when there are `n` answers, and reads at most these.
abbrev pub Reads : {A : Type 0} → ℕ → Io A → Type 0
Reads {A} n run =
    (m : Machine)
    → n ≤ length m.answers
    → (a : A) × (m' : Machine) × (run m ≡ ok (a, m'))
      × (length m.answers ≤ n + length m'.answers)
      × Quiet m m'

Reads-pure : {A : Type 0} (a : A) → Reads 0 (pure a)
Reads-pure a m enough = (
  a,
  m,
  refl,
  omega arith,
  record {
    handlers = λ k. refl;
    port = refl;
    tty = refl;
    clock = refl;
    ready = λ all. all;
    pics = λ start. refl;
  },
)

Reads-then :
    {A B : Type 0} (n k : ℕ) (run : Io A) (next : A → Io B)
    → Reads n run
    → ((a : A) → Reads k (next a))
    → Reads (n + k) (run >>= next)
Reads-then n k run next first second m enough =
    let (a, m1, done, left, quiet) = first m (omega arith) in
    let (b, m2, done', left', quiet') = second a m1 (omega (arith, left)) in
    (
      b,
      m2,
      then_ok run next m done ∙ done',
      omega (arith, left, left'),
      Quiet-trans m m1 m2 quiet quiet',
    )

Reads-more : {A : Type 0} (n k : ℕ) (run : Io A) → n ≤ k → Reads n run → Reads k run
Reads-more n k run le reads m enough =
    let (a, m1, done, left, quiet) = reads m (omega arith) in
    (a, m1, done, omega (arith, left), quiet)

one_answer :
    (bus slot func offset : ℕ) (answers : List ℕ) (m : Machine)
    → m.answers ≡ answers
    → 1 ≤ length answers
    → (a : ℕ) × (m' : Machine) × (pci_config_read_long bus slot func offset m ≡ ok (a, m'))
      × (length answers ≤ 1 + length m'.answers)
      × Quiet m m'
unfolding pci_config_read_long outl in_long
one_answer bus slot func offset [] m e enough = absurd (omega arith)
one_answer bus slot func offset (a ∷ rest) m e enough = (
  u32 a,
  answered (config_address bus slot func offset) (u32 a) rest m,
  rw e refl,
  omega arith,
  record {
    handlers = λ k. refl;
    port = refl;
    tty = refl;
    clock = refl;
    ready = λ all. (rw e at all).1;
    pics = λ start. refl;
  },
)

pci_config_read_long-Reads :
    (bus slot func offset : ℕ) → Reads 1 (pci_config_read_long bus slot func offset)
pci_config_read_long-Reads bus slot func offset m enough =
    one_answer bus slot func offset m.answers m refl enough

pci_config_read_word-Reads :
    (bus slot func offset : ℕ) → Reads 1 (pci_config_read_word bus slot func offset)
unfolding pci_config_read_word
pci_config_read_word-Reads bus slot func offset =
    Reads-then 1 0 (pci_config_read_long bus slot func offset) _
      (pci_config_read_long-Reads bus slot func offset) (λ val. Reads-pure _)

pci_config_read_byte-Reads :
    (bus slot func offset : ℕ) → Reads 1 (pci_config_read_byte bus slot func offset)
unfolding pci_config_read_byte
pci_config_read_byte-Reads bus slot func offset =
    Reads-then 1 0 (pci_config_read_long bus slot func offset) _
      (pci_config_read_long-Reads bus slot func offset) (λ val. Reads-pure _)

probe-Reads : (i : ℕ) → Reads 4 (probe i)
unfolding probe
probe-Reads i =
    Reads-then 1 3 (pci_config_read_word 0 (u8 i) 0 0) _ (pci_config_read_word-Reads 0 (u8 i) 0 0)
      (λ vendor. elim (Bool-cases (vendor == 0xFFFF)) [
        | inl none_there ↦ rw none_there (Reads-more 0 3 (pure tt) (omega arith) (Reads-pure tt))
        | inr there ↦ rw there (
            Reads-then 1 2 (pci_config_read_word 0 (u8 i) 0 2) _
              (pci_config_read_word-Reads 0 (u8 i) 0 2)
              (λ device.
                Reads-then 1 1 (pci_config_read_byte 0 (u8 i) 0 11) _
                  (pci_config_read_byte-Reads 0 (u8 i) 0 11)
                  (λ class_code.
                    Reads-then 1 0 (pci_config_read_byte 0 (u8 i) 0 10) _
                      (pci_config_read_byte-Reads 0 (u8 i) 0 10) (λ subclass. Reads-pure tt))))
      ])

probe_slots-Reads : (count i : ℕ) → Reads (count * 4) (probe_slots count i)
unfolding probe_slots
probe_slots-Reads zero i = Reads-pure tt
probe_slots-Reads (suc count) i =
    let total : suc count * 4 ≡ 4 + count * 4 = omega arith in
    rw total (
      Reads-then 4 (count * 4) (probe i) (λ _. probe_slots count (i + 1)) (probe-Reads i)
        (λ _. probe_slots-Reads count (i + 1)))

-- With an answer for each of at most four reads at each of the 256 numbers that it tries,
-- `pci_init` returns, and leaves the handlers, the screen and the interrupt controllers as they are.
pub pci_init-Reads : Reads 1024 pci_init
unfolding pci_init
pci_init-Reads = probe_slots-Reads 256 0
