-- ===== src/Gfx/Enable.antt =====
-- `gfx_init` maps the frame buffer and fills it, leaves all as it is, or faults behind the last
-- whole page.
use ma_os.Base.{
  ℕ, ◌+◌, ◌*◌, ◌/◌, ◌%◌, ◌^◌, ◌≤◌, ◌<◌, ◌≡◌, ◌≢◌, refl, ◌⊎◌, inl, inr, Bool, true, false, Outcome,
  ok, panic, arith, bit_and, Bool-cases, ◌==◌, ==_iff, u32, suc, ◌-◌, ◌∙◌, none, some, Option-cases,
  ℕ_discrete, dec_lt,
}
use ma_os.Base.Bits.{bit, bit_and-two_pow}
use ma_os.Paging.{AddressSpace, dir_index}
use ma_os.Paging.Translate.{translate, TablesApart}
use ma_os.Paging.Dma.{IsBacked, MapsRange, same_page, vm_dma-MapsRange}
use ma_os.Paging.Touch.{pages_over, touch_range, IsMapped, touch-panic, touch_range-ok}
use ma_os.CString.{memset}
use ma_os.CString.Fill.{Filled, memset-Filled}
use ma_os.Vm.Boot.{HasKernelTables}
use ma_os.Gfx.{Multiboot, Gfx, mb_flag_framebuffer, fb_size_of, gfx_init}

-- The size of the frame buffer in bytes.
abbrev pub bytes_of : Multiboot → ℕ
bytes_of mb = mb.framebuffer_width * mb.framebuffer_height * mb.framebuffer_bpp / 8

-- The loader has set up a frame buffer of pixels.
abbrev pub HasPixels : Multiboot → Type 0
HasPixels mb = (mb.flags / 4096 % 2 ≡ 1) × (mb.framebuffer_type ≢ 2)

-- The whole pages of the frame buffer stand at 0xFF000000, and its bytes are filled.
pub record Enables (mb : Multiboot) (g : Gfx) (r : Outcome (Bool × Gfx)) : Type 0 where
  pub out : Gfx
  pub returns : r ≡ ok (true, out)
  pub pixels : HasPixels mb
  pub enabled : out.enabled ≡ true
  pub size : out.fb_size ≡ bytes_of mb
  pub mapped : IsMapped out.space 0xFF000000 (bytes_of mb)
  pub maps : MapsRange g.space mb.framebuffer_addr 0xFF000000 (bytes_of mb / 4096) out.space
  pub filled : Filled 0xFF000000 100 (bytes_of mb) g.memory out.memory

-- The last bytes of the frame buffer make up no whole page and are not mapped.
pub record Breaks (mb : Multiboot) (g : Gfx) (r : Outcome (Bool × Gfx)) : Type 0 where
  pub pixels : HasPixels mb
  pub part : bytes_of mb % 4096 ≢ 0
  pub unmapped : translate g.space (0xFF000000 + bytes_of mb / 4096 * 4096) ≡ none
  pub panics : r ≡ panic

-- The memory that the kernel runs in, and the sizes that the loader has set.
pub record CanEnable (mb : Multiboot) (g : Gfx) : Type 0 where
  pub tables : HasKernelTables g.space
  pub apart : TablesApart g.space
  pub aligned : mb.framebuffer_addr % 4096 ≡ 0
  pub bits : mb.framebuffer_width * mb.framebuffer_height * mb.framebuffer_bpp < 2 ^ 32
  pub pixels : mb.framebuffer_width * mb.framebuffer_height < 2 ^ 32
  pub frames : mb.framebuffer_addr + bytes_of mb ≤ 2 ^ 32
  pub pages : bytes_of mb ≤ 0x1000000

flag-bit : (w : ℕ) → bit_and w mb_flag_framebuffer ≡ w / 4096 % 2 * 4096
unfolding bit
flag-bit w = bit_and-two_pow w 12

pub fb_size-eq : (mb : Multiboot) (g : Gfx) → CanEnable mb g → fb_size_of mb ≡ bytes_of mb
unfolding fb_size_of
fb_size-eq mb g can =
    let pixels : u32 (mb.framebuffer_width * mb.framebuffer_height)
        ≡ mb.framebuffer_width * mb.framebuffer_height =
      omega (arith, can.pixels) in
    let bits : u32 (mb.framebuffer_width * mb.framebuffer_height * mb.framebuffer_bpp)
        ≡ mb.framebuffer_width * mb.framebuffer_height * mb.framebuffer_bpp =
      omega (arith, can.bits) in
    rw (pixels, bits) refl

screen-IsBacked :
    (space : AddressSpace) (pages : ℕ)
    → HasKernelTables space
    → pages ≤ 4096
    → IsBacked space 0xFF000000 0 pages
unfolding dir_index
screen-IsBacked space pages tables few k l =
    let dir = dir_index (0xFF000000 + (0 + k) * 4096) in
    let (present, at_dir) = tables dir (omega arith) (omega arith) in (present, dir, at_dir)

pub gfx_init-off : (mb : Multiboot) (g : Gfx) → ¬ HasPixels mb → gfx_init mb g ≡ ok (false, g)
unfolding gfx_init
gfx_init-off mb g none_set = elim (Bool-cases (bit_and mb.flags mb_flag_framebuffer == 0)) [
  | inl clear ↦ rw clear refl
  | inr set ↦ elim (Bool-cases (mb.framebuffer_type == 2)) [
    | inl text ↦ rw (set, text) refl
    | inr pixels ↦ absurd (
        none_set (
          ground (arith, flag-bit mb.flags, set),
          λ e. ground (arith, pixels, (==_iff mb.framebuffer_type 2).1 e),
        ))
  ]
]

-- The accesses to the frame buffer once its whole pages are mapped.
touched :
    (space space' : AddressSpace) (addr bytes : ℕ)
    → bytes ≤ 0x1000000
    → MapsRange space addr 0xFF000000 (bytes / 4096) space'
    → (IsMapped space' 0xFF000000 bytes × (touch_range space' 0xFF000000 bytes ≡ ok tt))
      ⊎ ((bytes % 4096 ≢ 0)
          × (translate space (0xFF000000 + bytes / 4096 * 4096) ≡ none)
          × (touch_range space' 0xFF000000 bytes ≡ panic))
unfolding touch_range
touched space space' addr bytes few maps =
    let there : (w : ℕ)
        → 0xFF000000 ≤ w
        → w < 0xFF000000 + bytes / 4096 * 4096
        → (f : ℕ) × (translate space' w ≡ some f) =
      λ w low high. (addr / 4096 + (w / 4096 - 0xFF000), ground (arith, maps w)) in
    let last = 0xFF000000 + bytes / 4096 * 4096 in
    let done : IsMapped space' 0xFF000000 bytes
        → IsMapped space' 0xFF000000 bytes × (touch_range space' 0xFF000000 bytes ≡ ok tt) =
      λ all. (all, touch_range-ok space' 0xFF000000 bytes (omega arith) all) in
    elim (ℕ_discrete (bytes % 4096) 0) [
      | yes whole ↦ inl (done (λ w low high. there w low (omega arith)))
      | no part ↦
          let same : translate space' last ≡ translate space last = ground (arith, maps last) in
          elim (Option-cases (translate space last)) [
            | inr (f, at_last) ↦ inl (
                done (λ w low high. elim (dec_lt w last) [
                  | yes before ↦ there w low before
                  | no behind ↦ (f, same_page space' w last (omega arith) ∙ same ∙ at_last)
                ]))
            | inl gone ↦
                let pages : pages_over 0xFF000000 bytes ≡ suc (bytes / 4096) = ground arith in
                let panics =
                  touch-panic space' (bytes / 4096) 0xFF000
                    (λ k l.
                      let word : u32 ((0xFF000 + k) * 4096) ≡ 0xFF000000 + k * 4096 = omega arith in
                      rw word (there (0xFF000000 + k * 4096) (omega arith) (omega arith)))
                    (let word : u32 ((0xFF000 + bytes / 4096) * 4096) ≡ last = omega arith in
                      rw word (same ∙ gone)) in
                inr (part, gone, rw pages panics)
          ]
    ]

-- `gfx_init` returns false and changes nothing where the loader has not set up a frame buffer of
-- pixels. Where it has, it ends in one of two ways. Either it returns true with the whole pages of
-- the frame buffer mapped at 0xFF000000, no other page changed, all its bytes mapped and set to 100
-- and no other byte changed. Or it panics in a page fault, and then the size is no multiple of 4096
-- and nothing was mapped behind the whole pages. The kernel's tables are there, and the frame buffer
-- is aligned to a page and has at most 16 MiB.
pub gfx_init-Enables :
    (mb : Multiboot) (g : Gfx)
    → CanEnable mb g
    → (¬ HasPixels mb × (gfx_init mb g ≡ ok (false, g)))
      ⊎ Enables mb g (gfx_init mb g)
      ⊎ Breaks mb g (gfx_init mb g)
unfolding gfx_init
gfx_init-Enables mb g can = elim (Bool-cases (bit_and mb.flags mb_flag_framebuffer == 0)) [
  | inl clear ↦
      let none_set = (==_iff (bit_and mb.flags mb_flag_framebuffer) 0).0 clear in
      inl (λ (set, _). omega (arith, none_set, flag-bit mb.flags, set), rw clear refl)
  | inr set ↦ elim (Bool-cases (mb.framebuffer_type == 2)) [
    | inl text ↦ inl (λ (_, ne). ne ((==_iff mb.framebuffer_type 2).0 text), rw (set, text) refl)
    | inr pixels ↦
        let (space, done, maps) =
          vm_dma-MapsRange g.space mb.framebuffer_addr 0xFF000000 (bytes_of mb) can.apart
            (screen-IsBacked g.space (bytes_of mb / 4096) can.tables (omega (arith, can.pages)))
            can.aligned can.frames (omega (arith, can.pages)) in
        let both : HasPixels mb = (
          ground (arith, flag-bit mb.flags, set),
          λ e. ground (arith, pixels, (==_iff mb.framebuffer_type 2).1 e),
        ) in
        elim (touched g.space space mb.framebuffer_addr (bytes_of mb) can.pages maps) [
          | inr (part, unmapped, broke) ↦ inr (
              inr record {
                pixels = both;
                part = part;
                unmapped = unmapped;
                panics = rw (set, pixels, fb_size-eq mb g can, done, broke) refl;
              })
          | inl (mapped, fine) ↦ inr (
              inl record {
                out = record {
                  enabled = true;
                  fb_size = bytes_of mb;
                  space = space;
                  memory = memset 0xFF000000 100 (bytes_of mb) g.memory;
                };
                returns = rw (set, pixels, fb_size-eq mb g can, done, fine) refl;
                pixels = both;
                enabled = refl;
                size = refl;
                mapped = mapped;
                maps = maps;
                filled = memset-Filled 0xFF000000 100 (bytes_of mb) g.memory;
              })
        ]
  ]
]
