-- ===== src/Kernel/MemoryStart.antt =====
-- kernel/kernel/kernel.cpp: what the two memory managers are like when both have started.
use ma_os.Base.{
  ℕ, ◌+◌, ◌-◌, ◌*◌, ◌/◌, ◌%◌, ◌^◌, ◌≤◌, ◌<◌, ◌≡◌, refl, ap, ◌∙◌, none, some, Outcome, ok, arith,
  ltb, if◌then◌else◌, u32,
}
use ma_os.Pmm
use ma_os.Pmm.{Pmm, phys2virtual, get_border}
use ma_os.Pmm.Cover.{free_blocks}
use ma_os.Pmm.Managed.{IsFree}
use ma_os.Pmm.Init.{first_managed, frame_count, Initialised, init-Initialised}
use ma_os.Paging.{virtual2phys}
use ma_os.Vm.{Vm}
use ma_os.Vm.Start
use ma_os.Vm.Walk.{HasDirectory, walk, walk-translate}
use ma_os.Vm.Boot.{IsBooted, IsBlank, LeadsLow, Boots, init-Boots}
use ma_os.Gfx.{Multiboot}
use ma_os.Kernel.Memory.{Loaded, memory_init}

abbrev pub upper_end : Multiboot → ℕ
upper_end mb = mb.mem_upper * 1024 + 0x100000

abbrev pub managed_frames : Loaded → Multiboot → ℕ
managed_frames l mb = frame_count l.kernel_end (upper_end mb)

-- All frames are free, and the 8 MiB that are mapped hold the memory for buckets, which begins with
-- the first of them: its pages lead to free frames.
pub record StartsMemory (l : Loaded) (mb : Multiboot) (r : Outcome Vm) : Type 0 where
  pub out : Vm
  pub returns : r ≡ ok out
  pub booted : IsBooted 0xC0800 (managed_frames l mb) l.bucket_at out
  pub leads : LeadsLow out.current_as
  pub wired : HasDirectory l.table_at out.current_as
  pub walks :
      (w : ℕ)
      → 0xC0000000 ≤ w
      → w < 2 ^ 32
      → walk l.table_at out.current_as w
        ≡ (if ltb w 0xC0800000 then some (w / 4096 - 0xC0000) else none)
  pub at : out.current_as.directory_phys ≡ virtual2phys l.directory_at
  pub all_free :
      (f : ℕ) → free_blocks 0 out.pmm.buddies f ≡ (if ltb f (managed_frames l mb) then 1 else 0)
  pub base : out.pmm.buddy_base ≡ first_managed l.kernel_end (upper_end mb)
  pub steals : out.steal_next ≡ first_managed l.kernel_end (upper_end mb) + 0xC0000000
  pub to_the_end : out.steal_next + out.steal_remaining ≡ 0xC0800000
  pub on_free_frames :
      (w : ℕ)
      → out.steal_next ≤ w
      → w < 0xC0800000
      → (f : ℕ) × (walk l.table_at out.current_as w ≡ some (out.pmm.buddy_base / 4096 + f))
        × IsFree out.pmm f

module _ (l : Loaded) (mb : Multiboot) (before : Vm) (word : upper_end mb < 2 ^ 32)
    (enough : 0x1000000 ≤ upper_end mb)
    (mapped : first_managed l.kernel_end (upper_end mb) ≤ 0x800000)
    (no_tables : (i : ℕ) → before.current_as.tables i ≡ none) (blank : IsBlank before.current_as)
    (none_waiting : before.waiting_list ≡ none) (tables_aligned : l.table_at % 4096 ≡ 0)
    (behind : 0xC0000000 ≤ l.bucket_at)
    (inside : l.bucket_at + 16 ≤ 0xC0000000 + l.kernel_end) where
  frames : Initialised l.kernel_end (upper_end mb) (Pmm.init l.memory l.kernel_end (upper_end mb))
  frames =
      init-Initialised l.memory l.kernel_end (upper_end mb) (omega arith) word mapped (omega arith)

  pages :
      Boots
        (managed_frames l mb)
        l.directory_at
        l.table_at
        l.bucket_at
        (record before { pmm = frames.out })
        (Start.init l.directory_at l.table_at l.bucket_at (record before { pmm = frames.out }))
  pages =
      init-Boots l.directory_at l.table_at l.bucket_at (managed_frames l mb)
        (record before { pmm = frames.out }) no_tables blank none_waiting frames.managed
        (omega (arith, frames.base)) tables_aligned behind (omega (arith, frames.base))
        (omega (arith, frames.base))

  border-eq : get_border frames.out ≡ first_managed l.kernel_end (upper_end mb) + 0xC0000000
  unfolding get_border phys2virtual
  border-eq = omega (arith, frames.border)

  a_group : 2048 ≤ managed_frames l mb
  a_group = omega arith

  pages_wired : HasDirectory l.table_at pages.out.current_as
  pages_wired = rw pages.same_tables at pages.booted.wired

  -- What the processor finds for the kernel's addresses.
  walks_at :
      (w : ℕ)
      → 0xC0000000 ≤ w
      → w < 2 ^ 32
      → walk l.table_at pages.out.current_as w
        ≡ (if ltb w 0xC0800000 then some (w / 4096 - 0xC0000) else none)
  walks_at w low high =
      walk-translate l.table_at w pages.out.current_as tables_aligned pages_wired low high
      ∙ ground (arith, pages.leads w)

  -- The frame that an address of the 8 MiB behind the border leads to.
  frame_at :
      (w : ℕ)
      → pages.out.steal_next ≤ w
      → w < 0xC0800000
      → (f : ℕ) × (walk l.table_at pages.out.current_as w
          ≡ some (pages.out.pmm.buddy_base / 4096 + f))
        × IsFree pages.out.pmm f
  frame_at w low high =
      let base : pages.out.pmm.buddy_base ≡ first_managed l.kernel_end (upper_end mb) =
        ap (λ (p : Pmm). p.buddy_base) pages.same_frames ∙ frames.base in
      let border : pages.out.steal_next ≡ first_managed l.kernel_end (upper_end mb) + 0xC0000000 =
        pages.steals ∙ border-eq in
      let f = w / 4096 - 0xC0000 - first_managed l.kernel_end (upper_end mb) / 4096 in
      (
        f,
        ground (arith, walks_at w (omega (arith, border)) (omega arith), base, border),
        ap (λ (p : Pmm). free_blocks 0 p.buddies f) pages.same_frames
            ∙ ground (arith, frames.all_free f, a_group),
      )

  -- The start of the frames and then of the pages returns, with all frames free and all pages of
  -- the kernel behind the 8 MiB that are mapped free. The directory holds the frames of the kernel's
  -- own tables, and the processor that reads it finds the frames from 0 on for the 8 MiB at
  -- 0xC0000000, and nothing for the addresses behind them. The memory for buckets begins at the first
  -- managed frame and goes to the end of the 8 MiB, so that its pages lead to frames that are free
  -- and will be given away. There are at least 16 MiB, below 4 GiB, the managed memory begins in the
  -- 8 MiB, the page tables are aligned and zero before, and the first bucket stands in the kernel.
  pub memory_init-StartsMemory : StartsMemory l mb (memory_init l mb before)
  unfolding memory_init
  memory_init-StartsMemory =
      let upper : u32 (u32 (mb.mem_upper * 1024) + 0x100000) ≡ upper_end mb = omega arith in
      let steals = pages.steals ∙ border-eq in
      record {
        out = pages.out;
        returns = rw (upper, frames.returns, pages.returns) refl;
        booted = pages.booted;
        leads = pages.leads;
        wired = pages_wired;
        walks = walks_at;
        at = pages.at;
        all_free = λ f. rw pages.same_frames (frames.all_free f);
        base = rw pages.same_frames frames.base;
        steals = steals;
        to_the_end = omega (arith, steals, pages.stealable, border-eq);
        on_free_frames = frame_at;
      }
