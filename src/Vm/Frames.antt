-- ===== src/Vm/Frames.antt =====
-- The loop of `vm_alloc_kpages`: a run of pages gets frames of its own.
use ma_os.Base.{
  ℕ, zero, suc, ◌+◌, ◌*◌, ◌/◌, ◌%◌, ◌^◌, ◌≤◌, ◌<◌, ◌≡◌, ◌≢◌, refl, ap, ◌∙◌, ◌⊎◌, inl, inr, Bool,
  true, false, some, List, [], ◌∷◌, Outcome, ok, panic, arith, length, ◌==◌, if◌then◌else◌,
  Bool-cases,
}
use ma_os.Pmm.{Pmm}
use ma_os.Pmm.Cover.{free_blocks}
use ma_os.Pmm.Managed.{IsManaged, IsFree}
use ma_os.Paging.{AddressSpace, dir_index}
use ma_os.Paging.Translate.{translate, TablesApart}
use ma_os.FreeList.Chain.{Without, Distinct}
use ma_os.Vm.{Vm, map_pages}
use ma_os.Vm.OnePage.{no_block-free_blocks, one_frame, Mapped, first_round}

-- The directory entries of `count` pages from number `pageno` on are present, and have tables.
abbrev pub PagesBacked : AddressSpace → ℕ → ℕ → Type 0
PagesBacked space pageno zero = Unit
PagesBacked space pageno (suc count) =
    ((space.directory (dir_index (pageno * 4096))).present ≡ 1)
    × ((table : ℕ) × (space.tables (dir_index (pageno * 4096)) ≡ some table))
    × PagesBacked space (pageno + 1) count

abbrev pub member : List ℕ → ℕ → Bool
member [] f = false
member (g ∷ fs) f = if g == f then true else member fs f

abbrev pub AllFree : Pmm → List ℕ → Type 0
AllFree p [] = Unit
AllFree p (f ∷ fs) = IsFree p f × AllFree p fs

-- The pages from number `pageno` on lead to the frames `fs` behind frame `base`, in order.
abbrev pub LeadsTo : AddressSpace → ℕ → ℕ → List ℕ → Type 0
LeadsTo space pageno base [] = Unit
LeadsTo space pageno base (f ∷ fs) =
    (translate space (pageno * 4096) ≡ some (base + f)) × LeadsTo space (pageno + 1) base fs

-- Different frames that were free, one for each page; they are not free any more, and no other
-- frame and no other page has changed.
pub record Maps (count pageno frames : ℕ) (v : Vm) (r : Outcome Vm) : Type 0 where
  pub out : Vm
  pub returns : r ≡ ok out
  pub fs : List ℕ
  pub one_each : length fs ≡ count
  pub distinct : Distinct fs
  pub were_free : AllFree v.pmm fs
  pub managed : IsManaged frames out.pmm
  pub same_base : out.pmm.buddy_base ≡ v.pmm.buddy_base
  pub blocks :
      (f : ℕ)
      → free_blocks 0 out.pmm.buddies f ≡ (if member fs f then 0 else free_blocks 0 v.pmm.buddies f)
  pub leads : LeadsTo out.current_as pageno (v.pmm.buddy_base / 4096) fs
  pub others :
      (w : ℕ)
      → (w / 4096 < pageno) ⊎ (pageno + count ≤ w / 4096)
      → translate out.current_as w ≡ translate v.current_as w
  pub directory : out.current_as.directory ≡ v.current_as.directory
  pub tables : out.current_as.tables ≡ v.current_as.tables
  pub rest : out ≡ record v { current_as = out.current_as; pmm = out.pmm }

-- There were less free frames than pages.
pub record Exhausted {ℓ} {A : Type ℓ} (count : ℕ) (v : Vm) (r : Outcome A) : Type ℓ where
  pub panics : r ≡ panic
  pub fs : List ℕ
  pub fewer : length fs < count
  pub all : (f : ℕ) → IsFree v.pmm f → member fs f ≡ true

free_before :
    (p p' : Pmm) (g : ℕ) (fs : List ℕ)
    → ((f : ℕ) → free_blocks 0 p'.buddies f ≡ (if g == f then 0 else free_blocks 0 p.buddies f))
    → AllFree p' fs
    → Without g fs × AllFree p fs
free_before p p' g [] blocks free = (tt, tt)
free_before p p' g (f ∷ fs) blocks (now, free) =
    let (apart, before) = free_before p p' g fs blocks free in
    let ne : g ≢ f = λ e. ground (arith, blocks f) in
    ((ne, apart), (ground (arith, blocks f), before))

later_backed :
    (space space' : AddressSpace) (pageno count : ℕ)
    → space'.directory ≡ space.directory
    → space'.tables ≡ space.tables
    → PagesBacked space pageno count
    → PagesBacked space' pageno count
later_backed space space' pageno zero d t backed = tt
later_backed space space' pageno (suc count) d t (present, at_dir, backed) =
    (rw d present, rw t at_dir, later_backed space space' (pageno + 1) count d t backed)

away_later : (p count w : ℕ) → (w < p) ⊎ (p + suc count ≤ w) → (w < p + 1) ⊎ (p + 1 + count ≤ w)
away_later p count w (inl h) = inl (omega arith)
away_later p count w (inr h) = inr (omega arith)

away_ne : (p count w : ℕ) → (w < p) ⊎ (p + suc count ≤ w) → w ≢ p
away_ne p count w (inl h) = omega arith
away_ne p count w (inr h) = omega arith

-- The first page, in front of the others.
Maps-first_round :
    (count pageno frames f : ℕ) (v next : Vm) (r : Outcome Vm)
    → Mapped pageno frames v next f
    → Maps count (pageno + 1) frames next r
    → Maps (suc count) pageno frames v r
Maps-first_round count pageno frames f v next r first m =
    let (apart, free) = free_before v.pmm next.pmm f m.fs first.blocks m.were_free in
    let base = first.same_base in
    record {
      out = m.out;
      returns = m.returns;
      fs = f ∷ m.fs;
      one_each = ap (λ (t : ℕ). suc t) m.one_each;
      distinct = (apart, m.distinct);
      were_free = (first.was_free, free);
      managed = m.managed;
      same_base = m.same_base ∙ base;
      blocks = λ x. ground (arith, first.blocks x, m.blocks x);
      leads = (m.others (pageno * 4096) (inl (omega arith)) ∙ first.leads, rw base at m.leads);
      others = λ w away.
          m.others w (away_later pageno count (w / 4096) away)
          ∙ first.others w (away_ne pageno count (w / 4096) away);
      directory = m.directory ∙ first.directory;
      tables = m.tables ∙ first.tables;
      rest =
          m.rest
          ∙ ap (λ (t : Vm). record t { current_as = m.out.current_as; pmm = m.out.pmm }) first.rest;
    }

Exhausted-first_round :
    (count pageno frames f : ℕ) (v next : Vm) (r : Outcome Vm)
    → Mapped pageno frames v next f
    → Exhausted count next r
    → Exhausted (suc count) v r
Exhausted-first_round count pageno frames f v next r first e = record {
  panics = e.panics;
  fs = f ∷ e.fs;
  fewer = omega (arith, e.fewer);
  all = λ x free. elim (Bool-cases (f == x)) [
    | inl same ↦ rw same refl
    | inr other ↦
        let still : IsFree next.pmm x = ground (arith, first.blocks x, other) in
        rw other (e.all x still)
  ];
}

-- Either every page gets a frame of its own, or the frames do not suffice.
pub map_pages-Maps :
    (count pageno frames : ℕ) (v : Vm)
    → IsManaged frames v.pmm
    → TablesApart v.current_as
    → PagesBacked v.current_as pageno count
    → v.pmm.buddy_base % 4096 ≡ 0
    → pageno + count ≤ 2 ^ 20
    → Maps count pageno frames v (map_pages count pageno v)
      ⊎ Exhausted count v (map_pages count pageno v)
unfolding map_pages
map_pages-Maps zero pageno frames v m apart backed aligned fits = inl record {
  out = v;
  returns = refl;
  fs = [];
  one_each = refl;
  distinct = tt;
  were_free = tt;
  managed = m;
  same_base = refl;
  blocks = λ f. refl;
  leads = tt;
  others = λ w away. refl;
  directory = refl;
  tables = refl;
  rest = refl;
}
map_pages-Maps (suc count) pageno frames v m apart (present, (table, at_dir), backed) aligned fits =
    elim (one_frame frames v.pmm m) [
      | inr refused ↦ inr record {
        panics = rw refused.returns refl;
        fs = [];
        fewer = omega arith;
        all = λ f free.
            let none_free =
              no_block-free_blocks 0 v.pmm.buddies f
                (λ l j b g. refused.no_block l j b (omega arith) g) in
            absurd (omega (arith, free, none_free));
      }
      | inl g ↦
          let (next, f, step, first) =
            first_round count pageno frames table v g m apart present at_dir aligned
              (omega arith) in
          elim (map_pages-Maps count (pageno + 1) frames next first.managed (rw first.tables apart)
            (later_backed v.current_as next.current_as (pageno + 1) count first.directory
              first.tables backed)
            (rw first.same_base aligned) (omega arith)) [
              | inl maps ↦
                  inl (rw step (Maps-first_round count pageno frames f v next _ first maps))
              | inr short ↦
                  inr (rw step (Exhausted-first_round count pageno frames f v next _ first short))
            ]
    ]
