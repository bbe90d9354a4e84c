-- ===== src/FreeList.antt =====
-- kernel/memory/vm.c, kernel/include/kernel/vm.h: the doubly linked lists of free buckets, with
-- the functions `ll_...`. A list is the pointer to its first bucket; NULL is `none`. The buckets of
-- all lists stand in one `Heap`, by their addresses, and a function returns the new heap.
pub mod Chain
pub mod Segment
pub mod Push
pub mod Remove
pub mod Insert
pub mod Frame
pub mod Inserted
use ma_os.Base.{
  ℕ, Bool, true, false, Option, none, some, Outcome, ok, panic, ◌>>◌, assert, ◌==◌, if◌then◌else◌,
}

pub record Bucket : Type 0 where
  pub pageno : ℕ
  pub size : ℕ
  pub next : Option ℕ
  pub prev : Option ℕ

abbrev pub Heap : Type 0
Heap = ℕ → Bucket

unfoldable pub store : ℕ → Bucket → Heap → Heap
store a b h x = if a == x then b else h x

unfoldable pub set_next : ℕ → Option ℕ → Heap → Heap
set_next a next h = store a (record (h a) { next = next }) h

unfoldable pub set_prev : ℕ → Option ℕ → Heap → Heap
set_prev a prev h = store a (record (h a) { prev = prev }) h

abbrev pub is_null : Option ℕ → Bool
is_null none = true
is_null (some a) = false

-- `*list` and the heap, after an operation.
pub record Links : Type 0 where
  pub first : Option ℕ
  pub heap : Heap

-- The first `if` of `ll_remove_item`, and the second one.
unfoldable pub unlink_behind : ℕ → Heap → Heap
unlink_behind item h = elim (h item).next [ none ↦ h | some next ↦ set_prev next (h item).prev h ]

unfoldable pub unlink_before : Option ℕ → ℕ → Heap → Links
unlink_before first item h = elim (h item).prev [
  | none ↦ record { first = (h item).next; heap = h }
  | some prev ↦ record { first = first; heap = set_next prev (h item).next h }
]

unfoldable pub ll_remove_item : Option ℕ → ℕ → Heap → Links
ll_remove_item first item h =
    let linked = unlink_before first item (unlink_behind item h) in
    record { first = linked.first; heap = set_prev item none (set_next item none linked.heap) }

-- The `if` of `ll_insert_before`.
unfoldable pub link_before : Option ℕ → ℕ → ℕ → Heap → Links
link_before first newitem olditem h = elim (h olditem).prev [
  | none ↦ record { first = some newitem; heap = h }
  | some prev ↦ record { first = first; heap = set_next prev (some newitem) h }
]

unfoldable pub ll_insert_before : Option ℕ → ℕ → ℕ → Heap → Links
ll_insert_before first newitem olditem h =
    let pointed = set_next newitem (some olditem) h in
    let linked = set_prev newitem (pointed olditem).prev pointed in
    let before = link_before first newitem olditem linked in
    record { first = before.first; heap = set_prev olditem (some newitem) before.heap }

unfoldable pub ll_append_notempty : ℕ → Option ℕ → Heap → Outcome Heap
ll_append_notempty newitem none h = panic
ll_append_notempty newitem (some olditem) h =
    ok (set_prev newitem (some olditem) (set_next olditem (some newitem) h))

unfoldable pub ll_push_item : Option ℕ → ℕ → Heap → Outcome Links
ll_push_item first item h = do
  assert (is_null (h item).prev)
  assert (is_null (h item).next)
  elim first [
    | none ↦ ok record { first = some item; heap = h }
    | some old_first ↦ ok record {
      first = some item;
      heap = set_next item (some old_first) (set_prev old_first (some item) h);
    }
  ]

pub record Popped : Type 0 where
  pub item : Option ℕ
  pub first : Option ℕ
  pub heap : Heap

unfoldable pub ll_pop_item : Option ℕ → Heap → Outcome Popped
ll_pop_item none h = ok record { item = none; first = none; heap = h }
ll_pop_item (some item) h = do
  assert (is_null (h item).prev)
  ok record { item = some item; first = (h item).next; heap = set_next item none h }
