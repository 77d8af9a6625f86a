-- ===== src/Heap.antt =====
-- The heap of src/kernel.c: kmalloc, kfree, heapnode_is_empty. A page is one frame with a header and a
-- list of free nodes; larger requests get frames of their own. The loops over lists run on fuel.
pub mod Nodes
pub mod Search
pub mod Replace
pub mod Carve
pub mod Allocate
pub mod Pages
pub mod Claims
pub mod Merge
pub mod Insert
pub mod MergeAt
pub mod Kfree
pub mod Blocks
pub mod Cycle
pub mod Grow
pub mod Kmalloc
pub mod Large
pub mod Contract
pub mod Runs
pub mod Serve
pub mod ServeLarge
pub mod Client
pub mod Writes
pub mod Gaps
pub mod Release
pub mod Samples
mod Tests
mod ReleaseTests
use side_h_os.Base.{
  ℕ, zero, suc, ◌+◌, ◌-◌, ◌*◌, ◌/◌, Bool, true, false, Option, none, some, ltb, ◌==◌, if◌then◌else◌,
  ◌||◌,
}
use side_h_os.Base.Word.{add64, sub64, page_floor}
use side_h_os.Bytes.{Bytes, load64, store64}
use side_h_os.Kernel.Node
use side_h_os.Kernel.Page
use side_h_os.Kernel.{
  Ptr, null, size_4kb, Kernel, Run, ok, out_of_fuel, Cmd, pure, and_then, ◌>>=◌, ◌>>◌, get, modify,
  with_bytes, address_physical_to_virtual, address_virtual_to_physical,
}
use side_h_os.Lock.{memory_acquire, memory_release}
use side_h_os.Frames.{memory_allocate_frame, memory_allocate_frames, memory_free_frames}

-- SIZE_4KB - sizeof(HeapPage) - sizeof(HeapNode) - sizeof(uint64_t)
abbrev pub small_page_maximum_size : ℕ
small_page_maximum_size = 4040

-- A loop that ends with a value, or not in its fuel.
abbrev pub within : {A : Type 0} → Option A → Cmd A
within none k = out_of_fuel
within (some a) k = ok a k

-- The frames for a block of `size` bytes behind a header and a size word.
abbrev pub frame_counts : ℕ → ℕ
frame_counts size = sub64 (add64 (add64 40 size) size_4kb) 1 / size_4kb

-- while (page && page->largest < total_size) page = page->next;
unfoldable pub find_page : (fuel : ℕ) → Bytes → (total_size : ℕ) → Ptr → Option Ptr
find_page zero m total page = none
find_page (suc f) m total page =
    let rest = find_page f m total (load64 m (Page.next page)) in
    if page == null
    then some page
    else if ltb (load64 m (Page.largest page)) total
    then rest
    else some page

-- while (node && node->length < total_size) { prev = node; node = node->next; }
unfoldable pub find_node :
    (fuel : ℕ) → Bytes → (total_size : ℕ) → (prev node : Ptr) → Option (Ptr × Ptr)
find_node zero m total prev node = none
find_node (suc f) m total prev node =
    let rest = find_node f m total node (load64 m (Node.next node)) in
    if node == null
    then some (prev, node)
    else if ltb (load64 m (Node.length node)) total
    then rest
    else some (prev, node)

-- while (cursor) { if (cursor->length > max_size) max_size = cursor->length; cursor = cursor->next; }
unfoldable pub max_length : (fuel : ℕ) → Bytes → (cursor : Ptr) → (max_size : ℕ) → Option ℕ
max_length zero m cursor max_size = none
max_length (suc f) m cursor max_size =
    let length = load64 m (Node.length cursor) in
    let rest =
      max_length f m (load64 m (Node.next cursor))
        (if ltb max_size length then length else max_size) in
    if cursor == null then some max_size else rest

-- prev->next = replacement, or page->freelist = replacement where there is no prev
abbrev pub relink : (page prev replacement : Ptr) → Bytes → Bytes
relink page prev replacement m =
    if prev == null
    then store64 m (Page.freelist page) replacement
    else store64 m (Node.next prev) replacement

-- The block that kmalloc cuts from the front of `node`, whose size word says how much it holds.
unfoldable pub carve : (size : ℕ) → (page prev node : Ptr) → Bytes → Bytes
carve size page prev node m =
    let total_size = add64 size 8 in
    let next = load64 m (Node.next node) in
    let base = add64 node Node.size in
    let sized = store64 m base size in
    let new_next = add64 base total_size in
    let remaining_size = sub64 (load64 sized (Node.length node)) total_size in
    if ltb remaining_size Node.size
    then relink page prev next (store64 sized base (add64 size remaining_size))
    else let with_length = store64 sized (Node.length new_next) (sub64 remaining_size Node.size) in
      relink page prev new_next (store64 with_length (Node.next new_next) next)

-- page->largest = the length of the longest free node
unfoldable pub update_largest : (fuel : ℕ) → Ptr → Cmd (Unit {0})
update_largest fuel page = do
  k ← get
  max_size ← within (max_length fuel k.bytes (load64 k.bytes (Page.freelist page)) 0)
  modify (with_bytes λ m. store64 m (Page.largest page) max_size)

-- The block from a page, with the lock held.
unfoldable pub allocate_in_page : (fuel size : ℕ) → Ptr → Cmd Ptr
unfolding carve update_largest
allocate_in_page fuel size page = do
  k ← get
  (prev, node) ←
      within (find_node fuel k.bytes (add64 size 8) null (load64 k.bytes (Page.freelist page)))
  if node == null then pure null else do
    modify (with_bytes (carve size page prev node))
    update_largest fuel page
    pure (add64 (add64 node Node.size) 8)

-- The page that find_page found, or a new one.
unfoldable pub page_or_new : (total_size : ℕ) → Ptr → Cmd Ptr
page_or_new total page k =
    if page == null || ltb (load64 k.bytes (Page.largest page)) total
    then and_then (memory_allocate_frame k)
        (λ physical k. ok (address_physical_to_virtual k physical) k)
    else ok page k

unfoldable pub kmalloc_small : (fuel size : ℕ) → Cmd Ptr
unfolding allocate_in_page page_or_new
kmalloc_small fuel size = do
  k ← get
  found ← within (find_page fuel k.bytes (add64 size 8) k.memory.heap_pages)
  page ← page_or_new (add64 size 8) found
  block ← allocate_in_page fuel size page
  memory_release
  pure block

unfoldable pub kmalloc_large : (size : ℕ) → Cmd Ptr
kmalloc_large size = do
  physical_frame ← memory_allocate_frames (frame_counts size)
  k ← get
  memory_release
  pure (add64 (add64 (address_physical_to_virtual k physical_frame) Page.size) 8)

unfoldable pub kmalloc : (fuel size : ℕ) → Cmd Ptr
unfolding kmalloc_small kmalloc_large
kmalloc fuel size = do
  memory_acquire
  if ltb small_page_maximum_size size then kmalloc_large size else kmalloc_small fuel size

-- while (cursor && cursor < node) { prev = cursor; cursor = cursor->next; }
unfoldable pub find_position : (fuel : ℕ) → Bytes → (node prev cursor : Ptr) → Option (Ptr × Ptr)
find_position zero m node prev cursor = none
find_position (suc f) m node prev cursor =
    let rest = find_position f m node cursor (load64 m (Node.next cursor)) in
    if cursor == null
    then some (prev, cursor)
    else if ltb cursor node
    then rest
    else some (prev, cursor)

-- pointer(merge_cursor) + sizeof(HeapNode) + merge_cursor->length + sizeof(uint64_t)
abbrev pub end_of_cursor : Bytes → Ptr → Ptr
end_of_cursor m cursor = add64 (add64 (add64 cursor Node.size) (load64 m (Node.length cursor))) 8

-- The two additions to merge_cursor->length, and the unlinking of the node behind it.
abbrev pub merge_next : Ptr → Bytes → Bytes
merge_next cursor m =
    let next = load64 m (Node.next cursor) in
    let with_header =
      store64 m (Node.length cursor) (add64 (load64 m (Node.length cursor)) Node.size) in
    let with_length =
      store64 with_header (Node.length cursor)
        (add64 (load64 with_header (Node.length cursor)) (load64 with_header (Node.length next))) in
    store64 with_length (Node.next cursor) (load64 with_length (Node.next next))

-- while (merge_cursor && merge_cursor->next) { … }
unfoldable pub merge_loop : (fuel : ℕ) → Ptr → Bytes → Option Bytes
merge_loop zero cursor m = none
merge_loop (suc f) cursor m =
    let next = load64 m (Node.next cursor) in
    let merged = merge_loop f cursor (merge_next cursor m) in
    let walked = merge_loop f next m in
    if cursor == null || next == null
    then some m
    else if end_of_cursor m cursor == next
    then merged
    else walked

-- The node between prev and cursor.
abbrev pub insert_node : (page prev node cursor : Ptr) → Bytes → Bytes
insert_node page prev node cursor m =
    if prev == null
    then store64 (store64 m (Node.next node) cursor) (Page.freelist page) node
    else store64 (store64 m (Node.next prev) node) (Node.next node) cursor

unfoldable pub kfree_small : (fuel : ℕ) → (page base : Ptr) → Cmd Bool
kfree_small fuel page base = do
  let node = sub64 base Node.size
  modify (with_bytes λ m. store64 m (Node.length node) (load64 m base))
  k ← get
  (prev, cursor) ←
      within (find_position fuel k.bytes node null (load64 k.bytes (Page.freelist page)))
  modify (with_bytes (insert_node page prev node cursor))
  k ← get
  m ← within (merge_loop fuel (if prev == null then node else prev) k.bytes)
  modify (with_bytes λ _. m)
  memory_release
  pure true

unfoldable pub kfree : (fuel : ℕ) → (address : Ptr) → Cmd Bool
unfolding kfree_small
kfree fuel address = do
  memory_acquire
  k ← get
  let virtual_frame = page_floor address
  let physical_frame = address_virtual_to_physical k virtual_frame
  let base = sub64 address 8
  let size = load64 k.bytes base
  if ltb small_page_maximum_size size
      then (do memory_free_frames physical_frame (frame_counts size); memory_release; pure true)
      else kfree_small fuel virtual_frame base

unfoldable pub heapnode_is_empty : Bytes → Ptr → Bool
heapnode_is_empty m node = load64 m (Node.length node) == 4080
