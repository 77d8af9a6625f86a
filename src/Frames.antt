-- ===== src/Frames.antt =====
-- The frame allocator of src/kernel.c: memory_allocate_frame, memory_allocate_frames,
-- memory_free_frame, memory_free_frames, memory_nth_segment, and the loop of kmain over the memory
-- map. The free memory is an array of segments, each a run of frames.
pub mod Ledger
pub mod Taken
pub mod Allocate
pub mod Fresh
pub mod Pushed
pub mod Free
pub mod Ownership
pub mod Cases
mod Tests
use side_h_os.Base.{
  ℕ, zero, suc, ◌+◌, ◌-◌, ◌*◌, ◌/◌, ◌%◌, ◌<◌, Bool, true, false, List, [], ◌∷◌, ltb, leb, ◌==◌,
  if◌then◌else◌, ◌||◌,
}
use mathlib.Core.Bool.{not}
use side_h_os.Base.Word.{add64, sub64, mul64, page_floor}
use side_h_os.Bytes.{Bytes, memset, store64}
use side_h_os.Kernel.Node
use side_h_os.Kernel.Page
use side_h_os.Kernel.{
  Ptr, null, size_4kb, uint8_max, Segment, FreeList, Kernel, Run, ok, fault, Cmd, pure, and_then,
  ◌>>=◌, ◌>>◌, get, modify, with_bytes, replace, with_freelist, set_segment,
  address_physical_to_virtual,
}

abbrev pub nth_segment : Segment → ℕ → ℕ
nth_segment seg n = add64 seg.base (mul64 size_4kb n)

unfoldable pub memory_nth_segment : Segment → ℕ → ℕ
memory_nth_segment seg n = nth_segment seg n

-- `while (segment_cursor < cursor)`, an uint8_t against an int8_t: a cursor that is negative as an
-- int8_t ends the loop at once.
abbrev pub visible : ℕ → ℕ
visible cursor = if ltb cursor 128 then cursor else 0

-- The new page's header and its one free node, in the zeroed frame at `page`.
abbrev pub init_page : (page heap_pages : Ptr) → Bytes → Bytes
init_page page heap_pages m =
    let free_size : ℕ = size_4kb - Page.size - Node.size in
    let node = add64 page Page.size in
    let zeroed = memset m page 0 size_4kb in
    let with_node = store64 (store64 zeroed (Node.length node) free_size) (Node.next node) null in
    let with_freelist = store64 with_node (Page.freelist page) node in
    let with_largest = store64 with_freelist (Page.largest page) free_size in
    store64 with_largest (Page.next page) heap_pages

-- The body of the loop of memory_allocate_frame, at a segment that is not empty.
pub take_frame : ℕ → Cmd ℕ
unfolding memory_nth_segment
take_frame i k =
    let segment = k.memory.freelist.segments i in
    let last = segment.length - 1 in
    let frame_physical = memory_nth_segment segment last in
    let page = address_physical_to_virtual k frame_physical in
    ok frame_physical (record k {
      bytes = init_page page k.memory.heap_pages k.bytes;
      memory = record {
        freelist = set_segment i (record segment { length = last }) k.memory.freelist;
        heap_pages = page;
      };
    })

allocate_frame_loop : (i rounds : ℕ) → Cmd ℕ
allocate_frame_loop i zero k = ok 0 k
allocate_frame_loop i (suc n) k =
    let rest = allocate_frame_loop (i + 1) n k in
    if ltb 0 (k.memory.freelist.segments i).length then take_frame i k else rest

unfoldable pub memory_allocate_frame : Cmd ℕ
unfolding take_frame allocate_frame_loop
memory_allocate_frame k = allocate_frame_loop 0 (visible k.memory.freelist.cursor) k

-- The header of a run of frames: no free node, and the size word behind it.
abbrev pub init_frames : (page count : ℕ) → Bytes → Bytes
init_frames page count m =
    let total_size = mul64 size_4kb count in
    let free_size = sub64 (sub64 total_size Page.size) 8 in
    let zeroed = memset m page 0 total_size in
    let with_header = store64 zeroed (add64 page Page.size) free_size in
    store64 (store64 with_header (Page.freelist page) null) (Page.largest page) 0

-- The body of the loop of memory_allocate_frames, at a segment that is long enough.
pub take_frames : (i count : ℕ) → Cmd ℕ
unfolding memory_nth_segment
take_frames i count k =
    let segment = k.memory.freelist.segments i in
    let left = segment.length - count in
    let frame_physical = memory_nth_segment segment left in
    let page = address_physical_to_virtual k frame_physical in
    ok frame_physical (
      with_freelist (set_segment i (record segment { length = left }))
        (with_bytes (init_frames page count) k))

allocate_frames_loop : (count i rounds : ℕ) → Cmd ℕ
allocate_frames_loop count i zero k = ok 0 k
allocate_frames_loop count i (suc n) k =
    let rest = allocate_frames_loop count (i + 1) n k in
    if ltb (k.memory.freelist.segments i).length count then rest else take_frames i count k

unfoldable pub memory_allocate_frames : ℕ → Cmd ℕ
unfolding take_frames allocate_frames_loop
memory_allocate_frames count k = allocate_frames_loop count 0 (visible k.memory.freelist.cursor) k

-- segments[*cursor] = s; (*cursor)++; with the cursor read as an uint8_t. There is no entry 255.
unfoldable pub push_segment : Segment → Cmd (Unit {0})
push_segment s k =
    let l = k.memory.freelist in
    if ltb l.cursor 255
    then ok tt
        (with_freelist (λ l. record (set_segment l.cursor s l) { cursor = (l.cursor + 1) % 256 }) k)
    else fault

abbrev pub end_adjacent : ℕ → Segment → Bool
end_adjacent physical segment = add64 segment.base (mul64 segment.length size_4kb) == physical

abbrev pub start_adjacent : ℕ → Segment → Bool
start_adjacent physical segment = add64 physical size_4kb == segment.base

pub free_frame_loop : (physical i rounds : ℕ) → Cmd Bool
unfolding push_segment
free_frame_loop physical i zero k =
    if k.memory.freelist.cursor == uint8_max
    then ok false k
    else and_then (push_segment (record { base = physical; length = 1 }) k) (λ _. pure true)
free_frame_loop physical i (suc n) k =
    let rest = free_frame_loop physical (i + 1) n k in
    let segment = k.memory.freelist.segments i in
    let longer = add64 segment.length 1 in
    if end_adjacent physical segment
    then ok true (with_freelist (set_segment i (record segment { length = longer })) k)
    else if start_adjacent physical segment
    then ok true (with_freelist (set_segment i (record { base = physical; length = longer })) k)
    else rest

-- Here the cursor is read as an uint8_t.
unfoldable pub memory_free_frame : ℕ → Cmd Bool
unfolding free_frame_loop
memory_free_frame physical k = free_frame_loop physical 0 k.memory.freelist.cursor k

unfoldable pub memory_free_frames : (physical frame_count : ℕ) → Cmd Bool
unfolding push_segment
memory_free_frames physical frame_count =
    push_segment (record { base = physical; length = frame_count }) >> pure true
