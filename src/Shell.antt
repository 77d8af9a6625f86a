-- ===== src/Shell.antt =====
-- The shell of src/kernel.c: kshell, its commands, and the list of pointers that they keep
-- (pointer_push, pointer_pop). Loops over lists run on fuel.
pub mod Pointers
pub mod Commands
pub mod Line
mod Tests
use Prim.Native.String.{String}
use side_h_os.Base.{
  ℕ, zero, suc, ◌+◌, ◌-◌, ◌%◌, Bool, true, false, Option, none, some, List, [], ◌∷◌, ltb, ◌==◌,
  if◌then◌else◌, ℤ, pos, negsuc,
}
use side_h_os.Bytes.{Bytes, load64, Chars, strcmp}
use side_h_os.Kernel.{
  Ptr, null, uint8_max, PointerList, Kernel, Cmd, ok, fault, pure, ◌>>=◌, ◌>>◌, get, modify,
  replace,
}
use side_h_os.Kernel.Node
use side_h_os.Kernel.Page
use side_h_os.Frames.{
  memory_allocate_frame, memory_allocate_frames, memory_free_frame, memory_free_frames,
}
use side_h_os.Heap.{kmalloc, kfree, within}
use side_h_os.Console.{codes, kputs, kputhex}

unfoldable pub pointer_push : PointerList → Ptr → Bool × PointerList
pointer_push list ptr = if list.cursor == uint8_max then (false, list) else (
  true,
  record { entries = replace list.entries list.cursor ptr; cursor = (list.cursor + 1) % 256 },
)

unfoldable pub pointer_pop : PointerList → Ptr × PointerList
pointer_pop list =
    if list.cursor == 0
    then (null, list)
    else let cursor = list.cursor - 1 in (list.entries cursor, record list { cursor = cursor })

-- A string literal: its characters, and NUL.
abbrev pub literal_from : List ℕ → Chars
literal_from [] i = 0
literal_from (c ∷ cs) zero = c
literal_from (c ∷ cs) (suc i) = literal_from cs i

abbrev pub literal : String → Chars
literal s = literal_from (codes s)

abbrev pub is_zero : ℤ → Bool
is_zero (pos n) = n == 0
is_zero (negsuc n) = false

-- strcmp(CommandContext.command, s) == 0
unfoldable pub is_command : (fuel : ℕ) → String → Cmd Bool
is_command fuel s = do k ← get; r ← within (strcmp fuel k.command (literal s)); pure (is_zero r)

unfoldable pub malloc_command : (fuel : ℕ) → Cmd (Unit {0})
unfolding pointer_push
malloc_command fuel = do
  addr ← kmalloc fuel 5000
  kputs "malloc size="
  kputhex 5000
  kputs " addr="
  kputhex addr
  kputs "\r\n"
  if addr == null then kputs "malloc failed\r\n" else (do
    k ← get
    let (done, list) = pointer_push k.pointer_store addr
    modify (λ k. record k { pointer_store = list })
    if done then kputs "malloc success\r\n" else kputs "pointer list full\r\n")

abbrev pub put_frame : ℕ → Cmd (Unit {0})
put_frame p = do modify (λ k. record k { frame = p }); kputhex p; kputs "\r\n"

unfoldable pub free_command : (fuel : ℕ) → Cmd (Unit {0})
unfolding pointer_pop
free_command fuel = do
  k ← get
  let (addr, list) = pointer_pop k.pointer_store
  modify (λ k. record k { pointer_store = list })
  if addr == null then kputs "no alloc to free\r\n" else (do
    status ← kfree fuel addr
    kputs "free addr="
    kputhex addr
    if status then kputs " ok\r\n" else kputs " fail\r\n")

abbrev pub report_free : Bool → Cmd (Unit {0})
report_free status = do
  k ← get
  kputhex k.frame
  kputs "\n"
  if status then kputs "freed\n" else kputs "error\n"

-- The segments from i on, `rounds` of them.
unfoldable pub put_segments : (i rounds : ℕ) → Cmd (Unit {0})
put_segments i zero = pure tt
put_segments i (suc n) = do
  k ← get
  kputs "seg "
  kputhex i
  kputs " base="
  kputhex (k.memory.freelist.segments i).base
  kputs " len="
  kputhex (k.memory.freelist.segments i).length
  kputs "\r\n"
  put_segments (i + 1) n

-- The cursor is read as an uint8_t here.
unfoldable pub freelist_command : Cmd (Unit {0})
unfolding put_segments
freelist_command = do
  k ← get
  kputs "cursor="
  kputhex k.memory.freelist.cursor
  kputs "\r\n"
  put_segments 0 k.memory.freelist.cursor

unfoldable pub put_nodes : (fuel : ℕ) → (node : Ptr) → (node_index : ℕ) → Cmd (Unit {0})
put_nodes zero node i = within none
put_nodes (suc f) node i = if node == null then pure tt else do
  k ← get
  kputs "  node "
  kputhex i
  kputs " len="
  kputhex (load64 k.bytes (Node.length node))
  kputs " next="
  kputhex (load64 k.bytes (Node.next node))
  kputs "\r\n"
  put_nodes f (load64 k.bytes (Node.next node)) (i + 1)

unfoldable pub put_pages : (fuel rounds : ℕ) → (page : Ptr) → (page_index : ℕ) → Cmd (Unit {0})
unfolding put_nodes
put_pages fuel zero page i = within none
put_pages fuel (suc f) page i = if page == null then pure tt else do
  k ← get
  kputs "page "
  kputhex i
  kputs " base="
  kputhex page
  kputs " largest="
  kputhex (load64 k.bytes (Page.largest page))
  kputs "\r\n"
  put_nodes fuel (load64 k.bytes (Page.freelist page)) 0
  put_pages fuel f (load64 k.bytes (Page.next page)) (i + 1)

unfoldable pub heapdump_command : (fuel : ℕ) → Cmd (Unit {0})
unfolding put_pages
heapdump_command fuel = do
  k ← get
  if k.memory.heap_pages == null then kputs "no heap pages\r\n" else pure tt
  put_pages fuel fuel k.memory.heap_pages 0

-- What the command line is compared with, in order, and what is done for it.
abbrev pub commands : (fuel : ℕ) → List (String × Cmd (Unit {0}))
commands fuel =
    ("ping", kputs "pong")
    ∷ ("sse", kputs "SSE\r\n")
    ∷ ("malloc", malloc_command fuel)
    ∷ ("frame", memory_allocate_frame >>= put_frame)
    ∷ ("frames", memory_allocate_frames 5 >>= put_frame)
    ∷ ("free", free_command fuel)
    ∷ ("freeframe", get >>= λ k. memory_free_frame k.frame >>= report_free)
    ∷ ("freeframes", get >>= λ k. memory_free_frames k.frame 5 >>= report_free)
    ∷ ("freelist", freelist_command)
    ∷ ("hhdm", get >>= λ k. kputs "hhdm=" >> kputhex k.hhdm_offset >> kputs "\r\n")
    ∷ ("heapdump", heapdump_command fuel)
    ∷ []

unfoldable pub dispatch : (fuel : ℕ) → List (String × Cmd (Unit {0})) → Cmd (Unit {0})
unfolding is_command
dispatch fuel [] = kputs "Invalid command"
dispatch fuel ((name, body) ∷ rest) = do
  chosen ← is_command fuel name
  let others = dispatch fuel rest
  if chosen then body else others

-- CommandContext = (Command){0}; at the end
unfoldable pub kshell : (fuel : ℕ) → Cmd (Unit {0})
unfolding dispatch malloc_command free_command freelist_command heapdump_command
kshell fuel = do dispatch fuel (commands fuel); modify (λ k. record k { command = λ _. 0 })
