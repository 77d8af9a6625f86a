-- ===== src/Kernel.antt =====
-- The state of the kernel: the types of src/kernel.h and the static variables of src/kernel.c, and
-- commands over that state.
pub mod Node
pub mod Page
pub mod Returns
use side_h_os.Base.{
  ℕ, ◌<◌, ◌≡◌, arith, false, ◌+◌, ◌-◌, List, [], ◌++◌, ltb, ◌==◌, if◌then◌else◌, ℤ, pos, negsuc,
}
use side_h_os.Base.Word.{add64, sub64}
use side_h_os.Bytes.{Bytes, Chars}

-- A pointer is its address.
abbrev pub Ptr : Type 0
Ptr = ℕ

abbrev pub null : Ptr
null = 0

pub null_no : (p : Ptr) → 0 < p → (p == null) ≡ false
null_no p h = ground arith

abbrev pub size_4kb : ℕ
size_4kb = 0x1000

abbrev pub uint8_max : ℕ
uint8_max = 255

-- An int8_t is its bit pattern, below 256; this is the number that it stands for.
abbrev pub int8 : ℕ → ℤ
int8 c = if ltb c 128 then pos c else negsuc (255 - c)

-- `base` is the physical address of the first frame, `length` a count of frames.
pub record Segment : Type 0 where
  pub base : ℕ
  pub length : ℕ

-- segments[255]; the entries from 255 on do not exist, and no command reads or writes them.
pub record FreeList : Type 0 where
  pub segments : ℕ → Segment
  pub cursor : ℕ  -- int8_t, as its bit pattern

pub record MemoryContext : Type 0 where
  pub freelist : FreeList
  pub heap_pages : Ptr

-- entries[UINT8_MAX]
pub record PointerList : Type 0 where
  pub entries : ℕ → Ptr
  pub cursor : ℕ  -- uint8_t

-- A lock is the byte that `lock cmpxchgb` works on.
abbrev pub Lock : Type 0
Lock = ℕ

-- The static variables. `bytes` is the memory by virtual address, and `sent` are the bytes handed to
-- serial_write, in order.
pub record Kernel : Type 0 where
  pub bytes : Bytes
  pub memory : MemoryContext
  pub command : Chars
  pub hhdm_offset : ℕ
  pub pointer_store : PointerList
  pub frame : ℕ
  pub serial_lock : Lock
  pub tasks : Ptr
  pub task_lock : Lock
  pub memory_lock : Lock
  pub sent : List ℕ

-- The static variables at boot, all zero.
abbrev pub initial : Bytes → Kernel
initial m = record {
  bytes = m;
  memory = record {
    freelist = record { segments = λ _. record { base = 0; length = 0 }; cursor = 0 };
    heap_pages = null;
  };
  command = λ _. 0;
  hhdm_offset = 0;
  pointer_store = record { entries = λ _. null; cursor = 0 };
  frame = 0;
  serial_lock = 0;
  tasks = null;
  task_lock = 0;
  memory_lock = 0;
  sent = [];
}

-- `fault` is an access outside an array, which C leaves undefined. `out_of_fuel` is a loop that has
-- not ended in the rounds that it was given.
pub data Run (A : Type 0) : Type 0 where
  ok : A → Kernel → Run A
  fault : Run A
  out_of_fuel : Run A

abbrev pub Cmd : Type 0 → Type 0
Cmd A = Kernel → Run A

abbrev pub pure : {A : Type 0} → A → Cmd A
pure a k = ok a k

module _ {A B : Type 0} where
  abbrev pub and_then : Run A → (A → Cmd B) → Run B
  and_then (ok a k) next = next a k
  and_then fault next = fault
  and_then out_of_fuel next = out_of_fuel

  infixl 5 ◌>>=◌ ◌>>◌
  abbrev pub ◌>>=◌ : Cmd A → (A → Cmd B) → Cmd B
  ◌>>=◌ m next k = and_then (m k) next

  abbrev pub ◌>>◌ : Cmd A → Cmd B → Cmd B
  m >> next = m >>= λ _. next

-- The state as it stands, and a change of it.
abbrev pub get : Cmd Kernel
get k = ok k k

abbrev pub modify : (Kernel → Kernel) → Cmd (Unit {0})
modify f k = ok tt (f k)

abbrev pub with_bytes : (Bytes → Bytes) → Kernel → Kernel
with_bytes f k = record k { bytes = f k.bytes }

-- The entry i of an array with the entry given anew.
abbrev pub replace {ℓ} : {A : Type ℓ} → (ℕ → A) → ℕ → A → ℕ → A
replace f i a j = if i == j then a else f j

abbrev pub with_freelist : (FreeList → FreeList) → Kernel → Kernel
with_freelist f k = record k { memory = record (k.memory) { freelist = f k.memory.freelist } }

-- segments[i] = s
abbrev pub set_segment : ℕ → Segment → FreeList → FreeList
set_segment i s l = record l { segments = replace l.segments i s }

unfoldable pub address_virtual_to_physical : Kernel → Ptr → ℕ
address_virtual_to_physical k virtual = sub64 virtual k.hhdm_offset

unfoldable pub address_physical_to_virtual : Kernel → ℕ → Ptr
address_physical_to_virtual k physical = add64 physical k.hhdm_offset
