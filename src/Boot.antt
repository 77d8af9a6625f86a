-- ===== src/Boot.antt =====
-- kmain of src/kernel.c: the checks of the bootloader's answers, the loop over the memory map, and the
-- addresses that the other processors start at. kmain never returns: it halts, here or there.
pub mod Segments
pub mod Creation
mod Tests
use side_h_os.Base.{
  ℕ, zero, suc, ◌+◌, ◌/◌, ◌%◌, Bool, true, false, Option, none, some, List, [], ◌∷◌, ltb, ◌==◌,
  if◌then◌else◌,
}
use side_h_os.Base.Word.{add64, sub64, page_floor}
use mathlib.Core.Bool.{not}
use side_h_os.Tasks.{Code, task_init, serial_acquire, serial_release}
use side_h_os.Tasks.Task
use side_h_os.Heap.{kmalloc}
use side_h_os.Console.{kputs}
use side_h_os.Kernel.{
  Ptr, Segment, FreeList, Kernel, Cmd, ok, fault, pure, ◌>>=◌, ◌>>◌, modify, set_segment,
  with_freelist,
}

-- A memory map entry, and the type of usable memory.
pub record MemmapEntry : Type 0 where
  pub base : ℕ
  pub length : ℕ
  pub kind : ℕ

abbrev pub limine_memmap_usable : ℕ
limine_memmap_usable = 0

abbrev pub aligned_start : MemmapEntry → ℕ
aligned_start e = page_floor (add64 e.base 0xfff)

abbrev pub aligned_end : MemmapEntry → ℕ
aligned_end e = page_floor (add64 (sub64 (add64 e.base e.length) 1) 0xfff)

abbrev pub entry_segment : MemmapEntry → Segment
entry_segment e = record {
  base = aligned_start e;
  length = sub64 (aligned_end e) (aligned_start e) / 4096;
}

-- segments[*cursor] = s; (*cursor)++; with the cursor an int8_t. A negative index is out of bounds.
unfoldable pub append_segment : Segment → Cmd (Unit {0})
append_segment s k =
    if ltb k.memory.freelist.cursor 128
    then ok tt
        (with_freelist (λ l. record (set_segment l.cursor s l) { cursor = (l.cursor + 1) % 256 }) k)
    else fault

unfoldable pub add_entry : MemmapEntry → Cmd (Unit {0})
unfolding append_segment
add_entry e =
    if e.kind == limine_memmap_usable
    then (if aligned_start e == aligned_end e then pure tt else append_segment (entry_segment e))
    else pure tt

-- for (uint64_t i = 0; i < entry_count; i++)
unfoldable pub add_entries : List MemmapEntry → Cmd (Unit {0})
unfolding add_entry
add_entries [] = pure tt
add_entries (e ∷ es) = add_entry e >> add_entries es

-- A processor as the bootloader lists it; it starts to run at goto_address once that is written.
pub record CpuInfo : Type 0 where
  pub lapic_id : ℕ
  pub goto_address : Ptr

pub record MpResponse : Type 0 where
  pub bsp_lapic_id : ℕ
  pub cpus : List CpuInfo

-- What the bootloader answered; `none` is a response that is NULL.
pub record Responses : Type 0 where
  pub revision_supported : Bool
  pub memmap : Option (List MemmapEntry)
  pub paging : Option (Unit {0})
  pub hhdm : Option ℕ
  pub mp : Option MpResponse

-- Where kmain halts: for want of something, or when everything has been started.
pub data Halted : Type 0 where
  revision : Halted
  memmap : Halted
  paging : Halted
  hhdm : Halted
  mp : Halted
  started : List CpuInfo → Halted

-- The loop that starts the other processors.
unfoldable pub start_cpus : (ap_entry bsp_id : ℕ) → List CpuInfo → List CpuInfo
start_cpus ap_entry bsp_id [] = []
start_cpus ap_entry bsp_id (cpu ∷ cpus) =
    (if cpu.lapic_id == bsp_id then cpu else record cpu { goto_address = ap_entry })
    ∷ start_cpus ap_entry bsp_id cpus

-- while (i-- > 0): a task of each kind
unfoldable pub create_tasks : Code → (fuel rounds : ℕ) → Cmd (Unit {0})
create_tasks code fuel zero = pure tt
create_tasks code fuel (suc n) = do
  factorial_task ← kmalloc fuel Task.size
  task_init code fuel factorial_task code.factorial_task
  fibonacci_task ← kmalloc fuel Task.size
  task_init code fuel fibonacci_task code.fibonacci_task
  create_tasks code fuel n

-- kmain from the multiprocessor response on. init_hardware works on the port alone.
unfoldable pub start_tasks : Code → (fuel ap_entry : ℕ) → Option MpResponse → Cmd Halted
unfolding start_cpus create_tasks
start_tasks code fuel ap_entry none = pure mp
start_tasks code fuel ap_entry (some response) = do
  create_tasks code fuel 1000
  serial_acquire
  kputs "Hello, World!\r\n"
  serial_release
  pure (started (start_cpus ap_entry response.bsp_lapic_id response.cpus))

unfoldable pub start_paging :
    Code → (fuel ap_entry : ℕ) → Option (Unit {0}) → Option ℕ → Option MpResponse → Cmd Halted
unfolding start_tasks
start_paging code fuel ap_entry none h m = pure paging
start_paging code fuel ap_entry (some p) none m = pure hhdm
start_paging code fuel ap_entry (some p) (some offset) m = do
  modify (λ k. record k { hhdm_offset = offset })
  start_tasks code fuel ap_entry m

unfoldable pub kmain : Code → (fuel ap_entry : ℕ) → Responses → Cmd Halted
unfolding add_entries start_paging
kmain code fuel ap_entry r = if not r.revision_supported then pure revision else elim r.memmap [
  | none ↦ pure memmap
  | some [] ↦ pure memmap
  | some (e ∷ es) ↦ add_entries (e ∷ es) >> start_paging code fuel ap_entry r.paging r.hhdm r.mp
]
