-- ===== src/Heap/Client.antt =====
-- kmalloc as its callers see it (src/kernel.c): any size, with a segment that has the frames it may need.
use side_h_os.Base.{
  ℕ, zero, suc, ◌+◌, ◌≤◌, ◌<◌, ◌≡◌, ◌≢◌, ◌⊎◌, inl, inr, List, [], arith, ap, length, length-append,
}
use native.Mathlib.Decide.{ℕ_discrete}
use side_h_os.Base.Word.{u64_mod}
use side_h_os.Kernel.{Ptr, Kernel, Segment}
use side_h_os.Kernel.Returns
use side_h_os.Kernel.Returns.{Returns, returns}
use side_h_os.Frames.Ledger.{segment_run, frames, frames_upto}
use side_h_os.Frames.Taken.{freelist_of, segment_of, length-run}
use side_h_os.Heap.{kmalloc, frame_counts, small_page_maximum_size}
use side_h_os.Heap.Pages.{HeapPage}
use side_h_os.Heap.Grow.{Spare}
use side_h_os.Heap.Kmalloc.{kmalloc-Allocated}
use side_h_os.Heap.Large.{LargeBlock, kmalloc-LargeBlock}
use side_h_os.Heap.Contract.{Store, Keeps, Gives}
use side_h_os.Heap.Serve.{Serves, Allocated-Serves, Keeps-weaken}
use side_h_os.Heap.ServeLarge.{large-Keeps, large-Gives}

segment-le : (f : ℕ → Segment) (n i : ℕ) → i < n → (f i).length ≤ length (frames_upto f n)
segment-le f zero i h = elim h [ ]
segment-le f (suc n) i h = elim (ℕ_discrete i n) [
  | yes last ↦ omega (
    arith,
    ap (λ j. (f j).length) last,
    length-append (segment_run (f n)) (frames_upto f n),
    length-run (f n).base (f n).length,
  )
  | no other ↦ omega (
    arith,
    segment-le f n i (omega (arith, other)),
    length-append (segment_run (f n)) (frames_upto f n),
  )
]

-- A segment has `need` frames.
pub record Room (k : Kernel) (need : ℕ) : Type 0 where
  pub segment : ℕ
  pub below : segment < (freelist_of k).cursor
  pub enough : need ≤ (segment_of k segment).length

Room-frames : (k : Kernel) (need : ℕ) → Room k need → 0 < need → frames (freelist_of k) ≢ []
Room-frames k need room pos e = omega (
  arith,
  ap length e,
  room.enough,
  segment-le (freelist_of k).segments (freelist_of k).cursor room.segment room.below,
)

Store-Spare :
    (k : Kernel) (ps : List HeapPage) → Store k ps → frames (freelist_of k) ≢ [] → Spare k ps
Store-Spare k ps store some_frame = record {
  formed = store.formed;
  few = store.few;
  frame = some_frame;
  far = λ p m. let (_, pos, top, far) = store.placed p m in (pos, top, far);
}

module _ (k : Kernel) (ps : List HeapPage) (fuel size : ℕ) (store : Store k ps)
    (free : k.memory_lock ≡ 0) (room : Room k (frame_counts size)) where
  Serves-small :
      255 ≤ fuel
      → length ps < fuel
      → size ≤ small_page_maximum_size
      → Returns (Serves size k ps) (kmalloc fuel size k)
  Serves-small enough pages small =
      let pos : 0 < frame_counts size = omega arith in
      Returns.mono
        (kmalloc-Allocated k ps fuel size store.heap
          (Store-Spare k ps store (Room-frames k (frame_counts size) room pos)) free enough pages
          small)
        (λ b k' (out, open_again, _). Allocated-Serves k ps size b k' store pos open_again out)

  LargeBlock-Serves :
      (c : ℕ)
      → 0 < c
      → (p : ℕ) (b : Ptr) (k' : Kernel) → LargeBlock k size p c b k'
      → k'.memory_lock ≡ 0
      → (ps' : List HeapPage) × Keeps c 1 k ps k' ps'
        × Gives b size k ps k' ps'
        × (k'.memory_lock ≡ 0)
  LargeBlock-Serves zero pos p b k' block open_again = elim pos [ ]
  LargeBlock-Serves (suc n) pos p b k' block open_again = (
    ps,
    Keeps-weaken (omega arith) (omega arith) (large-Keeps k ps store size n p b k' block),
    large-Gives k ps store size n p b k' block,
    open_again,
  )

  Serves-large :
      small_page_maximum_size < size
      → size + 4096 + 40 < u64_mod
      → Returns (Serves size k ps) (kmalloc fuel size k)
  Serves-large large fits =
      Returns.mono
        (kmalloc-LargeBlock k fuel size store.formed store.few free
          (omega (arith, store.formed.fits room.segment room.below, room.enough)) (large, fits))
        (λ b k' (open_again, out). elim out [
          | inl (p, block) ↦
              LargeBlock-Serves (frame_counts size) (omega arith) p b k' block open_again
          | inr (short, _, _) ↦ absurd (omega (arith, short room.segment room.below, room.enough))
        ])

  -- kmalloc of any size for which size + 4136 is below 2 ^ 64, from an open lock, a well-formed heap and a free list of fewer than 128 segments one of which has the frames that a block of this size may take, ends and leaves the lock open. The block is not NULL, and none of its bytes was in use before: none was in a block that a caller holds, since the bytes in use are those that are in no free frame, in no free node and in no page's header. All its bytes are in use afterwards, and every byte that was in use has its value and stays in use. The heap stays well formed, and of the static variables only the free list, the head of the heap pages and the lock change.
  pub kmalloc-Serves :
      255 ≤ fuel
      → length ps < fuel
      → size + 4096 + 40 < u64_mod
      → Returns (Serves size k ps) (kmalloc fuel size k)
  kmalloc-Serves enough pages fits = elim (small_or_large size) [
    | inl small ↦ Serves-small enough pages small
    | inr large ↦ Serves-large large fits
  ]
    where
      small_or_large :
          (size : ℕ) → (size ≤ small_page_maximum_size) ⊎ (small_page_maximum_size < size)
      small_or_large size = omega arith
