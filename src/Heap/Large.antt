-- ===== src/Heap/Large.antt =====
-- kmalloc and kfree of blocks that take frames of their own (src/kernel.c).
use mathlib.Core.List.{Perm}
use mathlib.Core.Logic.Or
use mathlib.Core.List.Perm
use side_h_os.Base.{
  ℕ, ◌+◌, ◌*◌, ◌-◌, ◌%◌, ◌≤◌, ◌<◌, ◌≡◌, refl, ◌⊎◌, inl, inr, arith, ap, ◌∙◌, lt→ltb, true, ltb,
}
use side_h_os.Base.Word.{add64, sub64, u64_mod, page_floor}
use side_h_os.Bytes.{load64}
use side_h_os.Kernel.{
  Ptr, size_4kb, Kernel, ok, with_freelist, and_then, address_physical_to_virtual,
  address_virtual_to_physical,
}
use side_h_os.Kernel.Page
use side_h_os.Kernel.Returns
use side_h_os.Kernel.Returns.{Returns, returns}
use side_h_os.Lock.{lock_self, put_memory_lock}
use side_h_os.Frames.{memory_allocate_frames, memory_free_frames}
use side_h_os.Frames.Ledger.{run, IsWellFormed}
use side_h_os.Frames.Taken.{NewFrames, freelist_of, segment_of}
use side_h_os.Frames.Allocate.{memory_allocate_frames-cases}
use side_h_os.Frames.Pushed.{Given}
use side_h_os.Frames.Free.{memory_free_frames-Given}
use side_h_os.Heap.{kmalloc, kmalloc_large, kfree, frame_counts, small_page_maximum_size}

-- A block of `size` bytes at b: c frames from p that the free list loses, enough for the header, the
-- size word and the block; the size word says what they hold.
pub record LargeBlock (k : Kernel) (size : ℕ) (p c : ℕ) (b : Ptr) (k' : Kernel) : Type 0 where
  pub address : b ≡ p + k.hhdm_offset + 40
  pub enough : size + 40 ≤ size_4kb * c
  pub frames_of : NewFrames c k p k'
  pub size_word : load64 k'.bytes (b - 8) ≡ size_4kb * c - 40

-- A size for which the sums of kmalloc do not wrap.
abbrev pub IsLarge : ℕ → Type 0
IsLarge size = (small_page_maximum_size < size) × (size + size_4kb + 40 < u64_mod)

counts-enough : (size : ℕ) → IsLarge size → size + 40 ≤ size_4kb * frame_counts size
counts-enough size h = omega arith

counts_pos : (size : ℕ) → IsLarge size → 0 < frame_counts size
counts_pos size h = omega arith

-- The frames that a size word says are the frames that were taken.
counts-word :
    (c : ℕ) → 0 < c → size_4kb * c < u64_mod - size_4kb → frame_counts (size_4kb * c - 40) ≡ c
counts-word c pos fits = omega arith

NewFrames-open :
    (c : ℕ) (k : Kernel) (p : ℕ) (k' : Kernel)
    → NewFrames c (put_memory_lock 1 k) p k'
    → NewFrames c k p (put_memory_lock 0 k')
NewFrames-open c k p k' new = record {
  taken = record {
    ledger = new.taken.ledger;
    formed = new.taken.formed;
    offset = new.taken.offset;
    cursor = new.taken.cursor;
    cut = new.taken.cut;
    rest = ap (put_memory_lock 0) new.taken.rest;
  };
  size = new.size;
  head = new.head;
  fits = new.fits;
  same = new.same;
}

kmalloc-large :
    (k : Kernel) (fuel size : ℕ)
    → k.memory_lock ≡ 0
    → small_page_maximum_size < size
    → kmalloc fuel size k
      ≡ and_then (memory_allocate_frames (frame_counts size) (put_memory_lock 1 k)) (λ p k'.
        ok (add64 (add64 (address_physical_to_virtual k' p) Page.size) 8) (put_memory_lock 0 k'))
unfolding kmalloc kmalloc_large
kmalloc-large k fuel size free large = rw (free, lt→ltb _ _ large) refl

to_virtual :
    (k k' : Kernel) (p : ℕ)
    → k'.hhdm_offset ≡ k.hhdm_offset
    → p + k.hhdm_offset + 40 < u64_mod
    → add64 (add64 (address_physical_to_virtual k' p) Page.size) 8 ≡ p + k.hhdm_offset + 40
unfolding address_physical_to_virtual
to_virtual k k' p same fits = rw same (omega arith)

-- kmalloc of a size that no page can hold and for which size + 4136 is below 2 ^ 64, from an open lock and a well-formed free list of fewer than 128 segments, leaves the lock open. Either the free list loses c consecutive frames, which hold the header, the size word and the block of at least the size asked for, 40 bytes behind the start of the first frame, with the size word 8 bytes in front of the block saying 4096 * c - 40, and no memory outside these frames changes; or every segment has fewer than c frames, nothing changes, and the answer is not NULL but the address 40 bytes behind the start of the direct map.
pub kmalloc-LargeBlock :
    (k : Kernel) (fuel size : ℕ)
    → IsWellFormed k.hhdm_offset (freelist_of k)
    → (freelist_of k).cursor < 128
    → k.memory_lock ≡ 0
    → k.hhdm_offset + 40 < u64_mod
    → IsLarge size
    → Returns
        (λ b k'.
          (k'.memory_lock ≡ 0)
          × (((p : ℕ) × LargeBlock k size p (frame_counts size) b k')
              ⊎ (((j : ℕ)
                    → j < (freelist_of k).cursor
                    → (segment_of k j).length < frame_counts size)
                  × (b ≡ k.hhdm_offset + 40)
                  × (k' ≡ k))))
        (kmalloc fuel size k)
kmalloc-LargeBlock k fuel size w few free low large = rw (kmalloc-large k fuel size free large.0) (
    Returns.bind
      (memory_allocate_frames-cases (put_memory_lock 1 k) w few (frame_counts size)
        (counts_pos size large))
      (λ p k' out. returns (
        refl,
        elim out [
          | inl new ↦
              let at =
                to_virtual k k' p new.taken.offset
                  (omega (arith, new.fits, counts-enough size large)) in
              inl (
                p,
                record {
                  address = at;
                  enough = counts-enough size large;
                  frames_of = NewFrames-open (frame_counts size) k p k' new;
                  size_word =
                      ap (λ a. load64 k'.bytes a)
                        (omega (arith, at, new.fits, counts-enough size large))
                      ∙ new.size;
                },
              )
          | inr (short, none_free, same) ↦ inr (
            short,
            to_virtual k k' p (ap (λ (k : Kernel). k.hhdm_offset) same) (omega (arith, none_free))
                ∙ omega (arith, none_free),
            ap (put_memory_lock 0) same ∙ lock_self k free,
          )
        ],
      )))

module _ (k : Kernel) (p c : ℕ) (b : Ptr) (free : k.memory_lock ≡ 0) (pos : 0 < c)
    (address : b ≡ p + k.hhdm_offset + 40) (aligned : (p + k.hhdm_offset) % size_4kb ≡ 0)
    (size_word : load64 k.bytes (b - 8) ≡ size_4kb * c - 40)
    (fits : p + k.hhdm_offset + size_4kb * c < u64_mod - size_4kb) where
  base_eq : sub64 b 8 ≡ b - 8
  base_eq = omega arith

  physical_eq : address_virtual_to_physical (put_memory_lock 1 k) (page_floor b) ≡ p
  unfolding address_virtual_to_physical
  physical_eq = omega arith

  word_large : ltb small_page_maximum_size (size_4kb * c - 40) ≡ true
  word_large = lt→ltb _ _ (omega arith)

  kfree-large :
      (fuel : ℕ)
      → kfree fuel b k
        ≡ and_then
            (memory_free_frames p c (put_memory_lock 1 k))
            (λ _ k'. ok true (put_memory_lock 0 k'))
  unfolding kfree
  kfree-large fuel =
      rw (free, base_eq, size_word, word_large, physical_eq, counts-word c pos (omega arith)) refl

  -- kfree of the address of a block of c frames from p, with an open lock, a size word as kmalloc wrote it, a well-formed free list of fewer than 255 segments, and frames that start at a page boundary of the direct map, returns true with the lock open, and the free list gains these c frames and no others.
  pub kfree-Given :
      (fuel : ℕ)
      → IsWellFormed k.hhdm_offset (freelist_of k)
      → (freelist_of k).cursor < 255
      → Returns
          (λ done k'. (done ≡ true) × (k'.memory_lock ≡ 0) × Given (run p c) k k')
          (kfree fuel b k)
  kfree-Given fuel w below = rw (kfree-large fuel) (
      Returns.bind (memory_free_frames-Given (put_memory_lock 1 k) w p c below (omega arith))
        (λ _ k' (_, given). returns (
          refl,
          refl,
          record {
            ledger = given.ledger;
            formed = given.formed;
            rest =
                ap (put_memory_lock 0) given.rest
                ∙ ap (with_freelist (λ _. freelist_of k')) (lock_self k free);
          },
        )))
