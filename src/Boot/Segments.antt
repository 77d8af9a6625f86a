-- ===== src/Boot/Segments.antt =====
-- The loop of kmain over the memory map (src/kernel.c), on a memory map as the boot protocol promises
-- it: usable entries begin and end at page boundaries.
use mathlib.Core.List.{append_assoc}
use mathlib.Core.List.Perm
use side_h_os.Base.{
  ℕ, ◌+◌, ◌/◌, ◌%◌, ◌≤◌, ◌<◌, ◌≡◌, refl, inl, inr, List, [], ◌∷◌, ◌++◌, true, arith, ◌==◌,
  if◌then◌else◌, Bool-cases, ==_iff, lt→ltb, ap, ◌∙◌,
}
use side_h_os.Base.Word.{u64_mod}
use side_h_os.Kernel.{Kernel, pure, with_freelist}
use side_h_os.Kernel.Returns
use side_h_os.Kernel.Returns.{Returns, returns}
use side_h_os.Frames.Ledger.{run, frames, IsWellFormed, perm_left}
use side_h_os.Frames.Taken.{freelist_of}
use side_h_os.Frames.Pushed.{Given, pushed-frames, pushed-IsWellFormed}
use side_h_os.Boot.{
  MemmapEntry, limine_memmap_usable, aligned_start, aligned_end, entry_segment, append_segment,
  add_entry, add_entries,
}

-- The entry begins and ends at a page boundary, and ends in the address space of the direct map.
pub record IsAligned (offset : ℕ) (e : MemmapEntry) : Type 0 where
  pub base_aligned : e.base % 4096 ≡ 0
  pub length_aligned : e.length % 4096 ≡ 0
  pub fits : e.base + e.length + offset + 4096 < u64_mod

abbrev pub AreAligned : ℕ → List MemmapEntry → Type 0
AreAligned offset [] = Unit {0}
AreAligned offset (e ∷ es) =
    (e.kind ≡ limine_memmap_usable → IsAligned offset e) × AreAligned offset es

-- The frames of an entry, and of all entries, that are usable.
abbrev pub entry_frames : MemmapEntry → List ℕ
entry_frames e = if e.kind == limine_memmap_usable then run e.base (e.length / 4096) else []

abbrev pub usable_frames : List MemmapEntry → List ℕ
usable_frames [] = []
usable_frames (e ∷ es) = entry_frames e ++ usable_frames es

abbrev pub entry_count : MemmapEntry → ℕ
entry_count e = if e.kind == limine_memmap_usable then 1 else 0

abbrev pub usable_count : List MemmapEntry → ℕ
usable_count [] = 0
usable_count (e ∷ es) = entry_count e + usable_count es

-- What the loop does: the free list gains the frames xs and grows by at most n segments.
pub record Added (xs : List ℕ) (n : ℕ) (k k' : Kernel) : Type 0 where
  pub given : Given xs k k'
  pub grows : (freelist_of k').cursor ≤ (freelist_of k).cursor + n

aligned_start-eq : (offset : ℕ) (e : MemmapEntry) → IsAligned offset e → aligned_start e ≡ e.base
aligned_start-eq offset e a = omega arith

aligned_end-eq :
    (offset : ℕ) (e : MemmapEntry) → IsAligned offset e → aligned_end e ≡ e.base + e.length
aligned_end-eq offset e a = omega arith

module _ (k : Kernel) (w : IsWellFormed k.hhdm_offset (freelist_of k)) where
  nothing-Added : (xs : List ℕ) (n : ℕ) → xs ≡ [] → Added xs n k k
  nothing-Added xs n e = record {
    given = record { ledger = rw e (Perm.refl _); formed = w; rest = refl };
    grows = omega arith;
  }

  module _ (e : MemmapEntry) (a : IsAligned k.hhdm_offset e) where
    segment-eq : entry_segment e ≡ record { base = e.base; length = e.length / 4096 }
    segment-eq =
        ground (arith, aligned_start-eq k.hhdm_offset e a, aligned_end-eq k.hhdm_offset e a)

    append_segment-Added :
        (freelist_of k).cursor + 1 < 128
        → Returns
            (λ _ k'. Added (run e.base (e.length / 4096)) 1 k k')
            (append_segment (entry_segment e) k)
    unfolding append_segment
    append_segment-Added room =
        rw (segment-eq, lt→ltb (freelist_of k).cursor 128 (omega arith))
          (returns (record {
            given = record {
              ledger =
                  rw (pushed-frames (freelist_of k) w e.base (e.length / 4096) (omega arith))
                    (Perm.refl _);
              formed =
                  pushed-IsWellFormed (freelist_of k) w e.base (e.length / 4096) (omega arith)
                    (omega (arith, a.fits));
              rest = refl;
            };
            grows = omega arith;
          }))

    -- Where start and end agree, the entry holds no frame.
    empty_run : (aligned_start e == aligned_end e) ≡ true → run e.base (e.length / 4096) ≡ []
    empty_run same = ap (run e.base) no_frame
      where
        no_frame : e.length / 4096 ≡ 0
        no_frame = omega (
          arith,
          (==_iff _ _).0 same,
          aligned_start-eq k.hhdm_offset e a,
          aligned_end-eq k.hhdm_offset e a,
        )

    usable-Added :
        (freelist_of k).cursor + 1 < 128
        → Returns
            (λ _ k'. Added (run e.base (e.length / 4096)) 1 k k')
            ((if aligned_start e == aligned_end e
                then pure tt
                else append_segment (entry_segment e))
              k)
    usable-Added room = elim (Bool-cases (aligned_start e == aligned_end e)) [
      | inl same ↦ rw same (returns (nothing-Added _ 1 (empty_run same)))
      | inr apart ↦ rw apart (append_segment-Added room)
    ]

  add_entry-Added :
      (e : MemmapEntry)
      → (e.kind ≡ limine_memmap_usable → IsAligned k.hhdm_offset e)
      → (freelist_of k).cursor + entry_count e < 128
      → Returns (λ _ k'. Added (entry_frames e) (entry_count e) k k') (add_entry e k)
  unfolding add_entry
  add_entry-Added e aligned room = elim (Bool-cases (e.kind == limine_memmap_usable)) [
    | inl usable ↦ rw usable (usable-Added e (aligned ((==_iff _ _).0 usable)) (rw usable at room))
    | inr other ↦ rw other (returns (nothing-Added [] 0 refl))
  ]

Added-trans :
    (xs ys : List ℕ) (m n : ℕ) (k k₁ k₂ : Kernel)
    → Added xs m k k₁
    → Added ys n k₁ k₂
    → Added (xs ++ ys) (m + n) k k₂
Added-trans xs ys m n k k₁ k₂ a b = record {
  given = record {
    ledger = rw append_assoc (
        Perm.trans b.given.ledger (
          Perm.trans (Perm.append_left ys a.given.ledger)
            (perm_left xs (frames (freelist_of k)) ys)));
    formed = b.given.formed;
    rest = b.given.rest ∙ ap (with_freelist (λ _. freelist_of k₂)) a.given.rest;
  };
  grows = omega (arith, a.grows, b.grows);
}

-- On a memory map whose usable entries begin and end at page boundaries, as the boot protocol promises, and that leaves the free list with fewer than 128 segments, the loop of kmain ends with no write out of bounds, and the free list gains every frame of the usable entries and no other and stays well formed.
pub add_entries-Added :
    (es : List MemmapEntry) (k : Kernel)
    → IsWellFormed k.hhdm_offset (freelist_of k)
    → AreAligned k.hhdm_offset es
    → (freelist_of k).cursor + usable_count es < 128
    → Returns (λ _ k'. Added (usable_frames es) (usable_count es) k k') (add_entries es k)
unfolding add_entries
add_entries-Added [] k w a room = returns (nothing-Added k w [] 0 refl)
add_entries-Added (e ∷ es) k w a room =
    Returns.bind (add_entry-Added k w e a.0 (omega arith)) λ _ k₁ first.
      let same : k₁.hhdm_offset ≡ k.hhdm_offset =
        ap (λ (k : Kernel). k.hhdm_offset) first.given.rest in
      Returns.mono
        (add_entries-Added es k₁ first.given.formed (rw same a.1) (omega (arith, first.grows)))
        λ _ k₂ others.
          Added-trans (entry_frames e) (usable_frames es) (entry_count e) (usable_count es) k k₁ k₂
            first others
