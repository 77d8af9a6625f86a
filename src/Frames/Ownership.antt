-- ===== src/Frames/Ownership.antt =====
-- Runs of the frame allocator (src/kernel.c): callers that take frames and give back frames that they
-- hold, in any order.
use mathlib.Core.List.{Perm, Mem, append_assoc, mem-append_left, mem-cons}
use mathlib.Core.Logic.Or
use mathlib.Core.List.Perm
use native.Mathlib.Decide.{dec_lt}
use side_h_os.Base.{
  ℕ, zero, suc, ◌+◌, ◌-◌, ◌*◌, ◌≤◌, ◌<◌, ◌≡◌, refl, ◌≢◌, inl, inr, List, ◌∷◌, ◌++◌, arith, true,
  false, sym, ap, ◌∙◌, ltb, Bool-cases, ltb→lt,
}
use side_h_os.Base.Word.{u64_mod}
use side_h_os.Kernel.{size_4kb, Kernel, Run, ok}
use side_h_os.Kernel.Returns.{Returns-ok}
use side_h_os.Frames.{
  memory_allocate_frame, memory_allocate_frames, memory_free_frame, memory_free_frames,
  push_segment, visible,
}
use side_h_os.Frames.Ledger.{run, frames, IsWellFormed, perm_left}
use side_h_os.Frames.Taken.{freelist_of, Taken}
use side_h_os.Frames.Allocate.{memory_allocate_frame-cases, memory_allocate_frames-cases}
use side_h_os.Frames.Pushed.{Given}
use side_h_os.Frames.Free.{memory_free_frame-cases, memory_free_frames-Given}

-- One call that succeeds, with the frames that the callers hold before and after it. A caller gives
-- back frames that are held.
pub data Step : (k : Kernel) (held : List ℕ) (k' : Kernel) (held' : List ℕ) → Type 0 where
  take_one :
      {k k' : Kernel} {held : List ℕ} {p : ℕ}
      → memory_allocate_frame k ≡ ok p k'
      → p ≢ 0
      → Step k held k' (p ∷ held)
  take_many :
      {k k' : Kernel} {held : List ℕ} {p : ℕ} (c : ℕ)
      → memory_allocate_frames c k ≡ ok p k'
      → 0 < c
      → p ≢ 0
      → Step k held k' (run p c ++ held)
  give_one :
      {k k' : Kernel} {held left : List ℕ} (p : ℕ)
      → memory_free_frame p k ≡ ok true k'
      → Perm held (p ∷ left)
      → Step k held k' left
  give_many :
      {k k' : Kernel} {held left : List ℕ} (p c : ℕ)
      → memory_free_frames p c k ≡ ok true k'
      → 0 < c
      → Perm held (run p c ++ left)
      → Step k held k' left

pub data Reach (k : Kernel) (held : List ℕ) : (k' : Kernel) (held' : List ℕ) → Type 0 where
  here : Reach k held k held
  next :
      {k₁ k₂ : Kernel} {xs ys : List ℕ} → Reach k held k₁ xs → Step k₁ xs k₂ ys → Reach k held k₂ ys

-- The frames that exist, `all`, are those that are held and those that are free.
pub record Inv (all : List ℕ) (k : Kernel) (held : List ℕ) : Type 0 where
  pub formed : IsWellFormed k.hhdm_offset (freelist_of k)
  pub small : k.memory.heap_pages < u64_mod
  pub ledger : Perm all (held ++ frames (freelist_of k))
  pub room : (p : ℕ) → Mem p all → p + size_4kb + k.hhdm_offset < u64_mod

visible_blind : (c : ℕ) → 128 ≤ c → visible c ≡ 0
visible_blind c h = ground arith

-- A cursor from 128 on is negative as an int8_t: nothing is found.
pub allocate_frame_blind :
    (k : Kernel) → 128 ≤ (freelist_of k).cursor → memory_allocate_frame k ≡ ok 0 k
unfolding memory_allocate_frame
allocate_frame_blind k h = rw (visible_blind _ h)

pub allocate_frames_blind :
    (c : ℕ) (k : Kernel) → 128 ≤ (freelist_of k).cursor → memory_allocate_frames c k ≡ ok 0 k
unfolding memory_allocate_frames
allocate_frames_blind c k h = rw (visible_blind _ h)

take_ledger :
    {all free : List ℕ} (held xs free' : List ℕ)
    → Perm all (held ++ free)
    → Perm free (xs ++ free')
    → Perm all ((xs ++ held) ++ free')
take_ledger held xs free' p q =
    rw append_assoc (Perm.trans (Perm.trans p (Perm.append_left held q)) (perm_left xs free' held))

give_ledger :
    {all held free' : List ℕ} (left xs free : List ℕ)
    → Perm all (held ++ free)
    → Perm held (xs ++ left)
    → Perm free' (xs ++ free)
    → Perm all (left ++ free')
give_ledger left xs free p q r = Perm.trans (Perm.trans p (Perm.append_right free q)) (
    rw append_assoc
      (Perm.trans (Perm.symm (perm_left xs free left)) (Perm.append_left left (Perm.symm r))))

module _ {all : List ℕ} {k : Kernel} {held : List ℕ} (inv : Inv all k held) where
  -- A frame that is held exists.
  held-room :
      {xs : List ℕ} (p : ℕ) → Perm held xs → Mem p xs → p + size_4kb + k.hhdm_offset < u64_mod
  held-room p q m =
      inv.room p ((Perm.mem_iff inv.ledger).1 (mem-append_left _ ((Perm.mem_iff q).1 m)))

  Taken-Inv :
      {k' : Kernel} {xs : List ℕ}
      → Taken xs k k'
      → k'.memory.heap_pages < u64_mod
      → Inv all k' (xs ++ held)
  Taken-Inv t small = record {
    formed = t.formed;
    small = small;
    ledger = take_ledger _ _ _ inv.ledger t.ledger;
    room = rw t.offset inv.room;
  }

  Given-Inv :
      {k' : Kernel} {xs left : List ℕ} → Perm held (xs ++ left) → Given xs k k' → Inv all k' left
  Given-Inv q g = record {
    formed = g.formed;
    small = rw (ap (λ (k : Kernel). k.memory.heap_pages) g.rest) inv.small;
    ledger = give_ledger _ _ _ inv.ledger q g.ledger;
    room = rw (ap (λ (k : Kernel). k.hhdm_offset) g.rest) inv.room;
  }

-- There is no entry 255: a release of several frames that ends had room for a segment.
free_frames_below :
    (p c : ℕ) (k k' : Kernel) → memory_free_frames p c k ≡ ok true k' → (freelist_of k).cursor < 255
unfolding memory_free_frames push_segment
free_frames_below p c k k' e = elim (Bool-cases (ltb (freelist_of k).cursor 255)) [
  | inl below ↦ ltb→lt _ _ below
  | inr full ↦ ground arith
]

-- Where 0 is no frame, an allocation that succeeds looked at fewer than 128 segments.
few_segments :
    (k k' : Kernel) (p : ℕ) (r : Run ℕ)
    → (128 ≤ (freelist_of k).cursor → r ≡ ok 0 k)
    → r ≡ ok p k'
    → p ≢ 0
    → (freelist_of k).cursor < 128
few_segments k k' p r blind e ne = elim (dec_lt (freelist_of k).cursor 128) [
  | yes few ↦ few
  | no many ↦ absurd (ne (zero_only (sym e ∙ blind (omega arith))))
]
  where
    zero_only : ok p k' ≡ ok 0 k → p ≡ 0
    zero_only h = cc

take_one-Inv :
    {all : List ℕ} (k k' : Kernel) (held : List ℕ) (p : ℕ)
    → Inv all k held
    → memory_allocate_frame k ≡ ok p k'
    → p ≢ 0
    → Inv all k' (p ∷ held)
take_one-Inv k k' held p inv e ne =
    let few = few_segments k k' p _ (allocate_frame_blind k) e ne in
    elim (Returns-ok p k' (memory_allocate_frame-cases k inv.formed few inv.small) e) [
      | inl new ↦ Taken-Inv inv new.taken (omega (arith, new.head, new.fits))
      | inr nothing ↦ absurd (ne nothing.1)
    ]

take_many-Inv :
    {all : List ℕ} (k k' : Kernel) (held : List ℕ) (p c : ℕ)
    → Inv all k held
    → memory_allocate_frames c k ≡ ok p k'
    → 0 < c
    → p ≢ 0
    → Inv all k' (run p c ++ held)
take_many-Inv k k' held p c inv e pos ne =
    let few = few_segments k k' p _ (allocate_frames_blind c k) e ne in
    elim (Returns-ok p k' (memory_allocate_frames-cases k inv.formed few c pos) e) [
      | inl new ↦ Taken-Inv inv new.taken (rw new.head inv.small)
      | inr nothing ↦ absurd (ne nothing.1)
    ]

refused_not : true ≢ false
refused_not e = cc

give_one-Inv :
    {all : List ℕ} (k k' : Kernel) (held left : List ℕ) (p : ℕ)
    → Inv all k held
    → memory_free_frame p k ≡ ok true k'
    → Perm held (p ∷ left)
    → Inv all k' left
give_one-Inv k k' held left p inv e q =
    elim (Returns-ok true k'
      (memory_free_frame-cases k inv.formed p (held-room inv p q (mem-cons.1 (Or.inl refl)))) e) [
        | inl (_, given) ↦ Given-Inv inv q given
        | inr refused ↦ absurd (refused_not refused.0)
      ]

-- The address of the last frame of a run belongs to it.
run-last : (p c : ℕ) → 0 < c → Mem (p + size_4kb * (c - 1)) (run p c)
run-last p zero h = elim h [ ]
run-last p (suc c) h = mem-cons.1 (Or.inl (omega arith))

give_many-Inv :
    {all : List ℕ} (k k' : Kernel) (held left : List ℕ) (p c : ℕ)
    → Inv all k held
    → memory_free_frames p c k ≡ ok true k'
    → 0 < c
    → Perm held (run p c ++ left)
    → Inv all k' left
give_many-Inv k k' held left p c inv e pos q =
    let room = held-room inv _ q (mem-append_left left (run-last p c pos)) in
    let below = free_frames_below p c k k' e in
    let given =
      Returns-ok true k' (memory_free_frames-Given k inv.formed p c below (omega (arith, room)))
        e in
    Given-Inv inv q given.1

Step-Inv :
    {all : List ℕ} {k k' : Kernel} {held held' : List ℕ}
    → Step k held k' held'
    → Inv all k held
    → Inv all k' held'
Step-Inv (take_one {k} {k'} {held} {p} e ne) inv = take_one-Inv k k' held p inv e ne
Step-Inv (take_many {k} {k'} {held} {p} c e pos ne) inv = take_many-Inv k k' held p c inv e pos ne
Step-Inv (give_one {k} {k'} {held} {left} p e q) inv = give_one-Inv k k' held left p inv e q
Step-Inv (give_many {k} {k'} {held} {left} p c e pos q) inv =
    give_many-Inv k k' held left p c inv e pos q

-- However callers take and give back frames, from a well-formed state on, the frames that are held and those that are free are together the frames that there were at first, each as often: no frame is lost and none is handed out twice. The free list stays well formed.
pub Reach-Inv :
    {all : List ℕ} {k : Kernel} {held : List ℕ} {k' : Kernel} {held' : List ℕ}
    → Inv all k held
    → Reach k held k' held'
    → Inv all k' held'
Reach-Inv inv here = inv
Reach-Inv inv (next r s) = Step-Inv s (Reach-Inv inv r)
