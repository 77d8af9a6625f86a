-- ===== src/Heap/Writes.antt =====
-- What callers write (src/kernel.c): a change of bytes that are in use leaves the heap as it is.
use side_h_os.Base.{ℕ, ◌+◌, ◌≤◌, ◌<◌, ◌≡◌, List, [], ◌∷◌, arith, sym, ◌∙◌}
use mathlib.Core.List.{Mem}
use mathlib.Core.Path.{subst}
use side_h_os.Base.Word.{u64_mod}
use side_h_os.Bytes.{Bytes, load64}
use side_h_os.Bytes.Words.{load64-agree, Outside}
use side_h_os.Kernel.{Ptr, Kernel}
use side_h_os.Kernel.Node
use side_h_os.Kernel.Page
use side_h_os.Frames.Ledger.{frames}
use side_h_os.Heap.Nodes.{Cell, Layout, Linked, Clear, Layout-le}
use side_h_os.Heap.Pages.{HeapPage, Pages, IsSound}
use side_h_os.Heap.Claims.{OffPages, InUse}
use side_h_os.Heap.Contract.{Store, IsPlaced}

module _ (m m' : Bytes) where
  Linked-writes :
      (s lo hi : ℕ) (xs : List Cell)
      → Layout lo hi xs
      → hi ≤ u64_mod
      → load64 m' s ≡ load64 m s
      → ((q : ℕ) → ¬ Clear q xs → m' q ≡ m q)
      → Linked m s xs
      → Linked m' s xs
  Linked-writes s lo hi [] lay top first same h = first ∙ h
  Linked-writes s lo hi ((a, l) ∷ xs) lay top first same h =
      let below = Layout-le (a + 16 + l) hi xs lay.1 in
      let node : (q : ℕ) → a ≤ q → q < a + 16 → m' q ≡ m q =
        λ q u v. same q (λ clear. omega (arith, clear.0)) in
      (
        first ∙ h.0,
        load64-agree m' m a (λ q u v. node q u (omega arith)) ∙ h.1,
        Linked-writes (Node.next a) (a + 16 + l) hi xs lay.1 top
            (load64-agree m' m (Node.next a) (λ q u v. node q (omega arith) (omega arith)))
            (λ q held. same q (λ clear. held clear.1)) h.2,
      )

  -- The bytes of a page that the heap works on are what they were.
  IsSound-writes :
      (page : Ptr) (xs : List Cell)
      → ((q : ℕ) → ¬ (Outside page 32 q × Clear q xs) → m' q ≡ m q)
      → IsSound m page xs
      → IsSound m' page xs
  IsSound-writes page xs same sound =
      let header : (q : ℕ) → page ≤ q → q < page + 32 → m' q ≡ m q =
        λ q u v. same q (λ off. omega (arith, off.0)) in
      let is = sound.is_page in
      record {
        is_page = record {
          linked =
              Linked-writes page (page + 32) (page + 4096) xs is.layout is.top
                (load64-agree m' m page (λ q u v. header q u (omega arith)))
                (λ q held. same q (λ off. held off.1)) is.linked;
          layout = is.layout;
          top = is.top;
        };
        honest =
            rw
              (load64-agree m' m (Page.largest page)
                (λ q u v. header q (omega (arith, sound.top)) (omega (arith, sound.top))))
              sound.honest;
        not_null = sound.not_null;
        top = sound.top;
      }

  pub Pages-writes :
      (p : Ptr) (ps : List HeapPage)
      → ((q : ℕ) → ¬ OffPages q ps → m' q ≡ m q)
      → Pages m p ps
      → Pages m' p ps
  Pages-writes p [] same h = h
  Pages-writes p ((page, xs) ∷ ps) same h = (
    h.0,
    IsSound-writes page xs (λ q held. same q (λ off. held (off.0, off.1))) h.1,
    rw (load64-agree m' m (Page.next page) (λ q u v. same q (λ off. omega (arith, off.0, h.1.top))))
        (Pages-writes (load64 m (Page.next page)) ps (λ q held. same q (λ off. held off.2)) h.2),
  )

-- A caller that writes bytes in use only keeps the heap well formed.
pub Store-writes :
    (k k' : Kernel) (ps : List HeapPage)
    → k'.memory ≡ k.memory
    → k'.hhdm_offset ≡ k.hhdm_offset
    → ((q : ℕ) → ¬ InUse k ps q → k'.bytes q ≡ k.bytes q)
    → Store k ps
    → Store k' ps
Store-writes k k' ps memory offset same store = record {
  heap = record {
    pages = rw memory (
        Pages-writes k.bytes k'.bytes k.memory.heap_pages ps
          (λ q held. same q (λ used. held used.0)) store.heap.pages);
    apart = store.heap.apart;
  };
  formed = rw (memory, offset) store.formed;
  few = rw memory store.few;
  distinct = rw memory store.distinct;
  placed = λ p m.
      subst (λ o. IsPlaced o ps p) (sym offset)
        (store.placed p (subst (λ c. Mem p (frames c.freelist)) memory m));
}

-- Which bytes are in use does not depend on what they hold.
pub InUse-same :
    (k k' : Kernel) (ps : List HeapPage) (q : ℕ)
    → k'.memory ≡ k.memory
    → k'.hhdm_offset ≡ k.hhdm_offset
    → InUse k ps q
    → InUse k' ps q
InUse-same k k' ps q memory offset (off, off_frames) =
    (off, λ p m. rw offset (off_frames p (subst (λ c. Mem p (frames c.freelist)) memory m)))
