-- ===== src/Heap/Pages.antt =====
-- The list of heap pages (src/kernel.c, Memory.heap_pages): the pages with their free nodes, the walk
-- of kmalloc over them, and what a change of one page leaves alone.
use side_h_os.Base.{
  ℕ, zero, suc, ◌+◌, ◌≤◌, ◌<◌, ◌≡◌, refl, ◌⊎◌, inl, inr, some, List, [], ◌∷◌, ◌++◌, arith, ap, ltb,
  if◌then◌else◌, Bool-cases, ltb→lt, ltb→le, length,
}
use side_h_os.Base.Word.{u64_mod}
use side_h_os.Bytes.{Bytes, load64}
use side_h_os.Kernel.{null_no, Ptr, null}
use side_h_os.Kernel.Page
use side_h_os.Heap.{find_page}
use side_h_os.Heap.Nodes.{Cell, Linked-Agree, load64-Agree, Agree}
use side_h_os.Heap.Search.{longest, AllShort}
use side_h_os.Heap.Replace.{IsPage}

-- A page with its free nodes.
abbrev pub HeapPage : Type 0
HeapPage = Ptr × List Cell

-- A page says of itself no more than it has: `largest` is at most the length of its longest node.
pub record IsSound (m : Bytes) (page : Ptr) (xs : List Cell) : Type 0 where
  pub is_page : IsPage m page xs
  pub honest : load64 m (Page.largest page) ≤ longest 0 xs
  pub not_null : 0 < page
  pub top : page + 4096 < u64_mod

-- The pointer p leads to the first page, and each page to the next.
abbrev pub Pages : Bytes → (p : Ptr) → List HeapPage → Type 0
Pages m p [] = p ≡ null
Pages m p ((page, xs) ∷ ps) =
    (p ≡ page) × IsSound m page xs × Pages m (load64 m (Page.next page)) ps

-- The n bytes from a are in no page.
abbrev pub FarRange : (a n : ℕ) → List HeapPage → Type 0
FarRange a n [] = Unit {0}
FarRange a n ((other, xs) ∷ ps) = ((a + n ≤ other) ⊎ (other + 4096 ≤ a)) × FarRange a n ps

-- Two pages are different frames.
abbrev pub FarFrom : Ptr → List HeapPage → Type 0
FarFrom page ps = FarRange page 4096 ps

abbrev pub AllApart : List HeapPage → Type 0
AllApart [] = Unit {0}
AllApart ((page, xs) ∷ ps) = FarFrom page ps × AllApart ps

-- The fuel that the walks over pages and nodes need.
abbrev pub AllBelow : ℕ → List HeapPage → Type 0
AllBelow fuel [] = Unit {0}
AllBelow fuel ((page, xs) ∷ ps) = (length xs < fuel) × AllBelow fuel ps

abbrev pub AllLow : Bytes → (total : ℕ) → List HeapPage → Type 0
AllLow m total [] = Unit {0}
AllLow m total ((page, xs) ∷ ps) = (load64 m (Page.largest page) < total) × AllLow m total ps

-- The first page whose `largest` is `total` or more; or none.
pub data FirstFit (m : Bytes) (total : ℕ) (ps : List HeapPage) : Ptr → Type 0 where
  no_page : AllLow m total ps → FirstFit m total ps null
  page_at :
      (qs : List HeapPage) (page : Ptr) (xs : List Cell) (rs : List HeapPage)
      → ps ≡ qs ++ (page, xs) ∷ rs
      → AllLow m total qs
      → total ≤ load64 m (Page.largest page)
      → FirstFit m total ps page

skip_page :
    {m : Bytes} {total page r : ℕ} {xs : List Cell} {ps : List HeapPage}
    → load64 m (Page.largest page) < total
    → FirstFit m total ps r
    → FirstFit m total ((page, xs) ∷ ps) r
skip_page low (no_page all) = no_page (low, all)
skip_page {page} {xs} low (page_at qs p ys rs e all fit) =
    page_at ((page, xs) ∷ qs) p ys rs (ap (λ zs. (page, xs) ∷ zs) e) (low, all) fit

pub find_page-FirstFit :
    (m : Bytes) (total f p : ℕ) (ps : List HeapPage)
    → Pages m p ps
    → length ps < f
    → (r : Ptr) × (find_page f m total p ≡ some r) × FirstFit m total ps r
unfolding find_page
find_page-FirstFit m total zero p ps h fuel = elim fuel [ ]
find_page-FirstFit m total (suc f) p [] h fuel = rw h (null, refl, no_page tt)
find_page-FirstFit m total (suc f) p ((page, xs) ∷ ps) h fuel =
    let at = null_no page h.1.not_null in
    elim (Bool-cases (ltb (load64 m (Page.largest page)) total)) [
      | inl low ↦
          let (r, e, first) =
            find_page-FirstFit m total f (load64 m (Page.next page)) ps h.2 (omega arith) in
          (r, rw (h.0, at, low) e, skip_page (ltb→lt _ _ low) first)
      | inr fits ↦ (page, rw (h.0, at, fits), page_at [] page xs ps refl tt (ltb→le _ _ fits))
    ]

-- A page survives a change elsewhere.
IsSound-Agree :
    (m m' : Bytes) (page : Ptr) (xs : List Cell)
    → IsSound m page xs
    → Agree m m' page (page + 4096)
    → IsSound m' page xs
IsSound-Agree m m' page xs s same =
    let is = s.is_page in
    record {
      is_page = record {
        linked =
            Linked-Agree m m' page (page + 32) (page + 4096) xs is.linked is.layout is.top
              (load64-Agree m m' page (page + 4096) page same (omega arith) (omega arith))
              (λ q u v. same q (omega arith) v);
        layout = is.layout;
        top = is.top;
      };
      honest =
          rw
            (load64-Agree m m' page (page + 4096) (Page.largest page) same (omega (arith, s.top))
              (omega (arith, s.top)))
            s.honest;
      not_null = s.not_null;
      top = s.top;
    }

-- Memory outside a page is what it was.
abbrev pub SameBut : Ptr → Bytes → Bytes → Type 0
SameBut page m m' = (q : ℕ) → (q < page) ⊎ (page + 4096 ≤ q) → m q ≡ m' q

pub Pages-FarRange :
    (m m' : Bytes) (a n p : ℕ) (ps : List HeapPage)
    → Pages m p ps
    → FarRange a n ps
    → ((q : ℕ) → (q < a) ⊎ (a + n ≤ q) → m q ≡ m' q)
    → Pages m' p ps
Pages-FarRange m m' a n p [] h far same = h
Pages-FarRange m m' a n p ((other, xs) ∷ ps) h far same =
    let here : Agree m m' other (other + 4096) = λ q u v. same q (omega (arith, far.0)) in
    (
      h.0,
      IsSound-Agree m m' other xs h.1 here,
      rw
          (load64-Agree m m' other (other + 4096) (Page.next other) here (omega (arith, h.1.top))
            (omega (arith, h.1.top)))
          (Pages-FarRange m m' a n (load64 m (Page.next other)) ps h.2 far.1 same),
    )

pub FarFrom-page :
    (p page : Ptr) (xs : List Cell) (qs rs : List HeapPage)
    → FarFrom p (qs ++ (page, xs) ∷ rs)
    → (p + 4096 ≤ page) ⊎ (page + 4096 ≤ p)
FarFrom-page p page xs [] rs h = h.0
FarFrom-page p page xs (q ∷ qs) rs h = FarFrom-page p page xs qs rs h.1

-- One page gets other nodes, and its word that leads to the next page stays.
pub Pages-replace :
    (m m' : Bytes) (page p : Ptr) (xs ys : List Cell) (qs rs : List HeapPage)
    → Pages m p (qs ++ (page, xs) ∷ rs)
    → AllApart (qs ++ (page, xs) ∷ rs)
    → SameBut page m m'
    → load64 m' (Page.next page) ≡ load64 m (Page.next page)
    → IsSound m' page ys
    → Pages m' p (qs ++ (page, ys) ∷ rs)
Pages-replace m m' page p xs ys [] rs h apart same next sound =
    (h.0, sound, rw next (Pages-FarRange m m' page 4096 _ rs h.2 apart.0 same))
Pages-replace m m' page p xs ys ((other, zs) ∷ qs) rs h apart same next sound =
    let far = FarFrom-page other page xs qs rs apart.0 in
    let here : Agree m m' other (other + 4096) = λ q u v. same q (omega (arith, far)) in
    (
      h.0,
      IsSound-Agree m m' other zs h.1 here,
      rw
          (load64-Agree m m' other (other + 4096) (Page.next other) here (omega (arith, h.1.top))
            (omega (arith, h.1.top)))
          (Pages-replace m m' page (load64 m (Page.next other)) xs ys qs rs h.2 apart.1 same next
            sound),
    )

pub Pages-at :
    (m : Bytes) (page p : Ptr) (xs : List Cell) (qs rs : List HeapPage)
    → Pages m p (qs ++ (page, xs) ∷ rs)
    → IsSound m page xs
Pages-at m page p xs [] rs h = h.1
Pages-at m page p xs ((other, zs) ∷ qs) rs h =
    Pages-at m page (load64 m (Page.next other)) xs qs rs h.2

-- Where a page lies does not depend on its nodes.
pub FarFrom-replace :
    (p page : Ptr) (xs ys : List Cell) (qs rs : List HeapPage)
    → FarFrom p (qs ++ (page, xs) ∷ rs)
    → FarFrom p (qs ++ (page, ys) ∷ rs)
FarFrom-replace p page xs ys [] rs h = h
FarFrom-replace p page xs ys (q ∷ qs) rs h = (h.0, FarFrom-replace p page xs ys qs rs h.1)

pub AllApart-replace :
    (page : Ptr) (xs ys : List Cell) (qs rs : List HeapPage)
    → AllApart (qs ++ (page, xs) ∷ rs)
    → AllApart (qs ++ (page, ys) ∷ rs)
AllApart-replace page xs ys [] rs h = h
AllApart-replace page xs ys ((q, zs) ∷ qs) rs h =
    (FarFrom-replace q page xs ys qs rs h.0, AllApart-replace page xs ys qs rs h.1)

pub AllBelow-at :
    (fuel : ℕ) (page : Ptr) (xs : List Cell) (qs rs : List HeapPage)
    → AllBelow fuel (qs ++ (page, xs) ∷ rs)
    → length xs < fuel
AllBelow-at fuel page xs [] rs h = h.0
AllBelow-at fuel page xs (q ∷ qs) rs h = AllBelow-at fuel page xs qs rs h.1

-- A page whose longest node is long enough has a node that is.
pub longest-AllShort :
    (total acc : ℕ) (xs : List Cell) → AllShort total xs → acc < total → longest acc xs < total
longest-AllShort total acc [] all low = low
longest-AllShort total acc ((a, l) ∷ xs) all low =
    longest-AllShort total (if ltb acc l then l else acc) xs all.1
      (elim (Bool-cases (ltb acc l)) [ inl more ↦ rw more all.0 | inr less ↦ rw less low ])
