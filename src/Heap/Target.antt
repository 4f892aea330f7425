-- ===== src/Heap/Target.antt =====
-- What RTtrace_pointer of rtgc.c takes a word to be a pointer to.
use rtgc.Common.{
  ℕ, ◌≡◌, refl, ap, Bool, true, false, ◌&&◌, Option, none, some, Run, ok, if◌then◌else◌,
}
use mathlib.Core.Path.{fun_ext}
use rtgc.InfoBits.{Ptr}
use rtgc.Group.{Group}
use rtgc.Heap.{
  Heap, Page, in_partition, ptr_to_page_index, in_group, whitep, valid_interior_ptr,
  interior_to_gcptr_3,
}
use rtgc.Heap.Groups.{
  KeepsHeap, KeepsShape, KeepsTable, KeepsShape-KeepsTable, KeepsHeap-KeepsShape,
}
use rtgc.Trace.{make_object_gray, trace_pointer}

-- The target of a word among the objects, with its group, whatever the colors.
abbrev pub choose : Bool → Option ℕ → (valid : ℕ → Bool) → (base : ℕ → Ptr) → Option (ℕ × Ptr)
choose true none valid base = none
choose true (some i) valid base = if valid i then some (i, base i) else none
choose false o valid base = none

unfoldable pub target : Heap → Ptr → Option (ℕ × Ptr)
target h ptr =
    let page = h.pages (ptr_to_page_index h ptr) in
    choose (in_partition h ptr) (in_group page.group)
      (λ i. valid_interior_ptr (interior_to_gcptr_3 ptr page (h.groups i)) ptr)
      (λ i. interior_to_gcptr_3 ptr page (h.groups i))

abbrev pub trace_target : Heap → Option (ℕ × Ptr) → Run Heap
trace_target h none = ok h
trace_target h (some (i, base)) = if whitep h base then make_object_gray base h else ok h

choose-traced :
    (h : Heap) (b : Bool) (o : Option ℕ) (valid : ℕ → Bool) (base : ℕ → Ptr)
    → (if b
        then elim o [
          | none ↦ ok h
          | some i ↦ if whitep h (base i) && valid i then make_object_gray (base i) h else ok h
        ]
        else ok h)
      ≡ trace_target h (choose b o valid base)
choose-traced h false o valid base = refl
choose-traced h true none valid base = refl
choose-traced h true (some i) valid base = both (valid i)
  where
    first : (w : Bool) (m n : Run Heap) → (if w && true then m else n) ≡ (if w then m else n)
    first true m n = refl
    first false m n = refl

    second : (w : Bool) (m n : Run Heap) → (if w && false then m else n) ≡ n
    second true m n = refl
    second false m n = refl

    both :
        (v : Bool)
        → (if whitep h (base i) && v then make_object_gray (base i) h else ok h)
          ≡ trace_target h (if v then some (i, base i) else none)
    both true = first (whitep h (base i)) _ _
    both false = second (whitep h (base i)) _ _

pub trace_pointer-eq-trace_target :
    (h : Heap) (ptr : Ptr) → trace_pointer ptr h ≡ trace_target h (target h ptr)
unfolding trace_pointer target
trace_pointer-eq-trace_target h ptr =
    choose-traced h (in_partition h ptr) (in_group ((h.pages (ptr_to_page_index h ptr)).group)) _ _

same_base :
    (ptr : Ptr) (page : Page) (g g' : Group)
    → g'.size ≡ g.size
    → g'.index ≡ g.index
    → interior_to_gcptr_3 ptr page g' ≡ interior_to_gcptr_3 ptr page g
unfolding interior_to_gcptr_3
same_base ptr page g g' e f = rw (e, f) refl

pub target-KeepsTable : (h h' : Heap) (ptr : Ptr) → KeepsTable h h' → target h' ptr ≡ target h ptr
unfolding target in_partition ptr_to_page_index
target-KeepsTable h h' ptr k =
    rw (k.pages, k.first, k.last)
      (ap
        (λ (base : ℕ → Ptr).
          choose (in_partition h ptr) (in_group ((h.pages (ptr_to_page_index h ptr)).group))
            (λ i. valid_interior_ptr (base i) ptr) base)
        (fun_ext (λ i. same_base ptr _ (h.groups i) (h'.groups i) (k.size i) (k.index i))))

pub target-KeepsShape : (h h' : Heap) (ptr : Ptr) → KeepsShape h h' → target h' ptr ≡ target h ptr
target-KeepsShape h h' ptr k = target-KeepsTable h h' ptr (KeepsShape-KeepsTable k)

pub target-KeepsHeap : (h h' : Heap) (ptr : Ptr) → KeepsHeap h h' → target h' ptr ≡ target h ptr
target-KeepsHeap h h' ptr k = target-KeepsShape h h' ptr (KeepsHeap-KeepsShape k)
