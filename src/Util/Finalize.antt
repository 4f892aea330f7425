-- ===== src/Util/Finalize.antt =====
-- The ring of objects to finalize in rtutil.c: finalize_init, finalize_add and finalize_remove.
-- A call that finds its condition variable's test true waits; `none` is such a call.
use rtgc.Common.{ℕ, ◌+◌, ◌%◌, ◌^◌, Option, none, some, ltb, ◌==◌, if◌then◌else◌}
use rtgc.InfoBits.{Ptr}

pub record Ring : Type 0 where
  pub finalize_head : ℕ
  pub finalize_tail : ℕ
  pub finalize_ring : ℕ → Ptr

-- FINALIZE_RING_SIZE
abbrev pub finalize_ring_size : ℕ
finalize_ring_size = 2 ^ 16

unfoldable pub finalize_init : Ring → Ring
finalize_init r = record r { finalize_head = 0; finalize_tail = 0 }

unfoldable pub finalize_add : Ptr → Ring → Option Ring
finalize_add obj r =
    if ltb r.finalize_head (r.finalize_tail + finalize_ring_size)
    then none
    else some (record r {
      finalize_head = r.finalize_head + 1;
      finalize_ring =
          λ i. if i == r.finalize_head % finalize_ring_size then obj else r.finalize_ring i;
    })

-- finalize_remove; the C function takes the object out and returns nothing.
unfoldable pub finalize_remove : Ring → Option Ring
finalize_remove r =
    if r.finalize_tail == r.finalize_head
    then none
    else some (record r { finalize_tail = r.finalize_tail + 1 })
