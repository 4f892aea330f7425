-- ===== src/Chain.antt =====
-- Doubly linked chains of headers, as the lists of a group are: `prev` and `next` links of
-- distinct, aligned objects. `link_next` and `link_prev` are the guarded link writes of rtgc.c
-- and rtcoalesce.c.
pub mod Laws
pub mod Nodes
pub mod Join
use rtgc.Common.{ℕ, ◌≡◌, ◌≢◌, List, [], ◌∷◌, ◌==◌, if◌then◌else◌, All, IsDistinct, head_or}
use rtgc.InfoBits.{Mem, Ptr, null, prev_link, next_link, set_prev, set_next, get_color}
use rtgc.InfoBits.Words.{Aligned}

-- `if (p != NULL) SET_LINK_POINTER(p->next, v)`
unfoldable pub link_next : Mem → Ptr → Ptr → Mem
link_next m p v = if p == null then m else set_next m p v

-- `if (p != NULL) SET_LINK_POINTER(p->prev, v)`
unfoldable pub link_prev : Mem → Ptr → Ptr → Mem
link_prev m p v = if p == null then m else set_prev m p v

-- Takes the object out of the chain that it stands in: the writes to its two neighbours.
unfoldable pub unlink : Mem → Ptr → Mem
unlink m p =
    let prev = prev_link m p in
    let next = next_link m p in link_prev (link_next m prev next) next prev

abbrev pub IsNode : Ptr → Type 0
IsNode p = Aligned p × (p ≢ 0)

-- Distinct addresses at which headers can stand.
abbrev pub AreNodes : List Ptr → Type 0
AreNodes xs = All IsNode xs × IsDistinct xs

-- The links lead from `before` through `xs` to `after`, and back.
pub data IsChain (m : Mem) : Ptr → List Ptr → Ptr → Type 0 where
  nil : {before after : Ptr} → IsChain m before [] after
  cons :
      {before x : Ptr} {xs : List Ptr} {after : Ptr}
      → prev_link m x ≡ before
      → next_link m x ≡ head_or xs after
      → IsChain m x xs after
      → IsChain m before (x ∷ xs) after

abbrev pub AllColor : Mem → ℕ → List Ptr → Type 0
AllColor m c xs = All (λ x. get_color m x ≡ c) xs
