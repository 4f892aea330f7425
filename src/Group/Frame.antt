-- ===== src/Group/Frame.antt =====
-- What the operations on the lists of a group leave alone: every word that is not in a header of
-- the group, and the storage classes of all objects.
use rtgc.Common.{
  ℕ, ◌+◌, ◌%◌, ◌≡◌, ◌≢◌, refl, sym, ap, ◌∙◌, Disjoint, List, [], ◌∷◌, ◌++◌, All, ◌∉◌, head_or,
  last_or, arith, All-append_left, All-append_right,
}
use rtgc.InfoBits.{
  Mem, Ptr, set_prev, set_next, set_color, prev_link, next_link, get_color, get_storage_class,
  get_link_pointer, get_link_info,
}
use rtgc.InfoBits.Words.{Aligned, get_link_info-set_link_pointer}
use rtgc.Chain.{link_next, link_prev, IsNode}
use rtgc.Chain.Laws.{All-last_or}
use rtgc.Chain.Join.{join}
use rtgc.Group.{GroupState}
use rtgc.Group.Extend.Objects.{SameHeader, IsChain-same, AllColor-same}
use rtgc.Group.View.{View, main, IsGroup}

-- The two words of no header at `ns`.
abbrev pub FarFrom : ℕ → List Ptr → Type 0
FarFrom a ns = All (λ n. (a ≢ n) × (a ≢ n + 8)) ns

abbrev pub Keeps : List Ptr → Mem → Mem → Type 0
Keeps ns m m' = (a : ℕ) → FarFrom a ns → m' a ≡ m a

abbrev pub KeepsClasses : Mem → Mem → Type 0
KeepsClasses m m' = (q : Ptr) → Aligned q → get_storage_class m' q ≡ get_storage_class m q

module _ (m : Mem) (p v a : ℕ) where
  pub far-set_prev : a ≢ p → set_prev m p v a ≡ m a
  unfolding set_prev
  far-set_prev h = ground arith

  pub far-set_next : a ≢ p + 8 → set_next m p v a ≡ m a
  unfolding set_next
  far-set_next h = ground arith

  pub far-set_color : a ≢ p → set_color m p v a ≡ m a
  unfolding set_color
  far-set_color h = ground arith

module _ (m : Mem) (v a : ℕ) where
  far-link_next : (p : Ptr) → a ≢ p + 8 → link_next m p v a ≡ m a
  unfolding link_next
  far-link_next p h = ground (arith, far-set_next m p v a)

  far-link_prev : (p : Ptr) → a ≢ p → link_prev m p v a ≡ m a
  unfolding link_prev
  far-link_prev p h = ground (arith, far-set_prev m p v a)

  pub far-link_next_last : (xs : List Ptr) → FarFrom a xs → link_next m (last_or 0 xs) v a ≡ m a
  unfolding link_next
  far-link_next_last [] h = refl
  far-link_next_last (x ∷ xs) h =
      far-link_next (last_or x xs) (All-last_or (λ n. (a ≢ n) × (a ≢ n + 8)) x xs h.0 h.1).1

  pub far-link_prev_head : (xs : List Ptr) → FarFrom a xs → link_prev m (head_or xs 0) v a ≡ m a
  unfolding link_prev
  far-link_prev_head [] h = refl
  far-link_prev_head (x ∷ xs) h = far-link_prev x h.0.0

pub far-join :
    (m : Mem) (xs ys : List Ptr) (a : ℕ) → FarFrom a xs → FarFrom a ys → join m xs ys a ≡ m a
far-join m xs ys a h k = far-link_prev_head _ _ a ys k ∙ far-link_next_last m (head_or ys 0) a xs h

-- Storage classes.
pub class_set_prev :
    (m : Mem) (p v q : ℕ)
    → Aligned p
    → Aligned q
    → get_storage_class (set_prev m p v) q ≡ get_storage_class m q
unfolding get_storage_class set_prev
class_set_prev m p v q h k = ground arith

pub class_set_next :
    (m : Mem) (p v q : ℕ) → Aligned v → get_storage_class (set_next m p v) q ≡ get_storage_class m q
unfolding get_storage_class set_next
class_set_next m p v q h = ground (arith, get_link_info-set_link_pointer (m (p + 8)) v)

pub class_color :
    (m : Mem) (p c q : ℕ)
    → Aligned p
    → Aligned q
    → get_storage_class (set_color m p c) q ≡ get_storage_class m q
unfolding get_storage_class set_color
class_color m p c q h k = ground arith

pub class_link_next :
    (m : Mem) (p v q : ℕ)
    → Aligned v
    → get_storage_class (link_next m p v) q ≡ get_storage_class m q
unfolding link_next
class_link_next m p v q h = ground (arith, class_set_next m p v q h)

pub class_link_prev :
    (m : Mem) (p v q : ℕ)
    → Aligned p
    → Aligned q
    → get_storage_class (link_prev m p v) q ≡ get_storage_class m q
unfolding link_prev
class_link_prev m p v q h k = ground (arith, class_set_prev m p v q h k)

-- A header that does not belong to the group is far from all of the group's.
header_far :
    (q : Ptr) (ns : List Ptr)
    → Aligned q
    → All IsNode ns
    → q ∉ ns
    → FarFrom q ns × FarFrom (q + 8) ns
header_far q [] h n o = (tt, tt)
header_far q (x ∷ ns) h n o =
    let r = header_far q ns h n.1 o.1 in
    let al = n.0.0 in
    (
      ((λ e. o.0 (sym e), λ e. apart q x h al e), r.0),
      ((λ e. apart x q al h (sym e), λ e. o.0 (omega arith)), r.1),
    )
  where
    apart : (a b : ℕ) → a % 16 ≡ 0 → b % 16 ≡ 0 → a ≡ b + 8 → ⊥
    apart a b h k e = omega arith

pub header_same : (m m' : Mem) (q : Ptr) → m' q ≡ m q → m' (q + 8) ≡ m (q + 8) → SameHeader m m' q
unfolding prev_link next_link get_color
header_same m m' q e f =
    (ap get_link_pointer e, ap get_link_pointer f, ap (λ w. get_link_info w 3) e)

headers_same :
    (m m' : Mem) (ns zs : List Ptr)
    → All IsNode ns
    → All IsNode zs
    → Keeps ns m m'
    → Disjoint zs ns
    → All (SameHeader m m') zs
headers_same m m' ns [] n k h d = tt
headers_same m m' ns (z ∷ zs) n k h d =
    let far = header_far z ns k.0.0 n d.0 in
    (header_same m m' z (h z far.0) (h (z + 8) far.1), headers_same m m' ns zs n k.1 h d.1)

abbrev pub objects_of : View → List Ptr
objects_of v = v.whites ++ main v

-- A group whose headers are the same represents the same lists.
pub same-IsGroup :
    (marked_color unmarked_color : ℕ) (s : GroupState) (v : View) (m' : Mem)
    → IsGroup marked_color unmarked_color s v
    → All (SameHeader s.mem m') (objects_of v)
    → IsGroup marked_color unmarked_color (record { mem = m'; group = s.group }) v
same-IsGroup mk un s v m' g all =
    let l = g.linked in
    let w = All-append_left (SameHeader s.mem m') v.whites (main v) all in
    let r = All-append_right (SameHeader s.mem m') v.whites (main v) all in
    let rest = All-append_right (SameHeader s.mem m') v.grays (v.blacks ++ v.greens) r in
    record {
      fields = g.fields;
      white_count = g.white_count;
      black_count = g.black_count;
      linked = record {
        nodes = l.nodes;
        white_chain = IsChain-same v.whites w l.white_chain;
        main_chain = IsChain-same (main v) r l.main_chain;
        white_color = AllColor-same s.mem m' un v.whites w l.white_color;
        gray_color =
            AllColor-same s.mem m' 2 v.grays
              (All-append_left (SameHeader s.mem m') v.grays (v.blacks ++ v.greens) r) l.gray_color;
        black_color =
            AllColor-same s.mem m' mk v.blacks
              (All-append_left (SameHeader s.mem m') v.blacks v.greens rest) l.black_color;
        green_color =
            AllColor-same s.mem m' 3 v.greens
              (All-append_right (SameHeader s.mem m') v.blacks v.greens rest) l.green_color;
      };
    }

-- A step on the headers `ns` keeps what every group represents whose objects are others.
pub Keeps-IsGroup :
    (marked_color unmarked_color : ℕ) (s : GroupState) (v : View) (ns : List Ptr) (m' : Mem)
    → IsGroup marked_color unmarked_color s v
    → All IsNode ns
    → Keeps ns s.mem m'
    → Disjoint (objects_of v) ns
    → IsGroup marked_color unmarked_color (record { mem = m'; group = s.group }) v
Keeps-IsGroup mk un s v ns m' g n k d =
    same-IsGroup mk un s v m' g (headers_same s.mem m' ns (objects_of v) n g.linked.nodes.0 k d)
