-- ===== src/Group/View.antt =====
-- What a group stands for: its white list, and the one list of its gray, black and free (green)
-- objects in that order. `IsGroup` says that the fields, the links, the colors and the counts of
-- a group represent such lists.
use rtgc.Common.{ℕ, ◌+◌, ◌≡◌, ◌≢◌, ◌⊎◌, List, [], ◌++◌, length, head_or, last_or}
use rtgc.InfoBits.{Mem, Ptr, gray, green}
use rtgc.Chain.{AreNodes, IsChain, AllColor}
use rtgc.Group.{Group, GroupState}

pub record View : Type 0 where
  pub whites : List Ptr
  pub grays : List Ptr
  pub blacks : List Ptr
  pub greens : List Ptr

abbrev pub view : (whites grays blacks greens : List Ptr) → View
view w x y z = record { whites = w; grays = x; blacks = y; greens = z }

-- The objects from `gray` or `black` to `last`.
abbrev pub main : View → List Ptr
main v = v.grays ++ (v.blacks ++ v.greens)

-- `black` is the first object behind the gray ones, or the last gray one.
abbrev pub BlackAt : Ptr → View → Type 0
BlackAt b v =
    ((b ≡ head_or (v.blacks ++ v.greens) 0) × (b ≡ 0 → v.grays ≡ []))
    ⊎ ((b ≡ last_or 0 v.grays) × (v.grays ≢ []))

-- `gray` is NULL until an object turns gray, and from then on the first object.
abbrev pub GrayAt : Ptr → View → Type 0
GrayAt g v = ((g ≡ 0) × (v.grays ≡ [])) ⊎ ((g ≡ head_or (v.grays ++ v.blacks) 0) × (g ≢ 0))

-- The fields of a group that point into its lists.
pub record IsFields (g : Group) (v : View) : Type 0 where
  pub white : g.white ≡ head_or v.whites 0
  pub free : g.free ≡ head_or v.greens 0
  pub last : g.last ≡ last_or 0 (main v)
  pub black : BlackAt g.black v
  pub gray : GrayAt g.gray v

-- The links and colors of the objects.
pub record IsLinked (marked_color unmarked_color : ℕ) (m : Mem) (v : View) : Type 0 where
  pub nodes : AreNodes (v.whites ++ main v)
  pub white_chain : IsChain m 0 v.whites 0
  pub main_chain : IsChain m 0 (main v) 0
  pub white_color : AllColor m unmarked_color v.whites
  pub gray_color : AllColor m gray v.grays
  pub black_color : AllColor m marked_color v.blacks
  pub green_color : AllColor m green v.greens

pub record IsGroup (marked_color unmarked_color : ℕ) (s : GroupState) (v : View) : Type 0 where
  pub fields : IsFields s.group v
  pub white_count : s.group.white_count ≡ length v.whites
  pub black_count : s.group.black_scanned_count + s.group.black_alloc_count ≡ length v.blacks
  pub linked : IsLinked marked_color unmarked_color s.mem v
