-- ===== src/Group.antt =====
-- GROUP_INFO of mem-internals.h and the operations on the lists of one group: making an object
-- gray, the group's part of a flip and recycling (rtgc.c), taking a free object and linking the
-- objects of new pages (rtalloc.c), and removing a free object (rtcoalesce.c). Each operation
-- works on the group and on the memory that its lists live in. The two mutexes of a group are not
-- state of the model: an operation is one step.
pub mod View
pub mod Frame
pub mod Steps
pub mod Gray
pub mod Flip
pub mod Recycle
pub mod Allocate
pub mod Extend
pub mod Remove
pub mod Scan
use rtgc.Common.{
  ℕ, zero, suc, ◌+◌, ◌-◌, Run, ok, stopped, assertion, debugger, out_of_fuel, guard, ◌>>=◌, ◌>>◌,
  ltb, ◌==◌, if◌then◌else◌,
}
use rtgc.InfoBits.{
  Mem, Ptr, null, write, prev_link, next_link, set_prev, set_next, get_color, set_color, gray,
  green,
}
use rtgc.Chain.{link_next, link_prev, unlink}

pub record Group : Type 0 where
  pub size : ℕ
  pub index : ℕ
  pub last : Ptr
  pub free : Ptr
  pub gray : Ptr
  pub black : Ptr
  pub white : Ptr
  pub white_count : ℕ
  pub black_scanned_count : ℕ
  pub black_alloc_count : ℕ

-- A group and the memory of the objects in its lists.
pub record GroupState : Type 0 where
  pub mem : Mem
  pub group : Group

-- The first part of RTmake_object_gray: the object leaves the white list.
unfoldable pub remove_from_white : Ptr → GroupState → GroupState
remove_from_white current s =
    let next = next_link s.mem current in
    let white = if current == s.group.white then next else s.group.white in
    record { mem = unlink s.mem current; group = record s.group { white = white } }

-- The second part: it becomes the first object of the gray set.
unfoldable pub link_gray : Ptr → GroupState → Run GroupState
link_gray current s =
    let m = set_prev s.mem current null in
    let g = s.group in
    let before_black = set_next m current g.black in
    if g.gray == null
    then if g.black == null
      then guard (g.free == null) assertion
        >> ok (record { mem = before_black; group = record g { black = current; last = current } })
      else ok (record { mem = set_prev before_black g.black current; group = g })
    else ok (record { mem = set_prev (set_next m current g.gray) g.gray current; group = g })

-- RTmake_object_gray for the group of the object.
unfoldable pub make_object_gray : (unmarked_color : ℕ) → Ptr → GroupState → Run GroupState
unfolding remove_from_white link_gray
make_object_gray unmarked_color current s = do
  s' ← link_gray current (remove_from_white current s)
  guard (get_color s'.mem current == unmarked_color) assertion
  guard (ltb 0 s'.group.white_count) assertion
  ok (record {
    mem = set_color s'.mem current gray;
    group = record s'.group { gray = current; white_count = s'.group.white_count - 1 };
  })

-- What flip does to the links of one group.
cut_black_set : GroupState → GroupState
cut_black_set s =
    let g = s.group in
    if g.free == null
    then record { mem = link_next s.mem g.last null; group = record g { last = null } }
    else record {
      mem = set_prev (link_next s.mem (prev_link s.mem g.free) null) g.free null;
      group = g;
    }

-- The body of the loop in flip.
unfoldable pub flip_group : GroupState → GroupState
unfolding cut_black_set
flip_group s =
    let s' = cut_black_set s in
    let g = s'.group in
    record {
      mem = s'.mem;
      group = record g {
        white = if g.black == g.free then null else g.black;
        black = g.free;
        gray = null;
        white_count = g.black_scanned_count + g.black_alloc_count;
        black_scanned_count = 0;
        black_alloc_count = 0;
      };
    }

-- The loop variables of recycle_group_garbage.
pub record Swept : Type 0 where
  pub mem : Mem
  pub last : Ptr
  pub count : ℕ

-- The loop of recycle_group_garbage, with fuel for its rounds.
unfoldable pub sweep : ℕ → (next : Ptr) → Swept → Run Swept
sweep zero next w = stopped out_of_fuel
sweep (suc fuel) next w =
    let m = set_color w.mem next green in
    let rest =
      sweep fuel (next_link m next) (record { mem = m; last = next; count = w.count + 1 }) in
    if next == null then ok w else rest

-- The garbage becomes the end of the free list.
unfoldable pub append_garbage : Ptr → GroupState → GroupState
append_garbage last s =
    let g = s.group in
    record {
      mem = set_prev (link_next (set_next s.mem last null) g.last g.white) g.white g.last;
      group = record g {
        free = if g.free == null then g.white else g.free;
        black = if g.black == null then g.white else g.black;
        last = last;
      };
    }

unfoldable pub recycle_group_garbage : (fuel : ℕ) → GroupState → Run GroupState
unfolding sweep append_garbage
recycle_group_garbage fuel s = do
  w ← sweep fuel s.group.white (record { mem = s.mem; last = null; count = 0 })
  guard (w.count == s.group.white_count) debugger
  let swept : GroupState = record s { mem = w.mem }
  let s' = if w.last == null then swept else append_garbage w.last swept
  ok (record s' { group = record (s'.group) { white = null; white_count = 0 } })

-- What scan_object_with_group does after scan_object.
unfoldable pub blacken : (marked_color : ℕ) → Ptr → GroupState → GroupState
blacken marked_color p s = record {
  mem = set_color s.mem p marked_color;
  group = record (s.group) { black = p; black_scanned_count = s.group.black_scanned_count + 1 };
}

-- The part of RTallocate that takes the first free object: it is allocated black.
unfoldable pub take_free : (marked_color : ℕ) → GroupState → GroupState
take_free marked_color s =
    let g = s.group in
    record {
      mem = set_color s.mem g.free marked_color;
      group = record g {
        free = next_link s.mem g.free;
        black_alloc_count = g.black_alloc_count + 1;
      };
    }

-- One round of the loop in init_pages_for_group: both links are stored whole.
unfoldable pub init_object : Mem → (prev current next : Ptr) → Mem
unfolding write
init_object m prev current next =
    set_color (write (write m current prev) (current + 8) next) current green

-- The loop over the objects of new pages; the result has the last object.
unfoldable pub init_objects :
    (size : ℕ) → (num_objects : ℕ) → (current next : Ptr) → Mem → Mem × Ptr
unfolding init_object
init_objects size zero current next m = (m, current)
init_objects size (suc k) current next m =
    init_objects size k next (next + size) (init_object m current next (next + size))

-- The part of init_pages_for_group that turns the pages at `base` into free objects.
unfoldable pub add_objects : (num_objects : ℕ) → (base : Ptr) → GroupState → Run GroupState
unfolding init_objects
add_objects num_objects base s =
    let g = s.group in
    let (m, current) = init_objects g.size num_objects null base s.mem in
    let m' = set_next m current null in
    guard (g.free == null) assertion
    >> ok (record {
      mem = if g.last == null then m' else set_next (set_prev m' base g.last) g.last base;
      group = record g {
        free = base;
        black = if g.last == null then base else g.black;
        last = current;
      };
    })

unfoldable pub remove_object_from_free_list : Ptr → GroupState → GroupState
remove_object_from_free_list object s =
    let g = s.group in
    let prev = prev_link s.mem object in
    let next = next_link s.mem object in
    record {
      mem = unlink s.mem object;
      group = record g {
        free = if object == g.free then next else g.free;
        black = if object == g.black then next else g.black;
        last = if object == g.last then (if next == null then prev else next) else g.last;
      };
    }
