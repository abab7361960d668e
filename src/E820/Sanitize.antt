-- ===== src/E820/Sanitize.antt =====
-- `sanitize_e820_map` of kernel/e820.c: the entries of the BIOS map are taken apart into the points at
-- which they start and end, the points are sorted, and a map without overlaps is built from them. An entry
-- is pointed to by its index, and a list of pointers is an array and its length.
pub mod Bubble
use xc.Common.{
  ℕ, zero, suc, ◌+◌, ◌-◌, ◌*◌, Bool, true, false, not, ◌&&◌, ◌||◌, Option, none, some, ltb, leb,
  ◌==◌, if◌then◌else◌, Array, update, add64, sub64,
}
use xc.Sort.{swap}
use xc.E820.{E820Entry}

pub record ChangeMember : Type 0 where
  pub pbios : ℕ
  pub addr : ℕ

-- A list of pointers, or of points.
pub record Listed {ℓ} (A : Type ℓ) : Type ℓ where
  pub nr : ℕ
  pub items : Array A

unfoldable pub push {ℓ} : {A : Type ℓ} → Listed A → A → Listed A
push l x = record { nr = l.nr + 1; items = update l.items l.nr x }

-- Whether no entry wraps around the end of memory, among `n` from `i` on.
unfoldable pub is_reasonable : ℕ → ℕ → Array E820Entry → Bool
is_reasonable zero i biosmap = true
is_reasonable (suc n) i biosmap =
    not (ltb (add64 (biosmap i).addr (biosmap i).size) (biosmap i).addr)
    && is_reasonable n (suc i) biosmap

-- The points of the entries that are not empty.
unfoldable pub record_changes : ℕ → ℕ → Array E820Entry → Listed ChangeMember → Listed ChangeMember
record_changes zero i biosmap points = points
record_changes (suc n) i biosmap points =
    let e = biosmap i in
    let both =
      push (push points (record { pbios = i; addr = e.addr }))
        (record { pbios = i; addr = add64 e.addr e.size }) in
    record_changes n (suc i) biosmap (if e.size == 0 then points else both)

-- Whether a point is to come before the point that stands before it.
unfoldable pub comes_before : Array E820Entry → ChangeMember → ChangeMember → Bool
comes_before biosmap cur last =
    ltb cur.addr last.addr
    || (cur.addr == last.addr
        && (cur.addr == (biosmap cur.pbios).addr && not (last.addr == (biosmap last.pbios).addr)))

module _ {ℓ} {A : Type ℓ} (less : A → A → Bool) where
  -- for (i = 1; i < chg_nr; i++), from the place before `i` on with `n` rounds left: still_changing, and
  -- the points.
  unfoldable pub bubble_pass : ℕ → ℕ → Array A → Bool × Array A
  bubble_pass zero i a = (false, a)
  bubble_pass (suc n) i a =
      let swaps = less (a (i + 1)) (a i) in
      let rest = bubble_pass n (i + 1) (if swaps then swap a (i + 1) i else a) in
      (swaps || rest.0, rest.1)

  -- while (still_changing), with fuel.
  unfoldable pub bubble_sort : ℕ → ℕ → Array A → Array A
  bubble_sort zero chg_nr a = a
  bubble_sort (suc fuel) chg_nr a =
      let pass = bubble_pass (chg_nr - 1) 0 a in
      let rest = bubble_sort fuel chg_nr pass.1 in if pass.0 then rest else pass.1

-- for (i = 0; i < overlap_entries; i++): the places of the entry get the last one, `last`.
unfoldable pub drop_overlap : ℕ → ℕ → ℕ → Listed ℕ → Array ℕ
drop_overlap zero i pbios l = l.items
drop_overlap (suc n) i pbios l =
    let moved = update l.items i (l.items (l.nr - 1)) in
    drop_overlap n (suc i) pbios (if l.items i == pbios then record l { items = moved } else l)

-- The overlap list after a point.
unfoldable pub track_overlap : Array E820Entry → ChangeMember → Listed ℕ → Listed ℕ
track_overlap biosmap point l =
    if point.addr == (biosmap point.pbios).addr
    then push l point.pbios
    else record { nr = l.nr - 1; items = drop_overlap l.nr 0 point.pbios l }

-- The greatest type in the list, from place `i` on with `n` left.
unfoldable pub greatest_type : ℕ → ℕ → Array E820Entry → Array ℕ → ℕ → ℕ
greatest_type zero i biosmap items current_type = current_type
greatest_type (suc n) i biosmap items current_type =
    let type = (biosmap (items i)).type in
    greatest_type n (suc i) biosmap items (if ltb current_type type then type else current_type)

-- The variables of the loop over the points; `full` is the break.
pub record Building : Type 0 where
  pub overlaps : Listed ℕ
  pub new_bios : Listed E820Entry
  pub last_type : ℕ
  pub last_addr : ℕ
  pub full : Bool

-- new_bios[new_bios_entry].size is set, and the entry is kept where its size is not 0.
unfoldable pub close_entry : ℕ → ℕ → Building → Building
close_entry max_nr_map addr b =
    let size = sub64 addr b.last_addr in
    let i = b.new_bios.nr in
    let sized = update b.new_bios.items i (record (b.new_bios.items i) { size = size }) in
    let nr = if size == 0 then i else i + 1 in
    if b.last_type == 0 then b else record b {
      new_bios = record { nr = nr; items = sized };
      full = not (size == 0) && leb max_nr_map nr;
    }

unfoldable pub open_entry : ℕ → ℕ → Building → Building
open_entry current_type addr b =
    let i = b.new_bios.nr in
    let opened =
      update b.new_bios.items i
        (record (b.new_bios.items i) { addr = addr; type = current_type }) in
    let started = record b {
      new_bios = record (b.new_bios) { items = opened };
      last_addr = addr;
    } in
    record (if current_type == 0 then b else started) { last_type = current_type }

-- One round of the loop over the points.
unfoldable pub build_point : Array E820Entry → ℕ → ChangeMember → Building → Building
build_point biosmap max_nr_map point b =
    let overlaps = track_overlap biosmap point b.overlaps in
    let current_type = greatest_type overlaps.nr 0 biosmap overlaps.items 0 in
    let tracked = record b { overlaps = overlaps } in
    let closed = close_entry max_nr_map point.addr tracked in
    if b.full
    then b
    else if current_type == b.last_type
    then tracked
    else if closed.full
    then closed
    else open_entry current_type point.addr closed

-- for (chgidx = 0; chgidx < chg_nr; chgidx++), from `i` on with `n` rounds left.
unfoldable pub build_points : ℕ → ℕ → Array E820Entry → ℕ → Array ChangeMember → Building → Building
build_points zero i biosmap max_nr_map points b = b
build_points (suc n) i biosmap max_nr_map points b =
    build_points n (suc i) biosmap max_nr_map points (build_point biosmap max_nr_map (points i) b)

-- memcpy(biosmap, new_bios, ...)
unfoldable pub copy_entries : ℕ → Array E820Entry → Array E820Entry → Array E820Entry
copy_entries new_nr new_bios biosmap k = if ltb k new_nr then new_bios k else biosmap k

-- The static arrays are as an earlier call left them; `none` is the return of -1.
unfoldable pub sanitize_e820_map :
    Array ChangeMember
    → Array ℕ
    → Array E820Entry
    → Array E820Entry
    → ℕ
    → ℕ
    → Option (Array E820Entry × ℕ)
sanitize_e820_map change_point overlap_list new_bios biosmap max_nr_map old_nr =
    let changes = record_changes old_nr 0 biosmap (record { nr = 0; items = change_point }) in
    let sorted = bubble_sort (comes_before biosmap) changes.nr changes.nr changes.items in
    let built = build_points changes.nr 0 biosmap max_nr_map sorted (record {
      overlaps = record { nr = 0; items = overlap_list };
      new_bios = record { nr = 0; items = new_bios };
      last_type = 0;
      last_addr = 0;
      full = false;
    }) in
    if ltb old_nr 2
    then none
    else if ltb max_nr_map old_nr
    then none
    else if not (is_reasonable old_nr 0 biosmap)
    then none
    else some (copy_entries built.new_bios.nr built.new_bios.items biosmap, built.new_bios.nr)
