-- ===== src/Buddy.antt =====
-- The buddy allocator of mm/page_alloc.c: blocks of 2 ^ order pages on free lists, by order and
-- migrate type. Pages are named by their frame numbers, `page - mem_map`. A `list_head` chain is the
-- list of its pages in order; `list_del` takes a page out of whichever list of its order holds it.
pub mod Index
pub mod Lists
pub mod Consistent
pub mod Free
pub mod ZoneState
pub mod Alloc
pub mod Compound
pub mod Merged
use Prim.Native.Nat.{bit_and, bit_xor}
use xc.Common.{
  ℕ, zero, suc, ◌+◌, ◌-◌, ◌*◌, ◌%◌, ◌^◌, Bool, true, false, not, ◌&&◌, ◌||◌, Option, none, some,
  List, [], ◌∷◌, ◌++◌, ltb, leb, ◌==◌, if◌then◌else◌, Array, update,
}

-- The parts of `struct page` that the allocator of blocks reads and writes. `buddy` is PageBuddy (a
-- `_mapcount` of -128), `compound` the order that `set_compound_order` keeps in `lru.prev` of page 1.
-- `private` is also `first_page`, as the two share a union; a pointer to a page is its frame number.
pub record Page : Type 0 where
  pub zone_id : ℕ
  pub buddy : Bool
  pub private : ℕ
  pub head : Bool
  pub tail : Bool
  pub compound : ℕ

pub record Zone : Type 0 where
  pub page : Array Page
  pub free_list : ℕ → ℕ → List ℕ
  pub nr_free : Array ℕ

abbrev pub max_order : ℕ
max_order = 11

abbrev pub migrate_types : ℕ
migrate_types = 5

abbrev pub set_page : Zone → ℕ → Page → Zone
set_page z p v = record z { page = update z.page p v }

unfoldable pub rmv_page_order : Zone → ℕ → Zone
rmv_page_order z p = set_page z p (record (z.page p) { buddy = false; private = 0 })

unfoldable pub set_page_order : Zone → ℕ → ℕ → Zone
set_page_order z p order = set_page z p (record (z.page p) { buddy = true; private = order })

abbrev pub delete : ℕ → List ℕ → List ℕ
delete p [] = []
delete p (x ∷ xs) = if x == p then delete p xs else x ∷ delete p xs

-- list_del(&page->lru), for a page on a list of `order`.
unfoldable pub list_del : Zone → ℕ → ℕ → Zone
list_del z p order = record z {
  free_list = λ o t. if o == order then delete p (z.free_list o t) else z.free_list o t;
}

abbrev pub set_list : Zone → ℕ → ℕ → List ℕ → Zone
set_list z order migratetype l = record z {
  free_list = λ o t. if o == order && t == migratetype then l else z.free_list o t;
}

unfoldable pub list_add : Zone → ℕ → ℕ → ℕ → Zone
list_add z p order migratetype = set_list z order migratetype (p ∷ z.free_list order migratetype)

unfoldable pub list_add_tail : Zone → ℕ → ℕ → ℕ → Zone
list_add_tail z p order migratetype =
    set_list z order migratetype (z.free_list order migratetype ++ p ∷ [])

abbrev pub inc_nr_free : Zone → ℕ → Zone
inc_nr_free z order = record z { nr_free = update z.nr_free order (z.nr_free order + 1) }

abbrev pub dec_nr_free : Zone → ℕ → Zone
dec_nr_free z order = record z { nr_free = update z.nr_free order (z.nr_free order - 1) }

abbrev pub page_compound : Page → Bool
page_compound p = p.head || p.tail

unfoldable pub compound_order : Zone → ℕ → ℕ
compound_order z p = if (z.page p).head then (z.page (p + 1)).compound else 0

-- for (i = ...; i < nr_pages; i++), with `n` rounds left: how many pages are bad. Every round clears
-- PageTail of the first page, and not of page `i`.
unfoldable pub destroy_tails : ℕ → ℕ → ℕ → Zone → ℕ × Zone
destroy_tails zero i p z = (0, z)
destroy_tails (suc n) i p z =
    let q = z.page (p + i) in
    let (bad, z') = destroy_tails n (i + 1) p (set_page z p (record (z.page p) { tail = false })) in
    (if not q.tail || not (q.private == p) then bad + 1 else bad, z')

unfoldable pub destroy_compound_page : Zone → ℕ → ℕ → ℕ × Zone
destroy_compound_page z p order =
    let z' = set_page z p (record (z.page p) { head = false }) in
    let (bad, z'') = destroy_tails (2 ^ order - 1) 1 p z' in
    (if not (compound_order z p == order) || not (z.page p).head then bad + 1 else bad, z'')

unfoldable pub find_buddy_index : ℕ → ℕ → ℕ
find_buddy_index page_idx order = bit_xor page_idx (2 ^ order)

unfoldable pub page_is_buddy : Zone → ℕ → ℕ → ℕ → Bool
page_is_buddy z p buddy order =
    (z.page p).zone_id == (z.page buddy).zone_id
    && ((z.page buddy).buddy && (z.page buddy).private == order)

-- page & ((1 << MAX_ORDER) - 1)
abbrev pub page_index : ℕ → ℕ
page_index p = p % 2 ^ max_order

-- The page `page + (idx - page_idx)`.
abbrev pub at_index : ℕ → ℕ → ℕ
at_index p idx = p - page_index p + idx

unfoldable pub buddy_of : ℕ → ℕ → ℕ
buddy_of p order = at_index p (find_buddy_index (page_index p) order)

-- The first page of the pair: `combined_idx = buddy_idx & page_idx`.
unfoldable pub combined_of : ℕ → ℕ → ℕ
combined_of p order = at_index p (bit_and (find_buddy_index (page_index p) order) (page_index p))

-- while (order < MAX_ORDER - 1), with `n` orders left: the zone, and the block that came together.
unfoldable pub merge : ℕ → Zone → ℕ → ℕ → Zone × ℕ × ℕ
merge zero z p order = (z, p, order)
merge (suc n) z p order =
    let buddy = buddy_of p order in
    let z' = rmv_page_order (dec_nr_free (list_del z buddy order) order) buddy in
    let rest = merge n z' (combined_of p order) (order + 1) in
    if page_is_buddy z p buddy order then rest else (z, p, order)

-- Whether the block goes to the tail of its list: the buddy of the pair is free one order up.
unfoldable pub higher_buddy_free : Zone → ℕ → ℕ → Bool
higher_buddy_free z p order =
    let higher_page = combined_of p order in
    let combined_idx = page_index p - (p - higher_page) in
    let higher_buddy = p + find_buddy_index combined_idx (order + 1) - combined_idx in
    ltb order (max_order - 2) && page_is_buddy z higher_page higher_buddy (order + 1)

-- What follows the loop of `__free_one_page`.
unfoldable pub put_block : Zone → ℕ → ℕ → ℕ → Zone
put_block z p order migratetype =
    let z' = set_page_order z p order in
    let z'' =
      if higher_buddy_free z' p order
      then list_add_tail z' p order migratetype
      else list_add z' p order migratetype in
    inc_nr_free z'' order

unfoldable pub free_block : Zone → ℕ → ℕ → ℕ → Zone
free_block z p order migratetype =
    let (z', p', order') = merge (max_order - 1 - order) z p order in
    put_block z' p' order' migratetype

-- `__free_one_page`: a compound page that is not in order is not freed.
unfoldable pub free_one_page : Zone → ℕ → ℕ → ℕ → Zone
free_one_page z p order migratetype =
    let (bad, z') = destroy_compound_page z p order in
    if page_compound (z.page p)
    then (if bad == 0 then free_block z' p order migratetype else z')
    else free_block z p order migratetype

-- `expand`: the upper halves of the block at `p` go back, from order `low + n` down to `low`.
unfoldable pub expand : ℕ → Zone → ℕ → ℕ → ℕ → Zone
expand zero z p low migratetype = z
expand (suc n) z p low migratetype =
    let high = low + n in
    let half = p + 2 ^ high in
    expand n (set_page_order (inc_nr_free (list_add z half high migratetype) high) half high) p low
      migratetype

-- The body of `__rmqueue_smallest` at a list that is not empty.
unfoldable pub take_block : Zone → ℕ → ℕ → ℕ → ℕ → Zone
take_block z p order current_order migratetype =
    expand (current_order - order)
      (dec_nr_free (rmv_page_order (list_del z p current_order) p) current_order) p order
      migratetype

-- for (current_order = ...; current_order < MAX_ORDER; ++current_order), with `n` orders left.
unfoldable pub rmqueue_loop : ℕ → ℕ → Zone → ℕ → ℕ → Option ℕ × Zone
rmqueue_loop zero current_order z order migratetype = (none, z)
rmqueue_loop (suc n) current_order z order migratetype =
    elim (z.free_list current_order migratetype) [
      | [] ↦ rmqueue_loop n (suc current_order) z order migratetype
      | p ∷ rest ↦ (some p, take_block z p order current_order migratetype)
    ]

unfoldable pub rmqueue_smallest : Zone → ℕ → ℕ → Option ℕ × Zone
rmqueue_smallest z order migratetype = rmqueue_loop (max_order - order) order z order migratetype
