-- ===== src/NbbList.antt =====
-- TPCC/Server/core/nbblist.c and TPCC/Server/datatypes/nbblist.h: the bounded queue of tasks
-- that many threads insert into and remove from, without a lock. A call is a state of its thread,
-- and one step makes one access to the shared list; a schedule lets the threads take turns in any
-- order.
pub mod Layout
pub mod Window
pub mod Fifo
pub mod Insert
pub mod Remove
pub mod Threads
pub mod Linear
pub mod Answers
pub mod Alone
pub mod Progress
use tiny_stm_reval.Prelude.{
  ℕ, ◌-◌, ◌*◌, ◌/◌, ◌%◌, ◌^◌, bit_and, bit_or, not, ◌&&◌, ◌||◌, Option, none, some, ltb, ◌==◌,
  if◌then◌else◌, length,
}
use tiny_stm_reval.Word.{add_word, sub_word}
use tiny_stm_reval.Machine.{update}

-- nbb_list_t; `entries` is the array, by index
pub record NbbList : Type 0 where
  pub length : ℕ
  pub val_nbits : ℕ
  pub ver_nbits : ℕ
  pub val_mask : ℕ
  pub ver_mask : ℕ
  pub head : ℕ
  pub tail : ℕ
  pub entries : ℕ → ℕ

-- NBB_LIST_EMPTY and NBB_LIST_FULL are the answers `empty` and `full`; the others return 1, and
-- remove stores a value through its pointer.
pub data Answer : Type 0 where
  inserted : ℕ → Answer
  removed : ℕ → Answer
  full : Answer
  empty : Answer

unfoldable pub nbb_list_val : NbbList → ℕ → ℕ
nbb_list_val l mask = bit_and mask l.val_mask

unfoldable pub nbb_list_ver : NbbList → ℕ → ℕ
nbb_list_ver l mask = bit_and mask l.ver_mask / 2 ^ l.val_nbits

unfoldable pub nbb_list_mask : NbbList → ℕ → ℕ → ℕ
nbb_list_mask l ver val =
    bit_or (ver * 2 ^ l.val_nbits % 2 ^ 64) (val * 2 ^ l.ver_nbits % 2 ^ 64 / 2 ^ l.ver_nbits)

-- nbb_list_create, with what malloc leaves in the array
unfoldable pub nbb_list_create : (ℕ → ℕ) → ℕ → ℕ → NbbList
nbb_list_create heap length val_nbits = record {
  length = length;
  val_nbits = val_nbits;
  ver_nbits = 64 - val_nbits;
  val_mask = sub_word (2 ^ val_nbits % 2 ^ 64) 1;
  ver_mask = sub_word (2 ^ (64 - val_nbits) % 2 ^ 64) 1 * 2 ^ val_nbits % 2 ^ 64;
  head = 0;
  tail = 0;
  entries = heap;
}

-- Where a thread stands in a call. `insert_read` and `remove_read` are before a load of the entry at a position,
-- `..._swap` before the compare-and-swap of the entry, `..._publish` before that of `tail` or
-- `head`, `..._reload` before the load after it failed.
pub data Pc : Type 0 where
  idle : Pc
  insert_start : ℕ → Pc
  insert_read : ℕ → ℕ → ℕ → Pc
  insert_swap : ℕ → ℕ → ℕ → Pc
  insert_publish : ℕ → ℕ → ℕ → Pc
  insert_reload : ℕ → ℕ → Pc
  remove_start : Pc
  remove_read : ℕ → ℕ → Pc
  remove_swap : ℕ → ℕ → ℕ → Pc
  remove_publish : ℕ → ℕ → ℕ → Pc
  remove_reload : ℕ → ℕ → Pc
  answered : Answer → Pc

-- The tests on the entry that insert has loaded at `mytail`.
unfoldable pub insert_look : NbbList → ℕ → ℕ → ℕ → ℕ → Pc
insert_look l val mytail base tailmask =
    if not (nbb_list_val l tailmask == 0) || not (nbb_list_ver l tailmask == mytail / l.length)
    then if not (nbb_list_val l tailmask == 0) && (nbb_list_ver l tailmask == mytail / l.length)
      then answered full
      else insert_read val (add_word mytail 1) base
    else insert_swap val mytail base

unfoldable pub insert_oldmask : NbbList → ℕ → ℕ
insert_oldmask l mytail = nbb_list_mask l (mytail / l.length) 0

unfoldable pub insert_newmask : NbbList → ℕ → ℕ → ℕ
insert_newmask l val mytail = nbb_list_mask l (add_word (mytail / l.length) 1) val

-- The tests on the entry that remove has loaded at `myhead`.
unfoldable pub remove_look : NbbList → ℕ → ℕ → ℕ → Pc
remove_look l myhead base headmask =
    if (nbb_list_val l headmask == 0)
      || not (nbb_list_ver l headmask == add_word (myhead / l.length) 1)
    then if (nbb_list_val l headmask == 0) && (nbb_list_ver l headmask == myhead / l.length)
      then answered empty
      else remove_read (add_word myhead 1) base
    else remove_swap myhead base headmask

unfoldable pub remove_oldmask : NbbList → ℕ → ℕ → ℕ
remove_oldmask l myhead headmask =
    nbb_list_mask l (add_word (myhead / l.length) 1) (nbb_list_val l headmask)

unfoldable pub remove_newmask : NbbList → ℕ → ℕ
remove_newmask l myhead = nbb_list_mask l (add_word (myhead / l.length) 1) 0

-- The list after a store to the entry at a position.
unfoldable pub set_entry : NbbList → ℕ → ℕ → NbbList
set_entry l position mask = record l { entries = update l.entries (position % l.length) mask }

-- The next access of a call of nbb_list_insert or nbb_list_remove.
unfoldable pub advance : NbbList → Pc → NbbList × Pc
advance l idle = (l, idle)
advance l (insert_start val) = (l, insert_read val l.tail l.tail)
advance l (insert_read val mytail base) =
    (l, insert_look l val mytail base (l.entries (mytail % l.length)))
advance l (insert_swap val mytail base) =
    if l.entries (mytail % l.length) == insert_oldmask l mytail
    then (set_entry l mytail (insert_newmask l val mytail), insert_publish val mytail base)
    else (l, insert_start val)
advance l (insert_publish val mytail base) =
    if ltb base (add_word mytail 1)
    then if l.tail == base
      then (record l { tail = add_word mytail 1 }, answered (inserted val))
      else (l, insert_reload val mytail)
    else (l, answered (inserted val))
advance l (insert_reload val mytail) = (l, insert_publish val mytail l.tail)
advance l remove_start = (l, remove_read l.head l.head)
advance l (remove_read myhead base) = (l, remove_look l myhead base (l.entries (myhead % l.length)))
advance l (remove_swap myhead base headmask) =
    if l.entries (myhead % l.length) == remove_oldmask l myhead headmask
    then (
      set_entry l myhead (remove_newmask l myhead),
      remove_publish myhead base (remove_oldmask l myhead headmask),
    )
    else (l, remove_start)
advance l (remove_publish myhead base oldmask) =
    if ltb base (add_word myhead 1)
    then if l.head == base
      then (record l { head = add_word myhead 1 }, answered (removed (nbb_list_val l oldmask)))
      else (l, remove_reload myhead oldmask)
    else (l, answered (removed (nbb_list_val l oldmask)))
advance l (remove_reload myhead oldmask) = (l, remove_publish myhead l.head oldmask)
advance l (answered a) = (l, answered a)

unfoldable pub answer_in : Pc → Option Answer
answer_in (answered a) = some a
answer_in idle = none
answer_in other = none

-- The access at which a call takes effect, with the answer that it settles: insert and remove at
-- the compare-and-swap of an entry that succeeds, NBB_LIST_FULL and NBB_LIST_EMPTY at the load of
-- the entry that shows it.
unfoldable pub effect : NbbList → Pc → Option Answer
effect l (insert_read val mytail base) =
    answer_in (insert_look l val mytail base (l.entries (mytail % l.length)))
effect l (insert_swap val mytail base) =
    if l.entries (mytail % l.length) == insert_oldmask l mytail then some (inserted val) else none
effect l (remove_read myhead base) =
    answer_in (remove_look l myhead base (l.entries (myhead % l.length)))
effect l (remove_swap myhead base headmask) =
    if l.entries (myhead % l.length) == remove_oldmask l myhead headmask
    then some (removed (nbb_list_val l (remove_oldmask l myhead headmask)))
    else none
effect l other = none
