-- ===== src/Lists.antt =====
-- The circular lists of kernel/list.h: the fields `next` and `prev` of the `struct list_head` at
-- each address.
pub mod Walks
pub mod Rings
pub mod Removal
mod Tests
use lilac_os.Base.{ℕ, Bool, update, ◌==◌}

pub record Links : Type 0 where
  pub next : ℕ → ℕ
  pub prev : ℕ → ℕ

-- `p->next = q` and `p->prev = q`
abbrev pub set_next : ℕ → ℕ → Links → Links
set_next p q l = record l { next = update l.next p q }

abbrev pub set_prev : ℕ → ℕ → Links → Links
set_prev p q l = record l { prev = update l.prev p q }

-- `INIT_LIST_HEAD(ptr)`
pub init_list_head : ℕ → Links → Links
init_list_head ptr l = set_prev ptr ptr (set_next ptr ptr l)

-- `__list_add(new, prev, next)`
pub list_insert : (new before after : ℕ) → Links → Links
list_insert new before after l =
    set_next before new (set_prev new before (set_next new after (set_prev after new l)))

unfoldable pub list_add : (new head : ℕ) → Links → Links
list_add new head l = list_insert new head (l.next head) l

pub list_add_tail : (new head : ℕ) → Links → Links
list_add_tail new head l = list_insert new (l.prev head) head l

pub list_del : ℕ → Links → Links
list_del entry l =
    let l1 = set_prev (l.next entry) (l.prev entry) l in
    let l2 = set_next (l1.prev entry) (l1.next entry) l1 in init_list_head entry l2

unfoldable pub list_empty : ℕ → Links → Bool
list_empty head l = l.next head == head
