-- ===== src/Lists/Tests.antt =====
-- The list operations at small rings.
use lilac_os.Base.{[], ◌∷◌, arith}
use lilac_os.Lists.{Links, init_list_head, list_add, list_add_tail, list_del}
use lilac_os.Lists.Rings.{IsRing, IsRing-init, IsRing-add, IsRing-add_tail}
use lilac_os.Lists.Removal.{IsRing-del}

abbrev blank : Links
blank = record { next = λ p. 0; prev = λ p. 0 }

abbrev empty : Links
empty = init_list_head 10 blank

empty-IsRing : IsRing empty 10 []
empty-IsRing = IsRing-init 10 blank

abbrev one : Links
one = list_add_tail 20 10 empty

IsRing-add_tail_example : IsRing one 10 (20 ∷ [])
IsRing-add_tail_example = IsRing-add_tail empty-IsRing 20 ((λ e. omega (arith, e)), tt)

one-IsRing : IsRing one 10 (20 ∷ [])
one-IsRing = IsRing-add_tail empty-IsRing 20 ((λ e. omega (arith, e)), tt)

abbrev two : Links
two = list_add 30 10 one

two-IsRing : IsRing two 10 (30 ∷ 20 ∷ [])
two-IsRing =
    IsRing-add (20 ∷ []) one-IsRing 30 ((λ e. omega (arith, e)), ((λ e. omega (arith, e)), tt))

IsRing-add_example : IsRing two 10 (30 ∷ 20 ∷ [])
IsRing-add_example =
    IsRing-add (20 ∷ []) one-IsRing 30 ((λ e. omega (arith, e)), ((λ e. omega (arith, e)), tt))

IsRing-del_example : IsRing (list_del 20 two) 10 (30 ∷ [])
IsRing-del_example = IsRing-del (30 ∷ []) 20 [] two-IsRing
