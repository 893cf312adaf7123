-- ===== src/LinkList/Tests.antt =====
-- A ring of nodes as a list of addresses, and the theorems at it.
use mathlib.Core.Option
use libcutils.Base.{ℕ, ◌+◌, ◌≡◌, refl, List, [], ◌∷◌, ◌++◌, true, some, arith}
use libcutils.Base.Memory.{slice, load}
use libcutils.Base.Nodes.{remove, put_behind, first_or, last_or, behind}
use libcutils.LinkList.Circle.{KernelRing}
use libcutils.LinkList.Order.{IsList}
use libcutils.LinkList.{
  head_field, local, Llist, update, init, insert, delete, push_back, push_front, pop_front,
  detach_front, pop_back, destroy, destroy_loop, detach, detach_back, pos_get_pointer, pos_next,
  pos_prev, pos_equal, for_each, for_each_loop,
}
use libcutils.LinkList.Insert.{insert-IsList}
use libcutils.LinkList.Delete.{delete-IsList, pop_front_faults}
use libcutils.LinkList.Queue.{detach_front-push_back}

abbrev tail_of : List ℕ → List ℕ
tail_of [] = []
tail_of (x ∷ xs) = xs

-- One ring: its nodes, the head first.
abbrev rings : KernelRing
rings = record {
  Links = List ℕ;
  circle = λ h k. k;
  init_head = λ h k. h ∷ [];
  add = λ n p k. put_behind n p k;
  add_tail = λ n h k. k ++ n ∷ [];
  del = λ p k. elim k [ [] ↦ [] | h ∷ xs ↦ h ∷ remove p xs ];
  next = λ p k. behind (first_or 0 k) p k;
  prev = λ h k. last_or h (tail_of k);
  circle-init_head = λ h k. refl;
  circle-add = λ h n p k here. refl;
  circle-add_tail = λ h n xs k e. rw e refl;
  circle-del = λ h p xs k e here. rw e refl;
  next-circle = λ h p xs k e here. rw e refl;
  prev-circle = λ h xs k e. rw e refl;
}

-- The head at 100, and three nodes of two bytes.
abbrev three : Llist rings
three = record {
  list_count = 3;
  data_size = 2;
  lock_type = 0;
  begin = 10;
  head = 100;
  links = 100 ∷ 10 ∷ 20 ∷ 30 ∷ [];
  cells = λ q. q ∷ 0 ∷ [];
}

three-IsList : IsList rings three (10 ∷ 20 ∷ 30 ∷ [])
three-IsList = record {
  walk = refl;
  first = refl;
  apart = (refl, (refl, (refl, (refl, tt))));
  counted = refl;
  short = omega arith;
}

program : Unit {0}
unfolding init insert delete push_back push_front pop_front detach_front pop_back destroy
    destroy_loop detach detach_back pos_get_pointer pos_next pos_prev pos_equal for_each
    for_each_loop load slice
program = tt

-- The nodes after a node is put behind 20.
insert_runs :
    Option.map (λ (l : Llist rings). l.links) (insert three (local 20) (7 ∷ 8 ∷ []) (some 40))
    ≡ some (100 ∷ 10 ∷ 20 ∷ 40 ∷ 30 ∷ [])
unfolding program
insert_runs = refl

pop_front_runs : (pop_front three).1.links ≡ 100 ∷ 10 ∷ 30 ∷ []
unfolding program
pop_front_runs = refl

detach_front_runs : (detach_front three).1.links ≡ 100 ∷ 20 ∷ 30 ∷ []
unfolding program
detach_front_runs = refl

pop_back_runs : (pop_back three).1.links ≡ 100 ∷ 10 ∷ 20 ∷ []
unfolding program
pop_back_runs = refl

destroy_runs : destroy 4 three ≡ some (some 10 ∷ some 20 ∷ some 30 ∷ [], true)
unfolding program
destroy_runs = refl

sum_runs : for_each 4 three (λ (s p : ℕ) (b : List ℕ). s + p) 0 ≡ some 60
unfolding program
sum_runs = refl

insert-IsList_example :
    (llist' : Llist rings) × (insert three head_field (7 ∷ 8 ∷ []) (some 40) ≡ some llist')
    × IsList rings llist' (40 ∷ 10 ∷ 20 ∷ 30 ∷ [])
    × (llist'.cells ≡ update three.cells 40 (slice (7 ∷ 8 ∷ []) 0 2))
insert-IsList_example =
    insert-IsList three head_field (7 ∷ 8 ∷ []) 40 (10 ∷ 20 ∷ 30 ∷ []) three-IsList refl refl
      (omega arith) (omega arith)

delete-IsList_example :
    (llist' : Llist rings) × (delete three (local 20) ≡ (some 20, llist'))
    × IsList rings llist' (10 ∷ 30 ∷ [])
    × (llist'.head ≡ 100)
delete-IsList_example = delete-IsList three 20 10 (20 ∷ 30 ∷ []) three-IsList refl

detach_front-push_back_example :
    (llist₁ : Llist rings) × (llist₂ : Llist rings) × (push_back three (7 ∷ 8 ∷ []) (some 40)
      ≡ some llist₁)
    × (detach_front llist₁ ≡ (some 10, llist₂))
    × IsList rings llist₂ (20 ∷ 30 ∷ 40 ∷ [])
    × (pos_get_pointer llist₂ ≡ update (pos_get_pointer three) 40 (slice (7 ∷ 8 ∷ []) 0 2))
detach_front-push_back_example =
    detach_front-push_back three (7 ∷ 8 ∷ []) 40 (10 ∷ 20 ∷ 30 ∷ []) three-IsList refl (omega arith)
      (omega arith)

pop_front_faults_example :
    (llist' : Llist rings) × (pop_front three ≡ (some 10, llist'))
    × (llist'.links ≡ 100 ∷ 10 ∷ 30 ∷ [])
    × (llist'.begin ≡ 20)
pop_front_faults_example = pop_front_faults three 10 20 (30 ∷ []) three-IsList
