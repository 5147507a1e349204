-- ===== src/Queue/Tests.antt =====
-- queue.c: runs of calls on a concrete queue.
use libp.Base.{List, [], ◌∷◌, ◌≡◌, none, some, refl, arith}
use libp.Memory.{◌>>◌}
use libp.Queue.{queue_init, queue_push, print_queue, print_queue_from}
use libp.Queue.Contract.{Call, pushes, takes, counts, asks, fresh, answer, answers, calls}
use libp.Queue.Fifo.{Returns, calls_of_init}
use libp.Tree.Tests.{family, result}

abbrev some_calls : List Call
some_calls = pushes 2 ∷ pushes 1 ∷ takes ∷ counts ∷ takes ∷ asks ∷ []

answers_test :
    (answers family.node_at some_calls fresh ≡ some (1 ∷ 1 ∷ 0 ∷ 1 ∷ []))
    × (answers family.node_at (pushes 1 ∷ takes ∷ pushes 2 ∷ []) fresh ≡ none)
unfolding answer answers
answers_test = (refl, refl)

print_test :
    result [] ((queue_init >> queue_push 2 >> queue_push 1 >> print_queue 3) family) ≡ 1 ∷ 0 ∷ []
unfolding queue_init queue_push print_queue print_queue_from
print_test = refl

calls_of_init_example :
    Returns (answers family.node_at some_calls fresh) ((queue_init >> calls some_calls) family)
calls_of_init_example = calls_of_init family some_calls refl (omega arith)
