-- ===== src/Util/QueueExamples.antt =====
-- block_queue.h: two items come in, and one is handed out.
use aim_rt.Prelude.{ℕ, ◌≡◌, refl, some, [], ◌∷◌, ◌++◌}
use aim_rt.Util.BlockQueue.{
  BlockQueue, Runs, begins, enqueued, dequeued, enqueue, dequeue, item, new_queue, stop, stopped,
  Runs-fifo,
}

abbrev demo_one : BlockQueue ℕ
demo_one = record new_queue { queue = 1 ∷ [] }

abbrev demo_both : BlockQueue ℕ
demo_both = record new_queue { queue = 1 ∷ 2 ∷ [] }

abbrev demo_left : BlockQueue ℕ
demo_left = record new_queue { queue = 2 ∷ [] }

demo_first : enqueue 1 new_queue ≡ some demo_one
unfolding enqueue
demo_first = refl

demo_second : enqueue 2 demo_one ≡ some demo_both
unfolding enqueue
demo_second = refl

demo_taken : dequeue demo_both ≡ item 1 demo_left
unfolding dequeue
demo_taken = refl

demo_stopped : dequeue (stop demo_left) ≡ stopped
unfolding dequeue stop
demo_stopped = refl

demo_run : Runs (1 ∷ 2 ∷ []) (1 ∷ []) demo_left
demo_run = dequeued 1 (enqueued 2 (enqueued 1 begins demo_first) demo_second) demo_taken

Runs-fifo_example : 1 ∷ 2 ∷ [] ≡ (1 ∷ []) ++ demo_left.queue
Runs-fifo_example = Runs-fifo demo_run
