-- ===== src/Util/BlockQueue.antt =====
-- src/common/util/block_queue.h. Every method runs under the lock and is one step; a `Dequeue` that
-- has to wait is no step until the condition holds.
use aim_rt.Prelude.{
  ◌≡◌, refl, sym, ap, ◌∙◌, Bool, true, false, List, [], ◌∷◌, ◌++◌, Option, none, some,
  if◌then◌else◌, append_assoc, Bool-cases, inl, inr,
}

pub record BlockQueue (T : Type 0) : Type 0 where
  pub queue : List T
  pub running_flag : Bool

-- What a call gives: an item, nothing, the exception BlockQueueStoppedException, or it waits.
pub data Taken (T : Type 0) : Type 0 where
  item : T → BlockQueue T → Taken T
  no_item : Taken T
  stopped : Taken T
  waits : Taken T

module _ {T : Type 0} where
  abbrev pub new_queue : BlockQueue T
  new_queue = record { queue = []; running_flag = true }

  -- `none` is the exception.
  unfoldable pub enqueue : T → BlockQueue T → Option (BlockQueue T)
  enqueue x q = if q.running_flag then some (record q { queue = q.queue ++ (x ∷ []) }) else none

  unfoldable pub dequeue : BlockQueue T → Taken T
  dequeue q = elim q.running_flag [
    | false ↦ stopped
    | true ↦ elim q.queue [ [] ↦ waits | x ∷ xs ↦ item x (record q { queue = xs }) ]
  ]

  unfoldable pub try_dequeue : BlockQueue T → Taken T
  try_dequeue q = elim q.running_flag [
    | false ↦ no_item
    | true ↦ elim q.queue [ [] ↦ no_item | x ∷ xs ↦ item x (record q { queue = xs }) ]
  ]

  unfoldable pub stop : BlockQueue T → BlockQueue T
  stop q = record q { running_flag = false }

  -- The steps of all threads, with the items that were taken in and those that were handed out.
  pub data Runs : List T → List T → BlockQueue T → Type 0 where
    begins : Runs [] [] new_queue
    enqueued :
        {ins outs : List T} {p q : BlockQueue T} (x : T)
        → Runs ins outs p
        → enqueue x p ≡ some q
        → Runs (ins ++ (x ∷ [])) outs q
    dequeued :
        {ins outs : List T} {p q : BlockQueue T} (x : T)
        → Runs ins outs p
        → dequeue p ≡ item x q
        → Runs ins (outs ++ (x ∷ [])) q
    tried :
        {ins outs : List T} {p q : BlockQueue T} (x : T)
        → Runs ins outs p
        → try_dequeue p ≡ item x q
        → Runs ins (outs ++ (x ∷ [])) q
    ended : {ins outs : List T} {p : BlockQueue T} → Runs ins outs p → Runs ins outs (stop p)

  queue_after : Option (BlockQueue T) → List T
  queue_after none = []
  queue_after (some q) = q.queue

  queue_before : Taken T → List T
  queue_before (item x q) = x ∷ q.queue
  queue_before no_item = []
  queue_before stopped = []
  queue_before waits = []

  enqueue-queue :
      (x : T) (p q : BlockQueue T) → enqueue x p ≡ some q → q.queue ≡ p.queue ++ (x ∷ [])
  unfolding enqueue queue_after
  enqueue-queue x p q h = elim (Bool-cases p.running_flag) [
    | inl e ↦ let made = rw (enqueue, e) at h in sym (ap queue_after made)
    | inr e ↦ let no = rw (enqueue, e) at h in cc
  ]

  dequeue-queue :
      (x : T) (running : Bool) (xs : List T) (q : BlockQueue T)
      → dequeue (record { queue = xs; running_flag = running }) ≡ item x q
      → xs ≡ x ∷ q.queue
  unfolding dequeue queue_before
  dequeue-queue x false xs q h = cc
  dequeue-queue x true [] q h = cc
  dequeue-queue x true (y ∷ ys) q h = ap queue_before h

  try_dequeue-queue :
      (x : T) (running : Bool) (xs : List T) (q : BlockQueue T)
      → try_dequeue (record { queue = xs; running_flag = running }) ≡ item x q
      → xs ≡ x ∷ q.queue
  unfolding try_dequeue queue_before
  try_dequeue-queue x false xs q h = cc
  try_dequeue-queue x true [] q h = cc
  try_dequeue-queue x true (y ∷ ys) q h = ap queue_before h

  taken_on :
      (ins outs xs ys : List T) (x : T)
      → ins ≡ outs ++ xs
      → xs ≡ x ∷ ys
      → ins ≡ (outs ++ (x ∷ [])) ++ ys
  taken_on ins outs xs ys x h e = h ∙ ap (λ zs. outs ++ zs) e ∙ sym (append_assoc outs (x ∷ []) ys)

  -- However the calls of the threads are interleaved, the items that were taken in are those that were
  -- handed out and then those that are still in the queue, in this order: each item is handed out at
  -- most once and in the order of the calls that brought it, also after `Stop`.
  pub Runs-fifo : {ins outs : List T} {q : BlockQueue T} → Runs ins outs q → ins ≡ outs ++ q.queue
  unfolding stop
  Runs-fifo begins = refl
  Runs-fifo (enqueued {ins} {outs} {p} {q} x r e) =
      ap (λ zs. zs ++ (x ∷ [])) (Runs-fifo r)
      ∙ append_assoc outs p.queue (x ∷ [])
      ∙ ap (λ zs. outs ++ zs) (sym (enqueue-queue x p q e))
  Runs-fifo (dequeued {ins} {outs} {p} {q} x r e) =
      taken_on ins outs p.queue q.queue x (Runs-fifo r) (dequeue-queue x p.running_flag p.queue q e)
  Runs-fifo (tried {ins} {outs} {p} {q} x r e) =
      taken_on ins outs p.queue q.queue x (Runs-fifo r)
        (try_dequeue-queue x p.running_flag p.queue q e)
  Runs-fifo (ended r) = Runs-fifo r
