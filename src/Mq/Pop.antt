-- ===== src/Mq/Pop.antt =====
-- `skynet_mq_pop`: the oldest message, and the overload mark.
use ue4_background.Prelude.{
  ℕ, zero, suc, ◌+◌, ◌-◌, ◌*◌, ◌%◌, ◌≤◌, ◌<◌, ◌≡◌, refl, sym, ap, ap₂, ◌∙◌, ◌≢◌, inl, inr, none,
  some, List, [], ◌∷◌, arith, ltb, leb, if◌then◌else◌, Bool-cases, get_or,
}
use ue4_background.Mq.{
  Message, MessageQueue, mq_length, mq_pop, pop_message, copy_cells, raise_threshold, mq_overload,
}
use ue4_background.Mq.Ring.{Holds, IsRing, contents, mq_length-Holds}
use ue4_background.Mq.Ring.Copy.{copy_cells-shift, offset-mod}

-- The loop of `skynet_mq_pop` ends with a threshold that the length does not pass. It leaves both
-- marks alone at a length within the threshold; at a longer one it notes the length, and the new
-- threshold is less than twice the length.
pub raise_threshold_lem :
    (fuel len overload threshold : ℕ)
    → 0 < threshold
    → len < threshold + fuel
    → (len ≤ (raise_threshold fuel len overload threshold).1)
      × (len ≤ threshold → raise_threshold fuel len overload threshold ≡ (overload, threshold))
      × (threshold < len
          → ((raise_threshold fuel len overload threshold).0 ≡ len)
            × ((raise_threshold fuel len overload threshold).1 < 2 * len))
unfolding raise_threshold
raise_threshold_lem zero len overload threshold p q =
    (omega arith, λ _. refl, λ h. absurd (omega arith))
raise_threshold_lem (suc fuel) len overload threshold p q = elim (Bool-cases (ltb threshold len)) [
  | inl more ↦
      let ih = raise_threshold_lem fuel len len (threshold * 2) (omega arith) (ground arith) in
      rw more (
        ih.0,
        λ h. absurd (ground arith),
        λ h. elim (Bool-cases (ltb (threshold * 2) len)) [
          | inl again ↦ ih.2 (ground arith)
          | inr done ↦ let e = ih.1 (ground arith) in (ap (λ (r : ℕ × ℕ). r.0) e, ground arith)
        ],
      )
  | inr done ↦ rw done (ground arith, λ _. refl, λ h. absurd (ground arith))
]

module _ {q : MessageQueue} where
  popped-length : IsRing q → q.head ≢ q.tail → mq_length q ≡ suc (mq_length (pop_message q))
  unfolding mq_length pop_message
  popped-length v ne = ground arith

  next_head : IsRing q → (q.head + 1) % q.cap ≡ (pop_message q).head
  unfolding pop_message
  next_head v = ground (arith, offset-mod q.cap q.head 1)

  pop_message-contents :
      IsRing q
      → q.head ≢ q.tail
      → contents q ≡ get_or q.queue q.head none ∷ contents (pop_message q)
  unfolding pop_message copy_cells
  pop_message-contents v ne =
      ap (copy_cells q.queue q.cap q.head 0) (popped-length v ne)
      ∙ ap₂ ◌∷◌ (ap (λ i. get_or q.queue i none) first) (
          copy_cells-shift q.queue q.cap q.head 0 (mq_length (pop_message q))
          ∙ ap (λ h. copy_cells q.queue q.cap h 0 (mq_length (pop_message q))) (next_head v))
    where
      first : (q.head + 0) % q.cap ≡ q.head
      first = ground (arith, offset-mod q.cap q.head 0)

  pop_message-IsRing : IsRing q → IsRing (pop_message q)
  unfolding pop_message
  pop_message-IsRing v = ground arith

  -- Popping an empty queue reports so, forgets that the queue is scheduled, and lowers the threshold.
  pub mq_pop-Holds_nil :
      Holds q []
      → mq_pop q ≡ (1, none, record q { overload_threshold = mq_overload; in_global = 0 })
  unfolding mq_pop mq_length
  mq_pop-Holds_nil h = ground (arith, mq_length-Holds [] h, h.ring)

  nonempty : (x : Message) (ms : List Message) → Holds q (x ∷ ms) → q.head ≢ q.tail
  unfolding mq_length
  nonempty x ms h e = ground (arith, mq_length-Holds (x ∷ ms) h)

  pub mq_pop-Holds_cons :
      (x : Message) (ms : List Message)
      → Holds q (x ∷ ms)
      → (mq_pop q ≡ (0, some x, pop_message q)) × Holds (pop_message q) ms
  unfolding mq_pop
  mq_pop-Holds_cons x ms h =
      let ne = nonempty x ms h in
      let split = sym (pop_message-contents h.ring ne) ∙ h.items in
      (ground arith, record { ring = pop_message-IsRing h.ring; items = cc })

-- The marks are set for the number of messages that are left.
pub pop_message_marks :
    (q : MessageQueue) (n : ℕ)
    → mq_length (pop_message q) ≡ n
    → ((pop_message q).overload ≡ (raise_threshold n n q.overload q.overload_threshold).0)
      × ((pop_message q).overload_threshold
          ≡ (raise_threshold n n q.overload q.overload_threshold).1)
unfolding mq_length pop_message
pop_message_marks q n e = (
  ap (λ k. (raise_threshold k k q.overload q.overload_threshold).0) same,
  ap (λ k. (raise_threshold k k q.overload q.overload_threshold).1) same,
)
  where
    h : ℕ
    h = if leb q.cap (q.head + 1) then 0 else q.head + 1

    same : (if ltb q.tail h then q.tail + q.cap - h else q.tail - h) ≡ n
    same = ground arith
