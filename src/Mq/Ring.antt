-- ===== src/Mq/Ring.antt =====
-- The ring of skynet_mq.c holds a first-in, first-out queue of messages.
pub mod Copy
use ue4_background.Prelude.{
  ℕ, zero, suc, ◌+◌, ◌-◌, ◌*◌, ◌%◌, ◌≤◌, ◌<◌, ◌≡◌, refl, ap₂, ap, ◌∙◌, sym, ◌≢◌, Option, none, some,
  List, [], ◌∷◌, ◌++◌, map, arith, ltb, if◌then◌else◌, length, get_or, set, replicate, length-set,
  length-append, length-replicate, get_or-set_self, get_or-set_ne, leb, get_or-append_left, ◌⊎◌,
  inl, inr, Bool-cases, ◌==◌, map-append, ==_iff,
}
use ue4_background.Mq.{
  Message, Cells, MessageQueue, create, mq_length, mq_pop, pop_message, copy_cells, expand_queue,
  push_message, raise_threshold,
}
use Copy.{
  copy_cells-snoc, copy_cells-set, copy_cells-shift, copy_cells-plain, length-copy_cells,
  offset-mod,
}

-- The indices of the ring lie in the array.
pub record IsRing (q : MessageQueue) : Type 0 where
  pub size : length q.queue ≡ q.cap
  pub head_in : q.head < q.cap
  pub tail_in : q.tail < q.cap

-- The cells from the head to the tail, oldest first.
abbrev pub contents : MessageQueue → Cells
contents q = copy_cells q.queue q.cap q.head 0 (mq_length q)

-- The queue holds exactly the messages `ms`, oldest first.
pub record Holds (q : MessageQueue) (ms : List Message) : Type 0 where
  pub ring : IsRing q
  pub items : contents q ≡ map some ms

pub mq_length-lt : {q : MessageQueue} → IsRing q → mq_length q < q.cap
unfolding mq_length
mq_length-lt v = ground arith

tail-offset : {q : MessageQueue} → IsRing q → (q.head + mq_length q) % q.cap ≡ q.tail
unfolding mq_length
tail-offset {q} v = ground (arith, offset-mod q.cap q.head (mq_length q))

length-map : {A B : Type 0} (f : A → B) (xs : List A) → length (map f xs) ≡ length xs
length-map f [] = refl
length-map f (x ∷ xs) = ap suc (length-map f xs)

-- `skynet_mq_length` counts the messages.
pub mq_length-Holds : {q : MessageQueue} (ms : List Message) → Holds q ms → mq_length q ≡ length ms
mq_length-Holds {q} ms h = omega (
  arith,
  ap length h.items,
  length-copy_cells q.queue q.cap q.head 0 (mq_length q),
  length-map {A = Message} {B = Option Message} some ms,
)

pub create-Holds : (handle : ℕ) → Holds (create handle) []
unfolding create mq_length copy_cells
create-Holds handle = record { ring = omega arith; items = refl }

-- The cells after the write of `skynet_mq_push`, with the new message last.
written :
    {q : MessageQueue} (m : Message)
    → IsRing q
    → copy_cells (set q.queue q.tail (some m)) q.cap q.head 0 (suc (mq_length q))
      ≡ contents q ++ some m ∷ []
written {q} m v =
    copy_cells-snoc (set q.queue q.tail (some m)) q.cap q.head 0 (mq_length q) ∙ ap₂ ◌++◌ old new
  where
    miss : (j : ℕ) → 0 ≤ j → j < 0 + mq_length q → q.tail ≢ (q.head + j) % q.cap
    miss j _ p e = ground (
      arith,
      mq_length-lt v,
      tail-offset v,
      offset-mod q.cap q.head j,
      offset-mod q.cap q.head (mq_length q),
    )

    old : copy_cells (set q.queue q.tail (some m)) q.cap q.head 0 (mq_length q) ≡ contents q
    old = copy_cells-set q.queue q.cap q.head q.tail 0 (mq_length q) (some m) miss

    at_tail : (q.head + (0 + mq_length q)) % q.cap ≡ q.tail
    at_tail = ap (λ n. (q.head + n) % q.cap) (omega arith) ∙ tail-offset v

    new :
        get_or (set q.queue q.tail (some m)) ((q.head + (0 + mq_length q)) % q.cap) none ∷ []
        ≡ some m ∷ []
    new =
        ap (λ c. c ∷ [])
          (ap (λ i. get_or (set q.queue q.tail (some m)) i none) at_tail
            ∙ get_or-set_self q.queue q.tail (some m) none (omega (arith, v.size, v.tail_in)))

-- After a push that leaves head and tail apart, the ring is one message longer.
stored-contents :
    {q : MessageQueue} (m : Message) (t : ℕ)
    → IsRing q
    → t ≡ (if leb q.cap (q.tail + 1) then 0 else q.tail + 1)
    → q.head ≢ t
    → contents (record q { queue = set q.queue q.tail (some m); tail = t })
      ≡ contents q ++ some m ∷ []
unfolding mq_length
stored-contents {q} m t v e ne =
    ap (copy_cells (set q.queue q.tail (some m)) q.cap q.head 0) longer ∙ written m v
  where
    longer : (if leb q.head t then t - q.head else t + q.cap - q.head) ≡ suc (mq_length q)
    longer = ground arith

-- `expand_queue` copies the whole ring to the front of the larger array.
expand-contents :
    (q : MessageQueue)
    → 0 < q.cap
    → contents (expand_queue q) ≡ copy_cells q.queue q.cap q.head 0 q.cap
unfolding expand_queue mq_length
expand-contents q p =
    ap (copy_cells (ring ++ replicate q.cap none) (q.cap * 2) 0 0) count
    ∙ copy_cells-plain (ring ++ replicate q.cap none) (replicate q.cap none) (q.cap * 2) 0 ring refl
        (omega (arith, length-copy_cells q.queue q.cap q.head 0 q.cap))
  where
    ring : Cells
    ring = copy_cells q.queue q.cap q.head 0 q.cap

    count : (if leb 0 q.cap then q.cap - 0 else q.cap + q.cap * 2 - 0) ≡ length ring
    count = ground (arith, length-copy_cells q.queue q.cap q.head 0 q.cap)

module _ {q : MessageQueue} (ms : List Message) (m : Message) (h : Holds q ms) where
  push_message-roomy :
      (t : ℕ)
      → t ≡ (if leb q.cap (q.tail + 1) then 0 else q.tail + 1)
      → q.head ≢ t
      → Holds (record q { queue = set q.queue q.tail (some m); tail = t }) (ms ++ m ∷ [])
  push_message-roomy t e ne = record {
    ring = ground (arith, h.ring, length-set q.queue q.tail (some m));
    items =
        stored-contents m t h.ring e ne
        ∙ ap (λ c. c ++ some m ∷ []) h.items
        ∙ sym (map-append some ms (m ∷ []));
  }

  push_message-grows :
      (t : ℕ)
      → t ≡ (if leb q.cap (q.tail + 1) then 0 else q.tail + 1)
      → q.head ≡ t
      → Holds
          (expand_queue (record q { queue = set q.queue q.tail (some m); tail = t }))
          (ms ++ m ∷ [])
  unfolding expand_queue mq_length
  push_message-grows t e same = record {
    ring = record {
      size =
          length-append ring (replicate q.cap none)
          ∙ omega (
            arith,
            length-copy_cells (set q.queue q.tail (some m)) q.cap q.head 0 q.cap,
            length-replicate {A = Option Message} q.cap none,
          );
      head_in = omega (arith, h.ring.head_in);
      tail_in = omega (arith, h.ring.head_in);
    };
    items =
        expand-contents (record q { queue = set q.queue q.tail (some m); tail = t })
          (omega (arith, h.ring.head_in))
        ∙ ap (copy_cells (set q.queue q.tail (some m)) q.cap q.head 0) full
        ∙ written m h.ring
        ∙ ap (λ c. c ++ some m ∷ []) h.items
        ∙ sym (map-append some ms (m ∷ []));
  }
    where
      ring : Cells
      ring = copy_cells (set q.queue q.tail (some m)) q.cap q.head 0 q.cap

      full : q.cap ≡ suc (mq_length q)
      full = ground (arith, h.ring)

  -- `skynet_mq_push` puts the message behind the others, whether the ring has room or is expanded.
  pub push_message-Holds : Holds (push_message q m) (ms ++ m ∷ [])
  unfolding push_message
  push_message-Holds =
      let t : ℕ = if leb q.cap (q.tail + 1) then 0 else q.tail + 1 in
      elim (Bool-cases (q.head == t)) [
        | inl e ↦ rw e (push_message-grows t refl ((==_iff q.head t).0 e))
        | inr e ↦ rw e (push_message-roomy t refl (λ s. ground arith))
      ]
