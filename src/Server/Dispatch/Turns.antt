-- ===== src/Server/Dispatch/Turns.antt =====
-- skynet-src/skynet_server.c: how many messages a turn handles, and that turns handle all of them.
use ue4_background.Server.Dispatch.Turn.{
  pop-IsCalm, IsCalm, rounds_lem, more_messages, IsQuiet, released,
}
use ue4_background.Mq.Ring.{mq_length-Holds}
use ue4_background.Mq.{mq_pop, mq_length, Message}
use ue4_background.Server.Dispatch.{call_of, Call, Callback, loop, rounds_for}
use ue4_background.Server.{Node}
use native.Mathlib.Nat.{div-le_self}
use ue4_background.Prelude.{
  ℕ, zero, suc, ◌+◌, ◌/◌, ◌^◌, ◌≤◌, ◌<◌, ◌≡◌, refl, sym, ap, ap₂, subst, ◌∙◌, Bool, true, false,
  Option, none, some, List, [], ◌∷◌, ◌++◌, append_assoc, arith, ltb, if◌then◌else◌, length, take,
  drop, take-drop, length-take_le, length-drop_le, drop-nil, ◌>>=◌,
}

released-append :
    (keep : Call → Bool) (xs ys : List Message)
    → released keep (xs ++ ys) ≡ released keep xs ++ released keep ys
unfolding released
released-append keep [] ys = refl
released-append keep (x ∷ xs) ys =
    ap (λ z. (if keep (call_of x) then [] else x.msg_data ∷ []) ++ z) (released-append keep xs ys)
    ∙ sym (
        append_assoc (if keep (call_of x) then [] else x.msg_data ∷ []) (released keep xs)
          (released keep ys))

rounds_for-bounds :
    (weight : Option ℕ) (l : ℕ) → (0 < rounds_for weight l) × (rounds_for weight l ≤ l + 1)
unfolding rounds_for
rounds_for-bounds none l = (omega arith, omega arith)
rounds_for-bounds (some w) l =
    let d : l / 2 ^ w ≤ l = div-le_self l (2 ^ w) in (ground arith, ground arith)

take-nil : {A : Type 0} (k : ℕ) → take {A = A} k [] ≡ []
take-nil zero = refl
take-nil (suc k) = refl

pub loop_lem :
    (cb : Callback) (keep : Call → Bool) (weight : Option ℕ) (n : Node) (ctx q : ℕ) (m : Message)
    (ms : List Message)
    → IsQuiet cb ctx q keep
    → (n.contexts ctx).is_init ≡ true
    → (n.contexts ctx).has_cb ≡ true
    → IsCalm (n.world.mqs q) (m ∷ ms)
    → let j = rounds_for weight (length ms) in
      (n' : Node) × (loop cb weight n ctx q ≡ some (false, released keep (take j (m ∷ ms)), n'))
      × IsCalm (n'.world.mqs q) (drop j (m ∷ ms))
      × (n'.contexts ctx ≡ more_messages (n.contexts ctx) j)
      × (0 < j)
      × (j ≤ length (m ∷ ms))
unfolding loop
loop_lem cb keep weight n ctx q m ms quiet i c h =
    let (p, left) = pop-IsCalm m ms (n.world.mqs q) h in
    let l : mq_length (mq_pop (n.world.mqs q)).2 ≡ length ms =
      rw p (mq_length-Holds ms left.holds) in
    let (pos, le) = rounds_for-bounds weight (length ms) in
    let (n', r, h', s) =
      rounds_lem cb keep (rounds_for weight (length ms)) n ctx q (m ∷ ms) quiet i c h in
    let z : ltb (length (m ∷ ms)) (rounds_for weight (length ms)) ≡ false = ground arith in
    (
      n',
      rw (l, r, z),
      h',
      s ∙ ap (more_messages (n.contexts ctx)) (length-take_le _ (m ∷ ms) (omega arith)),
      pos,
      omega arith,
    )

-- Turns at one queue, one after the other, until it is found empty: what is freed, and the node.
unfoldable pub turns : Callback → ℕ → Option ℕ → Node → (ctx q : ℕ) → Option (List ℕ × Node)
turns cb zero weight n ctx q = none
turns cb (suc fuel) weight n ctx q = loop cb weight n ctx q >>= λ t.
    let rest = turns cb fuel weight t.2 ctx q >>= λ u. some (t.1 ++ u.0, u.1) in
    if t.0 then some (t.1, t.2) else rest

turns-last :
    (cb : Callback) (fuel : ℕ) (weight : Option ℕ) (n : Node) (ctx q : ℕ) (f : List ℕ) (n1 : Node)
    → loop cb weight n ctx q ≡ some (true, f, n1)
    → turns cb (suc fuel) weight n ctx q ≡ some (f, n1)
unfolding turns
turns-last cb fuel weight n ctx q f n1 e = rw e

turns-more :
    (cb : Callback) (fuel : ℕ) (weight : Option ℕ) (n : Node) (ctx q : ℕ) (f g : List ℕ)
    (n1 n2 : Node)
    → loop cb weight n ctx q ≡ some (false, f, n1)
    → turns cb fuel weight n1 ctx q ≡ some (g, n2)
    → turns cb (suc fuel) weight n ctx q ≡ some (f ++ g, n2)
unfolding turns
turns-more cb fuel weight n ctx q f g n1 n2 e r = rw (e, r)

loop-empty :
    (cb : Callback) (keep : Call → Bool) (weight : Option ℕ) (n : Node) (ctx q : ℕ)
    → IsQuiet cb ctx q keep
    → (n.contexts ctx).is_init ≡ true
    → (n.contexts ctx).has_cb ≡ true
    → IsCalm (n.world.mqs q) []
    → (n' : Node) × (loop cb weight n ctx q ≡ some (true, [], n'))
      × IsCalm (n'.world.mqs q) []
      × (n'.contexts ctx ≡ more_messages (n.contexts ctx) 0)
unfolding loop released
loop-empty cb keep weight n ctx q quiet i c h =
    let left = mq_length (mq_pop (n.world.mqs q)).2 in
    let k = rounds_for weight left in
    let (pos, le) = rounds_for-bounds weight left in
    let (n', r, h', s) = rounds_lem cb keep k n ctx q [] quiet i c h in
    let z : ltb 0 k ≡ true = ground arith in
    (
      n',
      r ∙ ap₂ (λ b ms. some (b, released keep ms, n')) z (take-nil k),
      subst (IsCalm (n'.world.mqs q)) (drop-nil k) h',
      s ∙ ap (λ ms. more_messages (n.contexts ctx) (length ms)) (take-nil k),
    )

-- Turns at a queue that holds `ms`, no more than its overload threshold and with no overload noted, of any
-- weight, for an initialised service whose callback leaves the queue and the context of the service as
-- they are: with one turn more than there are messages at hand, the queue is found empty, and by then
-- every message has been handled, in order: the data freed is that of all messages that the callback does
-- not keep.
pub turns_lem :
    (cb : Callback) (keep : Call → Bool) (fuel : ℕ) (weight : Option ℕ) (n : Node) (ctx q : ℕ)
    (ms : List Message)
    → IsQuiet cb ctx q keep
    → (n.contexts ctx).is_init ≡ true
    → (n.contexts ctx).has_cb ≡ true
    → IsCalm (n.world.mqs q) ms
    → length ms < fuel
    → (n' : Node) × (turns cb fuel weight n ctx q ≡ some (released keep ms, n'))
      × IsCalm (n'.world.mqs q) []
      × (n'.contexts ctx ≡ more_messages (n.contexts ctx) (length ms))
unfolding released
turns_lem cb keep zero weight n ctx q ms quiet i c h l = absurd (omega arith)
turns_lem cb keep (suc fuel) weight n ctx q [] quiet i c h l =
    let (n', e, h', s) = loop-empty cb keep weight n ctx q quiet i c h in
    (n', turns-last cb fuel weight n ctx q [] n' e, h', s)
turns_lem cb keep (suc fuel) weight n ctx q (m ∷ ms) quiet i c h l =
    let j = rounds_for weight (length ms) in
    let xs = m ∷ ms in
    let (n1, e, h1, s1, pos, le) = loop_lem cb keep weight n ctx q m ms quiet i c h in
    let d : length (drop j xs) + j ≡ length xs = length-drop_le j xs le in
    let (n2, r, h2, s2) =
      turns_lem cb keep fuel weight n1 ctx q (drop j xs) quiet (rw s1 i) (rw s1 c) h1
        (omega arith) in
    let all : released keep (take j xs) ++ released keep (drop j xs) ≡ released keep xs =
      sym (released-append keep (take j xs) (drop j xs)) ∙ ap (released keep) (take-drop j xs) in
    (
      n2,
      turns-more cb fuel weight n ctx q _ _ n1 n2 e r ∙ ap (λ z. some (z, n2)) all,
      h2,
      s2
          ∙ ap (λ x. more_messages x (length (drop j xs))) s1
          ∙ ap (λ x. record (n.contexts ctx) { message_count = x }) (omega arith),
    )
