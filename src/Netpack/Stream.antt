-- ===== src/Netpack/Stream.antt =====
-- Pieces of several byte streams, one after the other, and a reader that takes what is delivered.
use ue4_background.Netpack.Frames.{Frames-append, done, Frames}
use ue4_background.Netpack.Chains.{Holds-IsShort, Same, Holds}
use ue4_background.Netpack.Filter.{filter_data_lem, deliver}
use ue4_background.Netpack.{
  Uncomplete, Netpack, Queue, Reply, filter_data, more, nothing, pop, whole,
}
use ue4_background.Netpack.Feed.{netpacks}
use ue4_background.Prelude.{
  ℕ, zero, suc, ◌<◌, ◌≡◌, refl, ap, ◌∙◌, ◌≢◌, inl, inr, false, none, some, List, [], ◌∷◌, ◌++◌,
  append-nil, append_assoc, arith, ◌==◌, if◌then◌else◌, ==_iff, ==_refl, Bool-cases, length, update,
}

-- The reader calls `pop` until there is no package.
unfoldable pub pop_all : ℕ → Queue → List Netpack × Queue
pop_all zero q = ([], q)
pop_all (suc n) q =
    let (ps, q') = pop_all n (pop q).1 in elim (pop q).0 [ none ↦ ([], q) | some p ↦ (p ∷ ps, q') ]

abbrev pub take_reply : Reply → Queue → List Netpack × Queue
take_reply nothing q = ([], q)
take_reply (whole fd p) q = (record { id = fd; buffer = p } ∷ [], q)
take_reply more q = pop_all (length q.queue) q

-- A piece and the file descriptor it comes from.
abbrev pub Piece : Type 0
Piece = ℕ × List ℕ

unfoldable pub arrive : Queue → Piece → List Netpack × Queue
arrive q (fd, buffer) = let (reply, q') = filter_data q fd buffer in take_reply reply q'

unfoldable pub arrive_all : Queue → List Piece → List Netpack × Queue
arrive_all q [] = ([], q)
arrive_all q (piece ∷ pieces) =
    let (ps, q') = arrive q piece in let (qs, q'') = arrive_all q' pieces in (ps ++ qs, q'')

-- What one file descriptor sent.
abbrev pub sent : ℕ → List Piece → List ℕ
sent fd [] = []
sent fd ((from, buffer) ∷ pieces) = if from == fd then buffer ++ sent fd pieces else sent fd pieces

-- The packages of one file descriptor.
abbrev pub packages_of : ℕ → List Netpack → List (List ℕ)
packages_of fd [] = []
packages_of fd (p ∷ ps) = if p.id == fd then p.buffer ∷ packages_of fd ps else packages_of fd ps

abbrev pub NoneEmpty : List Piece → Type 0
NoneEmpty [] = Unit
NoneEmpty ((from, buffer) ∷ pieces) = (0 < length buffer) × NoneEmpty pieces

packages_of-append :
    (fd : ℕ) (ps qs : List Netpack)
    → packages_of fd (ps ++ qs) ≡ packages_of fd ps ++ packages_of fd qs
packages_of-append fd [] qs = refl
packages_of-append fd (p ∷ ps) qs = ground (arith, packages_of-append fd ps qs)

packages_of_own : (fd : ℕ) (ps : List (List ℕ)) → packages_of fd (netpacks fd ps) ≡ ps
packages_of_own fd [] = refl
packages_of_own fd (p ∷ ps) = rw (==_refl fd, packages_of_own fd ps)

packages_of_other :
    (fd other : ℕ) (ps : List (List ℕ)) → fd ≢ other → packages_of other (netpacks fd ps) ≡ []
packages_of_other fd other [] ne = refl
packages_of_other fd other (p ∷ ps) ne = ground (arith, packages_of_other fd other ps ne)

pop_all_lem :
    (hash : ℕ → List Uncomplete) (queue : List Netpack)
    → pop_all (length queue) (record { hash = hash; queue = queue })
      ≡ (queue, record { hash = hash; queue = [] })
unfolding pop_all pop
pop_all_lem hash [] = refl
pop_all_lem hash (p ∷ queue) = rw (pop_all_lem hash queue)

-- The reader of an empty queue has all packages of the reply, and leaves the queue empty.
record Read (fd : ℕ) (ps : List (List ℕ)) (q : Queue) (out : List Netpack × Queue) : Type 0 where
  read : out.0 ≡ netpacks fd ps
  empty : out.1.queue ≡ []
  same : out.1.hash ≡ q.hash

queue_taken :
    (q : Queue) (fd : ℕ) (ps : List (List ℕ))
    → q.queue ≡ netpacks fd ps
    → Read fd ps q (take_reply more q)
queue_taken q fd ps e =
    let all = pop_all_lem q.hash q.queue in
    record {
      read = ap (λ x. x.0) all ∙ e;
      empty = ap (λ x. x.1.queue) all;
      same = ap (λ x. x.1.hash) all;
    }

take_reply_lem :
    (reply : Reply) (q : Queue) (fd : ℕ) (ps : List (List ℕ)) (rest : List ℕ)
    → (reply, q.queue) ≡ deliver [] fd ps rest
    → Read fd ps q (take_reply reply q)
take_reply_lem reply q fd [] rest e =
    let r : reply ≡ nothing = ap (λ x. x.0) e in
    rw r (record { read = refl; empty = ap (λ x. x.1) e; same = refl })
take_reply_lem reply q fd (p ∷ []) [] e =
    let r : reply ≡ whole fd p = ap (λ x. x.0) e in
    rw r (record { read = refl; empty = ap (λ x. x.1) e; same = refl })
take_reply_lem reply q fd (p ∷ []) (b ∷ rest) e =
    let r : reply ≡ more = ap (λ x. x.0) e in rw r (queue_taken q fd (p ∷ []) (ap (λ x. x.1) e))
take_reply_lem reply q fd (p ∷ p' ∷ ps) rest e =
    let r : reply ≡ more = ap (λ x. x.0) e in
    rw r (queue_taken q fd (p ∷ p' ∷ ps) (ap (λ x. x.1) e))

-- What the arrival of one piece does.
record Arrived (q : Queue) (fd : ℕ) (bytes : List ℕ) (out : List Netpack × Queue) : Type 0 where
  ps : List (List ℕ)
  rest : List ℕ
  frames : Frames bytes ps rest
  read : out.0 ≡ netpacks fd ps
  empty : out.1.queue ≡ []
  holds : Holds out.1 fd rest
  others : (other : ℕ) → other ≢ fd → Same q out.1 other

arrive_lem :
    (q : Queue) (fd : ℕ) (waiting buffer : List ℕ)
    → q.queue ≡ []
    → Holds q fd waiting
    → 0 < length buffer
    → Arrived q fd (waiting ++ buffer) (arrive q (fd, buffer))
unfolding arrive
arrive_lem q fd waiting buffer e h l =
    let d = filter_data_lem q fd waiting buffer h l in
    let out = filter_data q fd buffer in
    let r =
      take_reply_lem out.0 out.1 fd d.ps d.rest
        (d.answered ∙ ap (λ x. deliver x fd d.ps d.rest) e) in
    record {
      ps = d.ps;
      rest = d.rest;
      frames = d.frames;
      read = r.read;
      empty = r.empty;
      holds = rw r.same d.holds;
      others = λ other ne rest h'. rw r.same (d.others other ne rest h');
    }

update_held :
    (q q' : Queue) (waiting : ℕ → List ℕ) (from : ℕ) (rest : List ℕ)
    → ((fd : ℕ) → Holds q fd (waiting fd))
    → Holds q' from rest
    → ((other : ℕ) → other ≢ from → Same q q' other)
    → (fd : ℕ) → Holds q' fd (update waiting from rest fd)
update_held q q' waiting from rest h own others fd = elim (Bool-cases (fd == from)) [
  | inl y ↦ let e : fd ≡ from = (==_iff _ _).0 y in rw (e, ==_refl from) own
  | inr n ↦ rw n (others fd (λ e. ground arith) (waiting fd) (h fd))
]

-- What the reader has from one file descriptor in the end.
abbrev pub Divided : (fd : ℕ) (bytes : List ℕ) → List Netpack × Queue → Type 0
Divided fd bytes out =
    (rest : List ℕ) × Frames bytes (packages_of fd out.0) rest × Holds out.1 fd rest

after_first :
    (waiting : ℕ → List ℕ) (from fd : ℕ) (buffer rest : List ℕ) (ps : List (List ℕ))
    (pieces : List Piece) (qs : List Netpack) (q : Queue)
    → Frames (waiting from ++ buffer) ps rest
    → Divided fd (update waiting from rest fd ++ sent fd pieces) (qs, q)
    → Divided fd (waiting fd ++ sent fd ((from, buffer) ∷ pieces)) (netpacks from ps ++ qs, q)
after_first waiting from fd buffer rest ps pieces qs q f (left, g, h) =
    elim (Bool-cases (from == fd)) [
      | inl y ↦
          let e : from ≡ fd = (==_iff _ _).0 y in
          let g' : Frames (rest ++ sent from pieces) (packages_of from qs) left =
            rw (← e, ==_refl from) at g in
          let all : Frames (waiting fd ++ (buffer ++ sent fd pieces))
              (packages_of fd (netpacks from ps ++ qs)) left =
            rw
              (
                packages_of-append fd (netpacks from ps) qs,
                ← e,
                packages_of_own from ps,
                ← append_assoc (waiting from) buffer (sent from pieces),
              )
              (Frames-append (sent from pieces) f g') in
          rw y (left, all, h)
      | inr n ↦
          let ne : (fd == from) ≡ false = ground arith in
          let g' : Frames (waiting fd ++ sent fd pieces) (packages_of fd qs) left = rw ne at g in
          rw
            (
              n,
              packages_of-append fd (netpacks from ps) qs,
              packages_of_other from fd ps (λ e. ground arith),
            )
            (left, g', h)
    ]

-- Pieces of byte streams, none of them empty, arrive from any file descriptors in any order, and after
-- each of them the reader takes what it is given. Then for every file descriptor, the packages read are
-- those into which its stream falls, in order, whatever the others sent and however the stream was cut;
-- what is left is less than a package and is kept for it. The queue is empty.
pub arrive_all_lem :
    (q : Queue) (waiting : ℕ → List ℕ) (pieces : List Piece)
    → q.queue ≡ []
    → ((fd : ℕ) → Holds q fd (waiting fd))
    → NoneEmpty pieces
    → ((arrive_all q pieces).1.queue ≡ [])
      × ((fd : ℕ) → Divided fd (waiting fd ++ sent fd pieces) (arrive_all q pieces))
unfolding arrive_all
arrive_all_lem q waiting [] e h n = (
  e,
  λ fd. (
    waiting fd,
    rw (append-nil (waiting fd)) (done _ (Holds-IsShort q fd (waiting fd) (h fd))),
    h fd,
  ),
)
arrive_all_lem q waiting ((from, buffer) ∷ pieces) e h (l, n) =
    let a = arrive_lem q from (waiting from) buffer e (h from) l in
    let q' = (arrive q (from, buffer)).1 in
    let (empty, all) =
      arrive_all_lem q' (update waiting from a.rest) pieces a.empty
        (update_held q q' waiting from a.rest h a.holds a.others) n in
    (
      empty,
      λ fd. rw a.read (
          after_first waiting from fd buffer a.rest a.ps pieces (arrive_all q' pieces).0
            (arrive_all q' pieces).1 a.frames (all fd)),
    )
