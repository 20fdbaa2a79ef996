-- ===== src/Netpack/Filter.antt =====
-- What one call of `filter_data_` delivers.
use ue4_background.Netpack.Chains.{
  find_uncomplete-WaitsOrNone, find_uncomplete-IsFree, find_uncomplete-Same, save_uncomplete-Same,
  IsFree-Holds, push_data-IsFree, save_uncomplete-Holds, Same, Waits, Holds, IsFree,
}
use ue4_background.Netpack.Frames.{frame, done, Frames, IsShort}
use ue4_background.Netpack.Feed.{push_more_lem, netpacks}
use ue4_background.Netpack.{
  Netpack, Progress, Queue, Reply, fill, filter_data, find_uncomplete, header, body, more, nothing,
  push_data, push_more, read_size, resume, save_uncomplete, start, whole,
}
use ue4_background.Prelude.{
  ℕ, ◌-◌, ◌≤◌, ◌<◌, ◌≡◌, refl, sym, ap, ◌∙◌, ◌≢◌, inl, inr, List, [], ◌∷◌, ◌++◌, append-nil,
  append_assoc, arith, ltb, ◌==◌, ltb→lt, ltb→le, ==_iff, Bool-cases, Option-cases, length, take,
  drop, length-append, take-drop, length-take_le, length-drop_le,
}

-- Exactly one package is handed over at once, more of them go into the queue.
abbrev pub deliver : List Netpack → ℕ → List (List ℕ) → List ℕ → Reply × List Netpack
deliver queue fd [] rest = (nothing, queue)
deliver queue fd (p ∷ []) [] = (whole fd p, queue)
deliver queue fd (p ∷ []) (b ∷ rest) = (more, queue ++ netpacks fd (p ∷ []))
deliver queue fd (p ∷ p' ∷ ps) rest = (more, queue ++ netpacks fd (p ∷ p' ∷ ps))

-- What a call makes of the bytes that `fd` has now, with those that waited.
pub record Delivered (q : Queue) (fd : ℕ) (bytes : List ℕ) (out : Reply × Queue) : Type 0 where
  pub ps : List (List ℕ)
  pub rest : List ℕ
  pub frames : Frames bytes ps rest
  pub answered : (out.0, out.1.queue) ≡ deliver q.queue fd ps rest
  pub holds : Holds out.1 fd rest
  pub others : (other : ℕ) → other ≢ fd → Same q out.1 other

deliver-more :
    {bytes rest : List ℕ} {ps : List (List ℕ)} (queue : List Netpack) (fd : ℕ) (p : List ℕ)
    → Frames bytes ps rest
    → 0 < length bytes
    → deliver queue fd (p ∷ ps) rest ≡ (more, queue ++ netpacks fd (p ∷ ps))
deliver-more queue fd p (done [] s) l = absurd (omega arith)
deliver-more queue fd p (done (x ∷ rest) s) l = refl
deliver-more queue fd p (frame b₀ b₁ p' tail rest bytes ps e k f) l = refl

IsShort-Frames : (bytes : List ℕ) → length bytes ≡ 0 → Frames bytes [] []
IsShort-Frames [] l = done [] tt
IsShort-Frames (x ∷ bytes) l = absurd (omega arith)

nothing_whole :
    (q : Queue) (fd : ℕ) (progress : Progress) (bytes : List ℕ)
    → IsFree q fd
    → Waits progress bytes
    → IsShort bytes
    → Delivered q fd bytes (nothing, save_uncomplete q fd progress)
unfolding save_uncomplete
nothing_whole q fd progress bytes f w s = record {
  ps = [];
  rest = bytes;
  frames = done bytes s;
  answered = refl;
  holds = save_uncomplete-Holds q fd progress bytes f w;
  others = λ other ne. save_uncomplete-Same q fd other progress ne;
}

module _ (q : Queue) (fd : ℕ) (f : IsFree q fd) (b₀ b₁ : ℕ) (p tail bytes : List ℕ)
    (e : bytes ≡ b₀ ∷ b₁ ∷ p ++ tail) (l : length p ≡ read_size b₀ b₁) where
  one_package : length tail ≡ 0 → Delivered q fd bytes (whole fd p, q)
  one_package z = record {
    ps = p ∷ [];
    rest = [];
    frames = frame b₀ b₁ p tail [] bytes [] e l (IsShort-Frames tail z);
    answered = refl;
    holds = IsFree-Holds q fd f;
    others = λ other ne rest h. h;
  }

  more_packages :
      0 < length tail
      → Delivered q fd bytes (more, push_more (length tail) (push_data q fd p) fd tail)
  unfolding push_data
  more_packages z =
      let t =
        push_more_lem (length tail) (push_data q fd p) fd tail (omega arith)
          (push_data-IsFree q fd p f) in
      record {
        ps = p ∷ t.ps;
        rest = t.rest;
        frames = frame b₀ b₁ p tail t.rest bytes t.ps e l t.frames;
        answered =
            ap (λ x. (more, x))
              (t.queued
                ∙ append_assoc q.queue (record { id = fd; buffer = p } ∷ []) (netpacks fd t.ps))
            ∙ sym (deliver-more q.queue fd p t.frames z);
        holds = t.holds;
        others = t.others;
      }

module _ (q : Queue) (fd : ℕ) (f : IsFree q fd) (b₀ b₁ : ℕ) where
  fill_lem :
      (size : ℕ) (filled buffer : List ℕ)
      → size ≡ read_size b₀ b₁
      → length filled ≤ size
      → Delivered q fd (b₀ ∷ b₁ ∷ filled ++ buffer) (fill q fd size filled buffer)
  unfolding fill
  fill_lem size filled buffer e k =
      let need = size - length filled in
      elim (Bool-cases (ltb (length buffer) need)) [
        | inl y ↦
            let s : length (filled ++ buffer) < size =
              omega (arith, length-append filled buffer, ltb→lt _ _ y) in
            rw y (
              nothing_whole q fd (body size (filled ++ buffer)) _ f (b₀, b₁, e, refl, s)
                (omega (arith, s, e)))
        | inr y ↦
            let n : need ≤ length buffer = ltb→le _ _ y in
            let whole_e : b₀ ∷ b₁ ∷ filled ++ buffer
                ≡ b₀ ∷ b₁ ∷ (filled ++ take need buffer) ++ drop need buffer =
              ap (λ z. b₀ ∷ b₁ ∷ z)
                (ap (λ z. filled ++ z) (sym (take-drop need buffer))
                  ∙ sym (append_assoc filled (take need buffer) (drop need buffer))) in
            let len : length (filled ++ take need buffer) ≡ read_size b₀ b₁ = omega (
              arith,
              length-append filled (take need buffer),
              length-take_le need buffer n,
              e,
              k,
            ) in
            elim (Bool-cases (length buffer == need)) [
              | inl z ↦
                  rw (y, z)
                    (one_package q fd f b₀ b₁ (filled ++ take need buffer) (drop need buffer) _
                      whole_e len (omega (arith, length-drop_le need buffer n, (==_iff _ _).0 z)))
              | inr z ↦
                  let ne : length buffer ≢ need = λ u. ground arith in
                  rw (y, z)
                    (more_packages q fd f b₀ b₁ (filled ++ take need buffer) (drop need buffer) _
                      whole_e len (omega (arith, length-drop_le need buffer n, ne)))
            ]
      ]

  start_lem : (bytes : List ℕ) → Delivered q fd (b₀ ∷ b₁ ∷ bytes) (start q fd (b₀ ∷ b₁ ∷ bytes))
  unfolding start
  start_lem bytes =
      let size = read_size b₀ b₁ in
      elim (Bool-cases (ltb (length bytes) size)) [
        | inl y ↦
            let s : length bytes < size = ltb→lt _ _ y in
            rw y (nothing_whole q fd (body size bytes) _ f (b₀, b₁, refl, refl, s) s)
        | inr y ↦
            let n : size ≤ length bytes = ltb→le _ _ y in
            elim (Bool-cases (length bytes == size)) [
              | inl z ↦
                  rw (y, z)
                    (one_package q fd f b₀ b₁ bytes [] _
                      (ap (λ u. b₀ ∷ b₁ ∷ u) (sym (append-nil bytes))) ((==_iff _ _).0 z) refl)
              | inr z ↦
                  let ne : length bytes ≢ size = λ u. ground arith in
                  rw (y, z)
                    (more_packages q fd f b₀ b₁ (take size bytes) (drop size bytes) _
                      (ap (λ u. b₀ ∷ b₁ ∷ u) (sym (take-drop size bytes)))
                      (length-take_le size bytes n)
                      (omega (arith, length-drop_le size bytes n, ne)))
            ]
      ]

resume_lem :
    (q : Queue) (fd : ℕ) (progress : Progress) (waiting buffer : List ℕ)
    → IsFree q fd
    → Waits progress waiting
    → 0 < length buffer
    → Delivered q fd (waiting ++ buffer) (resume q fd progress buffer)
unfolding resume
resume_lem q fd (header b) waiting [] f w l = absurd (omega arith)
resume_lem q fd (header b₀) waiting (b₁ ∷ buffer) f w l =
    rw w (fill_lem q fd f b₀ b₁ (read_size b₀ b₁) [] buffer refl (omega arith))
resume_lem q fd (body size filled) waiting buffer f (b₀, b₁, e, w, s) l =
    rw w (fill_lem q fd f b₀ b₁ size filled buffer e (omega arith))

begin_lem :
    (q : Queue) (fd : ℕ) (buffer : List ℕ)
    → IsFree q fd
    → 0 < length buffer
    → Delivered q fd buffer (start q fd buffer)
unfolding start
begin_lem q fd [] f l = absurd (omega arith)
begin_lem q fd (b ∷ []) f l = nothing_whole q fd (header b) (b ∷ []) f refl tt
begin_lem q fd (b₀ ∷ b₁ ∷ buffer) f l = start_lem q fd f b₀ b₁ buffer

found_before :
    (q : Queue) (fd : ℕ) (bytes : List ℕ) (out : Reply × Queue)
    → Delivered (find_uncomplete q fd).1 fd bytes out
    → Delivered q fd bytes out
unfolding find_uncomplete
found_before q fd bytes out d = record {
  ps = d.ps;
  rest = d.rest;
  frames = d.frames;
  answered = d.answered;
  holds = d.holds;
  others = λ other ne rest h. d.others other ne rest (find_uncomplete-Same q fd other ne rest h);
}

-- A piece of at least one byte arrives from `fd`, for which `waiting` bytes are kept. Together they
-- fall into packages and a rest that is less than one. Nothing is answered if there is no package; a
-- package with no rest is answered at once; otherwise the packages go to the end of the queue, in
-- order. The rest is kept for `fd`, and what other file descriptors have waiting stays as it is.
pub filter_data_lem :
    (q : Queue) (fd : ℕ) (waiting buffer : List ℕ)
    → Holds q fd waiting
    → 0 < length buffer
    → Delivered q fd (waiting ++ buffer) (filter_data q fd buffer)
unfolding filter_data
filter_data_lem q fd waiting buffer h l =
    let q' = (find_uncomplete q fd).1 in
    let f = find_uncomplete-IsFree q fd waiting h in
    let w = find_uncomplete-WaitsOrNone q fd waiting h in
    elim (Option-cases (find_uncomplete q fd).0) [
      | inl e ↦ rw (filter_data, e, rw e at w) (found_before q fd _ _ (begin_lem q' fd buffer f l))
      | inr (u, e) ↦
          rw (filter_data, e)
            (found_before q fd _ _ (resume_lem q' fd u.progress waiting buffer f (rw e at w) l))
    ]
