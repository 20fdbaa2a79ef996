-- ===== src/Netpack/Feed.antt =====
-- `filter_data_` delivers the packages of a byte stream, however the stream is cut.
use ue4_background.Netpack.Chains.{
  save_uncomplete-Same, IsFree-Holds, save_uncomplete-Holds, Same, Waits, push_data-IsFree, Holds,
  IsFree,
}
use ue4_background.Netpack.Frames.{done, frame, Frames, IsShort}
use ue4_background.Netpack.{
  Netpack, Progress, Queue, header, body, push_data, push_more, read_size, save_uncomplete,
}
use ue4_background.Prelude.{
  ℕ, zero, suc, ◌≤◌, ◌<◌, ◌≡◌, refl, sym, ap, ◌∙◌, ◌≢◌, inl, inr, List, [], ◌∷◌, ◌++◌, append-nil,
  append_assoc, arith, ltb, ltb→lt, ltb→le, Bool-cases, length, take, drop, take-drop,
  length-take_le, length-drop_le,
}

-- Packages as they stand in the queue.
abbrev pub netpacks : ℕ → List (List ℕ) → List Netpack
netpacks fd [] = []
netpacks fd (p ∷ ps) = record { id = fd; buffer = p } ∷ netpacks fd ps

-- The first package of a stream that has it whole, and then the others.
first_frame :
    (b₀ b₁ : ℕ) (bytes rest : List ℕ) (ps : List (List ℕ))
    → read_size b₀ b₁ ≤ length bytes
    → Frames (drop (read_size b₀ b₁) bytes) ps rest
    → Frames (b₀ ∷ b₁ ∷ bytes) (take (read_size b₀ b₁) bytes ∷ ps) rest
first_frame b₀ b₁ bytes rest ps l f =
    frame b₀ b₁ (take (read_size b₀ b₁) bytes) (drop (read_size b₀ b₁) bytes) rest (b₀ ∷ b₁ ∷ bytes)
      ps (ap (λ z. b₀ ∷ b₁ ∷ z) (sym (take-drop (read_size b₀ b₁) bytes)))
      (length-take_le (read_size b₀ b₁) bytes l) f

-- What reading `bytes` into the queue, with no incomplete package of `fd`, makes of it.
pub record Taken (q : Queue) (fd : ℕ) (bytes : List ℕ) (q' : Queue) : Type 0 where
  pub ps : List (List ℕ)
  pub rest : List ℕ
  pub frames : Frames bytes ps rest
  pub queued : q'.queue ≡ q.queue ++ netpacks fd ps
  pub holds : Holds q' fd rest
  pub others : (other : ℕ) → other ≢ fd → Same q q' other

saved :
    (q : Queue) (fd : ℕ) (progress : Progress) (bytes : List ℕ)
    → IsFree q fd
    → Waits progress bytes
    → IsShort bytes
    → Taken q fd bytes (save_uncomplete q fd progress)
unfolding save_uncomplete
saved q fd progress bytes f w s = record {
  ps = [];
  rest = bytes;
  frames = done bytes s;
  queued = sym (append-nil q.queue);
  holds = save_uncomplete-Holds q fd progress bytes f w;
  others = λ other ne. save_uncomplete-Same q fd other progress ne;
}

pushed_first :
    (q : Queue) (fd b₀ b₁ : ℕ) (bytes : List ℕ) (q' : Queue)
    → read_size b₀ b₁ ≤ length bytes
    → Taken (push_data q fd (take (read_size b₀ b₁) bytes)) fd (drop (read_size b₀ b₁) bytes) q'
    → Taken q fd (b₀ ∷ b₁ ∷ bytes) q'
unfolding push_data
pushed_first q fd b₀ b₁ bytes q' l t = record {
  ps = take (read_size b₀ b₁) bytes ∷ t.ps;
  rest = t.rest;
  frames = first_frame b₀ b₁ bytes t.rest t.ps l t.frames;
  queued =
      t.queued
      ∙ append_assoc q.queue (record { id = fd; buffer = take (read_size b₀ b₁) bytes } ∷ [])
          (netpacks fd t.ps);
  holds = t.holds;
  others = t.others;
}

no_more_bytes :
    (q : Queue) (fd : ℕ) (bytes : List ℕ) → length bytes ≡ 0 → IsFree q fd → Taken q fd bytes q
no_more_bytes q fd [] l f = record {
  ps = [];
  rest = [];
  frames = done [] tt;
  queued = sym (append-nil q.queue);
  holds = IsFree-Holds q fd f;
  others = λ other ne rest h. h;
}
no_more_bytes q fd (x ∷ bytes) l f = absurd (omega arith)

pub push_more_lem :
    (n : ℕ) (q : Queue) (fd : ℕ) (bytes : List ℕ)
    → length bytes ≤ n
    → IsFree q fd
    → Taken q fd bytes (push_more n q fd bytes)
unfolding push_more
push_more_lem zero q fd bytes l f = no_more_bytes q fd bytes (omega arith) f
push_more_lem (suc n) q fd [] l f = no_more_bytes q fd [] refl f
push_more_lem (suc n) q fd (b ∷ []) l f = saved q fd (header b) (b ∷ []) f refl tt
push_more_lem (suc n) q fd (b₀ ∷ b₁ ∷ bytes) l f =
    let size = read_size b₀ b₁ in
    elim (Bool-cases (ltb (length bytes) size)) [
      | inl y ↦
          let s : length bytes < size = ltb→lt _ _ y in
          rw y (saved q fd (body size bytes) (b₀ ∷ b₁ ∷ bytes) f (b₀, b₁, refl, refl, s) s)
      | inr y ↦
          let s : size ≤ length bytes = ltb→le _ _ y in
          elim (Bool-cases (ltb size (length bytes))) [
            | inl z ↦
                rw (y, z)
                  (pushed_first q fd b₀ b₁ bytes _ s (
                    push_more_lem n _ fd (drop size bytes)
                      (omega (arith, length-drop_le size bytes s))
                      (push_data-IsFree q fd (take size bytes) f)))
            | inr z ↦
                rw (y, z)
                  (pushed_first q fd b₀ b₁ bytes _ s (
                    no_more_bytes _ fd (drop size bytes)
                      (omega (arith, length-drop_le size bytes s, ltb→le _ _ z))
                      (push_data-IsFree q fd (take size bytes) f)))
          ]
    ]
