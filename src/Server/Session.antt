-- ===== src/Server/Session.antt =====
-- `skynet_context_newsession` over many calls.
use ue4_background.Server.{Context, newsession}
use ue4_background.Prelude.{ℕ, zero, suc, ◌+◌, ◌-◌, ◌%◌, ◌^◌, ◌<◌, ◌≡◌, ◌≢◌, arith}

-- The sessions come round after 2 ^ 31 - 1 calls.
abbrev pub session_period : ℕ
session_period = 2 ^ 31 - 1

abbrev pub IsSession : Context → Type 0
IsSession c = c.session_id < 2 ^ 31

-- The context after a number of calls.
unfoldable pub allocate : ℕ → Context → Context
allocate zero c = c
allocate (suc k) c = allocate k (newsession c).1

newsession-IsSession : (c : Context) → IsSession c → IsSession (newsession c).1
unfolding newsession
newsession-IsSession c h = ground arith

newsession_next :
    (c : Context)
    → IsSession c
    → ((newsession c).0 ≡ c.session_id % session_period + 1)
      × ((newsession c).1.session_id ≡ (newsession c).0)
unfolding newsession
newsession_next c h = (ground arith, ground arith)

-- The session that the call after `k` others returns.
abbrev pub nth_session : ℕ → Context → ℕ
nth_session k c = (newsession (allocate k c)).0

nth_session-eq :
    (k : ℕ) (c : Context) → IsSession c → nth_session k c ≡ (c.session_id + k) % session_period + 1
unfolding allocate
nth_session-eq zero c h = omega (arith, newsession_next c h)
nth_session-eq (suc k) c h =
    omega (arith, nth_session-eq k (newsession c).1 (newsession-IsSession c h), newsession_next c h)

-- Sessions are positive and fit an int, and two calls fewer than 2 ^ 31 - 1 calls apart return two
-- sessions.
pub nth_session_distinct :
    (c : Context) (i j : ℕ)
    → IsSession c
    → i < j
    → j < i + session_period
    → (0 < nth_session i c) × (nth_session i c < 2 ^ 31) × (nth_session i c ≢ nth_session j c)
nth_session_distinct c i j h l m =
    let p = nth_session-eq i c h in
    let q = nth_session-eq j c h in (omega (arith, p), omega (arith, p), omega (arith, p, q))
