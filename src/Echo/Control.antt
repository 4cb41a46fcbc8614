-- ===== src/Echo/Control.antt =====
-- The events that a connection has registered with epoll by `set_epollout`, against its member
-- `enable_epollout`. The classes Connection of network/tcp_echo/server_epollout_handle.cpp,
-- server_epollout_response.cpp and server_epollout.cpp have the same method.
use linux_programming.Prelude.{ℕ, ◌≡◌, ◌⊎◌, inl, inr, refl, ◌∙◌, Bool, true, false, if◌then◌else◌}
use linux_programming.Echo.{events_of}

-- The events that epoll is to report for a connection: EPOLLIN, and EPOLLOUT by the flag.
abbrev pub wanted : Bool → ℕ
wanted true = 5
wanted false = 1

-- The last control call failed, or the events that it registered are those that the member
-- `enable_epollout` tells of.
abbrev pub Registers : (ctl_ok : Bool) (interest : ℕ) (enable_epollout : Bool) → Type 0
Registers ok interest flag = (ok ≡ false) ⊎ (interest ≡ wanted flag)

-- From the first to the second of two such triples: the last control call is one of which `Registers`
-- holds, or there was none, and nothing has changed.
abbrev pub Turns : Bool × ℕ × Bool → Bool × ℕ × Bool → Type 0
Turns (ok, interest, flag) (ok', interest', flag') =
    Registers ok' interest' flag' ⊎ ((ok' ≡ ok) × (interest' ≡ interest) × (flag' ≡ flag))

-- What a control call with `events_of flag` leaves registered.
pub called :
    (ok flag : Bool) (before : ℕ) → Registers ok (if ok then events_of flag else before) flag
called false flag before = inl refl
called true true before = inr refl
called true false before = inr refl

pub Turns-trans : (x y z : Bool × ℕ × Bool) → Turns x y → Turns y z → Turns x z
Turns-trans (o, i, f) (o', i', f') (o'', i'', f'') a (inl r) = inl r
Turns-trans (o, i, f) (o', i', f') (o'', i'', f'') (inl r) (inr (p, q, e)) = inl (rw (p, q, e) r)
Turns-trans (o, i, f) (o', i', f') (o'', i'', f'') (inr (p', q', e')) (inr (p, q, e)) =
    inr (p ∙ p', q ∙ q', e ∙ e')

pub Turns-Registers :
    (ok : Bool) (interest : ℕ) (flag ok' : Bool) (interest' : ℕ) (flag' : Bool)
    → Turns (ok, interest, flag) (ok', interest', flag')
    → Registers ok interest flag
    → Registers ok' interest' flag'
Turns-Registers o i f o' i' f' (inl r) a = r
Turns-Registers o i f o' i' f' (inr (p, q, e)) a = rw (p, q, e) a
