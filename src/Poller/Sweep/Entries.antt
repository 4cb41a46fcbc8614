-- ===== src/Poller/Sweep/Entries.antt =====
-- The entries of the table that a pass is still to visit.
use linux_programming.Prelude.{
  ℕ, zero, suc, ◌&&◌, not, Bool, false, ◌+◌, ◌<◌, ◌≡◌, refl, ap, true, Option, none, some, List, [],
  ◌∷◌, ◌++◌, inl, inr, arith, length, drop, get_or, set, drop-append, bit_and, leb, ◌==◌, ◌||◌,
  if_lem, Bool-cases, if◌then◌else◌,
}
use linux_programming.Poller.{
  Pollfd, Poller, max_fds, fd_range, num, Outcome, refused, overflow, is_fd, has, add_fd, clear,
  remove_fd,
}
use linux_programming.Poller.Table.{count}
use linux_programming.Poller.Sweep.{pollin, nothing}

-- What poll(2) leaves in `revents`: nothing for a descriptor of -1.
abbrev pub AllPolled : List Pollfd → Type 0
AllPolled [] = Unit
AllPolled (x ∷ xs) = (x.fd ≡ none → x.revents ≡ 0) × AllPolled xs

-- The entry of the listening socket has an error reported, and no POLLIN.
abbrev pub is_broken : ℕ → Pollfd → Bool
is_broken listen_fd x =
    is_fd listen_fd x.fd && (bit_and x.revents pollin == 0) && not (x.revents == 0)

abbrev pub listener_broken : ℕ → List Pollfd → Bool
listener_broken listen_fd [] = false
listener_broken listen_fd (x ∷ xs) = is_broken listen_fd x || listener_broken listen_fd xs

-- An entry that is still to visit: -1 has no `revents`, and `P` says why the listening socket may be
-- broken.
abbrev pub Ready : Type 0 → ℕ → Pollfd → Type 0
Ready P listen_fd x = (x.fd ≡ none → x.revents ≡ 0) × (is_broken listen_fd x ≡ true → P)

abbrev pub AllReady : Type 0 → ℕ → List Pollfd → Type 0
AllReady P listen_fd [] = Unit
AllReady P listen_fd (x ∷ xs) = Ready P listen_fd x × AllReady P listen_fd xs

pub AllPolled-AllReady :
    (P : Type 0) (listen_fd : ℕ) (xs : List Pollfd)
    → AllPolled xs
    → (listener_broken listen_fd xs ≡ true → P)
    → AllReady P listen_fd xs
AllPolled-AllReady P listen_fd [] v f = tt
AllPolled-AllReady P listen_fd (x ∷ xs) v f =
    ((v.0, λ e. f (rw e refl)), AllPolled-AllReady P listen_fd xs v.1 (λ e. f (ground (arith, e))))

pub AllReady-get :
    (P : Type 0) (listen_fd i : ℕ) (xs : List Pollfd)
    → i < length xs
    → AllReady P listen_fd (drop i xs)
    → Ready P listen_fd (get_or xs i nothing) × AllReady P listen_fd (drop (suc i) xs)
AllReady-get P listen_fd i [] h v = absurd (omega arith)
AllReady-get P listen_fd zero (x ∷ xs) h v = v
AllReady-get P listen_fd (suc i) (x ∷ xs) h v = AllReady-get P listen_fd i xs (omega arith) v

AllReady-append :
    (P : Type 0) (listen_fd : ℕ) (xs ys : List Pollfd)
    → AllReady P listen_fd xs
    → AllReady P listen_fd ys
    → AllReady P listen_fd (xs ++ ys)
AllReady-append P listen_fd [] ys v w = w
AllReady-append P listen_fd (x ∷ xs) ys v w = (v.0, AllReady-append P listen_fd xs ys v.1 w)

pub count-quiet :
    (fd i : ℕ) (xs : List Pollfd)
    → count fd (set xs i (record (get_or xs i nothing) { revents = 0 })) ≡ count fd xs
unfolding count
count-quiet fd i [] = refl
count-quiet fd zero (x ∷ xs) = refl
count-quiet fd (suc i) (x ∷ xs) =
    ap (λ n. (if is_fd fd x.fd then 1 else 0) + n) (count-quiet fd i xs)

pub drop-set : (i : ℕ) (v : Pollfd) (xs : List Pollfd) → drop (suc i) (set xs i v) ≡ drop (suc i) xs
drop-set i v [] = refl
drop-set zero v (x ∷ xs) = refl
drop-set (suc i) v (x ∷ xs) = drop-set i v xs

pub count-held :
    (fd i : ℕ) (xs : List Pollfd) → is_fd fd (get_or xs i nothing).fd ≡ true → 0 < count fd xs
unfolding count
count-held fd i [] e = absurd (cc e)
count-held fd zero (x ∷ xs) e = rw e (omega arith)
count-held fd (suc i) (x ∷ xs) e = omega (arith, count-held fd i xs e)

-- The entry that `remove_fd` clears is none of those after one that holds the descriptor.
drop-clear :
    (fd i : ℕ) (xs : List Pollfd)
    → is_fd fd (get_or xs i nothing).fd ≡ true
    → drop (suc i) (clear fd xs) ≡ drop (suc i) xs
unfolding clear
drop-clear fd i [] e = refl
drop-clear fd zero (x ∷ xs) e = rw e refl
drop-clear fd (suc i) (x ∷ xs) e = elim (Bool-cases (is_fd fd x.fd)) [
  | inl held ↦ rw held refl
  | inr other ↦ rw other (drop-clear fd i xs e)
]

pub remove_fd-AllReady :
    (P : Type 0) (listen_fd fd i : ℕ) (p : Poller)
    → is_fd fd (get_or p.pfds i nothing).fd ≡ true
    → AllReady P listen_fd (drop (suc i) p.pfds)
    → AllReady P listen_fd (drop (suc i) (remove_fd fd p).1.pfds)
unfolding remove_fd
remove_fd-AllReady P listen_fd fd i p e v =
    if_lem (λ (r : Outcome × Poller). AllReady P listen_fd (drop (suc i) r.1.pfds)) (has fd p.pfds)
      _ (refused, p) (λ q. rw (drop-clear fd i p.pfds e) v) (λ q. v)

-- What `add_fd` appends has no `revents`.
pub add_fd-AllReady :
    (P : Type 0) (listen_fd fd events i : ℕ) (handler : Option ℕ) (p : Poller)
    → i < num p
    → AllReady P listen_fd (drop (suc i) p.pfds)
    → AllReady P listen_fd (drop (suc i) (add_fd fd events handler p).1.pfds)
unfolding add_fd
add_fd-AllReady P listen_fd fd events i handler p h v =
    if_lem (λ (r : Outcome × Poller). AllReady P listen_fd (drop (suc i) r.1.pfds))
      (leb fd_range fd || has fd p.pfds) (refused, p) _ (λ q. v)
      (λ q.
        if_lem (λ (r : Outcome × Poller). AllReady P listen_fd (drop (suc i) r.1.pfds))
          (leb max_fds (num p)) (overflow, p) _ (λ full. v)
          (λ room.
            rw
              (drop-append (suc i) p.pfds
                (record { fd = some fd; events = events; revents = 0 } ∷ []) (omega (arith, h)))
              (AllReady-append P listen_fd (drop (suc i) p.pfds) _ v
                ((λ z. refl, λ z. absurd (ground (arith, z))), tt))))
