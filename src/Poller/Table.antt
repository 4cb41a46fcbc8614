-- ===== src/Poller/Table.antt =====
-- class Poller as a table: what the two calls change, for every descriptor.
use linux_programming.Prelude.{
  ℕ, suc, ◌+◌, ◌-◌, ◌≤◌, ◌<◌, ◌≡◌, ◌≢◌, refl, ap, true, false, Option, none, some, List, [], ◌∷◌,
  ◌++◌, inl, inr, sym, ◌⊎◌, arith, length, length-append, ◌==◌, leb, ◌||◌, if◌then◌else◌, if_lem,
  update, Bool-cases,
}
use linux_programming.Poller.{
  Pollfd, Poller, max_fds, fd_range, num, Outcome, done, refused, overflow, is_fd, has, add_fd,
  clear, remove_fd,
}

-- How many entries hold `fd`.
unfoldable pub count : ℕ → List Pollfd → ℕ
count fd [] = 0
count fd (x ∷ xs) = (if is_fd fd x.fd then 1 else 0) + count fd xs

count-append : (fd : ℕ) (xs ys : List Pollfd) → count fd (xs ++ ys) ≡ count fd xs + count fd ys
unfolding count
count-append fd [] ys = omega arith
count-append fd (x ∷ xs) ys = omega (arith, count-append fd xs ys)

has-count : (fd : ℕ) (xs : List Pollfd) → has fd xs ≡ false → count fd xs ≡ 0
unfolding has count
has-count fd [] e = refl
has-count fd (x ∷ xs) e = elim (Bool-cases (is_fd fd x.fd)) [
  | inl held ↦ absurd (cc (rw held at e))
  | inr other ↦ rw other (omega (arith, has-count fd xs (rw other at e)))
]

has-count_present : (fd : ℕ) (xs : List Pollfd) → has fd xs ≡ true → 0 < count fd xs
unfolding has count
has-count_present fd [] e = absurd (cc e)
has-count_present fd (x ∷ xs) e = elim (Bool-cases (is_fd fd x.fd)) [
  | inl held ↦ rw held (omega arith)
  | inr other ↦ rw other (omega (arith, has-count_present fd xs (rw other at e)))
]

length-clear : (fd : ℕ) (xs : List Pollfd) → length (clear fd xs) ≡ length xs
unfolding clear
length-clear fd [] = refl
length-clear fd (x ∷ xs) = elim (Bool-cases (is_fd fd x.fd)) [
  | inl held ↦ rw held refl
  | inr other ↦ rw other (ap suc (length-clear fd xs))
]

count-clear : (fd : ℕ) (xs : List Pollfd) → count fd (clear fd xs) ≡ count fd xs - 1
unfolding count clear
count-clear fd [] = omega arith
count-clear fd (x ∷ xs) = elim (Bool-cases (is_fd fd x.fd)) [
  | inl held ↦ rw held (omega arith)
  | inr other ↦ rw (other, clear, count, other) (omega (arith, count-clear fd xs))
]

is_fd_other : (fd k : ℕ) (o : Option ℕ) → fd ≢ k → is_fd fd o ≡ true → is_fd k o ≡ false
is_fd_other fd k none ne e = refl
is_fd_other fd k (some j) ne e = ground arith

count-clear_ne : (fd k : ℕ) (xs : List Pollfd) → fd ≢ k → count k (clear fd xs) ≡ count k xs
unfolding count clear
count-clear_ne fd k [] ne = refl
count-clear_ne fd k (x ∷ xs) ne = elim (Bool-cases (is_fd fd x.fd)) [
  | inl held ↦ rw (held, clear, is_fd_other fd k x.fd ne held) refl
  | inr other ↦
      rw (other, clear) (ap (λ n. (if is_fd k x.fd then 1 else 0) + n) (count-clear_ne fd k xs ne))
]

-- What the calls change, for the other descriptors too.
pub record Added (fd : ℕ) (handler : Option ℕ) (p q : Poller) : Type 0 where
  pub absent : count fd p.pfds ≡ 0
  pub one : count fd q.pfds ≡ 1
  pub own : q.handlers fd ≡ handler
  pub others : (k : ℕ) → k ≢ fd → (count k q.pfds ≡ count k p.pfds) × (q.handlers k ≡ p.handlers k)
  pub longer : num q ≡ num p + 1

pub record Removed (fd : ℕ) (p q : Poller) : Type 0 where
  pub present : 0 < count fd p.pfds
  pub fewer : count fd q.pfds ≡ count fd p.pfds - 1
  pub own : q.handlers fd ≡ none
  pub others : (k : ℕ) → k ≢ fd → (count k q.pfds ≡ count k p.pfds) × (q.handlers k ≡ p.handlers k)
  pub same_num : num q ≡ num p

abbrev pub Adds : ℕ → Option ℕ → Poller → Outcome × Poller → Type 0
Adds fd handler p (done, q) = (fd < fd_range) × (num p < max_fds) × Added fd handler p q
Adds fd handler p (refused, q) = (q ≡ p) × (fd_range ≤ fd ⊎ 0 < count fd p.pfds)
Adds fd handler p (overflow, q) = (max_fds ≤ num p) × (fd < fd_range) × (count fd p.pfds ≡ 0)

abbrev pub Removes : ℕ → Poller → Outcome × Poller → Type 0
Removes fd p (done, q) = Removed fd p q
Removes fd p (refused, q) = (q ≡ p) × (count fd p.pfds ≡ 0)
Removes fd p (overflow, q) = ⊥

abbrev entry : ℕ → ℕ → Pollfd
entry fd events = record { fd = some fd; events = events; revents = 0 }

is_fd_one : (fd k : ℕ) → fd ≡ k → ◌≡◌ {A = ℕ} (if fd == k then 1 else 0) 1
is_fd_one fd k e = ground arith

is_fd_none : (fd k : ℕ) → k ≢ fd → ◌≡◌ {A = ℕ} (if fd == k then 1 else 0) 0
is_fd_none fd k ne = ground arith

added :
    (fd events : ℕ) (handler : Option ℕ) (p : Poller)
    → has fd p.pfds ≡ false
    → Added fd handler p (record {
      pfds = p.pfds ++ (entry fd events ∷ []);
      handlers = update p.handlers fd handler;
    })
unfolding count
added fd events handler p e = record {
  absent = has-count fd p.pfds e;
  one = omega (
    arith,
    count-append fd p.pfds (entry fd events ∷ []),
    has-count fd p.pfds e,
    is_fd_one fd fd refl,
  );
  own = ground arith;
  others = λ k ne. (
    omega (arith, count-append k p.pfds (entry fd events ∷ []), is_fd_none fd k ne),
    ground arith,
  );
  longer = length-append p.pfds (entry fd events ∷ []);
}

-- `add_fd` returns -1 and leaves the table as it is only if the descriptor is out of range or in the
-- table. Otherwise, if there is room, it adds one entry with the handler and changes nothing for
-- another descriptor; if all entries are used up, it writes behind the end of the array.
pub add_fd-Adds :
    (fd events : ℕ) (handler : Option ℕ) (p : Poller)
    → Adds fd handler p (add_fd fd events handler p)
unfolding add_fd
add_fd-Adds fd events handler p =
    if_lem (Adds fd handler p) (leb fd_range fd || has fd p.pfds) (refused, p) _
      (λ e. (refl, refused_why e))
      (λ e.
        if_lem (Adds fd handler p) (leb max_fds (num p)) (overflow, p) _
          (λ full. (ground arith, ground arith, has-count fd p.pfds (ground arith)))
          (λ room. (ground arith, ground arith, added fd events handler p (ground arith))))
  where
    refused_why : (leb fd_range fd || has fd p.pfds) ≡ true → fd_range ≤ fd ⊎ 0 < count fd p.pfds
    refused_why e = elim (Bool-cases (has fd p.pfds)) [
      | inl held ↦ inr (has-count_present fd p.pfds held)
      | inr other ↦ inl (ground arith)
    ]

-- `remove_fd` returns -1 exactly if no entry holds the descriptor. Otherwise one entry fewer holds it,
-- its handler is gone, nothing changes for another descriptor, and `num` stays.
pub remove_fd-Removes : (fd : ℕ) (p : Poller) → Removes fd p (remove_fd fd p)
unfolding remove_fd
remove_fd-Removes fd p =
    if_lem (Removes fd p) (has fd p.pfds) _ (refused, p)
      (λ e. record {
        present = has-count_present fd p.pfds e;
        fewer = count-clear fd p.pfds;
        own = ground arith;
        others = λ k ne. (count-clear_ne fd k p.pfds (λ z. ne (sym z)), ground arith);
        same_num = length-clear fd p.pfds;
      })
      (λ e. (refl, has-count fd p.pfds e))
