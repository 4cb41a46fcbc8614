-- ===== src/PerThread/Places.antt =====
-- The pointers and the indices of class EventLoop of network/tcp_echo/server_epoll_bench.cpp, as lists.
use linux_programming.Prelude.{
  ℕ, zero, suc, ◌+◌, ◌*◌, ◌%◌, ◌<◌, ◌≡◌, ◌≢◌, inl, inr, refl, sym, ◌∙◌, true, false, Option, some,
  List, [], ◌∷◌, ◌++◌, length, get_or, set, bit_or, not, ◌==◌, arith, ℕ_discrete,
}
use Prim.Native.Nat.{bit_or-bitwise, digits, max, ◌/◌}
use linux_programming.Kernel.{epollin}
use linux_programming.PerThread.{Connection, EventLoop, conn_at, without, Within}

bit_or_one : (a : ℕ) → 0 < bit_or a 1
bit_or_one zero = omega arith
bit_or_one (suc n) =
    let e : bit_or (suc n) 1 ≡ digits (λ b. b) max n (suc n / 2) (1 / 2) * 2 + max (suc n % 2) 1 =
      λ i. bit_or-bitwise (suc n) 1 i in
    omega (arith, e)

-- `event | EPOLLIN` is not 0, whatever the event.
pub any_event : (event : ℕ) → not (bit_or event epollin == 0) ≡ true
any_event event = let large = bit_or_one event in ground (arith, large)

pub without-Within : (i k : ℕ) (js : List ℕ) → Within i (without k js) → (i ≢ k) × Within i js
without-Within i k [] h = absurd h
without-Within i k (j ∷ js) h = elim (ℕ_discrete j k) [
  | yes e ↦
      let t : (j == k) ≡ true = ground (arith, e) in
      let (ne, w) = without-Within i k js (rw t at h) in (ne, inr w)
  | no ne ↦
      let f : (j == k) ≡ false = ground (arith, ne) in
      elim (rw f at h) [
        | inl e ↦ ((λ z. ne (sym e ∙ z)), inl e)
        | inr w ↦ let (n, v) = without-Within i k js w in (n, inr v)
      ]
]

pub Within-without : (i k : ℕ) (js : List ℕ) → i ≢ k → Within i js → Within i (without k js)
Within-without i k [] ne h = absurd h
Within-without i k (j ∷ js) ne h = elim (ℕ_discrete j k) [
  | yes e ↦
      let t : (j == k) ≡ true = ground (arith, e) in
      rw t (elim h [ inl z ↦ absurd (ne (z ∙ e)) | inr w ↦ Within-without i k js ne w ])
  | no n ↦
      let f : (j == k) ≡ false = ground (arith, n) in
      rw f (elim h [ inl z ↦ inl z | inr w ↦ inr (Within-without i k js ne w) ])
]

pub conn_at-last :
    (cs : List (Option Connection)) (o : Option Connection)
    → conn_at (cs ++ (o ∷ [])) (length cs) ≡ o
conn_at-last [] o = refl
conn_at-last (c ∷ cs) o = conn_at-last cs o

pub conn_at-append :
    (cs ds : List (Option Connection)) (i : ℕ) (c : Connection)
    → conn_at cs i ≡ some c
    → conn_at (cs ++ ds) i ≡ some c
conn_at-append [] ds i c e = absurd (cc e)
conn_at-append (b ∷ cs) ds zero c e = e
conn_at-append (b ∷ cs) ds (suc i) c e = conn_at-append cs ds i c e

-- A place past the end is not changed.
pub set_cases :
    (S : EventLoop → Type 0) (ls : List EventLoop) (i k : ℕ) (l d : EventLoop)
    → S l
    → ((j : ℕ) → S (get_or ls j d))
    → S (get_or (set ls i l) k d)
set_cases S [] i k l d v all = all k
set_cases S (m ∷ ls) zero zero l d v all = v
set_cases S (m ∷ ls) zero (suc k) l d v all = all (suc k)
set_cases S (m ∷ ls) (suc i) zero l d v all = all 0
set_cases S (m ∷ ls) (suc i) (suc k) l d v all = set_cases S ls i k l d v (λ j. all (suc j))
