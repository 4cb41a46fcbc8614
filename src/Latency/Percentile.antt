-- ===== src/Latency/Percentile.antt =====
-- `get_p99`: the largest latency that `tail_num` samples reach.
use linux_programming.Prelude.{
  ℕ, ◌+◌, ◌≤◌, ◌<◌, ◌≡◌, ◌≢◌, refl, false, List, [], ◌∷◌, ◌++◌, ap, ◌∙◌, inl, inr, arith, ltb, leb,
  ◌==◌, ◌||◌, ◌&&◌, if_lem, if◌then◌else◌, Bool-cases,
}
use mathlib.Core.List.{reverse, reverse-cons}
use linux_programming.Latency.{insert, sort, scan, get_p99}

-- How many samples of the entries are at least `x`.
unfoldable pub reaching : ℕ → List (ℕ × ℕ) → ℕ
reaching x [] = 0
reaching x (e ∷ es) = (if leb x e.0 then e.1 else 0) + reaching x es

-- Every entry is below `x`.
abbrev AllBelow : ℕ → List (ℕ × ℕ) → Type 0
AllBelow x [] = Unit
AllBelow x (e ∷ es) = (e.0 < x) × AllBelow x es

-- Every entry is above `x`.
abbrev AllAbove : ℕ → List (ℕ × ℕ) → Type 0
AllAbove x [] = Unit
AllAbove x (e ∷ es) = (x < e.0) × AllAbove x es

-- `x` is no latency of the entries.
abbrev pub IsNew : ℕ → List (ℕ × ℕ) → Type 0
IsNew x [] = Unit
IsNew x (e ∷ es) = (e.0 ≢ x) × IsNew x es

-- The entries of a map: no latency occurs twice.
abbrev pub IsMap : List (ℕ × ℕ) → Type 0
IsMap [] = Unit
IsMap (e ∷ es) = IsNew e.0 es × IsMap es

abbrev IsRising : List (ℕ × ℕ) → Type 0
IsRising [] = Unit
IsRising (e ∷ es) = AllAbove e.0 es × IsRising es

abbrev IsFalling : List (ℕ × ℕ) → Type 0
IsFalling [] = Unit
IsFalling (e ∷ es) = AllBelow e.0 es × IsFalling es

reaching-insert :
    (x : ℕ) (e : ℕ × ℕ) (es : List (ℕ × ℕ)) → reaching x (insert e es) ≡ reaching x (e ∷ es)
unfolding reaching insert
reaching-insert x e [] = refl
reaching-insert x e (y ∷ ys) =
    if_lem (λ r. reaching x r ≡ reaching x (e ∷ y ∷ ys))
      (ltb e.0 y.0 || (e.0 == y.0 && leb e.1 y.1)) (e ∷ y ∷ ys) (y ∷ insert e ys) (λ q. refl)
      (λ q. omega (arith, reaching-insert x e ys))

reaching-sort : (x : ℕ) (es : List (ℕ × ℕ)) → reaching x (sort es) ≡ reaching x es
unfolding sort reaching
reaching-sort x [] = refl
reaching-sort x (e ∷ es) = omega (arith, reaching-insert x e (sort es), reaching-sort x es)

AllAbove-le : (x y : ℕ) (es : List (ℕ × ℕ)) → x ≤ y → AllAbove y es → AllAbove x es
AllAbove-le x y [] h v = tt
AllAbove-le x y (e ∷ es) h v = (omega (arith, h, v.0), AllAbove-le x y es h v.1)

reaching-below : (x y : ℕ) (es : List (ℕ × ℕ)) → x ≤ y → AllBelow x es → reaching y es ≡ 0
unfolding reaching
reaching-below x y [] h v = refl
reaching-below x y (e ∷ es) h v =
    let low : leb y e.0 ≡ false = ground (arith, h, v.0) in
    rw low (omega (arith, reaching-below x y es h v.1))

insert-AllAbove :
    (x : ℕ) (e : ℕ × ℕ) (es : List (ℕ × ℕ)) → x < e.0 → AllAbove x es → AllAbove x (insert e es)
unfolding insert
insert-AllAbove x e [] h v = (h, tt)
insert-AllAbove x e (y ∷ ys) h v =
    if_lem (AllAbove x) (ltb e.0 y.0 || (e.0 == y.0 && leb e.1 y.1)) (e ∷ y ∷ ys) (y ∷ insert e ys)
      (λ q. (h, v)) (λ q. (v.0, insert-AllAbove x e ys h v.1))

insert-IsNew :
    (x : ℕ) (e : ℕ × ℕ) (es : List (ℕ × ℕ)) → e.0 ≢ x → IsNew x es → IsNew x (insert e es)
unfolding insert
insert-IsNew x e [] h v = (h, tt)
insert-IsNew x e (y ∷ ys) h v =
    if_lem (IsNew x) (ltb e.0 y.0 || (e.0 == y.0 && leb e.1 y.1)) (e ∷ y ∷ ys) (y ∷ insert e ys)
      (λ q. (h, v)) (λ q. (v.0, insert-IsNew x e ys h v.1))

sort-IsNew : (x : ℕ) (es : List (ℕ × ℕ)) → IsNew x es → IsNew x (sort es)
unfolding sort
sort-IsNew x [] v = tt
sort-IsNew x (e ∷ es) v = insert-IsNew x e (sort es) v.0 (sort-IsNew x es v.1)

insert-IsRising :
    (e : ℕ × ℕ) (es : List (ℕ × ℕ)) → IsNew e.0 es → IsRising es → IsRising (insert e es)
unfolding insert
insert-IsRising e [] n v = (tt, tt)
insert-IsRising e (y ∷ ys) n v =
    let new : y.0 ≢ e.0 = n.0 in
    if_lem IsRising (ltb e.0 y.0 || (e.0 == y.0 && leb e.1 y.1)) (e ∷ y ∷ ys) (y ∷ insert e ys)
      (λ q.
        let less : e.0 < y.0 = ground (arith, new, q) in
        ((less, AllAbove-le e.0 y.0 ys (omega (arith, less)) v.0), v))
      (λ q.
        let more : y.0 < e.0 = ground (arith, new, q) in
        (insert-AllAbove y.0 e ys more v.0, insert-IsRising e ys n.1 v.1))

sort-IsRising : (es : List (ℕ × ℕ)) → IsMap es → IsRising (sort es)
unfolding sort
sort-IsRising [] v = tt
sort-IsRising (e ∷ es) v =
    insert-IsRising e (sort es) (sort-IsNew e.0 es v.0) (sort-IsRising es v.1)

AllAbove-append :
    (x : ℕ) (xs ys : List (ℕ × ℕ)) → AllAbove x xs → AllAbove x ys → AllAbove x (xs ++ ys)
AllAbove-append x [] ys v w = w
AllAbove-append x (e ∷ xs) ys v w = (v.0, AllAbove-append x xs ys v.1 w)

AllAbove-reverse : (x : ℕ) (es : List (ℕ × ℕ)) → AllAbove x es → AllAbove x (reverse es)
AllAbove-reverse x [] v = tt
AllAbove-reverse x (e ∷ es) v =
    rw (reverse-cons e es)
      (AllAbove-append x (reverse es) (e ∷ []) (AllAbove-reverse x es v.1) (v.0, tt))

AllBelow-append :
    (x : ℕ) (xs ys : List (ℕ × ℕ)) → AllBelow x xs → AllBelow x ys → AllBelow x (xs ++ ys)
AllBelow-append x [] ys v w = w
AllBelow-append x (e ∷ xs) ys v w = (v.0, AllBelow-append x xs ys v.1 w)

last-IsFalling :
    (e : ℕ × ℕ) (es : List (ℕ × ℕ)) → AllAbove e.0 es → IsFalling es → IsFalling (es ++ (e ∷ []))
last-IsFalling e [] h v = (tt, tt)
last-IsFalling e (y ∷ ys) h v =
    (AllBelow-append y.0 ys (e ∷ []) v.0 (h.0, tt), last-IsFalling e ys h.1 v.1)

reverse-IsFalling : (es : List (ℕ × ℕ)) → IsRising es → IsFalling (reverse es)
reverse-IsFalling [] v = tt
reverse-IsFalling (e ∷ es) v =
    rw (reverse-cons e es)
      (last-IsFalling e (reverse es) (AllAbove-reverse e.0 es v.0) (reverse-IsFalling es v.1))

reaching-append :
    (x : ℕ) (xs ys : List (ℕ × ℕ)) → reaching x (xs ++ ys) ≡ reaching x xs + reaching x ys
unfolding reaching
reaching-append x [] ys = omega arith
reaching-append x (e ∷ xs) ys = omega (arith, reaching-append x xs ys)

reaching-reverse : (x : ℕ) (es : List (ℕ × ℕ)) → reaching x (reverse es) ≡ reaching x es
unfolding reaching
reaching-reverse x [] = refl
reaching-reverse x (e ∷ es) =
    ap (reaching x) (reverse-cons e es)
    ∙ omega (arith, reaching-append x (reverse es) (e ∷ []), reaching-reverse x es)

-- The loop meets the same samples as the entries of the map hold.
reaching-read : (x : ℕ) (es : List (ℕ × ℕ)) → reaching x (reverse (sort es)) ≡ reaching x es
reaching-read x es = reaching-reverse x (sort es) ∙ reaching-sort x es

-- `r` is the largest latency that `tail_num` samples reach, `n` of them above the entries.
abbrev IsTail : (tail_num n : ℕ) → List (ℕ × ℕ) → ℕ → Type 0
IsTail tail_num n es r =
    (tail_num ≤ n + reaching r es) × ((y : ℕ) → r < y → n + reaching y es < tail_num)

scan-IsTail :
    (tail_num n : ℕ) (es : List (ℕ × ℕ))
    → IsFalling es
    → n < tail_num
    → tail_num ≤ n + reaching 0 es
    → IsTail tail_num n es (scan tail_num n es)
unfolding scan reaching
scan-IsTail tail_num n [] v l h = absurd (omega arith)
scan-IsTail tail_num n (e ∷ es) v l h =
    if_lem (IsTail tail_num n (e ∷ es)) (leb tail_num (n + e.1)) e.0 (scan tail_num (n + e.1) es)
      (λ q. (
        ground (arith, q),
        λ y m.
            let none_above = reaching-below e.0 y es (omega (arith, m)) v.0 in
            ground (arith, none_above, m, l),
      ))
      (λ q.
        let (reached, above) =
          scan-IsTail tail_num (n + e.1) es v.1 (ground (arith, q)) (ground (arith, h)) in
        (
          within e es (scan tail_num (n + e.1) es) v.0 q reached,
          λ y m. let a = above y m in ground (arith, a),
        ))
  where
    within :
        (e : ℕ × ℕ) (es : List (ℕ × ℕ)) (r : ℕ)
        → AllBelow e.0 es
        → leb tail_num (n + e.1) ≡ false
        → tail_num ≤ n + e.1 + reaching r es
        → tail_num ≤ n + ((if leb r e.0 then e.1 else 0) + reaching r es)
    within e es r below q reached = elim (Bool-cases (leb r e.0)) [
      | inl low ↦ rw low (omega (arith, reached))
      | inr high ↦
          let z = reaching-below e.0 r es (ground (arith, high)) below in
          absurd (ground (arith, z, q, reached))
    ]

-- `get_p99` of the entries of a map, in whatever order, that hold at least `tail_num` samples, returns
-- the largest latency that `tail_num` of the samples reach.
pub get_p99-IsTail :
    (es : List (ℕ × ℕ)) (tail_num : ℕ)
    → IsMap es
    → 0 < tail_num
    → tail_num ≤ reaching 0 es
    → (tail_num ≤ reaching (get_p99 es tail_num) es)
      × ((y : ℕ) → get_p99 es tail_num < y → reaching y es < tail_num)
unfolding get_p99
get_p99-IsTail es tail_num v l h =
    let (reached, above) =
      scan-IsTail tail_num 0 (reverse (sort es)) (reverse-IsFalling (sort es) (sort-IsRising es v))
        l (omega (arith, h, reaching-read 0 es)) in
    (
      omega (arith, reached, reaching-read (get_p99 es tail_num) es),
      λ y m. omega (arith, above y m, reaching-read y es),
    )
