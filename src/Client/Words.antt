-- ===== src/Client/Words.antt =====
-- The packets of client_epoll_verify.cpp: what the loop of `send` writes, and what the loop of `recv`
-- makes of it.
use linux_programming.Prelude.{
  ℕ, zero, suc, ◌+◌, ◌*◌, ◌/◌, ◌%◌, ◌^◌, ◌≤◌, ◌<◌, ◌≡◌, inl, inr, refl, ◌∙◌, ap, ap₂, sym, List, [],
  ◌∷◌, ◌++◌, true, Bool-cases, ◌↔◌, length-take, length-drop, arith, length, take, drop, drop-drop,
  take-add, take-append, take_all, ◌==◌, drop-append, length-append, drop_all,
}
use linux_programming.Ring.Memory.{write_at, slice, length-write_at}
use linux_programming.BoundedQueue.Memory.{slice-write_at, slice-write_at_other}
use linux_programming.Client.{bytes_of, word_of, fill_words, check_words}

pub length-bytes_of : (n x : ℕ) → length (bytes_of n x) ≡ n
unfolding bytes_of
length-bytes_of zero x = refl
length-bytes_of (suc n) x = ap suc (length-bytes_of n (x / 256))

-- A number that fits `n` bytes is read back from memory as it was written.
pub word_of-bytes_of : (n x : ℕ) → x < 256 ^ n → word_of (bytes_of n x) ≡ x
unfolding word_of bytes_of
word_of-bytes_of zero x h = omega arith
word_of-bytes_of (suc n) x h = omega (arith, word_of-bytes_of n (x / 256) (omega arith))

-- `n` consecutive numbers, as the bytes of a packet.
unfoldable pub message : ℕ → ℕ → List ℕ
message zero seq = []
message (suc n) seq = bytes_of 8 seq ++ message n ((seq + 1) % 2 ^ 64)

-- The number after `n` more.
unfoldable pub after : ℕ → ℕ → ℕ
after zero seq = seq
after (suc n) seq = after n ((seq + 1) % 2 ^ 64)

pub length-message : (n seq : ℕ) → length (message n seq) ≡ 8 * n
unfolding message
length-message zero seq = refl
length-message (suc n) seq = omega (
  arith,
  length-append (bytes_of 8 seq) (message n ((seq + 1) % 2 ^ 64)),
  length-bytes_of 8 seq,
  length-message n ((seq + 1) % 2 ^ 64),
)

abbrev pub part : List ℕ → ℕ → ℕ → List ℕ
part buf i k = slice buf (record { base = i; len = k })

-- The loop leaves alone what stands before its start.
fill_words-before :
    (n i c k seq : ℕ) (buf : List ℕ)
    → c + k ≤ i
    → part (fill_words n i buf seq).0 c k ≡ part buf c k
unfolding fill_words
fill_words-before zero i c k seq buf h = refl
fill_words-before (suc n) i c k seq buf h =
    fill_words-before n (i + 8) c k ((seq + 1) % 2 ^ 64) (write_at buf i (bytes_of 8 seq))
      (omega arith)
    ∙ slice-write_at_other buf (bytes_of 8 seq) i c k (inl h)

part-add : (buf : List ℕ) (i m n : ℕ) → part buf i (m + n) ≡ part buf i m ++ part buf (i + m) n
part-add buf i m n =
    take-add m n (drop i buf) ∙ ap (λ l. take m (drop i buf) ++ take n l) (drop-drop i m buf)

-- The loop of `send` writes the next `n` numbers.
pub fill_words-message :
    (n i seq : ℕ) (buf : List ℕ)
    → i + 8 * n ≤ length buf
    → (part (fill_words n i buf seq).0 i (8 * n) ≡ message n seq)
      × ((fill_words n i buf seq).1 ≡ after n seq)
      × (length (fill_words n i buf seq).0 ≡ length buf)
unfolding fill_words message after
fill_words-message zero i seq buf h = (refl, refl, refl)
fill_words-message (suc n) i seq buf h =
    let next = (seq + 1) % 2 ^ 64 in
    let written = write_at buf i (bytes_of 8 seq) in
    let size = length-write_at buf i (bytes_of 8 seq) in
    let (m, s, l) = fill_words-message n (i + 8) next written (omega (arith, size)) in
    let all = (fill_words n (i + 8) written next).0 in
    let count : 8 * suc n ≡ 8 + 8 * n = omega arith in
    let head : part all i 8 ≡ bytes_of 8 seq =
      fill_words-before n (i + 8) i 8 next written (omega arith)
      ∙ slice-write_at buf (bytes_of 8 seq) i 8 (length-bytes_of 8 seq) (omega arith) in
    (rw count (part-add all i 8 (8 * n) ∙ ap₂ ◌++◌ head m), s, l ∙ size)

pub take-take : (m n : ℕ) (l : List ℕ) → take m (take (m + n) l) ≡ take m l
take-take zero n l = refl
take-take (suc m) n [] = ap (take (suc m)) (take_all (suc m + n) [] (omega arith))
take-take (suc m) n (x ∷ l) =
    let e : suc m + n ≡ suc (m + n) = omega arith in rw e (ap (λ r. x ∷ r) (take-take m n l))

pub drop-take : (m n : ℕ) (l : List ℕ) → drop m (take (m + n) l) ≡ take n (drop m l)
drop-take zero n l = let e : 0 + n ≡ n = omega arith in rw e refl
drop-take (suc m) n [] =
    ap (drop (suc m)) (take_all (suc m + n) [] (omega arith)) ∙ sym (take_all n [] (omega arith))
drop-take (suc m) n (x ∷ l) =
    let e : suc m + n ≡ suc (m + n) = omega arith in rw e (drop-take m n l)

-- The loop of `recv` finds no error in the numbers that it expects.
pub check_words-message :
    (n i seq err : ℕ) (buf : List ℕ)
    → seq < 2 ^ 64
    → part buf i (8 * n) ≡ message n seq
    → check_words n i buf (seq, err) ≡ (after n seq, err)
unfolding check_words message after
check_words-message zero i seq err buf h e = refl
check_words-message (suc n) i seq err buf h e =
    let next = (seq + 1) % 2 ^ 64 in
    let count : 8 * suc n ≡ 8 + 8 * n = omega arith in
    let size = length-bytes_of 8 seq in
    let whole : part buf i (8 + 8 * n) ≡ bytes_of 8 seq ++ message n next = rw count at e in
    let head : part buf i 8 ≡ bytes_of 8 seq =
      sym (take-take 8 (8 * n) (drop i buf))
      ∙ ap (take 8) whole
      ∙ take-append 8 (bytes_of 8 seq) (message n next) (omega (arith, size))
      ∙ take_all 8 (bytes_of 8 seq) (omega (arith, size)) in
    let tail : part buf (i + 8) (8 * n) ≡ message n next =
      ap (take (8 * n)) (sym (drop-drop i 8 buf))
      ∙ sym (drop-take 8 (8 * n) (drop i buf))
      ∙ ap (drop 8) whole
      ∙ drop-append 8 (bytes_of 8 seq) (message n next) (omega (arith, size))
      ∙ ap (λ l. l ++ message n next) (drop_all 8 (bytes_of 8 seq) (sym size)) in
    let val : word_of (part buf i 8) ≡ seq = ap word_of head ∙ word_of-bytes_of 8 seq h in
    let right : (word_of (part buf i 8) == seq) ≡ true = ground (arith, val) in
    rw (right, check_words) (check_words-message n (i + 8) next err buf (omega arith) tail)

abbrev pub AllBytes : List ℕ → Type 0
AllBytes [] = Unit
AllBytes (b ∷ bs) = (b < 256) × AllBytes bs

AllBytes-drop : (n : ℕ) (l : List ℕ) → AllBytes l → AllBytes (drop n l)
AllBytes-drop zero l v = v
AllBytes-drop (suc n) [] v = tt
AllBytes-drop (suc n) (b ∷ bs) v = AllBytes-drop n bs v.1

AllBytes-take : (n : ℕ) (l : List ℕ) → AllBytes l → AllBytes (take n l)
AllBytes-take zero l v = tt
AllBytes-take (suc n) [] v = tt
AllBytes-take (suc n) (b ∷ bs) v = (v.0, AllBytes-take n bs v.1)

-- Bytes are the memory of the number that they are read as.
pub bytes_of-word_of : (n : ℕ) (l : List ℕ) → length l ≡ n → AllBytes l → bytes_of n (word_of l) ≡ l
unfolding bytes_of word_of
bytes_of-word_of zero [] e v = refl
bytes_of-word_of zero (b ∷ bs) e v = absurd (omega arith)
bytes_of-word_of (suc n) [] e v = absurd (omega arith)
bytes_of-word_of (suc n) (b ∷ bs) e v =
    let low : (b + 256 * word_of bs) % 256 ≡ b = omega (arith, v.0) in
    let high : (b + 256 * word_of bs) / 256 ≡ word_of bs = omega (arith, v.0) in
    ap₂ ◌∷◌ low (ap (bytes_of n) high ∙ bytes_of-word_of n bs (omega arith) v.1)

-- The counter never goes down before it wraps.
check_words-le :
    (n i seq err : ℕ) (buf : List ℕ) → err + n < 2 ^ 64 → err ≤ (check_words n i buf (seq, err)).1
unfolding check_words
check_words-le zero i seq err buf h = omega arith
check_words-le (suc n) i seq err buf h = elim (Bool-cases (word_of (part buf i 8) == seq)) [
  | inl same ↦
      rw (same, check_words) (check_words-le n (i + 8) ((seq + 1) % 2 ^ 64) err buf (omega arith))
  | inr other ↦
      let wrap : (err + 1) % 2 ^ 64 ≡ err + 1 = omega arith in
      rw (other, check_words, wrap)
        (omega (arith, check_words-le n (i + 8) ((seq + 1) % 2 ^ 64) (err + 1) buf (omega arith)))
]

-- A packet in which the loop counts no error holds the numbers that it expects.
check_words-clean :
    (n i seq err : ℕ) (buf : List ℕ)
    → AllBytes buf
    → i + 8 * n ≤ length buf
    → err + n < 2 ^ 64
    → (check_words n i buf (seq, err)).1 ≡ err
    → part buf i (8 * n) ≡ message n seq
unfolding check_words message
check_words-clean zero i seq err buf v l h e = refl
check_words-clean (suc n) i seq err buf v l h e =
    let next = (seq + 1) % 2 ^ 64 in
    let count : 8 * suc n ≡ 8 + 8 * n = omega arith in
    let size : length (part buf i 8) ≡ 8 =
      omega (arith, length-take 8 (drop i buf), length-drop i buf) in
    elim (Bool-cases (word_of (part buf i 8) == seq)) [
      | inl same ↦
          let val : word_of (part buf i 8) ≡ seq = ground arith in
          let head : part buf i 8 ≡ bytes_of 8 seq =
            sym (
              bytes_of-word_of 8 (part buf i 8) size
                (AllBytes-take 8 (drop i buf) (AllBytes-drop i buf v)))
            ∙ ap (bytes_of 8) val in
          let tail : part buf (i + 8) (8 * n) ≡ message n next =
            check_words-clean n (i + 8) next err buf v (omega arith) (omega arith)
              (rw (same, check_words) at e) in
          rw count (part-add buf i 8 (8 * n) ∙ ap₂ ◌++◌ head tail)
      | inr other ↦
          let wrap : (err + 1) % 2 ^ 64 ≡ err + 1 = omega arith in
          let more = check_words-le n (i + 8) next (err + 1) buf (omega arith) in
          let counted : (check_words n (i + 8) buf (next, err + 1)).1 ≡ err =
            rw (other, check_words, wrap) at e in
          absurd (omega (arith, more, counted))
    ]

-- The loop of `recv` counts no error exactly if the packet holds the numbers that it expects, as long
-- as the counter does not wrap.
pub check_words_exact :
    (n i seq err : ℕ) (buf : List ℕ)
    → AllBytes buf
    → seq < 2 ^ 64
    → i + 8 * n ≤ length buf
    → err + n < 2 ^ 64
    → ((check_words n i buf (seq, err)).1 ≡ err) ↔ (part buf i (8 * n) ≡ message n seq)
check_words_exact n i seq err buf v s l h = (
  λ e. check_words-clean n i seq err buf v l h e,
  λ e. ap (λ r. r.1) (check_words-message n i seq err buf s e),
)
