-- ===== src/Workers/Contended/PuttingBack.antt =====
-- lambda-extensions/workers/consumer.go: messages of a failed call put back while handlers send.
use sumologic_lambda_extensi.Base.{
  ℕ, suc, ◌+◌, ◌≤◌, ◌<◌, ◌≡◌, refl, ◌∙◌, ap, sym, subst, ◌≢◌, ◌⊎◌, inl, inr, Bool, true, false,
  Bool-cases, List, [], ◌∷◌, ◌++◌, length, length-append, concat, ltb, arith,
}
use sumologic_lambda_extensi.SumoClient.Services.{Bytes}
use sumologic_lambda_extensi.Workers.Channel.{
  Run, returns, blocks, panics, diverges, Channel, push, send,
}
use sumologic_lambda_extensi.Workers.Interleaving.Conservation.{count_if, count_if-append}
use sumologic_lambda_extensi.Workers.Contended.{Line, pending, arrive, first, later, put_back_among}
use sumologic_lambda_extensi.Workers.Contended.Lines.{
  IsOpenLine, arrive-IsOpenLine, arrive-orderly, arrive-pending,
}

send_room :
    (m : Bytes) (q : Channel Bytes)
    → q.closed ≡ false
    → length q.buffer < q.capacity
    → send m q ≡ returns (push q m)
unfolding send
send_room m q o h = ground arith

send_full :
    (m : Bytes) (q : Channel Bytes)
    → q.closed ≡ false
    → q.capacity ≤ length q.buffer
    → send m q ≡ blocks
unfolding send
send_full m q o h = ground arith

abbrev put : Bytes → Line → Line
put m l = record { channel = push l.channel m; waiting = l.waiting }

put-length : (m : Bytes) (l : Line) → length (pending (put m l)) ≡ suc (length (pending l))
put-length m l = omega (
  arith,
  length-append (l.channel.buffer ++ m ∷ []) l.waiting,
  length-append l.channel.buffer (m ∷ []),
  length-append l.channel.buffer l.waiting,
)

arrive-length :
    {n : ℕ} (ms : List Bytes) (l : Line)
    → IsOpenLine n l
    → length (pending (arrive ms l)) ≡ length (pending l) + length ms
arrive-length ms l o =
    ap (λ xs. length xs) (arrive-pending ms l o.open') ∙ length-append (pending l) ms

put-IsOpenLine : {n : ℕ} (m : Bytes) (l : Line) → IsOpenLine n l → IsOpenLine n (put m l)
put-IsOpenLine m l o = record { open' = o.open'; sized = o.sized }

-- One message put back: there is room, or the consumer waits.
put_step :
    {n : ℕ} (m : Bytes) (ms : List Bytes) (mss : List (List Bytes)) (l : Line)
    → IsOpenLine n l
    → ((length (arrive (first mss) l).channel.buffer < n)
        × (put_back_among (m ∷ ms) mss l
            ≡ put_back_among ms (later mss) (put m (arrive (first mss) l))))
      ⊎ ((n ≤ length (arrive (first mss) l).channel.buffer)
          × (put_back_among (m ∷ ms) mss l ≡ blocks))
unfolding put_back_among
put_step {n} m ms mss l o =
    let k = arrive (first mss) l in
    let ko = arrive-IsOpenLine (first mss) l o in
    elim (Bool-cases (ltb (length k.channel.buffer) n)) [
      | inl room ↦
          let r : length k.channel.buffer < n = ground (arith, room) in
          inl (
            r,
            rw (send_room m k.channel ko.open' (omega (arith, r, ko.sized)), put_back_among) refl,
          )
      | inr full ↦
          let r : n ≤ length k.channel.buffer = ground (arith, full) in
          inr (
            r,
            rw (send_full m k.channel ko.open' (omega (arith, r, ko.sized)), put_back_among) refl,
          )
    ]

-- With room in an orderly line nobody waits.
unhindered :
    {n : ℕ} (ms : List Bytes) (l : Line)
    → IsOpenLine n l
    → length (arrive ms l).channel.buffer < n
    → length (pending (arrive ms l)) < n
unhindered ms l o h = elim (arrive-orderly ms l o) [
  | inl e ↦
      let a = length-append (arrive ms l).channel.buffer (arrive ms l).waiting in
      omega (arith, a, h, ap (λ xs. length xs) e)
  | inr f ↦ absurd (omega (arith, f, h))
]

-- More messages than there is room for, with those that are there: the consumer waits for ever.
pub put_back_among-blocks :
    {n : ℕ} (ms : List Bytes) (mss : List (List Bytes)) (l : Line)
    → IsOpenLine n l
    → ms ≢ []
    → n < length (pending l) + length ms
    → put_back_among ms mss l ≡ blocks
put_back_among-blocks [] mss l o ne h = absurd (ne refl)
put_back_among-blocks {n} (m ∷ ms) mss l o ne h = elim (put_step m ms mss l o) [
  | inr (full, e) ↦ e
  | inl (room, e) ↦
      let k = arrive (first mss) l in
      let grown = arrive-length (first mss) l o in
      let small = unhindered (first mss) l o room in
      let longer = put-length m k in
      e
      ∙ put_back_among-blocks ms (later mss) (put m k)
          (put-IsOpenLine m k (arrive-IsOpenLine (first mss) l o))
          (λ none_left. omega (arith, h, grown, small, ap (λ xs. length xs) none_left))
          (omega (arith, h, grown, longer))
]

-- An open line with these messages, each as often as here, in the queue or with a handler that waits.
pub record Holding (n : ℕ) (xs : List Bytes) (l : Line) : Type 0 where
  pub line : IsOpenLine n l
  pub same : (p : Bytes → Bool) → count_if p (pending l) ≡ count_if p xs

-- The consumer returns, and all messages are there; or it waits, and there are more than fit.
abbrev pub PutBack : ℕ → List Bytes → Run Line → Type 0
PutBack n xs (returns l) = Holding n xs l
PutBack n xs blocks = n < length xs
PutBack n xs _ = ⊥

length-count : (xs : List Bytes) → length xs ≡ count_if (λ _. true) xs
length-count [] = refl
length-count (x ∷ xs) = omega (arith, length-count xs)

-- Lists with the same messages.
abbrev pub Same : List Bytes → List Bytes → Type 0
Same xs ys = (p : Bytes → Bool) → count_if p xs ≡ count_if p ys

pub Same-length : (xs ys : List Bytes) → Same xs ys → length xs ≡ length ys
Same-length xs ys h = length-count xs ∙ h (λ _. true) ∙ sym (length-count ys)

PutBack-Same :
    (n : ℕ) (xs ys : List Bytes) (r : Run Line) → Same xs ys → PutBack n xs r → PutBack n ys r
PutBack-Same n xs ys (returns l) e h = record { line = h.line; same = λ p. h.same p ∙ e p }
PutBack-Same n xs ys blocks e h = omega (arith, Same-length xs ys e, h)
PutBack-Same n xs ys panics e h = h
PutBack-Same n xs ys diverges e h = h

concat_first : (mss : List (List Bytes)) → concat mss ≡ first mss ++ concat (later mss)
concat_first [] = refl
concat_first (ms ∷ mss) = refl

arrive-Holding :
    {n : ℕ} (ms : List Bytes) (l : Line)
    → IsOpenLine n l
    → Holding n (pending l ++ ms) (arrive ms l)
arrive-Holding ms l o = record {
  line = arrive-IsOpenLine ms l o;
  same = λ p. ap (count_if p) (arrive-pending ms l o.open');
}

put-count :
    (p : Bytes → Bool) (m : Bytes) (l : Line)
    → count_if p (pending (put m l)) ≡ count_if p (pending l) + count_if p (m ∷ [])
put-count p m l = omega (
  arith,
  count_if-append p (l.channel.buffer ++ m ∷ []) l.waiting,
  count_if-append p l.channel.buffer (m ∷ []),
  count_if-append p l.channel.buffer l.waiting,
)

-- What is to come once one message is put back, with what is there.
put-Same :
    {n : ℕ} (m : Bytes) (ms : List Bytes) (mss : List (List Bytes)) (l : Line)
    → IsOpenLine n l
    → Same
        (pending (put m (arrive (first mss) l)) ++ (ms ++ concat (later mss)))
        (pending l ++ ((m ∷ ms) ++ concat mss))
put-Same m ms mss l o p =
    let k = arrive (first mss) l in
    omega (
      arith,
      count_if-append p (pending (put m k)) (ms ++ concat (later mss)),
      count_if-append p ms (concat (later mss)),
      put-count p m k,
      (arrive-Holding (first mss) l o).same p,
      count_if-append p (pending l) (first mss),
      count_if-append p (pending l) ((m ∷ ms) ++ concat mss),
      count_if-append p (m ∷ ms) (concat mss),
      ap (count_if p) (concat_first mss),
      count_if-append p (first mss) (concat (later mss)),
    )

put_back_none :
    (mss : List (List Bytes)) (l : Line) → put_back_among [] mss l ≡ returns (arrive (concat mss) l)
unfolding put_back_among
put_back_none mss l = refl

waits-length :
    {n : ℕ} (m : Bytes) (ms : List Bytes) (mss : List (List Bytes)) (l : Line)
    → IsOpenLine n l
    → n ≤ length (arrive (first mss) l).channel.buffer
    → n < length (pending l ++ ((m ∷ ms) ++ concat mss))
waits-length m ms mss l o full =
    let k = arrive (first mss) l in
    omega (
      arith,
      full,
      length-append k.channel.buffer k.waiting,
      put-length m k,
      Same-length _ _ (put-Same m ms mss l o),
      length-append (pending (put m k)) (ms ++ concat (later mss)),
    )

-- Putting messages back among those that come meanwhile: the consumer returns, and all of them are in
-- the line; or it waits, and they are more than fit.
pub put_back_among-PutBack :
    {n : ℕ} (ms : List Bytes) (mss : List (List Bytes)) (l : Line)
    → IsOpenLine n l
    → PutBack n (pending l ++ (ms ++ concat mss)) (put_back_among ms mss l)
put_back_among-PutBack {n} [] mss l o =
    subst (PutBack n (pending l ++ concat mss)) (sym (put_back_none mss l))
      (arrive-Holding (concat mss) l o)
put_back_among-PutBack {n} (m ∷ ms) mss l o = elim (put_step m ms mss l o) [
  | inr (full, e) ↦
      subst (PutBack n (pending l ++ ((m ∷ ms) ++ concat mss))) (sym e)
        (waits-length m ms mss l o full)
  | inl (room, e) ↦
      let k = arrive (first mss) l in
      subst (PutBack n (pending l ++ ((m ∷ ms) ++ concat mss))) (sym e) (
        PutBack-Same n _ _ (put_back_among ms (later mss) (put m k)) (put-Same m ms mss l o) (
          put_back_among-PutBack ms (later mss) (put m k)
            (put-IsOpenLine m k (arrive-IsOpenLine (first mss) l o))))
]
