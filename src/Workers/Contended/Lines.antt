-- ===== src/Workers/Contended/Lines.antt =====
-- Handlers that fill the queue, the receiving loop.
use sumologic_lambda_extensi.Base.{
  ℕ, zero, suc, ◌≤◌, ◌<◌, ◌≡◌, refl, ◌∙◌, ap, sym, subst, ◌⊎◌, inl, inr, false, Bool-cases, some,
  List, [], ◌∷◌, ◌++◌, append_assoc, append-nil, length, ltb, arith,
}
use sumologic_lambda_extensi.SumoClient.Services.{Bytes}
use sumologic_lambda_extensi.Workers.Channel.{Channel, push}
use sumologic_lambda_extensi.Workers.ChannelLaws.{emptied}
use sumologic_lambda_extensi.Workers.Contended.{Line, pending, fill, arrive, receive_line}

-- From `q` to `l` only the messages change, and handlers wait only if there is no room.
record IsLine (q : Channel Bytes) (l : Line) : Type 0 where
  same : emptied l.channel ≡ emptied q
  orderly : (l.waiting ≡ []) ⊎ (q.capacity ≤ length l.channel.buffer)

fill-pending : (ms : List Bytes) (q : Channel Bytes) → pending (fill ms q) ≡ q.buffer ++ ms
unfolding fill
fill-pending [] q = refl
fill-pending (m ∷ ms) q = elim (Bool-cases (ltb (length q.buffer) q.capacity)) [
  | inl room ↦ rw room (fill-pending ms (push q m) ∙ append_assoc q.buffer (m ∷ []) ms)
  | inr full ↦ rw full refl
]

fill-IsLine : (ms : List Bytes) (q : Channel Bytes) → IsLine q (fill ms q)
unfolding fill
fill-IsLine [] q = record { same = refl; orderly = inl refl }
fill-IsLine (m ∷ ms) q = elim (Bool-cases (ltb (length q.buffer) q.capacity)) [
  | inl room ↦
      let h = fill-IsLine ms (push q m) in rw room (record { same = h.same; orderly = h.orderly })
  | inr full ↦ rw full (record { same = refl; orderly = inr (ground (arith, full)) })
]

-- An open line: the queue is open, of this capacity.
pub record IsOpenLine (capacity : ℕ) (l : Line) : Type 0 where
  pub open' : l.channel.closed ≡ false
  pub sized : l.channel.capacity ≡ capacity

arrive_open :
    (ms : List Bytes) (l : Line)
    → l.channel.closed ≡ false
    → arrive ms l ≡ fill (l.waiting ++ ms) l.channel
unfolding arrive
arrive_open ms l o = ground (arith, o)

fill-IsOpenLine :
    {n : ℕ} (ms : List Bytes) (q : Channel Bytes)
    → q.closed ≡ false
    → q.capacity ≡ n
    → IsOpenLine n (fill ms q)
fill-IsOpenLine {n} ms q o h =
    let s = (fill-IsLine ms q).same in
    record {
      open' = ap (λ (c : Channel Bytes). c.closed) s ∙ o;
      sized = ap (λ (c : Channel Bytes). c.capacity) s ∙ h;
    }

pub arrive-IsOpenLine :
    {n : ℕ} (ms : List Bytes) (l : Line) → IsOpenLine n l → IsOpenLine n (arrive ms l)
arrive-IsOpenLine ms l o =
    rw (arrive_open ms l o.open') (fill-IsOpenLine (l.waiting ++ ms) l.channel o.open' o.sized)

pub arrive-pending :
    (ms : List Bytes) (l : Line)
    → l.channel.closed ≡ false
    → pending (arrive ms l) ≡ pending l ++ ms
arrive-pending ms l o =
    rw (arrive_open ms l o)
      (fill-pending (l.waiting ++ ms) l.channel ∙ sym (append_assoc l.channel.buffer l.waiting ms))

pub arrive-orderly :
    {n : ℕ} (ms : List Bytes) (l : Line)
    → IsOpenLine n l
    → ((arrive ms l).waiting ≡ []) ⊎ (n ≤ length (arrive ms l).channel.buffer)
arrive-orderly ms l o =
    rw (arrive_open ms l o.open', sym o.sized) (fill-IsLine (l.waiting ++ ms) l.channel).orderly

abbrev pub cleared : Line → Line
cleared l = record { channel = emptied l.channel; waiting = [] }

abbrev line_of : List Bytes → List Bytes → ℕ → Line
line_of xs ws c = record {
  channel = record { buffer = xs; capacity = c; closed = false };
  waiting = ws;
}

receive_line_of :
    (fuel : ℕ) (xs ws got : List Bytes) (c : ℕ)
    → length (xs ++ ws) < fuel
    → receive_line fuel (line_of xs ws c) got ≡ some (got ++ (xs ++ ws), line_of [] [] c)
unfolding receive_line
receive_line_of zero xs ws got c h = elim h [ ]
receive_line_of (suc fuel) [] [] got c h = simp append-nil
receive_line_of (suc fuel) [] (w ∷ ws) got c h =
    receive_line_of fuel [] ws (got ++ w ∷ []) c (omega arith) ∙ simp append_assoc
receive_line_of (suc fuel) (x ∷ xs) ws got c h =
    let q : Channel Bytes = record { buffer = xs; capacity = c; closed = false } in
    let o = fill-IsOpenLine {n = c} ws q refl refl in
    filled (fill ws q) (fill-pending ws q) o.open' o.sized
      (λ ys zs. receive_line_of fuel ys zs (got ++ x ∷ []) c)
  where
    filled :
        (l : Line)
        → pending l ≡ xs ++ ws
        → l.channel.closed ≡ false
        → l.channel.capacity ≡ c
        → ((ys zs : List Bytes)
            → length (ys ++ zs) < fuel
            → receive_line fuel (line_of ys zs c) (got ++ x ∷ [])
              ≡ some ((got ++ x ∷ []) ++ (ys ++ zs), line_of [] [] c))
        → receive_line fuel l (got ++ x ∷ []) ≡ some (got ++ ((x ∷ xs) ++ ws), line_of [] [] c)
    filled l e o s again =
        ap (λ (m : Line). receive_line fuel m (got ++ x ∷ []))
          (λ i. record {
            channel = record { buffer = l.channel.buffer; capacity = s i; closed = o i };
            waiting = l.waiting;
          })
        ∙ again l.channel.buffer l.waiting (omega (arith, h, ap (λ l. length l) e))
        ∙ ap (λ ys. some (ys, line_of [] [] c))
            (append_assoc got (x ∷ []) (pending l) ∙ ap (λ ys. got ++ x ∷ ys) e)

-- The loop receives what is in the queue and what waits, in order.
pub receive_line_open :
    (l : Line)
    → l.channel.closed ≡ false
    → receive_line (suc (length (pending l))) l [] ≡ some (pending l, cleared l)
receive_line_open l o =
    subst
      (λ b.
        receive_line (suc (length (pending l)))
          (record l { channel = record l.channel { closed = b } }) []
        ≡ some (
          pending l,
          record { channel = record l.channel { buffer = []; closed = b }; waiting = [] },
        ))
      (sym o)
      (receive_line_of (suc (length (pending l))) l.channel.buffer l.waiting [] l.channel.capacity
        (omega arith))
