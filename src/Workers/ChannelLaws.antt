-- ===== src/Workers/ChannelLaws.antt =====
-- Emptying a channel, and putting the values back.
use mathlib.Core.List.{append-nil, append_assoc}
use sumologic_lambda_extensi.Base.{
  ℕ, zero, suc, ◌+◌, ◌≤◌, ◌<◌, ◌≡◌, refl, ◌∙◌, ap, sym, subst, true, false, none, some, List, [],
  ◌∷◌, ◌++◌, length, length-append, arith,
}
use sumologic_lambda_extensi.Workers.Channel.{
  returns, Channel, push, send, try_send, receive_loop, receive_all, put_back, try_put_back,
}

module _ {A : Type 0} where
  abbrev pub emptied : Channel A → Channel A
  emptied c = record c { buffer = [] }

  -- Of an open channel, the loop takes all that is there in order and ends, if it has the rounds.
  receive_loop_open :
      (xs : List A) (fuel : ℕ) (nil : A) (capacity : ℕ) (got : List A)
      → length xs < fuel
      → receive_loop fuel nil (record { buffer = xs; capacity = capacity; closed = false }) got
        ≡ some (got ++ xs, record { buffer = []; capacity = capacity; closed = false })
  unfolding receive_loop
  receive_loop_open xs zero nil capacity got h = elim h [ ]
  receive_loop_open [] (suc fuel) nil capacity got h = simp append-nil
  receive_loop_open (x ∷ xs) (suc fuel) nil capacity got h =
      receive_loop_open xs fuel nil capacity (got ++ x ∷ []) (omega arith) ∙ simp append_assoc

  pub receive_all_open :
      (nil : A) (c : Channel A) → c.closed ≡ false → receive_all nil c ≡ some (c.buffer, emptied c)
  unfolding receive_all
  receive_all_open nil c h =
      subst
        (λ b.
          receive_loop (suc (length c.buffer)) nil (record c { closed = b }) []
          ≡ some (c.buffer, emptied (record c { closed = b })))
        (sym h) (receive_loop_open c.buffer _ nil c.capacity [] (omega arith))

  closed_loop :
      (fuel : ℕ) (xs : List A) (nil : A) (capacity : ℕ) (got : List A)
      → receive_loop fuel nil (record { buffer = xs; capacity = capacity; closed = true }) got
        ≡ none
  unfolding receive_loop
  closed_loop zero xs nil capacity got = refl
  closed_loop (suc fuel) [] nil capacity got = closed_loop fuel [] nil capacity _
  closed_loop (suc fuel) (x ∷ xs) nil capacity got = closed_loop fuel xs nil capacity _

  -- On a closed channel it never ends, however many rounds it is given.
  pub receive_loop_closed :
      (fuel : ℕ) (nil : A) (c : Channel A) (got : List A)
      → c.closed ≡ true
      → receive_loop fuel nil c got ≡ none
  receive_loop_closed fuel nil c got h =
      subst (λ b. receive_loop fuel nil (record c { closed = b }) got ≡ none) (sym h)
        (closed_loop fuel c.buffer nil c.capacity got)

  send_fits :
      (x : A) (c : Channel A)
      → c.closed ≡ false
      → length c.buffer < c.capacity
      → send x c ≡ returns (push c x)
  unfolding send
  send_fits x c o h = ground arith

  try_send_fits :
      (x : A) (c : Channel A)
      → c.closed ≡ false
      → length c.buffer < c.capacity
      → try_send x c ≡ returns (true, push c x)
  unfolding try_send
  try_send_fits x c o h = ground arith

  -- Values that fit into an open channel are all put back, in order, and the goroutine does not wait.
  pub put_back_fits :
      (xs : List A) (c : Channel A)
      → c.closed ≡ false
      → length c.buffer + length xs ≤ c.capacity
      → put_back xs c ≡ returns (record c { buffer = c.buffer ++ xs })
  unfolding put_back
  put_back_fits [] c o h = ap (λ l. returns (record c { buffer = l })) (sym (append-nil c.buffer))
  put_back_fits (x ∷ xs) c o h =
      rw (send_fits x c o (omega arith), put_back)
        (put_back_fits xs (push c x) o (omega (arith, length-append c.buffer (x ∷ [])))
          ∙ ap (λ l. returns (record c { buffer = l })) (append_assoc c.buffer (x ∷ []) xs))

  pub try_put_back_fits :
      (xs : List A) (c : Channel A)
      → c.closed ≡ false
      → length c.buffer + length xs ≤ c.capacity
      → try_put_back xs c ≡ returns (record c { buffer = c.buffer ++ xs })
  unfolding try_put_back
  try_put_back_fits [] c o h =
      ap (λ l. returns (record c { buffer = l })) (sym (append-nil c.buffer))
  try_put_back_fits (x ∷ xs) c o h =
      rw (try_send_fits x c o (omega arith), try_put_back)
        (try_put_back_fits xs (push c x) o (omega (arith, length-append c.buffer (x ∷ [])))
          ∙ ap (λ l. returns (record c { buffer = l })) (append_assoc c.buffer (x ∷ []) xs))
