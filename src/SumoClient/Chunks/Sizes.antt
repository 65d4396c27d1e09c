-- ===== src/SumoClient/Chunks/Sizes.antt =====
-- How large the chunks are, how many there are, and when an error is reported.
use sumologic_lambda_extensi.Base.{
  ℕ, ◌+◌, ◌≤◌, ◌<◌, ◌≡◌, refl, ◌↔◌, ◌⊎◌, none, List, [], ◌∷◌, ◌++◌, leb, length, length-append,
  Result, ok, err, Bool-cases, inl, inr, All, All-append, All-parts, Member, All-Member, arith,
  tests,
}
use sumologic_lambda_extensi.Json.{JsonMap}
use sumologic_lambda_extensi.SumoClient.Services.{Bytes}
use sumologic_lambda_extensi.SumoClient.Chunks.{
  newline, Chunking, no_chunks, add_item, chunk_item, chunk_loop, create_chunks,
}
use sumologic_lambda_extensi.SumoClient.Chunks.Content.{texts_of, marshalled}

module _ (P : Bytes → Type 0) (max_size : ℕ) where
  -- A chunk is below the limit, or it has the property of an item.
  abbrev Fits : Bytes → Type 0
  Fits chunk = (length chunk < max_size) ⊎ P chunk

  record Inv (c : Chunking) : Type 0 where
    size : c.chunk_size ≡ length c.current
    fits : All Fits (c.chunks ++ c.current ∷ [])

  replace_last :
      (cs : List Bytes) (x y : Bytes) → All Fits (cs ++ x ∷ []) → Fits y → All Fits (cs ++ y ∷ [])
  replace_last [] x y h f = (f, tt)
  replace_last (c ∷ cs) x y h f = (h.0, replace_last cs x y h.1 f)

  add_item-Inv : (b : Bytes) (c : Chunking) → P b → Inv c → Inv (add_item max_size b c)
  unfolding add_item
  add_item-Inv b c p v = elim (Bool-cases (leb max_size (c.chunk_size + length b + 1))) [
    | inl full ↦ rw full (record {
      size = refl;
      fits = All-append Fits (c.chunks ++ c.current ∷ []) (b ∷ []) v.fits (inr p, tt);
    })
    | inr room ↦ rw room (record {
      size = omega (arith, v.size, length-append c.current (newline ∷ b));
      fits =
          replace_last c.chunks c.current _ v.fits
            (inl (omega (tests, room, v.size, length-append c.current (newline ∷ b))));
    })
  ]

  chunk_item-Inv :
      (r : Result Bytes) (c : Chunking) → All P (texts_of r) → Inv c → Inv (chunk_item max_size r c)
  unfolding chunk_item
  chunk_item-Inv (err e) c p v = record { size = v.size; fits = v.fits }
  chunk_item-Inv (ok b) c p v = add_item-Inv b c p.0 v

module _ (marshal : JsonMap → Result Bytes) (max_size : ℕ) where
  chunk_loop-Inv :
      (P : Bytes → Type 0) (items : List JsonMap) (c : Chunking)
      → All P (marshalled marshal items)
      → Inv P max_size c
      → Inv P max_size (chunk_loop marshal max_size items c)
  unfolding chunk_loop marshalled
  chunk_loop-Inv P [] c p v = v
  chunk_loop-Inv P (item ∷ items) c p v =
      let q = All-parts P (texts_of (marshal item)) _ p in
      chunk_loop-Inv P items _ q.1 (chunk_item-Inv P max_size (marshal item) c q.0 v)

  -- For a limit above 0 every chunk is shorter than the limit, or is the text of a single item.
  pub create_chunks-Fits :
      (items : List JsonMap)
      → 0 < max_size
      → All
          (λ chunk. (length chunk < max_size) ⊎ Member chunk (marshalled marshal items))
          (create_chunks marshal max_size items).0
  unfolding create_chunks
  create_chunks-Fits items h =
      (chunk_loop-Inv (λ b. Member b (marshalled marshal items)) items no_chunks
        (All-Member _ _ (λ a m. m)) (record { size = refl; fits = (inl h, tt) })).fits

  -- The chunks so far, the items still to come and those left out.
  count-chunk_item :
      (r : Result Bytes) (c : Chunking)
      → (length (chunk_item max_size r c).chunks ≤ length c.chunks + length (texts_of r))
        × ((chunk_item max_size r c).error_count + length (texts_of r) ≡ c.error_count + 1)
  unfolding chunk_item add_item
  count-chunk_item (err e) c = omega arith
  count-chunk_item (ok b) c = ground (arith, length-append c.chunks (c.current ∷ []))

  count-chunk_loop :
      (items : List JsonMap) (c : Chunking)
      → (length (chunk_loop marshal max_size items c).chunks
          ≤ length c.chunks + length (marshalled marshal items))
        × ((chunk_loop marshal max_size items c).error_count + length (marshalled marshal items)
            ≡ c.error_count + length items)
  unfolding chunk_loop marshalled
  count-chunk_loop [] c = omega arith
  count-chunk_loop (item ∷ items) c = omega (
    arith,
    count-chunk_loop items (chunk_item max_size (marshal item) c),
    count-chunk_item (marshal item) c,
    length-append (texts_of (marshal item)) (marshalled marshal items),
  )

  -- There is at most one chunk more than items that could be marshalled.
  pub length-create_chunks :
      (items : List JsonMap)
      → length (create_chunks marshal max_size items).0 ≤ length (marshalled marshal items) + 1
  unfolding create_chunks
  length-create_chunks items =
      let c = chunk_loop marshal max_size items no_chunks in
      omega (arith, count-chunk_loop items no_chunks, length-append c.chunks (c.current ∷ []))

  -- No error is returned exactly when every item could be marshalled.
  pub create_chunks-error :
      (items : List JsonMap)
      → ((create_chunks marshal max_size items).1 ≡ none)
        ↔ (length (marshalled marshal items) ≡ length items)
  unfolding create_chunks
  create_chunks-error items = ground (arith, count-chunk_loop items no_chunks)
