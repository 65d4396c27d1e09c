-- ===== src/SumoClient/Chunks/Content.antt =====
-- The chunks hold every item that could be marshalled, once and in order.
use sumologic_lambda_extensi.Base.{
  ℕ, ◌≡◌, refl, ◌∙◌, sym, List, [], ◌∷◌, ◌++◌, append_assoc, append-nil, Result, ok, err, arith,
}
use sumologic_lambda_extensi.Json.{JsonMap}
use sumologic_lambda_extensi.SumoClient.Services.{Bytes}
use sumologic_lambda_extensi.SumoClient.Chunks.{
  newline, Chunking, no_chunks, add_item, chunk_item, chunk_loop, create_chunks,
}

abbrev pub texts_of : Result Bytes → List Bytes
texts_of (ok b) = b ∷ []
texts_of (err e) = []

-- The texts of the items that can be marshalled.
unfoldable pub marshalled : (JsonMap → Result Bytes) → List JsonMap → List Bytes
marshalled marshal [] = []
marshalled marshal (item ∷ items) = texts_of (marshal item) ++ marshalled marshal items

-- Each text behind a line feed.
unfoldable pub lines : List Bytes → Bytes
lines [] = []
lines (b ∷ bs) = newline ∷ (b ++ lines bs)

-- The chunks joined by line feeds.
unfoldable pub rejoin : List Bytes → Bytes
unfolding lines
rejoin [] = []
rejoin (c ∷ cs) = c ++ lines cs

pub lines-append : (xs ys : List Bytes) → lines (xs ++ ys) ≡ lines xs ++ lines ys
unfolding lines
lines-append [] ys = refl
lines-append (x ∷ xs) ys = simp (lines-append xs ys, append_assoc)

-- A new chunk adds a line.
rejoin_new :
    (cs : List Bytes) (x b : Bytes)
    → rejoin ((cs ++ x ∷ []) ++ b ∷ []) ≡ rejoin (cs ++ x ∷ []) ++ newline ∷ b
unfolding rejoin
rejoin_new [] x b = simp (append-nil)
rejoin_new (c ∷ cs) x b = simp (lines-append, append_assoc, append-nil)

-- A longer last chunk adds what it grew by.
rejoin_longer :
    (cs : List Bytes) (x y : Bytes) → rejoin (cs ++ (x ++ y) ∷ []) ≡ rejoin (cs ++ x ∷ []) ++ y
unfolding rejoin
rejoin_longer [] x y = simp (append-nil)
rejoin_longer (c ∷ cs) x y = simp (lines-append, append_assoc, append-nil)

abbrev pub content : Chunking → Bytes
content c = rejoin (c.chunks ++ c.current ∷ [])

content-add_item :
    (max_size : ℕ) (b : Bytes) (c : Chunking)
    → content (add_item max_size b c) ≡ content c ++ newline ∷ b
unfolding add_item
content-add_item max_size b c =
    ground (arith, rejoin_new c.chunks c.current b, rejoin_longer c.chunks c.current (newline ∷ b))

content-chunk_item :
    (max_size : ℕ) (r : Result Bytes) (c : Chunking)
    → content (chunk_item max_size r c) ≡ content c ++ lines (texts_of r)
unfolding chunk_item lines
content-chunk_item max_size (err e) c = sym (append-nil _)
content-chunk_item max_size (ok b) c = content-add_item max_size b c ∙ simp append-nil

module _ (marshal : JsonMap → Result Bytes) (max_size : ℕ) where
  content-chunk_loop :
      (items : List JsonMap) (c : Chunking)
      → content (chunk_loop marshal max_size items c)
        ≡ content c ++ lines (marshalled marshal items)
  unfolding chunk_loop marshalled lines
  content-chunk_loop [] c = simp (append-nil, lines)
  content-chunk_loop (item ∷ items) c =
      simp (content-chunk_loop items, content-chunk_item, lines-append, append_assoc)

  -- Whatever the size limit is, the chunks joined by line feeds are the lines of the items that
  -- could be marshalled, every one once and in order.
  pub rejoin-create_chunks :
      (items : List JsonMap)
      → rejoin (create_chunks marshal max_size items).0 ≡ lines (marshalled marshal items)
  unfolding create_chunks rejoin lines
  rejoin-create_chunks items = content-chunk_loop items no_chunks
