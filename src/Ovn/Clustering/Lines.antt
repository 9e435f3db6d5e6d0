-- ===== src/Ovn/Clustering/Lines.antt =====
-- charms/ovn-central-k8s/src/ovn.py: what the lines of a state are read as, described block by block.
use sunbeam_charms.Prelude.{
  String, ◌≡◌, ◌≢◌, refl, ap, ◌∙◌, true, false, some, List, [], ◌∷◌, ◌++◌, map, All, arith,
  is_empty, ◌==◌, eq_iff, eq_refl, Bool-cases, inl, inr,
}
use mathlib.Core.List.{append_assoc, append-nil}
use sunbeam_charms.Text.{Unicode, has_prefix, after_char, until_char}
use sunbeam_charms.Dict.{Dict, insert, update, lookup-insert}
use sunbeam_charms.Exec.{ok}
use sunbeam_charms.Ovn.Clustering.{
  Item, Value, items, item_of, key_of, value_of, read_line, read_lines,
}

-- A line with a key, as what stands before and after its first colon, and the lines below it.
pub record Block : Type 0 where
  pub head : String
  pub key : String
  pub rest : String
  pub body : List String

insert-insert :
    {V : Type 0} (k : String) (v w : V) (d : Dict V) → insert k w (insert k v d) ≡ insert k w d
unfolding insert
insert-insert k v w [] = rw (eq_refl k) refl
insert-insert k v w ((j, x) ∷ d) = ground (arith, insert-insert k v w d)

abbrev pub lines_of : List Block → List String
lines_of [] = []
lines_of (b ∷ bs) = b.head ∷ (b.body ++ lines_of bs)

module _ (u : Unicode) where
  -- The head does not begin with a space and has its parts around the first colon, the other lines
  -- do, and if there are any, nothing follows the colon and the key is not empty.
  abbrev pub IsBlock : Block → Type 0
  IsBlock b =
      (has_prefix " " b.head ≡ false)
      × (until_char b':' b.head ≡ b.key)
      × (after_char b':' b.head ≡ some b.rest)
      × All (λ l. has_prefix " " l ≡ true) b.body
      × (is_empty b.body ≡ false → (b.rest ≡ "") × (key_of u b.key ≢ ""))

  -- What is kept of a block.
  abbrev kept : String → String → List String → Value
  kept k rest [] = value_of u k rest
  kept k rest (l ∷ ls) = items (map (item_of u k) (l ∷ ls))

  abbrev value_of_block : Block → Value
  value_of_block b = kept (key_of u b.key) b.rest b.body

  abbrev pub entry : Block → String × Value
  entry b = (key_of u b.key, value_of_block b)

  read_line-body :
      (k l : String) (xs : List Item) (d : Dict Value)
      → k ≢ ""
      → has_prefix " " l ≡ true
      → read_line u l (k, insert k (items xs) d)
        ≡ ok (k, insert k (items (xs ++ item_of u k l ∷ [])) d)
  unfolding read_line
  read_line-body k l xs d ne h =
      rw (not_empty, h)
        (rw (lookup-insert k k (items xs) d) (
          rw (eq_refl k)
            (rw (insert-insert k (items xs) (items (xs ++ item_of u k l ∷ [])) d) refl)))
    where
      not_empty : (k == "") ≡ false
      not_empty = ground (arith, eq_iff k "")

  read_lines-body :
      (k : String) (body rest : List String) (xs : List Item) (d : Dict Value)
      → k ≢ ""
      → All (λ l. has_prefix " " l ≡ true) body
      → read_lines u (body ++ rest) (k, insert k (items xs) d)
        ≡ read_lines u rest (k, insert k (items (xs ++ map (item_of u k) body)) d)
  unfolding read_lines
  read_lines-body k [] rest xs d ne h = rw append-nil refl
  read_lines-body k (l ∷ body) rest xs d ne h = rw (read_line-body k l xs d ne h.0) (
      read_lines-body k body rest (xs ++ item_of u k l ∷ []) d ne h.1
      ∙ ap (λ ys. read_lines u rest (k, insert k (items ys) d))
          (append_assoc xs (item_of u k l ∷ []) (map (item_of u k) body)))

  read_line-head :
      (b : Block) (k : String) (d : Dict Value)
      → IsBlock b
      → read_line u b.head (k, d)
        ≡ ok (key_of u b.key, insert (key_of u b.key) (value_of u (key_of u b.key) b.rest) d)
  unfolding read_line
  read_line-head b k d (p, e, f, h, c) = elim (Bool-cases (k == "")) [
    | inl z ↦ rw (z, f, e) refl
    | inr z ↦ rw (z, p, f, e) refl
  ]

  read_lines-below :
      (k v : String) (body rest : List String) (d : Dict Value)
      → (is_empty body ≡ false → (v ≡ "") × (k ≢ ""))
      → All (λ l. has_prefix " " l ≡ true) body
      → read_lines u (body ++ rest) (k, insert k (value_of u k v) d)
        ≡ read_lines u rest (k, insert k (kept k v body) d)
  read_lines-below k v [] rest d c h = refl
  read_lines-below k v (l ∷ body) rest d c h =
      rw ((c refl).0) (unfold value_of in read_lines-body k (l ∷ body) rest [] d (c refl).1 h)

  read_lines-block :
      (b : Block) (rest : List String) (k : String) (d : Dict Value)
      → IsBlock b
      → read_lines u (b.head ∷ (b.body ++ rest)) (k, d)
        ≡ read_lines u rest (key_of u b.key, insert (key_of u b.key) (value_of_block b) d)
  unfolding read_lines
  read_lines-block b rest k d h =
      rw (read_line-head b k d h) (read_lines-below (key_of u b.key) b.rest b.body rest d h.4 h.3)

  -- Lines that stand in blocks, a line with a colon and below it, if it has no value, lines that
  -- begin with a space, are read as the dictionary of the blocks: under the key in small letters,
  -- with underscores for spaces, the value of its line, or the items of the lines below; the last
  -- block of a key counts.
  pub read_lines-blocks :
      (bs : List Block) (k : String) (d : Dict Value)
      → All IsBlock bs
      → (last : String) × (read_lines u (lines_of bs) (k, d) ≡ ok (last, update d (map entry bs)))
  unfolding read_lines update
  read_lines-blocks [] k d h = (k, refl)
  read_lines-blocks (b ∷ bs) k d (h, t) =
      let (last, e) =
        read_lines-blocks bs (key_of u b.key) (insert (key_of u b.key) (value_of_block b) d) t in
      (last, read_lines-block b (lines_of bs) k d h ∙ e)
