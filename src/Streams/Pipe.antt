-- ===== src/Streams/Pipe.antt =====
-- Reads of a stream that cannot seek, such as a pipe, with a given size.
use gar_virt.Prelude.{
  ltb, leb, if◌then◌else◌, if_cases, Bytes, length, take, drop, All, ℕ, zero, suc, ◌+◌, ◌-◌, ◌<◌,
  ◌≡◌, refl, sym, ap, ◌∙◌, Bool, true, false, none, some, List, [], ◌∷◌, ◌++◌, append-nil, arith,
}
use gar_virt.Streams.StdInput.{StdInputStream, read_up_to, read, read_all}
use gar_virt.Streams.Window.{take_nil, take_all, length-take, drop-drop, sum}

take-append : (c t : ℕ) (s : Bytes) → take (c + t) s ≡ take c s ++ take t (drop c s)
take-append zero t s = let same : zero + t ≡ t = omega arith in ap (λ k. take k s) same
take-append (suc c) t [] = take_nil (suc c + t) ∙ sym (take_nil t)
take-append (suc c) t (x ∷ s) =
    let same : suc c + t ≡ suc (c + t) = omega arith in
    ap (λ k. take k (x ∷ s)) same ∙ ap (λ l. x ∷ l) (take-append c t s)

module _ (content : Bytes) (size_ : ℕ) where
  -- With the flags, at a place that `tellg` does not tell.
  abbrev pub pipe : Bool → Bool → ℕ → StdInputStream
  pipe eofbit failbit position = record {
    stream = record {
      content = content;
      position = position;
      seekable = false;
      eofbit = eofbit;
      failbit = failbit;
    };
    size = some size_;
    initial_position = none;
  }

  abbrev all_of : List ℕ → Bytes × StdInputStream → Bytes
  all_of counts r = r.0 ++ read_all counts r.1

  failed-nothing :
      (counts : List ℕ) (eofbit : Bool) (position : ℕ)
      → read_all counts (pipe eofbit true position) ≡ []
  unfolding read_all read
  failed-nothing [] eofbit position = refl
  failed-nothing (c ∷ counts) true position =
      if_cases (λ r. all_of counts r ≡ []) (leb size_ 0) (failed-nothing counts true position)
        (failed-nothing counts (if leb (size_ - 0) 0 then true else true) position)
  failed-nothing (c ∷ counts) false position =
      if_cases (λ r. all_of counts r ≡ []) (leb size_ 0) (failed-nothing counts true position)
        (failed-nothing counts (if leb (size_ - 0) 0 then true else false) position)

  abbrev rest : ℕ → Bytes
  rest position = drop position content

  -- One read for fewer bytes than the size, by whether the content is too short for it.
  up_to-all :
      (c position : ℕ) (counts : List ℕ)
      → c < size_
      → read_all counts (pipe false false (position + c))
        ≡ take (sum counts) (drop (position + c) content)
      → all_of counts (read_up_to c size_ (pipe false false position))
        ≡ take (c + sum counts) (rest position)
  up_to-all c position counts small next =
      go (ltb (length (rest position)) c) refl (leb size_ (length got)) refl
    where
      got : Bytes
      got = take c (rest position)

      go :
          (short : Bool)
          → ltb (length (rest position)) c ≡ short
          → (full : Bool) → leb size_ (length got) ≡ full
          → got
              ++ read_all counts (pipe (if full then true else short) short (position + length got))
            ≡ take (c + sum counts) (rest position)
      go true e full e' =
          ap (λ l. got ++ l)
            (failed-nothing counts (if full then true else true) (position + length got))
          ∙ append-nil got
          ∙ take_all c (rest position) (ground arith)
          ∙ sym (take_all (c + sum counts) (rest position) (ground arith))
      go false e true e' =
          let many = length-take c (rest position) (ground arith) in absurd (ground arith)
      go false e false e' =
          let many = length-take c (rest position) (ground arith) in
          ap (λ l. got ++ read_all counts (pipe false false (position + l))) many
          ∙ ap (λ l. got ++ l) (next ∙ ap (take (sum counts)) (drop-drop position c content))
          ∙ sym (take-append c (sum counts) (rest position))

  -- Reads that are each for fewer bytes than the size give what they ask for, however many they are.
  pub read_all-pipe :
      (counts : List ℕ) (position : ℕ)
      → All (λ c. c < size_) counts
      → read_all counts (pipe false false position) ≡ take (sum counts) (drop position content)
  unfolding read_all read
  read_all-pipe [] position small = refl
  read_all-pipe (c ∷ counts) position (h, small) =
      go (leb size_ 0) (ground arith) (size_ - 0) (omega arith) (ltb (size_ - 0) c) (ground arith)
        (read_all-pipe counts (position + c) small)
    where
      go :
          (over : Bool)
          → over ≡ false
          → (left_ : ℕ) → left_ ≡ size_
          → (cut : Bool) → cut ≡ false
          → read_all counts (pipe false false (position + c))
            ≡ take (sum counts) (drop (position + c) content)
          → all_of counts (
              if over
              then ([], pipe true false position)
              else read_up_to (if cut then left_ else c) left_ (pipe false false position))
            ≡ take (c + sum counts) (rest position)
      go over e left_ e' cut e'' next = rw (e, e', e'') (up_to-all c position counts h next)
